-- ===== src/Tests/Text.antt =====
-- Strings, numbers and formats, and the table of the interrupts.
use ece391_mp.Base.{
  ℕ, ◌+◌, ◌-◌, ◌*◌, ◌^◌, ◌≤◌, ◌<◌, ◌≡◌, refl, List, [], ◌∷◌, ok, fault, ◌>>=◌, slice, arith,
}
use ece391_mp.Str.{itoa}
use ece391_mp.Str.Reverse.{IsString}
use ece391_mp.Str.Digits.{Denotes}
use ece391_mp.Str.Itoa.{itoa-value_of, itoa-fault}
use ece391_mp.Printf.{Arg, word, text, outside, printf}
use ece391_mp.Printf.Render.{render, put_all, until_nul}
use ece391_mp.Printf.Shown.{Shows, Fits, fits_end, fits_plain, fits_hex, fits_chars, printf-Shows}
use ece391_mp.Tests.Processes.{in_shell}
use ece391_mp.Idt.{
  Handler, exc_de, exc_db, exc_nmi, exc_bp, exc_of, exc_br, exc_ud, exc_nm, exc_df, exc_cso, exc_ts,
  exc_np, exc_ss, exc_gp, exc_pf, exc_af, exc_mf, exc_ac, exc_mc, exc_xf, exc_ve, exc_sx,
  irqh_keyboard, irqh_pit, irqh_rtc, irqh_syscall, IdtDesc, make_idt_desc, int, dpl0,
}
use ece391_mp.Idt.Gates.{vector}

abbrev zeros : ℕ → ℕ
zeros i = 0

itoa_example :
    (r : ℕ → ℕ) × (n : ℕ) × (n ≤ 4)
    × (itoa 1234 8 zeros 10 ≡ ok r)
    × IsString 8 r n
    × Denotes 10 (slice r 0 n) 1234
itoa_example =
    itoa-value_of 1234 8 4 10 zeros (omega arith) (omega arith) (omega arith) (omega arith)
      (omega arith) (omega arith) (omega arith)

itoa-fault_example : itoa (2 ^ 32 - 1) 36 zeros 10 ≡ fault
itoa-fault_example = itoa-fault (2 ^ 32 - 1) 36 10 zeros (omega arith) (omega arith)

-- "%x %s"
abbrev format : List ℕ
format = b'%' ∷ b'x' ∷ 32 ∷ b'%' ∷ b's' ∷ 0 ∷ []

abbrev args : List Arg
args = word 255 ∷ text (b'o' ∷ b'k' ∷ 0 ∷ []) ∷ []

format_rendered : render zeros format outside args 0 ≡ ok (b'F' ∷ b'F' ∷ 32 ∷ b'o' ∷ b'k' ∷ [], 5)
unfolding render
format_rendered = refl

format-Fits : Fits format args
unfolding until_nul
format-Fits =
    fits_hex 255 (32 ∷ b'%' ∷ b's' ∷ 0 ∷ []) (text (b'o' ∷ b'k' ∷ 0 ∷ []) ∷ []) (omega arith) (
      fits_plain 32 (b'%' ∷ b's' ∷ 0 ∷ []) (text (b'o' ∷ b'k' ∷ 0 ∷ []) ∷ [])
        (λ e. absurd (omega (arith, e))) (λ e. absurd (omega (arith, e)))
        (fits_chars (b'o' ∷ b'k' ∷ 0 ∷ []) (b'o' ∷ b'k' ∷ []) (0 ∷ []) [] refl (fits_end [] [])))

printf_example :
    (out : List ℕ) × (n : ℕ) × Shows format args out
    × (printf zeros in_shell format args ≡ (put_all in_shell out >>= λ k'. ok (k', n)))
printf_example = printf-Shows zeros in_shell format args format-Fits

-- Every stub at an address of its own, and a table without a gate.
abbrev pub address : Handler → ℕ
address h = 0x400000 + vector h * 16

abbrev pub no_gate : ℕ → IdtDesc
no_gate v = record (make_idt_desc 0 0 int dpl0) { present = 0 }

pub address_small : (h : Handler) → address h < 2 ^ 32
unfolding vector
address_small exc_de = omega arith
address_small exc_db = omega arith
address_small exc_nmi = omega arith
address_small exc_bp = omega arith
address_small exc_of = omega arith
address_small exc_br = omega arith
address_small exc_ud = omega arith
address_small exc_nm = omega arith
address_small exc_df = omega arith
address_small exc_cso = omega arith
address_small exc_ts = omega arith
address_small exc_np = omega arith
address_small exc_ss = omega arith
address_small exc_gp = omega arith
address_small exc_pf = omega arith
address_small exc_af = omega arith
address_small exc_mf = omega arith
address_small exc_ac = omega arith
address_small exc_mc = omega arith
address_small exc_xf = omega arith
address_small exc_ve = omega arith
address_small exc_sx = omega arith
address_small irqh_keyboard = omega arith
address_small irqh_pit = omega arith
address_small irqh_rtc = omega arith
address_small irqh_syscall = omega arith
