-- ===== src/Exceptions.antt =====
-- The handlers of the processor's exceptions, which the macros of student-distrib/idt.c and the list of
-- student-distrib/idt_asm.S make.
pub mod Status
use ece391_mp.Base.{
  ℕ, Bool, true, false, List, [], ◌∷◌, ◌++◌, Option, none, some, Result, ok, ◌>>=◌, if◌then◌else◌,
}
use ece391_mp.Kernel.{Kernel}
use ece391_mp.Screen.{clear}
use ece391_mp.Printf.{Arg, word, printf}
use ece391_mp.Task.{Halted, Stack, halt, set_program_exception}
use ece391_mp.Idt.{
  Handler, exc_de, exc_db, exc_nmi, exc_bp, exc_of, exc_br, exc_ud, exc_nm, exc_df, exc_cso, exc_ts,
  exc_np, exc_ss, exc_gp, exc_pf, exc_af, exc_mf, exc_ac, exc_mc, exc_xf, exc_ve, exc_sx,
}

-- What the processor pushes, as far as a handler prints it: `IntStack` and `IntStackE`.
pub record IntStack : Type 0 where
  pub errc : ℕ
  pub eip : ℕ
  pub eflags : ℕ

-- What a line of the list gives to the macro: the text, whether the screen is cleared and whether there is
-- an error code.
pub record ExcDfl : Type 0 where
  pub str : List ℕ
  pub clr : Bool
  pub has_errc : Bool

-- The list; the other stubs are no exceptions.
unfoldable pub exc_dfl : Handler → Option ExcDfl
exc_dfl exc_de = some (record {
  str =
      b'D' ∷ b'i' ∷ b'v' ∷ b'i' ∷ b'd' ∷ b'e' ∷ b'-' ∷ b'b' ∷ b'y' ∷ b'-' ∷ b'z' ∷ b'e' ∷ b'r'
      ∷ b'o' ∷ 32 ∷ b'E' ∷ b'r' ∷ b'r' ∷ b'o' ∷ b'r' ∷ [];
  clr = true;
  has_errc = false;
})
exc_dfl exc_db =
    some (record { str = b'D' ∷ b'e' ∷ b'b' ∷ b'u' ∷ b'g' ∷ []; clr = true; has_errc = false })
exc_dfl exc_nmi = some (record {
  str =
      b'N' ∷ b'o' ∷ b'n' ∷ b'-' ∷ b'm' ∷ b'a' ∷ b's' ∷ b'k' ∷ b'a' ∷ b'b' ∷ b'l' ∷ b'e' ∷ 32 ∷ b'I'
      ∷ b'n' ∷ b't' ∷ b'e' ∷ b'r' ∷ b'r' ∷ b'u' ∷ b'p' ∷ b't' ∷ [];
  clr = true;
  has_errc = false;
})
exc_dfl exc_bp = some (record {
  str = b'B' ∷ b'r' ∷ b'e' ∷ b'a' ∷ b'k' ∷ b'p' ∷ b'o' ∷ b'i' ∷ b'n' ∷ b't' ∷ [];
  clr = true;
  has_errc = false;
})
exc_dfl exc_of = some (record {
  str = b'O' ∷ b'v' ∷ b'e' ∷ b'r' ∷ b'f' ∷ b'l' ∷ b'o' ∷ b'w' ∷ [];
  clr = true;
  has_errc = false;
})
exc_dfl exc_br = some (record {
  str =
      b'B' ∷ b'o' ∷ b'u' ∷ b'n' ∷ b'd' ∷ 32 ∷ b'R' ∷ b'a' ∷ b'n' ∷ b'g' ∷ b'e' ∷ 32 ∷ b'E' ∷ b'x'
      ∷ b'c' ∷ b'e' ∷ b'e' ∷ b'd' ∷ b'e' ∷ b'd' ∷ [];
  clr = true;
  has_errc = false;
})
exc_dfl exc_ud = some (record {
  str =
      b'I' ∷ b'n' ∷ b'v' ∷ b'a' ∷ b'l' ∷ b'i' ∷ b'd' ∷ 32 ∷ b'O' ∷ b'p' ∷ b'c' ∷ b'o' ∷ b'd' ∷ b'e'
      ∷ [];
  clr = true;
  has_errc = false;
})
exc_dfl exc_nm = some (record {
  str =
      b'D' ∷ b'e' ∷ b'v' ∷ b'i' ∷ b'c' ∷ b'e' ∷ 32 ∷ b'N' ∷ b'o' ∷ b't' ∷ 32 ∷ b'A' ∷ b'v' ∷ b'a'
      ∷ b'i' ∷ b'l' ∷ b'a' ∷ b'b' ∷ b'l' ∷ b'e' ∷ [];
  clr = true;
  has_errc = false;
})
exc_dfl exc_df = some (record {
  str = b'D' ∷ b'o' ∷ b'u' ∷ b'b' ∷ b'l' ∷ b'e' ∷ 32 ∷ b'F' ∷ b'a' ∷ b'u' ∷ b'l' ∷ b't' ∷ [];
  clr = true;
  has_errc = false;
})
exc_dfl exc_cso = some (record {
  str =
      b'C' ∷ b'o' ∷ b'p' ∷ b'r' ∷ b'o' ∷ b'c' ∷ b'e' ∷ b's' ∷ b's' ∷ b'o' ∷ b'r' ∷ 32 ∷ b'S' ∷ b'e'
      ∷ b'g' ∷ b'm' ∷ b'e' ∷ b'n' ∷ b't' ∷ 32 ∷ b'O' ∷ b'v' ∷ b'e' ∷ b'r' ∷ b'r' ∷ b'u' ∷ b'n' ∷ [];
  clr = true;
  has_errc = false;
})
exc_dfl exc_ts = some (record {
  str = b'I' ∷ b'n' ∷ b'v' ∷ b'a' ∷ b'l' ∷ b'i' ∷ b'd' ∷ 32 ∷ b'T' ∷ b'S' ∷ b'S' ∷ [];
  clr = true;
  has_errc = false;
})
exc_dfl exc_np = some (record {
  str =
      b'S' ∷ b'e' ∷ b'g' ∷ b'm' ∷ b'e' ∷ b'n' ∷ b't' ∷ 32 ∷ b'N' ∷ b'o' ∷ b't' ∷ 32 ∷ b'P' ∷ b'r'
      ∷ b'e' ∷ b's' ∷ b'e' ∷ b'n' ∷ b't' ∷ [];
  clr = true;
  has_errc = false;
})
exc_dfl exc_ss = some (record {
  str =
      b'S' ∷ b't' ∷ b'a' ∷ b'c' ∷ b'k' ∷ b'-' ∷ b'S' ∷ b'e' ∷ b'g' ∷ b'm' ∷ b'e' ∷ b'n' ∷ b't' ∷ 32
      ∷ b'F' ∷ b'a' ∷ b'u' ∷ b'l' ∷ b't' ∷ [];
  clr = true;
  has_errc = false;
})
exc_dfl exc_gp = some (record {
  str =
      b'G' ∷ b'e' ∷ b'n' ∷ b'e' ∷ b'r' ∷ b'a' ∷ b'l' ∷ 32 ∷ b'P' ∷ b'r' ∷ b'o' ∷ b't' ∷ b'e' ∷ b'c'
      ∷ b't' ∷ b'i' ∷ b'o' ∷ b'n' ∷ 32 ∷ b'F' ∷ b'a' ∷ b'u' ∷ b'l' ∷ b't' ∷ [];
  clr = true;
  has_errc = true;
})
exc_dfl exc_pf = some (record {
  str = b'P' ∷ b'a' ∷ b'g' ∷ b'e' ∷ 32 ∷ b'F' ∷ b'a' ∷ b'u' ∷ b'l' ∷ b't' ∷ [];
  clr = false;
  has_errc = true;
})
exc_dfl exc_af = some (record {
  str =
      b'(' ∷ b'D' ∷ b'e' ∷ b'b' ∷ b'u' ∷ b'g' ∷ b')' ∷ 32 ∷ b'A' ∷ b's' ∷ b's' ∷ b'e' ∷ b'r' ∷ b't'
      ∷ b'i' ∷ b'o' ∷ b'n' ∷ 32 ∷ b'F' ∷ b'a' ∷ b'i' ∷ b'l' ∷ b'u' ∷ b'r' ∷ b'e' ∷ [];
  clr = false;
  has_errc = false;
})
exc_dfl exc_mf = some (record {
  str =
      b'x' ∷ b'8' ∷ b'7' ∷ 32 ∷ b'F' ∷ b'l' ∷ b'o' ∷ b'a' ∷ b't' ∷ b'i' ∷ b'n' ∷ b'g' ∷ b'-' ∷ b'P'
      ∷ b'o' ∷ b'i' ∷ b'n' ∷ b't' ∷ 32 ∷ b'E' ∷ b'x' ∷ b'c' ∷ b'e' ∷ b'p' ∷ b't' ∷ b'i' ∷ b'o'
      ∷ b'n' ∷ [];
  clr = true;
  has_errc = false;
})
exc_dfl exc_ac = some (record {
  str =
      b'A' ∷ b'l' ∷ b'i' ∷ b'g' ∷ b'n' ∷ b'm' ∷ b'e' ∷ b'n' ∷ b't' ∷ 32 ∷ b'C' ∷ b'h' ∷ b'e' ∷ b'c'
      ∷ b'k' ∷ [];
  clr = true;
  has_errc = false;
})
exc_dfl exc_mc = some (record {
  str = b'M' ∷ b'a' ∷ b'c' ∷ b'h' ∷ b'i' ∷ b'n' ∷ b'e' ∷ 32 ∷ b'C' ∷ b'h' ∷ b'e' ∷ b'c' ∷ b'k' ∷ [];
  clr = true;
  has_errc = false;
})
exc_dfl exc_xf = some (record {
  str =
      b'S' ∷ b'I' ∷ b'M' ∷ b'D' ∷ 32 ∷ b'F' ∷ b'l' ∷ b'o' ∷ b'a' ∷ b't' ∷ b'i' ∷ b'n' ∷ b'g' ∷ b'-'
      ∷ b'P' ∷ b'o' ∷ b'i' ∷ b'n' ∷ b't' ∷ 32 ∷ b'E' ∷ b'x' ∷ b'c' ∷ b'e' ∷ b'p' ∷ b't' ∷ b'i'
      ∷ b'o' ∷ b'n' ∷ [];
  clr = true;
  has_errc = false;
})
exc_dfl exc_ve = some (record {
  str =
      b'V' ∷ b'i' ∷ b'r' ∷ b't' ∷ b'u' ∷ b'a' ∷ b'l' ∷ b'i' ∷ b'z' ∷ b'a' ∷ b't' ∷ b'i' ∷ b'o'
      ∷ b'n' ∷ 32 ∷ b'E' ∷ b'x' ∷ b'c' ∷ b'e' ∷ b'p' ∷ b't' ∷ b'i' ∷ b'o' ∷ b'n' ∷ [];
  clr = true;
  has_errc = false;
})
exc_dfl exc_sx = some (record {
  str =
      b'S' ∷ b'e' ∷ b'c' ∷ b'u' ∷ b'r' ∷ b'i' ∷ b't' ∷ b'y' ∷ 32 ∷ b'E' ∷ b'x' ∷ b'c' ∷ b'e' ∷ b'p'
      ∷ b't' ∷ b'i' ∷ b'o' ∷ b'n' ∷ [];
  clr = true;
  has_errc = false;
})
exc_dfl h = none

-- The format of `ERRC_PRINTF`, and its arguments.
unfoldable pub exc_format : ExcDfl → List ℕ
exc_format x =
    let head = b'E' ∷ b'X' ∷ b'C' ∷ b':' ∷ 32 ∷ [] in
    let errc =
      b':' ∷ 32 ∷ b'e' ∷ b'r' ∷ b'r' ∷ b'c' ∷ b':' ∷ 32 ∷ b'0' ∷ b'x' ∷ b'%' ∷ b'x' ∷ b',' ∷ 32
      ∷ b'e' ∷ b'i' ∷ b'p' ∷ b':' ∷ 32 ∷ b'0' ∷ b'x' ∷ b'%' ∷ b'x' ∷ b',' ∷ 32 ∷ b'e' ∷ b'f' ∷ b'l'
      ∷ b'a' ∷ b'g' ∷ b's' ∷ b':' ∷ 32 ∷ b'0' ∷ b'x' ∷ b'%' ∷ b'x' ∷ 10 ∷ 0 ∷ [] in
    let other =
      b':' ∷ 32 ∷ b'e' ∷ b'i' ∷ b'p' ∷ b':' ∷ 32 ∷ b'0' ∷ b'x' ∷ b'%' ∷ b'x' ∷ b',' ∷ 32 ∷ b'e'
      ∷ b'f' ∷ b'l' ∷ b'a' ∷ b'g' ∷ b's' ∷ b':' ∷ 32 ∷ b'0' ∷ b'x' ∷ b'%' ∷ b'x' ∷ 10 ∷ 0 ∷ [] in
    head ++ (x.str ++ (if x.has_errc then errc else other))

unfoldable pub exc_args : ExcDfl → IntStack → List Arg
exc_args x stack =
    let rest = word stack.eip ∷ word stack.eflags ∷ [] in
    if x.has_errc then word stack.errc ∷ rest else rest

-- The handler up to its message.
unfoldable pub exc_print : (ℕ → ℕ) → Kernel → ExcDfl → IntStack → Result Kernel
unfolding exc_format exc_args clear printf
exc_print junk k x stack = do
  k1 ← if x.clr then clear k else ok k
  r ← printf junk k1 (exc_format x) (exc_args x stack)
  ok r.0

-- The whole handler; `stack` is that of `execute`, which `halt` may call.
unfoldable pub exc_handler : (ℕ → ℕ) → Kernel → ExcDfl → IntStack → Stack → Result Halted
unfolding exc_print halt set_program_exception
exc_handler junk k x frame stack =
    exc_print junk k x frame >>= λ k1. halt (set_program_exception k1 1) 1 stack
