-- ===== src/Printf/Numbers.antt =====
-- The texts of the conversions of a number, as the digits that they hold.
use ece391_mp.Base.{
  ℕ, ◌+◌, ◌-◌, ◌^◌, ◌≤◌, ◌<◌, ◌≡◌, ap, ◌∙◌, true, false, List, ◌∷◌, Result, ok, ◌>>=◌, ltb,
  if◌then◌else◌, slice, arith,
}
use ece391_mp.Str.{itoa}
use ece391_mp.Str.Reverse.{IsString}
use ece391_mp.Str.Digits.{Denotes}
use ece391_mp.Str.Itoa.{itoa-value_of}
use ece391_mp.Printf.{hex_text, unsigned_text, signed_text}
use ece391_mp.Printf.Render.{until_nul}
use ece391_mp.Printf.Padded.{until_nul-slice}

IsString-until_nul :
    (size n : ℕ) (r : ℕ → ℕ) → IsString size r n → until_nul (slice r 0 size) ≡ ok (slice r 0 n)
IsString-until_nul size n r str =
    let at : 0 + n ≡ n = omega arith in
    until_nul-slice r 0 size n (str.fits) (ap r at ∙ str.end)
      (λ j le lt. str.chars j (omega (arith, lt)))

-- A number made by `itoa`.
module _ (junk : ℕ → ℕ) where
  -- The text behind a number: a string whose characters up to the NUL are its digits.
  abbrev pub Written : ℕ → ℕ → Result (List ℕ) → Type 0
  Written radix v m =
      (s : List ℕ) × (digits : List ℕ) × (m ≡ ok s)
      × (until_nul s ≡ ok digits)
      × Denotes radix digits v

  itoa-Written :
      (v radix size : ℕ) (buf : ℕ → ℕ)
      → 2 ≤ radix
      → radix ≤ 36
      → v < 2 ^ 31
      → v < radix ^ 32
      → 32 < size
      → Written radix v (itoa v size buf radix >>= λ r. ok (slice r 0 size))
  itoa-Written v radix size buf lo hi small fits room =
      let (r, n, le, made, str, value) =
        itoa-value_of v size 32 radix buf lo hi small fits (omega arith) (omega arith) room in
      (
        slice r 0 size,
        slice r 0 n,
        ap (λ m. m >>= λ q. ok (slice q 0 size)) made,
        IsString-until_nul size n r str,
        value,
      )

  pub hex_text-Written : (v : ℕ) → v < 2 ^ 31 → Written 16 v (hex_text junk v)
  unfolding hex_text
  hex_text-Written v small =
      itoa-Written v 16 64 junk (omega arith) (omega arith) small (omega (arith, small))
        (omega arith)

  pub unsigned_text-Written : (v : ℕ) → v < 2 ^ 31 → Written 10 v (unsigned_text junk v)
  unfolding unsigned_text
  unsigned_text-Written v small =
      itoa-Written v 10 36 junk (omega arith) (omega arith) small (omega (arith, small))
        (omega arith)

  -- The two ways of `%d`.
  abbrev other : ℕ → Result (List ℕ)
  other v = itoa v 36 junk 10 >>= λ r. ok (slice r 0 36)

  abbrev less : ℕ → Result (List ℕ)
  less v = itoa (2 ^ 32 - v) 35 (λ i. junk (i + 1)) 10 >>= λ r. ok (45 ∷ slice r 0 35)

  pub natural-Written : (v : ℕ) → v < 2 ^ 31 → Written 10 v (signed_text junk v)
  unfolding signed_text
  natural-Written v small =
      let below : ltb v (2 ^ 31) ≡ true = ground (arith, small) in
      let (s, digits, made, shows, value) =
        itoa-Written v 10 36 junk (omega arith) (omega arith) small (omega (arith, small))
          (omega arith) in
      (s, digits, ap (λ b. if b then other v else less v) below ∙ made, shows, value)

  pub negative-Written :
      (v : ℕ)
      → 2 ^ 31 < v
      → v < 2 ^ 32
      → (s : List ℕ) × (digits : List ℕ) × (signed_text junk v ≡ ok (b'-' ∷ s))
        × (until_nul s ≡ ok digits)
        × Denotes 10 digits (2 ^ 32 - v)
  unfolding signed_text
  negative-Written v large fits =
      let above : ltb v (2 ^ 31) ≡ false = ground (arith, large) in
      let (r, n, le, made, str, value) =
        itoa-value_of (2 ^ 32 - v) 35 32 10 (λ i. junk (i + 1)) (omega arith) (omega arith)
          (omega (arith, large)) (omega (arith, large)) (omega arith) (omega arith) (omega arith) in
      (
        slice r 0 35,
        slice r 0 n,
        ap (λ b. if b then other v else less v) above
            ∙ ap (λ m. m >>= λ q. ok (45 ∷ slice q 0 35)) made,
        IsString-until_nul 35 n r str,
        value,
      )
