-- ===== src/Programs/Support/Compare.antt =====
-- What the string functions of the support library say of their strings.
use ece391_mp.Base.{
  ℕ, ◌+◌, ◌≤◌, ◌<◌, ◌^◌, ◌≡◌, ◌≢◌, ◌↔◌, refl, sym, ap, ap₂, ◌∙◌, inl, inr, Bool-cases, List, [],
  ◌∷◌, ◌++◌, Result, ok, ◌==◌, false, ℤ, pos, sub_ℕ, slice, arith, ◌>>=◌, fault,
}
use ece391_mp.Str.{strlen, unsigned_rem}
use ece391_mp.Str.Reverse.{IsString}
use ece391_mp.Str.Digits.{Denotes}
use ece391_mp.Str.Itoa.{itoa_with-value}
use ece391_mp.Programs.Support.{ece391_strlen_from, ece391_strlen, ece391_strcmp, ece391_itoa}

-- No character of the string is the NUL.
unfoldable pub NoNul : List ℕ → Type 0
NoNul [] = Unit
NoNul (c ∷ s) = (c ≢ 0) × NoNul s

-- `ece391_strlen` is `strlen` of the kernel.
ece391_strlen_from-strlen :
    (s : List ℕ) (len : ℕ) → ece391_strlen_from s len ≡ (strlen s >>= λ n. ok (len + n))
unfolding ece391_strlen_from strlen
ece391_strlen_from-strlen [] len = refl
ece391_strlen_from-strlen (c ∷ s) len = elim (Bool-cases (c == 0)) [
  | inl last ↦ rw last (let e : len ≡ len + 0 = omega arith in ap ok e)
  | inr more ↦ rw more (ece391_strlen_from-strlen s (len + 1) ∙ later (strlen s))
]
  where
    later :
        (r : Result ℕ)
        → (r >>= λ n. ok (len + 1 + n)) ≡ ((r >>= λ n. ok (n + 1)) >>= λ n. ok (len + n))
    later fault = refl
    later (ok n) = (let e : len + 1 + n ≡ len + (n + 1) = omega arith in ap ok e)

pub ece391_strlen-strlen : (s : List ℕ) → ece391_strlen s ≡ strlen s
unfolding ece391_strlen
ece391_strlen-strlen s = ece391_strlen_from-strlen s 0 ∙ from_zero (strlen s)
  where
    from_zero : (r : Result ℕ) → (r >>= λ n. ok (0 + n)) ≡ r
    from_zero fault = refl
    from_zero (ok n) = (let e : 0 + n ≡ n = omega arith in ap ok e)

pub cons-inj : (a b : ℕ) (s t : List ℕ) → (a ∷ s) ≡ (b ∷ t) → (a ≡ b) × (s ≡ t)
cons-inj a b s t e = (cc, cc)

pub sub_ℕ-zero : (a b : ℕ) → a ≢ b → sub_ℕ a b ≢ pos 0
sub_ℕ-zero a b apart = ground (arith, apart)

-- `ece391_strcmp` of two strings that end in a NUL returns, and it returns 0 if and only if the strings
-- are equal.
pub ece391_strcmp-zero :
    (s t r r' : List ℕ)
    → NoNul s
    → NoNul t
    → (d : ℤ) × (ece391_strcmp (s ++ (0 ∷ r)) (t ++ (0 ∷ r')) ≡ ok d) × ((d ≡ pos 0) ↔ (s ≡ t))
unfolding ece391_strcmp NoNul
ece391_strcmp-zero [] [] r r' ns nt = (pos 0, refl, (λ e. refl, λ e. refl))
ece391_strcmp-zero [] (b ∷ t) r r' ns (some_b, nt) =
    let apart : (0 == b) ≡ false = ground (arith, some_b) in
    (sub_ℕ 0 b, rw apart refl, (λ z. absurd (sub_ℕ-zero 0 b (λ e. some_b (sym e)) z), λ e. cc))
ece391_strcmp-zero (a ∷ s) [] r r' (some_a, ns) nt =
    let apart : (a == 0) ≡ false = ground (arith, some_a) in
    (sub_ℕ a 0, rw apart refl, (λ z. absurd (sub_ℕ-zero a 0 some_a z), λ e. cc))
ece391_strcmp-zero (a ∷ s) (b ∷ t) r r' (some_a, ns) (some_b, nt) = elim (Bool-cases (a == b)) [
  | inl same ↦
      let e : a ≡ b = ground (arith, same) in
      let some_a' : (a == 0) ≡ false = ground (arith, some_a) in
      let (d, returned, iff) = ece391_strcmp-zero s t r r' ns nt in
      (
        d,
        rw (same, some_a') returned,
        (λ z. ap₂ (λ c u. c ∷ u) e (iff.0 z), λ all. iff.1 ((cons-inj a b s t all).1)),
      )
  | inr other ↦
      let apart : a ≢ b = ground (arith, other) in
      (
        sub_ℕ a b,
        rw other refl,
        (λ z. absurd (sub_ℕ-zero a b apart z), λ all. absurd (apart ((cons-inj a b s t all).0))),
      )
]

-- `ece391_itoa` of any 32-bit value, for a radix from 2 to 36 and a buffer of more than `d` bytes, where
-- the value has at most `d` digits: it leaves a string of one to `d` characters, all of them digits, that denotes the value.
pub ece391_itoa-value_of :
    (value cap d radix : ℕ) (buf : ℕ → ℕ)
    → 2 ≤ radix
    → radix ≤ 36
    → value < 2 ^ 32
    → value < radix ^ d
    → 0 < d
    → d ≤ 32
    → d < cap
    → (r : ℕ → ℕ) × (n : ℕ) × (n ≤ d)
      × (ece391_itoa value cap buf radix ≡ ok r)
      × IsString cap r n
      × Denotes radix (slice r 0 n) value
unfolding ece391_itoa
ece391_itoa-value_of value cap d radix buf some_radix table small fits some_digit enough room =
    itoa_with-value unsigned_rem (2 ^ 32) radix some_radix table (λ v lt. refl) d cap value buf
      some_digit (omega arith) room fits small
