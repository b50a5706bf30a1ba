-- ===== src/Str/Digits.antt =====
-- Numbers as strings of digits, for `itoa`: what a string denotes, and the digits of its table.
use mathlib.Core.List.{reverse, reverse_aux}
use ece391_mp.Base.{
  ℕ, zero, suc, ◌+◌, ◌-◌, ◌*◌, ◌<◌, ◌≡◌, ◌≢◌, ◌⊎◌, refl, ap, ◌∙◌, inl, inr, Bool, true, false, ◌&&◌,
  List, [], ◌∷◌, ok, ltb, leb, ◌||◌, ◌≤◌, length, slice, ◌==◌, if◌then◌else◌, pos, get_or, arith,
}
use ece391_mp.Str.{lookup, lookup_at}

-- The digit that a character stands for: `0` to `9`, then `A` to `Z`.
unfoldable pub digit_of : ℕ → ℕ
digit_of c = if ltb c 65 then c - 48 else c - 55

-- Whether a character is a digit of the radix: `0` to `9` or `A` to `Z`, and below the radix.
unfoldable pub is_digit : ℕ → ℕ → Bool
unfolding digit_of
is_digit radix c = (leb 48 c && leb c 57 || leb 65 c && leb c 90) && ltb (digit_of c) radix

unfoldable pub AreDigits : ℕ → List ℕ → Type 0
AreDigits radix [] = Unit
AreDigits radix (c ∷ s) = (is_digit radix c ≡ true) × AreDigits radix s

-- The number that a string denotes, when what stands before it denotes `n`.
unfoldable pub value_from : ℕ → ℕ → List ℕ → ℕ
unfolding digit_of
value_from radix n [] = n
value_from radix n (c ∷ s) = value_from radix (n * radix + digit_of c) s

-- The number that a string denotes, its first digit the highest.
unfoldable pub value_of : ℕ → List ℕ → ℕ
unfolding value_from
value_of radix s = value_from radix 0 s

-- The number that a string denotes, its first digit the lowest.
unfoldable pub low_value : ℕ → List ℕ → ℕ
unfolding digit_of
low_value radix [] = 0
low_value radix (c ∷ s) = low_value radix s * radix + digit_of c

value_from-reverse_aux :
    (radix : ℕ) (s t : List ℕ)
    → value_from radix 0 (reverse_aux s t) ≡ value_from radix (low_value radix s) t
unfolding low_value value_from
value_from-reverse_aux radix [] t = refl
value_from-reverse_aux radix (c ∷ s) t = value_from-reverse_aux radix s (c ∷ t)

pub value_of-reverse : (radix : ℕ) (s : List ℕ) → value_of radix (reverse s) ≡ low_value radix s
unfolding value_of
value_of-reverse radix s = value_from-reverse_aux radix s []

-- A string of at least one digit, and of nothing but digits, that denotes the number.
pub record Denotes (radix : ℕ) (text : List ℕ) (v : ℕ) : Type 0 where
  pub some_digit : 1 ≤ length text
  pub digits : AreDigits radix text
  pub value : value_of radix text ≡ v

AreDigits-reverse_aux :
    (radix : ℕ) (s t : List ℕ)
    → AreDigits radix s
    → AreDigits radix t
    → AreDigits radix (reverse_aux s t)
unfolding AreDigits
AreDigits-reverse_aux radix [] t hs ht = ht
AreDigits-reverse_aux radix (c ∷ s) t (h, hs) ht = AreDigits-reverse_aux radix s (c ∷ t) hs (h, ht)

pub AreDigits-reverse : (radix : ℕ) (s : List ℕ) → AreDigits radix s → AreDigits radix (reverse s)
unfolding AreDigits
AreDigits-reverse radix s h = AreDigits-reverse_aux radix s [] h tt

pub AreDigits-slice :
    (radix : ℕ) (r : ℕ → ℕ) (i n : ℕ)
    → ((j : ℕ) → i ≤ j → j < i + n → is_digit radix (r j) ≡ true)
    → AreDigits radix (slice r i n)
unfolding AreDigits
AreDigits-slice radix r i zero h = tt
AreDigits-slice radix r i (suc n) h = (
  h i (omega arith) (omega arith),
  AreDigits-slice radix r (i + 1) n (λ j le lt. h j (omega arith) (omega arith)),
)

-- The table holds the character of each digit below 36.
holds_digit : ℕ → Bool
unfolding digit_of is_digit
holds_digit i = digit_of (get_or lookup i 0) == i && is_digit 36 (get_or lookup i 0)

digits_below : ℕ → Bool
unfolding holds_digit
digits_below zero = true
digits_below (suc n) = holds_digit n && digits_below n

both_hold : (a b : Bool) → (a && b) ≡ true → (a ≡ true) × (b ≡ true)
both_hold true b all = (refl, all)
both_hold false b all = cc

last_or_below : (n i : ℕ) → i < suc n → (i ≡ n) ⊎ (i < n)
last_or_below n i lt = ground arith

holds_digit-below : (n i : ℕ) → i < n → digits_below n ≡ true → holds_digit i ≡ true
unfolding digits_below
holds_digit-below zero i lt all = absurd (omega arith)
holds_digit-below (suc n) i lt all =
    let (last, others) = both_hold (holds_digit n) (digits_below n) all in
    elim (last_or_below n i lt) [
      | inl e ↦ ap holds_digit e ∙ last
      | inr below ↦ holds_digit-below n i below others
    ]

all_digits : digits_below 36 ≡ true
unfolding digits_below
all_digits = refl

held :
    (i c : ℕ)
    → (digit_of c == i && is_digit 36 c) ≡ true
    → (digit_of c ≡ i) × (is_digit 36 c ≡ true)
held i c good =
    let (at, among) = both_hold (digit_of c == i) (is_digit 36 c) good in
    (ground (arith, at), among)

is_digit-radix : (radix c : ℕ) → is_digit 36 c ≡ true → digit_of c < radix → is_digit radix c ≡ true
unfolding is_digit
is_digit-radix radix c among small =
    let (kind, _) =
      both_hold (leb 48 c && leb c 57 || leb 65 c && leb c 90) (ltb (digit_of c) 36) among in
    let below : ltb (digit_of c) radix ≡ true = ground (arith, small) in rw (kind, below) refl

pub is_digit-nonzero : (radix c : ℕ) → is_digit radix c ≡ true → c ≢ 0
unfolding is_digit
is_digit-nonzero radix c h = ground (arith, h)

pub lookup_at-digit :
    (radix i : ℕ)
    → i < radix
    → radix ≤ 36
    → (c : ℕ) × (lookup_at (pos i) ≡ ok c) × (digit_of c ≡ i) × (is_digit radix c ≡ true)
unfolding holds_digit lookup_at
lookup_at-digit radix i lt table =
    let good = holds_digit-below 36 i (omega arith) all_digits in
    let inside : ltb i 37 ≡ true = ground arith in
    let (at, among) = held i (get_or lookup i 0) good in
    (
      get_or lookup i 0,
      rw inside refl,
      at,
      is_digit-radix radix (get_or lookup i 0) among (omega (arith, at)),
    )
