-- ===== src/Base/Lists.antt =====
-- Lists measured by native numbers, and C arrays as functions from an index.
use Prim.Native.Nat.{ℕ, zero, suc, ◌+◌, ◌-◌, ◌≤◌, ◌<◌, min}
use mathlib.Core.Path.{◌≡◌, refl, ap, ap₂, sym, ◌∙◌}
use mathlib.Core.List.{List, [], ◌∷◌, ◌++◌}
use mathlib.Core.Option.{Option, none, some}
use native.Mathlib.Omega.{arith}
use ece391_mp.Base.Tests.{◌==◌, if◌then◌else◌}

module _ {ℓ} {A : Type ℓ} where
  abbrev pub length : List A → ℕ
  length [] = 0
  length (x ∷ xs) = suc (length xs)

  abbrev pub get_elem? : List A → ℕ → Option A
  get_elem? [] i = none
  get_elem? (x ∷ xs) zero = some x
  get_elem? (x ∷ xs) (suc i) = get_elem? xs i

  abbrev pub get_or : List A → ℕ → A → A
  get_or [] i d = d
  get_or (x ∷ xs) zero d = x
  get_or (x ∷ xs) (suc i) d = get_or xs i d

  abbrev pub take : ℕ → List A → List A
  take zero xs = []
  take (suc n) [] = []
  take (suc n) (x ∷ xs) = x ∷ take n xs

  abbrev pub drop : ℕ → List A → List A
  drop zero xs = xs
  drop (suc n) [] = []
  drop (suc n) (x ∷ xs) = drop n xs

  pub length-append : (xs ys : List A) → length (xs ++ ys) ≡ length xs + length ys
  length-append [] ys = omega arith
  length-append (x ∷ xs) ys = omega (arith, length-append xs ys)

  -- A C array: `update a i v` is `a[i] = v`. Whether `i` lies in the array is tested by the code
  -- that uses it.
  abbrev pub update : (ℕ → A) → ℕ → A → ℕ → A
  update a i v j = if i == j then v else a j

  -- `n` consecutive elements, from index `i` on.
  abbrev pub slice : (ℕ → A) → ℕ → ℕ → List A
  slice a i zero = []
  slice a i (suc n) = a i ∷ slice a (i + 1) n

  pub length-slice : (a : ℕ → A) (i n : ℕ) → length (slice a i n) ≡ n
  length-slice a i zero = refl
  length-slice a i (suc n) = ap suc (length-slice a (i + 1) n)

  pub slice-append :
      (a : ℕ → A) (i j m n : ℕ) → i + m ≡ j → slice a i m ++ slice a j n ≡ slice a i (m + n)
  slice-append a i j zero n e =
      let e' : j ≡ i = omega arith in
      let e'' : 0 + n ≡ n = omega arith in ap (λ k. slice a k n) e' ∙ ap (slice a i) (sym e'')
  slice-append a i j (suc m) n e =
      let e' : suc m + n ≡ suc (m + n) = omega arith in
      ap (λ r. a i ∷ r) (slice-append a (i + 1) j m n (omega arith)) ∙ ap (slice a i) (sym e')

  pub slice-ext :
      (a b : ℕ → A) (i n : ℕ)
      → ((j : ℕ) → i ≤ j → j < i + n → a j ≡ b j)
      → slice a i n ≡ slice b i n
  slice-ext a b i zero same = refl
  slice-ext a b i (suc n) same =
      ap₂ (λ x xs. x ∷ xs) (same i (omega arith) (omega arith))
        (slice-ext a b (i + 1) n (λ j le lt. same j (omega arith) (omega arith)))

  pub take-append : (s t : List A) → take (length s) (s ++ t) ≡ s
  take-append [] t = refl
  take-append (c ∷ s) t = ap (λ r. c ∷ r) (take-append s t)

  pub take-drop : (n : ℕ) (s : List A) → take n s ++ drop n s ≡ s
  take-drop zero s = refl
  take-drop (suc n) [] = refl
  take-drop (suc n) (c ∷ s) = ap (λ r. c ∷ r) (take-drop n s)

  pub length-take : (n : ℕ) (s : List A) → length (take n s) ≡ min n (length s)
  length-take zero s = ground arith
  length-take (suc n) [] = ground arith
  length-take (suc n) (c ∷ s) = ap suc (length-take n s) ∙ ground arith

  pub length-drop : (n : ℕ) (s : List A) → length (drop n s) ≡ length s - n
  length-drop zero s = omega arith
  length-drop (suc n) [] = omega arith
  length-drop (suc n) (c ∷ s) = length-drop n s ∙ omega arith

  pub append-nil : (s : List A) → s ++ [] ≡ s
  append-nil [] = refl
  append-nil (c ∷ s) = ap (λ r. c ∷ r) (append-nil s)

  pub append_assoc : (s t u : List A) → (s ++ t) ++ u ≡ s ++ (t ++ u)
  append_assoc [] t u = refl
  append_assoc (c ∷ s) t u = ap (λ r. c ∷ r) (append_assoc s t u)
