-- ===== src/Programs/Grep/Search.antt =====
-- The search of `grep` in a line.
use ece391_mp.Base.{
  ℕ, zero, suc, ◌+◌, ◌-◌, ◌≡◌, ◌≢◌, ◌↔◌, ◌⊎◌, refl, sym, ap, ap₂, ◌∙◌, inl, inr, Bool, true, false,
  Bool-cases, List, [], ◌∷◌, ◌++◌, ok, ◌==◌, if◌then◌else◌, ℤ, pos, negsuc, eqb_ℤ, sub_ℕ, length,
  drop, get_or, arith,
}
use ece391_mp.Programs.Support.{ece391_strncmp, ece391_strncmp_loop}
use ece391_mp.Programs.Support.Compare.{NoNul, cons-inj, sub_ℕ-zero}
use ece391_mp.Programs.Grep.{occurs_from}

-- The text begins with the string, and the string stands somewhere in the text.
abbrev pub Prefix : List ℕ → List ℕ → Type 0
Prefix s t = (b : List ℕ) × (t ≡ s ++ b)

abbrev pub Occurs : List ℕ → List ℕ → Type 0
Occurs s t = (a : List ℕ) × (b : List ℕ) × (t ≡ a ++ (s ++ b))

eqb_ℤ-cases :
    (d : ℤ) → ((d ≡ pos 0) × (eqb_ℤ d (pos 0) ≡ true)) ⊎ ((d ≢ pos 0) × (eqb_ℤ d (pos 0) ≡ false))
eqb_ℤ-cases (pos zero) = inl (refl, refl)
eqb_ℤ-cases (pos (suc n)) = inr ((λ e. cc), ground arith)
eqb_ℤ-cases (negsuc n) = inr ((λ e. cc), ground arith)

-- `ece391_strncmp` of a text and a string of `suc (length s)` characters.
-- The count that is left for the next characters.
rounds_left :
    (n : ℕ) (t s : List ℕ) (d : ℤ)
    → ece391_strncmp_loop t s (suc n) ≡ ok d
    → (if suc (suc n) - 1 == 0 then ok (pos 0) else ece391_strncmp_loop t s (suc (suc n) - 1))
      ≡ ok d
rounds_left n t s d compared =
    let one_less : suc (suc n) - 1 ≡ suc n = omega arith in
    let more : (suc n == 0) ≡ false = ground arith in
    ap (λ m. if m == 0 then ok (pos 0) else ece391_strncmp_loop t s m) one_less
    ∙ ap (λ b. if b then ok (pos 0) else ece391_strncmp_loop t s (suc n)) more
    ∙ compared

-- The first characters differ.
differs :
    (c a : ℕ) (s t r r' : List ℕ)
    → a ≢ c
    → (a == c) ≡ false
    → (d : ℤ) × (ece391_strncmp_loop (a ∷ (t ++ (0 ∷ r))) (c ∷ (s ++ (0 ∷ r'))) (suc (length s))
        ≡ ok d)
      × ((d ≡ pos 0) ↔ Prefix (c ∷ s) (a ∷ t))
unfolding ece391_strncmp_loop
differs c a s t r r' apart other = (
  sub_ℕ a c,
  rw other refl,
  (
    λ z. absurd (sub_ℕ-zero a c apart z),
    λ p. (let (b, e) = p in absurd (apart ((cons-inj a c t (s ++ b) e).0))),
  ),
)

strncmp_loop-Prefix :
    (c : ℕ) (s t r r' : List ℕ)
    → NoNul (c ∷ s)
    → NoNul t
    → (d : ℤ) × (ece391_strncmp_loop (t ++ (0 ∷ r)) (c ∷ (s ++ (0 ∷ r'))) (suc (length s)) ≡ ok d)
      × ((d ≡ pos 0) ↔ Prefix (c ∷ s) t)
unfolding ece391_strncmp_loop NoNul
strncmp_loop-Prefix c s [] r r' (some_c, ns) nt =
    let apart : (0 == c) ≡ false = ground (arith, some_c) in
    (
      sub_ℕ 0 c,
      rw apart refl,
      (λ z. absurd (sub_ℕ-zero 0 c (λ e. some_c (sym e)) z), λ p. (let (b, e) = p in cc)),
    )
strncmp_loop-Prefix c [] (a ∷ t) r r' (some_c, ns) (some_a, nt) = elim (Bool-cases (a == c)) [
  | inr other ↦ differs c a [] t r r' (ground (arith, other)) other
  | inl same ↦
      let e : a ≡ c = ground (arith, same) in
      let some_a' : (a == 0) ≡ false = ground (arith, some_a) in
      (pos 0, rw (same, some_a') refl, (λ z. (t, ap (λ u. u ∷ t) e), λ p. refl))
]
strncmp_loop-Prefix c (x ∷ s) (a ∷ t) r r' (some_c, ns) (some_a, nt) = elim (Bool-cases (a == c)) [
  | inr other ↦ differs c a (x ∷ s) t r r' (ground (arith, other)) other
  | inl same ↦
      let e : a ≡ c = ground (arith, same) in
      let some_a' : (a == 0) ≡ false = ground (arith, some_a) in
      let (d, compared, iff) = strncmp_loop-Prefix x s t r r' ns nt in
      (
        d,
        rw (same, some_a') (rounds_left (length s) (t ++ (0 ∷ r)) (x ∷ (s ++ (0 ∷ r'))) d compared),
        (
          λ z. (let (b, same') = iff.0 z in (b, ap₂ (λ u v. u ∷ v) e same')),
          λ p. (let (b, same') = p in iff.1 (b, (cons-inj a c t (x ∷ (s ++ b)) same').1)),
        ),
      )
]

Occurs-step : (s t : List ℕ) (a : ℕ) → Occurs s t → Occurs s (a ∷ t)
Occurs-step s t a (front, b, e) = (a ∷ front, b, ap (λ u. a ∷ u) e)

Occurs-cases : (s t : List ℕ) (a : ℕ) → Occurs s (a ∷ t) → Prefix s (a ∷ t) ⊎ Occurs s t
Occurs-cases s t a ([], b, e) = inl (b, e)
Occurs-cases s t a (x ∷ front, b, e) = inr (front, b, (cons-inj a x t (front ++ (s ++ b)) e).1)

Occurs-nil : (c : ℕ) (s : List ℕ) → Occurs (c ∷ s) [] → ⊥
Occurs-nil c s ([], b, e) = cc
Occurs-nil c s (x ∷ front, b, e) = cc

pub drop-next : (held : List ℕ) (i a : ℕ) (t : List ℕ) → drop i held ≡ a ∷ t → drop (i + 1) held ≡ t
drop-next [] zero a t e = cc
drop-next [] (suc i) a t e = cc
drop-next (h ∷ held) zero a t e = (cons-inj h a held t e).1
drop-next (h ∷ held) (suc i) a t e =
    let later : suc i + 1 ≡ suc (i + 1) = omega arith in
    ap (λ j. drop j (h ∷ held)) later ∙ drop-next held i a t e

pub get_or-drop : (held : List ℕ) (i a : ℕ) (t : List ℕ) → drop i held ≡ a ∷ t → get_or held i 0 ≡ a
get_or-drop [] zero a t e = cc
get_or-drop [] (suc i) a t e = cc
get_or-drop (h ∷ held) zero a t e = (cons-inj h a held t e).0
get_or-drop (h ∷ held) (suc i) a t e = get_or-drop held i a t e

-- The two ways that a character of the line goes on.
occurs_skip :
    (c : ℕ) (s r' held t : List ℕ) (n rounds check a : ℕ)
    → drop check held ≡ a ∷ t
    → (c == a) ≡ false
    → occurs_from (c ∷ (s ++ (0 ∷ r'))) n held (suc rounds) check
      ≡ occurs_from (c ∷ (s ++ (0 ∷ r'))) n held rounds (check + 1)
unfolding occurs_from
occurs_skip c s r' held t n rounds check a here other =
    rw (get_or-drop held check a t here, other) refl

occurs_compare :
    (c : ℕ) (s r' held t : List ℕ) (n rounds check a : ℕ) (d : ℤ)
    → drop check held ≡ a ∷ t
    → (c == a) ≡ true
    → ece391_strncmp_loop (a ∷ t) (c ∷ (s ++ (0 ∷ r'))) (suc n) ≡ ok d
    → occurs_from (c ∷ (s ++ (0 ∷ r'))) (suc n) held (suc rounds) check ≡ (
        if eqb_ℤ d (pos 0)
        then ok true
        else occurs_from (c ∷ (s ++ (0 ∷ r'))) (suc n) held rounds (check + 1))
unfolding occurs_from ece391_strncmp
occurs_compare c s r' held t n rounds check a d here same compared =
    let some_left : (suc n == 0) ≡ false = ground arith in
    rw (get_or-drop held check a t here, same, here, some_left, compared) refl

-- The search of `grep` in a line that stands in the buffer from `check` on, without a NUL of its own and with
-- one behind it, for a string of at least one character: it returns, and it returns true if and only if
-- the string stands somewhere in the line.
pub occurs_from-Occurs :
    (c : ℕ) (s r' held r t : List ℕ) (check : ℕ)
    → NoNul (c ∷ s)
    → NoNul t
    → drop check held ≡ t ++ (0 ∷ r)
    → (found : Bool) × (occurs_from (c ∷ (s ++ (0 ∷ r'))) (suc (length s)) held (length t) check
        ≡ ok found)
      × ((found ≡ true) ↔ Occurs (c ∷ s) t)
unfolding NoNul occurs_from
occurs_from-Occurs c s r' held r [] check ns nt here =
    (false, refl, (λ e. cc, λ o. absurd (Occurs-nil c s o)))
occurs_from-Occurs c s r' held r (a ∷ t) check ns (some_a, nt) here =
    let (found, rest, iff) =
      occurs_from-Occurs c s r' held r t (check + 1) ns nt
        (drop-next held check a (t ++ (0 ∷ r)) here) in
    let (d, compared, begins) = strncmp_loop-Prefix c s (a ∷ t) r r' ns (some_a, nt) in
    elim (Bool-cases (c == a)) [
      | inr other ↦ (
        found,
        occurs_skip c s r' held (t ++ (0 ∷ r)) (suc (length s)) (length t) check a here other
            ∙ rest,
        (
          λ yes'. Occurs-step (c ∷ s) t a (iff.0 yes'),
          λ o. elim (Occurs-cases (c ∷ s) t a o) [
            | inl p ↦
                (let (b, e) = p in
                  absurd (let same = (cons-inj a c t (s ++ b) e).0 in ground (arith, same, other)))
            | inr later ↦ iff.1 later
          ],
        ),
      )
      | inl same ↦
          let step =
            occurs_compare c s r' held (t ++ (0 ∷ r)) (length s) (length t) check a d here same
              compared in
          elim (eqb_ℤ-cases d) [
            | inl (zero_diff, eq) ↦ (
              true,
              step ∙ rw eq refl,
              (λ e. (let (b, e') = begins.0 zero_diff in ([], b, e')), λ o. refl),
            )
            | inr (some_diff, eq) ↦ (
              found,
              step ∙ rw eq rest,
              (
                λ yes'. Occurs-step (c ∷ s) t a (iff.0 yes'),
                λ o. elim (Occurs-cases (c ∷ s) t a o) [
                  | inl p ↦ absurd (some_diff (begins.1 p))
                  | inr later ↦ iff.1 later
                ],
              ),
            )
          ]
    ]
