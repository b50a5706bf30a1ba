-- ===== src/Str/Reverse.antt =====
-- `strrev` and strings in a buffer.
use mathlib.Core.List.{reverse, reverse_aux}
use ece391_mp.Base.{
  ℕ, zero, suc, ◌+◌, ◌-◌, ◌≤◌, ◌<◌, ◌≡◌, ◌≢◌, refl, sym, ap, ◌∙◌, inl, inr, false, ◌&&◌, ◌∷◌,
  Option, none, some, Result, ok, fault, ◌>>=◌, ltb, leb, ◌==◌, if◌then◌else◌, slice, arith,
  Bool-cases,
}
use ece391_mp.Str.{strlen, swap, strrev_loop, strrev}

-- The buffer of `cap` bytes holds a string of `n` characters with its NUL.
pub record IsString (cap : ℕ) (s : ℕ → ℕ) (n : ℕ) : Type 0 where
  pub fits : n < cap
  pub end : s n ≡ 0
  pub chars : (i : ℕ) → i < n → s i ≢ 0

strlen-slice_at :
    (s : ℕ → ℕ) (i k n : ℕ)
    → n < k
    → s (i + n) ≡ 0
    → ((j : ℕ) → j < n → s (i + j) ≢ 0)
    → strlen (slice s i k) ≡ ok n
unfolding strlen
strlen-slice_at s i zero n lt end chars = absurd (omega arith)
strlen-slice_at s i (suc k) zero lt end chars =
    let here : s i ≡ 0 = (let e : i ≡ i + 0 = omega arith in ap s e ∙ end) in rw here refl
strlen-slice_at s i (suc k) (suc n) lt end chars =
    let some_char : (s i == 0) ≡ false =
      (let e : i + 0 ≡ i = omega arith in
        let h = chars 0 (omega arith) in ground (arith, ap s e, h)) in
    let next : i + 1 + n ≡ i + suc n = omega arith in
    let rest = strlen-slice_at s (i + 1) k n (omega arith) (ap s next ∙ end) (λ j h.
      (let e : i + 1 + j ≡ i + suc j = omega arith in
        λ z. chars (suc j) (omega arith) (sym (ap s e) ∙ z))) in
    rw (some_char, rest) (let e : n + 1 ≡ suc n = omega arith in ap ok e)

pub strlen-IsString : (cap n : ℕ) (s : ℕ → ℕ) → IsString cap s n → strlen (slice s 0 cap) ≡ ok n
strlen-IsString cap n s h =
    strlen-slice_at s 0 cap n (h.fits) (let e : 0 + n ≡ n = omega arith in ap s e ∙ h.end)
      (λ j lt. (let e : 0 + j ≡ j = omega arith in λ z. h.chars j lt (sym (ap s e) ∙ z)))

-- Where the byte at `i` comes from once the bytes from `beg` to `end` are reversed, or two exchanged.
unfoldable pub mirror : ℕ → ℕ → ℕ → ℕ
mirror beg end i = if leb beg i && leb i end then beg + end - i else i

swapped : ℕ → ℕ → ℕ → ℕ
swapped beg end i = if beg == i then end else if end == i then beg else i

swap-swapped : (s : ℕ → ℕ) (beg end i : ℕ) → swap s beg end i ≡ s (swapped beg end i)
unfolding swapped
swap-swapped s beg end i = ground arith

swapped-mirror :
    (beg end i : ℕ) → beg < end → swapped beg end (mirror (beg + 1) (end - 1) i) ≡ mirror beg end i
unfolding swapped mirror
swapped-mirror beg end i lt = ground arith

mirror-none : (beg end i : ℕ) → end ≤ beg → mirror beg end i ≡ i
unfolding mirror
mirror-none beg end i le = ground arith

-- The loop ends, and it reverses.
strrev_loop-mirror :
    (fuel : ℕ) (s : ℕ → ℕ) (beg end : ℕ)
    → 0 < fuel
    → end < beg + fuel
    → (r : ℕ → ℕ) × (strrev_loop fuel s beg end ≡ some r) × ((i : ℕ) → r i ≡ s (mirror beg end i))
unfolding strrev_loop
strrev_loop-mirror zero s beg end some_fuel enough = absurd (omega arith)
strrev_loop-mirror (suc fuel) s beg end some_fuel enough = elim (Bool-cases (ltb beg end)) [
  | inl more ↦
      let lt : beg < end = ground arith in
      let (r, e, eq) =
        strrev_loop-mirror fuel (swap s beg end) (beg + 1) (end - 1) (omega arith) (omega arith) in
      (r, rw more e, λ i. eq i ∙ swap-swapped s beg end _ ∙ ap s (swapped-mirror beg end i lt))
  | inr done ↦
      let le : end ≤ beg = ground arith in
      (s, rw done refl, λ i. ap s (sym (mirror-none beg end i le)))
]

-- A buffer read from the other end.
slice-reverse :
    (s r : ℕ → ℕ) (n i k : ℕ)
    → i + k ≡ n
    → ((j : ℕ) → j < n → r j ≡ s (n - 1 - j))
    → reverse_aux (slice s i k) (slice r (n - i) i) ≡ slice r 0 n
slice-reverse s r n i zero e back =
    let whole : i ≡ n = omega arith in
    let start : n - i ≡ 0 = omega arith in ap (λ j. slice r j i) start ∙ ap (slice r 0) whole
slice-reverse s r n i (suc k) e back =
    let here : r (n - suc i) ≡ s i =
      back (n - suc i) (omega arith)
      ∙ (let at : n - 1 - (n - suc i) ≡ i = omega arith in ap s at) in
    let next : n - suc i + 1 ≡ n - i = omega arith in
    let later : i + 1 ≡ suc i = omega arith in
    ap (reverse_aux (slice s (i + 1) k)) (
      ap (λ c. c ∷ slice r (n - i) i) (sym here) ∙ ap (λ j. r (n - suc i) ∷ slice r j i) (sym next))
    ∙ ap (λ j. reverse_aux (slice s j k) (slice r (n - suc i) (suc i))) later
    ∙ slice-reverse s r n (suc i) k (omega arith) back

strrev_steps :
    (cap n : ℕ) (s r : ℕ → ℕ)
    → strlen (slice s 0 cap) ≡ ok n
    → strrev_loop (n + 1) s 0 (n - 1) ≡ some r
    → strrev cap s ≡ ok r
unfolding strrev
strrev_steps cap n s r len loop =
    let out : Option (ℕ → ℕ) → Result (ℕ → ℕ) = λ o. elim o [ none ↦ fault | some r' ↦ ok r' ] in
    ap (λ l. l >>= λ m. out (strrev_loop (m + 1) s 0 (m - 1))) len ∙ ap out loop

mirror-behind : (n i : ℕ) → n ≤ i → mirror 0 (n - 1) i ≡ i
unfolding mirror
mirror-behind n i le = ground arith

mirror-inside : (n i : ℕ) → i < n → mirror 0 (n - 1) i ≡ n - 1 - i
unfolding mirror
mirror-inside n i lt = ground arith

-- `strrev` ends, and leaves in the buffer a string of the same length that is the old one read from the
-- other end; the bytes behind it are as they were.
pub strrev-reverse :
    (cap n : ℕ) (s : ℕ → ℕ)
    → IsString cap s n
    → (r : ℕ → ℕ) × (strrev cap s ≡ ok r)
      × (slice r 0 n ≡ reverse (slice s 0 n))
      × IsString cap r n
      × ((i : ℕ) → n ≤ i → r i ≡ s i)
strrev-reverse cap n s str =
    let (r, e, eq) = strrev_loop-mirror (n + 1) s 0 (n - 1) (omega arith) (omega arith) in
    let back : (j : ℕ) → j < n → r j ≡ s (n - 1 - j) = λ j lt. eq j ∙ ap s (mirror-inside n j lt) in
    let behind : (i : ℕ) → n ≤ i → r i ≡ s i = λ i le. eq i ∙ ap s (mirror-behind n i le) in
    (
      r,
      strrev_steps cap n s r (strlen-IsString cap n s str) e,
      sym (slice-reverse s r n 0 n (omega arith) back),
      record {
        fits = str.fits;
        end = behind n (omega arith) ∙ str.end;
        chars = λ i lt z. str.chars (n - 1 - i) (omega arith) (sym (back i lt) ∙ z);
      },
      behind,
    )
