-- ===== src/Printf/Padded.antt =====
-- The conversion `%#x` of `printf`.
use ece391_mp.Base.{
  ℕ, zero, suc, ◌+◌, ◌-◌, ◌*◌, ◌^◌, ◌≤◌, ◌<◌, ◌≡◌, ◌≢◌, refl, sym, ap, ap₂, ◌∙◌, inl, inr, false,
  List, ◌∷◌, ◌++◌, Result, ok, ◌>>=◌, ltb, leb, ◌&&◌, ◌==◌, if◌then◌else◌, update, slice,
  slice-append, length, length-slice, arith, Bool-cases,
}
use ece391_mp.Str.{strlen, itoa}
use ece391_mp.Str.Reverse.{IsString, strlen-IsString}
use ece391_mp.Str.Digits.{digit_of, value_from, value_of}
use ece391_mp.Str.Itoa.{itoa-value_of}
use ece391_mp.Printf.{behind_pad, zero_pad, padded_hex_text}
use ece391_mp.Printf.Render.{until_nul}

-- The buffer once the loop has written its zeros.
padded : (ℕ → ℕ) → ℕ → ℕ → ℕ
padded buf i j = if leb i j && ltb j 8 then 48 else buf j

padded_step : (buf : ℕ → ℕ) (i j : ℕ) → i < 8 → padded (update buf i 48) (i + 1) j ≡ padded buf i j
unfolding padded
padded_step buf i j lt = ground arith

zero_pad-padded :
    (fuel : ℕ) (buf : ℕ → ℕ) (i j : ℕ) → 8 ≤ i + fuel → zero_pad fuel buf i j ≡ padded buf i j
unfolding zero_pad padded
zero_pad-padded zero buf i j enough = ground arith
zero_pad-padded (suc fuel) buf i j enough = elim (Bool-cases (ltb i 8)) [
  | inr done ↦ rw done (ground (arith, done))
  | inl more ↦ rw more (
      zero_pad-padded fuel (update buf i 48) (i + 1) j (omega arith)
      ∙ padded_step buf i j (ground arith))
]

pub until_nul-slice :
    (s : ℕ → ℕ) (i k n : ℕ)
    → n < k
    → s (i + n) ≡ 0
    → ((j : ℕ) → i ≤ j → j < i + n → s j ≢ 0)
    → until_nul (slice s i k) ≡ ok (slice s i n)
unfolding until_nul
until_nul-slice s i zero n lt end chars = absurd (omega arith)
until_nul-slice s i (suc k) zero lt end chars =
    let here : s i ≡ 0 = (let e : i ≡ i + 0 = omega arith in ap s e ∙ end) in rw here refl
until_nul-slice s i (suc k) (suc n) lt end chars =
    let some_char : (s i == 0) ≡ false =
      (let h = chars i (omega arith) (omega arith) in ground (arith, h)) in
    let next : i + 1 + n ≡ i + suc n = omega arith in
    let rest =
      until_nul-slice s (i + 1) k n (omega arith) (ap s next ∙ end)
        (λ j le lt. chars j (omega arith) (omega arith)) in
    rw (some_char, rest) refl

-- Zeros in front of a number.
value_from-zeros :
    (radix : ℕ) (s : ℕ → ℕ) (i m : ℕ) (text : List ℕ)
    → ((j : ℕ) → i ≤ j → j < i + m → s j ≡ 48)
    → value_of radix (slice s i m ++ text) ≡ value_of radix text
unfolding value_of
value_from-zeros radix s i zero text zeros = refl
value_from-zeros radix s i (suc m) text zeros =
    let here : 0 * radix + digit_of (s i) ≡ 0 =
      (let e = ap digit_of (zeros i (omega arith) (omega arith)) in omega (arith, e)) in
    ap (λ n. value_from radix n (slice s (i + 1) m ++ text)) here
    ∙ value_from-zeros radix s (i + 1) m text (λ j le lt. zeros j (omega arith) (omega arith))

slice-shift :
    (a b : ℕ → ℕ) (i j n : ℕ) → ((x : ℕ) → a (i + x) ≡ b (j + x)) → slice a i n ≡ slice b j n
slice-shift a b i j zero same = refl
slice-shift a b i j (suc n) same =
    let here : a i ≡ b j =
      (let e : i ≡ i + 0 = omega arith in
        let e' : j + 0 ≡ j = omega arith in ap a e ∙ same 0 ∙ ap b e') in
    ap₂ (λ x xs. x ∷ xs) here
      (slice-shift a b (i + 1) (j + 1) n (λ x.
        (let e : i + 1 + x ≡ i + (x + 1) = omega arith in
          let e' : j + (x + 1) ≡ j + 1 + x = omega arith in ap a e ∙ same (x + 1) ∙ ap b e')))

padded_behind : (buf : ℕ → ℕ) (i x : ℕ) → padded buf i (8 + x) ≡ buf (8 + x)
unfolding padded
padded_behind buf i x = ground arith

behind_pad_number : (junk r : ℕ → ℕ) (x : ℕ) → behind_pad junk r (8 + x) ≡ r (8 + x - 8)
behind_pad_number junk r x = ground arith

-- The buffer behind the zeros, the number in it and the whole string.
module _ (junk r : ℕ → ℕ) (n : ℕ) (str : IsString 56 r n) (le : n ≤ 8) where
  buffer : ℕ → ℕ
  buffer = zero_pad 8 (behind_pad junk r) n

  buffer-zeros : (j : ℕ) → n ≤ j → j < n + (8 - n) → buffer j ≡ 48
  unfolding padded buffer
  buffer-zeros j from to = zero_pad-padded 8 (behind_pad junk r) n j (omega arith) ∙ ground arith

  buffer-number : (x : ℕ) → buffer (8 + x) ≡ r (0 + x)
  unfolding padded buffer
  buffer-number x =
      let e : 8 + x - 8 ≡ 0 + x = omega arith in
      zero_pad-padded 8 (behind_pad junk r) n (8 + x) (omega arith)
      ∙ padded_behind (behind_pad junk r) n x
      ∙ behind_pad_number junk r x
      ∙ ap r e

  buffer-end : buffer (n + 8) ≡ 0
  buffer-end =
      let at : n + 8 ≡ 8 + n = omega arith in
      let at' : 0 + n ≡ n = omega arith in ap buffer at ∙ buffer-number n ∙ ap r at' ∙ str.end

  buffer-chars : (j : ℕ) → n ≤ j → j < n + 8 → buffer j ≢ 0
  buffer-chars j from to = elim (Bool-cases (ltb j 8)) [
    | inl pad ↦ λ z. (let e = buffer-zeros j from (ground arith) in absurd (omega (arith, e, z)))
    | inr digit ↦ λ z.
        (let at : j ≡ 8 + (j - 8) = ground arith in
          let at' : 0 + (j - 8) ≡ j - 8 = omega arith in
          str.chars (j - 8) (ground arith)
            (sym (ap buffer at ∙ buffer-number (j - 8) ∙ ap r at') ∙ z))
  ]

  buffer-value : value_of 16 (slice buffer n 8) ≡ value_of 16 (slice r 0 n)
  buffer-value =
      let whole : 8 - n + n ≡ 8 = omega arith in
      ap (value_of 16)
        (ap (slice buffer n) (sym whole) ∙ sym (slice-append buffer n 8 (8 - n) n (omega arith)))
      ∙ value_from-zeros 16 buffer n (8 - n) (slice buffer 8 n) buffer-zeros
      ∙ ap (value_of 16) (slice-shift buffer r 8 0 n buffer-number)

  buffer-text : until_nul (slice buffer n (64 - n)) ≡ ok (slice buffer n 8)
  buffer-text = until_nul-slice buffer n (64 - n) 8 (omega arith) buffer-end buffer-chars

padded_hex_steps :
    (junk r : ℕ → ℕ) (v n : ℕ)
    → itoa v 56 (λ i. junk (i + 8)) 16 ≡ ok r
    → strlen (slice r 0 56) ≡ ok n
    → padded_hex_text junk v ≡ ok (slice (zero_pad 8 (behind_pad junk r) n) n (64 - n))
unfolding padded_hex_text
padded_hex_steps junk r v n made len =
    let text : ℕ → List ℕ = λ m. slice (zero_pad 8 (behind_pad junk r) m) m (64 - m) in
    let after : (ℕ → ℕ) → Result (List ℕ) = λ r'.
      strlen (slice r' 0 56) >>= λ m. ok (slice (zero_pad 8 (behind_pad junk r') m) m (64 - m)) in
    ap (λ res. res >>= after) made ∙ ap (λ res. res >>= λ m. ok (text m)) len

-- `%#x` of a value below 2^31: whatever the stack held before, the buffer that is given to `puts` holds
-- a string of exactly eight digits, which denote the value.
pub padded_hex_text-value_of :
    (junk : ℕ → ℕ) (v : ℕ)
    → v < 2 ^ 31
    → (s : List ℕ) × (text : List ℕ) × (padded_hex_text junk v ≡ ok s)
      × (until_nul s ≡ ok text)
      × (length text ≡ 8)
      × (value_of 16 text ≡ v)
unfolding zero_pad buffer
padded_hex_text-value_of junk v small =
    let (r, n, le, made, str, value) =
      itoa-value_of v 56 8 16 (λ i. junk (i + 8)) (omega arith) (omega arith) small
        (omega (arith, small)) (omega arith) (omega arith) (omega arith) in
    let buf = zero_pad 8 (behind_pad junk r) n in
    (
      slice buf n (64 - n),
      slice buf n 8,
      padded_hex_steps junk r v n made (strlen-IsString 56 n r str),
      buffer-text junk r n str le,
      length-slice buf n 8,
      buffer-value junk r n str le ∙ value.value,
    )
