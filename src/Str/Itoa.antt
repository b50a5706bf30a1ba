-- ===== src/Str/Itoa.antt =====
-- `itoa`, and `ece391_itoa` of the programs, whose remainder is unsigned.
use native.Mathlib.Nat.{mod-add-div', mod-lt, div-lt_iff_lt-mul, div-le_self, pow-suc, pow-zero}
use ece391_mp.Base.{
  ℕ, zero, suc, ◌+◌, ◌-◌, ◌*◌, ◌/◌, ◌%◌, ◌^◌, ◌≤◌, ◌<◌, ◌≡◌, ◌≢◌, ◌⊎◌, ap₂, refl, sym, ap, ◌∙◌, inl,
  inr, true, false, Result, ok, fault, ◌>>=◌, ltb, ◌==◌, if◌then◌else◌, ℤ, pos, update, slice,
  slice-ext, arith, Bool-cases, in_bounds, subst, List, [], ◌∷◌, length, ◌>>◌, negsuc,
}
use ece391_mp.Str.{strrev, lookup_at, signed_rem, itoa_loop, itoa_with, itoa_rounds, itoa}
use ece391_mp.Str.Reverse.{IsString, strrev-reverse}
use ece391_mp.Str.Digits.{
  digit_of, is_digit, AreDigits, Denotes, value_of, low_value, lookup_at-digit, value_of-reverse,
  AreDigits-reverse, AreDigits-slice, is_digit-nonzero,
}

-- The loop of `itoa` has left in the buffer, from `at` on, the digits of `v`, the lowest first.
record HasDigits (radix v at : ℕ) (buf r : ℕ → ℕ) (n : ℕ) : Type 0 where
  digits : low_value radix (slice r at n) ≡ v
  chars : (i : ℕ) → at ≤ i → i < at + n → is_digit radix (r i) ≡ true
  before : (i : ℕ) → i < at → r i ≡ buf i

div-pow : (v radix d : ℕ) → 2 ≤ radix → v < radix ^ suc d → v / radix < radix ^ d
div-pow v radix d some_radix lt =
    (div-lt_iff_lt-mul {k = radix} {x = v} {y = radix ^ d} (omega arith)).1
      (rw (← pow-suc radix d) lt)

below_cap : (n d cap : ℕ) → n ≤ d → d < cap → ltb n cap ≡ true
below_cap n d cap le lt = ground arith

digits-some :
    (radix : ℕ) (text : List ℕ) (v : ℕ) → value_of radix text ≡ v → v ≢ 0 → 1 ≤ length text
unfolding value_of
digits-some radix [] v value some_left = absurd (some_left (sym value))
digits-some radix (c ∷ text) v value some_left = omega arith

first_or_later : (at i : ℕ) → at ≤ i → (i ≡ at) ⊎ (at + 1 ≤ i)
first_or_later at i le = ground arith

-- One digit in front of the others.
HasDigits-cons :
    (radix v at n c : ℕ) (buf r : ℕ → ℕ)
    → digit_of c ≡ v % radix
    → is_digit radix c ≡ true
    → HasDigits radix (v / radix) (at + 1) (update buf at c) r n
    → HasDigits radix v at buf r (suc n)
unfolding low_value
HasDigits-cons radix v at n c buf r digit some_char h =
    let here : update buf at c at ≡ c = ground arith in
    let first : r at ≡ c = h.before at (omega arith) ∙ here in
    record {
      digits =
          ap₂ (λ w x. w * radix + x) (h.digits) (ap digit_of first ∙ digit)
          ∙ (let e : v % radix + v / radix * radix ≡ v = mod-add-div' v radix in omega (arith, e));
      chars = λ i le lt. elim (first_or_later at i le) [
        | inl e ↦ ap (is_digit radix) (ap r e ∙ first) ∙ some_char
        | inr later ↦ h.chars i later (omega arith)
      ];
      before = λ i lt. h.before i (omega arith) ∙ ground arith;
    }

module _ (rem : ℕ → ℕ → ℤ) (limit radix : ℕ) (some_radix : 2 ≤ radix) (table : radix ≤ 36)
    (is_rem : (v : ℕ) → v < limit → rem v radix ≡ pos (v % radix)) where
  itoa_loop_end :
      (fuel cap v at : ℕ) (buf : ℕ → ℕ)
      → v ≡ 0
      → (r : ℕ → ℕ) × (n : ℕ) × (n ≤ 0)
        × (itoa_loop rem (suc fuel) cap buf at v radix ≡ ok (r, at + n))
        × HasDigits radix v at buf r n
  unfolding itoa_loop low_value
  itoa_loop_end fuel cap v at buf none =
      let none_left : (v == 0) ≡ true = ground (arith, none) in
      let e : at ≡ at + 0 = omega arith in
      (
        buf,
        0,
        omega arith,
        rw none_left (ap (λ k. ok (buf, k)) e),
        record {
          digits = sym none;
          chars = λ i le lt. absurd (omega arith);
          before = λ i lt. refl;
        },
      )

  itoa_loop_step :
      (fuel cap v at c : ℕ) (buf : ℕ → ℕ)
      → v ≢ 0
      → at < cap
      → rem v radix ≡ pos (v % radix)
      → lookup_at (pos (v % radix)) ≡ ok c
      → itoa_loop rem (suc fuel) cap buf at v radix
        ≡ itoa_loop rem fuel cap (update buf at c) (at + 1) (v / radix) radix
  unfolding itoa_loop
  itoa_loop_step fuel cap v at c buf some_left room digit entry =
      let some_left' : (v == 0) ≡ false = ground (arith, some_left) in
      let room' : ltb at cap ≡ true = ground arith in rw (some_left', digit, entry, room') refl

  itoa_loop-HasDigits :
      (fuel d cap v at : ℕ) (buf : ℕ → ℕ)
      → d < fuel
      → at + d < cap
      → v < radix ^ d
      → v < limit
      → (r : ℕ → ℕ) × (n : ℕ) × (n ≤ d)
        × (itoa_loop rem fuel cap buf at v radix ≡ ok (r, at + n))
        × HasDigits radix v at buf r n
  itoa_loop-HasDigits zero d cap v at buf enough room fits small = absurd (omega arith)
  itoa_loop-HasDigits (suc fuel) zero cap v at buf enough room fits small =
      itoa_loop_end fuel cap v at buf (let one = pow-zero radix in omega (arith, fits, one))
  itoa_loop-HasDigits (suc fuel) (suc d) cap v at buf enough room fits small =
      elim (Bool-cases (v == 0)) [
        | inl none_left ↦
            let (r, n, le, e, h) = itoa_loop_end fuel cap v at buf (ground arith) in
            (r, n, omega arith, e, h)
        | inr some_left ↦
            let (c, entry, digit, some_char) =
              lookup_at-digit radix (v % radix) (mod-lt v {m = radix} (omega arith)) table in
            let (r, n, le, e, h) =
              itoa_loop-HasDigits fuel d cap (v / radix) (at + 1) (update buf at c) (omega arith)
                (omega arith) (div-pow v radix d some_radix fits)
                (let le = div-le_self v radix in omega (arith, le)) in
            let step =
              itoa_loop_step fuel cap v at c buf (ground arith) (omega arith) (is_rem v small)
                entry in
            let index : at + 1 + n ≡ at + suc n = omega arith in
            (
              r,
              suc n,
              omega arith,
              step ∙ e ∙ ap (λ k. ok (r, k)) index,
              HasDigits-cons radix v at n c buf r digit some_char h,
            )
      ]

  -- The end of the string, and the reversal.
  finish :
      (cap v n : ℕ) (r : ℕ → ℕ) (buf : ℕ → ℕ)
      → n < cap
      → HasDigits radix v 0 buf r n
      → (r' : ℕ → ℕ) × (strrev cap (update r n 0) ≡ ok r')
        × IsString cap r' n
        × (value_of radix (slice r' 0 n) ≡ v)
        × AreDigits radix (slice r' 0 n)
  finish cap v n r buf room h =
      let inside : (i : ℕ) → i < n → r i ≡ update r n 0 i = λ i lt. ground arith in
      let str : IsString cap (update r n 0) n = record {
        fits = room;
        end = ground arith;
        chars = λ i lt z.
            is_digit-nonzero radix (r i) (h.chars i (omega arith) (omega arith)) (inside i lt ∙ z);
      } in
      let (r', e, back, str', behind) = strrev-reverse cap n (update r n 0) str in
      let same : slice r 0 n ≡ slice (update r n 0) 0 n =
        slice-ext r (update r n 0) 0 n (λ j le lt. inside j (omega arith)) in
      (
        r',
        e,
        str',
        ap (value_of radix) back
            ∙ value_of-reverse radix (slice (update r n 0) 0 n)
            ∙ ap (low_value radix) (sym same)
            ∙ h.digits,
        subst (AreDigits radix) (sym back) (
            AreDigits-reverse radix (slice (update r n 0) 0 n)
              (subst (AreDigits radix) same (AreDigits-slice radix r 0 n h.chars))),
      )

  itoa_with_steps :
      (cap v n : ℕ) (buf r r' : ℕ → ℕ)
      → (v == 0) ≡ false
      → itoa_loop rem itoa_rounds cap buf 0 v radix ≡ ok (r, n)
      → ltb n cap ≡ true
      → strrev cap (update r n 0) ≡ ok r'
      → itoa_with rem v cap buf radix ≡ ok r'
  unfolding itoa_with
  itoa_with_steps cap v n buf r r' some_left loop room rev =
      let after : Result ((ℕ → ℕ) × ℕ) → Result (ℕ → ℕ) =
        λ res. res >>= λ q. (in_bounds (ltb q.1 cap) >> strrev cap (update q.0 q.1 0)) in
      let zero_case : Result (ℕ → ℕ) = in_bounds (ltb 1 cap) >> ok (update (update buf 0 48) 1 0) in
      ap (λ b. if b then zero_case else after (itoa_loop rem itoa_rounds cap buf 0 v radix))
        some_left
      ∙ ap after loop
      ∙ ap (λ b. in_bounds b >> strrev cap (update r n 0)) room
      ∙ rev

  itoa_with_zero :
      (cap v : ℕ) (buf : ℕ → ℕ)
      → v ≡ 0
      → 1 < cap
      → (r : ℕ → ℕ) × (itoa_with rem v cap buf radix ≡ ok r)
        × IsString cap r 1
        × Denotes radix (slice r 0 1) v
  unfolding itoa_with value_of AreDigits is_digit
  itoa_with_zero cap v buf none room =
      let none_left : (v == 0) ≡ true = ground (arith, none) in
      let room' : ltb 1 cap ≡ true = ground arith in
      (
        update (update buf 0 48) 1 0,
        rw (none_left, room') refl,
        record {
          fits = room;
          end = refl;
          chars = λ i lt.
              (let e : i ≡ 0 = omega arith in
                λ z. absurd (
                  let z' : 48 ≡ 0 = sym (ap (update (update buf 0 48) 1 0) e) ∙ z in
                  omega (arith, z')));
        },
        record {
          some_digit = omega arith;
          digits = (ground arith, tt);
          value = (let e : 0 * radix + 0 ≡ v = omega (arith, none) in e);
        },
      )

  pub itoa_with-value :
      (d cap v : ℕ) (buf : ℕ → ℕ)
      → 0 < d
      → d < itoa_rounds
      → d < cap
      → v < radix ^ d
      → v < limit
      → (r : ℕ → ℕ) × (n : ℕ) × (n ≤ d)
        × (itoa_with rem v cap buf radix ≡ ok r)
        × IsString cap r n
        × Denotes radix (slice r 0 n) v
  itoa_with-value d cap v buf some_digit enough room fits small = elim (Bool-cases (v == 0)) [
    | inl none_left ↦
        let (r, e, str, value) = itoa_with_zero cap v buf (ground arith) (omega arith) in
        (r, 1, omega arith, e, str, value)
    | inr some_left ↦
        let (r, n, le, loop, h) =
          itoa_loop-HasDigits itoa_rounds d cap v 0 buf enough (omega arith) fits small in
        let (r', rev, str, value, digits) = finish cap v n r buf (omega arith) h in
        let index : 0 + n ≡ n = omega arith in
        let room' : ltb n cap ≡ true = below_cap n d cap le room in
        (
          r',
          n,
          le,
          itoa_with_steps cap v n buf r r' some_left (loop ∙ ap (λ k. ok (r, k)) index) room' rev,
          str,
          record {
            some_digit = digits-some radix (slice r' 0 n) v value (ground arith);
            digits = digits;
            value = value;
          },
        )
  ]

signed_rem_small : (radix v : ℕ) → v < 2 ^ 31 → signed_rem v radix ≡ pos (v % radix)
unfolding signed_rem
signed_rem_small radix v lt = let small : ltb v (2 ^ 31) ≡ true = ground arith in rw small refl

-- `itoa` of a value below 2^31, for a radix from 2 to 36 and a buffer of more than `d` bytes, where the
-- value has at most `d` digits: it stays in the buffer and leaves a string there, of one to `d`
-- characters, each of them a digit of the radix (`0` to `9`, then `A` to `Z`), that denotes the value.
pub itoa-value_of :
    (value cap d radix : ℕ) (buf : ℕ → ℕ)
    → 2 ≤ radix
    → radix ≤ 36
    → value < 2 ^ 31
    → value < radix ^ d
    → 0 < d
    → d ≤ 32
    → d < cap
    → (r : ℕ → ℕ) × (n : ℕ) × (n ≤ d)
      × (itoa value cap buf radix ≡ ok r)
      × IsString cap r n
      × Denotes radix (slice r 0 n) value
unfolding itoa
itoa-value_of value cap d radix buf some_radix table small fits some_digit enough room =
    itoa_with-value signed_rem (2 ^ 31) radix some_radix table (signed_rem_small radix) d cap value
      buf some_digit (omega arith) room fits small

signed_rem_large :
    (radix value : ℕ)
    → 2 ^ 31 ≤ value
    → (2 ^ 32 - value) % radix ≢ 0
    → signed_rem value radix ≡ negsuc ((2 ^ 32 - value) % radix - 1)
unfolding signed_rem
signed_rem_large radix value large some_rem =
    let large' : ltb value (2 ^ 31) ≡ false = ground arith in
    let some_rem' : ((2 ^ 32 - value) % radix == 0) ≡ false = ground (arith, some_rem) in
    rw (large', some_rem') refl

-- `itoa` reads in front of its table for a value from 2^31 on whose negative as an `i32` is no multiple
-- of the radix.
pub itoa-fault :
    (value cap radix : ℕ) (buf : ℕ → ℕ)
    → 2 ^ 31 ≤ value
    → (2 ^ 32 - value) % radix ≢ 0
    → itoa value cap buf radix ≡ fault
unfolding itoa itoa_with itoa_loop lookup_at
itoa-fault value cap radix buf large some_rem =
    let some_left : (value == 0) ≡ false = ground (arith, large) in
    let negative = signed_rem_large radix value large some_rem in rw (some_left, negative) refl
