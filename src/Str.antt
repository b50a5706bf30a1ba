-- ===== src/Str.antt =====
-- The string functions of student-distrib/lib.c. A `const i8*` is the list of the bytes (0 to 255)
-- from the pointer to the end of the object that it points into; a read past that end is a fault.
pub mod Reverse
pub mod Digits
pub mod Itoa
use ece391_mp.Base.{
  ℕ, zero, suc, ◌+◌, ◌-◌, not, ◌||◌, List, [], ◌∷◌, Option, none, some, Result, ok, fault, ◌>>=◌,
  ltb, ◌==◌, if◌then◌else◌, ℤ, pos, negsuc, pos_part, neg_part, sub_ℕ, Bool, false, ◌/◌, ◌%◌, ◌^◌,
  ◌>>◌, in_bounds, update, slice, get_or, ltb_ℤ, leb,
}

-- `strlen`
unfoldable pub strlen : List ℕ → Result ℕ
strlen [] = fault
strlen (c ∷ s) = if c == 0 then ok 0 else (strlen s >>= λ n. ok (n + 1))

-- A byte read as an `i8`.
abbrev pub signed8 : ℕ → ℤ
signed8 b = if ltb b 128 then pos b else negsuc (255 - b)

-- `s1[i] - s2[i]`, after the promotion to `int`.
unfoldable pub i8_diff : ℕ → ℕ → ℤ
i8_diff a b =
    sub_ℕ (pos_part (signed8 a) + neg_part (signed8 b))
      (neg_part (signed8 a) + pos_part (signed8 b))

-- `strncmp`
unfoldable pub strncmp : List ℕ → List ℕ → ℕ → Result ℤ
strncmp s1 s2 zero = ok (pos 0)
strncmp [] s2 (suc n) = fault
strncmp (a ∷ s1) [] (suc n) = fault
strncmp (a ∷ s1) (b ∷ s2) (suc n) =
    if not (a == b) || a == 0 then ok (i8_diff a b) else strncmp s1 s2 n

-- A buffer that a function writes to: `buf` from its start, with `cap` bytes. A write behind them is a
-- fault. The copy of `strcpy` from index `i` on.
unfoldable pub strcpy_at : ℕ → (ℕ → ℕ) → List ℕ → ℕ → Result (ℕ → ℕ)
strcpy_at cap dest [] i = fault
strcpy_at cap dest (c ∷ src) i =
    let rest = strcpy_at cap (update dest i c) src (i + 1) in
    in_bounds (ltb i cap) >> (if c == 0 then ok (update dest i 0) else rest)

-- `strcpy`
unfoldable pub strcpy : ℕ → (ℕ → ℕ) → List ℕ → Result (ℕ → ℕ)
unfolding strcpy_at
strcpy cap dest src = strcpy_at cap dest src 0

-- The second loop of `strncpy`, with the rounds that are left.
unfoldable pub zero_at : ℕ → (ℕ → ℕ) → ℕ → ℕ → Result (ℕ → ℕ)
zero_at cap dest zero i = ok dest
zero_at cap dest (suc rounds) i =
    in_bounds (ltb i cap) >> zero_at cap (update dest i 0) rounds (i + 1)

-- Its first loop. `src[i]` is read before `i` is compared with `n`.
unfoldable pub strncpy_at : ℕ → (ℕ → ℕ) → List ℕ → ℕ → ℕ → Result (ℕ → ℕ)
unfolding zero_at
strncpy_at cap dest [] rounds i = fault
strncpy_at cap dest (c ∷ src) zero i = ok dest
strncpy_at cap dest (c ∷ src) (suc rounds) i =
    let copied = in_bounds (ltb i cap) >> strncpy_at cap (update dest i c) src rounds (i + 1) in
    if c == 0 then zero_at cap dest (suc rounds) i else copied

-- `strncpy`
unfoldable pub strncpy : ℕ → (ℕ → ℕ) → List ℕ → ℕ → Result (ℕ → ℕ)
unfolding strncpy_at
strncpy cap dest src n = strncpy_at cap dest src n 0

-- `s[end]` and `s[beg]` exchanged.
abbrev pub swap : (ℕ → ℕ) → ℕ → ℕ → ℕ → ℕ
swap s beg end = update (update s end (s beg)) beg (s end)

-- The loop of `strrev`, on fuel.
unfoldable pub strrev_loop : ℕ → (ℕ → ℕ) → ℕ → ℕ → Option (ℕ → ℕ)
strrev_loop zero s beg end = none
strrev_loop (suc fuel) s beg end =
    let rest = strrev_loop fuel (swap s beg end) (beg + 1) (end - 1) in
    if ltb beg end then rest else some s

-- `strrev` of the string in a buffer of `cap` bytes. For the empty string `end` is -1, which like 0
-- is not above `beg`. Out of fuel is a fault.
unfoldable pub strrev : ℕ → (ℕ → ℕ) → Result (ℕ → ℕ)
unfolding strlen strrev_loop
strrev cap s = do
  n ← strlen (slice s 0 cap)
  elim (strrev_loop (n + 1) s 0 (n - 1)) [ none ↦ fault | some r ↦ ok r ]

-- The table of `itoa`, with its NUL.
abbrev pub lookup : List ℕ
lookup =
    48 ∷ 49 ∷ 50 ∷ 51 ∷ 52 ∷ 53 ∷ 54 ∷ 55 ∷ 56 ∷ 57 ∷ 65 ∷ 66 ∷ 67 ∷ 68 ∷ 69 ∷ 70 ∷ 71 ∷ 72 ∷ 73
    ∷ 74 ∷ 75 ∷ 76 ∷ 77 ∷ 78 ∷ 79 ∷ 80 ∷ 81 ∷ 82 ∷ 83 ∷ 84 ∷ 85 ∷ 86 ∷ 87 ∷ 88 ∷ 89 ∷ 90 ∷ 0 ∷ []

-- `lookup[i]`
unfoldable pub lookup_at : ℤ → Result ℕ
lookup_at (pos i) = if ltb i 37 then ok (get_or lookup i 0) else fault
lookup_at (negsuc i) = fault

-- `(i32)newval % radix`, for a positive radix: the remainder has the sign of the value.
unfoldable pub signed_rem : ℕ → ℕ → ℤ
signed_rem newval radix =
    let r = (2 ^ 32 - newval) % radix in
    if ltb newval (2 ^ 31) then pos (newval % radix) else if r == 0 then pos 0 else negsuc (r - 1)

-- `newval % radix` on `u32`
abbrev pub unsigned_rem : ℕ → ℕ → ℤ
unsigned_rem newval radix = pos (newval % radix)

-- A number of 32 bits has at most 32 digits, and the loop one round more.
abbrev pub itoa_rounds : ℕ
itoa_rounds = 33

module _ (rem : ℕ → ℕ → ℤ) where
  -- The loop of `itoa` on fuel, with the buffer and the index of `newbuf`.
  unfoldable pub itoa_loop : ℕ → ℕ → (ℕ → ℕ) → ℕ → ℕ → ℕ → Result ((ℕ → ℕ) × ℕ)
  unfolding lookup_at
  itoa_loop zero cap buf at newval radix = fault
  itoa_loop (suc fuel) cap buf at newval radix =
      let round = lookup_at (rem newval radix) >>= λ c.
      (in_bounds (ltb at cap)
        >> itoa_loop fuel cap (update buf at c) (at + 1) (newval / radix) radix) in
      if newval == 0 then ok (buf, at) else round

  unfoldable pub itoa_with : ℕ → ℕ → (ℕ → ℕ) → ℕ → Result (ℕ → ℕ)
  unfolding itoa_loop strrev
  itoa_with value cap buf radix =
      let number = itoa_loop itoa_rounds cap buf 0 value radix >>= λ r.
      (in_bounds (ltb r.1 cap) >> strrev cap (update r.0 r.1 0)) in
      if value == 0 then (in_bounds (ltb 1 cap) >> ok (update (update buf 0 48) 1 0)) else number

-- `itoa`, on a buffer of `cap` bytes, for a radix of at least 2.
unfoldable pub itoa : ℕ → ℕ → (ℕ → ℕ) → ℕ → Result (ℕ → ℕ)
unfolding itoa_with signed_rem
itoa value cap buf radix = itoa_with signed_rem value cap buf radix
