-- ===== src/Programs/Support.antt =====
-- syscalls/ece391support.c
pub mod Compare
use ece391_mp.Base.{
  ℕ, zero, suc, ◌+◌, ◌-◌, List, [], ◌∷◌, Result, ok, fault, ◌>>=◌, ◌>>◌, in_bounds, ltb, ◌==◌, ◌||◌,
  if◌then◌else◌, ℤ, pos, sub_ℕ, update,
}
use ece391_mp.Str.{itoa_with, unsigned_rem}
use ece391_mp.Programs.{Os}

-- `ece391_strlen`, with the length so far.
unfoldable pub ece391_strlen_from : List ℕ → ℕ → Result ℕ
ece391_strlen_from [] len = fault
ece391_strlen_from (c ∷ s) len = if c == 0 then ok len else ece391_strlen_from s (len + 1)

unfoldable pub ece391_strlen : List ℕ → Result ℕ
unfolding ece391_strlen_from
ece391_strlen s = ece391_strlen_from s 0

-- `ece391_strcpy` to index `i` of a buffer of `cap` bytes.
unfoldable pub ece391_strcpy_at : ℕ → (ℕ → ℕ) → List ℕ → ℕ → Result (ℕ → ℕ)
ece391_strcpy_at cap dst [] i = fault
ece391_strcpy_at cap dst (c ∷ src) i =
    let rest = ece391_strcpy_at cap (update dst i c) src (i + 1) in
    in_bounds (ltb i cap) >> (if c == 0 then ok (update dst i c) else rest)

-- `ece391_strcmp`
unfoldable pub ece391_strcmp : List ℕ → List ℕ → Result ℤ
ece391_strcmp [] s2 = fault
ece391_strcmp (a ∷ s1) [] = fault
ece391_strcmp (a ∷ s1) (b ∷ s2) =
    let rest = if a == 0 then ok (pos 0) else ece391_strcmp s1 s2 in
    if a == b then rest else ok (sub_ℕ a b)

-- The loop of `ece391_strncmp`, for a positive `n`.
unfoldable pub ece391_strncmp_loop : List ℕ → List ℕ → ℕ → Result ℤ
ece391_strncmp_loop [] s2 n = fault
ece391_strncmp_loop (a ∷ s1) [] n = fault
ece391_strncmp_loop (a ∷ s1) (b ∷ s2) n =
    let rest = if a == 0 || n - 1 == 0 then ok (pos 0) else ece391_strncmp_loop s1 s2 (n - 1) in
    if a == b then rest else ok (sub_ℕ a b)

-- `ece391_strncmp`
unfoldable pub ece391_strncmp : List ℕ → List ℕ → ℕ → Result ℤ
unfolding ece391_strncmp_loop
ece391_strncmp s1 s2 n = if n == 0 then ok (pos 0) else ece391_strncmp_loop s1 s2 n

-- `ece391_itoa`. It is `itoa` of the kernel, but its remainder is one of `uint32_t`.
unfoldable pub ece391_itoa : ℕ → ℕ → (ℕ → ℕ) → ℕ → Result (ℕ → ℕ)
unfolding itoa_with
ece391_itoa value cap buf radix = itoa_with unsigned_rem value cap buf radix

-- `ece391_fdputs`
unfoldable pub ece391_fdputs : (os : Os) → os.State → ℤ → List ℕ → Result os.State
unfolding ece391_strlen
ece391_fdputs os w fd s = ece391_strlen s >>= λ n. ok (os.write w fd s (pos n)).0
