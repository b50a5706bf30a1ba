-- ===== src/Mem/Fills.antt =====
-- What `memset` and its two kin leave in memory.
use ece391_mp.Base.{
  ℕ, zero, suc, ◌+◌, ◌-◌, ◌*◌, ◌/◌, ◌%◌, ◌^◌, ◌<◌, ◌≡◌, refl, inl, inr, Bool, true, ◌==◌, update,
  arith, Bool-cases, ℤ, to_u32, all_below, all_below-true, ==_iff,
}
use ece391_mp.Mem.{
  Memory, later, memset_top, stosl, stosw, rep_stosl, rep_stosw, memset_bottom, spread, memset,
  memset_word, memset_dword,
}
use ece391_mp.Mem.Filled.{
  filled, Filled, Filled-none, Filled-then, byte_of, Filled-byte, Repeats, Repeats-later,
  Filled-stosw, Filled-stosl,
}

rep_stosw-Filled :
    (mem : Memory) (s eax n : ℕ) (p : ℕ → ℕ)
    → s + 2 * n < 2 ^ 32
    → Repeats p s eax 2
    → Filled mem s p
        (2 * n)
        (record { mem = rep_stosw mem s eax n; dest = s + 2 * n; src = 0; count = 0 })
unfolding rep_stosw
rep_stosw-Filled mem s eax zero p h reps = record {
  dest_after = refl;
  mem_after = (Filled-none mem s p 0 0).mem_after;
}
rep_stosw-Filled mem s eax (suc n) p h reps =
    let rest =
      rep_stosw-Filled (stosw mem s eax) (later s 2) eax n p (omega arith)
        (Repeats-later p s (later s 2) eax 2 (λ i. omega arith) (omega arith) reps) in
    Filled-then mem s p 2 (2 * n) (2 * suc n) _ _ (omega arith)
      (Filled-stosw mem s eax 0 0 p (omega arith) reps)
      (record { dest_after = omega arith; mem_after = rest.mem_after })

rep_stosl-Filled :
    (mem : Memory) (s eax n : ℕ) (p : ℕ → ℕ)
    → s + 4 * n < 2 ^ 32
    → Repeats p s eax 4
    → Filled mem s p (4 * n) (rep_stosl mem s eax n)
unfolding rep_stosl
rep_stosl-Filled mem s eax zero p h reps = Filled-none mem s p 0 0
rep_stosl-Filled mem s eax (suc n) p h reps =
    Filled-then mem s p 4 (4 * n) (4 * suc n) _ _ (omega arith)
      (Filled-stosl mem s eax 0 0 p (omega arith) reps)
      (rep_stosl-Filled (stosl mem s eax) (later s 4) eax n p (omega arith)
        (Repeats-later p s (later s 4) eax 4 (λ i. omega arith) (omega arith) reps))

-- The loops that write one byte.
memset_bottom-Filled :
    (mem : Memory) (s c n : ℕ)
    → s + n < 2 ^ 32
    → Filled mem s
        (λ a. c)
        n
        (record { mem = memset_bottom mem s c n; dest = s + n; src = 0; count = 0 })
unfolding memset_bottom
memset_bottom-Filled mem s c zero h = record {
  dest_after = refl;
  mem_after = (Filled-none mem s (λ a. c) 0 0).mem_after;
}
memset_bottom-Filled mem s c (suc n) h =
    let rest = memset_bottom-Filled (update mem s c) (later s 1) c n (omega arith) in
    Filled-then mem s (λ a. c) 1 n (suc n) _ _ (omega arith)
      (Filled-byte mem s c (later s 1) (λ a. c) 0 0 (omega arith) refl)
      (record { dest_after = omega arith; mem_after = rest.mem_after })

memset_top-Filled :
    (mem : Memory) (s c n : ℕ)
    → s + n < 2 ^ 32
    → (m : ℕ) × (m + (memset_top mem s c n).count ≡ n)
      × Filled mem s (λ a. c) m (memset_top mem s c n)
unfolding memset_top
memset_top-Filled mem s c zero h = (0, refl, Filled-none mem s (λ a. c) 0 0)
memset_top-Filled mem s c (suc n) h = elim (Bool-cases (s % 4 == 0)) [
  | inl aligned ↦ rw aligned (0, omega arith, Filled-none mem s (λ a. c) 0 (suc n))
  | inr odd ↦
      let (m, e, rest) = memset_top-Filled (update mem s c) (later s 1) c n (omega arith) in
      rw odd (
        suc m,
        omega arith,
        Filled-then mem s (λ a. c) 1 m (suc m) _ _ (omega arith)
            (Filled-byte mem s c (later s 1) (λ a. c) 0 0 (omega arith) refl) rest,
      )
]

-- The four bytes of `c << 24 | c << 16 | c << 8 | c` are `c`.
spread_test : ℕ → ℕ → Bool
spread_test c i = c == byte_of (spread c) i

every_spread : all_below 256 (λ c. all_below 4 (spread_test c)) ≡ true
unfolding all_below spread_test
every_spread = refl

byte_of-spread : (c i : ℕ) → c < 256 → i < 4 → c ≡ byte_of (spread c) i
unfolding spread_test
byte_of-spread c i h lt =
    let at_c = all_below-true 256 (λ b. all_below 4 (spread_test b)) c every_spread h in
    (==_iff c (byte_of (spread c) i)).0 (all_below-true 4 (spread_test c) i at_c lt)

-- `memset`, whose three loops write bytes up to an aligned address, then four bytes at once, then the
-- bytes that are left, does what its name says: the `n` bytes from `s` on are the lowest byte of `c`,
-- and no other byte changes. This is for a range that does not reach the end of the address space.
pub memset-filled :
    (mem : Memory) (s : ℕ) (c : ℤ) (n : ℕ)
    → s + n < 2 ^ 32
    → (a : ℕ) → memset mem s c n a ≡ filled mem s (λ b. to_u32 c % 256) n a
unfolding memset
memset-filled mem s c n h a =
    let byte = to_u32 c % 256 in
    let p = λ (b : ℕ). byte in
    let (m, e, head) = memset_top-Filled mem s byte n h in
    let r = memset_top mem s byte n in
    let k = r.count in
    let d = head.dest_after in
    let reps : Repeats p (r.dest) (spread byte) 4 =
      λ i. byte_of-spread byte (i % 4) (omega arith) (omega arith) in
    let words = rep_stosl-Filled (r.mem) (r.dest) (spread byte) (k / 4) p (omega arith) reps in
    let r' = rep_stosl (r.mem) (r.dest) (spread byte) (k / 4) in
    let d' = words.dest_after in
    let tail = memset_bottom-Filled (r'.mem) (r'.dest) byte (k % 4) (omega arith) in
    let both = Filled-then mem s p m (4 * (k / 4)) (m + 4 * (k / 4)) r r' refl head words in
    (Filled-then mem s p (m + 4 * (k / 4)) (k % 4) n r' _ (omega arith) both tail).mem_after a

-- `memset_word` writes `n` words of 16 bits, which are 2n bytes, and no other byte: the byte at each
-- even distance from `s` is the lowest byte of `c`, and the byte behind it the next one.
pub memset_word-filled :
    (mem : Memory) (s : ℕ) (c : ℤ) (n : ℕ)
    → s + 2 * n < 2 ^ 32
    → (a : ℕ)
    → memset_word mem s c n a ≡ filled mem s (λ b. byte_of (to_u32 c) ((b - s) % 2)) (2 * n) a
unfolding memset_word
memset_word-filled mem s c n h a =
    let reps : Repeats (λ b. byte_of (to_u32 c) ((b - s) % 2)) s (to_u32 c) 2 =
      λ i. (let e : s + i - s ≡ i = omega arith in rw e refl) in
    (rep_stosw-Filled mem s (to_u32 c) n _ h reps).mem_after a

-- `memset_dword` writes `n` words of 32 bits, which are 4n bytes, and no other byte: the byte at
-- distance d from `s` is byte d mod 4 of `c`.
pub memset_dword-filled :
    (mem : Memory) (s : ℕ) (c : ℤ) (n : ℕ)
    → s + 4 * n < 2 ^ 32
    → (a : ℕ)
    → memset_dword mem s c n a ≡ filled mem s (λ b. byte_of (to_u32 c) ((b - s) % 4)) (4 * n) a
unfolding memset_dword
memset_dword-filled mem s c n h a =
    let reps : Repeats (λ b. byte_of (to_u32 c) ((b - s) % 4)) s (to_u32 c) 4 =
      λ i. (let e : s + i - s ≡ i = omega arith in rw e refl) in
    (rep_stosl-Filled mem s (to_u32 c) n _ h reps).mem_after a
