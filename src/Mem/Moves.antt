-- ===== src/Mem/Moves.antt =====
-- What `memcpy` and `memmove` leave in memory.
use ece391_mp.Base.{
  ℕ, zero, suc, ◌+◌, ◌-◌, ◌*◌, ◌/◌, ◌%◌, ◌^◌, ◌≤◌, ◌<◌, ◌≡◌, refl, sym, ◌∙◌, inl, inr, true, false,
  leb, ◌==◌, update, arith, Bool-cases, leb→le,
}
use ece391_mp.Mem.{
  Memory, later, movsl, memcpy_top, rep_movsl, rep_movsb, rep_movsb_down, memcpy, memmove,
}
use ece391_mp.Mem.Moved.{
  moved, Upward, moved-inside, moved-outside, where_is, Moved, Moved-none, Moved-then, Moved-byte,
  Moved-movsl, Upward-later, Upward-at,
}

-- The three loops that copy upward.
rep_movsb-Moved :
    (mem : Memory) (dest src n : ℕ)
    → Upward dest src n
    → dest + n < 2 ^ 32
    → src + n < 2 ^ 32
    → Moved mem dest src n
        (record { mem = rep_movsb mem dest src n; dest = dest + n; src = src + n; count = 0 })
unfolding rep_movsb
rep_movsb-Moved mem dest src zero up h h' = record {
  dest_after = refl;
  src_after = refl;
  mem_after = (Moved-none mem dest src 0).mem_after;
}
rep_movsb-Moved mem dest src (suc n) up h h' =
    let rest =
      rep_movsb-Moved (update mem dest (mem src)) (later dest 1) (later src 1) n
        (Upward-later dest src 1 n (suc n) (omega arith) h h' up) (omega arith) (omega arith) in
    Moved-then mem dest src 1 n (suc n) _ _ up (omega arith)
      (Moved-byte mem dest src 0 (omega arith) (omega arith))
      (record { dest_after = omega arith; src_after = omega arith; mem_after = rest.mem_after })

rep_movsl-Moved :
    (mem : Memory) (dest src n : ℕ)
    → Upward dest src (4 * n)
    → dest + 4 * n < 2 ^ 32
    → src + 4 * n < 2 ^ 32
    → Moved mem dest src (4 * n) (rep_movsl mem dest src n)
unfolding rep_movsl
rep_movsl-Moved mem dest src zero up h h' = Moved-none mem dest src 0
rep_movsl-Moved mem dest src (suc n) up h h' =
    Moved-then mem dest src 4 (4 * n) (4 * suc n) _ _ up (omega arith)
      (Moved-movsl mem dest src 0 (omega arith) (omega arith))
      (rep_movsl-Moved (movsl mem dest src) (later dest 4) (later src 4) n
        (Upward-later dest src 4 (4 * n) (4 * suc n) (omega arith) h h' up) (omega arith)
        (omega arith))

-- The loop to the first aligned destination stops after `m` bytes.
memcpy_top-Moved :
    (mem : Memory) (dest src n : ℕ)
    → Upward dest src n
    → dest + n < 2 ^ 32
    → src + n < 2 ^ 32
    → (m : ℕ) × (m + (memcpy_top mem dest src n).count ≡ n)
      × Moved mem dest src m (memcpy_top mem dest src n)
unfolding memcpy_top
memcpy_top-Moved mem dest src zero up h h' = (0, refl, Moved-none mem dest src 0)
memcpy_top-Moved mem dest src (suc n) up h h' = elim (Bool-cases (dest % 4 == 0)) [
  | inl aligned ↦ rw aligned (0, omega arith, Moved-none mem dest src (suc n))
  | inr odd ↦
      let (m, e, rest) =
        memcpy_top-Moved (update mem dest (mem src)) (later dest 1) (later src 1) n
          (Upward-later dest src 1 n (suc n) (omega arith) h h' up) (omega arith) (omega arith) in
      rw odd (
        suc m,
        omega arith,
        Moved-then mem dest src 1 m (suc m) _ _
            (Upward-at dest src (suc n) 0 (suc m) dest src (omega arith) (omega arith) (omega arith)
              up)
            (omega arith) (Moved-byte mem dest src 0 (omega arith) (omega arith)) rest,
      )
]

-- `memcpy`, whose three loops copy bytes up to an aligned destination, then four bytes at once, then
-- the bytes that are left, does what its name says: the `n` bytes at `dest` are those that were at
-- `src`, and no other byte changes. This is for ranges that do not reach the end of the address
-- space, and that do not overlap unless `dest` is the lower one.
pub memcpy-moved :
    (mem : Memory) (dest src n : ℕ)
    → Upward dest src n
    → dest + n < 2 ^ 32
    → src + n < 2 ^ 32
    → (a : ℕ) → memcpy mem dest src n a ≡ moved mem dest src n a
unfolding memcpy
memcpy-moved mem dest src n up h h' a =
    let (m, e, head) = memcpy_top-Moved mem dest src n up h h' in
    let r = memcpy_top mem dest src n in
    let k = r.count in
    let d = head.dest_after in
    let s = head.src_after in
    let words =
      rep_movsl-Moved (r.mem) (r.dest) (r.src) (k / 4)
        (Upward-at dest src n m (4 * (k / 4)) (r.dest) (r.src) d s (omega arith) up) (omega arith)
        (omega arith) in
    let r' = rep_movsl (r.mem) (r.dest) (r.src) (k / 4) in
    let d' = words.dest_after in
    let s' = words.src_after in
    let tail =
      rep_movsb-Moved (r'.mem) (r'.dest) (r'.src) (k % 4)
        (Upward-at dest src n (m + 4 * (k / 4)) (k % 4) (r'.dest) (r'.src) (omega arith)
          (omega arith) (omega arith) up)
        (omega arith) (omega arith) in
    let both =
      Moved-then mem dest src m (4 * (k / 4)) (m + 4 * (k / 4)) r r'
        (Upward-at dest src n 0 (m + 4 * (k / 4)) dest src (omega arith) (omega arith) (omega arith)
          up)
        refl head words in
    (Moved-then mem dest src (m + 4 * (k / 4)) (k % 4) n r' _ up (omega arith) both tail).mem_after
      a

-- Copying downward from the last byte.
rep_movsb_down-moved :
    (mem : Memory) (dest src n d s : ℕ)
    → src ≤ dest
    → dest + n < 2 ^ 32
    → d ≡ (dest + n + (2 ^ 32 - 1)) % 2 ^ 32
    → s ≡ (src + n + (2 ^ 32 - 1)) % 2 ^ 32
    → (a : ℕ) → rep_movsb_down mem d s n a ≡ moved mem dest src n a
unfolding rep_movsb_down
rep_movsb_down-moved mem dest src zero d s up h e e' a = (Moved-none mem dest src 0).mem_after a
rep_movsb_down-moved mem dest src (suc n) d s up h e e' a =
    let mem1 = update mem d (mem s) in
    let at : d ≡ dest + n = omega arith in
    let from : s ≡ src + n = omega arith in
    rep_movsb_down-moved mem1 dest src n (later d (2 ^ 32 - 1)) (later s (2 ^ 32 - 1)) up
      (omega arith) (omega arith) (omega arith) a
    ∙ elim (where_is dest n a) [
      | inl (lo, hi) ↦
          let t = a - dest + src in
          let other : (d == t) ≡ false = ground arith in
          moved-inside mem1 dest src n a t lo hi (omega arith)
          ∙ rw other (
              sym (moved-inside mem dest src (suc n) a t (omega arith) (omega arith) (omega arith)))
      | inr out ↦ moved-outside mem1 dest src n a out ∙ elim (where_is dest (suc n) a) [
        | inl (lo, hi) ↦
            let here : (d == a) ≡ true = (elim out as (λ x. (d == a) ≡ true) [
              | inl h ↦ absurd (omega arith)
              | inr h ↦ ground arith
            ]) in
            rw here (sym (moved-inside mem dest src (suc n) a s lo hi (omega arith)))
        | inr out' ↦
            let other : (d == a) ≡ false = (elim out' as (λ x. (d == a) ≡ false) [
              | inl h ↦ ground arith
              | inr h ↦ ground arith
            ]) in
            rw other (sym (moved-outside mem dest src (suc n) a out'))
      ]
    ]

-- `memmove` does the same as `memcpy` for ranges that overlap in any way: the `n` bytes at `dest` are
-- those that were at `src` before the call, and no other byte changes, for ranges that do not reach
-- the end of the address space.
pub memmove-moved :
    (mem : Memory) (dest src n : ℕ)
    → dest + n < 2 ^ 32
    → src + n < 2 ^ 32
    → (a : ℕ) → memmove mem dest src n a ≡ moved mem dest src n a
unfolding memmove
memmove-moved mem dest src n h h' a = elim (Bool-cases (leb dest src)) [
  | inl upward ↦
      rw upward ((rep_movsb-Moved mem dest src n (inl (leb→le dest src upward)) h h').mem_after a)
  | inr downward ↦
      let lower : src ≤ dest = ground arith in
      rw downward (rep_movsb_down-moved mem dest src n _ _ lower h (omega arith) (omega arith) a)
]
