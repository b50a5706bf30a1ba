-- ===== src/Mem/Moved.antt =====
-- Memory with a range of bytes moved, and the registers of a copy that has got that far.
use ece391_mp.Base.{
  ℕ, zero, suc, ◌+◌, ◌-◌, ◌^◌, ◌≤◌, ◌<◌, ◌≡◌, sym, ap, ap₂, ◌∙◌, ◌⊎◌, inl, inr, ◌&&◌, ltb, leb,
  if◌then◌else◌, update, arith, Bool-cases, le→leb, lt→ltb, ltb→lt,
}
use ece391_mp.Mem.{Memory, Regs, later, movsl}

-- Memory with the `n` bytes from `src` on, as they were, at `dest`.
unfoldable pub moved : Memory → ℕ → ℕ → ℕ → Memory
moved mem dest src n a = if leb dest a && ltb a (dest + n) then mem (a - dest + src) else mem a

-- Upward copying meets no byte that it has overwritten.
abbrev pub Upward : ℕ → ℕ → ℕ → Type 0
Upward dest src n = (dest ≤ src) ⊎ (src + n ≤ dest)

pub moved-inside :
    (mem : Memory) (dest src n a s : ℕ)
    → dest ≤ a
    → a < dest + n
    → s + dest ≡ a + src
    → moved mem dest src n a ≡ mem s
unfolding moved
moved-inside mem dest src n a s lo hi e =
    let here : a - dest + src ≡ s = omega arith in
    rw (le→leb dest a lo, lt→ltb a (dest + n) hi) (ap mem here)

pub moved-outside :
    (mem : Memory) (dest src n a : ℕ) → (a < dest) ⊎ (dest + n ≤ a) → moved mem dest src n a ≡ mem a
unfolding moved
moved-outside mem dest src n a out = ground arith

-- Where an address is: in a range of `n` bytes from `dest`, or not.
pub where_is : (dest n a : ℕ) → ((dest ≤ a) × (a < dest + n)) ⊎ ((a < dest) ⊎ (dest + n ≤ a))
where_is dest n a = elim (Bool-cases (ltb a dest)) [
  | inl h ↦ inr (inl (ltb→lt a dest h))
  | inr h ↦ elim (Bool-cases (ltb a (dest + n))) [
    | inl h' ↦ inl (ground arith, ltb→lt a (dest + n) h')
    | inr h' ↦ inr (inr (ground arith))
  ]
]

-- Two pieces, one behind the other.
pub moved-moved :
    (mem mem1 mem2 : Memory) (dest src m n : ℕ)
    → Upward dest src (m + n)
    → ((b : ℕ) → mem1 b ≡ moved mem dest src m b)
    → ((b : ℕ) → mem2 b ≡ moved mem1 (dest + m) (src + m) n b)
    → (a : ℕ) → mem2 a ≡ moved mem dest src (m + n) a
moved-moved mem mem1 mem2 dest src m n up first second a =
    second a ∙ elim (where_is (dest + m) n a) [
      | inl (lo, hi) ↦
          let s = a - dest + src in
          moved-inside mem1 (dest + m) (src + m) n a s lo hi (omega arith)
          ∙ first s
          ∙ moved-outside mem dest src m s
              (elim up [ inl h ↦ inr (omega arith) | inr h ↦ inl (omega arith) ])
          ∙ sym (moved-inside mem dest src (m + n) a s (omega arith) (omega arith) (omega arith))
      | inr out ↦
          moved-outside mem1 (dest + m) (src + m) n a out ∙ first a ∙ elim (where_is dest m a) [
            | inl (lo, hi) ↦
                let s = a - dest + src in
                moved-inside mem dest src m a s lo hi (omega arith)
                ∙ sym (
                    moved-inside mem dest src (m + n) a s (omega arith) (omega arith) (omega arith))
            | inr out' ↦
                moved-outside mem dest src m a out'
                ∙ sym (
                    moved-outside mem dest src (m + n) a (elim out [
                      | inl h ↦ elim out' [ inl h' ↦ inl h' | inr h' ↦ absurd (omega arith) ]
                      | inr h ↦ inr (omega arith)
                    ]))
          ]
    ]

pub moved-byte :
    (mem : Memory) (dest src a : ℕ) → update mem dest (mem src) a ≡ moved mem dest src 1 a
moved-byte mem dest src a = elim (where_is dest 1 a) [
  | inl (lo, hi) ↦
      let here : dest ≡ a = omega arith in
      (ground arith) ∙ sym (moved-inside mem dest src 1 a src lo hi (omega arith))
  | inr out ↦
      (elim out as (λ x. update mem dest (mem src) a ≡ mem a) [
        | inl h ↦ ground arith
        | inr h ↦ ground arith
      ])
      ∙ sym (moved-outside mem dest src 1 a out)
]

pub later_lem : (a n : ℕ) → a + n < 2 ^ 32 → later a n ≡ a + n
later_lem a n h = omega arith

-- The registers after `n` bytes have been moved upward.
pub record Moved (mem : Memory) (dest src n : ℕ) (r : Regs) : Type 0 where
  pub dest_after : r.dest ≡ dest + n
  pub src_after : r.src ≡ src + n
  pub mem_after : (a : ℕ) → r.mem a ≡ moved mem dest src n a

pub Moved-none :
    (mem : Memory) (dest src count : ℕ)
    → Moved mem dest src 0 (record { mem = mem; dest = dest; src = src; count = count })
Moved-none mem dest src count = record {
  dest_after = omega arith;
  src_after = omega arith;
  mem_after = λ a. sym (
      moved-outside mem dest src 0 a (elim (Bool-cases (ltb a dest)) [
        | inl h ↦ inl (ltb→lt a dest h)
        | inr h ↦ inr (ground arith)
      ]));
}

-- A piece of `m` bytes and one of `k` bytes behind it.
pub Moved-then :
    (mem : Memory) (dest src m k n : ℕ) (r r' : Regs)
    → Upward dest src n
    → m + k ≡ n
    → Moved mem dest src m r
    → Moved (r.mem) (r.dest) (r.src) k r'
    → Moved mem dest src n r'
Moved-then mem dest src m k n r r' up e first second = record {
  dest_after = second.dest_after ∙ omega (arith, first.dest_after);
  src_after = second.src_after ∙ omega (arith, first.src_after);
  mem_after = λ a.
      let up' : Upward dest src (m + k) = rw e up in
      let behind : (b : ℕ) → r'.mem b ≡ moved (r.mem) (dest + m) (src + m) k b = λ b.
        second.mem_after b
        ∙ ap₂ (λ d s. moved (r.mem) d s k b) (first.dest_after) (first.src_after) in
      moved-moved mem (r.mem) (r'.mem) dest src m k up' (first.mem_after) behind a
      ∙ ap (λ j. moved mem dest src j a) e;
}

pub Moved-byte :
    (mem : Memory) (dest src count : ℕ)
    → dest + 1 < 2 ^ 32
    → src + 1 < 2 ^ 32
    → Moved mem dest src 1 (record {
      mem = update mem dest (mem src);
      dest = later dest 1;
      src = later src 1;
      count = count;
    })
Moved-byte mem dest src count h h' = record {
  dest_after = later_lem dest 1 h;
  src_after = later_lem src 1 h';
  mem_after = moved-byte mem dest src;
}

-- Four bytes that are read before they are written.
pub four_bytes : (mem : Memory) (dest b0 b1 b2 b3 : ℕ) → Memory
four_bytes mem dest b0 b1 b2 b3 =
    update (update (update (update mem dest b0) (dest + 1) b1) (dest + 2) b2) (dest + 3) b3

pub four_bytes-inside :
    (mem : Memory) (dest src k : ℕ)
    → k < 4
    → four_bytes mem dest (mem src) (mem (src + 1)) (mem (src + 2)) (mem (src + 3)) (dest + k)
      ≡ mem (src + k)
unfolding four_bytes
four_bytes-inside mem dest src zero lt =
    let e : src ≡ src + 0 = omega arith in ground (arith, ap mem e)
four_bytes-inside mem dest src (suc zero) lt = ground arith
four_bytes-inside mem dest src (suc (suc zero)) lt = ground arith
four_bytes-inside mem dest src (suc (suc (suc zero))) lt = ground arith
four_bytes-inside mem dest src (suc (suc (suc (suc k)))) lt = absurd (omega arith)

pub four_bytes-outside :
    (mem : Memory) (dest b0 b1 b2 b3 a : ℕ)
    → (a < dest) ⊎ (dest + 4 ≤ a)
    → four_bytes mem dest b0 b1 b2 b3 a ≡ mem a
unfolding four_bytes
four_bytes-outside mem dest b0 b1 b2 b3 a (inl h) = ground arith
four_bytes-outside mem dest b0 b1 b2 b3 a (inr h) = ground arith

pub moved-four :
    (mem : Memory) (dest src a : ℕ)
    → four_bytes mem dest (mem src) (mem (src + 1)) (mem (src + 2)) (mem (src + 3)) a
      ≡ moved mem dest src 4 a
moved-four mem dest src a = elim (where_is dest 4 a) [
  | inl (lo, hi) ↦
      let k = a - dest in
      let here : a ≡ dest + k = omega arith in
      ap (four_bytes mem dest (mem src) (mem (src + 1)) (mem (src + 2)) (mem (src + 3))) here
      ∙ four_bytes-inside mem dest src k (omega arith)
      ∙ sym (moved-inside mem dest src 4 a (src + k) lo hi (omega arith))
  | inr out ↦ four_bytes-outside mem dest _ _ _ _ a out ∙ sym (moved-outside mem dest src 4 a out)
]

pub Moved-movsl :
    (mem : Memory) (dest src count : ℕ)
    → dest + 4 < 2 ^ 32
    → src + 4 < 2 ^ 32
    → Moved mem dest src 4
        (record { mem = movsl mem dest src; dest = later dest 4; src = later src 4; count = count })
unfolding movsl four_bytes
Moved-movsl mem dest src count h h' = record {
  dest_after = later_lem dest 4 h;
  src_after = later_lem src 4 h';
  mem_after = λ a.
      rw
        (
          later_lem dest 1 (omega arith),
          later_lem dest 2 (omega arith),
          later_lem dest 3 (omega arith),
          later_lem src 1 (omega arith),
          later_lem src 2 (omega arith),
          later_lem src 3 (omega arith),
        )
        (moved-four mem dest src a);
}

pub Upward-later :
    (dest src m k n : ℕ)
    → m + k ≡ n
    → dest + n < 2 ^ 32
    → src + n < 2 ^ 32
    → Upward dest src n
    → Upward (later dest m) (later src m) k
Upward-later dest src m k n e h h' (inl up) = inl (omega arith)
Upward-later dest src m k n e h h' (inr up) = inr (omega arith)

-- The same for a piece of the range that starts `m` bytes behind its start.
pub Upward-at :
    (dest src n m k d s : ℕ)
    → d ≡ dest + m
    → s ≡ src + m
    → m + k ≤ n
    → Upward dest src n
    → Upward d s k
Upward-at dest src n m k d s e e' le (inl up) = inl (omega arith)
Upward-at dest src n m k d s e e' le (inr up) = inr (omega arith)
