-- ===== src/Fs/Contents.antt =====
-- What `read_data` returns, against the file's contents as one sequence of bytes.
use ece391_mp.Base.{
  ℕ, zero, suc, ◌+◌, ◌-◌, ◌*◌, ◌/◌, ◌%◌, ◌^◌, ◌≤◌, ◌<◌, min, ◌≡◌, refl, sym, ap, ap₂, ◌∙◌, inl, inr,
  true, List, [], Result, ok, ltb, pos, slice, arith, Bool-cases, lt→ltb, le→leb, leb_of_lt,
}
use ece391_mp.Fs.Image.{FsImage, INode, inode_data, datablk_byte, fs_blk_size, fs_inode_data_len}
use ece391_mp.Fs.Read.{Filled, put_byte, read_loop, read_data}

-- The byte at position `p` of a file.
abbrev pub file_byte : FsImage → INode → ℕ → ℕ
file_byte fs ino p = fs.datablks (ino.blocks (p / fs_blk_size)) (p % fs_blk_size)

-- Every block index that covers a position up to `stop`, itself included, names a data block.
abbrev pub BlocksUpTo : FsImage → INode → ℕ → Type 0
BlocksUpTo fs ino stop =
    (b : ℕ) → b * fs_blk_size ≤ stop → (b < fs_inode_data_len) × (ino.blocks b < fs.datablk_cnt)

inode_data-ok :
    (ino : INode) (idx : ℕ) → idx < fs_inode_data_len → inode_data ino idx ≡ ok (ino.blocks idx)
unfolding inode_data
inode_data-ok ino idx h = rw (lt→ltb _ _ h)

datablk_byte-ok :
    (fs : FsImage) (blk off : ℕ)
    → blk < fs.datablk_cnt
    → off < fs_blk_size
    → datablk_byte fs blk off ≡ ok (fs.datablks blk off)
unfolding datablk_byte
datablk_byte-ok fs blk off h k = rw (lt→ltb _ _ h, lt→ltb _ _ k)

same_count :
    {bs : List ℕ} {a b : ℕ} → a ≡ b → ◌≡◌ {A = Result Filled} (ok (bs, pos a)) (ok (bs, pos b))
same_count {bs} e = ap (λ k. ok (bs, pos k)) e

module _ (fs : FsImage) (ino : INode) (offset : ℕ) where
  -- One round of the loop that finds the end of the file.
  read_loop-end :
      (rounds reads idx off : ℕ)
      → idx < fs_inode_data_len
      → ino.size ≤ (reads + offset) % 2 ^ 32
      → read_loop fs ino offset (suc rounds) reads idx off ≡ ok ([], pos reads)
  unfolding read_loop
  read_loop-end rounds reads idx off h e = rw (inode_data-ok ino idx h, le→leb _ _ e)

  -- One round that stays in its block.
  read_loop-same :
      (rounds reads idx off : ℕ)
      → idx < fs_inode_data_len
      → ino.blocks idx < fs.datablk_cnt
      → off + 1 < fs_blk_size
      → (reads + offset) % 2 ^ 32 < ino.size
      → read_loop fs ino offset (suc rounds) reads idx off
        ≡ put_byte
            (fs.datablks (ino.blocks idx) off)
            (read_loop fs ino offset rounds (reads + 1) idx (off + 1))
  unfolding read_loop
  read_loop-same rounds reads idx off h d o e = rw (
    inode_data-ok ino idx h,
    leb_of_lt _ _ e,
    datablk_byte-ok fs (ino.blocks idx) off d (omega arith),
    leb_of_lt _ _ o,
  )

  -- One round that goes on to the next block.
  read_loop-next :
      (rounds reads idx off : ℕ)
      → idx + 1 < fs_inode_data_len
      → ino.blocks idx < fs.datablk_cnt
      → ino.blocks (idx + 1) < fs.datablk_cnt
      → off + 1 ≡ fs_blk_size
      → (reads + offset) % 2 ^ 32 < ino.size
      → read_loop fs ino offset (suc rounds) reads idx off
        ≡ put_byte
            (fs.datablks (ino.blocks idx) off)
            (read_loop fs ino offset rounds (reads + 1) (idx + 1) 0)
  unfolding read_loop
  read_loop-next rounds reads idx off h d d' o e = rw (
    inode_data-ok ino idx (omega arith),
    leb_of_lt _ _ e,
    datablk_byte-ok fs (ino.blocks idx) off d (omega arith),
    le→leb fs_blk_size (off + 1) (omega arith),
    inode_data-ok ino (idx + 1) h,
    leb_of_lt _ _ d',
  )

  -- A round that reads the byte at `p`, given what the later rounds do.
  read_loop-step :
      (rounds reads idx off p n : ℕ)
      → idx * fs_blk_size + off ≡ p
      → off < fs_blk_size
      → p ≡ offset + reads
      → p < ino.size
      → p < 2 ^ 32
      → BlocksUpTo fs ino (p + suc n)
      → ((idx' off' : ℕ)
          → idx' * fs_blk_size + off' ≡ p + 1
          → off' < fs_blk_size
          → read_loop fs ino offset rounds (reads + 1) idx' off'
            ≡ ok (slice (file_byte fs ino) (p + 1) n, pos (reads + 1 + n)))
      → read_loop fs ino offset (suc rounds) reads idx off
        ≡ ok (slice (file_byte fs ino) p (suc n), pos (reads + suc n))
  read_loop-step rounds reads idx off p n at o at' inside small valid later =
      elim (Bool-cases (ltb (off + 1) fs_blk_size)) [
        | inl same ↦
            let o' : off + 1 < fs_blk_size = ground arith in
            read_loop-same rounds reads idx off here.0 here.1 o' unread
            ∙ rw (later idx (off + 1) (omega arith) o', byte) (same_count count)
        | inr next ↦
            let o' : off + 1 ≡ fs_blk_size = ground arith in
            let there = valid (idx + 1) (omega arith) in
            read_loop-next rounds reads idx off there.0 here.1 there.1 o' unread
            ∙ rw (later (idx + 1) 0 (omega arith) (omega arith), byte) (same_count count)
      ]
    where
      here : (idx < fs_inode_data_len) × (ino.blocks idx < fs.datablk_cnt)
      here = valid idx (omega arith)

      unread : (reads + offset) % 2 ^ 32 < ino.size
      unread = omega arith

      byte : fs.datablks (ino.blocks idx) off ≡ file_byte fs ino p
      byte =
          let e : p / fs_blk_size ≡ idx = omega arith in
          let e' : p % fs_blk_size ≡ off = omega arith in
          ap₂ (λ b o. fs.datablks (ino.blocks b) o) (sym e) (sym e')

      count : reads + 1 + n ≡ reads + suc n
      count = omega arith

  -- The loop reads to the end of the file or to the end of the request, whichever comes first.
  read_loop_lem :
      (rounds reads idx off p n : ℕ)
      → idx * fs_blk_size + off ≡ p
      → off < fs_blk_size
      → p ≡ offset + reads
      → n ≡ min rounds (ino.size - p)
      → p + rounds < 2 ^ 32
      → BlocksUpTo fs ino (p + n)
      → read_loop fs ino offset rounds reads idx off
        ≡ ok (slice (file_byte fs ino) p n, pos (reads + n))
  read_loop_lem zero reads idx off p n at o at' e small valid =
      let z : n ≡ 0 = omega arith in unfold read_loop in rw z (same_count (omega arith))
  read_loop_lem (suc rounds) reads idx off p n at o at' e small valid =
      elim (Bool-cases (ltb p ino.size)) [
        | inr done ↦
            let end : ino.size ≤ p = ground arith in
            let z : n ≡ 0 = omega arith in
            rw z (
              read_loop-end rounds reads idx off (valid idx (omega arith)).0 (omega arith)
              ∙ same_count (omega arith))
        | inl more ↦
            let inside : p < ino.size = ground arith in
            let s : n ≡ suc (n - 1) = omega arith in
            rw s (
              read_loop-step rounds reads idx off p (n - 1) at o at' inside (omega arith)
                (λ b h. valid b (omega arith))
                (λ idx' off' h k.
                  read_loop_lem rounds (reads + 1) idx' off' (p + 1) (n - 1) h k (omega arith)
                    (omega arith) (omega arith) (λ b h'. valid b (omega arith))))
      ]

-- `read_data` inside the file: for a non-null buffer, an inode and an offset inside their ranges, a
-- request that stays below the limit of `direntry_cnt` blocks with no wrap, and valid blocks up to
-- where the reading stops, the call returns the number of bytes to the end of the request or of the
-- file, whichever is smaller, and the buffer gets exactly the file's bytes from `offset` on.
pub read_data_lem :
    (fs : FsImage) (inode offset length : ℕ)
    → inode < fs.inode_cnt
    → offset < (fs.inodes inode).size
    → offset + length < fs.direntry_cnt * fs_blk_size
    → fs.direntry_cnt * fs_blk_size < 2 ^ 31
    → BlocksUpTo fs (fs.inodes inode) (offset + min length ((fs.inodes inode).size - offset))
    → let n = min length ((fs.inodes inode).size - offset) in
      read_data fs inode offset true length
      ≡ ok (slice (file_byte fs (fs.inodes inode)) offset n, pos n)
unfolding read_data
read_data_lem fs inode offset length in_range inside limit small valid =
    rw
      (
        leb_of_lt _ _ in_range,
        leb_of_lt _ _ inside,
        leb_of_lt (fs.direntry_cnt * fs_blk_size % 2 ^ 32) ((offset + length) % 2 ^ 32)
            (omega arith),
        inode_data-ok (fs.inodes inode) (offset / fs_blk_size) first.0,
        leb_of_lt _ _ first.1,
        lt→ltb length (2 ^ 31) (omega arith),
      )
      (read_loop_lem fs (fs.inodes inode) offset length 0 (offset / fs_blk_size)
          (offset % fs_blk_size) offset (min length ((fs.inodes inode).size - offset)) (omega arith)
          (omega arith) (omega arith) refl (omega arith) valid
        ∙ same_count (omega arith))
  where
    first :
        (offset / fs_blk_size < fs_inode_data_len)
        × ((fs.inodes inode).blocks (offset / fs_blk_size) < fs.datablk_cnt)
    first = valid (offset / fs_blk_size) (omega arith)
