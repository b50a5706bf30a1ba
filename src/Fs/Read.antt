-- ===== src/Fs/Read.antt =====
-- `read_data` and the functions of fs.c that call it. A function that fills a buffer returns the
-- bytes that it writes there, in order, with its return value.
use ece391_mp.Base.{
  ℕ, zero, suc, ◌+◌, ◌*◌, ◌/◌, ◌%◌, ◌^◌, Bool, true, not, List, [], ◌∷◌, Option, none, some, Result,
  ok, ◌>>=◌, leb, ◌==◌, if◌then◌else◌, ℤ, pos, pos_part, minus_one, to_i32,
}
use ece391_mp.Fs.Image.{FsImage, INode, inode_data, datablk_byte, fs_blk_size, read_dentry_by_name}

-- The bytes that a call writes to its buffer, and its return value.
abbrev pub Filled : Type 0
Filled = List ℕ × ℤ

-- `buf[reads++] = byte`, before the rest of the loop.
abbrev pub put_byte : ℕ → Result Filled → Result Filled
put_byte b r = r >>= λ f. ok (b ∷ f.0, f.1)

module _ (fs : FsImage) (ino : INode) (offset : ℕ) where
  -- The loop of `read_data`, with `length - reads` rounds left.
  unfoldable pub read_loop : ℕ → ℕ → ℕ → ℕ → Result Filled
  unfolding inode_data datablk_byte
  read_loop zero reads datablk_idx datablk_offset = ok ([], pos reads)
  read_loop (suc rounds) reads datablk_idx datablk_offset = do
    datablk ← inode_data ino datablk_idx
    let same_block = read_loop rounds (reads + 1) datablk_idx (datablk_offset + 1)
    let next_block = read_loop rounds (reads + 1) (datablk_idx + 1) 0
    let crossing = λ (byte : ℕ). inode_data ino (datablk_idx + 1) >>= λ next.
        if leb fs.datablk_cnt next then ok (byte ∷ [], minus_one) else put_byte byte next_block
    if leb ino.size ((reads + offset) % 2 ^ 32)
        then ok ([], pos reads)
        else (datablk_byte fs datablk datablk_offset >>= λ byte.
            if leb fs_blk_size (datablk_offset + 1)
            then crossing byte
            else put_byte byte same_block)

-- `read_data`; `buf` is false for a null pointer.
unfoldable pub read_data : FsImage → ℕ → ℕ → Bool → ℕ → Result Filled
unfolding read_loop
read_data fs inode offset buf ulength =
    if not buf
    then ok ([], minus_one)
    else if leb fs.inode_cnt inode
    then ok ([], minus_one)
    else if leb (fs.inodes inode).size offset
    then ok ([], pos 0)
    else if leb (fs.direntry_cnt * fs_blk_size % 2 ^ 32) ((offset + ulength) % 2 ^ 32)
    then ok ([], minus_one)
    else (inode_data (fs.inodes inode) (offset / fs_blk_size) >>= λ first.
        if leb fs.datablk_cnt first
        then ok ([], minus_one)
        else read_loop fs (fs.inodes inode) offset (pos_part (to_i32 ulength)) 0
            (offset / fs_blk_size) (offset % fs_blk_size))

-- `file_read_name`; `fname` is `none` for a null pointer.
unfoldable pub file_read_name : FsImage → Option (List ℕ) → Bool → ℕ → ℕ → Result Filled
unfolding read_dentry_by_name
file_read_name fs none buf offset size = ok ([], minus_one)
file_read_name fs (some fname) buf offset size = do
  entry ← read_dentry_by_name fs fname true
  elim entry [
    | none ↦ ok ([], minus_one)
    | some d ↦
        read_data fs d.inode_idx offset buf
          (if size == 0 then (fs.inodes d.inode_idx).size else size)
  ]
