-- ===== src/Fs/Image.antt =====
-- fs.h: the layout of the image, and `open_fs`, `read_dentry_by_name` and `read_dentry_by_index`.
use ece391_mp.Base.{
  ℕ, zero, suc, ◌+◌, ◌/◌, ◌%◌, Bool, false, not, ◌&&◌, ◌||◌, List, ◌++◌, ◌∷◌, [], Option, none,
  some, Result, ok, ◌>>=◌, ◌>>◌, in_bounds, ltb, leb, if◌then◌else◌, eqb_ℤ, pos,
}
use ece391_mp.Str.{strlen, strncmp}

abbrev pub fs_max_dir_entries : ℕ
fs_max_dir_entries = 63

abbrev pub fs_fname_len : ℕ
fs_fname_len = 32

abbrev pub fs_inode_data_len : ℕ
fs_inode_data_len = 1023

abbrev pub fs_blk_size : ℕ
fs_blk_size = 4096

-- `DirEntry`. `filename` has 32 bytes, which a name of 32 characters fills with no NUL.
pub record DirEntry : Type 0 where
  pub filename : List ℕ
  pub filetype : ℕ
  pub inode_idx : ℕ
  pub reserved : List ℕ

-- `INode`
pub record INode : Type 0 where
  pub size : ℕ
  pub blocks : ℕ → ℕ

-- The boot block with its statistics, then the inodes, then the data blocks.
pub record FsImage : Type 0 where
  pub direntry_cnt : ℕ
  pub inode_cnt : ℕ
  pub datablk_cnt : ℕ
  pub direntries : ℕ → DirEntry
  pub inodes : ℕ → INode
  pub datablks : ℕ → ℕ → ℕ

-- A `u32` in memory, lowest byte first.
abbrev pub le_bytes : ℕ → List ℕ
le_bytes w = w % 256 ∷ w / 256 % 256 ∷ w / 65536 % 256 ∷ w / 16777216 % 256 ∷ []

-- The bytes of the structure from `filename` on.
abbrev pub dentry_bytes : DirEntry → List ℕ
dentry_bytes d = d.filename ++ (le_bytes d.filetype ++ (le_bytes d.inode_idx ++ d.reserved))

-- `inodes[inode].data[idx]`
unfoldable pub inode_data : INode → ℕ → Result ℕ
inode_data ino idx = in_bounds (ltb idx fs_inode_data_len) >> ok (ino.blocks idx)

-- `datablks[blk].data[off]`
unfoldable pub datablk_byte : FsImage → ℕ → ℕ → Result ℕ
datablk_byte fs blk off =
    in_bounds (ltb blk fs.datablk_cnt && ltb off fs_blk_size) >> ok (fs.datablks blk off)

-- Whether the entry passes the test of `read_dentry_by_name`.
unfoldable pub name_matches : List ℕ → DirEntry → Result Bool
unfolding strlen strncmp
name_matches fname d = do
  l ← strlen fname
  if leb l fs_fname_len
      then (strncmp fname (dentry_bytes d) fs_fname_len >>= λ c. ok (eqb_ℤ c (pos 0)))
      else ok false

-- The loop of `read_dentry_by_name`, with the rounds that are left.
unfoldable pub find_dentry : FsImage → List ℕ → ℕ → ℕ → Result (Option DirEntry)
unfolding name_matches
find_dentry fs fname zero i = ok none
find_dentry fs fname (suc rounds) i = do
  hit ← name_matches fname (fs.direntries i)
  let rest = find_dentry fs fname rounds (i + 1)
  if hit then ok (some (fs.direntries i)) else rest

-- `read_dentry_by_name`; `dentry` is false for a null pointer. `none` is the return value -1, and
-- `some d` is 0 with `d` copied to `*dentry`.
unfoldable pub read_dentry_by_name : FsImage → List ℕ → Bool → Result (Option DirEntry)
unfolding find_dentry
read_dentry_by_name fs fname dentry =
    if dentry then find_dentry fs fname fs_max_dir_entries 0 else ok none

-- `read_dentry_by_index`; the read of `direntries[idx]` stays inside the array or is a fault.
unfoldable pub read_dentry_by_index : FsImage → ℕ → Bool → Result (Option DirEntry)
read_dentry_by_index fs idx dentry =
    if leb fs.inode_cnt idx || not dentry
    then ok none
    else (in_bounds (ltb idx fs_max_dir_entries) >> ok (some (fs.direntries idx)))
