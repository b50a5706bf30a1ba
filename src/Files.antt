-- ===== src/Files.antt =====
-- student-distrib/fs.c: the operations of open files and of the directory, and `open_fs`. A file
-- descriptor outside the array is a fault: the system calls test it before they come here.
pub mod Sequential
use Prim.Native.Nat.{bit_and, bit_or}
use ece391_mp.Base.{
  ℕ, ◌+◌, ◌-◌, ◌/◌, ◌%◌, ◌^◌, Bool, true, false, not, List, [], Option, none, some, Result, ok,
  ◌>>=◌, ◌>>◌, fault, in_bounds, ltb, leb, ltb_ℤ, eqb_ℤ, ◌==◌, if◌then◌else◌, update, ℤ, pos,
  negsuc, pos_part, to_u32, minus_one, take, sub_ℕ,
}
use ece391_mp.Str.{strlen}
use ece391_mp.Fs.{
  FsImage, DirEntry, dentry_bytes, fs_max_dir_entries, fs_fname_len, read_dentry_by_index,
  read_data, Filled,
}
use ece391_mp.Kernel.{Kernel, FileDesc, Paging, get_current_pcb, set_fd, fd_cnt}

-- The index of a descriptor in `fds`.
unfoldable pub fd_index : ℤ → Result ℕ
fd_index (pos n) = if ltb n fd_cnt then ok n else fault
fd_index (negsuc n) = fault

-- `flags & FD_IN_USE`
abbrev pub in_use : FileDesc → Bool
in_use d = d.flags % 2 == 1

-- `file_read`; `buf` is false for a null pointer.
unfoldable pub file_read : Kernel → ℤ → Bool → ℤ → Result (Kernel × Filled)
unfolding fd_index
file_read k fd buf nbytes = do
  i ← fd_index fd
  let d = (get_current_pcb k).fds i
  let n = if eqb_ℤ nbytes (pos 0) then (k.fs.inodes d.inode).size else to_u32 nbytes
  let whole = read_data k.fs d.inode d.file_position buf n >>= λ r. ok (
    if ltb_ℤ r.1 (pos 0)
        then k
        else set_fd k i (record d { file_position = (d.file_position + pos_part r.1) % 2 ^ 32 }),
    r,
  )
  if in_use d then whole else ok (k, ([], minus_one))

-- `file_open`, `file_close` and `file_write`
unfoldable pub file_open : Kernel → Kernel × ℤ
file_open k = (k, pos 0)

unfoldable pub file_close : Kernel → Kernel × ℤ
file_close k = (k, pos 0)

unfoldable pub file_write : Kernel → Kernel × ℤ
file_write k = (k, minus_one)

-- `dir_open`
unfoldable pub dir_open : Kernel → Kernel × ℤ
dir_open k = (record k { dir_read_count = 0 }, pos 0)

-- `dir_close` and `dir_write`
unfoldable pub dir_close : Kernel → Kernel × ℤ
dir_close k = (k, pos 0)

unfoldable pub dir_write : Kernel → Kernel × ℤ
dir_write k = (k, minus_one)

abbrev min_ℤ : ℤ → ℤ → ℤ
min_ℤ a b = if ltb_ℤ a b then a else b

-- `dir_read`; `stack` is what the uninitialised local `d` holds.
unfoldable pub dir_read : Kernel → DirEntry → ℤ → Result (Kernel × Filled)
dir_read k stack nbytes = do
  entry ← read_dentry_by_index k.fs k.dir_read_count true
  let k' = record k { dir_read_count = (k.dir_read_count + 1) % 2 ^ 32 }
  let d : DirEntry = elim entry [ none ↦ stack | some e ↦ e ]
  len ← strlen (dentry_bytes d)
  let bytes = min_ℤ (min_ℤ nbytes (pos fs_fname_len)) (pos len)
  if ltb_ℤ bytes (pos 0)
      then ok (k', ([], minus_one))
      else ok (
        k',
        (take (pos_part bytes) (dentry_bytes d), elim entry [ none ↦ pos 0 | some e ↦ bytes ]),
      )

-- `open_fs`; the image is the one that the boot loader left at `start`.
unfoldable pub open_fs : Kernel → ℕ → FsImage → Kernel × ℤ
open_fs k start image =
    let page = start / 2 ^ 22 in
    let set_entry =
      λ (p : Paging) (e : ℕ). record p { pgdir = update p.pgdir 0 (update (p.pgdir 0) page e) } in
    let on = set_entry k.paging (bit_or (k.paging.pgdir 0 page) 1) in
    let k1 = record k { fs = image; paging = on } in
    if leb fs_max_dir_entries image.direntry_cnt
    then (record k1 { paging = set_entry on (bit_and (on.pgdir 0 page) (2 ^ 32 - 2)) }, minus_one)
    else (k1, pos 0)
