-- ===== src/Syscall.antt =====
-- student-distrib/syscall.c: the system calls on file descriptors, `getargs` and `vidmap`. The calls that
-- start and end programs are in Task.
pub mod Fds
pub mod Calls
pub mod Refusals
use ece391_mp.Base.{
  ℕ, zero, suc, ◌+◌, ◌*◌, ◌%◌, Bool, true, false, not, ◌&&◌, ◌||◌, List, [], ◌∷◌, Option, none,
  some, Result, ok, fault, ◌>>=◌, ltb, leb, min, ltb_ℤ, eqb_ℤ, ◌==◌, if◌then◌else◌, ℤ, pos, negsuc,
  pos_part, minus_one, drop, take, is_some,
}
use ece391_mp.Str.{strlen}
use ece391_mp.Fs.{Filled, DirEntry, read_dentry_by_name}
use ece391_mp.Kernel.{
  Kernel, FileDesc, FileOps, Pcb, get_current_pcb, set_fd, set_terminal, fd_cnt, fd_start, sti,
}
use ece391_mp.Kernel.FileOps.{std_in_fops, std_out_fops, rtc_fops, fs_fops, dir_fops}
use ece391_mp.Kernel.Running.{get_running_terminal}
use ece391_mp.Kernel.Spin.{Interrupt}
use ece391_mp.Paging.{map_vid_mem, mb4, elf_load_pg, num_proc}
use ece391_mp.Screen.{video}
use ece391_mp.Rtc.{rtc_open, rtc_read, rtc_write}
use ece391_mp.Files.{in_use, file_open, file_read, file_write, dir_open, dir_read, dir_write}
use ece391_mp.TerminalDriver.{terminal_read, terminal_write}

-- A buffer that the caller passes: how many bytes it has, and the bytes that stand in it.
pub record Buffer : Type 0 where
  pub capacity : ℕ
  pub bytes : List ℕ
  pub word : ℕ

-- The conditions of `read` and `write` on a descriptor that is in range.
abbrev pub is_open : FileDesc → Bool
is_open d = in_use d && is_some d.jumptable

-- Whether `0 <= fd < FD_CNT` holds.
abbrev pub fd_valid : ℤ → Bool
fd_valid (pos n) = ltb n fd_cnt
fd_valid (negsuc n) = false

-- What a call that may wait for interrupts returns, and the part that never waits.
abbrev pub Waits : Type 0
Waits = Result (Option (Kernel × Filled))

abbrev at_once : Result (Kernel × Filled) → Waits
at_once r = r >>= λ x. ok (some x)

abbrev status_only : Result (Option (Kernel × ℤ)) → Waits
status_only r = r >>= λ o. elim o [ none ↦ ok none | some (k, v) ↦ ok (some (k, ([], v))) ]

-- `jumptable->read(fd, buf, nbytes)`, with what an uninitialised entry holds, and the interrupts
-- that arrive while the call waits.
unfoldable pub ops_read : FileOps → Kernel → ℤ → Buffer → ℤ → DirEntry → List Interrupt → Waits
ops_read std_in_fops k fd buf nbytes stack irqs = terminal_read k (some buf.capacity) nbytes irqs
ops_read std_out_fops k fd buf nbytes stack irqs = ok (some (k, ([], minus_one)))
ops_read rtc_fops k fd buf nbytes stack irqs = status_only (rtc_read k irqs)
ops_read fs_fops k fd buf nbytes stack irqs = at_once (file_read k fd true nbytes)
ops_read dir_fops k fd buf nbytes stack irqs = at_once (dir_read k stack nbytes)

-- `jumptable->write(fd, buf, nbytes)`
unfoldable pub ops_write : FileOps → Kernel → Buffer → ℤ → Result (Kernel × ℤ)
ops_write std_in_fops k buf nbytes = ok (k, minus_one)
ops_write std_out_fops k buf nbytes = terminal_write k (some buf.bytes) nbytes
ops_write rtc_fops k buf nbytes = rtc_write k (some buf.word) nbytes
ops_write fs_fops k buf nbytes = ok (file_write k)
ops_write dir_fops k buf nbytes = ok (dir_write k)

-- `jumptable->open(filename)`
unfoldable pub ops_open : FileOps → Kernel → Result (Kernel × ℤ)
ops_open rtc_fops k = rtc_open k
ops_open dir_fops k = ok (dir_open k)
ops_open fs_fops k = ok (file_open k)
ops_open std_in_fops k = ok (k, pos 0)
ops_open std_out_fops k = ok (k, pos 0)

-- `read`; `none` for a null buffer.
unfoldable pub read : Kernel → ℤ → Option Buffer → ℤ → DirEntry → List Interrupt → Waits
read k fd none nbytes stack irqs = ok (some (k, ([], minus_one)))
read k fd (some buf) nbytes stack irqs =
    let d = (get_current_pcb k).fds (pos_part fd) in
    let refused : Waits = ok (some (k, ([], minus_one))) in
    if not (fd_valid fd) || ltb_ℤ nbytes (pos 0) || not (in_use d)
    then refused
    else elim d.jumptable [
      | none ↦ refused
      | some ops ↦ ops_read ops (sti k) fd buf nbytes stack irqs
    ]

-- `write`
unfoldable pub write : Kernel → ℤ → Option Buffer → ℤ → Result (Kernel × ℤ)
write k fd none nbytes = ok (k, minus_one)
write k fd (some buf) nbytes =
    let d = (get_current_pcb k).fds (pos_part fd) in
    if not (fd_valid fd) || ltb_ℤ nbytes (pos 0) || not (in_use d)
    then ok (k, minus_one)
    else elim d.jumptable [ none ↦ ok (k, minus_one) | some ops ↦ ops_write ops k buf nbytes ]

-- The `switch` of `open` over the file type.
unfoldable pub ops_of_type : ℕ → Option FileOps
ops_of_type filetype =
    if filetype == 0
    then some rtc_fops
    else if filetype == 1
    then some dir_fops
    else if filetype == 2
    then some fs_fops
    else none

-- The body of the loop of `open` for the free descriptor `i`, from where the file's operations are
-- known.
unfoldable pub install_ops : Kernel → DirEntry → ℕ → FileOps → Result (Kernel × ℤ)
install_ops k entry i ops = do
  let d = (get_current_pcb k).fds i
  r ← ops_open ops (set_fd k i (record d { jumptable = some ops }))
  let d' = (get_current_pcb r.0).fds i
  if eqb_ℤ r.1 minus_one
      then ok (set_fd (r.0) i (record d' { jumptable = none }), minus_one)
      else ok (
        set_fd (r.0) i (record d' {
          flags = 1;
          inode = if entry.filetype == 2 then entry.inode_idx else 0;
          file_position = 0;
        }),
        pos i,
      )

-- The body of that loop.
unfoldable pub install : Kernel → DirEntry → ℕ → Result (Kernel × ℤ)
unfolding ops_of_type
install k entry i = elim (ops_of_type entry.filetype) [
  | none ↦ ok (k, minus_one)
  | some ops ↦ install_ops k entry i ops
]

-- The loop of `open`: the first descriptor that is not in use, with the rounds that are left.
unfoldable pub find_fd : (ℕ → FileDesc) → ℕ → ℕ → Option ℕ
find_fd fds zero i = none
find_fd fds (suc rounds) i = if in_use (fds i) then find_fd fds rounds (i + 1) else some i

-- `open` after the search for a free descriptor, and after the search for the directory entry.
unfoldable pub open_at : Kernel → DirEntry → Option ℕ → Result (Kernel × ℤ)
unfolding install
open_at k entry none = ok (k, minus_one)
open_at k entry (some i) = install k entry i

unfoldable pub open_found : Kernel → Option DirEntry → Result (Kernel × ℤ)
unfolding open_at find_fd
open_found k none = ok (k, minus_one)
open_found k (some entry) = open_at k entry (find_fd (get_current_pcb k).fds 6 fd_start)

-- `open`; `filename` is `none` for a null pointer.
unfoldable pub open_file : Kernel → Option (List ℕ) → Result (Kernel × ℤ)
unfolding open_found
open_file k none = ok (k, minus_one)
open_file k (some []) = fault
open_file k (some (c ∷ cs)) =
    let search = read_dentry_by_name k.fs (c ∷ cs) true >>= open_found k in
    if c == 0 then ok (k, minus_one) else search

abbrev pub closed_fd : FileDesc
closed_fd = record { jumptable = none; inode = 0; file_position = 0; flags = 0 }

-- `close`
unfoldable pub close : Kernel → ℤ → Kernel × ℤ
close k fd =
    let d = (get_current_pcb k).fds (pos_part fd) in
    if ltb_ℤ fd (pos fd_start) || not (fd_valid fd) || not (is_open d)
    then (k, minus_one)
    else (set_fd k (pos_part fd) closed_fd, pos 0)

-- `getargs`; `buf` is false for a null pointer. The bytes are those copied to the buffer.
unfoldable pub getargs : Kernel → Bool → ℤ → Result Filled
getargs k buf nbytes = do
  let args = drop (get_current_pcb k).argv1 (get_current_pcb k).raw_argv
  let copy = strlen args >>= λ n. ok (take (min (n + 1) (pos_part nbytes)) args, pos 0)
  if not buf || ltb_ℤ nbytes (pos 0)
      then ok ([], minus_one)
      else elim args [ [] ↦ fault | c ∷ rest ↦ if c == 0 then ok ([], minus_one) else copy ]

-- `vidmap`; the argument is the address that the program passes, 0 for a null pointer. The result has
-- the value written to it, if one is written.
unfoldable pub vidmap : Kernel → ℕ → Result (Kernel × Option ℕ × ℤ)
vidmap k screen_start = do
  let start = mb4 * (elf_load_pg + num_proc)
  let map_it = get_running_terminal k >>= λ term. elim term [
    | none ↦ ok (k, some start, minus_one)
    | some i ↦
        let t = k.terminals i in
        let address = if t.id == k.current_terminal then video else t.vid_mem_buf in
        let r =
          map_vid_mem (set_terminal k i (record t { vidmap = 1 })) (get_current_pcb k).pid start
            address in
        ok (r.0, some start, r.1)
  ]
  if screen_start == 0 || ltb screen_start (mb4 * 2) then ok (k, none, minus_one) else map_it
