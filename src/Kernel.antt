-- ===== src/Kernel.antt =====
-- The kernel's state: the globals of student-distrib/ that more than one file reads or writes, as
-- one record. Arrays are functions from an index; pointers into an array are its indices.
pub mod Running
pub mod Owns
pub mod Spin
use ece391_mp.Base.{ℕ, ◌%◌, Option, List, ◌∷◌, ℤ, update, Bool, true, false}
use ece391_mp.Fs.{FsImage}

-- The constants of syscall.h, terminal_driver.h and pit.h.
abbrev pub fd_start : ℕ
fd_start = 2

abbrev pub fd_cnt : ℕ
fd_cnt = 8

abbrev pub max_pid_count : ℕ
max_pid_count = 8

abbrev pub terminal_num : ℕ
terminal_num = 3

abbrev pub line_buffer_size : ℕ
line_buffer_size = 128

abbrev pub task_not_running : ℕ
task_not_running = 0

abbrev pub task_running : ℕ
task_running = 1

-- The tables of syscall.c that a `jumptable` may point to.
pub data FileOps : Type 0 where
  std_in_fops std_out_fops rtc_fops fs_fops dir_fops : FileOps

-- `FileDesc`; `none` is the null pointer.
pub record FileDesc : Type 0 where
  pub jumptable : Option FileOps
  pub inode : ℕ
  pub file_position : ℕ
  pub flags : ℕ

-- `Pcb`. `parent_pcb` and `child_pcb` are the process whose PCB they point to. `argv[0]` is the
-- start of `raw_argv`, and `argv1` is the index in `raw_argv` where `argv[1]` points to.
pub record Pcb : Type 0 where
  pub fds : ℕ → FileDesc
  pub raw_argv : List ℕ
  pub argv1 : ℕ
  pub pid : ℕ
  pub parent_ksp : ℕ
  pub parent_kbp : ℕ
  pub ksp : ℕ
  pub kbp : ℕ
  pub parent_pid : ℤ
  pub parent_pcb : Option ℕ
  pub child_pcb : Option ℕ
  pub child_return : ℕ

-- `virtual_rtc`
pub record VirtualRtc : Type 0 where
  pub virt_freq : ℕ
  pub real_freq : ℕ
  pub int_count : ℕ
  pub flag : ℕ

-- `terminal`; `vid_mem_buf` is the address of its page.
pub record Terminal : Type 0 where
  pub line_buf : ℕ → ℕ
  pub line_buf_index : ℕ
  pub screen_x : ℕ
  pub screen_y : ℕ
  pub pid : ℕ
  pub id : ℕ
  pub read_flag : ℕ
  pub vid_mem_buf : ℕ
  pub running : ℕ
  pub status : ℕ
  pub vidmap : ℕ
  pub rtc : VirtualRtc

-- Page directories and tables (x86_desc.S), the addresses that the linker gave to the tables, and
-- the directory that CR3 holds.
pub record Paging : Type 0 where
  pub pgdir : ℕ → ℕ → ℕ
  pub pgtbl : ℕ → ℕ
  pub pgtbl_proc : ℕ → ℕ → ℕ
  pub pgtbl_addr : ℕ
  pub pgtbl_proc_addr : ℕ → ℕ
  pub cr3 : ℕ

-- The globals of lib.c, and video memory: the byte at each physical address of the screen's page and
-- of the page behind it for each terminal.
pub record Screen : Type 0 where
  pub screen_x : ℕ
  pub screen_y : ℕ
  pub video : ℕ → ℕ

-- The globals of keyboard.c. `terminal_to_switch_to` is an `i32`.
pub record Keys : Type 0 where
  pub key_state : ℕ → ℕ
  pub caps_lock_repeat : ℕ
  pub multi_byte : ℕ
  pub terminal_to_switch_to : ℤ

-- `interrupts_on` is the processor's interrupt flag, and `ports` is every byte written to an I/O port, with the port, the latest first.
pub record Kernel : Type 0 where
  pub fs : FsImage
  pub dir_read_count : ℕ
  pub procs : ℕ
  pub running_pid : ℕ
  pub program_exception : ℕ
  pub pcbs : ℕ → Pcb
  pub terminals : ℕ → Terminal
  pub current_terminal : ℕ
  pub current_schedule : ℕ
  pub schedule_counter : ℕ
  pub esp0 : ℕ
  pub master_mask : ℕ
  pub slave_mask : ℕ
  pub ports : List (ℕ × ℕ)
  pub interrupts_on : Bool
  pub paging : Paging
  pub screen : Screen
  pub keys : Keys

-- `get_current_pcb`: `get_pcb(running_pid)`, which is never null.
abbrev pub get_current_pcb : Kernel → Pcb
get_current_pcb k = k.pcbs k.running_pid

-- Writes through a pointer to a PCB, a file descriptor of the running process, and a terminal.
abbrev pub set_pcb : Kernel → ℕ → Pcb → Kernel
set_pcb k p pcb = record k { pcbs = update k.pcbs p pcb }

abbrev pub set_fd : Kernel → ℕ → FileDesc → Kernel
set_fd k fd d =
    set_pcb k k.running_pid
      (record (get_current_pcb k) { fds = update (get_current_pcb k).fds fd d })

abbrev pub set_terminal : Kernel → ℕ → Terminal → Kernel
set_terminal k i t = record k { terminals = update k.terminals i t }

-- `outb(data, port)`
abbrev pub outb : ℕ → ℕ → Kernel → Kernel
outb byte port k = record k { ports = (byte % 256, port) ∷ k.ports }

-- `cli()` and `sti()`
abbrev pub cli : Kernel → Kernel
cli k = record k { interrupts_on = false }

abbrev pub sti : Kernel → Kernel
sti k = record k { interrupts_on = true }
