-- ===== src/Tests/Machine.antt =====
-- The machine of the tests: a disk with the program `shell`, whose process 0 runs on terminal 0.
use ece391_mp.Base.{
  ℕ, ◌+◌, ◌*◌, true, List, [], ◌∷◌, ◌++◌, none, get_or, if◌then◌else◌, ◌==◌, minus_one,
}
use ece391_mp.Fs.{DirEntry, FsImage}
use ece391_mp.Kernel.{Kernel, Pcb, Terminal, Paging}
use ece391_mp.Task.{initial_fds}

abbrev zeros : ℕ → List ℕ
zeros Prim.Native.Nat.zero = []
zeros (Prim.Native.Nat.suc n) = 0 ∷ zeros n

-- "shell"
abbrev pub shell_name : List ℕ
shell_name = 115 ∷ 104 ∷ 101 ∷ 108 ∷ 108 ∷ []

-- The program: the ELF header, and the entry point 0x08048000 at byte 24.
abbrev program : List ℕ
program = (0x7F ∷ 69 ∷ 76 ∷ 70 ∷ zeros 20) ++ (0 ∷ 128 ∷ 4 ∷ 8 ∷ 17 ∷ 34 ∷ [])

abbrev shell_entry : DirEntry
shell_entry = record {
  filename = shell_name ++ zeros 27;
  filetype = 2;
  inode_idx = 1;
  reserved = zeros 24;
}

abbrev pub image : FsImage
image = record {
  direntry_cnt = 2;
  inode_cnt = 2;
  datablk_cnt = 1;
  direntries = λ i. shell_entry;
  inodes = λ i. record { size = 30; blocks = λ b. 0 };
  datablks = λ blk off. get_or program off 0;
}

abbrev process : ℕ → Pcb
process i = record {
  fds = initial_fds;
  raw_argv = [];
  argv1 = 0;
  pid = i;
  parent_ksp = 0;
  parent_kbp = 0;
  ksp = 0;
  kbp = 0;
  parent_pid = minus_one;
  parent_pcb = none;
  child_pcb = none;
  child_return = 0;
}

abbrev terminal : ℕ → Terminal
terminal i = record {
  line_buf = λ j. 0;
  line_buf_index = 0;
  screen_x = 0;
  screen_y = 0;
  pid = i;
  id = i;
  read_flag = 0;
  vid_mem_buf = (0xB9 + i) * 4096;
  running = if i == 0 then 1 else 0;
  status = if i == 1 then 0 else 1;
  vidmap = 0;
  rtc = record { virt_freq = 2; real_freq = 1024; int_count = 0; flag = 0 };
}

abbrev pub tables : Paging
tables = record {
  pgdir = λ d e. 0;
  pgtbl = λ e. 0;
  pgtbl_proc = λ d e. 0;
  pgtbl_addr = 0x500000;
  pgtbl_proc_addr = λ d. 0x501000 + d * 4096;
  cr3 = 0;
}

abbrev pub machine : Kernel
machine = record {
  fs = image;
  dir_read_count = 0;
  procs = 0x80;
  running_pid = 0;
  program_exception = 0;
  pcbs = process;
  terminals = terminal;
  current_terminal = 0;
  current_schedule = 0;
  schedule_counter = 0;
  esp0 = 0;
  master_mask = 0xFF;
  slave_mask = 0xFF;
  ports = [];
  interrupts_on = true;
  paging = tables;
  screen = record { screen_x = 0; screen_y = 0; video = λ a. 0 };
  keys = record {
    key_state = λ c. 0;
    caps_lock_repeat = 0;
    multi_byte = 0;
    terminal_to_switch_to = minus_one;
  };
}

-- Every process sees the first 4 MB of memory.
abbrev pub seeing : Kernel
seeing = record machine {
  paging = record tables {
    pgdir = λ d e. if e == 0 then tables.pgtbl_proc_addr d + 7 else 0;
    pgtbl_proc = λ d e. e * 4096 + 7;
  };
}
