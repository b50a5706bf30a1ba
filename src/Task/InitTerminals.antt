-- ===== src/Task/InitTerminals.antt =====
-- student-distrib/terminal_driver.c: `init_terminals`, which ends with the call of `execute`.
use ece391_mp.Base.{
  ℕ, zero, suc, ◌+◌, ◌*◌, ◌%◌, ltb, [], ◌∷◌, some, Result, ok, ◌>>=◌, ◌==◌, if◌then◌else◌,
}
use ece391_mp.Kernel.{
  Kernel, Terminal, set_terminal, terminal_num, line_buffer_size, task_running, task_not_running,
}
use ece391_mp.Screen.{poke, video, attrib, num_rows, num_cols}
use ece391_mp.Task.{execute, Execution, Stack}

-- What each round sets in a terminal, but for the position on the screen and its buffer's contents.
-- The process id keeps its value.
unfoldable pub init_terminal : Terminal → ℕ → Terminal
init_terminal t i = record t {
  screen_x = 0;
  screen_y = 0;
  read_flag = 0;
  line_buf_index = 0;
  status = task_not_running;
  running = 0;
  rtc = record { real_freq = 1024; virt_freq = 2; int_count = 0; flag = 0 };
  vid_mem_buf = video + 0x1000 * (i + 1);
  id = i % 256;
  vidmap = 0;
  line_buf = λ j. if ltb j line_buffer_size then 0 else t.line_buf j;
}

-- The loop that blanks the buffer of a terminal that is not on the screen, two bytes a round.
unfoldable pub blank_buffer : Kernel → ℕ → ℕ → ℕ → Result Kernel
blank_buffer k buf zero j = ok k
blank_buffer k buf (suc rounds) j = do
  k1 ← poke k (buf + j) 32
  k2 ← poke k1 (buf + j + 1) attrib
  blank_buffer k2 buf rounds (j + 2)

-- The loop over the terminals, with the rounds that are left.
unfoldable pub init_each : Kernel → ℕ → ℕ → Result Kernel
unfolding init_terminal blank_buffer
init_each k zero i = ok k
init_each k (suc rounds) i = do
  let k1 = set_terminal k i (init_terminal (k.terminals i) i)
  let first =
      set_terminal k1 i
        (record (k1.terminals i) { screen_x = k1.screen.screen_x; screen_y = k1.screen.screen_y })
  let blanked = blank_buffer k1 (k1.terminals i).vid_mem_buf (num_rows * num_cols) 0
  k2 ← (if i == 0 then ok first else blanked)
  init_each k2 rounds (i + 1)

-- `init_terminals`
unfoldable pub init_terminals : Kernel → Stack → Result Execution
unfolding init_each
init_terminals k stack = do
  k1 ← init_each k terminal_num 0
  let k2 = set_terminal k1 0 (record (k1.terminals 0) { running = 1; status = task_running })
  let shell = 115 ∷ 104 ∷ 101 ∷ 108 ∷ 108 ∷ 0 ∷ []
  execute (record k2 { current_terminal = 0 }) (some shell) stack
