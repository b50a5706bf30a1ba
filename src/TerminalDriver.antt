-- ===== src/TerminalDriver.antt =====
-- student-distrib/terminal_driver.c: reading and writing a terminal, and switching between terminals.
-- Its lookups of a terminal are in Kernel/Running.
pub mod Pages
pub mod Exchange
pub mod Switch
use ece391_mp.Base.{
  ℕ, zero, suc, ◌+◌, ◌*◌, not, ◌||◌, List, [], ◌∷◌, Option, none, some, Result, ok, ◌>>=◌, leb,
  ltb_ℤ, ◌==◌, if◌then◌else◌, ℤ, pos, minus_one, pos_part, length, take, in_bounds, ◌>>◌,
}
use ece391_mp.Fs.{Filled}
use ece391_mp.Kernel.{Kernel, set_terminal, get_current_pcb, cli, sti, terminal_num, task_running}
use ece391_mp.Kernel.Running.{get_running_terminal}
use ece391_mp.Kernel.Spin.{Interrupt}
use ece391_mp.Paging.{map_vid_mem}
use ece391_mp.Screen.{terminal_putc, set_screen_xy, move_bytes, video, num_cols, num_rows}
use ece391_mp.Keyboard.{get_line_buf}

-- `terminal_read`
unfoldable pub terminal_read :
    Kernel → Option ℕ → ℤ → List Interrupt → Result (Option (Kernel × Filled))
terminal_read k buf nbytes irqs = get_line_buf k buf nbytes irqs

-- The loop of `terminal_write`, over the bytes that are left.
unfoldable pub put_bytes : Kernel → ℕ → List ℕ → Result Kernel
put_bytes k id [] = ok k
put_bytes k id (c ∷ cs) = terminal_putc k id c >>= λ k'. put_bytes k' id cs

-- `terminal_write`; `buf` is the bytes from the pointer to the end of its object, or `none` for a
-- null pointer. A read past that end is a fault.
unfoldable pub terminal_write : Kernel → Option (List ℕ) → ℤ → Result (Kernel × ℤ)
unfolding put_bytes
terminal_write k buf nbytes = do
  let k0 = cli k
  term ← get_running_terminal k0
  let refused : Result (Kernel × ℤ) = ok (sti k0, minus_one)
  let write : List ℕ → Result (Kernel × ℤ) = λ bytes. elim term [
    | none ↦ refused
    | some i ↦
        in_bounds (leb (pos_part nbytes) (length bytes))
        >> (put_bytes k0 (k0.terminals i).id (take (pos_part nbytes) bytes) >>= λ k1.
            ok (sti k1, nbytes))
  ]
  if ltb_ℤ (pos 0) nbytes then elim buf [ none ↦ refused | some bytes ↦ write bytes ] else refused

-- `terminal_open` and `terminal_close`
unfoldable pub terminal_open : Kernel → Kernel × ℤ
terminal_open k = (k, pos 0)

unfoldable pub terminal_close : Kernel → Kernel × ℤ
terminal_close k = (k, pos 0)

-- `memcpy` of a screen between two pages that the running process has mapped.
abbrev pub screen_bytes : ℕ
screen_bytes = num_cols * num_rows * 2

abbrev pub map_screen : Kernel → ℕ → ℕ → Kernel
map_screen k pid address = (map_vid_mem k pid video address).0

-- `restore_terminal`
unfoldable pub restore_terminal : Kernel → ℕ → Result Kernel
unfolding set_screen_xy move_bytes
restore_terminal k term_num =
    let prev = k.current_terminal in
    let k1 =
      set_terminal k prev (record (k.terminals prev) {
        screen_x = k.screen.screen_x;
        screen_y = k.screen.screen_y;
      }) in
    let t = k1.terminals term_num in
    let k2 = set_screen_xy k1 t.screen_x t.screen_y in
    let pid = (get_current_pcb k2).pid in
    let prev_buf = (k1.terminals prev).vid_mem_buf in
    let copied = move_bytes (map_screen k2 pid video) prev_buf video screen_bytes >>= λ k3.
    move_bytes k3 video t.vid_mem_buf screen_bytes in
    if leb terminal_num term_num then ok k else (copied >>= λ k4. ok (map_screen k4 pid prev_buf))

-- `switch_terminal`
unfoldable pub switch_terminal : Kernel → ℕ → Result Kernel
unfolding restore_terminal
switch_terminal k term_num =
    if k.current_terminal == term_num || leb terminal_num term_num then ok k else do
      k1 ← restore_terminal (cli k) term_num
      let t = k1.terminals term_num
      ok (
          sti (
            set_terminal (record k1 { current_terminal = term_num }) term_num
              (record t { status = task_running })))

-- The loop of `new_terminal`, with the rounds that are left.
unfoldable pub take_terminal : Kernel → ℕ → ℕ → ℕ → Kernel × Option ℕ
take_terminal k pid zero i = (k, none)
take_terminal k pid (suc rounds) i =
    if not ((k.terminals i).running == 0)
    then take_terminal k pid rounds (i + 1)
    else (set_terminal k i (record (k.terminals i) { pid = pid; running = 1 }), some i)

-- `new_terminal`: the first terminal that is not running, or `none`.
unfoldable pub new_terminal : Kernel → ℕ → Kernel × Option ℕ
unfolding take_terminal
new_terminal k pid = take_terminal k pid terminal_num 0
