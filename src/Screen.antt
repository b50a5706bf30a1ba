-- ===== src/Screen.antt =====
-- student-distrib/lib.c: the text screen. Video memory is written through the page tables, so a write
-- by the code at `VIDEO` reaches the page that the loaded directory maps there.
pub mod Terminals
pub mod Cursor
use ece391_mp.Base.{
  ℕ, zero, suc, ◌+◌, ◌-◌, ◌*◌, ◌/◌, ◌%◌, ◌^◌, Bool, true, false, not, ◌&&◌, ◌||◌, List, Option,
  none, some, Result, ok, fault, ◌>>=◌, ltb, leb, ◌==◌, if◌then◌else◌, update,
}
use ece391_mp.Kernel.{
  Kernel, Terminal, Paging, set_terminal, get_current_pcb, outb, cli, sti, terminal_num,
}
use ece391_mp.Kernel.Running.{get_running_terminal}
use ece391_mp.Paging.{map_vid_mem}
use ece391_mp.Paging.Mmu.{translate}

-- The constants of lib.h.
abbrev pub attrib : ℕ
attrib = 2

abbrev pub num_rows : ℕ
num_rows = 25

abbrev pub num_cols : ℕ
num_cols = 80

abbrev pub video : ℕ
video = 0xB8000

-- Whether a physical address lies on the screen's page or on the page of a terminal.
abbrev pub on_video : ℕ → Bool
on_video pa = leb video pa && ltb pa (video + 4 * 4096)

abbrev pub set_video : Kernel → (ℕ → ℕ) → Kernel
set_video k v = record k { screen = record (k.screen) { video = v } }

-- A write of one byte through a pointer to video memory; anywhere else it is a fault.
unfoldable pub poke : Kernel → ℕ → ℕ → Result Kernel
poke k va byte = elim (translate k.paging va) [
  | none ↦ fault
  | some (pa, user) ↦
      if on_video pa then ok (set_video k (update k.screen.video pa byte)) else fault
]

-- `memmove` inside one page of video memory.
unfoldable pub move_bytes : Kernel → ℕ → ℕ → ℕ → Result Kernel
move_bytes k dest src n = elim (translate k.paging dest) [
  | none ↦ fault
  | some (d, user) ↦ elim (translate k.paging src) [
    | none ↦ fault
    | some (s, user') ↦
        if on_video d && on_video s && leb (dest % 4096 + n) 4096 && leb (src % 4096 + n) 4096
        then ok (
            set_video k (λ a.
              if leb d a && ltb a (d + n) then k.screen.video (a - d + s) else k.screen.video a))
        else fault
  ]
]

-- A character and its attribute, two bytes at `base[(NUM_COLS * y + x) << 1]`.
unfoldable pub put_cell : Kernel → ℕ → ℕ → ℕ → ℕ → Result Kernel
unfolding poke
put_cell k base x y c = do
  k1 ← poke k (base + (num_cols * y + x) * 2) c
  poke k1 (base + (num_cols * y + x) * 2 + 1) attrib

-- The loops that blank `rounds` cells from the `i`-th on.
unfoldable pub blank_cells : Kernel → ℕ → ℕ → Result Kernel
unfolding put_cell
blank_cells k zero i = ok k
blank_cells k (suc rounds) i = do
  k1 ← poke k (video + i * 2) 32
  k2 ← poke k1 (video + i * 2 + 1) attrib
  blank_cells k2 rounds (i + 1)

-- `scroll_up`
unfoldable pub scroll_up : Kernel → Result Kernel
unfolding move_bytes
scroll_up k = do
  k1 ← move_bytes k video (video + num_cols * 2) (num_cols * (num_rows - 1) * 2)
  blank_cells k1 num_cols (num_cols * (num_rows - 1))

-- `set_cursor_location`
unfoldable pub set_cursor_location : Kernel → ℕ → ℕ → Kernel
set_cursor_location k x y =
    let vga_position = (y * num_cols + x) % 2 ^ 16 in
    outb vga_position 0x3D5 (outb 0x0F 0x3D4 (outb (vga_position / 256) 0x3D5 (outb 0x0E 0x3D4 k)))

abbrev pub at_xy : Kernel → ℕ → ℕ → Kernel
at_xy k x y = record k { screen = record (k.screen) { screen_x = x; screen_y = y } }

-- `set_screen_x`, `set_screen_y` and `set_screen_xy`; the arguments are `u16`.
unfoldable pub set_screen_x : Kernel → ℕ → Kernel
unfolding set_cursor_location
set_screen_x k x =
    if ltb x num_cols
    then set_cursor_location (at_xy k x k.screen.screen_y) x k.screen.screen_y
    else k

unfoldable pub set_screen_y : Kernel → ℕ → Kernel
unfolding set_cursor_location
set_screen_y k y =
    if ltb y num_rows
    then set_cursor_location (at_xy k k.screen.screen_x y) k.screen.screen_x y
    else k

unfoldable pub set_screen_xy : Kernel → ℕ → ℕ → Kernel
unfolding set_cursor_location
set_screen_xy k x y =
    if ltb y num_rows && ltb x num_cols then set_cursor_location (at_xy k x y) x y else k

-- `set_terminal_screen_xy`. The code rejects a position only if both parts are out of range.
unfoldable pub set_terminal_screen_xy : Kernel → ℕ → ℕ → ℕ → Kernel
set_terminal_screen_xy k num_term x y =
    if leb terminal_num num_term || (leb num_rows y && leb num_cols x)
    then k
    else set_terminal k num_term (record (k.terminals num_term) { screen_x = x; screen_y = y })

-- `set_terminal_screen_x` and `set_terminal_screen_y`
unfoldable pub set_terminal_screen_x : Kernel → ℕ → ℕ → Kernel
set_terminal_screen_x k num_term x =
    if leb terminal_num num_term || leb num_cols x
    then k
    else set_terminal k num_term (record (k.terminals num_term) { screen_x = x })

unfoldable pub set_terminal_screen_y : Kernel → ℕ → ℕ → Kernel
set_terminal_screen_y k num_term y =
    if leb terminal_num num_term || leb num_rows y
    then k
    else set_terminal k num_term (record (k.terminals num_term) { screen_y = y })

-- `clear_screen_xy` and `clear_terminal_screen_xy`
unfoldable pub clear_screen_xy : Kernel → Result Kernel
unfolding put_cell
clear_screen_xy k = put_cell k video k.screen.screen_x k.screen.screen_y 32

unfoldable pub clear_terminal_screen_xy : Kernel → ℕ → Result Kernel
unfolding put_cell
clear_terminal_screen_xy k num_term =
    if leb terminal_num num_term
    then ok k
    else put_cell k video (k.terminals num_term).screen_x (k.terminals num_term).screen_y 32

-- The test of `putc` and `clear`: a terminal runs and it is not the one on the screen.
abbrev pub hidden : Kernel → Option ℕ → Bool
hidden k none = false
hidden k (some i) = not ((k.terminals i).id == k.current_terminal)

-- `map_vid_mem(get_current_pcb()->pid, VIDEO, address)`
unfoldable pub show_at : Kernel → ℕ → Kernel
unfolding map_vid_mem
show_at k address = (map_vid_mem k (get_current_pcb k).pid video address).0

abbrev pub buffer_of : Kernel → Option ℕ → ℕ
buffer_of k none = 0
buffer_of k (some i) = (k.terminals i).vid_mem_buf

-- `clear`
unfoldable pub clear : Kernel → Result Kernel
unfolding show_at blank_cells set_terminal_screen_xy set_screen_xy
clear k = do
  term ← get_running_terminal k
  k1 ← blank_cells (if hidden k term then show_at (cli k) video else k) (num_rows * num_cols) 0
  let k2 = sti (set_terminal_screen_xy (show_at k1 (buffer_of k1 term)) k1.current_terminal 0 0)
  ok (set_screen_xy (if hidden k term then k2 else k1) 0 0)

-- A new position, in a state whose screen may have scrolled.
abbrev pub Moved : Type 0
Moved = Kernel × ℕ × ℕ

-- The newline of `putc` and `terminal_putc` at (x, y).
unfoldable pub new_line : Kernel → ℕ → Result Moved
unfolding scroll_up
new_line k y =
    if ltb y (num_rows - 1) then ok (k, 0, y + 1) else (scroll_up k >>= λ k'. ok (k', 0, y))

-- What both do after a character at (x, y): on to the next cell, row or screen.
unfoldable pub advance : Kernel → ℕ → ℕ → Result Moved
unfolding scroll_up
advance k x y =
    let x' = (x + 1) % 2 ^ 16 in
    if ltb 0 (x' / num_cols)
    then if y == num_rows - 1
      then (scroll_up k >>= λ k'. ok (k', x' % num_cols, y))
      else ok (k, x' % num_cols, (y + x' / num_cols) % num_rows)
    else ok (k, x' % num_cols, y)

-- The part of `putc` between the two changes of the mapping.
unfoldable pub draw : Kernel → ℕ → Result Kernel
unfolding new_line advance put_cell set_screen_xy set_screen_x clear_screen_xy
draw k c =
    let x = k.screen.screen_x in
    let y = k.screen.screen_y in
    if c == 10
    then (new_line k y >>= λ m. ok (at_xy m.0 m.1 m.2))
    else if c == 8
    then clear_screen_xy (
        if x == 0 && ltb 0 y
        then set_screen_xy k (num_cols - 1) (y - 1)
        else set_screen_x k ((x + 2 ^ 16 - 1) % 2 ^ 16))
    else do k1 ← put_cell k video x y c; m ← advance k1 x y; ok (at_xy m.0 m.1 m.2)

-- `putc` for a character that is no tab.
unfoldable pub putc_plain : Kernel → Option ℕ → ℕ → Result Kernel
unfolding draw show_at set_cursor_location
putc_plain k term c = do
  k1 ← draw (if hidden k term then show_at k video else k) c
  let k2 = if hidden k term then show_at k1 (buffer_of k1 term) else k1
  ok (set_cursor_location k2 k2.screen.screen_x k2.screen.screen_y)

-- `putc`; a tab prints a space by a second call, and returns.
unfoldable pub putc : Kernel → ℕ → Result Kernel
unfolding putc_plain
putc k c = do
  term ← get_running_terminal k
  let k' = if hidden k term then show_at k video else k
  let space = get_running_terminal k' >>= λ term'. putc_plain k' term' 32
  if c == 0 then ok k else if c == 9 then space else putc_plain k term c

-- `terminal_putc` for a character that is neither NUL nor a tab, on a terminal in range.
unfoldable pub terminal_putc_plain : Kernel → ℕ → ℕ → Result Kernel
unfolding new_line advance put_cell set_screen_xy set_terminal_screen_xy clear_screen_xy
    clear_terminal_screen_xy
terminal_putc_plain k num_term c =
    let t = k.terminals num_term in
    let shown = t.id == k.current_terminal in
    let x = if shown then k.screen.screen_x else t.screen_x in
    let y = if shown then k.screen.screen_y else t.screen_y in
    let wraps = x == 0 && ltb 0 y in
    let bx = if wraps then num_cols - 1 else (x + 2 ^ 16 - 1) % 2 ^ 16 in
    let by = if wraps then y - 1 else y in
    let back =
      if shown
      then clear_screen_xy (set_screen_xy k bx by)
      else clear_terminal_screen_xy (set_terminal_screen_xy k t.id bx by) t.id in
    let finish = λ (m : Moved).
      ok (if shown then set_screen_xy m.0 m.1 m.2 else set_terminal_screen_xy m.0 t.id m.1 m.2) in
    if c == 10
    then (new_line k y >>= finish)
    else if c == 8
    then back
    else (put_cell k (if shown then video else t.vid_mem_buf) x y c >>= λ k1.
        advance k1 x y >>= finish)

-- `terminal_putc`
unfoldable pub terminal_putc : Kernel → ℕ → ℕ → Result Kernel
unfolding terminal_putc_plain
terminal_putc k num_term c =
    if c == 0 || leb terminal_num num_term
    then ok k
    else terminal_putc_plain k num_term (if c == 9 then 32 else c)
