-- ===== src/Keyboard.antt =====
-- student-distrib/keyboard.c: scancodes, modifier keys, and the line buffer of each terminal.
mod Codes
pub mod Line
pub use Codes.*
use Prim.Native.Nat.{bit_and, bit_xor}
use ece391_mp.Base.{
  ℕ, zero, suc, ◌+◌, ◌-◌, ◌^◌, min, Bool, true, false, not, ◌&&◌, ◌||◌, List, Option, none, some,
  Result, ok, ◌>>=◌, ◌>>◌, in_bounds, ltb, leb, ltb_ℤ, eqb_ℤ, ◌==◌, if◌then◌else◌, update, slice, ℤ,
  pos, pos_part, minus_one,
}
use ece391_mp.Kernel.{Kernel, Terminal, Keys, set_terminal, line_buffer_size}
use ece391_mp.Kernel.Running.{get_running_terminal}
use ece391_mp.Kernel.Spin.{Interrupt, spin}
use ece391_mp.I8259.{enable_irq, send_eoi}
use ece391_mp.Screen.{putc, clear}
use ece391_mp.Fs.{Filled}

abbrev pub keyboard_irq : ℕ
keyboard_irq = 1

-- The loop of `contains_newline`, with the rounds that are left.
unfoldable pub find_newline : (ℕ → ℕ) → ℕ → ℕ → ℤ
find_newline buf zero i = minus_one
find_newline buf (suc rounds) i = if buf i == 10 then pos i else find_newline buf rounds (i + 1)

-- `contains_newline`: the index of the first newline, or -1.
unfoldable pub contains_newline : (ℕ → ℕ) → ℤ → ℤ
unfolding find_newline
contains_newline buf size = find_newline buf (pos_part size) 0

-- The effect of `clear_line_buf` on a terminal.
unfoldable pub clear_line : Terminal → Terminal
clear_line t = record t {
  line_buf = λ j. if ltb j line_buffer_size then 0 else t.line_buf j;
  line_buf_index = 0;
}

-- `clear_line_buf`
unfoldable pub clear_line_buf : Kernel → Result Kernel
unfolding clear_line
clear_line_buf k = do
  term ← get_running_terminal k
  elim term [ none ↦ ok k | some i ↦ ok (set_terminal k i (clear_line (k.terminals i))) ]

-- `init_keyboard`
unfoldable pub init_keyboard : Kernel → Result Kernel
unfolding clear_line_buf
init_keyboard k = do
  k1 ← enable_irq k keyboard_irq
  clear_line_buf (record k1 { keys = record (k1.keys) { multi_byte = 0; caps_lock_repeat = 0 } })

-- The tests of the key states; `handle_disp` with the shift and caps lock tests made.
unfoldable pub shift_pressed : Keys → Bool
shift_pressed s = not (s.key_state left_shift == 0) || not (s.key_state right_shift == 0)

unfoldable pub capslock_pressed : Keys → Bool
capslock_pressed s = not (s.key_state caps_lock == 0)

unfoldable pub alt_pressed : Keys → Bool
alt_pressed s = not (s.key_state left_alt == 0)

unfoldable pub is_func_key : Keys → Bool
is_func_key s =
    let down = λ (c : ℕ). not (s.key_state c == 0) in
    down 59
    || down 60
    || down 61
    || down 62
    || down 63
    || down 64
    || down 65
    || down 66
    || down 67
    || down 68
    || down 87
    || down 88

unfoldable pub handle_disp : Keys → ℕ → ℕ
unfolding shift_pressed capslock_pressed
handle_disp s disp = shifted (shift_pressed s) (capslock_pressed s) disp

-- Whether the terminal on the screen is reading a line.
abbrev shown_terminal : Kernel → Terminal
shown_terminal k = k.terminals k.current_terminal

-- `line_buf[line_buf_index++] = c`; a write past the buffer is a fault.
unfoldable pub push_char : Kernel → ℕ → Result Kernel
push_char k c = do
  k1 ← putc k c
  let t = k1.terminals k.current_terminal
  in_bounds (ltb t.line_buf_index line_buffer_size)
  ok (
      set_terminal k1 k.current_terminal (record t {
        line_buf = update t.line_buf t.line_buf_index c;
        line_buf_index = t.line_buf_index + 1;
      }))

-- The backspace of a line that is not empty.
unfoldable pub erase_char : Kernel → Result Kernel
erase_char k =
    let t = shown_terminal k in
    let index = t.line_buf_index - 1 in
    in_bounds (ltb index line_buffer_size)
    >> putc
        (set_terminal k k.current_terminal
          (record t { line_buf = update t.line_buf index 0; line_buf_index = index }))
        8

-- The branches for a terminal that reads a line, for the character `disp` of the key.
unfoldable pub edit_line : Kernel → ℕ → Result Kernel
unfolding push_char erase_char
edit_line k disp =
    let t = shown_terminal k in
    if k.keys.key_state backspace == 1
    then (if ltb 0 t.line_buf_index then erase_char k else ok k)
    else if disp == 0
    then ok k
    else if ltb t.line_buf_index (line_buffer_size - 1) || disp == 10
    then push_char k disp
    else ok k

abbrev switch_to : Kernel → ℕ → Kernel
switch_to k i =
    let k1 = send_eoi k keyboard_irq in
    record k1 { keys = record (k1.keys) { terminal_to_switch_to = pos i } }

-- The key state after a press.
unfoldable pub press : Keys → ℕ → Keys
press s code =
    if code == caps_lock && s.caps_lock_repeat == 0
    then record s {
      key_state = update s.key_state code (bit_xor (s.key_state code) 1);
      caps_lock_repeat = 1;
    }
    else record s { key_state = update s.key_state code 1 }

-- The key state after a release.
unfoldable pub release : Keys → ℕ → Keys
release s code =
    if code == released_caps_lock
    then record s { caps_lock_repeat = 0 }
    else record s { key_state = update s.key_state (code - release_offset) 0 }

-- `handle_keypress` for the press of a key of the table.
unfoldable pub handle_press : Kernel → ℕ → Result Kernel
unfolding press handle_disp alt_pressed is_func_key edit_line
handle_press k code =
    let disp = handle_disp k.keys (keycodes code) in
    let k1 = record k { keys = press k.keys code } in
    if alt_pressed k1.keys && is_func_key k1.keys
    then ok (
        if code == 59
        then switch_to k1 0
        else if code == 60
        then switch_to k1 1
        else if code == 61
        then switch_to k1 2
        else k1)
    else if not (k1.keys.key_state left_ctrl == 0) && code == key_l
    then clear k1
    else if (shown_terminal k1).read_flag == 0
    then ok k1
    else edit_line k1 disp

-- `handle_keypress`
unfoldable pub handle_keypress : Kernel → ℕ → Result Kernel
unfolding handle_press release
handle_keypress k scancode =
    if scancode == multibyte
    then ok (record k { keys = record (k.keys) { multi_byte = 1 } })
    else if not (k.keys.multi_byte == 0)
    then ok (record k { keys = record (k.keys) { multi_byte = 0 } })
    else if ltb 0 scancode && ltb scancode pressed_f12
    then handle_press k scancode
    else if ltb release_offset scancode && leb scancode released_f12
    then ok (record k { keys = release k.keys scancode })
    else ok k

-- `irqh_keyboard`; `status` and `code` are what the two ports read.
unfoldable pub irqh_keyboard : ℕ → ℕ → Interrupt
unfolding handle_keypress
irqh_keyboard status code k = do
  k1 ← (if bit_and status 1 == 0 then ok k else handle_keypress k code)
  ok (send_eoi k1 keyboard_irq)

abbrev set_read_flag : Kernel → ℕ → ℕ → Kernel
set_read_flag k i flag = set_terminal k i (record (k.terminals i) { read_flag = flag })

abbrev pub newline_at : Kernel → ℕ → ℤ
newline_at k i = contains_newline (k.terminals i).line_buf (pos line_buffer_size)

-- `get_line_buf` after its wait, with the newline at `nl`: the copy to the buffer of `cap` bytes, the
-- newline written at `buf[MIN(nbytes, LINE_BUFFER_SIZE)]`, and the reset of the line.
unfoldable pub take_line : Kernel → ℕ → ℕ → ℕ → ℕ → Result (Kernel × Filled)
unfolding clear_line_buf
take_line k i nl cap nbytes = do
  let limit = min (nl + 1) nbytes
  in_bounds (leb limit cap && ltb (min nbytes line_buffer_size) cap)
  k1 ← clear_line_buf k
  ok (set_read_flag k1 i 0, (slice (k.terminals i).line_buf 0 limit, pos limit))

-- `get_line_buf`; `buf` is the number of bytes that the buffer has, or `none` for a null pointer. The
-- bytes are those copied from the line. `none` means that no newline came with the interrupts given.
unfoldable pub get_line_buf :
    Kernel → Option ℕ → ℤ → List Interrupt → Result (Option (Kernel × Filled))
unfolding take_line contains_newline
get_line_buf k none nbytes irqs = ok (some (k, (List.[], minus_one)))
get_line_buf k (some cap) nbytes irqs = do
  term ← get_running_terminal k
  let refused : Result (Option (Kernel × Filled)) = ok (some (k, (List.[], minus_one)))
  let wait = λ (i : ℕ).
      spin (λ k'. not (eqb_ℤ (newline_at k' i) minus_one)) irqs (set_read_flag k i 1) >>= λ waited.
      elim waited [
        | none ↦ ok none
        | some k' ↦
            take_line k' i (pos_part (newline_at k' i)) cap (pos_part nbytes) >>= λ r. ok (some r)
      ]
  if not (ltb_ℤ (pos 0) nbytes) then refused else elim term [ none ↦ refused | some i ↦ wait i ]
