-- ===== src/TerminalDriver/Exchange.antt =====
-- The writes of a switch of the terminal, from a state in which the pages that it copies are mapped.
use ece391_mp.Base.{
  ℕ, ◌*◌, ◌%◌, ◌<◌, ◌≡◌, ◌≢◌, refl, ap, ◌∙◌, Bool, true, false, ◌||◌, Result, ok, ◌>>=◌, leb, ◌==◌,
  if◌then◌else◌, update, arith, leb_of_lt, ==_refl, lt→ltb,
}
use ece391_mp.Kernel.{
  Kernel, Terminal, set_terminal, get_current_pcb, cli, sti, terminal_num, task_running,
}
use ece391_mp.Paging.{map_vid_mem, map_page, num_proc}
use ece391_mp.Paging.Map.{Placed}
use ece391_mp.Screen.{
  video, move_bytes, set_video, on_video, set_screen_xy, set_cursor_location, num_cols, num_rows,
}
use ece391_mp.TerminalDriver.{restore_terminal, switch_terminal, map_screen}
use ece391_mp.TerminalDriver.Pages.{
  page_of, OwnPages, Mapped, map_page-Mapped, copied, move_bytes-copied,
}

-- The process that runs has tables through which the kernel reaches the pages of the terminals.
pub record ScreenReady (k : Kernel) : Type 0 where
  pub placed : Placed k.paging
  pub in_range : k.running_pid < num_proc
  pub block : (k.pcbs k.running_pid).pid ≡ k.running_pid
  pub own : OwnPages k.paging k.running_pid
  pub terminal : k.current_terminal < terminal_num
  pub pages : (i : ℕ) → i < 3 → (k.terminals i).vid_mem_buf ≡ page_of i
  pub columns : (i : ℕ) → i < 3 → (k.terminals i).screen_x < num_cols
  pub rows : (i : ℕ) → i < 3 → (k.terminals i).screen_y < num_rows
  pub column : k.screen.screen_x < num_cols
  pub row : k.screen.screen_y < num_rows

-- `map_vid_mem` of the screen's page, for a process id in range.
unfoldable pub mapped : Kernel → ℕ → ℕ → Kernel
mapped k pid pa = record k { paging = map_page k.paging pid video pa; interrupts_on = true }

map_vid_mem-mapped :
    (k : Kernel) (pid pa : ℕ) → pid < num_proc → (map_vid_mem k pid video pa).0 ≡ mapped k pid pa
unfolding map_vid_mem mapped
map_vid_mem-mapped k pid pa lt =
    let small : pid % 256 ≡ pid = omega arith in rw (small, leb_of_lt num_proc pid lt) refl

map_screen-mapped :
    (k : Kernel) (pid pa : ℕ) → pid < num_proc → map_screen k pid pa ≡ mapped k pid pa
map_screen-mapped k pid pa lt = map_vid_mem-mapped k pid pa lt

-- The second half of `restore_terminal`: the two copies between the mappings.
exchange : Kernel → ℕ → ℕ → ℕ → Result Kernel
exchange k pid prev_buf buf =
    (move_bytes (map_screen k pid video) prev_buf video 4000 >>= λ k3. move_bytes k3 video buf 4000)
    >>= λ k4. ok (map_screen k4 pid prev_buf)

unfoldable pub exchanged : Kernel → ℕ → ℕ → ℕ → Kernel
unfolding mapped
exchanged k pid prev_buf buf =
    mapped
      (set_video (mapped k pid video) (copied (copied k.screen.video prev_buf video) video buf)) pid
      prev_buf

page_of-on_video : (i : ℕ) → i < 3 → on_video (page_of i) ≡ true
page_of-on_video i lt = ground arith

page_of-aligned : (i : ℕ) → page_of i % 4096 ≡ 0
page_of-aligned i = omega arith

exchange-exchanged :
    (k : Kernel) (pid a b : ℕ)
    → Placed k.paging
    → pid < num_proc
    → OwnPages k.paging pid
    → a < 3
    → b < 3
    → exchange k pid (page_of a) (page_of b) ≡ ok (exchanged k pid (page_of a) (page_of b))
unfolding exchange exchanged mapped
exchange-exchanged k pid a b placed lt own la lb =
    let seen : Mapped (map_page k.paging pid video (0xB8 * 4096)) 0xB8 =
      map_page-Mapped k.paging pid 0xB8 placed lt own in
    let k3 = mapped k pid video in
    let v3 = copied k.screen.video (page_of a) video in
    let rest = λ (r : Result Kernel). r >>= λ k4. ok (map_screen k4 pid (page_of a)) in
    ap
      (λ m.
        rest (move_bytes m (page_of a) video 4000 >>= λ k'. move_bytes k' video (page_of b) 4000))
      (map_screen-mapped k pid video lt)
    ∙ ap (λ r. rest (r >>= λ k'. move_bytes k' video (page_of b) 4000))
        (move_bytes-copied k3 (page_of a) video (page_of a) video (page_of-aligned a) refl
          (seen.pages a la) (seen.screen) (page_of-on_video a la) refl)
    ∙ ap rest (
        move_bytes-copied (set_video k3 v3) video (page_of b) video (page_of b) refl
          (page_of-aligned b) (seen.screen) (seen.pages b lb) refl (page_of-on_video b lb))
    ∙ ap ok (map_screen-mapped _ pid (page_of a) lt)

-- The first half: the cursor is kept in the terminal on the screen, and the other's is taken.
unfoldable pub saving : Kernel → Kernel
saving k = set_terminal k k.current_terminal (record (k.terminals k.current_terminal) {
  screen_x = k.screen.screen_x;
  screen_y = k.screen.screen_y;
})

unfoldable pub placed_at : Kernel → ℕ → ℕ → Kernel
unfolding set_cursor_location
placed_at k x y =
    set_cursor_location (record k { screen = record (k.screen) { screen_x = x; screen_y = y } }) x y

set_screen_xy-placed_at :
    (k : Kernel) (x y : ℕ) → x < num_cols → y < num_rows → set_screen_xy k x y ≡ placed_at k x y
unfolding set_screen_xy placed_at
set_screen_xy-placed_at k x y lt lt' = rw (lt→ltb x num_cols lt, lt→ltb y num_rows lt') refl

unfoldable pub restored : Kernel → ℕ → Kernel
unfolding exchanged placed_at saving
restored k b =
    exchanged (placed_at (saving k) (k.terminals b).screen_x (k.terminals b).screen_y) k.running_pid
      (page_of k.current_terminal) (page_of b)

-- The writes of `restore_terminal` for a terminal that exists.
restore_with : Kernel → Terminal → Terminal → Result Kernel
restore_with k prev t =
    let k2 = set_screen_xy (saving k) t.screen_x t.screen_y in
    exchange k2 (get_current_pcb k2).pid prev.vid_mem_buf t.vid_mem_buf

restore_terminal-with :
    (k : Kernel) (b : ℕ)
    → b < 3
    → restore_terminal k b
      ≡ restore_with k ((saving k).terminals k.current_terminal) ((saving k).terminals b)
unfolding restore_terminal restore_with exchange saving
restore_terminal-with k b lt = rw (leb_of_lt terminal_num b lt) refl

restore_with-restored :
    (k : Kernel) (b : ℕ)
    → ScreenReady k
    → b < 3
    → restore_with k ((saving k).terminals k.current_terminal) (k.terminals b) ≡ ok (restored k b)
unfolding restore_with saving restored placed_at set_cursor_location
restore_with-restored k b r lt =
    let a = k.current_terminal in
    let t = k.terminals b in
    let k2 = placed_at (saving k) t.screen_x t.screen_y in
    let from =
      λ (k2 : Kernel) (prev_buf : ℕ). exchange k2 (get_current_pcb k2).pid prev_buf t.vid_mem_buf in
    let kept : (update k.terminals a
          (record (k.terminals a) { screen_x = k.screen.screen_x; screen_y = k.screen.screen_y })
          a).vid_mem_buf
        ≡ page_of a =
      rw (==_refl a) (r.pages a (r.terminal)) in
    ap (λ k2. from k2 ((saving k).terminals a).vid_mem_buf)
      (set_screen_xy-placed_at (saving k) t.screen_x t.screen_y (r.columns b lt) (r.rows b lt))
    ∙ ap (from k2) kept
    ∙ ap (λ p. exchange k2 p (page_of a) t.vid_mem_buf) (r.block)
    ∙ ap (exchange k2 k.running_pid (page_of a)) (r.pages b lt)
    ∙ exchange-exchanged k2 k.running_pid a b (r.placed) (r.in_range) (r.own) (r.terminal) lt

other_terminal :
    (k : Kernel) (b : ℕ) → b ≢ k.current_terminal → (saving k).terminals b ≡ k.terminals b
unfolding saving
other_terminal k b ne =
    let apart : (k.current_terminal == b) ≡ false = ground (arith, ne) in rw apart refl

restore_terminal-restored :
    (k : Kernel) (b : ℕ)
    → ScreenReady k
    → b < 3
    → b ≢ k.current_terminal
    → restore_terminal k b ≡ ok (restored k b)
restore_terminal-restored k b r lt ne =
    restore_terminal-with k b lt
    ∙ ap (restore_with k ((saving k).terminals k.current_terminal)) (other_terminal k b ne)
    ∙ restore_with-restored k b r lt

-- The last writes of `switch_terminal`.
unfoldable pub entered : Kernel → ℕ → Kernel
entered k b = sti (
    set_terminal (record k { current_terminal = b }) b
      (record (k.terminals b) { status = task_running }))

-- The body of `switch_terminal`, for the result of its test.
enter_if : Kernel → ℕ → Bool → Result Kernel
enter_if k b stays =
    if stays then ok k else (restore_terminal (cli k) b >>= λ k1. ok (entered k1 b))

switch_terminal-enter_if :
    (k : Kernel) (b : ℕ)
    → switch_terminal k b ≡ enter_if k b (k.current_terminal == b || leb terminal_num b)
unfolding switch_terminal enter_if entered
switch_terminal-enter_if k b = refl

switches :
    (k : Kernel) (b : ℕ)
    → b < 3
    → b ≢ k.current_terminal
    → (k.current_terminal == b || leb terminal_num b) ≡ false
switches k b lt ne = ground (arith, ne)

-- Switching the interrupts off changes nothing that the switch reads.
cli-ScreenReady : (k : Kernel) → ScreenReady k → ScreenReady (cli k)
cli-ScreenReady k r = record {
  placed = r.placed;
  in_range = r.in_range;
  block = r.block;
  own = r.own;
  terminal = r.terminal;
  pages = r.pages;
  columns = r.columns;
  rows = r.rows;
  column = r.column;
  row = r.row;
}

pub switch_terminal-entered :
    (k : Kernel) (b : ℕ)
    → ScreenReady k
    → b < 3
    → b ≢ k.current_terminal
    → switch_terminal k b ≡ ok (entered (restored (cli k) b) b)
unfolding enter_if
switch_terminal-entered k b r lt ne =
    switch_terminal-enter_if k b
    ∙ ap (enter_if k b) (switches k b lt ne)
    ∙ ap (λ m. m >>= λ k1. ok (entered k1 b))
        (restore_terminal-restored (cli k) b (cli-ScreenReady k r) lt ne)
