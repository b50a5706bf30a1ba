-- ===== src/Tests/Switching.antt =====
-- A switch from the first terminal to the second.
use ece391_mp.Base.{ℕ, ◌+◌, ◌<◌, ◌≡◌, ◌≢◌, refl, ok, arith}
use ece391_mp.Kernel.{Kernel}
use ece391_mp.Screen.{video}
use ece391_mp.TerminalDriver.{switch_terminal}
use ece391_mp.TerminalDriver.Pages.{page_of}
use ece391_mp.TerminalDriver.Exchange.{ScreenReady}
use ece391_mp.TerminalDriver.Switch.{
  Switched, switch_terminal-Switched, switch_terminal-switch_terminal,
}
use ece391_mp.Paging.Map.{Placed}
use ece391_mp.Tests.Machine.{seeing}

seeing-Placed : Placed seeing.paging
seeing-Placed = record { aligned = λ q h. omega arith; distinct = λ a b h h' e. omega arith }

seeing-ScreenReady : ScreenReady seeing
seeing-ScreenReady = record {
  placed = seeing-Placed;
  in_range = omega arith;
  block = refl;
  own = λ i h. refl;
  terminal = omega arith;
  pages = λ i h. omega arith;
  columns = λ i h. omega arith;
  rows = λ i h. omega arith;
  column = omega arith;
  row = omega arith;
}

second_is_other : 1 ≢ seeing.current_terminal
second_is_other = λ e. absurd (omega arith)

switch_terminal_example :
    (k' : Kernel) × (switch_terminal seeing 1 ≡ ok k') × Switched seeing 1 k' × ScreenReady k'
switch_terminal_example =
    switch_terminal-Switched seeing 1 seeing-ScreenReady (omega arith) second_is_other

back_again_example :
    (k' k'' : Kernel) × (switch_terminal seeing 1 ≡ ok k')
    × (switch_terminal k' 0 ≡ ok k'')
    × (k''.current_terminal ≡ 0)
    × (k''.screen.screen_x ≡ 0)
    × (k''.screen.screen_y ≡ 0)
    × ((off : ℕ)
        → off < 4000
        → (k''.screen.video (video + off) ≡ 0) × (k''.screen.video (page_of 1 + off) ≡ 0))
back_again_example =
    switch_terminal-switch_terminal seeing 1 seeing-ScreenReady (omega arith) second_is_other
