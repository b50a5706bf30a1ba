-- ===== src/Tests/Typing.antt =====
-- A key pressed on a terminal whose screen is mapped.
use ece391_mp.Base.{[], ◌≡◌, refl, Result, ok, fault, false}
use ece391_mp.Kernel.{Kernel}
use ece391_mp.Kernel.Running.{get_running_terminal, get_terminal_from_pid}
use ece391_mp.Paging.Mmu.{translate}
use ece391_mp.Screen.{putc}
use ece391_mp.Keyboard.{edit_line}
use ece391_mp.Keyboard.Line.{Typed, edit_line-Typed, typed}
use ece391_mp.Tests.Machine.{machine, seeing}

abbrev state_or : Result Kernel → Kernel
state_or (ok k) = k
state_or fault = machine

abbrev after_key : Kernel
after_key = state_or (edit_line seeing 97)

edit_line-after_key : edit_line seeing 97 ≡ ok after_key
unfolding edit_line putc get_running_terminal get_terminal_from_pid translate
edit_line-after_key = refl

edit_line_example : Typed seeing after_key (typed false 97 [])
edit_line_example = edit_line-Typed seeing 97 after_key edit_line-after_key
