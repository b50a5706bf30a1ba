-- ===== src/Kernel/Owns.antt =====
-- When a lookup by process id finds a given terminal.
use ece391_mp.Base.{ℕ, zero, suc, ◌+◌, ◌<◌, ◌≤◌, ◌≡◌, some, arith}
use ece391_mp.Kernel.{Kernel, terminal_num}
use ece391_mp.Kernel.Running.{find_terminal, get_terminal_from_pid}

-- What is found has the process id asked for.
find_terminal-pid :
    (k : Kernel) (pid rounds i j : ℕ)
    → find_terminal k pid rounds i ≡ some j
    → ((k.terminals j).pid ≡ pid) × (i ≤ j) × (j < i + rounds)
unfolding find_terminal
find_terminal-pid k pid zero i j e = cc
find_terminal-pid k pid (suc rounds) i j e =
    ground (arith, find_terminal-pid k pid rounds (i + 1) j)

pub get_terminal_from_pid-pid :
    (k : Kernel) (pid j : ℕ)
    → get_terminal_from_pid k pid ≡ some j
    → ((k.terminals j).pid ≡ pid) × (j < terminal_num)
unfolding get_terminal_from_pid
get_terminal_from_pid-pid k pid j e = ground (arith, find_terminal-pid k pid terminal_num 0 j)

-- The lookup reads nothing but the process ids of the terminals.
pub get_terminal_from_pid-cong :
    (k k' : Kernel) (pid : ℕ)
    → ((i : ℕ) → (k'.terminals i).pid ≡ (k.terminals i).pid)
    → get_terminal_from_pid k' pid ≡ get_terminal_from_pid k pid
unfolding get_terminal_from_pid find_terminal
get_terminal_from_pid-cong k k' pid same = rw (same 0, same 1, same 2)
