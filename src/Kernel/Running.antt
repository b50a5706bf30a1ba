-- ===== src/Kernel/Running.antt =====
-- terminal_driver.c: `get_terminal_from_pid` and `get_running_terminal`.
use ece391_mp.Base.{
  ℕ, zero, suc, ◌+◌, Option, none, some, Result, ok, fault, ◌==◌, if◌then◌else◌, to_u32,
}
use ece391_mp.Kernel.{Kernel, Pcb, get_current_pcb, terminal_num, max_pid_count}

-- The loop of `get_terminal_from_pid`, with the rounds that are left.
unfoldable pub find_terminal : Kernel → ℕ → ℕ → ℕ → Option ℕ
find_terminal k pid zero i = none
find_terminal k pid (suc rounds) i =
    if (k.terminals i).pid == pid then some i else find_terminal k pid rounds (i + 1)

-- `get_terminal_from_pid`: the first terminal with that `pid`.
unfoldable pub get_terminal_from_pid : Kernel → ℕ → Option ℕ
unfolding find_terminal
get_terminal_from_pid k pid = find_terminal k pid terminal_num 0

-- The `while` loop of `get_running_terminal`, on fuel. Where `parent_pcb` is null the loop's
-- condition reads through it, which is a fault.
unfoldable pub climb : ℕ → Kernel → Pcb → Result (Option ℕ)
climb zero k pcb = fault
climb (suc fuel) k pcb = elim pcb.parent_pcb [
  | none ↦ fault
  | some parent ↦ elim (get_terminal_from_pid k (to_u32 pcb.parent_pid)) [
    | some i ↦ ok (some i)
    | none ↦ climb fuel k (k.pcbs parent)
  ]
]

-- `get_running_terminal`. A chain of parents has at most one link for each process.
unfoldable pub get_running_terminal : Kernel → Result (Option ℕ)
unfolding climb
get_running_terminal k =
    let pcb = get_current_pcb k in
    elim (get_terminal_from_pid k pcb.pid) [
      | some i ↦ ok (some i)
      | none ↦ elim pcb.parent_pcb [ none ↦ ok none | some parent ↦ climb max_pid_count k pcb ]
    ]
