-- ===== src/Pit/RoundRobin.antt =====
-- The choice of `irqh_pit`: the next terminal, and the process of it that runs.
use ece391_mp.Base.{
  ℕ, zero, suc, ◌+◌, ◌-◌, ◌%◌, ◌<◌, ◌≡◌, ◌≢◌, refl, inl, inr, Bool, false, none, some, ◌==◌,
  if◌then◌else◌, arith, Bool-cases, Option-cases,
}
use ece391_mp.Kernel.{Kernel, terminal_num, task_running}
use ece391_mp.Pit.{next_running, lowest_child}

abbrev Runs : Kernel → ℕ → Type 0
Runs k i = (k.terminals i).status ≡ task_running

abbrev runs : Kernel → ℕ → Bool
runs k i = (k.terminals i).status == task_running

-- The terminal `d` steps behind the one after `c`.
abbrev after : ℕ → ℕ → ℕ
after c d = (c + 1 + d) % terminal_num

next_running-rounds :
    (k : Kernel) (c : ℕ)
    → c < terminal_num
    → next_running k terminal_num c ≡ (
        if runs k (after c 0)
        then some (after c 0)
        else if runs k (after c 1)
        then some (after c 1)
        else if runs k (after c 2)
        then some (after c 2)
        else none)
unfolding next_running
next_running-rounds k zero lt = refl
next_running-rounds k (suc zero) lt = refl
next_running-rounds k (suc (suc zero)) lt = refl
next_running-rounds k (suc (suc (suc c))) lt = absurd (omega arith)

-- Every terminal is one of the three behind `c`.
after-onto :
    (c j : ℕ) → j < terminal_num → c < terminal_num → (d : ℕ) × (d < terminal_num) × (after c d ≡ j)
after-onto c j lt lt' = ((j + 5 - c) % 3, omega arith, omega arith)

-- A terminal whose test failed is not running.
passed : (k : Kernel) (c d e : ℕ) → e ≡ d → runs k (after c d) ≡ false → ¬ Runs k (after c e)
passed k c d e same test = rw same (ground arith)

none_run :
    (k : Kernel) (c d j : ℕ)
    → runs k (after c 0) ≡ false
    → runs k (after c 1) ≡ false
    → runs k (after c 2) ≡ false
    → d < terminal_num
    → after c d ≡ j
    → ¬ Runs k j
none_run k c zero j h h' h'' lt e = rw (← e) (passed k c 0 0 refl h)
none_run k c (suc zero) j h h' h'' lt e = rw (← e) (passed k c 1 1 refl h')
none_run k c (suc (suc zero)) j h h' h'' lt e = rw (← e) (passed k c 2 2 refl h'')
none_run k c (suc (suc (suc d))) j h h' h'' lt e = absurd (omega arith)

two_passed :
    (k : Kernel) (c e : ℕ)
    → runs k (after c 0) ≡ false
    → runs k (after c 1) ≡ false
    → e < 2
    → ¬ Runs k (after c e)
two_passed k c zero h h' lt = passed k c 0 0 refl h
two_passed k c (suc zero) h h' lt = passed k c 1 1 refl h'
two_passed k c (suc (suc e)) h h' lt = absurd (omega arith)

-- The scheduler's loop ends as soon as one of the three terminals has the status of a running task. It
-- takes the first of them in the cyclic order behind the counter `c`: every terminal that it passes
-- over, after 1, ..., d steps, is not running.
pub next_running-first :
    (k : Kernel) (c j : ℕ)
    → c < terminal_num
    → j < terminal_num
    → (k.terminals j).status ≡ task_running
    → (d : ℕ) × (d < terminal_num)
      × (next_running k terminal_num c ≡ some ((c + 1 + d) % terminal_num))
      × ((k.terminals ((c + 1 + d) % terminal_num)).status ≡ task_running)
      × ((e : ℕ) → e < d → (k.terminals ((c + 1 + e) % terminal_num)).status ≢ task_running)
next_running-first k c j lt lt' runs_j = elim (Bool-cases (runs k (after c 0))) [
  | inl h ↦ (
    0,
    omega arith,
    rw (next_running-rounds k c lt, h) refl,
    ground arith,
    λ e below. absurd (omega arith),
  )
  | inr h ↦ elim (Bool-cases (runs k (after c 1))) [
    | inl h' ↦ (
      1,
      omega arith,
      rw (next_running-rounds k c lt, h, h') refl,
      ground arith,
      λ e below. passed k c 0 e (omega arith) h,
    )
    | inr h' ↦ elim (Bool-cases (runs k (after c 2))) [
      | inl h'' ↦ (
        2,
        omega arith,
        rw (next_running-rounds k c lt, h, h', h'') refl,
        ground arith,
        λ e below. two_passed k c e h h' below,
      )
      | inr h'' ↦
          (let (d, small, e) = after-onto c j lt' lt in
            absurd (none_run k c d j h h' h'' small e runs_j))
    ]
  ]
]

-- The chain of child processes ends, and its last member has no child.
pub data Descends (k : Kernel) : ℕ → ℕ → Type 0 where
  ends : (p : ℕ) → (k.pcbs p).child_pcb ≡ none → Descends k p p
  child : (p c q : ℕ) → (k.pcbs p).child_pcb ≡ some c → Descends k c q → Descends k p q

-- The scheduler's search for the process of a terminal that runs ends, for control blocks whose chains
-- of children have no cycle (`rank` falls from each process to its child, and is below the number of
-- processes where the search starts): it finds the last process of the chain of children.
pub lowest_child-Descends :
    (k : Kernel) (rank : ℕ → ℕ) (fuel p : ℕ)
    → ((q c : ℕ) → (k.pcbs q).child_pcb ≡ some c → rank c < rank q)
    → rank p < fuel
    → (q : ℕ) × (lowest_child k fuel p ≡ some q) × Descends k p q
unfolding lowest_child
lowest_child-Descends k rank zero p falls lt = absurd (omega arith)
lowest_child-Descends k rank (suc fuel) p falls lt = elim (Option-cases (k.pcbs p).child_pcb) [
  | inl last ↦ (p, ground arith, ends p last)
  | inr (c, next) ↦
      let (q, found, chain) =
        lowest_child-Descends k rank fuel c falls (omega (arith, falls p c next)) in
      (q, ground arith, child p c q next chain)
]
