-- ===== src/Exceptions/Status.antt =====
-- How an exception ends the program that caused it.
use ece391_mp.Base.{
  ℕ, ◌+◌, ◌*◌, ◌≡◌, refl, ◌∙◌, subst, Bool, true, false, List, [], ◌∷◌, Option, Result, ok, ◌==◌,
  if◌then◌else◌, bind_returned, ok-inj, inl, inr, Bool-cases, arith,
}
use ece391_mp.Kernel.{Kernel, cli, sti}
use ece391_mp.Kernel.Running.{get_running_terminal}
use ece391_mp.Screen.{
  putc, clear, hidden, show_at, buffer_of, blank_cells, set_terminal_screen_xy, set_screen_xy,
  num_rows, num_cols, video,
}
use ece391_mp.Screen.Terminals.{
  Kept, Keeps, putc-Keeps, blank_cells-Keeps, show_at-Kept, set_screen_xy-Kept,
}
use ece391_mp.Printf.{
  Arg, Mode, Output, nothing, character, string, puts, turn, Turn, ends, perform, printf_loop,
  printf,
}
use ece391_mp.Task.{Halted, Stack, set_program_exception}
use ece391_mp.Task.Status.{Ending, halt-Ended}
use ece391_mp.Exceptions.{ExcDfl, IntStack, exc_print, exc_handler, exc_format, exc_args}

-- The processes of a state, which printing does not write.
pub record SameProcesses (k k' : Kernel) : Type 0 where
  pub processes : k'.pcbs ≡ k.pcbs
  pub running : k'.running_pid ≡ k.running_pid

SameProcesses-trans :
    (k k1 k2 : Kernel) → SameProcesses k k1 → SameProcesses k1 k2 → SameProcesses k k2
SameProcesses-trans k k1 k2 a b = record {
  processes = b.processes ∙ a.processes;
  running = b.running ∙ a.running;
}

Kept-SameProcesses : (k k' : Kernel) → Kept k k' → SameProcesses k k'
Kept-SameProcesses k k' h = record { processes = h.processes; running = h.running }

-- What a piece of code keeps, it keeps in the state that it returns.
Keeps-ok :
    (k : Kernel) (r : Result Kernel) (k' : Kernel) → Keeps k r → r ≡ ok k' → SameProcesses k k'
Keeps-ok k r k' h e = Kept-SameProcesses k k' (subst (Keeps k) e h)

puts-SameProcesses : (s : List ℕ) (k k' : Kernel) → puts k s ≡ ok k' → SameProcesses k k'
unfolding puts
puts-SameProcesses [] k k' e = cc
puts-SameProcesses (c ∷ s) k k' e = elim (Bool-cases (c == 0)) [
  | inl last ↦
      let same : k ≡ k' = ok-inj _ _ (rw last at e) in
      subst (SameProcesses k) same (record { processes = refl; running = refl })
  | inr more ↦
      let (k1, put, rest) = bind_returned (putc k c) (λ q. puts q s) (rw more at e) in
      SameProcesses-trans k k1 k' (Keeps-ok k (putc k c) k1 (putc-Keeps k c) put)
        (puts-SameProcesses s k1 k' rest)
]

perform-SameProcesses : (out : Output) (k k' : Kernel) → perform k out ≡ ok k' → SameProcesses k k'
unfolding perform
perform-SameProcesses nothing k k' e =
    subst (SameProcesses k) (ok-inj _ _ e) (record { processes = refl; running = refl })
perform-SameProcesses (character c) k k' e = Keeps-ok k (putc k c) k' (putc-Keeps k c) e
perform-SameProcesses (string s) k k' e = puts-SameProcesses s k k' e

printf_loop-SameProcesses :
    (junk : ℕ → ℕ) (format : List ℕ) (mode : Mode) (k : Kernel) (args : List Arg) (n : ℕ)
    (r : Kernel × ℕ)
    → printf_loop junk format mode k args n ≡ ok r
    → SameProcesses k (r.0)
unfolding printf_loop
printf_loop-SameProcesses junk [] mode k args n r e = cc
printf_loop-SameProcesses junk (c ∷ format) mode k args n r e = elim (Bool-cases (ends mode c)) [
  | inl last ↦
      let same : (k, n) ≡ r = ok-inj _ _ (rw last at e) in
      subst (λ q. SameProcesses k (q.0)) same (record { processes = refl; running = refl })
  | inr more ↦
      let (t, _, e1) = bind_returned {A = Turn} (turn junk mode c args) _ (rw more at e) in
      let (k1, performed, e2) = bind_returned (perform k t.0) _ e1 in
      SameProcesses-trans k k1 (r.0) (perform-SameProcesses (t.0) k k1 performed)
        (printf_loop-SameProcesses junk format (t.1) k1 (t.2) (n + 1) r e2)
]

-- The end of `clear`, from the state `k1` with the blank screen.
cleared : Option ℕ → Bool → Kernel → Kernel
cleared term b k1 =
    let k2 =
      sti (set_terminal_screen_xy (show_at k1 (buffer_of k1 term)) k1.current_terminal 0 0) in
    set_screen_xy (if b then k2 else k1) 0 0

set_terminal-SameProcesses :
    (k : Kernel) (t x y : ℕ) → SameProcesses k (sti (set_terminal_screen_xy k t x y))
unfolding set_terminal_screen_xy
set_terminal-SameProcesses k t x y = record { processes = ground arith; running = ground arith }

cleared-SameProcesses :
    (term : Option ℕ) (b : Bool) (k1 : Kernel) → SameProcesses k1 (cleared term b k1)
unfolding cleared
cleared-SameProcesses term false k1 = Kept-SameProcesses k1 _ (set_screen_xy-Kept k1 0 0)
cleared-SameProcesses term true k1 =
    let shown = show_at k1 (buffer_of k1 term) in
    let k2 = sti (set_terminal_screen_xy shown k1.current_terminal 0 0) in
    SameProcesses-trans k1 k2 (set_screen_xy k2 0 0)
      (SameProcesses-trans k1 shown k2
        (Kept-SameProcesses k1 shown (show_at-Kept k1 (buffer_of k1 term)))
        (set_terminal-SameProcesses shown k1.current_terminal 0 0))
      (Kept-SameProcesses k2 _ (set_screen_xy-Kept k2 0 0))

hidden_first : Bool → Kernel → Kernel
hidden_first b k = if b then show_at (cli k) video else k

hidden_first-SameProcesses : (b : Bool) (k : Kernel) → SameProcesses k (hidden_first b k)
unfolding hidden_first
hidden_first-SameProcesses false k = record { processes = refl; running = refl }
hidden_first-SameProcesses true k =
    let h = show_at-Kept (cli k) video in record { processes = h.processes; running = h.running }

clear-SameProcesses : (k k' : Kernel) → clear k ≡ ok k' → SameProcesses k k'
unfolding clear cleared hidden_first
clear-SameProcesses k k' e =
    let (term, _, e1) = bind_returned (get_running_terminal k) _ e in
    let first = hidden_first (hidden k term) k in
    let (k1, blanked, e2) = bind_returned (blank_cells first (num_rows * num_cols) 0) _ e1 in
    SameProcesses-trans k k1 k'
      (SameProcesses-trans k first k1 (hidden_first-SameProcesses (hidden k term) k) (
        Keeps-ok first (blank_cells first (num_rows * num_cols) 0) k1
          (blank_cells-Keeps first (num_rows * num_cols) 0) blanked))
      (subst (SameProcesses k1) (ok-inj _ _ e2) (cleared-SameProcesses term (hidden k term) k1))

clear_if-SameProcesses :
    (b : Bool) (k k' : Kernel) → (if b then clear k else ok k) ≡ ok k' → SameProcesses k k'
clear_if-SameProcesses true k k' e = clear-SameProcesses k k' e
clear_if-SameProcesses false k k' e =
    subst (SameProcesses k) (ok-inj _ _ e) (record { processes = refl; running = refl })

exc_print-SameProcesses :
    (junk : ℕ → ℕ) (k k' : Kernel) (x : ExcDfl) (frame : IntStack)
    → exc_print junk k x frame ≡ ok k'
    → SameProcesses k k'
unfolding exc_print printf
exc_print-SameProcesses junk k k' x frame e =
    let (k1, first, e1) = bind_returned (if x.clr then clear k else ok k) _ e in
    let (r, printed, e2) =
      bind_returned {A = Kernel × ℕ} (printf junk k1 (exc_format x) (exc_args x frame)) _ e1 in
    SameProcesses-trans k k1 k' (clear_if-SameProcesses (x.clr) k k1 first) (
      subst (SameProcesses k1) (ok-inj _ _ e2) (
        printf_loop-SameProcesses junk (exc_format x) Mode.outside k1 (exc_args x frame) 0 r
          printed))

-- An exception that leaves the program prints its message in a state `k1` with the processes that were
-- there, and the program that ran then ends in one of the ways of `halt`, with the flag of the exception
-- set: its own parent finds 256 as its status, or a shell takes its place.
pub exc_handler-Ended :
    (junk : ℕ → ℕ) (k : Kernel) (x : ExcDfl) (frame : IntStack) (stack : Stack) (h : Halted)
    → exc_handler junk k x frame stack ≡ ok h
    → (k1 : Kernel) × (exc_print junk k x frame ≡ ok k1)
      × (k1.pcbs ≡ k.pcbs)
      × (k1.running_pid ≡ k.running_pid)
      × Ending (set_program_exception k1 1) 1 stack h
unfolding exc_handler set_program_exception
exc_handler-Ended junk k x frame stack h e =
    let (k1, printed, ended) = bind_returned (exc_print junk k x frame) _ e in
    let same = exc_print-SameProcesses junk k k1 x frame printed in
    (
      k1,
      printed,
      same.processes,
      same.running,
      halt-Ended (set_program_exception k1 1) 1 stack h ended,
    )
