-- ===== src/Task/Failed.antt =====
-- A call of `execute` that fails.
use Prim.Native.Nat.{bit_or}
use ece391_mp.Base.{
  ℕ, ◌≡◌, refl, sym, ap, ◌∙◌, Bool, true, false, not, List, Option, none, some, Result, ok, fault,
  ◌>>=◌, if◌then◌else◌, bind_returned, pos, ℤ, eqb_ℤ, minus_one,
}
use ece391_mp.Kernel.{Kernel, Paging, max_pid_count, cli, sti}
use ece391_mp.Fs.{Filled, file_read_name}
use ece391_mp.Paging.{make_task_pgdir}
use ece391_mp.Task.{
  find_pid, pid_mask, enter_task, load_text, load_task, word_of, execute, Execution, Stack,
  is_executable,
}
use ece391_mp.Task.Execution.{failed, started}
use ece391_mp.Task.CommandLine.{Command, split_command}

-- What a call of `execute` that fails leaves alone.
pub record SameBlocks (k k' : Kernel) : Type 0 where
  pub blocks : k'.pcbs ≡ k.pcbs
  pub flag : k'.program_exception ≡ k.program_exception

-- A failure is the state before it with interrupts on.
failed-inj : (a b : Kernel) → Result.ok (failed a) ≡ ok (failed b) → a ≡ b
failed-inj a b e = cc

SameBlocks-failed :
    (k a b : Kernel) → SameBlocks k a → Result.ok (failed a) ≡ ok (failed b) → SameBlocks k b
SameBlocks-failed k a b h e =
    let same = failed-inj a b e in
    record {
      blocks = ap (λ q. q.pcbs) (sym same) ∙ h.blocks;
      flag = ap (λ q. q.program_exception) (sym same) ∙ h.flag;
    }

load_text-SameBlocks :
    (k : Kernel) (parent pid : ℕ) (cmd : Command) (stack : Stack) (entry : ℕ) (k' : Kernel)
    → load_text k parent pid cmd stack entry ≡ ok (failed k')
    → SameBlocks k k'
unfolding load_text
load_text-SameBlocks k parent pid cmd stack entry k' e =
    go (file_read_name k.fs (some cmd.bytes) true 0 0) (enter_task k parent pid cmd stack) e
  where
    branch :
        (b : Bool) (o : Result Kernel)
        → (if b then ok (failed (sti k)) else (o >>= λ k''. ok (started k'' entry)))
          ≡ ok (failed k')
        → SameBlocks k k'
    branch true o h = SameBlocks-failed k (sti k) k' (record { blocks = refl; flag = refl }) h
    branch false fault h = cc
    branch false (ok k'') h = cc

    go :
        (text : Result Filled) (o : Result Kernel)
        → (text >>= λ t.
            if eqb_ℤ t.1 minus_one
            then ok (failed (sti k))
            else (o >>= λ k''. ok (started k'' entry)))
          ≡ ok (failed k')
        → SameBlocks k k'
    go fault o h = cc
    go (ok t) o h = branch (eqb_ℤ t.1 minus_one) o h

load_task-SameBlocks :
    (k : Kernel) (parent pid : ℕ) (cmd : Command) (stack : Stack) (k' : Kernel)
    → load_task k parent pid cmd stack ≡ ok (failed k')
    → SameBlocks k k'
unfolding load_task
load_task-SameBlocks k parent pid cmd stack k' e =
    go (file_read_name k.fs (some cmd.bytes) true 24 4) (make_task_pgdir k.paging pid) e
  where
    k1 : Kernel
    k1 = record k { procs = bit_or k.procs (pid_mask pid); running_pid = pid }

    branch :
        (b b' : Bool) (p : Paging) (entry : ℕ)
        → (let k2 = record k1 { paging = p } in
            if b
            then ok (failed (sti k1))
            else if b'
            then ok (failed (sti k2))
            else load_text k2 parent pid cmd stack entry)
          ≡ ok (failed k')
        → SameBlocks k k'
    branch true b' p entry h =
        SameBlocks-failed k (sti k1) k' (record { blocks = refl; flag = refl }) h
    branch false true p entry h =
        SameBlocks-failed k (sti (record k1 { paging = p })) k'
          (record { blocks = refl; flag = refl }) h
    branch false false p entry h =
        let same =
          load_text-SameBlocks (record k1 { paging = p }) parent pid cmd stack entry k' h in
        record { blocks = same.blocks; flag = same.flag }

    go :
        (read : Result Filled) (made : Paging × ℤ)
        → (read >>= λ r.
            (let k2 = record k1 { paging = made.0 } in
              if not (eqb_ℤ r.1 (pos 4))
              then ok (failed (sti k1))
              else if not (eqb_ℤ made.1 (pos 0))
              then ok (failed (sti k2))
              else load_text k2 parent pid cmd stack (word_of r.0)))
          ≡ ok (failed k')
        → SameBlocks k k'
    go fault made h = cc
    go (ok r) made h =
        branch (not (eqb_ℤ r.1 (pos 4))) (not (eqb_ℤ made.1 (pos 0))) (made.0) (word_of r.0) h

-- A call of `execute` that returns to the code of the kernel has not written to any control block, nor
-- to the flag of the exception.
pub execute-SameBlocks :
    (k : Kernel) (ucmd : List ℕ) (stack : Stack) (k' : Kernel)
    → execute k (some ucmd) stack ≡ ok (failed k')
    → SameBlocks k k'
unfolding execute
execute-SameBlocks k ucmd stack k' e =
    let (cmd, _, e1) = bind_returned (split_command ucmd) _ e in
    let (good, _, e2) = bind_returned (is_executable k.fs cmd.bytes) _ e1 in
    go cmd good (find_pid k.procs max_pid_count 0) e2
  where
    refused : Result.ok (failed (sti (cli k))) ≡ ok (failed k') → SameBlocks k k'
    refused h = SameBlocks-failed k (sti (cli k)) k' (record { blocks = refl; flag = refl }) h

    go :
        (cmd : Command) (good : Bool) (o : Option ℕ)
        → (if not good then ok (failed (sti (cli k))) else elim o as (λ x. Result Execution) [
          | none ↦ ok (failed (sti (cli k)))
          | some pid ↦ load_task (cli k) k.running_pid pid cmd stack
        ])
          ≡ ok (failed k')
        → SameBlocks k k'
    go cmd false o h = refused h
    go cmd true none h = refused h
    go cmd true (some pid) h =
        let same = load_task-SameBlocks (cli k) k.running_pid pid cmd stack k' h in
        record { blocks = same.blocks; flag = same.flag }
