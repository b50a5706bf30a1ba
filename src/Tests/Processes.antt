-- ===== src/Tests/Processes.antt =====
-- Processes, their files, and the scheduler.
use Prim.Native.Nat.{bit_and, bit_or}
use ece391_mp.Base.{
  ℕ, ◌+◌, ◌%◌, ◌*◌, ◌∷◌, List, [], ◌≡◌, ◌≢◌, ◌<◌, ◌≤◌, refl, some, Result, ok, fault, pos, true,
  false, arith, if◌then◌else◌, ◌==◌, ℤ, minus_one, ◌⊎◌, none, Option,
}
use ece391_mp.Kernel.{Kernel, sti, fd_cnt, fd_start, max_pid_count, terminal_num, task_running}
use ece391_mp.Str.{i8_diff}
use ece391_mp.Fs.{DirEntry, read_dentry_by_name, read_data, file_read_name}
use ece391_mp.Files.{file_open}
use ece391_mp.Task.CommandLine.{split_command}
use ece391_mp.Syscall.{
  install_ops, ops_open, open_file, close, closed_fd, is_open, Buffer, read, write, vidmap,
}
use ece391_mp.Syscall.Fds.{FdsOk, fds_of, close-open_file}
use ece391_mp.Task.{initial_fds, execute, Execution, Stack, pid_mask, release_task, kernel_stack}
use ece391_mp.Task.Execution.{failed, started}
use ece391_mp.Task.Pids.{execute-Entered, Entered}
use ece391_mp.Task.Release.{release_task-frees, release_task-execute}
use ece391_mp.Pit.{next_running, lowest_child, switch_task, schedule}
use ece391_mp.Pit.Scheduled.{switched}
use ece391_mp.Pit.RoundRobin.{next_running-first, lowest_child-Descends, Descends}
use ece391_mp.Pit.Handler.{TreeOk, schedule-switches}
use ece391_mp.Pit.Display.{switch_task-screen}
use ece391_mp.Paging.{kb4, make_task_pgdir}
use ece391_mp.Paging.Mmu.{translate}
use ece391_mp.Screen.{video}
use ece391_mp.Syscall.Calls.{Reached, Reached-FdsOk, here, next, opens, closes}
use ece391_mp.Syscall.Refusals.{OnlyStandard, AllRefused, OnlyStandard-refuses}
use ece391_mp.Kernel.Spin.{Interrupt}
use ece391_mp.Tests.Machine.{machine}
use ece391_mp.Tests.Devices.{tables-Placed}

-- The name with its NUL.
abbrev shell : List ℕ
shell = 115 ∷ 104 ∷ 101 ∷ 108 ∷ 108 ∷ 0 ∷ []

abbrev opened_or : Result (Kernel × ℤ) → Kernel × ℤ
opened_or (ok r) = r
opened_or fault = (machine, pos 9)

abbrev opening : Kernel × ℤ
opening = opened_or (open_file machine (some shell))

open_file-opening : open_file machine (some shell) ≡ ok opening
unfolding open_file read_dentry_by_name i8_diff initial_fds install_ops ops_open file_open
open_file-opening = refl

opening-fd : opening.1 ≡ pos 2
unfolding open_file read_dentry_by_name i8_diff initial_fds install_ops ops_open file_open
opening-fd = refl

machine-FdsOk : FdsOk (fds_of machine)
unfolding initial_fds
machine-FdsOk = record { std_in = refl; std_out = refl; sound = λ i h. ground arith }

-- `shell` is opened, and then descriptor 5 is closed, which is not open.
two_calls : Reached machine (close opening.0 (pos 5)).0
two_calls =
    next (next here (opens machine (some shell) opening.0 opening.1 open_file-opening))
      (closes opening.0 (pos 5))

two_calls_example : FdsOk (fds_of (close opening.0 (pos 5)).0)
two_calls_example = Reached-FdsOk machine (close opening.0 (pos 5)).0 two_calls machine-FdsOk

close-open_file_example :
    ((close opening.0 opening.1).1 ≡ pos 0)
    × ((m : ℕ)
        → fds_of (close opening.0 opening.1).0 m ≡ (if 2 == m then closed_fd else fds_of machine m))
close-open_file_example =
    close-open_file machine (some shell) opening 2 open_file-opening opening-fd

abbrev caller : Stack
caller = record { esp = 0x7F0000; ebp = 0x7F0010 }

abbrev state_of : Result Execution → Kernel
state_of (ok (started k entry)) = k
state_of (ok (failed k)) = k
state_of fault = machine

abbrev pub in_shell : Kernel
in_shell = state_of (execute machine (some shell) caller)

execute-in_shell : execute machine (some shell) caller ≡ ok (started in_shell 0x08048000)
unfolding execute split_command read_dentry_by_name i8_diff read_data file_read_name make_task_pgdir
execute-in_shell = refl

execute_example :
    (pid : ℕ) × (pid < max_pid_count)
    × (bit_and (pid_mask pid) 0x80 ≡ 0)
    × ((q : ℕ) → q < pid → bit_and (pid_mask q) 0x80 ≢ 0)
    × Entered in_shell pid (bit_or 0x80 (pid_mask pid))
execute_example = execute-Entered machine shell caller in_shell 0x08048000 execute-in_shell

release_task-execute_example : (release_task in_shell).procs ≡ 0x80
release_task-execute_example =
    release_task-execute machine shell caller in_shell 0x08048000 in_shell (omega arith)
      execute-in_shell refl refl

release_task-frees_example :
    ((release_task machine).procs ≡ 0)
    × ((release_task machine).running_pid ≡ 0)
    × ((m : ℕ) → m < fd_start → fds_of (release_task machine) m ≡ fds_of machine m)
    × ((m : ℕ) → fd_start ≤ m → m < fd_cnt → is_open (fds_of (release_task machine) m) ≡ false)
release_task-frees_example = release_task-frees machine

next_running_example :
    (d : ℕ) × (d < terminal_num)
    × (next_running machine terminal_num 0 ≡ some ((1 + d) % terminal_num))
    × ((machine.terminals ((1 + d) % terminal_num)).status ≡ task_running)
    × ((e : ℕ) → e < d → (machine.terminals ((1 + e) % terminal_num)).status ≢ task_running)
next_running_example = next_running-first machine 0 2 (omega arith) (omega arith) refl

lowest_child_example : (q : ℕ) × (lowest_child machine 8 0 ≡ some q) × Descends machine 0 q
lowest_child_example = lowest_child-Descends machine (λ p. 0) 8 0 (λ q c e. cc) (omega arith)

switch_task_example :
    (k' : Kernel) × (switch_task machine 2 5 ≡ ok (switched k' 5))
    × (k'.running_pid ≡ 5)
    × (k'.esp0 ≡ kernel_stack 5)
    × ((off : ℕ) → off < kb4 → translate k'.paging (video + off) ≡ some (0xBB * 4096 + off, true))
switch_task_example = switch_task-screen machine 2 5 0xBB tables-Placed (omega arith) refl refl

-- The machine with a process 5 on terminal 2, which has started process 6.
abbrev two_programs : Kernel
two_programs = record machine {
  pcbs = λ p. if p == 5 then record (machine.pcbs 5) { child_pcb = some 6 } else machine.pcbs p;
  terminals = λ i.
      if i == 2 then record (machine.terminals 2) { pid = 5; running = 1 } else machine.terminals i;
}

abbrev rank_of : ℕ → ℕ
rank_of p = if p == 5 then 1 else 0

two_programs-TreeOk : TreeOk two_programs rank_of
two_programs-TreeOk = record {
  own = λ p lt. ground arith;
  falls = λ q c e. ground arith;
  below = λ q c e. ground arith;
}

schedule_example :
    (q : ℕ) × (k' : Kernel) × Descends two_programs 5 q
    × (schedule two_programs 2 caller ≡ ok (switched k' q))
    × (k'.running_pid ≡ q)
    × (k'.esp0 ≡ kernel_stack q)
    × ((off : ℕ) → off < kb4 → translate k'.paging (video + off) ≡ some (0xBB * 4096 + off, true))
schedule_example =
    schedule-switches two_programs 2 0xBB caller rank_of two_programs-TreeOk tables-Placed
      (omega arith) refl (omega arith) (omega arith) refl

machine-OnlyStandard : OnlyStandard machine
unfolding initial_fds
machine-OnlyStandard = record { fds_ok = machine-FdsOk; others_free = λ i lo hi. ground arith }

OnlyStandard_example :
    ((fd : ℤ) → fd ≢ pos 0 → fd ≢ pos 1 → AllRefused machine fd)
    × ((buf : Option Buffer) (nbytes : ℤ)
        → write machine (pos 0) buf nbytes ≡ ok (machine, minus_one))
    × ((buf : Option Buffer) (nbytes : ℤ) (stack : DirEntry) (irqs : List Interrupt)
        → (k' : Kernel) × (read machine (pos 1) buf nbytes stack irqs
            ≡ ok (some (k', ([], minus_one))))
          × ((k' ≡ machine) ⊎ (k' ≡ sti machine)))
    × ((i : ℕ) → i < 2 → close machine (pos i) ≡ (machine, minus_one))
    × ((address : ℕ) → address < 0x800000 → vidmap machine address ≡ ok (machine, none, minus_one))
OnlyStandard_example = OnlyStandard-refuses machine machine-OnlyStandard
