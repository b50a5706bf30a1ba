-- ===== src/Tests/Ending.antt =====
-- Programs that end, by `halt` and by an exception, and calls that the kernel refuses.
use ece391_mp.Base.{
  Bool, true, if◌then◌else◌, ◌==◌, ◌≡◌, refl, none, false, [], Result, ok, fault, ◌∷◌, ◌⊎◌, ◌<◌, ℕ,
  arith, minus_one,
}
use ece391_mp.Kernel.{Kernel}
use ece391_mp.Kernel.Running.{get_running_terminal, get_terminal_from_pid}
use ece391_mp.Paging.{make_task_pgdir, remove_task_pgdir, flush_tlb, task_tables}
use ece391_mp.Paging.Mmu.{translate}
use ece391_mp.Str.{i8_diff}
use ece391_mp.Fs.{read_dentry_by_name, read_data, file_read_name}
use ece391_mp.Syscall.{close}
use ece391_mp.Task.CommandLine.{split_command}
use ece391_mp.Task.{Halted, Stack, execute, halt, set_program_exception}
use ece391_mp.Task.Halted.{resumes, restarts}
use ece391_mp.Task.Status.{Ending, halt-Ended}
use ece391_mp.TerminalDriver.{new_terminal}
use ece391_mp.Screen.{putc}
use ece391_mp.Screen.Cursor.{OnScreen, Ensures, putc-OnScreen}
use ece391_mp.Dispatch.{UserMemory, Environment, Reply, returns, crashes, irqh_syscall}
use ece391_mp.Dispatch.Errors.{irqh_syscall-unsupported}
use ece391_mp.Exceptions.{ExcDfl, IntStack, exc_print, exc_handler}
use ece391_mp.Exceptions.Status.{exc_handler-Ended}
use ece391_mp.Tests.Machine.{machine}
use ece391_mp.Tests.Processes.{in_shell}

abbrev caller : Stack
caller = record { esp = 0x7F0000; ebp = 0x7F0010 }

abbrev result_of : Result Halted → Halted
result_of (ok h) = h
result_of fault = resumes machine

abbrev back : Halted
back = result_of (halt in_shell 5 caller)

halt-back : halt in_shell 5 caller ≡ ok back
unfolding halt get_running_terminal get_terminal_from_pid close execute split_command
    read_dentry_by_name i8_diff read_data file_read_name make_task_pgdir remove_task_pgdir flush_tlb
halt-back = refl

halt_example : Ending in_shell 5 caller back
halt_example = halt-Ended in_shell 5 caller back halt-back

-- The first process of the terminal on the screen.
abbrev first_shell : Kernel
first_shell = record in_shell {
  pcbs = λ p.
      if p == in_shell.running_pid
      then record (in_shell.pcbs p) { parent_pid = minus_one; parent_pcb = none }
      else in_shell.pcbs p;
}

-- Its end starts a new shell.
is_restart : Result Halted → Bool
is_restart (ok (restarts k entry)) = true
is_restart r = false

first_shell-restarts : is_restart (halt first_shell 0 caller) ≡ true
unfolding is_restart halt get_running_terminal get_terminal_from_pid close execute split_command
    read_dentry_by_name i8_diff read_data file_read_name make_task_pgdir remove_task_pgdir flush_tlb
    new_terminal
first_shell-restarts = refl

-- An exception without a message of its own.
abbrev plain : ExcDfl
plain = record { str = []; clr = false; has_errc = false }

abbrev frame : IntStack
frame = record { errc = 0; eip = 0x08048010; eflags = 0x202 }

abbrev zeros : ℕ → ℕ
zeros i = 0

abbrev thrown : Halted
thrown = result_of (exc_handler zeros in_shell plain frame caller)

handler-thrown : exc_handler zeros in_shell plain frame caller ≡ ok thrown
unfolding exc_handler putc get_running_terminal get_terminal_from_pid execute split_command
    read_dentry_by_name i8_diff read_data file_read_name make_task_pgdir translate task_tables close
    remove_task_pgdir flush_tlb
handler-thrown = refl

exc_handler_example :
    (k1 : Kernel) × (exc_print zeros in_shell plain frame ≡ ok k1)
    × (k1.pcbs ≡ in_shell.pcbs)
    × (k1.running_pid ≡ in_shell.running_pid)
    × Ending (set_program_exception k1 1) 1 caller thrown
exc_handler_example = exc_handler-Ended zeros in_shell plain frame caller thrown handler-thrown

putc_example : Ensures OnScreen (putc machine 10)
putc_example = putc-OnScreen machine 10 (record { column = omega arith; row = omega arith })

abbrev memory : UserMemory
memory = record { string_at = λ a. none; buffer_at = λ a. none }

abbrev environment : Environment
environment = record {
  stack = record { esp = 0; ebp = 0 };
  entry = machine.fs.direntries 0;
  irqs = [];
  junk = zeros;
  file = b's' ∷ 0 ∷ [];
}

abbrev signal : ℕ
signal = 9

unsupported_example :
    ((signal < 1) ⊎ (10 < signal)
      → irqh_syscall in_shell memory environment signal 1 2 3 ≡ ok (returns in_shell [] minus_one))
    × ((signal ≡ 9) ⊎ (signal ≡ 10)
        → (r : Reply) → irqh_syscall in_shell memory environment signal 1 2 3 ≡ ok r
        → (k' : Kernel) × (r ≡ crashes k'))
unsupported_example = irqh_syscall-unsupported in_shell memory environment signal 1 2 3

-- A call of `set_handler` crashes.
is_crash : Result Reply → Bool
is_crash (ok (crashes k)) = true
is_crash r = false

signal-crashes : is_crash (irqh_syscall in_shell memory environment signal 1 2 3) ≡ true
unfolding is_crash irqh_syscall putc get_running_terminal get_terminal_from_pid translate
    task_tables split_command read_dentry_by_name i8_diff read_data file_read_name make_task_pgdir
signal-crashes = refl
