-- ===== src/Lib.antt =====
-- Verification of the kernel in student-distrib/: a file system in memory, processes with system
-- calls, paging, three terminals with a keyboard and a screen, a scheduler and a real-time clock.
--
-- The state. `Kernel` (Kernel.antt) is one record of the globals that more than one source file reads
-- or writes: the file system image, the bitmap `procs` and `running_pid`, the process control blocks
-- (`get_pcb` is the function `pcbs`), the terminals, the page tables with CR3, the masks of the
-- interrupt controllers, the bytes written to ports, video memory, and the state of the keyboard. An
-- array is a function from an index, and a pointer into an array is its index. A C function is a
-- function from the state and its arguments to the state and its return value. An access that the
-- code makes outside of every object that it may touch is the value `fault` of `Result`
-- (Base/Outcome). A number of w bits keeps its wrap-around as a remainder.
--
-- The parts, with the file that models each:
--   Fs (Fs/Image, Fs/Read), Files: student-distrib/fs.c and fs.h. `read_data` and its loop, the
--     directory lookups, the operations of open files. Fs/Contents says what a file's bytes are.
--   Kernel/Running: `get_terminal_from_pid` and `get_running_terminal` of terminal_driver.c.
--   Kernel/Spin: a loop that waits for an interrupt handler. The handlers that arrive are a list of
--     state changes, and the loop tests its condition between them.
--   I8259, Rtc, Paging, Pit: i8259.c, rtc.c, paging.c and pit.c. Paging/Mmu is the processor's
--     translation of an address, an independent reader of the tables that paging.c writes.
--   Mem, Str, Screen, Printf: lib.c. The memory functions are assembly, modelled loop by loop (Mem/Moved
--     and Mem/Filled describe memory in between). Str/Digits says what a string of digits denotes.
--     Printf/Render is the text of a format, apart from the screen, and
--     Printf/Shown what that text is.
--   Keyboard: keyboard.c, with the table of keyboard.h in Keyboard/Codes.
--   TerminalDriver: the rest of terminal_driver.c, but for `init_terminals`, which calls `execute`
--     and stands in Task/InitTerminals. TerminalDriver/Pages, Exchange and Switch follow the copies of a
--     switch of the terminal through the page tables.
--   Syscall: the calls of syscall.c on descriptors, `getargs` and `vidmap`. Task: `execute` and
--     `halt`, with the command line in Task/CommandLine. Task/Failed, Resume and Status follow a process
--     to its end.
--   Idt: the interrupt descriptors of idt.c; the addresses of the stubs of idt_asm.S are a parameter.
--     Exceptions: the handlers that its macros make. Dispatch: `irqh_syscall` of syscall.c.
--   Boot: `entry` of kernel.c from `init_i8259` on. Boot/Lines composes I8259 and Idt: which interrupt
--     lines are let through, and where they lead.
--   Programs: ece391support.c and the programs cat, shell, counter, grep, hello, testprint, ls,
--     pingpong and syserr of syscalls/. Their system calls are the record `Os` (`TestOs` for syserr),
--     and what the theorems assume of a kernel are `IsFile`, `IsScreen`, `IsClosable` and `IsStrict`.
--     Syscall/Refusals is about the same refusals in the kernel.
--   Tests: a small machine, and the theorems applied to it.
--
-- How they interact. `execute` reads a program through Fs, makes its tables through Paging and takes a
-- terminal; `halt` closes files through Syscall. `read` and `write` go through a table of operations
-- (`FileOps`) to Files, Rtc or TerminalDriver. The scheduler of Pit picks a terminal and maps the
-- screen through Paging; a key goes from Keyboard to the terminal on the screen.
--
-- Bounds and fuel. A `for` loop is recursion on the rounds that are left. The scheduler's loop over
-- the terminals has fuel 3, the number of terminals, and its search through child processes has fuel
-- 8, the number of processes; the theorems of Pit/RoundRobin say when these are enough.
-- `get_running_terminal` follows at most 8 parents, for the same reason. `itoa` has fuel 33, one more than
-- the digits of a 32-bit number in base 2, and `strrev` one more than the length of the string. The loop of
-- `cat` has fuel that is more than the length of the file, and the shell a number of rounds. The
-- loops of `grep` share one fuel, and a file of n lines needs n + 3. The `while (1)` of `pingpong`, which
-- never ends, is run for a number of rounds.
--
-- Not modelled. What follows the interrupt that a call of `set_handler` or `sigreturn` ends in; its handler
-- is one of Exceptions. Saved registers, stack switches and jumps to user code: `execute` returns the entry
-- point and `irqh_pit` the process that goes on. The contents of a program's memory. The assembly
-- stubs and the global descriptor table; what `entry` does before the devices are set up, which is
-- to print the boot loader's data while paging is off and to fill the descriptors of the task state;
-- the tests of the kernel; sigtest, which writes through a null pointer to raise a signal that
-- the kernel does not have; the fish demo, whose blinking is assembly; and the layers that emulate the
-- system calls on a host.
pub mod Base
pub mod Mem
pub mod Str
pub mod Fs
pub mod Kernel
pub mod I8259
pub mod Idt
pub mod Rtc
pub mod Paging
pub mod Screen
pub mod Printf
pub mod Keyboard
pub mod Files
pub mod TerminalDriver
pub mod Syscall
pub mod Task
pub mod Exceptions
pub mod Dispatch
pub mod Pit
pub mod Boot
pub mod Programs
pub mod Tests
