-- ===== src/Dispatch.antt =====
-- student-distrib/syscall.c: `irqh_syscall`, the table of the system calls, and the calls that have no body yet.
pub mod Errors
use ece391_mp.Base.{
  ℕ, zero, suc, ◌%◌, Bool, not, List, [], ◌∷◌, ◌-◌, get_elem?, Option, none, some, Result, ok,
  fault, ◌>>=◌, ltb, ◌==◌, ◌||◌, if◌then◌else◌, ℤ, pos, minus_one, to_i32,
}
use ece391_mp.Fs.{DirEntry, Filled}
use ece391_mp.Kernel.{Kernel}
use ece391_mp.Kernel.Spin.{Interrupt}
use ece391_mp.Printf.{text, word, printf}
use ece391_mp.Syscall.{Buffer, read, write, open_file, close, getargs, vidmap}
use ece391_mp.Task.{Stack, Execution, Halted, execute, halt}

-- The memory of the program as the calls read it: what a pointer leads to. A null pointer leads nowhere.
pub record UserMemory : Type 0 where
  pub string_at : ℕ → Option (List ℕ)
  pub buffer_at : ℕ → Option Buffer

-- What the environment adds to a call: the stack of `execute`, what an uninitialised entry of a directory
-- holds, the interrupts that arrive while the call waits, the bytes that the buffers of `printf` hold
-- before, and the name of the source file as the compiler was given it, with its NUL.
pub record Environment : Type 0 where
  pub stack : Stack
  pub entry : DirEntry
  pub irqs : List Interrupt
  pub junk : ℕ → ℕ
  pub file : List ℕ

-- What comes of a call: a value for the program, with the bytes that were written to its buffer; a wait
-- that outlasts the interrupts; the address that `vidmap` gives; another program; the end of this one;
-- or the interrupt of a failed assertion, which a call without a body raises.
pub data Reply : Type 0 where
  returns : Kernel → List ℕ → ℤ → Reply
  waits : Reply
  maps : Kernel → Option ℕ → ℤ → Reply
  enters : Execution → Reply
  leaves : Halted → Reply
  crashes : Kernel → Reply

abbrev status : Kernel × ℤ → Reply
status r = returns r.0 [] r.1

abbrev waited : Option (Kernel × Filled) → Reply
waited none = waits
waited (some (k, (bytes, n))) = returns k bytes n

-- `NIMPL`: the message, with the names of the function and of the file and the line, and `crash`, which
-- raises interrupt 15 and does not return.
abbrev pub nimpl_format : List ℕ
nimpl_format =
    b'U' ∷ b'n' ∷ b'i' ∷ b'm' ∷ b'p' ∷ b'l' ∷ b'e' ∷ b'm' ∷ b'e' ∷ b'n' ∷ b't' ∷ b'e' ∷ b'd' ∷ 32
    ∷ b'f' ∷ b'u' ∷ b'n' ∷ b'c' ∷ b't' ∷ b'i' ∷ b'o' ∷ b'n' ∷ 32 ∷ 37 ∷ b's' ∷ b'@' ∷ 37 ∷ b's'
    ∷ b':' ∷ 37 ∷ b'd' ∷ 32 ∷ b'c' ∷ b'a' ∷ b'l' ∷ b'l' ∷ b'e' ∷ b'd' ∷ b'!' ∷ 10 ∷ 0 ∷ []

unfoldable pub nimpl : Kernel → Environment → List ℕ → ℕ → Result Reply
unfolding printf
nimpl k env function line = do
  r ← printf env.junk k nimpl_format (text function ∷ text env.file ∷ word line ∷ [])
  ok (crashes r.0)

-- The names that `__FUNCTION__` stands for.
abbrev pub set_handler_name : List ℕ
set_handler_name = b's' ∷ b'e' ∷ b't' ∷ 95 ∷ b'h' ∷ b'a' ∷ b'n' ∷ b'd' ∷ b'l' ∷ b'e' ∷ b'r' ∷ 0 ∷ []

abbrev pub sigreturn_name : List ℕ
sigreturn_name = b's' ∷ b'i' ∷ b'g' ∷ b'r' ∷ b'e' ∷ b't' ∷ b'u' ∷ b'r' ∷ b'n' ∷ 0 ∷ []

-- `set_handler` and `sigreturn`, which have no body but `NIMPL`.
unfoldable pub set_handler : Kernel → Environment → Result Reply
unfolding nimpl
set_handler k env = nimpl k env set_handler_name 518

unfoldable pub sigreturn : Kernel → Environment → Result Reply
unfolding nimpl
sigreturn k env = nimpl k env sigreturn_name 527

-- The functions that the table points to.
pub data Syscall : Type 0 where
  call_halt call_execute call_read call_write call_open : Syscall
  call_close call_getargs call_vidmap call_set_handler call_sigreturn : Syscall

-- `syscalls`
abbrev pub syscalls : List Syscall
syscalls =
    call_halt ∷ call_execute ∷ call_read ∷ call_write ∷ call_open ∷ call_close ∷ call_getargs
    ∷ call_vidmap ∷ call_set_handler ∷ call_sigreturn ∷ []

-- `func(arg1, arg2, arg3)`
unfoldable pub call : Kernel → UserMemory → Environment → Syscall → ℕ → ℕ → ℕ → Result Reply
unfolding read write open_file close getargs vidmap execute halt set_handler sigreturn
call k mem env call_halt a b c = halt k (a % 256) env.stack >>= λ h. ok (leaves h)
call k mem env call_execute a b c = execute k (mem.string_at a) env.stack >>= λ x. ok (enters x)
call k mem env call_read a b c =
    read k (to_i32 a) (mem.buffer_at b) (to_i32 c) env.entry env.irqs >>= λ r. ok (waited r)
call k mem env call_write a b c =
    write k (to_i32 a) (mem.buffer_at b) (to_i32 c) >>= λ r. ok (status r)
call k mem env call_open a b c = open_file k (mem.string_at a) >>= λ r. ok (status r)
call k mem env call_close a b c = ok (status (close k (to_i32 a)))
call k mem env call_getargs a b c =
    getargs k (not (a == 0)) (to_i32 b) >>= λ r. ok (returns k r.0 r.1)
call k mem env call_vidmap a b c = vidmap k a >>= λ r. ok (maps r.0 r.1 r.2)
call k mem env call_set_handler a b c = set_handler k env
call k mem env call_sigreturn a b c = sigreturn k env

-- `irqh_syscall`, with the type and the arguments in EAX, EBX, ECX and EDX. `SYSC_SIGRETURN` is 10.
unfoldable pub irqh_syscall : Kernel → UserMemory → Environment → ℕ → ℕ → ℕ → ℕ → Result Reply
unfolding call
irqh_syscall k mem env type a b c =
    if type == 0 || ltb 10 type
    then ok (status (k, minus_one))
    else elim (get_elem? syscalls (type - 1)) [
      | none ↦ fault
      | some func ↦ call k mem env func a b c
    ]
