-- ===== src/Dispatch/Errors.antt =====
-- The types of system call that the kernel refuses, and those without a body.
use ece391_mp.Base.{
  ℕ, ◌≡◌, ◌<◌, ◌⊎◌, inl, inr, refl, sym, subst, true, List, [], ok, ltb, ◌==◌, ◌||◌, arith,
  minus_one, bind_returned, ok-inj, ◌∷◌,
}
use ece391_mp.Kernel.{Kernel}
use ece391_mp.Dispatch.{
  UserMemory, Environment, Reply, returns, crashes, call, nimpl, set_handler, sigreturn,
  irqh_syscall, nimpl_format, set_handler_name, sigreturn_name,
}
use ece391_mp.Printf.{text, word, printf}

-- What comes of `NIMPL` is a crash.
nimpl-crashes :
    (k : Kernel) (env : Environment) (function : List ℕ) (line : ℕ) (r : Reply)
    → nimpl k env function line ≡ ok r
    → (k' : Kernel) × (r ≡ crashes k')
unfolding nimpl
nimpl-crashes k env function line r e =
    let (printed, _, same) =
      bind_returned {A = Kernel × ℕ}
        (printf env.junk k nimpl_format (text function ∷ text env.file ∷ word line ∷ [])) _ e in
    (printed.0, sym (ok-inj _ _ same))

set_handler-crashes :
    (k : Kernel) (env : Environment) (r : Reply)
    → set_handler k env ≡ ok r
    → (k' : Kernel) × (r ≡ crashes k')
unfolding set_handler
set_handler-crashes k env r e = nimpl-crashes k env set_handler_name 518 r e

sigreturn-crashes :
    (k : Kernel) (env : Environment) (r : Reply)
    → sigreturn k env ≡ ok r
    → (k' : Kernel) × (r ≡ crashes k')
unfolding sigreturn
sigreturn-crashes k env r e = nimpl-crashes k env sigreturn_name 527 r e

irqh_syscall-refused :
    (k : Kernel) (mem : UserMemory) (env : Environment) (type a b c : ℕ)
    → (type == 0 || ltb 10 type) ≡ true
    → irqh_syscall k mem env type a b c ≡ ok (returns k [] minus_one)
unfolding irqh_syscall
irqh_syscall-refused k mem env type a b c refused = rw refused refl

irqh_syscall-crashes :
    (k : Kernel) (mem : UserMemory) (env : Environment) (type a b c : ℕ) (r : Reply)
    → (type ≡ 9) ⊎ (type ≡ 10)
    → irqh_syscall k mem env type a b c ≡ ok r
    → (k' : Kernel) × (r ≡ crashes k')
unfolding irqh_syscall call
irqh_syscall-crashes k mem env type a b c r (inl nine) e =
    set_handler-crashes k env r (subst (λ t. irqh_syscall k mem env t a b c ≡ ok r) nine e)
irqh_syscall-crashes k mem env type a b c r (inr ten) e =
    sigreturn-crashes k env r (subst (λ t. irqh_syscall k mem env t a b c ≡ ok r) ten e)

-- A call of a type that is not in the table, which is 0 or above 10, changes nothing and returns -1, for
-- all arguments. A call of one of the two types of signals, 9 and 10, returns no value to the program,
-- for all arguments: what comes of it, if printing the message is no fault, is a crash.
pub irqh_syscall-unsupported :
    (k : Kernel) (mem : UserMemory) (env : Environment) (type a b c : ℕ)
    → ((type < 1) ⊎ (10 < type) → irqh_syscall k mem env type a b c ≡ ok (returns k [] minus_one))
      × ((type ≡ 9) ⊎ (type ≡ 10)
          → (r : Reply) → irqh_syscall k mem env type a b c ≡ ok r
          → (k' : Kernel) × (r ≡ crashes k'))
irqh_syscall-unsupported k mem env type a b c = (
  λ h.
      irqh_syscall-refused k mem env type a b c
        (elim h [ inl none ↦ ground (arith, none) | inr large ↦ ground (arith, large) ]),
  λ signal r e. irqh_syscall-crashes k mem env type a b c r signal e,
)
