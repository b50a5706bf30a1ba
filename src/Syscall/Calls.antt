-- ===== src/Syscall/Calls.antt =====
-- The descriptors of a process over any sequence of its calls of `open` and `close`.
use ece391_mp.Base.{ℕ, ◌≡◌, List, Option, ok, ℤ}
use ece391_mp.Kernel.{Kernel}
use ece391_mp.Syscall.{open_file, close}
use ece391_mp.Syscall.Fds.{FdsOk, fds_of, open_file-FdsOk, close-FdsOk}

-- One call: of `open` with any name, or of `close` with any number.
pub data Call : Kernel → Kernel → Type 0 where
  opens :
      (k : Kernel) (filename : Option (List ℕ)) (k' : Kernel) (fd : ℤ)
      → open_file k filename ≡ ok (k', fd)
      → Call k k'
  closes : (k : Kernel) (fd : ℤ) → Call k (close k fd).0

-- The states that a sequence of calls leads to.
pub data Reached (k : Kernel) : Kernel → Type 0 where
  here : Reached k k
  next : {k' k'' : Kernel} → Reached k k' → Call k' k'' → Reached k k''

Call-FdsOk : {k k' : Kernel} → Call k k' → FdsOk (fds_of k) → FdsOk (fds_of k')
Call-FdsOk (opens k filename k' fd opened) v = open_file-FdsOk k filename (k', fd) opened v
Call-FdsOk (closes k fd) v = close-FdsOk k fd v

-- In every state that calls of `open` that return and calls of `close` lead to, in any order and with
-- any arguments, standard input and output are open, and every descriptor is in use exactly if it
-- has operations, if that is so at the start.
pub Reached-FdsOk : (k k' : Kernel) → Reached k k' → FdsOk (fds_of k) → FdsOk (fds_of k')
Reached-FdsOk k k' here v = v
Reached-FdsOk k k' (next before call) v = Call-FdsOk call (Reached-FdsOk k _ before v)
