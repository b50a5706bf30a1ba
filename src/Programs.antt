-- ===== src/Programs.antt =====
-- The programs of syscalls/ and their support library, over the system calls that they make. A program
-- sees its buffers as lists of bytes and the kernel as an interface; the stubs of
-- syscalls/ece391syscall.S pass the calls on.
pub mod Support
pub mod Cat
pub mod Shell
pub mod Counter
pub mod Grep
pub mod Small
pub mod Pingpong
pub mod Syserr
use ece391_mp.Base.{ℕ, ◌+◌, ◌≤◌, ◌≡◌, List, ◌++◌, ℤ, pos, take, drop, length, min}

-- The system calls: what each returns, and for `getargs` and `read` the bytes that it leaves at the start
-- of the buffer.
pub record Os : Type 1 where
  pub State : Type 0
  pub getargs : State → ℕ → State × ℤ × List ℕ
  pub open_file : State → List ℕ → State × ℤ
  pub read : State → ℤ → ℕ → State × ℤ × List ℕ
  pub write : State → ℤ → List ℕ → ℤ → State × ℤ
  pub close_file : State → ℤ → State × ℤ
  pub execute : State → List ℕ → State × ℤ

-- What a write to the terminal does to what it shows.
pub record IsScreen (os : Os) (shown : os.State → List ℕ) : Type 0 where
  pub write-appends :
      (w : os.State) (bytes : List ℕ) (n : ℕ)
      → n ≤ length bytes
      → shown (os.write w (pos 1) bytes (pos n)).0 ≡ shown w ++ take n bytes

-- Descriptor 1 is the terminal, and a descriptor `fd` is a file that is read to its end, in the states that
-- are `Ready`: a read of 1 to 1024 bytes, which is what a buffer of the programs holds, gives the next
-- bytes, as many as are asked for and as are left, a write to the terminal appends to what it shows and
-- returns its length if that is not 0, and both lead to states that are `Ready`. Nothing is asked of a
-- read of no bytes, of the value that a write of no bytes returns, nor of the other states, in which the
-- descriptor may be closed or the position too near to the limit on the size of a file.
pub record IsFile (os : Os) (fd : ℤ) (Ready : os.State → Type 0) (left : os.State → List ℕ)
    (shown : os.State → List ℕ) : Type 0 where
  pub read-cnt :
      (w : os.State) (n : ℕ)
      → Ready w
      → 1 ≤ n
      → n ≤ 1024
      → (os.read w fd n).1 ≡ pos (min n (length (left w)))
  pub read-bytes :
      (w : os.State) (n : ℕ) → Ready w → 1 ≤ n → n ≤ 1024 → (os.read w fd n).2 ≡ take n (left w)
  pub read-left :
      (w : os.State) (n : ℕ)
      → Ready w
      → 1 ≤ n
      → n ≤ 1024
      → left (os.read w fd n).0 ≡ drop n (left w)
  pub read-shown :
      (w : os.State) (n : ℕ) → Ready w → 1 ≤ n → n ≤ 1024 → shown (os.read w fd n).0 ≡ shown w
  pub read-ready : (w : os.State) (n : ℕ) → Ready w → 1 ≤ n → n ≤ 1024 → Ready (os.read w fd n).0
  pub write-cnt :
      (w : os.State) (bytes : List ℕ) (n : ℕ)
      → Ready w
      → 1 ≤ n
      → n ≤ length bytes
      → (os.write w (pos 1) bytes (pos n)).1 ≡ pos n
  pub write-left :
      (w : os.State) (bytes : List ℕ) (n : ℕ)
      → Ready w
      → n ≤ length bytes
      → left (os.write w (pos 1) bytes (pos n)).0 ≡ left w
  pub write-shown :
      (w : os.State) (bytes : List ℕ) (n : ℕ)
      → Ready w
      → n ≤ length bytes
      → shown (os.write w (pos 1) bytes (pos n)).0 ≡ shown w ++ take n bytes
  pub write-ready :
      (w : os.State) (bytes : List ℕ) (n : ℕ)
      → Ready w
      → n ≤ length bytes
      → Ready (os.write w (pos 1) bytes (pos n)).0

-- A buffer once `bytes` stand in it from index `at` on.
abbrev pub store : List ℕ → ℕ → List ℕ → List ℕ
store buf at bytes = take at buf ++ (bytes ++ drop (at + length bytes) buf)
