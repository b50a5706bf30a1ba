-- ===== src/Programs/Small.antt =====
-- syscalls/ece391hello.c, ece391testprint.c and ece391ls.c
use ece391_mp.Base.{
  ℕ, zero, suc, List, [], ◌∷◌, Result, ok, fault, ◌>>=◌, ◌>>◌, in_bounds, ltb, ℤ, pos, negsuc,
  minus_one,
}
use ece391_mp.Programs.{Os, store}
use ece391_mp.Programs.Support.{ece391_fdputs}

abbrev pub name_question : List ℕ
name_question =
    b'H' ∷ b'i' ∷ b',' ∷ 32 ∷ b'w' ∷ b'h' ∷ b'a' ∷ b't' ∷ 39 ∷ b's' ∷ 32 ∷ b'y' ∷ b'o' ∷ b'u' ∷ b'r'
    ∷ 32 ∷ b'n' ∷ b'a' ∷ b'm' ∷ b'e' ∷ b'?' ∷ 32 ∷ 0 ∷ []

abbrev pub no_name : List ℕ
no_name =
    b'C' ∷ b'a' ∷ b'n' ∷ 39 ∷ b't' ∷ 32 ∷ b'r' ∷ b'e' ∷ b'a' ∷ b'd' ∷ 32 ∷ b'n' ∷ b'a' ∷ b'm' ∷ b'e'
    ∷ 32 ∷ b'f' ∷ b'r' ∷ b'o' ∷ b'm' ∷ 32 ∷ b'k' ∷ b'e' ∷ b'y' ∷ b'b' ∷ b'o' ∷ b'a' ∷ b'r' ∷ b'd'
    ∷ b'.' ∷ 10 ∷ 0 ∷ []

abbrev pub hello : List ℕ
hello = b'H' ∷ b'e' ∷ b'l' ∷ b'l' ∷ b'o' ∷ b',' ∷ 32 ∷ 0 ∷ []

abbrev pub it_ran : List ℕ
it_ran =
    b'H' ∷ b'e' ∷ b'l' ∷ b'l' ∷ b'o' ∷ b',' ∷ 32 ∷ b'i' ∷ b'f' ∷ 32 ∷ b't' ∷ b'h' ∷ b'i' ∷ b's' ∷ 32
    ∷ b'r' ∷ b'a' ∷ b'n' ∷ b',' ∷ 32 ∷ b't' ∷ b'h' ∷ b'e' ∷ 32 ∷ b'p' ∷ b'r' ∷ b'o' ∷ b'g' ∷ b'r'
    ∷ b'a' ∷ b'm' ∷ 32 ∷ b'w' ∷ b'a' ∷ b's' ∷ 32 ∷ b'c' ∷ b'o' ∷ b'r' ∷ b'r' ∷ b'e' ∷ b'c' ∷ b't'
    ∷ b'.' ∷ 32 ∷ b'Y' ∷ b'a' ∷ b'y' ∷ b'!' ∷ 10 ∷ 0 ∷ []

module _ (os : Os) where
  -- `main` of hello behind the read, into a buffer of 1024 bytes.
  unfoldable pub hello_read : os.State → List ℕ → ℤ → Result (os.State × ℤ)
  unfolding ece391_fdputs
  hello_read w buf (negsuc zero) = ece391_fdputs os w (pos 1) no_name >>= λ w'. ok (w', pos 3)
  hello_read w buf (negsuc (suc n)) = fault
  hello_read w buf (pos cnt) = do
    in_bounds (ltb cnt 1024)
    w1 ← ece391_fdputs os w (pos 1) hello
    w2 ← ece391_fdputs os w1 (pos 1) (store buf cnt (0 ∷ []))
    ok (w2, pos 0)

  -- `main` of hello
  unfoldable pub hello_main : os.State → List ℕ → Result (os.State × ℤ)
  unfolding hello_read ece391_fdputs
  hello_main w buf = do
    w1 ← ece391_fdputs os w (pos 1) name_question
    let (w2, cnt, bytes) = os.read w1 (pos 0) 1023
    hello_read w2 (store buf 0 bytes) cnt

  -- `main` of testprint
  unfoldable pub testprint_main : os.State → Result (os.State × ℤ)
  unfolding ece391_fdputs
  testprint_main w = ece391_fdputs os w (pos 1) it_ran >>= λ w'. ok (w', pos 0)

-- `main` of ls, which returns before it does anything.
unfoldable pub ls_main : (os : Os) → os.State → os.State × ℤ
ls_main os w = (w, minus_one)
