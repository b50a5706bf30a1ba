-- ===== src/Programs/Counter.antt =====
-- syscalls/ece391counter.c
pub mod Lines
use ece391_mp.Base.{
  ℕ, zero, suc, ◌+◌, List, [], ◌∷◌, Result, ok, fault, ◌>>=◌, ltb, ◌==◌, ◌||◌, ◌&&◌, if◌then◌else◌,
  ℤ, pos, negsuc, minus_one, slice, get_or, update, in_bounds, ◌>>◌, Option, none, some,
}
use ece391_mp.Programs.{Os, store}
use ece391_mp.Programs.Support.{ece391_fdputs, ece391_strlen, ece391_itoa}

abbrev pub question : List ℕ
question =
    b'E' ∷ b'n' ∷ b't' ∷ b'e' ∷ b'r' ∷ b' ' ∷ b't' ∷ b'h' ∷ b'e' ∷ b' ' ∷ b'T' ∷ b'e' ∷ b's' ∷ b't'
    ∷ b' ' ∷ b'N' ∷ b'u' ∷ b'm' ∷ b'b' ∷ b'e' ∷ b'r' ∷ b':' ∷ b' ' ∷ b'(' ∷ b'0' ∷ b')' ∷ b':'
    ∷ b' ' ∷ b'1' ∷ b'0' ∷ b'0' ∷ b',' ∷ b' ' ∷ b'(' ∷ b'1' ∷ b')' ∷ b':' ∷ b' ' ∷ b'1' ∷ b'0'
    ∷ b'0' ∷ b'0' ∷ b'0' ∷ b',' ∷ b' ' ∷ b'(' ∷ b'2' ∷ b')' ∷ b':' ∷ b' ' ∷ b'1' ∷ b'0' ∷ b'0'
    ∷ b'0' ∷ b'0' ∷ b'0' ∷ 10 ∷ 0 ∷ []

abbrev pub no_number : List ℕ
no_number =
    b'C' ∷ b'a' ∷ b'n' ∷ 39 ∷ b't' ∷ b' ' ∷ b'r' ∷ b'e' ∷ b'a' ∷ b'd' ∷ b' ' ∷ b't' ∷ b'h' ∷ b'e'
    ∷ b' ' ∷ b'n' ∷ b'u' ∷ b'm' ∷ b'b' ∷ b'e' ∷ b'r' ∷ b' ' ∷ b'f' ∷ b'r' ∷ b'o' ∷ b'm' ∷ b' '
    ∷ b'k' ∷ b'e' ∷ b'y' ∷ b'b' ∷ b'o' ∷ b'a' ∷ b'r' ∷ b'd' ∷ b'.' ∷ 10 ∷ 0 ∷ []

abbrev pub wrong_choice : List ℕ
wrong_choice =
    b'W' ∷ b'r' ∷ b'o' ∷ b'n' ∷ b'g' ∷ b' ' ∷ b'C' ∷ b'h' ∷ b'o' ∷ b'i' ∷ b'c' ∷ b'e' ∷ b'!' ∷ 10
    ∷ 0 ∷ []

-- The `switch` over `buf[0]`.
unfoldable pub max_of : ℕ → ℕ
max_of c = if c == b'0' then 100 else if c == b'1' then 10000 else if c == b'2' then 100000 else 0

module _ (os : Os) where
  -- The loop of `main`, with the rounds that are left; `buf` is the array, `rounds + i` is `max`.
  unfoldable pub count : ℕ → ℕ → os.State → (ℕ → ℕ) → Result os.State
  unfolding ece391_itoa ece391_fdputs
  count zero i w buf = ok w
  count (suc rounds) i w buf = do
    buf1 ← ece391_itoa (i + 1) 1024 buf 10
    w1 ← ece391_fdputs os w (pos 1) (slice buf1 0 1024)
    w2 ← ece391_fdputs os w1 (pos 1) (10 ∷ 0 ∷ [])
    count rounds (i + 1) w2 buf1

  -- `main` behind the read: the test of the choice, and the loop.
  unfoldable pub counter_choice : os.State → List ℕ → Result (os.State × ℤ)
  unfolding ece391_strlen count ece391_fdputs max_of
  counter_choice w buf = do
    len ← ece391_strlen buf
    let first = get_or buf 0 0
    let counted = count (max_of first) 0 w (λ i. get_or buf i 0) >>= λ w'. ok (w', pos 0)
    let refused = ece391_fdputs os w (pos 1) wrong_choice >>= λ w'. ok (w', pos 0)
    if ltb 2 len || ((len == 2) && (ltb first b'0' || ltb b'2' first)) then refused else counted

  unfoldable pub counter_read : os.State → List ℕ → ℤ → Result (os.State × ℤ)
  unfolding counter_choice ece391_fdputs
  counter_read w buf (pos cnt) =
      in_bounds (ltb cnt 1024) >> counter_choice w (store buf cnt (0 ∷ []))
  counter_read w buf (negsuc zero) = ece391_fdputs os w (pos 1) no_number >>= λ w'. ok (w', pos 3)
  counter_read w buf (negsuc (suc n)) = fault

  -- `main`
  unfoldable pub counter_main : os.State → List ℕ → Result (os.State × ℤ)
  unfolding counter_read ece391_fdputs
  counter_main w buf = do
    w1 ← ece391_fdputs os w (pos 1) question
    let (w2, cnt, bytes) = os.read w1 (pos 0) 1023
    counter_read w2 (store buf 0 bytes) cnt
