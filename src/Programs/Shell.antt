-- ===== src/Programs/Shell.antt =====
-- syscalls/ece391shell.c
pub mod Commands
use ece391_mp.Base.{
  ℕ, zero, suc, ◌+◌, ◌-◌, ◌&&◌, Bool, true, false, List, [], ◌∷◌, ◌++◌, Option, none, some, Result,
  ok, fault, ◌>>=◌, ltb, ◌==◌, if◌then◌else◌, ℤ, pos, negsuc, minus_one, eqb_ℤ, get_elem?, pos_part,
  get_or, length, in_bounds, ◌>>◌,
}
use ece391_mp.Programs.{Os, store}
use ece391_mp.Programs.Support.{ece391_fdputs, ece391_strcmp}

abbrev pub starting : List ℕ
starting =
    b'S' ∷ b't' ∷ b'a' ∷ b'r' ∷ b't' ∷ b'i' ∷ b'n' ∷ b'g' ∷ b' ' ∷ b'3' ∷ b'9' ∷ b'1' ∷ b' ' ∷ b'S'
    ∷ b'h' ∷ b'e' ∷ b'l' ∷ b'l' ∷ 10 ∷ 0 ∷ []

abbrev pub prompt : List ℕ
prompt = b'3' ∷ b'9' ∷ b'1' ∷ b'O' ∷ b'S' ∷ b'>' ∷ b' ' ∷ 0 ∷ []

abbrev pub keyboard_failed : List ℕ
keyboard_failed =
    b'r' ∷ b'e' ∷ b'a' ∷ b'd' ∷ b' ' ∷ b'f' ∷ b'r' ∷ b'o' ∷ b'm' ∷ b' ' ∷ b'k' ∷ b'e' ∷ b'y' ∷ b'b'
    ∷ b'o' ∷ b'a' ∷ b'r' ∷ b'd' ∷ b' ' ∷ b'f' ∷ b'a' ∷ b'i' ∷ b'l' ∷ b'e' ∷ b'd' ∷ 10 ∷ 0 ∷ []

abbrev pub exit_command : List ℕ
exit_command = b'e' ∷ b'x' ∷ b'i' ∷ b't' ∷ 0 ∷ []

abbrev pub no_command : List ℕ
no_command =
    b'n' ∷ b'o' ∷ b' ' ∷ b's' ∷ b'u' ∷ b'c' ∷ b'h' ∷ b' ' ∷ b'c' ∷ b'o' ∷ b'm' ∷ b'm' ∷ b'a' ∷ b'n'
    ∷ b'd' ∷ 10 ∷ 0 ∷ []

abbrev pub by_exception : List ℕ
by_exception =
    b'p' ∷ b'r' ∷ b'o' ∷ b'g' ∷ b'r' ∷ b'a' ∷ b'm' ∷ b' ' ∷ b't' ∷ b'e' ∷ b'r' ∷ b'm' ∷ b'i' ∷ b'n'
    ∷ b'a' ∷ b't' ∷ b'e' ∷ b'd' ∷ b' ' ∷ b'b' ∷ b'y' ∷ b' ' ∷ b'e' ∷ b'x' ∷ b'c' ∷ b'e' ∷ b'p'
    ∷ b't' ∷ b'i' ∷ b'o' ∷ b'n' ∷ 10 ∷ 0 ∷ []

abbrev pub abnormally : List ℕ
abnormally =
    b'p' ∷ b'r' ∷ b'o' ∷ b'g' ∷ b'r' ∷ b'a' ∷ b'm' ∷ b' ' ∷ b't' ∷ b'e' ∷ b'r' ∷ b'm' ∷ b'i' ∷ b'n'
    ∷ b'a' ∷ b't' ∷ b'e' ∷ b'd' ∷ b' ' ∷ b'a' ∷ b'b' ∷ b'n' ∷ b'o' ∷ b'r' ∷ b'm' ∷ b'a' ∷ b'l'
    ∷ b'l' ∷ b'y' ∷ 10 ∷ 0 ∷ []

-- How a round of the loop of `main` ends: with the end of the program, or with the next round.
pub data Round (State : Type 0) : Type 0 where
  exits : State → ℤ → Round State
  again : State → List ℕ → Round State

-- `if (cnt > 0 && '\n' == buf[cnt - 1]) cnt--;`
unfoldable pub without_newline : List ℕ → ℕ → ℕ
without_newline buf cnt = if ltb 0 cnt && (get_or buf (cnt - 1) 0 == 10) then cnt - 1 else cnt

module _ (os : Os) where
  -- The message about what the program returned.
  unfoldable pub report : os.State → ℤ → Result os.State
  unfolding ece391_fdputs
  report w rval =
      if eqb_ℤ rval minus_one
      then ece391_fdputs os w (pos 1) no_command
      else if eqb_ℤ rval (pos 256)
      then ece391_fdputs os w (pos 1) by_exception
      else if eqb_ℤ rval (pos 0)
      then ok w
      else ece391_fdputs os w (pos 1) abnormally

  -- The line in the buffer, as a command.
  unfoldable pub run_line : os.State → List ℕ → Result (Round os.State)
  unfolding ece391_strcmp report
  run_line w buf = do
    order ← ece391_strcmp buf exit_command
    let (w1, rval) = os.execute w buf
    let run = report w1 rval >>= λ w2. ok (again w2 buf)
    if eqb_ℤ order (pos 0)
        then ok (exits w (pos 0))
        else if get_or buf 0 0 == 0
        then ok (again w buf)
        else run

  -- A round whose read gave `cnt`, from the removal of the newline on. The NUL that follows is written
  -- into a buffer of 1024 bytes; a negative count other than -1 writes in front of it.
  unfoldable pub enter_line : os.State → List ℕ → ℤ → Result (Round os.State)
  unfolding run_line without_newline ece391_fdputs
  enter_line w buf (pos cnt) =
      let at = without_newline buf cnt in
      in_bounds (ltb at 1024) >> run_line w (store buf at (0 ∷ []))
  enter_line w buf (negsuc zero) =
      ece391_fdputs os w (pos 1) keyboard_failed >>= λ w'. ok (exits w' (pos 3))
  enter_line w buf (negsuc (suc n)) = fault

  unfoldable pub shell_round : os.State → List ℕ → Result (Round os.State)
  unfolding enter_line ece391_fdputs
  shell_round w buf = do
    w1 ← ece391_fdputs os w (pos 1) prompt
    let (w2, cnt, bytes) = os.read w1 (pos 0) 1023
    enter_line w2 (store buf 0 bytes) cnt

  -- The loop, for a number of rounds; `none` if it still runs then.
  unfoldable pub shell_loop : ℕ → os.State → List ℕ → Result (Option (os.State × ℤ))
  unfolding shell_round
  shell_loop zero w buf = ok none
  shell_loop (suc rounds) w buf = shell_round w buf >>= λ r. elim r [
    | exits w' status ↦ ok (some (w', status))
    | again w' buf' ↦ shell_loop rounds w' buf'
  ]

  -- `main`
  unfoldable pub shell_main : ℕ → os.State → List ℕ → Result (Option (os.State × ℤ))
  unfolding shell_loop ece391_fdputs
  shell_main rounds w buf = ece391_fdputs os w (pos 1) starting >>= λ w1. shell_loop rounds w1 buf
