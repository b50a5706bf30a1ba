-- ===== src/Programs/Pingpong.antt =====
-- syscalls/ece391pingpong.c
pub mod Frames
pub mod Shown
use ece391_mp.Base.{
  ℕ, zero, suc, ◌+◌, ◌-◌, ◌%◌, ◌==◌, List, [], ◌∷◌, Result, ok, ◌>>=◌, if◌then◌else◌, ℤ, pos,
  update, slice,
}
use ece391_mp.Programs.{Os}
use ece391_mp.Programs.Support.{ece391_fdputs}

-- `BUFMAX`, `STARTLOOP` and `LOOPMAX`, whose macros have no parentheses: 79 + 2, 1 + 1 and
-- 79 + 2 - 2 - 1.
abbrev pub buf_max : ℕ
buf_max = 81

abbrev pub start_loop : ℕ
start_loop = 2

abbrev pub loop_max : ℕ
loop_max = 78

-- for (; rounds; i++, rounds--) buf[i] = ' '
unfoldable pub blank_from : (ℕ → ℕ) → ℕ → ℕ → ℕ → ℕ
blank_from buf zero i = buf
blank_from buf (suc rounds) i = blank_from (update buf i 32) rounds (i + 1)

-- The buffer with its walls.
unfoldable pub walls : (ℕ → ℕ) → ℕ → ℕ
unfolding blank_from
walls buf =
    update
      (update (update (update (blank_from buf buf_max 0) (buf_max - 1) 0) (buf_max - 2) 10)
        (buf_max - 3) b'|')
      1 b'|'

-- The inner portion cleared, and the character drawn at `j`.
unfoldable pub drawn : (ℕ → ℕ) → ℕ → ℕ → ℕ → ℕ
unfolding blank_from
drawn buf c j = update (blank_from buf (loop_max - start_loop) start_loop) j c

-- "rtc"
abbrev pub rtc_name : List ℕ
rtc_name = b'r' ∷ b't' ∷ b'c' ∷ 0 ∷ []

-- The update of `curchar`, a `uint8_t`.
unfoldable pub next_char : ℕ → ℕ
next_char c = if c == b'Z' then b'A' else (c + 1) % 256

module _ (os : Os) (rtc_fd : ℤ) where
  -- What both loops do with the ball at `j`: draw it, print the buffer and wait for the clock.
  unfoldable pub show_ball : os.State → (ℕ → ℕ) → ℕ → ℕ → Result (os.State × (ℕ → ℕ))
  unfolding drawn ece391_fdputs
  show_ball w buf c j = do
    let buf1 = drawn buf c j
    w1 ← ece391_fdputs os w (pos 1) (slice buf1 0 buf_max)
    ok ((os.read w1 rtc_fd 4).0, buf1)

  -- The loops that move out and bounce back, with the rounds that are left.
  unfoldable pub move_out : ℕ → ℕ → os.State → (ℕ → ℕ) → ℕ → Result (os.State × (ℕ → ℕ))
  unfolding show_ball
  move_out zero j w buf c = ok (w, buf)
  move_out (suc rounds) j w buf c = show_ball w buf c j >>= λ s. move_out rounds (j + 1) s.0 s.1 c

  unfoldable pub bounce_back : ℕ → ℕ → os.State → (ℕ → ℕ) → ℕ → Result (os.State × (ℕ → ℕ))
  unfolding show_ball
  bounce_back zero j w buf c = ok (w, buf)
  bounce_back (suc rounds) j w buf c =
      show_ball w buf c j >>= λ s. bounce_back rounds (j - 1) s.0 s.1 c

  -- The `while (1)`, for a number of rounds, with `curchar`.
  unfoldable pub play : ℕ → os.State → (ℕ → ℕ) → ℕ → Result os.State
  play zero w buf c = ok w
  play (suc rounds) w buf c = do
    s1 ← move_out (loop_max - start_loop) start_loop w buf c
    s2 ← bounce_back (loop_max - start_loop) (loop_max - 1) (s1.0) (s1.1) c
    play rounds (s2.0) (s2.1) (next_char c)

-- `main`, which never returns: its state after a number of rounds.
unfoldable pub pingpong_main : (os : Os) → ℕ → os.State → (ℕ → ℕ) → Result os.State
pingpong_main os rounds w junk =
    let (w1, rtc_fd) = os.open_file w rtc_name in
    let w2 = (os.write w1 rtc_fd (32 ∷ 0 ∷ 0 ∷ 0 ∷ []) (pos 4)).0 in
    play os rtc_fd rounds w2 (walls junk) b'A'
