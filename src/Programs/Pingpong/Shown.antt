-- ===== src/Programs/Pingpong/Shown.antt =====
-- What `pingpong` shows after some rounds.
use ece391_mp.Base.{
  ℕ, zero, suc, ◌+◌, ◌-◌, ◌≤◌, ◌<◌, ◌≡◌, ◌≢◌, refl, sym, ap, ap₂, ◌∙◌, slice-ext, List, [], ◌∷◌,
  ◌++◌, Result, ok, ◌>>=◌, ◌==◌, if◌then◌else◌, ℤ, pos, arith, append-nil, append_assoc,
}
use ece391_mp.Programs.{Os, IsScreen}
use ece391_mp.Programs.Counter.Lines.{fdputs-shown}
use ece391_mp.Programs.Pingpong.{
  walls, drawn, next_char, show_ball, move_out, bounce_back, play, pingpong_main, rtc_name,
}
use ece391_mp.Programs.Pingpong.Frames.{
  frame, frame_text, rightward, leftward, game, HasWalls, drawn-frame, drawn-HasWalls,
  walls-HasWalls, drawn-IsString,
}

module _ (os : Os) (fd : ℤ) (shown : os.State → List ℕ) (screen : IsScreen os shown)
    (waits : (w : os.State) → shown (os.read w fd 4).0 ≡ shown w) where
  -- A part of the program that shows some frames and keeps the walls.
  Shows : os.State → List ℕ → Result (os.State × (ℕ → ℕ)) → Type 0
  Shows w text r =
      (s : os.State × (ℕ → ℕ)) × (r ≡ ok s) × (shown s.0 ≡ shown w ++ text) × HasWalls s.1

  show_ball-Shows :
      (w : os.State) (buf : ℕ → ℕ) (c j : ℕ)
      → HasWalls buf
      → c ≢ 0
      → 2 ≤ j
      → j < 78
      → Shows w (frame_text c j) (show_ball os fd w buf c j)
  unfolding Shows show_ball
  show_ball-Shows w buf c j h some_c lo hi =
      let buf1 = drawn buf c j in
      let (w1, put, shows) =
        fdputs-shown os shown screen w buf1 81 80 (drawn-IsString buf c j h some_c lo hi) in
      (
        ((os.read w1 fd 4).0, buf1),
        ap (λ m. m >>= λ w2. ok ((os.read w2 fd 4).0, buf1)) put,
        waits w1
            ∙ shows
            ∙ ap (λ t. shown w ++ t)
                (slice-ext buf1 (frame c j) 0 80
                  (λ i le lt. drawn-frame buf c j i h lo hi (omega arith))),
        drawn-HasWalls buf c j h lo hi,
      )

  Shows-then :
      (w : os.State) (a b : List ℕ) (r : Result (os.State × (ℕ → ℕ)))
      (f : os.State × (ℕ → ℕ) → Result (os.State × (ℕ → ℕ)))
      → Shows w a r
      → ((s : os.State × (ℕ → ℕ)) → HasWalls s.1 → Shows s.0 b (f s))
      → Shows w (a ++ b) (r >>= f)
  unfolding Shows
  Shows-then w a b r f (s, returned, shows, h) next =
      let (s', ended, shows', h') = next s h in
      (
        s',
        ap (λ m. m >>= f) returned ∙ ended,
        shows' ∙ ap (λ t. t ++ b) shows ∙ append_assoc (shown w) a b,
        h',
      )

  stop : (w : os.State) (buf : ℕ → ℕ) → HasWalls buf → Shows w [] (ok (w, buf))
  unfolding Shows
  stop w buf h = ((w, buf), refl, sym (append-nil (shown w)), h)

  move_out-Shows :
      (rounds j : ℕ) (w : os.State) (buf : ℕ → ℕ) (c : ℕ)
      → HasWalls buf
      → c ≢ 0
      → 2 ≤ j
      → j + rounds ≤ 78
      → Shows w (rightward c rounds j) (move_out os fd rounds j w buf c)
  unfolding rightward move_out
  move_out-Shows zero j w buf c h some_c lo hi = stop w buf h
  move_out-Shows (suc rounds) j w buf c h some_c lo hi =
      Shows-then w (frame_text c j) (rightward c rounds (j + 1)) (show_ball os fd w buf c j)
        (λ s. move_out os fd rounds (j + 1) s.0 s.1 c)
        (show_ball-Shows w buf c j h some_c lo (omega arith))
        (λ s h'. move_out-Shows rounds (j + 1) s.0 s.1 c h' some_c (omega arith) (omega arith))

  bounce_back-Shows :
      (rounds j : ℕ) (w : os.State) (buf : ℕ → ℕ) (c : ℕ)
      → HasWalls buf
      → c ≢ 0
      → rounds + 1 ≤ j
      → j < 78
      → Shows w (leftward c rounds j) (bounce_back os fd rounds j w buf c)
  unfolding leftward bounce_back
  bounce_back-Shows zero j w buf c h some_c lo hi = stop w buf h
  bounce_back-Shows (suc rounds) j w buf c h some_c lo hi =
      Shows-then w (frame_text c j) (leftward c rounds (j - 1)) (show_ball os fd w buf c j)
        (λ s. bounce_back os fd rounds (j - 1) s.0 s.1 c)
        (show_ball-Shows w buf c j h some_c (omega arith) hi)
        (λ s h'. bounce_back-Shows rounds (j - 1) s.0 s.1 c h' some_c (omega arith) (omega arith))

  next_char-letter :
      (c : ℕ)
      → b'A' ≤ c
      → c ≤ b'Z'
      → (next_char c ≡ (if c == b'Z' then b'A' else c + 1))
        × (b'A' ≤ next_char c)
        × (next_char c ≤ b'Z')
  unfolding next_char
  next_char-letter c lo hi = (ground arith, ground arith, ground arith)

  play-game :
      (rounds : ℕ) (w : os.State) (buf : ℕ → ℕ) (c : ℕ)
      → HasWalls buf
      → b'A' ≤ c
      → c ≤ b'Z'
      → (w' : os.State) × (play os fd rounds w buf c ≡ ok w')
        × (shown w' ≡ shown w ++ game rounds c)
  unfolding play game Shows
  play-game zero w buf c h lo hi = (w, refl, sym (append-nil (shown w)))
  play-game (suc rounds) w buf c h lo hi =
      let some_c : c ≢ 0 = λ e. absurd (omega arith) in
      let (s1, out, shows1, h1) =
        move_out-Shows 76 2 w buf c h some_c (omega arith) (omega arith) in
      let (s2, back, shows2, h2) =
        bounce_back-Shows 76 77 s1.0 s1.1 c h1 some_c (omega arith) (omega arith) in
      let (next, lo', hi') = next_char-letter c lo hi in
      let (w', rest, shows3) = play-game rounds s2.0 s2.1 (next_char c) h2 lo' hi' in
      let again = λ (s : os.State × (ℕ → ℕ)). play os fd rounds s.0 s.1 (next_char c) in
      let first = rightward c 76 2 in
      let second = leftward c 76 77 in
      (
        w',
        ap (λ m. m >>= λ s. (bounce_back os fd 76 77 s.0 s.1 c >>= again)) out
            ∙ ap (λ m. m >>= again) back
            ∙ rest,
        shows3
            ∙ ap₂ (λ t u. t ++ u)
                (shows2 ∙ ap (λ t. t ++ second) shows1 ∙ append_assoc (shown w) first second)
                (ap (game rounds) next)
            ∙ append_assoc (shown w) (first ++ second)
                (game rounds (if c == b'Z' then b'A' else c + 1)),
      )

-- `pingpong`, where it can open the clock as `fd`, a write to the clock and a read from it show nothing,
-- and a write to the terminal appends to what it shows: after any number of rounds the terminal
-- shows, behind what it showed, exactly the frames of that many games, of 80 characters each, in which
-- one letter moves between the two walls, from A to Z and again.
pub pingpong_main-game :
    (os : Os) (shown : os.State → List ℕ) (fd : ℤ) (rounds : ℕ) (w : os.State) (junk : ℕ → ℕ)
    → IsScreen os shown
    → ((w : os.State) → shown (os.read w fd 4).0 ≡ shown w)
    → ((w : os.State) (bytes : List ℕ) → shown (os.write w fd bytes (pos 4)).0 ≡ shown w)
    → (os.open_file w rtc_name).1 ≡ fd
    → (w' : os.State) × (pingpong_main os rounds w junk ≡ ok w')
      × (shown w' ≡ shown (os.open_file w rtc_name).0 ++ game rounds b'A')
unfolding pingpong_main
pingpong_main-game os shown fd rounds w junk screen waits quiet opened =
    let w1 = (os.open_file w rtc_name).0 in
    let speed : List ℕ = 32 ∷ 0 ∷ 0 ∷ 0 ∷ [] in
    let w2 : os.State = (os.write w1 fd speed (pos 4)).0 in
    let (w', played, shows) =
      play-game os fd shown screen waits rounds w2 (walls junk) b'A' (walls-HasWalls junk)
        (omega arith) (omega arith) in
    (
      w',
      ap (λ d. play os d rounds (os.write w1 d speed (pos 4)).0 (walls junk) b'A') opened ∙ played,
      shows ∙ ap (λ t. t ++ game rounds b'A') (quiet w1 speed),
    )
