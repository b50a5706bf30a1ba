-- ===== src/Programs/Grep/Reading.antt =====
-- The loop of `grep` that reads a file into its buffer.
use ece391_mp.Base.{
  ℕ, zero, suc, ◌+◌, ◌≤◌, ◌≡◌, ◌≢◌, refl, ap, ◌∙◌, Bool, true, false, List, Option, none, some,
  Result, ok, fault, ◌>>=◌, leb, ◌==◌, if◌then◌else◌, ℤ, pos, negsuc, get_or, arith, minus_one,
  in_bounds, ◌>>◌, le→leb,
}
use ece391_mp.Programs.{Os, store}
use ece391_mp.Programs.Support.{ece391_fdputs}
use ece391_mp.Programs.Grep.{
  scan_lines, scan_file, file_read_failed, close_file, line_end_from, occurs_from, set_byte,
  Scanned,
}
use ece391_mp.Programs.Grep.Rounds.{round, with_line, after_line, scan_lines-round}

module _ (os : Os) (search name : List ℕ) (n : ℕ) where
  after_read : ℕ → ℤ → ℕ → Option (Scanned os) → Result (Option (os.State × ℤ))
  after_read fuel fd k o = elim o as (λ x. Result (Option (os.State × ℤ))) [
    | none ↦ ok none
    | some (w2, data2, last2) ↦
        if k == 0
        then close_file os search name n w2 fd
        else scan_file os search name n fuel w2 fd data2 last2
  ]

  -- A round of the loop over the file, by the count of the read.
  read_round : ℕ → os.State → ℤ → List ℕ → List ℕ → ℤ → Result (Option (os.State × ℤ))
  read_round fuel w fd held bytes cnt = elim cnt as (λ x. Result (Option (os.State × ℤ))) [
    | negsuc zero ↦ ece391_fdputs os w (pos 1) file_read_failed >>= λ w2. ok (some (w2, minus_one))
    | negsuc (suc m) ↦ fault
    | pos m ↦
        in_bounds (leb (0 + m) 1024)
        >> scan_lines os search name n fuel w (store held 0 bytes) m (0 + m) 0
        >>= after_read fuel fd m
  ]

  read_round-pos :
      (fuel : ℕ) (w : os.State) (fd : ℤ) (held bytes : List ℕ) (k : ℕ)
      → k ≤ 1024
      → read_round fuel w fd held bytes (pos k)
        ≡ (scan_lines os search name n fuel w (store held 0 bytes) k k 0 >>= after_read fuel fd k)
  unfolding read_round
  read_round-pos fuel w fd held bytes k le =
      let room : leb k 1024 ≡ true = le→leb k 1024 le in
      let none_before : 0 + k ≡ k = omega arith in
      ap
        (λ m.
          in_bounds (leb m 1024)
          >> scan_lines os search name n fuel w (store held 0 bytes) k m 0
          >>= after_read fuel fd k)
        none_before
      ∙ ap
          (λ b.
            in_bounds b
            >> scan_lines os search name n fuel w (store held 0 bytes) k k 0
            >>= after_read fuel fd k)
          room

  scan_file-read :
      (fuel : ℕ) (w : os.State) (fd : ℤ) (held : List ℕ) (k : ℕ)
      → (os.read w fd 1024).1 ≡ pos k
      → k ≤ 1024
      → let w1 = (os.read w fd 1024).0 in
        scan_file os search name n (suc fuel) w fd held 0 ≡ (
          scan_lines os search name n fuel w1 (store held 0 (os.read w fd 1024).2) k k 0
          >>= after_read fuel fd k)
  unfolding scan_file after_read read_round
  scan_file-read fuel w fd held k cnt le =
      let w1 = (os.read w fd 1024).0 in
      let bytes = (os.read w fd 1024).2 in
      ap (read_round fuel w1 fd held bytes) cnt ∙ read_round-pos fuel w1 fd held bytes k le

  -- At the end of the file nothing is left in the buffer, and the line that is searched is empty.
  round-end :
      (fuel : ℕ) (w : os.State) (held : List ℕ) (ends : Bool)
      → round os search name n fuel w held 0 0 0 0 ends ≡ ok (some (w, set_byte held 0 0, 0))
  unfolding round with_line after_line occurs_from
  round-end fuel w held true = refl
  round-end fuel w held false = refl

  scan_lines-end :
      (fuel : ℕ) (w : os.State) (held : List ℕ)
      → scan_lines os search name n (suc fuel) w held 0 0 0 ≡ ok (some (w, set_byte held 0 0, 0))
  unfolding line_end_from
  scan_lines-end fuel w held =
      scan_lines-round os search name n fuel w held 0 0 0
      ∙ round-end fuel w held (get_or held 0 0 == 10)

  -- The last round of the loop over the file: it closes it.
  close_file-closes :
      (w : os.State) (fd : ℤ)
      → (os.close_file w fd).1 ≡ pos 0
      → close_file os search name n w fd ≡ ok (some ((os.close_file w fd).0, pos 0))
  unfolding close_file
  close_file-closes w fd closed = rw closed refl

  pub scan_file-end :
      (fuel : ℕ) (w : os.State) (fd : ℤ) (held : List ℕ)
      → (os.read w fd 1024).1 ≡ pos 0
      → (os.close_file (os.read w fd 1024).0 fd).1 ≡ pos 0
      → scan_file os search name n (suc (suc fuel)) w fd held 0
        ≡ ok (some ((os.close_file (os.read w fd 1024).0 fd).0, pos 0))
  unfolding after_read
  scan_file-end fuel w fd held cnt closed =
      scan_file-read (suc fuel) w fd held 0 cnt (omega arith)
      ∙ ap (λ m. m >>= after_read (suc fuel) fd 0)
          (scan_lines-end fuel (os.read w fd 1024).0 (store held 0 (os.read w fd 1024).2))
      ∙ close_file-closes (os.read w fd 1024).0 fd closed

  pub scan_file-more :
      (fuel : ℕ) (w : os.State) (fd : ℤ) (held held' : List ℕ) (k : ℕ) (w' : os.State)
      → (os.read w fd 1024).1 ≡ pos k
      → k ≤ 1024
      → k ≢ 0
      → scan_lines os search name n fuel
          (os.read w fd 1024).0
          (store held 0 (os.read w fd 1024).2)
          k
          k
          0
        ≡ ok (some (w', held', 0))
      → scan_file os search name n (suc fuel) w fd held 0
        ≡ scan_file os search name n fuel w' fd held' 0
  unfolding after_read
  scan_file-more fuel w fd held held' k w' cnt le some_read scanned =
      let more : (k == 0) ≡ false = ground (arith, some_read) in
      scan_file-read fuel w fd held k cnt le
      ∙ ap (λ m. m >>= after_read fuel fd k) scanned
      ∙ ap
          (λ b.
            if b
            then close_file os search name n w' fd
            else scan_file os search name n fuel w' fd held' 0)
          more
