-- ===== src/Programs/Grep/Rounds.antt =====
-- A round of the loop of `grep` over the lines.
use ece391_mp.Base.{
  ℕ, suc, ◌+◌, ◌-◌, ◌<◌, ◌≡◌, refl, ap, ◌∙◌, Bool, true, false, not, ◌&&◌, List, ◌∷◌, ◌++◌, Option,
  some, Result, ok, ◌>>=◌, leb, ◌==◌, if◌then◌else◌, length, drop, get_or, arith,
}
use ece391_mp.Programs.{Os}
use ece391_mp.Programs.Grep.{
  print_line, scan_lines, line_end_from, occurs_from, set_byte, Scanned, keep_rest,
}
use ece391_mp.Programs.Grep.Search.{get_or-drop}
use ece391_mp.Programs.Grep.Buffer.{NoNewline, drop-past, line_end_from-line}

module _ (os : Os) (search name : List ℕ) (n : ℕ) where
  -- What the loop does behind a line.
  unfoldable pub after_line : ℕ → List ℕ → ℕ → ℕ → ℕ → os.State → Result (Option (Scanned os))
  after_line fuel ended cnt last line_end w =
      if leb last (line_end + 1)
      then ok (some (w, ended, 0))
      else scan_lines os search name n fuel w ended cnt last (line_end + 1)

  -- What it does with a line, by whether the string was found.
  unfoldable pub with_line :
      ℕ → os.State → List ℕ → ℕ → ℕ → ℕ → ℕ → Bool → Result (Option (Scanned os))
  unfolding after_line
  with_line fuel w ended cnt last line_start line_end found =
      if found
      then (print_line os search name n w (drop line_start ended)
          >>= after_line fuel ended cnt last line_end)
      else after_line fuel ended cnt last line_end w

  -- A round of the loop, by where the line ends and whether a newline is there.
  unfoldable pub round : ℕ → os.State → List ℕ → ℕ → ℕ → ℕ → ℕ → Bool → Result (Option (Scanned os))
  unfolding with_line
  round fuel w held cnt last line_start line_end ends =
      if not ends && not (cnt == 0) && not (line_start == 0)
      then (keep_rest os search name n w held last line_start line_end >>= λ r. ok (some r))
      else (occurs_from search n (set_byte held line_end 0) (line_end - line_start) line_start
          >>= with_line fuel w (set_byte held line_end 0) cnt last line_start line_end)

  pub scan_lines-round :
      (fuel : ℕ) (w : os.State) (held : List ℕ) (cnt last line_start : ℕ)
      → let line_end = line_end_from held (last - line_start) line_start in
        scan_lines os search name n (suc fuel) w held cnt last line_start
        ≡ round fuel w held cnt last line_start line_end (get_or held line_end 0 == 10)
  unfolding scan_lines round with_line after_line
  scan_lines-round fuel w held cnt last line_start = refl

  pub scan_lines-line :
      (fuel : ℕ) (w : os.State) (held l r : List ℕ) (cnt last line_start : ℕ)
      → NoNewline l
      → drop line_start held ≡ l ++ (10 ∷ r)
      → line_start + length l < last
      → let e = line_start + length l in
        scan_lines os search name n (suc fuel) w held cnt last line_start ≡ (
          occurs_from search n (set_byte held e 0) (length l) line_start
          >>= with_line fuel w (set_byte held e 0) cnt last line_start e)
  unfolding round
  scan_lines-line fuel w held l r cnt last line_start no_newline here inside =
      let e = line_start + length l in
      let ended = set_byte held e 0 in
      let rest = with_line fuel w ended cnt last line_start e in
      let found : line_end_from held (last - line_start) line_start ≡ e =
        line_end_from-line l held r line_start (last - line_start) no_newline here (omega arith) in
      let ends : (get_or held e 0 == 10) ≡ true =
        ap (λ c. c == 10) (get_or-drop held e 10 r (drop-past l held (10 ∷ r) line_start here)) in
      let size : e - line_start ≡ length l = omega arith in
      scan_lines-round fuel w held cnt last line_start
      ∙ ap (λ i. round fuel w held cnt last line_start i (get_or held i 0 == 10)) found
      ∙ ap (round fuel w held cnt last line_start e) ends
      ∙ ap (λ m. occurs_from search n ended m line_start >>= rest) size

  -- The line printed, or not.
  pub with_line-found :
      (fuel : ℕ) (w w' : os.State) (ended : List ℕ) (cnt last line_start e : ℕ)
      → print_line os search name n w (drop line_start ended) ≡ ok w'
      → with_line fuel w ended cnt last line_start e true ≡ after_line fuel ended cnt last e w'
  unfolding with_line
  with_line-found fuel w w' ended cnt last line_start e printed =
      ap (λ m. m >>= after_line fuel ended cnt last e) printed

  pub with_line-other :
      (fuel : ℕ) (w : os.State) (ended : List ℕ) (cnt last line_start e : ℕ)
      → with_line fuel w ended cnt last line_start e false ≡ after_line fuel ended cnt last e w
  unfolding with_line
  with_line-other fuel w ended cnt last line_start e = refl

  pub after_line-last :
      (fuel : ℕ) (ended : List ℕ) (cnt last e : ℕ) (w : os.State)
      → last ≡ e + 1
      → after_line fuel ended cnt last e w ≡ ok (some (w, ended, 0))
  unfolding after_line
  after_line-last fuel ended cnt last e w is_last =
      let done : leb last (e + 1) ≡ true = ground (arith, is_last) in rw done refl

  pub after_line-next :
      (fuel : ℕ) (ended : List ℕ) (cnt last e : ℕ) (w : os.State)
      → e + 1 < last
      → after_line fuel ended cnt last e w
        ≡ scan_lines os search name n fuel w ended cnt last (e + 1)
  unfolding after_line
  after_line-next fuel ended cnt last e w more =
      let go_on : leb last (e + 1) ≡ false = ground (arith, more) in rw go_on refl
