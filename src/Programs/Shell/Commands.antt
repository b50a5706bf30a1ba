-- ===== src/Programs/Shell/Commands.antt =====
-- What the shell makes of a line.
use ece391_mp.Base.{
  ℕ, zero, suc, ◌+◌, ◌-◌, ◌<◌, ◌≡◌, ◌≢◌, refl, subst, sym, ap, ap₂, ◌∙◌, List, [], ◌∷◌, ◌++◌,
  Result, ok, ◌>>=◌, ◌==◌, ltb, true, false, ℤ, pos, negsuc, eqb_ℤ, length, arith, take, drop,
  get_or, in_bounds, ◌>>◌, append_assoc,
}
use ece391_mp.Programs.{Os, store}
use ece391_mp.Programs.Support.{ece391_fdputs, ece391_strcmp}
use ece391_mp.Programs.Support.Compare.{NoNul, ece391_strcmp-zero}
use ece391_mp.Programs.Shell.{
  Round, exits, again, prompt, without_newline, report, run_line, enter_line, shell_round,
}

-- The command that ends the shell, without its NUL.
abbrev pub exit_text : List ℕ
exit_text = b'e' ∷ b'x' ∷ b'i' ∷ b't' ∷ []

get_or-behind : (t r : List ℕ) (c : ℕ) → get_or (t ++ (c ∷ r)) (length t) 0 ≡ c
get_or-behind [] r c = refl
get_or-behind (x ∷ t) r c = get_or-behind t r c

take-behind : (t r : List ℕ) → take (length t) (t ++ r) ≡ t
take-behind [] r = refl
take-behind (x ∷ t) r = ap (λ u. x ∷ u) (take-behind t r)

-- The buffer holds a line with its newline: the newline goes, and a NUL takes its place.
without_newline-line : (t r : List ℕ) → without_newline (t ++ (10 ∷ r)) (length t + 1) ≡ length t
unfolding without_newline
without_newline-line t r =
    let some_left : ltb 0 (length t + 1) ≡ true = ground arith in
    let at : length t + 1 - 1 ≡ length t = omega arith in
    let newline : (get_or (t ++ (10 ∷ r)) (length t + 1 - 1) 0 == 10) ≡ true =
      rw at (rw (get_or-behind t r 10) refl) in
    rw (some_left, newline) at

-- What follows the command in the buffer.
behind : List ℕ → List ℕ → List ℕ
behind t buf = drop (length t + 1) buf

store-line :
    (t r : List ℕ) → store (t ++ (10 ∷ r)) (length t) (0 ∷ []) ≡ t ++ (0 ∷ behind t (t ++ (10 ∷ r)))
unfolding behind
store-line t r = ap (λ u. u ++ (0 ∷ drop (length t + 1) (t ++ (10 ∷ r)))) (take-behind t (10 ∷ r))

exit_text-NoNul : NoNul exit_text
unfolding NoNul
exit_text-NoNul = (
  λ e. absurd (omega (arith, e)),
  (
    λ e. absurd (omega (arith, e)),
    (λ e. absurd (omega (arith, e)), (λ e. absurd (omega (arith, e)), tt)),
  ),
)

eqb_ℤ-apart : (d : ℤ) → d ≢ pos 0 → eqb_ℤ d (pos 0) ≡ false
eqb_ℤ-apart (pos zero) apart = absurd (apart refl)
eqb_ℤ-apart (pos (suc n)) apart = ground arith
eqb_ℤ-apart (negsuc n) apart = ground arith

first_char : (t r : List ℕ) → NoNul t → t ≢ [] → (get_or (t ++ (0 ∷ r)) 0 0 == 0) ≡ false
unfolding NoNul
first_char [] r no_nul some_text = absurd (some_text refl)
first_char (c ∷ t) r (some_char, no_nul) some_text = ground (arith, some_char)

module _ (os : Os) (w : os.State) where
  -- The three ways of a line.
  run_line-exit :
      (t r : List ℕ) → t ≡ exit_text → run_line os w (t ++ (0 ∷ r)) ≡ ok (exits w (pos 0))
  unfolding run_line ece391_strcmp
  run_line-exit t r same =
      subst (λ u. run_line os w (u ++ (0 ∷ r)) ≡ ok (exits w (pos 0))) (sym same) refl

  run_line-empty : (r : List ℕ) → run_line os w (0 ∷ r) ≡ ok (again w (0 ∷ r))
  unfolding run_line ece391_strcmp
  run_line-empty r = refl

  run_line-empty_text :
      (t r : List ℕ) → t ≡ [] → run_line os w (t ++ (0 ∷ r)) ≡ ok (again w (t ++ (0 ∷ r)))
  run_line-empty_text [] r empty = run_line-empty r
  run_line-empty_text (c ∷ t) r empty = cc

  run_line-command :
      (t r : List ℕ)
      → NoNul t
      → t ≢ exit_text
      → t ≢ []
      → run_line os w (t ++ (0 ∷ r)) ≡ (
          let (w1, rval) = os.execute w (t ++ (0 ∷ r)) in
          report os w1 rval >>= λ w2. ok (again w2 (t ++ (0 ∷ r))))
  unfolding run_line
  run_line-command t r no_nul other some_text =
      let (d, compared, iff) = ece391_strcmp-zero t exit_text r [] no_nul exit_text-NoNul in
      rw (compared, eqb_ℤ-apart d (λ z. other (iff.0 z)), first_char t r no_nul some_text) refl

shell_round-reaches :
    (os : Os) (w w1 : os.State) (buf t : List ℕ)
    → ece391_fdputs os w (pos 1) prompt ≡ ok w1
    → length t < 1023
    → (os.read w1 (pos 0) 1023).1 ≡ pos (length t + 1)
    → (os.read w1 (pos 0) 1023).2 ≡ t ++ (10 ∷ [])
    → let r0 = drop (0 + length (t ++ (10 ∷ []))) buf in
      shell_round os w buf
      ≡ run_line os (os.read w1 (pos 0) 1023).0 (t ++ (0 ∷ behind t (t ++ (10 ∷ r0))))
unfolding shell_round enter_line
shell_round-reaches os w w1 buf t prompted short cnt bytes =
    let r0 = drop (0 + length (t ++ (10 ∷ []))) buf in
    let w2 = (os.read w1 (pos 0) 1023).0 in
    let line : store buf 0 (t ++ (10 ∷ [])) ≡ t ++ (10 ∷ r0) = append_assoc t (10 ∷ []) r0 in
    let inside : ltb (length t) 1024 ≡ true = ground (arith, short) in
    let after : os.State → Result (Round os.State) = λ w'.
      (let (w'', n, read) = os.read w' (pos 0) 1023 in enter_line os w'' (store buf 0 read) n) in
    ap (λ res. res >>= after) prompted
    ∙ ap₂ (λ n read. enter_line os w2 (store buf 0 read) n) cnt bytes
    ∙ ap (λ b. enter_line os w2 b (pos (length t + 1))) line
    ∙ ap (λ n. in_bounds (ltb n 1024) >> run_line os w2 (store (t ++ (10 ∷ r0)) n (0 ∷ [])))
        (without_newline-line t r0)
    ∙ ap (λ b. in_bounds b >> run_line os w2 (store (t ++ (10 ∷ r0)) (length t) (0 ∷ []))) inside
    ∙ ap (run_line os w2) (store-line t r0)

-- A round of the shell that reads a line of the keyboard, which is `t`, shorter than
-- the buffer and without a NUL, with its newline: `exit` ends the
-- shell with status 0, an empty line starts the next round, and any other line is the command that is
-- executed, up to its NUL and without the newline; the result of `execute` is then reported.
pub shell_round-line :
    (os : Os) (w w1 : os.State) (buf t : List ℕ)
    → ece391_fdputs os w (pos 1) prompt ≡ ok w1
    → length t < 1023
    → (os.read w1 (pos 0) 1023).1 ≡ pos (length t + 1)
    → (os.read w1 (pos 0) 1023).2 ≡ t ++ (10 ∷ [])
    → NoNul t
    → let w2 = (os.read w1 (pos 0) 1023).0 in
      (r : List ℕ) × (t ≡ exit_text → shell_round os w buf ≡ ok (exits w2 (pos 0)))
      × (t ≡ [] → shell_round os w buf ≡ ok (again w2 (t ++ (0 ∷ r))))
      × (t ≢ exit_text
          → t ≢ []
          → shell_round os w buf ≡ (
              let (w3, rval) = os.execute w2 (t ++ (0 ∷ r)) in
              report os w3 rval >>= λ w4. ok (again w4 (t ++ (0 ∷ r)))))
shell_round-line os w w1 buf t prompted short cnt bytes no_nul =
    let w2 = (os.read w1 (pos 0) 1023).0 in
    let r0 = drop (0 + length (t ++ (10 ∷ []))) buf in
    let r = behind t (t ++ (10 ∷ r0)) in
    let reached = shell_round-reaches os w w1 buf t prompted short cnt bytes in
    (
      r,
      λ same. reached ∙ run_line-exit os w2 t r same,
      λ empty. reached ∙ run_line-empty_text os w2 t r empty,
      λ other some_text. reached ∙ run_line-command os w2 t r no_nul other some_text,
    )
