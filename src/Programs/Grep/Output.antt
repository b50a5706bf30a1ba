-- ===== src/Programs/Grep/Output.antt =====
-- What `grep` prints of one line.
use ece391_mp.Base.{
  ℕ, ◌+◌, ◌≤◌, ◌≡◌, ap, ◌∙◌, List, [], ◌∷◌, ◌++◌, ok, ◌>>=◌, ℤ, pos, length, arith, append_assoc,
  take-append, length-append,
}
use ece391_mp.Programs.{Os, IsFile}
use ece391_mp.Programs.Support.{ece391_fdputs, ece391_strlen}
use ece391_mp.Programs.Support.Compare.{NoNul}
use ece391_mp.Programs.Grep.{print_line}
use ece391_mp.Programs.Grep.Buffer.{ece391_strlen_from-NoNul}

module _ (os : Os) (fd : ℤ) (Ready : os.State → Type 0) (left shown : os.State → List ℕ)
    (file : IsFile os fd Ready left shown) where
  -- The world after something has been printed.
  pub record Printed (w : os.State) (out : List ℕ) (w' : os.State) : Type 0 where
    pub more : shown w' ≡ shown w ++ out
    pub same : left w' ≡ left w
    pub ready : Ready w'

  pub fdputs-Printed :
      (w : os.State) (t r : List ℕ)
      → Ready w
      → NoNul t
      → (w' : os.State) × (ece391_fdputs os w (pos 1) (t ++ (0 ∷ r)) ≡ ok w') × Printed w t w'
  unfolding ece391_fdputs ece391_strlen
  fdputs-Printed w t r ready h =
      let len = ece391_strlen_from-NoNul t r 0 h in
      let all = length-append t (0 ∷ r) in
      let size : length t ≤ length (t ++ (0 ∷ r)) = omega (arith, all) in
      let none_before : 0 + length t ≡ length t = omega arith in
      (
        (os.write w (pos 1) (t ++ (0 ∷ r)) (pos (length t))).0,
        ap (λ m. m >>= λ n. ok (os.write w (pos 1) (t ++ (0 ∷ r)) (pos n)).0)
            (len ∙ ap ok none_before),
        record {
          more =
              file.write-shown w (t ++ (0 ∷ r)) (length t) ready size
              ∙ ap (λ s. shown w ++ s) (take-append t (0 ∷ r));
          same = file.write-left w (t ++ (0 ∷ r)) (length t) ready size;
          ready = file.write-ready w (t ++ (0 ∷ r)) (length t) ready size;
        },
      )

  pub Printed-then :
      (w w1 w2 : os.State) (a b : List ℕ) → Printed w a w1 → Printed w1 b w2 → Printed w (a ++ b) w2
  Printed-then w w1 w2 a b p q = record {
    more = q.more ∙ ap (λ s. s ++ b) (p.more) ∙ append_assoc (shown w) a b;
    same = q.same ∙ p.same;
    ready = q.ready;
  }

  colon :
      (w : os.State)
      → Ready w
      → (w' : os.State) × (ece391_fdputs os w (pos 1) (b':' ∷ 0 ∷ []) ≡ ok w')
        × Printed w (b':' ∷ []) w'
  unfolding NoNul
  colon w ready = fdputs-Printed w (b':' ∷ []) [] ready ((λ e. absurd (omega (arith, e))), tt)

  newline :
      (w : os.State)
      → Ready w
      → (w' : os.State) × (ece391_fdputs os w (pos 1) (10 ∷ 0 ∷ []) ≡ ok w')
        × Printed w (10 ∷ []) w'
  unfolding NoNul
  newline w ready = fdputs-Printed w (10 ∷ []) [] ready ((λ e. absurd (omega (arith, e))), tt)

  fdputs-held :
      (w : os.State) (held t r : List ℕ)
      → Ready w
      → NoNul t
      → held ≡ t ++ (0 ∷ r)
      → (w' : os.State) × (ece391_fdputs os w (pos 1) held ≡ ok w') × Printed w t w'
  fdputs-held w held t r ready h e =
      let (w', put, printed) = fdputs-Printed w t r ready h in
      (w', ap (ece391_fdputs os w (pos 1)) e ∙ put, printed)

  pub print_line-Printed :
      (w : os.State) (search fname l r r' line name : List ℕ) (n : ℕ)
      → Ready w
      → NoNul fname
      → NoNul l
      → name ≡ fname ++ (0 ∷ r')
      → line ≡ l ++ (0 ∷ r)
      → (w' : os.State) × (print_line os search name n w line ≡ ok w')
        × Printed w (fname ++ (b':' ∷ (l ++ (10 ∷ [])))) w'
  unfolding print_line
  print_line-Printed w search fname l r r' line name n ready nf nl ename eline =
      let (w1, first, p1) = fdputs-held w name fname r' ready nf ename in
      let (w2, second, p2) = colon w1 (p1.ready) in
      let (w3, third, p3) = fdputs-held w2 line l r (p2.ready) nl eline in
      let (w4, fourth, p4) = newline w3 (p3.ready) in
      let after3 = λ (w' : os.State). ece391_fdputs os w' (pos 1) (10 ∷ 0 ∷ []) in
      let after2 = λ (w' : os.State). ece391_fdputs os w' (pos 1) line >>= after3 in
      let after1 = λ (w' : os.State). ece391_fdputs os w' (pos 1) (b':' ∷ 0 ∷ []) >>= after2 in
      (
        w4,
        ap (λ m. m >>= after1) first
            ∙ ap (λ m. m >>= after2) second
            ∙ ap (λ m. m >>= after3) third
            ∙ fourth,
        Printed-then w w1 w4 fname (b':' ∷ (l ++ (10 ∷ []))) p1 (
            Printed-then w1 w2 w4 (b':' ∷ []) (l ++ (10 ∷ [])) p2
              (Printed-then w2 w3 w4 l (10 ∷ []) p3 p4)),
      )
