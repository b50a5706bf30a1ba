-- ===== src/Programs/Grep/Printed.antt =====
-- What `grep` prints of the lines in its buffer.
use ece391_mp.Base.{
  ℕ, zero, suc, ◌+◌, ◌<◌, ◌≡◌, ◌⊎◌, refl, sym, ap, ◌∙◌, inl, inr, List, [], ◌∷◌, ◌++◌, some, ok,
  ◌>>=◌, ℤ, length, drop, arith, append-nil, append_assoc, Bool-cases, length-append, subst,
}
use ece391_mp.Programs.{Os, IsFile}
use ece391_mp.Programs.Support.Compare.{NoNul}
use ece391_mp.Programs.Grep.{scan_lines, set_byte}
use ece391_mp.Programs.Grep.Search.{Occurs, occurs_from-Occurs, drop-next}
use ece391_mp.Programs.Grep.Buffer.{text_of, NoNewline, AreLines, drop-past, set_byte-line}
use ece391_mp.Programs.Grep.Output.{Printed, Printed-then, print_line-Printed}
use ece391_mp.Programs.Grep.Rounds.{
  after_line, with_line, scan_lines-line, with_line-found, with_line-other, after_line-last,
  after_line-next,
}

-- The text is, for each line with the string in it and for no other, in order: the file's name, a colon,
-- the line and a newline.
unfoldable pub Matches : List ℕ → List ℕ → List (List ℕ) → List ℕ → Type 0
Matches s fname [] out = out ≡ []
Matches s fname (l ∷ ls) out =
    (Occurs s l
      × ((rest : List ℕ) × (out ≡ fname ++ (b':' ∷ (l ++ (10 ∷ rest)))) × Matches s fname ls rest))
    ⊎ (¬ Occurs s l × Matches s fname ls out)

nothing : (s fname : List ℕ) → Matches s fname [] []
unfolding Matches
nothing s fname = refl

module _ (os : Os) (fd : ℤ) (Ready : os.State → Type 0) (left shown : os.State → List ℕ)
    (file : IsFile os fd Ready left shown) where
  -- The search for a string that is not empty, in a file with a name.
  module _ (c : ℕ) (s r' fname r'' : List ℕ) (ns : NoNul (c ∷ s)) (nf : NoNul fname) where
    abbrev searched : List ℕ
    searched = c ∷ (s ++ (0 ∷ r'))

    abbrev named : List ℕ
    named = fname ++ (0 ∷ r'')

    -- A line of the buffer, up to what the loop does behind it.
    record Done (w : os.State) (l out : List ℕ) (w' : os.State) : Type 0 where
      pub printed : Printed os fd Ready left shown file w out w'
      pub right :
          (ls : List (List ℕ)) (rest : List ℕ)
          → Matches (c ∷ s) fname ls rest
          → Matches (c ∷ s) fname (l ∷ ls) (out ++ rest)

    line-Done :
        (fuel : ℕ) (w : os.State) (held l r : List ℕ) (cnt last line_start : ℕ)
        → Ready w
        → NoNul l
        → NoNewline l
        → drop line_start held ≡ l ++ (10 ∷ r)
        → line_start + length l < last
        → let e = line_start + length l in
          (w' : os.State) × (out : List ℕ) × (scan_lines os searched named
              (suc (length s))
              (suc fuel)
              w
              held
              cnt
              last
              line_start
            ≡ after_line os searched named (suc (length s)) fuel (set_byte held e 0) cnt last e w')
          × Done w l out w'
    unfolding Matches
    line-Done fuel w held l r cnt last line_start ready nl no_newline here inside =
        let n = suc (length s) in
        let e = line_start + length l in
        let ended = set_byte held e 0 in
        let ends = set_byte-line held l r line_start here in
        let start =
          scan_lines-line os searched named n fuel w held l r cnt last line_start no_newline here
            inside in
        let (found, looked, iff) = occurs_from-Occurs c s r' ended r l line_start ns nl ends in
        let rest = with_line os searched named n fuel w ended cnt last line_start e in
        let upto = start ∙ ap (λ m. m >>= rest) looked in
        elim (Bool-cases found) [
          | inl is_found ↦
              let (w', put, printed) =
                print_line-Printed os fd Ready left shown file w searched fname l r r''
                  (drop line_start ended) named n ready nf nl refl ends in
              (
                w',
                fname ++ (b':' ∷ (l ++ (10 ∷ []))),
                upto
                    ∙ ap rest is_found
                    ∙ with_line-found os searched named n fuel w w' ended cnt last line_start e put,
                record {
                  printed = printed;
                  right = λ ls rest h. inl (
                    iff.0 is_found,
                    (
                      rest,
                      append_assoc fname (b':' ∷ (l ++ (10 ∷ []))) rest
                          ∙ ap (λ t. fname ++ (b':' ∷ t)) (append_assoc l (10 ∷ []) rest),
                      h,
                    ),
                  );
                },
              )
          | inr not_found ↦ (
            w,
            [],
            upto
                ∙ ap rest not_found
                ∙ with_line-other os searched named n fuel w ended cnt last line_start e,
            record {
              printed = record { more = sym (append-nil (shown w)); same = refl; ready = ready };
              right = λ ls rest h. inr ((λ o. (let e = iff.1 o in cc)), h);
            },
          )
        ]

    -- All the lines of the buffer.
    pub scan_lines-Matches :
        (ls : List (List ℕ)) (l tail : List ℕ) (fuel : ℕ) (w : os.State) (held : List ℕ)
        (cnt last line_start : ℕ)
        → Ready w
        → AreLines (l ∷ ls)
        → drop line_start held ≡ text_of (l ∷ ls) ++ tail
        → last ≡ line_start + length (text_of (l ∷ ls))
        → length ls < fuel
        → (w' : os.State) × (held' : List ℕ) × (out : List ℕ) × (scan_lines os searched named
              (suc (length s))
              fuel
              w
              held
              cnt
              last
              line_start
            ≡ ok (some (w', held', 0)))
          × Printed os fd Ready left shown file w out w'
          × Matches (c ∷ s) fname (l ∷ ls) out
    unfolding AreLines text_of
    scan_lines-Matches ls l tail zero w held cnt last line_start ready lines here size enough =
        absurd (omega arith)
    scan_lines-Matches [] l tail (suc fuel) w held cnt last line_start ready (nl, no_newline, more)
          here size enough =
        let all = length-append l (10 ∷ []) in
        let (w', out, step, done) =
          line-Done fuel w held l tail cnt last line_start ready nl no_newline
            (here ∙ append_assoc l (10 ∷ []) tail) (omega (arith, size, all)) in
        let e = line_start + length l in
        (
          w',
          set_byte held e 0,
          out,
          step
              ∙ after_line-last os searched named (suc (length s)) fuel (set_byte held e 0) cnt last
                  e w' (omega (arith, size, all)),
          done.printed,
          subst (Matches (c ∷ s) fname (l ∷ [])) (append-nil out)
              (done.right [] [] (nothing (c ∷ s) fname)),
        )
    scan_lines-Matches (l2 ∷ ls) l tail (suc fuel) w held cnt last line_start ready
          (nl, no_newline, more) here size enough =
        let all = length-append l (10 ∷ text_of (l2 ∷ ls)) in
        let all2 = length-append l2 (10 ∷ text_of ls) in
        let e = line_start + length l in
        let ended = set_byte held e 0 in
        let here' : drop line_start held ≡ l ++ (10 ∷ (text_of (l2 ∷ ls) ++ tail)) =
          here ∙ append_assoc l (10 ∷ text_of (l2 ∷ ls)) tail in
        let (w1, out1, step, done) =
          line-Done fuel w held l (text_of (l2 ∷ ls) ++ tail) cnt last line_start ready nl
            no_newline here' (omega (arith, size, all)) in
        let next : drop (e + 1) ended ≡ text_of (l2 ∷ ls) ++ tail =
          drop-next ended e 0 (text_of (l2 ∷ ls) ++ tail) (
            drop-past l ended (0 ∷ (text_of (l2 ∷ ls) ++ tail)) line_start
              (set_byte-line held l (text_of (l2 ∷ ls) ++ tail) line_start here')) in
        let (w2, held2, out2, rest, printed, matches) =
          scan_lines-Matches ls l2 tail fuel w1 ended cnt last (e + 1) (done.printed.ready) more
            next (omega (arith, size, all)) (omega arith) in
        (
          w2,
          held2,
          out1 ++ out2,
          step
              ∙ after_line-next os searched named (suc (length s)) fuel ended cnt last e w1
                  (omega (arith, size, all, all2))
              ∙ rest,
          Printed-then os fd Ready left shown file w w1 w2 out1 out2 (done.printed) printed,
          done.right (l2 ∷ ls) out2 matches,
        )
