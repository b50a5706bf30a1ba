-- ===== src/Programs/Grep/File.antt =====
-- What `grep` prints of a file that fits its buffer.
use ece391_mp.Base.{
  ℕ, zero, suc, ◌+◌, ◌≤◌, ◌≡◌, refl, sym, ap, ◌∙◌, false, List, [], ◌∷◌, ◌++◌, Option, some, Result,
  ok, ◌>>=◌, if◌then◌else◌, ℤ, pos, length, take, drop, arith, append-nil, min, minus_one, eqb_ℤ,
  length-append,
}
use ece391_mp.Programs.{Os, IsFile, store}
use ece391_mp.Programs.Support.{ece391_fdputs, ece391_strlen}
use ece391_mp.Programs.Support.Compare.{NoNul}
use ece391_mp.Programs.Grep.{scan_file, open_failed, do_one_file}
use ece391_mp.Programs.Grep.Buffer.{text_of, AreLines, ece391_strlen_from-NoNul}
use ece391_mp.Programs.Grep.Printed.{Matches, scan_lines-Matches}
use ece391_mp.Programs.Grep.Reading.{scan_file-end, scan_file-more}

-- In the states that are `Ready` the file can be closed, which the terminal does not show.
pub record IsClosable (os : Os) (fd : ℤ) (Ready : os.State → Type 0) (shown : os.State → List ℕ)
    : Type 0 where
  pub closes : (w : os.State) → Ready w → (os.close_file w fd).1 ≡ pos 0
  pub close-shown : (w : os.State) → Ready w → shown (os.close_file w fd).0 ≡ shown w

take-all : (n : ℕ) (t : List ℕ) → length t ≤ n → take n t ≡ t
take-all zero [] le = refl
take-all (suc n) [] le = refl
take-all zero (a ∷ t) le = absurd (omega arith)
take-all (suc n) (a ∷ t) le = ap (λ u. a ∷ u) (take-all n t (omega arith))

drop-all : (n : ℕ) (t : List ℕ) → length t ≤ n → drop n t ≡ []
drop-all zero [] le = refl
drop-all (suc n) [] le = refl
drop-all zero (a ∷ t) le = absurd (omega arith)
drop-all (suc n) (a ∷ t) le = drop-all n t (omega arith)

min-all : (k : ℕ) → k ≤ 1024 → min 1024 k ≡ k
min-all k le = omega arith

module _ (os : Os) (fd : ℕ) (Ready : os.State → Type 0) (left shown : os.State → List ℕ)
    (file : IsFile os (pos fd) Ready left shown)
    (closable : IsClosable os (pos fd) Ready shown) where
  -- The end of the loop over the file, for a file that has been read to its end.
  scan_file-closed :
      (search name : List ℕ) (n fuel : ℕ) (w : os.State) (held : List ℕ)
      → Ready w
      → left w ≡ []
      → (w' : os.State) × (scan_file os search name n (suc (suc fuel)) w (pos fd) held 0
          ≡ ok (some (w', pos 0)))
        × (shown w' ≡ shown w)
  scan_file-closed search name n fuel w held ready none_left =
      let ready1 = file.read-ready w 1024 ready (omega arith) (omega arith) in
      let w1 = (os.read w (pos fd) 1024).0 in
      let cnt : (os.read w (pos fd) 1024).1 ≡ pos 0 =
        file.read-cnt w 1024 ready (omega arith) (omega arith)
        ∙ ap (λ t. pos (min 1024 (length t))) none_left in
      (
        (os.close_file w1 (pos fd)).0,
        scan_file-end os search name n fuel w (pos fd) held cnt (closable.closes w1 ready1),
        closable.close-shown w1 ready1 ∙ file.read-shown w 1024 ready (omega arith) (omega arith),
      )

  module _ (c : ℕ) (s r' fname r'' : List ℕ) (ns : NoNul (c ∷ s)) (nf : NoNul fname) where
    abbrev searched : List ℕ
    searched = c ∷ (s ++ (0 ∷ r'))

    abbrev named : List ℕ
    named = fname ++ (0 ∷ r'')

    -- The loop over the file prints the lines with the string in them.
    scan_file-Matches :
        (ls : List (List ℕ)) (fuel : ℕ) (w : os.State) (held : List ℕ)
        → Ready w
        → AreLines ls
        → left w ≡ text_of ls
        → length (text_of ls) ≤ 1024
        → (w' : os.State) × (out : List ℕ) × (scan_file os searched named
              (suc (length s))
              (suc (suc (suc (length ls + fuel))))
              w
              (pos fd)
              held
              0
            ≡ ok (some (w', pos 0)))
          × (shown w' ≡ shown w ++ out)
          × Matches (c ∷ s) fname ls out
    unfolding text_of Matches
    scan_file-Matches [] fuel w held ready lines content le =
        let (w', closed, same) =
          scan_file-closed searched named (suc (length s)) (suc (0 + fuel)) w held ready content in
        (w', [], closed, same ∙ sym (append-nil (shown w)), refl)
    scan_file-Matches (l ∷ ls) fuel w held ready lines content le =
        let k = length (text_of (l ∷ ls)) in
        let ready1 = file.read-ready w 1024 ready (omega arith) (omega arith) in
        let w1 = (os.read w (pos fd) 1024).0 in
        let bytes = (os.read w (pos fd) 1024).2 in
        let cnt : (os.read w (pos fd) 1024).1 ≡ pos k =
          file.read-cnt w 1024 ready (omega arith) (omega arith)
          ∙ ap (λ t. pos (min 1024 (length t))) content
          ∙ ap pos (min-all k le) in
        let whole : bytes ≡ text_of (l ∷ ls) =
          file.read-bytes w 1024 ready (omega arith) (omega arith)
          ∙ ap (take 1024) content
          ∙ take-all 1024 (text_of (l ∷ ls)) le in
        let used : left w1 ≡ [] =
          file.read-left w 1024 ready (omega arith) (omega arith)
          ∙ ap (drop 1024) content
          ∙ drop-all 1024 (text_of (l ∷ ls)) le in
        let here : drop 0 (store held 0 bytes) ≡ text_of (l ∷ ls) ++ drop (0 + length bytes) held =
          ap (λ t. t ++ drop (0 + length bytes) held) whole in
        let rounds = suc (suc (length (l ∷ ls) + fuel)) in
        let (w2, held2, out, scanned, printed, matches) =
          scan_lines-Matches os (pos fd) Ready left shown file c s r' fname r'' ns nf ls l
            (drop (0 + length bytes) held) rounds w1 (store held 0 bytes) k k 0 ready1 lines here
            (omega arith) (omega arith) in
        let (w3, closed, same) =
          scan_file-closed searched named (suc (length s)) (length (l ∷ ls) + fuel) w2 held2
            (printed.ready) (printed.same ∙ used) in
        let size = length-append l (10 ∷ text_of ls) in
        (
          w3,
          out,
          scan_file-more os searched named (suc (length s)) rounds w (pos fd) held held2 k w2 cnt le
                (ground (arith, size)) scanned
              ∙ closed,
          same
              ∙ printed.more
              ∙ ap (λ t. t ++ out) (file.read-shown w 1024 ready (omega arith) (omega arith)),
          matches,
        )

    -- `do_one_file` from the length of the string and the descriptor on.
    opened : List ℕ → ℕ → ℕ → os.State × ℤ → Result (Option (os.State × ℤ))
    opened junk fuel n o =
        let failed = ece391_fdputs os o.0 (pos 1) open_failed >>= λ w2. ok (some (w2, minus_one)) in
        if eqb_ℤ o.1 minus_one then failed else scan_file os searched named n fuel o.0 o.1 junk 0

    do_one_file-opened :
        (junk : List ℕ) (fuel : ℕ) (w : os.State)
        → do_one_file os junk fuel w searched named
          ≡ (ece391_strlen searched >>= λ n. opened junk fuel n (os.open_file w named))
    unfolding do_one_file opened
    do_one_file-opened junk fuel w = refl

    opened-found :
        (junk : List ℕ) (fuel n : ℕ) (w : os.State) (got : ℤ)
        → got ≡ pos fd
        → opened junk fuel n (w, got) ≡ scan_file os searched named n fuel w (pos fd) junk 0
    unfolding opened
    opened-found junk fuel n w got found =
        let good : eqb_ℤ (pos fd) minus_one ≡ false = ground arith in
        ap (λ d. opened junk fuel n (w, d)) found
        ∙ ap
            (λ b.
              if b
              then (ece391_fdputs os w (pos 1) open_failed >>= λ w2. ok (some (w2, minus_one)))
              else scan_file os searched named n fuel w (pos fd) junk 0)
            good

    searched-length : ece391_strlen searched ≡ ok (suc (length s))
    unfolding ece391_strlen
    searched-length = ece391_strlen_from-NoNul (c ∷ s) r' 0 ns ∙ ap ok (omega arith)

    -- `grep` of a file that can be opened, and then read and closed in the states that are `Ready`, for a string that is not empty, where the
    -- file is lines of at most 1024 bytes together, each with its newline and without a NUL: with fuel
    -- for the lines and three rounds it returns 0, and the terminal then shows, behind what it
    -- showed, each line that the string stands in, in order, behind the file's name and a colon,
    -- and no other line.
    pub do_one_file-Matches :
        (ls : List (List ℕ)) (fuel : ℕ) (w : os.State) (junk : List ℕ)
        → AreLines ls
        → (os.open_file w named).1 ≡ pos fd
        → Ready (os.open_file w named).0
        → left (os.open_file w named).0 ≡ text_of ls
        → length (text_of ls) ≤ 1024
        → (w' : os.State) × (out : List ℕ) × (do_one_file os junk
              (suc (suc (suc (length ls + fuel))))
              w
              searched
              named
            ≡ ok (some (w', pos 0)))
          × (shown w' ≡ shown (os.open_file w named).0 ++ out)
          × Matches (c ∷ s) fname ls out
    do_one_file-Matches ls fuel w junk lines found ready content le =
        let w1 = (os.open_file w named).0 in
        let rounds = suc (suc (suc (length ls + fuel))) in
        let (w', out, scanned, printed, matches) =
          scan_file-Matches ls fuel w1 junk ready lines content le in
        (
          w',
          out,
          do_one_file-opened junk rounds w
              ∙ ap (λ m. m >>= λ n. opened junk rounds n (os.open_file w named)) searched-length
              ∙ opened-found junk rounds (suc (length s)) w1 (os.open_file w named).1 found
              ∙ scanned,
          printed,
          matches,
        )
