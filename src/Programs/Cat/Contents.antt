-- ===== src/Programs/Cat/Contents.antt =====
-- What `cat` writes.
use ece391_mp.Base.{
  ℕ, zero, suc, ◌+◌, ◌≤◌, ◌<◌, ◌≡◌, ◌≢◌, ◌⊎◌, ap₂, refl, sym, ap, ◌∙◌, min, List, [], ◌∷◌, ◌++◌,
  some, ok, false, ℤ, pos, minus_one, eqb_ℤ, length, take, drop, take-append, take-drop,
  length-take, length-drop, length-append, append-nil, append_assoc, inl, inr, arith,
}
use ece391_mp.Programs.{Os, IsFile, store}
use ece391_mp.Programs.Cat.{cat_loop, cat_main}

eqb_ℤ-zero : (n : ℕ) → n ≢ 0 → eqb_ℤ (pos n) (pos 0) ≡ false
eqb_ℤ-zero n some_left = ground (arith, some_left)

eqb_ℤ-minus_one : (n : ℕ) → eqb_ℤ (pos n) minus_one ≡ false
eqb_ℤ-minus_one n = ground arith

take-store : (bytes buf : List ℕ) → take (length bytes) (store buf 0 bytes) ≡ bytes
take-store bytes buf = take-append bytes (drop (0 + length bytes) buf)

length-store : (bytes buf : List ℕ) → length bytes ≤ length (store buf 0 bytes)
length-store bytes buf =
    let e = length-append bytes (drop (0 + length bytes) buf) in omega (arith, e)

empty_or_more : (s : List ℕ) → (s ≡ []) ⊎ (0 < length s)
empty_or_more [] = inl refl
empty_or_more (c ∷ s) = inr (omega arith)

module _ (os : Os) (fd : ℤ) where
  cat_loop_end :
      (fuel : ℕ) (w : os.State) (buf : List ℕ)
      → (os.read w fd 1024).1 ≡ pos 0
      → cat_loop os (suc fuel) w fd buf ≡ ok (some ((os.read w fd 1024).0, pos 0))
  unfolding cat_loop
  cat_loop_end fuel w buf end = rw end refl

  cat_loop_more :
      (fuel n m : ℕ) (w : os.State) (buf : List ℕ)
      → (os.read w fd 1024).1 ≡ pos n
      → n ≢ 0
      → (os.write (os.read w fd 1024).0 (pos 1) (store buf 0 (os.read w fd 1024).2) (pos n)).1
        ≡ pos m
      → cat_loop os (suc fuel) w fd buf
        ≡ cat_loop os fuel
            (os.write (os.read w fd 1024).0 (pos 1) (store buf 0 (os.read w fd 1024).2) (pos n)).0
            fd
            (store buf 0 (os.read w fd 1024).2)
  unfolding cat_loop
  cat_loop_more fuel n m w buf cnt some_left written =
      rw (cnt, eqb_ℤ-zero n some_left, eqb_ℤ-minus_one n, written, eqb_ℤ-minus_one m) refl

  -- The loop copies the rest of the file to the terminal, and ends.
  cat_loop-shown :
      (Ready : os.State → Type 0) (left shown : os.State → List ℕ)
      → IsFile os fd Ready left shown
      → (fuel : ℕ) (w : os.State) (buf : List ℕ) → Ready w
      → length (left w) < fuel
      → (w' : os.State) × (cat_loop os fuel w fd buf ≡ ok (some (w', pos 0)))
        × (shown w' ≡ shown w ++ left w)
  cat_loop-shown Ready left shown file zero w buf ready enough = absurd (omega arith)
  cat_loop-shown Ready left shown file (suc fuel) w buf ready enough =
      elim (empty_or_more (left w)) [
        | inl empty ↦
            let none_left : min 1024 (length (left w)) ≡ 0 = rw empty refl in
            (
              (os.read w fd 1024).0,
              cat_loop_end fuel w buf
                  (file.read-cnt w 1024 ready (omega arith) (omega arith) ∙ ap pos none_left),
              file.read-shown w 1024 ready (omega arith) (omega arith)
                  ∙ sym (append-nil (shown w))
                  ∙ ap (λ s. shown w ++ s) (sym empty),
            )
        | inr more ↦
            let w1 = (os.read w fd 1024).0 in
            let bytes = (os.read w fd 1024).2 in
            let buf1 = store buf 0 bytes in
            let w2 = (os.write w1 (pos 1) buf1 (pos (length bytes))).0 in
            let taken : bytes ≡ take 1024 (left w) =
              file.read-bytes w 1024 ready (omega arith) (omega arith) in
            let len : length bytes ≡ min 1024 (length (left w)) =
              ap length taken ∙ length-take 1024 (left w) in
            let inside = length-store bytes buf in
            let ready1 : Ready w1 = file.read-ready w 1024 ready (omega arith) (omega arith) in
            let ready2 : Ready w2 = file.write-ready w1 buf1 (length bytes) ready1 inside in
            let some_bytes : 1 ≤ length bytes = ground (arith, len, more) in
            let step =
              cat_loop_more fuel (length bytes) (length bytes) w buf
                (file.read-cnt w 1024 ready (omega arith) (omega arith) ∙ ap pos (sym len))
                (ground (arith, len, more))
                (file.write-cnt w1 buf1 (length bytes) ready1 some_bytes inside) in
            let left2 : left w2 ≡ drop 1024 (left w) =
              file.write-left w1 buf1 (length bytes) ready1 inside
              ∙ file.read-left w 1024 ready (omega arith) (omega arith) in
            let shown2 : shown w2 ≡ shown w ++ take 1024 (left w) =
              file.write-shown w1 buf1 (length bytes) ready1 inside
              ∙ ap₂ (λ a b. a ++ b) (file.read-shown w 1024 ready (omega arith) (omega arith))
                  (take-store bytes buf ∙ taken) in
            let shorter = ap length left2 ∙ length-drop 1024 (left w) in
            let (w', e, all) =
              cat_loop-shown Ready left shown file fuel w2 buf1 ready2
                (omega (arith, shorter, more, enough)) in
            (
              w',
              step ∙ e,
              all
                  ∙ ap₂ (λ a b. a ++ b) shown2 left2
                  ∙ append_assoc (shown w) (take 1024 (left w)) (drop 1024 (left w))
                  ∙ ap (λ s. shown w ++ s) (take-drop 1024 (left w)),
            )
      ]

cat_main_steps :
    (os : Os) (fuel : ℕ) (w : os.State) (buf : List ℕ)
    → let w1 = (os.getargs w 1024).0 in
      let buf1 = store buf 0 (os.getargs w 1024).2 in
      (os.getargs w 1024).1 ≡ pos 0
      → (fd : ℕ) → (os.open_file w1 buf1).1 ≡ pos fd
      → cat_main os fuel w buf ≡ cat_loop os fuel (os.open_file w1 buf1).0 (pos fd) buf1
unfolding cat_main
cat_main_steps os fuel w buf got fd found = rw (got, found, eqb_ℤ-minus_one fd) refl

-- `cat`, when it gets its argument and the file can be opened, and where the descriptor that it gets
-- reads the file to its end, in the states that are `Ready`, as the one after `open` is: with more fuel than the file is long it returns 0, and the terminal then
-- shows what it showed before and the whole file behind it.
pub cat_main-shown :
    (os : Os) (fuel fd : ℕ) (w : os.State) (buf : List ℕ) (Ready : os.State → Type 0)
    (left shown : os.State → List ℕ)
    → IsFile os (pos fd) Ready left shown
    → let w1 = (os.getargs w 1024).0 in
      let buf1 = store buf 0 (os.getargs w 1024).2 in
      let w2 = (os.open_file w1 buf1).0 in
      (os.getargs w 1024).1 ≡ pos 0
      → (os.open_file w1 buf1).1 ≡ pos fd
      → Ready w2
      → length (left w2) < fuel
      → (w' : os.State) × (cat_main os fuel w buf ≡ ok (some (w', pos 0)))
        × (shown w' ≡ shown w2 ++ left w2)
cat_main-shown os fuel fd w buf Ready left shown file got found ready enough =
    let (w', e, all) = cat_loop-shown os (pos fd) Ready left shown file fuel _ _ ready enough in
    (w', cat_main_steps os fuel w buf got fd found ∙ e, all)
