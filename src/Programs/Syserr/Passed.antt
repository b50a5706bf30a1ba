-- ===== src/Programs/Syserr/Passed.antt =====
-- The tests of `syserr` on a kernel that refuses what they try.
use ece391_mp.Base.{
  ℕ, suc, ◌-◌, ◌≤◌, ◌<◌, ◌≡◌, ◌≢◌, ◌⊎◌, ap, ◌∙◌, true, ◌==◌, List, [], ◌∷◌, ◌++◌, Result, ok, ◌>>=◌,
  if◌then◌else◌, ℤ, pos, minus_one, eqb_ℤ, length, take, arith,
}
use ece391_mp.Programs.{IsScreen}
use ece391_mp.Programs.Support.{ece391_fdputs, ece391_strlen}
use ece391_mp.Programs.Syserr.{TestOs, Testing, Tested, neg_fd, big_fd, dot, refused, verdict}

-- A text without the NUL behind it.
abbrev pub said : List ℕ → List ℕ
said text = take (length text - 1) text

-- A call returns -1, shows nothing, and leaves as many descriptors free.
pub record Refuses {S : Type 0} (shown : S → List ℕ) (free : S → ℕ) (w w' : S) (r : ℤ)
    : Type 0 where
  pub returns : r ≡ minus_one
  pub shows_nothing : shown w' ≡ shown w
  pub same_free : free w' ≡ free w

-- What the tests expect of a kernel, where `free` is how many of its descriptors 2 to 7 are free: it refuses
-- descriptors out of range and those that are not open, writes to standard input and reads from
-- standard output, names that no file has, addresses outside of the program, and numbers of no
-- call. A directory can be opened as long as a descriptor is free.
pub record IsStrict (t : TestOs) (shown : t.os.State → List ℕ) (free : t.os.State → ℕ)
    : Type 0 where
  pub bad_read :
      (w : t.os.State) (fd : ℤ)
      → (fd ≡ neg_fd) ⊎ (fd ≡ big_fd)
      → Refuses shown free w (t.os.read w fd 31).0 (t.os.read w fd 31).1
  pub bad_write :
      (w : t.os.State) (fd : ℤ) (buf : List ℕ)
      → (fd ≡ neg_fd) ⊎ (fd ≡ big_fd)
      → Refuses shown free w (t.os.write w fd buf (pos 31)).0 (t.os.write w fd buf (pos 31)).1
  pub bad_close :
      (w : t.os.State) (fd : ℤ)
      → (fd ≡ neg_fd) ⊎ (fd ≡ big_fd)
      → Refuses shown free w (t.os.close_file w fd).0 (t.os.close_file w fd).1
  pub unopened_read :
      (w : t.os.State) (i : ℕ)
      → free w ≡ 6
      → 2 ≤ i
      → i < 8
      → Refuses shown free w (t.os.read w (pos i) 31).0 (t.os.read w (pos i) 31).1
  pub unopened_write :
      (w : t.os.State) (i : ℕ) (buf : List ℕ)
      → free w ≡ 6
      → 2 ≤ i
      → i < 8
      → Refuses shown free w
          (t.os.write w (pos i) buf (pos 31)).0
          (t.os.write w (pos i) buf (pos 31)).1
  pub unopened_close :
      (w : t.os.State) (i : ℕ)
      → free w ≡ 6
      → i < 8
      → Refuses shown free w (t.os.close_file w (pos i)).0 (t.os.close_file w (pos i)).1
  pub stdin_write :
      (w : t.os.State) (buf : List ℕ)
      → Refuses shown free w
          (t.os.write w (pos 0) buf (pos 31)).0
          (t.os.write w (pos 0) buf (pos 31)).1
  pub stdout_read :
      (w : t.os.State) → Refuses shown free w (t.os.read w (pos 1) 31).0 (t.os.read w (pos 1) 31).1
  pub absent_open :
      (w : t.os.State) (name : List ℕ)
      → (name ≡ b'h' ∷ b'e' ∷ b'l' ∷ b'l' ∷ b'o' ∷ b'o' ∷ 0 ∷ [])
        ⊎ ((name ≡ b's' ∷ b'h' ∷ b'e' ∷ b'l' ∷ 0 ∷ []) ⊎ (name ≡ 0 ∷ []))
      → Refuses shown free w (t.os.open_file w name).0 (t.os.open_file w name).1
  pub dot_open :
      (w : t.os.State) (n : ℕ)
      → free w ≡ suc n
      → ((t.os.open_file w dot).1 ≢ minus_one)
        × (free (t.os.open_file w dot).0 ≡ n)
        × (shown (t.os.open_file w dot).0 ≡ shown w)
  pub dot_full :
      (w : t.os.State)
      → free w ≡ 0
      → Refuses shown free w (t.os.open_file w dot).0 (t.os.open_file w dot).1
  pub close_shown : (w : t.os.State) (fd : ℤ) → shown (t.os.close_file w fd).0 ≡ shown w
  pub foreign_vidmap :
      (w : t.os.State) (address : ℕ)
      → (address ≡ 0) ⊎ (address ≡ 0x400000)
      → Refuses shown free w (t.vidmap w address).0 (t.vidmap w address).1
  pub unknown_call :
      (w : t.os.State) (num : ℤ)
      → (num ≡ big_fd) ⊎ ((num ≡ neg_fd) ⊎ (num ≡ pos 0))
      → Refuses shown free w (t.call_sys w num).0 (t.call_sys w num).1

module _ (t : TestOs) (shown : t.os.State → List ℕ) (free : t.os.State → ℕ)
    (screen : IsScreen t.os shown) (strict : IsStrict t shown free) where
  -- A part of a test that has found nothing.
  unfoldable pub Still : t.os.State → Result (Testing t) → Type 0
  Still w r = (s : Testing t) × (r ≡ ok s) × (s.1 ≡ 0) × (shown s.0 ≡ shown w) × (free s.0 ≡ free w)

  -- A test that ends with 0 and a text.
  abbrev pub Said : t.os.State → List ℕ → Result (Tested t) → Type 0
  Said w text r = (w' : t.os.State) × (r ≡ ok (w', 0)) × (shown w' ≡ shown w ++ text)

  pub fdputs-said :
      (w : t.os.State) (text : List ℕ)
      → ece391_strlen text ≡ ok (length text - 1)
      → (w' : t.os.State) × (ece391_fdputs t.os w (pos 1) text ≡ ok w')
        × (shown w' ≡ shown w ++ said text)
  unfolding ece391_fdputs
  fdputs-said w text len = (
    (t.os.write w (pos 1) text (pos (length text - 1))).0,
    ap (λ m. m >>= λ n. ok (t.os.write w (pos 1) text (pos n)).0) len,
    screen.write-appends w text (length text - 1) (omega arith),
  )

  pub refused-Still :
      (w w' : t.os.State) (r : ℤ) (text buf : List ℕ) (fail : ℕ)
      → fail ≡ 0
      → Refuses shown free w w' r
      → Still w (refused t w' r text fail buf)
  unfolding Still refused
  refused-Still w w' r text buf fail none_yet h =
      let minus : eqb_ℤ r minus_one ≡ true = ap (λ d. eqb_ℤ d minus_one) (h.returns) in
      (
        (w', fail, buf),
        ap
            (λ b.
              if b
              then ok (w', fail, buf)
              else (ece391_fdputs t.os w' (pos 1) text >>= λ w2. ok (w2, 2, buf)))
            minus,
        none_yet,
        h.shows_nothing,
        h.same_free,
      )

  -- A test goes on behind such a part.
  pub Said-then :
      (w : t.os.State) (text : List ℕ) (r : Result (Testing t)) (f : Testing t → Result (Tested t))
      → Still w r
      → ((s : Testing t) → s.1 ≡ 0 → free s.0 ≡ free w → Said s.0 text (f s))
      → Said w text (r >>= f)
  unfolding Still
  Said-then w text r f (s, returned, none_yet, same, same_free) next =
      let (w', ended, shows) = next s none_yet same_free in
      (w', ap (λ m. m >>= f) returned ∙ ended, shows ∙ ap (λ u. u ++ text) same)

  pub verdict-Said :
      (s : Testing t) (failed passed : List ℕ)
      → ece391_strlen passed ≡ ok (length passed - 1)
      → s.1 ≡ 0
      → Said s.0 (said passed) (verdict t s failed passed)
  unfolding verdict
  verdict-Said s failed passed len none_yet =
      let (w', put, shows) = fdputs-said s.0 passed len in
      let good : (s.1 == 0) ≡ true = ap (λ n. n == 0) none_yet in
      (
        w',
        ap
              (λ b. ece391_fdputs t.os s.0 (pos 1) (if b then passed else failed) >>= λ w2.
                ok (w2, s.1))
              good
            ∙ ap (λ m. m >>= λ w2. ok (w2, s.1)) put
            ∙ ap (λ n. ok (w', n)) none_yet,
        shows,
      )
