-- ===== src/Programs/Syserr/Report.antt =====
-- What `syserr` reports of a kernel that refuses what its tests try.
use ece391_mp.Base.{
  ℕ, zero, suc, ◌+◌, ◌-◌, ◌≤◌, ◌≡◌, ◌≢◌, ◌⊎◌, inl, inr, refl, sym, ap, ◌∙◌, Bool, true, false, ◌==◌,
  List, ◌++◌, Result, ok, ◌>>=◌, if◌then◌else◌, ℤ, pos, negsuc, minus_one, eqb_ℤ, arith, subst,
}
use ece391_mp.Programs.{IsScreen}
use ece391_mp.Programs.Support.{ece391_strlen}
use ece391_mp.Programs.Syserr.{
  TestOs, Testing, dot, verdict, refuse_read, refuse_write, refuse_close, open_lots, close_lots,
  err_open_lots, close_unopened_from, read_unopened_from, write_unopened_from, err_unopened,
  select_test, neg_fd_pass, big_fd_pass, open_lots_pass, open_pass, close_unopened, read_unopened,
  write_unopened, unopened_fail, unopened_pass, vidmap_pass, stdin_out_pass, syscall_num_pass,
}
use ece391_mp.Programs.Syserr.Passed.{said, IsStrict, Still, fdputs-said}
use ece391_mp.Programs.Syserr.Verdicts.{
  Tells, FindsNone, read-Still, write-Still, close-Still, go_on, reports, err_neg_fd-Tells,
  err_big_fd-Tells, err_open-Tells, err_vidmap-Tells, err_stdin_out-Tells, err_syscall_num-Tells,
}

eqb_ℤ-other : (r : ℤ) → r ≢ minus_one → eqb_ℤ r minus_one ≡ false
eqb_ℤ-other (pos n) other = ground arith
eqb_ℤ-other (negsuc zero) other = absurd (other refl)
eqb_ℤ-other (negsuc (suc n)) other = ground arith

-- The text of the test that is chosen, without its NUL.
abbrev pub passed_text : ℕ → List ℕ
passed_text c =
    if c == b'1'
    then said neg_fd_pass
    else if c == b'2'
    then said big_fd_pass
    else if c == b'3'
    then said open_lots_pass
    else if c == b'4'
    then said open_pass
    else if c == b'5'
    then said unopened_pass
    else if c == b'6'
    then said vidmap_pass
    else if c == b'7'
    then said stdin_out_pass
    else said syscall_num_pass

module _ (t : TestOs) (shown : t.os.State → List ℕ) (free : t.os.State → ℕ)
    (screen : IsScreen t.os shown) (strict : IsStrict t shown free) where
  Still-then :
      (w : t.os.State) (r : Result (Testing t)) (f : Testing t → Result (Testing t))
      → FindsNone t shown free screen strict w r
      → ((s : Testing t)
          → s.1 ≡ 0
          → free s.0 ≡ free w
          → FindsNone t shown free screen strict s.0 (f s))
      → FindsNone t shown free screen strict w (r >>= f)
  unfolding Still
  Still-then w r f (s, returned, none_yet, same, same_free) next =
      let (s', ended, none_then, shows, leaves) = next s none_yet same_free in
      (s', ap (λ m. m >>= f) returned ∙ ended, none_then, shows ∙ same, leaves ∙ same_free)

  done-Still : (s : Testing t) → s.1 ≡ 0 → FindsNone t shown free screen strict s.0 (ok s)
  unfolding Still
  done-Still s none_yet = (s, refl, none_yet, refl, refl)

  -- The three loops of test 5.
  close_from-Still :
      (rounds i : ℕ) (s : Testing t)
      → s.1 ≡ 0
      → free s.0 ≡ 6
      → i + rounds ≤ 8
      → FindsNone t shown free screen strict s.0 (close_unopened_from t s rounds i)
  unfolding close_unopened_from
  close_from-Still zero i s none_yet all_free le = done-Still s none_yet
  close_from-Still (suc rounds) i s none_yet all_free le =
      Still-then s.0 (refuse_close t s (pos i) close_unopened)
        (λ s'. close_unopened_from t s' rounds (i + 1))
        (close-Still t shown free screen strict s (pos i) close_unopened none_yet
          (strict.unopened_close s.0 i all_free (omega arith)))
        (λ s' e f. close_from-Still rounds (i + 1) s' e (f ∙ all_free) (omega arith))

  read_from-Still :
      (rounds i : ℕ) (s : Testing t)
      → s.1 ≡ 0
      → free s.0 ≡ 6
      → 2 ≤ i
      → i + rounds ≤ 8
      → FindsNone t shown free screen strict s.0 (read_unopened_from t s rounds i)
  unfolding read_unopened_from
  read_from-Still zero i s none_yet all_free lo le = done-Still s none_yet
  read_from-Still (suc rounds) i s none_yet all_free lo le =
      Still-then s.0 (refuse_read t s (pos i) read_unopened)
        (λ s'. read_unopened_from t s' rounds (i + 1))
        (read-Still t shown free screen strict s (pos i) read_unopened none_yet
          (strict.unopened_read s.0 i all_free lo (omega arith)))
        (λ s' e f. read_from-Still rounds (i + 1) s' e (f ∙ all_free) (omega arith) (omega arith))

  write_from-Still :
      (rounds i : ℕ) (s : Testing t)
      → s.1 ≡ 0
      → free s.0 ≡ 6
      → 2 ≤ i
      → i + rounds ≤ 8
      → FindsNone t shown free screen strict s.0 (write_unopened_from t s rounds i)
  unfolding write_unopened_from
  write_from-Still zero i s none_yet all_free lo le = done-Still s none_yet
  write_from-Still (suc rounds) i s none_yet all_free lo le =
      Still-then s.0 (refuse_write t s (pos i) write_unopened)
        (λ s'. write_unopened_from t s' rounds (i + 1))
        (write-Still t shown free screen strict s (pos i) write_unopened none_yet
          (strict.unopened_write s.0 i s.2 all_free lo (omega arith)))
        (λ s' e f. write_from-Still rounds (i + 1) s' e (f ∙ all_free) (omega arith) (omega arith))

  err_unopened-Tells :
      (w : t.os.State) (buf : List ℕ)
      → free w ≡ 6
      → Tells t shown free screen strict w (said unopened_pass) (err_unopened t w buf)
  unfolding err_unopened ece391_strlen
  err_unopened-Tells w buf all_free =
      let last = λ (s3 : Testing t). verdict t s3 unopened_fail unopened_pass in
      let third = λ (s2 : Testing t). write_unopened_from t s2 6 2 >>= last in
      let second = λ (s1 : Testing t). read_unopened_from t s1 6 2 >>= third in
      go_on t shown free screen strict w (said unopened_pass)
        (close_unopened_from t (w, 0, buf) 8 0) second
        (close_from-Still 8 0 (w, 0, buf) refl all_free (omega arith))
        (λ s1 e1 f1.
          go_on t shown free screen strict s1.0 (said unopened_pass) (read_unopened_from t s1 6 2)
            third (read_from-Still 6 2 s1 e1 (f1 ∙ all_free) (omega arith) (omega arith))
            (λ s2 e2 f2.
              go_on t shown free screen strict s2.0 (said unopened_pass)
                (write_unopened_from t s2 6 2) last
                (write_from-Still 6 2 s2 e2 (f2 ∙ f1 ∙ all_free) (omega arith) (omega arith))
                (λ s3 e3 f3.
                  reports t shown free screen strict s3 unopened_fail unopened_pass refl e3)))

  -- Test 3: the last of the seven calls is refused.
  open_lots-next :
      (rounds cnt : ℕ) (w : t.os.State) {b : Bool}
      → eqb_ℤ (t.os.open_file w dot).1 minus_one ≡ b
      → open_lots t w (suc rounds) cnt
        ≡ open_lots t (t.os.open_file w dot).0 rounds (if b then cnt + 1 else cnt)
  unfolding open_lots
  open_lots-next rounds cnt w e =
      ap (λ b. open_lots t (t.os.open_file w dot).0 rounds (if b then cnt + 1 else cnt)) e

  open_lots-count :
      (rounds n : ℕ) (w : t.os.State) (cnt : ℕ)
      → free w ≡ n
      → ((open_lots t w rounds cnt).1 ≡ cnt + (rounds - n))
        × (shown (open_lots t w rounds cnt).0 ≡ shown w)
  unfolding open_lots
  open_lots-count zero n w cnt left = (omega arith, refl)
  open_lots-count (suc rounds) zero w cnt left =
      let r = strict.dot_full w left in
      let (counted, same) =
        open_lots-count rounds zero (t.os.open_file w dot).0 (cnt + 1) (r.same_free ∙ left) in
      let step = open_lots-next rounds cnt w (ap (λ d. eqb_ℤ d minus_one) (r.returns)) in
      (
        ap (λ s. s.1) step ∙ counted ∙ omega arith,
        ap (λ s. shown s.0) step ∙ same ∙ r.shows_nothing,
      )
  open_lots-count (suc rounds) (suc n) w cnt left =
      let (good, fewer, quiet) = strict.dot_open w n left in
      let (counted, same) = open_lots-count rounds n (t.os.open_file w dot).0 cnt fewer in
      let step = open_lots-next rounds cnt w (eqb_ℤ-other (t.os.open_file w dot).1 good) in
      (ap (λ s. s.1) step ∙ counted ∙ omega arith, ap (λ s. shown s.0) step ∙ same ∙ quiet)

  close_lots-shown : (rounds i : ℕ) (w : t.os.State) → shown (close_lots t w rounds i) ≡ shown w
  unfolding close_lots
  close_lots-shown zero i w = refl
  close_lots-shown (suc rounds) i w =
      close_lots-shown rounds (i + 1) (t.os.close_file w (pos i)).0 ∙ strict.close_shown w (pos i)

  err_open_lots-Tells :
      (w : t.os.State)
      → free w ≡ 6
      → Tells t shown free screen strict w (said open_lots_pass) (err_open_lots t w)
  unfolding err_open_lots ece391_strlen
  err_open_lots-Tells w all_free =
      let (counted, same) = open_lots-count 7 6 w 0 all_free in
      let w1 = close_lots t (open_lots t w 7 0).0 6 2 in
      let (w', put, shows) = fdputs-said t shown free screen strict w1 open_lots_pass refl in
      let one : ((open_lots t w 7 0).1 == 1) ≡ true = ap (λ n. n == 1) counted in
      (
        w',
        rw one (ap (λ m. m >>= λ w2. ok (w2, 0)) put),
        shows
            ∙ ap (λ u. u ++ said open_lots_pass)
                (close_lots-shown 6 2 (open_lots t w 7 0).0 ∙ same),
      )

  -- The numbers of the tests.
  chosen :
      (w : t.os.State) (stack : List ℕ) (c : ℕ)
      → free w ≡ 6
      → (c ≡ b'1')
        ⊎ ((c ≡ b'2')
            ⊎ ((c ≡ b'3') ⊎ ((c ≡ b'4') ⊎ ((c ≡ b'5') ⊎ ((c ≡ b'6') ⊎ ((c ≡ b'7') ⊎ (c ≡ b'8')))))))
      → Tells t shown free screen strict w (passed_text c) (select_test t w stack c)
  unfolding select_test
  chosen w stack c all_free which =
      let P =
        λ (d : ℕ). Tells t shown free screen strict w (passed_text d) (select_test t w stack d) in
      elim which [
        | inl e ↦ subst P (sym e) (err_neg_fd-Tells t shown free screen strict w stack)
        | inr which2 ↦ elim which2 [
          | inl e ↦ subst P (sym e) (err_big_fd-Tells t shown free screen strict w stack)
          | inr which3 ↦ elim which3 [
            | inl e ↦ subst P (sym e) (err_open_lots-Tells w all_free)
            | inr which4 ↦ elim which4 [
              | inl e ↦ subst P (sym e) (err_open-Tells t shown free screen strict w)
              | inr which5 ↦ elim which5 [
                | inl e ↦ subst P (sym e) (err_unopened-Tells w stack all_free)
                | inr which6 ↦ elim which6 [
                  | inl e ↦ subst P (sym e) (err_vidmap-Tells t shown free screen strict w)
                  | inr which7 ↦ elim which7 [
                    | inl e ↦
                        subst P (sym e) (err_stdin_out-Tells t shown free screen strict w stack)
                    | inr e ↦ subst P (sym e) (err_syscall_num-Tells t shown free screen strict w)
                  ]
                ]
              ]
            ]
          ]
        ]
      ]

  one_of_eight :
      (c : ℕ)
      → b'1' ≤ c
      → c ≤ b'8'
      → (c ≡ b'1')
        ⊎ ((c ≡ b'2')
            ⊎ ((c ≡ b'3') ⊎ ((c ≡ b'4') ⊎ ((c ≡ b'5') ⊎ ((c ≡ b'6') ⊎ ((c ≡ b'7') ⊎ (c ≡ b'8')))))))
  one_of_eight c lo hi = omega arith

  -- Each of the tests 1 to 8 of `syserr`, on a kernel that refuses what the program expects it to refuse
  -- and with none of the descriptors 2 to 7 open, returns 0 and puts on the terminal that it has
  -- passed, and nothing else.
  pub select_test-passes :
      (w : t.os.State) (stack : List ℕ) (c : ℕ)
      → free w ≡ 6
      → b'1' ≤ c
      → c ≤ b'8'
      → (w' : t.os.State) × (select_test t w stack c ≡ ok (w', 0))
        × (shown w' ≡ shown w ++ passed_text c)
  select_test-passes w stack c all_free lo hi = chosen w stack c all_free (one_of_eight c lo hi)
