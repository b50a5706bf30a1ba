-- ===== src/Programs/Syserr/Decided.antt =====
-- What a test of `syserr` decides, of any kernel: whether all the calls that it makes are refused.
use ece391_mp.Base.{
  ℕ, ◌≡◌, ◌≢◌, ◌⊎◌, inl, inr, refl, ap, ◌∙◌, Bool, true, false, ◌==◌, List, [], ◌∷◌, Result, ok,
  ◌>>=◌, if◌then◌else◌, ℤ, pos, minus_one, eqb_ℤ, arith, Bool-cases,
}
use ece391_mp.Programs.Support.{ece391_strlen, ece391_fdputs}
use ece391_mp.Programs.Syserr.{
  TestOs, Testing, Tested, neg_fd, big_fd, refused, verdict, refuse_read, refuse_write,
  refuse_close, refuse_open, refuse_vidmap, refuse_call, err_neg_fd, err_big_fd, err_open,
  err_vidmap, err_stdin_out, err_syscall_num, select_test, read_fail, write_fail, close_fail,
  neg_fd_fail, neg_fd_pass, big_fd_fail, big_fd_pass, helloo_fail, shel_fail, empty_fail, open_fail,
  open_pass, null_fail, kernel_fail, vidmap_fail, vidmap_pass, stdin_fail, stdout_fail,
  stdin_out_fail, stdin_out_pass, zero_num_fail, big_num_fail, neg_num_fail, syscall_num_fail,
  syscall_num_pass,
}

-- A call that a test expects to be refused.
pub data Check : Type 0 where
  reads writes closes : ℤ → Check
  opens : List ℕ → Check
  maps : ℕ → Check
  calls : ℤ → Check

-- The calls of a test: those with a descriptor that is none, of files that do not exist, of addresses
-- that are not the program's, and so on. Tests 3 and 5 have loops and are not listed.
pub data Test : ℕ → List Check → Type 0 where
  test_neg_fd : Test b'1' (reads neg_fd ∷ writes neg_fd ∷ closes neg_fd ∷ [])
  test_big_fd : Test b'2' (reads big_fd ∷ writes big_fd ∷ closes big_fd ∷ [])
  test_open : Test b'4' (
      opens (b'h' ∷ b'e' ∷ b'l' ∷ b'l' ∷ b'o' ∷ b'o' ∷ 0 ∷ [])
      ∷ opens (b's' ∷ b'h' ∷ b'e' ∷ b'l' ∷ 0 ∷ [])
      ∷ opens (0 ∷ [])
      ∷ [])
  test_vidmap : Test b'6' (maps 0 ∷ maps 0x400000 ∷ [])
  test_stdin_out : Test b'7' (writes (pos 0) ∷ reads (pos 1) ∷ [])
  test_syscall_num : Test b'8' (calls big_fd ∷ calls neg_fd ∷ calls (pos 0) ∷ [])

-- The buffer that a test starts with: one on the stack, if it has any.
abbrev pub buffer_for : ℕ → List ℕ → List ℕ
buffer_for c stack =
    if c == b'4' then [] else if c == b'6' then [] else if c == b'8' then [] else stack

module _ (t : TestOs) where
  -- What the kernel answers to a call, and the code of the test for it with the text of its complaint.
  unfoldable pub answer : Check → Testing t → ℤ
  answer (reads fd) s = (t.os.read s.0 fd 31).1
  answer (writes fd) s = (t.os.write s.0 fd s.2 (pos 31)).1
  answer (closes fd) s = (t.os.close_file s.0 fd).1
  answer (opens name) s = (t.os.open_file s.0 name).1
  answer (maps address) s = (t.vidmap s.0 address).1
  answer (calls num) s = (t.call_sys s.0 num).1

  unfoldable pub perform_check : Check → Testing t → List ℕ → Result (Testing t)
  unfolding refuse_read refuse_write refuse_close refuse_open refuse_vidmap refuse_call
  perform_check (reads fd) s text = refuse_read t s fd text
  perform_check (writes fd) s text = refuse_write t s fd text
  perform_check (closes fd) s text = refuse_close t s fd text
  perform_check (opens name) s text = refuse_open t s name text
  perform_check (maps address) s text = refuse_vidmap t s address text
  perform_check (calls num) s text = refuse_call t s num text

  -- The answers to a list of calls, each in the state that the one before it and the complaint about it
  -- have led to: whether all of them are -1.
  pub data Answers : List Check → Testing t → Bool → Type 0 where
    all_made : (s : Testing t) → Answers [] s true
    refuses_next :
        (c : Check) (cs : List Check) (s s' : Testing t) (text : List ℕ) (b : Bool)
        → answer c s ≡ minus_one
        → perform_check c s text ≡ ok s'
        → Answers cs s' b
        → Answers (c ∷ cs) s b
    accepts_next :
        (c : Check) (cs : List Check) (s s' : Testing t) (text : List ℕ) (b : Bool)
        → answer c s ≢ minus_one
        → perform_check c s text ≡ ok s'
        → Answers cs s' b
        → Answers (c ∷ cs) s false

  fdputs-ok :
      (w : t.os.State) (text : List ℕ) (n : ℕ)
      → ece391_strlen text ≡ ok n
      → (w' : t.os.State) × (ece391_fdputs t.os w (pos 1) text ≡ ok w')
  unfolding ece391_fdputs
  fdputs-ok w text n len = (
    (t.os.write w (pos 1) text (pos n)).0,
    ap (λ l. l >>= λ m. ok (t.os.write w (pos 1) text (pos m)).0) len,
  )

  -- What a check comes to: `fail` stays as it is exactly if the answer is -1.
  abbrev Step : ℤ → ℕ → Result (Testing t) → Type 0
  Step r fail m =
      (s' : Testing t) × (m ≡ ok s')
      × (((r ≡ minus_one) × (s'.1 ≡ fail)) ⊎ ((r ≢ minus_one) × (s'.1 ≡ 2)))

  eqb_ℤ-yes : (r : ℤ) → eqb_ℤ r minus_one ≡ true → r ≡ minus_one
  eqb_ℤ-yes r e = ground arith

  eqb_ℤ-no : (r : ℤ) → eqb_ℤ r minus_one ≡ false → r ≢ minus_one
  eqb_ℤ-no r e = λ same. cc

  refused-Step :
      (w : t.os.State) (r : ℤ) (text : List ℕ) (fail : ℕ) (buf : List ℕ) (n : ℕ)
      → ece391_strlen text ≡ ok n
      → Step r fail (refused t w r text fail buf)
  unfolding refused
  refused-Step w r text fail buf n len =
      let (w', put) = fdputs-ok w text n len in
      elim (Bool-cases (eqb_ℤ r minus_one)) [
        | inl yes' ↦ ((w, fail, buf), rw yes' refl, inl (eqb_ℤ-yes r yes', refl))
        | inr no' ↦ (
          (w', 2, buf),
          rw no' (ap (λ m. m >>= λ v. ok (v, 2, buf)) put),
          inr (eqb_ℤ-no r no', refl),
        )
      ]

  perform_check-Step :
      (c : Check) (s : Testing t) (text : List ℕ) (n : ℕ)
      → ece391_strlen text ≡ ok n
      → Step (answer c s) s.1 (perform_check c s text)
  unfolding answer perform_check refuse_read refuse_write refuse_close refuse_open refuse_vidmap
      refuse_call
  perform_check-Step (reads fd) s text n len = refused-Step _ _ text s.1 _ n len
  perform_check-Step (writes fd) s text n len = refused-Step _ _ text s.1 _ n len
  perform_check-Step (closes fd) s text n len = refused-Step _ _ text s.1 _ n len
  perform_check-Step (opens name) s text n len = refused-Step _ _ text s.1 _ n len
  perform_check-Step (maps address) s text n len = refused-Step _ _ text s.1 _ n len
  perform_check-Step (calls num) s text n len = refused-Step _ _ text s.1 _ n len

  verdict-ok :
      (s : Testing t) (failed passed : List ℕ) (n m : ℕ)
      → ece391_strlen failed ≡ ok n
      → ece391_strlen passed ≡ ok m
      → (w' : t.os.State) × (verdict t s failed passed ≡ ok (w', s.1))
  unfolding verdict
  verdict-ok s failed passed n m fl pl = elim (Bool-cases (s.1 == 0)) [
    | inl good ↦
        let (w', put) = fdputs-ok s.0 passed m pl in
        (w', rw good (ap (λ l. l >>= λ v. ok (v, s.1)) put))
    | inr bad ↦
        let (w', put) = fdputs-ok s.0 failed n fl in
        (w', rw bad (ap (λ l. l >>= λ v. ok (v, s.1)) put))
  ]

  -- What is left of a test, for the calls that it still makes.
  abbrev Decides : List Check → Testing t → Result (Tested t) → Type 0
  Decides cs s m =
      (w' : t.os.State) × (b : Bool) × (m ≡ ok (w', if b then s.1 else 2)) × Answers cs s b

  verdict-Decides :
      (s : Testing t) (failed passed : List ℕ) (n m : ℕ)
      → ece391_strlen failed ≡ ok n
      → ece391_strlen passed ≡ ok m
      → Decides [] s (verdict t s failed passed)
  verdict-Decides s failed passed n m fl pl =
      let (w', e) = verdict-ok s failed passed n m fl pl in (w', true, e, all_made s)

  either_way : (b : Bool) (n : ℕ) → (if b then n else n) ≡ n
  either_way true n = refl
  either_way false n = refl

  check-Decides :
      (c : Check) (cs : List Check) (s : Testing t) (text : List ℕ) (n : ℕ)
      (next : Testing t → Result (Tested t))
      → ece391_strlen text ≡ ok n
      → ((s' : Testing t) → Decides cs s' (next s'))
      → Decides (c ∷ cs) s (perform_check c s text >>= next)
  check-Decides c cs s text n next len rest =
      let (s', made, which) = perform_check-Step c s text n len in
      let (w', b, e, answers) = rest s' in
      let whole = ap (λ m. m >>= next) made ∙ e in
      elim which [
        | inl kept ↦ (
          w',
          b,
          whole ∙ ap (λ f. ok (w', if b then f else 2)) (kept.1),
          refuses_next c cs s s' text b (kept.0) made answers,
        )
        | inr lost ↦ (
          w',
          false,
          whole
              ∙ ap (λ f. ok (w', if b then f else 2)) (lost.1)
              ∙ ap (λ f. ok (w', f)) (either_way b 2),
          accepts_next c cs s s' text b (lost.0) made answers,
        )
      ]

  -- Each of the tests 1, 2, 4, 6, 7 and 8 of `syserr` ends on every kernel, and what it returns tells
  -- whether the kernel has answered -1 to all of the calls that the test is listed with: 0 if it has,
  -- and 2 if it has answered anything else to one of them, whatever it has answered to the others.
  pub select_test-Answers :
      (c : ℕ) (cs : List Check) (w : t.os.State) (stack : List ℕ)
      → Test c cs
      → (w' : t.os.State) × (b : Bool) × (select_test t w stack c ≡ ok (w', if b then 0 else 2))
        × Answers cs (w, 0, buffer_for c stack) b
  unfolding select_test err_neg_fd err_big_fd err_open err_vidmap err_stdin_out err_syscall_num
      perform_check ece391_strlen
  select_test-Answers c cs w stack test_neg_fd =
      check-Decides _ _ (w, 0, stack) read_fail _ _ refl
        (λ s1. check-Decides _ _ s1 write_fail _ _ refl (λ s2.
          check-Decides _ _ s2 close_fail _ _ refl
            (λ s3. verdict-Decides s3 neg_fd_fail neg_fd_pass _ _ refl refl)))
  select_test-Answers c cs w stack test_big_fd =
      check-Decides _ _ (w, 0, stack) read_fail _ _ refl
        (λ s1. check-Decides _ _ s1 write_fail _ _ refl (λ s2.
          check-Decides _ _ s2 close_fail _ _ refl
            (λ s3. verdict-Decides s3 big_fd_fail big_fd_pass _ _ refl refl)))
  select_test-Answers c cs w stack test_open =
      check-Decides _ _ (w, 0, []) helloo_fail _ _ refl
        (λ s1. check-Decides _ _ s1 shel_fail _ _ refl (λ s2.
          check-Decides _ _ s2 empty_fail _ _ refl
            (λ s3. verdict-Decides s3 open_fail open_pass _ _ refl refl)))
  select_test-Answers c cs w stack test_vidmap =
      check-Decides _ _ (w, 0, []) null_fail _ _ refl
        (λ s1.
          check-Decides _ _ s1 kernel_fail _ _ refl
            (λ s2. verdict-Decides s2 vidmap_fail vidmap_pass _ _ refl refl))
  select_test-Answers c cs w stack test_stdin_out =
      check-Decides _ _ (w, 0, stack) stdin_fail _ _ refl
        (λ s1.
          check-Decides _ _ s1 stdout_fail _ _ refl
            (λ s2. verdict-Decides s2 stdin_out_fail stdin_out_pass _ _ refl refl))
  select_test-Answers c cs w stack test_syscall_num =
      check-Decides _ _ (w, 0, []) zero_num_fail _ _ refl
        (λ s1. check-Decides _ _ s1 big_num_fail _ _ refl (λ s2.
          check-Decides _ _ s2 neg_num_fail _ _ refl
            (λ s3. verdict-Decides s3 syscall_num_fail syscall_num_pass _ _ refl refl)))
