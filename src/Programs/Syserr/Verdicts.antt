-- ===== src/Programs/Syserr/Verdicts.antt =====
-- What the tests of `syserr` report of a kernel that refuses what they try.
use ece391_mp.Base.{
  ℕ, ◌-◌, ◌≡◌, ◌⊎◌, inl, inr, refl, List, [], ◌∷◌, Result, ok, ◌>>=◌, ℤ, pos, length,
}
use ece391_mp.Programs.{IsScreen}
use ece391_mp.Programs.Support.{ece391_strlen}
use ece391_mp.Programs.Syserr.{
  TestOs, Testing, Tested, neg_fd, big_fd, verdict, refuse_read, refuse_write, refuse_close,
  refuse_open, refuse_vidmap, refuse_call, err_neg_fd, err_big_fd, err_open, err_vidmap,
  err_stdin_out, err_syscall_num, read_fail, write_fail, close_fail, neg_fd_fail, neg_fd_pass,
  big_fd_fail, big_fd_pass, helloo_fail, shel_fail, empty_fail, open_fail, open_pass, null_fail,
  kernel_fail, vidmap_fail, vidmap_pass, stdin_fail, stdout_fail, stdin_out_fail, stdin_out_pass,
  zero_num_fail, big_num_fail, neg_num_fail, syscall_num_fail, syscall_num_pass,
}
use ece391_mp.Programs.Syserr.Passed.{
  said, Refuses, IsStrict, Still, Said, refused-Still, Said-then, verdict-Said,
}

module _ (t : TestOs) (shown : t.os.State → List ℕ) (free : t.os.State → ℕ)
    (screen : IsScreen t.os shown) (strict : IsStrict t shown free) where
  abbrev pub Tells : t.os.State → List ℕ → Result (Tested t) → Type 0
  Tells = Said t shown free screen strict

  abbrev pub FindsNone : t.os.State → Result (Testing t) → Type 0
  FindsNone = Still t shown free screen strict

  pub read-Still :
      (s : Testing t) (fd : ℤ) (text : List ℕ)
      → s.1 ≡ 0
      → Refuses shown free s.0 (t.os.read s.0 fd 31).0 (t.os.read s.0 fd 31).1
      → FindsNone s.0 (refuse_read t s fd text)
  unfolding refuse_read
  read-Still s fd text e h = refused-Still t shown free screen strict s.0 _ _ text _ s.1 e h

  pub write-Still :
      (s : Testing t) (fd : ℤ) (text : List ℕ)
      → s.1 ≡ 0
      → Refuses shown free s.0 (t.os.write s.0 fd s.2 (pos 31)).0 (t.os.write s.0 fd s.2 (pos 31)).1
      → FindsNone s.0 (refuse_write t s fd text)
  unfolding refuse_write
  write-Still s fd text e h = refused-Still t shown free screen strict s.0 _ _ text _ s.1 e h

  pub close-Still :
      (s : Testing t) (fd : ℤ) (text : List ℕ)
      → s.1 ≡ 0
      → Refuses shown free s.0 (t.os.close_file s.0 fd).0 (t.os.close_file s.0 fd).1
      → FindsNone s.0 (refuse_close t s fd text)
  unfolding refuse_close
  close-Still s fd text e h = refused-Still t shown free screen strict s.0 _ _ text _ s.1 e h

  open-Still :
      (s : Testing t) (name text : List ℕ)
      → s.1 ≡ 0
      → Refuses shown free s.0 (t.os.open_file s.0 name).0 (t.os.open_file s.0 name).1
      → FindsNone s.0 (refuse_open t s name text)
  unfolding refuse_open
  open-Still s name text e h = refused-Still t shown free screen strict s.0 _ _ text _ s.1 e h

  vidmap-Still :
      (s : Testing t) (address : ℕ) (text : List ℕ)
      → s.1 ≡ 0
      → Refuses shown free s.0 (t.vidmap s.0 address).0 (t.vidmap s.0 address).1
      → FindsNone s.0 (refuse_vidmap t s address text)
  unfolding refuse_vidmap
  vidmap-Still s address text e h = refused-Still t shown free screen strict s.0 _ _ text _ s.1 e h

  call-Still :
      (s : Testing t) (num : ℤ) (text : List ℕ)
      → s.1 ≡ 0
      → Refuses shown free s.0 (t.call_sys s.0 num).0 (t.call_sys s.0 num).1
      → FindsNone s.0 (refuse_call t s num text)
  unfolding refuse_call
  call-Still s num text e h = refused-Still t shown free screen strict s.0 _ _ text _ s.1 e h

  pub go_on :
      (w : t.os.State) (text : List ℕ) (r : Result (Testing t)) (f : Testing t → Result (Tested t))
      → FindsNone w r
      → ((s : Testing t) → s.1 ≡ 0 → free s.0 ≡ free w → Tells s.0 text (f s))
      → Tells w text (r >>= f)
  go_on = Said-then t shown free screen strict

  pub reports :
      (s : Testing t) (failed passed : List ℕ)
      → ece391_strlen passed ≡ ok (length passed - 1)
      → s.1 ≡ 0
      → Tells s.0 (said passed) (verdict t s failed passed)
  reports = verdict-Said t shown free screen strict

  -- Tests 1 and 2.
  bad_fd-Tells :
      (w : t.os.State) (buf : List ℕ) (fd : ℤ) (failed passed : List ℕ)
      → (fd ≡ neg_fd) ⊎ (fd ≡ big_fd)
      → ece391_strlen passed ≡ ok (length passed - 1)
      → Tells w (said passed) (
          refuse_read t (w, 0, buf) fd read_fail >>= λ s1.
          (refuse_write t s1 fd write_fail >>= λ s2.
          (refuse_close t s2 fd close_fail >>= λ s3. verdict t s3 failed passed)))
  bad_fd-Tells w buf fd failed passed bad len =
      let last = λ (s3 : Testing t). verdict t s3 failed passed in
      let closing = λ (s2 : Testing t). refuse_close t s2 fd close_fail >>= last in
      let writing = λ (s1 : Testing t). refuse_write t s1 fd write_fail >>= closing in
      go_on w (said passed) (refuse_read t (w, 0, buf) fd read_fail) writing
        (read-Still (w, 0, buf) fd read_fail refl (strict.bad_read w fd bad))
        (λ s1 e1 f1.
          go_on s1.0 (said passed) (refuse_write t s1 fd write_fail) closing
            (write-Still s1 fd write_fail e1 (strict.bad_write s1.0 fd s1.2 bad))
            (λ s2 e2 f2.
              go_on s2.0 (said passed) (refuse_close t s2 fd close_fail) last
                (close-Still s2 fd close_fail e2 (strict.bad_close s2.0 fd bad))
                (λ s3 e3 f3. reports s3 failed passed len e3)))

  pub err_neg_fd-Tells :
      (w : t.os.State) (buf : List ℕ) → Tells w (said neg_fd_pass) (err_neg_fd t w buf)
  unfolding err_neg_fd ece391_strlen
  err_neg_fd-Tells w buf = bad_fd-Tells w buf neg_fd neg_fd_fail neg_fd_pass (inl refl) refl

  pub err_big_fd-Tells :
      (w : t.os.State) (buf : List ℕ) → Tells w (said big_fd_pass) (err_big_fd t w buf)
  unfolding err_big_fd ece391_strlen
  err_big_fd-Tells w buf = bad_fd-Tells w buf big_fd big_fd_fail big_fd_pass (inr refl) refl

  -- Test 4.
  pub err_open-Tells : (w : t.os.State) → Tells w (said open_pass) (err_open t w)
  unfolding err_open ece391_strlen
  err_open-Tells w =
      let helloo = b'h' ∷ b'e' ∷ b'l' ∷ b'l' ∷ b'o' ∷ b'o' ∷ 0 ∷ [] in
      let shel = b's' ∷ b'h' ∷ b'e' ∷ b'l' ∷ 0 ∷ [] in
      let last = λ (s3 : Testing t). verdict t s3 open_fail open_pass in
      let third = λ (s2 : Testing t). refuse_open t s2 (0 ∷ []) empty_fail >>= last in
      let second = λ (s1 : Testing t). refuse_open t s1 shel shel_fail >>= third in
      go_on w (said open_pass) (refuse_open t (w, 0, []) helloo helloo_fail) second
        (open-Still (w, 0, []) helloo helloo_fail refl (strict.absent_open w helloo (inl refl)))
        (λ s1 e1 f1.
          go_on s1.0 (said open_pass) (refuse_open t s1 shel shel_fail) third
            (open-Still s1 shel shel_fail e1 (strict.absent_open s1.0 shel (inr (inl refl))))
            (λ s2 e2 f2.
              go_on s2.0 (said open_pass) (refuse_open t s2 (0 ∷ []) empty_fail) last
                (open-Still s2 (0 ∷ []) empty_fail e2
                  (strict.absent_open s2.0 (0 ∷ []) (inr (inr refl))))
                (λ s3 e3 f3. reports s3 open_fail open_pass refl e3)))

  -- Test 6.
  pub err_vidmap-Tells : (w : t.os.State) → Tells w (said vidmap_pass) (err_vidmap t w)
  unfolding err_vidmap ece391_strlen
  err_vidmap-Tells w =
      let last = λ (s2 : Testing t). verdict t s2 vidmap_fail vidmap_pass in
      let second = λ (s1 : Testing t). refuse_vidmap t s1 0x400000 kernel_fail >>= last in
      go_on w (said vidmap_pass) (refuse_vidmap t (w, 0, []) 0 null_fail) second
        (vidmap-Still (w, 0, []) 0 null_fail refl (strict.foreign_vidmap w 0 (inl refl)))
        (λ s1 e1 f1.
          go_on s1.0 (said vidmap_pass) (refuse_vidmap t s1 0x400000 kernel_fail) last
            (vidmap-Still s1 0x400000 kernel_fail e1
              (strict.foreign_vidmap s1.0 0x400000 (inr refl)))
            (λ s2 e2 f2. reports s2 vidmap_fail vidmap_pass refl e2))

  -- Test 7.
  pub err_stdin_out-Tells :
      (w : t.os.State) (buf : List ℕ) → Tells w (said stdin_out_pass) (err_stdin_out t w buf)
  unfolding err_stdin_out ece391_strlen
  err_stdin_out-Tells w buf =
      let last = λ (s2 : Testing t). verdict t s2 stdin_out_fail stdin_out_pass in
      let second = λ (s1 : Testing t). refuse_read t s1 (pos 1) stdout_fail >>= last in
      go_on w (said stdin_out_pass) (refuse_write t (w, 0, buf) (pos 0) stdin_fail) second
        (write-Still (w, 0, buf) (pos 0) stdin_fail refl (strict.stdin_write w buf))
        (λ s1 e1 f1.
          go_on s1.0 (said stdin_out_pass) (refuse_read t s1 (pos 1) stdout_fail) last
            (read-Still s1 (pos 1) stdout_fail e1 (strict.stdout_read s1.0))
            (λ s2 e2 f2. reports s2 stdin_out_fail stdin_out_pass refl e2))

  -- Test 8.
  pub err_syscall_num-Tells :
      (w : t.os.State) → Tells w (said syscall_num_pass) (err_syscall_num t w)
  unfolding err_syscall_num ece391_strlen
  err_syscall_num-Tells w =
      let last = λ (s3 : Testing t). verdict t s3 syscall_num_fail syscall_num_pass in
      let third = λ (s2 : Testing t). refuse_call t s2 (pos 0) neg_num_fail >>= last in
      let second = λ (s1 : Testing t). refuse_call t s1 neg_fd big_num_fail >>= third in
      go_on w (said syscall_num_pass) (refuse_call t (w, 0, []) big_fd zero_num_fail) second
        (call-Still (w, 0, []) big_fd zero_num_fail refl (strict.unknown_call w big_fd (inl refl)))
        (λ s1 e1 f1.
          go_on s1.0 (said syscall_num_pass) (refuse_call t s1 neg_fd big_num_fail) third
            (call-Still s1 neg_fd big_num_fail e1
              (strict.unknown_call s1.0 neg_fd (inr (inl refl))))
            (λ s2 e2 f2.
              go_on s2.0 (said syscall_num_pass) (refuse_call t s2 (pos 0) neg_num_fail) last
                (call-Still s2 (pos 0) neg_num_fail e2
                  (strict.unknown_call s2.0 (pos 0) (inr (inr refl))))
                (λ s3 e3 f3. reports s3 syscall_num_fail syscall_num_pass refl e3)))
