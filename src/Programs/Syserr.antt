-- ===== src/Programs/Syserr.antt =====
-- syscalls/ece391syserr.c: the tests of what the system calls refuse.
mod Texts
pub mod Passed
pub mod Verdicts
pub mod Report
pub mod Decided
pub use Texts.*
use ece391_mp.Base.{
  ℕ, zero, suc, ◌+◌, ◌==◌, List, [], ◌∷◌, Result, ok, ◌>>=◌, if◌then◌else◌, ℤ, pos, negsuc,
  minus_one, eqb_ℤ, get_or, fault,
}
use ece391_mp.Programs.{Os, store}
use ece391_mp.Programs.Support.{ece391_fdputs}

-- The system calls that only this program makes: `vidmap` with an address, and a call by its number.
pub record TestOs : Type 1 where
  pub os : Os
  pub vidmap : os.State → ℕ → os.State × ℤ
  pub call_sys : os.State → ℤ → os.State × ℤ

abbrev pub neg_fd : ℤ
neg_fd = negsuc 1073741822

abbrev pub big_fd : ℤ
big_fd = pos 1073741823

abbrev pub dot : List ℕ
dot = b'.' ∷ 0 ∷ []

module _ (t : TestOs) where
  -- A test that runs: the world, `fail`, and what its buffer of 32 bytes holds.
  abbrev pub Testing : Type 0
  Testing = t.os.State × ℕ × List ℕ

  abbrev pub Tested : Type 0
  Tested = t.os.State × ℕ

  -- `if (-1 != call) { fail = 2; ece391_fdputs(1, text); }`
  unfoldable pub refused : t.os.State → ℤ → List ℕ → ℕ → List ℕ → Result Testing
  unfolding ece391_fdputs
  refused w r text fail buf =
      let complain = ece391_fdputs t.os w (pos 1) text >>= λ w'. ok (w', 2, buf) in
      if eqb_ℤ r minus_one then ok (w, fail, buf) else complain

  -- The end of a test.
  unfoldable pub verdict : Testing → List ℕ → List ℕ → Result Tested
  unfolding ece391_fdputs
  verdict s failed passed =
      let text = if s.1 == 0 then passed else failed in
      ece391_fdputs t.os s.0 (pos 1) text >>= λ w'. ok (w', s.1)

  -- The calls where a test expects -1.
  unfoldable pub refuse_read : Testing → ℤ → List ℕ → Result Testing
  unfolding refused
  refuse_read s fd text =
      (let (w, r, bytes) = t.os.read s.0 fd 31 in refused w r text s.1 (store s.2 0 bytes))

  unfoldable pub refuse_write : Testing → ℤ → List ℕ → Result Testing
  unfolding refused
  refuse_write s fd text = (let (w, r) = t.os.write s.0 fd s.2 (pos 31) in refused w r text s.1 s.2)

  unfoldable pub refuse_close : Testing → ℤ → List ℕ → Result Testing
  unfolding refused
  refuse_close s fd text = (let (w, r) = t.os.close_file s.0 fd in refused w r text s.1 s.2)

  unfoldable pub refuse_open : Testing → List ℕ → List ℕ → Result Testing
  unfolding refused
  refuse_open s name text = (let (w, r) = t.os.open_file s.0 name in refused w r text s.1 s.2)

  unfoldable pub refuse_vidmap : Testing → ℕ → List ℕ → Result Testing
  unfolding refused
  refuse_vidmap s address text = (let (w, r) = t.vidmap s.0 address in refused w r text s.1 s.2)

  unfoldable pub refuse_call : Testing → ℤ → List ℕ → Result Testing
  unfolding refused
  refuse_call s num text = (let (w, r) = t.call_sys s.0 num in refused w r text s.1 s.2)

  -- Test 1 and test 2; `buf` is what the stack holds.
  unfoldable pub err_neg_fd : t.os.State → List ℕ → Result Tested
  unfolding refuse_read refuse_write refuse_close verdict
  err_neg_fd w buf = do
    s1 ← refuse_read (w, 0, buf) neg_fd read_fail
    s2 ← refuse_write s1 neg_fd write_fail
    s3 ← refuse_close s2 neg_fd close_fail
    verdict s3 neg_fd_fail neg_fd_pass

  unfoldable pub err_big_fd : t.os.State → List ℕ → Result Tested
  unfolding refuse_read refuse_write refuse_close verdict
  err_big_fd w buf = do
    s1 ← refuse_read (w, 0, buf) big_fd read_fail
    s2 ← refuse_write s1 big_fd write_fail
    s3 ← refuse_close s2 big_fd close_fail
    verdict s3 big_fd_fail big_fd_pass

  -- The loop of `err_open_lots` that opens, with the rounds that are left and `cnt`, and the loop that
  -- closes the descriptors from `i` on.
  unfoldable pub open_lots : t.os.State → ℕ → ℕ → Tested
  open_lots w zero cnt = (w, cnt)
  open_lots w (suc rounds) cnt =
      let (w', r) = t.os.open_file w dot in
      open_lots w' rounds (if eqb_ℤ r minus_one then cnt + 1 else cnt)

  unfoldable pub close_lots : t.os.State → ℕ → ℕ → t.os.State
  close_lots w zero i = w
  close_lots w (suc rounds) i = close_lots (t.os.close_file w (pos i)).0 rounds (i + 1)

  unfoldable pub err_open_lots : t.os.State → Result Tested
  unfolding open_lots close_lots ece391_fdputs
  err_open_lots w =
      let opened = open_lots w 7 0 in
      let w1 = close_lots opened.0 6 2 in
      let passed = ece391_fdputs t.os w1 (pos 1) open_lots_pass >>= λ w2. ok (w2, 0) in
      let failed = ece391_fdputs t.os w1 (pos 1) open_lots_fail >>= λ w2. ok (w2, 2) in
      if opened.1 == 1 then passed else failed

  unfoldable pub err_open : t.os.State → Result Tested
  unfolding refuse_open verdict
  err_open w = do
    s1 ← refuse_open (w, 0, []) (b'h' ∷ b'e' ∷ b'l' ∷ b'l' ∷ b'o' ∷ b'o' ∷ 0 ∷ []) helloo_fail
    s2 ← refuse_open s1 (b's' ∷ b'h' ∷ b'e' ∷ b'l' ∷ 0 ∷ []) shel_fail
    s3 ← refuse_open s2 (0 ∷ []) empty_fail
    verdict s3 open_fail open_pass

  -- The three loops of `err_unopened`, with the rounds that are left, from descriptor `i` on.
  unfoldable pub close_unopened_from : Testing → ℕ → ℕ → Result Testing
  unfolding refuse_close
  close_unopened_from s zero i = ok s
  close_unopened_from s (suc rounds) i =
      refuse_close s (pos i) close_unopened >>= λ s'. close_unopened_from s' rounds (i + 1)

  unfoldable pub read_unopened_from : Testing → ℕ → ℕ → Result Testing
  unfolding refuse_read
  read_unopened_from s zero i = ok s
  read_unopened_from s (suc rounds) i =
      refuse_read s (pos i) read_unopened >>= λ s'. read_unopened_from s' rounds (i + 1)

  unfoldable pub write_unopened_from : Testing → ℕ → ℕ → Result Testing
  unfolding refuse_write
  write_unopened_from s zero i = ok s
  write_unopened_from s (suc rounds) i =
      refuse_write s (pos i) write_unopened >>= λ s'. write_unopened_from s' rounds (i + 1)

  unfoldable pub err_unopened : t.os.State → List ℕ → Result Tested
  unfolding close_unopened_from read_unopened_from write_unopened_from verdict
  err_unopened w buf = do
    s1 ← close_unopened_from (w, 0, buf) 8 0
    s2 ← read_unopened_from s1 6 2
    s3 ← write_unopened_from s2 6 2
    verdict s3 unopened_fail unopened_pass

  unfoldable pub err_vidmap : t.os.State → Result Tested
  unfolding refuse_vidmap verdict
  err_vidmap w = do
    s1 ← refuse_vidmap (w, 0, []) 0 null_fail
    s2 ← refuse_vidmap s1 0x400000 kernel_fail
    verdict s2 vidmap_fail vidmap_pass

  unfoldable pub err_stdin_out : t.os.State → List ℕ → Result Tested
  unfolding refuse_write refuse_read verdict
  err_stdin_out w buf = do
    s1 ← refuse_write (w, 0, buf) (pos 0) stdin_fail
    s2 ← refuse_read s1 (pos 1) stdout_fail
    verdict s2 stdin_out_fail stdin_out_pass

  unfoldable pub err_syscall_num : t.os.State → Result Tested
  unfolding refuse_call verdict
  err_syscall_num w = do
    s1 ← refuse_call (w, 0, []) big_fd zero_num_fail
    s2 ← refuse_call s1 neg_fd big_num_fail
    s3 ← refuse_call s2 (pos 0) neg_num_fail
    verdict s3 syscall_num_fail syscall_num_pass

  -- The tests one after the other, with the sum of what they return.
  unfoldable pub add_test : Tested → (t.os.State → Result Tested) → Result Tested
  add_test s test = test s.0 >>= λ s'. ok (s'.0, s.1 + s'.1)

  unfoldable pub run_all : t.os.State → List ℕ → Result Tested
  unfolding add_test err_neg_fd err_big_fd err_open_lots err_open err_unopened err_vidmap
      err_stdin_out err_syscall_num ece391_fdputs
  run_all w stack = do
    s1 ← add_test (w, 0) (λ w'. err_neg_fd w' stack)
    s2 ← add_test s1 (λ w'. err_big_fd w' stack)
    s3 ← add_test s2 err_open_lots
    s4 ← add_test s3 err_open
    s5 ← add_test s4 (λ w'. err_unopened w' stack)
    s6 ← add_test s5 err_vidmap
    s7 ← add_test s6 (λ w'. err_stdin_out w' stack)
    s8 ← add_test s7 err_syscall_num
    let text = if s8.1 == 0 then overall_pass else overall_fail
    w' ← ece391_fdputs t.os (s8.0) (pos 1) text
    ok (w', s8.1)

  -- The `switch` of `main` over `buf[0] - '0'`; `stack` is what the buffers of the tests hold.
  unfoldable pub select_test : t.os.State → List ℕ → ℕ → Result Tested
  unfolding run_all err_neg_fd err_big_fd err_open_lots err_open err_unopened err_vidmap
      err_stdin_out err_syscall_num ece391_fdputs
  select_test w stack c =
      let invalid = ece391_fdputs t.os w (pos 1) invalid_test >>= λ w'. ok (w', 0) in
      if c == b'0'
      then run_all w stack
      else if c == b'1'
      then err_neg_fd w stack
      else if c == b'2'
      then err_big_fd w stack
      else if c == b'3'
      then err_open_lots w
      else if c == b'4'
      then err_open w
      else if c == b'5'
      then err_unopened w stack
      else if c == b'6'
      then err_vidmap w
      else if c == b'7'
      then err_stdin_out w stack
      else if c == b'8'
      then err_syscall_num w
      else invalid

  -- `main`, with what the stack holds in its buffer of 128 bytes and in those of the tests.
  unfoldable pub syserr_main : t.os.State → List ℕ → List ℕ → Result Tested
  unfolding select_test ece391_fdputs
  syserr_main w buf stack = do
    w1 ← ece391_fdputs t.os w (pos 1) choose_test
    let (w2, cnt, bytes) = t.os.read w1 (pos 0) 127
    let failed = ece391_fdputs t.os w2 (pos 1) cannot_read >>= λ w3. ok (w3, 2)
    let selected = select_test w2 stack (get_or (store buf 0 bytes) 0 0)
    if eqb_ℤ cnt minus_one then failed else selected
