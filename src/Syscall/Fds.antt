-- ===== src/Syscall/Fds.antt =====
-- The table of open files of a process under `open` and `close`.
use ece391_mp.Base.{
  ℕ, zero, suc, ◌+◌, ◌≤◌, ◌<◌, ◌≡◌, refl, ap, ◌∙◌, inl, inr, true, false, List, ◌∷◌, Option, none,
  some, Result, ok, fault, ltb, leb, ◌==◌, if◌then◌else◌, arith, Bool-cases, pos, minus_one,
  bind_returned, is_some, ℤ, negsuc, ◌&&◌,
}
use ece391_mp.Fs.{DirEntry, read_dentry_by_name}
use ece391_mp.Kernel.{Kernel, FileDesc, FileOps, get_current_pcb, fd_cnt, fd_start, set_fd}
use ece391_mp.Kernel.FileOps.{std_in_fops, std_out_fops, rtc_fops, fs_fops, dir_fops}
use ece391_mp.Rtc.{rtc_open, set_virtual_freq}
use ece391_mp.Files.{in_use, file_open, dir_open}
use ece391_mp.Syscall.{
  find_fd, install, install_ops, ops_open, ops_of_type, open_at, open_found, open_file, close,
  closed_fd, is_open,
}

-- The descriptors of the running process.
abbrev pub fds_of : Kernel → ℕ → FileDesc
fds_of k = (get_current_pcb k).fds

-- One descriptor is in use exactly if it has a table of operations.
abbrev Sound : FileDesc → Type 0
Sound d = in_use d ≡ is_some d.jumptable

-- Standard input and output are open, and every descriptor is in use exactly if it has operations.
pub record FdsOk (fds : ℕ → FileDesc) : Type 0 where
  pub std_in : (fds 0).jumptable ≡ some std_in_fops
  pub std_out : (fds 1).jumptable ≡ some std_out_fops
  pub sound : (i : ℕ) → i < fd_cnt → Sound (fds i)

-- `find_fd` finds the lowest descriptor that is not in use.
find_fd-lowest :
    (fds : ℕ → FileDesc) (rounds i j : ℕ)
    → find_fd fds rounds i ≡ some j
    → (i ≤ j) × (j < i + rounds) × (in_use (fds j) ≡ false)
unfolding find_fd
find_fd-lowest fds zero i j e = cc
find_fd-lowest fds (suc rounds) i j e = ground (arith, find_fd-lowest fds rounds (i + 1) j)

find_fd-below :
    (fds : ℕ → FileDesc) (rounds i j m : ℕ)
    → find_fd fds rounds i ≡ some j
    → i ≤ m
    → m < j
    → in_use (fds m) ≡ true
unfolding find_fd
find_fd-below fds zero i j m e lo hi = cc
find_fd-below fds (suc rounds) i j m e lo hi = ground (arith, find_fd-below fds rounds (i + 1) j m)

find_fd-none :
    (fds : ℕ → FileDesc) (rounds i m : ℕ)
    → find_fd fds rounds i ≡ none
    → i ≤ m
    → m < i + rounds
    → in_use (fds m) ≡ true
unfolding find_fd
find_fd-none fds zero i m e lo hi = absurd (omega arith)
find_fd-none fds (suc rounds) i m e lo hi = ground (arith, find_fd-none fds rounds (i + 1) m)

-- Opening leaves the processes alone and never fails.
ops_open-keeps :
    (ops : FileOps) (k : Kernel) (r : Kernel × ℤ)
    → ops_open ops k ≡ ok r
    → (r.1 ≡ pos 0) × (r.0.pcbs ≡ k.pcbs) × (r.0.running_pid ≡ k.running_pid)
unfolding ops_open rtc_open set_virtual_freq file_open dir_open
ops_open-keeps std_in_fops k r e = ground arith
ops_open-keeps std_out_fops k r e = ground arith
ops_open-keeps fs_fops k r e = ground arith
ops_open-keeps dir_fops k r e = ground arith
ops_open-keeps rtc_fops k r e = ground arith

-- The descriptor that `open` fills in.
abbrev pub opened : FileOps → DirEntry → FileDesc
opened ops entry = record {
  jumptable = some ops;
  inode = if entry.filetype == 2 then entry.inode_idx else 0;
  file_position = 0;
  flags = 1;
}

-- The running process's table after its process has been written, in a state with the same processes
-- but for descriptor `i`.
fds_of-set_fd :
    (k k' : Kernel) (i m : ℕ) (d d' : FileDesc)
    → k'.pcbs ≡ (set_fd k i d).pcbs
    → k'.running_pid ≡ k.running_pid
    → fds_of (set_fd k' i d') m ≡ (if i == m then d' else fds_of k m)
fds_of-set_fd k k' i m d d' e e' = rw (e', e) (ground arith)

abbrev with_ops : Kernel → ℕ → FileOps → Kernel
with_ops k i ops = set_fd k i (record (fds_of k i) { jumptable = some ops })

-- Once the operations' own `open` has returned, the descriptor is filled in.
install_ops-opened :
    (k : Kernel) (entry : DirEntry) (i : ℕ) (ops : FileOps) (r : Kernel × ℤ)
    → ops_open ops (with_ops k i ops) ≡ ok r
    → install_ops k entry i ops ≡ ok (set_fd r.0 i (opened ops entry), pos i)
unfolding install_ops
install_ops-opened k entry i ops r opens =
    let (returned, pcbs, pid) = ops_open-keeps ops (with_ops k i ops) r opens in
    let there : (fds_of r.0 i).jumptable ≡ some ops = ground arith in rw (opens, returned, there)

install_ops-fault :
    (k : Kernel) (entry : DirEntry) (i : ℕ) (ops : FileOps)
    → ops_open ops (with_ops k i ops) ≡ fault
    → install_ops k entry i ops ≡ fault
unfolding install_ops
install_ops-fault k entry i ops opens = rw opens

install_ops-fds :
    (k : Kernel) (entry : DirEntry) (i : ℕ) (ops : FileOps) (r : Kernel × ℤ)
    → install_ops k entry i ops ≡ ok r
    → (r.1 ≡ pos i) × ((m : ℕ) → fds_of r.0 m ≡ (if i == m then opened ops entry else fds_of k m))
install_ops-fds k entry i ops r e = go (ops_open ops (with_ops k i ops)) refl
  where
    go :
        (o : Result (Kernel × ℤ))
        → ops_open ops (with_ops k i ops) ≡ o
        → (r.1 ≡ pos i)
          × ((m : ℕ) → fds_of r.0 m ≡ (if i == m then opened ops entry else fds_of k m))
    go (ok r') opens =
        let (returned, pcbs, pid) = ops_open-keeps ops (with_ops k i ops) r' opens in
        let same : r ≡ (set_fd r'.0 i (opened ops entry), pos i) =
          cc (install_ops-opened k entry i ops r' opens) in
        rw same (refl, λ m. fds_of-set_fd k r'.0 i m _ (opened ops entry) pcbs pid)
    go fault opens = cc (install_ops-fault k entry i ops opens)

-- The name of an entry of the directory.
pub record Named (k : Kernel) (filename : Option (List ℕ)) (entry : DirEntry) : Type 0 where
  pub name : List ℕ
  pub given : filename ≡ some name
  pub found : read_dentry_by_name k.fs name true ≡ ok (some entry)

-- Why `open` refuses.
pub data Refusal (k : Kernel) (filename : Option (List ℕ)) : Type 0 where
  no_pointer : filename ≡ none → Refusal k filename
  empty_name : (c : ℕ) (cs : List ℕ) → filename ≡ some (c ∷ cs) → c ≡ 0 → Refusal k filename
  no_entry :
      (name : List ℕ)
      → filename ≡ some name
      → read_dentry_by_name k.fs name true ≡ ok none
      → Refusal k filename
  no_descriptor :
      ((m : ℕ) → fd_start ≤ m → m < fd_cnt → in_use (fds_of k m) ≡ true) → Refusal k filename
  unknown_type :
      (entry : DirEntry)
      → Named k filename entry
      → ops_of_type entry.filetype ≡ none
      → Refusal k filename

-- What a call of `open` that returns has done: it refuses with -1, for a reason, and changes no
-- descriptor, or it returns the lowest free descriptor from 2 on, for the entry of that name.
pub data Opens (k : Kernel) (filename : Option (List ℕ)) (r : Kernel × ℤ) : Type 0 where
  refuses :
      r.1 ≡ minus_one
      → ((m : ℕ) → fds_of r.0 m ≡ fds_of k m)
      → Refusal k filename
      → Opens k filename r
  succeeds :
      (entry : DirEntry) (ops : FileOps) (i : ℕ)
      → Named k filename entry
      → ops_of_type entry.filetype ≡ some ops
      → r.1 ≡ pos i
      → (fd_start ≤ i) × (i < fd_cnt) × (in_use (fds_of k i) ≡ false)
      → ((m : ℕ) → fd_start ≤ m → m < i → in_use (fds_of k m) ≡ true)
      → ((m : ℕ) → fds_of r.0 m ≡ (if i == m then opened ops entry else fds_of k m))
      → Opens k filename r

refused :
    (k : Kernel) (filename : Option (List ℕ)) (r : Kernel × ℤ)
    → Refusal k filename
    → ok (k, minus_one) ≡ ok r
    → Opens k filename r
refused k filename r reason e =
    let same : r ≡ (k, minus_one) = cc in
    refuses (ap (λ x. x.1) same) (λ m. ap (λ x. fds_of x.0 m) same) reason

install-Opens :
    (k : Kernel) (filename : Option (List ℕ)) (entry : DirEntry) (i : ℕ) (r : Kernel × ℤ)
    → Named k filename entry
    → find_fd (fds_of k) 6 fd_start ≡ some i
    → install k entry i ≡ ok r
    → Opens k filename r
unfolding install
install-Opens k filename entry i r named free e = go (ops_of_type entry.filetype) refl e
  where
    go :
        (o : Option FileOps)
        → ops_of_type entry.filetype ≡ o
        → elim o as (λ x. Result (Kernel × ℤ)) [
          | none ↦ ok (k, minus_one)
          | some ops ↦ install_ops k entry i ops
        ]
          ≡ ok r
        → Opens k filename r
    go none known e = refused k filename r (unknown_type entry named known) e
    go (some ops) known e =
        let (returned, table) = install_ops-fds k entry i ops r e in
        succeeds entry ops i named known returned (find_fd-lowest (fds_of k) 6 fd_start i free)
          (λ m lo hi. find_fd-below (fds_of k) 6 fd_start i m free lo hi) table

open_at-Opens :
    (k : Kernel) (filename : Option (List ℕ)) (entry : DirEntry) (o : Option ℕ) (r : Kernel × ℤ)
    → Named k filename entry
    → find_fd (fds_of k) 6 fd_start ≡ o
    → open_at k entry o ≡ ok r
    → Opens k filename r
unfolding open_at
open_at-Opens k filename entry none r named free e =
    refused k filename r
      (no_descriptor (λ m lo hi. find_fd-none (fds_of k) 6 fd_start m free lo hi)) e
open_at-Opens k filename entry (some i) r named free e =
    install-Opens k filename entry i r named free e

open_found-Opens :
    (k : Kernel) (name : List ℕ) (found : Option DirEntry) (r : Kernel × ℤ)
    → read_dentry_by_name k.fs name true ≡ ok found
    → open_found k found ≡ ok r
    → Opens k (some name) r
unfolding open_found
open_found-Opens k name none r looked e = refused k (some name) r (no_entry name refl looked) e
open_found-Opens k name (some entry) r looked e =
    open_at-Opens k (some name) entry _ r (record { name = name; given = refl; found = looked })
      refl e

pub open_file-Opens :
    (k : Kernel) (filename : Option (List ℕ)) (r : Kernel × ℤ)
    → open_file k filename ≡ ok r
    → Opens k filename r
unfolding open_file
open_file-Opens k none r e = refused k none r (no_pointer refl) e
open_file-Opens k (some List.[]) r e = cc
open_file-Opens k (some (c ∷ cs)) r e = elim (Bool-cases (c == 0)) [
  | inl empty ↦
      refused k (some (c ∷ cs)) r (empty_name c cs refl (ground (arith, empty)))
        (rw (empty, open_file) at e)
  | inr named ↦
      let (found, looked, e') =
        bind_returned (read_dentry_by_name k.fs (c ∷ cs) true) (open_found k)
          (rw (named, open_file) at e) in
      open_found-Opens k (c ∷ cs) found r looked e'
]

-- Opens keeps the invariant.
Opens-FdsOk :
    (k : Kernel) (filename : Option (List ℕ)) (r : Kernel × ℤ)
    → Opens k filename r
    → FdsOk (fds_of k)
    → FdsOk (fds_of r.0)
Opens-FdsOk k filename r (refuses e same reason) v = record {
  std_in = rw (same 0) (v.std_in);
  std_out = rw (same 1) (v.std_out);
  sound = λ i h. rw (same i) (v.sound i h);
}
Opens-FdsOk k filename r (succeeds entry ops i named known e range below table) v = record {
  std_in = ground (arith, table 0, v.std_in);
  std_out = ground (arith, table 1, v.std_out);
  sound = λ m h. ground (arith, table m, v.sound m h);
}

-- Every call of `open` that returns keeps standard input and output open, and every descriptor in use
-- exactly if it has operations.
pub open_file-FdsOk :
    (k : Kernel) (filename : Option (List ℕ)) (r : Kernel × ℤ)
    → open_file k filename ≡ ok r
    → FdsOk (fds_of k)
    → FdsOk (fds_of r.0)
open_file-FdsOk k filename r e v = Opens-FdsOk k filename r (open_file-Opens k filename r e) v

fds_of-written :
    (k : Kernel) (i m : ℕ) (d : FileDesc)
    → fds_of (set_fd k i d) m ≡ (if i == m then d else fds_of k m)
fds_of-written k i m d = ground arith

pub close-pos :
    (k : Kernel) (n : ℕ)
    → close k (pos n) ≡ (
        if leb fd_start n && ltb n fd_cnt && is_open (fds_of k n)
        then (set_fd k n closed_fd, pos 0)
        else (k, minus_one))
unfolding close
close-pos k n = ground arith

close-negsuc : (k : Kernel) (n : ℕ) → close k (negsuc n) ≡ (k, minus_one)
unfolding close
close-negsuc k n = ground arith

set_fd-FdsOk :
    (k : Kernel) (n : ℕ) → fd_start ≤ n → FdsOk (fds_of k) → FdsOk (fds_of (set_fd k n closed_fd))
set_fd-FdsOk k n lo v = record {
  std_in = ground arith;
  std_out = ground arith;
  sound = λ m h. ground (arith, v.sound m h);
}

-- Every call of `close`, whatever its argument, keeps standard input and output open, and every
-- descriptor in use exactly if it has operations.
pub close-FdsOk : (k : Kernel) (fd : ℤ) → FdsOk (fds_of k) → FdsOk (fds_of (close k fd).0)
close-FdsOk k (negsuc n) v = rw (close-negsuc k n) v
close-FdsOk k (pos n) v =
    elim (Bool-cases (leb fd_start n && ltb n fd_cnt && is_open (fds_of k n))) [
      | inl accepts ↦ rw (close-pos k n, accepts) (set_fd-FdsOk k n (ground arith) v)
      | inr refuses' ↦ rw (close-pos k n, refuses') v
    ]

-- A descriptor that `open` has returned can be closed: `close` returns 0, the descriptor is free
-- again with its fields cleared, and every other one is as it was before the call of `open`.
pub close-open_file :
    (k : Kernel) (filename : Option (List ℕ)) (r : Kernel × ℤ) (i : ℕ)
    → open_file k filename ≡ ok r
    → r.1 ≡ pos i
    → ((close r.0 r.1).1 ≡ pos 0)
      × ((m : ℕ) → fds_of (close r.0 r.1).0 m ≡ (if i == m then closed_fd else fds_of k m))
close-open_file k filename r i e returned = go (open_file-Opens k filename r e)
  where
    go :
        Opens k filename r
        → ((close r.0 r.1).1 ≡ pos 0)
          × ((m : ℕ) → fds_of (close r.0 r.1).0 m ≡ (if i == m then closed_fd else fds_of k m))
    go (refuses e' same reason) = cc
    go (succeeds entry ops j named known e' range below table) =
        let same : j ≡ i = cc in
        let accepts : (leb fd_start i && ltb i fd_cnt && is_open (fds_of r.0 i)) ≡ true =
          ground (arith, table i) in
        rw (returned, close-pos r.0 i, accepts)
          (refl, λ m. fds_of-written r.0 i m closed_fd ∙ ground (arith, table m))
