-- ===== src/Syscall/Refusals.antt =====
-- What the system calls refuse to a process that has opened nothing.
use ece391_mp.Base.{
  ℕ, zero, suc, ◌≤◌, ◌<◌, ◌≡◌, ◌≢◌, ◌⊎◌, refl, ap, ◌∙◌, inl, inr, Bool, true, false, not, ◌&&◌,
  ◌||◌, List, [], Option, none, some, ok, ◌*◌, ltb, ltb_ℤ, ◌==◌, ℤ, pos, negsuc, pos_part,
  minus_one, arith, Bool-cases, is_some,
}
use ece391_mp.Fs.{DirEntry}
use ece391_mp.Kernel.{Kernel, fd_cnt, fd_start, sti}
use ece391_mp.Kernel.FileOps.{std_in_fops, std_out_fops}
use ece391_mp.Kernel.Spin.{Interrupt}
use ece391_mp.Files.{in_use}
use ece391_mp.Paging.{mb4}
use ece391_mp.Syscall.{Buffer, read, write, close, vidmap, ops_read, ops_write, fd_valid}
use ece391_mp.Syscall.Fds.{FdsOk, fds_of}

-- The process has only standard input and output open.
pub record OnlyStandard (k : Kernel) : Type 0 where
  pub fds_ok : FdsOk (fds_of k)
  pub others_free : (i : ℕ) → 2 ≤ i → i < fd_cnt → in_use (fds_of k i) ≡ false

-- The calls with this descriptor return -1 and change nothing.
pub record AllRefused (k : Kernel) (fd : ℤ) : Type 0 where
  pub no_read :
      (buf : Option Buffer) (nbytes : ℤ) (stack : DirEntry) (irqs : List Interrupt)
      → read k fd buf nbytes stack irqs ≡ ok (some (k, ([], minus_one)))
  pub no_write : (buf : Option Buffer) (nbytes : ℤ) → write k fd buf nbytes ≡ ok (k, minus_one)
  pub no_close : close k fd ≡ (k, minus_one)

not_open :
    (k : Kernel) (fd : ℤ)
    → OnlyStandard k
    → fd ≢ pos 0
    → fd ≢ pos 1
    → (fd_valid fd && in_use (fds_of k (pos_part fd))) ≡ false
not_open k (negsuc n) h other other' = refl
not_open k (pos zero) h other other' = absurd (other refl)
not_open k (pos (suc zero)) h other other' = absurd (other' refl)
not_open k (pos (suc (suc n))) h other other' = elim (Bool-cases (ltb (suc (suc n)) fd_cnt)) [
  | inr out ↦ rw out refl
  | inl inside ↦
      rw (inside, h.others_free (suc (suc n)) (omega arith) (ground (arith, inside))) refl
]

-- The tests of the three calls fail for such a descriptor.
read_test :
    (valid used negative : Bool)
    → (valid && used) ≡ false
    → (not valid || negative || not used) ≡ true
read_test true true negative e = cc
read_test true false true e = refl
read_test true false false e = refl
read_test false used negative e = refl

close_test :
    (below valid used has : Bool)
    → (valid && used) ≡ false
    → (below || not valid || not (used && has)) ≡ true
close_test true valid used has e = refl
close_test false true true has e = cc
close_test false true false has e = refl
close_test false false used has e = refl

read-refused :
    (k : Kernel) (fd : ℤ) (buf : Option Buffer) (nbytes : ℤ) (stack : DirEntry)
    (irqs : List Interrupt)
    → (fd_valid fd && in_use (fds_of k (pos_part fd))) ≡ false
    → read k fd buf nbytes stack irqs ≡ ok (some (k, ([], minus_one)))
unfolding read
read-refused k fd none nbytes stack irqs e = refl
read-refused k fd (some buf) nbytes stack irqs e =
    rw (read_test (fd_valid fd) (in_use (fds_of k (pos_part fd))) (ltb_ℤ nbytes (pos 0)) e) refl

write-refused :
    (k : Kernel) (fd : ℤ) (buf : Option Buffer) (nbytes : ℤ)
    → (fd_valid fd && in_use (fds_of k (pos_part fd))) ≡ false
    → write k fd buf nbytes ≡ ok (k, minus_one)
unfolding write
write-refused k fd none nbytes e = refl
write-refused k fd (some buf) nbytes e =
    rw (read_test (fd_valid fd) (in_use (fds_of k (pos_part fd))) (ltb_ℤ nbytes (pos 0)) e) refl

close-refused :
    (k : Kernel) (fd : ℤ)
    → (fd_valid fd && in_use (fds_of k (pos_part fd))) ≡ false
    → close k fd ≡ (k, minus_one)
unfolding close
close-refused k fd e =
    rw
      (close_test (ltb_ℤ fd (pos fd_start)) (fd_valid fd) (in_use (fds_of k (pos_part fd)))
        (is_some (fds_of k (pos_part fd)).jumptable) e)
      refl

std_in-write :
    (k : Kernel) (buf : Option Buffer) (nbytes : ℤ)
    → (fds_of k 0).jumptable ≡ some std_in_fops
    → write k (pos 0) buf nbytes ≡ ok (k, minus_one)
unfolding write ops_write
std_in-write k none nbytes table = refl
std_in-write k (some buf) nbytes table = ground (arith, table)

std_out-none :
    (k : Kernel) (nbytes : ℤ) (stack : DirEntry) (irqs : List Interrupt)
    → read k (pos 1) none nbytes stack irqs ≡ ok (some (k, ([], minus_one)))
unfolding read
std_out-none k nbytes stack irqs = refl

std_out-negative :
    (k : Kernel) (buf : Buffer) (nbytes : ℤ) (stack : DirEntry) (irqs : List Interrupt)
    → ltb_ℤ nbytes (pos 0) ≡ true
    → read k (pos 1) (some buf) nbytes stack irqs ≡ ok (some (k, ([], minus_one)))
unfolding read
std_out-negative k buf nbytes stack irqs negative = rw negative refl

std_out-passed :
    (k : Kernel) (buf : Buffer) (nbytes : ℤ) (stack : DirEntry) (irqs : List Interrupt)
    → ltb_ℤ nbytes (pos 0) ≡ false
    → in_use (fds_of k 1) ≡ true
    → (fds_of k 1).jumptable ≡ some std_out_fops
    → read k (pos 1) (some buf) nbytes stack irqs ≡ ok (some (sti k, ([], minus_one)))
unfolding read ops_read
std_out-passed k buf nbytes stack irqs positive used table = rw (positive, used, table) refl

std_out-read :
    (k : Kernel) (buf : Option Buffer) (nbytes : ℤ) (stack : DirEntry) (irqs : List Interrupt)
    → in_use (fds_of k 1) ≡ true
    → (fds_of k 1).jumptable ≡ some std_out_fops
    → (k' : Kernel) × (read k (pos 1) buf nbytes stack irqs ≡ ok (some (k', ([], minus_one))))
      × ((k' ≡ k) ⊎ (k' ≡ sti k))
std_out-read k none nbytes stack irqs used table = (k, std_out-none k nbytes stack irqs, inl refl)
std_out-read k (some buf) nbytes stack irqs used table = elim (Bool-cases (ltb_ℤ nbytes (pos 0))) [
  | inl negative ↦ (k, std_out-negative k buf nbytes stack irqs negative, inl refl)
  | inr positive ↦ (sti k, std_out-passed k buf nbytes stack irqs positive used table, inr refl)
]

close-standard : (k : Kernel) (i : ℕ) → i < 2 → close k (pos i) ≡ (k, minus_one)
unfolding close
close-standard k i lt = let low : ltb_ℤ (pos i) (pos fd_start) ≡ true = ground arith in rw low refl

vidmap-refused :
    (k : Kernel) (address : ℕ) → address < 0x800000 → vidmap k address ≡ ok (k, none, minus_one)
unfolding vidmap
vidmap-refused k address lt =
    let low : (address == 0 || ltb address (mb4 * 2)) ≡ true = ground arith in rw low refl

-- A process that has opened nothing gets -1, and changes nothing but the interrupt flag, from `read`,
-- `write` and `close` of every descriptor but 0 and 1, for all other arguments; from `write` to
-- standard input and `read` from standard output; from `close` of these two; and from `vidmap` with
-- an address below 8 MB, which the kernel has for itself.
pub OnlyStandard-refuses :
    (k : Kernel)
    → OnlyStandard k
    → ((fd : ℤ) → fd ≢ pos 0 → fd ≢ pos 1 → AllRefused k fd)
      × ((buf : Option Buffer) (nbytes : ℤ) → write k (pos 0) buf nbytes ≡ ok (k, minus_one))
      × ((buf : Option Buffer) (nbytes : ℤ) (stack : DirEntry) (irqs : List Interrupt)
          → (k' : Kernel) × (read k (pos 1) buf nbytes stack irqs ≡ ok (some (k', ([], minus_one))))
            × ((k' ≡ k) ⊎ (k' ≡ sti k)))
      × ((i : ℕ) → i < 2 → close k (pos i) ≡ (k, minus_one))
      × ((address : ℕ) → address < 0x800000 → vidmap k address ≡ ok (k, none, minus_one))
OnlyStandard-refuses k h = (
  λ fd other other'.
      let e = not_open k fd h other other' in
      record {
        no_read = λ buf nbytes stack irqs. read-refused k fd buf nbytes stack irqs e;
        no_write = λ buf nbytes. write-refused k fd buf nbytes e;
        no_close = close-refused k fd e;
      },
  λ buf nbytes. std_in-write k buf nbytes (h.fds_ok.std_in),
  λ buf nbytes stack irqs.
      std_out-read k buf nbytes stack irqs
        (h.fds_ok.sound 1 (omega arith) ∙ ap is_some (h.fds_ok.std_out)) (h.fds_ok.std_out),
  close-standard k,
  vidmap-refused k,
)
