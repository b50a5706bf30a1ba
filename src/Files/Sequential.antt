-- ===== src/Files/Sequential.antt =====
-- Reading a file in pieces.
use ece391_mp.Base.{
  ℕ, ◌+◌, ◌-◌, ◌*◌, ◌%◌, ◌^◌, ◌≡◌, ◌<◌, refl, ap, sym, ◌∙◌, min, true, false, List, ◌++◌, ok, arith,
  pos, ltb_ℤ, eqb_ℤ, slice, slice-append, lt→ltb,
}
use ece391_mp.Fs.{FsImage, read_data, fs_blk_size}
use ece391_mp.Fs.Contents.{file_byte, BlocksUpTo, read_data_lem}
use ece391_mp.Kernel.{Kernel, FileDesc, get_current_pcb, set_fd, fd_cnt}
use ece391_mp.Files.{fd_index, in_use, file_read}

-- What `read_data` asks of a read of `length` bytes at `offset`, for it to return the file's bytes.
pub record Readable (fs : FsImage) (inode offset length : ℕ) : Type 0 where
  pub in_range : inode < fs.inode_cnt
  pub inside : offset < (fs.inodes inode).size
  pub limit : offset + length < fs.direntry_cnt * fs_blk_size
  pub small : fs.direntry_cnt * fs_blk_size < 2 ^ 31
  pub blocks :
      BlocksUpTo fs (fs.inodes inode) (offset + min length ((fs.inodes inode).size - offset))

-- The descriptor after a read of `n` bytes.
abbrev pub moved : FileDesc → ℕ → FileDesc
moved d n = record d { file_position = d.file_position + n }

fd_of : Kernel → ℕ → FileDesc
fd_of k i = (get_current_pcb k).fds i

file_read_lem :
    (k : Kernel) (i n c : ℕ) (d : FileDesc)
    → fd_of k i ≡ d
    → i < fd_cnt
    → in_use d ≡ true
    → 0 < n
    → Readable k.fs d.inode d.file_position n
    → c ≡ min n ((k.fs.inodes d.inode).size - d.file_position)
    → file_read k (pos i) true (pos n)
      ≡ ok (
        set_fd k i (moved d c),
        (slice (file_byte k.fs (k.fs.inodes d.inode)) d.file_position c, pos c),
      )
unfolding file_read fd_of fd_index
file_read_lem k i n c d e lt used positive r count =
    let word : n % 2 ^ 32 ≡ n = omega arith in
    let nonzero : eqb_ℤ (pos n) (pos 0) ≡ false = ground arith in
    let wraps : (d.file_position + c) % 2 ^ 32 ≡ d.file_position + c = omega arith in
    let read : read_data k.fs d.inode d.file_position true n
        ≡ ok (slice (file_byte k.fs (k.fs.inodes d.inode)) d.file_position c, pos c) =
      rw count (
        read_data_lem k.fs d.inode d.file_position n r.in_range r.inside r.limit r.small
          r.blocks) in
    let sign : ltb_ℤ (pos c) (pos 0) ≡ false = ground arith in
    rw (lt→ltb i fd_cnt lt, e, used, nonzero, word, read, wraps, sign) refl

fd_of-set_fd : (k : Kernel) (i : ℕ) (d : FileDesc) → fd_of (set_fd k i d) i ≡ d
unfolding fd_of
fd_of-set_fd k i d = ground arith

-- The conditions for a longer read are those for a shorter one, and for the read that follows it.
Readable-first :
    (fs : FsImage) (inode offset n m : ℕ)
    → Readable fs inode offset (n + m)
    → Readable fs inode offset n
Readable-first fs inode offset n m r = record {
  in_range = r.in_range;
  inside = r.inside;
  limit = omega (arith, r.limit);
  small = r.small;
  blocks = λ b h. r.blocks b (omega arith);
}

Readable-rest :
    (fs : FsImage) (inode offset n m : ℕ)
    → offset + n < (fs.inodes inode).size
    → Readable fs inode offset (n + m)
    → Readable fs inode (offset + n) m
Readable-rest fs inode offset n m inside r = record {
  in_range = r.in_range;
  inside = inside;
  limit = omega (arith, r.limit);
  small = r.small;
  blocks = λ b h. r.blocks b (omega arith);
}

-- Two successive reads of an open descriptor, of `n` and of `m` bytes, that stay in the file up to the
-- end of the first one: together they return the bytes that one read of `n + m` bytes returns, and
-- leave the descriptor where that read leaves it.
pub file_read-sequential :
    (k : Kernel) (i n m : ℕ)
    → i < fd_cnt
    → in_use ((get_current_pcb k).fds i) ≡ true
    → 0 < n
    → 0 < m
    → let d = (get_current_pcb k).fds i in
      d.file_position + n < (k.fs.inodes d.inode).size
      → Readable k.fs d.inode d.file_position (n + m)
      → (k1 k2 k3 : Kernel) × (xs ys zs : List ℕ) × (c : ℕ) × (file_read k (pos i) true (pos n)
          ≡ ok (k1, (xs, pos n)))
        × (file_read k1 (pos i) true (pos m) ≡ ok (k2, (ys, pos c)))
        × (file_read k (pos i) true (pos (n + m)) ≡ ok (k3, (zs, pos (n + c))))
        × (xs ++ ys ≡ zs)
        × ((get_current_pcb k2).fds i ≡ (get_current_pcb k3).fds i)
unfolding fd_of
file_read-sequential k i n m lt used hn hm inside r =
    let d = fd_of k i in
    let size = (k.fs.inodes d.inode).size in
    let bytes = file_byte k.fs (k.fs.inodes d.inode) in
    let c = min m (size - (d.file_position + n)) in
    let k1 = set_fd k i (moved d n) in
    let k2 = set_fd k1 i (moved (moved d n) c) in
    let k3 = set_fd k i (moved d (n + c)) in
    (
      k1,
      k2,
      k3,
      slice bytes d.file_position n,
      slice bytes (d.file_position + n) c,
      slice bytes d.file_position (n + c),
      c,
      file_read_lem k i n n d refl lt used hn (Readable-first k.fs d.inode d.file_position n m r)
          (omega arith),
      file_read_lem k1 i m c (moved d n) (fd_of-set_fd k i (moved d n)) lt used hm
          (Readable-rest k.fs d.inode d.file_position n m inside r) refl,
      file_read_lem k i (n + m) (n + c) d refl lt used (omega arith) r (omega arith),
      slice-append bytes d.file_position (d.file_position + n) n c refl,
      fd_of-set_fd k1 i (moved (moved d n) c)
          ∙ ap (λ p. record d { file_position = p }) (omega arith)
          ∙ sym (fd_of-set_fd k i (moved d (n + c))),
    )
