-- ===== src/Tests/Storage.antt =====
-- Reads of the disk.
use ece391_mp.Base.{◌∷◌, [], List, ℕ, ◌+◌, ◌++◌, ◌≡◌, refl, ok, pos, true, arith, some}
use ece391_mp.Fs.{read_data}
use ece391_mp.Fs.Contents.{read_data_lem}
use ece391_mp.Kernel.{Kernel, set_fd, get_current_pcb}
use ece391_mp.Kernel.FileOps.{fs_fops}
use ece391_mp.Files.{file_read}
use ece391_mp.Files.Sequential.{Readable, file_read-sequential}
use ece391_mp.Tests.Machine.{image, machine}

read_data_example : read_data image 1 24 true 100 ≡ ok (0 ∷ 128 ∷ 4 ∷ 8 ∷ 17 ∷ 34 ∷ [], pos 6)
read_data_example =
    read_data_lem image 1 24 100 (omega arith) (omega arith) (omega arith) (omega arith)
      (λ b h. (omega arith, omega arith))

-- The machine with the program's file open.
abbrev reading : Kernel
reading =
    set_fd machine 2 (record { jumptable = some fs_fops; inode = 1; file_position = 0; flags = 1 })

image-Readable : Readable image 1 0 104
image-Readable = record {
  in_range = omega arith;
  inside = omega arith;
  limit = omega arith;
  small = omega arith;
  blocks = λ b h. (omega arith, omega arith);
}

file_read_example :
    (k1 k2 k3 : Kernel) × (xs ys zs : List ℕ) × (c : ℕ) × (file_read reading (pos 2) true (pos 4)
      ≡ ok (k1, (xs, pos 4)))
    × (file_read k1 (pos 2) true (pos 100) ≡ ok (k2, (ys, pos c)))
    × (file_read reading (pos 2) true (pos 104) ≡ ok (k3, (zs, pos (4 + c))))
    × (xs ++ ys ≡ zs)
    × ((get_current_pcb k2).fds 2 ≡ (get_current_pcb k3).fds 2)
file_read_example =
    file_read-sequential reading 2 4 100 (omega arith) refl (omega arith) (omega arith)
      (omega arith) image-Readable
