-- ===== src/Mem.antt =====
-- student-distrib/lib.c: the memory functions, which are written in assembly. Memory is the byte at each
-- address, and a register keeps 32 bits. The segment registers are flat and are left out.
pub mod Moved
pub mod Moves
pub mod Filled
pub mod Fills
use Prim.Native.Nat.{bit_or}
use ece391_mp.Base.{
  ℕ, zero, suc, ◌+◌, ◌-◌, ◌*◌, ◌/◌, ◌%◌, ◌^◌, Bool, leb, ◌==◌, if◌then◌else◌, update, ℤ, to_u32,
}

-- The byte at each address, and an address that has been moved on.
abbrev pub Memory : Type 0
Memory = ℕ → ℕ

abbrev pub later : ℕ → ℕ → ℕ
later a n = (a + n) % 2 ^ 32

-- `movsl` and `stosl`: four bytes at once.
unfoldable pub movsl : Memory → ℕ → ℕ → Memory
movsl mem dest src =
    update
      (update (update (update mem dest (mem src)) (later dest 1) (mem (later src 1))) (later dest 2)
        (mem (later src 2)))
      (later dest 3) (mem (later src 3))

-- The registers EDI, ESI and ECX, and memory.
pub record Regs : Type 0 where
  pub mem : Memory
  pub dest : ℕ
  pub src : ℕ
  pub count : ℕ

-- .memcpy_top: bytes, until none is left or the destination is aligned.
unfoldable pub memcpy_top : Memory → ℕ → ℕ → ℕ → Regs
memcpy_top mem dest src zero = record { mem = mem; dest = dest; src = src; count = 0 }
memcpy_top mem dest src (suc n) =
    let rest = memcpy_top (update mem dest (mem src)) (later dest 1) (later src 1) n in
    if dest % 4 == 0 then record { mem = mem; dest = dest; src = src; count = suc n } else rest

-- rep movsl, and the bytes of .memcpy_bottom, which are also those of rep movsb.
unfoldable pub rep_movsl : Memory → ℕ → ℕ → ℕ → Regs
unfolding movsl
rep_movsl mem dest src zero = record { mem = mem; dest = dest; src = src; count = 0 }
rep_movsl mem dest src (suc n) = rep_movsl (movsl mem dest src) (later dest 4) (later src 4) n

unfoldable pub rep_movsb : Memory → ℕ → ℕ → ℕ → Memory
rep_movsb mem dest src zero = mem
rep_movsb mem dest src (suc n) =
    rep_movsb (update mem dest (mem src)) (later dest 1) (later src 1) n

-- `memcpy`
unfoldable pub memcpy : Memory → ℕ → ℕ → ℕ → Memory
unfolding memcpy_top rep_movsl rep_movsb
memcpy mem dest src n =
    let head = memcpy_top mem dest src n in
    let words = rep_movsl head.mem head.dest head.src (head.count / 4) in
    rep_movsb words.mem words.dest words.src (head.count % 4)

-- rep movsb with the direction flag set.
unfoldable pub rep_movsb_down : Memory → ℕ → ℕ → ℕ → Memory
rep_movsb_down mem dest src zero = mem
rep_movsb_down mem dest src (suc n) =
    rep_movsb_down (update mem dest (mem src)) (later dest (2 ^ 32 - 1)) (later src (2 ^ 32 - 1)) n

-- `memmove`
unfoldable pub memmove : Memory → ℕ → ℕ → ℕ → Memory
unfolding rep_movsb rep_movsb_down
memmove mem dest src n =
    if leb dest src
    then rep_movsb mem dest src n
    else rep_movsb_down mem (later (later dest n) (2 ^ 32 - 1)) (later (later src n) (2 ^ 32 - 1)) n

-- .memset_top, with the registers EDI and ECX.
unfoldable pub memset_top : Memory → ℕ → ℕ → ℕ → Regs
memset_top mem s c zero = record { mem = mem; dest = s; src = 0; count = 0 }
memset_top mem s c (suc n) =
    let rest = memset_top (update mem s c) (later s 1) c n in
    if s % 4 == 0 then record { mem = mem; dest = s; src = 0; count = suc n } else rest

-- stosl, stosw and movb of the bytes of EAX.
unfoldable pub stosl : Memory → ℕ → ℕ → Memory
stosl mem s eax =
    update
      (update (update (update mem s (eax % 256)) (later s 1) (eax / 256 % 256)) (later s 2)
        (eax / 65536 % 256))
      (later s 3) (eax / 16777216 % 256)

unfoldable pub stosw : Memory → ℕ → ℕ → Memory
stosw mem s eax = update (update mem s (eax % 256)) (later s 1) (eax / 256 % 256)

unfoldable pub rep_stosl : Memory → ℕ → ℕ → ℕ → Regs
unfolding stosl
rep_stosl mem s eax zero = record { mem = mem; dest = s; src = 0; count = 0 }
rep_stosl mem s eax (suc n) = rep_stosl (stosl mem s eax) (later s 4) eax n

unfoldable pub rep_stosw : Memory → ℕ → ℕ → ℕ → Memory
unfolding stosw
rep_stosw mem s eax zero = mem
rep_stosw mem s eax (suc n) = rep_stosw (stosw mem s eax) (later s 2) eax n

-- .memset_bottom
unfoldable pub memset_bottom : Memory → ℕ → ℕ → ℕ → Memory
memset_bottom mem s c zero = mem
memset_bottom mem s c (suc n) = memset_bottom (update mem s c) (later s 1) c n

-- c << 24 | c << 16 | c << 8 | c, for a byte: the four do not overlap.
abbrev pub spread : ℕ → ℕ
spread c = bit_or (bit_or (bit_or (c * 2 ^ 24) (c * 2 ^ 16)) (c * 2 ^ 8)) c

-- `memset`, for `c & 0xFF`.
unfoldable pub memset : Memory → ℕ → ℤ → ℕ → Memory
unfolding memset_top rep_stosl memset_bottom
memset mem s c n =
    let byte = to_u32 c % 256 in
    let head = memset_top mem s byte n in
    let words = rep_stosl head.mem head.dest (spread byte) (head.count / 4) in
    memset_bottom words.mem words.dest byte (head.count % 4)

-- `memset_word` and `memset_dword`
unfoldable pub memset_word : Memory → ℕ → ℤ → ℕ → Memory
unfolding rep_stosw
memset_word mem s c n = rep_stosw mem s (to_u32 c) n

unfoldable pub memset_dword : Memory → ℕ → ℤ → ℕ → Memory
unfolding rep_stosl
memset_dword mem s c n = (rep_stosl mem s (to_u32 c) n).mem
