-- ===== src/Tests/Memory.antt =====
-- The memory functions on ranges that overlap and that are not aligned.
use ece391_mp.Base.{◌%◌, ◌≡◌, arith, inl, negsuc, to_u32}
use ece391_mp.Mem.{Memory, memcpy, memmove, memset}
use ece391_mp.Mem.Moved.{moved}
use ece391_mp.Mem.Moves.{memcpy-moved, memmove-moved}
use ece391_mp.Mem.Filled.{filled}
use ece391_mp.Mem.Fills.{memset-filled}

-- Each byte is the lowest byte of its address.
abbrev numbered : Memory
numbered a = a % 256

memcpy_example : memcpy numbered 1001 1003 10 1004 ≡ moved numbered 1001 1003 10 1004
memcpy_example =
    memcpy-moved numbered 1001 1003 10 (inl (omega arith)) (omega arith) (omega arith) 1004

memmove_example : memmove numbered 1003 1001 10 1006 ≡ moved numbered 1003 1001 10 1006
memmove_example = memmove-moved numbered 1003 1001 10 (omega arith) (omega arith) 1006

memset_example :
    memset numbered 1001 (negsuc 0) 11 1006
    ≡ filled numbered 1001 (λ b. to_u32 (negsuc 0) % 256) 11 1006
memset_example = memset-filled numbered 1001 (negsuc 0) 11 (omega arith) 1006
