-- ===== src/Task/CommandLine.antt =====
-- The command line of `execute`: the copy to `cmd` that drops leading spaces and the spaces between
-- the program's name and its arguments.
use ece391_mp.Base.{
  ℕ, zero, suc, ◌+◌, Bool, true, false, List, [], ◌∷◌, ◌++◌, Result, ok, ◌>>=◌, ◌>>◌, in_bounds,
  leb, ◌==◌, if◌then◌else◌, length, take,
}
use ece391_mp.Str.{strlen}

abbrev pub args_size : ℕ
args_size = 128

-- `cmd` with all of its 128 bytes, and the index of the arguments, one past the end of the name.
pub record Command : Type 0 where
  pub bytes : List ℕ
  pub args : ℕ

-- `strnonspace` on the characters of a string.
unfoldable pub skip_spaces : List ℕ → List ℕ
skip_spaces [] = []
skip_spaces (c ∷ s) = if c == 32 then skip_spaces s else c ∷ s

-- The characters up to the first space, and those behind the run of spaces there. The code's `j`
-- stands behind the name when it meets a space.
-- `spaced` tells whether there is such a space.
pub record Split : Type 0 where
  pub name : List ℕ
  pub spaced : Bool
  pub rest : List ℕ

abbrev put_name : ℕ → Split → Split
put_name c s = record s { name = c ∷ s.name }

unfoldable pub split_name : List ℕ → Split
unfolding skip_spaces
split_name [] = record { name = []; spaced = false; rest = [] }
split_name (c ∷ s) =
    if c == 32
    then record { name = []; spaced = true; rest = skip_spaces s }
    else put_name c (split_name s)

-- Zeros behind a string, up to 128 bytes.
unfoldable pub pad : ℕ → List ℕ → List ℕ
pad zero s = []
pad (suc n) [] = 0 ∷ pad n []
pad (suc n) (c ∷ s) = c ∷ pad n s

-- The bytes that the copy writes to `cmd`: the name with its NUL, and the rest with its own.
abbrev pub written : Split → ℕ
written s = length s.name + 1 + (if s.spaced then length s.rest + 1 else 0)

-- The copy. A command that does not fit in `cmd` is a fault: the code writes past the array.
unfoldable pub split_command : List ℕ → Result Command
unfolding skip_spaces split_name pad strlen
split_command ucmd = do
  n ← strlen ucmd
  let s = split_name (skip_spaces (take n ucmd))
  in_bounds (leb (written s) args_size)
  ok (record { bytes = pad args_size (s.name ++ 0 ∷ s.rest); args = length s.name + 1 })
