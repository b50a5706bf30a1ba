-- ===== src/Programs/Cat.antt =====
-- syscalls/ece391cat.c
pub mod Contents
use ece391_mp.Base.{
  ℕ, zero, suc, ◌+◌, List, [], ◌∷◌, Option, none, some, Result, ok, fault, ◌>>=◌, ◌==◌,
  if◌then◌else◌, ℤ, pos, negsuc, minus_one, eqb_ℤ,
}
use ece391_mp.Programs.{Os, store}
use ece391_mp.Programs.Support.{ece391_fdputs}

abbrev pub no_arguments : List ℕ
no_arguments =
    b'c' ∷ b'o' ∷ b'u' ∷ b'l' ∷ b'd' ∷ b' ' ∷ b'n' ∷ b'o' ∷ b't' ∷ b' ' ∷ b'r' ∷ b'e' ∷ b'a' ∷ b'd'
    ∷ b' ' ∷ b'a' ∷ b'r' ∷ b'g' ∷ b'u' ∷ b'm' ∷ b'e' ∷ b'n' ∷ b't' ∷ b's' ∷ 10 ∷ 0 ∷ []

abbrev pub not_found : List ℕ
not_found =
    b'f' ∷ b'i' ∷ b'l' ∷ b'e' ∷ b' ' ∷ b'n' ∷ b'o' ∷ b't' ∷ b' ' ∷ b'f' ∷ b'o' ∷ b'u' ∷ b'n' ∷ b'd'
    ∷ 10 ∷ 0 ∷ []

abbrev pub read_failed : List ℕ
read_failed =
    b'f' ∷ b'i' ∷ b'l' ∷ b'e' ∷ b' ' ∷ b'r' ∷ b'e' ∷ b'a' ∷ b'd' ∷ b' ' ∷ b'f' ∷ b'a' ∷ b'i' ∷ b'l'
    ∷ b'e' ∷ b'd' ∷ 10 ∷ 0 ∷ []

-- What `main` returns; `none` while its loop still runs when the fuel is used up.
abbrev pub Exits : Os → Type 0
Exits os = Result (Option (os.State × ℤ))

module _ (os : Os) where
  -- A message, and `return status`.
  abbrev pub give_up : os.State → List ℕ → ℕ → Exits os
  give_up w message status = ece391_fdputs os w (pos 1) message >>= λ w'. ok (some (w', pos status))

  -- The loop of `main`, on fuel.
  unfoldable pub cat_loop : ℕ → os.State → ℤ → List ℕ → Exits os
  unfolding ece391_fdputs
  cat_loop zero w fd buf = ok none
  cat_loop (suc fuel) w fd buf =
      let (w1, cnt, bytes) = os.read w fd 1024 in
      let buf1 = store buf 0 bytes in
      let (w2, written) = os.write w1 (pos 1) buf1 cnt in
      let rest = cat_loop fuel w2 fd buf1 in
      if eqb_ℤ cnt (pos 0)
      then ok (some (w1, pos 0))
      else if eqb_ℤ cnt minus_one
      then give_up w1 read_failed 3
      else if eqb_ℤ written minus_one
      then ok (some (w2, pos 3))
      else rest

  -- `main`, with what the stack holds in `buf`.
  unfoldable pub cat_main : ℕ → os.State → List ℕ → Exits os
  unfolding cat_loop ece391_fdputs
  cat_main fuel w buf =
      let (w1, got, args) = os.getargs w 1024 in
      let buf1 = store buf 0 args in
      let (w2, fd) = os.open_file w1 buf1 in
      if eqb_ℤ got (pos 0)
      then if eqb_ℤ fd minus_one then give_up w2 not_found 2 else cat_loop fuel w2 fd buf1
      else give_up w1 no_arguments 3
