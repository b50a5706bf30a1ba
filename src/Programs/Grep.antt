-- ===== src/Programs/Grep.antt =====
-- syscalls/ece391grep.c
pub mod Search
pub mod Buffer
pub mod Output
pub mod Rounds
pub mod Printed
pub mod Reading
pub mod File
use ece391_mp.Base.{
  ℕ, zero, suc, ◌+◌, ◌-◌, ◌&&◌, not, Bool, true, false, List, [], ◌∷◌, Option, none, some, Result,
  ok, fault, ◌>>=◌, ltb, leb, ◌==◌, if◌then◌else◌, ℤ, pos, negsuc, minus_one, eqb_ℤ, in_bounds,
  ◌>>◌, get_or, drop, take,
}
use ece391_mp.Programs.{Os, store}
use ece391_mp.Programs.Support.{ece391_fdputs, ece391_strlen, ece391_strncmp}

abbrev pub open_failed : List ℕ
open_failed =
    b'f' ∷ b'i' ∷ b'l' ∷ b'e' ∷ 32 ∷ b'o' ∷ b'p' ∷ b'e' ∷ b'n' ∷ 32 ∷ b'f' ∷ b'a' ∷ b'i' ∷ b'l'
    ∷ b'e' ∷ b'd' ∷ 10 ∷ 0 ∷ []

abbrev pub file_read_failed : List ℕ
file_read_failed =
    b'f' ∷ b'i' ∷ b'l' ∷ b'e' ∷ 32 ∷ b'r' ∷ b'e' ∷ b'a' ∷ b'd' ∷ 32 ∷ b'f' ∷ b'a' ∷ b'i' ∷ b'l'
    ∷ b'e' ∷ b'd' ∷ 10 ∷ 0 ∷ []

abbrev pub close_failed : List ℕ
close_failed =
    b'f' ∷ b'i' ∷ b'l' ∷ b'e' ∷ 32 ∷ b'c' ∷ b'l' ∷ b'o' ∷ b's' ∷ b'e' ∷ 32 ∷ b'f' ∷ b'a' ∷ b'i'
    ∷ b'l' ∷ b'e' ∷ b'd' ∷ 10 ∷ 0 ∷ []

abbrev pub no_argument : List ℕ
no_argument =
    b'c' ∷ b'o' ∷ b'u' ∷ b'l' ∷ b'd' ∷ 32 ∷ b'n' ∷ b'o' ∷ b't' ∷ 32 ∷ b'r' ∷ b'e' ∷ b'a' ∷ b'd' ∷ 32
    ∷ b'a' ∷ b'r' ∷ b'g' ∷ b'u' ∷ b'm' ∷ b'e' ∷ b'n' ∷ b't' ∷ 10 ∷ 0 ∷ []

abbrev pub no_directory : List ℕ
no_directory =
    b'd' ∷ b'i' ∷ b'r' ∷ b'e' ∷ b'c' ∷ b't' ∷ b'o' ∷ b'r' ∷ b'y' ∷ 32 ∷ b'o' ∷ b'p' ∷ b'e' ∷ b'n'
    ∷ 32 ∷ b'f' ∷ b'a' ∷ b'i' ∷ b'l' ∷ b'e' ∷ b'd' ∷ 10 ∷ 0 ∷ []

abbrev pub entry_failed : List ℕ
entry_failed =
    b'd' ∷ b'i' ∷ b'r' ∷ b'e' ∷ b'c' ∷ b't' ∷ b'o' ∷ b'r' ∷ b'y' ∷ 32 ∷ b'e' ∷ b'n' ∷ b't' ∷ b'r'
    ∷ b'y' ∷ 32 ∷ b'r' ∷ b'e' ∷ b'a' ∷ b'd' ∷ 32 ∷ b'f' ∷ b'a' ∷ b'i' ∷ b'l' ∷ b'e' ∷ b'd' ∷ 10 ∷ 0
    ∷ []

abbrev pub set_byte : List ℕ → ℕ → ℕ → List ℕ
set_byte held i c = store held i (c ∷ [])

-- `while (line_end < last && '\n' != data[line_end]) line_end++`, with `last - line_end` rounds.
unfoldable pub line_end_from : List ℕ → ℕ → ℕ → ℕ
line_end_from held zero i = i
line_end_from held (suc rounds) i =
    let rest = line_end_from held rounds (i + 1) in if get_or held i 0 == 10 then i else rest

-- The loop over `check`, with the rounds that are left: whether the string stands in the line.
unfoldable pub occurs_from : List ℕ → ℕ → List ℕ → ℕ → ℕ → Result Bool
unfolding ece391_strncmp
occurs_from s s_len held zero check = ok false
occurs_from s s_len held (suc rounds) check =
    let rest = occurs_from s s_len held rounds (check + 1) in
    let compared =
      ece391_strncmp (drop check held) s s_len >>= λ d. if eqb_ℤ d (pos 0) then ok true else rest in
    if get_or s 0 0 == get_or held check 0 then compared else rest

-- What the loop over the lines leaves when it breaks: the world, the buffer and `last`.
abbrev pub Scanned : Os → Type 0
Scanned os = os.State × List ℕ × ℕ

module _ (os : Os) (s fname : List ℕ) (s_len : ℕ) where
  -- The four lines that print a match.
  unfoldable pub print_line : os.State → List ℕ → Result os.State
  unfolding ece391_fdputs
  print_line w line = do
    w1 ← ece391_fdputs os w (pos 1) fname
    w2 ← ece391_fdputs os w1 (pos 1) (b':' ∷ 0 ∷ [])
    w3 ← ece391_fdputs os w2 (pos 1) line
    ece391_fdputs os w3 (pos 1) (10 ∷ 0 ∷ [])

  -- A line that the buffer has not to its end: it goes to the start of the buffer. The copy is to lower
  -- addresses, so it reads each byte before it writes there.
  unfoldable pub keep_rest : os.State → List ℕ → ℕ → ℕ → ℕ → Result (Scanned os)
  unfolding ece391_strlen
  keep_rest w held last line_start line_end = do
    let ended = set_byte held line_end 0
    n ← ece391_strlen (drop line_start ended)
    ok (w, store ended 0 (take (n + 1) (drop line_start ended)), last - line_start)

  -- The inner `while (1)`, on fuel.
  unfoldable pub scan_lines : ℕ → os.State → List ℕ → ℕ → ℕ → ℕ → Result (Option (Scanned os))
  unfolding print_line keep_rest line_end_from occurs_from
  scan_lines zero w held cnt last line_start = ok none
  scan_lines (suc fuel) w held cnt last line_start =
      let line_end = line_end_from held (last - line_start) line_start in
      let partial = not (get_or held line_end 0 == 10) && not (cnt == 0) && not (line_start == 0) in
      let ended = set_byte held line_end 0 in
      let go_on = λ (w' : os.State).
        if leb last (line_end + 1)
        then ok (some (w', ended, 0))
        else scan_lines fuel w' ended cnt last (line_end + 1) in
      let searched = occurs_from s s_len ended (line_end - line_start) line_start >>= λ found.
      if found then (print_line w (drop line_start ended) >>= go_on) else go_on w in
      if partial then (keep_rest w held last line_start line_end >>= λ r. ok (some r)) else searched

  -- The end of `do_one_file`.
  unfoldable pub close_file : os.State → ℤ → Result (Option (os.State × ℤ))
  unfolding ece391_fdputs
  close_file w fd =
      let (w1, closed) = os.close_file w fd in
      let failed = ece391_fdputs os w1 (pos 1) close_failed >>= λ w2. ok (some (w2, minus_one)) in
      if eqb_ℤ closed minus_one then failed else ok (some (w1, pos 0))

  -- The outer `while (1)`, on fuel. A negative count other than -1 leads in front of the
  -- buffer, and one above what was asked for behind it.
  unfoldable pub scan_file : ℕ → os.State → ℤ → List ℕ → ℕ → Result (Option (os.State × ℤ))
  unfolding scan_lines close_file ece391_fdputs
  scan_file zero w fd held last = ok none
  scan_file (suc fuel) w fd held last =
      let (w1, cnt, bytes) = os.read w fd (1024 - last) in
      elim cnt as (λ x. Result (Option (os.State × ℤ))) [
        | negsuc zero ↦
            ece391_fdputs os w1 (pos 1) file_read_failed >>= λ w2. ok (some (w2, minus_one))
        | negsuc (suc n) ↦ fault
        | pos n ↦
            in_bounds (leb (last + n) 1024)
            >> scan_lines fuel w1 (store held last bytes) n (last + n) 0
            >>= λ o. elim o as (λ x. Result (Option (os.State × ℤ))) [
              | none ↦ ok none
              | some (w2, data2, last2) ↦
                  if n == 0 then close_file w2 fd else scan_file fuel w2 fd data2 last2
            ]
      ]

module _ (os : Os) (junk : List ℕ) where
  -- `do_one_file`; `junk` is what the stack holds in its buffer of 1025 bytes.
  unfoldable pub do_one_file : ℕ → os.State → List ℕ → List ℕ → Result (Option (os.State × ℤ))
  unfolding scan_file ece391_strlen ece391_fdputs
  do_one_file fuel w s fname = do
    s_len ← ece391_strlen s
    let (w1, fd) = os.open_file w fname
    let failed = ece391_fdputs os w1 (pos 1) open_failed >>= λ w2. ok (some (w2, minus_one))
    if eqb_ℤ fd minus_one then failed else scan_file os s fname s_len fuel w1 fd junk 0

  -- The loop of `main` over the directory, on fuel.
  unfoldable pub grep_entries : ℕ → os.State → ℤ → List ℕ → List ℕ → Result (Option (os.State × ℤ))
  unfolding do_one_file ece391_fdputs
  grep_entries zero w fd search buf = ok none
  grep_entries (suc fuel) w fd search buf =
      let (w1, cnt, bytes) = os.read w fd 32 in
      let buf1 = store buf 0 bytes in
      elim cnt as (λ x. Result (Option (os.State × ℤ))) [
        | negsuc zero ↦ ece391_fdputs os w1 (pos 1) entry_failed >>= λ w2. ok (some (w2, pos 3))
        | negsuc (suc n) ↦ fault
        | pos n ↦
            let named = set_byte buf1 n 0 in
            let searched = in_bounds (ltb n 33) >> do_one_file fuel w1 search named >>= λ o.
            elim o as (λ x. Result (Option (os.State × ℤ))) [
              | none ↦ ok none
              | some (w2, failed) ↦
                  if eqb_ℤ failed (pos 0)
                  then grep_entries fuel w2 fd search named
                  else ok (some (w2, pos 3))
            ] in
            if n == 0
            then ok (some (w1, pos 0))
            else if get_or buf1 0 0 == b'.'
            then grep_entries fuel w1 fd search buf1
            else searched
      ]

  -- `main`, with what the stack holds in `buf` and in `search`.
  unfoldable pub grep_main : ℕ → os.State → List ℕ → List ℕ → Result (Option (os.State × ℤ))
  unfolding grep_entries ece391_fdputs
  grep_main fuel w buf search =
      let (w1, got, args) = os.getargs w 1024 in
      let (w2, fd) = os.open_file w1 (b'.' ∷ 0 ∷ []) in
      let no_search = ece391_fdputs os w1 (pos 1) no_argument >>= λ w3. ok (some (w3, pos 3)) in
      let no_entries = ece391_fdputs os w2 (pos 1) no_directory >>= λ w3. ok (some (w3, pos 2)) in
      if eqb_ℤ got (pos 0)
      then if eqb_ℤ fd minus_one
        then no_entries
        else grep_entries fuel w2 fd (store search 0 args) buf
      else no_search
