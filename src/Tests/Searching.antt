-- ===== src/Tests/Searching.antt =====
-- `grep` of a file of two lines.
use ece391_mp.Base.{ℕ, ◌≡◌, refl, List, [], ◌∷◌, ◌++◌, some, ok, pos, arith}
use ece391_mp.Programs.Support.Compare.{NoNul}
use ece391_mp.Programs.Grep.{do_one_file}
use ece391_mp.Programs.Grep.Buffer.{text_of, AreLines, NoNewline}
use ece391_mp.Programs.Grep.Printed.{Matches}
use ece391_mp.Programs.Grep.File.{IsClosable, do_one_file-Matches}
use ece391_mp.Tests.Programs.{World, Open, small_os, small_os-IsFile, left_of, shown_of}

small_os-IsClosable : IsClosable small_os (pos 2) Open shown_of
small_os-IsClosable = record { closes = λ w ready. refl; close-shown = λ w ready. refl }

abbrev two_lines : List (List ℕ)
two_lines = (b'h' ∷ b'i' ∷ []) ∷ (b'h' ∷ b'o' ∷ []) ∷ []

two_lines-AreLines : AreLines two_lines
unfolding AreLines NoNul NoNewline
two_lines-AreLines = (
  ((λ e. absurd (omega (arith, e))), ((λ e. absurd (omega (arith, e))), tt)),
  ((λ e. absurd (omega (arith, e))), ((λ e. absurd (omega (arith, e))), tt)),
  (
    ((λ e. absurd (omega (arith, e))), ((λ e. absurd (omega (arith, e))), tt)),
    ((λ e. absurd (omega (arith, e))), ((λ e. absurd (omega (arith, e))), tt)),
    tt,
  ),
)

letter_i-NoNul : NoNul (b'i' ∷ [])
unfolding NoNul
letter_i-NoNul = ((λ e. absurd (omega (arith, e))), tt)

letter_f-NoNul : NoNul (b'f' ∷ [])
unfolding NoNul
letter_f-NoNul = ((λ e. absurd (omega (arith, e))), tt)

abbrev before_search : World
before_search = (b'h' ∷ b'i' ∷ 10 ∷ b'h' ∷ b'o' ∷ 10 ∷ [], [])

do_one_file_example :
    (w' : World) × (out : List ℕ) × (do_one_file small_os [] 6 before_search
        (b'i' ∷ 0 ∷ [])
        (b'f' ∷ 0 ∷ [])
      ≡ ok (some (w', pos 0)))
    × (shown_of w' ≡ [] ++ out)
    × Matches (b'i' ∷ []) (b'f' ∷ []) two_lines out
unfolding text_of
do_one_file_example =
    do_one_file-Matches small_os 2 Open left_of shown_of small_os-IsFile small_os-IsClosable b'i' []
      [] (b'f' ∷ []) [] letter_i-NoNul letter_f-NoNul two_lines 1 before_search []
      two_lines-AreLines refl tt refl (omega arith)
