-- ===== src/Tests/Programs.antt =====
-- The programs on a small kernel, which is a file that is read and the text that is shown.
use ece391_mp.Base.{
  ℕ, ◌≡◌, ◌≢◌, refl, List, [], ◌∷◌, ◌++◌, some, ok, ◌>>=◌, pos, pos_part, take, drop, length, min,
  arith, if◌then◌else◌, ◌==◌, minus_one,
}
use ece391_mp.Programs.{Os, IsFile, IsScreen}
use ece391_mp.Programs.Support.{ece391_fdputs}
use ece391_mp.Programs.Support.Compare.{NoNul}
use ece391_mp.Programs.Cat.{cat_main}
use ece391_mp.Programs.Cat.Contents.{cat_main-shown}
use ece391_mp.Programs.Shell.{exits, again, prompt, report, shell_round}
use ece391_mp.Programs.Shell.Commands.{exit_text, shell_round-line}
use ece391_mp.Programs.Counter.{count}
use ece391_mp.Programs.Counter.Lines.{Lines, count-Lines}

-- What is left of the file, and what the terminal shows.
abbrev pub World : Type 0
World = List ℕ × List ℕ

abbrev pub small_os : Os
small_os = record {
  State = World;
  getargs = λ w n. (w, pos 0, 97 ∷ 0 ∷ []);
  open_file = λ w name. (w, pos 2);
  read = λ w fd n. ((drop n (w.0), w.1), pos (min n (length (w.0))), take n (w.0));
  write = λ w fd bytes n.
      ((w.0, w.1 ++ take (pos_part n) bytes), if pos_part n == 0 then minus_one else n);
  close_file = λ w fd. (w, pos 0);
  execute = λ w command. (w, pos 0);
}

abbrev pub left_of : World → List ℕ
left_of w = w.0

abbrev pub shown_of : World → List ℕ
shown_of w = w.1

-- Every state is one in which the file is open.
abbrev pub Open : World → Type 0
Open w = Unit

pub small_os-IsFile : IsFile small_os (pos 2) Open left_of shown_of
small_os-IsFile = record {
  read-cnt = λ w n ready lo hi. refl;
  read-bytes = λ w n ready lo hi. refl;
  read-left = λ w n ready lo hi. refl;
  read-shown = λ w n ready lo hi. refl;
  read-ready = λ w n ready lo hi. tt;
  write-cnt = λ w bytes n ready lo le. ground arith;
  write-left = λ w bytes n ready le. refl;
  write-shown = λ w bytes n ready le. refl;
  write-ready = λ w bytes n ready le. tt;
}

small_os-IsScreen : IsScreen small_os shown_of
small_os-IsScreen = record { write-appends = λ w bytes n le. refl }

-- A file of three bytes, "hi" and a newline, and an empty screen.
abbrev hi : World
hi = (b'h' ∷ b'i' ∷ 10 ∷ [], [])

cat_example :
    (w : World) × (cat_main small_os 4 hi [] ≡ ok (some (w, pos 0)))
    × (shown_of w ≡ [] ++ (b'h' ∷ b'i' ∷ 10 ∷ []))
cat_example =
    cat_main-shown small_os 4 2 hi [] Open left_of shown_of small_os-IsFile refl refl tt
      (omega arith)

abbrev word_hi : List ℕ
word_hi = b'h' ∷ b'i' ∷ []

word_hi-NoNul : NoNul word_hi
unfolding NoNul
word_hi-NoNul = (λ e. absurd (omega (arith, e)), (λ e. absurd (omega (arith, e)), tt))

abbrev zeros : ℕ → ℕ
zeros i = 0

-- The prompt is shown.
abbrev prompted : World
prompted = (b'h' ∷ b'i' ∷ 10 ∷ [], b'3' ∷ b'9' ∷ b'1' ∷ b'O' ∷ b'S' ∷ b'>' ∷ 32 ∷ [])

hi-prompted : ece391_fdputs small_os hi (pos 1) prompt ≡ ok prompted
unfolding ece391_fdputs
hi-prompted = refl

shell_example :
    let w2 = (small_os.read prompted (pos 0) 1023).0 in
    (r : List ℕ) × (word_hi ≡ exit_text → shell_round small_os hi [] ≡ ok (exits w2 (pos 0)))
    × (word_hi ≡ [] → shell_round small_os hi [] ≡ ok (again w2 (word_hi ++ (0 ∷ r))))
    × (word_hi ≢ exit_text
        → word_hi ≢ []
        → shell_round small_os hi [] ≡ (
            let (w3, rval) = small_os.execute w2 (word_hi ++ (0 ∷ r)) in
            report small_os w3 rval >>= λ w4. ok (again w4 (word_hi ++ (0 ∷ r)))))
shell_example =
    shell_round-line small_os hi prompted [] word_hi hi-prompted (omega arith) refl refl
      word_hi-NoNul

count_example :
    (w : World) × (out : List ℕ) × (count small_os 3 0 hi zeros ≡ ok w)
    × (shown_of w ≡ [] ++ out)
    × Lines 3 0 out
count_example = count-Lines small_os shown_of small_os-IsScreen 3 0 hi zeros (omega arith)
