-- ===== src/Tests/Bouncing.antt =====
-- One round of `pingpong` on a small kernel with a clock.
use ece391_mp.Base.{
  ℕ, ◌≡◌, refl, List, [], ◌++◌, ok, pos, pos_part, eqb_ℤ, minus_one, if◌then◌else◌, take,
}
use ece391_mp.Programs.{Os, IsScreen}
use ece391_mp.Programs.Pingpong.{pingpong_main}
use ece391_mp.Programs.Pingpong.Frames.{game}
use ece391_mp.Programs.Pingpong.Shown.{pingpong_main-game}

abbrev clock_os : Os
clock_os = record {
  State = List ℕ;
  getargs = λ w n. (w, minus_one, []);
  open_file = λ w name. (w, pos 2);
  read = λ w fd n. (w, pos 0, []);
  write = λ w fd bytes n. if eqb_ℤ fd (pos 1) then (w ++ take (pos_part n) bytes, n) else (w, n);
  close_file = λ w fd. (w, pos 0);
  execute = λ w command. (w, minus_one);
}

abbrev screen_of : List ℕ → List ℕ
screen_of w = w

clock_os-IsScreen : IsScreen clock_os screen_of
clock_os-IsScreen = record { write-appends = λ w bytes n le. refl }

pingpong_main_example :
    (w' : List ℕ) × (pingpong_main clock_os 1 [] (λ i. 7) ≡ ok w')
    × (screen_of w' ≡ [] ++ game 1 b'A')
pingpong_main_example =
    pingpong_main-game clock_os screen_of (pos 2) 1 [] (λ i. 7) clock_os-IsScreen (λ w. refl)
      (λ w bytes. refl) refl
