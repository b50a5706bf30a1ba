-- ===== src/Programs/Grep/Buffer.antt =====
-- The buffer of `grep`: the lines of a file in it, and the end of one of them replaced by a NUL.
use ece391_mp.Base.{
  ℕ, zero, suc, ◌+◌, ◌<◌, ◌≡◌, ◌≢◌, refl, ap, ◌∙◌, false, List, [], ◌∷◌, ◌++◌, ◌==◌, length, take,
  drop, arith, ok,
}
use ece391_mp.Programs.Support.{ece391_strlen_from}
use ece391_mp.Programs.Support.Compare.{NoNul}
use ece391_mp.Programs.Grep.{line_end_from, set_byte}
use ece391_mp.Programs.Grep.Search.{drop-next, get_or-drop}

-- The text of some lines, each with its newline, and a line that has neither a newline nor a NUL.
unfoldable pub text_of : List (List ℕ) → List ℕ
text_of [] = []
text_of (l ∷ ls) = l ++ (10 ∷ text_of ls)

unfoldable pub NoNewline : List ℕ → Type 0
NoNewline [] = Unit
NoNewline (c ∷ l) = (c ≢ 10) × NoNewline l

unfoldable pub AreLines : List (List ℕ) → Type 0
AreLines [] = Unit
AreLines (l ∷ ls) = NoNul l × NoNewline l × AreLines ls

pub ece391_strlen_from-NoNul :
    (t r : List ℕ) (len : ℕ) → NoNul t → ece391_strlen_from (t ++ (0 ∷ r)) len ≡ ok (len + length t)
unfolding ece391_strlen_from NoNul
ece391_strlen_from-NoNul [] r len h = ap ok (omega arith)
ece391_strlen_from-NoNul (c ∷ t) r len (some_c, h) =
    let other : (c == 0) ≡ false = ground (arith, some_c) in
    rw other (ece391_strlen_from-NoNul t r (len + 1) h ∙ ap ok (omega arith))

-- What stands behind a piece of the buffer.
pub drop-past : (l held t : List ℕ) (i : ℕ) → drop i held ≡ l ++ t → drop (i + length l) held ≡ t
drop-past [] held t i here = let e : i + 0 ≡ i = omega arith in ap (λ j. drop j held) e ∙ here
drop-past (c ∷ l) held t i here =
    let e : i + suc (length l) ≡ i + 1 + length l = omega arith in
    ap (λ j. drop j held) e ∙ drop-past l held t (i + 1) (drop-next held i c (l ++ t) here)

-- The end of a line of the buffer is found.
pub line_end_from-line :
    (l held r : List ℕ) (i rounds : ℕ)
    → NoNewline l
    → drop i held ≡ l ++ (10 ∷ r)
    → length l < rounds
    → line_end_from held rounds i ≡ i + length l
unfolding line_end_from NoNewline
line_end_from-line l held r i zero h here lt = absurd (omega arith)
line_end_from-line [] held r i (suc rounds) h here lt =
    rw (get_or-drop held i 10 r here) (omega arith)
line_end_from-line (c ∷ l) held r i (suc rounds) (other, h) here lt =
    let apart : (c == 10) ≡ false = ground (arith, other) in
    rw (get_or-drop held i c (l ++ (10 ∷ r)) here, apart)
      (line_end_from-line l held r (i + 1) rounds h (drop-next held i c (l ++ (10 ∷ r)) here)
          (omega arith)
        ∙ omega arith)

set_byte-cons : (h c m : ℕ) (held : List ℕ) → set_byte (h ∷ held) (suc m) c ≡ h ∷ set_byte held m c
set_byte-cons h c m held =
    let e : suc m + 1 ≡ suc (m + 1) = omega arith in
    ap (λ j. h ∷ (take m held ++ (c ∷ drop j (h ∷ held)))) e

set_byte-first : (l r : List ℕ) → set_byte (l ++ (10 ∷ r)) (length l) 0 ≡ l ++ (0 ∷ r)
set_byte-first [] r = refl
set_byte-first (c ∷ l) r =
    set_byte-cons c 0 (length l) (l ++ (10 ∷ r)) ∙ ap (λ s. c ∷ s) (set_byte-first l r)

-- The newline of a line replaced by a NUL.
pub set_byte-line :
    (held l r : List ℕ) (i : ℕ)
    → drop i held ≡ l ++ (10 ∷ r)
    → drop i (set_byte held (i + length l) 0) ≡ l ++ (0 ∷ r)
set_byte-line held l r zero here =
    let e : 0 + length l ≡ length l = omega arith in
    ap (λ j. set_byte held j 0) e ∙ ap (λ s. set_byte s (length l) 0) here ∙ set_byte-first l r
set_byte-line [] [] r (suc i) here = cc
set_byte-line [] (c ∷ l) r (suc i) here = cc
set_byte-line (h ∷ held) l r (suc i) here =
    let e : suc i + length l ≡ suc (i + length l) = omega arith in
    ap (λ j. drop (suc i) (set_byte (h ∷ held) j 0)) e
    ∙ ap (drop (suc i)) (set_byte-cons h 0 (i + length l) held)
    ∙ set_byte-line held l r i here
