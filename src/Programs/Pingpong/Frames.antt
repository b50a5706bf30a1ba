-- ===== src/Programs/Pingpong/Frames.antt =====
-- What `pingpong` prints.
use ece391_mp.Base.{
  ℕ, zero, suc, ◌+◌, ◌-◌, ◌≤◌, ◌<◌, ◌≡◌, ◌≢◌, ◌⊎◌, refl, sym, ap, ◌∙◌, inl, inr, true, false, ◌||◌,
  ◌&&◌, leb, ltb, List, [], ◌++◌, ◌==◌, if◌then◌else◌, update, slice, arith, Bool-cases, ==_iff,
}
use ece391_mp.Str.Reverse.{IsString}
use ece391_mp.Programs.Pingpong.{blank_from, walls, drawn}

-- A frame: 79 columns with a wall in the second and in the last, the ball at `j`, and a newline.
abbrev pub frame : ℕ → ℕ → ℕ → ℕ
frame c j i = if i == 1 || i == 78 then b'|' else if i == 79 then 10 else if i == j then c else 32

abbrev pub frame_text : ℕ → ℕ → List ℕ
frame_text c j = slice (frame c j) 0 80

-- The frames of a ball that moves to the right and to the left.
unfoldable pub rightward : ℕ → ℕ → ℕ → List ℕ
rightward c zero j = []
rightward c (suc rounds) j = frame_text c j ++ rightward c rounds (j + 1)

unfoldable pub leftward : ℕ → ℕ → ℕ → List ℕ
leftward c zero j = []
leftward c (suc rounds) j = frame_text c j ++ leftward c rounds (j - 1)

-- The frames of some rounds: each with the next letter, and A behind Z.
unfoldable pub game : ℕ → ℕ → List ℕ
game zero c = []
game (suc rounds) c =
    (rightward c 76 2 ++ leftward c 76 77) ++ game rounds (if c == b'Z' then b'A' else c + 1)

-- The buffer has its walls, its newline and its end.
pub record HasWalls (buf : ℕ → ℕ) : Type 0 where
  pub left : buf 0 ≡ 32
  pub wall : buf 1 ≡ b'|'
  pub far_wall : buf 78 ≡ b'|'
  pub line_end : buf 79 ≡ 10
  pub text_end : buf 80 ≡ 0

blank_from-outside :
    (buf : ℕ → ℕ) (rounds i m : ℕ) → (m < i) ⊎ (i + rounds ≤ m) → blank_from buf rounds i m ≡ buf m
unfolding blank_from
blank_from-outside buf zero i m out = refl
blank_from-outside buf (suc rounds) i m out =
    let other : (i == m) ≡ false = elim out as (λ x. (i == m) ≡ false) [
      | inl h ↦ ground (arith, h)
      | inr h ↦ ground (arith, h)
    ] in
    blank_from-outside (update buf i 32) rounds (i + 1) m
      (elim out [ inl h ↦ inl (omega arith) | inr h ↦ inr (omega arith) ])
    ∙ rw other refl

blank_from-inside :
    (buf : ℕ → ℕ) (rounds i m : ℕ) → i ≤ m → m < i + rounds → blank_from buf rounds i m ≡ 32
unfolding blank_from
blank_from-inside buf zero i m lo hi = absurd (omega arith)
blank_from-inside buf (suc rounds) i m lo hi = elim (Bool-cases (i == m)) [
  | inl here ↦
      blank_from-outside (update buf i 32) rounds (i + 1) m (inl (ground (arith, here)))
      ∙ rw here refl
  | inr other ↦
      blank_from-inside (update buf i 32) rounds (i + 1) m (ground (arith, other)) (omega arith)
]

-- The buffer outside of its inner portion.
frame-edge :
    (buf : ℕ → ℕ) (c j i : ℕ)
    → HasWalls buf
    → 2 ≤ j
    → j < 78
    → i < 80
    → (i < 2) ⊎ (78 ≤ i)
    → buf i ≡ frame c j i
frame-edge buf c j i h lo hi lt edge = elim (Bool-cases (i == 0)) [
  | inl e ↦ ap buf (at e) ∙ h.left ∙ ground (arith, e)
  | inr e0 ↦ elim (Bool-cases (i == 1)) [
    | inl e ↦ ap buf (at e) ∙ h.wall ∙ ground (arith, e)
    | inr e1 ↦ elim (Bool-cases (i == 78)) [
      | inl e ↦ ap buf (at e) ∙ h.far_wall ∙ ground (arith, e)
      | inr e2 ↦
          (let e : (i == 79) ≡ true = ground (arith, edge) in
            ap buf (at e) ∙ h.line_end ∙ ground (arith, e))
    ]
  ]
]
  where
    at : {n : ℕ} → (i == n) ≡ true → i ≡ n
    at {n} e = (==_iff i n).0 e

frame-some : (c j i : ℕ) → c ≢ 0 → frame c j i ≢ 0
frame-some c j i some_c = ground (arith, some_c)

-- The drawn buffer is the frame.
pub drawn-frame :
    (buf : ℕ → ℕ) (c j i : ℕ)
    → HasWalls buf
    → 2 ≤ j
    → j < 78
    → i < 80
    → drawn buf c j i ≡ frame c j i
unfolding drawn
drawn-frame buf c j i h lo hi lt = elim (Bool-cases (j == i)) [
  | inl here ↦ rw here (ground (arith, here))
  | inr other ↦ rw other (elim (Bool-cases (leb 2 i && ltb i 78)) [
    | inl inside ↦
        blank_from-inside buf 76 2 i (ground (arith, inside)) (ground (arith, inside))
        ∙ ground (arith, inside, other)
    | inr outside ↦
        let edge : (i < 2) ⊎ (78 ≤ i) = ground (arith, outside) in
        blank_from-outside buf 76 2 i edge ∙ frame-edge buf c j i h lo hi lt edge
  ])
]

drawn-outside :
    (buf : ℕ → ℕ) (c j i : ℕ) → 2 ≤ j → j < 78 → (i < 2) ⊎ (78 ≤ i) → drawn buf c j i ≡ buf i
unfolding drawn
drawn-outside buf c j i lo hi edge =
    let other : (j == i) ≡ false = elim edge as (λ x. (j == i) ≡ false) [
      | inl e ↦ ground (arith, e)
      | inr e ↦ ground (arith, e)
    ] in
    rw other (blank_from-outside buf 76 2 i edge)

pub drawn-HasWalls :
    (buf : ℕ → ℕ) (c j : ℕ) → HasWalls buf → 2 ≤ j → j < 78 → HasWalls (drawn buf c j)
drawn-HasWalls buf c j h lo hi = record {
  left = drawn-outside buf c j 0 lo hi (inl (omega arith)) ∙ h.left;
  wall = drawn-outside buf c j 1 lo hi (inl (omega arith)) ∙ h.wall;
  far_wall = drawn-outside buf c j 78 lo hi (inr (omega arith)) ∙ h.far_wall;
  line_end = drawn-outside buf c j 79 lo hi (inr (omega arith)) ∙ h.line_end;
  text_end = drawn-outside buf c j 80 lo hi (inr (omega arith)) ∙ h.text_end;
}

pub walls-HasWalls : (junk : ℕ → ℕ) → HasWalls (walls junk)
unfolding walls
walls-HasWalls junk = record {
  left = blank_from-inside junk 81 0 0 (omega arith) (omega arith);
  wall = refl;
  far_wall = refl;
  line_end = refl;
  text_end = refl;
}

-- The drawn buffer is a string of 80 characters.
pub drawn-IsString :
    (buf : ℕ → ℕ) (c j : ℕ) → HasWalls buf → c ≢ 0 → 2 ≤ j → j < 78 → IsString 81 (drawn buf c j) 80
drawn-IsString buf c j h some_c lo hi = record {
  fits = omega arith;
  end = (drawn-HasWalls buf c j h lo hi).text_end;
  chars =
      λ i lt e. (let z = sym (drawn-frame buf c j i h lo hi lt) ∙ e in frame-some c j i some_c z);
}
