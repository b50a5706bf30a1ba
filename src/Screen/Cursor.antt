-- ===== src/Screen/Cursor.antt =====
-- The range of the cursor under `putc`.
use ece391_mp.Base.{
  ℕ, ◌+◌, ◌-◌, ◌/◌, ◌%◌, ◌^◌, ◌<◌, ◌≡◌, sym, subst, inl, inr, Bool, true, false, ◌&&◌, Option, none,
  some, Result, ok, fault, ◌>>=◌, ltb, ◌==◌, if◌then◌else◌, arith, Bool-cases, update,
}
use ece391_mp.Kernel.{Kernel}
use ece391_mp.Kernel.Running.{get_running_terminal}
use ece391_mp.Paging.{map_vid_mem}
use ece391_mp.Paging.Mmu.{translate}
use ece391_mp.Screen.{
  poke, put_cell, scroll_up, set_cursor_location, set_screen_x, set_screen_xy, clear_screen_xy,
  hidden, show_at, buffer_of, new_line, advance, draw, putc_plain, putc, at_xy, set_video, num_cols,
  num_rows, video, attrib, Moved, on_video,
}

-- The cursor stands on one of the 80 columns and of the 25 rows.
pub record OnScreen (k : Kernel) : Type 0 where
  pub column : k.screen.screen_x < num_cols
  pub row : k.screen.screen_y < num_rows

abbrev InRange : Moved → Type 0
InRange m = (m.1 < num_cols) × (m.2 < num_rows)

-- Every value that a piece of code returns satisfies `P`.
abbrev pub Ensures {ℓ} : {A : Type ℓ} → (A → Type 0) → Result A → Type 0
Ensures P (ok a) = P a
Ensures P fault = Unit

pub Ensures-then {ℓ κ} :
    {A : Type ℓ} {B : Type κ} (P : A → Type 0) (Q : B → Type 0) (first : Result A)
    (next : A → Result B)
    → Ensures P first
    → ((a : A) → P a → Ensures Q (next a))
    → Ensures Q (first >>= next)
Ensures-then P Q fault next h after = tt
Ensures-then P Q (ok a) next h after = after a h

poke-OnScreen : (k : Kernel) (va byte : ℕ) → OnScreen k → Ensures OnScreen (poke k va byte)
unfolding poke
poke-OnScreen k va byte h = go (translate k.paging va)
  where
    written :
        (b : Bool) (video' : ℕ → ℕ)
        → Ensures OnScreen (if b then ok (set_video k video') else fault)
    written true video' = record { column = h.column; row = h.row }
    written false video' = tt

    go :
        (o : Option (ℕ × Bool))
        → Ensures OnScreen (elim o as (λ x. Result Kernel) [
          | none ↦ fault
          | some (pa, user) ↦
              if on_video pa then ok (set_video k (update k.screen.video pa byte)) else fault
        ])
    go none = tt
    go (some (pa, user)) = written (on_video pa) (update k.screen.video pa byte)

put_cell-OnScreen :
    (k : Kernel) (base x y c : ℕ) → OnScreen k → Ensures OnScreen (put_cell k base x y c)
unfolding put_cell
put_cell-OnScreen k base x y c h =
    Ensures-then OnScreen OnScreen (poke k _ c) (λ k1. poke k1 _ attrib) (poke-OnScreen k _ c h)
      (λ k1 h1. poke-OnScreen k1 _ attrib h1)

-- A scroll that returns gives the position it is followed by.
scrolled :
    (r : Result Kernel) (x y : ℕ)
    → x < num_cols
    → y < num_rows
    → Ensures InRange (r >>= λ k'. ok (k', x, y))
scrolled fault x y lt lt' = tt
scrolled (ok k') x y lt lt' = (lt, lt')

new_line-InRange : (k : Kernel) (y : ℕ) → y < num_rows → Ensures InRange (new_line k y)
unfolding new_line
new_line-InRange k y lt = elim (Bool-cases (ltb y (num_rows - 1))) [
  | inl h ↦ rw h ((omega arith, ground (arith, h)))
  | inr h ↦ rw h (scrolled (scroll_up k) 0 y (omega arith) lt)
]

advance-InRange :
    (k : Kernel) (x y : ℕ) → x < num_cols → y < num_rows → Ensures InRange (advance k x y)
unfolding advance
advance-InRange k x y lt lt' = elim (Bool-cases (ltb 0 ((x + 1) % 2 ^ 16 / num_cols))) [
  | inr h ↦ rw h ((omega arith, lt'))
  | inl h ↦ elim (Bool-cases (y == num_rows - 1)) [
    | inl h' ↦ rw (h, h') (scrolled (scroll_up k) _ y (omega arith) lt')
    | inr h' ↦ rw (h, h') ((omega arith, omega arith))
  ]
]

set_screen_xy-OnScreen : (k : Kernel) (x y : ℕ) → OnScreen k → OnScreen (set_screen_xy k x y)
unfolding set_screen_xy set_cursor_location
set_screen_xy-OnScreen k x y h = elim (Bool-cases (ltb y num_rows && ltb x num_cols)) [
  | inl inside ↦
      rw inside (record { column = ground (arith, inside); row = ground (arith, inside) })
  | inr outside ↦ rw outside h
]

set_screen_x-OnScreen : (k : Kernel) (x : ℕ) → OnScreen k → OnScreen (set_screen_x k x)
unfolding set_screen_x set_cursor_location
set_screen_x-OnScreen k x h = elim (Bool-cases (ltb x num_cols)) [
  | inl inside ↦ rw inside (record { column = ground (arith, inside); row = h.row })
  | inr outside ↦ rw outside h
]

backspace-OnScreen :
    (k : Kernel) (b : Bool) (x y x' : ℕ)
    → OnScreen k
    → OnScreen (if b then set_screen_xy k x y else set_screen_x k x')
backspace-OnScreen k true x y x' h = set_screen_xy-OnScreen k x y h
backspace-OnScreen k false x y x' h = set_screen_x-OnScreen k x' h

at_xy-OnScreen : (m : Moved) → InRange m → Ensures OnScreen (ok (at_xy m.0 m.1 m.2))
at_xy-OnScreen m (lt, lt') = record { column = lt; row = lt' }

draw-OnScreen : (k : Kernel) (c : ℕ) → OnScreen k → Ensures OnScreen (draw k c)
unfolding draw clear_screen_xy
draw-OnScreen k c h = elim (Bool-cases (c == 10)) [
  | inl e ↦ rw e (
      Ensures-then InRange OnScreen (new_line k k.screen.screen_y) (λ m. ok (at_xy m.0 m.1 m.2))
        (new_line-InRange k k.screen.screen_y (h.row)) at_xy-OnScreen)
  | inr e ↦ elim (Bool-cases (c == 8)) [
    | inl e' ↦
        rw (e, e')
          (put_cell-OnScreen _ video _ _ 32 (
            backspace-OnScreen k (k.screen.screen_x == 0 && ltb 0 k.screen.screen_y) (num_cols - 1)
              (k.screen.screen_y - 1) ((k.screen.screen_x + 2 ^ 16 - 1) % 2 ^ 16) h))
    | inr e' ↦
        rw (e, e')
          (Ensures-then OnScreen OnScreen (put_cell k video k.screen.screen_x k.screen.screen_y c)
            (λ k1. advance k1 k.screen.screen_x k.screen.screen_y >>= λ m. ok (at_xy m.0 m.1 m.2))
            (put_cell-OnScreen k video k.screen.screen_x k.screen.screen_y c h)
            (λ k1 h1.
              Ensures-then InRange OnScreen (advance k1 k.screen.screen_x k.screen.screen_y)
                (λ m. ok (at_xy m.0 m.1 m.2))
                (advance-InRange k1 k.screen.screen_x k.screen.screen_y (h.column) (h.row))
                at_xy-OnScreen))
  ]
]

show_at-OnScreen : (k : Kernel) (address : ℕ) → OnScreen k → OnScreen (show_at k address)
unfolding show_at map_vid_mem
show_at-OnScreen k address h =
    let same : (show_at k address).screen ≡ k.screen = ground arith in
    record {
      column = subst (λ s. s.screen_x < num_cols) (sym same) (h.column);
      row = subst (λ s. s.screen_y < num_rows) (sym same) (h.row);
    }

shown_if-OnScreen :
    (k : Kernel) (b : Bool) (address : ℕ)
    → OnScreen k
    → OnScreen (if b then show_at k address else k)
shown_if-OnScreen k true address h = show_at-OnScreen k address h
shown_if-OnScreen k false address h = h

putc_plain-OnScreen :
    (k : Kernel) (term : Option ℕ) (c : ℕ) → OnScreen k → Ensures OnScreen (putc_plain k term c)
unfolding putc_plain set_cursor_location
putc_plain-OnScreen k term c h =
    let k0 = if hidden k term then show_at k video else k in
    let end = λ (k1 : Kernel).
      let k2 = if hidden k term then show_at k1 (buffer_of k1 term) else k1 in
      ok (set_cursor_location k2 k2.screen.screen_x k2.screen.screen_y) in
    Ensures-then OnScreen OnScreen (draw k0 c) end
      (draw-OnScreen k0 c (shown_if-OnScreen k (hidden k term) video h))
      (λ k1 h1.
        (let h2 = shown_if-OnScreen k1 (hidden k term) (buffer_of k1 term) h1 in
          record { column = h2.column; row = h2.row }))

with_terminal :
    (m : Result (Option ℕ)) (f : Option ℕ → Result Kernel)
    → ((o : Option ℕ) → Ensures OnScreen (f o))
    → Ensures OnScreen (m >>= f)
with_terminal fault f h = tt
with_terminal (ok o) f h = h o

-- Every state that `putc` returns has its cursor on the screen, if the cursor was there before: for every
-- character, at every position, and whether the screen scrolls or not.
pub putc-OnScreen : (k : Kernel) (c : ℕ) → OnScreen k → Ensures OnScreen (putc k c)
unfolding putc
putc-OnScreen k c h = with_terminal (get_running_terminal k) _ (λ term. elim (Bool-cases (c == 0)) [
  | inl e ↦ rw e h
  | inr e ↦ elim (Bool-cases (c == 9)) [
    | inr e' ↦ rw (e, e') (putc_plain-OnScreen k term c h)
    | inl e' ↦
        rw (e, e')
          (with_terminal (get_running_terminal (if hidden k term then show_at k video else k)) _
            (λ term'.
              putc_plain-OnScreen (if hidden k term then show_at k video else k) term' 32
                (shown_if-OnScreen k (hidden k term) video h)))
  ]
])
