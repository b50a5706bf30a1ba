-- ===== src/Screen/Terminals.antt =====
-- `putc` draws, and leaves the terminals and the process table alone.
use ece391_mp.Base.{
  ℕ, zero, suc, ◌+◌, ◌-◌, ◌*◌, ◌/◌, ◌%◌, ◌^◌, ◌≡◌, refl, ◌∙◌, inl, inr, Bool, true, false, ◌&&◌,
  Option, none, some, Result, ok, fault, ◌>>=◌, ltb, leb, ◌==◌, if◌then◌else◌, arith, Bool-cases,
  update,
}
use ece391_mp.Kernel.{Kernel}
use ece391_mp.Kernel.Running.{get_running_terminal}
use ece391_mp.Paging.{map_vid_mem}
use ece391_mp.Paging.Mmu.{translate}
use ece391_mp.Screen.{
  poke, move_bytes, put_cell, blank_cells, scroll_up, set_cursor_location, set_screen_x,
  set_screen_xy, clear_screen_xy, hidden, show_at, buffer_of, new_line, advance, draw, putc_plain,
  putc, at_xy, set_video, num_cols, num_rows, video, attrib, Moved, on_video,
}

-- The parts of the state that drawing leaves alone.
pub record Kept (k k' : Kernel) : Type 0 where
  pub terminals : k'.terminals ≡ k.terminals
  pub current : k'.current_terminal ≡ k.current_terminal
  pub processes : k'.pcbs ≡ k.pcbs
  pub running : k'.running_pid ≡ k.running_pid

pub Kept-refl : (k : Kernel) → Kept k k
Kept-refl k = record { terminals = refl; current = refl; processes = refl; running = refl }

pub Kept-trans : (k k1 k2 : Kernel) → Kept k k1 → Kept k1 k2 → Kept k k2
Kept-trans k k1 k2 a b = record {
  terminals = b.terminals ∙ a.terminals;
  current = b.current ∙ a.current;
  processes = b.processes ∙ a.processes;
  running = b.running ∙ a.running;
}

-- Where a piece of code returns, the state that it returns is kept so.
abbrev pub Keeps : Kernel → Result Kernel → Type 0
Keeps k (ok k') = Kept k k'
Keeps k fault = Unit

Keeps-then :
    (k : Kernel) (m : Result Kernel) (f : Kernel → Result Kernel)
    → Keeps k m
    → ((k1 : Kernel) → Keeps k1 (f k1))
    → Keeps k (m >>= f)
Keeps-then k fault f h g = tt
Keeps-then k (ok k1) f h g = go (f k1) (g k1)
  where
    go : (r : Result Kernel) → Keeps k1 r → Keeps k r
    go fault h' = tt
    go (ok k2) h' = Kept-trans k k1 k2 h h'

poke-Keeps : (k : Kernel) (va byte : ℕ) → Keeps k (poke k va byte)
unfolding poke
poke-Keeps k va byte = go (translate k.paging va)
  where
    go :
        (o : Option (ℕ × Bool))
        → Keeps k (elim o as (λ x. Result Kernel) [
          | none ↦ fault
          | some (pa, user) ↦
              if on_video pa then ok (set_video k (update k.screen.video pa byte)) else fault
        ])
    go none = tt
    go (some (pa, user)) =
        elim (on_video pa)
          as (λ b.
            Keeps k (if b then ok (set_video k (update k.screen.video pa byte)) else fault)) [
              | true ↦ record { terminals = refl; current = refl; processes = refl; running = refl }
              | false ↦ tt
            ]

put_cell-Keeps : (k : Kernel) (base x y c : ℕ) → Keeps k (put_cell k base x y c)
unfolding put_cell
put_cell-Keeps k base x y c = Keeps-then k _ _ (poke-Keeps k _ c) (λ k1. poke-Keeps k1 _ attrib)

pub blank_cells-Keeps : (k : Kernel) (rounds i : ℕ) → Keeps k (blank_cells k rounds i)
unfolding blank_cells
blank_cells-Keeps k zero i = Kept-refl k
blank_cells-Keeps k (suc rounds) i =
    Keeps-then k _ _ (poke-Keeps k _ 32)
      (λ k1. Keeps-then k1 _ _ (poke-Keeps k1 _ attrib) (λ k2. blank_cells-Keeps k2 rounds (i + 1)))

move_bytes-Keeps : (k : Kernel) (dest src n : ℕ) → Keeps k (move_bytes k dest src n)
unfolding move_bytes
move_bytes-Keeps k dest src n = go (translate k.paging dest) (translate k.paging src)
  where
    go :
        (o o' : Option (ℕ × Bool))
        → Keeps k (elim o as (λ x. Result Kernel) [
          | none ↦ fault
          | some (d, user) ↦ elim o' as (λ x. Result Kernel) [
            | none ↦ fault
            | some (s, user') ↦
                if on_video d
                  && on_video s
                  && leb (dest % 4096 + n) 4096
                  && leb (src % 4096 + n) 4096
                then ok (
                    set_video k (λ a.
                      if leb d a && ltb a (d + n)
                      then k.screen.video (a - d + s)
                      else k.screen.video a))
                else fault
          ]
        ])
    go none o' = tt
    go (some (d, user)) none = tt
    go (some (d, user)) (some (s, user')) =
        elim (on_video d && on_video s && leb (dest % 4096 + n) 4096 && leb (src % 4096 + n) 4096)
          as (λ b. Keeps k (
            if b
            then ok (
                set_video k (λ a.
                  if leb d a && ltb a (d + n)
                  then k.screen.video (a - d + s)
                  else k.screen.video a))
            else fault)) [
              | true ↦ record { terminals = refl; current = refl; processes = refl; running = refl }
              | false ↦ tt
            ]

scroll_up-Keeps : (k : Kernel) → Keeps k (scroll_up k)
unfolding scroll_up
scroll_up-Keeps k =
    Keeps-then k _ _
      (move_bytes-Keeps k video (video + num_cols * 2) (num_cols * (num_rows - 1) * 2))
      (λ k1. blank_cells-Keeps k1 num_cols (num_cols * (num_rows - 1)))

-- The same for a state with a position.
then_moves :
    (k : Kernel) (m : Result Kernel) (x y : ℕ) (f : Moved → Kernel)
    → Keeps k m
    → ((k1 : Kernel) → Kept k1 (f (k1, x, y)))
    → Keeps k ((m >>= λ k'. ok (k', x, y)) >>= λ p. ok (f p))
then_moves k fault x y f h g = tt
then_moves k (ok k1) x y f h g = Kept-trans k k1 _ h (g k1)

put_at : Moved → Kernel
put_at m = at_xy m.0 m.1 m.2

put_at-Kept : (k : Kernel) (x y : ℕ) → Kept k (put_at (k, x, y))
unfolding put_at
put_at-Kept k x y = record { terminals = refl; current = refl; processes = refl; running = refl }

new_line-Keeps : (k : Kernel) (y : ℕ) → Keeps k (new_line k y >>= λ m. ok (put_at m))
unfolding new_line
new_line-Keeps k y = elim (Bool-cases (ltb y (num_rows - 1))) [
  | inl h ↦ rw h (put_at-Kept k 0 (y + 1))
  | inr h ↦
      rw h (then_moves k (scroll_up k) 0 y put_at (scroll_up-Keeps k) (λ k1. put_at-Kept k1 0 y))
]

advance-Keeps : (k : Kernel) (x y : ℕ) → Keeps k (advance k x y >>= λ m. ok (put_at m))
unfolding advance
advance-Keeps k x y = elim (Bool-cases (ltb 0 ((x + 1) % 2 ^ 16 / num_cols))) [
  | inr h ↦ rw h (put_at-Kept k _ y)
  | inl h ↦ elim (Bool-cases (y == num_rows - 1)) [
    | inl h' ↦
        rw (h, h')
          (then_moves k (scroll_up k) _ y put_at (scroll_up-Keeps k) (λ k1. put_at-Kept k1 _ y))
    | inr h' ↦ rw (h, h') (put_at-Kept k _ _)
  ]
]

pub set_screen_xy-Kept : (k : Kernel) (x y : ℕ) → Kept k (set_screen_xy k x y)
unfolding set_screen_xy set_cursor_location
set_screen_xy-Kept k x y = elim (Bool-cases (ltb y num_rows && ltb x num_cols)) [
  | inl h ↦ rw h (record { terminals = refl; current = refl; processes = refl; running = refl })
  | inr h ↦ rw h (Kept-refl k)
]

set_screen_x-Kept : (k : Kernel) (x : ℕ) → Kept k (set_screen_x k x)
unfolding set_screen_x set_cursor_location
set_screen_x-Kept k x = elim (Bool-cases (ltb x num_cols)) [
  | inl h ↦ rw h (record { terminals = refl; current = refl; processes = refl; running = refl })
  | inr h ↦ rw h (Kept-refl k)
]

-- A backspace, from the state with the cursor moved.
blank-Keeps : (k k1 : Kernel) → Kept k k1 → Keeps k (clear_screen_xy k1)
unfolding clear_screen_xy
blank-Keeps k k1 h = Keeps-then k (ok k1) clear_screen_xy h (λ k2. put_cell-Keeps k2 video _ _ 32)

backspace-Kept :
    (k : Kernel) (b : Bool) (x y x' : ℕ)
    → Kept k (if b then set_screen_xy k x y else set_screen_x k x')
backspace-Kept k true x y x' = set_screen_xy-Kept k x y
backspace-Kept k false x y x' = set_screen_x-Kept k x'

draw-Keeps : (k : Kernel) (c : ℕ) → Keeps k (draw k c)
unfolding draw put_at
draw-Keeps k c = elim (Bool-cases (c == 10)) [
  | inl h ↦ rw h (new_line-Keeps k k.screen.screen_y)
  | inr h ↦ elim (Bool-cases (c == 8)) [
    | inl h' ↦
        rw (h, h')
          (blank-Keeps k _ (
            backspace-Kept k (k.screen.screen_x == 0 && ltb 0 k.screen.screen_y) (num_cols - 1)
              (k.screen.screen_y - 1) ((k.screen.screen_x + 2 ^ 16 - 1) % 2 ^ 16)))
    | inr h' ↦
        rw (h, h')
          (Keeps-then k _ _ (put_cell-Keeps k video _ _ c)
            (λ k1. advance-Keeps k1 k.screen.screen_x k.screen.screen_y))
  ]
]

pub show_at-Kept : (k : Kernel) (address : ℕ) → Kept k (show_at k address)
unfolding show_at map_vid_mem
show_at-Kept k address = record {
  terminals = ground arith;
  current = ground arith;
  processes = ground arith;
  running = ground arith;
}

shown_if-Kept : (k : Kernel) (b : Bool) (address : ℕ) → Kept k (if b then show_at k address else k)
shown_if-Kept k true address = show_at-Kept k address
shown_if-Kept k false address = Kept-refl k

set_cursor_location-Kept : (k : Kernel) (x y : ℕ) → Kept k (set_cursor_location k x y)
unfolding set_cursor_location
set_cursor_location-Kept k x y = record {
  terminals = refl;
  current = refl;
  processes = refl;
  running = refl;
}

putc_plain-Keeps : (k : Kernel) (term : Option ℕ) (c : ℕ) → Keeps k (putc_plain k term c)
unfolding putc_plain
putc_plain-Keeps k term c =
    let k0 = if hidden k term then show_at k video else k in
    let end = λ (k1 : Kernel).
      let k2 = if hidden k term then show_at k1 (buffer_of k1 term) else k1 in
      ok (set_cursor_location k2 k2.screen.screen_x k2.screen.screen_y) in
    Keeps-then k (ok k0) (λ k0'. draw k0' c >>= end) (shown_if-Kept k (hidden k term) video)
      (λ k0'. Keeps-then k0' (draw k0' c) end (draw-Keeps k0' c) (λ k1.
        Kept-trans k1 _ _ (shown_if-Kept k1 (hidden k term) (buffer_of k1 term))
          (set_cursor_location-Kept _ _ _)))

Keeps-after :
    (k : Kernel) (m : Result (Option ℕ)) (f : Option ℕ → Result Kernel)
    → ((o : Option ℕ) → Keeps k (f o))
    → Keeps k (m >>= f)
Keeps-after k fault f h = tt
Keeps-after k (ok o) f h = h o

-- `putc` draws, scrolls and moves the cursor, and leaves the terminals and the processes alone.
pub putc-Keeps : (k : Kernel) (c : ℕ) → Keeps k (putc k c)
unfolding putc
putc-Keeps k c = Keeps-after k (get_running_terminal k) _ (λ term. elim (Bool-cases (c == 0)) [
  | inl h ↦ rw h (Kept-refl k)
  | inr h ↦ elim (Bool-cases (c == 9)) [
    | inr h' ↦ rw (h, h') (putc_plain-Keeps k term c)
    | inl h' ↦
        rw (h, h')
          (Keeps-then k (ok (if hidden k term then show_at k video else k))
            (λ k'. get_running_terminal k' >>= λ term'. putc_plain k' term' 32)
            (shown_if-Kept k (hidden k term) video)
            (λ k'.
              Keeps-after k' (get_running_terminal k') _ (λ term'. putc_plain-Keeps k' term' 32)))
  ]
])
