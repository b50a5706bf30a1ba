-- ===== src/Keyboard/Line.antt =====
-- The line buffer as the list of the characters typed.
use ece391_mp.Base.{
  ℕ, zero, suc, ◌+◌, ◌-◌, ◌≡◌, ◌≢◌, ◌<◌, ◌≤◌, refl, ap, sym, ◌∙◌, inl, inr, Bool, true, false, ◌||◌,
  List, [], ◌∷◌, ◌++◌, Result, ok, fault, ◌>>=◌, ◌>>◌, in_bounds, ltb, ◌==◌, if◌then◌else◌, arith,
  update, slice, slice-append, length, length-slice, Bool-cases, ok-inj,
}
use ece391_mp.Kernel.{Kernel, Terminal, set_terminal, line_buffer_size}
use ece391_mp.Screen.{putc}
use ece391_mp.Screen.Terminals.{Keeps, Kept, putc-Keeps}
use ece391_mp.Keyboard.{push_char, erase_char, edit_line, backspace}

-- The line that a terminal has so far.
abbrev pub line_of : Terminal → List ℕ
line_of t = slice t.line_buf 0 t.line_buf_index

abbrev pub line_at : Kernel → ℕ → List ℕ
line_at k i = line_of (k.terminals i)

-- The effect of a key on a line: a backspace takes the last character off, a key without a character
-- does nothing, a newline is always added, and any other character while there are fewer than 127.
unfoldable pub erase_last : List ℕ → List ℕ
erase_last [] = []
erase_last (c ∷ []) = []
erase_last (c ∷ d ∷ s) = c ∷ erase_last (d ∷ s)

unfoldable pub typed : Bool → ℕ → List ℕ → List ℕ
typed true disp line = erase_last line
typed false disp line =
    if disp == 0
    then line
    else if ltb (length line) (line_buffer_size - 1) || disp == 10
    then line ++ (disp ∷ [])
    else line

slice-update : (a : ℕ → ℕ) (j c i n : ℕ) → i + n ≤ j → slice (update a j c) i n ≡ slice a i n
slice-update a j c i zero h = refl
slice-update a j c i (suc n) h =
    let here : update a j c i ≡ a i = ground arith in
    ap (λ b. b ∷ slice (update a j c) (i + 1) n) here
    ∙ ap (λ s. a i ∷ s) (slice-update a j c (i + 1) n (omega arith))

slice-snoc : (a : ℕ → ℕ) (n c : ℕ) → slice (update a n c) 0 (n + 1) ≡ slice a 0 n ++ (c ∷ [])
slice-snoc a n c =
    let here : update a n c n ≡ c = ground arith in
    sym (slice-append (update a n c) 0 n n 1 (omega arith))
    ∙ ap (λ s. s ++ (update a n c n ∷ [])) (slice-update a n c 0 n (omega arith))
    ∙ ap (λ b. slice a 0 n ++ (b ∷ [])) here

erase_last-slice : (a : ℕ → ℕ) (i n : ℕ) → erase_last (slice a i (suc n)) ≡ slice a i n
unfolding erase_last
erase_last-slice a i zero = refl
erase_last-slice a i (suc n) = ap (λ s. a i ∷ s) (erase_last-slice a (i + 1) n)

-- The terminal on the screen has the line `line`, and the other terminals are as they were.
pub record Typed (k k' : Kernel) (result : List ℕ) : Type 0 where
  pub line : line_at k' k.current_terminal ≡ result
  pub others : (j : ℕ) → j ≢ k.current_terminal → k'.terminals j ≡ k.terminals j
  pub current : k'.current_terminal ≡ k.current_terminal

push_char-Typed :
    (k : Kernel) (c : ℕ) (k' : Kernel)
    → push_char k c ≡ ok k'
    → Typed k k' (line_at k k.current_terminal ++ (c ∷ []))
unfolding push_char
push_char-Typed k c k' e = go (putc k c) (putc-Keeps k c) e
  where
    i : ℕ
    i = k.current_terminal

    typing : Terminal → Terminal
    typing t = record t {
      line_buf = update t.line_buf t.line_buf_index c;
      line_buf_index = t.line_buf_index + 1;
    }

    put : Kernel → Kernel
    put k1 = set_terminal k1 i (typing (k1.terminals i))

    at_i : (put k).terminals i ≡ typing (k.terminals i)
    at_i = ground arith

    here : line_at (put k) i ≡ line_at k i ++ (c ∷ [])
    here = ap line_of at_i ∙ slice-snoc (k.terminals i).line_buf (k.terminals i).line_buf_index c

    written : (k1 : Kernel) → Kept k k1 → Typed k (put k1) (line_at k i ++ (c ∷ []))
    written k1 kept =
        let same : (put k1).terminals ≡ (put k).terminals =
          ap (λ t. update t i (typing (t i))) (kept.terminals) in
        record {
          line = ap (λ t. line_of (t i)) same ∙ here;
          others = λ j other. ap (λ t. t j) same ∙ ground arith;
          current = kept.current;
        }

    go :
        (r : Result Kernel)
        → Keeps k r
        → (r >>= λ k1.
            in_bounds (ltb (k1.terminals i).line_buf_index line_buffer_size) >> ok (put k1))
          ≡ ok k'
        → Typed k k' (line_at k i ++ (c ∷ []))
    go fault kept h = cc
    go (ok k1) kept h = elim (Bool-cases (ltb (k1.terminals i).line_buf_index line_buffer_size)) [
      | inl fits ↦
          let same : put k1 ≡ k' = ok-inj _ _ (rw fits at h) in rw (← same) (written k1 kept)
      | inr full ↦ (let none : fault ≡ ok k' = rw full at h in cc)
    ]

erase_char-Typed :
    (k : Kernel) (k' : Kernel)
    → 0 < (k.terminals k.current_terminal).line_buf_index
    → erase_char k ≡ ok k'
    → Typed k k' (erase_last (line_at k k.current_terminal))
unfolding erase_char
erase_char-Typed k k' some_char e = elim (Bool-cases (ltb index line_buffer_size)) [
  | inl fits ↦ go (putc erased 8) (putc-Keeps erased 8) (rw (fits, erase_char) at e)
  | inr full ↦ (let none : fault ≡ ok k' = rw (full, erase_char) at e in cc)
]
  where
    i : ℕ
    i = k.current_terminal

    index : ℕ
    index = (k.terminals i).line_buf_index - 1

    erasing : Terminal → Terminal
    erasing t = record t { line_buf = update t.line_buf index 0; line_buf_index = index }

    erased : Kernel
    erased = set_terminal k i (erasing (k.terminals i))

    at_i : erased.terminals i ≡ erasing (k.terminals i)
    at_i = ground arith

    here : line_at erased i ≡ erase_last (line_at k i)
    here =
        let count : (k.terminals i).line_buf_index ≡ suc index = omega arith in
        ap line_of at_i
        ∙ slice-update (k.terminals i).line_buf index 0 0 index (omega arith)
        ∙ sym (erase_last-slice (k.terminals i).line_buf 0 index)
        ∙ ap (λ n. erase_last (slice (k.terminals i).line_buf 0 n)) (sym count)

    go : (r : Result Kernel) → Keeps erased r → r ≡ ok k' → Typed k k' (erase_last (line_at k i))
    go fault kept h = cc
    go (ok k1) kept h =
        let same : k1 ≡ k' = ok-inj _ _ h in
        rw (← same) (record {
          line = ap (λ t. line_of (t i)) (kept.terminals) ∙ here;
          others = λ j other. ap (λ t. t j) (kept.terminals) ∙ ground arith;
          current = kept.current;
        })

unchanged : (k k' : Kernel) → ok k ≡ ok k' → Typed k k' (line_at k k.current_terminal)
unchanged k k' h =
    let same : k ≡ k' = ok-inj k k' h in
    rw (← same) (record { line = refl; others = λ j other. refl; current = refl })

erase_last-empty : (a : ℕ → ℕ) (n : ℕ) → n ≡ 0 → erase_last (slice a 0 n) ≡ slice a 0 n
unfolding erase_last
erase_last-empty a n e = rw e refl

-- Every key that `handle_keypress` passes on to a terminal that reads a line, and for which it returns,
-- changes that terminal's line as `typed` says, by the character and by whether backspace is held
-- down, and leaves every other terminal as it was.
pub edit_line-Typed :
    (k : Kernel) (disp : ℕ) (k' : Kernel)
    → edit_line k disp ≡ ok k'
    → Typed k k' (typed (k.keys.key_state backspace == 1) disp (line_at k k.current_terminal))
unfolding edit_line typed
edit_line-Typed k disp k' e = elim (Bool-cases (k.keys.key_state backspace == 1)) [
  | inl back ↦ elim (Bool-cases (ltb 0 t.line_buf_index)) [
    | inl some_char ↦
        rw back (erase_char-Typed k k' (ground arith) (rw (back, some_char, edit_line) at e))
    | inr empty ↦
        let same = erase_last-empty t.line_buf t.line_buf_index (ground arith) in
        rw (back, same) (unchanged k k' (rw (back, empty, edit_line) at e))
  ]
  | inr key ↦ elim (Bool-cases (disp == 0)) [
    | inl none ↦ rw (key, none) (unchanged k k' (rw (key, none, edit_line) at e))
    | inr char ↦ elim (Bool-cases (ltb t.line_buf_index (line_buffer_size - 1) || disp == 10)) [
      | inl room ↦
          rw (key, char, count, room)
            (push_char-Typed k disp k' (rw (key, char, room, edit_line) at e))
      | inr full ↦
          rw (key, char, count, full) (unchanged k k' (rw (key, char, full, edit_line) at e))
    ]
  ]
]
  where
    t : Terminal
    t = k.terminals k.current_terminal

    count : length (line_of t) ≡ t.line_buf_index
    count = length-slice t.line_buf 0 t.line_buf_index
