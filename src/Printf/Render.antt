-- ===== src/Printf/Render.antt =====
-- What `printf` prints, apart from the screen: the text that a format and its arguments make.
use ece391_mp.Base.{
  ℕ, ◌+◌, List, [], ◌∷◌, ◌++◌, Result, ok, fault, ◌>>=◌, ◌==◌, if◌then◌else◌, ◌≡◌, refl, sym, ap,
  ◌∙◌, inl, inr, Bool-cases, fun_ext,
}
use ece391_mp.Kernel.{Kernel}
use ece391_mp.Screen.{putc}
use ece391_mp.Printf.{
  Arg, Mode, outside, Output, nothing, character, string, puts, turn, ends, perform, printf_loop,
  printf,
}

-- The characters of a text, printed in turn.
unfoldable pub put_all : Kernel → List ℕ → Result Kernel
put_all k [] = ok k
put_all k (c ∷ text) = putc k c >>= λ k'. put_all k' text

-- A string up to its NUL.
unfoldable pub until_nul : List ℕ → Result (List ℕ)
until_nul [] = fault
until_nul (c ∷ s) = if c == 0 then ok [] else (until_nul s >>= λ text. ok (c ∷ text))

unfoldable pub text_of : Output → Result (List ℕ)
unfolding until_nul
text_of nothing = ok []
text_of (character c) = ok (c ∷ [])
text_of (string s) = until_nul s

-- The text of a whole format, and how many of its characters are read.
unfoldable pub render : (ℕ → ℕ) → List ℕ → Mode → List Arg → ℕ → Result (List ℕ × ℕ)
unfolding turn text_of
render junk [] mode args n = fault
render junk (c ∷ format) mode args n =
    let rest = turn junk mode c args >>= λ t.
    (text_of t.0 >>= λ text. (render junk format t.1 t.2 (n + 1) >>= λ r. ok (text ++ r.0, r.1))) in
    if ends mode c then ok ([], n) else rest

-- The text printed, and what `printf` returns.
abbrev pub print : Kernel → List ℕ × ℕ → Result (Kernel × ℕ)
print k r = put_all k r.0 >>= λ k'. ok (k', r.1)

module _ {ℓ κ μ} {A : Type ℓ} {B : Type κ} {C : Type μ} where
  bind_assoc :
      (first : Result A) (next : A → Result B) (last : B → Result C)
      → ((first >>= next) >>= last) ≡ (first >>= λ a. (next a >>= last))
  bind_assoc fault next last = refl
  bind_assoc (ok a) next last = refl

  bind_swap :
      (first : Result A) (second : Result B) (last : A → B → Result C)
      → (first >>= λ a. (second >>= last a)) ≡ (second >>= λ b. (first >>= λ a. last a b))
  bind_swap fault fault last = refl
  bind_swap fault (ok b) last = refl
  bind_swap (ok a) second last = refl

bind_ok {ℓ} : {A : Type ℓ} (first : Result A) → first ≡ (first >>= λ a. ok a)
bind_ok fault = refl
bind_ok (ok a) = refl

put_all-append :
    (k : Kernel) (s t : List ℕ) → put_all k (s ++ t) ≡ (put_all k s >>= λ k'. put_all k' t)
unfolding put_all
put_all-append k [] t = refl
put_all-append k (c ∷ s) t =
    ap (λ next. putc k c >>= next) (fun_ext (λ k'. put_all-append k' s t))
    ∙ sym (bind_assoc (putc k c) (λ k'. put_all k' s) (λ k'. put_all k' t))

puts-until_nul : (k : Kernel) (s : List ℕ) → puts k s ≡ (until_nul s >>= put_all k)
unfolding puts until_nul put_all
puts-until_nul k [] = refl
puts-until_nul k (c ∷ s) = elim (Bool-cases (c == 0)) [
  | inl last ↦ rw last refl
  | inr more ↦ rw more (
      ap (λ next. putc k c >>= next) (fun_ext (λ k'. puts-until_nul k' s))
      ∙ bind_swap (putc k c) (until_nul s) put_all
      ∙ sym (bind_assoc (until_nul s) (λ text. ok (c ∷ text)) (put_all k)))
]

perform-text_of : (k : Kernel) (out : Output) → perform k out ≡ (text_of out >>= put_all k)
unfolding perform text_of put_all
perform-text_of k nothing = refl
perform-text_of k (character c) = bind_ok (putc k c)
perform-text_of k (string s) = puts-until_nul k s

-- One character of the format: what is left of the text is printed behind what the turn prints.
printf_turn :
    (k : Kernel) (text : List ℕ) (left : Result (List ℕ × ℕ))
    → (put_all k text >>= λ k'. (left >>= print k')) ≡ (left >>= λ r. print k (text ++ r.0, r.1))
printf_turn k text left =
    bind_swap (put_all k text) left print
    ∙ ap (λ next. left >>= next)
        (fun_ext (λ r. sym (
          ap (λ all. all >>= λ k'. ok (k', r.1)) (put_all-append k text r.0)
          ∙ bind_assoc (put_all k text) (λ k'. put_all k' r.0) (λ k'. ok (k', r.1)))))

printf_turns :
    (k : Kernel) (out : Output) (loop : Kernel → Result (Kernel × ℕ)) (left : Result (List ℕ × ℕ))
    → ((k' : Kernel) → loop k' ≡ (left >>= print k'))
    → (perform k out >>= loop)
      ≡ ((text_of out >>= λ text. (left >>= λ r. ok (text ++ r.0, r.1))) >>= print k)
printf_turns k out loop left same =
    let whole : List ℕ → List ℕ × ℕ → Result (List ℕ × ℕ) = λ text r. ok (text ++ r.0, r.1) in
    ap (λ next. perform k out >>= next) (fun_ext same)
    ∙ ap (λ first. first >>= λ k'. (left >>= print k')) (perform-text_of k out)
    ∙ bind_assoc (text_of out) (put_all k) (λ k'. (left >>= print k'))
    ∙ ap (λ next. text_of out >>= next)
        (fun_ext (λ text. printf_turn k text left ∙ sym (bind_assoc left (whole text) (print k))))
    ∙ sym (bind_assoc (text_of out) (λ text. (left >>= whole text)) (print k))

printf_loop-render :
    (junk : ℕ → ℕ) (format : List ℕ) (mode : Mode) (k : Kernel) (args : List Arg) (n : ℕ)
    → printf_loop junk format mode k args n ≡ (render junk format mode args n >>= print k)
unfolding printf_loop render put_all
printf_loop-render junk [] mode k args n = refl
printf_loop-render junk (c ∷ format) mode k args n = elim (Bool-cases (ends mode c)) [
  | inl last ↦ rw last refl
  | inr more ↦ rw more (
      ap (λ next. turn junk mode c args >>= next)
        (fun_ext (λ t.
          printf_turns k (t.0) (λ k'. printf_loop junk format t.1 k' t.2 (n + 1))
            (render junk format t.1 t.2 (n + 1))
            (λ k'. printf_loop-render junk format t.1 k' t.2 (n + 1))))
      ∙ sym (
          bind_assoc (turn junk mode c args)
            (λ t.
              (text_of t.0 >>= λ text.
              (render junk format t.1 t.2 (n + 1) >>= λ r. ok (text ++ r.0, r.1))))
            (print k)))
]

-- `printf` first makes the text and then prints it: it puts the characters of the text one after the other,
-- and faults if the text cannot be made or a character cannot be put.
pub printf-render :
    (junk : ℕ → ℕ) (k : Kernel) (format : List ℕ) (args : List Arg)
    → printf junk k format args ≡ (render junk format outside args 0 >>= print k)
unfolding printf
printf-render junk k format args = printf_loop-render junk format outside k args 0
