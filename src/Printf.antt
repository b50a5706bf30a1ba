-- ===== src/Printf.antt =====
-- `printf` and `puts` of student-distrib/lib.c. A format and the strings among the arguments are lists
-- of bytes, as in Str; the arguments are the words on the stack behind the format.
pub mod Render
pub mod Padded
pub mod Numbers
pub mod Shown
use ece391_mp.Base.{
  ℕ, zero, suc, ◌+◌, ◌-◌, ◌%◌, ◌^◌, Bool, true, false, List, [], ◌∷◌, Result, ok, fault, ◌>>=◌, ltb,
  ◌==◌, if◌then◌else◌, update, slice,
}
use ece391_mp.Kernel.{Kernel}
use ece391_mp.Screen.{putc}
use ece391_mp.Str.{strlen, itoa}

-- An argument: a number, or a pointer to a string.
pub data Arg : Type 0 where
  word : ℕ → Arg
  text : List ℕ → Arg

-- The number at `esp`. A pointer read as a number, and a number as a pointer, are faults here, as is a
-- read behind the arguments.
unfoldable pub next_word : List Arg → Result (ℕ × List Arg)
next_word [] = fault
next_word (word v ∷ args) = ok (v, args)
next_word (text s ∷ args) = fault

unfoldable pub next_text : List Arg → Result (List ℕ × List Arg)
next_text [] = fault
next_text (word v ∷ args) = fault
next_text (text s ∷ args) = ok (s, args)

-- `puts`
unfoldable pub puts : Kernel → List ℕ → Result Kernel
puts k [] = fault
puts k (c ∷ s) = let rest = putc k c >>= λ k'. puts k' s in if c == 0 then ok k else rest

-- `while (i < 8) { conv_buf[i] = '0'; i++; }`
unfoldable pub zero_pad : ℕ → (ℕ → ℕ) → ℕ → ℕ → ℕ
zero_pad zero buf i = buf
zero_pad (suc fuel) buf i =
    let rest = zero_pad fuel (update buf i 48) (i + 1) in if ltb i 8 then rest else buf

-- The buffer of a conversion, with the bytes that the stack held before it.
module _ (junk : ℕ → ℕ) where
  -- `%x`
  unfoldable pub hex_text : ℕ → Result (List ℕ)
  unfolding itoa
  hex_text v = itoa v 64 junk 16 >>= λ r. ok (slice r 0 64)

  -- The buffer once `itoa` has written `r` at index 8.
  abbrev pub behind_pad : (ℕ → ℕ) → ℕ → ℕ
  behind_pad r i = if ltb i 8 then junk i else r (i - 8)

  -- `%#x`
  unfoldable pub padded_hex_text : ℕ → Result (List ℕ)
  unfolding itoa strlen zero_pad
  padded_hex_text v = do
    r ← itoa v 56 (λ i. junk (i + 8)) 16
    starting_index ← strlen (slice r 0 56)
    ok (slice (zero_pad 8 (behind_pad r) starting_index) starting_index (64 - starting_index))

  -- `%u`
  unfoldable pub unsigned_text : ℕ → Result (List ℕ)
  unfolding itoa
  unsigned_text v = itoa v 36 junk 10 >>= λ r. ok (slice r 0 36)

  -- `%d`
  unfoldable pub signed_text : ℕ → Result (List ℕ)
  unfolding itoa
  signed_text v =
      let negative = itoa (2 ^ 32 - v) 35 (λ i. junk (i + 1)) 10 >>= λ r. ok (45 ∷ slice r 0 35) in
      let other = itoa v 36 junk 10 >>= λ r. ok (slice r 0 36) in
      if ltb v (2 ^ 31) then other else negative

-- Where the loop stands: at a character of its own, or behind a `%`, with `alternate`.
pub data Mode : Type 0 where
  outside : Mode
  conversion : Bool → Mode

-- What one character of the format prints: nothing, a character by `putc`, or a string by `puts`.
pub data Output : Type 0 where
  nothing : Output
  character : ℕ → Output
  string : List ℕ → Output

-- What the loop goes on with.
abbrev pub Turn : Type 0
Turn = Output × Mode × List Arg

-- A conversion of the next argument, and what `esp++` leaves.
unfoldable pub take_arg : {A : Type 0} → Result (A × List Arg) → (A → Result Output) → Result Turn
take_arg fault conv = fault
take_arg (ok (a, args)) conv = (conv a >>= λ out. (let t : Turn = (out, outside, args) in ok t))

abbrev pub as_string : Result (List ℕ) → Result Output
as_string made = made >>= λ s. ok (string s)

-- The inner `switch`, from `format_char_switch` on.
unfoldable pub convert : (ℕ → ℕ) → Bool → ℕ → List Arg → Result Turn
unfolding hex_text padded_hex_text unsigned_text signed_text next_word next_text take_arg
convert junk alternate c args =
    let number =
      λ (conv : ℕ → Result (List ℕ)). take_arg (next_word args) (λ v. as_string (conv v)) in
    if c == 37
    then ok (character 37, outside, args)
    else if c == 35
    then ok (nothing, conversion true, args)
    else if c == 120
    then number (if alternate then padded_hex_text junk else hex_text junk)
    else if c == 117
    then number (unsigned_text junk)
    else if c == 100
    then number (signed_text junk)
    else if c == 99
    then take_arg (next_word args) (λ v. ok (character (v % 256)))
    else if c == 115
    then take_arg (next_text args) (λ s. ok (string s))
    else ok (nothing, outside, args)

-- The outer `switch`, for a character that does not end the loop.
unfoldable pub turn : (ℕ → ℕ) → Mode → ℕ → List Arg → Result Turn
unfolding convert
turn junk outside c args =
    if c == 37 then ok (nothing, conversion false, args) else ok (character c, outside, args)
turn junk (conversion alternate) c args = convert junk alternate c args

-- The loop ends at a NUL that it meets outside of a conversion.
abbrev pub ends : Mode → ℕ → Bool
ends outside c = c == 0
ends (conversion alternate) c = false

unfoldable pub perform : Kernel → Output → Result Kernel
unfolding puts
perform k nothing = ok k
perform k (character c) = putc k c
perform k (string s) = puts k s

-- The loop of `printf`, with `buf - format` so far.
unfoldable pub printf_loop : (ℕ → ℕ) → List ℕ → Mode → Kernel → List Arg → ℕ → Result (Kernel × ℕ)
unfolding turn perform
printf_loop junk [] mode k args n = fault
printf_loop junk (c ∷ format) mode k args n =
    let rest = turn junk mode c args >>= λ t.
    (perform k t.0 >>= λ k'. printf_loop junk format t.1 k' t.2 (n + 1)) in
    if ends mode c then ok (k, n) else rest

-- `printf`
unfoldable pub printf : (ℕ → ℕ) → Kernel → List ℕ → List Arg → Result (Kernel × ℕ)
unfolding printf_loop
printf junk k format args = printf_loop junk format outside k args 0
