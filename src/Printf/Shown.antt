-- ===== src/Printf/Shown.antt =====
-- What `printf` shows of each conversion, told without the code's buffers.
use ece391_mp.Base.{
  ℕ, ◌+◌, ◌-◌, ◌%◌, ◌^◌, ◌<◌, ◌≡◌, ◌≢◌, refl, ap, ◌∙◌, inl, inr, false, List, [], ◌∷◌, ◌++◌, Result,
  ok, ◌>>=◌, ltb, ◌==◌, arith, Bool-cases,
}
use ece391_mp.Kernel.{Kernel}
use ece391_mp.Str.Digits.{Denotes}
use ece391_mp.Printf.{
  Arg, word, text, Turn, Output, outside, character, string, turn, convert, take_arg, printf,
  hex_text, unsigned_text, signed_text, next_word, next_text,
}
use ece391_mp.Printf.Render.{put_all, until_nul, render, print, text_of, printf-render}
use ece391_mp.Printf.Numbers.{
  hex_text-Written, unsigned_text-Written, natural-Written, negative-Written,
}

-- The text that a format and its arguments stand for, up to the NUL that ends the format. A number below
-- 2^31 stands in its digits, of the radix 16 or 10, and `%d` of a larger one, which is negative, has a
-- minus sign in front of the digits of its negative.
pub data Shows : List ℕ → List Arg → List ℕ → Type 0 where
  ended : (format : List ℕ) (args : List Arg) → Shows (0 ∷ format) args []
  plain :
      (c : ℕ) (format : List ℕ) (args : List Arg) (out : List ℕ)
      → c ≢ 0
      → c ≢ b'%'
      → Shows format args out
      → Shows (c ∷ format) args (c ∷ out)
  percent :
      (format : List ℕ) (args : List Arg) (out : List ℕ)
      → Shows format args out
      → Shows (b'%' ∷ b'%' ∷ format) args (b'%' ∷ out)
  hex :
      (v : ℕ) (digits : List ℕ) (format : List ℕ) (args : List Arg) (out : List ℕ)
      → Denotes 16 digits v
      → Shows format args out
      → Shows (b'%' ∷ b'x' ∷ format) (word v ∷ args) (digits ++ out)
  unsigned :
      (v : ℕ) (digits : List ℕ) (format : List ℕ) (args : List Arg) (out : List ℕ)
      → Denotes 10 digits v
      → Shows format args out
      → Shows (b'%' ∷ b'u' ∷ format) (word v ∷ args) (digits ++ out)
  natural :
      (v : ℕ) (digits : List ℕ) (format : List ℕ) (args : List Arg) (out : List ℕ)
      → v < 2 ^ 31
      → Denotes 10 digits v
      → Shows format args out
      → Shows (b'%' ∷ b'd' ∷ format) (word v ∷ args) (digits ++ out)
  negative :
      (v : ℕ) (digits : List ℕ) (format : List ℕ) (args : List Arg) (out : List ℕ)
      → 2 ^ 31 < v
      → Denotes 10 digits (2 ^ 32 - v)
      → Shows format args out
      → Shows (b'%' ∷ b'd' ∷ format) (word v ∷ args) (b'-' ∷ (digits ++ out))
  char :
      (v : ℕ) (format : List ℕ) (args : List Arg) (out : List ℕ)
      → Shows format args out
      → Shows (b'%' ∷ b'c' ∷ format) (word v ∷ args) ((v % 256) ∷ out)
  chars :
      (s shown : List ℕ) (format : List ℕ) (args : List Arg) (out : List ℕ)
      → until_nul s ≡ ok shown
      → Shows format args out
      → Shows (b'%' ∷ b's' ∷ format) (text s ∷ args) (shown ++ out)

-- The formats that the statement is about, with the arguments that they take: each number is below 2^31,
-- or for `%d` a 32-bit number but 2^31, and each string has its NUL.
pub data Fits : List ℕ → List Arg → Type 0 where
  fits_end : (format : List ℕ) (args : List Arg) → Fits (0 ∷ format) args
  fits_plain :
      (c : ℕ) (format : List ℕ) (args : List Arg)
      → c ≢ 0
      → c ≢ b'%'
      → Fits format args
      → Fits (c ∷ format) args
  fits_percent :
      (format : List ℕ) (args : List Arg) → Fits format args → Fits (b'%' ∷ b'%' ∷ format) args
  fits_hex :
      (v : ℕ) (format : List ℕ) (args : List Arg)
      → v < 2 ^ 31
      → Fits format args
      → Fits (b'%' ∷ b'x' ∷ format) (word v ∷ args)
  fits_unsigned :
      (v : ℕ) (format : List ℕ) (args : List Arg)
      → v < 2 ^ 31
      → Fits format args
      → Fits (b'%' ∷ b'u' ∷ format) (word v ∷ args)
  fits_signed :
      (v : ℕ) (format : List ℕ) (args : List Arg)
      → v < 2 ^ 32
      → v ≢ 2 ^ 31
      → Fits format args
      → Fits (b'%' ∷ b'd' ∷ format) (word v ∷ args)
  fits_char :
      (v : ℕ) (format : List ℕ) (args : List Arg)
      → Fits format args
      → Fits (b'%' ∷ b'c' ∷ format) (word v ∷ args)
  fits_chars :
      (s shown : List ℕ) (format : List ℕ) (args : List Arg)
      → until_nul s ≡ ok shown
      → Fits format args
      → Fits (b'%' ∷ b's' ∷ format) (text s ∷ args)

module _ (junk : ℕ → ℕ) where
  -- A conversion, behind its `%`.
  conversion-step :
      (c : ℕ) (format : List ℕ) (args args' : List Arg) (m n : ℕ) (o : Output) (shown rest : List ℕ)
      → convert junk false c args ≡ ok (o, outside, args')
      → text_of o ≡ ok shown
      → render junk format outside args' (m + 1 + 1) ≡ ok (rest, n)
      → render junk (b'%' ∷ c ∷ format) outside args m ≡ ok (shown ++ rest, n)
  unfolding render turn text_of
  conversion-step c format args args' m n o shown rest converted made later =
      let join : List ℕ → List ℕ × ℕ → Result (List ℕ × ℕ) = λ x r. ok (x ++ r.0, r.1) in
      let behind : Result (List ℕ × ℕ) = render junk format outside args' (m + 1 + 1) in
      let body : Turn → Result (List ℕ × ℕ) =
        λ t. (text_of t.0 >>= λ x. (render junk format t.1 t.2 (m + 1 + 1) >>= join x)) in
      ap (λ q. (q >>= body) >>= join []) converted
      ∙ ap (λ q. (q >>= λ x. (behind >>= join x)) >>= join []) made
      ∙ ap (λ q. (q >>= join shown) >>= join []) later

  plain-step :
      (c : ℕ) (format : List ℕ) (args : List Arg) (m n : ℕ) (rest : List ℕ)
      → c ≢ 0
      → c ≢ b'%'
      → render junk format outside args (m + 1) ≡ ok (rest, n)
      → render junk (c ∷ format) outside args m ≡ ok (c ∷ rest, n)
  unfolding render turn text_of
  plain-step c format args m n rest some_char no_percent later =
      let some_char' : (c == 0) ≡ false = ground (arith, some_char) in
      let no_percent' : (c == 37) ≡ false = ground (arith, no_percent) in
      rw (some_char', no_percent', later) refl

  -- The conversions of a number.
  hex-convert :
      (v : ℕ) (args : List Arg) (s : List ℕ)
      → hex_text junk v ≡ ok s
      → convert junk false b'x' (word v ∷ args) ≡ ok (string s, outside, args)
  unfolding convert take_arg next_word
  hex-convert v args s made =
      ap (λ q. (q >>= λ x. ok (string x)) >>= λ o. (let t : Turn = (o, outside, args) in ok t)) made

  unsigned-convert :
      (v : ℕ) (args : List Arg) (s : List ℕ)
      → unsigned_text junk v ≡ ok s
      → convert junk false b'u' (word v ∷ args) ≡ ok (string s, outside, args)
  unfolding convert take_arg next_word
  unsigned-convert v args s made =
      ap (λ q. (q >>= λ x. ok (string x)) >>= λ o. (let t : Turn = (o, outside, args) in ok t)) made

  signed-convert :
      (v : ℕ) (args : List Arg) (s : List ℕ)
      → signed_text junk v ≡ ok s
      → convert junk false b'd' (word v ∷ args) ≡ ok (string s, outside, args)
  unfolding convert take_arg next_word
  signed-convert v args s made =
      ap (λ q. (q >>= λ x. ok (string x)) >>= λ o. (let t : Turn = (o, outside, args) in ok t)) made

  -- The minus sign is part of the string.
  minus-until_nul :
      (s digits : List ℕ) → until_nul s ≡ ok digits → until_nul (b'-' ∷ s) ≡ ok (b'-' ∷ digits)
  unfolding until_nul
  minus-until_nul s digits e = ap (λ q. q >>= λ x. ok (b'-' ∷ x)) e

  -- The text of a format that fits.
  render-Shows :
      (format : List ℕ) (args : List Arg) (m : ℕ)
      → Fits format args
      → (out : List ℕ) × (n : ℕ) × (render junk format outside args m ≡ ok (out, n))
        × Shows format args out
  unfolding render convert take_arg next_word next_text text_of
  render-Shows _ _ m (fits_end format args) = ([], m, refl, ended format args)
  render-Shows _ _ m (fits_plain c format args some_char no_percent fits) =
      let (out, n, e, shows) = render-Shows format args (m + 1) fits in
      (
        c ∷ out,
        n,
        plain-step c format args m n out some_char no_percent e,
        plain c format args out some_char no_percent shows,
      )
  render-Shows _ _ m (fits_percent format args fits) =
      let (out, n, e, shows) = render-Shows format args (m + 1 + 1) fits in
      (
        b'%' ∷ out,
        n,
        conversion-step b'%' format args args m n (character b'%') (b'%' ∷ []) out refl refl e,
        percent format args out shows,
      )
  render-Shows _ _ m (fits_hex v format args small fits) =
      let (s, digits, made, cut, value) = hex_text-Written junk v small in
      let (out, n, e, shows) = render-Shows format args (m + 1 + 1) fits in
      (
        digits ++ out,
        n,
        conversion-step b'x' format (word v ∷ args) args m n (string s) digits out
            (hex-convert v args s made) cut e,
        hex v digits format args out value shows,
      )
  render-Shows _ _ m (fits_unsigned v format args small fits) =
      let (s, digits, made, cut, value) = unsigned_text-Written junk v small in
      let (out, n, e, shows) = render-Shows format args (m + 1 + 1) fits in
      (
        digits ++ out,
        n,
        conversion-step b'u' format (word v ∷ args) args m n (string s) digits out
            (unsigned-convert v args s made) cut e,
        unsigned v digits format args out value shows,
      )
  render-Shows _ _ m (fits_signed v format args word_size no_limit fits) =
      let (out, n, e, shows) = render-Shows format args (m + 1 + 1) fits in
      elim (Bool-cases (ltb v (2 ^ 31))) [
        | inl small ↦
            let (s, digits, made, cut, value) = natural-Written junk v (ground (arith, small)) in
            (
              digits ++ out,
              n,
              conversion-step b'd' format (word v ∷ args) args m n (string s) digits out
                  (signed-convert v args s made) cut e,
              natural v digits format args out (ground (arith, small)) value shows,
            )
        | inr large ↦
            let above : 2 ^ 31 < v = ground (arith, large, no_limit) in
            let (s, digits, made, cut, value) = negative-Written junk v above word_size in
            (
              b'-' ∷ (digits ++ out),
              n,
              conversion-step b'd' format (word v ∷ args) args m n (string (b'-' ∷ s))
                  (b'-' ∷ digits) out (signed-convert v args (b'-' ∷ s) made)
                  (minus-until_nul s digits cut) e,
              negative v digits format args out above value shows,
            )
      ]
  render-Shows _ _ m (fits_char v format args fits) =
      let (out, n, e, shows) = render-Shows format args (m + 1 + 1) fits in
      (
        (v % 256) ∷ out,
        n,
        conversion-step b'c' format (word v ∷ args) args m n (character (v % 256)) ((v % 256) ∷ [])
            out refl refl e,
        char v format args out shows,
      )
  render-Shows _ _ m (fits_chars s shown format args cut fits) =
      let (out, n, e, shows) = render-Shows format args (m + 1 + 1) fits in
      (
        shown ++ out,
        n,
        conversion-step b's' format (text s ∷ args) args m n (string s) shown out refl cut e,
        chars s shown format args out cut shows,
      )

  -- `printf` of a format with the conversions `%x`, `%u`, `%d`, `%c`, `%s` and `%%` and fitting arguments,
  -- whatever the stack held before: there is a text that the format and the arguments stand for, the
  -- numbers in their digits, and `printf` puts the characters of that text one after the other.
  pub printf-Shows :
      (k : Kernel) (format : List ℕ) (args : List Arg)
      → Fits format args
      → (out : List ℕ) × (n : ℕ) × Shows format args out
        × (printf junk k format args ≡ (put_all k out >>= λ k'. ok (k', n)))
  printf-Shows k format args fits =
      let (out, n, e, shows) = render-Shows format args 0 fits in
      (out, n, shows, printf-render junk k format args ∙ ap (λ r. r >>= print k) e)
