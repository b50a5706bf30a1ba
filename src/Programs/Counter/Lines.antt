-- ===== src/Programs/Counter/Lines.antt =====
-- What `counter` prints.
use ece391_mp.Base.{
  ℕ, zero, suc, ◌+◌, ◌≤◌, ◌<◌, ◌^◌, ◌≡◌, refl, sym, ap, ◌∙◌, List, [], ◌∷◌, ◌++◌, Result, ok, ◌>>=◌,
  pos, slice, length-slice, take, arith, append-nil, append_assoc,
}
use ece391_mp.Str.Reverse.{IsString, strlen-IsString}
use ece391_mp.Str.Digits.{Denotes}
use ece391_mp.Programs.{Os, IsScreen}
use ece391_mp.Programs.Support.{ece391_strlen, ece391_fdputs, ece391_itoa}
use ece391_mp.Programs.Support.Compare.{ece391_strlen-strlen, ece391_itoa-value_of}
use ece391_mp.Programs.Counter.{count}

-- The text is one line for each number from `i + 1` on, `rounds` of them: digits that denote it in decimal, and a
-- newline.
unfoldable pub Lines : ℕ → ℕ → List ℕ → Type 0
Lines zero i out = out ≡ []
Lines (suc rounds) i out =
    (text : List ℕ) × (rest : List ℕ) × Denotes 10 text (i + 1)
    × (out ≡ text ++ (10 ∷ rest))
    × Lines rounds (i + 1) rest

take-slice : (a : ℕ → ℕ) (i n k : ℕ) → n ≤ k → take n (slice a i k) ≡ slice a i n
take-slice a i zero k le = refl
take-slice a i (suc n) zero le = absurd (omega arith)
take-slice a i (suc n) (suc k) le = ap (λ s. a i ∷ s) (take-slice a (i + 1) n k (omega arith))

module _ (os : Os) (shown : os.State → List ℕ) (screen : IsScreen os shown) where
  pub fdputs-shown :
      (w : os.State) (r : ℕ → ℕ) (cap n : ℕ)
      → IsString cap r n
      → (w' : os.State) × (ece391_fdputs os w (pos 1) (slice r 0 cap) ≡ ok w')
        × (shown w' ≡ shown w ++ slice r 0 n)
  unfolding ece391_fdputs
  fdputs-shown w r cap n str =
      let len : ece391_strlen (slice r 0 cap) ≡ ok n =
        ece391_strlen-strlen (slice r 0 cap) ∙ strlen-IsString cap n r str in
      let all = length-slice r 0 cap in
      (
        (os.write w (pos 1) (slice r 0 cap) (pos n)).0,
        ap (λ l. l >>= λ m. ok (os.write w (pos 1) (slice r 0 cap) (pos m)).0) len,
        screen.write-appends w (slice r 0 cap) n (let lt = str.fits in omega (arith, all, lt))
            ∙ ap (λ s. shown w ++ s)
                (take-slice r 0 n cap (let lt = str.fits in omega (arith, lt))),
      )

  newline-shown :
      (w : os.State)
      → (w' : os.State) × (ece391_fdputs os w (pos 1) (10 ∷ 0 ∷ []) ≡ ok w')
        × (shown w' ≡ shown w ++ (10 ∷ []))
  unfolding ece391_fdputs ece391_strlen
  newline-shown w = (
    (os.write w (pos 1) (10 ∷ 0 ∷ []) (pos 1)).0,
    refl,
    screen.write-appends w (10 ∷ 0 ∷ []) 1 (omega arith),
  )

  count_steps :
      (rounds i : ℕ) (w w1 w2 : os.State) (buf r : ℕ → ℕ)
      → ece391_itoa (i + 1) 1024 buf 10 ≡ ok r
      → ece391_fdputs os w (pos 1) (slice r 0 1024) ≡ ok w1
      → ece391_fdputs os w1 (pos 1) (10 ∷ 0 ∷ []) ≡ ok w2
      → count os (suc rounds) i w buf ≡ count os rounds (i + 1) w2 r
  unfolding count
  count_steps rounds i w w1 w2 buf r made put newline =
      let last : os.State → (ℕ → ℕ) → Result os.State = λ w1' r'.
        (ece391_fdputs os w1' (pos 1) (10 ∷ 0 ∷ []) >>= λ w2'. count os rounds (i + 1) w2' r') in
      ap
        (λ res. res >>= λ r'. (ece391_fdputs os w (pos 1) (slice r' 0 1024) >>= λ w1'. last w1' r'))
        made
      ∙ ap (λ res. res >>= λ w1'. last w1' r) put
      ∙ ap (λ res. res >>= λ w2'. count os rounds (i + 1) w2' r) newline

  -- The loop of `counter`, where a write to the terminal appends to what it shows, ends: for `rounds`
  -- numbers from `i + 1` on, all below 2^32, it puts on the terminal one line each, in order, of the
  -- digits `0` to `9` alone, which denote the number in decimal.
  pub count-Lines :
      (rounds i : ℕ) (w : os.State) (buf : ℕ → ℕ)
      → i + rounds < 2 ^ 32
      → (w' : os.State) × (out : List ℕ) × (count os rounds i w buf ≡ ok w')
        × (shown w' ≡ shown w ++ out)
        × Lines rounds i out
  unfolding count Lines
  count-Lines zero i w buf small = (w, [], refl, sym (append-nil (shown w)), refl)
  count-Lines (suc rounds) i w buf small =
      let (r, n, le, made, str, value) =
        ece391_itoa-value_of (i + 1) 1024 10 10 buf (omega arith) (omega arith) (omega arith)
          (omega arith) (omega arith) (omega arith) (omega arith) in
      let (w1, put, shown1) = fdputs-shown w r 1024 n str in
      let (w2, newline, shown2) = newline-shown w1 in
      let (w', rest, later, all, lines) = count-Lines rounds (i + 1) w2 r (omega arith) in
      (
        w',
        slice r 0 n ++ (10 ∷ rest),
        count_steps rounds i w w1 w2 buf r made put newline ∙ later,
        all
            ∙ ap (λ s. s ++ rest) (shown2 ∙ ap (λ s. s ++ (10 ∷ [])) shown1)
            ∙ append_assoc (shown w ++ slice r 0 n) (10 ∷ []) rest
            ∙ append_assoc (shown w) (slice r 0 n) (10 ∷ rest),
        (slice r 0 n, rest, value, refl, lines),
      )
