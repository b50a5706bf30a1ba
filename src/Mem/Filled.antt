-- ===== src/Mem/Filled.antt =====
-- Memory with a range of bytes filled, and the registers of a fill that has got that far.
use ece391_mp.Base.{
  ℕ, ◌+◌, ◌/◌, ◌%◌, ◌^◌, ◌≤◌, ◌<◌, ◌≡◌, refl, ap, ◌∙◌, ◌⊎◌, inl, inr, ◌&&◌, ltb, leb, ◌==◌,
  if◌then◌else◌, update, arith, Bool-cases,
}
use ece391_mp.Mem.{Memory, Regs, later, stosl, stosw}

-- Memory with the byte `p a` at each address `a` of the `n` bytes from `s` on.
unfoldable pub filled : Memory → ℕ → (ℕ → ℕ) → ℕ → Memory
filled mem s p n a = if leb s a && ltb a (s + n) then p a else mem a

pub filled-inside :
    (mem : Memory) (s : ℕ) (p : ℕ → ℕ) (n a : ℕ) → s ≤ a → a < s + n → filled mem s p n a ≡ p a
unfolding filled
filled-inside mem s p n a lo hi = ground arith

pub filled-outside :
    (mem : Memory) (s : ℕ) (p : ℕ → ℕ) (n a : ℕ)
    → (a < s) ⊎ (s + n ≤ a)
    → filled mem s p n a ≡ mem a
unfolding filled
filled-outside mem s p n a (inl h) = ground arith
filled-outside mem s p n a (inr h) = ground arith

-- Two pieces, one behind the other.
pub filled-filled :
    (mem mem1 mem2 : Memory) (s : ℕ) (p : ℕ → ℕ) (m k n : ℕ)
    → m + k ≡ n
    → ((b : ℕ) → mem1 b ≡ filled mem s p m b)
    → ((b : ℕ) → mem2 b ≡ filled mem1 (s + m) p k b)
    → (a : ℕ) → mem2 a ≡ filled mem s p n a
unfolding filled
filled-filled mem mem1 mem2 s p m k n e first second a = ground (arith, first a, second a)

-- The registers after `n` bytes have been filled.
pub record Filled (mem : Memory) (s : ℕ) (p : ℕ → ℕ) (n : ℕ) (r : Regs) : Type 0 where
  pub dest_after : r.dest ≡ s + n
  pub mem_after : (a : ℕ) → r.mem a ≡ filled mem s p n a

pub Filled-none :
    (mem : Memory) (s : ℕ) (p : ℕ → ℕ) (src count : ℕ)
    → Filled mem s p 0 (record { mem = mem; dest = s; src = src; count = count })
unfolding filled
Filled-none mem s p src count = record { dest_after = omega arith; mem_after = λ a. ground arith }

pub Filled-then :
    (mem : Memory) (s : ℕ) (p : ℕ → ℕ) (m k n : ℕ) (r r' : Regs)
    → m + k ≡ n
    → Filled mem s p m r
    → Filled (r.mem) (r.dest) p k r'
    → Filled mem s p n r'
Filled-then mem s p m k n r r' e first second = record {
  dest_after = second.dest_after ∙ omega (arith, first.dest_after);
  mem_after =
      filled-filled mem (r.mem) (r'.mem) s p m k n e (first.mem_after)
        (λ b. second.mem_after b ∙ ap (λ d. filled (r.mem) d p k b) (first.dest_after));
}

-- Byte `i` of a register.
abbrev pub byte_of : ℕ → ℕ → ℕ
byte_of eax i = eax / 256 ^ i % 256

pub Filled-byte :
    (mem : Memory) (s c d : ℕ) (p : ℕ → ℕ) (src count : ℕ)
    → d ≡ s + 1
    → p s ≡ c
    → Filled mem s p 1 (record { mem = update mem s c; dest = d; src = src; count = count })
unfolding filled
Filled-byte mem s c d p src count h e = record {
  dest_after = h;
  mem_after = λ a. elim (Bool-cases (s == a)) [
    | inl here ↦ (let same : s ≡ a = ground arith in rw (← same) (ground arith))
    | inr other ↦ ground arith
  ];
}

-- `p` gives byte `i` of EAX at `s + i`, again and again.
abbrev pub Repeats : (ℕ → ℕ) → ℕ → ℕ → ℕ → Type 0
Repeats p s eax w = (i : ℕ) → p (s + i) ≡ byte_of eax (i % w)

pub Repeats-later :
    (p : ℕ → ℕ) (s s' eax w : ℕ)
    → ((i : ℕ) → (w + i) % w ≡ i % w)
    → s' ≡ s + w
    → Repeats p s eax w
    → Repeats p s' eax w
Repeats-later p s s' eax w period e h i =
    let there : s' + i ≡ s + (w + i) = omega arith in
    ap p there ∙ h (w + i) ∙ ap (byte_of eax) (period i)

-- One byte of the pattern.
pub Repeats-at :
    (p : ℕ → ℕ) (s eax w i a b : ℕ)
    → Repeats p s eax w
    → a ≡ s + i
    → i % w ≡ i
    → byte_of eax i ≡ b
    → p a ≡ b
Repeats-at p s eax w i a b h e small e' = ap p e ∙ h i ∙ ap (byte_of eax) small ∙ e'

pub Filled-stosw :
    (mem : Memory) (s eax src count : ℕ) (p : ℕ → ℕ)
    → s + 2 < 2 ^ 32
    → Repeats p s eax 2
    → Filled mem s p 2
        (record { mem = stosw mem s eax; dest = later s 2; src = src; count = count })
unfolding stosw
Filled-stosw mem s eax src count p h reps =
    Filled-then mem s p 1 1 2 _ _ (omega arith)
      (Filled-byte mem s (eax % 256) (later s 1) p src count (omega arith)
        (Repeats-at p s eax 2 0 s (eax % 256) reps (omega arith) refl (omega arith)))
      (Filled-byte (update mem s (eax % 256)) (later s 1) (eax / 256 % 256) (later s 2) p src count
        (omega arith)
        (Repeats-at p s eax 2 1 (later s 1) (eax / 256 % 256) reps (omega arith) refl refl))

pub Filled-stosl :
    (mem : Memory) (s eax src count : ℕ) (p : ℕ → ℕ)
    → s + 4 < 2 ^ 32
    → Repeats p s eax 4
    → Filled mem s p 4
        (record { mem = stosl mem s eax; dest = later s 4; src = src; count = count })
unfolding stosl
Filled-stosl mem s eax src count p h reps =
    let one =
      λ (m : Memory) (i a b d : ℕ) (e : a ≡ s + i) (e' : d ≡ a + 1) (f : i % 4 ≡ i)
          (g : byte_of eax i ≡ b).
        Filled-byte m a b d p src count e' (Repeats-at p s eax 4 i a b reps e f g) in
    Filled-then mem s p 3 1 4 _ _ (omega arith)
      (Filled-then mem s p 2 1 3 _ _ (omega arith)
        (Filled-then mem s p 1 1 2 _ _ (omega arith)
          (one mem 0 s (eax % 256) (later s 1) (omega arith) (omega arith) refl (omega arith))
          (one _ 1 (later s 1) (eax / 256 % 256) (later s 2) (omega arith) (omega arith) refl refl))
        (one _ 2 (later s 2) (eax / 65536 % 256) (later s 3) (omega arith) (omega arith) refl refl))
      (one _ 3 (later s 3) (eax / 16777216 % 256) (later s 4) (omega arith) (omega arith) refl refl)
