-- ===== src/Rtc/Wait.antt =====
-- How many interrupts `rtc_read` waits for.
use ece391_mp.Base.{
  ℕ, zero, suc, ◌+◌, ◌*◌, ◌%◌, ◌^◌, ◌≤◌, ◌<◌, ◌≡◌, ◌≢◌, refl, sym, ap, ◌∙◌, List, [], ◌∷◌, some, ok,
  Returns, leb, ◌==◌, if◌then◌else◌, is_some, arith, Bool-cases, Option-cases, inl, inr, leb→le,
  le→leb,
}
use ece391_mp.Kernel.{Kernel, VirtualRtc}
use ece391_mp.Kernel.Running.{get_terminal_from_pid, get_running_terminal}
use ece391_mp.Kernel.Owns.{get_terminal_from_pid-pid, get_terminal_from_pid-cong}
use ece391_mp.Kernel.Spin.{Interrupt, spin}
use ece391_mp.I8259.{send_eoi}
use ece391_mp.Rtc.{
  tick, tick_terminal, tick_terminals, irqh_rtc, rtc_read, reset_rtc, flag_raised, ack_rtc_int,
  pid_count, rtc_irq,
}

-- `n` interrupts of the clock.
abbrev pub clock_irqs : ℕ → List Interrupt
clock_irqs zero = []
clock_irqs (suc n) = irqh_rtc ∷ clock_irqs n

module _ (i : ℕ) where
  abbrev rtc_of : Kernel → VirtualRtc
  rtc_of k = (k.terminals i).rtc

  tick_terminal-pid :
      (k : Kernel) (p j : ℕ) → ((tick_terminal k p).terminals j).pid ≡ (k.terminals j).pid
  unfolding tick_terminal
  tick_terminal-pid k p j = ground arith

  -- The body of the loop changes the clock of the terminal that the process id finds.
  tick_terminal-hit :
      (k : Kernel) (p : ℕ)
      → get_terminal_from_pid k p ≡ some i
      → rtc_of (tick_terminal k p) ≡ tick (rtc_of k)
  unfolding tick_terminal
  tick_terminal-hit k p e = ground arith

  tick_terminal-miss :
      (k : Kernel) (p : ℕ) → (k.terminals i).pid ≢ p → rtc_of (tick_terminal k p) ≡ rtc_of k
  unfolding tick_terminal
  tick_terminal-miss k p e = elim (Option-cases (get_terminal_from_pid k p)) [
    | inl nobody ↦ rw (nobody, tick_terminal)
    | inr (j, found) ↦
        rw (found, tick_terminal) (ground (arith, get_terminal_from_pid-pid k p j found))
  ]

  tick_terminals-pid :
      (k : Kernel) (rounds p j : ℕ)
      → ((tick_terminals k rounds p).terminals j).pid ≡ (k.terminals j).pid
  unfolding tick_terminals
  tick_terminals-pid k zero p j = refl
  tick_terminals-pid k (suc rounds) p j =
      tick_terminals-pid (tick_terminal k p) rounds (p + 1) j ∙ tick_terminal-pid k p j

  -- The loop leaves the clock of a terminal whose process id lies outside of its range.
  tick_terminals-miss :
      (k : Kernel) (rounds p : ℕ)
      → (k.terminals i).pid < p
      → rtc_of (tick_terminals k rounds p) ≡ rtc_of k
  unfolding tick_terminals
  tick_terminals-miss k zero p lt = refl
  tick_terminals-miss k (suc rounds) p lt =
      tick_terminals-miss (tick_terminal k p) rounds (p + 1)
        (omega (arith, tick_terminal-pid k p i))
      ∙ tick_terminal-miss k p (omega arith)

  -- The loop ticks the clock of a terminal whose process id lies in its range once.
  tick_terminals-hit :
      (k : Kernel) (rounds p : ℕ)
      → p ≤ (k.terminals i).pid
      → (k.terminals i).pid < p + rounds
      → get_terminal_from_pid k (k.terminals i).pid ≡ some i
      → rtc_of (tick_terminals k rounds p) ≡ tick (rtc_of k)
  unfolding tick_terminals
  tick_terminals-hit k zero p lo hi owns = absurd (omega arith)
  tick_terminals-hit k (suc rounds) p lo hi owns = elim (Bool-cases ((k.terminals i).pid == p)) [
    | inl here ↦
        tick_terminals-miss (tick_terminal k p) rounds (p + 1)
          (ground (arith, tick_terminal-pid k p i))
        ∙ tick_terminal-hit k p (ground arith)
    | inr later ↦
        tick_terminals-hit (tick_terminal k p) rounds (p + 1)
          (ground (arith, tick_terminal-pid k p i)) (ground (arith, tick_terminal-pid k p i))
          (rw (tick_terminal-pid k p i)
            (get_terminal_from_pid-cong k (tick_terminal k p) _ (tick_terminal-pid k p) ∙ owns))
        ∙ ap tick (tick_terminal-miss k p (ground arith))
  ]

  -- The parts of the state that a clock interrupt neither reads nor writes, and the clock's flag as
  -- a function of the number of interrupts since the reset.
  record Waiting (real virt count : ℕ) (k : Kernel) : Type 0 where
    owns : get_terminal_from_pid k (k.terminals i).pid ≡ some i
    below : (k.terminals i).pid < pid_count
    real_is : (rtc_of k).real_freq ≡ real
    virt_is : (rtc_of k).virt_freq ≡ virt
    count_is : (rtc_of k).int_count ≡ count
    flag_is : (rtc_of k).flag ≡ (if leb real (virt * count) then 1 else 0)

  after_irq : Kernel → Kernel
  after_irq k = send_eoi (tick_terminals (ack_rtc_int k) pid_count 0) rtc_irq

  send_eoi-terminals : (k : Kernel) (irq : ℕ) → (send_eoi k irq).terminals ≡ k.terminals
  unfolding send_eoi
  send_eoi-terminals k irq = ground arith

  after_irq-pid : (k : Kernel) (j : ℕ) → ((after_irq k).terminals j).pid ≡ (k.terminals j).pid
  unfolding after_irq
  after_irq-pid k j =
      rw (send_eoi-terminals (tick_terminals (ack_rtc_int k) pid_count 0) rtc_irq)
        (tick_terminals-pid (ack_rtc_int k) pid_count 0 j)

  ack-owns :
      (k : Kernel)
      → get_terminal_from_pid k (k.terminals i).pid ≡ some i
      → get_terminal_from_pid (ack_rtc_int k) (k.terminals i).pid ≡ some i
  ack-owns k owns = get_terminal_from_pid-cong k (ack_rtc_int k) _ (λ j. refl) ∙ owns

  after_irq-rtc :
      (k : Kernel)
      → get_terminal_from_pid k (k.terminals i).pid ≡ some i
      → (k.terminals i).pid < pid_count
      → rtc_of (after_irq k) ≡ tick (rtc_of k)
  unfolding after_irq
  after_irq-rtc k owns below =
      rw (send_eoi-terminals (tick_terminals (ack_rtc_int k) pid_count 0) rtc_irq)
        (tick_terminals-hit (ack_rtc_int k) pid_count 0 (omega arith) below (ack-owns k owns))

  after_irq-Waiting :
      (real virt count : ℕ) (k : Kernel)
      → virt * suc count < 2 ^ 32
      → suc count < 2 ^ 32
      → Waiting real virt count k
      → Waiting real virt (suc count) (after_irq k)
  unfolding tick
  after_irq-Waiting real virt count k small small' w =
      let r = after_irq-rtc k w.owns w.below in
      let c : (count + 1) % 2 ^ 32 ≡ suc count = omega arith in
      let v : virt * suc count % 2 ^ 32 ≡ virt * suc count = omega arith in
      record {
        owns =
            rw (after_irq-pid k i)
              (get_terminal_from_pid-cong k (after_irq k) _ (after_irq-pid k) ∙ w.owns);
        below = rw (after_irq-pid k i) (w.below);
        real_is = rw r (w.real_is);
        virt_is = rw r (w.virt_is);
        count_is = rw (r, w.count_is) c;
        flag_is = rw (r, w.count_is, w.real_is, w.virt_is, c, v);
      }

  Waiting-raised :
      (real virt count : ℕ) (k : Kernel)
      → Waiting real virt count k
      → flag_raised i k ≡ leb real (virt * count)
  Waiting-raised real virt count k w = ground arith

  irqh_rtc-ok : (k : Kernel) → irqh_rtc k ≡ ok (after_irq k)
  unfolding irqh_rtc after_irq
  irqh_rtc-ok k = refl

  mul_mono : (v a b : ℕ) → a ≤ b → v * a ≤ v * b
  mul_mono v a b h = grind arith

  -- With `n` interrupts to come, the loop ends if they suffice and waits on if they do not.
  spin-Waiting :
      (real virt total n count : ℕ) (k : Kernel)
      → count + n ≡ total
      → virt * total < 2 ^ 32
      → total < 2 ^ 32
      → Waiting real virt count k
      → Returns (spin (flag_raised i) (clock_irqs n) k) (λ r. is_some r ≡ leb real (virt * total))
  unfolding spin
  spin-Waiting real virt total zero count k e small small' w =
      let e' : total ≡ count = omega arith in
      let raised = Waiting-raised real virt count k w in
      elim (Bool-cases (leb real (virt * count))) [
        | inl t ↦ rw (e', raised, t)
        | inr f ↦ rw (e', raised, f)
      ]
  spin-Waiting real virt total (suc n) count k e small small' w =
      let raised = Waiting-raised real virt count k w in
      elim (Bool-cases (leb real (virt * count))) [
        | inl t ↦
            rw (raised, t)
              (sym (
                le→leb real (virt * total)
                  (omega (arith, leb→le _ _ t, mul_mono virt count total (omega arith)))))
        | inr f ↦
            rw (raised, f, irqh_rtc-ok k)
              (spin-Waiting real virt total n (suc count) (after_irq k) (omega arith) small small' (
                after_irq-Waiting real virt count k
                  (omega (arith, mul_mono virt (suc count) total (omega arith))) (omega arith) w))
      ]

reset_rtc-pid : (k : Kernel) (i j : ℕ) → ((reset_rtc k i).terminals j).pid ≡ (k.terminals j).pid
reset_rtc-pid k i j = ground arith

reset_rtc-rtc :
    (k : Kernel) (i : ℕ)
    → ((reset_rtc k i).terminals i).rtc ≡ record ((k.terminals i).rtc) { flag = 0; int_count = 0 }
reset_rtc-rtc k i = ground arith

-- `rtc_read` on a terminal that the lookup by its process id finds, with a process id of 0 to 7 and
-- a positive real frequency: given `n` clock interrupts, it returns if and only if `n` times the
-- virtual frequency reaches the real frequency, as long as that product and `n` fit in a `u32`;
-- with fewer interrupts it still waits.
pub rtc_read-waits :
    (k : Kernel) (i n : ℕ)
    → get_running_terminal k ≡ ok (some i)
    → get_terminal_from_pid k (k.terminals i).pid ≡ some i
    → (k.terminals i).pid < pid_count
    → 0 < (k.terminals i).rtc.real_freq
    → (k.terminals i).rtc.virt_freq * n < 2 ^ 32
    → n < 2 ^ 32
    → Returns
        (rtc_read k (clock_irqs n))
        (λ r. is_some r ≡ leb (k.terminals i).rtc.real_freq ((k.terminals i).rtc.virt_freq * n))
unfolding rtc_read
rtc_read-waits k i n runs owns below positive small small' = rw runs (
    ground (
      arith,
      spin-Waiting i (k.terminals i).rtc.real_freq (k.terminals i).rtc.virt_freq n n 0
          (reset_rtc k i) (omega arith) small small' start,
    ))
  where
    start : Waiting i (k.terminals i).rtc.real_freq (k.terminals i).rtc.virt_freq 0 (reset_rtc k i)
    start = record {
      owns =
          rw (reset_rtc-pid k i i)
            (get_terminal_from_pid-cong k (reset_rtc k i) _ (reset_rtc-pid k i) ∙ owns);
      below = rw (reset_rtc-pid k i i) below;
      real_is = rw (reset_rtc-rtc k i);
      virt_is = rw (reset_rtc-rtc k i);
      count_is = rw (reset_rtc-rtc k i);
      flag_is = rw (reset_rtc-rtc k i) (ground arith);
    }
