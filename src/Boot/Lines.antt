-- ===== src/Boot/Lines.antt =====
-- The interrupt lines that the start of the kernel unmasks, and the gates behind them.
use Prim.Native.Nat.{bit_and}
use ece391_mp.Base.{
  ℕ, ◌+◌, ◌-◌, ◌^◌, ◌<◌, ◌≡◌, ◌≢◌, refl, sym, ap, ◌∙◌, subst, Option, none, some, Result, ok, ◌>>=◌,
  ltb, ◌==◌, ◌||◌, if◌then◌else◌, arith, all_below, all_below-true, ==_iff, Bool-cases, inl, inr,
}
use ece391_mp.Kernel.{Kernel, Terminal, get_current_pcb, set_terminal, max_pid_count}
use ece391_mp.Kernel.Running.{get_running_terminal, get_terminal_from_pid, climb}
use ece391_mp.I8259.{enable_irq, init_i8259, all_but}
use ece391_mp.I8259.Masks.{is_masked, masked}
use ece391_mp.Keyboard.{init_keyboard, clear_line_buf}
use ece391_mp.Rtc.{init_rtc, set_real_freq_rtc}
use ece391_mp.Paging.{init_paging}
use ece391_mp.Pit.{init_pit}
use ece391_mp.Idt.{Handler, IdtDesc, init_idt, irqh_pit, irqh_keyboard, irqh_rtc, dpl_value}
use ece391_mp.Idt.Gates.{vector, caller, InterruptGate, init_idt-InterruptGate}
use ece391_mp.Boot.{Machine, start_devices}

-- The masks of a kernel whose current PCB has no parent.
record Masks (k : Kernel) (master slave : ℕ) : Type 0 where
  of_master : k.master_mask ≡ master
  of_slave : k.slave_mask ≡ slave
  no_parent : (get_current_pcb k).parent_pcb ≡ none

-- The search for the running terminal ends at once.
search : Kernel → Option ℕ → Option ℕ → Result (Option ℕ)
search k o parent = elim o [
  | some i ↦ ok (some i)
  | none ↦ elim parent [ none ↦ ok none | some p ↦ climb max_pid_count k (get_current_pcb k) ]
]

search-none : (k : Kernel) (o : Option ℕ) → search k o none ≡ ok o
unfolding search
search-none k none = refl
search-none k (some i) = refl

get_running_terminal-ends :
    (k : Kernel)
    → (get_current_pcb k).parent_pcb ≡ none
    → get_running_terminal k ≡ ok (get_terminal_from_pid k (get_current_pcb k).pid)
unfolding get_running_terminal search
get_running_terminal-ends k alone =
    let o = get_terminal_from_pid k (get_current_pcb k).pid in
    ap (search k o) alone ∙ search-none k o

init_i8259-Masks :
    (k : Kernel) → Masks k 0xFF 0xFF → (k' : Kernel) × (init_i8259 k ≡ ok k') × Masks k' 0xFB 0xFF
unfolding init_i8259 enable_irq
init_i8259-Masks k h = (
  _,
  refl,
  record {
    of_master = ap (λ m. bit_and m (all_but 2)) (h.of_master);
    of_slave = h.of_slave;
    no_parent = h.no_parent;
  },
)

-- A write to the running terminal, if there is one.
write_running : Kernel → (ℕ → Terminal) → Option ℕ → Result Kernel
write_running k f o = elim o [ none ↦ ok k | some i ↦ ok (set_terminal k i (f i)) ]

write_running-Masks :
    (k : Kernel) (f : ℕ → Terminal) (master slave : ℕ) (o : Option ℕ)
    → Masks k master slave
    → (k' : Kernel) × (write_running k f o ≡ ok k') × Masks k' master slave
unfolding write_running
write_running-Masks k f master slave none h = (k, refl, h)
write_running-Masks k f master slave (some i) h =
    (_, refl, record { of_master = h.of_master; of_slave = h.of_slave; no_parent = h.no_parent })

-- The same behind the search for the running terminal.
running-Masks :
    (k : Kernel) (f : ℕ → Terminal) (master slave : ℕ)
    → Masks k master slave
    → (k' : Kernel) × ((get_running_terminal k >>= write_running k f) ≡ ok k')
      × Masks k' master slave
running-Masks k f master slave h =
    let (k', written, h') =
      write_running-Masks k f master slave (get_terminal_from_pid k (get_current_pcb k).pid) h in
    (
      k',
      ap (λ m. m >>= write_running k f) (get_running_terminal-ends k (h.no_parent)) ∙ written,
      h',
    )

init_keyboard-Masks :
    (k : Kernel)
    → Masks k 0xFB 0xFF
    → (k' : Kernel) × (init_keyboard k ≡ ok k') × Masks k' 0xF9 0xFF
unfolding init_keyboard enable_irq clear_line_buf write_running
init_keyboard-Masks k h = running-Masks _ _ 0xF9 0xFF (record {
  of_master = ap (λ m. bit_and m (all_but 1)) (h.of_master);
  of_slave = h.of_slave;
  no_parent = h.no_parent;
})

init_rtc-Masks :
    (k : Kernel) (b a : ℕ)
    → Masks k 0xF9 0xFF
    → (k' : Kernel) × (init_rtc k b a ≡ ok k') × Masks k' 0xF9 0xFE
unfolding init_rtc enable_irq set_real_freq_rtc write_running
init_rtc-Masks k b a h = running-Masks _ _ 0xF9 0xFE (record {
  of_master = h.of_master;
  of_slave = ap (λ m. bit_and m (all_but 0)) (h.of_slave);
  no_parent = h.no_parent;
})

init_pit-Masks :
    (k : Kernel) → Masks k 0xF9 0xFE → (k' : Kernel) × (init_pit k ≡ ok k') × Masks k' 0xF8 0xFE
unfolding init_pit enable_irq
init_pit-Masks k h = (
  _,
  refl,
  record {
    of_master = ap (λ m. bit_and m (all_but 0)) (h.of_master);
    of_slave = h.of_slave;
    no_parent = h.no_parent;
  },
)

start_devices-Masks :
    (m : Machine) (k : Kernel) (idt : ℕ → IdtDesc)
    → Masks k 0xFF 0xFF
    → (k' : Kernel) × (start_devices m k idt ≡ ok (k', init_idt m.address idt)) × Masks k' 0xF8 0xFE
unfolding start_devices
start_devices-Masks m k idt h =
    let (k1, first, h1) = init_i8259-Masks k h in
    let (k2, second, h2) = init_keyboard-Masks k1 h1 in
    let (k3, third, h3) = init_rtc-Masks k2 m.register_b m.register_a h2 in
    let h4 : Masks (record k3 { paging = init_paging k3.paging }) 0xF9 0xFE = record {
      of_master = h3.of_master;
      of_slave = h3.of_slave;
      no_parent = h3.no_parent;
    } in
    let (k5, last, h5) = init_pit-Masks (record k3 { paging = init_paging k3.paging }) h4 in
    let table = init_idt m.address idt in
    let from_pit = λ (k3 : Kernel).
      init_pit (record k3 { paging = init_paging k3.paging }) >>= λ k'. returned k' table in
    let from_rtc = λ (k2 : Kernel). init_rtc k2 m.register_b m.register_a >>= from_pit in
    let from_keyboard = λ (k1 : Kernel). init_keyboard k1 >>= from_rtc in
    (
      k5,
      ap (λ r. r >>= from_keyboard) first
          ∙ ap (λ r. r >>= from_rtc) second
          ∙ ap (λ r. r >>= from_pit) third
          ∙ ap (λ r. r >>= λ k'. returned k' table) last,
      h5,
    )
  where
    returned : Kernel → (ℕ → IdtDesc) → Result (Kernel × (ℕ → IdtDesc))
    returned k' table = ok (k', table)

-- The mask bit of each line: the clock, the keyboard, the second controller and the real-time clock
-- are let through.
abbrev pub line_mask : ℕ → ℕ
line_mask n = if n == 0 || n == 1 || n == 2 || n == 8 then 0 else 1

line_table :
    (n : ℕ) → n < 16 → (if ltb n 8 then masked 0xF8 n else masked 0xFE (n - 8)) ≡ line_mask n
unfolding all_below
line_table n lt = (==_iff _ _).0 (
    all_below-true 16 (λ n. (if ltb n 8 then masked 0xF8 n else masked 0xFE (n - 8)) == line_mask n)
      n refl lt)

-- The vector that the controllers send for a line, as they are set up by ICW2.
abbrev pub line_vector : ℕ → ℕ
line_vector n = 0x20 + n

-- A line that is let through, other than that of the second controller, is one of three.
one_of_three :
    (n : ℕ)
    → n ≢ 2
    → line_mask n ≡ 0
    → (h : Handler) × (vector h ≡ line_vector n) × (dpl_value (caller h) ≡ 0)
unfolding vector caller
one_of_three n other clear = elim (Bool-cases (n == 0)) [
  | inl e ↦ (irqh_pit, ground (arith, e), refl)
  | inr e ↦ elim (Bool-cases (n == 1)) [
    | inl e' ↦ (irqh_keyboard, ground (arith, e'), refl)
    | inr e' ↦ (irqh_rtc, ground (arith, e, e', other, clear), refl)
  ]
]

-- From masks that let nothing through, and a first process without a parent, the start of the devices
-- returns; it lets through the lines of the timer, the keyboard, the second controller and the
-- real-time clock, and no other; and each line that is let through and that a device drives has an
-- interrupt gate of the kernel at its vector, which leads to a stub that is meant for that vector.
pub start_devices-InterruptGate :
    (m : Machine) (k : Kernel) (idt : ℕ → IdtDesc)
    → k.master_mask ≡ 0xFF
    → k.slave_mask ≡ 0xFF
    → (get_current_pcb k).parent_pcb ≡ none
    → ((h : Handler) → m.address h < 2 ^ 32)
    → (k' : Kernel) × (idt' : ℕ → IdtDesc) × (start_devices m k idt ≡ ok (k', idt'))
      × ((n : ℕ) → n < 16 → is_masked k' n ≡ line_mask n)
      × ((n : ℕ)
          → n < 16
          → n ≢ 2
          → is_masked k' n ≡ 0
          → (h : Handler) × (vector h ≡ line_vector n)
            × InterruptGate (idt' (line_vector n)) (m.address h) 0)
start_devices-InterruptGate m k idt master slave alone small =
    let (k', started, h) =
      start_devices-Masks m k idt
        (record { of_master = master; of_slave = slave; no_parent = alone }) in
    let lines : (n : ℕ) → n < 16 → is_masked k' n ≡ line_mask n =
      λ n lt. rw (h.of_master, h.of_slave) (line_table n lt) in
    (
      k',
      init_idt m.address idt,
      started,
      lines,
      λ n lt other clear.
          let (stub, at, level) = one_of_three n other (sym (lines n lt) ∙ clear) in
          (
            stub,
            at,
            subst (λ v. InterruptGate (init_idt m.address idt v) (m.address stub) 0) at
                (subst
                  (λ p. InterruptGate (init_idt m.address idt (vector stub)) (m.address stub) p)
                  level ((init_idt-InterruptGate m.address idt small).0 stub)),
          ),
    )
