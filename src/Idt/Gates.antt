-- ===== src/Idt/Gates.antt =====
-- What `init_idt` leaves in the table, as the processor reads it.
use ece391_mp.Base.{
  ℕ, zero, suc, ◌+◌, ◌*◌, ◌^◌, ◌<◌, ◌≡◌, ◌≢◌, refl, sym, inl, inr, ◌==◌, Bool-cases, update, arith,
  none, subst, false, get_or,
}
use ece391_mp.Idt.{
  Handler, exc_de, exc_db, exc_nmi, exc_bp, exc_of, exc_br, exc_ud, exc_nm, exc_df, exc_cso, exc_ts,
  exc_np, exc_ss, exc_gp, exc_pf, exc_af, exc_mf, exc_ac, exc_mc, exc_xf, exc_ve, exc_sx,
  irqh_keyboard, irqh_pit, irqh_rtc, irqh_syscall, idt_exc_cnt, idt_syscall, idt_pit, idt_keyboard,
  idt_rtc, kernel_cs, IdtDesc, Dpl, dpl0, dpl3, dpl_value, int, make_idt_desc, init_exceptions,
  init_idt, address_of, exc_handlers,
}

-- The vector that the processor, an interrupt controller or an `int` of the code uses for each stub.
unfoldable pub vector : Handler → ℕ
vector exc_de = 0
vector exc_db = 1
vector exc_nmi = 2
vector exc_bp = 3
vector exc_of = 4
vector exc_br = 5
vector exc_ud = 6
vector exc_nm = 7
vector exc_df = 8
vector exc_cso = 9
vector exc_ts = 10
vector exc_np = 11
vector exc_ss = 12
vector exc_gp = 13
vector exc_pf = 14
vector exc_af = 15
vector exc_mf = 16
vector exc_ac = 17
vector exc_mc = 18
vector exc_xf = 19
vector exc_ve = 20
vector exc_sx = 30
vector irqh_keyboard = 33
vector irqh_pit = 32
vector irqh_rtc = 40
vector irqh_syscall = 128

-- The lowest privilege that may raise the vector by `int`.
unfoldable pub caller : Handler → Dpl
caller irqh_syscall = dpl3
caller h = dpl0

-- Where a gate leads to, and the type and the size in its bits 8 to 12.
abbrev pub entry_point : IdtDesc → ℕ
entry_point d = d.offset_31_16 * 65536 + d.offset_15_00

abbrev pub type_bits : IdtDesc → ℕ
type_bits d = d.reserved3 + d.reserved2 * 2 + d.reserved1 * 4 + d.size * 8 + d.reserved0 * 16

-- A 32-bit interrupt gate of the kernel's code segment.
pub record InterruptGate (d : IdtDesc) (target privilege : ℕ) : Type 0 where
  pub target_reached : entry_point d ≡ target
  pub is_interrupt : type_bits d ≡ 14
  pub segment : d.seg_selector ≡ kernel_cs
  pub is_present : d.present ≡ 1
  pub privilege_needed : d.dpl ≡ privilege

make_idt_desc-InterruptGate :
    (target : ℕ) (dpl : Dpl)
    → target < 2 ^ 32
    → InterruptGate (make_idt_desc target kernel_cs int dpl) target (dpl_value dpl)
unfolding make_idt_desc
make_idt_desc-InterruptGate target dpl small = record {
  target_reached = omega (arith, small);
  is_interrupt = refl;
  segment = refl;
  is_present = refl;
  privilege_needed = refl;
}

update-dpl :
    (i v : ℕ) (idt : ℕ → IdtDesc) (d : IdtDesc)
    → (idt v).dpl ≡ 0
    → d.dpl ≡ 0
    → (update idt i d v).dpl ≡ 0
update-dpl i v idt d before new = elim (Bool-cases (i == v)) [
  | inl same ↦ rw same new
  | inr other ↦ rw other before
]

update-apart :
    (i v : ℕ) (idt : ℕ → IdtDesc) (d : IdtDesc)
    → v ≢ i
    → (idt v).dpl ≡ 0
    → (update idt i d v).dpl ≡ 0
update-apart i v idt d other before =
    let apart : (i == v) ≡ false = ground (arith, other) in rw apart before

module _ (address : Handler → ℕ) (idt : ℕ → IdtDesc) where
  init_idt-vector :
      (h : Handler)
      → init_idt address idt (vector h) ≡ make_idt_desc (address h) kernel_cs int (caller h)
  unfolding vector caller init_idt init_exceptions
  init_idt-vector exc_de = refl
  init_idt-vector exc_db = refl
  init_idt-vector exc_nmi = refl
  init_idt-vector exc_bp = refl
  init_idt-vector exc_of = refl
  init_idt-vector exc_br = refl
  init_idt-vector exc_ud = refl
  init_idt-vector exc_nm = refl
  init_idt-vector exc_df = refl
  init_idt-vector exc_cso = refl
  init_idt-vector exc_ts = refl
  init_idt-vector exc_np = refl
  init_idt-vector exc_ss = refl
  init_idt-vector exc_gp = refl
  init_idt-vector exc_pf = refl
  init_idt-vector exc_af = refl
  init_idt-vector exc_mf = refl
  init_idt-vector exc_ac = refl
  init_idt-vector exc_mc = refl
  init_idt-vector exc_xf = refl
  init_idt-vector exc_ve = refl
  init_idt-vector exc_sx = refl
  init_idt-vector irqh_keyboard = refl
  init_idt-vector irqh_pit = refl
  init_idt-vector irqh_rtc = refl
  init_idt-vector irqh_syscall = refl

  init_exceptions-dpl :
      (rounds i v : ℕ) (idt' : ℕ → IdtDesc)
      → (idt' v).dpl ≡ 0
      → (init_exceptions address rounds i idt' v).dpl ≡ 0
  unfolding init_exceptions make_idt_desc
  init_exceptions-dpl zero i v idt' none_yet = none_yet
  init_exceptions-dpl (suc rounds) i v idt' none_yet =
      init_exceptions-dpl rounds (i + 1) v
        (update idt' i
          (make_idt_desc (address_of address (get_or exc_handlers i none)) kernel_cs int dpl0))
        (update-dpl i v idt'
          (make_idt_desc (address_of address (get_or exc_handlers i none)) kernel_cs int dpl0)
          none_yet refl)

  init_idt-dpl : (v : ℕ) → v ≢ idt_syscall → (idt v).dpl ≡ 0 → (init_idt address idt v).dpl ≡ 0
  unfolding init_idt make_idt_desc
  init_idt-dpl v other none_yet =
      let exceptions = init_exceptions address idt_exc_cnt 0 idt in
      let pit = make_idt_desc (address irqh_pit) kernel_cs int dpl0 in
      let keyboard = make_idt_desc (address irqh_keyboard) kernel_cs int dpl0 in
      let rtc = make_idt_desc (address irqh_rtc) kernel_cs int dpl0 in
      let syscall = make_idt_desc (address irqh_syscall) kernel_cs int dpl3 in
      let with_pit = update exceptions idt_pit pit in
      let with_keyboard = update with_pit idt_keyboard keyboard in
      update-apart idt_syscall v (update with_keyboard idt_rtc rtc) syscall other (
        update-dpl idt_rtc v with_keyboard rtc
          (update-dpl idt_keyboard v with_pit keyboard
            (update-dpl idt_pit v exceptions pit (init_exceptions-dpl idt_exc_cnt 0 v idt none_yet)
              refl)
            refl)
          refl)

  pub init_idt-InterruptGate :
      ((h : Handler) → address h < 2 ^ 32)
      → ((h : Handler)
          → InterruptGate (init_idt address idt (vector h)) (address h) (dpl_value (caller h)))
        × ((v : ℕ) → v ≢ idt_syscall → (idt v).dpl ≡ 0 → (init_idt address idt v).dpl ≡ 0)
  init_idt-InterruptGate small = (
    λ h.
        subst (λ d. InterruptGate d (address h) (dpl_value (caller h))) (sym (init_idt-vector h))
          (make_idt_desc-InterruptGate (address h) (caller h) (small h)),
    init_idt-dpl,
  )
