-- ===== src/Idt.antt =====
-- student-distrib/idt.c: the interrupt descriptor table. The addresses of the assembly stubs of
-- student-distrib/idt_asm.S are the linker's, a parameter of the definitions.
pub mod Gates
use ece391_mp.Base.{
  ℕ, zero, suc, ◌+◌, ◌*◌, ◌/◌, ◌%◌, Bool, true, false, List, [], ◌∷◌, Option, none, some, ◌==◌,
  if◌then◌else◌, update, get_or,
}

-- The stubs of idt_asm.S.
pub data Handler : Type 0 where
  exc_de exc_db exc_nmi exc_bp exc_of exc_br exc_ud exc_nm exc_df exc_cso exc_ts : Handler
  exc_np exc_ss exc_gp exc_pf exc_af exc_mf exc_ac exc_mc exc_xf exc_ve exc_sx : Handler
  irqh_keyboard irqh_pit irqh_rtc irqh_syscall : Handler

-- `IDT_EXC_CNT` and the vectors of the interrupts.
abbrev pub idt_exc_cnt : ℕ
idt_exc_cnt = 32

abbrev pub idt_pit : ℕ
idt_pit = 0x20

abbrev pub idt_keyboard : ℕ
idt_keyboard = 0x21

abbrev pub idt_rtc : ℕ
idt_rtc = 0x28

abbrev pub idt_syscall : ℕ
idt_syscall = 0x80

-- `KERNEL_CS`
abbrev pub kernel_cs : ℕ
kernel_cs = 0x10

-- `Dpl`
pub data Dpl : Type 0 where
  dpl0 dpl3 : Dpl

abbrev pub dpl_value : Dpl → ℕ
dpl_value dpl0 = 0
dpl_value dpl3 = 3

-- `GateType`
pub data GateType : Type 0 where
  task int trap : GateType

abbrev pub gate_value : GateType → ℕ
gate_value task = 5
gate_value int = 6
gate_value trap = 7

-- `idt_desc_t`
pub record IdtDesc : Type 0 where
  pub offset_15_00 : ℕ
  pub seg_selector : ℕ
  pub reserved4 : ℕ
  pub reserved3 : ℕ
  pub reserved2 : ℕ
  pub reserved1 : ℕ
  pub size : ℕ
  pub reserved0 : ℕ
  pub dpl : ℕ
  pub present : ℕ
  pub offset_31_16 : ℕ

-- `make_idt_desc`, with the address of the handler. The bits of `GateTypeU` are those of the gate type,
-- the lowest first.
unfoldable pub make_idt_desc : ℕ → ℕ → GateType → Dpl → IdtDesc
make_idt_desc handler seg_selector gate_type dpl = record {
  seg_selector = seg_selector;
  reserved4 = 0;
  reserved3 = gate_value gate_type % 2;
  reserved2 = gate_value gate_type / 2 % 2;
  reserved1 = gate_value gate_type / 4 % 2;
  size = 1;
  reserved0 = if gate_value gate_type == 5 then 1 else 0;
  dpl = dpl_value dpl;
  present = 1;
  offset_31_16 = handler / 65536 % 65536;
  offset_15_00 = handler % 65536;
}

-- `exc_handlers`; what no initialiser names is a null pointer.
abbrev pub exc_handlers : List (Option Handler)
exc_handlers =
    some exc_de
    ∷ some exc_db
    ∷ some exc_nmi
    ∷ some exc_bp
    ∷ some exc_of
    ∷ some exc_br
    ∷ some exc_ud
    ∷ some exc_nm
    ∷ some exc_df
    ∷ some exc_cso
    ∷ some exc_ts
    ∷ some exc_np
    ∷ some exc_ss
    ∷ some exc_gp
    ∷ some exc_pf
    ∷ some exc_af
    ∷ some exc_mf
    ∷ some exc_ac
    ∷ some exc_mc
    ∷ some exc_xf
    ∷ some exc_ve
    ∷ none
    ∷ none
    ∷ none
    ∷ none
    ∷ none
    ∷ none
    ∷ none
    ∷ none
    ∷ none
    ∷ some exc_sx
    ∷ none
    ∷ []

module _ (address : Handler → ℕ) where
  abbrev pub address_of : Option Handler → ℕ
  address_of none = 0
  address_of (some h) = address h

  -- The loop of `init_idt`, with the rounds that are left.
  unfoldable pub init_exceptions : ℕ → ℕ → (ℕ → IdtDesc) → ℕ → IdtDesc
  unfolding make_idt_desc
  init_exceptions zero i idt = idt
  init_exceptions (suc rounds) i idt =
      init_exceptions rounds (i + 1)
        (update idt i (make_idt_desc (address_of (get_or exc_handlers i none)) kernel_cs int dpl0))

  -- `init_idt`: the table that `lidt` loads.
  unfoldable pub init_idt : (ℕ → IdtDesc) → ℕ → IdtDesc
  unfolding init_exceptions make_idt_desc
  init_idt idt =
      let exceptions = init_exceptions idt_exc_cnt 0 idt in
      let pit = update exceptions idt_pit (make_idt_desc (address irqh_pit) kernel_cs int dpl0) in
      let keyboard =
        update pit idt_keyboard (make_idt_desc (address irqh_keyboard) kernel_cs int dpl0) in
      let rtc = update keyboard idt_rtc (make_idt_desc (address irqh_rtc) kernel_cs int dpl0) in
      update rtc idt_syscall (make_idt_desc (address irqh_syscall) kernel_cs int dpl3)
