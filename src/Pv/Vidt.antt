-- ===== src/Pv/Vidt.antt =====
-- kern/inc/pv.h: the virtual interrupt table of a guest, and which entry an index selects.
use pebpeb_os.Base.{
  ℕ, ◌-◌, ◌≡◌, ◌≢◌, refl, ap, ◌&&◌, Option, none, some, arith, ◌==◌, ltb, leb, if◌then◌else◌,
}
use pebpeb_os.Base.Int.{ℤ, pos, negsuc}

-- `pv_idt_entry_t`: `desc` has the privilege level in its two low bits.
pub record IdtEntry : Type 0 where
  pub eip : ℕ
  pub desc : ℕ

-- `pv_irq_t`
pub record Irq : Type 0 where
  pub pending : ℕ
  pub arg : ℕ

-- `pv_idt_t`: an array is a function of its index.
pub record Vidt : Type 0 where
  pub fault_irq : ℕ → IdtEntry
  pub pending_irq : ℕ → Irq
  pub syscall_1 : ℕ → IdtEntry
  pub syscall_2 : ℕ → IdtEntry

abbrev pub vidt_dpl_0 : ℕ
vidt_dpl_0 = 0

abbrev pub vidt_dpl_3 : ℕ
vidt_dpl_3 = 3

abbrev pub pv_irq_start : ℕ
pv_irq_start = 32

abbrev pub pv_irq_end : ℕ
pv_irq_end = 34

abbrev pub pv_syscall_1_start : ℕ
pv_syscall_1_start = 65

abbrev pub pv_syscall_1_end : ℕ
pv_syscall_1_end = 117

abbrev pub pv_syscall_2_start : ℕ
pv_syscall_2_start = 128

abbrev pub pv_syscall_2_end : ℕ
pv_syscall_2_end = 135

-- A pointer into the table: the array and the index in it.
pub data Slot : Type 0 where
  fault_slot : ℕ → Slot
  syscall_slot_1 : ℕ → Slot
  syscall_slot_2 : ℕ → Slot

-- `none` is NULL. The index is an `int`; PV_FAULT_START is 0.
unfoldable pub pv_classify_interrupt : ℤ → Option Slot
pv_classify_interrupt (negsuc n) = none
pv_classify_interrupt (pos index) =
    if ltb index pv_irq_end
    then some (fault_slot index)
    else if leb pv_syscall_1_start index && ltb index pv_syscall_1_end
    then some (syscall_slot_1 (index - pv_syscall_1_start))
    else if leb pv_syscall_2_start index && ltb index pv_syscall_2_end
    then some (syscall_slot_2 (index - pv_syscall_2_start))
    else none

unfoldable pub entry_at : Slot → Vidt → IdtEntry
entry_at (fault_slot i) v = v.fault_irq i
entry_at (syscall_slot_1 i) v = v.syscall_1 i
entry_at (syscall_slot_2 i) v = v.syscall_2 i

abbrev pub write {ℓ} : {A : Type ℓ} → (ℕ → A) → ℕ → A → ℕ → A
write f i a j = if j == i then a else f j

unfoldable pub set_entry : Slot → IdtEntry → Vidt → Vidt
set_entry (fault_slot i) e v = record v { fault_irq = write v.fault_irq i e }
set_entry (syscall_slot_1 i) e v = record v { syscall_1 = write v.syscall_1 i e }
set_entry (syscall_slot_2 i) e v = record v { syscall_2 = write v.syscall_2 i e }

pub entry_at-set_entry_self :
    (s : Slot) (e : IdtEntry) (v : Vidt) → entry_at s (set_entry s e v) ≡ e
unfolding entry_at set_entry
entry_at-set_entry_self (fault_slot i) e v = ground arith
entry_at-set_entry_self (syscall_slot_1 i) e v = ground arith
entry_at-set_entry_self (syscall_slot_2 i) e v = ground arith

pub entry_at-set_entry_ne :
    (s t : Slot) (e : IdtEntry) (v : Vidt) → s ≢ t → entry_at t (set_entry s e v) ≡ entry_at t v
unfolding entry_at set_entry
entry_at-set_entry_ne (fault_slot i) (fault_slot j) e v h =
    let ne : i ≢ j = λ p. h (ap fault_slot p) in ground arith
entry_at-set_entry_ne (fault_slot i) (syscall_slot_1 j) e v h = refl
entry_at-set_entry_ne (fault_slot i) (syscall_slot_2 j) e v h = refl
entry_at-set_entry_ne (syscall_slot_1 i) (fault_slot j) e v h = refl
entry_at-set_entry_ne (syscall_slot_1 i) (syscall_slot_1 j) e v h =
    let ne : i ≢ j = λ p. h (ap syscall_slot_1 p) in ground arith
entry_at-set_entry_ne (syscall_slot_1 i) (syscall_slot_2 j) e v h = refl
entry_at-set_entry_ne (syscall_slot_2 i) (fault_slot j) e v h = refl
entry_at-set_entry_ne (syscall_slot_2 i) (syscall_slot_1 j) e v h = refl
entry_at-set_entry_ne (syscall_slot_2 i) (syscall_slot_2 j) e v h =
    let ne : i ≢ j = λ p. h (ap syscall_slot_2 p) in ground arith

-- Distinct indices never share an entry.
pub pv_classify_interrupt_injective :
    (a b : ℤ) (s : Slot)
    → pv_classify_interrupt a ≡ some s
    → pv_classify_interrupt b ≡ some s
    → a ≡ b
unfolding pv_classify_interrupt
pv_classify_interrupt_injective (negsuc a) b s p q = cc
pv_classify_interrupt_injective (pos a) (negsuc b) s p q = cc
pv_classify_interrupt_injective (pos a) (pos b) s p q = ground arith
