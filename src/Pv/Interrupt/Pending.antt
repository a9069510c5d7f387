-- ===== src/Pv/Interrupt/Pending.antt =====
-- kern/pv.c: interrupts that wait until the guest takes them.
use mathlib.Core.Path.{subst}
use mathlib.Core.Option.{some-injective}
use pebpeb_os.Base.{
  ℕ, zero, suc, ◌+◌, ◌-◌, ◌≤◌, ◌<◌, ◌≡◌, ◌≢◌, ◌⊎◌, inl, inr, refl, true, false, Bool, Bool-cases,
  some, List, arith, ◌==◌, leb,
}
use pebpeb_os.Paging.{user_mem_start}
use pebpeb_os.Usermem.{copy_to_user}
use pebpeb_os.Pv.Vm.{
  Vm, M, Reason, memory, push_failed, Result, ok, stop, wild, write_bytes, check, ◌>>=◌, ◌>>◌,
  modify,
}
use pebpeb_os.Pv.Interrupt.{
  pv_mask_interrupt, pv_switch_mode, push_bytes, push_frame, pv_inject_interrupt, is_blocked,
  pv_inject_irq, pv_pend_irq, check_loop, clear_pending,
}

-- What keeps the interrupt table if it returns to the guest, and else reads nothing through NULL.
abbrev pub Keeps {ℓ} : {A : Type ℓ} → Vm → Result A → Type 0
Keeps g (ok a g') = g'.vidt ≡ g.vidt
Keeps g (stop e g') = e ≢ wild

pub Keeps->>= :
    {A B : Type 0} (m : M A) (f : A → M B) (h g : Vm)
    → Keeps h (m g)
    → ((a : A) (g' : Vm) → g'.vidt ≡ h.vidt → Keeps h (f a g'))
    → Keeps h ((m >>= f) g)
Keeps->>= {A} {B} m f h g k rest = go (m g) k
  where
    go : (r : Result A) → Keeps h r → Keeps h (elim r [ ok a g' ↦ f a g' | stop e g' ↦ stop e g' ])
    go (ok a g') k = rest a g' k
    go (stop e g') k = k

check-Keeps : (b : Bool) (r : Reason) (h g : Vm) → g.vidt ≡ h.vidt → Keeps h (check b r g)
check-Keeps true r h g e = e
check-Keeps false r h g e = λ p. cc

push_bytes-Keeps :
    (addr : ℕ) (buf : List ℕ) (h g : Vm) → g.vidt ≡ h.vidt → Keeps h (push_bytes addr buf g)
unfolding push_bytes write_bytes
push_bytes-Keeps addr buf h g e = check-Keeps (copy_to_user (memory g) addr buf).0 push_failed h _ e

pub push_frame-Keeps : (cr2 error_code : ℕ) (g : Vm) → Keeps g (push_frame cr2 error_code g)
unfolding push_frame pv_switch_mode
push_frame-Keeps cr2 error_code g = elim (Bool-cases (leb user_mem_start g.frame.eip)) [
  | inl e ↦ rw e (
      Keeps->>= (push_bytes _ _) _ g _ (push_bytes-Keeps _ _ g _ refl) (λ a g1 k.
        Keeps->>= (push_bytes _ _) _ g g1 (push_bytes-Keeps _ _ g g1 k) (λ a' g2 k'. k')))
  | inr e ↦ rw e (Keeps->>= (push_bytes _ _) _ g g (push_bytes-Keeps _ _ g g refl) (λ a g1 k. k))
]

pub pv_inject_interrupt-Keeps : (arg eip : ℕ) (g : Vm) → Keeps g (pv_inject_interrupt arg eip g)
unfolding pv_inject_interrupt pv_mask_interrupt
pv_inject_interrupt-Keeps arg eip g =
    Keeps->>= (push_frame 0 arg) _ g g (push_frame-Keeps 0 arg g) (λ a h k. k)

-- The guest in the handler at `eip`, with virtual interrupts masked.
abbrev pub InHandler : (eip : ℕ) → Vm → Type 0
InHandler eip g = (g.vif ≡ 0) × (g.frame.eip ≡ eip)

-- Inversion of a bind that returns.
>>=-eq-ok :
    {A B : Type 0} (m : M A) (f : A → M B) (b : B) (g g' : Vm)
    → (m >>= f) g ≡ ok b g'
    → (a : A) × (h : Vm) × (m g ≡ ok a h) × (f a h ≡ ok b g')
>>=-eq-ok {A} {B} m f b g g' e = go (m g) refl e
  where
    go :
        (r : Result A)
        → m g ≡ r
        → (elim r as (λ k. Result B) [ ok a h ↦ f a h | stop s h ↦ stop s h ]) ≡ ok b g'
        → (a : A) × (h : Vm) × (m g ≡ ok a h) × (f a h ≡ ok b g')
    go (ok a h) q e = (a, h, q, e)
    go (stop s h) q e = cc

-- An injection that returns.
pv_inject_interrupt-returns :
    (arg eip : ℕ) (g g' : Vm)
    → pv_inject_interrupt arg eip g ≡ ok tt g'
    → InHandler eip g' × (g'.vidt ≡ g.vidt)
unfolding pv_inject_interrupt pv_mask_interrupt
pv_inject_interrupt-returns arg eip g g' e =
    let (a, h, pushed, rest) = >>=-eq-ok (push_frame 0 arg) _ tt g g' e in
    let kept : h.vidt ≡ g.vidt = subst (Keeps g) pushed (push_frame-Keeps 0 arg g) in
    ground (arith, kept, rest)

abbrev pub IsPending : (i : ℕ) → Vm → Type 0
IsPending i g = (g.vidt.pending_irq i).pending ≢ 0

-- Marking an interrupt as pending clears no mark.
pub pv_pend_irq-IsPending :
    (index arg i : ℕ) (g : Vm) → IsPending i g → IsPending i (pv_pend_irq index arg g)
unfolding pv_pend_irq
pv_pend_irq-IsPending index arg i g p = ground arith

pub pv_pend_irq_arrives :
    (index arg k : ℕ) (g : Vm) → index - 32 ≡ k → IsPending k (pv_pend_irq index arg g)
unfolding pv_pend_irq
pv_pend_irq_arrives index arg k g e = ground arith

pub pv_inject_irq-IsPending :
    (k arg : ℕ) (b : Bool) (i : ℕ) (g g' : Vm)
    → pv_inject_irq (32 + k) arg (some g) ≡ some (ok b g')
    → IsPending i g
    → IsPending i g'
unfolding pv_inject_irq
pv_inject_irq-IsPending k arg b i g g' e p = elim (Bool-cases (is_blocked g)) [
  | inl blk ↦
      let pended = some-injective _ _ (rw blk at e) in
      ground (arith, pended, pv_pend_irq-IsPending (32 + k) arg i g p)
  | inr free ↦ elim (Bool-cases ((g.vidt.fault_irq (32 + k)).eip == 0)) [
    | inl z ↦ cc (rw (free, z) at e)
    | inr z ↦
        let inject = some-injective _ _ (rw (free, z) at e) in
        let (a, h, injected, rest) = >>=-eq-ok (pv_inject_interrupt arg _) _ b g g' inject in
        let (there, kept) = pv_inject_interrupt-returns arg _ g h injected in
        ground (arith, kept, rest)
  ]
]

-- The interrupt that comes is pending after that, or the guest is in its handler.
pub pv_inject_irq_arrives :
    (k arg : ℕ) (b : Bool) (g g' : Vm)
    → pv_inject_irq (32 + k) arg (some g) ≡ some (ok b g')
    → IsPending k g' ⊎ ((is_blocked g ≡ false) × InHandler (g.vidt.fault_irq (k + 32)).eip g')
unfolding pv_inject_irq
pv_inject_irq_arrives k arg b g g' e = elim (Bool-cases (is_blocked g)) [
  | inl blk ↦
      let pended = some-injective _ _ (rw blk at e) in
      inl (ground (arith, pended, pv_pend_irq_arrives (32 + k) arg k g (omega arith)))
  | inr free ↦ elim (Bool-cases ((g.vidt.fault_irq (32 + k)).eip == 0)) [
    | inl z ↦ cc (rw (free, z) at e)
    | inr z ↦
        let inject = some-injective _ _ (rw (free, z) at e) in
        let (a, h, injected, rest) = >>=-eq-ok (pv_inject_interrupt arg _) _ b g g' inject in
        let (there, kept) = pv_inject_interrupt-returns arg _ g h injected in
        inr (free, ground (arith, there, rest))
  ]
]

inject_and_clear :
    (j arg eip : ℕ) (g g' : Vm)
    → ((pv_inject_interrupt arg eip >> modify (clear_pending j)) g ≡ ok tt g')
    → InHandler eip g' × ((i : ℕ) → i ≢ j → g'.vidt.pending_irq i ≡ g.vidt.pending_irq i)
inject_and_clear j arg eip g g' e =
    let (a, h, injected, rest) = >>=-eq-ok (pv_inject_interrupt arg eip) _ tt g g' e in
    let (there, kept) = pv_inject_interrupt-returns arg eip g h injected in
    (ground (arith, rest), λ i ne. ground (arith, kept, rest))

-- The loop injects the first pending interrupt from `j` on, and leaves the others pending.
pub check_loop-IsPending :
    (rounds j i : ℕ) (g g' : Vm)
    → check_loop rounds j g ≡ ok tt g'
    → j ≤ i
    → i < j + rounds
    → IsPending i g
    → IsPending i g' ⊎ InHandler (g.vidt.fault_irq (i + 32)).eip g'
unfolding check_loop
check_loop-IsPending zero j i g g' e lo hi p = absurd (omega arith)
check_loop-IsPending (suc rounds) j i g g' e lo hi p =
    elim (Bool-cases ((g.vidt.pending_irq j).pending == 0)) [
      | inl idle ↦
          let next : j ≢ i = λ q. p (ground arith) in
          check_loop-IsPending rounds (j + 1) i g g' (rw idle at e) (omega arith) (omega arith) p
      | inr waits ↦ elim (Bool-cases ((g.vidt.fault_irq (j + 32)).eip == 0)) [
        | inl z ↦ cc (rw (waits, z) at e)
        | inr z ↦
            let (there, others) = inject_and_clear j _ _ g g' (rw (waits, z) at e) in
            elim (Bool-cases (i == j)) [
              | inl same ↦ inr (ground (arith, there))
              | inr differ ↦ inl (ground (arith, others i (ground arith)))
            ]
      ]
    ]
