-- ===== src/Pv/Hvcall/Resume.antt =====
-- kern/hvcall.c: hvcall_iret undoes what the injection of an interrupt did to the guest's registers.
use pebpeb_os.Base.{
  ℕ, ◌^◌, ◌<◌, ◌≡◌, ◌≢◌, ◌⊎◌, ◌↔◌, refl, sym, ◌∙◌, inl, inr, true, false, Bool-cases, List, ◌++◌,
  arith, ◌==◌, if◌then◌else◌,
}
use pebpeb_os.Base.Bits.{◌&&&◌, ◌|||◌, bit_and-zero, bit_or-zero}
use pebpeb_os.Base.BitLaws.{bit_and_assoc, bit_and-bit_or, bit_or-covers, bit_and-le}
use pebpeb_os.Usermem.Copy.{Holds}
use pebpeb_os.Pv.Vm.{Vm, ok, pv_die, bad_eflags, memory, bytes_of, read_bytes, ◌>>=◌, ◌>>◌}
use pebpeb_os.Pv.Access.{read_bytes-Holds, word_of-bytes_of}
use pebpeb_os.Pv.Interrupt.{
  efl_if, not_efl_if, pv_mask_interrupt, pv_unmask_interrupt, pv_switch_mode, shown_eflags,
}
use pebpeb_os.Pv.Hvcall.{
  eflags_pv_mask, not_eflags_pv_mask, default_eflags, not_if_resv1, word_at, resume, hvcall_iret,
}

-- Flags that hvcall_iret accepts: beside those that a guest may change, only the interrupt flag and
-- the bit that is always set.
abbrev pub IsAllowed : ℕ → Type 0
IsAllowed flags = ((flags &&& not_eflags_pv_mask) &&& not_if_resv1) ≡ 0

shown_cases :
    (g : Vm)
    → ((g.vif ≡ 0) × (shown_eflags g ≡ (g.frame.eflags &&& not_efl_if)))
      ⊎ ((g.vif ≢ 0) × (shown_eflags g ≡ (g.frame.eflags ||| efl_if)))
unfolding shown_eflags
shown_cases g = elim (Bool-cases (g.vif == 0)) [
  | inl e ↦ inl (ground arith, rw e refl)
  | inr e ↦ inr (ground arith, rw e refl)
]

shown-small : (g : Vm) → g.frame.eflags < 2 ^ 31 → shown_eflags g < 2 ^ 32
shown-small g h = elim (shown_cases g) [
  | inl (z, e) ↦ omega (arith, e, bit_and-le g.frame.eflags not_efl_if)
  | inr (z, e) ↦ omega (arith, e, bit_or-covers g.frame.eflags efl_if)
]

-- What the guest is shown keeps the flags that it may change, and shows only allowed ones beside.
shown-user : (g : Vm) → (shown_eflags g &&& eflags_pv_mask) ≡ (g.frame.eflags &&& eflags_pv_mask)
shown-user g = elim (shown_cases g) [
  | inl (z, e) ↦ rw (e, bit_and_assoc) refl
  | inr (z, e) ↦ rw (e, bit_and-bit_or) (bit_or-zero _)
]

-- The other flags are shown as they are.
shown-bits :
    (g : Vm)
    → ((shown_eflags g &&& not_eflags_pv_mask) &&& not_if_resv1)
      ≡ ((g.frame.eflags &&& not_eflags_pv_mask) &&& not_if_resv1)
shown-bits g = elim (shown_cases g) [
  | inl (z, e) ↦ rw (e, bit_and_assoc, bit_and_assoc, bit_and_assoc) refl
  | inr (z, e) ↦ rw (e, bit_and-bit_or, bit_and-bit_or) (bit_or-zero _)
]

shown-flag : (g : Vm) → (((shown_eflags g &&& not_eflags_pv_mask) &&& efl_if) ≡ 0) ↔ (g.vif ≡ 0)
shown-flag g = elim (shown_cases g) [
  | inl (z, e) ↦ (λ p. z, λ p. rw (e, bit_and_assoc, bit_and_assoc) (bit_and-zero _))
  | inr (z, e) ↦
      let kept = (g.frame.eflags &&& not_eflags_pv_mask) &&& efl_if in
      let both : ((shown_eflags g &&& not_eflags_pv_mask) &&& efl_if) ≡ (kept ||| efl_if) =
        rw (e, bit_and-bit_or, bit_and-bit_or) refl in
      (λ p. absurd (omega (arith, bit_or-covers kept efl_if)), λ p. absurd (z p))
]

-- The stack that hvcall_iret reads.
abbrev pub iret_frame : (eip eflags esp esp0 eax : ℕ) → List ℕ
iret_frame eip eflags esp esp0 eax =
    bytes_of 4 eip ++ (bytes_of 4 eflags ++ (bytes_of 4 esp ++ (bytes_of 4 esp0 ++ bytes_of 4 eax)))

-- `h'` runs the context that was interrupted in `g`, at guest user level if `esp0` is not 0.
pub record Resumed (g h h' : Vm) (esp0 : ℕ) : Type 0 where
  pub eip : h'.frame.eip ≡ g.frame.eip
  pub esp : h'.frame.esp ≡ g.frame.esp
  pub eax : h'.frame.eax ≡ g.frame.eax
  pub eflags : h'.frame.eflags ≡ ((g.frame.eflags &&& eflags_pv_mask) ||| default_eflags)
  pub vif : (h'.vif ≡ 0) ↔ (g.vif ≡ 0)
  pub cr3 : h'.cr3 ≡ (if esp0 == 0 then h.cr3 else (h.pds h.active_shadow_pd).user_cr3)
  pub vesp0 : h'.vesp0 ≡ (if esp0 == 0 then h.vesp0 else esp0)

resume_lem :
    (g h : Vm) (esp0 : ℕ)
    → IsAllowed g.frame.eflags
    → (h' : Vm) × (resume g.frame.eip (shown_eflags g) g.frame.esp esp0 g.frame.eax h ≡ ok tt h')
      × Resumed g h h' esp0
unfolding resume pv_mask_interrupt pv_unmask_interrupt pv_switch_mode
resume_lem g h esp0 allowed =
    let flag = shown-flag g in
    let fine = shown-bits g ∙ allowed in
    let user = shown-user g in
    let kernel = shown_eflags g &&& not_eflags_pv_mask in
    let allowed_bits : ((kernel &&& not_if_resv1) == 0) ≡ true = ground arith in
    rw (allowed_bits, ◌>>=◌, ◌>>◌)
      (
        _,
        refl,
        record {
          eip = ground arith;
          esp = ground arith;
          eax = refl;
          eflags = ground arith;
          vif = (λ p. flag.0 (ground arith), λ p. ground (arith, flag.1 p));
          cr3 = ground arith;
          vesp0 = ground arith;
        },
      )

resume_dies :
    (g h : Vm) (esp0 : ℕ)
    → ¬ IsAllowed g.frame.eflags
    → resume g.frame.eip (shown_eflags g) g.frame.esp esp0 g.frame.eax h
      ≡ pv_die bad_eflags (record h { frame = record (h.frame) { eip = g.frame.eip } })
unfolding resume
resume_dies g h esp0 refused =
    let bits : ((shown_eflags g &&& not_eflags_pv_mask) &&& not_if_resv1) ≢ 0 =
      λ z. refused (sym (shown-bits g) ∙ z) in
    let bad : (((shown_eflags g &&& not_eflags_pv_mask) &&& not_if_resv1) == 0) ≡ false =
      ground arith in
    rw (bad, ◌>>=◌) refl

-- The guest kernel returns from an interrupt: it passes to hvcall_iret the registers that the
-- injection saved, with the flags as they were shown to it, for flags below 2 ^ 31. If the interrupted
-- context ran with no flags but those that a guest may change, the interrupt flag and the bit that is
-- always set, then it runs again, with virtual interrupts on exactly if they were on, and with the
-- flags that a guest may change. If it ran with any other flag, such as NT, AC or ID, then the guest
-- is ended with `Bad eflags value in iret`.
pub hvcall_iret-shown_eflags :
    (g h : Vm) (esp0 : ℕ)
    → g.frame.eflags < 2 ^ 31
    → g.frame.eip < 2 ^ 32
    → g.frame.esp < 2 ^ 32
    → g.frame.eax < 2 ^ 32
    → esp0 < 2 ^ 32
    → Holds
        (memory h)
        h.frame.esp
        (iret_frame g.frame.eip (shown_eflags g) g.frame.esp esp0 g.frame.eax)
    → (IsAllowed g.frame.eflags × ((h' : Vm) × (hvcall_iret h ≡ ok tt h') × Resumed g h h' esp0))
      ⊎ ((¬ IsAllowed g.frame.eflags)
          × (hvcall_iret h
              ≡ pv_die bad_eflags (record h { frame = record (h.frame) { eip = g.frame.eip } })))
unfolding hvcall_iret
hvcall_iret-shown_eflags g h esp0 flags eip esp eax small held =
    let f = g.frame in
    let buf = iret_frame f.eip (shown_eflags g) f.esp esp0 f.eax in
    let got : read_bytes h.frame.esp 20 h ≡ ok buf h = read_bytes-Holds h.frame.esp buf h held in
    let words : (word_at 0 buf ≡ f.eip)
        × (word_at 1 buf ≡ shown_eflags g)
        × (word_at 2 buf ≡ f.esp)
        × (word_at 3 buf ≡ esp0)
        × (word_at 4 buf ≡ f.eax) =
      (
        word_of-bytes_of f.eip eip,
        word_of-bytes_of _ (shown-small g flags),
        word_of-bytes_of f.esp esp,
        word_of-bytes_of esp0 small,
        word_of-bytes_of f.eax eax,
      ) in
    let run : hvcall_iret h ≡ resume f.eip (shown_eflags g) f.esp esp0 f.eax h =
      rw (got, ◌>>=◌) (λ i. resume (words.0 i) (words.1 i) (words.2 i) (words.3 i) (words.4 i) h) in
    elim (Bool-cases (((f.eflags &&& not_eflags_pv_mask) &&& not_if_resv1) == 0)) [
      | inl fine ↦
          let allowed : IsAllowed f.eflags = ground arith in
          let (h', back, resumed) = resume_lem g h esp0 allowed in
          inl (allowed, (h', run ∙ back, resumed))
      | inr bad ↦
          let refused : ¬ IsAllowed f.eflags = λ z. ground arith in
          inr (refused, run ∙ resume_dies g h esp0 refused)
    ]
