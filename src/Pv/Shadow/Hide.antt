-- ===== src/Pv/Shadow/Hide.antt =====
-- Which entries the user's shadow table shows, and what the shadow entries permit.
use pebpeb_os.Base.{
  ℕ, ◌*◌, ◌/◌, ◌%◌, ◌<◌, ◌≡◌, ◌≢◌, ◌⊎◌, ◌↔◌, inl, inr, refl, ◌∙◌, arith, if◌then◌else◌, ◌==◌,
}
use pebpeb_os.Base.Bits.{◌&&&◌, ◌<<◌, zero-bit_and}
use pebpeb_os.Paging.{bad_pte, get_page_base}
use pebpeb_os.Paging.Entry.{one_bit}
use pebpeb_os.Pv.Shadow.{
  Guest, host_page, kernel_mask, user_mask, shadow_word, translate_pte, adjust_pte, shadow_entry,
}
use pebpeb_os.Pv.Shadow.Word.{
  shadow_word-sum, present_cases, rw_cases, us_cases, user_mask-sum, kernel_mask-sum,
}
use pebpeb_os.Pv.Shadow.Confine.{host_page-lt, kernel_mask-lt, user_mask-lt}

-- The two US bits together.
both_us :
    (pde pte : ℕ)
    → ((((pte &&& (1 << 2)) ≡ 4) × ((pde &&& (1 << 2)) ≡ 4))
        × (((pte &&& (1 << 2)) &&& (pde &&& (1 << 2))) ≡ 4))
      ⊎ (¬ (((pte &&& (1 << 2)) ≡ 4) × ((pde &&& (1 << 2)) ≡ 4))
          × (((pte &&& (1 << 2)) &&& (pde &&& (1 << 2))) ≡ 0))
both_us pde pte = elim (us_cases pte) [
  | inl e ↦ inr (λ h. omega arith, rw (e, zero-bit_and) refl)
  | inr e ↦ elim (us_cases pde) [
    | inl d ↦ inr (λ h. omega arith, rw (e, d) refl)
    | inr d ↦ inl ((e, d), rw (e, d) refl)
  ]
]

module _ (g : Guest) (pte : ℕ) where
  abbrev host : ℕ
  host = host_page g (get_page_base pte)

  user_word-ne : shadow_word host pte (user_mask (pte &&& (1 << 1))) ≢ bad_pte
  user_word-ne e = omega (
    arith,
    shadow_word-sum host pte (user_mask (pte &&& (1 << 1))) (host_page-lt g (get_page_base pte))
        (user_mask-lt g pte),
    user_mask-sum pte,
  )

  shown_iff :
      (shown : ℕ)
      → ((shadow_entry g shown pte).user ≢ bad_pte) ↔ (((pte &&& (1 << 0)) ≡ 1) × (shown ≢ 0))
  unfolding shadow_entry
  shown_iff shown = elim (present_cases pte) [
    | inl e ↦ (λ h. absurd (h (ground arith)), λ h. omega arith)
    | inr e ↦
        (λ h. (e, λ z. h (ground arith)), λ h u. user_word-ne (ground (arith, user_mask-sum pte)))
  ]

  -- The bits of a shadow word.
  word_bits :
      (mask : ℕ)
      → mask < 8
      → ((shadow_word host pte mask &&& (1 << 0)) ≡ mask % 2)
        × ((shadow_word host pte mask &&& (1 << 1)) ≡ mask / 2 % 2 * 2)
        × ((shadow_word host pte mask &&& (1 << 2)) ≡ mask / 4 % 2 * 4)
  word_bits mask h =
      let word = shadow_word host pte mask in
      let sum = shadow_word-sum host pte mask (host_page-lt g (get_page_base pte)) h in
      (
        one_bit 0 word ∙ (omega (arith, sum)),
        one_bit 1 word ∙ (omega (arith, sum)),
        one_bit 2 word ∙ (omega (arith, sum)),
      )

-- A word that maps a page for ring 3, with the given RW bit.
abbrev pub Permits : (word write : ℕ) → Type 0
Permits word write =
    ((word &&& (1 << 0)) ≡ 1) × ((word &&& (1 << 2)) ≡ 4) × ((word &&& (1 << 1)) ≡ write)

module _ (g : Guest) (shown pte : ℕ) (p : (pte &&& (1 << 0)) ≡ 1) where
  kernel-Permits :
      Permits (shadow_entry g shown pte).kernel (if g.wp == 0 then 2 else pte &&& (1 << 1))
  unfolding shadow_entry
  kernel-Permits = ground (
    arith,
    word_bits g pte (kernel_mask g (pte &&& (1 << 1))) (kernel_mask-lt g pte),
    kernel_mask-sum g pte,
    rw_cases pte,
  )

  user-Permits :
      ((shadow_entry g shown pte).user ≡ bad_pte)
      ⊎ Permits (shadow_entry g shown pte).user (pte &&& (1 << 1))
  unfolding shadow_entry
  user-Permits = ground (
    arith,
    word_bits g pte (user_mask (pte &&& (1 << 1))) (user_mask-lt g pte),
    user_mask-sum pte,
    rw_cases pte,
  )

module _ (g : Guest) (old_pde old_pte : ℕ) where
  -- The user's shadow table of `translate_pv_pd` has an entry exactly where the guest's entry is
  -- present and both its US bit and that of its page directory entry are set: the pages of the
  -- guest's kernel are hidden from its user.
  pub translate_pte-user_iff :
      ((translate_pte g old_pde old_pte).user ≢ bad_pte)
      ↔ (((old_pte &&& (1 << 0)) ≡ 1) × ((old_pte &&& (1 << 2)) ≡ 4) × ((old_pde &&& (1 << 2)) ≡ 4))
  unfolding translate_pte
  translate_pte-user_iff =
      let shown = (old_pte &&& (1 << 2)) &&& (old_pde &&& (1 << 2)) in
      let iff = shown_iff g old_pte shown in
      elim (both_us old_pde old_pte) [
        | inl ((s, d), e) ↦ (λ h. ((iff.0 h).0, s, d), λ (p, _, _). iff.1 (p, λ z. omega arith))
        | inr (n, e) ↦ (λ h. absurd ((iff.0 h).1 e), λ (_, s, d). absurd (n (s, d)))
      ]

  -- The user's shadow table after `hvcall_adjustpg` has an entry exactly where the guest's entry is
  -- present and its US bit is set; the page directory entry is not asked.
  pub adjust_pte-user_iff :
      ((adjust_pte g old_pte).user ≢ bad_pte)
      ↔ (((old_pte &&& (1 << 0)) ≡ 1) × ((old_pte &&& (1 << 2)) ≡ 4))
  unfolding adjust_pte
  adjust_pte-user_iff =
      let iff = shown_iff g old_pte (old_pte &&& (1 << 2)) in
      (
        λ h. ((iff.0 h).0, omega (arith, us_cases old_pte, (iff.0 h).1)),
        λ (p, s). iff.1 (p, λ z. omega arith),
      )

  -- `hvcall_adjustpg` and `translate_pv_pd` write the same two entries if the guest's page directory
  -- entry has its US bit set.
  adjust_pte-translate_pte :
      (old_pde &&& (1 << 2)) ≡ 4 → adjust_pte g old_pte ≡ translate_pte g old_pde old_pte
  unfolding adjust_pte translate_pte
  adjust_pte-translate_pte d = elim (us_cases old_pte) [
    | inl e ↦ rw (e, zero-bit_and)
    | inr e ↦ rw (e, d)
  ]

  -- If the guest's page directory entry has its US bit clear, `translate_pv_pd` hides from the
  -- guest's user every page whose present entry has the US bit set, and `hvcall_adjustpg` shows it.
  pub adjust_pte-shows :
      (old_pde &&& (1 << 2)) ≡ 0
      → (old_pte &&& (1 << 0)) ≡ 1
      → (old_pte &&& (1 << 2)) ≡ 4
      → ((translate_pte g old_pde old_pte).user ≡ bad_pte) × ((adjust_pte g old_pte).user ≢ bad_pte)
  unfolding translate_pte
  adjust_pte-shows d p s = (rw (s, d) (rw p refl), adjust_pte-user_iff.1 (p, s))

  -- Both shadow entries of a present entry map the page for ring 3. The kernel's is writable if the
  -- guest runs with WP off or its entry is writable; the user's, if there is one, is writable
  -- exactly if the guest's entry is.
  translate_pte-Permits :
      (old_pte &&& (1 << 0)) ≡ 1
      → Permits
          (translate_pte g old_pde old_pte).kernel
          (if g.wp == 0 then 2 else old_pte &&& (1 << 1))
        × (((translate_pte g old_pde old_pte).user ≡ bad_pte)
            ⊎ Permits (translate_pte g old_pde old_pte).user (old_pte &&& (1 << 1)))
  unfolding translate_pte
  translate_pte-Permits p =
      let shown = (old_pte &&& (1 << 2)) &&& (old_pde &&& (1 << 2)) in
      (kernel-Permits g shown old_pte p, user-Permits g shown old_pte p)
