-- ===== src/Space/Fault.antt =====
-- kern/interrupt.c: the fault of a page at its first use.
use pebpeb_os.Base.{
  ℕ, ◌+◌, ◌*◌, ◌/◌, ◌%◌, ◌^◌, ◌<◌, ◌≡◌, ◌≢◌, inl, inr, refl, sym, ◌∙◌, ap, true, Bool-cases, ◌==◌,
  arith,
}
use pebpeb_os.Base.Bits.{◌&&&◌, ◌|||◌, ◌<<◌, bit_or-disjoint}
use pebpeb_os.Paging.{
  bad_pte, pte_p_shift, make_pte, get_page_base, get_page_table, get_pd_index, get_pt_index,
}
use pebpeb_os.Paging.Entry.{base-mask, one_bit, make_pte-sum}
use pebpeb_os.Space.{Space, write_entry, handle_zfod}

-- The present bit of an entry that is not present is added.
add_present : (e : ℕ) → (e &&& (1 << pte_p_shift)) ≡ 0 → (e ||| (1 << pte_p_shift)) ≡ e + 1
add_present e h =
    let even : e % 2 ≡ 0 = omega (arith, one_bit 0 e, h) in
    let half : e ≡ e / 2 * 2 ^ 1 = omega arith in
    ap (λ (t : ℕ). t ||| 1) half ∙ bit_or-disjoint 1 (e / 2) 1 (omega arith) ∙ (omega arith)

page-present :
    (e : ℕ)
    → e < 2 ^ 32
    → (e &&& (1 << pte_p_shift)) ≡ 0
    → get_page_base (e ||| (1 << pte_p_shift)) ≡ get_page_base e
unfolding get_page_base
page-present e small h =
    let even : e % 2 ≡ 0 = omega (arith, one_bit 0 e, h) in
    ap get_page_base (add_present e h)
    ∙ base-mask (e + 1) (omega arith)
    ∙ (omega arith)
    ∙ sym (base-mask e small)

-- An entry of new_pages is neither 0 nor present.
make_pte-waits :
    (pa : ℕ)
    → pa < 2 ^ 32
    → (make_pte pa 0 1 1 0 ≢ bad_pte)
      × ((make_pte pa 0 1 1 0 &&& (1 << pte_p_shift)) ≡ 0)
      × (make_pte pa 0 1 1 0 < 2 ^ 32)
      × (get_page_base (make_pte pa 0 1 1 0) ≡ pa / 4096 * 4096)
unfolding get_page_base
make_pte-waits pa small =
    let word = make_pte pa 0 1 1 0 in
    let sum : word ≡ pa / 4096 * 4096 + 0 * 256 + 1 * 4 + 1 * 2 + 0 =
      make_pte-sum (omega arith) (omega arith) (omega arith) pa 0 small (omega arith) in
    (
      λ e. absurd (omega arith),
      one_bit 0 word ∙ (omega arith),
      omega arith,
      base-mask word (omega arith) ∙ (omega arith),
    )

-- The fault at a page whose entry has an address and is not present.
handle_zfod-maps :
    {A : Type 0} (cr2 : ℕ) (s : Space A)
    → s.pd (get_pd_index cr2) ≢ bad_pte
    → s.pt (get_page_table (s.pd (get_pd_index cr2))) (get_pt_index cr2) ≢ bad_pte
    → (s.pt (get_page_table (s.pd (get_pd_index cr2))) (get_pt_index cr2) &&& (1 << pte_p_shift))
      ≡ 0
    → handle_zfod cr2 s ≡ (
      true,
      write_entry
          (get_page_table (s.pd (get_pd_index cr2)))
          (get_pt_index cr2)
          (s.pt (get_page_table (s.pd (get_pd_index cr2))) (get_pt_index cr2)
            ||| (1 << pte_p_shift))
          s,
    )
unfolding handle_zfod
handle_zfod-maps cr2 s pde pte waits = elim (Bool-cases (s.pd (get_pd_index cr2) == bad_pte)) [
  | inl e ↦ absurd (pde (ground arith))
  | inr e ↦
      elim (Bool-cases
        (s.pt (get_page_table (s.pd (get_pd_index cr2))) (get_pt_index cr2) == bad_pte)) [
          | inl z ↦ absurd (pte (ground arith))
          | inr z ↦ rw (handle_zfod, e, z, waits) refl
        ]
]

pub write_entry-at : {A : Type 0} (t i pte : ℕ) (s : Space A) → (write_entry t i pte s).pt t i ≡ pte
write_entry-at t i pte s = elim (Bool-cases (t == t)) [
  | inl e ↦ rw e (elim (Bool-cases (i == i)) [ inl z ↦ rw z refl | inr z ↦ absurd (ground arith) ])
  | inr e ↦ absurd (ground arith)
]

-- A page that new_pages has entered is mapped by the first fault at it.
pub handle_zfod-page :
    {A : Type 0} (cr2 pa : ℕ) (s : Space A)
    → s.pd (get_pd_index cr2) ≢ bad_pte
    → s.pt (get_page_table (s.pd (get_pd_index cr2))) (get_pt_index cr2) ≡ make_pte pa 0 1 1 0
    → pa < 2 ^ 32
    → ((handle_zfod cr2 s).0 ≡ true)
      × (get_page_base
            ((handle_zfod cr2 s).1.pt (get_page_table (s.pd (get_pd_index cr2))) (get_pt_index cr2))
          ≡ pa / 4096 * 4096)
handle_zfod-page cr2 pa s pde entry small =
    let t = get_page_table (s.pd (get_pd_index cr2)) in
    let i = get_pt_index cr2 in
    let (some_page, waits, word, page) = make_pte-waits pa small in
    let mapped =
      handle_zfod-maps cr2 s pde (λ z. some_page (sym entry ∙ z))
        (ap (λ (e : ℕ). e &&& (1 << pte_p_shift)) entry ∙ waits) in
    (
      ap (λ r. r.0) mapped,
      ap (λ r. get_page_base (r.1.pt t i)) mapped
          ∙ ap get_page_base (
              write_entry-at t i (s.pt t i ||| (1 << pte_p_shift)) s
              ∙ ap (λ (e : ℕ). e ||| (1 << pte_p_shift)) entry)
          ∙ page-present (make_pte pa 0 1 1 0) word waits
          ∙ page,
    )
