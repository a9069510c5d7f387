-- ===== src/Pv/Shadow/Confine.antt =====
-- Where the shadow tables lead: the host pages that a guest can reach.
use pebpeb_os.Base.{ℕ, ◌+◌, ◌*◌, ◌/◌, ◌%◌, ◌^◌, ◌≤◌, ◌<◌, ◌≡◌, ◌⊎◌, ◌∙◌, arith}
use pebpeb_os.Base.Bits.{◌&&&◌, ◌<<◌}
use pebpeb_os.Paging.{bad_pte, get_page_base}
use pebpeb_os.Paging.Entry.{base-mask}
use pebpeb_os.Pv.Shadow.{
  Guest, mem_limit, host_page, kernel_mask, user_mask, shadow_word, Entries, translate_pte,
  shadow_entry,
}
use pebpeb_os.Pv.Shadow.Word.{IsPlaced, shadow_word-sum, rw_cases, user_mask-sum, kernel_mask-sum}

module _ (g : Guest) where
  pub host_page-lt : (pa : ℕ) → host_page g pa < 2 ^ 32
  unfolding host_page
  host_page-lt pa = ground arith

  host_page-inside : (pa : ℕ) → IsPlaced g → pa < mem_limit g → host_page g pa ≡ g.mem_base + pa
  unfolding host_page
  host_page-inside pa placed h = ground arith

  -- The page that an entry leads to is the host page, whatever the masks are.
  page-shadow_word :
      (pa old_pte mask : ℕ)
      → pa < 2 ^ 32
      → mask < 8
      → get_page_base (shadow_word pa old_pte mask) ≡ pa / 4096 * 4096
  unfolding get_page_base
  page-shadow_word pa old_pte mask h k =
      let sum = shadow_word-sum pa old_pte mask h k in
      base-mask (shadow_word pa old_pte mask) (omega (arith, sum)) ∙ (omega (arith, sum))

  pub kernel_mask-lt : (a : ℕ) → kernel_mask g (a &&& (1 << 1)) < 8
  kernel_mask-lt a = omega (arith, kernel_mask-sum g a, rw_cases a)

  pub user_mask-lt : (a : ℕ) → user_mask (a &&& (1 << 1)) < 8
  user_mask-lt a = omega (arith, user_mask-sum a, rw_cases a)

  module _ (shown old_pte : ℕ) (present : (old_pte &&& (1 << 0)) ≡ 1) where
    page-kernel :
        get_page_base (shadow_entry g shown old_pte).kernel
        ≡ host_page g (get_page_base old_pte) / 4096 * 4096
    unfolding shadow_entry
    page-kernel = ground (
      arith,
      page-shadow_word (host_page g (get_page_base old_pte)) old_pte
          (kernel_mask g (old_pte &&& (1 << 1))) (host_page-lt (get_page_base old_pte))
          (kernel_mask-lt old_pte),
    )

    page-user :
        ((shadow_entry g shown old_pte).user ≡ bad_pte)
        ⊎ (get_page_base (shadow_entry g shown old_pte).user
            ≡ host_page g (get_page_base old_pte) / 4096 * 4096)
    unfolding shadow_entry
    page-user = ground (
      arith,
      user_mask-sum old_pte,
      page-shadow_word (host_page g (get_page_base old_pte)) old_pte
          (user_mask (old_pte &&& (1 << 1))) (host_page-lt (get_page_base old_pte))
          (user_mask-lt old_pte),
    )

-- The host page `b` lies whole in the guest's memory.
abbrev pub Inside : Guest → ℕ → Type 0
Inside g b = (g.mem_base ≤ b) × (b + 4096 ≤ g.mem_base + g.n_pages * 4096)

-- The pages that both shadow entries of a guest's entry lead to.
abbrev pub LeadsTo : Entries → ℕ → Type 0
LeadsTo e b = (get_page_base e.kernel ≡ b) × ((e.user ≡ bad_pte) ⊎ (get_page_base e.user ≡ b))

module _ (g : Guest) (placed : IsPlaced g) (old_pde old_pte : ℕ) (word : old_pte < 2 ^ 32) where
  leads :
      (present : (old_pte &&& (1 << 0)) ≡ 1)
      → LeadsTo
          (translate_pte g old_pde old_pte)
          (host_page g (get_page_base old_pte) / 4096 * 4096)
  unfolding translate_pte
  leads present = (
    page-kernel g ((old_pte &&& (1 << 2)) &&& (old_pde &&& (1 << 2))) old_pte present,
    page-user g ((old_pte &&& (1 << 2)) &&& (old_pde &&& (1 << 2))) old_pte present,
  )

  aligned_base : get_page_base old_pte % 4096 ≡ 0
  unfolding get_page_base
  aligned_base = omega (arith, base-mask old_pte word)

  -- A present entry whose page lies below the guest's memory limit leads, in both shadow tables
  -- that `translate_pv_pd` builds, to the page of the guest's own memory at that offset, and that
  -- page lies whole in the guest's memory.
  pub translate_pte-Inside :
      (old_pte &&& (1 << 0)) ≡ 1
      → get_page_base old_pte < mem_limit g
      → LeadsTo (translate_pte g old_pde old_pte) (g.mem_base + get_page_base old_pte)
        × Inside g (g.mem_base + get_page_base old_pte)
  translate_pte-Inside present below =
      let page : host_page g (get_page_base old_pte) / 4096 * 4096
          ≡ g.mem_base + get_page_base old_pte =
        omega (arith, host_page-inside g (get_page_base old_pte) placed below, aligned_base) in
      (rw page at (leads present), (omega arith, omega (arith, aligned_base)))

  -- A present entry whose page lies above the limit leads to the page behind the machine's memory.
  pub translate_pte-overflow :
      (old_pte &&& (1 << 0)) ≡ 1
      → mem_limit g < get_page_base old_pte
      → LeadsTo (translate_pte g old_pde old_pte) (g.phys_frames * 4096)
  unfolding host_page
  translate_pte-overflow present above =
      let page : host_page g (get_page_base old_pte) / 4096 * 4096 ≡ g.phys_frames * 4096 =
        ground arith in
      rw page at (leads present)

  -- A present entry whose page lies exactly at the limit escapes: it leads to the host page right
  -- behind the guest's memory, which is not the guest's.
  pub translate_pte-escape :
      (old_pte &&& (1 << 0)) ≡ 1
      → get_page_base old_pte ≡ mem_limit g
      → LeadsTo (translate_pte g old_pde old_pte) (g.mem_base + g.n_pages * 4096)
        × ¬ (Inside g (g.mem_base + g.n_pages * 4096))
  unfolding host_page
  translate_pte-escape present at_limit =
      let page : host_page g (get_page_base old_pte) / 4096 * 4096 ≡ g.mem_base + g.n_pages * 4096 =
        ground arith in
      (rw page at (leads present), λ inside. omega arith)
