-- ===== src/Paging/Entry.antt =====
-- What the fields of a page table entry are, in numbers.
use pebpeb_os.Base.{ℕ, ◌+◌, ◌-◌, ◌*◌, ◌/◌, ◌%◌, ◌^◌, ◌<◌, ◌≡◌, ap, ◌∙◌, arith}
use pebpeb_os.Base.Bits.{◌|||◌, ◌&&&◌, ◌<<◌, bit_and-low, bit_and-shift, bit_or-disjoint}
use pebpeb_os.Paging.{
  page_base_mask, page_offset_mask, make_pte, make_pde, get_page_base, get_page_table, get_pd_index,
  get_pt_index,
}

-- `x &&& ~0xfff` clears the offset in a page.
pub base-mask : (a : ℕ) → a < 2 ^ 32 → (a &&& page_base_mask) ≡ a / 4096 * 4096
base-mask a h =
    bit_and-shift 12 a (2 ^ 20 - 1)
    ∙ ap (λ (t : ℕ). t * 4096) (bit_and-low 20 (a / 4096) ∙ (omega arith))

-- `x &&& 0xfff` is the offset in a page.
pub offset-mask : (a : ℕ) → (a &&& page_offset_mask) ≡ a % 4096
offset-mask a = bit_and-low 12 a

-- A single bit of a word.
pub one_bit : (k a : ℕ) → (a &&& (1 << k)) ≡ a / 2 ^ k % 2 * 2 ^ k
one_bit k a = bit_and-shift k a 1 ∙ ap (λ (t : ℕ). t * 2 ^ k) (bit_and-low 1 (a / 2 ^ k))

module _ {us rw' p : ℕ} (u : us < 2) (w : rw' < 2) (q : p < 2) where
  -- The flags under a page address that is a multiple of 8.
  flags-sum :
      (n : ℕ) → (n * 2 ^ 3 ||| (us << 2) ||| (rw' << 1) ||| (p << 0)) ≡ n * 8 + us * 4 + rw' * 2 + p
  flags-sum n =
      ap (λ (t : ℕ). t ||| (rw' << 1) ||| (p << 0)) (bit_or-disjoint 3 n (us << 2) (omega arith))
      ∙ ap (λ (t : ℕ). t ||| (rw' << 1) ||| (p << 0)) first
      ∙ ap (λ (t : ℕ). t ||| (p << 0)) (bit_or-disjoint 2 (n * 2 + us) (rw' << 1) (omega arith))
      ∙ ap (λ (t : ℕ). t ||| (p << 0)) second
      ∙ bit_or-disjoint 1 (n * 4 + us * 2 + rw') (p << 0) (omega arith)
      ∙ (omega arith)
    where
      first : n * 2 ^ 3 + (us << 2) ≡ (n * 2 + us) * 2 ^ 2
      first = omega arith

      second : (n * 2 + us) * 2 ^ 2 + (rw' << 1) ≡ (n * 4 + us * 2 + rw') * 2 ^ 1
      second = omega arith

  pub make_pde-sum :
      (base : ℕ)
      → base < 2 ^ 32
      → make_pde base us rw' p ≡ base / 4096 * 4096 + us * 4 + rw' * 2 + p
  unfolding make_pde
  make_pde-sum base h =
      ap (λ (t : ℕ). t ||| (us << 2) ||| (rw' << 1) ||| (p << 0)) (base-mask base h ∙ (omega arith))
      ∙ flags-sum (base / 4096 * 512)
      ∙ (omega arith)

  pub make_pte-sum :
      (base g : ℕ)
      → base < 2 ^ 32
      → g < 2
      → make_pte base g us rw' p ≡ base / 4096 * 4096 + g * 256 + us * 4 + rw' * 2 + p
  unfolding make_pte
  make_pte-sum base g h k =
      ap (λ (t : ℕ). t ||| (g << 8) ||| (us << 2) ||| (rw' << 1) ||| (p << 0)) (base-mask base h)
      ∙ ap (λ (t : ℕ). t ||| (us << 2) ||| (rw' << 1) ||| (p << 0))
          (bit_or-disjoint 12 (base / 4096) (g << 8) (omega arith) ∙ (omega arith))
      ∙ flags-sum (base / 4096 * 512 + g * 32)
      ∙ (omega arith)

-- A page table entry that `make_pte` builds gives back the page, the G bit and the three flags.
make_pte_fields :
    (base g us rw' p : ℕ)
    → base < 2 ^ 32
    → g < 2
    → us < 2
    → rw' < 2
    → p < 2
    → (get_page_base (make_pte base g us rw' p) ≡ base / 4096 * 4096)
      × ((make_pte base g us rw' p &&& (1 << 8)) ≡ g << 8)
      × ((make_pte base g us rw' p &&& (1 << 2)) ≡ us << 2)
      × ((make_pte base g us rw' p &&& (1 << 1)) ≡ rw' << 1)
      × ((make_pte base g us rw' p &&& (1 << 0)) ≡ p << 0)
unfolding get_page_base
make_pte_fields base g us rw' p h k u w q =
    let word = make_pte base g us rw' p in
    let sum : word ≡ base / 4096 * 4096 + g * 256 + us * 4 + rw' * 2 + p =
      make_pte-sum u w q base g h k in
    let small : word < 2 ^ 32 = omega arith in
    (
      base-mask word small ∙ (omega arith),
      one_bit 8 word ∙ (omega arith),
      one_bit 2 word ∙ (omega arith),
      one_bit 1 word ∙ (omega arith),
      one_bit 0 word ∙ (omega arith),
    )

-- A page directory entry that `make_pde` builds leads back to its page table.
pub get_page_table-make_pde :
    (base us rw' p : ℕ)
    → base < 2 ^ 32
    → us < 2
    → rw' < 2
    → p < 2
    → get_page_table (make_pde base us rw' p) ≡ base / 4096 * 4096
unfolding get_page_table
get_page_table-make_pde base us rw' p h u w q =
    let word = make_pde base us rw' p in
    let sum : word ≡ base / 4096 * 4096 + us * 4 + rw' * 2 + p = make_pde-sum u w q base h in
    base-mask word (omega arith) ∙ (omega arith)

-- The two indices and the offset determine a virtual address, and the indices are in their tables.
index_split :
    (va : ℕ)
    → va < 2 ^ 32
    → (va ≡ get_pd_index va * 2 ^ 22 + get_pt_index va * 2 ^ 12 + (va &&& page_offset_mask))
      × (get_pd_index va < 1024)
      × (get_pt_index va < 1024)
unfolding get_pd_index get_pt_index
index_split va h = omega (arith, offset-mask va)
