-- ===== src/Pv/Shadow/Word.antt =====
-- The words that the translation writes, in numbers.
use pebpeb_os.Base.{ℕ, ◌+◌, ◌*◌, ◌/◌, ◌%◌, ◌^◌, ◌<◌, ◌≡◌, ◌≢◌, ◌⊎◌, inl, inr, ap, ◌∙◌, arith}
use pebpeb_os.Base.Bits.{◌|||◌, ◌&&&◌, ◌<<◌, bit_and-low, bit_and-shift, bit_or-disjoint}
use pebpeb_os.Paging.Entry.{base-mask, one_bit}
use pebpeb_os.Pv.Shadow.{Guest, kernel_mask, user_mask, shadow_word, pte_resv_mask}

-- The guest's memory is whole pages of the host's address space, and so is the overflow page.
pub record IsPlaced (g : Guest) : Type 0 where
  pub aligned : g.mem_base % 4096 ≡ 0
  pub fits : g.mem_base + g.n_pages * 4096 < 2 ^ 32
  pub frames : g.phys_frames * 4096 < 2 ^ 32

pub resv-mask : (a : ℕ) → (a &&& pte_resv_mask) ≡ a / 512 % 8 * 512
resv-mask a = bit_and-shift 9 a 7 ∙ ap (λ (t : ℕ). t * 512) (bit_and-low 3 (a / 512))

pub shadow_word-sum :
    (pa old_pte mask : ℕ)
    → pa < 2 ^ 32
    → mask < 8
    → shadow_word pa old_pte mask ≡ pa / 4096 * 4096 + old_pte / 512 % 8 * 512 + mask
unfolding shadow_word
shadow_word-sum pa old_pte mask h k =
    ap (λ (t : ℕ). t ||| (old_pte &&& pte_resv_mask) ||| mask) (base-mask pa h)
    ∙ ap (λ (t : ℕ). pa / 4096 * 4096 ||| t ||| mask) (resv-mask old_pte)
    ∙ ap (λ (t : ℕ). t ||| mask)
        (bit_or-disjoint 12 (pa / 4096) (old_pte / 512 % 8 * 512) (omega arith) ∙ (omega arith))
    ∙ bit_or-disjoint 9 (pa / 4096 * 8 + old_pte / 512 % 8) mask (omega arith)
    ∙ (omega arith)

-- A single bit is clear or set.
bit_cases : (k a : ℕ) → ((a &&& (1 << k)) ≡ 0) ⊎ ((a &&& (1 << k)) ≡ 1 << k)
bit_cases k a = elim (parity (a / 2 ^ k)) [
  | inl e ↦ inl (one_bit k a ∙ ap (λ (t : ℕ). t * 2 ^ k) e ∙ (omega arith))
  | inr e ↦ inr (one_bit k a ∙ ap (λ (t : ℕ). t * 2 ^ k) e)
]
  where
    parity : (n : ℕ) → (n % 2 ≡ 0) ⊎ (n % 2 ≡ 1)
    parity n = omega arith

pub present_cases : (a : ℕ) → ((a &&& (1 << 0)) ≡ 0) ⊎ ((a &&& (1 << 0)) ≡ 1)
present_cases a = bit_cases 0 a

pub rw_cases : (a : ℕ) → ((a &&& (1 << 1)) ≡ 0) ⊎ ((a &&& (1 << 1)) ≡ 2)
rw_cases a = bit_cases 1 a

pub us_cases : (a : ℕ) → ((a &&& (1 << 2)) ≡ 0) ⊎ ((a &&& (1 << 2)) ≡ 4)
us_cases a = bit_cases 2 a

-- The user mask holds the P and US bits and the guest's RW bit.
pub user_mask-sum : (a : ℕ) → user_mask (a &&& (1 << 1)) ≡ 5 + (a &&& (1 << 1))
unfolding user_mask
user_mask-sum a = elim (rw_cases a) [
  | inl e ↦ ap (λ (t : ℕ). 1 ||| t ||| 4) e ∙ ap (λ (t : ℕ). 5 + t) (sym' e)
  | inr e ↦ ap (λ (t : ℕ). 1 ||| t ||| 4) e ∙ ap (λ (t : ℕ). 5 + t) (sym' e)
]
  where
    sym' : {x y : ℕ} → x ≡ y → y ≡ x
    sym' p = omega arith

-- The kernel mask adds the RW bit where the guest's WP bit is off.
pub kernel_mask-sum :
    (g : Guest) (a : ℕ)
    → ((g.wp ≡ 0) × (kernel_mask g (a &&& (1 << 1)) ≡ 7))
      ⊎ ((g.wp ≢ 0) × (kernel_mask g (a &&& (1 << 1)) ≡ 5 + (a &&& (1 << 1))))
unfolding kernel_mask user_mask
kernel_mask-sum g a = ground (arith, user_mask-sum a)
