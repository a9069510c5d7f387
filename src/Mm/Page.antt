-- ===== src/Mm/Page.antt =====
-- kern/mm.c: the bitmap of pages, page numbers against addresses, and the bin of a size.
use pebpeb_os.Base.{
  ℕ, zero, suc, ◌+◌, ◌-◌, ◌*◌, ◌/◌, ◌%◌, ◌^◌, ◌≤◌, ◌<◌, ◌≡◌, ◌≢◌, ◌⊎◌, inl, inr, Bool-cases, refl,
  ap, sym, ◌∙◌, ◌||◌, ◌&&◌, not, arith, ◌==◌, leb, if◌then◌else◌,
}
use native.Mathlib.Nat.{
  pow-suc, div-add-mod, mod-lt, pow-le-pow_right, div-div-eq-div-mul, mul_comm,
}
use pebpeb_os.Base.Bits.{
  ◌<<◌, ◌|||◌, ◌&&&◌, two_pow-pos, bit_or_low_digit, bit_and_low_digit, bit_or-zero,
}
use pebpeb_os.Paging.Entry.{one_bit}
use pebpeb_os.Mm.{
  Mm, is_page_inuse, set_page_inuse, set_page_free, pn_to_pa, pa_to_pn, find_bin, top_bit,
}

-- A number of at most one bit above `p`, by its quotient `q` by `p`.
high_bit :
    (p n q r : ℕ)
    → p * q + r ≡ n
    → r < p
    → n < p * 2
    → ((q % 2 * p ≡ 0) → n < p) × ((q % 2 * p ≢ 0) → p ≤ n)
high_bit p n zero r e h b = (λ _. ground arith, λ c. absurd (c (omega arith)))
high_bit p n (suc zero) r e h b = (λ c. ground arith, λ c. ground arith)
high_bit p n (suc (suc q)) r e h b =
    let big : p * 2 ≤ p * suc (suc q) = le_mul p q in absurd (omega arith)
  where
    le_mul : (p q : ℕ) → p * 2 ≤ p * suc (suc q)
    le_mul p q = ground arith

-- The loop finds the highest bit of a size that has no bit above the loop's.
top_bit-bounds :
    (i size : ℕ)
    → size < 2 ^ suc i
    → (top_bit i size ≤ i)
      × (size < 2 ^ suc (top_bit i size))
      × ((top_bit i size ≡ 0) ⊎ (2 ^ top_bit i size ≤ size))
unfolding top_bit
top_bit-bounds zero size h = (omega arith, h, inl refl)
top_bit-bounds (suc i) size h =
    let bit = one_bit (suc i) size in
    let p = 2 ^ suc i in
    let split = div-add-mod size p in
    let (low, high) =
      high_bit p size (size / p) (size % p) split (mod-lt size (two_pow-pos (suc i)))
        (rw pow-suc at h) in
    elim (Bool-cases ((size &&& (1 << suc i)) == 0)) [
      | inl e ↦
          let digit : size / 2 ^ suc i % 2 * 2 ^ suc i ≡ 0 = ground (arith, bit) in
          let clear : size < 2 ^ suc i = low digit in
          let ih = top_bit-bounds i size clear in rw e (ground (arith, ih))
      | inr e ↦ rw e (omega arith, h, inr (high (ground (arith, bit))))
    ]

-- A chunk of `size` pages is in the bin of the size's highest bit, or in the last one.
pub find_bin-bounds :
    (size : ℕ)
    → (find_bin size ≤ 8)
      × ((find_bin size ≡ 8) ⊎ (size < 2 ^ suc (find_bin size)))
      × ((find_bin size ≡ 0) ⊎ (2 ^ find_bin size ≤ size))
unfolding find_bin
find_bin-bounds size = elim (Bool-cases (leb 256 size)) [
  | inl e ↦ rw e (omega arith, inl refl, inr (ground arith))
  | inr e ↦
      let (a, b, c) = top_bit-bounds 7 size (ground arith) in rw e (omega (arith, a), inr b, c)
]

-- A smaller size is in no higher bin.
pub find_bin_monotone : (m n : ℕ) → m ≤ n → find_bin m ≤ find_bin n
find_bin_monotone m n h =
    let (a, b, c) = find_bin-bounds m in
    let (a', b', c') = find_bin-bounds n in
    elim (Bool-cases (leb (find_bin m) (find_bin n))) [
      | inl e ↦ ground arith
      | inr e ↦
          let pow : 2 ^ suc (find_bin n) ≤ 2 ^ find_bin m =
            pow-le-pow_right (omega arith) (ground arith) in
          ground (arith, a, a', b, b', c, c')
    ]

doubled : (j : ℕ) → 2 ^ suc j ≡ 2 * 2 ^ j
doubled j = rw pow-suc (mul_comm (2 ^ j) 2)

higher_digit : (j b : ℕ) → b / 2 ^ suc j % 2 ≡ b / 2 / 2 ^ j % 2
higher_digit j b =
    ap (λ (t : ℕ). b / t % 2) (doubled j)
    ∙ ap (λ (t : ℕ). t % 2) (sym (div-div-eq-div-mul b 2 (2 ^ j)))

-- The digits above the lowest one.
half-bit_or : (x y : ℕ) → (x ||| y) / 2 ≡ (x / 2 ||| y / 2)
half-bit_or x y = omega (arith, bit_or_low_digit x y)

half-bit_and : (x y : ℕ) → (x &&& y) / 2 ≡ (x / 2 &&& y / 2)
half-bit_and x y = omega (arith, bit_and_low_digit x y)

or_higher : (j x y z : ℕ) → y / 2 ≡ z → (x ||| y) / 2 ^ suc j % 2 ≡ (x / 2 ||| z) / 2 ^ j % 2
or_higher j x y z e =
    higher_digit j (x ||| y)
    ∙ ap (λ (t : ℕ). t / 2 ^ j % 2) (half-bit_or x y ∙ ap (λ (t : ℕ). x / 2 ||| t) e)

and_higher : (j x y z : ℕ) → y / 2 ≡ z → (x &&& y) / 2 ^ suc j % 2 ≡ (x / 2 &&& z) / 2 ^ j % 2
and_higher j x y z e =
    higher_digit j (x &&& y)
    ∙ ap (λ (t : ℕ). t / 2 ^ j % 2) (half-bit_and x y ∙ ap (λ (t : ℕ). x / 2 &&& t) e)

-- A digit of a word after a bit is set.
set-digit : (j k b : ℕ) → ((b ||| (1 << k)) / 2 ^ j % 2) ≡ (if j == k then 1 else b / 2 ^ j % 2)
set-digit zero zero b = ground (arith, bit_or_low_digit b 1)
set-digit zero (suc k) b = rw pow-suc (ground (arith, bit_or_low_digit b (2 ^ k * 2)))
set-digit (suc j) zero b =
    or_higher j b 1 0 (omega arith)
    ∙ ap (λ (t : ℕ). t / 2 ^ j % 2) (bit_or-zero (b / 2))
    ∙ sym (higher_digit j b)
    ∙ (ground arith)
set-digit (suc j) (suc k) b =
    or_higher j b (1 << suc k) (1 << k) (rw pow-suc (omega arith))
    ∙ set-digit j k (b / 2)
    ∙ (ground (arith, higher_digit j b))

-- A digit of a word after a mask of `w` ones, and of those without one.
ones-digit : (w j b : ℕ) → j < w → (b &&& (2 ^ w - 1)) / 2 ^ j % 2 ≡ b / 2 ^ j % 2
ones-digit zero j b h = absurd (omega arith)
ones-digit (suc w) zero b h =
    rw pow-suc (omega (arith, two_pow-pos w, bit_and_low_digit b (2 ^ w * 2 - 1)))
ones-digit (suc w) (suc j) b h =
    and_higher j b (2 ^ suc w - 1) (2 ^ w - 1) (rw pow-suc (omega (arith, two_pow-pos w)))
    ∙ ones-digit w j (b / 2) (omega arith)
    ∙ sym (higher_digit j b)

clear-digit :
    (w j k b : ℕ)
    → j < w
    → k < w
    → ((b &&& (2 ^ w - 1 - (1 << k))) / 2 ^ j % 2) ≡ (if j == k then 0 else b / 2 ^ j % 2)
clear-digit zero j k b hj hk = absurd (omega arith)
clear-digit (suc w) zero zero b hj hk =
    rw pow-suc (ground (arith, two_pow-pos w, bit_and_low_digit b (2 ^ w * 2 - 1 - 1)))
clear-digit (suc w) zero (suc k) b hj hk =
    let small = pow-le-pow_right {n = 2} (omega arith) {i = suc k} {j = w} (omega arith) in
    let small' : 2 ^ k * 2 ≤ 2 ^ w = rw pow-suc at small in
    rw (pow-suc, pow-suc)
      (ground (arith, small', two_pow-pos w, bit_and_low_digit b (2 ^ w * 2 - 1 - 1 * (2 ^ k * 2))))
clear-digit (suc w) (suc j) zero b hj hk =
    and_higher j b (2 ^ suc w - 1 - 1) (2 ^ w - 1) (rw pow-suc (omega (arith, two_pow-pos w)))
    ∙ ones-digit w j (b / 2) (omega arith)
    ∙ sym (higher_digit j b)
    ∙ (ground arith)
clear-digit (suc w) (suc j) (suc k) b hj hk =
    and_higher j b (2 ^ suc w - 1 - (1 << suc k)) (2 ^ w - 1 - (1 << k))
      (rw (pow-suc, pow-suc) (omega arith))
    ∙ clear-digit w j k (b / 2) (omega arith) (omega arith)
    ∙ (ground (arith, higher_digit j b))

-- A bit of the map after a page is marked.
inuse-digit :
    (t : ℕ) (m : Mm) → is_page_inuse t m ≡ (m.user_page_bitmap (t / 8) / 2 ^ (t % 8) % 2 == 1)
unfolding is_page_inuse
inuse-digit t m = ground (arith, one_bit (t % 8) (m.user_page_bitmap (t / 8)), two_pow-pos (t % 8))

pub is_page_inuse-set_page_inuse :
    (t s : ℕ) (m : Mm) → is_page_inuse t (set_page_inuse s m) ≡ ((t == s) || is_page_inuse t m)
unfolding set_page_inuse
is_page_inuse-set_page_inuse t s m =
    rw (inuse-digit, inuse-digit)
      (ground (arith, set-digit (t % 8) (s % 8) (m.user_page_bitmap (s / 8))))

pub is_page_inuse-set_page_free :
    (t s : ℕ) (m : Mm) → is_page_inuse t (set_page_free s m) ≡ (not (t == s) && is_page_inuse t m)
unfolding set_page_free
is_page_inuse-set_page_free t s m =
    rw (inuse-digit, inuse-digit)
      (ground (
        arith,
        clear-digit 32 (t % 8) (s % 8) (m.user_page_bitmap (s / 8)) (omega arith) (omega arith),
      ))

-- Below 4 GB an address tells the page.
pub pn_to_pa-sum : (s : ℕ) → s + 4095 < 2 ^ 20 → pn_to_pa s ≡ (s + 4095) * 4096
unfolding pn_to_pa
pn_to_pa-sum s h = omega arith

pub pa_to_pn-pn_to_pa : (s : ℕ) → 0 < s → s + 4095 < 2 ^ 20 → pa_to_pn (pn_to_pa s) ≡ s
unfolding pa_to_pn
pa_to_pn-pn_to_pa s p h = omega (arith, pn_to_pa-sum s h)
