-- ===== src/Mm/Blocks.antt =====
-- kern/mm.c: the division of memory into blocks that the allocator keeps, each free or in use, in
-- the order of addresses, and which chunks they put in a bin.
use pebpeb_os.Base.{
  ℕ, ◌+◌, ◌*◌, ◌^◌, ◌≤◌, ◌<◌, ◌≡◌, ◌≢◌, refl, ap, Bool, Bool-cases, inl, inr, true, false, not,
  ◌&&◌, ◌||◌, List, [], ◌∷◌, ◌++◌, arith, ◌==◌, if◌then◌else◌,
}
use pebpeb_os.Mm.{find_bin, pn_to_pa}
use pebpeb_os.Mm.Page.{pn_to_pa-sum}

pub record Block : Type 0 where
  pub size : ℕ
  pub used : Bool

abbrev pub total : List Block → ℕ
total [] = 0
total (b ∷ bs) = b.size + total bs

abbrev pub Positive : List Block → Type 0
Positive [] = Unit
Positive (b ∷ bs) = (0 < b.size) × Positive bs

-- A free block of the bin `i`.
abbrev pub of_bin : (i : ℕ) → Block → Bool
of_bin i b = not b.used && (find_bin b.size == i)

-- Is `p` the address of a free block of the bin, where the first block is at slot `s`?
abbrev pub found : (p i s : ℕ) → List Block → Bool
found p i s [] = false
found p i s (b ∷ bs) = (of_bin i b && (p == pn_to_pa s)) || found p i (s + b.size) bs

abbrev pub count : (i : ℕ) → List Block → ℕ
count i [] = 0
count i (b ∷ bs) = (if of_bin i b then 1 else 0) + count i bs

pub total-append : (us bs : List Block) → total (us ++ bs) ≡ total us + total bs
total-append [] bs = omega arith
total-append (a ∷ us) bs = omega (arith, total-append us bs)

pub count-append : (i : ℕ) (us bs : List Block) → count i (us ++ bs) ≡ count i us + count i bs
count-append i [] bs = omega arith
count-append i (a ∷ us) bs = omega (arith, count-append i us bs)

pub Positive-append : (us bs : List Block) → Positive (us ++ bs) → Positive us × Positive bs
Positive-append [] bs h = (tt, h)
Positive-append (a ∷ us) bs h = let (x, y) = Positive-append us bs h.1 in ((h.0, x), y)

pub append-Positive : (us bs : List Block) → Positive us → Positive bs → Positive (us ++ bs)
append-Positive [] bs hu hb = hb
append-Positive (u ∷ us) bs hu hb = (hu.0, append-Positive us bs hu.1 hb)

pub found-append :
    (p i s : ℕ) (us bs : List Block)
    → found p i s (us ++ bs) ≡ (found p i s us || found p i (s + total us) bs)
found-append p i s [] bs = ap (λ t. found p i t bs) (omega arith)
found-append p i s (a ∷ us) bs =
    let shift : s + a.size + total us ≡ s + (a.size + total us) = omega arith in
    ground (arith, found-append p i (s + a.size) us bs, ap (λ t. found p i t bs) shift)

-- Every block takes at least one page.
pub count_le : (i : ℕ) (bs : List Block) → Positive bs → count i bs ≤ total bs
count_le i [] h = omega arith
count_le i (b ∷ bs) h = ground (arith, count_le i bs h.1)

-- A chunk's address is in the pages of its blocks.
pub found-bounds :
    (p i s : ℕ) (bs : List Block)
    → Positive bs
    → s + total bs + 4095 ≤ 2 ^ 20
    → found p i s bs ≡ true
    → ((s + 4095) * 4096 ≤ p) × (p < (s + total bs + 4095) * 4096)
found-bounds p i s [] h b f = ground arith
found-bounds p i s (a ∷ bs) h b f =
    let ih = found-bounds p i (s + a.size) bs h.1 (omega arith) in
    elim (Bool-cases (found p i (s + a.size) bs)) [
      | inl e ↦ ground (arith, ih e)
      | inr e ↦ ground (arith, pn_to_pa-sum s (omega (arith, h.0)))
    ]

-- A chunk is in one bin only.
pub found-apart :
    (p i j s : ℕ) (bs : List Block)
    → Positive bs
    → s + total bs + 4095 ≤ 2 ^ 20
    → i ≢ j
    → found p i s bs ≡ true
    → found p j s bs ≡ false
found-apart p i j s [] h b ne f = refl
found-apart p i j s (a ∷ bs) h b ne f =
    let ih = found-apart p i j (s + a.size) bs h.1 (omega arith) ne in
    let bound = λ (k : ℕ). found-bounds p k (s + a.size) bs h.1 (omega arith) in
    let here = pn_to_pa-sum s (omega (arith, h.0)) in
    elim (Bool-cases (found p j (s + a.size) bs)) [
      | inl e ↦ elim (Bool-cases (found p i (s + a.size) bs)) [
        | inl e' ↦ ground (arith, ih e', here, bound i e')
        | inr e' ↦ ground (arith, here, bound j e)
      ]
      | inr e ↦ elim (Bool-cases (found p i (s + a.size) bs)) [
        | inl e' ↦ ground (arith, here, bound i e')
        | inr e' ↦ ground (arith, here)
      ]
    ]

abbrev pub free_block : ℕ → Block
free_block n = record { size = n; used = false }

abbrev pub used_block : ℕ → Block
used_block n = record { size = n; used = true }

with_used : ℕ → Bool → Block
with_used n u = record { size = n; used = u }

pub free_eta : (b : Block) → b.used ≡ false → b ≡ free_block b.size
unfolding with_used
free_eta b free = ap (with_used b.size) free

-- One block among others, free or in use.
module _ (i s : ℕ) (us : List Block) (n : ℕ) (vs : List Block) where
  pub found-free_block :
      (p : ℕ)
      → found p i s (us ++ free_block n ∷ vs) ≡ (
          found p i s (us ++ used_block n ∷ vs)
          || ((find_bin n == i) && (p == pn_to_pa (s + total us))))
  found-free_block p =
      ground (
        arith,
        found-append p i s us (free_block n ∷ vs),
        found-append p i s us (used_block n ∷ vs),
      )

  pub count-free_block :
      count i (us ++ free_block n ∷ vs)
      ≡ count i (us ++ used_block n ∷ vs) + (if find_bin n == i then 1 else 0)
  count-free_block =
      ground (arith, count-append i us (free_block n ∷ vs), count-append i us (used_block n ∷ vs))

  pub found-used_block :
      Positive us
      → Positive vs
      → 0 < n
      → s + total us + n + total vs + 4095 ≤ 2 ^ 20
      → found (pn_to_pa (s + total us)) i s (us ++ used_block n ∷ vs) ≡ false
  found-used_block hu hv hn b =
      let p = pn_to_pa (s + total us) in
      let sum : p ≡ (s + total us + 4095) * 4096 = pn_to_pa-sum (s + total us) (omega arith) in
      let below = found-bounds p i s us hu (omega arith) in
      let above = found-bounds p i (s + total us + n) vs hv (omega arith) in
      ground (arith, sum, below, above, found-append p i s us (used_block n ∷ vs))
