-- ===== src/Mm/Alloc.antt =====
-- kern/mm.c: alloc_user_pages against the blocks of memory.
use pebpeb_os.Base.{
  ℕ, zero, suc, ◌+◌, ◌-◌, ◌^◌, ◌≤◌, ◌<◌, ◌≡◌, ◌⊎◌, refl, ap, ◌∙◌, sym, Bool, Bool-cases, inl, inr,
  false, not, ◌&&◌, ◌||◌, List, [], ◌∷◌, ◌++◌, length, Option, some, arith, ◌==◌, ltb, leb,
  if◌then◌else◌,
}
use mathlib.Core.Path.{subst}
use pebpeb_os.Queue.Chain.{among, IsQueue}
use pebpeb_os.Mm.{
  Mm, pn_to_pa, find_bin, bin_delete, add_to_bins, mark_used, claim_chunk, alloc_from_bin,
  alloc_bins, alloc_user_pages,
}
use pebpeb_os.Mm.Page.{pn_to_pa-sum, pa_to_pn-pn_to_pa, find_bin-bounds, find_bin_monotone}
use pebpeb_os.Mm.Blocks.{Block, total, total-append, found, count, count_le, free_block, used_block}
use pebpeb_os.Mm.Tiles.{IsHeap, Tiles-Positive, Tiles-split}
use pebpeb_os.Mm.Take.{take_whole, take_part}
use pebpeb_os.Mm.Search.{taken, search_bin-Chain, fits, fits-head_size, found-split}

-- `n` pages of a free block of `k`, what is left of it, and the blocks behind.
abbrev pub cut : (n k : ℕ) → List Block → List Block
cut n k vs = used_block n ∷ (if ltb n k then free_block (k - n) ∷ vs else vs)

-- The result is the address of the first pages of a free block, which are then in use.
abbrev pub Allocated : (n : ℕ) (bs : List Block) → Option (ℕ × Mm) → Type 0
Allocated n bs result =
    (us : List Block) × (k : ℕ) × (vs : List Block) × (m' : Mm) × (bs ≡ us ++ free_block k ∷ vs)
    × (n ≤ k)
    × (result ≡ some (pn_to_pa (1 + total us), m'))
    × IsHeap m' (us ++ cut n k vs)

claim-taken :
    (m : Mm) (us : List Block) (k : ℕ) (vs : List Block) (n : ℕ)
    → IsHeap m (us ++ free_block k ∷ vs)
    → 0 < n
    → n ≤ k
    → let t = pn_to_pa (1 + total us) in
      (m' : Mm) × (claim_chunk n (t, taken (find_bin k) t n m) ≡ (t, m'))
      × IsHeap m' (us ++ cut n k vs)
unfolding claim_chunk
claim-taken m us k vs n heap pos le =
    let slot = 1 + total us in
    let t = pn_to_pa slot in
    let space : slot + k + 4095 ≤ 2 ^ 20 =
      omega (arith, heap.0, heap.1, total-append us (free_block k ∷ vs)) in
    let sum = pn_to_pa-sum slot (omega arith) in
    let real : (t == 0) ≡ false = ground (arith, sum) in
    let back = pa_to_pn-pn_to_pa slot (omega arith) (omega arith) in
    let size = (Tiles-split m 1 us (free_block k ∷ vs) heap.4).1.3.0 in
    elim (Bool-cases (ltb n k)) [
      | inl e ↦ (
        mark_used slot n (add_to_bins (slot + n) (k - n) (bin_delete (find_bin k) t m)),
        rw (real, back, size, e) refl,
        subst
            (λ b.
              IsHeap
                (mark_used slot n (add_to_bins (slot + n) (k - n) (bin_delete (find_bin k) t m)))
                (us ++ used_block n ∷ (if b then free_block (k - n) ∷ vs else vs)))
            (sym e) (take_part m us k vs heap n pos (ground arith)),
      )
      | inr e ↦
          let same : n ≡ k = ground arith in
          (
            mark_used slot n (bin_delete (find_bin k) t m),
            rw (real, back, size, e) refl,
            subst
                (λ b.
                  IsHeap (mark_used slot n (bin_delete (find_bin k) t m))
                    (us ++ used_block n ∷ (if b then free_block (k - n) ∷ vs else vs)))
                (sym e)
                (subst
                  (λ j.
                    IsHeap (mark_used slot j (bin_delete (find_bin k) t m))
                      (us ++ used_block j ∷ vs))
                  (sym same) (take_whole m us k vs heap)),
          )
    ]

chunk_claimed :
    (m : Mm) (us : List Block) (k : ℕ) (vs : List Block) (n i t : ℕ)
    → IsHeap m (us ++ free_block k ∷ vs)
    → 0 < n
    → t ≡ pn_to_pa (1 + total us)
    → find_bin k ≡ i
    → n ≤ m.head_size t
    → (m' : Mm) × (n ≤ k)
      × (claim_chunk n (t, taken i t n m) ≡ (pn_to_pa (1 + total us), m'))
      × IsHeap m' (us ++ cut n k vs)
chunk_claimed m us k vs n i t heap pos here bin large =
    let size = (Tiles-split m 1 us (free_block k ∷ vs) heap.4).1.3.0 in
    let enough : n ≤ k = omega (arith, large, ap m.head_size here, size) in
    let (m', claim, after) = claim-taken m us k vs n heap pos enough in
    (
      m',
      enough,
      ap (λ j. claim_chunk n (t, taken j t n m)) (sym bin)
          ∙ ap (λ u. claim_chunk n (u, taken (find_bin k) u n m)) here
          ∙ claim,
      after,
    )

-- A bin with its list of chunks.
from_queue :
    (i n : ℕ) (m : Mm) (bs : List Block) (xs : List ℕ)
    → IsHeap m bs
    → 0 < n
    → IsQueue m.links (m.bins i) xs
    → length xs ≡ count i bs
    → ((p : ℕ) → among p xs ≡ found p i 1 bs)
    → ((alloc_from_bin i n m ≡ some (0, m)) × (fits i n bs ≡ false))
      ⊎ Allocated n bs (alloc_from_bin i n m)
unfolding alloc_from_bin claim_chunk
from_queue i n m bs [] heap pos q len mem =
    inl (rw q refl, fits-head_size m i n 1 bs heap.4 (λ p f. ground (arith, mem p)))
from_queue i n m bs (x ∷ xs) heap pos (q, chain, nonnull, d) len mem =
    let real : (x == 0) ≡ false = ground arith in
    let fuel : length xs < m.num_user_pages =
      omega (arith, heap.1, len, count_le i bs (Tiles-Positive m 1 bs heap.4)) in
    elim (search_bin-Chain m.num_user_pages i x x n m xs fuel chain d.0) [
      | inl (none_fits, small) ↦ inl (
        rw (q, real, none_fits) refl,
        fits-head_size m i n 1 bs heap.4 (λ p f. small p (mem p ∙ f)),
      )
      | inr (t, member, large, search) ↦
          let (us, k, vs, eq, here, bin) = found-split t i 1 bs (sym (mem t) ∙ member) in
          let (m', enough, claim, after) =
            chunk_claimed m us k vs n i t (subst (IsHeap m) eq heap) pos here bin large in
          inr (us, k, vs, m', eq, enough, rw (q, real, search) (ap some claim), after)
    ]

from_here :
    (n : ℕ) (bs : List Block) (left bin i : ℕ)
    → fits bin n bs ≡ false
    → (9 - left ≤ i → fits i n bs ≡ false)
    → bin ≤ i
    → 9 - left ≤ suc bin
    → fits i n bs ≡ false
from_here n bs left bin i full later l e = elim (Bool-cases (i == bin)) [
  | inl same ↦ ap (λ j. fits j n bs) (ground arith) ∙ full
  | inr other ↦ later (ground arith)
]

-- The bins from a bin on, in turn.
bins_cases :
    (left n : ℕ) (m : Mm) (bs : List Block)
    → IsHeap m bs
    → 0 < n
    → ((alloc_bins left n m ≡ some (0, m)) × ((i : ℕ) → 9 - left ≤ i → i < 9 → fits i n bs ≡ false))
      ⊎ Allocated n bs (alloc_bins left n m)
unfolding alloc_bins
bins_cases zero n m bs heap pos = inl (refl, λ i l u. absurd (omega arith))
bins_cases (suc left) n m bs heap pos =
    let bin = 9 - suc left in
    let (xs, q, len, mem) = heap.5 bin in
    elim (from_queue bin n m bs xs heap pos q len mem) [
      | inl (none_found, full) ↦ elim (bins_cases left n m bs heap pos) [
        | inl (no_more, all_full) ↦ inl (
          rw (alloc_bins, none_found) no_more,
          λ i l u. from_here n bs left bin i full (λ h. all_full i h u) l (omega arith),
        )
        | inr (us, k, vs, m', eq, enough, result, after) ↦
            inr (us, k, vs, m', eq, enough, rw (alloc_bins, none_found) result, after)
      ]
      | inr (us, k, vs, m', eq, enough, result, after) ↦
          let sum =
            pn_to_pa-sum (1 + total us)
              (omega (arith, heap.0, heap.1, ap total eq, total-append us (free_block k ∷ vs))) in
          let real : (pn_to_pa (1 + total us) == 0) ≡ false = ground (arith, sum) in
          inr (us, k, vs, m', eq, enough, rw (alloc_bins, result, real) refl, after)
    ]

-- Is there a free block of at least `n` pages?
abbrev pub room : (n : ℕ) → List Block → Bool
room n [] = false
room n (b ∷ bs) = (not b.used && leb n b.size) || room n bs

-- Such a block is in a bin from that of `n` on.
room-fits :
    (n : ℕ) (bs : List Block)
    → ((i : ℕ) → find_bin n ≤ i → i < 9 → fits i n bs ≡ false)
    → room n bs ≡ false
room-fits n [] h = refl
room-fits n (b ∷ bs) h =
    let ih = room-fits n bs (λ i l u. ground (arith, h i l u)) in
    ground (arith, h (find_bin b.size), find_bin_monotone n b.size, find_bin-bounds b.size)

-- An allocation of `n` pages, for `n` above 0, either finds a free block of at least `n` pages and
-- returns the address of its first page, with the first `n` pages in use, the rest of the block
-- free, and every other block as before, or it returns BAD_PA and changes nothing, and then no free
-- block has `n` pages. It always ends within its fuel.
pub alloc_user_pages-IsHeap :
    (n : ℕ) (m : Mm) (bs : List Block)
    → IsHeap m bs
    → 0 < n
    → ((alloc_user_pages n m ≡ some (0, m)) × (room n bs ≡ false))
      ⊎ Allocated n bs (alloc_user_pages n m)
unfolding alloc_user_pages
alloc_user_pages-IsHeap n m bs heap pos = elim (bins_cases (9 - find_bin n) n m bs heap pos) [
  | inl (none_found, full) ↦
      inl (none_found, room-fits n bs (λ i l u. full i (omega (arith, (find_bin-bounds n).0)) u))
  | inr allocated ↦ inr allocated
]
