-- ===== src/Mm/Merge.antt =====
-- kern/mm.c: a run of pages that is being freed, and the free blocks beside it that leave their bins.
use pebpeb_os.Base.{
  ℕ, suc, ◌+◌, ◌^◌, ◌≤◌, ◌<◌, ◌≡◌, ap, ◌∙◌, sym, inl, true, List, [], ◌∷◌, ◌++◌, arith,
}
use mathlib.Core.Path.{subst}
use mathlib.Core.List.{append_assoc}
use pebpeb_os.Mm.{Mm, is_page_inuse, pn_to_pa, find_bin, bin_delete, add_to_bins, remove_from_bins}
use pebpeb_os.Mm.Blocks.{
  Block, total, total-append, Positive, append-Positive, free_block, used_block,
}
use pebpeb_os.Mm.Bins.{BinsOk, bin_delete-BinsOk, BinsOk-used_block}
use pebpeb_os.Mm.Tiles.{
  IsHeap, Tiles, Agree, Tiles-Positive, Tiles-frame, Tiles-split, Tiles-append, bin_delete-Agree,
  is_page_inuse-add_to_bins, add_to_bins-Agree, add_to_bins-Tiles,
}
use pebpeb_os.Mm.Take.{add_to_bins-BinsOk, add_to_bins-num_user_pages, bin_delete-num_user_pages}

-- A heap but for the marks of one run of pages, which is in no bin.
abbrev pub Pending : Mm → (us : List Block) (n : ℕ) (vs : List Block) → Type 0
Pending m us n vs =
    (m.num_user_pages + 4096 ≤ 2 ^ 20)
    × (total us + n + total vs ≡ m.num_user_pages)
    × (is_page_inuse 0 m ≡ true)
    × (is_page_inuse (m.num_user_pages + 1) m ≡ true)
    × (0 < n)
    × Tiles m 1 us
    × Tiles m (1 + total us + n) vs
    × BinsOk m 1 (us ++ used_block n ∷ vs)

pub start :
    (m : Mm) (us : List Block) (n : ℕ) (vs : List Block)
    → IsHeap m (us ++ used_block n ∷ vs)
    → Pending m us n vs
start m us n vs (high, size, first, last, tiles, bins) =
    let (front, back) = Tiles-split m 1 us (used_block n ∷ vs) tiles in
    (
      high,
      omega (arith, size, total-append us (used_block n ∷ vs)),
      first,
      last,
      back.0,
      front,
      back.4,
      bins,
    )

pub finish :
    (m : Mm) (us : List Block) (n : ℕ) (vs : List Block)
    → Pending m us n vs
    → IsHeap (add_to_bins (1 + total us) n m) (us ++ free_block n ∷ vs)
finish m us n vs (high, size, first, last, pos, front, back, bins) =
    let slot = 1 + total us in
    let m' = add_to_bins slot n m in
    let num = add_to_bins-num_user_pages slot n m in
    (
      omega (arith, num),
      omega (arith, num, size, total-append us (free_block n ∷ vs)),
      ground (arith, is_page_inuse-add_to_bins slot n m 0, first),
      ap (λ t. is_page_inuse (t + 1) m') num
          ∙ (ground (arith, size, is_page_inuse-add_to_bins slot n m (m.num_user_pages + 1), last)),
      Tiles-append m' 1 us (free_block n ∷ vs)
          (Tiles-frame m m' 1 us
            (add_to_bins-Agree slot n m pos 1 slot (omega arith) (omega arith) (λ t l u. inl u))
            front)
          (add_to_bins-Tiles slot n m pos vs (omega arith) back),
      add_to_bins-BinsOk m 1 us n vs (Tiles-Positive m 1 us front)
          (Tiles-Positive m (slot + n) vs back) pos (omega arith) bins,
    )

-- A free block's chunk is removed from its bin.
remove_block :
    (m : Mm) (us : List Block) (k : ℕ) (vs : List Block)
    → m.num_user_pages + 4096 ≤ 2 ^ 20
    → total us + k + total vs ≤ m.num_user_pages
    → Positive us
    → Positive vs
    → 0 < k
    → m.head_size (pn_to_pa (1 + total us)) ≡ k
    → BinsOk m 1 (us ++ free_block k ∷ vs)
    → BinsOk (remove_from_bins (1 + total us) m) 1 (us ++ used_block k ∷ vs)
unfolding remove_from_bins
remove_block m us k vs high size hu hv pos head bins =
    subst
      (λ j.
        BinsOk (bin_delete (find_bin j) (pn_to_pa (1 + total us)) m) 1 (us ++ used_block k ∷ vs))
      (sym head) (bin_delete-BinsOk m 1 us k vs hu hv pos (omega arith) bins)

pub remove_from_bins-Agree :
    (slot : ℕ) (m : Mm) (lo hi : ℕ) → Agree m (remove_from_bins slot m) lo hi
unfolding remove_from_bins
remove_from_bins-Agree slot m lo hi =
    bin_delete-Agree (find_bin (m.head_size (pn_to_pa slot))) (pn_to_pa slot) m lo hi

remove_from_bins-num_user_pages :
    (slot : ℕ) (m : Mm) → (remove_from_bins slot m).num_user_pages ≡ m.num_user_pages
unfolding remove_from_bins
remove_from_bins-num_user_pages slot m =
    bin_delete-num_user_pages (find_bin (m.head_size (pn_to_pa slot))) (pn_to_pa slot) m

-- The bits of a memory after a removal are those before.
bit : (slot : ℕ) (m : Mm) (t : ℕ) → is_page_inuse t (remove_from_bins slot m) ≡ is_page_inuse t m
bit slot m t = (remove_from_bins-Agree slot m 0 (suc t) t (omega arith) (omega arith)).0

-- The merge with the next block.
next_bins :
    (m : Mm) (us : List Block) (n k : ℕ) (vs : List Block)
    → m.num_user_pages + 4096 ≤ 2 ^ 20
    → total us + n + k + total vs ≤ m.num_user_pages
    → Positive us
    → Positive vs
    → 0 < n
    → 0 < k
    → m.head_size (pn_to_pa (1 + total us + n)) ≡ k
    → BinsOk m 1 (us ++ used_block n ∷ free_block k ∷ vs)
    → BinsOk (remove_from_bins (1 + total us + n) m) 1 (us ++ used_block (n + k) ∷ vs)
next_bins m us n k vs high size hu hv pos posk head bins =
    let front = us ++ used_block n ∷ [] in
    let m' = remove_from_bins (1 + total us + n) m in
    let sum = total-append us (used_block n ∷ []) in
    let here : 1 + total us + n ≡ 1 + total front = omega (arith, sum) in
    let apart =
      subst (BinsOk m 1) (sym (append_assoc us (used_block n ∷ []) (free_block k ∷ vs))) bins in
    let gone =
      remove_block m front k vs high (omega (arith, sum))
        (append-Positive us (used_block n ∷ []) hu (pos, tt)) hv posk
        (ap (λ t. m.head_size (pn_to_pa t)) (sym here) ∙ head) apart in
    (BinsOk-used_block m' 1 us n k vs).1 (
      subst (BinsOk m' 1) (append_assoc us (used_block n ∷ []) (used_block k ∷ vs))
        (subst (λ t. BinsOk (remove_from_bins t m) 1 (front ++ used_block k ∷ vs)) (sym here) gone))

pub next_free :
    (m : Mm) (us : List Block) (n k : ℕ) (vs : List Block)
    → Pending m us n (free_block k ∷ vs)
    → Pending (remove_from_bins (1 + total us + n) m) us (n + k) vs
next_free m us n k vs (high, size, first, last, pos, front, (posk, b1, b2, sized, back), bins) =
    let m' = remove_from_bins (1 + total us + n) m in
    let num = remove_from_bins-num_user_pages (1 + total us + n) m in
    (
      omega (arith, num),
      omega (arith, num, size),
      bit (1 + total us + n) m 0 ∙ first,
      ap (λ t. is_page_inuse (t + 1) m') num
          ∙ bit (1 + total us + n) m (m.num_user_pages + 1)
          ∙ last,
      omega arith,
      Tiles-frame m m' 1 us (remove_from_bins-Agree (1 + total us + n) m 1 (1 + total us)) front,
      subst (λ t. Tiles m' t vs) (omega arith)
          (Tiles-frame m m' (1 + total us + n + k) vs
            (remove_from_bins-Agree (1 + total us + n) m (1 + total us + n + k)
              (1 + total us + n + k + total vs))
            back),
      next_bins m us n k vs high (omega (arith, size)) (Tiles-Positive m 1 us front)
          (Tiles-Positive m (1 + total us + n + k) vs back) pos posk sized.0 bins,
    )

-- The merge with the previous block.
prev_bins :
    (m : Mm) (us : List Block) (k n : ℕ) (vs : List Block)
    → m.num_user_pages + 4096 ≤ 2 ^ 20
    → total us + k + n + total vs ≤ m.num_user_pages
    → Positive us
    → Positive vs
    → 0 < n
    → 0 < k
    → m.head_size (pn_to_pa (1 + total us)) ≡ k
    → BinsOk m 1 ((us ++ free_block k ∷ []) ++ used_block n ∷ vs)
    → BinsOk (remove_from_bins (1 + total us) m) 1 (us ++ used_block (k + n) ∷ vs)
prev_bins m us k n vs high size hu hv pos posk head bins =
    let m' = remove_from_bins (1 + total us) m in
    (BinsOk-used_block m' 1 us k n vs).1 (
      remove_block m us k (used_block n ∷ vs) high (omega arith) hu (pos, hv) posk head
        (subst (BinsOk m 1) (append_assoc us (free_block k ∷ []) (used_block n ∷ vs)) bins))

pub prev_free :
    (m : Mm) (us : List Block) (k n : ℕ) (vs : List Block)
    → Pending m (us ++ free_block k ∷ []) n vs
    → Pending (remove_from_bins (1 + total us) m) us (k + n) vs
prev_free m us k n vs (high, size, first, last, pos, front, back, bins) =
    let m' = remove_from_bins (1 + total us) m in
    let num = remove_from_bins-num_user_pages (1 + total us) m in
    let sum = total-append us (free_block k ∷ []) in
    let (before, (posk, b1, b2, sized, _)) = Tiles-split m 1 us (free_block k ∷ []) front in
    let after : Tiles m (1 + total us + (k + n)) vs =
      subst (λ t. Tiles m t vs) (omega (arith, sum)) back in
    (
      omega (arith, num),
      omega (arith, num, size, sum),
      bit (1 + total us) m 0 ∙ first,
      ap (λ t. is_page_inuse (t + 1) m') num ∙ bit (1 + total us) m (m.num_user_pages + 1) ∙ last,
      omega arith,
      Tiles-frame m m' 1 us (remove_from_bins-Agree (1 + total us) m 1 (1 + total us)) before,
      Tiles-frame m m' (1 + total us + (k + n)) vs
          (remove_from_bins-Agree (1 + total us) m (1 + total us + (k + n))
            (1 + total us + (k + n) + total vs))
          after,
      prev_bins m us k n vs high (omega (arith, size, sum)) (Tiles-Positive m 1 us before)
          (Tiles-Positive m (1 + total us + (k + n)) vs after) pos posk sized.0 bins,
    )
