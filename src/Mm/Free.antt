-- ===== src/Mm/Free.antt =====
-- kern/mm.c: free_user_pages against the blocks of memory.
use pebpeb_os.Base.{
  ℕ, ◌+◌, ◌-◌, ◌≡◌, ◌⊎◌, refl, ap, ◌∙◌, sym, Bool-cases, inl, inr, true, List, [], ◌∷◌, ◌++◌, arith,
  if◌then◌else◌,
}
use mathlib.Core.Path.{subst}
use native.Mathlib.Nat.{add_comm}
use pebpeb_os.Mm.{
  Mm, is_page_inuse, pn_to_pa, pa_to_pn, remove_from_bins, merge_prev, merge_next, free_user_pages,
}
use pebpeb_os.Mm.Page.{pa_to_pn-pn_to_pa}
use pebpeb_os.Mm.Blocks.{Block, total, total-append, free_block, used_block, free_eta}
use pebpeb_os.Mm.Tiles.{IsHeap, Tiles-split}
use pebpeb_os.Mm.Merge.{Pending, start, finish, next_free, prev_free}

-- A run of pages joined with a free block behind it, or with one in front of it.
abbrev pub absorb_next : (n : ℕ) → List Block → ℕ × List Block
absorb_next n [] = (n, [])
absorb_next n (b ∷ vs) = if b.used then (n, b ∷ vs) else (n + b.size, vs)

abbrev pub absorb_prev : List Block → (n : ℕ) → List Block × ℕ
absorb_prev [] n = ([], n)
absorb_prev (b ∷ []) n = if b.used then (b ∷ [], n) else ([], n + b.size)
absorb_prev (b ∷ c ∷ us) n = let (us', n') = absorb_prev (c ∷ us) n in (b ∷ us', n')

-- The blocks after the run of `n` pages between `us` and `vs` is freed.
abbrev pub released : (us : List Block) (n : ℕ) (vs : List Block) → List Block
released us n vs =
    let (us', n1) = absorb_prev us n in
    let (n2, vs') = absorb_next n1 vs in us' ++ free_block n2 ∷ vs'

-- A list is empty or has a last element.
last_view :
    (us : List Block) → (us ≡ []) ⊎ ((us' : List Block) × (b : Block) × (us ≡ us' ++ b ∷ []))
last_view [] = inl refl
last_view (u ∷ us) = elim (last_view us) [
  | inl e ↦ inr ([], u, ap (λ vs. u ∷ vs) e)
  | inr (us', b, e) ↦ inr (u ∷ us', b, ap (λ vs. u ∷ vs) e)
]

absorb_prev-snoc :
    (us : List Block) (b : Block) (n : ℕ)
    → absorb_prev (us ++ b ∷ []) n ≡ (if b.used then (us ++ b ∷ [], n) else (us, n + b.size))
absorb_prev-snoc [] b n = refl
absorb_prev-snoc (u ∷ []) b n = ground arith
absorb_prev-snoc (u ∷ v ∷ us) b n = ground (arith, absorb_prev-snoc (v ∷ us) b n)

-- Each merge does to the memory what it does to the blocks.
next_merged :
    (m : Mm) (us : List Block) (n : ℕ) (vs : List Block)
    → Pending m us n vs
    → (n' : ℕ) × (vs' : List Block) × (m' : Mm) × (absorb_next n vs ≡ (n', vs'))
      × (merge_next (1 + total us + n) n m ≡ (n', m'))
      × Pending m' us n' vs'
unfolding merge_next
next_merged m us n [] p =
    let edge : 1 + total us + n ≡ m.num_user_pages + 1 = omega (arith, p.1) in
    let marked : is_page_inuse (1 + total us + n) m ≡ true =
      ap (λ t. is_page_inuse t m) edge ∙ p.3 in
    (n, [], m, refl, rw marked refl, p)
next_merged m us n (b ∷ vs) p =
    let marked : is_page_inuse (1 + total us + n) m ≡ b.used = p.6.1 in
    elim (Bool-cases b.used) [
      | inl e ↦ (n, b ∷ vs, m, rw e refl, rw (marked, e) refl, p)
      | inr e ↦
          let p' = subst (λ c. Pending m us n (c ∷ vs)) (free_eta b e) p in
          (
            n + b.size,
            vs,
            remove_from_bins (1 + total us + n) m,
            rw e refl,
            rw (marked, e, p'.6.3.0) refl,
            next_free m us n b.size vs p',
          )
    ]

prev_merged_snoc :
    (m : Mm) (us : List Block) (b : Block) (n : ℕ) (vs : List Block)
    → Pending m (us ++ b ∷ []) n vs
    → (us' : List Block) × (n' : ℕ) × (m' : Mm) × (absorb_prev (us ++ b ∷ []) n ≡ (us', n'))
      × (merge_prev (1 + total (us ++ b ∷ [])) n m ≡ (1 + total us', n', m'))
      × (total (us ++ b ∷ []) + n ≡ total us' + n')
      × Pending m' us' n' vs
unfolding merge_prev
prev_merged_snoc m us b n vs p =
    let sum = total-append us (b ∷ []) in
    let (before, (pos, b1, b2, sized, _)) = Tiles-split m 1 us (b ∷ []) p.5 in
    let last : 1 + total (us ++ b ∷ []) - 1 ≡ 1 + total us + b.size - 1 = omega (arith, sum) in
    let marked : is_page_inuse (1 + total (us ++ b ∷ []) - 1) m ≡ b.used =
      ap (λ t. is_page_inuse t m) last ∙ b2 in
    elim (Bool-cases b.used) [
      | inl e ↦
          (us ++ b ∷ [], n, m, absorb_prev-snoc us b n ∙ rw e refl, rw (marked, e) refl, refl, p)
      | inr e ↦
          let p' = subst (λ c. Pending m (us ++ c ∷ []) n vs) (free_eta b e) p in
          let foot : m.foot_size (pn_to_pa (1 + total (us ++ b ∷ []) - 1)) ≡ b.size =
            ap (λ t. m.foot_size (pn_to_pa t)) last
            ∙ (Tiles-split m 1 us (free_block b.size ∷ []) p'.5).1.3.1 in
          let back : 1 + total (us ++ b ∷ []) - b.size ≡ 1 + total us = omega (arith, sum) in
          (
            us,
            n + b.size,
            remove_from_bins (1 + total us) m,
            absorb_prev-snoc us b n ∙ rw e refl,
            rw (marked, foot, back, e) refl,
            omega (arith, sum),
            subst (λ j. Pending (remove_from_bins (1 + total us) m) us j vs) (add_comm b.size n)
                (prev_free m us b.size n vs p'),
          )
    ]

prev_merged :
    (m : Mm) (us : List Block) (n : ℕ) (vs : List Block)
    → Pending m us n vs
    → (us' : List Block) × (n' : ℕ) × (m' : Mm) × (absorb_prev us n ≡ (us', n'))
      × (merge_prev (1 + total us) n m ≡ (1 + total us', n', m'))
      × (total us + n ≡ total us' + n')
      × Pending m' us' n' vs
unfolding merge_prev
prev_merged m us n vs p = elim (last_view us) [
  | inl e ↦
      subst
        (λ w.
          Pending m w n vs
          → (us' : List Block) × (n' : ℕ) × (m' : Mm) × (absorb_prev w n ≡ (us', n'))
            × (merge_prev (1 + total w) n m ≡ (1 + total us', n', m'))
            × (total w + n ≡ total us' + n')
            × Pending m' us' n' vs)
        (sym e) (λ q. ([], n, m, refl, rw q.2 refl, refl, q)) p
  | inr (us', b, e) ↦
      subst
        (λ w.
          Pending m w n vs
          → (us' : List Block) × (n' : ℕ) × (m' : Mm) × (absorb_prev w n ≡ (us', n'))
            × (merge_prev (1 + total w) n m ≡ (1 + total us', n', m'))
            × (total w + n ≡ total us' + n')
            × Pending m' us' n' vs)
        (sym e) (prev_merged_snoc m us' b n vs) p
]

-- When a block in use is freed, by its address and its size, its pages become one free block with
-- the free blocks that stand directly before and behind it, and every other block is as before.
pub free_user_pages-IsHeap :
    (us : List Block) (n : ℕ) (vs : List Block) (m : Mm)
    → IsHeap m (us ++ used_block n ∷ vs)
    → IsHeap (free_user_pages (pn_to_pa (1 + total us)) n m) (released us n vs)
unfolding free_user_pages
free_user_pages-IsHeap us n vs m heap =
    let p = start m us n vs heap in
    let back : pa_to_pn (pn_to_pa (1 + total us)) ≡ 1 + total us =
      pa_to_pn-pn_to_pa (1 + total us) (omega arith) (omega (arith, p.0, p.1)) in
    let (us1, n1, m1, prev, merge1, sum1, p1) = prev_merged m us n vs p in
    let (n2, vs2, m2, next, merge2, p2) = next_merged m1 us1 n1 vs p1 in
    let here : 1 + total us + n ≡ 1 + total us1 + n1 = omega (arith, sum1) in
    rw (back, merge1, here, merge2, prev, next) (finish m2 us1 n2 vs2 p2)
