-- ===== src/Mm/Coalesced.antt =====
-- kern/mm.c: no two free blocks stand side by side, from mm_init on; and a free takes an allocation
-- back.
use pebpeb_os.Base.{
  ℕ, ◌+◌, ◌-◌, ◌^◌, ◌≤◌, ◌<◌, ◌≡◌, refl, ap, ◌∙◌, sym, Bool, Bool-cases, inl, inr, true, ◌&&◌, ◌||◌,
  List, [], ◌∷◌, ◌++◌, some, arith, ◌==◌, ltb, if◌then◌else◌,
}
use mathlib.Core.Path.{subst}
use pebpeb_os.Queue.{Links}
use pebpeb_os.Mm.{
  Mm, mm_init, set_page_inuse, is_page_inuse, pn_to_pa, pa_to_pn, alloc_user_pages, free_user_pages,
}
use pebpeb_os.Mm.Page.{is_page_inuse-set_page_inuse}
use pebpeb_os.Mm.Blocks.{Block, total, free_block, used_block}
use pebpeb_os.Mm.Tiles.{IsHeap}
use pebpeb_os.Mm.Alloc.{cut, room, alloc_user_pages-IsHeap}
use pebpeb_os.Mm.Free.{absorb_next, absorb_prev, released, free_user_pages-IsHeap}
use pebpeb_os.Mm.Merge.{finish}

abbrev apart : Block → List Block → Bool
apart b [] = true
apart b (c ∷ bs) = b.used || c.used

abbrev pub coalesced : List Block → Bool
coalesced [] = true
coalesced (b ∷ bs) = apart b bs && coalesced bs

coalesced-cut :
    (n k : ℕ) (us vs : List Block)
    → coalesced (us ++ free_block k ∷ vs) ≡ true
    → coalesced (us ++ cut n k vs) ≡ true
coalesced-cut n k [] [] h = ground arith
coalesced-cut n k [] (v ∷ vs) h = ground arith
coalesced-cut n k (u ∷ []) [] h = ground arith
coalesced-cut n k (u ∷ []) (v ∷ vs) h = ground arith
coalesced-cut n k (u ∷ w ∷ us) vs h = ground (arith, coalesced-cut n k (w ∷ us) vs)

-- What is freed later leaves the blocks in front apart.
apart-released :
    (n : ℕ) (u w : Block) (us vs : List Block)
    → (u.used || w.used) ≡ true
    → apart u (released (w ∷ us) n vs) ≡ true
apart-released n u w [] vs h = ground arith
apart-released n u w (x ∷ us) vs h = h

coalesced-released :
    (n : ℕ) (us vs : List Block)
    → coalesced (us ++ used_block n ∷ vs) ≡ true
    → coalesced (released us n vs) ≡ true
coalesced-released n [] [] h = refl
coalesced-released n [] (v ∷ []) h = ground arith
coalesced-released n [] (v ∷ w ∷ vs) h = ground arith
coalesced-released n (u ∷ []) [] h = ground arith
coalesced-released n (u ∷ []) (v ∷ []) h = ground arith
coalesced-released n (u ∷ []) (v ∷ w ∷ vs) h = ground arith
coalesced-released n (u ∷ w ∷ us) vs h =
    let ih = coalesced-released n (w ∷ us) vs (ground arith) in
    ground (arith, ih, apart-released n u w us vs (ground arith))

-- Freeing what was cut from a block gives the block back.
released-cut :
    (n k : ℕ) (us vs : List Block)
    → n ≤ k
    → coalesced (us ++ free_block k ∷ vs) ≡ true
    → released us n (if ltb n k then free_block (k - n) ∷ vs else vs) ≡ us ++ free_block k ∷ vs
released-cut n k us vs le h = elim (Bool-cases (ltb n k)) [
  | inl e ↦ rw e (part n k us vs le h)
  | inr e ↦ rw e (
      subst (λ j. released us n vs ≡ us ++ free_block j ∷ vs) (ground arith)
        (whole n us vs (subst (λ j. coalesced (us ++ free_block j ∷ vs) ≡ true) (ground arith) h)))
]
  where
    front :
        (n k : ℕ) (us vs : List Block)
        → coalesced (us ++ free_block k ∷ vs) ≡ true
        → absorb_prev us n ≡ (us, n)
    front n k [] vs h = refl
    front n k (u ∷ []) vs h = ground arith
    front n k (u ∷ w ∷ us) vs h = rw (front n k (w ∷ us) vs (ground arith)) refl

    part :
        (n k : ℕ) (us vs : List Block)
        → n ≤ k
        → coalesced (us ++ free_block k ∷ vs) ≡ true
        → released us n (free_block (k - n) ∷ vs) ≡ us ++ free_block k ∷ vs
    part n k us vs le h = rw (front n k us vs h) (ap (λ j. us ++ free_block j ∷ vs) (omega arith))

    behind :
        (n : ℕ) (us vs : List Block)
        → coalesced (us ++ free_block n ∷ vs) ≡ true
        → absorb_next n vs ≡ (n, vs)
    behind n us [] h = refl
    behind n [] (v ∷ vs) h = ground arith
    behind n (u ∷ us) (v ∷ vs) h = behind n us (v ∷ vs) (ground arith)

    whole :
        (n : ℕ) (us vs : List Block)
        → coalesced (us ++ free_block n ∷ vs) ≡ true
        → released us n vs ≡ us ++ free_block n ∷ vs
    whole n us vs h = rw (front n n us vs h, behind n us vs h) refl

init_bits :
    (n t : ℕ) (m : Mm)
    → is_page_inuse t (set_page_inuse (n + 1) (set_page_inuse 0 m))
      ≡ ((t == n + 1) || (t == 0) || is_page_inuse t m)
init_bits n t m = ground (
  arith,
  is_page_inuse-set_page_inuse t (n + 1) (set_page_inuse 0 m),
  is_page_inuse-set_page_inuse t 0 m,
)

-- After mm_init the user memory is one free block, on a machine with some user memory and no more
-- than 4 GB.
pub mm_init-IsHeap :
    (frames : ℕ) (links : Links) (head foot : ℕ → ℕ)
    → 4096 < frames
    → frames ≤ 2 ^ 20
    → IsHeap (mm_init frames links head foot) (free_block (frames - 4096) ∷ [])
unfolding mm_init pa_to_pn set_page_inuse
mm_init-IsHeap frames links head foot lo hi =
    let n = frames - 4096 in
    let m0 : Mm = record {
      num_user_pages = n;
      user_page_bitmap = (λ i. 0);
      bins = (λ i. 0);
      links = links;
      head_size = head;
      foot_size = foot;
    } in
    finish (set_page_inuse (n + 1) (set_page_inuse 0 m0)) [] n [] (
      omega arith,
      omega arith,
      ground (arith, init_bits n 0 m0),
      ground (arith, init_bits n (n + 1) m0),
      omega arith,
      tt,
      tt,
      λ i. ([], refl, refl, λ p. refl),
    )

-- From a coalesced heap, an allocation that succeeds leaves a coalesced heap, and freeing what it
-- returned, at once and with the same size, gives back the blocks of before.
pub free_user_pages-alloc_user_pages :
    (n : ℕ) (m : Mm) (bs : List Block)
    → IsHeap m bs
    → coalesced bs ≡ true
    → 0 < n
    → room n bs ≡ true
    → (pa : ℕ) × (m' : Mm) × (bs' : List Block) × (alloc_user_pages n m ≡ some (pa, m'))
      × IsHeap m' bs'
      × (coalesced bs' ≡ true)
      × IsHeap (free_user_pages pa n m') bs
free_user_pages-alloc_user_pages n m bs heap c pos fit =
    elim (alloc_user_pages-IsHeap n m bs heap pos) [
      | inl (failed, full) ↦ ground arith
      | inr (us, k, vs, m', eq, enough, result, after) ↦
          let c' : coalesced (us ++ free_block k ∷ vs) ≡ true = ap coalesced (sym eq) ∙ c in
          (
            pn_to_pa (1 + total us),
            m',
            us ++ cut n k vs,
            result,
            after,
            coalesced-cut n k us vs c',
            subst (IsHeap (free_user_pages (pn_to_pa (1 + total us)) n m'))
                (released-cut n k us vs enough c' ∙ sym eq)
                (free_user_pages-IsHeap us n (if ltb n k then free_block (k - n) ∷ vs else vs) m'
                  after),
          )
    ]

-- A free of a block in use leaves a coalesced heap coalesced.
pub free_user_pages-coalesced :
    (us : List Block) (n : ℕ) (vs : List Block) (m : Mm)
    → IsHeap m (us ++ used_block n ∷ vs)
    → coalesced (us ++ used_block n ∷ vs) ≡ true
    → (bs : List Block) × IsHeap (free_user_pages (pn_to_pa (1 + total us)) n m) bs
      × (coalesced bs ≡ true)
free_user_pages-coalesced us n vs m heap c =
    (released us n vs, free_user_pages-IsHeap us n vs m heap, coalesced-released n us vs c)
