-- ===== src/Mm/Tiles.antt =====
-- kern/mm.c: what the bitmap, the heads and the feet say of the blocks, and which pages an operation
-- leaves as they are.
use pebpeb_os.Base.{
  ℕ, ◌+◌, ◌-◌, ◌^◌, ◌≤◌, ◌<◌, ◌≡◌, ◌⊎◌, refl, ◌∙◌, Bool, inr, true, false, not, ◌&&◌, ◌||◌, List,
  [], ◌∷◌, ◌++◌, arith, ◌==◌, if◌then◌else◌,
}
use mathlib.Core.Path.{subst}
use pebpeb_os.Mm.{
  Mm, is_page_inuse, set_page_inuse, set_page_free, mark_used, pn_to_pa, bin_insert, bin_delete,
  add_to_bins,
}
use pebpeb_os.Mm.Page.{pn_to_pa-sum, is_page_inuse-set_page_inuse, is_page_inuse-set_page_free}
use pebpeb_os.Mm.Blocks.{Block, total, Positive, free_block, used_block}
use pebpeb_os.Mm.Bins.{BinsOk}

-- The two copies of the size that a free block carries.
abbrev pub Sized : Mm → (s n : ℕ) → (used : Bool) → Type 0
Sized m s n true = Unit
Sized m s n false = (m.head_size (pn_to_pa s) ≡ n) × (m.foot_size (pn_to_pa (s + n - 1)) ≡ n)

-- The blocks stand one after another from slot `s` on, and their ends are marked.
abbrev pub Tiles : Mm → (s : ℕ) → List Block → Type 0
Tiles m s [] = Unit
Tiles m s (b ∷ bs) =
    (0 < b.size)
    × (is_page_inuse s m ≡ b.used)
    × (is_page_inuse (s + b.size - 1) m ≡ b.used)
    × Sized m s b.size b.used
    × Tiles m (s + b.size) bs

-- The memory of the allocator is in the blocks `bs`, between two pages that count as in use.
abbrev pub IsHeap : Mm → List Block → Type 0
IsHeap m bs =
    (m.num_user_pages + 4096 ≤ 2 ^ 20)
    × (total bs ≡ m.num_user_pages)
    × (is_page_inuse 0 m ≡ true)
    × (is_page_inuse (m.num_user_pages + 1) m ≡ true)
    × Tiles m 1 bs
    × BinsOk m 1 bs

-- The two memories agree on the pages from `lo` up to `hi`.
abbrev pub Agree : Mm → Mm → (lo hi : ℕ) → Type 0
Agree m m' lo hi =
    (t : ℕ)
    → lo ≤ t
    → t < hi
    → (is_page_inuse t m' ≡ is_page_inuse t m)
      × (m'.head_size (pn_to_pa t) ≡ m.head_size (pn_to_pa t))
      × (m'.foot_size (pn_to_pa t) ≡ m.foot_size (pn_to_pa t))

pub Tiles-Positive : (m : Mm) (s : ℕ) (bs : List Block) → Tiles m s bs → Positive bs
Tiles-Positive m s [] h = tt
Tiles-Positive m s (b ∷ bs) h = (h.0, Tiles-Positive m (s + b.size) bs h.4)

Sized-frame :
    (m m' : Mm) (s n : ℕ) (used : Bool)
    → 0 < n
    → Agree m m' s (s + n)
    → Sized m s n used
    → Sized m' s n used
Sized-frame m m' s n true pos ok h = tt
Sized-frame m m' s n false pos ok h =
    let first = ok s (omega arith) (omega arith) in
    let last = ok (s + n - 1) (omega arith) (omega arith) in (first.1 ∙ h.0, last.2 ∙ h.1)

pub Tiles-frame :
    (m m' : Mm) (s : ℕ) (bs : List Block)
    → Agree m m' s (s + total bs)
    → Tiles m s bs
    → Tiles m' s bs
Tiles-frame m m' s [] ok h = tt
Tiles-frame m m' s (b ∷ bs) ok (pos, i, j, sized, rest) = (
  pos,
  (ok s (omega arith) (omega arith)).0 ∙ i,
  (ok (s + b.size - 1) (omega arith) (omega arith)).0 ∙ j,
  Sized-frame m m' s b.size b.used pos (λ t l u. ok t l (omega arith)) sized,
  Tiles-frame m m' (s + b.size) bs (λ t l u. ok t (omega arith) (omega arith)) rest,
)

pub Tiles-split :
    (m : Mm) (s : ℕ) (us vs : List Block)
    → Tiles m s (us ++ vs)
    → Tiles m s us × Tiles m (s + total us) vs
Tiles-split m s [] vs h = (tt, subst (λ t. Tiles m t vs) (omega arith) h)
Tiles-split m s (u ∷ us) vs (pos, i, j, sized, rest) =
    let (front, back) = Tiles-split m (s + u.size) us vs rest in
    ((pos, i, j, sized, front), subst (λ t. Tiles m t vs) (omega arith) back)

pub Tiles-append :
    (m : Mm) (s : ℕ) (us vs : List Block)
    → Tiles m s us
    → Tiles m (s + total us) vs
    → Tiles m s (us ++ vs)
Tiles-append m s [] vs h k = subst (λ t. Tiles m t vs) (omega arith) k
Tiles-append m s (u ∷ us) vs (pos, i, j, sized, rest) k = (
  pos,
  i,
  j,
  sized,
  Tiles-append m (s + u.size) us vs rest (subst (λ t. Tiles m t vs) (omega arith) k),
)

-- Taking a chunk out of its bin writes links only.
pub bin_delete-Agree : (bin t : ℕ) (m : Mm) (lo hi : ℕ) → Agree m (bin_delete bin t m) lo hi
unfolding bin_delete is_page_inuse
bin_delete-Agree bin t m lo hi u l h = (refl, refl, refl)

module _ (x n : ℕ) (m : Mm) where
  pub is_page_inuse-mark_used :
      (t : ℕ)
      → is_page_inuse t (mark_used x n m) ≡ ((t == x) || (t == x + n - 1) || is_page_inuse t m)
  unfolding mark_used
  is_page_inuse-mark_used t = ground (
    arith,
    is_page_inuse-set_page_inuse t (x + n - 1) (set_page_inuse x m),
    is_page_inuse-set_page_inuse t x m,
  )

  bitmap_only :
      (t : ℕ)
      → is_page_inuse t (add_to_bins x n m)
        ≡ is_page_inuse t (set_page_free (x + n - 1) (set_page_free x m))
  unfolding is_page_inuse add_to_bins bin_insert
  bitmap_only t = refl

  pub is_page_inuse-add_to_bins :
      (t : ℕ)
      → is_page_inuse t (add_to_bins x n m)
        ≡ (not (t == x) && not (t == x + n - 1) && is_page_inuse t m)
  is_page_inuse-add_to_bins t =
      bitmap_only t
      ∙ (ground (
        arith,
        is_page_inuse-set_page_free t (x + n - 1) (set_page_free x m),
        is_page_inuse-set_page_free t x m,
      ))

  mark_used-sizes :
      (p : ℕ)
      → ((mark_used x n m).head_size p ≡ m.head_size p)
        × ((mark_used x n m).foot_size p ≡ m.foot_size p)
  unfolding mark_used set_page_inuse
  mark_used-sizes p = (refl, refl)

  add_to_bins-sizes :
      (p : ℕ)
      → ((add_to_bins x n m).head_size p ≡ (if p == pn_to_pa x then n else m.head_size p))
        × ((add_to_bins x n m).foot_size p
            ≡ (if p == pn_to_pa (x + n - 1) then n else m.foot_size p))
  unfolding add_to_bins bin_insert set_page_free
  add_to_bins-sizes p = (refl, refl)

  module _ (pos : 0 < n) where
    pub mark_used-Agree :
        (lo hi : ℕ)
        → ((t : ℕ) → lo ≤ t → t < hi → (t < x) ⊎ (x + n ≤ t))
        → Agree m (mark_used x n m) lo hi
    mark_used-Agree lo hi away t l u =
        let side = away t l u in
        (
          ground (arith, is_page_inuse-mark_used t),
          (mark_used-sizes (pn_to_pa t)).0,
          (mark_used-sizes (pn_to_pa t)).1,
        )

    pub add_to_bins-Agree :
        (lo hi : ℕ)
        → hi + 4095 ≤ 2 ^ 20
        → x + n + 4095 ≤ 2 ^ 20
        → ((t : ℕ) → lo ≤ t → t < hi → (t < x) ⊎ (x + n ≤ t))
        → Agree m (add_to_bins x n m) lo hi
    add_to_bins-Agree lo hi b c away t l u =
        let side = away t l u in
        let here = pn_to_pa-sum t (omega arith) in
        let first = pn_to_pa-sum x (omega arith) in
        let last = pn_to_pa-sum (x + n - 1) (omega arith) in
        (
          ground (arith, is_page_inuse-add_to_bins t),
          ground (arith, (add_to_bins-sizes (pn_to_pa t)).0),
          ground (arith, (add_to_bins-sizes (pn_to_pa t)).1),
        )

    pub add_to_bins-Tiles :
        (vs : List Block)
        → x + n + total vs + 4095 ≤ 2 ^ 20
        → Tiles m (x + n) vs
        → Tiles (add_to_bins x n m) x (free_block n ∷ vs)
    add_to_bins-Tiles vs b h = (
      pos,
      ground (arith, is_page_inuse-add_to_bins x),
      ground (arith, is_page_inuse-add_to_bins (x + n - 1)),
      (
        ground (arith, (add_to_bins-sizes (pn_to_pa x)).0),
        ground (arith, (add_to_bins-sizes (pn_to_pa (x + n - 1))).1),
      ),
      Tiles-frame m (add_to_bins x n m) (x + n) vs
          (add_to_bins-Agree (x + n) (x + n + total vs) b (omega arith) (λ t l u. inr l)) h,
    )

    pub mark_used-Tiles :
        (vs : List Block) → Tiles m (x + n) vs → Tiles (mark_used x n m) x (used_block n ∷ vs)
    mark_used-Tiles vs h = (
      pos,
      ground (arith, is_page_inuse-mark_used x),
      ground (arith, is_page_inuse-mark_used (x + n - 1)),
      tt,
      Tiles-frame m (mark_used x n m) (x + n) vs
          (mark_used-Agree (x + n) (x + n + total vs) (λ t l u. inr l)) h,
    )
