-- ===== src/Mm/Search.antt =====
-- kern/mm.c: the search of alloc_from_bin, and which blocks a bin's chunks are.
use pebpeb_os.Base.{
  ℕ, zero, suc, ◌+◌, ◌-◌, ◌≤◌, ◌<◌, ◌≡◌, ◌⊎◌, refl, ap, ◌∙◌, Bool, Bool-cases, inl, inr, true,
  false, ◌&&◌, ◌||◌, List, [], ◌∷◌, ◌++◌, length, some, arith, ◌==◌, ltb, leb, if◌then◌else◌,
}
use pebpeb_os.Queue.Chain.{among, Chain}
use pebpeb_os.Mm.{Mm, pn_to_pa, pa_to_pn, find_bin, bin_delete, add_to_bins, search_bin}
use pebpeb_os.Mm.Blocks.{Block, total, of_bin, found, free_block, free_eta}
use pebpeb_os.Mm.Tiles.{Tiles, Sized}

-- What the search does with the chunk it takes.
abbrev pub taken : (bin t size : ℕ) → Mm → Mm
taken bin t size m =
    let out = bin_delete bin t m in
    if ltb size (m.head_size t)
    then add_to_bins (pa_to_pn t + size) (m.head_size t - size) out
    else out

-- The search goes once around the ring and takes the first chunk that is large enough.
pub search_bin-Chain :
    (fuel bin this_chunk end size : ℕ) (m : Mm) (zs : List ℕ)
    → length zs < fuel
    → Chain m.links this_chunk zs end
    → among end zs ≡ false
    → ((search_bin fuel bin this_chunk end size m ≡ some (0, m))
        × ((p : ℕ) → among p (this_chunk ∷ zs) ≡ true → m.head_size p < size))
      ⊎ ((t : ℕ) × (among t (this_chunk ∷ zs) ≡ true)
          × (size ≤ m.head_size t)
          × (search_bin fuel bin this_chunk end size m ≡ some (t, taken bin t size m)))
unfolding search_bin
search_bin-Chain zero bin this_chunk end size m zs l h o = absurd (omega arith)
search_bin-Chain (suc k) bin this_chunk end size m [] l h o =
    elim (Bool-cases (ltb size (m.head_size this_chunk))) [
      | inl e ↦ inr (this_chunk, ground arith, ground arith, rw e refl)
      | inr e ↦ elim (Bool-cases (m.head_size this_chunk == size)) [
        | inl e' ↦ inr (this_chunk, ground arith, ground arith, rw (e, e') refl)
        | inr e' ↦
            let around : (m.links.next this_chunk == end) ≡ true = ground arith in
            inl (rw (e, e', around) refl, λ p k. ground arith)
      ]
    ]
search_bin-Chain (suc k) bin this_chunk end size m (z ∷ zs) l h o =
    elim (Bool-cases (ltb size (m.head_size this_chunk))) [
      | inl e ↦ inr (this_chunk, ground arith, ground arith, rw e refl)
      | inr e ↦ elim (Bool-cases (m.head_size this_chunk == size)) [
        | inl e' ↦ inr (this_chunk, ground arith, ground arith, rw (e, e') refl)
        | inr e' ↦
            let on : (m.links.next this_chunk == end) ≡ false = ground arith in
            let next = h.0.0 in
            elim (search_bin-Chain k bin z end size m zs (omega arith) h.1 (ground arith)) [
              | inl (none_found, small) ↦
                  inl (rw (e, e', on, next) none_found, λ p k. ground (arith, small p))
              | inr (t, member, large, found_it) ↦
                  inr (t, ground arith, large, rw (e, e', on, next) found_it)
            ]
      ]
    ]

-- A free block in the bin `i`, of at least `n` pages.
abbrev pub fits : (i n : ℕ) → List Block → Bool
fits i n [] = false
fits i n (b ∷ bs) = (of_bin i b && leb n b.size) || fits i n bs

head_size-Sized :
    (m : Mm) (s n : ℕ) (used : Bool)
    → used ≡ false
    → Sized m s n used
    → m.head_size (pn_to_pa s) ≡ n
head_size-Sized m s n true e h = ground arith
head_size-Sized m s n false e h = h.0

-- The heads of a bin's chunks tell whether one fits.
pub fits-head_size :
    (m : Mm) (i n s : ℕ) (bs : List Block)
    → Tiles m s bs
    → ((p : ℕ) → found p i s bs ≡ true → m.head_size p < n)
    → fits i n bs ≡ false
fits-head_size m i n s [] h small = refl
fits-head_size m i n s (b ∷ bs) (pos, a, z, sized, h) small =
    let ih = fits-head_size m i n (s + b.size) bs h (λ p f. small p (ground arith)) in
    elim (Bool-cases b.used) [
      | inl e ↦ ground arith
      | inr e ↦
          let head = head_size-Sized m s b.size b.used e sized in ground (arith, small (pn_to_pa s))
    ]

-- A chunk is a free block.
pub found-split :
    (p i s : ℕ) (bs : List Block)
    → found p i s bs ≡ true
    → (us : List Block) × (k : ℕ) × (vs : List Block) × (bs ≡ us ++ free_block k ∷ vs)
      × (p ≡ pn_to_pa (s + total us))
      × (find_bin k ≡ i)
found-split p i s [] f = ground arith
found-split p i s (b ∷ bs) f = elim (Bool-cases (of_bin i b && (p == pn_to_pa s))) [
  | inl e ↦
      let free : b.used ≡ false = ground arith in
      let same = free_eta b free in
      let zero_on : s ≡ s + 0 = omega arith in
      ([], b.size, bs, ap (λ y. y ∷ bs) same, (ground arith) ∙ ap pn_to_pa zero_on, ground arith)
  | inr e ↦
      let (us, k, vs, eq, here, bin) = found-split p i (s + b.size) bs (ground arith) in
      (b ∷ us, k, vs, ap (λ y. b ∷ y) eq, here ∙ ap pn_to_pa (omega arith), bin)
]
