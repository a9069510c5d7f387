-- ===== src/Space/Remove.antt =====
-- kern/syscall_memory.c: the regions after remove_pages.
use mathlib.Core.Path.{subst}
use mathlib.Core.Option.{some-injective}
use mathlib.Core.List.{append-nil}
use pebpeb_os.Base.{
  ℕ, ◌*◌, ◌/◌, ◌^◌, ◌≤◌, ◌<◌, ◌≡◌, inl, inr, refl, sym, ◌∙◌, ap, Bool, true, false, Bool-cases,
  Option-cases, List, [], ◌∷◌, ◌++◌, Option, none, some, ◌==◌, arith,
}
use pebpeb_os.Paging.{page_size}
use pebpeb_os.Space.{
  Region, Space, find_region, take_out, clear_pages, sys_new_pages_real, sys_remove_pages_real,
}
use pebpeb_os.Space.NewPages.{sys_new_pages_real-Outcome}
use pebpeb_os.Space.Overlap.{IsRegion, AllApart, IsSpace, region_of}

-- Every region of the first list is apart from every one of the second.
abbrev Across : List Region → List Region → Type 0
Across [] ys = Unit
Across (x ∷ xs) ys = AllApart x ys × Across xs ys

AllApart-split :
    (q : Region) (xs ys : List Region) → AllApart q (xs ++ ys) → AllApart q xs × AllApart q ys
AllApart-split q [] ys h = (tt, h)
AllApart-split q (x ∷ xs) ys (a, h) = let (l, r) = AllApart-split q xs ys h in ((a, l), r)

AllApart-join :
    (q : Region) (xs ys : List Region) → AllApart q xs → AllApart q ys → AllApart q (xs ++ ys)
AllApart-join q [] ys l r = r
AllApart-join q (x ∷ xs) ys (a, l) r = (a, AllApart-join q xs ys l r)

IsSpace-split : (xs ys : List Region) → IsSpace (xs ++ ys) → IsSpace xs × IsSpace ys × Across xs ys
IsSpace-split [] ys h = (tt, h, tt)
IsSpace-split (x ∷ xs) ys (good, apart, h) =
    let (l, r, c) = IsSpace-split xs ys h in
    let (a, b) = AllApart-split x xs ys apart in ((good, a, l), r, (b, c))

IsSpace-join : (xs ys : List Region) → IsSpace xs → IsSpace ys → Across xs ys → IsSpace (xs ++ ys)
IsSpace-join [] ys l r c = r
IsSpace-join (x ∷ xs) ys (good, apart, l) r (b, c) =
    (good, AllApart-join x xs ys apart b, IsSpace-join xs ys l r c)

-- What replaces the second list, if every region that is apart from that one is apart from it.
Across-map :
    (xs ys zs : List Region)
    → ((q : Region) → AllApart q ys → AllApart q zs)
    → Across xs ys
    → Across xs zs
Across-map [] ys zs f h = tt
Across-map (x ∷ xs) ys zs f (a, h) = (f x a, Across-map xs ys zs f h)

take_out-IsSpace :
    (xs : List Region) (r : Region) (ys : List Region)
    → IsSpace (xs ++ r ∷ ys)
    → IsSpace (take_out xs ys)
take_out-IsSpace xs r ys h =
    let (l, (good, a, rest), c) = IsSpace-split xs (r ∷ ys) h in
    IsSpace-join xs ys l rest (Across-map xs (r ∷ ys) ys (λ q x. x.1) c)

-- What find_region finds.
find_region-split :
    (base : ℕ) (rs : List Region) (f : List Region × Region × List Region)
    → find_region base rs ≡ some f
    → rs ≡ f.0 ++ f.1 ∷ f.2
find_region-split base [] f e = cc
find_region-split base (r ∷ rs) f e = elim (Bool-cases (base == r.addr)) [
  | inl z ↦
      ap (λ (g : List Region × Region × List Region). g.0 ++ g.1 ∷ g.2)
        (some-injective _ _ (rw z at e))
  | inr z ↦ elim (Option-cases (find_region base rs)) [
    | inl y ↦ cc (rw (z, y) at e)
    | inr (g, y) ↦
        let same = some-injective _ _ (rw (z, y) at e) in
        ap (λ l. r ∷ l) (find_region-split base rs g y)
        ∙ ap (λ (g : List Region × Region × List Region). g.0 ++ g.1 ∷ g.2) same
  ]
]

-- The region behind others that start elsewhere.
find_region-last :
    (r : Region) (rs : List Region)
    → IsRegion r
    → IsSpace rs
    → AllApart r rs
    → find_region r.addr (rs ++ r ∷ []) ≡ some (rs, r, [])
find_region-last r [] g h a = elim (Bool-cases (r.addr == r.addr)) [
  | inl z ↦ rw z refl
  | inr z ↦ absurd (ground arith)
]
find_region-last r (q ∷ rs) g (good, x, h) (a, b) = elim (Bool-cases (r.addr == q.addr)) [
  | inl z ↦ absurd (elim a [ inl y ↦ ground arith | inr y ↦ ground arith ])
  | inr z ↦ rw (z, find_region-last r rs g h b) refl
]

module _ {A : Type 0} (alloc : ℕ → A → Option (ℕ × A)) (free : (pa n_pages : ℕ) → A → A) where
  -- The two cases of remove_pages.
  remove-none :
      (base : ℕ) (s : Space A)
      → find_region base s.regions ≡ none
      → sys_remove_pages_real alloc free base s ≡ (false, s)
  unfolding sys_remove_pages_real
  remove-none base s e = rw (sys_remove_pages_real, e) refl

  remove-some :
      (base : ℕ) (s : Space A) (f : List Region × Region × List Region)
      → find_region base s.regions ≡ some f
      → sys_remove_pages_real alloc free base s ≡ (
        true,
        record (clear_pages alloc free base (f.1.size / page_size) s) {
          regions = take_out f.0 f.2;
          pages =
              free f.1.paddr
                (f.1.size / page_size)
                (clear_pages alloc free base (f.1.size / page_size) s).pages;
        },
      )
  unfolding sys_remove_pages_real
  remove-some base s f e = rw (sys_remove_pages_real, e) refl

  -- Whatever region remove_pages takes out, no two of the others share an address.
  sys_remove_pages_real-IsSpace :
      (base : ℕ) (s : Space A)
      → IsSpace s.regions
      → IsSpace (sys_remove_pages_real alloc free base s).1.regions
  sys_remove_pages_real-IsSpace base s h = elim (Option-cases (find_region base s.regions)) [
    | inl e ↦ subst (λ r. IsSpace r.1.regions) (sym (remove-none base s e)) h
    | inr (f, e) ↦
        let kept = subst IsSpace (find_region-split base s.regions f e) h in
        subst (λ r. IsSpace r.1.regions) (sym (remove-some base s f e))
          (take_out-IsSpace f.0 f.1 f.2 kept)
  ]

  -- For a process whose regions are apart and a length that is at least a page and below 2 GB: when
  -- new_pages succeeds, remove_pages of the same address succeeds, leaves the regions as they were
  -- before both, and gives back the pages that new_pages took for the region.
  pub sys_new_pages_real-sys_remove_pages_real :
      (grows : ℕ → Bool) (base len : ℕ) (s : Space A)
      → IsSpace s.regions
      → page_size ≤ len
      → len < 2 ^ 31
      → (sys_new_pages_real alloc free grows (some base) (some len) s).0 ≡ true
      → (let s1 = (sys_new_pages_real alloc free grows (some base) (some len) s).1 in
          let (ok, s2) = sys_remove_pages_real alloc free base s1 in
          (ok ≡ true)
          × (s2.regions ≡ s.regions)
          × (a : ℕ × A) × (alloc (len / page_size) s.pages ≡ some a)
          × (left : A) × (s2.pages ≡ free a.0 (len / page_size) left))
  sys_new_pages_real-sys_remove_pages_real grows base len s h some_page small done =
      elim (sys_new_pages_real-Outcome alloc free grows base len s h some_page small) [
        | inl (ok, a, got, longer, (lo, hi, inside, apart, room)) ↦
            let r = region_of base (len / page_size) a.0 1 in
            let found = find_region-last r s.regions (lo, hi, omega arith, inside) h apart in
            let pages : len / page_size * page_size / page_size ≡ len / page_size = omega arith in
            let s1 = (sys_new_pages_real alloc free grows (some base) (some len) s).1 in
            let removed =
              remove-some base s1 (s.regions, r, []) (ap (find_region base) longer ∙ found) in
            let left = (clear_pages alloc free base (r.size / page_size) s1).pages in
            rw removed (refl, append-nil s.regions, a, got, left, ap (λ n. free a.0 n left) pages)
        | inr (inl x) ↦ cc
        | inr (inr x) ↦ cc
      ]
