-- ===== src/Space/Overlap.antt =====
-- kern/sched.c: the tests of add_region on the bounds of a region and on its overlap with others.
use pebpeb_os.Base.{
  ℕ, ◌+◌, ◌*◌, ◌%◌, ◌^◌, ◌≤◌, ◌<◌, ◌≡◌, ◌↔◌, ◌⊎◌, inl, inr, refl, Bool, true, false, ◌||◌, ◌&&◌,
  Bool-cases, List, [], ◌∷◌, ltb, leb, arith,
}
use pebpeb_os.Paging.{page_size, user_mem_start}
use pebpeb_os.Space.{Region, default_stack_end, overlaps, any_overlaps}

-- A region has a page, does not wrap around, and starts in the part of memory that is for regions.
abbrev pub IsRegion : Region → Type 0
IsRegion r =
    (user_mem_start ≤ r.addr)
    × (r.addr ≤ default_stack_end)
    × (0 < r.size)
    × (r.addr + r.size < 2 ^ 32)

abbrev pub Apart : Region → Region → Type 0
Apart r q = (r.addr + r.size ≤ q.addr) ⊎ (q.addr + q.size ≤ r.addr)

abbrev pub AllApart : Region → List Region → Type 0
AllApart r [] = Unit
AllApart r (q ∷ rs) = Apart q r × AllApart r rs

-- The regions of a process: no two of them share an address.
abbrev pub IsSpace : List Region → Type 0
IsSpace [] = Unit
IsSpace (r ∷ rs) = IsRegion r × AllApart r rs × IsSpace rs

abbrev pub region_of : (start n pa is_rw : ℕ) → Region
region_of start n pa is_rw = record {
  addr = start;
  size = n * page_size;
  paddr = pa;
  is_rw = is_rw;
}

-- The four tests on two parts of memory that are not empty.
tests-apart :
    (s e a b : ℕ)
    → s < e
    → a < b
    → (((leb a s && ltb s b)
          || (ltb a e && leb e b)
          || (leb s a && ltb a e)
          || (ltb s b && leb b e))
        ≡ false)
    → (b ≤ s) ⊎ (e ≤ a)
tests-apart s e a b p q h = elim (Bool-cases (leb b s)) [
  | inl z ↦ inl (ground arith)
  | inr z ↦ elim (Bool-cases (leb e a)) [
    | inl y ↦ inr (ground arith)
    | inr y ↦ absurd (ground arith)
  ]
]

apart-tests :
    (s e a b : ℕ)
    → s < e
    → a < b
    → (b ≤ s) ⊎ (e ≤ a)
    → ((leb a s && ltb s b) || (ltb a e && leb e b) || (leb s a && ltb a e) || (ltb s b && leb b e))
      ≡ false
apart-tests s e a b p q (inl h) = ground arith
apart-tests s e a b p q (inr h) = ground arith

pub no_wrap : (a : ℕ) → a < 2 ^ 32 → a % 2 ^ 32 ≡ a
no_wrap a h = omega arith

-- For a region of the process the four tests say whether there is a common address.
pub overlaps_iff :
    (start n pa is_rw : ℕ) (r : Region)
    → IsRegion r
    → 0 < n
    → start + n * page_size < 2 ^ 32
    → (overlaps start ((start + n * page_size) % 2 ^ 32) r ≡ false)
      ↔ Apart r (region_of start n pa is_rw)
overlaps_iff start n pa is_rw r (lo, hi, some_page, inside) pos small =
    rw (no_wrap (start + n * page_size) small, no_wrap (r.addr + r.size) inside)
      (
        tests-apart start (start + n * page_size) r.addr (r.addr + r.size) (omega arith)
            (omega arith),
        apart-tests start (start + n * page_size) r.addr (r.addr + r.size) (omega arith)
            (omega arith),
      )

ltb-false : (a b : ℕ) → ltb a b ≡ false → b ≤ a
ltb-false a b h = ground arith

or-false : (a b : Bool) → (a || b) ≡ false → (a ≡ false) × (b ≡ false)
or-false false b h = (refl, h)
or-false true b h = cc

pub any_overlaps_iff :
    (start n pa is_rw : ℕ) (rs : List Region)
    → IsSpace rs
    → 0 < n
    → start + n * page_size < 2 ^ 32
    → (any_overlaps start ((start + n * page_size) % 2 ^ 32) rs ≡ false)
      ↔ AllApart (region_of start n pa is_rw) rs
any_overlaps_iff start n pa is_rw [] h pos small = (λ e. tt, λ e. refl)
any_overlaps_iff start n pa is_rw (r ∷ rs) (good, apart, h) pos small =
    let (one, one') = overlaps_iff start n pa is_rw r good pos small in
    let (all, all') = any_overlaps_iff start n pa is_rw rs h pos small in
    (λ e. (one (or-false _ _ e).0, all (or-false _ _ e).1), λ x. rw (one' x.0, all' x.1) refl)

pub true-false : ¬ (true ≡ false)
true-false e = cc

-- The tests on the bounds of a new region.
pub bounds_in :
    (s : ℕ)
    → (ltb default_stack_end s || ltb s user_mem_start) ≡ false
    → (user_mem_start ≤ s) × (s ≤ default_stack_end)
bounds_in s e =
    let (a, b) = or-false (ltb default_stack_end s) (ltb s user_mem_start) e in
    (ground arith, ground arith)

pub bounds_out :
    (s : ℕ)
    → (ltb default_stack_end s || ltb s user_mem_start) ≡ true
    → user_mem_start ≤ s
    → s ≤ default_stack_end
    → ⊥
bounds_out s e lo hi = ground arith

pub wraps_out : (e s : ℕ) → ltb (e % 2 ^ 32) s ≡ true → e < 2 ^ 32 → s ≤ e → ⊥
wraps_out e s w inside le =
    let z = no_wrap e inside in let w' : ltb e s ≡ true = rw z at w in ground arith

pub no_wrap_in :
    (size s : ℕ)
    → s ≤ default_stack_end
    → size < 2 ^ 32
    → ltb ((s + size) % 2 ^ 32) s ≡ false
    → s + size < 2 ^ 32
no_wrap_in size s hi small w = let w' : s ≤ (s + size) % 2 ^ 32 = ltb-false _ s w in omega arith
