-- ===== src/Space/Regions.antt =====
-- kern/sched.c: the regions of a process after add_region.
use pebpeb_os.Base.{
  ℕ, ◌+◌, ◌*◌, ◌%◌, ◌^◌, ◌≤◌, ◌<◌, ◌≡◌, ◌⊎◌, inl, inr, refl, sym, ◌∙◌, Bool, true, false, ◌||◌,
  Bool-cases, List, [], ◌∷◌, ◌++◌, length, ltb, arith,
}
use pebpeb_os.Paging.{page_size, user_mem_start}
use pebpeb_os.Space.{Region, default_stack_end, any_overlaps, add_region}
use pebpeb_os.Space.Overlap.{
  IsRegion, Apart, AllApart, IsSpace, region_of, any_overlaps_iff, true-false, bounds_in,
  bounds_out, wraps_out, no_wrap_in,
}

-- What a new region has to satisfy: it lies in the part of memory that is for regions, does not wrap
-- around, shares no address with another one, and the vector has room for it.
abbrev pub Fits : (grows : ℕ → Bool) (start n pa is_rw : ℕ) → List Region → Type 0
Fits grows start n pa is_rw rs =
    (user_mem_start ≤ start)
    × (start ≤ default_stack_end)
    × (start + n * page_size < 2 ^ 32)
    × AllApart (region_of start n pa is_rw) rs
    × (grows (length rs) ≡ true)

-- For a process whose regions are apart and a number of pages that is neither 0 nor too large for 32
-- bits, add_region adds the region at the end if it fits, and else fails and changes nothing.
pub add_region_iff :
    (grows : ℕ → Bool) (start n pa is_rw : ℕ) (rs : List Region)
    → IsSpace rs
    → 0 < n
    → n * page_size < 2 ^ 32
    → ((add_region grows start n pa is_rw rs ≡ (true, rs ++ region_of start n pa is_rw ∷ []))
        × Fits grows start n pa is_rw rs)
      ⊎ ((add_region grows start n pa is_rw rs ≡ (false, rs)) × ¬ Fits grows start n pa is_rw rs)
unfolding add_region
add_region_iff grows start n pa is_rw rs h pos size =
    elim (Bool-cases (ltb default_stack_end start || ltb start user_mem_start)) [
      | inl e ↦ inr (rw e refl, λ (lo, hi, inside, a, y). bounds_out start e lo hi)
      | inr e ↦ elim (Bool-cases (ltb stop start)) [
        | inl w ↦ inr (
          rw (e, w) refl,
          λ (lo, hi, inside, a, y). wraps_out (start + n * page_size) start w inside (omega arith),
        )
        | inr w ↦ elim (Bool-cases (any_overlaps start stop rs)) [
          | inl o ↦ inr (
            rw (e, w, o) refl,
            λ (lo, hi, inside, a, g).
                true-false (sym o ∙ (any_overlaps_iff start n pa is_rw rs h pos inside).1 a),
          )
          | inr o ↦ elim (Bool-cases (grows (length rs))) [
            | inl g ↦ inl (
              rw (e, w, o, g) refl,
              (
                (bounds_in start e).0,
                (bounds_in start e).1,
                small e w,
                (any_overlaps_iff start n pa is_rw rs h pos (small e w)).0 o,
                g,
              ),
            )
            | inr g ↦ inr (rw (e, w, o, g) refl, λ (lo, hi, inside, a, y). true-false (sym y ∙ g))
          ]
        ]
      ]
    ]
  where
    stop : ℕ
    stop = (start + n * page_size) % 2 ^ 32

    small :
        (ltb default_stack_end start || ltb start user_mem_start) ≡ false
        → ltb stop start ≡ false
        → start + n * page_size < 2 ^ 32
    small e w = no_wrap_in (n * page_size) start (bounds_in start e).1 size w

AllApart-snoc :
    (r q : Region) (rs : List Region) → AllApart r rs → Apart q r → AllApart r (rs ++ q ∷ [])
AllApart-snoc r q [] h a = (a, tt)
AllApart-snoc r q (x ∷ rs) (b, h) a = (b, AllApart-snoc r q rs h a)

Apart-sym : (r q : Region) → Apart r q → Apart q r
Apart-sym r q (inl h) = inr h
Apart-sym r q (inr h) = inl h

IsSpace-snoc :
    (rs : List Region) (r : Region)
    → IsSpace rs
    → IsRegion r
    → AllApart r rs
    → IsSpace (rs ++ r ∷ [])
IsSpace-snoc [] r h g a = (g, tt, tt)
IsSpace-snoc (q ∷ rs) r (good, apart, h) g (b, a) =
    (good, AllApart-snoc q r rs apart (Apart-sym q r b), IsSpace-snoc rs r h g a)

-- Whatever add_region answers, no two regions of the process share an address.
add_region-IsSpace :
    (grows : ℕ → Bool) (start n pa is_rw : ℕ) (rs : List Region)
    → IsSpace rs
    → 0 < n
    → n * page_size < 2 ^ 32
    → IsSpace (add_region grows start n pa is_rw rs).1
add_region-IsSpace grows start n pa is_rw rs h pos size =
    elim (add_region_iff grows start n pa is_rw rs h pos size) [
      | inl (e, (lo, hi, inside, apart, room)) ↦
          rw e (IsSpace-snoc rs (region_of start n pa is_rw) h (lo, hi, omega arith, inside) apart)
      | inr (e, x) ↦ rw e h
    ]
