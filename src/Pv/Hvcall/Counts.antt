-- ===== src/Pv/Hvcall/Counts.antt =====
-- kern/pv.c: the reference counts of a guest's shadow page tables.
use mathlib.Core.Path.{subst}
use pebpeb_os.Base.{
  ℕ, zero, suc, ◌+◌, ◌<◌, ◌≡◌, ◌≢◌, ◌⊎◌, inl, inr, refl, sym, ap, ◌∙◌, true, false, Bool-cases, ◌∷◌,
  arith, ◌==◌, if◌then◌else◌,
}
use pebpeb_os.Base.Int.{ℤ, pos, negsuc, ◌+ℤ◌}
use pebpeb_os.Pv.Vidt.{write}
use pebpeb_os.Pv.Vm.{Vm, PvPd}
use pebpeb_os.Base.Members.{In, Distinct, In-remove, In-remove_ne, not-In-remove, Distinct-remove}
use pebpeb_os.Pv.Hvcall.{is_zero, is_positive, release_pd, pv_select_pd}

abbrev pub IsCounted : PvPd → Type 0
IsCounted pd = is_positive pd.refcount ≡ true

-- Every shadow page table in the queue is referenced, the active one among them.
pub record Counted (g : Vm) : Type 0 where
  pub active_listed : In g.active_shadow_pd g.shadow_pds
  pub distinct : Distinct g.shadow_pds
  pub counted : (b : ℕ) → In b g.shadow_pds → IsCounted (g.pds b)

-- `a` can be selected: it is in the queue, and it may be new, with no reference yet.
pub record Selectable (a : ℕ) (g : Vm) : Type 0 where
  pub listed : In a g.shadow_pds
  pub active_listed : In g.active_shadow_pd g.shadow_pds
  pub distinct : Distinct g.shadow_pds
  pub others : (b : ℕ) → In b g.shadow_pds → b ≢ a → IsCounted (g.pds b)
  pub count : ℕ
  pub target : (g.pds a).refcount ≡ pos count
  pub not_new : a ≡ g.active_shadow_pd → 0 < count

-- The counts after the two changes of pv_select_pd.
pub recount : (a old : ℕ) → (ℕ → PvPd) → ℕ → PvPd
recount a old pds =
    let pds1 = write pds a (record (pds a) { refcount = (pds a).refcount +ℤ pos 1 }) in
    write pds1 old (record (pds1 old) { refcount = (pds1 old).refcount +ℤ negsuc 0 })

add_one : (n : ℕ) → pos n +ℤ pos 1 ≡ pos (n + 1)
unfolding ◌+ℤ◌
add_one n = ground arith

back_one : (n : ℕ) → pos (n + 1) +ℤ negsuc 0 ≡ pos n
unfolding ◌+ℤ◌
back_one n = ground arith

drop_one :
    (r : ℤ)
    → is_positive r ≡ true
    → (is_positive (r +ℤ negsuc 0) ≡ true) ⊎ ((r +ℤ negsuc 0 ≡ pos 0) × (r ≡ pos 1))
unfolding ◌+ℤ◌
drop_one (pos zero) h = cc
drop_one (pos (suc zero)) h = inr (refl, refl)
drop_one (pos (suc (suc n))) h = inl (ground arith)
drop_one (negsuc n) h = cc

recount-IsCounted :
    (a old : ℕ) (pds : ℕ → PvPd) (n b : ℕ)
    → (pds a).refcount ≡ pos n
    → (a ≡ old → 0 < n)
    → (b ≢ a → IsCounted (pds b))
    → IsCounted (recount a old pds b)
      ⊎ ((b ≡ old)
          × (b ≢ a)
          × ((recount a old pds b).refcount ≡ pos 0)
          × ((pds b).refcount ≡ pos 1))
unfolding recount
recount-IsCounted a old pds n b e fresh h = elim (Bool-cases (b == old)) [
  | inl is_old ↦ elim (Bool-cases (b == a)) [
    | inl is_a ↦
        let at_old : (old == a) ≡ true = ground arith in
        inl (rw (is_old, at_old, e, add_one, back_one) (ground (arith, fresh (ground arith))))
    | inr not_a ↦
        let at_old : (old == a) ≡ false = ground arith in
        let same : b ≡ old = ground arith in
        let differ : b ≢ a = λ q. ground arith in
        elim (drop_one (pds old).refcount (rw same at (h differ))) [
          | inl more ↦ inl (rw (is_old, at_old) more)
          | inr (none_left, one) ↦ inr (same, differ, rw (is_old, at_old) none_left, rw same one)
        ]
  ]
  | inr not_old ↦ elim (Bool-cases (b == a)) [
    | inl is_a ↦ inl (rw (not_old, is_a, e, add_one) (ground arith))
    | inr not_a ↦ inl (rw (not_old, not_a) (h (ground arith)))
  ]
]

-- pv_select_pd before the test for a count of 0.
abbrev pub moved : (a : ℕ) → Vm → Vm
moved a g = record g {
  active_shadow_pd = a;
  cr3 = (write g.pds a (record (g.pds a) { refcount = (g.pds a).refcount +ℤ pos 1 }) a).cr3;
  pds = recount a g.active_shadow_pd g.pds;
}

abbrev pub old_count : (a : ℕ) → Vm → ℤ
old_count a g = (recount a g.active_shadow_pd g.pds g.active_shadow_pd).refcount

pub select_lem :
    (a : ℕ) (g : Vm)
    → pv_select_pd a g
      ≡ (if is_zero (old_count a g) then release_pd g.active_shadow_pd (moved a g) else moved a g)
unfolding pv_select_pd recount
select_lem a g = refl

is_zero_of : (r : ℤ) → is_zero r ≡ true → ¬ (is_positive r ≡ true)
is_zero_of (pos zero) z p = cc
is_zero_of (pos (suc n)) z p = ground arith
is_zero_of (negsuc n) z p = cc

module _ (a : ℕ) (g : Vm) (s : Selectable a g) where
  abbrev pub old_pd : ℕ
  old_pd = g.active_shadow_pd

  cases :
      (b : ℕ)
      → In b g.shadow_pds
      → IsCounted (recount a old_pd g.pds b)
        ⊎ ((b ≡ old_pd)
            × (b ≢ a)
            × ((recount a old_pd g.pds b).refcount ≡ pos 0)
            × ((g.pds b).refcount ≡ pos 1))
  cases b listed = recount-IsCounted a old_pd g.pds s.count b s.target s.not_new (s.others b listed)

  -- What pv_select_pd makes of the guest.
  abbrev pub Selected : Vm → Type 0
  Selected g' =
      Counted g'
      × (g'.active_shadow_pd ≡ a)
      × (((g'.freed ≡ g.freed) × (g'.shadow_pds ≡ g.shadow_pds))
          ⊎ ((g'.freed ≡ old_pd ∷ g.freed) × (a ≢ old_pd) × ((g.pds old_pd).refcount ≡ pos 1)))

  kept_Selected : is_zero (old_count a g) ≡ false → Selected (moved a g)
  kept_Selected more = (
    record {
      active_listed = s.listed;
      distinct = s.distinct;
      counted = λ b listed. elim (cases b listed) [
        | inl k ↦ k
        | inr (same, differ, none_left, one) ↦
            let zero_left : is_zero (old_count a g) ≡ true = ap is_zero (rw same at none_left) in cc
      ];
    },
    refl,
    inl (refl, refl),
  )

  released_Selected : is_zero (old_count a g) ≡ true → Selected (release_pd old_pd (moved a g))
  unfolding release_pd
  released_Selected z = elim (cases old_pd s.active_listed) [
    | inl k ↦ absurd (is_zero_of (old_count a g) z k)
    | inr (same, differ, none_left, one) ↦ (
      record {
        active_listed = In-remove_ne old_pd a g.shadow_pds (λ q. differ (sym q)) s.listed;
        distinct = Distinct-remove old_pd g.shadow_pds s.distinct;
        counted = λ b listed. elim (cases b (In-remove old_pd b g.shadow_pds listed)) [
          | inl k ↦ k
          | inr (is_old, differ', none', one') ↦
              absurd (not-In-remove old_pd g.shadow_pds s.distinct (rw is_old at listed))
        ];
      },
      refl,
      inr (refl, λ q. differ (sym q), one),
    )
  ]

-- pv_select_pd leaves every shadow page table that is still in the queue with a reference, makes `a`
-- the active one, and gives up at most the one that was active: if so it is not `a`, and it had one
-- reference.
pub pv_select_pd-Selected :
    (a : ℕ) (g : Vm) (s : Selectable a g) → Selected a g s (pv_select_pd a g)
pv_select_pd-Selected a g s = elim (Bool-cases (is_zero (old_count a g))) [
  | inl z ↦ subst (Selected a g s) (sym (select_lem a g ∙ rw z refl)) (released_Selected a g s z)
  | inr more ↦
      subst (Selected a g s) (sym (select_lem a g ∙ rw more refl)) (kept_Selected a g s more)
]
