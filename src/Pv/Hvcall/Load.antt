-- ===== src/Pv/Hvcall/Load.antt =====
-- kern/hvcall.c: hvcall_loadpd frees the shadow page tables that it passes over.
use pebpeb_os.Base.{
  ℕ, ◌+◌, ◌*◌, ◌%◌, ◌^◌, ◌<◌, ◌≡◌, ◌≢◌, ◌⊎◌, inl, inr, refl, ap, ◌∙◌, true, false, Bool-cases, List,
  [], ◌∷◌, ◌++◌, arith, ◌==◌,
}
use pebpeb_os.Usermem.Copy.{Holds}
use pebpeb_os.Paging.{user_mem_start}
use pebpeb_os.Pv.Vm.{Vm, ok, memory, bytes_of, ◌>>=◌}
use pebpeb_os.Pv.Access.{argument-Holds}
use pebpeb_os.Pv.Hvcall.{is_zero, find_pd, search_pd, hvcall_loadpd, release_pd, pv_select_pd}
use pebpeb_os.Base.Members.{In, In-remove_ne, In-append}
use pebpeb_os.Pv.Hvcall.Counts.{old_count, select_lem}

-- What the loop compares `guest_pd` with.
abbrev pub key : ℕ → ℕ
key pd = (pd + user_mem_start) % 2 ^ 32

abbrev pub NoMatch : (pd : ℕ) → Vm → List ℕ → Type 0
NoMatch pd g [] = Unit
NoMatch pd g (x ∷ xs) = ((g.pds x).guest_pd ≢ key pd) × NoMatch pd g xs

abbrev passed : List ℕ → Vm → Vm
passed [] g = g
passed (x ∷ xs) g = passed xs (record g { freed = x ∷ g.freed })

NoMatch-freed :
    (pd x : ℕ) (g : Vm) (xs : List ℕ)
    → NoMatch pd g xs
    → NoMatch pd (record g { freed = x ∷ g.freed }) xs
NoMatch-freed pd x g [] n = tt
NoMatch-freed pd x g (y ∷ ys) n = (n.0, NoMatch-freed pd x g ys n.1)

find_pd-passed :
    (pd b : ℕ) (xs ys : List ℕ) (g : Vm)
    → NoMatch pd g xs
    → (g.pds b).guest_pd ≡ key pd
    → find_pd pd (xs ++ b ∷ ys) g ≡ ok tt (pv_select_pd b (passed xs g))
unfolding find_pd
find_pd-passed pd b [] ys g n e =
    let hit : ((g.pds b).guest_pd == key pd) ≡ true = ground arith in rw hit refl
find_pd-passed pd b (x ∷ xs) ys g n e =
    let miss : ((g.pds x).guest_pd == key pd) ≡ false = ground (arith, n.0) in
    rw miss
      (find_pd-passed pd b xs ys (record g { freed = x ∷ g.freed }) (NoMatch-freed pd x g xs n.1) e)

search_pd-append :
    (pd b : ℕ) (xs ys : List ℕ) (g : Vm)
    → search_pd pd (xs ++ b ∷ ys) g ≡ find_pd pd (xs ++ b ∷ ys) g
unfolding search_pd
search_pd-append pd b [] ys g = refl
search_pd-append pd b (x ∷ xs) ys g = refl

freed_passed : (a : ℕ) (xs : List ℕ) (g : Vm) → In a xs ⊎ In a g.freed → In a (passed xs g).freed
freed_passed a [] g (inl h) = absurd h
freed_passed a [] g (inr h) = h
freed_passed a (x ∷ xs) g (inl (inl e)) = freed_passed a xs _ (inr (inl e))
freed_passed a (x ∷ xs) g (inl (inr h)) = freed_passed a xs _ (inl h)
freed_passed a (x ∷ xs) g (inr h) = freed_passed a xs _ (inr (inr h))

same_passed :
    (xs : List ℕ) (g : Vm)
    → ((passed xs g).shadow_pds ≡ g.shadow_pds)
      × ((passed xs g).active_shadow_pd ≡ g.active_shadow_pd)
same_passed [] g = (refl, refl)
same_passed (x ∷ xs) g = same_passed xs (record g { freed = x ∷ g.freed })

select-keeps :
    (a b : ℕ) (g : Vm)
    → (In a g.freed → In a (pv_select_pd b g).freed)
      × (a ≢ g.active_shadow_pd → In a g.shadow_pds → In a (pv_select_pd b g).shadow_pds)
unfolding release_pd
select-keeps a b g = elim (Bool-cases (is_zero (old_count b g))) [
  | inl z ↦
      rw (select_lem b g, z)
        (λ h. inr h, λ ne h. In-remove_ne g.active_shadow_pd a g.shadow_pds ne h)
  | inr more ↦ rw (select_lem b g, more) (λ h. h, λ ne h. h)
]

-- hvcall_loadpd finds the wanted page table behind others: it returns, but each of the others has
-- been given back with sfree, and but for the one that was active they all stay in the queue.
pub hvcall_loadpd-frees :
    (pd a b : ℕ) (xs ys : List ℕ) (g : Vm)
    → pd < 2 ^ 32
    → Holds (memory g) (g.frame.esp + 4 * 0) (bytes_of 4 pd)
    → g.shadow_pds ≡ xs ++ b ∷ ys
    → NoMatch pd g xs
    → (g.pds b).guest_pd ≡ key pd
    → In a xs
    → (g' : Vm) × (hvcall_loadpd g ≡ ok tt g')
      × In a g'.freed
      × (a ≢ g.active_shadow_pd → In a g'.shadow_pds)
unfolding hvcall_loadpd
hvcall_loadpd-frees pd a b xs ys g small arg queue miss hit before =
    let h = passed xs g in
    let (same, active) = same_passed xs g in
    let (freed, listed) = select-keeps a b h in
    (
      pv_select_pd b h,
      rw (argument-Holds 0 pd g small arg, ◌>>=◌)
          (ap (λ q. search_pd pd q g) queue
            ∙ search_pd-append pd b xs ys g
            ∙ find_pd-passed pd b xs ys g miss hit),
      freed (freed_passed a xs g (inl before)),
      λ ne. listed (λ q. ne (q ∙ active)) (rw (same, queue) (In-append a xs (b ∷ ys) before)),
    )
