-- ===== src/Mm/Take.antt =====
-- kern/mm.c: a free block is taken, whole or in part (alloc_from_bin after its search).
use pebpeb_os.Base.{
  ℕ, suc, ◌+◌, ◌-◌, ◌^◌, ◌≤◌, ◌<◌, ◌≡◌, refl, ap, ◌∙◌, sym, inl, List, [], ◌∷◌, ◌++◌, arith,
}
use mathlib.Core.Path.{subst}
use mathlib.Core.List.{append_assoc}
use pebpeb_os.Mm.{
  Mm, is_page_inuse, set_page_inuse, set_page_free, mark_used, pn_to_pa, find_bin, bin_insert,
  bin_delete, add_to_bins,
}
use pebpeb_os.Mm.Blocks.{
  Block, total, total-append, Positive, Positive-append, append-Positive, free_block, used_block,
}
use pebpeb_os.Mm.Bins.{BinsOk, bin_delete-BinsOk, bin_insert-BinsOk, BinsOk-used_block}
use pebpeb_os.Mm.Tiles.{
  IsHeap, Tiles, Tiles-Positive, Tiles-frame, Tiles-split, Tiles-append, bin_delete-Agree,
  mark_used-Agree, mark_used-Tiles, is_page_inuse-mark_used, is_page_inuse-add_to_bins,
  add_to_bins-Agree, add_to_bins-Tiles,
}

-- Parts of the bins' theorems for the operations that work through them.
pub add_to_bins-BinsOk :
    (m : Mm) (s : ℕ) (us : List Block) (n : ℕ) (vs : List Block)
    → Positive us
    → Positive vs
    → 0 < n
    → s + total us + n + total vs + 4095 ≤ 2 ^ 20
    → BinsOk m s (us ++ used_block n ∷ vs)
    → BinsOk (add_to_bins (s + total us) n m) s (us ++ free_block n ∷ vs)
unfolding add_to_bins bin_insert set_page_free
add_to_bins-BinsOk m s us n vs hu hv hn b h = bin_insert-BinsOk m s us n vs hu hv hn b h

mark_used-BinsOk :
    (x n : ℕ) (m : Mm) (s : ℕ) (bs : List Block) → BinsOk m s bs → BinsOk (mark_used x n m) s bs
unfolding mark_used set_page_inuse
mark_used-BinsOk x n m s bs h = h

mark_used-num_user_pages : (x n : ℕ) (m : Mm) → (mark_used x n m).num_user_pages ≡ m.num_user_pages
unfolding mark_used set_page_inuse
mark_used-num_user_pages x n m = refl

pub bin_delete-num_user_pages :
    (b t : ℕ) (m : Mm) → (bin_delete b t m).num_user_pages ≡ m.num_user_pages
unfolding bin_delete
bin_delete-num_user_pages b t m = refl

pub add_to_bins-num_user_pages :
    (x n : ℕ) (m : Mm) → (add_to_bins x n m).num_user_pages ≡ m.num_user_pages
unfolding add_to_bins bin_insert set_page_free
add_to_bins-num_user_pages x n m = refl

module _ (m : Mm) (us : List Block) (k : ℕ) (vs : List Block)
    (heap : IsHeap m (us ++ free_block k ∷ vs)) where
  abbrev slot : ℕ
  slot = 1 + total us

  abbrev out : Mm
  out = bin_delete (find_bin k) (pn_to_pa slot) m

  sum : total us + (k + total vs) ≡ m.num_user_pages
  sum = omega (arith, heap.1, total-append us (free_block k ∷ vs))

  parts : Positive us × (0 < k) × Positive vs
  parts =
      let (pu, pv) =
        Positive-append us (free_block k ∷ vs)
          (Tiles-Positive m 1 (us ++ free_block k ∷ vs) heap.4) in
      (pu, pv.0, pv.1)

  tiles : Tiles out 1 us × Tiles out (slot + k) vs
  tiles =
      let (front, back) = Tiles-split out 1 us (free_block k ∷ vs) (
        Tiles-frame m out 1 (us ++ free_block k ∷ vs)
          (bin_delete-Agree (find_bin k) (pn_to_pa slot) m 1 (1 + total (us ++ free_block k ∷ vs)))
          heap.4) in
      (front, back.4)

  bins : BinsOk out 1 (us ++ used_block k ∷ vs)
  bins = bin_delete-BinsOk m 1 us k vs parts.0 parts.2 parts.1 (omega (arith, heap.0, sum)) heap.5

  bit : (t : ℕ) → is_page_inuse t out ≡ is_page_inuse t m
  bit t =
      (bin_delete-Agree (find_bin k) (pn_to_pa slot) m 0 (suc t) t (omega arith) (omega arith)).0

  pub take_whole : IsHeap (mark_used slot k out) (us ++ used_block k ∷ vs)
  take_whole =
      let pos = parts.1 in
      let num =
        mark_used-num_user_pages slot k out
        ∙ bin_delete-num_user_pages (find_bin k) (pn_to_pa slot) m in
      (
        omega (arith, num, heap.0),
        omega (arith, num, sum, total-append us (used_block k ∷ vs)),
        ground (arith, is_page_inuse-mark_used slot k out 0, bit 0, heap.2),
        ap (λ t. is_page_inuse (t + 1) (mark_used slot k out)) num
            ∙ (ground (
              arith,
              is_page_inuse-mark_used slot k out (m.num_user_pages + 1),
              bit (m.num_user_pages + 1),
              heap.3,
            )),
        Tiles-append (mark_used slot k out) 1 us (used_block k ∷ vs)
            (Tiles-frame out (mark_used slot k out) 1 us
              (mark_used-Agree slot k out pos 1 slot (λ t l u. inl u)) tiles.0)
            (mark_used-Tiles slot k out pos vs tiles.1),
        mark_used-BinsOk slot k out 1 (us ++ used_block k ∷ vs) bins,
      )

  part_bins :
      (n : ℕ)
      → 0 < n
      → n < k
      → BinsOk (add_to_bins (slot + n) (k - n) out) 1 (us ++ used_block n ∷ free_block (k - n) ∷ vs)
  part_bins n pos less =
      let rest = k - n in
      let front = us ++ used_block n ∷ [] in
      let whole_size : k ≡ n + rest = omega arith in
      let whole = subst (λ t. BinsOk out 1 (us ++ used_block t ∷ vs)) whole_size bins in
      let two = (BinsOk-used_block out 1 us n rest vs).0 whole in
      let apart : BinsOk out 1 (front ++ used_block rest ∷ vs) =
        subst (BinsOk out 1) (sym (append_assoc us (used_block n ∷ []) (used_block rest ∷ vs)))
          two in
      let size = total-append us (used_block n ∷ []) in
      let put =
        add_to_bins-BinsOk out 1 front rest vs
          (append-Positive us (used_block n ∷ []) parts.0 (pos, tt)) parts.2 (omega arith)
          (omega (arith, heap.0, sum, size)) apart in
      let at_slot : 1 + total front ≡ slot + n = omega (arith, size) in
      subst (λ t. BinsOk (add_to_bins t rest out) 1 (us ++ used_block n ∷ free_block rest ∷ vs))
        at_slot
        (subst (BinsOk (add_to_bins (1 + total front) rest out) 1)
          (append_assoc us (used_block n ∷ []) (free_block rest ∷ vs)) put)

  pub take_part :
      (n : ℕ)
      → 0 < n
      → n < k
      → IsHeap
          (mark_used slot n (add_to_bins (slot + n) (k - n) out))
          (us ++ used_block n ∷ free_block (k - n) ∷ vs)
  take_part n pos less =
      let rest = k - n in
      let m2 = add_to_bins (slot + n) rest out in
      let m3 = mark_used slot n m2 in
      let num =
        mark_used-num_user_pages slot n m2
        ∙ add_to_bins-num_user_pages (slot + n) rest out
        ∙ bin_delete-num_user_pages (find_bin k) (pn_to_pa slot) m in
      let high : m.num_user_pages + 4096 ≤ 2 ^ 20 = heap.0 in
      let front2 =
        Tiles-frame out m2 1 us
          (add_to_bins-Agree (slot + n) rest out (omega arith) 1 slot (omega (arith, sum))
            (omega (arith, sum)) (λ t l u. inl (omega arith)))
          tiles.0 in
      let back2 =
        add_to_bins-Tiles (slot + n) rest out (omega arith) vs (omega (arith, sum))
          (subst (λ t. Tiles out t vs) (omega arith) tiles.1) in
      (
        omega (arith, num),
        omega (arith, num, sum, total-append us (used_block n ∷ free_block rest ∷ vs)),
        ground (
          arith,
          is_page_inuse-mark_used slot n m2 0,
          is_page_inuse-add_to_bins (slot + n) rest out 0,
          bit 0,
          heap.2,
        ),
        ap (λ t. is_page_inuse (t + 1) m3) num
            ∙ (ground (
              arith,
              sum,
              is_page_inuse-mark_used slot n m2 (m.num_user_pages + 1),
              is_page_inuse-add_to_bins (slot + n) rest out (m.num_user_pages + 1),
              bit (m.num_user_pages + 1),
              heap.3,
            )),
        Tiles-append m3 1 us (used_block n ∷ free_block rest ∷ vs)
            (Tiles-frame m2 m3 1 us (mark_used-Agree slot n m2 pos 1 slot (λ t l u. inl u)) front2)
            (mark_used-Tiles slot n m2 pos (free_block rest ∷ vs) back2),
        mark_used-BinsOk slot n m2 1 (us ++ used_block n ∷ free_block rest ∷ vs)
            (part_bins n pos less),
      )
