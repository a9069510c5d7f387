-- ===== src/Mm/Bins.antt =====
-- kern/mm.c: every bin is the queue of the free blocks of its sizes, and stays so when a block is
-- taken out of its bin and when one is put in.
use pebpeb_os.Base.{
  ℕ, ◌+◌, ◌*◌, ◌^◌, ◌≤◌, ◌<◌, ◌≡◌, ◌≢◌, ◌↔◌, refl, ap, ◌∙◌, sym, Bool-cases, inl, inr, true, false,
  not, ◌&&◌, List, [], ◌∷◌, ◌++◌, length, length-append, arith, ◌==◌,
}
use mathlib.Core.Path.{subst}
use pebpeb_os.Queue.{Links}
use pebpeb_os.Queue.Chain.{among, Distinct, IsQueue, among-append, Distinct-split}
use pebpeb_os.Mm.{
  Mm, find_bin, pn_to_pa, bin_insert, bin_delete, bin_insert_links, bin_delete_links,
}
use pebpeb_os.Mm.Bin.{IsQueue-frame, bin_insert_links-cons, bin_delete_links-append}
use pebpeb_os.Mm.Page.{pn_to_pa-sum}
use native.Mathlib.Nat.{add_assoc}
use pebpeb_os.Mm.Blocks.{
  found-append, count-append, count_le, Block, total, Positive, found, count, total-append,
  append-Positive, found-apart, free_block, used_block, found-free_block, count-free_block,
  found-used_block,
}

abbrev pub BinOk : Links → (head i s : ℕ) → List Block → Type 0
BinOk links head i s bs =
    (xs : List ℕ) × IsQueue links head xs
    × (length xs ≡ count i bs)
    × ((p : ℕ) → among p xs ≡ found p i s bs)

-- The bins hold exactly the free blocks of `bs`, the first of which is at slot `s`.
abbrev pub BinsOk : Mm → (s : ℕ) → List Block → Type 0
BinsOk m s bs = (i : ℕ) → BinOk m.links (m.bins i) i s bs

IsQueue-Distinct : (links : Links) (head : ℕ) (xs : List ℕ) → IsQueue links head xs → Distinct xs
IsQueue-Distinct links head [] q = tt
IsQueue-Distinct links head (x ∷ xs) (q, chain, nonnull, d) = d

-- A node stands somewhere in its list.
among-split :
    (p : ℕ) (xs : List ℕ) → among p xs ≡ true → (us : List ℕ) × (vs : List ℕ) × (xs ≡ us ++ p ∷ vs)
among-split p [] h = ground arith
among-split p (x ∷ xs) h = elim (Bool-cases (p == x)) [
  | inl e ↦ ([], xs, ap (λ y. y ∷ xs) (ground arith))
  | inr e ↦ let (us, vs, eq) = among-split p xs (ground arith) in (x ∷ us, vs, ap (λ ys. x ∷ ys) eq)
]

-- A chunk of a bin stands in the bin's queue.
locate :
    (links : Links) (head i s : ℕ) (bs : List Block) (t : ℕ)
    → BinOk links head i s bs
    → found t i s bs ≡ true
    → (us : List ℕ) × (vs : List ℕ) × IsQueue links head (us ++ t ∷ vs)
      × (length (us ++ t ∷ vs) ≡ count i bs)
      × ((p : ℕ) → among p (us ++ t ∷ vs) ≡ found p i s bs)
locate links head i s bs t (xs, q, len, mem) f =
    let (us, vs, eq) = among-split t xs (mem t ∙ f) in
    (us, vs, rw eq at q, rw eq at len, λ p. sym (ap (among p) eq) ∙ mem p)

among-without :
    (p t : ℕ) (us vs : List ℕ)
    → Distinct (us ++ t ∷ vs)
    → among p (us ++ vs) ≡ (among p (us ++ t ∷ vs) && not (p == t))
among-without p t us vs d =
    let (du, dt, apart) = Distinct-split us (t ∷ vs) d in
    ground (arith, among-append p us vs, among-append p us (t ∷ vs), apart p, dt.0)

IsQueue-head :
    {head head' : ℕ} (links : Links) (xs : List ℕ)
    → head ≡ head'
    → IsQueue links head xs
    → IsQueue links head' xs
IsQueue-head links xs e q = subst (λ h. IsQueue links h xs) e q

module _ (m : Mm) (s : ℕ) (us : List Block) (n : ℕ) (vs : List Block) (hu : Positive us)
    (hv : Positive vs) (hn : 0 < n) (bound : s + total us + n + total vs + 4095 ≤ 2 ^ 20) where
  -- The chunks of another bin are no chunks of the block's bin.
  other_bin :
      (b : Block)
      → b.size ≡ n
      → (p i : ℕ) → find_bin n ≢ i
      → found p i s (us ++ b ∷ vs) ≡ true
      → found p (find_bin n) s (us ++ b ∷ vs) ≡ false
  other_bin b eq p i ne f =
      found-apart p i (find_bin n) s (us ++ b ∷ vs)
        (append-Positive us (b ∷ vs) hu (omega arith, hv)) (omega (arith, total-append us (b ∷ vs)))
        (λ e. ne (sym e)) f

  located : found (pn_to_pa (s + total us)) (find_bin n) s (us ++ free_block n ∷ vs) ≡ true
  located = ground (arith, found-free_block (find_bin n) s us n vs (pn_to_pa (s + total us)))

  pub bin_delete-BinsOk :
      BinsOk m s (us ++ free_block n ∷ vs)
      → BinsOk (bin_delete (find_bin n) (pn_to_pa (s + total us)) m) s (us ++ used_block n ∷ vs)
  unfolding bin_delete
  bin_delete-BinsOk h i =
      let t = pn_to_pa (s + total us) in
      let gone = found-used_block i s us n vs hu hv hn bound in
      let (xl, xr, q, len, mem) =
        locate m.links (m.bins (find_bin n)) (find_bin n) s (us ++ free_block n ∷ vs) t
          (h (find_bin n)) located in
      let (q', same) = bin_delete_links-append m.links (m.bins (find_bin n)) xl t xr q in
      elim (Bool-cases (find_bin n == i)) [
        | inl e ↦
            let same_bin : i ≡ find_bin n = ground arith in
            (
              xl ++ xr,
              IsQueue-head (bin_delete_links t m.links) (xl ++ xr) (ground arith) q',
              ground (
                arith,
                length-append xl xr,
                length-append xl (t ∷ xr),
                len,
                count-free_block (find_bin n) s us n vs,
                ap (λ k. count k (us ++ used_block n ∷ vs)) same_bin,
              ),
              λ p. ground (
                arith,
                among-without p t xl xr
                    (IsQueue-Distinct m.links (m.bins (find_bin n)) (xl ++ t ∷ xr) q),
                mem p,
                gone,
                found-free_block (find_bin n) s us n vs p,
                ap (λ k. found p k s (us ++ used_block n ∷ vs)) same_bin,
              ),
            )
        | inr e ↦
            let (ys, q2, len2, mem2) = h i in
            (
              ys,
              IsQueue-head (bin_delete_links t m.links) ys (ground arith) (
                  IsQueue-frame m.links (bin_delete_links t m.links) (m.bins i) ys
                    (λ p k.
                      same p (ground (arith, mem p, mem2 p, other_bin (free_block n) refl p i)))
                    q2),
              ground (arith, len2, count-free_block i s us n vs),
              λ p. ground (arith, mem2 p, found-free_block i s us n vs p),
            )
      ]

  pub bin_insert-BinsOk :
      BinsOk m s (us ++ used_block n ∷ vs)
      → BinsOk (bin_insert (find_bin n) (pn_to_pa (s + total us)) n m) s (us ++ free_block n ∷ vs)
  unfolding bin_insert
  bin_insert-BinsOk h i =
      let t = pn_to_pa (s + total us) in
      let sum : t ≡ (s + total us + 4095) * 4096 = pn_to_pa-sum (s + total us) (omega arith) in
      let gone = found-used_block (find_bin n) s us n vs hu hv hn bound in
      let (xs, q, len, mem) = h (find_bin n) in
      let (q', same) =
        bin_insert_links-cons m.links (m.bins (find_bin n)) xs t q (omega (arith, sum))
          (mem t ∙ gone) in
      elim (Bool-cases (find_bin n == i)) [
        | inl e ↦
            let same_bin : i ≡ find_bin n = ground arith in
            (
              t ∷ xs,
              IsQueue-head (bin_insert_links (m.bins (find_bin n)) t m.links) (t ∷ xs)
                  (ground arith) q',
              ground (
                arith,
                len,
                count-free_block (find_bin n) s us n vs,
                ap (λ k. count k (us ++ free_block n ∷ vs)) same_bin,
              ),
              λ p. ground (
                arith,
                mem p,
                found-free_block (find_bin n) s us n vs p,
                ap (λ k. found p k s (us ++ free_block n ∷ vs)) same_bin,
              ),
            )
        | inr e ↦
            let (ys, q2, len2, mem2) = h i in
            (
              ys,
              IsQueue-head (bin_insert_links (m.bins (find_bin n)) t m.links) ys (ground arith) (
                  IsQueue-frame m.links (bin_insert_links (m.bins (find_bin n)) t m.links)
                    (m.bins i) ys
                    (λ p k. same p (
                      ground (
                        arith,
                        mem p,
                        mem2 p,
                        mem2 t,
                        found-used_block i s us n vs hu hv hn bound,
                        other_bin (used_block n) refl p i,
                      )))
                    q2),
              ground (arith, len2, count-free_block i s us n vs),
              λ p. ground (arith, mem2 p, found-free_block i s us n vs p),
            )
      ]

-- The blocks in use are no concern of the bins.
pub BinsOk-found :
    (m : Mm) (s : ℕ) (bs bs' : List Block)
    → ((p i : ℕ) → found p i s bs' ≡ found p i s bs)
    → ((i : ℕ) → count i bs' ≡ count i bs)
    → BinsOk m s bs
    → BinsOk m s bs'
BinsOk-found m s bs bs' f c h i =
    let (xs, q, len, mem) = h i in (xs, q, len ∙ sym (c i), λ p. mem p ∙ sym (f p i))

pub BinsOk-used_block :
    (m : Mm) (s : ℕ) (us : List Block) (a b : ℕ) (vs : List Block)
    → BinsOk m s (us ++ used_block (a + b) ∷ vs)
      ↔ BinsOk m s (us ++ used_block a ∷ used_block b ∷ vs)
BinsOk-used_block m s us a b vs =
    let f : (p i : ℕ)
        → found p i s (us ++ used_block (a + b) ∷ vs)
          ≡ found p i s (us ++ used_block a ∷ used_block b ∷ vs) =
      λ p i. ground (
        arith,
        found-append p i s us (used_block (a + b) ∷ vs),
        found-append p i s us (used_block a ∷ used_block b ∷ vs),
        ap (λ t. found p i t vs) (add_assoc (s + total us) a b),
      ) in
    let c : (i : ℕ)
        → count i (us ++ used_block (a + b) ∷ vs)
          ≡ count i (us ++ used_block a ∷ used_block b ∷ vs) =
      λ i. omega (
        arith,
        count-append i us (used_block (a + b) ∷ vs),
        count-append i us (used_block a ∷ used_block b ∷ vs),
      ) in
    (
      BinsOk-found m s (us ++ used_block (a + b) ∷ vs) (us ++ used_block a ∷ used_block b ∷ vs)
          (λ p i. sym (f p i)) (λ i. sym (c i)),
      BinsOk-found m s (us ++ used_block a ∷ used_block b ∷ vs) (us ++ used_block (a + b) ∷ vs) f c,
    )

-- A bin is no longer than the memory.
pub BinOk-length :
    (m : Mm) (i s : ℕ) (bs : List Block)
    → Positive bs
    → (h : BinOk m.links (m.bins i) i s bs) → length h.0 ≤ total bs
BinOk-length m i s bs pos h = omega (arith, h.2, count_le i bs pos)
