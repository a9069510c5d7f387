-- ===== src/Queue/Remove.antt =====
-- The removals, against the list of a queue's nodes.
use mathlib.Core.List.{append-nil}
use pebpeb_os.Base.{ℕ, ◌≡◌, ◌≢◌, false, List, [], ◌∷◌, ◌++◌, refl, arith, ◌==◌, if◌then◌else◌, some}
use pebpeb_os.Queue.{Links, unlink, queue_remove_head, queue_remove_tail, queue_detach}
use pebpeb_os.Queue.Chain.{
  among, Distinct, Chain, IsQueue, SameOutside, last, among-append, ne-last, prev-last, frame,
  Chain-append, Chain-split, Distinct-split, Distinct-snoc,
}

-- The memory after the two writes, read at any node.
unlink_reads :
    (t : ℕ) (s : Links) (p : ℕ)
    → s.next t ≢ t
    → s.prev t ≢ t
    → ((unlink t s).next p ≡ (if p == s.prev t then s.next t else s.next p))
      × ((unlink t s).prev p ≡ (if p == s.next t then s.prev t else s.prev p))
unfolding unlink
unlink_reads t s p n q = ground arith

-- They take `t` out of the end of a chain to `b`.
Chain-unsnoc :
    (s s' : Links) (a : ℕ) (xs : List ℕ) (t b : ℕ)
    → ((p : ℕ) → s'.next p ≡ (if p == last a xs then b else s.next p))
    → ((p : ℕ) → s'.prev p ≡ (if p == b then last a xs else s.prev p))
    → among t (a ∷ xs) ≡ false
    → among b xs ≡ false
    → Distinct (a ∷ xs)
    → Chain s a (xs ++ t ∷ []) b
    → Chain s' a xs b
Chain-unsnoc s s' a [] t b n p out ob d h = ground (arith, n a, p b)
Chain-unsnoc s s' a (x ∷ xs) t b n p out ob d h = (
  ground (arith, n a, p x, ne-last a x xs),
  Chain-unsnoc s s' x xs t b n p (ground arith) (ground arith) d.1 h.1,
)

-- The links of the node between two parts of a chain.
middle :
    (s : Links) (a : ℕ) (us : List ℕ) (t v : ℕ) (vs : List ℕ) (b : ℕ)
    → Chain s a (us ++ t ∷ v ∷ vs) b
    → (s.next t ≡ v) × (s.prev t ≡ last a us)
middle s a us t v vs b h =
    let (front, back) = Chain-split s a us t (v ∷ vs) b h in (back.0.0, prev-last s a us t front)

ending :
    (s : Links) (a : ℕ) (us : List ℕ) (t b : ℕ)
    → Chain s a (us ++ t ∷ []) b
    → (s.next t ≡ b) × (s.prev t ≡ last a us)
ending s a us t b h =
    let (front, back) = Chain-split s a us t [] b h in (back.0, prev-last s a us t front)

last-snoc : (a : ℕ) (xs : List ℕ) (t : ℕ) → last a (xs ++ t ∷ []) ≡ t
last-snoc a [] t = refl
last-snoc a (x ∷ xs) t = last-snoc x xs t

-- `unlink` takes a node out of a chain, from the end and from the middle.
module _ (s : Links) (a : ℕ) (us : List ℕ) (t b : ℕ) (ne : t ≢ b) where
  unlink_end :
      Distinct (a ∷ us ++ t ∷ [])
      → among b (us ++ t ∷ []) ≡ false
      → Chain s a (us ++ t ∷ []) b
      → Chain (unlink t s) a us b × SameOutside (b ∷ a ∷ us) s (unlink t s)
  unlink_end d ob h =
      let (n, p) = ending s a us t b h in
      let (du, dt, apart) = Distinct-split (a ∷ us) (t ∷ []) d in
      let out : among t (a ∷ us) ≡ false = ground (arith, apart t) in
      let far : t ≢ last a us = ne-last t a us out in
      let reads = λ (q : ℕ). unlink_reads t s q (ground arith) (ground arith) in
      (
        Chain-unsnoc s (unlink t s) a us t b (λ q. rw (← p, ← n) ((reads q).0))
            (λ q. rw (← p, ← n) ((reads q).1)) out (ground (arith, among-append b us (t ∷ []))) du
            h,
        λ q o. ground (arith, reads q, ne-last q a us),
      )

  unlink_middle :
      (v : ℕ) (vs : List ℕ)
      → Distinct (a ∷ us ++ t ∷ v ∷ vs)
      → among b (us ++ t ∷ v ∷ vs) ≡ false
      → Chain s a (us ++ t ∷ v ∷ vs) b
      → Chain (unlink t s) a (us ++ v ∷ vs) b × SameOutside (v ∷ a ∷ us) s (unlink t s)
  unlink_middle v vs d ob h =
      let (front, back) = Chain-split s a us t (v ∷ vs) b h in
      let (du, dt, apart) = Distinct-split (a ∷ us) (t ∷ v ∷ vs) d in
      let out : among t (a ∷ us) ≡ false = ground (arith, apart t) in
      let clear : among v (a ∷ us) ≡ false = ground (arith, apart v) in
      let far : t ≢ last a us = ne-last t a us out in
      let (n, p) = middle s a us t v vs b h in
      let ne_v : t ≢ v = ground arith in
      let reads = λ (q : ℕ). unlink_reads t s q (ground arith) (ground arith) in
      let closed : Chain (unlink t s) a us v =
        Chain-unsnoc s (unlink t s) a us t v (λ q. rw (← p, ← n) ((reads q).0))
          (λ q. rw (← p, ← n) ((reads q).1)) out (ground arith) du
          (Chain-append s a us t [] v front back.0) in
      let rest : Chain (unlink t s) v vs b =
        frame s (unlink t s) v vs b (λ q i. ground (arith, reads q, apart q, ne-last q a us))
          (λ q i. ground (arith, reads q, among-append b us (t ∷ v ∷ vs))) back.1 in
      (
        Chain-append (unlink t s) a us v vs b closed rest,
        λ q o. ground (arith, reads q, ne-last q a us),
      )

among-remove :
    (p : ℕ) (us : List ℕ) (t : ℕ) (vs : List ℕ)
    → among p (us ++ t ∷ vs) ≡ false
    → among p (us ++ vs) ≡ false
among-remove p us t vs h = ground (arith, among-append p us (t ∷ vs), among-append p us vs)

Distinct-remove :
    (us : List ℕ) (t : ℕ) (vs : List ℕ) → Distinct (us ++ t ∷ vs) → Distinct (us ++ vs)
Distinct-remove [] t vs d = d.1
Distinct-remove (u ∷ us) t vs d = (among-remove u us t vs d.0, Distinct-remove us t vs d.1)

-- A node alone in its queue is unlinked from itself.
unlink_single : (s : Links) (t : ℕ) → Chain s t [] t → SameOutside (t ∷ []) s (unlink t s)
unfolding unlink
unlink_single s t h p o = ground arith

-- `queue_remove_head` returns the first node of a queue that is not empty and leaves the queue of
-- the others in their order; it writes no node outside of the queue.
queue_remove_head-cons :
    (s : Links) (queue t : ℕ) (xs : List ℕ)
    → IsQueue s queue (t ∷ xs)
    → (queue' : ℕ) × (s' : Links) × (queue_remove_head queue s ≡ some (t, queue', s'))
      × IsQueue s' queue' xs
      × SameOutside (t ∷ xs) s s'
unfolding queue_remove_head
queue_remove_head-cons s queue t [] (q, h, nonnull, d) =
    (0, s, ground arith, refl, λ p o. (refl, refl))
queue_remove_head-cons s queue t (y ∷ ys) (q, h, nonnull, d) =
    let (chain, same) =
      unlink_end s y ys t y (ground arith) (Distinct-snoc (y ∷ ys) t d.1 d.0)
        (ground (arith, among-append y ys (t ∷ []))) (Chain-append s y ys t [] y h.1 h.0) in
    let taken : queue_remove_head queue s ≡ some (t, y, unlink t s) = ground (
      arith,
      ending s y ys t y (Chain-append s y ys t [] y h.1 h.0),
      unlink_reads t s t,
      ne-last t y ys,
    ) in
    (y, unlink t s, taken, (refl, chain, ground arith, d.1), λ p o. same p (ground arith))

-- `queue_remove_tail` returns the last node of a queue that is not empty and leaves the queue of the
-- others in their order; it writes no node outside of the queue.
queue_remove_tail-snoc :
    (s : Links) (queue : ℕ) (xs : List ℕ) (t : ℕ)
    → IsQueue s queue (xs ++ t ∷ [])
    → (queue' : ℕ) × (s' : Links) × (queue_remove_tail queue s ≡ some (t, queue', s'))
      × IsQueue s' queue' xs
      × SameOutside (xs ++ t ∷ []) s s'
unfolding queue_remove_tail
queue_remove_tail-snoc s queue [] t (q, h, nonnull, d) =
    (0, s, ground arith, refl, λ p o. (refl, refl))
queue_remove_tail-snoc s queue (x ∷ xs) t (q, h, nonnull, d) =
    let ne : t ≢ x = ground (arith, among-append x xs (t ∷ [])) in
    let (chain, same) = unlink_end s x xs t x ne d d.0 h in
    let taken : queue_remove_tail queue s ≡ some (t, x, unlink t s) =
      ground (arith, prev-last s x (xs ++ t ∷ []) x h, last-snoc x xs t, ending s x xs t x h) in
    let (kept, _, _) = Distinct-split (x ∷ xs) (t ∷ []) d in
    (
      x,
      unlink t s,
      taken,
      (refl, chain, ground (arith, among-append 0 xs (t ∷ [])), kept),
      λ p o. same p (ground (arith, among-append p xs (t ∷ []))),
    )

-- `queue_detach` takes a node out wherever it stands in its queue, and keeps the order of the
-- others; it writes no node outside of the queue.
pub queue_detach-append :
    (s : Links) (queue : ℕ) (us : List ℕ) (t : ℕ) (vs : List ℕ)
    → IsQueue s queue (us ++ t ∷ vs)
    → let (queue', s') = queue_detach queue t s in
      IsQueue s' queue' (us ++ vs) × SameOutside (us ++ t ∷ vs) s s'
unfolding queue_detach
queue_detach-append s queue [] t [] (q, h, nonnull, d) = (ground arith, unlink_single s t h)
queue_detach-append s queue [] t (v ∷ vs) (q, h, nonnull, d) =
    let (chain, same) =
      unlink_end s v vs t v (ground arith) (Distinct-snoc (v ∷ vs) t d.1 d.0)
        (ground (arith, among-append v vs (t ∷ []))) (Chain-append s v vs t [] v h.1 h.0) in
    ((ground arith, chain, ground arith, d.1), λ p o. same p (ground arith))
queue_detach-append s queue (u ∷ us) t [] (q, h, nonnull, d) =
    let ne : t ≢ u = ground (arith, among-append u us (t ∷ [])) in
    let (chain, same) = unlink_end s u us t u ne d d.0 h in
    (
      (
        ground arith,
        rw append-nil chain,
        among-remove 0 (u ∷ us) t [] nonnull,
        Distinct-remove (u ∷ us) t [] d,
      ),
      λ p o. same p (ground (arith, among-append p us (t ∷ []))),
    )
queue_detach-append s queue (u ∷ us) t (v ∷ vs) (q, h, nonnull, d) =
    let ne : t ≢ u = ground (arith, among-append u us (t ∷ v ∷ vs)) in
    let (chain, same) = unlink_middle s u us t u ne v vs d d.0 h in
    (
      (
        ground arith,
        chain,
        among-remove 0 (u ∷ us) t (v ∷ vs) nonnull,
        Distinct-remove (u ∷ us) t (v ∷ vs) d,
      ),
      λ p o. same p (ground (arith, among-append p us (t ∷ v ∷ vs))),
    )
