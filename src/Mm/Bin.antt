-- ===== src/Mm/Bin.antt =====
-- kern/mm.c: a bin is a queue of chunks, in the sense of kern/common.c.
use pebpeb_os.Base.{ℕ, ◌≡◌, ◌≢◌, true, false, List, [], ◌∷◌, ◌++◌, arith}
use pebpeb_os.Queue.{Links, queue_insert_head, link_before, queue_detach, unlink}
use pebpeb_os.Queue.Chain.{among, Chain, IsQueue, SameOutside, frame, among-append}
use pebpeb_os.Queue.Insert.{queue_insert_head-cons}
use pebpeb_os.Queue.Remove.{queue_detach-append}
use pebpeb_os.Mm.{bin_insert_links, bin_delete_links, bin_delete_head}

abbrev SameLinks : Links → Links → Type 0
SameLinks s s' = (p : ℕ) → (s'.next p ≡ s.next p) × (s'.prev p ≡ s.prev p)

-- A queue depends on the links of its nodes only.
pub IsQueue-frame :
    (s s' : Links) (queue : ℕ) (xs : List ℕ)
    → ((p : ℕ) → among p xs ≡ true → (s'.next p ≡ s.next p) × (s'.prev p ≡ s.prev p))
    → IsQueue s queue xs
    → IsQueue s' queue xs
IsQueue-frame s s' queue [] same h = h
IsQueue-frame s s' queue (x ∷ xs) same (q, chain, nonnull, d) =
    (q, frame s s' x xs x (λ p i. (same p i).0) (λ p i. (same p i).1) chain, nonnull, d)

-- The writes of an insertion and of a removal are those of the queue's, in another order.
insert_links :
    (s : Links) (head t : ℕ)
    → head ≢ t
    → SameLinks (queue_insert_head head t s).1 (bin_insert_links head t s)
unfolding queue_insert_head link_before bin_insert_links
insert_links s head t ne p = ground arith

delete_links :
    (s : Links) (head t : ℕ)
    → ((s.next t ≡ t) → s.prev t ≡ t)
    → SameLinks (queue_detach head t s).1 (bin_delete_links t s)
unfolding queue_detach unlink bin_delete_links
delete_links s head t alone p = ground arith

insert_head : (s : Links) (head t : ℕ) → (queue_insert_head head t s).0 ≡ t
unfolding queue_insert_head
insert_head s head t = ground arith

detach_head : (s : Links) (head t : ℕ) → (queue_detach head t s).0 ≡ bin_delete_head head t s
unfolding queue_detach bin_delete_head
detach_head s head t = ground arith

-- The links forth and back are inverse along a chain.
prev-next :
    (s : Links) (a : ℕ) (xs : List ℕ) (b t : ℕ)
    → Chain s a xs b
    → among t (a ∷ xs) ≡ true
    → s.prev (s.next t) ≡ t
prev-next s a [] b t h i = ground arith
prev-next s a (x ∷ xs) b t h i = ground (arith, prev-next s x xs b t h.1)

alone :
    (s : Links) (queue : ℕ) (xs : List ℕ) (t : ℕ)
    → IsQueue s queue xs
    → among t xs ≡ true
    → s.next t ≡ t
    → s.prev t ≡ t
alone s queue [] t h i e = ground arith
alone s queue (x ∷ xs) t h i e = ground (arith, prev-next s x xs x t h.1 i)

among-middle : (us : List ℕ) (t : ℕ) (vs : List ℕ) → among t (us ++ t ∷ vs) ≡ true
among-middle us t vs = ground (arith, among-append t us (t ∷ vs))

-- A chunk goes in front of its bin.
pub bin_insert_links-cons :
    (s : Links) (head : ℕ) (xs : List ℕ) (t : ℕ)
    → IsQueue s head xs
    → t ≢ 0
    → among t xs ≡ false
    → IsQueue (bin_insert_links head t s) t (t ∷ xs)
      × SameOutside (t ∷ xs) s (bin_insert_links head t s)
bin_insert_links-cons s head xs t q ne out =
    let (is, same) = queue_insert_head-cons s head xs t q ne out in
    let eq = insert_links s head t (not_head s head xs t q ne out) in
    (
      IsQueue-frame (queue_insert_head head t s).1 (bin_insert_links head t s) t (t ∷ xs)
          (λ p i. eq p) (rw (insert_head s head t) at is),
      λ p o. ground (arith, eq p, same p o),
    )
  where
    not_head :
        (s : Links) (head : ℕ) (xs : List ℕ) (t : ℕ)
        → IsQueue s head xs
        → t ≢ 0
        → among t xs ≡ false
        → head ≢ t
    not_head s head [] t q ne out = ground arith
    not_head s head (x ∷ xs) t q ne out = ground arith

-- A chunk is taken out of its bin from any place.
pub bin_delete_links-append :
    (s : Links) (head : ℕ) (us : List ℕ) (t : ℕ) (vs : List ℕ)
    → IsQueue s head (us ++ t ∷ vs)
    → IsQueue (bin_delete_links t s) (bin_delete_head head t s) (us ++ vs)
      × SameOutside (us ++ t ∷ vs) s (bin_delete_links t s)
bin_delete_links-append s head us t vs q =
    let (is, same) = queue_detach-append s head us t vs q in
    let eq = delete_links s head t (alone s head (us ++ t ∷ vs) t q (among-middle us t vs)) in
    (
      IsQueue-frame (queue_detach head t s).1 (bin_delete_links t s) (bin_delete_head head t s)
          (us ++ vs) (λ p i. eq p) (rw (detach_head s head t) at is),
      λ p o. ground (arith, eq p, same p o),
    )
