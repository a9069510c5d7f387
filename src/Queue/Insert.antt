-- ===== src/Queue/Insert.antt =====
-- The two insertions, against the list of a queue's nodes.
use mathlib.Core.Path.{subst}
use pebpeb_os.Base.{
  ap, sym, ◌∙◌, ℕ, ◌≡◌, ◌≢◌, false, List, [], ◌∷◌, ◌++◌, refl, arith, ◌==◌, if◌then◌else◌,
}
use pebpeb_os.Queue.{Links, link_before, queue_insert_head, queue_insert_tail}
use pebpeb_os.Queue.Chain.{
  among, Distinct, Chain, IsQueue, SameOutside, last, among-append, ne-last, prev-last, Chain-split,
  Distinct-snoc,
}

-- The memory after the four writes, read at any node.
link_before_reads :
    (b t : ℕ) (s : Links) (p : ℕ)
    → t ≢ b
    → ((link_before b t s).next p ≡ (if p == s.prev b then t else if p == t then b else s.next p))
      × ((link_before b t s).prev p ≡ (if p == b then t else if p == t then s.prev b else s.prev p))
unfolding link_before
link_before_reads b t s p ne = ground arith

-- They put `t` at the end of a chain to `b`.
Chain-snoc :
    (s s' : Links) (a : ℕ) (xs : List ℕ) (b t : ℕ)
    → ((p : ℕ) → s'.next p ≡ (if p == last a xs then t else if p == t then b else s.next p))
    → ((p : ℕ) → s'.prev p ≡ (if p == b then t else if p == t then last a xs else s.prev p))
    → t ≢ b
    → among t (a ∷ xs) ≡ false
    → among b xs ≡ false
    → Distinct (a ∷ xs)
    → Chain s a xs b
    → Chain s' a (xs ++ t ∷ []) b
Chain-snoc s s' a [] b t n p ne out ob d h = ground (arith, n a, n t, p b, p t)
Chain-snoc s s' a (x ∷ xs) b t n p ne out ob d h = (
  ground (arith, n a, p x, ne-last a x xs),
  Chain-snoc s s' x xs b t n p ne (ground arith) (ground arith) d.1 h.1,
)

module _ (s : Links) (x : ℕ) (xs : List ℕ) (t : ℕ) (ne_null : t ≢ 0)
    (out : among t (x ∷ xs) ≡ false) where
  ring-snoc : Distinct (x ∷ xs) → Chain s x xs x → Chain (link_before x t s) x (xs ++ t ∷ []) x
  ring-snoc d h =
      let l = prev-last s x xs x h in
      let ne : t ≢ x = ground arith in
      Chain-snoc s (link_before x t s) x xs x t (λ p. rw (← l) ((link_before_reads x t s p ne).0))
        (λ p. rw (← l) ((link_before_reads x t s p ne).1)) ne out d.0 d h

  ring-SameOutside : Chain s x xs x → SameOutside (t ∷ x ∷ xs) s (link_before x t s)
  ring-SameOutside h p o =
      ground (arith, link_before_reads x t s p, prev-last s x xs x h, ne-last p x xs)

-- The branches of the two functions.
insert_tail_full : (s : Links) (x t : ℕ) → x ≢ 0 → queue_insert_tail x t s ≡ (x, link_before x t s)
unfolding queue_insert_tail
insert_tail_full s x t ne = ground arith

insert_head_full : (s : Links) (x t : ℕ) → x ≢ 0 → queue_insert_head x t s ≡ (t, link_before x t s)
unfolding queue_insert_head
insert_head_full s x t ne = ground arith

-- `queue_insert_tail` puts a node that is not in the queue at its end, keeps the order of the
-- others, and writes no other node.
queue_insert_tail-append :
    (s : Links) (queue : ℕ) (xs : List ℕ) (t : ℕ)
    → IsQueue s queue xs
    → t ≢ 0
    → among t xs ≡ false
    → let (queue', s') = queue_insert_tail queue t s in
      IsQueue s' queue' (xs ++ t ∷ []) × SameOutside (t ∷ xs) s s'
unfolding queue_insert_tail
queue_insert_tail-append s queue [] t is ne out =
    rw is ((refl, (ground arith, ground arith), ground arith, (refl, tt)), ground arith)
queue_insert_tail-append s queue (x ∷ xs) t (q, h, nonnull, d) ne out =
    subst (λ r. IsQueue r.1 r.0 (x ∷ xs ++ t ∷ []) × SameOutside (t ∷ x ∷ xs) s r.1)
      (sym (ap (λ w. queue_insert_tail w t s) q ∙ insert_tail_full s x t (ground arith)))
      (
        (
          refl,
          ring-snoc s x xs t ne out d h,
          ground (arith, among-append 0 xs (t ∷ [])),
          Distinct-snoc (x ∷ xs) t d out,
        ),
        ring-SameOutside s x xs t ne out h,
      )

-- `queue_insert_head` puts a node that is not in the queue in front of the others, keeps their
-- order, and writes no other node.
pub queue_insert_head-cons :
    (s : Links) (queue : ℕ) (xs : List ℕ) (t : ℕ)
    → IsQueue s queue xs
    → t ≢ 0
    → among t xs ≡ false
    → let (queue', s') = queue_insert_head queue t s in
      IsQueue s' queue' (t ∷ xs) × SameOutside (t ∷ xs) s s'
unfolding queue_insert_head
queue_insert_head-cons s queue [] t is ne out =
    rw is ((refl, (ground arith, ground arith), ground arith, (refl, tt)), ground arith)
queue_insert_head-cons s queue (x ∷ xs) t (q, h, nonnull, d) ne out =
    let (back, front) =
      Chain-split (link_before x t s) x xs t [] x (ring-snoc s x xs t ne out d h) in
    subst (λ r. IsQueue r.1 r.0 (t ∷ x ∷ xs) × SameOutside (t ∷ x ∷ xs) s r.1)
      (sym (ap (λ w. queue_insert_head w t s) q ∙ insert_head_full s x t (ground arith)))
      ((refl, (front, back), ground arith, (out, d)), ring-SameOutside s x xs t ne out h)
