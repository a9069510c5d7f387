-- ===== src/Keyboard/Line.antt =====
-- kern/pts.c: the line that do_readline collects, against a line editor on lists.
use pebpeb_os.Base.{
  ℕ, zero, suc, ◌+◌, ◌%◌, ◌≤◌, ◌<◌, ◌≡◌, refl, ap, ◌∙◌, sym, inl, inr, Bool, Bool-cases, true,
  false, ◌||◌, Option, none, some, List, [], ◌∷◌, ◌++◌, length, length-append, arith, ◌==◌,
  if◌then◌else◌,
}
use mathlib.Core.Path.{subst}
use pebpeb_os.Console.{Display, pts_putbyte, pts_putbytes}
use pebpeb_os.Keyboard.{Ring, ring_put, is_full, has_line, should_flush, take_back, read_line}
use pebpeb_os.Keyboard.Contents.{
  Cells, IsRing, is_full_iff, is_empty_iff, ring_put-append, take_back-snoc,
}

abbrev pub holds : (c : ℕ) → List ℕ → Bool
holds c [] = false
holds c (x ∷ xs) = (x == c) || holds c xs

abbrev pub drop_last : List ℕ → List ℕ
drop_last [] = []
drop_last (x ∷ []) = []
drop_last (x ∷ y ∷ xs) = x ∷ drop_last (y ∷ xs)

-- A line, the characters echoed on the way to it, and the keys that are left.
abbrev pub Edited : Type 0
Edited = List ℕ × List ℕ × List ℕ

abbrev echo : ℕ → Option Edited → Option Edited
echo c none = none
echo c (some (line, shown, keys)) = some (line, c ∷ shown, keys)

-- '\b' takes back the last character, '\n' or the 4095th character ends the line.
abbrev pub edit : (keys line : List ℕ) → Option Edited
edit [] line = none
edit (c ∷ keys) line =
    let longer = edit keys (line ++ c ∷ []) in
    let shorter = edit keys (drop_last line) in
    let ignored = edit keys line in
    if c == 8
    then (if length line == 0 then ignored else echo c shorter)
    else if (c == 10) || (length (line ++ c ∷ []) == 4095)
    then some (line ++ c ∷ [], c ∷ [], keys)
    else echo c longer

has_line-holds :
    (k i : ℕ) (q : Ring) (zs : List ℕ)
    → i < 4096
    → length zs ≤ k
    → length zs < 4096
    → q.w_pos ≡ (i + length zs) % 4096
    → Cells q.cells i zs
    → has_line k i q ≡ holds 10 zs
unfolding has_line
has_line-holds zero i q [] lt le len w h = refl
has_line-holds zero i q (z ∷ zs) lt le len w h = absurd (omega arith)
has_line-holds (suc k) i q [] lt le len w h =
    let at_end : (i == q.w_pos) ≡ true = ground arith in rw (has_line, at_end) refl
has_line-holds (suc k) i q (z ∷ zs) lt le len w h =
    let on : (i == q.w_pos) ≡ false = ground arith in
    let ih =
      has_line-holds k ((i + 1) % 4096) q zs (omega arith) (omega arith) (omega arith) (omega arith)
        h.1 in
    elim (Bool-cases (z == 10)) [
      | inl e ↦ rw (has_line, on, h.0, e) refl
      | inr e ↦ rw (has_line, on, h.0, e) ih
    ]

-- A reader finds a line in the ring exactly if it holds a '\n' or is full.
pub should_flush-holds :
    (q : Ring) (xs : List ℕ) → IsRing q xs → should_flush q ≡ (holds 10 xs || (length xs == 4095))
unfolding should_flush
should_flush-holds q xs h =
    let line = has_line-holds 4096 q.r_pos q xs h.0 (omega (arith, h.1)) h.1 h.2 h.3 in
    elim (Bool-cases (length xs == 0)) [
      | inl e ↦ empty xs (is_empty_iff q xs h ∙ e) e
      | inr e ↦ rw (is_empty_iff q xs h ∙ e, line, is_full_iff q xs h) refl
    ]
  where
    empty :
        (xs : List ℕ)
        → (q.r_pos == q.w_pos) ≡ true
        → (length xs == 0) ≡ true
        → should_flush q ≡ (holds 10 xs || (length xs == 4095))
    empty [] e z = rw e refl
    empty (x ∷ xs) e z = ground arith

-- What the loop makes of the keys is what the editor makes of them.
abbrev pub SameLine : Option Edited → Display → Option (Ring × Display × List ℕ) → Type 0
SameLine none d r = r ≡ none
SameLine (some (line, shown, keys)) d r =
    (q' : Ring) × (r ≡ some (q', pts_putbytes shown d, keys)) × IsRing q' line

SameLine-echo :
    (c : ℕ) (e : Option Edited) (d : Display) (r : Option (Ring × Display × List ℕ))
    → SameLine e (pts_putbyte c d) r
    → SameLine (echo c e) d r
unfolding pts_putbytes
SameLine-echo c none d r h = h
SameLine-echo c (some (line, shown, keys)) d r h = h

transport_line :
    {e e' : Option Edited} {r r' : Option (Ring × Display × List ℕ)} (d : Display)
    → e ≡ e'
    → r ≡ r'
    → SameLine e' d r'
    → SameLine e d r
transport_line {e = e} {e' = e'} {r = r} {r' = r'} d p q h =
    subst (λ x. SameLine x d r) (sym p) (subst (SameLine e' d) (sym q) h)

last_of : (xs : List ℕ) → (length xs == 0) ≡ false → (l : ℕ) × (xs ≡ drop_last xs ++ l ∷ [])
last_of [] h = ground arith
last_of (x ∷ []) h = (x, refl)
last_of (x ∷ y ∷ xs) h = let (l, eq) = last_of (y ∷ xs) (ground arith) in (l, ap (λ ys. x ∷ ys) eq)

-- From a ring with the characters `xs`, fewer than 4095, the loop of do_readline ends on the same key
-- as the editor, leaves the editor's line in the ring, and prints exactly the characters that the
-- editor echoes; where the editor waits for another key, so does the loop.
pub read_line-edit :
    (keys : List ℕ) (q : Ring) (d : Display) (xs : List ℕ)
    → IsRing q xs
    → length xs < 4095
    → SameLine (edit keys xs) d (read_line keys q d)
unfolding read_line pts_putbytes
read_line-edit [] q d xs h lt = refl
read_line-edit (c ∷ keys) q d xs h lt = elim (Bool-cases (c == 8)) [
  | inl e ↦ elim (Bool-cases (length xs == 0)) [
    | inl none_left ↦
        let empty : (q.w_pos == q.r_pos) ≡ true = ground arith in
        let same : read_line (c ∷ keys) q d ≡ read_line keys q d = rw (read_line, e, empty) refl in
        let spec : edit (c ∷ keys) xs ≡ edit keys xs = rw (e, none_left) refl in
        transport_line d spec same (read_line-edit keys q d xs h lt)
    | inr some_left ↦
        let more : (q.w_pos == q.r_pos) ≡ false = ground arith in
        let (l, eq) = last_of xs some_left in
        let back = take_back-snoc q (drop_last xs) l (subst (IsRing q) eq h) in
        let same : read_line (c ∷ keys) q d ≡ read_line keys (take_back q) (pts_putbyte c d) =
          rw (read_line, e, more) refl in
        let spec : edit (c ∷ keys) xs ≡ echo c (edit keys (drop_last xs)) =
          rw (e, some_left) refl in
        transport_line d spec same (
          SameLine-echo c (edit keys (drop_last xs)) d
            (read_line keys (take_back q) (pts_putbyte c d))
            (read_line-edit keys (take_back q) (pts_putbyte c d) (drop_last xs) back
              (omega (arith, ap length eq, length-append (drop_last xs) (l ∷ [])))))
  ]
  | inr e ↦
      let q' = ring_put c q in
      let put = ring_put-append c q xs h lt in
      let full = is_full_iff q' (xs ++ c ∷ []) put in
      elim (Bool-cases ((c == 10) || (length (xs ++ c ∷ []) == 4095))) [
        | inl ends ↦
            let ends' : ((c == 10) || is_full q') ≡ true = rw full ends in
            let same : read_line (c ∷ keys) q d ≡ some (q', pts_putbyte c d, keys) =
              rw (read_line, e, ends') refl in
            let spec : edit (c ∷ keys) xs ≡ some (xs ++ c ∷ [], c ∷ [], keys) = rw (e, ends) refl in
            transport_line d spec same (q', refl, put)
        | inr goes_on ↦
            let goes_on' : ((c == 10) || is_full q') ≡ false = rw full goes_on in
            let same : read_line (c ∷ keys) q d ≡ read_line keys q' (pts_putbyte c d) =
              rw (read_line, e, goes_on') refl in
            let spec : edit (c ∷ keys) xs ≡ echo c (edit keys (xs ++ c ∷ [])) =
              rw (e, goes_on) refl in
            transport_line d spec same (
              SameLine-echo c (edit keys (xs ++ c ∷ [])) d (read_line keys q' (pts_putbyte c d)) (
                read_line-edit keys q' (pts_putbyte c d) (xs ++ c ∷ []) put
                  (ground (arith, put.1))))
      ]
]

holds-append : (c : ℕ) (xs ys : List ℕ) → holds c (xs ++ ys) ≡ (holds c xs || holds c ys)
holds-append c [] ys = refl
holds-append c (x ∷ xs) ys = ground (arith, holds-append c xs ys)

-- The editor's line ends in '\n' or has 4095 characters.
pub edit_ends :
    (keys line : List ℕ)
    → holds 10 keys ≡ true
    → (e : Edited) × (edit keys line ≡ some e) × ((holds 10 e.0 || (length e.0 == 4095)) ≡ true)
edit_ends [] line h = ground arith
edit_ends (c ∷ keys) line h = elim (Bool-cases (c == 8)) [
  | inl e ↦ elim (Bool-cases (length line == 0)) [
    | inl none_left ↦
        let (r, eq, ends) = edit_ends keys line (ground arith) in (r, rw (e, none_left) eq, ends)
    | inr some_left ↦
        let (r, eq, ends) = edit_ends keys (drop_last line) (ground arith) in
        ((r.0, c ∷ r.1, r.2), rw (e, some_left, eq) refl, ends)
  ]
  | inr e ↦ elim (Bool-cases ((c == 10) || (length (line ++ c ∷ []) == 4095))) [
    | inl ends ↦ (
      (line ++ c ∷ [], c ∷ [], keys),
      rw (e, ends) refl,
      ground (arith, holds-append 10 line (c ∷ [])),
    )
    | inr goes_on ↦
        let (r, eq, ends) = edit_ends keys (line ++ c ∷ []) (ground arith) in
        ((r.0, c ∷ r.1, r.2), rw (e, goes_on, eq) refl, ends)
  ]
]

-- If a '\n' is among the keys, the loop of do_readline ends, with a ring whose line holds a '\n' or
-- that is full.
read_line_ends :
    (keys : List ℕ) (q : Ring) (d : Display) (xs : List ℕ)
    → IsRing q xs
    → length xs < 4095
    → holds 10 keys ≡ true
    → (q' : Ring) × (d' : Display) × (rest : List ℕ) × (line : List ℕ) × (read_line keys q d
        ≡ some (q', d', rest))
      × IsRing q' line
      × ((holds 10 line || (length line == 4095)) ≡ true)
read_line_ends keys q d xs h lt newline =
    let (e, eq, ends) = edit_ends keys xs newline in
    let (q', same, ring) =
      subst (λ o. SameLine o d (read_line keys q d)) eq (read_line-edit keys q d xs h lt) in
    (q', pts_putbytes e.1 d, e.2, e.0, same, ring, ends)
