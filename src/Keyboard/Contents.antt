-- ===== src/Keyboard/Contents.antt =====
-- kern/pts.c: a ring as the queue of its elements.
use pebpeb_os.Base.{
  ℕ, ◌+◌, ◌%◌, ◌<◌, ◌≡◌, ◌⊎◌, refl, ap, ◌∙◌, inl, inr, Bool-cases, true, false, none, some, List,
  [], ◌∷◌, ◌++◌, length, length-append, arith, ◌==◌, if◌then◌else◌,
}
use pebpeb_os.Keyboard.{Ring, ring_put, kbd_insert, ring_take, is_full, take_back}

-- The cells from `i` on, around the end of the ring, hold the list.
abbrev pub Cells : (cells : ℕ → ℕ) (i : ℕ) → List ℕ → Type 0
Cells cells i [] = Unit
Cells cells i (x ∷ xs) = (cells i ≡ x) × Cells cells ((i + 1) % 4096) xs

abbrev pub IsRing : Ring → List ℕ → Type 0
IsRing q xs =
    (q.r_pos < 4096)
    × (length xs < 4096)
    × (q.w_pos ≡ (q.r_pos + length xs) % 4096)
    × Cells q.cells q.r_pos xs

Cells-put :
    (f : ℕ → ℕ) (c w i : ℕ) (xs : List ℕ)
    → i < 4096
    → length xs < 4096
    → w ≡ (i + length xs) % 4096
    → Cells f i xs
    → Cells (λ j. if j == w then c else f j) i xs
Cells-put f c w i [] lt len e h = tt
Cells-put f c w i (x ∷ xs) lt len e h = (
  ground arith,
  Cells-put f c w ((i + 1) % 4096) xs (omega arith) (omega arith) (omega arith) h.1,
)

Cells-append :
    (f : ℕ → ℕ) (i : ℕ) (xs : List ℕ) (c : ℕ)
    → i < 4096
    → Cells f i xs
    → f ((i + length xs) % 4096) ≡ c
    → Cells f i (xs ++ c ∷ [])
Cells-append f i [] c lt h e = (ap f (omega arith) ∙ e, tt)
Cells-append f i (x ∷ xs) c lt h e =
    (h.0, Cells-append f ((i + 1) % 4096) xs c (omega arith) h.1 (ap f (omega arith) ∙ e))

Cells-front : (f : ℕ → ℕ) (i : ℕ) (xs ys : List ℕ) → Cells f i (xs ++ ys) → Cells f i xs
Cells-front f i [] ys h = tt
Cells-front f i (x ∷ xs) ys h = (h.0, Cells-front f ((i + 1) % 4096) xs ys h.1)

-- The tests of the code on the two positions.
pub is_full_iff : (q : Ring) (xs : List ℕ) → IsRing q xs → is_full q ≡ (length xs == 4095)
is_full_iff q xs h = ground arith

pub is_empty_iff : (q : Ring) (xs : List ℕ) → IsRing q xs → (q.r_pos == q.w_pos) ≡ (length xs == 0)
is_empty_iff q xs h = ground arith

pub ring_put-append :
    (c : ℕ) (q : Ring) (xs : List ℕ)
    → IsRing q xs
    → length xs < 4095
    → IsRing (ring_put c q) (xs ++ c ∷ [])
unfolding ring_put
ring_put-append c q xs (lt, len, w, h) room = (
  lt,
  omega (arith, length-append xs (c ∷ [])),
  omega (arith, length-append xs (c ∷ [])),
  Cells-append (λ j. if j == q.w_pos then c else q.cells j) q.r_pos xs c lt
      (Cells-put q.cells c q.w_pos q.r_pos xs lt len w h) (ground arith),
)

pub take_back-snoc :
    (q : Ring) (xs : List ℕ) (c : ℕ) → IsRing q (xs ++ c ∷ []) → IsRing (take_back q) xs
unfolding take_back
take_back-snoc q xs c (lt, len, w, h) =
    let size = length-append xs (c ∷ []) in
    (lt, omega (arith, size), omega (arith, size), Cells-front q.cells q.r_pos xs (c ∷ []) h)

-- A scancode is put behind those that wait, or is dropped when 4095 of them do.
kbd_insert-append :
    (kh : ℕ) (q : Ring) (xs : List ℕ)
    → IsRing q xs
    → IsRing (kbd_insert kh q) (if length xs == 4095 then xs else xs ++ kh % 256 ∷ [])
unfolding kbd_insert
kbd_insert-append kh q xs h = elim (Bool-cases (length xs == 4095)) [
  | inl e ↦ let full : ((q.w_pos + 1) % 4096 == q.r_pos) ≡ true = ground arith in rw (full, e) h
  | inr e ↦
      let open_cell : ((q.w_pos + 1) % 4096 == q.r_pos) ≡ false = ground arith in
      rw (open_cell, e) (ring_put-append (kh % 256) q xs h (ground arith))
]

-- The oldest element is taken out of a ring that is not empty, and an empty ring makes the reader
-- wait.
pub ring_take-cons :
    (q : Ring) (xs : List ℕ)
    → IsRing q xs
    → ((xs ≡ []) × (ring_take q ≡ none))
      ⊎ ((x : ℕ) × (ys : List ℕ) × (q' : Ring) × (xs ≡ x ∷ ys)
          × (ring_take q ≡ some (x, q'))
          × IsRing q' ys)
unfolding ring_take
ring_take-cons q [] h =
    let empty : (q.r_pos == q.w_pos) ≡ true = ground arith in inl (refl, rw empty refl)
ring_take-cons q (x ∷ xs) (lt, len, w, h) =
    let more : (q.r_pos == q.w_pos) ≡ false = ground arith in
    inr (
      x,
      xs,
      record q { r_pos = (q.r_pos + 1) % 4096 },
      refl,
      rw (more, h.0) refl,
      (omega arith, omega arith, omega arith, h.1),
    )
