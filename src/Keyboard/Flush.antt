-- ===== src/Keyboard/Flush.antt =====
-- kern/pts.c: flush_line against one copy of the first line.
use pebpeb_os.Base.{
  ℕ, zero, suc, ◌+◌, ◌-◌, ◌%◌, ◌≤◌, ◌<◌, ◌≡◌, refl, ap, ◌∙◌, sym, inl, inr, Bool, Bool-cases, true,
  false, Option, none, some, List, [], ◌∷◌, ◌++◌, length, length-drop, length-take, min,
  Option-cases, take, drop, arith, ◌==◌, ltb, if◌then◌else◌,
}
use mathlib.Core.Path.{subst, ap₂}
use pebpeb_os.Usermem.{UserMem, try_write, copy_to_user}
use pebpeb_os.Keyboard.{Ring, line_size, segment, flush_part, flush_line}
use pebpeb_os.Keyboard.Contents.{Cells, IsRing}

-- A copy in two parts.
copy_to_user-append :
    (m : UserMem) (addr : ℕ) (us vs : List ℕ)
    → copy_to_user m addr (us ++ vs) ≡ (
        let (ok, m1) = copy_to_user m addr us in
        if ok then copy_to_user m1 (addr + length us) vs else (false, m1))
unfolding copy_to_user
copy_to_user-append m addr [] vs = ap (λ a. copy_to_user m a vs) (omega arith)
copy_to_user-append m addr (u ∷ us) vs = elim (Option-cases (try_write m addr u)) [
  | inl e ↦ rw (copy_to_user, e) refl
  | inr (m', e) ↦
      rw (copy_to_user, e)
        (copy_to_user-append m' (addr + 1) us vs
          ∙ ap
              (λ a.
                let (ok, m1) = copy_to_user m' (addr + 1) us in
                if ok then copy_to_user m1 a vs else (false, m1))
              (omega arith))
]

-- The characters up to and with the first '\n', or all.
abbrev pub first_line : List ℕ → List ℕ
first_line [] = []
first_line (x ∷ xs) = x ∷ (if x == 10 then [] else first_line xs)

line_size-first_line :
    (k i : ℕ) (q : Ring) (zs : List ℕ)
    → i < 4096
    → length zs ≤ k
    → length zs < 4096
    → q.w_pos ≡ (i + length zs) % 4096
    → Cells q.cells i zs
    → line_size k i q ≡ length (first_line zs)
unfolding line_size
line_size-first_line zero i q [] lt le len w h = refl
line_size-first_line zero i q (z ∷ zs) lt le len w h = absurd (omega arith)
line_size-first_line (suc k) i q [] lt le len w h =
    let at_end : (i == q.w_pos) ≡ true = ground arith in rw (line_size, at_end) refl
line_size-first_line (suc k) i q (z ∷ zs) lt le len w h =
    let on : (i == q.w_pos) ≡ false = ground arith in
    let ih =
      line_size-first_line k ((i + 1) % 4096) q zs (omega arith) (omega arith) (omega arith)
        (omega arith) h.1 in
    elim (Bool-cases (z == 10)) [
      | inl e ↦ rw (line_size, on, h.0, e) refl
      | inr e ↦ rw (line_size, on, h.0, e) (omega (arith, ih))
    ]

-- A part of the ring that does not go around its end.
segment-take :
    (f : ℕ → ℕ) (i n : ℕ) (xs : List ℕ)
    → i + n ≤ 4096
    → n ≤ length xs
    → Cells f (i % 4096) xs
    → (segment f i n ≡ take n xs) × Cells f ((i + n) % 4096) (drop n xs)
segment-take f i zero xs le len h = (refl, subst (λ j. Cells f j xs) (omega arith) h)
segment-take f i (suc n) [] le len h = absurd (omega arith)
segment-take f i (suc n) (x ∷ xs) le len h =
    let here : f i ≡ x = ap f (omega arith) ∙ h.0 in
    let (front, back) =
      segment-take f (i + 1) n xs (omega arith) (omega arith)
        (subst (λ j. Cells f j xs) (omega arith) h.1) in
    (ap₂ (λ y ys. y ∷ ys) here front, subst (λ j. Cells f j (drop n xs)) (omega arith) back)

take-nil : (n : ℕ) → take {A = ℕ} n [] ≡ []
take-nil zero = refl
take-nil (suc n) = refl

take-add : (a b : ℕ) (xs : List ℕ) → take (a + b) xs ≡ take a xs ++ take b (drop a xs)
take-add zero b xs = ap (λ n. take n xs) (omega arith)
take-add (suc a) b [] = take-nil (suc a + b) ∙ sym (take-nil b)
take-add (suc a) b (x ∷ xs) =
    ap (λ n. take n (x ∷ xs)) (suc_add a b) ∙ ap (λ ys. x ∷ ys) (take-add a b xs)
  where
    suc_add : (a b : ℕ) → suc a + b ≡ suc (a + b)
    suc_add a b = omega arith

-- The ring without its first `n` elements.
advance :
    (f : ℕ → ℕ) (i n : ℕ) (xs : List ℕ)
    → i < 4096
    → n ≤ length xs
    → Cells f i xs
    → Cells f ((i + n) % 4096) (drop n xs)
advance f i zero xs lt le h = subst (λ j. Cells f j xs) (omega arith) h
advance f i (suc n) [] lt le h = absurd (omega arith)
advance f i (suc n) (x ∷ xs) lt le h =
    subst (λ j. Cells f j (drop n xs)) (omega arith)
      (advance f ((i + 1) % 4096) n xs (omega arith) (omega arith) h.1)

first_line-length : (xs : List ℕ) → length (first_line xs) ≤ length xs
first_line-length [] = omega arith
first_line-length (x ∷ xs) = ground (arith, first_line-length xs)

first_line-pos : (x : ℕ) (xs : List ℕ) → 0 < length (first_line (x ∷ xs))
first_line-pos x xs = omega arith

-- What flush_line does with `size` characters of the ring.
abbrev pub Flushed : (size buf : ℕ) → Ring → UserMem → List ℕ → Option ℕ × UserMem × Ring → Type 0
Flushed size buf q m xs r =
    (q' : Ring) × IsRing q' (drop size xs)
    × (r ≡ (
        let (ok, m') = copy_to_user m buf (take size xs) in
        if ok then (some size, m', q') else (none, m', q)))

two_copies :
    {A : Type 0} (ok_1 : Bool) (second : Bool × UserMem) (m_1 : UserMem) (good bad : UserMem → A)
    → (if ok_1 then (if second.0 then good second.1 else bad second.1) else bad m_1)
      ≡ (let (ok, m') = if ok_1 then second else (false, m_1) in if ok then good m' else bad m')
two_copies true second m_1 good bad = refl
two_copies false second m_1 good bad = refl

flush_part-Flushed :
    (size buf : ℕ) (q : Ring) (m : UserMem) (xs : List ℕ)
    → IsRing q xs
    → 0 < size
    → size ≤ length xs
    → Flushed size buf q m xs (flush_part size buf q m)
unfolding flush_part
flush_part-Flushed size buf q m xs (lt, small, w, h) pos le =
    let end_pos = (q.r_pos + size) % 4096 in
    let ring : IsRing (record q { r_pos = end_pos }) (drop size xs) = (
      omega arith,
      omega (arith, length-drop size xs),
      omega (arith, length-drop size xs),
      advance q.cells q.r_pos size xs lt le h,
    ) in
    let h' : Cells q.cells (q.r_pos % 4096) xs = subst (λ j. Cells q.cells j xs) (omega arith) h in
    elim (Bool-cases (ltb q.r_pos end_pos)) [
      | inl e ↦
          let (part, _) = segment-take q.cells q.r_pos size xs (ground arith) le h' in
          (record q { r_pos = end_pos }, ring, rw (flush_part, e, part) refl)
      | inr e ↦
          let size_1 = 4096 - q.r_pos in
          let (part_1, rest) =
            segment-take q.cells q.r_pos size_1 xs (omega arith) (ground arith) h' in
          let (part_2, _) =
            segment-take q.cells 0 end_pos (drop size_1 xs) (omega arith)
              (ground (arith, length-drop size_1 xs))
              (subst (λ j. Cells q.cells j (drop size_1 xs)) (omega arith) rest) in
          let both : size ≡ size_1 + end_pos = ground arith in
          let whole : take size xs ≡ take size_1 xs ++ take end_pos (drop size_1 xs) =
            ap (λ n. take n xs) both ∙ take-add size_1 end_pos xs in
          let count : length (take size_1 xs) ≡ size_1 = ground (arith, length-take size_1 xs) in
          let copied =
            ap (copy_to_user m buf) whole
            ∙ copy_to_user-append m buf (take size_1 xs) (take end_pos (drop size_1 xs)) in
          (
            record q { r_pos = end_pos },
            ring,
            rw (flush_part, e, part_1, part_2, copied, count)
                (two_copies ((copy_to_user m buf (take size_1 xs)).0)
                  (copy_to_user (copy_to_user m buf (take size_1 xs)).1 (buf + size_1)
                    (take end_pos (drop size_1 xs)))
                  ((copy_to_user m buf (take size_1 xs)).1)
                  (λ w. (some size, w, record q { r_pos = end_pos })) (λ w. (none, w, q))),
          )
    ]

-- From a ring that is not empty, and for a `len` above 0, flush_line copies to `buf` the first
-- line, or its first `len` characters where it is longer, just as one copy_to_user of these
-- characters would, whether or not they go around the end of the ring; if the copy succeeds it returns
-- their number and takes them out of the ring, and else it returns -1 and the ring is as before.
pub flush_line-Flushed :
    (len buf : ℕ) (q : Ring) (m : UserMem) (x : ℕ) (xs : List ℕ)
    → IsRing q (x ∷ xs)
    → 0 < len
    → Flushed (min len (length (first_line (x ∷ xs)))) buf q m (x ∷ xs) (flush_line len buf q m)
unfolding flush_line
flush_line-Flushed len buf q m x xs h pos =
    let all = x ∷ xs in
    let size = line_size-first_line 4096 q.r_pos q all h.0 (omega (arith, h.1)) h.1 h.2 h.3 in
    let least : (if ltb len (line_size 4096 q.r_pos q) then len else line_size 4096 q.r_pos q)
        ≡ min len (length (first_line all)) =
      ground (arith, size) in
    let some_left = first_line-pos x xs in
    let n = min len (length (first_line all)) in
    subst (λ k. Flushed n buf q m all (flush_part k buf q m)) (sym least)
      (flush_part-Flushed n buf q m all h (omega (arith, some_left))
        (omega (arith, first_line-length all)))
