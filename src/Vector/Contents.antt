-- ===== src/Vector/Contents.antt =====
-- kern/common.c: the operations of a vector, on the list of its elements.
use pebpeb_os.Base.{
  ℕ, ◌+◌, ◌-◌, ◌≤◌, ◌<◌, ◌≡◌, ◌⊎◌, refl, sym, ◌*◌, ◌/◌, ◌&&◌, length-append, Bool-cases, inl, inr,
  true, false, List, [], ◌∷◌, ◌++◌, length, some, none, arith, ◌==◌, ltb, leb, if◌then◌else◌,
}
use mathlib.Core.Path.{subst}
use pebpeb_os.Vector.{
  Vector, Smalloc, memcpy, grow, put_last, vector_push, vector_try_shink, vector_pop, vector_remove,
}
use pebpeb_os.Vector.Elements.{IsVector, Holds-frame, Holds-append, Holds-split, Holds-shift}

module _ {ℓ} {A : Type ℓ} (mem : Smalloc A) where
  grow-cases :
      (v : Vector A) (xs : List A)
      → IsVector v xs
      → ((grow mem v ≡ none)
          × (v.current ≡ v.size)
          × (mem.succeeds (v.size * v.elem_size * 2) ≡ false))
        ⊎ ((v' : Vector A) × (grow mem v ≡ some v') × IsVector v' xs × (v'.current < v'.size))
  unfolding grow
  grow-cases v xs (len, le, pos, h) = elim (Bool-cases (v.current == v.size)) [
    | inl e ↦ elim (Bool-cases (mem.succeeds (v.size * v.elem_size * 2))) [
      | inl e' ↦ inr (
        record v { size = v.size * 2; array = memcpy mem v.current v.array },
        rw (e, e') refl,
        (
          len,
          omega arith,
          omega arith,
          Holds-frame v.array (memcpy mem v.current v.array) 0 xs (λ j l u. ground arith) h,
        ),
        omega arith,
      )
      | inr e' ↦ inl (rw (e, e') refl, ground arith, e')
    ]
    | inr e ↦ inr (v, rw e refl, (len, le, pos, h), ground arith)
  ]

  put_last-append :
      (x : A) (v : Vector A) (xs : List A)
      → IsVector v xs
      → v.current < v.size
      → IsVector (put_last mem x v) (xs ++ x ∷ [])
  unfolding put_last
  put_last-append x v xs (len, le, pos, h) room =
      let put = λ (i : ℕ). if i == v.current then x else v.array i in
      (
        omega (arith, length-append xs (x ∷ [])),
        omega arith,
        pos,
        Holds-append put 0 xs (x ∷ []) (Holds-frame v.array put 0 xs (λ j l u. ground arith) h)
            (ground arith, tt),
      )

  -- A push appends the element, or fails and leaves the vector as it is, and then the vector was
  -- full and memory was refused.
  vector_push-append :
      (x : A) (v : Vector A) (xs : List A)
      → IsVector v xs
      → ((v' : Vector A) × (vector_push mem x v ≡ (true, v')) × IsVector v' (xs ++ x ∷ []))
        ⊎ ((vector_push mem x v ≡ (false, v))
            × (v.current ≡ v.size)
            × (mem.succeeds (v.size * v.elem_size * 2) ≡ false))
  unfolding vector_push
  vector_push-append x v xs h = elim (grow-cases v xs h) [
    | inl (failed, full, refused) ↦ inr (rw (vector_push, failed) refl, full, refused)
    | inr (v', grown, is, room) ↦
        inl (put_last mem x v', rw (vector_push, grown) refl, put_last-append x v' xs is room)
  ]

  shrunk : Vector A → Vector A
  shrunk v = record v { size = v.size / 2; array = memcpy mem v.current v.array }

  shink-cases :
      (v : Vector A)
      → (vector_try_shink mem v ≡ v)
        ⊎ ((vector_try_shink mem v ≡ shrunk v) × (v.current < v.size / 3) × (8 ≤ v.size / 2))
  unfolding vector_try_shink shrunk
  shink-cases v = elim (Bool-cases (ltb v.current (v.size / 3))) [
    | inr e ↦ inl (rw e refl)
    | inl e ↦ elim (Bool-cases (ltb (v.size / 2) 8)) [
      | inl e' ↦ inl (rw (e, e') refl)
      | inr e' ↦ elim (Bool-cases (mem.succeeds ((v.size / 2) * v.elem_size))) [
        | inl e'' ↦ inr (rw (e, e', e'') refl, ground arith, ground arith)
        | inr e'' ↦ inl (rw (e, e', e'') refl)
      ]
    ]
  ]

  shink-IsVector :
      (v : Vector A) (xs : List A) → IsVector v xs → IsVector (vector_try_shink mem v) xs
  unfolding shrunk
  shink-IsVector v xs (len, le, pos, h) = elim (shink-cases v) [
    | inl e ↦ subst (λ w. IsVector w xs) (sym e) (len, le, pos, h)
    | inr (e, few, big) ↦
        subst (λ w. IsVector w xs) (sym e)
          (
            len,
            omega arith,
            omega arith,
            Holds-frame v.array (memcpy mem v.current v.array) 0 xs (λ j l u. ground arith) h,
          )
  ]

  -- A pop takes the last element away.
  pub vector_pop-snoc :
      (v : Vector A) (xs : List A) (x : A)
      → IsVector v (xs ++ x ∷ [])
      → IsVector (vector_pop mem v) xs
  unfolding vector_pop
  vector_pop-snoc v xs x (len, le, pos, h) =
      shink-IsVector (record v { current = v.current - 1 }) xs
        (
          omega (arith, length-append xs (x ∷ [])),
          omega arith,
          pos,
          (Holds-split v.array 0 xs (x ∷ []) h).0,
        )

  -- A removal at an index takes that element away and keeps the order of the others.
  pub vector_remove-append :
      (v : Vector A) (us : List A) (x : A) (vs : List A)
      → IsVector v (us ++ x ∷ vs)
      → IsVector (vector_remove mem (length us) v) (us ++ vs)
  unfolding vector_remove
  vector_remove-append v us x vs (len, le, pos, h) =
      let moved = λ (i : ℕ).
        if leb (length us) i && ltb i (v.current - 1) then v.array (i + 1) else v.array i in
      let (front, back) = Holds-split v.array 0 us (x ∷ vs) h in
      let sum = length-append us (x ∷ vs) in
      shink-IsVector (record v { array = moved; current = v.current - 1 }) (us ++ vs)
        (
          omega (arith, sum, length-append us vs),
          omega arith,
          pos,
          Holds-append moved 0 us vs (Holds-frame v.array moved 0 us (λ j l u. ground arith) front)
              (Holds-shift v.array moved (0 + length us) vs (λ j l u. ground (arith, sum)) back.1),
        )

  -- The same, cell by cell.
  grow-cells :
      (v : Vector A)
      → ((grow mem v ≡ none)
          × (v.current ≡ v.size)
          × (mem.succeeds (v.size * v.elem_size * 2) ≡ false))
        ⊎ ((v' : Vector A) × (grow mem v ≡ some v')
            × (v'.current ≡ v.current)
            × ((i : ℕ) → i < v.current → v'.array i ≡ v.array i))
  unfolding grow
  grow-cells v = elim (Bool-cases (v.current == v.size)) [
    | inl e ↦ elim (Bool-cases (mem.succeeds (v.size * v.elem_size * 2))) [
      | inl e' ↦ inr (
        record v { size = v.size * 2; array = memcpy mem v.current v.array },
        rw (e, e') refl,
        refl,
        λ i l. ground arith,
      )
      | inr e' ↦ inl (rw (e, e') refl, ground arith, e')
    ]
    | inr e ↦ inr (v, rw e refl, refl, λ i l. refl)
  ]

  pub vector_push-cells :
      (x : A) (v : Vector A)
      → ((vector_push mem x v ≡ (false, v))
          × (v.current ≡ v.size)
          × (mem.succeeds (v.size * v.elem_size * 2) ≡ false))
        ⊎ ((v' : Vector A) × (vector_push mem x v ≡ (true, v'))
            × (v'.current ≡ v.current + 1)
            × ((i : ℕ) → i < v.current → v'.array i ≡ v.array i)
            × (v'.array v.current ≡ x))
  unfolding put_last vector_push
  vector_push-cells x v = elim (grow-cells v) [
    | inl (failed, full, refused) ↦ inl (rw (vector_push, failed) refl, full, refused)
    | inr (v', grown, cur, cells) ↦ inr (
      put_last mem x v',
      rw (vector_push, grown) refl,
      omega (arith, cur),
      λ i l. ground (arith, cur, cells i l),
      ground (arith, cur),
    )
  ]

  pub vector_pop-cells :
      (v : Vector A)
      → ((vector_pop mem v).current ≡ v.current - 1)
        × ((i : ℕ) → i < v.current - 1 → (vector_pop mem v).array i ≡ v.array i)
  unfolding vector_pop shrunk
  vector_pop-cells v =
      let w = record v { current = v.current - 1 } in
      elim (shink-cases w) [
        | inl e ↦
            subst
              (λ u.
                (u.current ≡ v.current - 1) × ((i : ℕ) → i < v.current - 1 → u.array i ≡ v.array i))
              (sym e) (refl, λ i l. refl)
        | inr (e, few, big) ↦
            subst
              (λ u.
                (u.current ≡ v.current - 1) × ((i : ℕ) → i < v.current - 1 → u.array i ≡ v.array i))
              (sym e) (refl, λ i l. ground arith)
      ]
