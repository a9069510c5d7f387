-- ===== src/Usermem/Copy.antt =====
-- `copy_from_user` and `copy_to_user` move the bytes that they are asked for, or fail.
use native.Mathlib.Nat.{add-zero}
use mathlib.Core.Path.{subst}
use pebpeb_os.Base.{
  ℕ, zero, suc, ◌+◌, ◌^◌, ◌≤◌, ◌<◌, ◌≡◌, ◌≢◌, ◌↔◌, inl, inr, refl, sym, ap, ◌∙◌, arith, true, false,
  none, some, List, [], ◌∷◌, length, Option-cases, Bool-cases,
}
use pebpeb_os.Usermem.{UserMem, wrap, try_read, try_write, put, copy_from_user, copy_to_user}

-- The bytes from `addr` on.
abbrev pub Holds : UserMem → ℕ → List ℕ → Type 0
Holds m addr [] = Unit
Holds m addr (c ∷ cs) = (m.read (wrap addr) ≡ some c) × Holds m (addr + 1) cs

-- One round of the loop.
read_none :
    (m : UserMem) (addr k : ℕ)
    → m.read (wrap addr) ≡ none
    → copy_from_user m addr (suc k) ≡ (false, [])
unfolding copy_from_user try_read
read_none m addr k e = rw (e, copy_from_user)

read_some :
    (m : UserMem) (addr k c : ℕ)
    → m.read (wrap addr) ≡ some c
    → copy_from_user m addr (suc k)
      ≡ ((copy_from_user m (addr + 1) k).0, c ∷ (copy_from_user m (addr + 1) k).1)
unfolding copy_from_user try_read
read_some m addr k c e = rw (e, copy_from_user)

-- `copy_from_user` returns 0 and leaves `buf` exactly if `buf` is the `size` bytes that stand in
-- user memory from `addr` on.
pub copy_from_user_iff :
    (m : UserMem) (addr size : ℕ) (buf : List ℕ)
    → (copy_from_user m addr size ≡ (true, buf)) ↔ ((length buf ≡ size) × Holds m addr buf)
unfolding copy_from_user
copy_from_user_iff m addr zero [] = (λ e. (refl, tt), λ h. refl)
copy_from_user_iff m addr zero (c ∷ cs) = (λ e. cc, λ h. absurd (omega arith))
copy_from_user_iff m addr (suc k) [] = (
  λ e. elim (Option-cases (m.read (wrap addr))) [
    | inl n ↦ cc (read_none m addr k n)
    | inr (c, r) ↦ cc (read_some m addr k c r)
  ],
  λ h. absurd (omega arith),
)
copy_from_user_iff m addr (suc k) (c ∷ cs) =
    let (there, back) = copy_from_user_iff m (addr + 1) k cs in
    (
      λ e. elim (Option-cases (m.read (wrap addr))) [
        | inl n ↦ cc (read_none m addr k n)
        | inr (d, r) ↦
            let (l, h) = there (ground (arith, read_some m addr k d r)) in
            (ap suc l, (ground (arith, read_some m addr k d r), h))
      ],
      λ (l, (r, h)). let e = back (omega arith, h) in ground (arith, e, read_some m addr k c r),
    )

fails_back :
    (m : UserMem) (addr k : ℕ)
    → (((i : ℕ) × (i < k) × (m.read (wrap (addr + 1 + i)) ≡ none))
        → (copy_from_user m (addr + 1) k).0 ≡ false)
    → (i : ℕ) → i < suc k
    → m.read (wrap (addr + i)) ≡ none
    → (copy_from_user m addr (suc k)).0 ≡ false
fails_back m addr k later zero h n = ap (λ r. r.0) (read_none m addr k (rw add-zero at n))
fails_back m addr k later (suc i) h n = elim (Option-cases (m.read (wrap addr))) [
  | inl e ↦ ap (λ r. r.0) (read_none m addr k e)
  | inr (d, e) ↦
      let next : addr + suc i ≡ addr + 1 + i = omega arith in
      ap (λ r. r.0) (read_some m addr k d e) ∙ later (i, omega arith, rw next at n)
]

-- `copy_from_user` returns -1 exactly if one of the `size` bytes from `addr` on cannot be read.
pub copy_from_user-fails_iff :
    (m : UserMem) (addr size : ℕ)
    → ((copy_from_user m addr size).0 ≡ false)
      ↔ ((i : ℕ) × (i < size) × (m.read (wrap (addr + i)) ≡ none))
unfolding copy_from_user
copy_from_user-fails_iff m addr zero = (λ e. cc, λ (i, h, e). absurd (omega arith))
copy_from_user-fails_iff m addr (suc k) =
    let (there, back) = copy_from_user-fails_iff m (addr + 1) k in
    (
      λ e. elim (Option-cases (m.read (wrap addr))) [
        | inl n ↦ (0, omega arith, rw add-zero n)
        | inr (d, r) ↦
            let (i, h, n) = there (ground (arith, read_some m addr k d r)) in
            (suc i, omega arith, let next : addr + suc i ≡ addr + 1 + i = omega arith in rw next n)
      ],
      λ (i, h, n). fails_back m addr k back i h n,
    )

-- The addresses that `copy_to_user` is asked to write.
abbrev pub Writable : UserMem → ℕ → ℕ → Type 0
Writable m addr zero = Unit
Writable m addr (suc k) = (m.writable (wrap addr) ≡ true) × Writable m (addr + 1) k

write_some :
    (m : UserMem) (addr c : ℕ) (cs : List ℕ)
    → m.writable (wrap addr) ≡ true
    → copy_to_user m addr (c ∷ cs) ≡ copy_to_user (put m (wrap addr) c) (addr + 1) cs
unfolding copy_to_user try_write
write_some m addr c cs e = rw (e, copy_to_user)

-- Writes further on leave an address alone that they do not reach.
pub copy_to_user-outside :
    (m : UserMem) (addr a : ℕ) (cs : List ℕ)
    → ((i : ℕ) → i < length cs → wrap (addr + i) ≢ a)
    → (copy_to_user m addr cs).1.read a ≡ m.read a
unfolding copy_to_user try_write
copy_to_user-outside m addr a [] far = refl
copy_to_user-outside m addr a (c ∷ cs) far = elim (Bool-cases (m.writable (wrap addr))) [
  | inl w ↦
      let first : wrap addr ≢ a = λ e. far 0 (omega arith) (rw add-zero e) in
      let later = λ (i : ℕ) (h : i < length cs) (e : wrap (addr + 1 + i) ≡ a).
        far (suc i) (omega arith)
          (let next : addr + suc i ≡ addr + 1 + i = omega arith in rw next e) in
      let ih = copy_to_user-outside (put m (wrap addr) c) (addr + 1) a cs later in
      rw (w, copy_to_user) (ih ∙ (ground arith))
  | inr w ↦ rw (w, copy_to_user) refl
]

-- If every address can be written `copy_to_user` returns 0, and user memory then holds `buf` from
-- `addr` on, for any `buf` that is no longer than the address space.
pub copy_to_user-Holds :
    (m : UserMem) (addr : ℕ) (buf : List ℕ)
    → length buf ≤ 2 ^ 32
    → Writable m addr (length buf)
    → ((copy_to_user m addr buf).0 ≡ true) × Holds (copy_to_user m addr buf).1 addr buf
unfolding copy_to_user
copy_to_user-Holds m addr [] small w = (refl, tt)
copy_to_user-Holds m addr (c ∷ cs) small (w, ws) =
    let m' = put m (wrap addr) c in
    let (done, holds) = copy_to_user-Holds m' (addr + 1) cs (omega arith) ws in
    let kept = copy_to_user-outside m' (addr + 1) (wrap addr) cs (λ i h e. omega arith) in
    subst (λ r. (r.0 ≡ true) × ((r.1.read (wrap addr) ≡ some c) × Holds r.1 (addr + 1) cs))
      (sym (write_some m addr c cs w)) (done, (kept ∙ (ground arith), holds))
