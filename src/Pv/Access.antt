-- ===== src/Pv/Access.antt =====
-- The reads and writes of guest memory that the handlers make, when the memory is there.
use mathlib.Core.Path.{subst}
use native.Mathlib.Nat.{add-zero}
use pebpeb_os.Base.{
  ℕ, ◌+◌, ◌*◌, ◌^◌, ◌≤◌, ◌<◌, ◌≡◌, ◌≢◌, refl, ap, zero, suc, inl, inr, ◌∙◌, sym, true, Bool-cases,
  List, [], ◌∷◌, ◌++◌, length, arith, ◌==◌, if◌then◌else◌,
}
use pebpeb_os.Usermem.{UserMem, wrap, put, try_write, copy_to_user}
use pebpeb_os.Usermem.Copy.{
  Holds, Writable, copy_from_user_iff, copy_to_user-Holds, copy_to_user-outside,
}
use pebpeb_os.Pv.Vm.{
  Vm, ok, memory, bytes_of, word_of, read_bytes, read_word, argument, write_bytes, ◌>>=◌,
}

pub read_bytes-Holds :
    (addr : ℕ) (buf : List ℕ) (g : Vm)
    → Holds (memory g) addr buf
    → read_bytes addr (length buf) g ≡ ok buf g
unfolding read_bytes
read_bytes-Holds addr buf g h =
    let e = (copy_from_user_iff (memory g) addr (length buf) buf).1 (refl, h) in
    rw (e, read_bytes) refl

-- The bytes of a word are read as the word.
pub word_of-bytes_of : (w : ℕ) → w < 2 ^ 32 → word_of (bytes_of 4 w) ≡ w
word_of-bytes_of w h = omega arith

pub argument-Holds :
    (k w : ℕ) (g : Vm)
    → w < 2 ^ 32
    → Holds (memory g) (g.frame.esp + 4 * k) (bytes_of 4 w)
    → argument k g ≡ ok w g
unfolding argument read_word
argument-Holds k w g small h =
    let e : read_bytes (g.frame.esp + 4 * k) 4 g ≡ ok (bytes_of 4 w) g =
      read_bytes-Holds (g.frame.esp + 4 * k) (bytes_of 4 w) g h in
    rw (e, ◌>>=◌) (ap (λ (v : ℕ). ok v g) (word_of-bytes_of w small))

-- The guest after `write_bytes`.
unfoldable pub wrote : (addr : ℕ) → List ℕ → Vm → Vm
wrote addr buf g =
    let m = (copy_to_user (memory g) addr buf).1 in
    record g { spaces = (λ c. if c == g.cr3 then m else g.shown g.spaces g.cr3 m c) }

pub memory-wrote :
    (addr : ℕ) (buf : List ℕ) (g : Vm)
    → memory (wrote addr buf g) ≡ (copy_to_user (memory g) addr buf).1
unfolding wrote
memory-wrote addr buf g = ground arith

pub write_bytes-wrote :
    (addr : ℕ) (buf : List ℕ) (g : Vm)
    → length buf ≤ 2 ^ 32
    → Writable (memory g) addr (length buf)
    → (write_bytes addr buf g ≡ ok true (wrote addr buf g))
      × Holds (memory (wrote addr buf g)) addr buf
unfolding write_bytes wrote
write_bytes-wrote addr buf g small w =
    let (done, holds) = copy_to_user-Holds (memory g) addr buf small w in
    (
      rw (done, write_bytes) refl,
      subst (λ m. Holds m addr buf) (sym (memory-wrote addr buf g)) holds,
    )

-- Memory from an address on, in two parts, and from an address that differs by 2^32.
pub Holds-append :
    (m : UserMem) (a : ℕ) (xs ys : List ℕ)
    → Holds m a xs
    → Holds m (a + length xs) ys
    → Holds m a (xs ++ ys)
Holds-append m a [] ys h k = subst (λ (b : ℕ). Holds m b ys) (omega arith) k
Holds-append m a (x ∷ xs) ys h k =
    let next : a + suc (length xs) ≡ a + 1 + length xs = omega arith in
    (h.0, Holds-append m (a + 1) xs ys h.1 (subst (λ (b : ℕ). Holds m b ys) next k))

pub Holds-wrap :
    (m : UserMem) (a b : ℕ) (xs : List ℕ) → wrap a ≡ wrap b → Holds m a xs → Holds m b xs
Holds-wrap m a b [] e h = tt
Holds-wrap m a b (x ∷ xs) e h = (rw e at h.0, Holds-wrap m (a + 1) (b + 1) xs (omega arith) h.1)

-- A write elsewhere keeps what memory holds.
pub Holds-copy_to_user :
    (m : UserMem) (a b : ℕ) (xs ys : List ℕ)
    → ((i j : ℕ) → i < length xs → j < length ys → wrap (b + j) ≢ wrap (a + i))
    → Holds m a xs
    → Holds (copy_to_user m b ys).1 a xs
Holds-copy_to_user m a b [] ys far h = tt
Holds-copy_to_user m a b (x ∷ xs) ys far h = (
  copy_to_user-outside m b (wrap a) ys (λ j lt e. far 0 j (omega arith) lt (rw add-zero e)) ∙ h.0,
  Holds-copy_to_user m (a + 1) b xs ys
      (λ i j lt lt' e. far (suc i) j (omega arith) lt' (e ∙ ap wrap (omega arith))) h.1,
)

pub Writable-copy_to_user :
    (m : UserMem) (a b n : ℕ) (ys : List ℕ) → Writable m a n → Writable (copy_to_user m b ys).1 a n
unfolding copy_to_user try_write
Writable-copy_to_user m a b n [] w = w
Writable-copy_to_user m a b n (y ∷ ys) w = elim (Bool-cases (m.writable (wrap b))) [
  | inl e ↦
      rw (e, copy_to_user) (Writable-copy_to_user (put m (wrap b) y) a (b + 1) n ys (same n a w))
  | inr e ↦ rw (e, copy_to_user) w
]
  where
    same : (n a : ℕ) → Writable m a n → Writable (put m (wrap b) y) a n
    same zero a w = tt
    same (suc n) a w = (w.0, same n (a + 1) w.1)
