-- ===== src/Usermem.antt =====
-- kern/usermem.c: reads and writes of user memory that a bad address ends early. `try_read` and
-- `try_write` are assembly and the page fault handler: what they find is the memory `UserMem`, a
-- parameter. An address is a 32-bit word, so `addr + i` wraps.
pub mod Copy
pub mod Text
mod Tests
use pebpeb_os.Base.{
  ℕ, zero, suc, ◌+◌, ◌*◌, ◌%◌, ◌^◌, Bool, true, false, ◌&&◌, not, Option, none, some, List, [], ◌∷◌,
  ◌==◌, ltb, leb, if◌then◌else◌,
}

-- The byte at each address that can be read, and the addresses that can be written.
pub record UserMem : Type 0 where
  pub read : ℕ → Option ℕ
  pub writable : ℕ → Bool

abbrev pub wrap : ℕ → ℕ
wrap a = a % 2 ^ 32

unfoldable pub try_read : UserMem → ℕ → Option ℕ
try_read m a = m.read (wrap a)

abbrev pub put : UserMem → ℕ → ℕ → UserMem
put m a c = record m { read = λ b. if b == a then some c else m.read b }

unfoldable pub try_write : UserMem → ℕ → ℕ → Option UserMem
try_write m a c = if m.writable (wrap a) then some (put m (wrap a) c) else none

-- The loop of `copy_from_user` with `size - i` rounds left: whether it returns 0, and the bytes
-- that it has stored in `buf` from `i` on.
unfoldable pub copy_from_user : UserMem → (addr size : ℕ) → Bool × List ℕ
copy_from_user m addr zero = (true, [])
copy_from_user m addr (suc k) = elim (try_read m addr) [
  | none ↦ (false, [])
  | some c ↦ let (done, buf) = copy_from_user m (addr + 1) k in (done, c ∷ buf)
]

-- The loop of `copy_to_user` over what is left of `buf`.
unfoldable pub copy_to_user : UserMem → (addr : ℕ) → (buf : List ℕ) → Bool × UserMem
copy_to_user m addr [] = (true, m)
copy_to_user m addr (c ∷ buf) = elim (try_write m addr c) [
  | none ↦ (false, m)
  | some m' ↦ copy_to_user m' (addr + 1) buf
]

abbrev pub cons_some : ℕ → Option (List ℕ) → Option (List ℕ)
cons_some c none = none
cons_some c (some s) = some (c ∷ s)

-- The loop of `copy_string_from_user` with `maxlen - len` rounds left. `alloc` says which sizes
-- `malloc` and `realloc` grant; `none` is NULL, and otherwise the result is `buf` from `len` on.
string_loop : UserMem → (alloc : ℕ → Bool) → (addr rounds len buflen : ℕ) → Option (List ℕ)
string_loop m alloc addr zero len buflen = none
string_loop m alloc addr (suc k) len buflen =
    let full = leb buflen (len + 1) in
    let rest = string_loop m alloc addr k (len + 1) (if full then buflen * 2 else buflen) in
    elim (try_read m (addr + len)) [
      | none ↦ none
      | some c ↦
          if c == 0
          then some (c ∷ [])
          else if full && not (alloc (buflen * 2))
          then none
          else cons_some c rest
    ]

-- The buffer has 12 bytes at first.
pub copy_string_from_user : UserMem → (alloc : ℕ → Bool) → (addr maxlen : ℕ) → Option (List ℕ)
unfolding string_loop
copy_string_from_user m alloc addr maxlen =
    if alloc 12 then string_loop m alloc addr maxlen 0 12 else none
