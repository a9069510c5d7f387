-- ===== src/Usermem/Text.antt =====
-- `copy_string_from_user` copies the user's string up to and with its NUL, or returns NULL.
use native.Mathlib.Nat.{add-zero}
use pebpeb_os.Base.{
  ℕ, zero, suc, ◌+◌, ◌*◌, ◌≤◌, ◌≡◌, ◌≢◌, arith, Bool, true, none, some, List, [], ◌∷◌, length, ◌==◌,
  leb, not, ◌&&◌, inl, inr, if◌then◌else◌, Option-cases, Bool-cases,
}
use pebpeb_os.Usermem.{UserMem, wrap, try_read, cons_some, string_loop, copy_string_from_user}

-- The string at `addr`: its bytes are not 0, but for the last.
abbrev pub IsText : UserMem → ℕ → List ℕ → Type 0
IsText m addr [] = ⊥
IsText m addr (c ∷ []) = (m.read (wrap addr) ≡ some c) × (c ≡ 0)
IsText m addr (c ∷ (d ∷ cs)) =
    (m.read (wrap addr) ≡ some c) × (c ≢ 0) × IsText m (addr + 1) (d ∷ cs)

module _ (m : UserMem) (alloc : ℕ → Bool) (addr : ℕ) where
  abbrev larger : (len buflen : ℕ) → ℕ
  larger len buflen = if leb buflen (len + 1) then buflen * 2 else buflen

  -- One round of the loop.
  text_none :
      (k len buflen : ℕ)
      → m.read (wrap (addr + len)) ≡ none
      → string_loop m alloc addr (suc k) len buflen ≡ none
  unfolding string_loop try_read
  text_none k len buflen e = rw (e, string_loop)

  text_some :
      (k len buflen c : ℕ)
      → m.read (wrap (addr + len)) ≡ some c
      → string_loop m alloc addr (suc k) len buflen ≡ (
          if c == 0
          then some (c ∷ [])
          else if leb buflen (len + 1) && not (alloc (buflen * 2))
          then none
          else cons_some c (string_loop m alloc addr k (len + 1) (larger len buflen)))
  unfolding string_loop try_read
  text_some k len buflen c e = rw (e, string_loop)

  -- A byte in front of a string that follows it.
  IsText-cons :
      (len c : ℕ) (s : List ℕ)
      → m.read (wrap (addr + len)) ≡ some c
      → c ≢ 0
      → IsText m (addr + (len + 1)) s
      → IsText m (addr + len) (c ∷ s)
  IsText-cons len c [] r ne t = absurd t
  IsText-cons len c (d ∷ s) r ne t =
      let next : addr + len + 1 ≡ addr + (len + 1) = omega arith in (r, ne, rw next t)

  -- Whatever memory is granted, a string that the loop returns is the user's.
  string_loop-IsText :
      (rounds len buflen : ℕ) (s : List ℕ)
      → string_loop m alloc addr rounds len buflen ≡ some s
      → IsText m (addr + len) s × (length s ≤ rounds)
  unfolding string_loop
  string_loop-IsText zero len buflen s e = cc
  string_loop-IsText (suc k) len buflen s e = elim (Option-cases (m.read (wrap (addr + len)))) [
    | inl n ↦ cc (text_none k len buflen n)
    | inr (c, r) ↦ elim (Bool-cases (c == 0)) [
      | inl z ↦
          let stop : s ≡ c ∷ [] = ground (arith, text_some k len buflen c r) in
          rw stop ((r, ground arith), omega arith)
      | inr nz ↦ elim (Option-cases (string_loop m alloc addr k (len + 1) (larger len buflen))) [
        | inl n ↦ absurd (ground (arith, text_some k len buflen c r))
        | inr (t, e') ↦
            let ih = string_loop-IsText k (len + 1) (larger len buflen) t e' in
            let more : s ≡ c ∷ t = ground (arith, text_some k len buflen c r) in
            rw more (IsText-cons len c t r (ground arith) ih.0, omega (arith, ih.1))
      ]
    ]
  ]

  -- A user string that fits is returned if memory is granted.
  string_loop_complete :
      ((n : ℕ) → alloc n ≡ true)
      → (rounds len buflen : ℕ) (s : List ℕ) → IsText m (addr + len) s
      → length s ≤ rounds
      → string_loop m alloc addr rounds len buflen ≡ some s
  string_loop_complete grant rounds len buflen [] t h = absurd t
  string_loop_complete grant zero len buflen (c ∷ s) t h = absurd (omega arith)
  string_loop_complete grant (suc k) len buflen (c ∷ []) (r, z) h =
      ground (arith, text_some k len buflen c r)
  string_loop_complete grant (suc k) len buflen (c ∷ (d ∷ s)) (r, nz, t) h =
      let next : addr + len + 1 ≡ addr + (len + 1) = omega arith in
      let ih =
        string_loop_complete grant k (len + 1) (larger len buflen) (d ∷ s) (rw next at t)
          (omega arith) in
      ground (arith, text_some k len buflen c r, ih, grant (buflen * 2))

-- A string that `copy_string_from_user` returns is the user's string at `addr` up to and with its
-- first NUL, and is at most `maxlen` bytes long; this holds whatever memory `alloc` grants.
pub copy_string_from_user-IsText :
    (m : UserMem) (alloc : ℕ → Bool) (addr maxlen : ℕ) (s : List ℕ)
    → copy_string_from_user m alloc addr maxlen ≡ some s
    → IsText m addr s × (length s ≤ maxlen)
unfolding copy_string_from_user
copy_string_from_user-IsText m alloc addr maxlen s e =
    let loop : string_loop m alloc addr maxlen 0 12 ≡ some s = ground arith in
    let found = string_loop-IsText m alloc addr maxlen 0 12 s loop in
    (rw add-zero at found.0, found.1)

-- If `alloc` grants every size, `copy_string_from_user` returns each user string of at most `maxlen`
-- bytes, its NUL included.
copy_string_from_user_complete :
    (m : UserMem) (alloc : ℕ → Bool) (addr maxlen : ℕ) (s : List ℕ)
    → ((n : ℕ) → alloc n ≡ true)
    → IsText m addr s
    → length s ≤ maxlen
    → copy_string_from_user m alloc addr maxlen ≡ some s
unfolding copy_string_from_user
copy_string_from_user_complete m alloc addr maxlen s grant t h =
    rw (grant 12) (string_loop_complete m alloc addr grant maxlen 0 12 s (rw add-zero t) h)
