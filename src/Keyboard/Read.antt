-- ===== src/Keyboard/Read.antt =====
-- kern/pts.c: do_readline as a whole, from the guards to flush_line.
use pebpeb_os.Base.{
  ℕ, ◌≤◌, ◌<◌, ◌≡◌, refl, inl, inr, Bool-cases, true, false, ◌||◌, Option, some, List, [], ◌∷◌,
  length, min, arith, ◌==◌, ltb, if◌then◌else◌,
}
use mathlib.Core.Path.{subst}
use pebpeb_os.Base.Int.{pos}
use pebpeb_os.Usermem.{UserMem}
use pebpeb_os.Console.{Display, pts_putbytes}
use pebpeb_os.Keyboard.{
  Ring, should_flush, read_line, flush_line, to_result, finish_line, do_readline,
}
use pebpeb_os.Keyboard.Contents.{IsRing}
use pebpeb_os.Keyboard.Line.{
  holds, Edited, edit, edit_ends, SameLine, should_flush-holds, read_line-edit,
}
use pebpeb_os.Keyboard.Flush.{first_line, Flushed, flush_line-Flushed}

-- The line that a reader gets: one that waits in the ring, or what the editor makes of the keys.
abbrev pub readable : (keys line : List ℕ) → Option Edited
readable keys line =
    if holds 10 line || (length line == 4095) then some (line, [], keys) else edit keys line

readable_ends :
    (keys line : List ℕ)
    → holds 10 keys ≡ true
    → (e : Edited) × (readable keys line ≡ some e) × ((holds 10 e.0 || (length e.0 == 4095)) ≡ true)
readable_ends keys line h = elim (Bool-cases (holds 10 line || (length line == 4095))) [
  | inl e ↦ ((line, [], keys), rw e refl, e)
  | inr e ↦ let (r, eq, ends) = edit_ends keys line h in (r, rw e eq, ends)
]

-- The ring and the console at the end of the loop.
collected :
    (keys : List ℕ) (q : Ring) (d : Display) (xs : List ℕ)
    → IsRing q xs
    → SameLine
        (readable keys xs)
        d
        (if should_flush q then some (q, d, keys) else read_line keys q d)
unfolding pts_putbytes
collected keys q d xs h =
    let test = should_flush-holds q xs h in
    elim (Bool-cases (holds 10 xs || (length xs == 4095))) [
      | inl e ↦ rw (test, e) (q, refl, h)
      | inr e ↦ rw (test, e) (read_line-edit keys q d xs h (shorter xs h e))
    ]
  where
    shorter :
        (xs : List ℕ)
        → IsRing q xs
        → (holds 10 xs || (length xs == 4095)) ≡ false
        → length xs < 4095
    shorter xs h e = ground (arith, h.1)

-- If a '\n' is among the keys, do_readline with a length from 1 to 4095 returns: it takes a line that
-- waits in the ring or else the line that the editor makes of the keys, prints what the editor
-- echoes, and delivers the line's first `len` characters as flush_line does.
pub do_readline-readable :
    (len buf : ℕ) (keys : List ℕ) (q : Ring) (d : Display) (m : UserMem) (xs : List ℕ)
    → IsRing q xs
    → holds 10 keys ≡ true
    → 0 < len
    → len ≤ 4095
    → (line : List ℕ) × (shown : List ℕ) × (rest : List ℕ) × (q' : Ring) × (readable keys xs
        ≡ some (line, shown, rest))
      × (let r = flush_line len buf q' m in
          (do_readline (pos len) buf keys q d m
            ≡ some (to_result r.0, r.2, pts_putbytes shown d, rest, r.1))
          × Flushed (min len (length (first_line line))) buf q' m line r)
unfolding do_readline finish_line
do_readline-readable len buf keys q d m xs h newline lo hi =
    let ((line, shown, rest), eq, ends) = readable_ends keys xs newline in
    let (q', same, ring) =
      subst (λ o. SameLine o d (if should_flush q then some (q, d, keys) else read_line keys q d))
        eq (collected keys q d xs h) in
    let short : ltb 4095 len ≡ false = ground arith in
    let some_room : (len == 0) ≡ false = ground arith in
    (line, shown, rest, q', eq, (rw (short, some_room, same) refl, flushed line q' ring ends))
  where
    flushed :
        (line : List ℕ) (q' : Ring)
        → IsRing q' line
        → (holds 10 line || (length line == 4095)) ≡ true
        → Flushed (min len (length (first_line line))) buf q' m line (flush_line len buf q' m)
    flushed [] q' ring ends = ground arith
    flushed (x ∷ line) q' ring ends = flush_line-Flushed len buf q' m x line ring lo
