-- ===== src/Console/PrintAt.antt =====
-- `pts_set_cursor`, `pts_set_term_color`, and what `pts_print_at` restores.
use pebpeb_os.Base.{
  ℕ, zero, suc, ◌+◌, ◌-◌, ◌≤◌, ◌<◌, ◌≡◌, ◌⊎◌, refl, ap, ◌∙◌, arith, true, false, Option-cases,
  Bool-cases, leb, ltb, inl, inr,
}
use pebpeb_os.Base.Int.{ℤ, pos, negsuc}
use pebpeb_os.Usermem.{UserMem, wrap, try_read}
use pebpeb_os.Console.{
  Display, to_char, move_cursor, pts_putbyte, pts_set_cursor, pts_set_term_color,
  pts_get_term_color, print_buf_from_user, pts_print_at,
}
use pebpeb_os.Console.Cursor.{IsPlaced, pts_putbyte-IsPlaced, color-pts_putbyte}

-- A position of the screen, as `pts_set_cursor` is given it.
abbrev pub OnScreen : (row col : ℤ) (y x : ℕ) → Type 0
OnScreen row col y x = (row ≡ pos y) × (col ≡ pos x) × (y < 25) × (x < 80)

move_cursor_reads :
    (x y : ℕ) (d : Display)
    → ((move_cursor x y d).pts.cur_x ≡ x)
      × ((move_cursor x y d).pts.cur_y ≡ y)
      × ((move_cursor x y d).pts.cur_color ≡ d.pts.cur_color)
unfolding move_cursor
move_cursor_reads x y d = ground arith

set_cursor_in :
    (y x : ℕ) (d : Display)
    → y < 25
    → x < 80
    → pts_set_cursor (pos y) (pos x) d ≡ (true, move_cursor x y d)
unfolding pts_set_cursor
set_cursor_in y x d hy hx = ground arith

-- `pts_set_cursor` accepts exactly the positions of the screen and moves the cursor there; on any
-- other row or column it returns -1 and changes nothing.
pub pts_set_cursor_cases :
    (row col : ℤ) (d : Display)
    → ((y : ℕ) × (x : ℕ) × OnScreen row col y x
        × (pts_set_cursor row col d ≡ (true, move_cursor x y d)))
      ⊎ (((y x : ℕ) → ¬ (OnScreen row col y x)) × (pts_set_cursor row col d ≡ (false, d)))
unfolding pts_set_cursor
pts_set_cursor_cases (negsuc y) col d = inr (λ y' x' h. cc, refl)
pts_set_cursor_cases (pos y) (negsuc x) d = inr (λ y' x' h. cc, refl)
pts_set_cursor_cases (pos y) (pos x) d = elim (Bool-cases (leb 25 y)) [
  | inl a ↦ inr (λ y' x' h. absurd (ground arith), ground arith)
  | inr a ↦ elim (Bool-cases (leb 80 x)) [
    | inl b ↦ inr (λ y' x' h. absurd (ground arith), ground arith)
    | inr b ↦ inl (y, x, (refl, refl, ground arith, ground arith), ground arith)
  ]
]

abbrev coloured : ℤ → Display → Display
coloured k d = record d { pts = record (d.pts) { cur_color = k } }

set_color_cases :
    (color : ℤ) (d : Display)
    → ((n : ℕ) × (color ≡ pos n)
        × (n ≤ 255)
        × (pts_set_term_color color d ≡ (true, coloured (to_char n) d)))
      ⊎ (pts_set_term_color color d ≡ (false, d))
unfolding pts_set_term_color
set_color_cases (negsuc n) d = inr refl
set_color_cases (pos n) d = elim (Bool-cases (ltb 255 n)) [
  | inl a ↦ inr (ground arith)
  | inr a ↦ inl (n, refl, ground arith, ground arith)
]

set_color_in :
    (n : ℕ) (d : Display) → n ≤ 255 → pts_set_term_color (pos n) d ≡ (true, coloured (to_char n) d)
unfolding pts_set_term_color
set_color_in n d h = ground arith

low_color : (n : ℕ) (d : Display) → n < 128 → (pts_set_term_color (pos n) d).1.pts.cur_color ≡ pos n
unfolding pts_set_term_color
low_color n d h = ground arith

negative_color :
    (n : ℕ) (d : Display) → (pts_set_term_color (negsuc n) d).1.pts.cur_color ≡ d.pts.cur_color
unfolding pts_set_term_color
negative_color n d = refl

print_buf-keeps :
    (m : UserMem) (addr rounds : ℕ) (d : Display)
    → IsPlaced d
    → IsPlaced (print_buf_from_user m addr rounds d).1
      × ((print_buf_from_user m addr rounds d).1.pts.cur_color ≡ d.pts.cur_color)
unfolding print_buf_from_user try_read
print_buf-keeps m addr zero d v = (v, refl)
print_buf-keeps m addr (suc k) d v = elim (Option-cases (m.read (wrap addr))) [
  | inl e ↦ rw (e, print_buf_from_user) (v, refl)
  | inr (c, e) ↦
      let (placed, color) =
        print_buf-keeps m (addr + 1) k (pts_putbyte c d) (pts_putbyte-IsPlaced c v) in
      rw (e, print_buf_from_user) (placed, color ∙ color-pts_putbyte c d)
]

-- Putting a cursor of the screen back.
put_back :
    (d d' : Display)
    → IsPlaced d
    → ((pts_set_cursor (pos d.pts.cur_y) (pos d.pts.cur_x) d').1.pts.cur_x ≡ d.pts.cur_x)
      × ((pts_set_cursor (pos d.pts.cur_y) (pos d.pts.cur_x) d').1.pts.cur_y ≡ d.pts.cur_y)
      × ((pts_set_cursor (pos d.pts.cur_y) (pos d.pts.cur_x) d').1.pts.cur_color ≡ d'.pts.cur_color)
put_back d d' v =
    rw (set_cursor_in d.pts.cur_y d.pts.cur_x d' v.row v.column)
      (move_cursor_reads d.pts.cur_x d.pts.cur_y d')

-- The three ends of `pts_print_at`.
print_at_bad_pos :
    (m : UserMem) (len buf : ℕ) (row col color : ℤ) (d : Display)
    → pts_set_cursor row col d ≡ (false, d)
    → pts_print_at m len buf row col color d ≡ (false, d)
unfolding pts_print_at
print_at_bad_pos m len buf row col color d e = ground (arith, e)

print_at_bad_color :
    (m : UserMem) (len buf : ℕ) (row col color : ℤ) (d d1 : Display)
    → pts_set_cursor row col d ≡ (true, d1)
    → pts_set_term_color color d1 ≡ (false, d1)
    → pts_print_at m len buf row col color d
      ≡ (false, (pts_set_cursor (pos d.pts.cur_y) (pos d.pts.cur_x) d1).1)
unfolding pts_print_at
print_at_bad_color m len buf row col color d d1 e f = ground (arith, e, f)

print_at_printed :
    (m : UserMem) (len buf : ℕ) (row col color : ℤ) (d d1 d2 : Display)
    → pts_set_cursor row col d ≡ (true, d1)
    → pts_set_term_color color d1 ≡ (true, d2)
    → let d3 = (print_buf_from_user m buf len d2).1 in
      let d4 = (pts_set_term_color d1.pts.cur_color d3).1 in
      pts_print_at m len buf row col color d ≡ (
        (print_buf_from_user m buf len d2).0,
        (pts_set_cursor (pos d.pts.cur_y) (pos d.pts.cur_x) d4).1,
      )
unfolding pts_print_at
print_at_printed m len buf row col color d d1 d2 e f = ground (arith, e, f)

-- Whether it prints, or stops at a bad position, colour or address, `pts_print_at` leaves the cursor
-- where it was.
pts_print_at_cursor :
    (m : UserMem) (len buf : ℕ) (row col color : ℤ) (d : Display)
    → IsPlaced d
    → let d' = (pts_print_at m len buf row col color d).1 in
      (d'.pts.cur_x ≡ d.pts.cur_x) × (d'.pts.cur_y ≡ d.pts.cur_y)
pts_print_at_cursor m len buf row col color d v = elim (pts_set_cursor_cases row col d) [
  | inr (n, e) ↦ rw (print_at_bad_pos m len buf row col color d e) (refl, refl)
  | inl (y, x, on, e) ↦
      let d1 = move_cursor x y d in
      elim (set_color_cases color d1) [
        | inr f ↦
            let back = put_back d d1 v in
            rw (print_at_bad_color m len buf row col color d d1 e f) (back.0, back.1)
        | inl (n, c, le, f) ↦
            let d2 = coloured (to_char n) d1 in
            let d3 = (print_buf_from_user m buf len d2).1 in
            let back = put_back d (pts_set_term_color d1.pts.cur_color d3).1 v in
            rw (print_at_printed m len buf row col color d d1 d2 e f) (back.0, back.1)
      ]
]

-- If the console's colour is a number below 128, `pts_print_at` leaves it as it was, whether it
-- prints or stops at a bad position, colour or address.
pts_print_at_color :
    (m : UserMem) (len buf : ℕ) (row col color : ℤ) (d : Display) (old : ℕ)
    → IsPlaced d
    → d.pts.cur_color ≡ pos old
    → old < 128
    → (pts_print_at m len buf row col color d).1.pts.cur_color ≡ pos old
pts_print_at_color m len buf row col color d old v k h = elim (pts_set_cursor_cases row col d) [
  | inr (n, e) ↦ rw (print_at_bad_pos m len buf row col color d e) k
  | inl (y, x, on, e) ↦
      let d1 = move_cursor x y d in
      let k1 : d1.pts.cur_color ≡ pos old = (move_cursor_reads x y d).2 ∙ k in
      elim (set_color_cases color d1) [
        | inr f ↦
            rw (print_at_bad_color m len buf row col color d d1 e f) ((put_back d d1 v).2 ∙ k1)
        | inl (n, c, le, f) ↦
            let d2 = coloured (to_char n) d1 in
            let d3 = (print_buf_from_user m buf len d2).1 in
            let back = put_back d (pts_set_term_color d1.pts.cur_color d3).1 v in
            rw (print_at_printed m len buf row col color d d1 d2 e f)
              (back.2 ∙ ap (λ o. (pts_set_term_color o d3).1.pts.cur_color) k1 ∙ low_color old d3 h)
      ]
]

-- If the colour is one of the blinking ones, whose number is 128 or more and which a signed `char`
-- holds as a negative number, `pts_print_at` does not restore it: on a position of the screen and
-- with a valid colour `n` it leaves the console in colour `n`.
pub pts_print_at_lost :
    (m : UserMem) (len buf : ℕ) (d : Display) (y x n old : ℕ)
    → IsPlaced d
    → y < 25
    → x < 80
    → n ≤ 255
    → d.pts.cur_color ≡ negsuc old
    → (pts_print_at m len buf (pos y) (pos x) (pos n) d).1.pts.cur_color ≡ to_char n
pts_print_at_lost m len buf d y x n old v hy hx hn k =
    let d1 = move_cursor x y d in
    let d2 = coloured (to_char n) d1 in
    let d3 = (print_buf_from_user m buf len d2).1 in
    let (at_x, at_y, k1) = move_cursor_reads x y d in
    let v2 : IsPlaced d2 = omega (arith, move_cursor_reads x y d) in
    let back = put_back d (pts_set_term_color d1.pts.cur_color d3).1 v in
    rw
      (print_at_printed m len buf (pos y) (pos x) (pos n) d d1 d2 (set_cursor_in y x d hy hx)
        (set_color_in n d1 hn))
      (back.2
        ∙ ap (λ o. (pts_set_term_color o d3).1.pts.cur_color) (k1 ∙ k)
        ∙ negative_color old d3
        ∙ (print_buf-keeps m buf len d2 v2).1)

-- Every colour number from 128 to 255 that `pts_set_term_color` accepts is such a colour.
pub pts_set_term_color_blink :
    (n : ℕ) (d : Display)
    → 128 ≤ n
    → n ≤ 255
    → ((pts_set_term_color (pos n) d).0 ≡ true)
      × (pts_get_term_color (pts_set_term_color (pos n) d).1 ≡ negsuc (255 - n))
unfolding pts_set_term_color
pts_set_term_color_blink n d h k = ground arith
