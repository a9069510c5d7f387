-- ===== src/Console.antt =====
-- kern/pts.c: the output half of a console (`pts_t`): its screen, cursor and colour, and the video
-- memory and cursor registers that mirror the console in the foreground.
pub mod Cursor
pub mod Mirror
pub mod Print
pub mod PrintAt
mod Tests
use pebpeb_os.Base.{
  ℕ, zero, suc, ◌+◌, ◌-◌, ◌*◌, ◌/◌, ◌%◌, ◌^◌, Bool, true, false, ◌&&◌, not, Option, none, some,
  List, [], ◌∷◌, ◌==◌, ltb, leb, if◌then◌else◌,
}
use pebpeb_os.Base.Int.{ℤ, pos, negsuc}
use pebpeb_os.Usermem.{UserMem, try_read}

-- CONSOLE_WIDTH and CONSOLE_HEIGHT of 410kern/x86/video_defines.h
abbrev pub console_width : ℕ
console_width = 80

abbrev pub console_height : ℕ
console_height = 25

abbrev pub blank_ch : ℕ
blank_ch = 32

-- `a_char_on_screen_t`, two bytes
pub record Cell : Type 0 where
  pub ch : ℕ
  pub color : ℕ

-- A screen by row and column. `char` is signed, so the colour of `pts_t` is an integer.
pub record Pts : Type 0 where
  pub mem : ℕ → ℕ → Cell
  pub cur_x : ℕ
  pub cur_y : ℕ
  pub cur_color : ℤ

-- The console, whether it is `active_pts`, the video memory, and the two cursor registers.
pub record Display : Type 0 where
  pub pts : Pts
  pub active : Bool
  pub console_mem : ℕ → ℕ → Cell
  pub crtc_lsb : ℕ
  pub crtc_msb : ℕ

-- `(char)n` for an `int`, and the `uint8_t` that a `char` becomes in a cell.
abbrev pub to_char : ℕ → ℤ
to_char n = if ltb (n % 256) 128 then pos (n % 256) else negsuc (255 - n % 256)

abbrev pub to_uint8 : ℤ → ℕ
to_uint8 (pos n) = n % 256
to_uint8 (negsuc n) = 255 - n % 256

abbrev pub cell : ℕ → Pts → Cell
cell c p = record { ch = c; color = to_uint8 p.cur_color }

abbrev pub write_cell : (ℕ → ℕ → Cell) → (row col : ℕ) → Cell → ℕ → ℕ → Cell
write_cell m row col c y x = if (y == row) && (x == col) then c else m y x

-- The rows but the last take those below them, and the last is cleared.
abbrev pub scroll : (ℕ → ℕ → Cell) → Cell → ℕ → ℕ → Cell
scroll m blank y x =
    if ltb x console_width
    then (if ltb y (console_height - 1)
        then m (y + 1) x
        else if y == console_height - 1
        then blank
        else m y x)
    else m y x

-- An `outb` takes the low byte.
unfoldable pub move_cursor : (x y : ℕ) → Display → Display
move_cursor x y d =
    let d' = record d { pts = record (d.pts) { cur_x = x; cur_y = y } } in
    let at = y * console_width + x in
    if d.active then record d' { crtc_lsb = at % 256; crtc_msb = at / 256 % 256 } else d'

unfoldable pub scroll_page : Display → Display
scroll_page d =
    let blank = cell blank_ch d.pts in
    let d' = record d { pts = record (d.pts) { mem = scroll d.pts.mem blank } } in
    if d.active then record d' { console_mem = scroll d.console_mem blank } else d'

unfoldable pub draw_char : (row col : ℕ) → Cell → Display → Display
draw_char row col c d =
    let d' = record d { pts = record (d.pts) { mem = write_cell d.pts.mem row col c } } in
    if d.active then record d' { console_mem = write_cell d.console_mem row col c } else d'

-- The branches of `pts_putbyte`.
unfoldable pub newline : Display → Display
unfolding move_cursor scroll_page
newline d =
    if ltb d.pts.cur_y (console_height - 1)
    then move_cursor 0 (d.pts.cur_y + 1) d
    else (let d' = scroll_page d in move_cursor 0 d'.pts.cur_y d')

unfoldable pub backspace : Display → Display
unfolding move_cursor draw_char
backspace d =
    let d' =
      if ltb 0 d.pts.cur_x
      then move_cursor (d.pts.cur_x - 1) d.pts.cur_y d
      else if ltb 0 d.pts.cur_y
      then move_cursor (console_width - 1) (d.pts.cur_y - 1) d
      else d in
    draw_char d'.pts.cur_y d'.pts.cur_x (cell blank_ch d'.pts) d'

unfoldable pub put_char : ℕ → Display → Display
unfolding move_cursor scroll_page draw_char
put_char ch d =
    let prev_x = d.pts.cur_x in
    let prev_y = d.pts.cur_y in
    if ltb d.pts.cur_x (console_width - 1)
    then (let d' = move_cursor (d.pts.cur_x + 1) d.pts.cur_y d in
        draw_char prev_y prev_x (cell ch d'.pts) d')
    else if ltb d.pts.cur_y (console_height - 1)
    then (let d' = move_cursor 0 (d.pts.cur_y + 1) d in draw_char prev_y prev_x (cell ch d'.pts) d')
    else (let d1 = scroll_page d in
        let d' = move_cursor 0 d1.pts.cur_y d1 in draw_char (prev_y - 1) prev_x (cell ch d'.pts) d')

-- The byte '\n', '\r' or '\b', or any other. The result of the C function is `ch`.
unfoldable pub pts_putbyte : ℕ → Display → Display
unfolding newline backspace put_char move_cursor
pts_putbyte ch d =
    if ch == 10
    then newline d
    else if ch == 13
    then move_cursor 0 d.pts.cur_y d
    else if ch == 8
    then backspace d
    else put_char ch d

unfoldable pub pts_putbytes : List ℕ → Display → Display
pts_putbytes [] d = d
pts_putbytes (c ∷ s) d = pts_putbytes s (pts_putbyte c d)

-- `false` is -1. The arguments are any `int`.
unfoldable pub pts_set_term_color : ℤ → Display → Bool × Display
pts_set_term_color (negsuc n) d = (false, d)
pts_set_term_color (pos n) d =
    if ltb 255 n
    then (false, d)
    else (true, record d { pts = record (d.pts) { cur_color = to_char n } })

abbrev pub pts_get_term_color : Display → ℤ
pts_get_term_color d = d.pts.cur_color

unfoldable pub pts_set_cursor : (row col : ℤ) → Display → Bool × Display
unfolding move_cursor
pts_set_cursor (negsuc y) col d = (false, d)
pts_set_cursor (pos y) (negsuc x) d = (false, d)
pts_set_cursor (pos y) (pos x) d =
    if leb console_height y
    then (false, d)
    else if leb console_width x
    then (false, d)
    else (true, move_cursor x y d)

abbrev pub pts_get_cursor : Display → ℤ × ℤ
pts_get_cursor d = (pos d.pts.cur_y, pos d.pts.cur_x)

-- `print_buf_from_user` of kern/usermem.c, with `len - i` rounds left.
pub print_buf_from_user : UserMem → (addr rounds : ℕ) → Display → Bool × Display
print_buf_from_user m addr zero d = (true, d)
print_buf_from_user m addr (suc k) d = elim (try_read m addr) [
  | none ↦ (false, d)
  | some c ↦ print_buf_from_user m (addr + 1) k (pts_putbyte c d)
]

-- `len` has been checked by the callers.
unfoldable pub pts_print_at :
    UserMem → (len buf : ℕ) → (row col color : ℤ) → Display → Bool × Display
pts_print_at m len buf row col color d =
    let (old_row, old_col) = pts_get_cursor d in
    let (placed, d1) = pts_set_cursor row col d in
    if not placed
    then (false, d1)
    else (let old_color = pts_get_term_color d1 in
        let (coloured, d2) = pts_set_term_color color d1 in
        if not coloured
        then (false, (pts_set_cursor old_row old_col d2).1)
        else (let (printed, d3) = print_buf_from_user m buf len d2 in
            let d4 = (pts_set_term_color old_color d3).1 in
            (printed, (pts_set_cursor old_row old_col d4).1)))
