-- ===== src/Keyboard.antt =====
-- kern/pts.c: the two rings of a console's keyboard half, of scancodes and of characters, and the
-- line that do_readline collects and delivers. The locks and the queue of readers are left out; the
-- characters that sc_process returns are a list of bytes, which ends where the reader would wait.
pub mod Contents
pub mod Line
pub mod Flush
pub mod Read
mod Tests
use pebpeb_os.Base.{
  ℕ, zero, suc, ◌+◌, ◌-◌, ◌%◌, Bool, true, false, not, ◌||◌, Option, none, some, List, [], ◌∷◌, ltb,
  ◌==◌, if◌then◌else◌,
}
use pebpeb_os.Console.{Display, pts_putbyte}
use pebpeb_os.Base.Int.{ℤ, pos, negsuc}
use pebpeb_os.Usermem.{UserMem, copy_to_user}
use mathlib.Core.Option

-- KH_RING_SIZE and CHR_RING_SIZE are one page.
abbrev pub ring_size : ℕ
ring_size = 4096

-- kh_ring with kh_r_pos and kh_w_pos, or chr_ring with chr_r_pos and chr_w_pos
pub record Ring : Type 0 where
  pub cells : ℕ → ℕ
  pub r_pos : ℕ
  pub w_pos : ℕ

abbrev pub backspace_char : ℕ
backspace_char = 8

abbrev pub newline_char : ℕ
newline_char = 10

unfoldable pub ring_put : ℕ → Ring → Ring
ring_put c q = record q {
  cells = (λ i. if i == q.w_pos then c else q.cells i);
  w_pos = (q.w_pos + 1) % ring_size;
}

-- The end of kbd_handler_real: a scancode that finds the ring full is dropped. The ring is of bytes.
unfoldable pub kbd_insert : (kh : ℕ) → Ring → Ring
kbd_insert kh q =
    let next_w_pos = (q.w_pos + 1) % ring_size in
    if next_w_pos == q.r_pos then q else ring_put (kh % 256) q

-- The end of sc_process: `none` is a ring that is empty, on which the code waits.
unfoldable pub ring_take : Ring → Option (ℕ × Ring)
ring_take q =
    if q.r_pos == q.w_pos
    then none
    else some (q.cells q.r_pos, record q { r_pos = (q.r_pos + 1) % ring_size })

abbrev pub is_full : Ring → Bool
is_full q = q.r_pos == (q.w_pos + 1) % ring_size

-- The loop of do_readline that looks for an end of line, from index `i` on.
unfoldable pub has_line : (rounds i : ℕ) → Ring → Bool
has_line zero i q = false
has_line (suc k) i q =
    let rest = has_line k ((i + 1) % ring_size) q in
    if i == q.w_pos then false else if q.cells i == newline_char then true else rest

unfoldable pub should_flush : Ring → Bool
should_flush q = if q.r_pos == q.w_pos then false else (has_line ring_size q.r_pos q || is_full q)

-- A backspace takes the last character of the ring back, if there is one.
unfoldable pub take_back : Ring → Ring
take_back q = record q { w_pos = (q.w_pos + ring_size - 1) % ring_size }

-- The loop of do_readline, with the characters that sc_process returns; the rest of them is returned
-- with the console. `none` is a line that they do not end.
unfoldable pub read_line : (keys : List ℕ) → Ring → Display → Option (Ring × Display × List ℕ)
read_line [] q d = none
read_line (c ∷ keys) q d =
    let q' = ring_put c q in
    let erased = read_line keys (take_back q) (pts_putbyte c d) in
    let ignored = read_line keys q d in
    let longer = read_line keys q' (pts_putbyte c d) in
    if c == backspace_char
    then (if q.w_pos == q.r_pos then ignored else erased)
    else if (c == newline_char) || is_full q'
    then some (q', pts_putbyte c d, keys)
    else longer

-- flush_line: the size of the first line, from index `i` on, and the bytes of a part of the ring.
unfoldable pub line_size : (rounds i : ℕ) → Ring → ℕ
line_size zero i q = 0
line_size (suc k) i q =
    let rest = line_size k ((i + 1) % ring_size) q in
    if i == q.w_pos then 0 else if q.cells i == newline_char then 1 else 1 + rest

abbrev pub segment : (cells : ℕ → ℕ) (i n : ℕ) → List ℕ
segment cells i zero = []
segment cells i (suc n) = cells i ∷ segment cells (i + 1) n

-- `none` is -1. A part that goes around the end of the ring is copied in two parts.
unfoldable pub flush_part : (size buf : ℕ) → Ring → UserMem → Option ℕ × UserMem × Ring
flush_part size buf q m =
    let end_pos = (q.r_pos + size) % ring_size in
    let size_1 = ring_size - q.r_pos in
    let flushed = record q { r_pos = end_pos } in
    let (ok, m1) = copy_to_user m buf (segment q.cells q.r_pos size) in
    let (ok_1, m_1) = copy_to_user m buf (segment q.cells q.r_pos size_1) in
    let (ok_2, m_2) = copy_to_user m_1 (buf + size_1) (segment q.cells 0 end_pos) in
    if ltb q.r_pos end_pos
    then (if ok then (some size, m1, flushed) else (none, m1, q))
    else if ok_1
    then (if ok_2 then (some size, m_2, flushed) else (none, m_2, q))
    else (none, m_1, q)

unfoldable pub flush_line : (len buf : ℕ) → Ring → UserMem → Option ℕ × UserMem × Ring
flush_line len buf q m =
    let size = line_size ring_size q.r_pos q in
    flush_part (if ltb len size then len else size) buf q m

-- The result of flush_line as an int.
abbrev pub to_result : Option ℕ → ℤ
to_result none = negsuc 0
to_result (some n) = pos n

-- do_readline after its loop: the result, the ring, the console, the keys that are left, and user
-- memory.
unfoldable pub finish_line :
    (len buf : ℕ) → UserMem → Ring × Display × List ℕ → ℤ × Ring × Display × List ℕ × UserMem
finish_line len buf m (q, d, keys) =
    let (result, m', q') = flush_line len buf q m in (to_result result, q', d, keys, m')

-- do_readline of the reader whose turn it is; `none` is a reader that waits for more keys.
unfoldable pub do_readline :
    (len : ℤ) (buf : ℕ) (keys : List ℕ)
    → Ring
    → Display
    → UserMem
    → Option (ℤ × Ring × Display × List ℕ × UserMem)
do_readline (negsuc n) buf keys q d m = some (negsuc 0, q, d, keys, m)
do_readline (pos len) buf keys q d m =
    let line = if should_flush q then some (q, d, keys) else read_line keys q d in
    if ltb (ring_size - 1) len
    then some (negsuc 0, q, d, keys, m)
    else if len == 0
    then some (pos 0, q, d, keys, m)
    else Option.map (finish_line len buf m) line
