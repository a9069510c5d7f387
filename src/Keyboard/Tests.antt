-- ===== src/Keyboard/Tests.antt =====
-- kern/pts.c: the theorems on a ring whose two characters go around its end.
use pebpeb_os.Base.{
  ℕ, ◌≡◌, refl, true, some, List, [], ◌∷◌, length, arith, ◌==◌, if◌then◌else◌, min,
}
use pebpeb_os.Base.Int.{pos}
use pebpeb_os.Usermem.{UserMem}
use pebpeb_os.Console.{Display, pts_putbytes}
use pebpeb_os.Keyboard.{Ring, read_line, flush_line, to_result, do_readline}
use pebpeb_os.Keyboard.Contents.{IsRing}
use pebpeb_os.Keyboard.Line.{edit, SameLine, read_line-edit}
use pebpeb_os.Keyboard.Read.{readable, do_readline-readable}
use pebpeb_os.Keyboard.Flush.{first_line, Flushed, flush_line-Flushed}

abbrev hi : List ℕ
hi = b'h' ∷ b'i' ∷ []

abbrev letters : Ring
letters = record { cells = (λ i. if i == 4095 then b'h' else b'i'); r_pos = 4095; w_pos = 1 }

letters-IsRing : IsRing letters hi
letters-IsRing = (omega arith, omega arith, refl, (refl, (refl, tt)))

abbrev screen : Display
screen = record {
  pts = record {
    mem = λ y x. record { ch = 32; color = 7 };
    cur_x = 0;
    cur_y = 0;
    cur_color = pos 7;
  };
  active = true;
  console_mem = λ y x. record { ch = 32; color = 7 };
  crtc_lsb = 0;
  crtc_msb = 0;
}

abbrev user : UserMem
user = record { read = λ a. some 0; writable = λ a. true }

-- "!", a backspace, "." and a newline
abbrev keys : List ℕ
keys = b'!' ∷ 8 ∷ b'.' ∷ 10 ∷ []

read_line-edit_example : SameLine (edit keys hi) screen (read_line keys letters screen)
read_line-edit_example = read_line-edit keys letters screen hi letters-IsRing (omega arith)

-- The editor's line, and what it shows.
edited : edit keys hi ≡ some (b'h' ∷ b'i' ∷ b'.' ∷ 10 ∷ [], keys, [])
edited = refl

flush_line-Flushed_example :
    Flushed
      (min 80 (length (first_line hi)))
      0x2000000
      letters
      user
      hi
      (flush_line 80 0x2000000 letters user)
flush_line-Flushed_example =
    flush_line-Flushed 80 0x2000000 letters user b'h' (b'i' ∷ []) letters-IsRing (omega arith)

do_readline-readable_example :
    (line : List ℕ) × (shown : List ℕ) × (rest : List ℕ) × (q' : Ring) × (readable keys hi
      ≡ some (line, shown, rest))
    × (let r = flush_line 80 0x2000000 q' user in
        (do_readline (pos 80) 0x2000000 keys letters screen user
          ≡ some (to_result r.0, r.2, pts_putbytes shown screen, rest, r.1))
        × Flushed (min 80 (length (first_line line))) 0x2000000 q' user line r)
do_readline-readable_example =
    do_readline-readable 80 0x2000000 keys letters screen user hi letters-IsRing refl (omega arith)
      (omega arith)
