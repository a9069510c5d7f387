-- ===== src/Console/Tests.antt =====
-- A console in the foreground with its cursor near the end of the screen, and the theorems at it.
use pebpeb_os.Base.{
  ℕ, ◌+◌, ◌*◌, ◌≤◌, ◌<◌, ◌≡◌, ◌⊎◌, refl, arith, true, false, some, none, List, [], ◌∷◌, get_elem?,
  ltb, if◌then◌else◌,
}
use pebpeb_os.Base.Int.{pos, negsuc}
use pebpeb_os.Usermem.{UserMem}
use pebpeb_os.Console.{Cell, Pts, Display, cell, pts_putbyte, pts_putbytes, pts_print_at}
use pebpeb_os.Console.Cursor.{IsPlaced, pts_putbytes-IsPlaced}
use pebpeb_os.Console.Mirror.{IsShown, pts_putbytes-IsShown}
use pebpeb_os.Console.Print.{at, pts_putbytes_text}
use pebpeb_os.Console.PrintAt.{pts_print_at_lost}

abbrev blank : Cell
blank = record { ch = 32; color = 15 }

-- White on black, the cursor at row 2, column 78.
abbrev console : Pts
console = record { mem = λ y x. blank; cur_x = 78; cur_y = 2; cur_color = pos 15 }

abbrev display : Display
display = record {
  pts = console;
  active = true;
  console_mem = λ y x. blank;
  crtc_lsb = 238;
  crtc_msb = 0;
}

display-IsPlaced : IsPlaced display
display-IsPlaced = record { column = omega arith; row = omega arith }

display-IsShown : IsShown display
display-IsShown = record { screen = λ y x. refl; cursor = refl }

-- The same console in the background, and in a blinking colour.
abbrev hidden : Display
hidden = record display { active = false }

abbrev blinking : Display
blinking = record display { pts = record console { cur_color = negsuc 120 } }

-- The cursor in the last cell.
abbrev full : Display
full = record display { pts = record console { cur_x = 79; cur_y = 24 } }

abbrev text : List ℕ
text = b'o' ∷ b'k' ∷ b'!' ∷ []

abbrev user : UserMem
user = record { read = λ a. if ltb a 100 then some b'x' else none; writable = λ a. false }

wraps : (pts_putbytes text display).pts.cur_y ≡ 3
unfolding pts_putbytes pts_putbyte
wraps = refl

pts_putbytes-IsPlaced_example :
    IsPlaced (pts_putbytes text display)
    × ((pts_putbytes text display).pts.cur_color ≡ pos 15)
    × ((pts_putbytes text display).active ≡ true)
    × ((y x : ℕ) → (25 ≤ y) ⊎ (80 ≤ x) → (pts_putbytes text display).pts.mem y x ≡ blank)
pts_putbytes-IsPlaced_example = pts_putbytes-IsPlaced text display display-IsPlaced

pts_putbytes-IsShown_example : IsShown (pts_putbytes text display)
pts_putbytes-IsShown_example =
    pts_putbytes-IsShown text display refl display-IsPlaced display-IsShown

pts_putbytes_text_example :
    (at (pts_putbytes text display) ≡ 241)
    × ((i c y x : ℕ)
        → get_elem? text i ≡ some c
        → x < 80
        → y * 80 + x ≡ 238 + i
        → (pts_putbytes text display).pts.mem y x ≡ cell c console)
    × ((y x : ℕ)
        → x < 80
        → (y * 80 + x < 238) ⊎ (241 ≤ y * 80 + x)
        → (pts_putbytes text display).pts.mem y x ≡ blank)
pts_putbytes_text_example =
    pts_putbytes_text text display (omega arith) display-IsPlaced (omega arith)

pts_print_at_lost_example :
    (pts_print_at user 2 0 (pos 0) (pos 0) (pos 4) blinking).1.pts.cur_color ≡ pos 4
pts_print_at_lost_example =
    pts_print_at_lost user 2 0 blinking 0 0 4 120 (omega arith) (omega arith) (omega arith)
      (omega arith) refl
