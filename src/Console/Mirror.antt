-- ===== src/Console/Mirror.antt =====
-- The video memory and the cursor registers show the console in the foreground.
use pebpeb_os.Base.{ℕ, ◌+◌, ◌*◌, ◌≡◌, arith, true, false, List, [], ◌∷◌, ◌∙◌}
use pebpeb_os.Console.{Display, pts_putbyte, pts_putbytes}
use pebpeb_os.Console.Cursor.{IsPlaced, pts_putbyte-IsPlaced, active-pts_putbyte}

pub record IsShown (d : Display) : Type 0 where
  pub screen : (y x : ℕ) → d.console_mem y x ≡ d.pts.mem y x
  pub cursor : d.crtc_msb * 256 + d.crtc_lsb ≡ d.pts.cur_y * 80 + d.pts.cur_x

cursor_shown :
    (ch : ℕ) (d : Display)
    → d.active ≡ true
    → IsPlaced d
    → d.crtc_msb * 256 + d.crtc_lsb ≡ d.pts.cur_y * 80 + d.pts.cur_x
    → (pts_putbyte ch d).crtc_msb * 256 + (pts_putbyte ch d).crtc_lsb
      ≡ (pts_putbyte ch d).pts.cur_y * 80 + (pts_putbyte ch d).pts.cur_x
unfolding pts_putbyte
cursor_shown ch d a v h = ground arith

screen_shown :
    (ch : ℕ) (d : Display) (y x : ℕ)
    → d.active ≡ true
    → d.console_mem y x ≡ d.pts.mem y x
    → d.console_mem (y + 1) x ≡ d.pts.mem (y + 1) x
    → (pts_putbyte ch d).console_mem y x ≡ (pts_putbyte ch d).pts.mem y x
unfolding pts_putbyte
screen_shown ch d y x a h h' = ground arith

-- A byte printed on the console in the foreground leaves the video memory equal to the console's
-- screen, and the cursor registers at its cursor, if they were so before.
pub pts_putbyte-IsShown :
    (ch : ℕ) {d : Display} → d.active ≡ true → IsPlaced d → IsShown d → IsShown (pts_putbyte ch d)
pts_putbyte-IsShown ch {d} a v s = record {
  screen = λ y x. screen_shown ch d y x a (s.screen y x) (s.screen (y + 1) x);
  cursor = cursor_shown ch d a v s.cursor;
}

-- Any run of bytes printed on the console in the foreground leaves the video memory equal to the
-- console's screen, and the cursor registers at its cursor, if they were so before.
pub pts_putbytes-IsShown :
    (s : List ℕ) (d : Display)
    → d.active ≡ true
    → IsPlaced d
    → IsShown d
    → IsShown (pts_putbytes s d)
unfolding pts_putbytes
pts_putbytes-IsShown [] d a v h = h
pts_putbytes-IsShown (c ∷ s) d a v h =
    pts_putbytes-IsShown s (pts_putbyte c d) (active-pts_putbyte c d ∙ a) (pts_putbyte-IsPlaced c v)
      (pts_putbyte-IsShown c a v h)

-- A byte printed on a console in the background changes neither the video memory nor the cursor
-- registers.
pub pts_putbyte-background :
    (ch : ℕ) (d : Display) (y x : ℕ)
    → d.active ≡ false
    → ((pts_putbyte ch d).console_mem y x ≡ d.console_mem y x)
      × ((pts_putbyte ch d).crtc_lsb ≡ d.crtc_lsb)
      × ((pts_putbyte ch d).crtc_msb ≡ d.crtc_msb)
unfolding pts_putbyte
pts_putbyte-background ch d y x a = ground arith
