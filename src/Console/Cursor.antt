-- ===== src/Console/Cursor.antt =====
-- The cursor stays on the screen, no byte is drawn outside of it, and the colour is kept.
use pebpeb_os.Base.{ℕ, ◌≤◌, ◌<◌, ◌≡◌, ◌⊎◌, refl, ◌∙◌, arith, List, [], ◌∷◌}
use pebpeb_os.Console.{Display, pts_putbyte, pts_putbytes}

pub record IsPlaced (d : Display) : Type 0 where
  pub column : d.pts.cur_x < 80
  pub row : d.pts.cur_y < 25

-- After any byte the cursor is on the screen if it was there before.
pub pts_putbyte-IsPlaced : (ch : ℕ) {d : Display} → IsPlaced d → IsPlaced (pts_putbyte ch d)
unfolding pts_putbyte
pts_putbyte-IsPlaced ch v = ground arith

pub color-pts_putbyte : (ch : ℕ) (d : Display) → (pts_putbyte ch d).pts.cur_color ≡ d.pts.cur_color
unfolding pts_putbyte
color-pts_putbyte ch d = ground arith

pub active-pts_putbyte : (ch : ℕ) (d : Display) → (pts_putbyte ch d).active ≡ d.active
unfolding pts_putbyte
active-pts_putbyte ch d = ground arith

-- A byte writes no cell outside of the 25 rows of 80 columns.
pub pts_putbyte_in_bounds :
    (ch : ℕ) (d : Display) (y x : ℕ)
    → IsPlaced d
    → (25 ≤ y) ⊎ (80 ≤ x)
    → (pts_putbyte ch d).pts.mem y x ≡ d.pts.mem y x
unfolding pts_putbyte
pts_putbyte_in_bounds ch d y x v out = ground arith

-- After any run of bytes the cursor is on the screen if it was there before, the colour and whether
-- the console is in the foreground are kept, and no cell is written outside of the screen.
pub pts_putbytes-IsPlaced :
    (s : List ℕ) (d : Display)
    → IsPlaced d
    → IsPlaced (pts_putbytes s d)
      × ((pts_putbytes s d).pts.cur_color ≡ d.pts.cur_color)
      × ((pts_putbytes s d).active ≡ d.active)
      × ((y x : ℕ) → (25 ≤ y) ⊎ (80 ≤ x) → (pts_putbytes s d).pts.mem y x ≡ d.pts.mem y x)
unfolding pts_putbytes
pts_putbytes-IsPlaced [] d v = (v, refl, refl, λ y x out. refl)
pts_putbytes-IsPlaced (c ∷ s) d v =
    let (placed, color, active, bounds) =
      pts_putbytes-IsPlaced s (pts_putbyte c d) (pts_putbyte-IsPlaced c v) in
    (
      placed,
      color ∙ color-pts_putbyte c d,
      active ∙ active-pts_putbyte c d,
      λ y x out. bounds y x out ∙ pts_putbyte_in_bounds c d y x v out,
    )
