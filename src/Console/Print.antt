-- ===== src/Console/Print.antt =====
-- What printing writes, over the cells in reading order.
use pebpeb_os.Base.{
  ℕ, zero, suc, ◌+◌, ◌*◌, ◌≤◌, ◌<◌, ◌≡◌, ◌≢◌, ◌⊎◌, inl, refl, ap, ◌∙◌, arith, List, [], ◌∷◌, length,
  get_elem?, some,
}
use pebpeb_os.Console.{
  Display, cell, to_uint8, write_cell, scroll, pts_putbyte, pts_putbytes, blank_ch,
}
use pebpeb_os.Console.Cursor.{IsPlaced, pts_putbyte-IsPlaced, color-pts_putbyte}

-- The number of the cursor's cell, and the last cell of the screen.
abbrev pub at : Display → ℕ
at d = d.pts.cur_y * 80 + d.pts.cur_x

abbrev pub last_cell : ℕ
last_cell = 1999

abbrev pub IsGraphic : ℕ → Type 0
IsGraphic ch = (ch ≢ 10) × (ch ≢ 13) × (ch ≢ 8)

print_before_end :
    (ch : ℕ) (d : Display) (y x : ℕ)
    → IsGraphic ch
    → IsPlaced d
    → at d < last_cell
    → (at (pts_putbyte ch d) ≡ at d + 1)
      × ((pts_putbyte ch d).pts.mem y x
          ≡ write_cell d.pts.mem d.pts.cur_y d.pts.cur_x (cell ch d.pts) y x)
unfolding pts_putbyte
print_before_end ch d y x g v h = ground arith

-- A byte that is no control byte, printed at the last cell, scrolls the screen up by a line and
-- stands in the last cell of the line before the new one, at the start of which the cursor stands.
pts_putbyte-scroll :
    (ch : ℕ) (d : Display) (y x : ℕ)
    → IsGraphic ch
    → IsPlaced d
    → at d ≡ last_cell
    → (at (pts_putbyte ch d) ≡ 1920)
      × ((pts_putbyte ch d).pts.mem y x
          ≡ write_cell (scroll d.pts.mem (cell blank_ch d.pts)) 23 79 (cell ch d.pts) y x)
unfolding pts_putbyte
pts_putbyte-scroll ch d y x g v h = ground arith

abbrev pub AllGraphic : List ℕ → Type 0
AllGraphic [] = Unit
AllGraphic (c ∷ s) = IsGraphic c × AllGraphic s

-- What is printed behind a first byte, by what the rest `d2` of the printing does to `d1`.
module _ (b : ℕ) (s : List ℕ) (d : Display) (g : IsGraphic b) (v : IsPlaced d)
    (h : at d < last_cell) where
  abbrev d1 : Display
  d1 = pts_putbyte b d

  text_inside :
      (d2 : Display)
      → ((i c y x : ℕ)
          → get_elem? s i ≡ some c
          → x < 80
          → y * 80 + x ≡ at d1 + i
          → d2.pts.mem y x ≡ cell c d1.pts)
      → ((y x : ℕ)
          → x < 80
          → (y * 80 + x < at d1) ⊎ (at d1 + length s ≤ y * 80 + x)
          → d2.pts.mem y x ≡ d1.pts.mem y x)
      → (i c y x : ℕ) → get_elem? (b ∷ s) i ≡ some c
      → x < 80
      → y * 80 + x ≡ at d + i
      → d2.pts.mem y x ≡ cell c d.pts
  text_inside d2 inside outside zero c y x e l p =
      let (step, written) = print_before_end b d y x g v h in
      let kept = outside y x l (inl (omega arith)) in ground (arith, kept, written)
  text_inside d2 inside outside (suc i) c y x e l p =
      let (step, written) = print_before_end b d y x g v h in
      let there = inside i c y x e l (omega arith) in
      there ∙ ap (λ k. record { ch = c; color = to_uint8 k }) (color-pts_putbyte b d)

  text_outside :
      (d2 : Display)
      → ((y x : ℕ)
          → x < 80
          → (y * 80 + x < at d1) ⊎ (at d1 + length s ≤ y * 80 + x)
          → d2.pts.mem y x ≡ d1.pts.mem y x)
      → (y x : ℕ) → x < 80
      → (y * 80 + x < at d) ⊎ (at d + length (b ∷ s) ≤ y * 80 + x)
      → d2.pts.mem y x ≡ d.pts.mem y x
  text_outside d2 outside y x l o =
      let (step, written) = print_before_end b d y x g v h in
      let kept = outside y x l (omega arith) in kept ∙ written ∙ (ground arith)

-- Bytes that are no control bytes and that fit before the last cell are printed from the cursor on,
-- one to a cell in reading order and in the console's colour, and move the cursor behind them; all
-- other cells of the screen are as before.
pub pts_putbytes_text :
    (s : List ℕ) (d : Display)
    → AllGraphic s
    → IsPlaced d
    → at d + length s ≤ last_cell
    → (at (pts_putbytes s d) ≡ at d + length s)
      × ((i c y x : ℕ)
          → get_elem? s i ≡ some c
          → x < 80
          → y * 80 + x ≡ at d + i
          → (pts_putbytes s d).pts.mem y x ≡ cell c d.pts)
      × ((y x : ℕ)
          → x < 80
          → (y * 80 + x < at d) ⊎ (at d + length s ≤ y * 80 + x)
          → (pts_putbytes s d).pts.mem y x ≡ d.pts.mem y x)
unfolding pts_putbytes
pts_putbytes_text [] d g v h = (omega arith, λ i c y x e. cc, λ y x l o. refl)
pts_putbytes_text (b ∷ s) d (g, gs) v h =
    let h1 : at d < last_cell = omega arith in
    let step = (print_before_end b d 0 0 g v h1).0 in
    let (end, inside, outside) =
      pts_putbytes_text s (pts_putbyte b d) gs (pts_putbyte-IsPlaced b v) (omega arith) in
    (
      omega arith,
      text_inside b s d g v h1 (pts_putbytes s (pts_putbyte b d)) inside outside,
      text_outside b s d g v h1 (pts_putbytes s (pts_putbyte b d)) outside,
    )

erase_step :
    (d : Display) (y x : ℕ)
    → IsPlaced d
    → 0 < at d
    → (at (pts_putbyte 8 d) + 1 ≡ at d)
      × ((pts_putbyte 8 d).pts.mem y x
          ≡ write_cell d.pts.mem
              (pts_putbyte 8 d).pts.cur_y
              (pts_putbyte 8 d).pts.cur_x
              (cell blank_ch d.pts)
              y
              x)
unfolding pts_putbyte
erase_step d y x v h = ground arith

-- '\b' after a byte that is no control byte and was not printed at the last cell takes the cursor
-- back to that byte's cell and blanks it; all other cells are as before both.
pts_putbyte_erase :
    (ch : ℕ) (d : Display) (y x : ℕ)
    → IsGraphic ch
    → IsPlaced d
    → at d < last_cell
    → let d' = pts_putbyte 8 (pts_putbyte ch d) in
      (d'.pts.cur_x ≡ d.pts.cur_x)
      × (d'.pts.cur_y ≡ d.pts.cur_y)
      × (d'.pts.mem y x ≡ write_cell d.pts.mem d.pts.cur_y d.pts.cur_x (cell blank_ch d.pts) y x)
pts_putbyte_erase ch d y x g v h =
    let (step, written) = print_before_end ch d y x g v h in
    let v1 = pts_putbyte-IsPlaced ch v in
    let (back, blanked) = erase_step (pts_putbyte ch d) y x v1 (omega arith) in
    let v2 = pts_putbyte-IsPlaced 8 v1 in
    let column : (pts_putbyte 8 (pts_putbyte ch d)).pts.cur_x ≡ d.pts.cur_x = omega arith in
    let line : (pts_putbyte 8 (pts_putbyte ch d)).pts.cur_y ≡ d.pts.cur_y = omega arith in
    (column, line, ground (arith, color-pts_putbyte ch d, blanked, written, column, line))
