-- ===== src/Pv/Shadow/Tests.antt =====
-- Runs of the translation at concrete entries, and the theorems at them.
use pebpeb_os.Base.{◌+◌, ◌*◌, ◌≡◌, ◌≢◌, ◌↔◌, refl, arith}
use pebpeb_os.Base.Bits.{◌&&&◌, ◌<<◌}
use pebpeb_os.Paging.{bad_pte, get_page_base}
use pebpeb_os.Pv.Shadow.{
  host_page, shadow_word, kernel_mask, user_mask, Guest, translate_pte, adjust_pte,
}
use pebpeb_os.Pv.Shadow.Word.{IsPlaced}
use pebpeb_os.Pv.Shadow.Confine.{Inside, LeadsTo, translate_pte-Inside, translate_pte-escape}
use pebpeb_os.Pv.Shadow.Hide.{translate_pte-user_iff, adjust_pte-shows}

-- 24 MB of guest memory at 32 MB, in a machine of 64 MB.
abbrev guest : Guest
guest = record { n_pages = 6144; mem_base = 0x0200_0000; phys_frames = 16384; wp = 1 }

guest-IsPlaced : IsPlaced guest
guest-IsPlaced = record { aligned = refl; fits = omega arith; frames = omega arith }

-- The fourth page of the guest, present, writable, for its user.
translate_pte_mapped :
    translate_pte guest 7 0x3007 ≡ record { kernel = 0x0200_3007; user = 0x0200_3007 }
unfolding translate_pte host_page get_page_base shadow_word kernel_mask user_mask
translate_pte_mapped = refl

-- The same page in a page table that the guest keeps from its user.
translate_pte_hidden : translate_pte guest 3 0x3007 ≡ record { kernel = 0x0200_3007; user = 0 }
unfolding translate_pte host_page get_page_base shadow_word kernel_mask user_mask
translate_pte_hidden = refl

base_third : get_page_base 0x3007 ≡ 0x3000
unfolding get_page_base
base_third = refl

base_limit : get_page_base 0x0180_0007 ≡ 0x0180_0000
unfolding get_page_base
base_limit = refl

base_above : get_page_base 0x0180_1007 ≡ 0x0180_1000
unfolding get_page_base
base_above = refl

translate_pte-Inside_example :
    LeadsTo (translate_pte guest 7 0x3007) (guest.mem_base + get_page_base 0x3007)
    × Inside guest (guest.mem_base + get_page_base 0x3007)
translate_pte-Inside_example =
    translate_pte-Inside guest guest-IsPlaced 7 0x3007 (omega arith) refl
      (omega (arith, base_third))

translate_pte-escape_example :
    LeadsTo (translate_pte guest 7 0x0180_0007) (0x0200_0000 + 6144 * 4096)
    × ¬ (Inside guest (0x0200_0000 + 6144 * 4096))
translate_pte-escape_example =
    translate_pte-escape guest guest-IsPlaced 7 0x0180_0007 (omega arith) refl
      (omega (arith, base_limit))

translate_pte-user_iff_example :
    ((translate_pte guest 7 0x3007).user ≢ bad_pte)
    ↔ (((0x3007 &&& (1 << 0)) ≡ 1) × ((0x3007 &&& (1 << 2)) ≡ 4) × ((7 &&& (1 << 2)) ≡ 4))
translate_pte-user_iff_example = translate_pte-user_iff guest 7 0x3007

adjust_pte-shows_example :
    ((translate_pte guest 3 0x3007).user ≡ bad_pte) × ((adjust_pte guest 0x3007).user ≢ bad_pte)
adjust_pte-shows_example = adjust_pte-shows guest 3 0x3007 refl refl refl
