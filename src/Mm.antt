-- ===== src/Mm.antt =====
-- kern/mm.c: the allocator of physical pages. Free runs of pages stand in nine circular bins whose
-- links lie in the free pages themselves, with the size of a run in its first page (head) and again
-- in its last one (foot), and a bitmap tells the first and the last page of a free run.
--
-- The code numbers pages from -1; here a page's slot is that number and one, the index of its bit.
-- A bin is its index, a size is a number that is not negative, and NULL and BAD_PA are 0. The locks
-- and the interrupt flag around the accesses through the mapping window are left out. The bitmap is
-- a function of every byte's index, whatever the size that was allocated for it.
pub mod Coalesced
pub mod Free
pub mod Merge
pub mod Page
pub mod Search
pub mod Take
pub mod Tiles
pub mod Alloc
pub mod Bin
pub mod Bins
pub mod Blocks
mod Tests
use mathlib.Core.Option
use pebpeb_os.Base.{
  ℕ, Bool, zero, suc, ◌+◌, ◌-◌, ◌*◌, ◌/◌, ◌%◌, ◌^◌, Option, none, some, ◌==◌, ltb, leb, not,
  if◌then◌else◌,
}
use pebpeb_os.Base.Bits.{◌<<◌, ◌|||◌, ◌&&&◌}
use pebpeb_os.Paging.{page_size, user_mem_start}
use pebpeb_os.Queue.{Links, set_next, set_prev}

pub record Mm : Type 0 where
  pub num_user_pages : ℕ
  pub user_page_bitmap : ℕ → ℕ
  pub bins : ℕ → ℕ
  -- page_head_t's prev and next, page_head_t's size and page_foot_t's size, by physical address
  pub links : Links
  pub head_size : ℕ → ℕ
  pub foot_size : ℕ → ℕ

abbrev pub num_bins : ℕ
num_bins = 9

abbrev pub last_bin_size : ℕ
last_bin_size = 1 << (num_bins - 1)

abbrev pub write_at : (f : ℕ → ℕ) (i v : ℕ) → ℕ → ℕ
write_at f i v j = if j == i then v else f j

unfoldable pub is_page_inuse : (slot : ℕ) → Mm → Bool
is_page_inuse slot m = not ((m.user_page_bitmap (slot / 8) &&& (1 << (slot % 8))) == 0)

unfoldable pub set_page_inuse : (slot : ℕ) → Mm → Mm
set_page_inuse slot m =
    let byte = m.user_page_bitmap (slot / 8) ||| (1 << (slot % 8)) in
    record m { user_page_bitmap = write_at m.user_page_bitmap (slot / 8) byte }

-- `~(1 << k)` is the complement in an int's 32 bits.
unfoldable pub set_page_free : (slot : ℕ) → Mm → Mm
set_page_free slot m =
    let byte = m.user_page_bitmap (slot / 8) &&& (2 ^ 32 - 1 - (1 << (slot % 8))) in
    record m { user_page_bitmap = write_at m.user_page_bitmap (slot / 8) byte }

-- The slot of an address from USER_MEM_START on, and the address of a slot from 1 on.
unfoldable pub pa_to_pn : ℕ → ℕ
pa_to_pn pa = (pa - user_mem_start) / page_size + 1

unfoldable pub pn_to_pa : ℕ → ℕ
pn_to_pa slot = (slot * page_size + (user_mem_start - page_size)) % 2 ^ 32

-- The loop of find_bin, from i down.
unfoldable pub top_bit : (i size : ℕ) → ℕ
top_bit zero size = 0
top_bit (suc i) size = if (size &&& (1 << suc i)) == 0 then top_bit i size else suc i

unfoldable pub find_bin : ℕ → ℕ
find_bin size = if leb last_bin_size size then num_bins - 1 else top_bit (num_bins - 2) size

-- The writes to the chunks' heads.
unfoldable pub bin_insert_links : (head this_chunk : ℕ) → Links → Links
bin_insert_links head this_chunk s =
    if head == 0
    then set_next this_chunk this_chunk (set_prev this_chunk this_chunk s)
    else let tail_chunk = s.prev head in
      let s1 = set_prev head this_chunk s in
      let s2 = set_next this_chunk head s1 in
      let s3 = set_prev this_chunk tail_chunk s2 in set_next tail_chunk this_chunk s3

unfoldable pub bin_insert : (bin this_chunk size : ℕ) → Mm → Mm
bin_insert bin this_chunk size m = record m {
  links = bin_insert_links (m.bins bin) this_chunk m.links;
  head_size = write_at m.head_size this_chunk size;
  bins = write_at m.bins bin this_chunk;
}

unfoldable pub bin_delete_links : (this_chunk : ℕ) → Links → Links
bin_delete_links this_chunk s =
    let next_chunk = s.next this_chunk in
    let prev_chunk = s.prev this_chunk in
    if next_chunk == this_chunk
    then s
    else set_next prev_chunk next_chunk (set_prev next_chunk prev_chunk s)

-- The new head of the bin.
unfoldable pub bin_delete_head : (head this_chunk : ℕ) → Links → ℕ
bin_delete_head head this_chunk s =
    let next_chunk = s.next this_chunk in
    if head == this_chunk then (if next_chunk == this_chunk then 0 else next_chunk) else head

unfoldable pub bin_delete : (bin this_chunk : ℕ) → Mm → Mm
bin_delete bin this_chunk m = record m {
  links = bin_delete_links this_chunk m.links;
  bins = write_at m.bins bin (bin_delete_head (m.bins bin) this_chunk m.links);
}

unfoldable pub add_to_bins : (slot size : ℕ) → Mm → Mm
add_to_bins slot size m =
    let m1 = set_page_free slot m in
    let m2 = set_page_free (slot + size - 1) m1 in
    let m3 = bin_insert (find_bin size) (pn_to_pa slot) size m2 in
    record m3 { foot_size = write_at m3.foot_size (pn_to_pa (slot + size - 1)) size }

unfoldable pub remove_from_bins : (slot : ℕ) → Mm → Mm
remove_from_bins slot m =
    let this_chunk = pn_to_pa slot in bin_delete (find_bin (m.head_size this_chunk)) this_chunk m

-- The search of one bin: the chunk taken or BAD_PA, and the memory then. `none` is a search that
-- the fuel does not end.
unfoldable pub search_bin : (fuel bin this_chunk end size : ℕ) → Mm → Option (ℕ × Mm)
search_bin zero bin this_chunk end size m = none
search_bin (suc k) bin this_chunk end size m =
    let this_size = m.head_size this_chunk in
    let next_chunk = m.links.next this_chunk in
    let rest = search_bin k bin next_chunk end size m in
    let m1 = bin_delete bin this_chunk m in
    if ltb size this_size
    then some (this_chunk, add_to_bins (pa_to_pn this_chunk + size) (this_size - size) m1)
    else if this_size == size
    then some (this_chunk, m1)
    else if next_chunk == end
    then some (0, m)
    else rest

-- The marks of an allocated chunk.
unfoldable pub mark_used : (slot size : ℕ) → Mm → Mm
mark_used slot size m = set_page_inuse (slot + size - 1) (set_page_inuse slot m)

-- The chunk that was found, with its marks.
unfoldable pub claim_chunk : (size : ℕ) → ℕ × Mm → ℕ × Mm
claim_chunk size (r_pa, m) =
    let r_pn = pa_to_pn r_pa in if r_pa == 0 then (0, m) else (r_pa, mark_used r_pn size m)

-- A bin has at most one chunk for each page, which is the fuel.
unfoldable pub alloc_from_bin : (bin size : ℕ) → Mm → Option (ℕ × Mm)
alloc_from_bin bin size m =
    if m.bins bin == 0
    then some (0, m)
    else Option.map (claim_chunk size)
        (search_bin m.num_user_pages bin (m.bins bin) (m.bins bin) size m)

-- The loop of alloc_user_pages over the last `left` bins.
unfoldable pub alloc_bins : (left num_pages : ℕ) → Mm → Option (ℕ × Mm)
alloc_bins zero num_pages m = some (0, m)
alloc_bins (suc left) num_pages m = elim (alloc_from_bin (num_bins - suc left) num_pages m) [
  | none ↦ none
  | some (result, m1) ↦
      let rest = alloc_bins left num_pages m1 in if result == 0 then rest else some (result, m1)
]

unfoldable pub alloc_user_pages : (num_pages : ℕ) → Mm → Option (ℕ × Mm)
alloc_user_pages num_pages m = alloc_bins (num_bins - find_bin num_pages) num_pages m

-- The two merges of free_user_pages: the run's slot and size so far, and the memory.
unfoldable pub merge_prev : (slot num_pages : ℕ) → Mm → ℕ × ℕ × Mm
merge_prev slot num_pages m =
    let prev_size = m.foot_size (pn_to_pa (slot - 1)) in
    let prev_slot = slot - prev_size in
    if is_page_inuse (slot - 1) m
    then (slot, num_pages, m)
    else (prev_slot, num_pages + prev_size, remove_from_bins prev_slot m)

unfoldable pub merge_next : (next_slot final_size : ℕ) → Mm → ℕ × Mm
merge_next next_slot final_size m =
    let next_size = m.head_size (pn_to_pa next_slot) in
    if is_page_inuse next_slot m
    then (final_size, m)
    else (final_size + next_size, remove_from_bins next_slot m)

unfoldable pub free_user_pages : (pa num_pages : ℕ) → Mm → Mm
free_user_pages pa num_pages m =
    let slot = pa_to_pn pa in
    let (final_slot, size1, m1) = merge_prev slot num_pages m in
    let (final_size, m2) = merge_next (slot + num_pages) size1 m1 in
    add_to_bins final_slot final_size m2

-- The state after `mm_init`, from the machine's number of frames and the memory before it.
unfoldable pub mm_init : (machine_phys_frames : ℕ) (links : Links) (head foot : ℕ → ℕ) → Mm
mm_init machine_phys_frames links head foot =
    let n = machine_phys_frames - user_mem_start / page_size in
    let m0 : Mm = record {
      num_user_pages = n;
      user_page_bitmap = (λ i. 0);
      bins = (λ i. 0);
      links = links;
      head_size = head;
      foot_size = foot;
    } in
    add_to_bins (pa_to_pn user_mem_start) n (set_page_inuse (n + 1) (set_page_inuse 0 m0))
