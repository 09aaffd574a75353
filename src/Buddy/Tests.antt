-- ===== src/Buddy/Tests.antt =====
-- Runs of the page allocator of kernel/mem.c, and the theorems at them.
use aurora_os.Prelude.{ℕ, ◌+◌, ◌≡◌, refl, none, some, List, [], ◌∷◌, if◌then◌else◌, arith}
use aurora_os.Buddy.{
  Buddy, max_order, alloc_pages, free_pages, split_down, buddy_merge, merge_once, merge_with,
  get_buddy, pfn_to_phys,
}
use aurora_os.Buddy.Boot.{phys_mem_init, available_range, cleared, usable}
use aurora_os.Buddy.Cover.{free_cover}
use aurora_os.Buddy.Owners.{
  Reaches, boot, alloc, in_use, owned_cover, Reaches-cover, alloc_pages-none, Block,
}

-- Four frames from 0 on, one block each.
abbrev four : Buddy
four = available_range 4 0 (cleared 16384)

-- Frame 0 and its buddies, joined to one block.
abbrev whole : Buddy
whole = (buddy_merge max_order (buddy_merge max_order four 0).0 2).0

merged : (whole.free_area 0 ≡ []) × (whole.free_area 1 ≡ []) × (whole.free_area 2 ≡ 0 ∷ [])
unfolding available_range buddy_merge merge_once merge_with get_buddy
merged = (refl, refl, refl)

-- The block is split twice, and what is given back is joined again.
split :
    ((alloc_pages whole 0).1 ≡ some (pfn_to_phys 3))
    × ((alloc_pages whole 0).0.free_area 0 ≡ 2 ∷ [])
    × ((alloc_pages whole 0).0.free_area 1 ≡ 0 ∷ [])
    × ((free_pages (alloc_pages whole 0).0 (pfn_to_phys 3) 0).free_area 2 ≡ 0 ∷ [])
unfolding available_range buddy_merge merge_once merge_with get_buddy alloc_pages split_down
    free_pages
split = (refl, refl, refl, refl)

-- free_pages takes a single page for a block of four, since the check leaves out pages of order 0.
wrong_order : (free_pages (alloc_pages whole 0).0 (pfn_to_phys 3) 2).free_area 2 ≡ 3 ∷ []
unfolding available_range buddy_merge merge_once merge_with get_buddy alloc_pages split_down
    free_pages
wrong_order = refl

-- A memory with one usable frame, the last of 513.
abbrev ram : ℕ
ram = 2101248

abbrev first : Buddy
first = (alloc_pages (phys_mem_init ram) 0).0

abbrev owners : List Block
owners = in_use (alloc_pages (phys_mem_init ram) 0).1 0 []

reached : Reaches ram first owners
reached = alloc (phys_mem_init ram) [] 0 boot

Reaches-cover_example :
    free_cover 11 first.free_area 512 + owned_cover owners 512 ≡ (if usable ram 512 then 1 else 0)
Reaches-cover_example = Reaches-cover ram first owners 512 (omega arith) reached

used_up : (alloc_pages first 0).1 ≡ none
unfolding alloc_pages phys_mem_init split_down
used_up = refl

alloc_pages-none_example : (first.free_area 3 ≡ []) × ((alloc_pages first 0).0 ≡ first)
alloc_pages-none_example =
    alloc_pages-none ram first owners 0 3 (omega arith) reached used_up (omega arith) (omega arith)
