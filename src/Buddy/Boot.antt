-- ===== src/Buddy/Boot.antt =====
-- The start of the page allocator in kernel/mem.c, from the size of the memory that phys_mem_init has
-- found: the page array is cleared, kernel and heap are reserved, and all other frames become free.
pub mod Reserve
pub mod Frames
use mathlib.Core.Path.{subst}
use aurora_os.Prelude.{
  ℕ, zero, suc, ◌+◌, ◌-◌, ◌*◌, ◌/◌, ◌^◌, ◌≤◌, ◌<◌, ◌≡◌, ◌≢◌, refl, sym, ap, ◌∙◌, Bool, true, false,
  not, ◌&&◌, ◌||◌, List, [], ◌∷◌, ltb, leb, ◌==◌, if◌then◌else◌, min, Bool-cases, inl, inr, arith,
  ==_refl, ==→eq,
}
use aurora_os.Buddy.{
  Page, Buddy, page_size, max_order, buddy_max_pages, pfn_to_phys, set_at, set_page, list_add,
}
use aurora_os.Buddy.Cover.{free_cover, free_cover-set_at, cover, inside, listed}
use aurora_os.Buddy.Valid.{IsValid, Ready, listed_add, listed_added}

unfoldable pub reserve_range : ℕ → ℕ → Buddy → Buddy
reserve_range zero pfn s = s
reserve_range (suc more) pfn s =
    let page = s.page_array pfn in
    reserve_range more (suc pfn) (set_page pfn (record page { reserved = true }) s)

abbrev buddy_mark_reserved : ℕ → ℕ → Buddy → Buddy
buddy_mark_reserved start_pfn end_pfn s =
    if leb buddy_max_pages start_pfn
    then s
    else reserve_range (min end_pfn buddy_max_pages - start_pfn) start_pfn s

abbrev pub free_frame : ℕ → Buddy → Buddy
free_frame pfn s =
    let page : Page = record {
      is_free = true;
      reserved = false;
      slab = false;
      order = 0;
      ref_count = 0;
      phys_addr = pfn_to_phys pfn;
    } in
    let added = list_add 0 pfn (set_page pfn page s) in
    record added { stat_total_pages = s.stat_total_pages + 1 }

unfoldable pub available_range : ℕ → ℕ → Buddy → Buddy
available_range zero pfn s = s
available_range (suc more) pfn s =
    let next = if (s.page_array pfn).reserved then s else free_frame pfn s in
    available_range more (suc pfn) next

abbrev buddy_mark_available : ℕ → ℕ → Buddy → Buddy
buddy_mark_available start_pfn end_pfn s =
    if leb buddy_max_pages start_pfn
    then s
    else available_range (min end_pfn buddy_max_pages - start_pfn) start_pfn s

abbrev pub frames : ℕ → ℕ
frames total_ram = total_ram / page_size

abbrev pub cleared : ℕ → Buddy
cleared total_ram = record {
  page_array = λ pfn. record {
    is_free = false;
    reserved = false;
    slab = false;
    order = 0;
    ref_count = 0;
    phys_addr = 0;
  };
  free_area = λ order. [];
  total_phys_pages = frames total_ram;
  stat_total_pages = 0;
  stat_used_pages = 0;
}

abbrev pub kernel_reserved_pages : ℕ
kernel_reserved_pages = 512

abbrev pub heap_start_pfn : ℕ
heap_start_pfn = 2048

abbrev pub heap_end_pfn : ℕ → ℕ
heap_end_pfn total_ram = min 8192 (frames total_ram)

abbrev pub with_reserved : ℕ → Buddy
with_reserved total_ram =
    buddy_mark_reserved heap_start_pfn (heap_end_pfn total_ram)
      (buddy_mark_reserved 0 kernel_reserved_pages (cleared total_ram))

-- The calls behind "Reserve kernel + heap regions", without those of buddy_coalesce_all.
unfoldable pub phys_mem_init : ℕ → Buddy
unfolding reserve_range available_range
phys_mem_init total_ram =
    buddy_mark_available kernel_reserved_pages (frames total_ram) (with_reserved total_ram)

-- The frames that are free at the start.
abbrev pub usable : ℕ → ℕ → Bool
usable total_ram q =
    leb kernel_reserved_pages q
    && ltb q (frames total_ram)
    && not (leb heap_start_pfn q && ltb q (heap_end_pfn total_ram))
