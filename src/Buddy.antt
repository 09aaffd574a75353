-- ===== src/Buddy.antt =====
-- kernel/mem.c: the physical page allocator. `page_array` is a function of the frame number, and a free
-- list is the list of the frame numbers that its `next` pointers run through. A pointer to a page
-- descriptor is its frame number. What one call does under buddy_lock is one step.
pub mod Cover
pub mod Valid
pub mod Boot
pub mod Give
pub mod Owners
pub mod Tests
pub mod Split
pub mod Merge
pub mod Coalesce
pub mod Search
pub mod Alloc
use aurora_os.Prelude.{
  ℕ, zero, suc, ◌+◌, ◌-◌, ◌*◌, ◌/◌, ◌%◌, ◌^◌, Bool, true, false, not, ◌&&◌, Option, none, some,
  List, [], ◌∷◌, ltb, leb, ◌==◌, if◌then◌else◌, bit_xor,
}

abbrev pub page_size : ℕ
page_size = 4096

abbrev pub max_order : ℕ
max_order = 10

abbrev pub phys_mem_base : ℕ
phys_mem_base = 0x100000

abbrev pub kernel_phys_max : ℕ
kernel_phys_max = 0x40000000

abbrev pub buddy_max_pages : ℕ
buddy_max_pages = 65536

-- The flags of a page are one field each.
pub record Page : Type 0 where
  pub is_free : Bool
  pub reserved : Bool
  pub slab : Bool
  pub order : ℕ
  pub ref_count : ℕ
  pub phys_addr : ℕ

pub record Buddy : Type 0 where
  pub page_array : ℕ → Page
  pub free_area : ℕ → List ℕ
  pub total_phys_pages : ℕ
  pub stat_total_pages : ℕ
  pub stat_used_pages : ℕ

abbrev pub set_at {ℓ} : {A : Type ℓ} → (ℕ → A) → ℕ → A → ℕ → A
set_at f i v j = if j == i then v else f j

abbrev pub pfn_to_phys : ℕ → ℕ
pfn_to_phys pfn = phys_mem_base + pfn * page_size

-- For an address from phys_mem_base on.
abbrev pub phys_to_pfn : ℕ → ℕ
phys_to_pfn pa = (pa - phys_mem_base) / page_size

unfoldable pub get_buddy : Buddy → ℕ → ℕ → Option ℕ
get_buddy s pfn order =
    let buddy_pfn = bit_xor pfn (2 ^ order) in
    if leb s.total_phys_pages buddy_pfn then none else some buddy_pfn

unfoldable pub unlink : ℕ → List ℕ → List ℕ
unlink p [] = []
unlink p (x ∷ xs) = let rest = unlink p xs in if x == p then xs else x ∷ rest

abbrev pub list_add : ℕ → ℕ → Buddy → Buddy
list_add order p s = record s { free_area = set_at s.free_area order (p ∷ s.free_area order) }

abbrev pub list_del : ℕ → ℕ → Buddy → Buddy
list_del order p s = record s {
  free_area = set_at s.free_area order (unlink p (s.free_area order));
}

abbrev pub set_page : ℕ → Page → Buddy → Buddy
set_page p page s = record s { page_array = set_at s.page_array p page }

-- A descriptor whose flags are set to PAGE_FLAG_FREE alone.
abbrev pub freed_page : Page → ℕ → ℕ → ℕ → Page
freed_page page order ref_count pfn = record page {
  is_free = true;
  reserved = false;
  slab = false;
  order = order;
  ref_count = ref_count;
  phys_addr = pfn_to_phys pfn;
}

-- The two halves of a block, as free blocks of the given order.
abbrev pub halve : ℕ → ℕ → ℕ → Buddy → Buddy
halve order left right s =
    let with_left = set_page left (freed_page (s.page_array left) order 0 left) s in
    let with_right =
      set_page right (freed_page (with_left.page_array right) order 0 right) with_left in
    list_add order right (list_add order left with_right)

abbrev pub split_first : Buddy → ℕ → List ℕ → Buddy × Option ℕ
split_first s order [] = (s, none)
split_first s order (p ∷ _) =
    let taken = list_del (suc order) p s in
    if leb s.total_phys_pages (p + 2 ^ order)
    then (list_add (suc order) p taken, none)
    else (halve order p (p + 2 ^ order) taken, some p)

unfoldable pub buddy_split : Buddy → ℕ → Buddy × Option ℕ
unfolding unlink
buddy_split s zero = (s, none)
buddy_split s (suc order) =
    if ltb max_order (suc order) then (s, none) else split_first s order (s.free_area (suc order))

abbrev pub join : ℕ → ℕ → ℕ → Buddy → Buddy
join order base other s =
    let page = s.page_array base in
    let merged = set_page base (freed_page page (suc order) page.ref_count base) s in
    let old = merged.page_array other in
    let cleared = record old { is_free = false; reserved = false; slab = false; order = 0 } in
    list_add (suc order) base (set_page other cleared merged)

-- Both blocks leave their list, and the joined one, with the lower address, is added to the next.
unfoldable pub merge_with : ℕ → ℕ → ℕ → Buddy → Buddy × ℕ
unfolding unlink
merge_with order p buddy s =
    let taken = list_del order buddy (list_del order p s) in
    if ltb p buddy then (join order p buddy taken, p) else (join order buddy p taken, buddy)

-- The block that buddy_merge makes of a free block and its buddy, if it makes one.
unfoldable pub merge_once : Buddy → ℕ → Option (Buddy × ℕ)
merge_once s p =
    let order = (s.page_array p).order in
    if leb max_order order then none else elim (get_buddy s p order) [
      | none ↦ none
      | some buddy ↦
          if not (s.page_array buddy).is_free
          then none
          else if not ((s.page_array buddy).order == order)
          then none
          else some (merge_with order p buddy s)
    ]

-- buddy_merge calls itself for the larger block, as often as there are larger orders.
unfoldable pub buddy_merge : ℕ → Buddy → ℕ → Buddy × ℕ
buddy_merge zero s p = (s, p)
buddy_merge (suc rounds) s p = elim (merge_once s p) [
  | none ↦ (s, p)
  | some (merged, base) ↦ buddy_merge rounds merged base
]

-- The search for the smallest order with a free block, over the orders that are left.
unfoldable pub find_order : ℕ → (ℕ → List ℕ) → ℕ → Option ℕ
find_order zero area order = none
find_order (suc more) area order =
    let next = find_order more area (suc order) in
    elim (area order) [ [] ↦ next | _ ∷ _ ↦ some order ]

-- `while (current_order > order)`, for as many rounds as the two differ.
unfoldable pub split_down : ℕ → ℕ → Buddy → Buddy × Bool
unfolding buddy_split
split_down zero order s = (s, true)
split_down (suc more) order s =
    let (next, left) = buddy_split s (suc (more + order)) in
    elim left [ none ↦ (next, false) | some _ ↦ split_down more order next ]

abbrev pub add_used : ℕ → Buddy → Buddy
add_used order s = record s { stat_used_pages = (s.stat_used_pages + 2 ^ order) % 2 ^ 64 }

abbrev pub drop_used : ℕ → Buddy → Buddy
drop_used order s = record s { stat_used_pages = s.stat_used_pages - 2 ^ order }

-- `p->order = order; p->ref_count = ...;` with PAGE_FLAG_FREE cleared or set.
abbrev pub mark : Bool → ℕ → ℕ → ℕ → Buddy → Buddy
mark is_free order ref_count p s =
    let old = s.page_array p in
    set_page p (record old { is_free = is_free; order = order; ref_count = ref_count }) s

abbrev pub take_first : ℕ → List ℕ → Buddy → Buddy × Option ℕ
take_first order [] s = (s, none)
take_first order (p ∷ _) s =
    let taken = add_used order (mark false order 1 p (list_del order p s)) in
    let pa = (s.page_array p).phys_addr in
    if leb kernel_phys_max pa
    then (drop_used order (list_add order p (mark true order 0 p taken)), none)
    else (taken, some pa)

-- The address of a block of 2 ^ order pages, if there is one.
unfoldable pub alloc_pages : Buddy → ℕ → Buddy × Option ℕ
unfolding find_order split_down unlink
alloc_pages s order =
    if ltb max_order order
    then (s, none)
    else elim (find_order (suc max_order - order) s.free_area order) [
      | none ↦ (s, none)
      | some current ↦
          let (next, ok) = split_down (current - order) order s in
          if ok then take_first order (next.free_area order) next else (next, none)
    ]

abbrev pub give_back : ℕ → ℕ → Buddy → Buddy
give_back order p s = drop_used order (list_add order p (mark true order 0 p s))

-- The checks of free_pages on the page, its address found to be in range.
abbrev pub refuses : Page → ℕ → Bool
refuses page order =
    if page.reserved
    then true
    else if page.is_free
    then true
    else ltb page.order order && not (page.order == 0)

unfoldable pub free_pages : Buddy → ℕ → ℕ → Buddy
free_pages s ptr order =
    let pfn = phys_to_pfn ptr in
    if ptr == 0
    then s
    else if ltb max_order order
    then s
    else if ltb ptr phys_mem_base
    then s
    else if leb s.total_phys_pages pfn
    then s
    else if refuses (s.page_array pfn) order
    then s
    else (buddy_merge max_order (give_back order pfn s) pfn).0

unfoldable pub alloc_page : Buddy → Buddy × Option ℕ
alloc_page s = alloc_pages s 0

unfoldable pub free_page : Buddy → ℕ → Buddy
free_page s page = free_pages s page 0

-- Without an answer for an address that is not managed.
unfoldable pub get_page_struct : Buddy → ℕ → Option Page
get_page_struct s pa =
    if ltb pa phys_mem_base
    then none
    else if leb s.total_phys_pages (phys_to_pfn pa)
    then none
    else some (s.page_array (phys_to_pfn pa))
