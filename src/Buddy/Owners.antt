-- ===== src/Buddy/Owners.antt =====
-- Who has a frame: the free blocks of kernel/mem.c and those that alloc_pages has given out.
use mathlib.Core.Path.{subst}
use aurora_os.Prelude.{
  ℕ, suc, ◌+◌, ◌*◌, ◌≤◌, ◌≡◌, sym, ap, ◌∙◌, Bool, true, false, Option, none, some, List, [], ◌∷◌,
  ◌++◌, if◌then◌else◌, arith,
}
use aurora_os.Buddy.{
  Buddy, max_order, buddy_max_pages, pfn_to_phys, phys_to_pfn, alloc_pages, free_pages, buddy_merge,
}
use aurora_os.Buddy.Boot.{phys_mem_init, usable}
use aurora_os.Buddy.Boot.Frames.{phys_mem_init-Booted}
use aurora_os.Buddy.Cover.{inside, free_cover, inside_self}
use aurora_os.Buddy.Valid.{IsValid, Held, Rearranged}
use aurora_os.Buddy.Alloc.{Taken, taken, none_left, alloc_pages-Allocated}
use aurora_os.Buddy.Coalesce.{buddy_merge-Rearranged}
use aurora_os.Buddy.Give.{Given, free_pages-Given}

-- A block: its first frame and its order.
abbrev pub Block : Type 0
Block = ℕ × ℕ

-- The blocks that are in use after alloc_pages has answered.
abbrev pub in_use : Option ℕ → ℕ → List Block → List Block
in_use none order out = out
in_use (some pa) order out = (phys_to_pfn pa, order) ∷ out

-- The states after phys_mem_init, with the blocks in use. The merges are those of buddy_coalesce_all; a
-- block is given back once, by its address and its order.
pub data Reaches (total_ram : ℕ) : Buddy → List Block → Type 0 where
  boot : Reaches total_ram (phys_mem_init total_ram) []
  merge :
      (s : Buddy) (out : List Block) (p : ℕ)
      → Reaches total_ram s out
      → (s.page_array p).is_free ≡ true
      → Reaches total_ram (buddy_merge max_order s p).0 out
  alloc :
      (s : Buddy) (out : List Block) (order : ℕ)
      → Reaches total_ram s out
      → Reaches total_ram (alloc_pages s order).0 (in_use (alloc_pages s order).1 order out)
  free :
      (s : Buddy) (before after : List Block) (p order : ℕ)
      → Reaches total_ram s (before ++ (p, order) ∷ after)
      → Reaches total_ram (free_pages s (pfn_to_phys p) order) (before ++ after)

-- How many of the blocks a frame lies in.
unfoldable pub owned_cover : List Block → ℕ → ℕ
owned_cover [] q = 0
owned_cover ((p, order) ∷ out) q = inside order p q + owned_cover out q

owned_cover-append :
    (xs ys : List Block) (q : ℕ) → owned_cover (xs ++ ys) q ≡ owned_cover xs q + owned_cover ys q
unfolding owned_cover
owned_cover-append [] ys q = omega arith
owned_cover-append ((p, order) ∷ xs) ys q = omega (arith, owned_cover-append xs ys q)

abbrev AllHeld : Buddy → List Block → Type 0
AllHeld s [] = Unit
AllHeld s ((p, order) ∷ out) = Held s p order × AllHeld s out

AllHeld-split :
    (s : Buddy) (xs : List Block) (p order : ℕ) (ys : List Block)
    → AllHeld s (xs ++ (p, order) ∷ ys)
    → Held s p order × AllHeld s (xs ++ ys)
AllHeld-split s [] p order ys h = h
AllHeld-split s ((r, i) ∷ xs) p order ys h =
    let (here, rest) = AllHeld-split s xs p order ys h.1 in (here, (h.0, rest))

-- Blocks stay with their owners when their pages are not written.
AllHeld_kept :
    (s s' : Buddy) (out : List Block)
    → s'.total_phys_pages ≡ s.total_phys_pages
    → ((q : ℕ) → 1 ≤ owned_cover out q → s'.page_array q ≡ s.page_array q)
    → AllHeld s out
    → AllHeld s' out
unfolding owned_cover
AllHeld_kept s s' [] total kept h = record {}
AllHeld_kept s s' ((p, order) ∷ out) total kept (held, rest) = (
  record {
    low = held.low;
    not_free = ap (λ page. page.is_free) same ∙ held.not_free;
    same_order = ap (λ page. page.order) same ∙ held.same_order;
    ready = (
      ap (λ page. page.phys_addr) same ∙ held.ready.0,
      ap (λ page. page.reserved) same ∙ held.ready.1,
    );
    within = rw total held.within;
  },
  AllHeld_kept s s' out total (λ q h. kept q (omega (arith, h))) rest,
)
  where
    same : s'.page_array p ≡ s.page_array p
    same = kept p (omega (arith, inside_self order p))

record Owners (total_ram : ℕ) (s : Buddy) (out : List Block) : Type 0 where
  pub valid : IsValid s
  pub small : s.total_phys_pages ≤ buddy_max_pages
  pub balance :
      (q : ℕ)
      → free_cover (suc max_order) s.free_area q + owned_cover out q
        ≡ (if usable total_ram q then 1 else 0)
  pub held : AllHeld s out

at_most_one : (b : Bool) → (if b then 1 else 0) ≤ 1
at_most_one true = omega arith
at_most_one false = omega arith

merge-Owners :
    (total_ram : ℕ) (s s' : Buddy) (out : List Block)
    → Owners total_ram s out
    → Rearranged s s'
    → Owners total_ram s' out
merge-Owners total_ram s s' out o r = record {
  valid = r.valid;
  small = rw r.total o.small;
  balance = λ q. omega (arith, o.balance q, r.covers q);
  held =
      AllHeld_kept s s' out r.total
        (λ q h. r.kept q (omega (arith, o.balance q, at_most_one (usable total_ram q)))) o.held;
}

alloc-Owners :
    (total_ram : ℕ) (s s' : Buddy) (out : List Block) (p order : ℕ)
    → Owners total_ram s out
    → Taken s order p s'
    → Owners total_ram s' ((p, order) ∷ out)
unfolding owned_cover
alloc-Owners total_ram s s' out p order o t = record {
  valid = t.valid;
  small = rw t.total o.small;
  balance = λ q. omega (arith, o.balance q, t.covers q);
  held = (
    t.held,
    AllHeld_kept s s' out t.total
        (λ q h. t.kept q (omega (arith, o.balance q, at_most_one (usable total_ram q)))) o.held,
  );
}

free-Owners :
    (total_ram : ℕ) (s s' : Buddy) (before after : List Block) (p order : ℕ)
    → Owners total_ram s (before ++ (p, order) ∷ after)
    → Given s order p s'
    → Owners total_ram s' (before ++ after)
unfolding owned_cover
free-Owners total_ram s s' before after p order o g = record {
  valid = g.valid;
  small = rw g.total o.small;
  balance = λ q. omega (arith, moved q, g.covers q);
  held =
      AllHeld_kept s s' (before ++ after) g.total
        (λ q h. g.kept q (omega (arith, moved q, at_most_one (usable total_ram q))))
        (AllHeld-split s before p order after o.held).1;
}
  where
    moved :
        (q : ℕ)
        → free_cover (suc max_order) s.free_area q
            + (inside order p q + owned_cover (before ++ after) q)
          ≡ (if usable total_ram q then 1 else 0)
    moved q = omega (
      arith,
      o.balance q,
      owned_cover-append before ((p, order) ∷ after) q,
      owned_cover-append before after q,
    )

Reaches-Owners :
    (total_ram : ℕ) (s : Buddy) (out : List Block)
    → total_ram ≤ 256 * 1024 * 1024
    → Reaches total_ram s out
    → Owners total_ram s out
unfolding owned_cover
Reaches-Owners total_ram _ _ small boot =
    let booted = phys_mem_init-Booted total_ram small in
    record {
      valid = booted.valid;
      small = omega (arith, booted.total);
      balance = λ q. omega (arith, booted.covers q);
      held = record {};
    }
Reaches-Owners total_ram _ _ small (merge s out p reached unused) =
    let o = Reaches-Owners total_ram s out small reached in
    merge-Owners total_ram s (buddy_merge max_order s p).0 out o
      (buddy_merge-Rearranged max_order s p o.valid unused)
Reaches-Owners total_ram _ _ small (alloc s out order reached) =
    let o = Reaches-Owners total_ram s out small reached in
    let goal : Buddy × Option ℕ → Type 0 = λ r. Owners total_ram r.0 (in_use r.1 order out) in
    elim (alloc_pages-Allocated s order o.valid o.small) [
      | taken p s' low t e ↦
          let frame : phys_to_pfn (pfn_to_phys p) ≡ p = omega arith in
          subst goal (sym e) (
            subst (λ r. Owners total_ram s' ((r, order) ∷ out)) (sym frame)
              (alloc-Owners total_ram s s' out p order o t))
      | none_left empty e ↦ subst goal (sym e) o
    ]
Reaches-Owners total_ram _ _ small (free s before after p order reached) =
    let o = Reaches-Owners total_ram s (before ++ (p, order) ∷ after) small reached in
    free-Owners total_ram s (free_pages s (pfn_to_phys p) order) before after p order o
      (free_pages-Given s order p o.valid (AllHeld-split s before p order after o.held).0)

-- After phys_mem_init and any calls of alloc_pages, and of free_pages on blocks in use, every frame that
-- was free at first lies in exactly one block, a free one or one in use, and no other frame lies in any.
pub Reaches-cover :
    (total_ram : ℕ) (s : Buddy) (out : List Block) (q : ℕ)
    → total_ram ≤ 256 * 1024 * 1024
    → Reaches total_ram s out
    → free_cover (suc max_order) s.free_area q + owned_cover out q
      ≡ (if usable total_ram q then 1 else 0)
Reaches-cover total_ram s out q small reached =
    (Reaches-Owners total_ram s out small reached).balance q

-- After such calls alloc_pages fails only when no list from the order asked for on has a block, and it
-- changes nothing then: a split never fails, and every block has an address that is mapped.
pub alloc_pages-none :
    (total_ram : ℕ) (s : Buddy) (out : List Block) (order i : ℕ)
    → total_ram ≤ 256 * 1024 * 1024
    → Reaches total_ram s out
    → (alloc_pages s order).1 ≡ none
    → order ≤ i
    → i ≤ max_order
    → (s.free_area i ≡ []) × ((alloc_pages s order).0 ≡ s)
alloc_pages-none total_ram s out order i small reached fails low high =
    let o = Reaches-Owners total_ram s out small reached in
    elim (alloc_pages-Allocated s order o.valid o.small) [
      | taken p s' _ t e ↦
          let no_answer : some (pfn_to_phys p) ≡ none = sym (ap (λ r. r.1) e) ∙ fails in absurd (cc)
      | none_left empty e ↦ (empty i low high, ap (λ r. r.0) e)
    ]
