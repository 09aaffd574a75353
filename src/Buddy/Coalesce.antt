-- ===== src/Buddy/Coalesce.antt =====
-- The buddy of a block, and the recursion of buddy_merge in kernel/mem.c.
use mathlib.Core.Path.{subst}
use native.Mathlib.Nat.{one-le-pow}
use aurora_os.Prelude.{
  ℕ, zero, suc, ◌+◌, ◌^◌, ◌≤◌, ◌≡◌, refl, sym, ap, ◌∙◌, true, false, ◌==◌, Bool-cases, inl, inr,
  ◌⊎◌, arith, ==_refl, ==→eq, leb, ltb, none, some, bit_xor, bit_xor-pow, Option-cases,
}
use aurora_os.Buddy.{
  Buddy, max_order, list_del, join, get_buddy, merge_with, merge_once, buddy_merge,
}
use aurora_os.Buddy.Cover.{listed}
use aurora_os.Buddy.Valid.{IsValid, Rearranged, Rearranged-refl, Rearranged-trans}
use aurora_os.Buddy.Merge.{Pair, join-Rearranged}

-- What merge_once makes of a free block is a free block of the next order.
pub record Merged (s : Buddy) (p : ℕ) (result : Buddy × ℕ) : Type 0 where
  pub rearranged : Rearranged s result.0
  pub stays_free : (result.0.page_array result.1).is_free ≡ true
  pub larger : (result.0.page_array result.1).order ≡ suc (s.page_array p).order

join-Merged :
    (s : Buddy) (p buddy base other : ℕ)
    → IsValid s
    → Pair s (s.page_array p).order p buddy base other
    → Merged s p (
      join
          (s.page_array p).order
          base
          other
          (list_del (s.page_array p).order buddy (list_del (s.page_array p).order p s)),
      base,
    )
join-Merged s p buddy base other valid pair = record {
  rearranged = join-Rearranged s order p buddy base other valid pair;
  stays_free = rw (apart, ==_refl base) refl;
  larger = rw (apart, ==_refl base) refl;
}
  where
    order : ℕ
    order = (s.page_array p).order

    positive : 1 ≤ 2 ^ (s.page_array p).order
    positive = one-le-pow (s.page_array p).order 2 (omega arith)

    apart : (base == other) ≡ false
    apart = ground (arith, positive, pair.next_to)

buddy_of :
    (s : Buddy) (p order buddy : ℕ)
    → get_buddy s p order ≡ some buddy
    → buddy ≡ bit_xor p (2 ^ order)
unfolding get_buddy
buddy_of s p order buddy e = elim (Bool-cases (leb s.total_phys_pages (bit_xor p (2 ^ order)))) [
  | inl out ↦ let no : none ≡ some buddy = rw out at e in absurd (cc)
  | inr within ↦ let same : some (bit_xor p (2 ^ order)) ≡ some buddy = rw within at e in cc
]

-- The two blocks lie side by side, since their numbers differ in one digit.
merge_with-Merged :
    (s : Buddy) (p buddy : ℕ)
    → IsValid s
    → suc (s.page_array p).order ≤ max_order
    → listed p (s.free_area (s.page_array p).order) ≡ true
    → listed buddy (s.free_area (s.page_array p).order) ≡ true
    → buddy ≡ bit_xor p (2 ^ (s.page_array p).order)
    → Merged s p (merge_with (s.page_array p).order p buddy s)
unfolding merge_with
merge_with-Merged s p buddy valid low p_listed buddy_listed flipped =
    elim (Bool-cases (ltb p buddy)) [
      | inl first ↦ rw first (
          join-Merged s p buddy p buddy valid
            (pair p buddy (inl (refl, refl)) (ground (arith, positive, sides))))
      | inr last ↦ rw last (
          join-Merged s p buddy buddy p valid
            (pair buddy p (inr (refl, refl)) (ground (arith, positive, sides))))
    ]
  where
    order : ℕ
    order = (s.page_array p).order

    positive : 1 ≤ 2 ^ (s.page_array p).order
    positive = one-le-pow (s.page_array p).order 2 (omega arith)

    sides : (buddy ≡ p + 2 ^ (s.page_array p).order) ⊎ (p ≡ buddy + 2 ^ (s.page_array p).order)
    sides = elim (bit_xor-pow p (s.page_array p).order) [
      | inl up ↦ inl (flipped ∙ up)
      | inr down ↦ inr (omega (arith, down, flipped))
    ]

    pair :
        (base other : ℕ)
        → ((base ≡ p) × (other ≡ buddy)) ⊎ ((base ≡ buddy) × (other ≡ p))
        → other ≡ base + 2 ^ (s.page_array p).order
        → Pair s (s.page_array p).order p buddy base other
    pair base other which apart = record {
      low = low;
      p_listed = p_listed;
      buddy_listed = buddy_listed;
      apart =
          λ same. elim sides [ inl e ↦ omega (arith, positive) | inr e ↦ omega (arith, positive) ];
      sides = which;
      next_to = apart;
    }

merge_once-Merged :
    (s : Buddy) (p : ℕ) (result : Buddy × ℕ)
    → IsValid s
    → (s.page_array p).is_free ≡ true
    → merge_once s p ≡ some result
    → Merged s p result
unfolding merge_once
merge_once-Merged s p result valid free e = elim (Bool-cases (leb max_order order)) [
  | inl top ↦ let no : none ≡ some result = rw top at e in absurd (cc)
  | inr below ↦ elim (Option-cases (get_buddy s p order)) [
    | inl missing ↦ let no : none ≡ some result = rw (below, missing) at e in absurd (cc)
    | inr (buddy, found) ↦ elim (Bool-cases (s.page_array buddy).is_free) [
      | inr used ↦ let no : none ≡ some result = rw (below, found, used) at e in absurd (cc)
      | inl buddy_free ↦ elim (Bool-cases ((s.page_array buddy).order == order)) [
        | inr differs ↦
            let no : none ≡ some result = rw (below, found, buddy_free, differs) at e in absurd (cc)
        | inl equal ↦
            let same : (s.page_array buddy).order ≡ order =
              ==→eq (s.page_array buddy).order order equal in
            let buddy_listed = (valid.linked buddy buddy_free).0 in
            let merged =
              merge_with-Merged s p buddy valid (ground arith) (valid.linked p free).0
                (subst (λ i. listed buddy (s.free_area i) ≡ true) same buddy_listed)
                (buddy_of s p order buddy found) in
            subst (Merged s p) (some_eq (rw (below, found, buddy_free, equal) at e)) merged
      ]
    ]
  ]
]
  where
    order : ℕ
    order = (s.page_array p).order

    some_eq : {x y : Buddy × ℕ} → some x ≡ some y → x ≡ y
    some_eq same = cc

no_rounds : (s : Buddy) (p : ℕ) → buddy_merge zero s p ≡ (s, p)
unfolding buddy_merge
no_rounds s p = refl

round_ends :
    (rounds : ℕ) (s : Buddy) (p : ℕ) → merge_once s p ≡ none → buddy_merge (suc rounds) s p ≡ (s, p)
unfolding buddy_merge
round_ends rounds s p e = ap (λ m. elim m [ none ↦ (s, p) | some r ↦ buddy_merge rounds r.0 r.1 ]) e

round_goes :
    (rounds : ℕ) (s : Buddy) (p : ℕ) (r : Buddy × ℕ)
    → merge_once s p ≡ some r
    → buddy_merge (suc rounds) s p ≡ buddy_merge rounds r.0 r.1
unfolding buddy_merge
round_goes rounds s p r e =
    ap (λ m. elim m [ none ↦ (s, p) | some r ↦ buddy_merge rounds r.0 r.1 ]) e

-- Whatever the number of rounds, buddy_merge keeps the free frames.
pub buddy_merge-Rearranged :
    (rounds : ℕ) (s : Buddy) (p : ℕ)
    → IsValid s
    → (s.page_array p).is_free ≡ true
    → Rearranged s (buddy_merge rounds s p).0
buddy_merge-Rearranged zero s p valid free =
    subst (λ r. Rearranged s r.0) (sym (no_rounds s p)) (Rearranged-refl s valid)
buddy_merge-Rearranged (suc rounds) s p valid free = elim (Option-cases (merge_once s p)) [
  | inl ends ↦
      subst (λ r. Rearranged s r.0) (sym (round_ends rounds s p ends)) (Rearranged-refl s valid)
  | inr (result, e) ↦
      let merged = merge_once-Merged s p result valid free e in
      let rest =
        buddy_merge-Rearranged rounds result.0 result.1 merged.rearranged.valid merged.stays_free in
      subst (λ r. Rearranged s r.0) (sym (round_goes rounds s p result e))
        (Rearranged-trans s result.0 (buddy_merge rounds result.0 result.1).0 merged.rearranged
          rest)
]
