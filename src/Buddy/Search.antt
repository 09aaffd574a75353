-- ===== src/Buddy/Search.antt =====
-- The search of alloc_pages in kernel/mem.c for the smallest order with a free block.
use aurora_os.Prelude.{
  ℕ, zero, suc, ◌+◌, ◌≤◌, ◌<◌, ◌≡◌, refl, sym, ap, ◌∙◌, List, [], ◌∷◌, ◌==◌, Bool-cases, inl, inr,
  arith, ==→eq, none, some,
}
use aurora_os.Buddy.{find_order}

-- An order from `order` on, below `order + more`, whose list has a block.
pub record Available (area : ℕ → List ℕ) (order more current : ℕ) : Type 0 where
  pub low : order ≤ current
  pub high : current < order + more
  pub first : ℕ
  pub rest : List ℕ
  pub list : area current ≡ first ∷ rest

pub find_order-Available :
    (more : ℕ) (area : ℕ → List ℕ) (order current : ℕ)
    → find_order more area order ≡ some current
    → Available area order more current
unfolding find_order
find_order-Available zero area order current e = absurd (cc)
find_order-Available (suc more) area order current e =
    here (area order) refl e (find_order-Available more area (suc order) current)
  where
    here :
        (xs : List ℕ)
        → area order ≡ xs
        → (elim xs [ [] ↦ find_order more area (suc order) | _ ∷ _ ↦ some order ] ≡ some current)
        → (find_order more area (suc order) ≡ some current
            → Available area (suc order) more current)
        → Available area order (suc more) current
    here [] empty f rec =
        let later = rec f in
        record {
          low = omega (arith, later.low);
          high = omega (arith, later.high);
          first = later.first;
          rest = later.rest;
          list = later.list;
        }
    here (p ∷ rest) block f rec =
        let same : order ≡ current = cc in
        record {
          low = omega arith;
          high = omega arith;
          first = p;
          rest = rest;
          list = ap area (sym same) ∙ block;
        }

pub find_order-none :
    (more : ℕ) (area : ℕ → List ℕ) (order i : ℕ)
    → find_order more area order ≡ none
    → order ≤ i
    → i < order + more
    → area i ≡ []
unfolding find_order
find_order-none zero area order i e low high = absurd (omega arith)
find_order-none (suc more) area order i e low high =
    here (area order) refl e (find_order-none more area (suc order) i)
  where
    here :
        (xs : List ℕ)
        → area order ≡ xs
        → (elim xs [ [] ↦ find_order more area (suc order) | _ ∷ _ ↦ some order ] ≡ none)
        → (find_order more area (suc order) ≡ none
            → suc order ≤ i
            → i < suc order + more
            → area i ≡ [])
        → area i ≡ []
    here [] empty f rec = elim (Bool-cases (i == order)) [
      | inl same ↦ ap area (==→eq i order same) ∙ empty
      | inr other ↦ rec f (ground arith) (omega arith)
    ]
    here (p ∷ rest) block f rec = absurd (cc)
