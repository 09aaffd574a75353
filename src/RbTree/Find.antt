-- ===== src/RbTree/Find.antt =====
-- rb_find of kernel/rbtree.c against the list of the nodes of the tree.
use aurora_os.Prelude.{
  ℕ, ◌≡◌, refl, sym, ap, ◌∙◌, true, false, Option, none, some, List, [], ◌∷◌, ◌++◌, arith,
  append_assoc, ltb, ◌==◌, Bool-cases, inl, inr,
}
use aurora_os.RbTree.{Item, Tree, leaf, node, goes_left, rb_find}
use aurora_os.RbTree.Contents.{in_order}
use aurora_os.RbTree.Order.{Behind, Ahead, IsSorted, IsSorted-split}

-- No node of the list has the key.
abbrev pub Missing : ℕ → List Item → Type 0
Missing key [] = Unit
Missing key (x ∷ xs) = ((x.key == key) ≡ false) × Missing key xs

-- What a search for the key in the list may answer.
abbrev pub Found : ℕ → List Item → Option Item → Type 0
Found key items none = Missing key items
Found key items (some x) =
    (x.key ≡ key) × (xs : List Item) × (ys : List Item) × (items ≡ xs ++ x ∷ ys)

IsSorted-Ahead : (xs : List Item) (x : Item) (ys : List Item) → IsSorted (xs ++ x ∷ ys) → Ahead x ys
IsSorted-Ahead [] x ys h = h.0
IsSorted-Ahead (y ∷ xs) x ys h = IsSorted-Ahead xs x ys h.1

Missing-append :
    (key : ℕ) (xs ys : List Item) → Missing key xs → Missing key ys → Missing key (xs ++ ys)
Missing-append key [] ys h k = k
Missing-append key (x ∷ xs) ys h k = (h.0, Missing-append key xs ys h.1 k)

above :
    (key : ℕ) (x y : Item) → ltb key x.key ≡ true → goes_left y x ≡ false → (y.key == key) ≡ false
above key x y h e = ground arith

below :
    (key : ℕ) (x y : Item) → ltb x.key key ≡ true → goes_left x y ≡ false → (y.key == key) ≡ false
below key x y h e = ground arith

Ahead-Missing :
    (key : ℕ) (x : Item) (ys : List Item) → ltb key x.key ≡ true → Ahead x ys → Missing key ys
Ahead-Missing key x [] h a = record {}
Ahead-Missing key x (y ∷ ys) h a = (above key x y h a.0, Ahead-Missing key x ys h a.1)

Behind-Missing :
    (key : ℕ) (x : Item) (ys : List Item) → ltb x.key key ≡ true → Behind x ys → Missing key ys
Behind-Missing key x [] h b = record {}
Behind-Missing key x (y ∷ ys) h b = (below key x y h b.0, Behind-Missing key x ys h b.1)

Found-append :
    (key : ℕ) (found : Option Item) (xs : List Item) (x : Item) (ys : List Item)
    → ltb key x.key ≡ true
    → Ahead x ys
    → Found key xs found
    → Found key (xs ++ x ∷ ys) found
Found-append key none xs x ys h a missing =
    Missing-append key xs (x ∷ ys) missing (above_self, Ahead-Missing key x ys h a)
  where
    above_self : (x.key == key) ≡ false
    above_self = ground arith
Found-append key (some z) xs x ys h a (same, us, vs, split) =
    (same, us, vs ++ x ∷ ys, ap (λ l. l ++ x ∷ ys) split ∙ append_assoc us (z ∷ vs) (x ∷ ys))

append-Found :
    (key : ℕ) (found : Option Item) (xs : List Item) (x : Item) (ys : List Item)
    → ltb x.key key ≡ true
    → Behind x xs
    → Found key ys found
    → Found key (xs ++ x ∷ ys) found
append-Found key none xs x ys h b missing =
    Missing-append key xs (x ∷ ys) (Behind-Missing key x xs h b) (below_self, missing)
  where
    below_self : (x.key == key) ≡ false
    below_self = ground arith
append-Found key (some z) xs x ys h b (same, us, vs, split) =
    (same, xs ++ x ∷ us, vs, ap (λ l. xs ++ x ∷ l) split ∙ sym (append_assoc xs (x ∷ us) (z ∷ vs)))

same_key : (a b : ℕ) → ltb a b ≡ false → ltb b a ≡ false → b ≡ a
same_key a b h k = ground arith

-- In a tree whose nodes are in order, rb_find gives a node of the tree with the key, and gives none only
-- when no node has it.
pub rb_find-Found :
    (t : Tree) (key : ℕ) → IsSorted (in_order t) → Found key (in_order t) (rb_find t key)
unfolding in_order rb_find
rb_find-Found leaf key sorted = record {}
rb_find-Found (node c l x r) key sorted =
    let (front, sorted_l, sorted_r) = IsSorted-split (in_order l) x (in_order r) sorted in
    elim (Bool-cases (ltb key x.key)) [
      | inl less ↦ rw less (
          Found-append key (rb_find l key) (in_order l) x (in_order r) less
            (IsSorted-Ahead (in_order l) x (in_order r) sorted) (rb_find-Found l key sorted_l))
      | inr not_less ↦ elim (Bool-cases (ltb x.key key)) [
        | inl more ↦
            rw (not_less, more)
              (append-Found key (rb_find r key) (in_order l) x (in_order r) more front
                (rb_find-Found r key sorted_r))
        | inr not_more ↦
            rw (not_less, not_more)
              (same_key key x.key not_less not_more, in_order l, in_order r, refl)
      ]
    ]
