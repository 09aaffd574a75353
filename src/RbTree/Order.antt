-- ===== src/RbTree/Order.antt =====
-- Insertion into a tree of kernel/rbtree.c is insertion into the list of its nodes; the walks of
-- rb_find_min and rb_next go along that list.
use aurora_os.Prelude.{
  ◌≡◌, ◌≢◌, refl, ap, ◌∙◌, true, false, Option, none, some, List, [], ◌∷◌, ◌++◌, arith, append-nil,
  append_assoc, if◌then◌else◌, Bool-cases, inl, inr,
}
use aurora_os.RbTree.{
  Color, red, Item, Tree, leaf, node, from_left, from_right, Parents, plug, goes_left, descend,
  fixup_loop, rb_insert, rb_find_min, climb, rb_next,
}
use aurora_os.RbTree.Contents.{
  in_order, before, behind, plug-in_order, fixup_loop-in_order, set_black-in_order,
}

-- `item` goes behind each of `items`.
abbrev pub Behind : Item → List Item → Type 0
Behind item [] = Unit
Behind item (x ∷ xs) = (goes_left item x ≡ false) × Behind item xs

-- None of `items` goes before `item`.
abbrev pub Ahead : Item → List Item → Type 0
Ahead item [] = Unit
Ahead item (x ∷ xs) = (goes_left x item ≡ false) × Ahead item xs

abbrev pub IsSorted : List Item → Type 0
IsSorted [] = Unit
IsSorted (x ∷ xs) = Ahead x xs × IsSorted xs

-- A list with one more node, behind all that it does not go before.
unfoldable pub insert_before : Item → List Item → List Item
insert_before item [] = item ∷ []
insert_before item (x ∷ xs) =
    let later = insert_before item xs in if goes_left item x then item ∷ x ∷ xs else x ∷ later

goes_left_trans :
    (a b c : Item) → goes_left a b ≡ false → goes_left b c ≡ false → goes_left a c ≡ false
goes_left_trans a b c p q = ground arith

goes_left_asym : (a b : Item) → goes_left a b ≡ true → goes_left b a ≡ false
goes_left_asym a b p = ground arith

Ahead-split :
    (y : Item) (xs : List Item) (x : Item) (ys : List Item)
    → Ahead y (xs ++ x ∷ ys)
    → Ahead y xs × (goes_left x y ≡ false)
Ahead-split y [] x ys h = (record {}, h.0)
Ahead-split y (z ∷ xs) x ys h =
    let (ahead, last) = Ahead-split y xs x ys h.1 in ((h.0, ahead), last)

pub IsSorted-split :
    (xs : List Item) (x : Item) (ys : List Item)
    → IsSorted (xs ++ x ∷ ys)
    → Behind x xs × IsSorted xs × IsSorted ys
IsSorted-split [] x ys h = (record {}, record {}, h.1)
IsSorted-split (y ∷ xs) x ys h =
    let (ahead, last) = Ahead-split y xs x ys h.0 in
    let (behind_rest, front, rest) = IsSorted-split xs x ys h.1 in
    ((last, behind_rest), (ahead, front), rest)

insert_before-left :
    (item x : Item) (xs ys : List Item)
    → goes_left item x ≡ true
    → insert_before item (xs ++ x ∷ ys) ≡ insert_before item xs ++ x ∷ ys
unfolding insert_before
insert_before-left item x [] ys h = rw (h, insert_before) refl
insert_before-left item x (y ∷ xs) ys h = elim (Bool-cases (goes_left item y)) [
  | inl here ↦ rw (here, insert_before) refl
  | inr later ↦ rw (later, insert_before) (ap (λ l. y ∷ l) (insert_before-left item x xs ys h))
]

insert_before-right :
    (item x : Item) (xs ys : List Item)
    → Behind item xs
    → goes_left item x ≡ false
    → insert_before item (xs ++ x ∷ ys) ≡ xs ++ x ∷ insert_before item ys
unfolding insert_before
insert_before-right item x [] ys b h = rw (h, insert_before) refl
insert_before-right item x (y ∷ xs) ys b h =
    rw (b.0, insert_before) (ap (λ l. y ∷ l) (insert_before-right item x xs ys b.1 h))

Behind-trans :
    (item x : Item) (xs : List Item) → goes_left item x ≡ false → Behind x xs → Behind item xs
Behind-trans item x [] h b = b
Behind-trans item x (y ∷ xs) h b = (goes_left_trans item x y h b.0, Behind-trans item x xs h b.1)

Ahead-trans :
    (item x : Item) (xs : List Item) → goes_left x item ≡ false → Ahead x xs → Ahead item xs
Ahead-trans item x [] h a = a
Ahead-trans item x (y ∷ xs) h a = (goes_left_trans y x item a.0 h, Ahead-trans item x xs h a.1)

insert_before-Ahead :
    (y item : Item) (xs : List Item)
    → goes_left item y ≡ false
    → Ahead y xs
    → Ahead y (insert_before item xs)
unfolding insert_before
insert_before-Ahead y item [] h a = (h, a)
insert_before-Ahead y item (x ∷ xs) h a = elim (Bool-cases (goes_left item x)) [
  | inl here ↦ rw (here, insert_before) (h, a)
  | inr later ↦ rw (later, insert_before) (a.0, insert_before-Ahead y item xs h a.1)
]

pub insert_before-IsSorted :
    (item : Item) (xs : List Item) → IsSorted xs → IsSorted (insert_before item xs)
unfolding insert_before
insert_before-IsSorted item [] h = (record {}, h)
insert_before-IsSorted item (x ∷ xs) h = elim (Bool-cases (goes_left item x)) [
  | inl here ↦
      let back = goes_left_asym item x here in
      rw (here, insert_before) ((back, Ahead-trans item x xs back h.0), h)
  | inr later ↦
      rw (later, insert_before)
        (insert_before-Ahead x item xs later h.0, insert_before-IsSorted item xs h.1)
]

-- The walk down ends where the node belongs.
descend-place :
    (item : Item) (t : Tree) (path : Parents)
    → IsSorted (in_order t)
    → before (descend item t path) ++ item ∷ behind (descend item t path)
      ≡ before path ++ insert_before item (in_order t) ++ behind path
unfolding in_order before behind descend insert_before
descend-place item leaf path sorted = simp append_assoc
descend-place item (node c l x r) path sorted =
    let (below, left, right) = IsSorted-split (in_order l) x (in_order r) sorted in
    elim (Bool-cases (goes_left item x)) [
      | inl less ↦
          rw (less, descend)
            (descend-place item l (from_left c x r ∷ path) left
              ∙ rw (insert_before-left item x (in_order l) (in_order r) less) (simp append_assoc))
      | inr more ↦
          let all = Behind-trans item x (in_order l) more below in
          rw (more, descend)
            (descend-place item r (from_right c l x ∷ path) right
              ∙ rw (insert_before-right item x (in_order l) (in_order r) all more)
                  (simp append_assoc))
    ]

-- Inserting into a tree that is in order, by the key and then the address, puts the node into the list
-- of its nodes behind all that it does not go before, and keeps that list in order.
pub rb_insert-in_order :
    (root : Tree) (item : Item)
    → IsSorted (in_order root)
    → (in_order (rb_insert root item) ≡ insert_before item (in_order root))
      × IsSorted (in_order (rb_insert root item))
unfolding rb_insert in_order before behind
rb_insert-in_order root item sorted =
    let path = descend item root [] in
    let start = node red leaf item leaf in
    let placed : before path ++ in_order start ++ behind path ≡ before path ++ item ∷ behind path =
      simp append_assoc in
    let list : in_order (rb_insert root item) ≡ insert_before item (in_order root) =
      set_black-in_order (fixup_loop start path)
      ∙ fixup_loop-in_order start path
      ∙ plug-in_order start path
      ∙ placed
      ∙ descend-place item root [] sorted
      ∙ append-nil _ in
    (list, rw list (insert_before-IsSorted item (in_order root) sorted))

unfoldable pub first : List Item → Option Item
first [] = none
first (x ∷ xs) = some x

rb_find_min-first :
    (t : Tree) (rest : List Item) → t ≢ leaf → rb_find_min t ≡ first (in_order t ++ rest)
unfolding rb_find_min first in_order
rb_find_min-first leaf rest h = absurd (h refl)
rb_find_min-first (node c leaf x r) rest h = refl
rb_find_min-first (node c (node d l y m) x r) rest h =
    rb_find_min-first (node d l y m) (x ∷ in_order r ++ rest) (λ e. cc) ∙ simp append_assoc

climb-first : (path : Parents) → climb path ≡ first (behind path)
unfolding climb first behind
climb-first [] = refl
climb-first (from_left c x r ∷ path) = refl
climb-first (from_right c l x ∷ path) = climb-first path

-- In the list of all nodes of a tree, rb_next of a node, wherever it stands, is the node that comes next,
-- and there is none for the last.
pub rb_next-in_order :
    (c : Color) (l : Tree) (x : Item) (r : Tree) (path : Parents)
    → (in_order (plug (node c l x r) path)
        ≡ (before path ++ in_order l) ++ x ∷ in_order r ++ behind path)
      × (rb_next r path ≡ first (in_order r ++ behind path))
unfolding in_order rb_next
rb_next-in_order c l x r path = (plug-in_order (node c l x r) path ∙ simp append_assoc, next r)
  where
    next : (s : Tree) → rb_next s path ≡ first (in_order s ++ behind path)
    next leaf = climb-first path
    next (node d m y n) = rb_find_min-first (node d m y n) (behind path) (λ e. cc)
