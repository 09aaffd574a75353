-- ===== src/RbTree/Erase/Contents.antt =====
-- What rb_erase of kernel/rbtree.c leaves of the nodes of a tree.
use aurora_os.Prelude.{
  ℕ, zero, suc, ◌≡◌, refl, sym, ap, ap₂, ◌∙◌, not, ◌&&◌, some, List, [], ◌∷◌, ◌++◌, append-nil,
  append_assoc, Bool-cases, inl, inr, answers_agree,
}
use aurora_os.RbTree.{
  Color, red, black, Item, Tree, leaf, node, Frame, from_left, from_right, Parents, plug, fill,
  rb_is_red, rb_set_black,
}
use aurora_os.RbTree.Contents.{
  in_order, before, behind, plug-in_order, plug-same, rotate_left-in_order, rotate_right-in_order,
  set_black-in_order,
}
use aurora_os.RbTree.Erase.{
  Round, again, done, outer_left, outer_right, lift_left, lift_right, case_left, case_right,
  sibling_round, erase_round, rb_erase_fixup, find_least, take_out, close_gap, rb_erase,
}

-- The nodes that a round leaves, in order.
abbrev items_of : Round → List Item
items_of (again t path) = in_order (plug t path)
items_of (done t) = in_order t

outer_right-in_order : (w : Tree) → in_order (outer_right w) ≡ in_order w
unfolding in_order
outer_right-in_order leaf = refl
outer_right-in_order (node c l y r) = elim (Bool-cases (rb_is_red r)) [
  | inl h ↦ rw h refl
  | inr h ↦ rw h (
      rotate_right-in_order (node red (rb_set_black l) y r)
      ∙ ap (λ i. i ++ y ∷ in_order r) (set_black-in_order l))
]

outer_left-in_order : (w : Tree) → in_order (outer_left w) ≡ in_order w
unfolding in_order
outer_left-in_order leaf = refl
outer_left-in_order (node c l y r) = elim (Bool-cases (rb_is_red l)) [
  | inl h ↦ rw h refl
  | inr h ↦ rw h (
      rotate_left-in_order (node red l y (rb_set_black r))
      ∙ ap (λ i. in_order l ++ y ∷ i) (set_black-in_order r))
]

lift_left-in_order :
    (c : Color) (x : Tree) (p : Item) (w : Tree)
    → in_order (lift_left c x p w) ≡ in_order (node c x p w)
unfolding in_order
lift_left-in_order c x p leaf = refl
lift_left-in_order c x p (node d l y r) =
    rotate_left-in_order (node black x p (node c l y (rb_set_black r)))
    ∙ ap (λ i. in_order x ++ (p ∷ (in_order l ++ (y ∷ i)))) (set_black-in_order r)

lift_right-in_order :
    (c : Color) (w : Tree) (p : Item) (x : Tree)
    → in_order (lift_right c w p x) ≡ in_order (node c w p x)
unfolding in_order
lift_right-in_order c leaf p x = refl
lift_right-in_order c (node d l y r) p x =
    rotate_right-in_order (node black (node c (rb_set_black l) y r) p x)
    ∙ ap (λ i. (i ++ y ∷ in_order r) ++ p ∷ in_order x) (set_black-in_order l)

case_left-in_order :
    (c : Color) (x : Tree) (p : Item) (w : Tree) (path : Parents)
    → items_of (case_left c x p w path) ≡ in_order (plug (node c x p w) path)
unfolding case_left plug in_order
case_left-in_order c x p leaf path = refl
case_left-in_order c x p (node d l y r) path =
    elim (Bool-cases (not (rb_is_red l) && not (rb_is_red r))) [
      | inl both ↦
          rw (both, case_left)
            (plug-same (node c x p (node red l y r)) (node c x p (node d l y r)) path refl)
      | inr one ↦
          let lifted = lift_left c x p (outer_right (node d l y r)) in
          let same =
            lift_left-in_order c x p (outer_right (node d l y r))
            ∙ ap (λ i. in_order x ++ p ∷ i) (outer_right-in_order (node d l y r)) in
          rw (one, case_left)
            (set_black-in_order (plug lifted path)
              ∙ plug-same lifted (node c x p (node d l y r)) path same)
    ]

case_right-in_order :
    (c : Color) (w : Tree) (p : Item) (x : Tree) (path : Parents)
    → items_of (case_right c w p x path) ≡ in_order (plug (node c w p x) path)
unfolding case_right plug in_order
case_right-in_order c leaf p x path = refl
case_right-in_order c (node d l y r) p x path =
    elim (Bool-cases (not (rb_is_red l) && not (rb_is_red r))) [
      | inl both ↦
          rw (both, case_right)
            (plug-same (node c (node red l y r) p x) (node c (node d l y r) p x) path refl)
      | inr one ↦
          let lifted = lift_right c (outer_left (node d l y r)) p x in
          let same =
            lift_right-in_order c (outer_left (node d l y r)) p x
            ∙ ap (λ i. i ++ p ∷ in_order x) (outer_left-in_order (node d l y r)) in
          rw (one, case_right)
            (set_black-in_order (plug lifted path)
              ∙ plug-same lifted (node c (node d l y r) p x) path same)
    ]

sibling_round-in_order :
    (x : Tree) (f : Frame) (path : Parents)
    → items_of (sibling_round x f path) ≡ in_order (plug (fill f x) path)
unfolding sibling_round plug in_order
sibling_round-in_order x (from_left c p leaf) path = case_left-in_order c x p leaf path
sibling_round-in_order x (from_left c p (node black l y r)) path =
    case_left-in_order c x p (node black l y r) path
sibling_round-in_order x (from_left c p (node red l y r)) path =
    case_left-in_order red x p l (from_left black y r ∷ path)
    ∙ plug-same (node black (node red x p l) y r) (node c x p (node red l y r)) path
        (rotate_left-in_order (node red x p (node black l y r)))
sibling_round-in_order x (from_right c leaf p) path = case_right-in_order c leaf p x path
sibling_round-in_order x (from_right c (node black l y r) p) path =
    case_right-in_order c (node black l y r) p x path
sibling_round-in_order x (from_right c (node red l y r) p) path =
    case_right-in_order red r p x (from_right black l y ∷ path)
    ∙ plug-same (node black l y (node red r p x)) (node c (node red l y r) p x) path
        (rotate_right-in_order (node red (node black l y r) p x))

erase_round-in_order :
    (x : Tree) (path : Parents) → items_of (erase_round x path) ≡ in_order (plug x path)
unfolding erase_round plug
erase_round-in_order x [] = set_black-in_order x
erase_round-in_order x (f ∷ path) = elim (Bool-cases (rb_is_red x)) [
  | inl h ↦ rw (h, erase_round) (plug-same (rb_set_black x) x (f ∷ path) (set_black-in_order x))
  | inr h ↦ rw (h, erase_round) (sibling_round-in_order x f path)
]

after_round :
    (fuel : ℕ) (r : Round) (t : Tree) {items : List Item}
    → ((y : Tree) (rest : Parents)
        → rb_erase_fixup fuel y rest ≡ some t
        → in_order t ≡ in_order (plug y rest))
    → items_of r ≡ items
    → elim r [ done s ↦ some s | again y rest ↦ rb_erase_fixup fuel y rest ] ≡ some t
    → in_order t ≡ items
after_round fuel (done s) t rec same found = ap in_order (answers_agree found refl) ∙ same
after_round fuel (again y rest) t rec same found = rec y rest found ∙ same

rb_erase_fixup-in_order :
    (fuel : ℕ) (x : Tree) (path : Parents) (t : Tree)
    → rb_erase_fixup fuel x path ≡ some t
    → in_order t ≡ in_order (plug x path)
unfolding rb_erase_fixup
rb_erase_fixup-in_order zero x path t e = cc
rb_erase_fixup-in_order (suc fuel) x path t e =
    after_round fuel (erase_round x path) t
      (λ y rest found. rb_erase_fixup-in_order fuel y rest t found) (erase_round-in_order x path) e

before-append : (p q : Parents) → before (p ++ q) ≡ before q ++ before p
unfolding before
before-append [] q = sym (append-nil _)
before-append (from_left c x r ∷ p) q = before-append p q
before-append (from_right c l x ∷ p) q = rw (before-append p q) (simp append_assoc)

behind-append : (p q : Parents) → behind (p ++ q) ≡ behind p ++ behind q
unfolding behind
behind-append [] q = refl
behind-append (from_left c x r ∷ p) q = rw (behind-append p q) (simp append_assoc)
behind-append (from_right c l x ∷ p) q = behind-append p q

-- The least node of a subtree is taken out in front.
find_least-in_order :
    (c : Color) (l : Tree) (y : Item) (r : Tree) (path : Parents)
    → before path ≡ []
    → (before (find_least c l y r path).3 ≡ [])
      × ((find_least c l y r path).1 ∷ in_order (find_least c l y r path).2
            ++ behind (find_least c l y r path).3
          ≡ in_order (node c l y r) ++ behind path)
unfolding find_least before behind in_order
find_least-in_order c leaf y r path e = (e, refl)
find_least-in_order c (node d l x m) y r path e =
    let (front, list) = find_least-in_order d l x m (from_left c y r ∷ path) e in
    (front, list ∙ simp append_assoc)

take_out-in_order :
    (c : Color) (l r : Tree) (path : Parents)
    → in_order (plug (take_out c l r path).x (take_out c l r path).path)
      ≡ (before path ++ in_order l) ++ in_order r ++ behind path
unfolding take_out before behind in_order
take_out-in_order c leaf r path = plug-in_order r path ∙ simp append_assoc
take_out-in_order c (node d a y b) leaf path = plug-in_order (node d a y b) path ∙ simp append_assoc
take_out-in_order c (node d ll ly lr) (node e rl ry rr) path =
    let l = node d ll ly lr in
    let (color, y, x, inner) = find_least e rl ry rr [] in
    let (front, list) = find_least-in_order e rl ry rr [] refl in
    let outer = from_right c l y ∷ path in
    let start = before path ++ in_order l in
    let joined : before outer ++ before inner ++ in_order x ++ (behind inner ++ behind outer)
        ≡ start ++ (((y ∷ in_order x) ++ behind inner) ++ behind path) =
      rw front (simp (append_assoc, append-nil)) in
    let ended : start ++ (in_order (node e rl ry rr) ++ behind path)
        ≡ (before path ++ in_order l) ++ in_order (node e rl ry rr) ++ behind path =
      simp append_assoc in
    plug-in_order x (inner ++ outer)
    ∙ ap₂ (λ a b. a ++ in_order x ++ b) (before-append inner outer) (behind-append inner outer)
    ∙ joined
    ∙ ap (λ m. start ++ (m ++ behind path)) (list ∙ append-nil _)
    ∙ ended

-- The node that is erased, and no other, leaves the list of the nodes of the tree, whose order stays.
pub rb_erase-in_order :
    (fuel : ℕ) (c : Color) (l r : Tree) (path : Parents) (t : Tree)
    → rb_erase fuel c l r path ≡ some t
    → in_order t ≡ (before path ++ in_order l) ++ in_order r ++ behind path
unfolding rb_erase close_gap
rb_erase-in_order fuel c l r path t e =
    let gap = take_out c l r path in
    closed gap.color gap.x gap.path e ∙ take_out-in_order c l r path
  where
    closed :
        (color : Color) (x : Tree) (place : Parents)
        → close_gap fuel (record { color = color; x = x; path = place }) ≡ some t
        → in_order t ≡ in_order (plug x place)
    closed black x place found = rb_erase_fixup-in_order fuel x place t found
    closed red x place found = ap in_order (answers_agree found refl)
