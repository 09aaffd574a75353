-- ===== src/RbTree/Erase.antt =====
-- rb_erase of kernel/rbtree.c, for a node that is given by its place in the tree: its colour, its two
-- subtrees and the path to the root. `x` is the subtree where a black node is missing.
pub mod Contents
pub mod Balance
pub mod Repair
pub mod Whole
use aurora_os.Prelude.{
  ℕ, zero, suc, Bool, true, false, not, ◌&&◌, Option, none, some, List, [], ◌∷◌, ◌++◌,
  if◌then◌else◌,
}
use aurora_os.RbTree.{
  Color, red, black, Item, Tree, leaf, node, Frame, from_left, from_right, Parents, plug, rb_is_red,
  rb_set_red, rb_set_black, rb_rotate_left, rb_rotate_right,
}

-- What a round of rb_erase_fixup leaves: the next `x` with its path, or the tree after the loop.
pub data Round : Type 0 where
  again : Tree → Parents → Round
  done : Tree → Round

-- Case 3 for a left child: the sibling, rotated if its right child is black.
abbrev pub outer_right : Tree → Tree
outer_right leaf = leaf
outer_right (node c l y r) =
    if rb_is_red r then node c l y r else rb_rotate_right (node red (rb_set_black l) y r)

abbrev pub outer_left : Tree → Tree
outer_left leaf = leaf
outer_left (node c l y r) =
    if rb_is_red l then node c l y r else rb_rotate_left (node red l y (rb_set_black r))

-- Case 4: the sibling takes the colour of the parent, which is black then as the outer child is.
abbrev pub lift_left : Color → Tree → Item → Tree → Tree
lift_left c x p leaf = node c x p leaf
lift_left c x p (node d l y r) = rb_rotate_left (node black x p (node c l y (rb_set_black r)))

abbrev pub lift_right : Color → Tree → Item → Tree → Tree
lift_right c leaf p x = node c leaf p x
lift_right c (node d l y r) p x = rb_rotate_right (node black (node c (rb_set_black l) y r) p x)

-- Cases 2 to 4, with the sibling `w` on the right. The loop ends at a sibling that is missing.
unfoldable pub case_left : Color → Tree → Item → Tree → Parents → Round
case_left c x p leaf path = done (plug x (from_left c p leaf ∷ path))
case_left c x p (node d l y r) path =
    if not (rb_is_red l) && not (rb_is_red r)
    then again (node c x p (node red l y r)) path
    else done (rb_set_black (plug (lift_left c x p (outer_right (node d l y r))) path))

unfoldable pub case_right : Color → Tree → Item → Tree → Parents → Round
case_right c leaf p x path = done (plug x (from_right c leaf p ∷ path))
case_right c (node d l y r) p x path =
    if not (rb_is_red l) && not (rb_is_red r)
    then again (node c (node red l y r) p x) path
    else done (rb_set_black (plug (lift_right c (outer_left (node d l y r)) p x) path))

-- Case 1, a red sibling, comes before them: the parent is rotated, and is red.
unfoldable pub sibling_round : Tree → Frame → Parents → Round
unfolding case_left case_right
sibling_round x (from_left c p (node red l y r)) path =
    case_left red x p l (from_left black y r ∷ path)
sibling_round x (from_left c p w) path = case_left c x p w path
sibling_round x (from_right c (node red l y r) p) path =
    case_right red r p x (from_right black l y ∷ path)
sibling_round x (from_right c w p) path = case_right c w p x path

unfoldable pub erase_round : Tree → Parents → Round
unfolding sibling_round
erase_round x [] = done (rb_set_black x)
erase_round x (f ∷ path) =
    if rb_is_red x then done (plug (rb_set_black x) (f ∷ path)) else sibling_round x f path

-- The loop, for up to `fuel` rounds; `none` says that it has not ended.
unfoldable pub rb_erase_fixup : ℕ → Tree → Parents → Option Tree
unfolding erase_round
rb_erase_fixup zero x path = none
rb_erase_fixup (suc fuel) x path = elim (erase_round x path) [
  | done t ↦ some t
  | again y rest ↦ rb_erase_fixup fuel y rest
]

-- `while (y->left) y = y->left;`, below the node with the fields given: the colour and the contents of
-- the node `y`, its right subtree, and the path to it.
unfoldable pub find_least : Color → Tree → Item → Tree → Parents → Color × Item × Tree × Parents
find_least c leaf y r path = (c, y, r, path)
find_least c (node d l x m) y r path = find_least d l x m (from_left c y r ∷ path)

-- The black node that is missing, if one is, stood above the subtree with the path.
pub record Gap : Type 0 where
  pub color : Color
  pub x : Tree
  pub path : Parents

-- `z` is taken out, and its successor put into its place if it has two children.
unfoldable pub take_out : Color → Tree → Tree → Parents → Gap
unfolding find_least
take_out c leaf r path = record { color = c; x = r; path = path }
take_out c (node d ll ly lr) leaf path = record { color = c; x = node d ll ly lr; path = path }
take_out c (node d ll ly lr) (node e rl ry rr) path =
    let (color, y, x, inner) = find_least e rl ry rr [] in
    record { color = color; x = x; path = inner ++ from_right c (node d ll ly lr) y ∷ path }

unfoldable pub close_gap : ℕ → Gap → Option Tree
unfolding rb_erase_fixup plug
close_gap fuel gap = elim gap.color [
  | red ↦ some (plug gap.x gap.path)
  | black ↦ rb_erase_fixup fuel gap.x gap.path
]

unfoldable pub rb_erase : ℕ → Color → Tree → Tree → Parents → Option Tree
unfolding take_out close_gap
rb_erase fuel c l r path = close_gap fuel (take_out c l r path)
