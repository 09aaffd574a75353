-- ===== src/RbTree.antt =====
-- kernel/rbtree.c: the red-black tree of the scheduler. A node with its parent pointers is a subtree
-- with the path from it up to the root: a frame of the path is a parent, with its other child. Rotation
-- and recolouring act on the subtree, and leave the path. A node is its key, a `uint64_t`, and its
-- address, which breaks ties.
pub mod Contents
pub mod Order
pub mod Balance
pub mod Insert
pub mod Find
pub mod Depth
pub mod Paths
pub mod Erase
pub mod Tests
use aurora_os.Prelude.{
  ℕ, zero, suc, ◌+◌, Bool, true, false, not, ◌&&◌, Option, none, some, List, [], ◌∷◌, ltb, ◌==◌,
  if◌then◌else◌,
}

pub data Color : Type 0 where
  red black : Color

pub record Item : Type 0 where
  pub key : ℕ
  pub addr : ℕ

pub data Tree : Type 0 where
  leaf : Tree
  node : Color → Tree → Item → Tree → Tree

-- A parent, seen from its left or its right child.
pub data Frame : Type 0 where
  from_left : Color → Item → Tree → Frame
  from_right : Color → Tree → Item → Frame

abbrev pub Parents : Type 0
Parents = List Frame

abbrev pub fill : Frame → Tree → Tree
fill (from_left c x r) t = node c t x r
fill (from_right c l x) t = node c l x t

-- The whole tree.
unfoldable pub plug : Tree → Parents → Tree
plug t [] = t
plug t (f ∷ path) = plug (fill f t) path

abbrev pub rb_is_red : Tree → Bool
rb_is_red (node red _ _ _) = true
rb_is_red _ = false

abbrev pub rb_set_red : Tree → Tree
rb_set_red leaf = leaf
rb_set_red (node c l x r) = node red l x r

abbrev pub rb_set_black : Tree → Tree
rb_set_black leaf = leaf
rb_set_black (node c l x r) = node black l x r

abbrev pub rb_rotate_left : Tree → Tree
rb_rotate_left (node c l x (node d m y r)) = node d (node c l x m) y r
rb_rotate_left t = t

abbrev pub rb_rotate_right : Tree → Tree
rb_rotate_right (node c (node d l x m) y r) = node d l x (node c m y r)
rb_rotate_right t = t

-- `node->key < parent->key`, with the addresses to break a tie.
abbrev pub goes_left : Item → Item → Bool
goes_left new old =
    if ltb new.key old.key
    then true
    else if ltb old.key new.key
    then false
    else ltb new.addr old.addr

-- The walk of rb_insert down to the place of the new node.
unfoldable pub descend : Item → Tree → Parents → Parents
descend item leaf path = path
descend item (node c l x r) path =
    let left = descend item l (from_left c x r ∷ path) in
    let right = descend item r (from_right c l x ∷ path) in if goes_left item x then left else right

-- Case 2 of rb_insert_fixup: the parent of `t`, rotated if `t` is its inner child.
abbrev pub outer_left : Frame → Tree → Tree
outer_left (from_left c x r) t = node c t x r
outer_left (from_right c l x) t = rb_rotate_left (node c l x t)

abbrev pub outer_right : Frame → Tree → Tree
outer_right (from_left c x r) t = rb_rotate_right (node c t x r)
outer_right (from_right c l x) t = node c l x t

-- The loop of rb_insert_fixup, which ends behind case 3, since the parent is black then.
unfoldable pub fixup_loop : Tree → Parents → Tree
fixup_loop t [] = t
fixup_loop t (from_left black x r ∷ path) = plug (node black t x r) path
fixup_loop t (from_right black l x ∷ path) = plug (node black l x t) path
fixup_loop t (f ∷ []) = fill f t
fixup_loop t (f ∷ from_left c x uncle ∷ path) =
    let recolored = fixup_loop (node red (rb_set_black (fill f t)) x (rb_set_black uncle)) path in
    let rotated = rb_rotate_right (node red (rb_set_black (outer_left f t)) x uncle) in
    if rb_is_red uncle then recolored else plug rotated path
fixup_loop t (f ∷ from_right c uncle x ∷ path) =
    let recolored = fixup_loop (node red (rb_set_black uncle) x (rb_set_black (fill f t))) path in
    let rotated = rb_rotate_left (node red uncle x (rb_set_black (outer_right f t))) in
    if rb_is_red uncle then recolored else plug rotated path

abbrev pub rb_insert_fixup : Tree → Parents → Tree
rb_insert_fixup t path = rb_set_black (fixup_loop t path)

unfoldable pub rb_insert : Tree → Item → Tree
unfolding descend fixup_loop plug
rb_insert root item = rb_insert_fixup (node red leaf item leaf) (descend item root [])

-- rb_find goes by the key alone.
unfoldable pub rb_find : Tree → ℕ → Option Item
rb_find leaf key = none
rb_find (node c l x r) key =
    let left = rb_find l key in
    let right = rb_find r key in
    if ltb key x.key then left else if ltb x.key key then right else some x

unfoldable pub rb_find_min : Tree → Option Item
rb_find_min leaf = none
rb_find_min (node c leaf x r) = some x
rb_find_min (node c (node d l y m) x r) = rb_find_min (node d l y m)

abbrev rb_init : Tree
rb_init = leaf

abbrev rb_first : Tree → Option Item
rb_first = rb_find_min

-- `while (parent && node == parent->right) ...; return parent;`
unfoldable pub climb : Parents → Option Item
climb [] = none
climb (from_left c x r ∷ path) = some x
climb (from_right c l x ∷ path) = climb path

-- rb_next, for a node with the right subtree `r` and the path `path`.
unfoldable pub rb_next : Tree → Parents → Option Item
unfolding climb rb_find_min
rb_next leaf path = climb path
rb_next (node c l x r) path = rb_find_min (node c l x r)
