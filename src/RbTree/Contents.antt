-- ===== src/RbTree/Contents.antt =====
-- The nodes of a tree of kernel/rbtree.c in order, and what insertion does to them.
use aurora_os.Prelude.{
  ◌≡◌, refl, sym, ap, ap₂, ◌∙◌, Bool, true, false, List, [], ◌∷◌, ◌++◌, append-nil, append_assoc,
  if◌then◌else◌,
}
use aurora_os.RbTree.{
  Color, red, black, Item, Tree, leaf, node, Frame, from_left, from_right, Parents, fill, plug,
  rb_set_black, rb_is_red, rb_rotate_left, rb_rotate_right, outer_left, outer_right, fixup_loop,
}

unfoldable pub in_order : Tree → List Item
in_order leaf = []
in_order (node c l x r) = in_order l ++ x ∷ in_order r

-- What stands to the left and to the right of a position.
unfoldable pub before : Parents → List Item
before [] = []
before (from_left c x r ∷ path) = before path
before (from_right c l x ∷ path) = before path ++ in_order l ++ x ∷ []

unfoldable pub behind : Parents → List Item
behind [] = []
behind (from_left c x r ∷ path) = x ∷ in_order r ++ behind path
behind (from_right c l x ∷ path) = behind path

pub plug-in_order :
    (t : Tree) (path : Parents) → in_order (plug t path) ≡ before path ++ in_order t ++ behind path
unfolding plug in_order before behind
plug-in_order t [] = sym (append-nil _)
plug-in_order t (from_left c x r ∷ path) = plug-in_order (node c t x r) path ∙ simp append_assoc
plug-in_order t (from_right c l x ∷ path) = plug-in_order (node c l x t) path ∙ simp append_assoc

pub rotate_left-in_order : (t : Tree) → in_order (rb_rotate_left t) ≡ in_order t
unfolding in_order
rotate_left-in_order leaf = refl
rotate_left-in_order (node c l x leaf) = refl
rotate_left-in_order (node c l x (node d m y r)) =
    append_assoc (in_order l) (x ∷ in_order m) (y ∷ in_order r)

pub rotate_right-in_order : (t : Tree) → in_order (rb_rotate_right t) ≡ in_order t
unfolding in_order
rotate_right-in_order leaf = refl
rotate_right-in_order (node c leaf x r) = refl
rotate_right-in_order (node c (node d l x m) y r) =
    sym (append_assoc (in_order l) (x ∷ in_order m) (y ∷ in_order r))

pub set_black-in_order : (t : Tree) → in_order (rb_set_black t) ≡ in_order t
unfolding in_order
set_black-in_order leaf = refl
set_black-in_order (node c l x r) = refl

outer_left-in_order :
    (f : Frame) (t : Tree) → in_order (rb_set_black (outer_left f t)) ≡ in_order (fill f t)
unfolding in_order
outer_left-in_order (from_left c x r) t = refl
outer_left-in_order (from_right c l x) t =
    set_black-in_order (rb_rotate_left (node c l x t)) ∙ rotate_left-in_order (node c l x t)

outer_right-in_order :
    (f : Frame) (t : Tree) → in_order (rb_set_black (outer_right f t)) ≡ in_order (fill f t)
unfolding in_order
outer_right-in_order (from_left c x r) t =
    set_black-in_order (rb_rotate_right (node c t x r)) ∙ rotate_right-in_order (node c t x r)
outer_right-in_order (from_right c l x) t = refl

pub plug-same :
    (s t : Tree) (path : Parents)
    → in_order s ≡ in_order t
    → in_order (plug s path) ≡ in_order (plug t path)
plug-same s t path e =
    plug-in_order s path ∙ ap (λ l. before path ++ l ++ behind path) e ∙ sym (plug-in_order t path)

either_way :
    (test : Bool) (s t : Tree) {items : List Item}
    → in_order s ≡ items
    → in_order t ≡ items
    → in_order (if test then s else t) ≡ items
either_way true s t p q = p
either_way false s t p q = q

-- A round with the parent on the left of the grandparent, and one with it on the right.
module _ (f : Frame) (t : Tree) (c : Color) (x : Item) (uncle : Tree) (path : Parents) where
  round_left :
      (up : Tree)
      → in_order up
        ≡ in_order (plug (node red (rb_set_black (fill f t)) x (rb_set_black uncle)) path)
      → in_order (
          if rb_is_red uncle
          then up
          else plug (rb_rotate_right (node red (rb_set_black (outer_left f t)) x uncle)) path)
        ≡ in_order (plug (node c (fill f t) x uncle) path)
  unfolding in_order
  round_left up rec =
      let recolored =
        ap₂ (λ l r. l ++ x ∷ r) (set_black-in_order (fill f t)) (set_black-in_order uncle) in
      let rotated =
        rotate_right-in_order (node red (rb_set_black (outer_left f t)) x uncle)
        ∙ ap (λ l. l ++ x ∷ in_order uncle) (outer_left-in_order f t) in
      let whole = node c (fill f t) x uncle in
      either_way (rb_is_red uncle) up _
        (rec
          ∙ plug-same (node red (rb_set_black (fill f t)) x (rb_set_black uncle)) whole path
              recolored)
        (plug-same (rb_rotate_right (node red (rb_set_black (outer_left f t)) x uncle)) whole path
          rotated)

  round_right :
      (up : Tree)
      → in_order up
        ≡ in_order (plug (node red (rb_set_black uncle) x (rb_set_black (fill f t))) path)
      → in_order (
          if rb_is_red uncle
          then up
          else plug (rb_rotate_left (node red uncle x (rb_set_black (outer_right f t)))) path)
        ≡ in_order (plug (node c uncle x (fill f t)) path)
  unfolding in_order
  round_right up rec =
      let recolored =
        ap₂ (λ l r. l ++ x ∷ r) (set_black-in_order uncle) (set_black-in_order (fill f t)) in
      let rotated =
        rotate_left-in_order (node red uncle x (rb_set_black (outer_right f t)))
        ∙ ap (λ r. in_order uncle ++ x ∷ r) (outer_right-in_order f t) in
      let whole = node c uncle x (fill f t) in
      either_way (rb_is_red uncle) up _
        (rec
          ∙ plug-same (node red (rb_set_black uncle) x (rb_set_black (fill f t))) whole path
              recolored)
        (plug-same (rb_rotate_left (node red uncle x (rb_set_black (outer_right f t)))) whole path
          rotated)

-- Recolouring and rotating leave the order of the nodes.
pub fixup_loop-in_order :
    (t : Tree) (path : Parents) → in_order (fixup_loop t path) ≡ in_order (plug t path)
unfolding fixup_loop plug
fixup_loop-in_order t [] = refl
fixup_loop-in_order t (from_left black x r ∷ path) = refl
fixup_loop-in_order t (from_right black l x ∷ path) = refl
fixup_loop-in_order t (from_left red x r ∷ []) = refl
fixup_loop-in_order t (from_right red l x ∷ []) = refl
fixup_loop-in_order t (from_left red x r ∷ from_left c y uncle ∷ path) =
    round_left (from_left red x r) t c y uncle path _ (fixup_loop-in_order _ path)
fixup_loop-in_order t (from_right red l x ∷ from_left c y uncle ∷ path) =
    round_left (from_right red l x) t c y uncle path _ (fixup_loop-in_order _ path)
fixup_loop-in_order t (from_left red x r ∷ from_right c uncle y ∷ path) =
    round_right (from_left red x r) t c y uncle path _ (fixup_loop-in_order _ path)
fixup_loop-in_order t (from_right red l x ∷ from_right c uncle y ∷ path) =
    round_right (from_right red l x) t c y uncle path _ (fixup_loop-in_order _ path)
