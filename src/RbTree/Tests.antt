-- ===== src/RbTree/Tests.antt =====
-- Runs of kernel/rbtree.c, and the theorems at them.
use aurora_os.Prelude.{ℕ, ◌*◌, ◌+◌, ◌^◌, ◌≤◌, ◌≡◌, refl, none, some, [], ◌∷◌, ◌++◌, arith, length}
use aurora_os.RbTree.{
  Item, Tree, leaf, node, red, black, Parents, from_left, plug, rb_insert, descend, fixup_loop,
  rb_find, rb_next,
}
use aurora_os.RbTree.Contents.{in_order, before, behind}
use aurora_os.RbTree.Order.{IsSorted, insert_before, first, rb_insert-in_order, rb_next-in_order}
use aurora_os.RbTree.Balance.{IsRedBlack}
use aurora_os.RbTree.Insert.{rb_insert-IsRedBlack}
use aurora_os.RbTree.Depth.{descend-IsRedBlack}
use aurora_os.RbTree.Find.{Found, rb_find-Found}
use aurora_os.RbTree.Erase.{
  rb_erase, take_out, close_gap, rb_erase_fixup, erase_round, sibling_round, case_left, case_right,
}
use aurora_os.RbTree.Erase.Whole.{rb_erase-IsRedBlack}

abbrev item : ℕ → Item
item n = record { key = n; addr = 4096 + n }

abbrev three : Tree
three = node black (node red leaf (item 1) leaf) (item 2) (node red leaf (item 3) leaf)

three-IsRedBlack : IsRedBlack three
three-IsRedBlack = record {
  root_black = refl;
  no_pair = ((refl, refl, record {}, record {}), (refl, refl, record {}, record {}));
  height = 1;
  balanced = ((refl, refl), (refl, refl));
}

three-IsSorted : IsSorted (in_order three)
unfolding in_order
three-IsSorted = ((refl, (refl, record {})), ((refl, record {}), (record {}, record {})))

inserted :
    (rb_insert three (item 4)
      ≡ node black
          (node black leaf (item 1) leaf)
          (item 2)
          (node black leaf (item 3) (node red leaf (item 4) leaf)))
    × (rb_find three 3 ≡ some (item 3))
    × (rb_find three 7 ≡ none)
unfolding rb_insert descend fixup_loop plug rb_find
inserted = (refl, refl, refl)

rb_insert-in_order_example :
    (in_order (rb_insert three (item 4)) ≡ insert_before (item 4) (in_order three))
    × IsSorted (in_order (rb_insert three (item 4)))
rb_insert-in_order_example = rb_insert-in_order three (item 4) three-IsSorted

rb_insert-IsRedBlack_example : IsRedBlack (rb_insert three (item 4))
rb_insert-IsRedBlack_example = rb_insert-IsRedBlack three (item 4) three-IsRedBlack

descend-IsRedBlack_example :
    2 ^ length (descend (item 4) three [])
    ≤ (length (in_order three) + 1) * (length (in_order three) + 1)
descend-IsRedBlack_example = descend-IsRedBlack three (item 4) three-IsRedBlack

rb_find-Found_example : Found 3 (in_order three) (rb_find three 3)
rb_find-Found_example = rb_find-Found three 3 three-IsSorted

-- The place of the node 1.
abbrev place : Parents
place = from_left black (item 2) (node red leaf (item 3) leaf) ∷ []

rb_next-in_order_example :
    (in_order (plug (node red leaf (item 1) leaf) place)
      ≡ (before place ++ in_order leaf) ++ item 1 ∷ in_order leaf ++ behind place)
    × (rb_next leaf place ≡ first (in_order leaf ++ behind place))
rb_next-in_order_example = rb_next-in_order red leaf (item 1) leaf place

abbrev four : Tree
four =
    node black (node black leaf (item 1) leaf) (item 2)
      (node black leaf (item 3) (node red leaf (item 4) leaf))

abbrev corner : Parents
corner = from_left black (item 2) (node black leaf (item 3) (node red leaf (item 4) leaf)) ∷ []

four-IsRedBlack : IsRedBlack (plug (node black leaf (item 1) leaf) corner)
unfolding plug
four-IsRedBlack = record {
  root_black = refl;
  no_pair = ((record {}, record {}), (record {}, (refl, refl, record {}, record {})));
  height = 2;
  balanced = ((refl, refl), (refl, (refl, refl)));
}

erased :
    rb_erase 3 black leaf leaf corner
    ≡ some (node black (node black leaf (item 2) leaf) (item 3) (node black leaf (item 4) leaf))
unfolding rb_erase take_out close_gap rb_erase_fixup erase_round sibling_round case_left case_right
    plug
erased = refl

rb_erase-IsRedBlack_example :
    (t : Tree) × (rb_erase 3 black leaf leaf corner ≡ some t)
    × IsRedBlack t
    × (in_order t ≡ (before corner ++ in_order leaf) ++ in_order leaf ++ behind corner)
unfolding take_out
rb_erase-IsRedBlack_example =
    rb_erase-IsRedBlack 3 black leaf (item 1) leaf corner four-IsRedBlack (omega arith)
