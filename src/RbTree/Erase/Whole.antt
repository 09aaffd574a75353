-- ===== src/RbTree/Erase/Whole.antt =====
-- rb_erase of kernel/rbtree.c as a whole, on a red-black tree.
use mathlib.Core.Path.{subst}
use aurora_os.Prelude.{
  ℕ, zero, suc, ◌+◌, ◌≤◌, ◌≡◌, refl, sym, ap, ◌∙◌, true, false, some, [], ◌∷◌, ◌++◌, arith,
  if◌then◌else◌, length,
}
use aurora_os.RbTree.{
  Color, red, black, Item, Tree, leaf, node, from_left, from_right, Parents, plug, fill, rb_is_red,
}
use aurora_os.RbTree.Contents.{in_order, before, behind}
use aurora_os.RbTree.Balance.{
  Balanced, NoRedPair, IsRedBlack, BalancedPath, ends_black, NoRedPairPath, set_black-NoRedPair,
}
use aurora_os.RbTree.Paths.{stands, assemble, top_black, plug-black, plug-red, black_height}
use aurora_os.RbTree.Erase.{find_least, take_out, close_gap, rb_erase}
use aurora_os.RbTree.Erase.Balance.{rounds}
use aurora_os.RbTree.Erase.Repair.{rb_erase_fixup-IsRedBlack}
use aurora_os.RbTree.Erase.Contents.{rb_erase-in_order}

rounds-le : (x : Tree) (path : Parents) → rounds x path ≤ length path + 2
rounds-le leaf path = omega arith
rounds-le (node red l x r) path = omega arith
rounds-le (node black l x r) path = omega arith

abbrev any_item : Item
any_item = record { key = 0; addr = 0 }

-- A tree that is the only child of a node takes its place.
only_child :
    (c : Color) (x : Tree) (path : Parents) (n m fuel : ℕ)
    → length path + 2 ≤ fuel
    → (c ≡ red → rb_is_red x ≡ false)
    → Balanced (node c x any_item x) n
    → NoRedPair x
    → BalancedPath path n m
    → NoRedPairPath path
    → top_black path ≡ true
    → (t : Tree) × (close_gap fuel (record { color = c; x = x; path = path }) ≡ some t)
      × IsRedBlack t
unfolding close_gap
only_child red x path n m fuel f i (b, _) h p q top =
    let black_child = i refl in
    (
      plug x path,
      refl,
      assemble x path n m b h p q (ap (λ r. if r then ends_black path else true) black_child)
          (plug-black x path black_child top),
    )
only_child black x path n m fuel f i b h p q top =
    let (k, e, w, _) = black_height x any_item x n b in
    rb_erase_fixup-IsRedBlack fuel x path
      (record {
        height = k;
        total = m;
        balanced = w;
        no_pair = set_black-NoRedPair x h;
        path_balanced = subst (λ j. BalancedPath path j m) e p;
        path_pairs = q;
        top = top;
      })
      (omega (arith, rounds-le x path))

module _ (c : Color) (l : Tree) (y : Item) (r : Tree) where
  left_twice : (n : ℕ) → Balanced (node c l y r) n → Balanced (node c l any_item l) n
  left_twice n b = twice c n b
    where
      twice : (d : Color) (k : ℕ) → Balanced (node d l y r) k → Balanced (node d l any_item l) k
      twice red k (w, _) = (w, w)
      twice black zero w = w
      twice black (suc k) (w, _) = (w, w)

  right_twice : (n : ℕ) → Balanced (node c l y r) n → Balanced (node c r any_item r) n
  right_twice n b = twice c n b
    where
      twice : (d : Color) (k : ℕ) → Balanced (node d l y r) k → Balanced (node d r any_item r) k
      twice red k (_, w) = (w, w)
      twice black zero w = w
      twice black (suc k) (_, w) = (w, w)

  children :
      NoRedPair (node c l y r)
      → NoRedPair l
        × NoRedPair r
        × (c ≡ red → rb_is_red l ≡ false)
        × (c ≡ red → rb_is_red r ≡ false)
  children h = parts c h
    where
      parts :
          (d : Color)
          → NoRedPair (node d l y r)
          → NoRedPair l
            × NoRedPair r
            × (d ≡ red → rb_is_red l ≡ false)
            × (d ≡ red → rb_is_red r ≡ false)
      parts red (k, k', w, w') = (w, w', (λ e. k), (λ e. k'))
      parts black (w, w') = (w, w', (λ e. cc), (λ e. cc))

Closes : ℕ → Color → Tree → Parents → Type 0
Closes fuel c x path =
    (t : Tree) × (close_gap fuel (record { color = c; x = x; path = path }) ≡ some t) × IsRedBlack t

no_left :
    (c : Color) (y : Item) (x : Tree) (path : Parents) (fuel : ℕ)
    → IsRedBlack (plug (node c leaf y x) path)
    → length path + 2 ≤ fuel
    → Closes fuel c x path
unfolding Closes
no_left c y x path fuel ok f =
    let s = stands (node c leaf y x) path ok in
    let (_, h, _, i) = children c leaf y x s.no_pair in
    only_child c x path s.height s.total fuel f i (right_twice c leaf y x s.height s.balanced) h
      s.path_balanced s.path_pairs s.top

no_right :
    (c : Color) (x : Tree) (y : Item) (path : Parents) (fuel : ℕ)
    → IsRedBlack (plug (node c x y leaf) path)
    → length path + 2 ≤ fuel
    → Closes fuel c x path
unfolding Closes
no_right c x y path fuel ok f =
    let s = stands (node c x y leaf) path ok in
    let (h, _, i, _) = children c x y leaf s.no_pair in
    only_child c x path s.height s.total fuel f i (left_twice c x y leaf s.height s.balanced) h
      s.path_balanced s.path_pairs s.top

plug-append : (t : Tree) (p q : Parents) → plug t (p ++ q) ≡ plug (plug t p) q
unfolding plug
plug-append t [] q = refl
plug-append t (f ∷ p) q = plug-append (fill f t) p q

find_least-plug :
    (c : Color) (l : Tree) (y : Item) (r : Tree) (path : Parents)
    → plug
        (node
          (find_least c l y r path).0
          leaf
          (find_least c l y r path).1
          (find_least c l y r path).2)
        (find_least c l y r path).3
      ≡ plug (node c l y r) path
unfolding find_least plug
find_least-plug c leaf y r path = refl
find_least-plug c (node d l x m) y r path = find_least-plug d l x m (from_left c y r ∷ path)

root_same :
    (c : Color) (l : Tree) (y z : Item) (r : Tree) (path : Parents)
    → rb_is_red (plug (node c l y r) path) ≡ rb_is_red (plug (node c l z r) path)
unfolding plug
root_same red l y z r [] = refl
root_same black l y z r [] = refl
root_same c l y z r (f ∷ path) =
    plug-red (node c l y r) f path ∙ sym (plug-red (node c l z r) f path)

-- Another node in the same place, with the same colour.
restamp :
    (c : Color) (l : Tree) (y z : Item) (r : Tree) (path : Parents)
    → IsRedBlack (plug (node c l z r) path)
    → IsRedBlack (plug (node c l y r) path)
restamp red l y z r path ok =
    let s = stands (node red l z r) path ok in
    assemble (node red l y r) path s.height s.total s.balanced s.no_pair s.path_balanced
      s.path_pairs s.fit (root_same red l y z r path ∙ ok.root_black)
restamp black l y z r path ok =
    let s = stands (node black l z r) path ok in
    let (k, e, w, w') = black_height l z r s.height s.balanced in
    assemble (node black l y r) path (suc k) s.total (w, w') s.no_pair
      (subst (λ j. BalancedPath path j s.total) e s.path_balanced) s.path_pairs s.fit
      (root_same black l y z r path ∙ ok.root_black)

take_out-Closes :
    (fuel : ℕ) (c : Color) (l : Tree) (z : Item) (r : Tree) (path : Parents)
    → IsRedBlack (plug (node c l z r) path)
    → length (take_out c l r path).path + 2 ≤ fuel
    → Closes fuel (take_out c l r path).color (take_out c l r path).x (take_out c l r path).path
unfolding take_out plug
take_out-Closes fuel c leaf z r path ok f = no_left c z r path fuel ok f
take_out-Closes fuel c (node d a x b) z leaf path ok f = no_right c (node d a x b) z path fuel ok f
take_out-Closes fuel c (node d a x b) z (node e rl ry rr) path ok f =
    let l = node d a x b in
    let (color, y, last, inner) = find_least e rl ry rr [] in
    let outer = from_right c l y ∷ path in
    let whole = restamp c l y z (node e rl ry rr) path ok in
    let same : plug (node color leaf y last) (inner ++ outer)
        ≡ plug (node c l y (node e rl ry rr)) path =
      plug-append (node color leaf y last) inner outer
      ∙ ap (λ s. plug s outer) (find_least-plug e rl ry rr []) in
    no_left color y last (inner ++ outer) fuel (subst IsRedBlack (sym same) whole) f

-- In a red-black tree the erasure of a node, wherever it stands, ends within two rounds more than the
-- place where the black node is missing is deep, and leaves a red-black tree with all the other nodes in
-- their order.
pub rb_erase-IsRedBlack :
    (fuel : ℕ) (c : Color) (l : Tree) (z : Item) (r : Tree) (path : Parents)
    → IsRedBlack (plug (node c l z r) path)
    → length (take_out c l r path).path + 2 ≤ fuel
    → (t : Tree) × (rb_erase fuel c l r path ≡ some t)
      × IsRedBlack t
      × (in_order t ≡ (before path ++ in_order l) ++ in_order r ++ behind path)
unfolding rb_erase Closes
rb_erase-IsRedBlack fuel c l z r path ok f =
    let (t, e, h) = take_out-Closes fuel c l z r path ok f in
    (t, e, h, rb_erase-in_order fuel c l r path t e)
