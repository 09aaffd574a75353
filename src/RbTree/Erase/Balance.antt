-- ===== src/RbTree/Erase/Balance.antt =====
-- rb_erase of kernel/rbtree.c keeps the colours and the black height right, and its loop ends.
use aurora_os.Prelude.{ℕ, suc, ◌+◌, ◌≤◌, ◌≡◌, refl, ap, Bool, true, false, not, ◌&&◌, arith, length}
use aurora_os.RbTree.{
  Color, red, black, Item, Tree, leaf, node, Parents, plug, rb_is_red, rb_set_black,
}
use aurora_os.RbTree.Balance.{
  Balanced, NoRedPair, IsRedBlack, BalancedPath, ends_black, NoRedPairPath, fits, plug-Balanced,
  plug-NoRedPair, set_black-NoRedPair, blacken,
}
use aurora_os.RbTree.Paths.{top_black}
use aurora_os.RbTree.Erase.{Round, again, done, case_left, case_right}

-- One black node is missing above `x`, which may be a red child of a red parent.
pub record Lacking (x : Tree) (path : Parents) : Type 0 where
  pub height : ℕ
  pub total : ℕ
  pub balanced : Balanced x height
  pub no_pair : NoRedPair (rb_set_black x)
  pub path_balanced : BalancedPath path (suc height) total
  pub path_pairs : NoRedPairPath path
  pub top : top_black path ≡ true

-- How many rounds the loop may take.
abbrev pub rounds : Tree → Parents → ℕ
rounds (node red l x r) path = 1
rounds _ path = length path + 2

abbrev pub Outcome : ℕ → Round → Type 0
Outcome fuel (done t) = IsRedBlack t
Outcome fuel (again y rest) = Lacking y rest × (rounds y rest ≤ fuel)

-- A node of colour `c` over trees of black height `k`.
abbrev pub above : Color → ℕ → ℕ
above red k = k
above black k = suc k

abbrev pub color_fits : Color → Parents → Bool
color_fits red path = ends_black path
color_fits black path = true

abbrev pub color_rounds : Color → Parents → ℕ
color_rounds red path = 1
color_rounds black path = length path + 2

node-Balanced :
    (c : Color) (l : Tree) (x : Item) (r : Tree) (k : ℕ)
    → Balanced l k
    → Balanced r k
    → Balanced (node c l x r) (above c k)
node-Balanced red l x r k b b' = (b, b')
node-Balanced black l x r k b b' = (b, b')

node-NoRedPair :
    (c : Color) (l : Tree) (x : Item) (r : Tree)
    → rb_is_red l ≡ false
    → rb_is_red r ≡ false
    → NoRedPair l
    → NoRedPair r
    → NoRedPair (node c l x r)
node-NoRedPair red l x r e e' h h' = (e, e', h, h')
node-NoRedPair black l x r e e' h h' = (h, h')

node-fits :
    (c : Color) (l : Tree) (x : Item) (r : Tree) (path : Parents)
    → color_fits c path ≡ true
    → fits (node c l x r) path ≡ true
node-fits red l x r path e = e
node-fits black l x r path e = refl

-- With the parent's place in order again, all is.
module _ (c : Color) (path : Parents) (k m : ℕ) (e : color_fits c path ≡ true) where
  module _ (p : BalancedPath path (above c k) m) (q : NoRedPairPath path) where
    finished :
        (l : Tree) (x : Item) (r : Tree)
        → Balanced (node black l x r) (suc k)
        → rb_is_red l ≡ false
        → rb_is_red r ≡ false
        → NoRedPair l
        → NoRedPair r
        → IsRedBlack (rb_set_black (plug (node c l x r) path))
    finished l x r (b, b') i j h h' =
        blacken (plug (node c l x r) path) m
          (plug-Balanced (node c l x r) path (above c k) m (node-Balanced c l x r k b b') p)
          (set_black-NoRedPair (plug (node c l x r) path) (
            plug-NoRedPair (node c l x r) path (node-fits c l x r path e)
              (node-NoRedPair c l x r i j h h') q))

-- With the sibling red, the black node is missing above the parent.
moved_up :
    (c : Color) (l : Tree) (x : Item) (r : Tree) (path : Parents) (n m fuel : ℕ)
    → Balanced l n
    → Balanced r n
    → NoRedPair l
    → NoRedPair r
    → BalancedPath path (above c (suc n)) m
    → NoRedPairPath path
    → top_black path ≡ true
    → color_rounds c path ≤ fuel
    → Outcome fuel (again (node c l x r) path)
moved_up red l x r path n m fuel b b' h h' p q t f = (
  record {
    height = n;
    total = m;
    balanced = (b, b');
    no_pair = (h, h');
    path_balanced = p;
    path_pairs = q;
    top = t;
  },
  f,
)
moved_up black l x r path n m fuel b b' h h' p q t f = (
  record {
    height = suc n;
    total = m;
    balanced = (b, b');
    no_pair = (h, h');
    path_balanced = p;
    path_pairs = q;
    top = t;
  },
  f,
)

one_red : (a b : Bool) → b ≡ true → (not a && not b) ≡ false
one_red true b e = refl
one_red false b e = ap not e

module _ (c : Color) (x : Tree) (p : Item) (path : Parents) (n m fuel : ℕ)
    (x_black : rb_is_red x ≡ false) (bx : Balanced x n) (hx : NoRedPair x)
    (e : color_fits c path ≡ true) (bp : BalancedPath path (above c (suc n)) m)
    (hp : NoRedPairPath path) (top : top_black path ≡ true) (f : color_rounds c path ≤ fuel) where
  pub case_left-Outcome :
      (w : Tree)
      → rb_is_red w ≡ false
      → Balanced w (suc n)
      → NoRedPair w
      → Outcome fuel (case_left c x p w path)
  unfolding case_left
  case_left-Outcome leaf i b h = absurd (omega arith)
  case_left-Outcome (node red l y r) i b h = cc
  case_left-Outcome (node black l y (node red a q b)) i (bl, br) (hl, (_, _, ha, hb)) =
      rw (one_red (rb_is_red l) true refl, case_left)
        (finished c path (suc n) m e bp hp (node black x p l) y (node black a q b) ((bx, bl), br)
          refl refl (hx, hl) (ha, hb))
  case_left-Outcome (node black (node red a q b) y leaf) i ((ba, bb), br) ((_, _, ha, hb), hr) =
      finished c path (suc n) m e bp hp (node black x p a) q (node black b y leaf)
        ((bx, ba), (bb, br)) refl refl (hx, ha) (hb, hr)
  case_left-Outcome (node black (node red a q b) y (node black g k v)) i ((ba, bb), br)
        ((_, _, ha, hb), hr) =
      finished c path (suc n) m e bp hp (node black x p a) q (node black b y (node black g k v))
        ((bx, ba), (bb, br)) refl refl (hx, ha) (hb, hr)
  case_left-Outcome (node black leaf y leaf) i (bl, br) (hl, hr) =
      moved_up c x p (node red leaf y leaf) path n m fuel bx (bl, br) hx (refl, refl, hl, hr) bp hp
        top f
  case_left-Outcome (node black leaf y (node black g k v)) i (bl, br) (hl, hr) =
      moved_up c x p (node red leaf y (node black g k v)) path n m fuel bx (bl, br) hx
        (refl, refl, hl, hr) bp hp top f
  case_left-Outcome (node black (node black a q b) y leaf) i (bl, br) (hl, hr) =
      moved_up c x p (node red (node black a q b) y leaf) path n m fuel bx (bl, br) hx
        (refl, refl, hl, hr) bp hp top f
  case_left-Outcome (node black (node black a q b) y (node black g k v)) i (bl, br) (hl, hr) =
      moved_up c x p (node red (node black a q b) y (node black g k v)) path n m fuel bx (bl, br) hx
        (refl, refl, hl, hr) bp hp top f

  pub case_right-Outcome :
      (w : Tree)
      → rb_is_red w ≡ false
      → Balanced w (suc n)
      → NoRedPair w
      → Outcome fuel (case_right c w p x path)
  unfolding case_right
  case_right-Outcome leaf i b h = absurd (omega arith)
  case_right-Outcome (node red l y r) i b h = cc
  case_right-Outcome (node black (node red a q b) y leaf) i (bl, br) ((_, _, ha, hb), hr) =
      finished c path (suc n) m e bp hp (node black a q b) y (node black leaf p x) (bl, (br, bx))
        refl refl (ha, hb) (hr, hx)
  case_right-Outcome (node black (node red a q b) y (node black g k v)) i (bl, br)
        ((_, _, ha, hb), hr) =
      finished c path (suc n) m e bp hp (node black a q b) y (node black (node black g k v) p x)
        (bl, (br, bx)) refl refl (ha, hb) (hr, hx)
  case_right-Outcome (node black (node red a q b) y (node red g k v)) i (bl, br)
        ((_, _, ha, hb), hr) =
      finished c path (suc n) m e bp hp (node black a q b) y (node black (node red g k v) p x)
        (bl, (br, bx)) refl refl (ha, hb) (hr, hx)
  case_right-Outcome (node black leaf y (node red g k v)) i (bl, (bg, bv)) (hl, (_, _, hg, hv)) =
      finished c path (suc n) m e bp hp (node black leaf y g) k (node black v p x)
        ((bl, bg), (bv, bx)) refl refl (hl, hg) (hv, hx)
  case_right-Outcome (node black (node black a q b) y (node red g k v)) i (bl, (bg, bv))
        (hl, (_, _, hg, hv)) =
      finished c path (suc n) m e bp hp (node black (node black a q b) y g) k (node black v p x)
        ((bl, bg), (bv, bx)) refl refl (hl, hg) (hv, hx)
  case_right-Outcome (node black leaf y leaf) i (bl, br) (hl, hr) =
      moved_up c (node red leaf y leaf) p x path n m fuel (bl, br) bx (refl, refl, hl, hr) hx bp hp
        top f
  case_right-Outcome (node black leaf y (node black g k v)) i (bl, br) (hl, hr) =
      moved_up c (node red leaf y (node black g k v)) p x path n m fuel (bl, br) bx
        (refl, refl, hl, hr) hx bp hp top f
  case_right-Outcome (node black (node black a q b) y leaf) i (bl, br) (hl, hr) =
      moved_up c (node red (node black a q b) y leaf) p x path n m fuel (bl, br) bx
        (refl, refl, hl, hr) hx bp hp top f
  case_right-Outcome (node black (node black a q b) y (node black g k v)) i (bl, br) (hl, hr) =
      moved_up c (node red (node black a q b) y (node black g k v)) p x path n m fuel (bl, br) bx
        (refl, refl, hl, hr) hx bp hp top f
