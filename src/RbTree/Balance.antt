-- ===== src/RbTree/Balance.antt =====
-- The colours and the black height of a tree of kernel/rbtree.c.
use mathlib.Core.Path.{subst}
use aurora_os.Prelude.{ℕ, zero, suc, ◌≡◌, refl, sym, Bool, true, false, [], ◌∷◌, if◌then◌else◌}
use aurora_os.RbTree.{
  red, black, Tree, leaf, node, from_left, from_right, Parents, plug, rb_set_black, rb_is_red,
}

-- Every way down from the root of the tree passes the given number of black nodes.
abbrev pub Balanced : Tree → ℕ → Type 0
Balanced leaf n = n ≡ 0
Balanced (node red l x r) n = Balanced l n × Balanced r n
Balanced (node black l x r) zero = true ≡ false
Balanced (node black l x r) (suc n) = Balanced l n × Balanced r n

-- No red node has a red child.
abbrev pub NoRedPair : Tree → Type 0
NoRedPair leaf = Unit
NoRedPair (node red l x r) =
    (rb_is_red l ≡ false) × (rb_is_red r ≡ false) × NoRedPair l × NoRedPair r
NoRedPair (node black l x r) = NoRedPair l × NoRedPair r

pub record IsRedBlack (t : Tree) : Type 0 where
  pub root_black : rb_is_red t ≡ false
  pub no_pair : NoRedPair t
  pub height : ℕ
  pub balanced : Balanced t height

-- With a tree of black height `n` at its end, the path makes one of black height `m`.
abbrev pub BalancedPath : Parents → ℕ → ℕ → Type 0
BalancedPath [] n m = n ≡ m
BalancedPath (from_left red x r ∷ path) n m = Balanced r n × BalancedPath path n m
BalancedPath (from_left black x r ∷ path) n m = Balanced r n × BalancedPath path (suc n) m
BalancedPath (from_right red l x ∷ path) n m = Balanced l n × BalancedPath path n m
BalancedPath (from_right black l x ∷ path) n m = Balanced l n × BalancedPath path (suc n) m

abbrev pub ends_black : Parents → Bool
ends_black (from_left red x r ∷ path) = false
ends_black (from_right red l x ∷ path) = false
ends_black _ = true

-- With a black node at its end the path has no red pair.
abbrev pub NoRedPairPath : Parents → Type 0
NoRedPairPath [] = Unit
NoRedPairPath (from_left red x r ∷ path) =
    (rb_is_red r ≡ false) × NoRedPair r × (ends_black path ≡ true) × NoRedPairPath path
NoRedPairPath (from_left black x r ∷ path) = NoRedPair r × NoRedPairPath path
NoRedPairPath (from_right red l x ∷ path) =
    (rb_is_red l ≡ false) × NoRedPair l × (ends_black path ≡ true) × NoRedPairPath path
NoRedPairPath (from_right black l x ∷ path) = NoRedPair l × NoRedPairPath path

pub plug-Balanced :
    (t : Tree) (path : Parents) (n m : ℕ)
    → Balanced t n
    → BalancedPath path n m
    → Balanced (plug t path) m
unfolding plug
plug-Balanced t [] n m b e = subst (Balanced t) e b
plug-Balanced t (from_left red x r ∷ path) n m b (c, e) =
    plug-Balanced (node red t x r) path n m (b, c) e
plug-Balanced t (from_left black x r ∷ path) n m b (c, e) =
    plug-Balanced (node black t x r) path (suc n) m (b, c) e
plug-Balanced t (from_right red l x ∷ path) n m b (c, e) =
    plug-Balanced (node red l x t) path n m (c, b) e
plug-Balanced t (from_right black l x ∷ path) n m b (c, e) =
    plug-Balanced (node black l x t) path (suc n) m (c, b) e

pub set_black-NoRedPair : (t : Tree) → NoRedPair t → NoRedPair (rb_set_black t)
set_black-NoRedPair leaf h = h
set_black-NoRedPair (node red l x r) (_, _, h, k) = (h, k)
set_black-NoRedPair (node black l x r) h = h

-- `t` may stand at the end of the path.
abbrev pub fits : Tree → Parents → Bool
fits t path = if rb_is_red t then ends_black path else true

pub black_child :
    (red_child : Bool) → (if red_child then false else true) ≡ true → red_child ≡ false
black_child true e = sym e
black_child false e = refl

pub plug-NoRedPair :
    (t : Tree) (path : Parents)
    → fits t path ≡ true
    → NoRedPair t
    → NoRedPairPath path
    → NoRedPair (plug t path)
unfolding plug
plug-NoRedPair t [] e h p = h
plug-NoRedPair t (from_left red x r ∷ path) e h (b, s, end, p) =
    plug-NoRedPair (node red t x r) path end (black_child (rb_is_red t) e, b, h, s) p
plug-NoRedPair t (from_left black x r ∷ path) e h (s, p) =
    plug-NoRedPair (node black t x r) path refl (h, s) p
plug-NoRedPair t (from_right red l x ∷ path) e h (b, s, end, p) =
    plug-NoRedPair (node red l x t) path end (b, black_child (rb_is_red t) e, s, h) p
plug-NoRedPair t (from_right black l x ∷ path) e h (s, p) =
    plug-NoRedPair (node black l x t) path refl (s, h) p

pub either : (b : Bool) → (if b then true else true) ≡ true
either true = refl
either false = refl

pub blacken :
    (t : Tree) (n : ℕ) → Balanced t n → NoRedPair (rb_set_black t) → IsRedBlack (rb_set_black t)
blacken leaf n b h = record { root_black = refl; no_pair = h; height = n; balanced = b }
blacken (node red l x r) n b h = record {
  root_black = refl;
  no_pair = h;
  height = suc n;
  balanced = b;
}
blacken (node black l x r) n b h = record {
  root_black = refl;
  no_pair = h;
  height = n;
  balanced = b;
}
