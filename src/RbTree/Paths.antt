-- ===== src/RbTree/Paths.antt =====
-- A red-black tree of kernel/rbtree.c, seen from a place in it.
use mathlib.Core.Path.{subst}
use aurora_os.Prelude.{
  ℕ, zero, suc, ◌≡◌, refl, sym, ap, ◌∙◌, Bool, true, false, not, [], ◌∷◌, if◌then◌else◌,
}
use aurora_os.RbTree.{
  red, black, Item, Tree, node, Frame, from_left, from_right, Parents, fill, plug, rb_is_red,
}
use aurora_os.RbTree.Balance.{
  Balanced, NoRedPair, IsRedBlack, BalancedPath, NoRedPairPath, fits, plug-Balanced, plug-NoRedPair,
  either,
}

abbrev pub frame_black : Frame → Bool
frame_black (from_left red x r) = false
frame_black (from_right red l x) = false
frame_black _ = true

-- The last frame, which is the root, is black.
abbrev pub top_black : Parents → Bool
top_black [] = true
top_black (f ∷ []) = frame_black f
top_black (f ∷ g ∷ path) = top_black (g ∷ path)

pub top_black-tail :
    (f : Frame) (path : Parents) → top_black (f ∷ path) ≡ true → top_black path ≡ true
top_black-tail f [] e = refl
top_black-tail f (g ∷ path) e = e

pub top_black-cons :
    (f : Frame) (path : Parents)
    → frame_black f ≡ true
    → top_black path ≡ true
    → top_black (f ∷ path) ≡ true
top_black-cons f [] e p = e
top_black-cons f (g ∷ path) e p = p

fill_red : (f : Frame) (t : Tree) → rb_is_red (fill f t) ≡ not (frame_black f)
fill_red (from_left red x r) t = refl
fill_red (from_left black x r) t = refl
fill_red (from_right red l x) t = refl
fill_red (from_right black l x) t = refl

pub plug-red :
    (t : Tree) (f : Frame) (path : Parents)
    → rb_is_red (plug t (f ∷ path)) ≡ not (top_black (f ∷ path))
unfolding plug
plug-red t f [] = fill_red f t
plug-red t f (g ∷ path) = plug-red (fill f t) g path

pub plug-black :
    (t : Tree) (path : Parents)
    → rb_is_red t ≡ false
    → top_black path ≡ true
    → rb_is_red (plug t path) ≡ false
unfolding plug
plug-black t [] e p = e
plug-black t (f ∷ path) e p = plug-red t f path ∙ ap not p

unplug-black : (t : Tree) (path : Parents) → rb_is_red (plug t path) ≡ false → top_black path ≡ true
unplug-black t [] e = refl
unplug-black t (f ∷ path) e = turned (top_black (f ∷ path)) (sym (plug-red t f path) ∙ e)
  where
    turned : (b : Bool) → not b ≡ false → b ≡ true
    turned true h = refl
    turned false h = sym h

pub black_height :
    (l : Tree) (x : Item) (r : Tree) (n : ℕ)
    → Balanced (node black l x r) n
    → (k : ℕ) × (n ≡ suc k) × Balanced l k × Balanced r k
black_height l x r zero b = cc
black_height l x r (suc k) (b, b') = (k, refl, b, b')

-- What is known of a subtree and its path when the whole tree is red-black.
pub record Stands (t : Tree) (path : Parents) : Type 0 where
  pub height : ℕ
  pub total : ℕ
  pub balanced : Balanced t height
  pub no_pair : NoRedPair t
  pub path_balanced : BalancedPath path height total
  pub path_pairs : NoRedPairPath path
  pub fit : fits t path ≡ true
  pub top : top_black path ≡ true

unplug-Balanced :
    (t : Tree) (path : Parents) (m : ℕ)
    → Balanced (plug t path) m
    → (n : ℕ) × Balanced t n × BalancedPath path n m
unfolding plug
unplug-Balanced t [] m b = (m, b, refl)
unplug-Balanced t (from_left red x r ∷ path) m b =
    let (n, (w, d), c) = unplug-Balanced (node red t x r) path m b in (n, w, (d, c))
unplug-Balanced t (from_right red l x ∷ path) m b =
    let (n, (d, w), c) = unplug-Balanced (node red l x t) path m b in (n, w, (d, c))
unplug-Balanced t (from_left black x r ∷ path) m b =
    let (n, w, c) = unplug-Balanced (node black t x r) path m b in
    let (k, e, v, d) = black_height t x r n w in (k, v, (d, subst (λ j. BalancedPath path j m) e c))
unplug-Balanced t (from_right black l x ∷ path) m b =
    let (n, w, c) = unplug-Balanced (node black l x t) path m b in
    let (k, e, d, v) = black_height l x t n w in (k, v, (d, subst (λ j. BalancedPath path j m) e c))

unplug-NoRedPair :
    (t : Tree) (path : Parents)
    → NoRedPair (plug t path)
    → NoRedPair t × NoRedPairPath path × (fits t path ≡ true)
unfolding plug
unplug-NoRedPair t [] h = (h, record {}, either (rb_is_red t))
unplug-NoRedPair t (from_left red x r ∷ path) h =
    let ((k, b, w, s), p, e) = unplug-NoRedPair (node red t x r) path h in
    (w, (b, s, e, p), ap (λ c. if c then false else true) k)
unplug-NoRedPair t (from_right red l x ∷ path) h =
    let ((b, k, s, w), p, e) = unplug-NoRedPair (node red l x t) path h in
    (w, (b, s, e, p), ap (λ c. if c then false else true) k)
unplug-NoRedPair t (from_left black x r ∷ path) h =
    let ((w, s), p, e) = unplug-NoRedPair (node black t x r) path h in
    (w, (s, p), either (rb_is_red t))
unplug-NoRedPair t (from_right black l x ∷ path) h =
    let ((s, w), p, e) = unplug-NoRedPair (node black l x t) path h in
    (w, (s, p), either (rb_is_red t))

-- From the whole tree to the place, and back.
pub stands : (t : Tree) (path : Parents) → IsRedBlack (plug t path) → Stands t path
stands t path ok =
    let (n, w, c) = unplug-Balanced t path ok.height ok.balanced in
    let (k, p, e) = unplug-NoRedPair t path ok.no_pair in
    record {
      height = n;
      total = ok.height;
      balanced = w;
      no_pair = k;
      path_balanced = c;
      path_pairs = p;
      fit = e;
      top = unplug-black t path ok.root_black;
    }

pub assemble :
    (t : Tree) (path : Parents) (n m : ℕ)
    → Balanced t n
    → NoRedPair t
    → BalancedPath path n m
    → NoRedPairPath path
    → fits t path ≡ true
    → rb_is_red (plug t path) ≡ false
    → IsRedBlack (plug t path)
assemble t path n m b h c p e root = record {
  root_black = root;
  no_pair = plug-NoRedPair t path e h p;
  height = m;
  balanced = plug-Balanced t path n m b c;
}
