-- ===== src/RbTree/Insert.antt =====
-- rb_insert of kernel/rbtree.c keeps a tree red-black.
use mathlib.Core.Path.{subst}
use aurora_os.Prelude.{
  ℕ, zero, suc, ◌≡◌, refl, true, false, [], ◌∷◌, if◌then◌else◌, Bool-cases, inl, inr,
}
use aurora_os.RbTree.Balance.{
  Balanced, NoRedPair, IsRedBlack, BalancedPath, NoRedPairPath, plug-Balanced, set_black-NoRedPair,
  fits, plug-NoRedPair, either, blacken,
}
use aurora_os.RbTree.{
  red, black, Item, Tree, leaf, node, from_left, from_right, Parents, plug, rb_set_black, rb_is_red,
  goes_left, descend, fixup_loop, rb_insert,
}

-- What the loop leaves: all is right once the root is black.
Repaired : Tree → ℕ → Type 0
Repaired t n = Balanced t n × NoRedPair (rb_set_black t)

repaired :
    (t : Tree) (path : Parents) (n m : ℕ)
    → fits t path ≡ true
    → Balanced t n
    → NoRedPair t
    → BalancedPath path n m
    → NoRedPairPath path
    → Repaired (plug t path) m
unfolding Repaired
repaired t path n m e b h c p =
    (plug-Balanced t path n m b c, set_black-NoRedPair (plug t path) (plug-NoRedPair t path e h p))

fixup_loop-Repaired :
    (a : Tree) (z : Item) (b : Tree) (path : Parents) (n m : ℕ)
    → Balanced (node red a z b) n
    → NoRedPair (node red a z b)
    → BalancedPath path n m
    → NoRedPairPath path
    → Repaired (fixup_loop (node red a z b) path) m
unfolding fixup_loop Repaired plug
fixup_loop-Repaired a z b [] n m w h c p = repaired (node red a z b) [] n m refl w h c p
fixup_loop-Repaired a z b (from_left black x r ∷ path) n m w h (d, c) (s, p) =
    repaired (node black (node red a z b) x r) path (suc n) m refl (w, d) (h, s) c p
fixup_loop-Repaired a z b (from_right black l x ∷ path) n m w h (d, c) (s, p) =
    repaired (node black l x (node red a z b)) path (suc n) m refl (d, w) (s, h) c p
fixup_loop-Repaired a z b (from_left red x r ∷ []) n m w h (d, c) (_, s, _, _) =
    (subst (Balanced (node red (node red a z b) x r)) c (w, d), (h, s))
fixup_loop-Repaired a z b (from_right red l x ∷ []) n m w h (d, c) (_, s, _, _) =
    (subst (Balanced (node red l x (node red a z b))) c (d, w), (s, h))
fixup_loop-Repaired a z b (from_left red x r ∷ from_left red y u ∷ path) n m w h c (_, _, e, _) = cc
fixup_loop-Repaired a z b (from_left red x r ∷ from_right red u y ∷ path) n m w h c (_, _, e, _) =
    cc
fixup_loop-Repaired a z b (from_right red l x ∷ from_left red y u ∷ path) n m w h c (_, _, e, _) =
    cc
fixup_loop-Repaired a z b (from_right red l x ∷ from_right red u y ∷ path) n m w h c (_, _, e, _) =
    cc
fixup_loop-Repaired a z b (from_left red x r ∷ from_left black y leaf ∷ path) n m w h (d, (u, c))
      (q, s, _, (v, p)) =
    repaired (node black (node red a z b) x (node red r y leaf)) path (suc n) m refl (w, (d, u))
      (h, (q, refl, s, v)) c p
fixup_loop-Repaired a z b (from_left red x r ∷ from_left black y (node black i j k) ∷ path) n m w h
      (d, (u, c)) (q, s, _, (v, p)) =
    repaired (node black (node red a z b) x (node red r y (node black i j k))) path (suc n) m refl
      (w, (d, u)) (h, (q, refl, s, v)) c p
fixup_loop-Repaired a z b (from_left red x r ∷ from_left black y (node red i j k) ∷ path) n m w h
      (d, (u, c)) (q, s, _, ((_, _, v, v'), p)) =
    fixup_loop-Repaired (node black (node red a z b) x r) y (node black i j k) path (suc n) m
      ((w, d), u) (refl, refl, (h, s), (v, v')) c p
fixup_loop-Repaired a z b (from_left red x r ∷ from_right black leaf y ∷ path) n m w h (d, (u, c))
      (q, s, _, (v, p)) =
    repaired (node black (node red leaf y a) z (node red b x r)) path (suc n) m refl
      ((u, w.0), (w.1, d)) ((refl, h.0, v, h.2), (h.1, q, h.3, s)) c p
fixup_loop-Repaired a z b (from_left red x r ∷ from_right black (node black i j k) y ∷ path) n m w h
      (d, (u, c)) (q, s, _, (v, p)) =
    repaired (node black (node red (node black i j k) y a) z (node red b x r)) path (suc n) m refl
      ((u, w.0), (w.1, d)) ((refl, h.0, v, h.2), (h.1, q, h.3, s)) c p
fixup_loop-Repaired a z b (from_left red x r ∷ from_right black (node red i j k) y ∷ path) n m w h
      (d, (u, c)) (q, s, _, ((_, _, v, v'), p)) =
    fixup_loop-Repaired (node black i j k) y (node black (node red a z b) x r) path (suc n) m
      (u, (w, d)) (refl, refl, (v, v'), (h, s)) c p
fixup_loop-Repaired a z b (from_right red l x ∷ from_left black y leaf ∷ path) n m w h (d, (u, c))
      (q, s, _, (v, p)) =
    repaired (node black (node red l x a) z (node red b y leaf)) path (suc n) m refl
      ((d, w.0), (w.1, u)) ((q, h.0, s, h.2), (h.1, refl, h.3, v)) c p
fixup_loop-Repaired a z b (from_right red l x ∷ from_left black y (node black i j k) ∷ path) n m w h
      (d, (u, c)) (q, s, _, (v, p)) =
    repaired (node black (node red l x a) z (node red b y (node black i j k))) path (suc n) m refl
      ((d, w.0), (w.1, u)) ((q, h.0, s, h.2), (h.1, refl, h.3, v)) c p
fixup_loop-Repaired a z b (from_right red l x ∷ from_left black y (node red i j k) ∷ path) n m w h
      (d, (u, c)) (q, s, _, ((_, _, v, v'), p)) =
    fixup_loop-Repaired (node black l x (node red a z b)) y (node black i j k) path (suc n) m
      ((d, w), u) (refl, refl, (s, h), (v, v')) c p
fixup_loop-Repaired a z b (from_right red l x ∷ from_right black leaf y ∷ path) n m w h (d, (u, c))
      (q, s, _, (v, p)) =
    repaired (node black (node red leaf y l) x (node red a z b)) path (suc n) m refl ((u, d), w)
      ((refl, q, v, s), h) c p
fixup_loop-Repaired a z b (from_right red l x ∷ from_right black (node black i j k) y ∷ path) n m w
      h (d, (u, c)) (q, s, _, (v, p)) =
    repaired (node black (node red (node black i j k) y l) x (node red a z b)) path (suc n) m refl
      ((u, d), w) ((refl, q, v, s), h) c p
fixup_loop-Repaired a z b (from_right red l x ∷ from_right black (node red i j k) y ∷ path) n m w h
      (d, (u, c)) (q, s, _, ((_, _, v, v'), p)) =
    fixup_loop-Repaired (node black i j k) y (node black l x (node red a z b)) path (suc n) m
      (u, (d, w)) (refl, refl, (v, v'), (s, h)) c p

-- The walk down leads to a free place.
descend-path :
    (item : Item) (t : Tree) (path : Parents) (n m : ℕ)
    → fits t path ≡ true
    → Balanced t n
    → NoRedPair t
    → BalancedPath path n m
    → NoRedPairPath path
    → BalancedPath (descend item t path) 0 m × NoRedPairPath (descend item t path)
unfolding descend
descend-path item leaf path n m e b h c p = (subst (λ k. BalancedPath path k m) b c, p)
descend-path item (node red l x r) path n m e (b, b') (k, k', h, h') c p =
    elim (Bool-cases (goes_left item x)) [
      | inl less ↦
          rw (less, descend)
            (descend-path item l (from_left red x r ∷ path) n m (black_fits l k) b h (b', c)
              (k', h', e, p))
      | inr more ↦
          rw (more, descend)
            (descend-path item r (from_right red l x ∷ path) n m (black_fits r k') b' h' (b, c)
              (k, h, e, p))
    ]
  where
    black_fits : (s : Tree) → rb_is_red s ≡ false → (if rb_is_red s then false else true) ≡ true
    black_fits s e = rw e refl
descend-path item (node black l x r) path zero m e b h c p = cc
descend-path item (node black l x r) path (suc n) m e (b, b') (h, h') c p =
    elim (Bool-cases (goes_left item x)) [
      | inl less ↦
          rw (less, descend)
            (descend-path item l (from_left black x r ∷ path) n m (any_fits l) b h (b', c) (h', p))
      | inr more ↦
          rw (more, descend)
            (descend-path item r (from_right black l x ∷ path) n m (any_fits r) b' h' (b, c) (h, p))
    ]
  where
    any_fits : (s : Tree) → (if rb_is_red s then true else true) ≡ true
    any_fits s = either (rb_is_red s)

black_root_fits : (t : Tree) → rb_is_red t ≡ false → fits t [] ≡ true
black_root_fits t e = rw e refl

-- Insertion keeps a tree red-black: the root is black, no red node has a red child, and every way down
-- passes the same number of black nodes.
pub rb_insert-IsRedBlack :
    (root : Tree) (item : Item) → IsRedBlack root → IsRedBlack (rb_insert root item)
unfolding rb_insert Repaired
rb_insert-IsRedBlack root item ok =
    let (balanced, no_pair) =
      descend-path item root [] ok.height ok.height (black_root_fits root ok.root_black) ok.balanced
        ok.no_pair refl (record {}) in
    let (repaired_height, repaired_pairs) =
      fixup_loop-Repaired leaf item leaf (descend item root []) 0 ok.height (refl, refl)
        (refl, refl, record {}, record {}) balanced no_pair in
    blacken (fixup_loop (node red leaf item leaf) (descend item root [])) ok.height repaired_height
      repaired_pairs
