-- ===== src/RbTree/Erase/Repair.antt =====
-- The loop of rb_erase_fixup of kernel/rbtree.c ends with a tree that is in order again.
use aurora_os.Prelude.{ℕ, zero, suc, ◌+◌, ◌≤◌, ◌≡◌, refl, true, false, some, [], ◌∷◌, arith, length}
use aurora_os.RbTree.{
  red, black, Tree, leaf, node, Frame, from_left, from_right, Parents, rb_is_red,
}
use aurora_os.RbTree.Balance.{Balanced, NoRedPair, IsRedBlack, BalancedPath, NoRedPairPath, blacken}
use aurora_os.RbTree.Paths.{assemble, top_black, top_black-tail, top_black-cons, plug-black}
use aurora_os.RbTree.Erase.{Round, again, done, sibling_round, erase_round, rb_erase_fixup}
use aurora_os.RbTree.Erase.Balance.{Lacking, rounds, Outcome, case_left-Outcome, case_right-Outcome}

module _ (x : Tree) (path : Parents) (n m fuel : ℕ) (x_black : rb_is_red x ≡ false)
    (bx : Balanced x n) (hx : NoRedPair x) (enough : length path + 2 ≤ fuel) where
  sibling_round-Outcome :
      (f : Frame)
      → BalancedPath (f ∷ path) (suc n) m
      → NoRedPairPath (f ∷ path)
      → top_black (f ∷ path) ≡ true
      → Outcome fuel (sibling_round x f path)
  unfolding sibling_round
  sibling_round-Outcome (from_left red p leaf) (bw, bp) (kw, hw, e, hp) t =
      case_left-Outcome red x p path n m fuel x_black bx hx e bp hp
        (top_black-tail (from_left red p leaf) path t) (omega arith) leaf kw bw hw
  sibling_round-Outcome (from_left red p (node black l y r)) (bw, bp) (kw, hw, e, hp) t =
      case_left-Outcome red x p path n m fuel x_black bx hx e bp hp
        (top_black-tail (from_left red p (node black l y r)) path t) (omega arith)
        (node black l y r) kw bw hw
  sibling_round-Outcome (from_left red p (node red l y r)) (bw, bp) (kw, hw, e, hp) t = cc
  sibling_round-Outcome (from_left black p leaf) (bw, bp) (hw, hp) t =
      case_left-Outcome black x p path n m fuel x_black bx hx refl bp hp
        (top_black-tail (from_left black p leaf) path t) enough leaf refl bw hw
  sibling_round-Outcome (from_left black p (node black l y r)) (bw, bp) (hw, hp) t =
      case_left-Outcome black x p path n m fuel x_black bx hx refl bp hp
        (top_black-tail (from_left black p (node black l y r)) path t) enough (node black l y r)
        refl bw hw
  sibling_round-Outcome (from_left black p (node red l y r)) ((bl, br), bp) ((kl, kr, hl, hr), hp)
        t =
      case_left-Outcome red x p (from_left black y r ∷ path) n m fuel x_black bx hx refl (br, bp)
        (hr, hp)
        (top_black-cons (from_left black y r) path refl
          (top_black-tail (from_left black p (node red l y r)) path t))
        (omega arith) l kl bl hl
  sibling_round-Outcome (from_right red leaf p) (bw, bp) (kw, hw, e, hp) t =
      case_right-Outcome red x p path n m fuel x_black bx hx e bp hp
        (top_black-tail (from_right red leaf p) path t) (omega arith) leaf kw bw hw
  sibling_round-Outcome (from_right red (node black l y r) p) (bw, bp) (kw, hw, e, hp) t =
      case_right-Outcome red x p path n m fuel x_black bx hx e bp hp
        (top_black-tail (from_right red (node black l y r) p) path t) (omega arith)
        (node black l y r) kw bw hw
  sibling_round-Outcome (from_right red (node red l y r) p) (bw, bp) (kw, hw, e, hp) t = cc
  sibling_round-Outcome (from_right black leaf p) (bw, bp) (hw, hp) t =
      case_right-Outcome black x p path n m fuel x_black bx hx refl bp hp
        (top_black-tail (from_right black leaf p) path t) enough leaf refl bw hw
  sibling_round-Outcome (from_right black (node black l y r) p) (bw, bp) (hw, hp) t =
      case_right-Outcome black x p path n m fuel x_black bx hx refl bp hp
        (top_black-tail (from_right black (node black l y r) p) path t) enough (node black l y r)
        refl bw hw
  sibling_round-Outcome (from_right black (node red l y r) p) ((bl, br), bp) ((kl, kr, hl, hr), hp)
        t =
      case_right-Outcome red x p (from_right black l y ∷ path) n m fuel x_black bx hx refl (bl, bp)
        (hl, hp)
        (top_black-cons (from_right black l y) path refl
          (top_black-tail (from_right black (node red l y r) p) path t))
        (omega arith) r kr br hr

erase_round-Outcome :
    (fuel : ℕ) (x : Tree) (path : Parents)
    → Lacking x path
    → rounds x path ≤ suc fuel
    → Outcome fuel (erase_round x path)
unfolding erase_round
erase_round-Outcome fuel x [] k f = blacken x k.height k.balanced k.no_pair
erase_round-Outcome fuel leaf (f ∷ path) k enough =
    sibling_round-Outcome leaf path k.height k.total fuel refl k.balanced k.no_pair (omega arith) f
      k.path_balanced k.path_pairs k.top
erase_round-Outcome fuel (node black l x r) (f ∷ path) k enough =
    sibling_round-Outcome (node black l x r) path k.height k.total fuel refl k.balanced k.no_pair
      (omega arith) f k.path_balanced k.path_pairs k.top
erase_round-Outcome fuel (node red l x r) (f ∷ path) k enough =
    assemble (node black l x r) (f ∷ path) (suc k.height) k.total k.balanced k.no_pair
      k.path_balanced k.path_pairs refl (plug-black (node black l x r) (f ∷ path) refl k.top)

rounds-pos : (x : Tree) (path : Parents) → 1 ≤ rounds x path
rounds-pos leaf path = omega arith
rounds-pos (node red l x r) path = omega arith
rounds-pos (node black l x r) path = omega arith

-- The loop ends within the rounds.
pub rb_erase_fixup-IsRedBlack :
    (fuel : ℕ) (x : Tree) (path : Parents)
    → Lacking x path
    → rounds x path ≤ fuel
    → (t : Tree) × (rb_erase_fixup fuel x path ≡ some t) × IsRedBlack t
unfolding rb_erase_fixup
rb_erase_fixup-IsRedBlack zero x path k f = absurd (omega (arith, rounds-pos x path))
rb_erase_fixup-IsRedBlack (suc fuel) x path k f =
    after (erase_round x path) (erase_round-Outcome fuel x path k f)
      (λ y rest. rb_erase_fixup-IsRedBlack fuel y rest)
  where
    after :
        (r : Round)
        → Outcome fuel r
        → ((y : Tree) (rest : Parents)
            → Lacking y rest
            → rounds y rest ≤ fuel
            → (t : Tree) × (rb_erase_fixup fuel y rest ≡ some t) × IsRedBlack t)
        → (t : Tree) × (elim r [ done s ↦ some s | again y rest ↦ rb_erase_fixup fuel y rest ]
            ≡ some t)
          × IsRedBlack t
    after (done t) o rec = (t, refl, o)
    after (again y rest) (o, few) rec = rec y rest o few
