-- ===== src/RbTree/Depth.antt =====
-- How deep a red-black tree of kernel/rbtree.c is, which bounds the rounds of its loops.
use native.Mathlib.Nat.{pow-suc, pow-le-pow_right, mul-le-mul}
use aurora_os.Prelude.{
  [], Bool-cases, inl, inr, ℕ, zero, suc, ◌+◌, ◌*◌, ◌^◌, ◌≤◌, ◌≡◌, ap, Bool, true, false, arith,
  max, length, ◌∷◌, length-append,
}
use aurora_os.RbTree.{
  Item, from_left, from_right, Parents, goes_left, descend, red, black, Tree, leaf, node, rb_is_red,
}
use aurora_os.RbTree.Contents.{in_order}
use aurora_os.RbTree.Balance.{Balanced, NoRedPair, IsRedBlack}

-- The longest way down.
unfoldable depth : Tree → ℕ
depth leaf = 0
depth (node c l x r) = suc (max (depth l) (depth r))

abbrev extra : Bool → ℕ
extra true = 1
extra false = 0

extra_black : (b : Bool) → b ≡ false → extra b ≡ 0
extra_black b e = ap extra e

at_most_one : (b : Bool) → extra b ≤ 1
at_most_one true = omega arith
at_most_one false = omega arith

depth-Balanced :
    (t : Tree) (n : ℕ) → Balanced t n → NoRedPair t → depth t ≤ 2 * n + extra (rb_is_red t)
unfolding depth
depth-Balanced leaf n b h = omega arith
depth-Balanced (node red l x r) n (b, b') (k, k', h, h') = omega (
  arith,
  depth-Balanced l n b h,
  depth-Balanced r n b' h',
  extra_black (rb_is_red l) k,
  extra_black (rb_is_red r) k',
)
depth-Balanced (node black l x r) zero b h = cc
depth-Balanced (node black l x r) (suc n) (b, b') (h, h') = omega (
  arith,
  depth-Balanced l n b h,
  depth-Balanced r n b' h',
  at_most_one (rb_is_red l),
  at_most_one (rb_is_red r),
)

size-Balanced : (t : Tree) (n : ℕ) → Balanced t n → 2 ^ n ≤ length (in_order t) + 1
unfolding in_order
size-Balanced leaf n b = rw b (omega arith)
size-Balanced (node red l x r) n (b, b') =
    omega (arith, size-Balanced l n b, length-append (in_order l) (x ∷ in_order r))
size-Balanced (node black l x r) zero b = cc
size-Balanced (node black l x r) (suc n) (b, b') = omega (
  arith,
  pow-suc 2 n,
  size-Balanced l n b,
  size-Balanced r n b',
  length-append (in_order l) (x ∷ in_order r),
)

pow_add : (a b : ℕ) → 2 ^ (a + b) ≡ 2 ^ a * 2 ^ b
pow_add zero b = let same : 0 + b ≡ b = omega arith in rw same (omega arith)
pow_add (suc a) b =
    let shift : suc a + b ≡ suc (a + b) = omega arith in
    rw (shift, pow-suc 2 (a + b), pow-suc 2 a, pow_add a b) (grind arith)

descend-depth :
    (item : Item) (t : Tree) (path : Parents) → length (descend item t path) ≤ depth t + length path
unfolding depth descend
descend-depth item leaf path = omega arith
descend-depth item (node c l x r) path = elim (Bool-cases (goes_left item x)) [
  | inl e ↦ rw e (omega (arith, descend-depth item l (from_left c x r ∷ path)))
  | inr e ↦ rw e (omega (arith, descend-depth item r (from_right c l x ∷ path)))
]

-- In a red-black tree of n nodes no way down is longer than 2 * log2 (n + 1).
depth-IsRedBlack :
    (t : Tree) → IsRedBlack t → 2 ^ depth t ≤ (length (in_order t) + 1) * (length (in_order t) + 1)
depth-IsRedBlack t ok =
    let deep : depth t ≤ ok.height + ok.height = omega (
      arith,
      depth-Balanced t ok.height ok.balanced ok.no_pair,
      extra_black (rb_is_red t) ok.root_black,
    ) in
    let large = size-Balanced t ok.height ok.balanced in
    let powers : 2 ^ depth t ≤ 2 ^ (ok.height + ok.height) = pow-le-pow_right (omega arith) deep in
    let halves = pow_add ok.height ok.height in let product = mul-le-mul large large in omega arith

-- The walk of rb_insert down a red-black tree of n nodes takes at most 2 * log2 (n + 1) steps.
pub descend-IsRedBlack :
    (t : Tree) (item : Item)
    → IsRedBlack t
    → 2 ^ length (descend item t []) ≤ (length (in_order t) + 1) * (length (in_order t) + 1)
descend-IsRedBlack t item ok =
    let walk : length (descend item t []) ≤ depth t = omega (arith, descend-depth item t []) in
    let powers : 2 ^ length (descend item t []) ≤ 2 ^ depth t =
      pow-le-pow_right (omega arith) walk in
    omega (arith, depth-IsRedBlack t ok)
