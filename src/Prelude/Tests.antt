-- ===== src/Prelude/Tests.antt =====
-- Boolean tests on the native numbers, the conditional, and case lemmas.
use Prim.Native.Nat.{ℕ, ◌≤◌, ◌<◌, compare, Ordering}
use mathlib.Core.Path.{◌≡◌, refl, sym, ap, ◌∙◌}
use mathlib.Core.Logic.{◌≢◌, ◌⊎◌, inl, inr}
use mathlib.Core.Bool.{Bool, true, false}
use mathlib.Core.Option.{Option, none, some}
use native.Mathlib.Omega.{arith}

abbrev pub ltb : ℕ → ℕ → Bool
ltb a b = elim (compare a b) [ Ordering.lt ↦ true | _ ↦ false ]

abbrev pub leb : ℕ → ℕ → Bool
leb a b = elim (compare a b) [ Ordering.gt ↦ false | _ ↦ true ]

infix 50 ◌==◌
abbrev pub ◌==◌ : ℕ → ℕ → Bool
a == b = elim (compare a b) [ Ordering.eq ↦ true | _ ↦ false ]

infix 1 if◌then◌else◌
abbrev pub if◌then◌else◌ {ℓ} : {A : Type ℓ} → Bool → A → A → A
if true then x else y = x
if false then x else y = y

pub ==→eq : (a b : ℕ) → (a == b) ≡ true → a ≡ b
==→eq a b h = ground arith

pub ==_refl : (a : ℕ) → (a == a) ≡ true
==_refl a = ground arith

pub ne→== : (a b : ℕ) → a ≢ b → (a == b) ≡ false
ne→== a b h = ground arith

pub lt→ltb : (a b : ℕ) → a < b → ltb a b ≡ true
lt→ltb a b h = ground arith

pub le→ltb : (a b : ℕ) → b ≤ a → ltb a b ≡ false
le→ltb a b h = ground arith

pub ltb→lt : (a b : ℕ) → ltb a b ≡ true → a < b
ltb→lt a b h = ground arith

pub ltb→le : (a b : ℕ) → ltb a b ≡ false → b ≤ a
ltb→le a b h = ground arith

-- To split on a computed value and keep the equation.
pub Bool-cases : (b : Bool) → (b ≡ true) ⊎ (b ≡ false)
Bool-cases true = inl refl
Bool-cases false = inr refl

pub Option-cases {ℓ} : {A : Type ℓ} (o : Option A) → (o ≡ none) ⊎ ((a : A) × (o ≡ some a))
Option-cases none = inl refl
Option-cases (some a) = inr (a, refl)

-- A computation has one answer.
pub answers_agree {ℓ} :
    {A : Type ℓ} {answer : Option A} {x y : A} → answer ≡ some x → answer ≡ some y → x ≡ y
answers_agree {x = x} e e' = ap (λ o. elim o [ none ↦ x | some z ↦ z ]) (sym e ∙ e')

pub no_answer {ℓ} :
    {A : Type ℓ} {P : Type 0} {answer : Option A} {x : A} → answer ≡ none → answer ≡ some x → P
no_answer e e' = absurd (cc)

-- What both branches have, the test has.
pub if-holds {ℓ ℓ'} :
    {A : Type ℓ} → (P : A → Type ℓ') (test : Bool) {x y : A} → P x → P y → P (if test then x else y)
if-holds P true p q = p
if-holds P false p q = q

pub if-else {ℓ ℓ'} :
    {A : Type ℓ}
    → (P : A → Type ℓ') (test : Bool) (x : A) {y : A} → test ≡ false
    → P y
    → P (if test then x else y)
if-else P true x e q = absurd (cc e)
if-else P false x e q = q

-- With the answer of the test.
pub if-cases {ℓ ℓ'} :
    {A : Type ℓ}
    → (P : A → Type ℓ') (test : Bool) {x y : A} → (test ≡ true → P x)
    → (test ≡ false → P y)
    → P (if test then x else y)
if-cases P true p q = p refl
if-cases P false p q = q refl

pub then_equal {ℓ} :
    {A : Type ℓ} (test : Bool) {x y : A} (z : A)
    → (test ≡ true → x ≡ y)
    → (if test then x else z) ≡ (if test then y else z)
then_equal true z same = same refl
then_equal false z same = refl
