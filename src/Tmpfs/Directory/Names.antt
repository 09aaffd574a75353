-- ===== src/Tmpfs/Directory/Names.antt =====
-- What the names in a directory of kernel/tmpfs.c lead to, and how its links are counted.
use aurora_os.Prelude.{
  ℕ, ◌+◌, ◌%◌, ◌^◌, ◌≤◌, ◌≡◌, refl, sym, ap, ap₂, ◌∙◌, Bool, true, false, not, ◌&&◌, Option, none,
  some, List, [], ◌∷◌, ◌==◌, if◌then◌else◌, arith, Bool-cases, inl, inr, if-holds, if-cases, ==→eq,
}
use aurora_os.Tmpfs.Directory.{
  strcmp_equal, Inode, Node, Nodes, no_node, and_node, inode_of, children_of, find_child,
  unlink_child, Dir, add_child, name_taken, drop_child, new_dir,
}

strcmp_equal→eq : (a b : List ℕ) → strcmp_equal a b ≡ true → a ≡ b
unfolding strcmp_equal
strcmp_equal→eq [] [] e = refl
strcmp_equal→eq [] (y ∷ b) e = absurd (cc e)
strcmp_equal→eq (x ∷ a) [] e = absurd (cc e)
strcmp_equal→eq (x ∷ a) (y ∷ b) e = elim (Bool-cases (x == y)) [
  | inl same ↦
      let rest : strcmp_equal a b ≡ true = ap (λ t. t && strcmp_equal a b) (sym same) ∙ e in
      ap₂ (λ z zs. z ∷ zs) (==→eq x y same) (strcmp_equal→eq a b rest)
  | inr other ↦ absurd (cc (e, ap (λ t. t && strcmp_equal a b) other))
]

abbrev pub is_found : Option Node → Bool
is_found none = false
is_found (some n) = true

-- No two children have one name.
unfoldable pub distinct : Nodes → Bool
unfolding find_child
distinct no_node = true
distinct (and_node n rest) = not (is_found (find_child (inode_of n).name rest)) && distinct rest

abbrev pub count_dir : Inode → ℕ
count_dir inode = if inode.is_dir then 1 else 0

unfoldable pub dirs : Nodes → ℕ
dirs no_node = 0
dirs (and_node n rest) = count_dir (inode_of n) + dirs rest

-- The names differ, and the links are those of the directory itself and of the directories in it.
pub record WellFormed (d : Dir) : Type 0 where
  pub names : distinct (children_of d.self) ≡ true
  pub links : (inode_of d.self).nlink ≡ (2 + dirs (children_of d.self)) % 2 ^ 32

not_found : (o : Option Node) → not (is_found o) ≡ true → o ≡ none
not_found none e = refl
not_found (some n) e = absurd (cc e)

both : (a b : Bool) → (a && b) ≡ true → (a ≡ true) × (b ≡ true)
both true b e = (refl, e)
both false b e = absurd (cc e)

-- Two tests that do not both hold may change places.
tests_swap :
    (a b : Bool) (x y z : Option Node)
    → (b ≡ true → a ≡ false)
    → (if a then x else if b then y else z) ≡ (if b then y else if a then x else z)
tests_swap true true x y z apart = absurd (cc (apart refl))
tests_swap true false x y z apart = refl
tests_swap false b x y z apart = refl

-- A list of different names without one of them.
pub find-unlink :
    (name other : List ℕ) (children : Nodes)
    → distinct children ≡ true
    → find_child other (unlink_child name children)
      ≡ (if strcmp_equal name other then none else find_child other children)
unfolding find_child unlink_child distinct
find-unlink name other no_node d =
    if-holds (λ (o : Option Node). none ≡ o) (strcmp_equal name other) refl refl
find-unlink name other (and_node n rest) d =
    elim (Bool-cases (strcmp_equal (inode_of n).name name)) [
      | inl here ↦
          let same = strcmp_equal→eq (inode_of n).name name here in
          rw here (
            if-cases (λ (o : Option Node). find_child other rest ≡ o) (strcmp_equal name other)
              (λ e.
                ap (λ m. find_child m rest) (sym (same ∙ strcmp_equal→eq name other e))
                ∙ not_found (find_child (inode_of n).name rest)
                    (both (not (is_found (find_child (inode_of n).name rest))) (distinct rest) d).0)
              (λ e.
                let differs : strcmp_equal (inode_of n).name other ≡ false =
                  ap (λ m. strcmp_equal m other) same ∙ e in
                rw differs refl))
      | inr away ↦ rw away (
          ap (λ o. if strcmp_equal (inode_of n).name other then some n else o)
            (find-unlink name other rest
              (both (not (is_found (find_child (inode_of n).name rest))) (distinct rest) d).1)
          ∙ tests_swap (strcmp_equal (inode_of n).name other) (strcmp_equal name other) _ _ _
              λ e. ap (strcmp_equal (inode_of n).name) (sym (strcmp_equal→eq name other e)) ∙ away)
    ]

missing_unlink :
    (name other : List ℕ) (children : Nodes)
    → find_child other children ≡ none
    → find_child other (unlink_child name children) ≡ none
unfolding find_child unlink_child
missing_unlink name other no_node e = refl
missing_unlink name other (and_node n rest) e =
    elim (Bool-cases (strcmp_equal (inode_of n).name other)) [
      | inl here ↦
          absurd (cc (ap (λ t. if t then some n else find_child other rest) (sym here) ∙ e))
      | inr away ↦
          let later : find_child other rest ≡ none =
            ap (λ t. if t then some n else find_child other rest) (sym away) ∙ e in
          if-holds (λ children. find_child other children ≡ none)
            (strcmp_equal (inode_of n).name name) later
            (rw away (missing_unlink name other rest later))
    ]

unlink-distinct :
    (name : List ℕ) (children : Nodes)
    → distinct children ≡ true
    → distinct (unlink_child name children) ≡ true
unfolding distinct unlink_child
unlink-distinct name no_node d = refl
unlink-distinct name (and_node n rest) d =
    let (first, later) =
      both (not (is_found (find_child (inode_of n).name rest))) (distinct rest) d in
    let gone : find_child (inode_of n).name (unlink_child name rest) ≡ none =
      missing_unlink name (inode_of n).name rest
        (not_found (find_child (inode_of n).name rest) first) in
    if-holds (λ children. distinct children ≡ true) (strcmp_equal (inode_of n).name name) later
      (rw (gone, unlink-distinct name rest later) refl)

unlink-dirs :
    (name : List ℕ) (children : Nodes) (n : Node)
    → find_child name children ≡ some n
    → dirs children ≡ count_dir (inode_of n) + dirs (unlink_child name children)
unfolding dirs find_child unlink_child
unlink-dirs name no_node n e = absurd (cc e)
unlink-dirs name (and_node m rest) n e = elim (Bool-cases (strcmp_equal (inode_of m).name name)) [
  | inl here ↦
      let same : some m ≡ some n =
        ap (λ t. if t then some m else find_child name rest) (sym here) ∙ e in
      rw here (ap (λ o. elim o [ none ↦ 0 | some k ↦ count_dir (inode_of k) + dirs rest ]) same)
  | inr away ↦
      let later =
        unlink-dirs name rest n
          (ap (λ t. if t then some m else find_child name rest) (sym away) ∙ e) in
      rw away (omega (arith, later))
]

pub new_dir-WellFormed : (name : List ℕ) (ino next_ino : ℕ) → WellFormed (new_dir name ino next_ino)
unfolding distinct dirs
new_dir-WellFormed name ino next_ino = record { names = refl; links = refl }

pub add_child-WellFormed :
    (inode : Inode) (d : Dir)
    → name_taken d inode.name ≡ false
    → WellFormed d
    → WellFormed (add_child inode (count_dir inode) d)
unfolding distinct dirs
add_child-WellFormed inode d free w =
    let absent : is_found (find_child inode.name (children_of d.self)) ≡ false = free in
    record { names = rw (absent, w.names) refl; links = omega (arith, w.links) }

pub drop_child-WellFormed :
    (name : List ℕ) (d : Dir) (n : Node)
    → find_child name (children_of d.self) ≡ some n
    → WellFormed d
    → WellFormed (drop_child name (count_dir (inode_of n)) d)
unfolding drop_child unlink_child
drop_child-WellFormed name d n e w =
    let small : count_dir (inode_of n) ≤ 1 =
      if-holds (λ k. k ≤ 1) (inode_of n).is_dir (omega arith) (omega arith) in
    record {
      names = unlink-distinct name (children_of d.self) w.names;
      links = omega (arith, w.links, small, unlink-dirs name (children_of d.self) n e);
    }
