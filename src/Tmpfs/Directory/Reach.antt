-- ===== src/Tmpfs/Directory/Reach.antt =====
-- The directories that the calls of kernel/tmpfs.c can lead to.
use mathlib.Core.Path.{subst}
use aurora_os.Prelude.{
  ℕ, ◌≡◌, refl, ap, Bool, true, false, not, ◌&&◌, ◌||◌, Option, none, some, List, if◌then◌else◌,
  Option-cases, inl, inr, if-holds, if-cases,
}
use aurora_os.Tmpfs.Directory.{
  strcmp_equal, Inode, Node, node, no_node, inode_of, children_of, has_children, find_child, Dir,
  Result, tmpfs_lookup, new_inode, add_child, name_taken, tmpfs_create_file, tmpfs_mkdir,
  drop_child, tmpfs_unlink, tmpfs_rmdir, new_dir,
}
use aurora_os.Tmpfs.Directory.Names.{
  WellFormed, find-unlink, new_dir-WellFormed, add_child-WellFormed, drop_child-WellFormed,
}

-- A new directory, and calls on it.
pub data History : Dir → Type 0 where
  made : (name : List ℕ) (ino next_ino : ℕ) → History (new_dir name ino next_ino)
  file_added :
      (mem_ok : Bool) (name : List ℕ) (d : Dir)
      → History d
      → History (tmpfs_create_file mem_ok d name).1
  dir_added :
      (mem_ok : Bool) (name : List ℕ) (d : Dir) → History d → History (tmpfs_mkdir mem_ok d name).1
  file_dropped : (name : List ℕ) (d : Dir) → History d → History (tmpfs_unlink d name).1
  dir_dropped : (name : List ℕ) (d : Dir) → History d → History (tmpfs_rmdir d name).1

abbrev Keeps : Result → Type 0
Keeps r = WellFormed r.1

create-WellFormed :
    (mem_ok : Bool) (name : List ℕ) (d : Dir)
    → WellFormed d
    → WellFormed (tmpfs_create_file mem_ok d name).1
unfolding tmpfs_create_file
create-WellFormed mem_ok name d w = if-holds Keeps (not (inode_of d.self).is_dir) w (
    if-cases Keeps (name_taken d name) (λ e. w)
      (λ free.
        if-holds Keeps (not mem_ok) w
          (add_child-WellFormed (new_inode name d.next_ino 0o644 1 false) d free w)))

mkdir-WellFormed :
    (mem_ok : Bool) (name : List ℕ) (d : Dir)
    → WellFormed d
    → WellFormed (tmpfs_mkdir mem_ok d name).1
unfolding tmpfs_mkdir
mkdir-WellFormed mem_ok name d w = if-holds Keeps (not (inode_of d.self).is_dir) w (
    if-cases Keeps (name_taken d name) (λ e. w)
      (λ free.
        if-holds Keeps (not mem_ok) w
          (add_child-WellFormed (new_inode name d.next_ino 0o755 2 true) d free w)))

unlink-WellFormed : (name : List ℕ) (d : Dir) → WellFormed d → WellFormed (tmpfs_unlink d name).1
unfolding tmpfs_unlink
unlink-WellFormed name d w =
    if-holds Keeps (not (inode_of d.self).is_dir) w
      (elim (Option-cases (find_child name (children_of d.self))) [
        | inl missing ↦ rw missing w
        | inr (n, found) ↦ rw found (
            if-cases Keeps (inode_of n).is_dir (λ e. w)
              λ file.
                subst (λ k. WellFormed (drop_child name k d)) (ap (λ b. if b then 1 else 0) file)
                  (drop_child-WellFormed name d n found w))
      ])

rmdir-WellFormed : (name : List ℕ) (d : Dir) → WellFormed d → WellFormed (tmpfs_rmdir d name).1
unfolding tmpfs_rmdir
rmdir-WellFormed name d w =
    if-holds Keeps (not (inode_of d.self).is_dir) w
      (elim (Option-cases (find_child name (children_of d.self))) [
        | inl missing ↦ rw missing w
        | inr (n, found) ↦ rw found (
            if-cases Keeps (not (inode_of n).is_dir || has_children n) (λ e. w)
              λ empty.
                subst (λ k. WellFormed (drop_child name k d))
                  (ap (λ b. if b then 1 else 0)
                    (is_dir_of (inode_of n).is_dir (has_children n) empty))
                  (drop_child-WellFormed name d n found w))
      ])
  where
    is_dir_of : (a b : Bool) → (not a || b) ≡ false → a ≡ true
    is_dir_of true b e = refl
    is_dir_of false b e = absurd (cc e)

-- In a new directory, after any calls on it, no two children have one name, and the directory has two
-- links and one more for each directory in it, at the width of 32 bits.
pub History-WellFormed : (d : Dir) → History d → WellFormed d
History-WellFormed _ (made name ino next_ino) = new_dir-WellFormed name ino next_ino
History-WellFormed _ (file_added mem_ok name d h) =
    create-WellFormed mem_ok name d (History-WellFormed d h)
History-WellFormed _ (dir_added mem_ok name d h) =
    mkdir-WellFormed mem_ok name d (History-WellFormed d h)
History-WellFormed _ (file_dropped name d h) = unlink-WellFormed name d (History-WellFormed d h)
History-WellFormed _ (dir_dropped name d h) = rmdir-WellFormed name d (History-WellFormed d h)

-- What an operation does to the map from names to children: its name leads to the new child, if it has
-- succeeded, and every other name to what it led to before.
abbrev pub Updates : Dir → List ℕ → Option Node → List ℕ → Result → Type 0
Updates d name new other r =
    tmpfs_lookup r.1 other ≡ (if r.0 && strcmp_equal name other then new else tmpfs_lookup d other)

add_child-Updates :
    (inode : Inode) (links : ℕ) (d : Dir) (other : List ℕ)
    → Updates d inode.name (some (node inode no_node)) other (true, add_child inode links d)
unfolding tmpfs_lookup
add_child-Updates inode links d other = refl

drop_child-Updates :
    (name : List ℕ) (links : ℕ) (d : Dir) (other : List ℕ)
    → WellFormed d
    → Updates d name none other (true, drop_child name links d)
unfolding tmpfs_lookup drop_child
drop_child-Updates name links d other w = find-unlink name other (children_of d.self) w.names

-- After any calls on a new directory, tmpfs_create_file, tmpfs_mkdir, tmpfs_unlink and tmpfs_rmdir act as
-- on a map from names: where they succeed their name leads to the new child, or to none, and every other
-- name leads to what it led to before; where they fail every name does.
pub lookup-Updates :
    (mem_ok : Bool) (name other : List ℕ) (d : Dir)
    → History d
    → Updates d name
        (some (node (new_inode name d.next_ino 0o644 1 false) no_node))
        other
        (tmpfs_create_file mem_ok d name)
      × Updates d name
          (some (node (new_inode name d.next_ino 0o755 2 true) no_node))
          other
          (tmpfs_mkdir mem_ok d name)
      × Updates d name none other (tmpfs_unlink d name)
      × Updates d name none other (tmpfs_rmdir d name)
unfolding tmpfs_create_file tmpfs_mkdir tmpfs_unlink tmpfs_rmdir
lookup-Updates mem_ok name other d h = (
  adds (new_inode name d.next_ino 0o644 1 false) 0,
  adds (new_inode name d.next_ino 0o755 2 true) 1,
  if-holds Drops (not (inode_of d.self).is_dir) refl
      (drops (λ n. (inode_of n).is_dir) 0 (find_child name (children_of d.self))),
  if-holds Drops (not (inode_of d.self).is_dir) refl (
      drops (λ n. not (inode_of n).is_dir || has_children n) 1
        (find_child name (children_of d.self))),
)
  where
    adds :
        (inode : Inode) (links : ℕ)
        → Updates d inode.name (some (node inode no_node)) other (
            if not (inode_of d.self).is_dir
            then (false, d)
            else if name_taken d inode.name
            then (false, d)
            else if not mem_ok
            then (false, d)
            else (true, add_child inode links d))
    adds inode links =
        let Adds : Result → Type 0 = Updates d inode.name (some (node inode no_node)) other in
        if-holds Adds (not (inode_of d.self).is_dir) refl (
          if-holds Adds (name_taken d inode.name) refl
            (if-holds Adds (not mem_ok) refl (add_child-Updates inode links d other)))

    Drops : Result → Type 0
    Drops = Updates d name none other

    drops :
        (stays : Node → Bool) (links : ℕ) (found : Option Node)
        → Drops (elim found [
          | none ↦ (false, d)
          | some n ↦ if stays n then (false, d) else (true, drop_child name links d)
        ])
    drops stays links none = refl
    drops stays links (some n) =
        if-holds Drops (stays n) refl
          (drop_child-Updates name links d other (History-WellFormed d h))
