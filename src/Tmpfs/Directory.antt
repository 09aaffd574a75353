-- ===== src/Tmpfs/Directory.antt =====
-- kernel/tmpfs.c, directories: a directory has the list of its children, the newest first. A name is the
-- list of its characters, none of which is 0; kmalloc has memory for all that a call asks for, or not.
pub mod Names
pub mod Reach
use aurora_os.Prelude.{
  ℕ, zero, suc, ◌+◌, ◌-◌, ◌%◌, ◌^◌, Bool, true, false, not, ◌&&◌, ◌||◌, Option, none, some, List,
  [], ◌∷◌, ◌==◌, if◌then◌else◌,
}
use aurora_os.Tmpfs.{Content}

-- `strcmp(a, b) == 0`
unfoldable pub strcmp_equal : List ℕ → List ℕ → Bool
strcmp_equal [] [] = true
strcmp_equal [] (y ∷ b) = false
strcmp_equal (x ∷ a) [] = false
strcmp_equal (x ∷ a) (y ∷ b) = x == y && strcmp_equal a b

-- What `struct tmpfs_inode` says of itself.
pub record Inode : Type 0 where
  pub name : List ℕ
  pub ino : ℕ
  pub mode : ℕ
  pub nlink : ℕ
  pub is_dir : Bool
  pub file : Content

mutual
  -- `struct tmpfs_inode`, with its children.
  pub data Node : Type 0 where
    node : Inode → Nodes → Node

  pub data Nodes : Type 0 where
    no_node : Nodes
    and_node : Node → Nodes → Nodes

abbrev pub inode_of : Node → Inode
inode_of (node inode children) = inode

abbrev pub children_of : Node → Nodes
children_of (node inode children) = children

abbrev pub has_children : Node → Bool
has_children (node inode no_node) = false
has_children (node inode (and_node first rest)) = true

-- The loop over the children, up to the first of the name.
unfoldable pub find_child : List ℕ → Nodes → Option Node
unfolding strcmp_equal
find_child name no_node = none
find_child name (and_node n rest) =
    if strcmp_equal (inode_of n).name name then some n else find_child name rest

-- The list without the first child of the name.
unfoldable pub unlink_child : List ℕ → Nodes → Nodes
unfolding strcmp_equal
unlink_child name no_node = no_node
unlink_child name (and_node n rest) =
    if strcmp_equal (inode_of n).name name then rest else and_node n (unlink_child name rest)

-- A directory, and the static counter tmpfs_next_ino.
pub record Dir : Type 0 where
  pub self : Node
  pub next_ino : ℕ

-- 0 or -1 as a Boolean, and the directory after the call.
abbrev pub Result : Type 0
Result = Bool × Dir

unfoldable pub tmpfs_lookup : Dir → List ℕ → Option Node
unfolding find_child
tmpfs_lookup d name = find_child name (children_of d.self)

abbrev pub new_inode : List ℕ → ℕ → ℕ → ℕ → Bool → Inode
new_inode name ino mode nlink is_dir = record {
  name = name;
  ino = ino;
  mode = mode;
  nlink = nlink;
  is_dir = is_dir;
  file = record { size = 0; pages = [] };
}

-- The new child comes first; a directory in it counts as one more link of its parent.
abbrev pub add_child : Inode → ℕ → Dir → Dir
add_child inode more_links d =
    let parent : Inode = inode_of d.self in
    let linked : Inode = record parent { nlink = (parent.nlink + more_links) % 2 ^ 32 } in
    record {
      self = node linked (and_node (node inode no_node) (children_of d.self));
      next_ino = (d.next_ino + 1) % 2 ^ 32;
    }

abbrev pub name_taken : Dir → List ℕ → Bool
unfolding find_child
name_taken d name = elim (find_child name (children_of d.self)) [ none ↦ false | some n ↦ true ]

unfoldable pub tmpfs_create_file : Bool → Dir → List ℕ → Result
unfolding find_child
tmpfs_create_file mem_ok d name =
    if not (inode_of d.self).is_dir
    then (false, d)
    else if name_taken d name
    then (false, d)
    else if not mem_ok
    then (false, d)
    else (true, add_child (new_inode name d.next_ino 0o644 1 false) 0 d)

unfoldable pub tmpfs_mkdir : Bool → Dir → List ℕ → Result
unfolding find_child
tmpfs_mkdir mem_ok d name =
    if not (inode_of d.self).is_dir
    then (false, d)
    else if name_taken d name
    then (false, d)
    else if not mem_ok
    then (false, d)
    else (true, add_child (new_inode name d.next_ino 0o755 2 true) 1 d)

abbrev pub drop_child : List ℕ → ℕ → Dir → Dir
unfolding unlink_child
drop_child name fewer_links d =
    let parent : Inode = inode_of d.self in
    let unlinked : Inode = record parent {
      nlink = (parent.nlink + (2 ^ 32 - fewer_links)) % 2 ^ 32;
    } in
    record d { self = node unlinked (unlink_child name (children_of d.self)) }

unfoldable pub tmpfs_unlink : Dir → List ℕ → Result
unfolding find_child unlink_child
tmpfs_unlink d name =
    if not (inode_of d.self).is_dir
    then (false, d)
    else elim (find_child name (children_of d.self)) [
      | none ↦ (false, d)
      | some n ↦ if (inode_of n).is_dir then (false, d) else (true, drop_child name 0 d)
    ]

unfoldable pub tmpfs_rmdir : Dir → List ℕ → Result
unfolding find_child unlink_child
tmpfs_rmdir d name =
    if not (inode_of d.self).is_dir
    then (false, d)
    else elim (find_child name (children_of d.self)) [
      | none ↦ (false, d)
      | some n ↦
          if not (inode_of n).is_dir || has_children n
          then (false, d)
          else (true, drop_child name 1 d)
    ]

-- A directory as tmpfs_create or tmpfs_mkdir makes it.
abbrev pub new_dir : List ℕ → ℕ → ℕ → Dir
new_dir name ino next_ino = record {
  self = node (new_inode name ino 0o755 2 true) no_node;
  next_ino = next_ino;
}

-- The root directory; its number comes from the counter.
abbrev pub tmpfs_create : ℕ → Dir
tmpfs_create next_ino = new_dir [] next_ino ((next_ino + 1) % 2 ^ 32)
