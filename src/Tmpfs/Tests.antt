-- ===== src/Tmpfs/Tests.antt =====
-- tmpfs on small inputs.
use aurora_os.Prelude.{ℕ, ◌≡◌, ◌⊎◌, ◌==◌, refl, true, false, none, some, List, [], ◌∷◌, arith}
use aurora_os.Tmpfs.{Content, tmpfs_read, tmpfs_write}
use aurora_os.Tmpfs.Overwrite.{Kept, Overwritten, tmpfs_write-cases, tmpfs_read-tmpfs_write}
use aurora_os.Tmpfs.Directory.{
  Dir, node, no_node, new_inode, tmpfs_create, tmpfs_create_file, tmpfs_mkdir, tmpfs_unlink,
  tmpfs_rmdir,
}
use aurora_os.Tmpfs.Directory.Names.{WellFormed}
use aurora_os.Tmpfs.Directory.Reach.{
  made, dir_added, dir_dropped, Updates, History-WellFormed, lookup-Updates,
}

abbrev new_file : Content
new_file = record { size = 0; pages = [] }

abbrev word : List ℕ
word = 104 ∷ 101 ∷ 108 ∷ 108 ∷ 111 ∷ []

-- Over the border of the first two pages.
abbrev crossing : Content
crossing = (tmpfs_write true (λ idx. true) new_file word 4094).file

crossing-read : tmpfs_read crossing 7 4093 ≡ (0 ∷ word, 4099)
unfolding tmpfs_read tmpfs_write
crossing-read = refl

-- One page is missing: nothing is written.
half_full : (tmpfs_write true (λ idx. idx == 0) new_file word 4094).returned ≡ none
unfolding tmpfs_write
half_full = refl

tmpfs_write-cases_example :
    Kept new_file 4094 (tmpfs_write true (λ idx. true) new_file word 4094)
    ⊎ Overwritten new_file word 4094 (tmpfs_write true (λ idx. true) new_file word 4094)
tmpfs_write-cases_example =
    tmpfs_write-cases true (λ idx. true) new_file word 4094 (omega arith) (omega arith)

tmpfs_read-tmpfs_write_example :
    ((tmpfs_write true (λ idx. true) new_file word 4094).returned ≡ some 5)
    × (tmpfs_read crossing 5 4094 ≡ (word, 4099))
tmpfs_read-tmpfs_write_example =
    tmpfs_read-tmpfs_write (λ idx. true) new_file word 4094 (omega arith) (omega arith)
      (omega arith) (λ idx. refl)

abbrev root : Dir
root = tmpfs_create 1

abbrev with_dir : Dir
with_dir = (tmpfs_mkdir true root word).1

History-WellFormed_example : WellFormed (tmpfs_rmdir with_dir word).1
History-WellFormed_example =
    History-WellFormed (tmpfs_rmdir with_dir word).1
      (dir_dropped word with_dir (dir_added true word root (made [] 1 2)))

lookup-Updates_example :
    Updates with_dir word
      (some (node (new_inode word 3 0o644 1 false) no_node))
      []
      (tmpfs_create_file true with_dir word)
    × Updates with_dir word
        (some (node (new_inode word 3 0o755 2 true) no_node))
        []
        (tmpfs_mkdir true with_dir word)
    × Updates with_dir word none [] (tmpfs_unlink with_dir word)
    × Updates with_dir word none [] (tmpfs_rmdir with_dir word)
unfolding tmpfs_mkdir
lookup-Updates_example =
    lookup-Updates true word [] with_dir (dir_added true word root (made [] 1 2))

-- A name is name_taken once, a directory is no file, and it can go when it is empty.
answers :
    (tmpfs_create_file true with_dir word).0
      ∷ (tmpfs_unlink with_dir word).0
      ∷ (tmpfs_rmdir with_dir word).0
      ∷ []
    ≡ false ∷ false ∷ true ∷ []
unfolding tmpfs_create_file tmpfs_mkdir tmpfs_unlink tmpfs_rmdir
answers = refl
