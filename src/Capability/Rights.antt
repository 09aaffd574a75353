-- ===== src/Capability/Rights.antt =====
-- No process but init can come by a right through kernel/capability.c that none of its descriptors has.
use aurora_os.Prelude.{ℕ, ◌%◌, ◌^◌, ◌≤◌, ◌≢◌, Bool, none, some, List, [], ◌∷◌, bit}
use aurora_os.Capability.{
  Task, Refs, held_caps, cap_fd_alloc, cap_fd_close, cap_fd_close_all, fd_derive,
}
use aurora_os.Capability.Alloc.{AllWords}

-- The calls of one process on its own table. An argument for rights is a `uint32_t`.
pub data Request : Type 0 where
  alloc : Bool → ℕ → ℕ → Request
  derive : Bool → ℕ → ℕ → Request
  close : ℕ → Request
  close_all : Request

unfoldable pub serve : Request → Task → Refs → Task × Refs
serve (alloc mem_ok filp caps) t refs = elim (cap_fd_alloc mem_ok t filp (caps % 2 ^ 32)) [
  | none ↦ (t, refs)
  | some (fd, t') ↦ (t', refs)
]
serve (derive mem_ok fd caps) t refs =
    let (new_fd, t', refs') = fd_derive mem_ok t fd (caps % 2 ^ 32) refs in (t', refs')
serve (close fd) t refs = let (done, t', refs') = cap_fd_close t fd refs in (t', refs')
serve close_all t refs = cap_fd_close_all t refs

unfoldable pub serve_all : List Request → Task → Refs → Task × Refs
serve_all [] t refs = (t, refs)
serve_all (r ∷ rest) t refs = let (t', refs') = serve r t refs in serve_all rest t' refs'

-- `after` is a process that is not init, with no right that `before` has not.
pub record Within (before after : Task) : Type 0 where
  pub plain : after.pid ≢ 1
  pub words : AllWords after.fd_table
  pub rights : (i : ℕ) → bit (held_caps after.fd_table) i ≤ bit (held_caps before.fd_table) i
