-- ===== src/Maintain/Admin.antt =====
-- src/event_store/admin.rs: deletion of the whole store.
pub mod Empty
use marmosa.Common.{List, [], ◌∷◌, Str, str}
use marmosa.Exec.{Exec, pure, ignore, ◌>>=◌, ◌>>◌}
use marmosa.Ports.{Platform}

module _ (p : Platform) where
  open p use {backend}
  open p.backend use {State}

  -- The loop over the directories
  unfoldable pub delete_dirs : List Str → Exec State (Unit {0})
  delete_dirs [] = pure tt
  delete_dirs (dir ∷ dirs) = do ignore (backend.delete_dir_all dir); delete_dirs dirs

  -- `delete_store`
  unfoldable pub delete_store : Exec State (Unit {0})
  unfolding delete_dirs
  delete_store = do
    delete_dirs (str "Events" ∷ str "Indices" ∷ str "Projections" ∷ str ".ledger" ∷ [])
    ignore (backend.delete_file (str ".store.lock"))
