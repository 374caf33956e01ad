-- ===== src/Daemon/State/Crash.antt =====
-- A crash in the middle of a save.
use legion_linux_toolkit_rus.Prelude.{String, ◌≡◌, ◌≢◌, ◌⊎◌, refl, ◌∙◌, inl, inr}
use legion_linux_toolkit_rus.Prelude.Result.{ok, Result-cases}
use legion_linux_toolkit_rus.Daemon.State.{State, Disk, Storage, StatePath, load, save, make_parent}
use legion_linux_toolkit_rus.Daemon.State.RoundTrip.{
  IsStorage, load_cong, make_parent-keeps, load-save, load-save_failed,
}

-- The disks that a crash during `save` can leave: before the first step, after the folder is
-- made, with any content of the temporary file while that is being written, and after the save
-- has returned. Renaming is atomic.
pub data Crashed (S : Storage) (s : State) (at : StatePath) (disk : Disk) : Disk → Type 0 where
  started : Crashed S s at disk disk
  made : Crashed S s at disk (make_parent S at.parent disk).1
  torn :
      (json : String) (d : Disk)
      → S.to_string_pretty s ≡ ok json
      → ((q : String) → q ≢ at.tmp → d q ≡ (make_parent S at.parent disk).1 q)
      → Crashed S s at disk d
  returned : Crashed S s at disk (save S s at disk).1

module _ (S : Storage) (I : IsStorage S) (at : StatePath) (apart : at.path ≢ at.tmp) (s : State)
    (disk : Disk) where
  -- On a disk that does what the standard library documents, and with a temporary path apart from
  -- that of the state, wherever a save is interrupted, what is loaded afterwards is the state that
  -- was loaded before the save or the state that was saved.
  pub load-Crashed :
      (d : Disk) → Crashed S s at disk d → (load S at d ≡ load S at disk) ⊎ (load S at d ≡ s)
  load-Crashed _ started = inl refl
  load-Crashed _ made = inl (load_cong S at _ _ (make_parent-keeps S I at.parent disk at.path))
  load-Crashed _ (torn json d t h) =
      inl (load_cong S at _ _ (h at.path apart ∙ make_parent-keeps S I at.parent disk at.path))
  load-Crashed _ returned = elim (Result-cases (save S s at disk).0) [
    | inl (u, w) ↦ inr (load-save S I at apart s disk w)
    | inr (e, w) ↦ inl (load-save_failed S I at apart s disk e w)
  ]
