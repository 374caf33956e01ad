-- ===== src/Daemon/State/RoundTrip.antt =====
-- Saving the state and loading it again.
use legion_linux_toolkit_rus.Prelude.{String, Option, none, some, ◌≡◌, ◌≢◌, refl, ◌∙◌, inl, inr}
use legion_linux_toolkit_rus.Prelude.Result.{Result, ok, err, Result-cases}
use legion_linux_toolkit_rus.Hw.Error.{IoError}
use legion_linux_toolkit_rus.Daemon.State.{
  State, Disk, Storage, StatePath, load, save, save_text, make_parent, and_then,
}

-- What the standard library and the operating system document of the calls on files, and
-- `serde_json` of the text of a state.
pub record IsStorage (S : Storage) : Type 0 where
  pub wrote : (d : Disk) (p t : String) → (S.write d p t).0 ≡ ok tt → (S.write d p t).1 p ≡ ok t
  pub write_keeps : (d : Disk) (p t q : String) → q ≢ p → (S.write d p t).1 q ≡ d q
  pub renamed : (d : Disk) (p q : String) → (S.rename d p q).0 ≡ ok tt → (S.rename d p q).1 q ≡ d p
  pub not_renamed :
      (d : Disk) (p q : String) (e : IoError) → (S.rename d p q).0 ≡ err e → (S.rename d p q).1 ≡ d
  pub made : (d : Disk) (p q : String) → (S.create_dir_all d p).1 q ≡ d q
  pub decodes : (s : State) (t : String) → S.to_string_pretty s ≡ ok t → S.from_str t ≡ some s

module _ (p : Result IoError (Unit {0}) × Disk) (f : Disk → Result IoError (Unit {0}) × Disk) where
  and_then-ok : p.0 ≡ ok tt → and_then p f ≡ f p.1
  and_then-ok h = rw h

  and_then-err : (e : IoError) → p.0 ≡ err e → and_then p f ≡ (err e, p.1)
  and_then-err e h = rw h

module _ (S : Storage) where
  pub load_cong : (at : StatePath) (d e : Disk) → d at.path ≡ e at.path → load S at d ≡ load S at e
  unfolding load
  load_cong at d e h = rw h

module _ (S : Storage) (I : IsStorage S) where
  pub make_parent-keeps :
      (parent : Option String) (disk : Disk) (q : String) → (make_parent S parent disk).1 q ≡ disk q
  make_parent-keeps none disk q = refl
  make_parent-keeps (some p) disk q = I.made disk p q

module _ (S : Storage) (I : IsStorage S) (at : StatePath) (apart : at.path ≢ at.tmp) where
  -- The last two steps, where they succeed and where they fail.
  save_text-ok :
      (json : String) (d : Disk)
      → (save_text S at (ok json) d).0 ≡ ok tt
      → (save_text S at (ok json) d).1 at.path ≡ ok json
  save_text-ok json d h = elim (Result-cases (S.write d at.tmp json).0) [
    | inl (u, w) ↦
        rw w
          (I.renamed (S.write d at.tmp json).1 at.tmp at.path (rw w at h) ∙ I.wrote d at.tmp json w)
    | inr (e, w) ↦ cc (rw w at h)
  ]

  save_text-err :
      (json : Result IoError String) (d : Disk) (e : IoError)
      → (save_text S at json d).0 ≡ err e
      → (save_text S at json d).1 at.path ≡ d at.path
  save_text-err (err x) d e h = refl
  save_text-err (ok json) d e h = elim (Result-cases (S.write d at.tmp json).0) [
    | inl (u, w) ↦ rw w (
        rw (I.not_renamed (S.write d at.tmp json).1 at.tmp at.path e (rw w at h))
          (I.write_keeps d at.tmp json at.path apart))
    | inr (x, w) ↦ rw w (I.write_keeps d at.tmp json at.path apart)
  ]

  save_lem :
      (s : State) (disk : Disk)
      → (make_parent S at.parent disk).0 ≡ ok tt
      → save S s at disk ≡ save_text S at (S.to_string_pretty s) (make_parent S at.parent disk).1
  unfolding save
  save_lem s disk w = and_then-ok (make_parent S at.parent disk) _ w

  save-no_parent :
      (s : State) (disk : Disk) (e : IoError)
      → (make_parent S at.parent disk).0 ≡ err e
      → save S s at disk ≡ (err e, (make_parent S at.parent disk).1)
  unfolding save
  save-no_parent s disk e w = and_then-err (make_parent S at.parent disk) _ e w

  -- On a disk that does what the standard library documents, a state whose save succeeds is the
  -- state that is loaded afterwards.
  pub load-save :
      (s : State) (disk : Disk) → (save S s at disk).0 ≡ ok tt → load S at (save S s at disk).1 ≡ s
  unfolding load
  load-save s disk h = elim (Result-cases (make_parent S at.parent disk).0) [
    | inr (x, w) ↦ cc (rw (save-no_parent s disk x w) at h)
    | inl (u, w) ↦ elim (Result-cases (S.to_string_pretty s)) [
      | inr (x, t) ↦ cc (rw (save_lem s disk w, t) at h)
      | inl (json, t) ↦
          rw
            (
              save_lem s disk w,
              t,
              save_text-ok json (make_parent S at.parent disk).1 (rw (save_lem s disk w, t) at h),
              I.decodes s json t,
            )
            refl
    ]
  ]

  -- After a save that fails, the state that is loaded is the one that was loaded before.
  pub load-save_failed :
      (s : State) (disk : Disk) (e : IoError)
      → (save S s at disk).0 ≡ err e
      → load S at (save S s at disk).1 ≡ load S at disk
  load-save_failed s disk e h = elim (Result-cases (make_parent S at.parent disk).0) [
    | inl (u, w) ↦ load_cong S at _ _ (
        rw (save_lem s disk w) (
          save_text-err (S.to_string_pretty s) (make_parent S at.parent disk).1 e
            (rw (save_lem s disk w) at h)
          ∙ make_parent-keeps S I at.parent disk at.path))
    | inr (x, w) ↦
        load_cong S at _ _
          (rw (save-no_parent s disk x w) (make_parent-keeps S I at.parent disk at.path))
  ]
