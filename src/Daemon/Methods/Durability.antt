-- ===== src/Daemon/Methods/Durability.antt =====
-- What a restart finds after a method, whether or not the state could be saved.
use legion_linux_toolkit_rus.Prelude.{◌≡◌, ◌≢◌, ◌⊎◌, inl, inr, ap, ◌∙◌, arith}
use legion_linux_toolkit_rus.Prelude.Result.{Result-cases}
use legion_linux_toolkit_rus.Daemon.State
use legion_linux_toolkit_rus.Daemon.State.RoundTrip.{IsStorage, load-save, load-save_failed}
use legion_linux_toolkit_rus.Daemon.Iface.{Outside, Daemon, Call}
use legion_linux_toolkit_rus.Daemon.Methods.{authorize, handle, emit, persist}

module _ (W : Outside) (hdr : W.bus.Header) (d : Daemon) where
  handle-disk :
      (c : Call)
      → ((handle W c hdr d).1.disk ≡ d.disk)
        ⊎ ((handle W c hdr d).1.disk
            ≡ (State.save W.storage (handle W c hdr d).1.state d.state_path d.disk).1)
  unfolding handle authorize emit persist
  handle-disk (Call.set_profile v) = ground arith
  handle-disk _ = ground arith

  module _ (I : IsStorage W.storage) (apart : d.state_path.path ≢ d.state_path.tmp) where
    -- On a disk that does what the standard library documents, and with a temporary path apart from
    -- that of the state, after a method, whether it succeeds or fails and whether or not the save
    -- succeeds, a restart loads the state it would have loaded before the method, or the state of
    -- the daemon.
    pub load-handle :
        (c : Call)
        → (State.load W.storage d.state_path (handle W c hdr d).1.disk
            ≡ State.load W.storage d.state_path d.disk)
          ⊎ (State.load W.storage d.state_path (handle W c hdr d).1.disk
              ≡ (handle W c hdr d).1.state)
    load-handle c = elim (handle-disk c) [
      | inl same ↦ inl (ap (State.load W.storage d.state_path) same)
      | inr saved ↦
          let s = (handle W c hdr d).1.state in
          elim (Result-cases (State.save W.storage s d.state_path d.disk).0) [
            | inl (u, w) ↦ inr (
                ap (State.load W.storage d.state_path) saved
                ∙ load-save W.storage I d.state_path apart s d.disk w)
            | inr (e, w) ↦ inl (
                ap (State.load W.storage d.state_path) saved
                ∙ load-save_failed W.storage I d.state_path apart s d.disk e w)
          ]
    ]
