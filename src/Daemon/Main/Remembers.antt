-- ===== src/Daemon/Main/Remembers.antt =====
-- What a restart finds after a run of the loop.
use legion_linux_toolkit_rus.Prelude.{
  List, [], ◌∷◌, ◌++◌, ◌≡◌, ◌≢◌, ◌⊎◌, inl, inr, refl, sym, ap, ◌∙◌, arith,
}
use legion_linux_toolkit_rus.Prelude.Result.{ok}
use legion_linux_toolkit_rus.Hw.Sysfs.{Sysfs}
use legion_linux_toolkit_rus.Daemon.Auth.{Authorizer}
use legion_linux_toolkit_rus.Daemon.State
use legion_linux_toolkit_rus.Daemon.State.{State, StatePath, Disk}
use legion_linux_toolkit_rus.Daemon.State.RoundTrip.{IsStorage, load-save}
use legion_linux_toolkit_rus.Daemon.Iface.{Outside, Daemon, Call}
use legion_linux_toolkit_rus.Daemon.Methods.{authorize, handle, emit, persist}
use legion_linux_toolkit_rus.Daemon.Methods.Durability.{load-handle}
use legion_linux_toolkit_rus.Daemon.Reapply.{reapply_state}
use legion_linux_toolkit_rus.Daemon.Main.{
  App, Event, firmware, wake, prepare_for_sleep, call, ctrl_c, start, step, run,
}
use legion_linux_toolkit_rus.Daemon.Main.Firmware.{wake-IsKept, sleep-IsKept}
use legion_linux_toolkit_rus.Daemon.Main.History.{recorded_by, replies, run-recorded}

module _ (W : Outside) where
  handle-state_path :
      (c : Call) (hdr : W.bus.Header) (d : Daemon) → (handle W c hdr d).1.state_path ≡ d.state_path
  unfolding handle authorize persist emit
  handle-state_path c hdr d = ground arith

  -- A method that leaves the state file alone leaves the state alone.
  handle-saved :
      (c : Call) (hdr : W.bus.Header) (d : Daemon)
      → (((handle W c hdr d).1.disk ≡ d.disk) × ((handle W c hdr d).1.state ≡ d.state))
        ⊎ ((handle W c hdr d).1.disk
            ≡ (State.save W.storage (handle W c hdr d).1.state d.state_path d.disk).1)
  unfolding handle authorize emit persist
  handle-saved (Call.set_profile v) hdr d = ground arith
  handle-saved (Call.set_battery_mode v) hdr d = ground arith
  handle-saved _ hdr d = ground arith

module _ (W : Outside) (I : IsStorage W.storage) (at : StatePath) (apart : at.path ≢ at.tmp) where
  abbrev loads : Disk → State
  loads disk = State.load W.storage at disk

  load-handle_at :
      (c : Call) (hdr : W.bus.Header) (d : Daemon)
      → d.state_path ≡ at
      → (loads (handle W c hdr d).1.disk ≡ loads d.disk)
        ⊎ (loads (handle W c hdr d).1.disk ≡ (handle W c hdr d).1.state)
  load-handle_at c hdr d h = rw (← h) (load-handle W hdr d I (rw h apart) c)

  -- Some moment of the run of the loop: what came before it, and what came after.
  abbrev pub Moment : App → List (Event W) → State → Type 0
  Moment a es s =
      (before : List (Event W)) × (after : List (Event W)) × (es ≡ before ++ after)
      × (s ≡ (run W a before).daemon.state)

  load-run :
      (es : List (Event W)) (a : App)
      → a.daemon.state_path ≡ at
      → (loads (run W a es).daemon.disk ≡ loads a.daemon.disk)
        ⊎ Moment a es (loads (run W a es).daemon.disk)
  unfolding run
  load-run [] a h = inl refl
  load-run (ctrl_c ∷ rest) a h = inl refl
  load-run (firmware root ∷ rest) a h = elim (load-run rest (step W a (firmware root)) h) [
    | inl same ↦ inl same
    | inr (b, f, e, l) ↦ inr (firmware root ∷ b, f, ap (◌∷◌ (firmware root)) e, l)
  ]
  load-run (wake v ∷ rest) a h =
      let k = wake-IsKept W a v in
      elim (load-run rest (step W a (wake v)) (k.state_path ∙ h)) [
        | inl same ↦ inl (same ∙ ap loads k.disk)
        | inr (b, f, e, l) ↦ inr (wake v ∷ b, f, ap (◌∷◌ (wake v)) e, l)
      ]
  load-run (prepare_for_sleep s ∷ rest) a h =
      let k = sleep-IsKept W a s in
      elim (load-run rest (step W a (prepare_for_sleep s)) (k.state_path ∙ h)) [
        | inl same ↦ inl (same ∙ ap loads k.disk)
        | inr (b, f, e, l) ↦ inr (prepare_for_sleep s ∷ b, f, ap (◌∷◌ (prepare_for_sleep s)) e, l)
      ]
  load-run (call c hdr ∷ rest) a h =
      elim (load-run rest (step W a (call c hdr)) (handle-state_path W c hdr a.daemon ∙ h)) [
        | inr (b, f, e, l) ↦ inr (call c hdr ∷ b, f, ap (◌∷◌ (call c hdr)) e, l)
        | inl same ↦ elim (load-handle_at c hdr a.daemon h) [
          | inl left ↦ inl (same ∙ left)
          | inr now ↦ inr (call c hdr ∷ [], rest, refl, same ∙ now)
        ]
      ]

  -- A daemon that was started from its state file, and ran: whatever calls, wakes, suspends and
  -- changes of the files came and whether or not its saves succeeded, after a restart it has the
  -- settings of some moment of the run, which are those at the start with the calls recorded that
  -- were taken until then. The disk does what the standard library documents, and the temporary
  -- path is apart from that of the state.
  pub start-run :
      (a : App) (es : List (Event W)) (root : Sysfs) (authorizer : Authorizer)
      → a.daemon.state_path ≡ at
      → loads a.daemon.disk ≡ a.daemon.state
      → (before : List (Event W)) × (after : List (Event W)) × (es ≡ before ++ after)
        × ((start W root (run W a es).daemon.disk at authorizer).state
            ≡ recorded_by (replies W a before) a.daemon.state)
  unfolding start reapply_state run replies recorded_by
  start-run a es root authorizer h synced = elim (load-run es a h) [
    | inl same ↦ ([], es, refl, same ∙ synced)
    | inr (b, f, e, l) ↦ (b, f, e, l ∙ run-recorded W b a)
  ]

  module _ (saves : (s : State) (disk : Disk) → (State.save W.storage s at disk).0 ≡ ok tt) where
    call-synced :
        (c : Call) (hdr : W.bus.Header) (d : Daemon)
        → d.state_path ≡ at
        → loads d.disk ≡ d.state
        → loads (handle W c hdr d).1.disk ≡ (handle W c hdr d).1.state
    call-synced c hdr d h synced = elim (handle-saved W c hdr d) [
      | inl (disk, state) ↦ ap loads disk ∙ synced ∙ sym state
      | inr saved ↦
          let s = (handle W c hdr d).1.state in
          ap loads saved
          ∙ ap (λ p. loads (State.save W.storage s p d.disk).1) h
          ∙ load-save W.storage I at apart s d.disk (saves s d.disk)
    ]

    run-synced :
        (es : List (Event W)) (a : App)
        → a.daemon.state_path ≡ at
        → loads a.daemon.disk ≡ a.daemon.state
        → loads (run W a es).daemon.disk ≡ (run W a es).daemon.state
    unfolding run
    run-synced [] a h synced = synced
    run-synced (ctrl_c ∷ rest) a h synced = synced
    run-synced (firmware root ∷ rest) a h synced =
        run-synced rest (step W a (firmware root)) h synced
    run-synced (wake v ∷ rest) a h synced =
        let k = wake-IsKept W a v in
        run-synced rest (step W a (wake v)) (k.state_path ∙ h)
          (ap loads k.disk ∙ synced ∙ sym k.state)
    run-synced (prepare_for_sleep s ∷ rest) a h synced =
        let k = sleep-IsKept W a s in
        run-synced rest (step W a (prepare_for_sleep s)) (k.state_path ∙ h)
          (ap loads k.disk ∙ synced ∙ sym k.state)
    run-synced (call c hdr ∷ rest) a h synced =
        run-synced rest (step W a (call c hdr)) (handle-state_path W c hdr a.daemon ∙ h)
          (call-synced c hdr a.daemon h synced)

    -- Where in addition every save succeeds, a restart has lost nothing: it has the settings at the
    -- start with all calls of the run recorded that were taken.
    pub start-run_saved :
        (a : App) (es : List (Event W)) (root : Sysfs) (authorizer : Authorizer)
        → a.daemon.state_path ≡ at
        → loads a.daemon.disk ≡ a.daemon.state
        → (start W root (run W a es).daemon.disk at authorizer).state
          ≡ recorded_by (replies W a es) a.daemon.state
    unfolding start reapply_state
    start-run_saved a es root authorizer h synced = run-synced es a h synced ∙ run-recorded W es a
