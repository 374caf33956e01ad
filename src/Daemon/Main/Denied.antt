-- ===== src/Daemon/Main/Denied.antt =====
-- A caller whom polkit does not allow has no influence on a daemon of the system bus.
use legion_linux_toolkit_rus.Prelude.{
  String, Bool, true, false, Option, List, [], ◌∷◌, ◌≡◌, refl, sym, ap, ◌∙◌, arith, filter,
  Bool-cases, inl, inr,
}
use legion_linux_toolkit_rus.Prelude.Result.{Result, ok, err, Result-cases}
use legion_linux_toolkit_rus.Hw.Sysfs.{Sysfs}
use legion_linux_toolkit_rus.Daemon.Error.{DaemonResult}
use legion_linux_toolkit_rus.Daemon.Auth.{Authorizer, check}
use legion_linux_toolkit_rus.Daemon.State.{StatePath, Disk}
use legion_linux_toolkit_rus.Daemon.Iface.{Outside, Daemon, Call}
use legion_linux_toolkit_rus.Daemon.Methods.{emit, handle, authorize, persist}
use legion_linux_toolkit_rus.Daemon.Methods.Authorization.{handle_unauthorized}
use legion_linux_toolkit_rus.Daemon.Reapply.{reapply_state}
use legion_linux_toolkit_rus.Daemon.Watch.{ProfileWatcher}
use legion_linux_toolkit_rus.Daemon.Main.Firmware.{wake-IsKept, sleep-IsKept}
use legion_linux_toolkit_rus.Daemon.Main.{
  App, system, launch, start, Event, firmware, wake, prepare_for_sleep, call, ctrl_c, step, run,
}

abbrev is_ok : DaemonResult (Unit {0}) → Bool
is_ok (ok u) = true
is_ok (err e) = false

module _ (W : Outside) where
  -- An event that is no call of a caller whom polkit does not allow.
  abbrev pub permitted : Event W → Bool
  permitted (call c hdr) = is_ok (check W.bus Authorizer.polkit hdr)
  permitted _ = true

  abbrev Asks : Daemon → Type 0
  Asks d = d.authorizer ≡ Authorizer.polkit

  handle-authorizer :
      (c : Call) (hdr : W.bus.Header) (d : Daemon) → (handle W c hdr d).1.authorizer ≡ d.authorizer
  unfolding handle authorize persist emit
  handle-authorizer c hdr d = ground arith

  step-authorizer : (a : App) (e : Event W) → (step W a e).daemon.authorizer ≡ a.daemon.authorizer
  step-authorizer a (firmware root) = refl
  step-authorizer a (wake v) = (wake-IsKept W a v).authorizer
  step-authorizer a (prepare_for_sleep s) = (sleep-IsKept W a s).authorizer
  step-authorizer a (call c hdr) = handle-authorizer c hdr a.daemon
  step-authorizer a ctrl_c = refl

  denied-left :
      (a : App) (c : Call) (hdr : W.bus.Header)
      → Asks a.daemon
      → permitted (call c hdr) ≡ false
      → step W a (call c hdr) ≡ a
  denied-left a c hdr h denied = elim (Result-cases (check W.bus Authorizer.polkit hdr)) [
    | inl (u, e) ↦ cc (rw e at denied)
    | inr (x, e) ↦
        ap (λ (d : Daemon). record a { daemon = d })
          (ap (λ (p : DaemonResult (Unit {0}) × Daemon). p.1)
            (handle_unauthorized W hdr a.daemon c x (rw h e)))
  ]

  -- The events that the daemon answers without asking who caused them.
  run-next :
      (a : App) (e : Event W) (rest : List (Event W))
      → Asks a.daemon
      → ((b : App) → Asks b.daemon → run W b rest ≡ run W b (filter permitted rest))
      → run W a (e ∷ rest) ≡ run W a (filter permitted (e ∷ rest))
  unfolding run
  run-next a ctrl_c rest h next = refl
  run-next a (firmware root) rest h next = next (step W a (firmware root)) h
  run-next a (wake v) rest h next = next (step W a (wake v)) (step-authorizer a (wake v) ∙ h)
  run-next a (prepare_for_sleep s) rest h next =
      next (step W a (prepare_for_sleep s)) (step-authorizer a (prepare_for_sleep s) ∙ h)
  run-next a (call c hdr) rest h next = elim (Bool-cases (permitted (call c hdr))) [
    | inl allowed ↦ rw allowed (next (step W a (call c hdr)) (step-authorizer a (call c hdr) ∙ h))
    | inr denied ↦ rw denied (ap (λ b. run W b rest) (denied-left a c hdr h denied) ∙ next a h)
  ]

  run-denied :
      (es : List (Event W)) (a : App) → Asks a.daemon → run W a es ≡ run W a (filter permitted es)
  run-denied [] a h = refl
  run-denied (e ∷ rest) a h = run-next a e rest h (λ b i. run-denied rest b i)

  abbrev authorizer_of : Authorizer → Result String Daemon → Authorizer
  authorizer_of a (ok d) = d.authorizer
  authorizer_of a (err e) = a

  launched-Asks :
      (c p : Result String (Unit {0})) (root : Sysfs) (disk : Disk) (path : StatePath) (d : Daemon)
      → launch W system c p root disk path ≡ ok d
      → Asks d
  unfolding launch start reapply_state
  launched-Asks (ok u) (ok v) root disk path d h = ap (authorizer_of Authorizer.polkit) (sym h)
  launched-Asks (err e) p root disk path d h = cc
  launched-Asks (ok u) (err e) root disk path d h = cc

  -- A daemon that was launched on the system bus does, whatever calls, wakes, suspends and changes
  -- of the files come in whatever order, exactly what it would do if the calls of callers whom
  -- polkit does not allow had never been made.
  pub run-permitted :
      (connection polkit : Result String (Unit {0})) (root : Sysfs) (disk : Disk) (path : StatePath)
      (d : Daemon) (w : Option ProfileWatcher) (es : List (Event W))
      → launch W system connection polkit root disk path ≡ ok d
      → run W (record { daemon = d; watcher = w; parked = false }) es
        ≡ run W (record { daemon = d; watcher = w; parked = false }) (filter permitted es)
  run-permitted connection polkit root disk path d w es h =
      run-denied es _ (launched-Asks connection polkit root disk path d h)
