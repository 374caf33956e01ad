-- ===== src/Gui/Client/Served/Switched.antt =====
-- What choosing a check mark of the menu brings about.
use mathlib.Core.Option.{some-injective}
use mathlib.Core.Path.{subst}
use legion_linux_toolkit_rus.Prelude.{String, Bool, true, not, some, ◌≡◌, ap, ◌∙◌, arith, In}
use legion_linux_toolkit_rus.Prelude.Float.{Floats}
use legion_linux_toolkit_rus.Prelude.Result.{ok}
use legion_linux_toolkit_rus.Hw.Sysfs.{Sysfs, Kernel, exists}
use legion_linux_toolkit_rus.Hw.Sysfs.Laws.{IsAttribute, keeps_paths-write}
use legion_linux_toolkit_rus.Hw.Detect
use legion_linux_toolkit_rus.Hw.Ideapad
use legion_linux_toolkit_rus.Hw.Ideapad.{Toggle, toggle_file, bit}
use legion_linux_toolkit_rus.Hw.Ideapad.Laws.{get-set_toggle}
use legion_linux_toolkit_rus.Daemon.Iface.{Outside, Daemon, Call}
use legion_linux_toolkit_rus.Daemon.Methods.{handle, authorize, emit}
use legion_linux_toolkit_rus.Daemon.Property
use legion_linux_toolkit_rus.Gui.Snapshot.{Request, to_call}
use legion_linux_toolkit_rus.Gui.Tray.{TrayState, MenuItem, from_snapshot, switch_items}
use legion_linux_toolkit_rus.Gui.Tray.Switches.{
  IsSwitch, fn_lock, camera, switch_items-IsSwitch, IsSwitch-switch_items,
}
use legion_linux_toolkit_rus.Gui.Client.Served.{view}

has-set :
    (K : Kernel) (t : Toggle) (on : Bool) (root : Sysfs)
    → IsAttribute K (toggle_file t)
    → Ideapad.has (Ideapad.set K t on root).1 t ≡ Ideapad.has root t
unfolding Ideapad.has Ideapad.set exists
has-set K t on root A = keeps_paths-write K (toggle_file t) (bit on) root A (toggle_file t)

as_fn_lock :
    (t : TrayState) (on : Bool)
    → t.has_fn_lock ≡ true
    → t.fn_lock ≡ on
    → (q : Request) × IsSwitch t "Fn Lock" on q
as_fn_lock t on h e =
    let q = Request.set_fn_lock (not t.fn_lock) in
    (q, subst (λ b. IsSwitch t "Fn Lock" b q) e (fn_lock h))

as_camera :
    (t : TrayState) (on : Bool)
    → t.has_camera ≡ true
    → t.camera ≡ on
    → (q : Request) × IsSwitch t "Camera" on q
as_camera t on h e =
    let q = Request.set_camera_power (not t.camera) in
    (q, subst (λ b. IsSwitch t "Camera" b q) e (camera h))

-- What the tray is given of a daemon.
abbrev pub state_of : Floats → Daemon → TrayState
state_of F d = from_snapshot (view F d)

module _ (F : Floats) (W : Outside) (hdr : W.bus.Header) (d : Daemon) where
  -- What a call that sets a switch has done when it succeeds.
  abbrev Sets : Call → Toggle → Bool → Type 0
  Sets c t on =
      (handle W c hdr d).0 ≡ ok tt
      → ((Ideapad.set W.kernel t on d.root).0 ≡ ok tt)
        × ((handle W c hdr d).1.root ≡ (Ideapad.set W.kernel t on d.root).1)

  set_fn_lock-Sets : (on : Bool) → Sets (Call.set_fn_lock on) Ideapad.fn_lock on
  unfolding handle authorize emit
  set_fn_lock-Sets on h = ground arith

  set_camera-Sets : (on : Bool) → Sets (Call.set_camera_power on) Ideapad.camera_power on
  unfolding handle authorize emit
  set_camera-Sets on h = ground arith

  module _ (A : (t : Toggle) → IsAttribute W.kernel (toggle_file t)) where
    read_back :
        (c : Call) (t : Toggle) (on : Bool)
        → Sets c t on
        → (handle W c hdr d).0 ≡ ok tt
        → (Ideapad.get (handle W c hdr d).1.root t ≡ some on)
          × (Ideapad.has (handle W c hdr d).1.root t ≡ Ideapad.has d.root t)
    read_back c t on sets h =
        let (done, left) = sets h in
        rw left
          ((get-set_toggle W.kernel t on d.root (A t)).0 done, has-set W.kernel t on d.root (A t))

    flipped :
        (l : String) (on : Bool) (r : Request) (c : Call)
        → IsSwitch (state_of F d) l on r
        → to_call r ≡ some c
        → (handle W c hdr d).0 ≡ ok tt
        → (q : Request) × IsSwitch (state_of F (handle W c hdr d).1) l (not on) q
    unfolding to_call from_snapshot view Detect.probe Property.fn_lock Property.camera_power
    flipped l on r c (fn_lock h) e done =
        let same = some-injective _ c e in
        let sets = subst (λ x. Sets x Ideapad.fn_lock (not on)) same (set_fn_lock-Sets (not on)) in
        let (kept, there) = read_back c Ideapad.fn_lock (not on) sets done in
        as_fn_lock (state_of F (handle W c hdr d).1) (not on) (there ∙ h) (ap Property.or_no kept)
    flipped l on r c (camera h) e done =
        let same = some-injective _ c e in
        let sets =
          subst (λ x. Sets x Ideapad.camera_power (not on)) same (set_camera-Sets (not on)) in
        let (kept, there) = read_back c Ideapad.camera_power (not on) sets done in
        as_camera (state_of F (handle W c hdr d).1) (not on) (there ∙ h) (ap Property.or_no kept)

    -- A check mark that the user chooses in the tray's menu is the other way round once the call
    -- that it makes succeeds: the menu of the daemon's new state has it under the same label. The
    -- switches are taken to keep what is written to them.
    pub switch_items-flipped :
        (l : String) (on : Bool) (r : Request) (c : Call)
        → In (MenuItem.checkmark l on r) (switch_items (state_of F d))
        → to_call r ≡ some c
        → (handle W c hdr d).0 ≡ ok tt
        → (q : Request) × In
            (MenuItem.checkmark l (not on) q)
            (switch_items (state_of F (handle W c hdr d).1))
    switch_items-flipped l on r c m e done =
        let (q, s) = flipped l on r c (switch_items-IsSwitch (state_of F d) l on r m) e done in
        (q, IsSwitch-switch_items (state_of F (handle W c hdr d).1) l (not on) q s)
