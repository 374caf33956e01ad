-- ===== src/Daemon/Iface.antt =====
-- crates/legion-daemon/src/iface.rs: the daemon object, what it reaches, and the shape of its
-- methods. A method is an action on the daemon together with what it can reach: the files below
-- the sysfs root, the disk with the state file, and the signals sent so far. The properties stand
-- in Daemon/Property, the methods in Daemon/Methods, and `reapply_state` in Daemon/Reapply.
use legion_linux_toolkit_rus.Prelude.{ℕ, String, Bool, List}
use legion_linux_toolkit_rus.Prelude.Result.{Result, ok, err, map_err}
use legion_linux_toolkit_rus.Hw.Error.{HwResult}
use legion_linux_toolkit_rus.Hw.Sysfs.{Sysfs, Kernel, Action}
use legion_linux_toolkit_rus.Daemon.Error.{DaemonResult, from_hw}
use legion_linux_toolkit_rus.Daemon.Auth.{Polkit, Authorizer}
use legion_linux_toolkit_rus.Daemon.State.{State, StatePath, Storage, Disk}

-- The property that a `PropertiesChanged` signal names.
pub data Signal : Type 0 where
  profile battery_mode fn_lock camera_power usb_charging kbd_backlight cpu_boost : Signal

-- What the daemon does not implement: the kernel, polkit, the disk, and the bus, which may refuse
-- to send a signal.
pub record Outside : Type 1 where
  pub kernel : Kernel
  pub bus : Polkit
  pub storage : Storage
  pub send : List Signal → Signal → Result String (Unit {0})

-- `Daemon`, and what it reaches.
pub record Daemon : Type 0 where
  pub root : Sysfs
  pub disk : Disk
  pub signals : List Signal
  pub state : State
  pub state_path : StatePath
  pub authorizer : Authorizer

-- A method: its result, and the daemon it leaves, whether it returns or fails.
abbrev pub Method : Type 0 → Type 0
Method A = Daemon → DaemonResult A × Daemon

abbrev continue : {A B : Type 0} → DaemonResult A → (A → Method B) → Method B
continue (ok a) f d = f a d
continue (err e) f d = (err e, d)

infixl 5 ◌>>=◌ ◌>>◌
abbrev pub ◌>>=◌ : {A B : Type 0} → Method A → (A → Method B) → Method B
◌>>=◌ m f d = let (r, d') = m d in continue r f d'

abbrev pub ◌>>◌ : {A B : Type 0} → Method A → Method B → Method B
m >> k = m >>= λ _. k

abbrev pub lift : {A : Type 0} → DaemonResult A → Method A
lift r d = (r, d)

abbrev pub lift_hw : {A : Type 0} → HwResult A → Method A
lift_hw r d = (map_err from_hw r, d)

abbrev pub act : Action → Method (Unit {0})
act a d = let (r, root) = a d.root in (map_err from_hw r, record d { root = root })

abbrev pub modify : (State → State) → Method (Unit {0})
modify f d = (ok tt, record d { state = f d.state })

abbrev pub gets : {A : Type 0} → (Sysfs → A) → Method A
gets f d = (ok (f d.root), d)

-- A call of one of the methods that change something.
pub data Call : Type 0 where
  set_profile set_battery_mode : String → Call
  set_fn_lock set_camera_power set_usb_charging set_cpu_boost : Bool → Call
  set_kbd_backlight set_fan_mode : ℕ → Call
  set_ppt : String → ℕ → Call
