-- ===== src/Gui/Client/Served/Choices.antt =====
-- The profiles and the charge modes that the window and the tray offer.
use legion_linux_toolkit_rus.Prelude.{
  ℕ, zero, suc, String, some, List, [], ◌∷◌, ◌≡◌, map, get_elem?, inl, inr,
}
use legion_linux_toolkit_rus.Prelude.Result.{ok, err, Result-cases}
use legion_linux_toolkit_rus.Hw.Error.{HwResult}
use legion_linux_toolkit_rus.Hw.Profile
use legion_linux_toolkit_rus.Hw.Profile.{PowerProfile}
use legion_linux_toolkit_rus.Hw.Battery
use legion_linux_toolkit_rus.Hw.Battery.{ChargeMode, ChargeTypes}
use legion_linux_toolkit_rus.Hw.Profile.Names.{from_user-as_sysfs}
use legion_linux_toolkit_rus.Hw.Battery.Names.{from_user-as_sysfs_mode}
use legion_linux_toolkit_rus.Daemon.Property
use legion_linux_toolkit_rus.Prelude.Float.{Floats}
use legion_linux_toolkit_rus.Daemon.Iface.{Daemon}
use legion_linux_toolkit_rus.Hw.Detect
use legion_linux_toolkit_rus.Hw.Detect.{charge_texts}
use legion_linux_toolkit_rus.Gui.Client.Served.{view}
use mathlib.Core.Option.{some-injective}

get-map :
    {A : Type 0} (f : A → String) (xs : List A) (i : ℕ) (s : String)
    → get_elem? (map f xs) i ≡ some s
    → (a : A) × (f a ≡ s)
get-map f [] i s h = cc
get-map f (x ∷ xs) zero s h = (x, some-injective (f x) s h)
get-map f (x ∷ xs) (suc i) s h = get-map f xs i s h

-- Every profile that the window and the tray offer is one that the daemon takes: the text that a
-- selection sends is read as the profile whose name it is.
pub profile_choices-taken :
    (F : Floats) (d : Daemon) (i : ℕ) (choice : String)
    → get_elem? (view F d).profile_choices i ≡ some choice
    → (p : PowerProfile) × (Profile.as_sysfs p ≡ choice) × (Profile.from_user choice ≡ ok p)
unfolding view Property.profile_choices
profile_choices-taken F d i choice h = elim (Result-cases (Profile.choices d.root)) [
  | inl (ps, e) ↦
      let (p, named) = get-map Profile.as_sysfs ps i choice (rw e at h) in
      (p, named, rw (← named) (from_user-as_sysfs p))
  | inr (x, e) ↦ cc (rw e at h)
]

charge_texts-taken :
    (r : HwResult ChargeTypes) (i : ℕ) (choice : String)
    → get_elem? (charge_texts r) i ≡ some choice
    → (m : ChargeMode) × (Battery.as_sysfs m ≡ choice) × (Battery.from_user choice ≡ ok m)
charge_texts-taken (ok c) i choice h =
    let (m, named) = get-map Battery.as_sysfs c.available i choice h in
    (m, named, rw (← named) (from_user-as_sysfs_mode m))
charge_texts-taken (err e) i choice h = cc

-- Every charge mode that they offer is one that the daemon takes.
pub battery_choices-taken :
    (F : Floats) (d : Daemon) (i : ℕ) (choice : String)
    → get_elem? (view F d).capabilities.charge_type_choices i ≡ some choice
    → (m : ChargeMode) × (Battery.as_sysfs m ≡ choice) × (Battery.from_user choice ≡ ok m)
unfolding view Detect.probe
battery_choices-taken F d i choice h = charge_texts-taken (Battery.charge_types d.root) i choice h
