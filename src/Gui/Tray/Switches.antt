-- ===== src/Gui/Tray/Switches.antt =====
-- The check marks of the menu.
use legion_linux_toolkit_rus.Prelude.{
  String, Bool, true, false, not, ◌||◌, List, [], ◌∷◌, ◌++◌, ◌≡◌, ◌⊎◌, inl, inr, refl, ap, In,
  if◌then◌else◌,
}
use legion_linux_toolkit_rus.Gui.Snapshot.{Request}
use legion_linux_toolkit_rus.Gui.Tray.{TrayState, MenuItem, switch_items}

-- The check mark of Fn Lock or that of the camera: its label, whether it is checked, and the
-- request that it sends.
pub data IsSwitch (t : TrayState) : String → Bool → Request → Type 0 where
  fn_lock :
      t.has_fn_lock ≡ true → IsSwitch t "Fn Lock" t.fn_lock (Request.set_fn_lock (not t.fn_lock))
  camera :
      t.has_camera ≡ true → IsSwitch t "Camera" t.camera (Request.set_camera_power (not t.camera))

abbrev label_of : MenuItem → String
label_of (MenuItem.checkmark l on r) = l
label_of _ = ""

abbrev on_of : MenuItem → Bool
on_of (MenuItem.checkmark l on r) = on
on_of _ = false

abbrev request_of : MenuItem → Request
request_of (MenuItem.checkmark l on r) = r
request_of _ = Request.refresh

abbrev switches : Bool → Bool → MenuItem → MenuItem → List MenuItem
switches f c a b =
    (if f then a ∷ [] else [])
    ++ (if c then b ∷ [] else [])
    ++ (if f || c then MenuItem.separator ∷ [] else [])

In-switches :
    (f c : Bool) (a b x : MenuItem)
    → In x (switches f c a b)
    → ((f ≡ true) × (x ≡ a)) ⊎ (((c ≡ true) × (x ≡ b)) ⊎ (x ≡ MenuItem.separator))
In-switches true true a b x (inl e) = inl (refl, e)
In-switches true true a b x (inr (inl e)) = inr (inl (refl, e))
In-switches true true a b x (inr (inr (inl e))) = inr (inr e)
In-switches true true a b x (inr (inr (inr m))) = elim m [ ]
In-switches true false a b x (inl e) = inl (refl, e)
In-switches true false a b x (inr (inl e)) = inr (inr e)
In-switches true false a b x (inr (inr m)) = elim m [ ]
In-switches false true a b x (inl e) = inr (inl (refl, e))
In-switches false true a b x (inr (inl e)) = inr (inr e)
In-switches false true a b x (inr (inr m)) = elim m [ ]
In-switches false false a b x m = elim m [ ]

pub switch_items-IsSwitch :
    (t : TrayState) (l : String) (on : Bool) (r : Request)
    → In (MenuItem.checkmark l on r) (switch_items t)
    → IsSwitch t l on r
unfolding switch_items
switch_items-IsSwitch t l on r m = elim (In-switches t.has_fn_lock t.has_camera _ _ _ m) [
  | inl (h, e) ↦ rw (ap label_of e, ap on_of e, ap request_of e) (fn_lock h)
  | inr (inl (h, e)) ↦ rw (ap label_of e, ap on_of e, ap request_of e) (camera h)
  | inr (inr e) ↦ cc
]

In-first : (f c : Bool) (a b : MenuItem) → f ≡ true → In a (switches f c a b)
In-first true c a b h = inl refl
In-first false c a b h = cc

In-second : (f c : Bool) (a b : MenuItem) → c ≡ true → In b (switches f c a b)
In-second true true a b h = inr (inl refl)
In-second false true a b h = inl refl
In-second true false a b h = cc
In-second false false a b h = cc

pub IsSwitch-switch_items :
    (t : TrayState) (l : String) (on : Bool) (r : Request)
    → IsSwitch t l on r
    → In (MenuItem.checkmark l on r) (switch_items t)
unfolding switch_items
IsSwitch-switch_items t _ _ _ (fn_lock h) = In-first t.has_fn_lock t.has_camera _ _ h
IsSwitch-switch_items t _ _ _ (camera h) = In-second t.has_fn_lock t.has_camera _ _ h
