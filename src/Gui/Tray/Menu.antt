-- ===== src/Gui/Tray/Menu.antt =====
-- The radio groups of the menu, and the updates of the tray.
use legion_linux_toolkit_rus.Prelude.{
  ℕ, suc, ◌+◌, String, Bool, true, false, ◌&&◌, some, List, [], ◌∷◌, ◌≡◌, refl, sym, ap, ◌∙◌, arith,
  position_from, get_elem?, any, ◌==◌, eq_iff, eq_refl, Bool-cases, inl, inr,
}
use legion_linux_toolkit_rus.Gui.Snapshot.{Snapshot}
use legion_linux_toolkit_rus.Gui.Tray.{
  TrayState, TrayHandle, from_snapshot, selected, same_texts, same_bool, same_state, update,
}

-- The position that is found holds the text.
position-get :
    (t : String) (ss : List String) (i : ℕ)
    → any (λ c. c == t) ss ≡ true
    → (j : ℕ) × (position_from i (λ c. c == t) ss ≡ some (i + j)) × (get_elem? ss j ≡ some t)
position-get t [] i h = cc
position-get t (s ∷ ss) i h = elim (Bool-cases (s == t)) [
  | inl b ↦ (0, rw b (ap some (omega arith)), ap some ((eq_iff s t).0 b))
  | inr b ↦
      let r = position-get t ss (suc i) (rw b at h) in
      (suc r.0, rw b (r.1 ∙ ap some (omega arith)), r.2)
]

-- Where the current profile or mode is among the choices, the option that the group shows as
-- selected is that one.
pub get-selected :
    (choices : List String) (current : String)
    → any (λ c. c == current) choices ≡ true
    → get_elem? choices (selected choices current) ≡ some current
unfolding selected
get-selected choices current h =
    let r = position-get current choices 0 h in
    let z : 0 + r.0 ≡ r.0 = omega arith in rw (r.1, z) r.2

and-true : (a b : Bool) → (a && b) ≡ true → (a ≡ true) × (b ≡ true)
and-true a b h = ground arith

same_texts-eq : (ss ts : List String) → same_texts ss ts ≡ true → ss ≡ ts
same_texts-eq [] [] h = refl
same_texts-eq (s ∷ ss) (t ∷ ts) h =
    let p = and-true (s == t) (same_texts ss ts) h in
    rw ((eq_iff s t).0 p.0, same_texts-eq ss ts p.1) refl
same_texts-eq [] (t ∷ ts) h = cc
same_texts-eq (s ∷ ss) [] h = cc

same_bool-eq : (a b : Bool) → same_bool a b ≡ true → a ≡ b
same_bool-eq true b h = sym h
same_bool-eq false true h = cc
same_bool-eq false false h = refl

same_state-eq : (a b : TrayState) → same_state a b ≡ true → a ≡ b
unfolding same_state
same_state-eq a b h =
    let p : (a.profile == b.profile) ≡ true = ground arith in
    let pc : same_texts a.profile_choices b.profile_choices ≡ true = ground arith in
    let m : (a.battery_mode == b.battery_mode) ≡ true = ground arith in
    let mc : same_texts a.battery_choices b.battery_choices ≡ true = ground arith in
    let f : same_bool a.fn_lock b.fn_lock ≡ true = ground arith in
    let c : same_bool a.camera b.camera ≡ true = ground arith in
    let hf : same_bool a.has_fn_lock b.has_fn_lock ≡ true = ground arith in
    let hc : same_bool a.has_camera b.has_camera ≡ true = ground arith in
    λ i. record {
      profile = (eq_iff a.profile b.profile).0 p i;
      profile_choices = same_texts-eq a.profile_choices b.profile_choices pc i;
      battery_mode = (eq_iff a.battery_mode b.battery_mode).0 m i;
      battery_choices = same_texts-eq a.battery_choices b.battery_choices mc i;
      fn_lock = same_bool-eq a.fn_lock b.fn_lock f i;
      camera = same_bool-eq a.camera b.camera c i;
      has_fn_lock = same_bool-eq a.has_fn_lock b.has_fn_lock hf i;
      has_camera = same_bool-eq a.has_camera b.has_camera hc i;
    }

-- A tray that renders the snapshot it has got last renders the next one after its update, whether
-- or not the update is sent.
pub update-shows :
    (snap : Snapshot) (h : TrayHandle)
    → h.shown ≡ h.last
    → ((update snap h).shown ≡ from_snapshot snap) × ((update snap h).last ≡ from_snapshot snap)
unfolding update
update-shows snap h same = elim (Bool-cases (same_state h.last (from_snapshot snap))) [
  | inl b ↦ let e = same_state-eq h.last (from_snapshot snap) b in rw b (same ∙ e, e)
  | inr b ↦ rw b (refl, refl)
]

same_texts_refl : (ss : List String) → same_texts ss ss ≡ true
same_texts_refl [] = refl
same_texts_refl (s ∷ ss) = rw (eq_refl s, same_texts_refl ss) refl

same_bool_refl : (b : Bool) → same_bool b b ≡ true
same_bool_refl true = refl
same_bool_refl false = refl

same_state_refl : (a : TrayState) → same_state a a ≡ true
unfolding same_state
same_state_refl a =
    rw
      (
        eq_refl a.profile,
        eq_refl a.battery_mode,
        same_texts_refl a.profile_choices,
        same_texts_refl a.battery_choices,
        same_bool_refl a.fn_lock,
        same_bool_refl a.camera,
        same_bool_refl a.has_fn_lock,
        same_bool_refl a.has_camera,
      )
      refl

-- A second update with the same snapshot changes nothing and sends nothing.
pub update-update : (snap : Snapshot) (h : TrayHandle) → update snap (update snap h) ≡ update snap h
unfolding update
update-update snap h = elim (Bool-cases (same_state h.last (from_snapshot snap))) [
  | inl b ↦ rw (b, b) refl
  | inr b ↦ rw (b, same_state_refl (from_snapshot snap)) refl
]
