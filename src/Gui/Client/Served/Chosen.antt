-- ===== src/Gui/Client/Served/Chosen.antt =====
-- What choosing a profile in the tray's menu brings about.
use mathlib.Core.Option
use mathlib.Core.Option.{some-injective}
use mathlib.Core.Path.{subst}
use legion_linux_toolkit_rus.Prelude.{
  ℕ, String, Option, none, some, List, [], ◌≡◌, refl, sym, ap, ◌∙◌, In, map, get_elem?,
}
use legion_linux_toolkit_rus.Prelude.Float.{Floats}
use legion_linux_toolkit_rus.Prelude.Result.{ok, unwrap_or, map_ok}
use legion_linux_toolkit_rus.Text.{◌<>◌}
use legion_linux_toolkit_rus.Hw.Error.{HwResult}
use legion_linux_toolkit_rus.Hw.Sysfs.Laws.{IsAttribute}
use legion_linux_toolkit_rus.Hw.Profile
use legion_linux_toolkit_rus.Hw.Profile.{PowerProfile}
use legion_linux_toolkit_rus.Hw.Profile.RoundTrip.{get-set, choices-set}
use legion_linux_toolkit_rus.Daemon.Iface.{Outside, Daemon, Call}
use legion_linux_toolkit_rus.Daemon.Methods.{handle, set_profile}
use legion_linux_toolkit_rus.Daemon.Methods.Effects.{set_profile-ok}
use legion_linux_toolkit_rus.Daemon.Property
use legion_linux_toolkit_rus.Gui.Labels.{profile_label}
use legion_linux_toolkit_rus.Gui.Snapshot.{Request, to_call}
use legion_linux_toolkit_rus.Gui.Tray.{TrayState, MenuItem, from_snapshot, profile_items, selected}
use legion_linux_toolkit_rus.Gui.Tray.Actions.{Shell, choose}
use legion_linux_toolkit_rus.Gui.Tray.Menu.{get-selected}
use legion_linux_toolkit_rus.Gui.Tray.Radios.{
  profile_at, radio_lem, In-profile_items, some-is_empty, any-get, get-map,
}
use legion_linux_toolkit_rus.Gui.Client.Served.{view}
use legion_linux_toolkit_rus.Gui.Client.Served.Choices.{profile_choices-taken}
use legion_linux_toolkit_rus.Gui.Client.Served.Switched.{state_of}

requested :
    (o : Option String) (q : Request) (c : Call)
    → Option.map Request.set_profile o ≡ some q
    → to_call q ≡ some c
    → (choice : String) × (o ≡ some choice) × (c ≡ Call.set_profile choice)
unfolding to_call
requested none q c h e = cc
requested (some choice) q c h e =
    let same = some-injective _ q h in
    (choice, refl, sym (some-injective _ c (ap to_call same ∙ e)))

-- The menu of a state has a group with these options, and the selected one is that at the index.
abbrev pub ShowsChosen : List String → ℕ → TrayState → Type 0
ShowsChosen options i t =
    (m : ℕ) × (select : ℕ → Option Request) × In (MenuItem.radio m options select) (profile_items t)
    × (get_elem? options m ≡ get_elem? options i)

ShowsChosen-group :
    (t t' : TrayState) (choice : String) (i : ℕ)
    → get_elem? t.profile_choices i ≡ some choice
    → t'.profile_choices ≡ t.profile_choices
    → t'.profile ≡ choice
    → ShowsChosen (map profile_label t.profile_choices) i t'
ShowsChosen-group t t' choice i there choices active =
    let same : get_elem? t'.profile_choices i ≡ some choice =
      ap (λ l. get_elem? l i) choices ∙ there in
    let m = selected t'.profile_choices t'.profile in
    let at : get_elem? t'.profile_choices m ≡ some choice =
      rw active
        (get-selected t'.profile_choices choice (any-get choice t'.profile_choices i same)) in
    (
      m,
      profile_at t',
      subst (λ l. In (MenuItem.radio m (map profile_label l) (profile_at t')) (profile_items t'))
          choices (In-profile_items t' (some-is_empty choice t'.profile_choices i same)),
      get-map profile_label t.profile_choices m
          ∙ ap (Option.map profile_label) (ap (λ l. get_elem? l m) (sym choices) ∙ at ∙ sym there)
          ∙ sym (get-map profile_label t.profile_choices i),
    )

ok_injective : (r : HwResult PowerProfile) (x y : PowerProfile) → r ≡ ok x → r ≡ ok y → x ≡ y
ok_injective r x y h e = ap (unwrap_or x) (sym h ∙ e)

module _ (F : Floats) (W : Outside) (hdr : W.bus.Header) (d : Daemon) (dir : String)
    (found : Profile.device_dir d.root ≡ some dir)
    (A : IsAttribute W.kernel (dir <> "/profile")) where
  -- The daemon's choices and its profile once it has set one of them.
  after_choice :
      (choice : String) (i : ℕ)
      → get_elem? (state_of F d).profile_choices i ≡ some choice
      → (set_profile W choice hdr d).0 ≡ ok tt
      → ((state_of F (set_profile W choice hdr d).1).profile_choices
          ≡ (state_of F d).profile_choices)
        × ((state_of F (set_profile W choice hdr d).1).profile ≡ choice)
  unfolding from_snapshot view Property.profile_choices Property.profile
  after_choice choice i there done =
      let (p, named, set, left, kept) = set_profile-ok W hdr d choice done in
      let (q, spelled, taken) = profile_choices-taken F d i choice there in
      let same : p ≡ q = ok_injective (Profile.from_user choice) p q named taken in
      (
        ap (λ r. unwrap_or [] (map_ok (map Profile.as_sysfs) (Profile.choices r))) left
            ∙ ap (λ r. unwrap_or [] (map_ok (map Profile.as_sysfs) r))
                (choices-set W.kernel d.root dir found A p),
        rw (left, get-set W.kernel d.root dir found A p set) (ap Profile.as_sysfs same ∙ spelled),
      )

  -- An option that the user chooses in the tray's group of profiles is the selected one once the
  -- call that it makes succeeds: the menu of the daemon's new state has the group with the same
  -- options, and the one at its selected index is the one chosen. The `profile` attribute is taken
  -- to keep what is written to it.
  pub profile_items-chosen :
      (n i : ℕ) (options : List String) (select : ℕ → Option Request) (s : Shell) (q : Request)
      (c : Call)
      → In (MenuItem.radio n options select) (profile_items (state_of F d))
      → (choose (MenuItem.radio n options select) i s).0 ≡ some q
      → to_call q ≡ some c
      → (handle W c hdr d).0 ≡ ok tt
      → ShowsChosen options i (state_of F (handle W c hdr d).1)
  unfolding choose handle
  profile_items-chosen n i options select s q c offered chosen e done =
      let t = state_of F d in
      let (labels, asks) = radio_lem t n options select offered in
      let (choice, there, same) =
        requested (get_elem? t.profile_choices i) q c (ap (λ f. f i) (sym asks) ∙ chosen) e in
      let (choices, active) =
        after_choice choice i there (ap (λ x. (handle W x hdr d).0) (sym same) ∙ done) in
      subst (λ x. ShowsChosen options i (state_of F (handle W x hdr d).1)) (sym same)
        (subst (λ o. ShowsChosen o i (state_of F (set_profile W choice hdr d).1)) (sym labels)
          (ShowsChosen-group t (state_of F (set_profile W choice hdr d).1) choice i there choices
            active))
