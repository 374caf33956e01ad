-- ===== src/Gui/Tray/Radios.antt =====
-- The radio group of the profiles.
use mathlib.Core.Option
use legion_linux_toolkit_rus.Prelude.{
  ℕ, zero, suc, String, Bool, true, false, Option, none, some, List, [], ◌∷◌, ◌≡◌, refl, ap, map,
  get_elem?, any, arith, is_empty, ◌==◌, eq_refl, inl, inr, In, if◌then◌else◌,
}
use legion_linux_toolkit_rus.Gui.Labels.{profile_label}
use legion_linux_toolkit_rus.Gui.Snapshot.{Request}
use legion_linux_toolkit_rus.Gui.Tray.{TrayState, MenuItem, selected, profile_items}

pub get-map :
    {A B : Type 0} (f : A → B) (xs : List A) (i : ℕ)
    → get_elem? (map f xs) i ≡ Option.map f (get_elem? xs i)
get-map f [] i = refl
get-map f (x ∷ xs) zero = refl
get-map f (x ∷ xs) (suc i) = get-map f xs i

-- A text at some index passes the scan for it.
pub any-get :
    (t : String) (ss : List String) (i : ℕ) → get_elem? ss i ≡ some t → any (λ c. c == t) ss ≡ true
any-get t [] i h = cc
any-get t (s ∷ ss) zero h = rw (Option.some-injective s t h, eq_refl t) refl
any-get t (s ∷ ss) (suc i) h = ground (arith, any-get t ss i h)

abbrev options_of : MenuItem → List String
options_of (MenuItem.radio n options select) = options
options_of _ = []

abbrev select_of : MenuItem → ℕ → Option Request
select_of (MenuItem.radio n options select) = select
select_of _ = λ i. none

-- What choosing an option of the group asks for.
abbrev pub profile_at : TrayState → ℕ → Option Request
profile_at t i = Option.map Request.set_profile (get_elem? t.profile_choices i)

-- The items, of a state that offers profiles or none.
abbrev group : Bool → MenuItem → List MenuItem
group none_there item =
    if none_there then [] else MenuItem.heading "Power Mode" ∷ item ∷ MenuItem.separator ∷ []

In-group :
    (b : Bool) (x y : MenuItem) (n : ℕ) (options : List String) (select : ℕ → Option Request)
    → x ≡ MenuItem.radio n options select
    → In x (group b y)
    → x ≡ y
In-group true x y n o f e m = elim m [ ]
In-group false x y n o f e (inl h) = cc
In-group false x y n o f e (inr (inl h)) = h
In-group false x y n o f e (inr (inr (inl h))) = cc
In-group false x y n o f e (inr (inr (inr m))) = elim m [ ]

group-In : (b : Bool) (y : MenuItem) → b ≡ false → In y (group b y)
group-In true y h = cc
group-In false y h = inr (inl refl)

-- A radio group among the items has the profiles for its options.
pub radio_lem :
    (t : TrayState) (n : ℕ) (options : List String) (select : ℕ → Option Request)
    → In (MenuItem.radio n options select) (profile_items t)
    → (options ≡ map profile_label t.profile_choices) × (select ≡ profile_at t)
unfolding profile_items
radio_lem t n options select m =
    let e = In-group (is_empty t.profile_choices) _ _ n options select refl m in
    (ap options_of e, ap select_of e)

-- A state that offers profiles has the group.
pub In-profile_items :
    (t : TrayState)
    → is_empty t.profile_choices ≡ false
    → In
        (MenuItem.radio
          (selected t.profile_choices t.profile)
          (map profile_label t.profile_choices)
          (profile_at t))
        (profile_items t)
unfolding profile_items
In-profile_items t h = group-In (is_empty t.profile_choices) _ h

pub some-is_empty :
    (t : String) (ss : List String) (i : ℕ) → get_elem? ss i ≡ some t → is_empty ss ≡ false
some-is_empty t [] i h = cc
some-is_empty t (s ∷ ss) i h = refl
