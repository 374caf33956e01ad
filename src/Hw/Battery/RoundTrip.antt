-- ===== src/Hw/Battery/RoundTrip.antt =====
-- Selecting a charge mode and reading it back.
use legion_linux_toolkit_rus.Prelude.{
  String, Bool, List, [], ◌∷◌, ◌≡◌, ◌≢◌, refl, ◌∙◌, none, some, true, false, map, any, inl, inr,
  Bool-cases,
}
use legion_linux_toolkit_rus.Prelude.Result.{ok}
use legion_linux_toolkit_rus.Text.{trim}
use legion_linux_toolkit_rus.Text.Words.{split_whitespace-trim}
use legion_linux_toolkit_rus.Hw.Sysfs.{Sysfs, Kernel}
use legion_linux_toolkit_rus.Hw.Sysfs.Laws.{write-ok}
use legion_linux_toolkit_rus.Hw.Battery.{
  ChargeMode, standard, fast, long_life, charge_file, as_sysfs, parse_charge_types, charge_types,
  get_mode, set_mode,
}
use legion_linux_toolkit_rus.Hw.Battery.Parse.{
  charge_line, mode_of, marked_mode, parse_charge_types-line,
}

abbrev pub same : ChargeMode → ChargeMode → Bool
same standard standard = true
same fast fast = true
same long_life long_life = true
same _ _ = false

-- The modes with the mark at one of them.
abbrev pub mark : ChargeMode → List ChargeMode → List (ChargeMode × Bool)
mark m [] = []
mark m (n ∷ ns) = (n, same m n) ∷ mark m ns

-- What the kernel documents of `charge_types`: after the selection of a mode, the file lists the
-- supported modes in the same order as ever, with the selected one in brackets.
pub record ShowsSelection (K : Kernel) (modes : List ChargeMode) : Type 0 where
  pub shows :
      (root : Sysfs) (m : ChargeMode)
      → (K root charge_file (as_sysfs m)).0 ≡ ok tt
      → (K root charge_file (as_sysfs m)).1.read_file charge_file ≡ ok (charge_line (mark m modes))

mode_of-mark : (m : ChargeMode) (ms : List ChargeMode) → map mode_of (mark m ms) ≡ ms
mode_of-mark m [] = refl
mode_of-mark m (n ∷ ns) = rw (mode_of-mark m ns)

same-eq : (m n : ChargeMode) → same m n ≡ true → m ≡ n
same-eq standard standard h = refl
same-eq fast fast h = refl
same-eq long_life long_life h = refl
same-eq standard fast h = cc
same-eq standard long_life h = cc
same-eq fast standard h = cc
same-eq fast long_life h = cc
same-eq long_life standard h = cc
same-eq long_life fast h = cc

marked_mode-found :
    (m : ChargeMode) (ms : List ChargeMode) → marked_mode (some m) (mark m ms) ≡ some m
marked_mode-found m [] = refl
marked_mode-found m (n ∷ ns) = elim (Bool-cases (same m n)) [
  | inl b ↦ rw (b, ← same-eq m n b) (marked_mode-found m ns)
  | inr b ↦ rw b (marked_mode-found m ns)
]

marked_mode-mark :
    (m : ChargeMode) (ms : List ChargeMode)
    → any (same m) ms ≡ true
    → marked_mode none (mark m ms) ≡ some m
marked_mode-mark m [] h = cc
marked_mode-mark m (n ∷ ns) h = elim (Bool-cases (same m n)) [
  | inl b ↦ rw (b, ← same-eq m n b) (marked_mode-found m ns)
  | inr b ↦ rw b (marked_mode-mark m ns (rw b at h))
]

not-nil : (m : ChargeMode) (ms : List ChargeMode) → any (same m) ms ≡ true → mark m ms ≢ []
not-nil m [] h e = cc
not-nil m (n ∷ ns) h e = cc

parse_charge_types-trim : (raw : String) → parse_charge_types (trim raw) ≡ parse_charge_types raw
unfolding parse_charge_types
parse_charge_types-trim raw = rw (split_whitespace-trim raw)

-- What is parsed from a file that holds a line of the kernel.
charge_types-line :
    (root : Sysfs) (ts : List (ChargeMode × Bool))
    → ts ≢ []
    → root.read_file charge_file ≡ ok (charge_line ts)
    → charge_types root ≡ ok (record { available = map mode_of ts; active = marked_mode none ts })
unfolding charge_types
charge_types-line root ts ne h =
    rw h (parse_charge_types-trim (charge_line ts) ∙ parse_charge_types-line ts ne)

module _ (K : Kernel) (modes : List ChargeMode) (L : ShowsSelection K modes) (root : Sysfs)
    (m : ChargeMode) (supported : any (same m) modes ≡ true)
    (done : (set_mode K m root).0 ≡ ok tt) where
  charge_file-set_mode :
      (set_mode K m root).1.read_file charge_file ≡ ok (charge_line (mark m modes))
  unfolding set_mode
  charge_file-set_mode =
      let w = write-ok K charge_file (as_sysfs m) root done in rw w.2 (L.shows root m w.1)

  charge_types-set_mode :
      charge_types (set_mode K m root).1 ≡ ok (record { available = modes; active = some m })
  charge_types-set_mode =
      charge_types-line (set_mode K m root).1 (mark m modes) (not-nil m modes supported)
        charge_file-set_mode
      ∙ rw (mode_of-mark m modes, marked_mode-mark m modes supported)

  -- With a kernel that shows the selected mode in brackets, a supported mode whose selection
  -- succeeds is the mode that is read afterwards.
  pub get_mode-set_mode : get_mode (set_mode K m root).1 ≡ ok m
  unfolding get_mode
  get_mode-set_mode = rw charge_types-set_mode
