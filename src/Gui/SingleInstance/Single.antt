-- ===== src/Gui/SingleInstance/Single.antt =====
-- At most one instance runs.
use legion_linux_toolkit_rus.Prelude.{
  ℕ, true, false, Option, none, some, List, [], ◌∷◌, ◌++◌, ◌≡◌, refl, sym, ap, ◌∙◌, arith, ◌⊎◌,
  ◌=?◌, Bool-cases, Option-cases, inl, inr, filter, not,
}
use legion_linux_toolkit_rus.Gui.SingleInstance.{
  Sockets, socket_name, Desktop, acquire, signal_show, main, exit, shows,
}

-- What the system documents: a name is bound to one process at a time, until that process ends, and
-- what is written to the name reaches that process.
pub record IsSockets (S : Sockets) : Type 0 where
  pub holder : S.World → Option ℕ
  pub received : S.World → List (List ℕ)
  pub binds :
      (w : S.World) (p : ℕ)
      → holder w ≡ none
      → ((S.bind_addr socket_name p w).0 ≡ true) × (holder (S.bind_addr socket_name p w).1 ≡ some p)
  pub refuses :
      (w : S.World) (p q : ℕ) → holder w ≡ some q → S.bind_addr socket_name p w ≡ (false, w)
  pub keeps : (w : S.World) (b : List ℕ) → holder (S.connect_write socket_name b w) ≡ holder w
  pub delivers :
      (w : S.World) (b : List ℕ) (q : ℕ)
      → holder w ≡ some q
      → received (S.connect_write socket_name b w) ≡ received w ++ b ∷ []
  pub frees : (w : S.World) (p : ℕ) → holder w ≡ some p → holder (S.close p w) ≡ none
  pub leaves :
      (w : S.World) (p q : ℕ) → holder w ≡ some q → (q =? p) ≡ false → holder (S.close p w) ≡ some q
  pub vacant : (w : S.World) (p : ℕ) → holder w ≡ none → holder (S.close p w) ≡ none

-- A program is started, or one ends.
pub data Act : Type 0 where
  starts ends : ℕ → Act

abbrev pub list_of : Option ℕ → List ℕ
list_of none = []
list_of (some q) = q ∷ []

module _ (S : Sockets) (I : IsSockets S) where
  open S use {World}
  open I use {holder}

  abbrev pub after : List Act → Desktop S → Desktop S
  unfolding main exit
  after [] d = d
  after (starts p ∷ rest) d = after rest (main S p d)
  after (ends p ∷ rest) d = after rest (exit S p d)

  -- The processes that run are those that hold the name.
  abbrev Holds : Desktop S → Type 0
  Holds d = d.running ≡ list_of (holder d.world)

  holder-signal_show : (w : World) → holder (signal_show S w) ≡ holder w
  unfolding signal_show
  holder-signal_show w = elim (Bool-cases (S.from_abstract_name socket_name w)) [
    | inl b ↦ rw b (I.keeps w (b'S' ∷ []))
    | inr b ↦ rw b refl
  ]

  main-Holds : (p : ℕ) (d : Desktop S) → Holds d → Holds (main S p d)
  unfolding main acquire
  main-Holds p d h = elim (Bool-cases (S.from_abstract_name socket_name d.world)) [
    | inr b ↦ rw (b, holder-signal_show d.world) h
    | inl b ↦ elim (Option-cases (holder d.world)) [
      | inl e ↦ let x = I.binds d.world p e in rw (b, x.0, x.1) (ap (λ l. p ∷ l) (h ∙ rw e refl))
      | inr (q, e) ↦ rw (b, I.refuses d.world p q e, holder-signal_show d.world) h
    ]
  ]

  exit-holder :
      (p : ℕ) (d : Desktop S) (o : Option ℕ)
      → holder d.world ≡ o
      → list_of (holder (S.close p d.world)) ≡ filter (λ q. not (q =? p)) (list_of o)
  exit-holder p d none e = rw (I.vacant d.world p e) refl
  exit-holder p d (some q) e = elim (Bool-cases (q =? p)) [
    | inl b ↦ rw (b, I.frees d.world p (e ∙ ap some (ground arith))) refl
    | inr b ↦ rw (b, I.leaves d.world p q e b) refl
  ]

  exit-Holds : (p : ℕ) (d : Desktop S) → Holds d → Holds (exit S p d)
  unfolding exit
  exit-Holds p d h = rw h (sym (exit-holder p d (holder d.world) refl))

  after-Holds : (acts : List Act) (d : Desktop S) → Holds d → Holds (after acts d)
  unfolding after
  after-Holds [] d h = h
  after-Holds (starts p ∷ rest) d h = after-Holds rest (main S p d) (main-Holds p d h)
  after-Holds (ends p ∷ rest) d h = after-Holds rest (exit S p d) (exit-Holds p d h)

  -- The one instance that runs is asked to show its window: the bytes that reach it make it show
  -- it.
  pub record IsAsked (d e : Desktop S) (q : ℕ) : Type 0 where
    pub bytes : List ℕ
    pub still : e.running ≡ q ∷ []
    pub reached : I.received e.world ≡ I.received d.world ++ bytes ∷ []
    pub shown : shows bytes ≡ true

  main-IsAsked :
      (p q : ℕ) (d : Desktop S)
      → S.from_abstract_name socket_name d.world ≡ true
      → holder d.world ≡ some q
      → d.running ≡ q ∷ []
      → IsAsked d (main S p d) q
  unfolding main acquire signal_show shows
  main-IsAsked p q d there e h = record {
    bytes = b'S' ∷ [];
    still = rw (there, I.refuses d.world p q e) h;
    reached = rw (there, I.refuses d.world p q e, there) (I.delivers d.world (b'S' ∷ []) q e);
    shown = refl;
  }

  main-after :
      (d : Desktop S) (p : ℕ) (o : Option ℕ)
      → holder d.world ≡ o
      → Holds d
      → S.from_abstract_name socket_name d.world ≡ true
      → ((d.running ≡ []) × ((main S p d).running ≡ p ∷ []))
        ⊎ ((q : ℕ) × (d.running ≡ q ∷ []) × IsAsked d (main S p d) q)
  unfolding main acquire
  main-after d p none e h there =
      let x = I.binds d.world p e in
      inl (h ∙ rw e refl, rw (there, x.0) (ap (λ l. p ∷ l) (h ∙ rw e refl)))
  main-after d p (some q) e h there =
      let one : d.running ≡ q ∷ [] = h ∙ rw e refl in inr (q, one, main-IsAsked p q d there e one)

  -- From a system where none runs, whatever instances start and end in whatever order, a further
  -- start finds none running, and runs, or finds one running, which is then asked to show its
  -- window and stays the only one.
  pub main-single :
      (acts : List Act) (d : Desktop S) (p : ℕ)
      → d.running ≡ []
      → holder d.world ≡ none
      → S.from_abstract_name socket_name (after acts d).world ≡ true
      → (((after acts d).running ≡ []) × ((main S p (after acts d)).running ≡ p ∷ []))
        ⊎ ((q : ℕ) × ((after acts d).running ≡ q ∷ [])
            × IsAsked (after acts d) (main S p (after acts d)) q)
  main-single acts d p none_runs vacant there =
      main-after (after acts d) p (holder (after acts d).world) refl
        (after-Holds acts d (rw (none_runs, vacant) refl)) there
