-- ===== src/Daemon/Watch/Changes.antt =====
-- What `next_change` returns when the daemon calls it again and again.
use legion_linux_toolkit_rus.Prelude.{
  ℕ, zero, suc, ◌≤◌, Bool, true, ◌&&◌, not, Option, none, some, List, [], ◌∷◌, ◌≡◌, refl, ap, arith,
  length, cons_some, if◌then◌else◌, Bool-cases, inl, inr,
}
use legion_linux_toolkit_rus.Prelude.Result.{ok, err, to_option}
use legion_linux_toolkit_rus.Hw.Error.{HwResult}
use legion_linux_toolkit_rus.Hw.Profile.{
  PowerProfile, quiet, balanced, performance, extreme, custom,
}
use legion_linux_toolkit_rus.Hw.ProfileWatch.{Reread, consume}
use legion_linux_toolkit_rus.Daemon.Watch.{
  ProfileWatcher, Wake, ready, failed, Wait, changed, waiting, stuck, same_profile, is_last,
  next_change,
}

abbrev more : Wait → (ProfileWatcher → List Wake → List PowerProfile) → List PowerProfile
more (changed p w rest) k = p ∷ k w rest
more (waiting w) k = []
more (stuck w) k = []

-- The profiles that at most `n` calls return, one after another, over the wakes to come.
unfoldable pub changes : ℕ → ProfileWatcher → List Wake → List PowerProfile
unfolding next_change
changes zero w wakes = []
changes (suc n) w wakes = more (next_change w wakes) (changes n)

-- The profiles that are read on the wakes, up to the first failure of the descriptor; a read that
-- fails, or finds no profile, is skipped.
unfoldable pub readings : List Wake → List PowerProfile
unfolding consume
readings [] = []
readings (failed e ∷ rest) = []
readings (ready r ∷ rest) = cons_some (to_option (consume r)) (readings rest)

-- Without the elements that equal the one before them.
unfoldable pub dedup : Option PowerProfile → List PowerProfile → List PowerProfile
dedup last [] = []
dedup last (p ∷ ps) = let rest = dedup (some p) ps in if is_last last p then rest else p ∷ rest

pub is_last-eq : (l : Option PowerProfile) (p : PowerProfile) → is_last l p ≡ true → l ≡ some p
is_last-eq none p h = cc
is_last-eq (some q) p h = ap some (same q p h)
  where
    same : (a b : PowerProfile) → same_profile a b ≡ true → a ≡ b
    same quiet quiet e = refl
    same balanced balanced e = refl
    same performance performance e = refl
    same extreme extreme e = refl
    same custom custom e = refl
    same _ _ e = cc

changes-cons :
    (n : ℕ) (w : ProfileWatcher) (rest : List Wake) (r : Reread) (v : HwResult PowerProfile)
    → consume r ≡ v
    → changes (suc n) w rest ≡ dedup w.last (readings rest)
    → ((p : PowerProfile)
        → changes n (record w { last = some p }) rest ≡ dedup (some p) (readings rest))
    → changes (suc n) w (ready r ∷ rest) ≡ dedup w.last (readings (ready r ∷ rest))
unfolding changes readings dedup next_change
changes-cons n w rest r (err e) h again next = rw h again
changes-cons n w rest r (ok p) h again next = elim (Bool-cases (is_last w.last p)) [
  | inl b ↦ rw (h, b, ← is_last-eq w.last p b) again
  | inr b ↦ rw (h, b, next p) refl
]

-- As many calls as there are wakes return the readings of the wakes in order, without those that
-- equal the reading before them, or for the first one the profile returned last.
pub changes-dedup :
    (wakes : List Wake) (n : ℕ) (w : ProfileWatcher)
    → length wakes ≤ n
    → changes n w wakes ≡ dedup w.last (readings wakes)
unfolding changes readings dedup next_change
changes-dedup [] zero w h = refl
changes-dedup [] (suc n) w h = refl
changes-dedup (v ∷ rest) zero w h = let e : ⊥ = omega arith in elim e [ ]
changes-dedup (failed e ∷ rest) (suc n) w h = refl
changes-dedup (ready r ∷ rest) (suc n) w h =
    changes-cons n w rest r (consume r) refl (changes-dedup rest (suc n) w (omega arith))
      (λ p. changes-dedup rest n (record w { last = some p }) (omega arith))

-- No profile equals the one before it.
abbrev pub alternates : Option PowerProfile → List PowerProfile → Bool
alternates last [] = true
alternates last (p ∷ ps) = not (is_last last p) && alternates (some p) ps

dedup-alternates :
    (ps : List PowerProfile) (l : Option PowerProfile) → alternates l (dedup l ps) ≡ true
unfolding dedup
dedup-alternates [] l = refl
dedup-alternates (p ∷ ps) l = elim (Bool-cases (is_last l p)) [
  | inl b ↦ rw (b, is_last-eq l p b) (dedup-alternates ps (some p))
  | inr b ↦ rw (b, b) (dedup-alternates ps (some p))
]

-- Of as many calls as there are wakes, none returns the profile that the call before it returned,
-- and the first not the profile returned last.
pub changes-alternate :
    (wakes : List Wake) (w : ProfileWatcher)
    → alternates w.last (changes (length wakes) w wakes) ≡ true
changes-alternate wakes w =
    rw (changes-dedup wakes (length wakes) w (omega arith))
      (dedup-alternates (readings wakes) w.last)
