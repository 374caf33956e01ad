-- ===== src/Daemon/Watch/Ends.antt =====
-- When a call of `next_change` ends, and with what.
use legion_linux_toolkit_rus.Prelude.{
  ◌<◌, some, List, [], ◌∷◌, ◌≡◌, ◌⊎◌, refl, ◌∙◌, arith, length, Bool-cases, inl, inr,
}
use legion_linux_toolkit_rus.Prelude.Result.{ok, err}
use legion_linux_toolkit_rus.Hw.Error.{HwResult}
use legion_linux_toolkit_rus.Hw.Profile.{PowerProfile}
use legion_linux_toolkit_rus.Hw.ProfileWatch.{Reread, consume}
use legion_linux_toolkit_rus.Daemon.Watch.{
  ProfileWatcher, Wake, ready, failed, changed, waiting, stuck, is_last, next_change,
}
use legion_linux_toolkit_rus.Daemon.Watch.Changes.{readings, dedup, is_last-eq}

-- The call returns a profile, and leaves fewer wakes to the calls after it: it is the first of the
-- new readings, and the others are left.
pub record IsResolved (w : ProfileWatcher) (wakes : List Wake) : Type 0 where
  pub profile : PowerProfile
  pub rest : List Wake
  pub returned : next_change w wakes ≡ changed profile (record w { last = some profile }) rest
  pub shorter : length rest < length wakes
  pub first : dedup w.last (readings wakes) ≡ profile ∷ dedup (some profile) (readings rest)

-- The call returns nothing: it waits for another wake, or stays pending after a failure of the
-- descriptor. Nothing was new.
pub record IsPending (w : ProfileWatcher) (wakes : List Wake) : Type 0 where
  pub kept : (next_change w wakes ≡ waiting w) ⊎ (next_change w wakes ≡ stuck w)
  pub nothing : dedup w.last (readings wakes) ≡ []

abbrev Ends : ProfileWatcher → List Wake → Type 0
Ends w wakes = IsResolved w wakes ⊎ IsPending w wakes

-- A wake that brings nothing new is skipped.
Ends-skip :
    (w : ProfileWatcher) (v : Wake) (rest : List Wake)
    → next_change w (v ∷ rest) ≡ next_change w rest
    → dedup w.last (readings (v ∷ rest)) ≡ dedup w.last (readings rest)
    → Ends w rest
    → Ends w (v ∷ rest)
Ends-skip w v rest n d (inl r) = inl (record {
  profile = r.profile;
  rest = r.rest;
  returned = n ∙ r.returned;
  shorter = omega (arith, r.shorter);
  first = d ∙ r.first;
})
Ends-skip w v rest n d (inr e) = inr (record { kept = kept_on e.kept; nothing = d ∙ e.nothing })
  where
    kept_on :
        (next_change w rest ≡ waiting w) ⊎ (next_change w rest ≡ stuck w)
        → (next_change w (v ∷ rest) ≡ waiting w) ⊎ (next_change w (v ∷ rest) ≡ stuck w)
    kept_on (inl k) = inl (n ∙ k)
    kept_on (inr k) = inr (n ∙ k)

Ends-ready :
    (w : ProfileWatcher) (r : Reread) (rest : List Wake) (v : HwResult PowerProfile)
    → consume r ≡ v
    → Ends w rest
    → Ends w (ready r ∷ rest)
unfolding next_change readings dedup
Ends-ready w r rest (err e) h ends = Ends-skip w (ready r) rest (rw h refl) (rw h refl) ends
Ends-ready w r rest (ok p) h ends = elim (Bool-cases (is_last w.last p)) [
  | inl b ↦
      Ends-skip w (ready r) rest (rw (h, b) refl) (rw (h, b, ← is_last-eq w.last p b) refl) ends
  | inr b ↦ inl (record {
    profile = p;
    rest = rest;
    returned = rw (h, b) refl;
    shorter = omega arith;
    first = rw (h, b) refl;
  })
]

-- Over any wakes to come, a call of `next_change` returns where they bring a profile other than the
-- last one before the descriptor fails: it returns the first such profile and remembers it, and
-- leaves fewer wakes, with the other new profiles, to the calls after it, so that the calls come to
-- an end with the wakes. Where they bring none, the call waits or stays pending, and the watcher is
-- as it was.
pub next_change-ends :
    (wakes : List Wake) (w : ProfileWatcher) → IsResolved w wakes ⊎ IsPending w wakes
unfolding readings dedup next_change
next_change-ends [] w = inr (record { kept = inl refl; nothing = refl })
next_change-ends (failed e ∷ rest) w = inr (record { kept = inr refl; nothing = refl })
next_change-ends (ready r ∷ rest) w = Ends-ready w r rest (consume r) refl (next_change-ends rest w)
