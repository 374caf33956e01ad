-- ===== src/Prelude/Find.antt =====
-- `find` returns an element that passes, and the one that passes where there is only one.
use mathlib.Core.Path.{◌≡◌, subst}
use mathlib.Core.Bool.{Bool, true}
use mathlib.Core.Option.{some, some-injective}
use mathlib.Core.List.{List, [], ◌∷◌}
use mathlib.Core.Logic.{inl, inr}
use legion_linux_toolkit_rus.Prelude.Tests.{Bool-cases}
use legion_linux_toolkit_rus.Prelude.Lists.{find, any}

pub find-some {ℓ} :
    {A : Type ℓ} (p : A → Bool) (xs : List A) (x : A) → find p xs ≡ some x → p x ≡ true
find-some p [] x h = cc
find-some p (y ∷ ys) x h = elim (Bool-cases (p y)) [
  | inl b ↦ subst (λ z. p z ≡ true) (some-injective y x (rw b at h)) b
  | inr b ↦ find-some p ys x (rw b at h)
]

-- `find` returns something exactly where `any` holds.
pub find_of_any {ℓ} :
    {A : Type ℓ} (p : A → Bool) (xs : List A) → any p xs ≡ true → (x : A) × (find p xs ≡ some x)
find_of_any p [] h = cc
find_of_any p (y ∷ ys) h = elim (Bool-cases (p y)) [
  | inl b ↦ (y, rw b)
  | inr b ↦ let r = find_of_any p ys (rw b at h) in (r.0, rw b r.1)
]
