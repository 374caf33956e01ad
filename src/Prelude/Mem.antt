-- ===== src/Prelude/Mem.antt =====
-- Membership as a predicate by recursion, which case splits take apart.
use mathlib.Core.Path.{◌≡◌, refl}
use mathlib.Core.Logic.{◌⊎◌, inl, inr}
use mathlib.Core.Bool.{Bool, true}
use mathlib.Core.Option.{Option, none, some}
use mathlib.Core.List.{List, [], ◌∷◌}
use legion_linux_toolkit_rus.Prelude.Tests.{Bool-cases}
use legion_linux_toolkit_rus.Prelude.Lists.{filter, filter_map, cons_some}

module _ {A : Type 0} where
  abbrev pub In : A → List A → Type 0
  In a [] = ⊥
  In a (x ∷ xs) = (a ≡ x) ⊎ In a xs

  pub In-filter : (p : A → Bool) (a : A) (xs : List A) → In a xs → p a ≡ true → In a (filter p xs)
  In-filter p a [] m h = elim m [ ]
  In-filter p a (x ∷ xs) (inl e) h = rw (← e, h) (inl refl)
  In-filter p a (x ∷ xs) (inr m) h = elim (Bool-cases (p x)) [
    | inl b ↦ rw b (inr (In-filter p a xs m h))
    | inr b ↦ rw b (In-filter p a xs m h)
  ]

In-cons_some : {B : Type 0} (b : B) (o : Option B) (ys : List B) → In b ys → In b (cons_some o ys)
In-cons_some b none ys m = m
In-cons_some b (some c) ys m = inr m

module _ {A B : Type 0} where
  pub In-filter_map :
      (f : A → Option B) (a : A) (b : B) (xs : List A)
      → In a xs
      → f a ≡ some b
      → In b (filter_map f xs)
  In-filter_map f a b [] m h = elim m [ ]
  In-filter_map f a b (x ∷ xs) (inl e) h = rw (← e, h) (inl refl)
  In-filter_map f a b (x ∷ xs) (inr m) h =
      In-cons_some b (f x) (filter_map f xs) (In-filter_map f a b xs m h)
