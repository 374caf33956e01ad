-- ===== src/Prelude/Result.antt =====
-- `std::result::Result`, with the adaptors that the source uses.
use mathlib.Core.Path.{◌≡◌, refl}
use mathlib.Core.Logic.{◌⊎◌, inl, inr}
use mathlib.Core.Option.{Option, none, some}
use mathlib.Core.List.{List, [], ◌∷◌}

pub data Result {ℓ} (E A : Type ℓ) : Type ℓ where
  ok : A → Result E A
  err : E → Result E A

infixl 5 ◌>>=◌ ◌>>◌
-- `?` inside a function that returns a `Result`
abbrev pub ◌>>=◌ {ℓ} : {E A B : Type ℓ} → Result E A → (A → Result E B) → Result E B
ok a >>= f = f a
err e >>= f = err e

abbrev pub ◌>>◌ {ℓ} : {E A B : Type ℓ} → Result E A → Result E B → Result E B
m >> k = m >>= λ _. k

module _ {ℓ} {E A : Type ℓ} where
  -- `Result::ok`
  abbrev pub to_option : Result E A → Option A
  to_option (ok a) = some a
  to_option (err e) = none

  -- `Option::ok_or_else`
  abbrev pub ok_or : E → Option A → Result E A
  ok_or e none = err e
  ok_or e (some a) = ok a

  -- `Result::unwrap_or`
  abbrev pub unwrap_or : A → Result E A → A
  unwrap_or d (ok a) = a
  unwrap_or d (err e) = d

module _ {ℓ} {E A B : Type ℓ} where
  -- `Result::map`
  abbrev pub map_ok : (A → B) → Result E A → Result E B
  map_ok f (ok a) = ok (f a)
  map_ok f (err e) = err e

module _ {ℓ} {E F A : Type ℓ} where
  -- `Result::map_err`
  abbrev pub map_err : (E → F) → Result E A → Result F A
  map_err f (ok a) = ok a
  map_err f (err e) = err (f e)

abbrev pub cons_ok {ℓ} : {E B : Type ℓ} → Result E B → Result E (List B) → Result E (List B)
cons_ok r rs = r >>= λ b. rs >>= λ bs. ok (b ∷ bs)

module _ {ℓ} {E A B : Type ℓ} where
  -- `iter().map(f).collect::<Result<Vec<_>, _>>()`
  abbrev pub collect : (A → Result E B) → List A → Result E (List B)
  collect f [] = ok []
  collect f (x ∷ xs) = cons_ok (f x) (collect f xs)

module _ {ℓ} {E A : Type ℓ} where
  -- What `ok_or_else` returns, read backwards.
  pub ok_or-ok : (e : E) (o : Option A) {a : A} → ok_or e o ≡ ok a → o ≡ some a
  ok_or-ok e none h = cc
  ok_or-ok e (some b) h = cc

  pub Result-cases : (r : Result E A) → ((a : A) × (r ≡ ok a)) ⊎ ((e : E) × (r ≡ err e))
  Result-cases (ok a) = inl (a, refl)
  Result-cases (err e) = inr (e, refl)
