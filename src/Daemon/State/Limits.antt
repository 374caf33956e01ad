-- ===== src/Daemon/State/Limits.antt =====
-- The map of the power limits: `insert` is that of a sorted map.
use Prim.Native.Nat.{Ordering}
use Prim.Native.String.{compare}
use text.Mathlib.TextEquality.{path_by_compare}
use text.Mathlib.TextPositions.{compare_refl}
use legion_linux_toolkit_rus.Prelude.{
  ℕ, String, Option, none, some, [], ◌∷◌, ◌≡◌, ◌≢◌, ◌⊎◌, sym, ◌∙◌, eq_iff, refl, ◌==◌,
  if◌then◌else◌, true, false, Bool, Bool-cases, inl, inr,
}
use legion_linux_toolkit_rus.Daemon.State.{Limits, insert}

-- The value of a key, in a map whose keys differ from each other.
unfoldable pub lookup : String → Limits → Option ℕ
lookup k [] = none
lookup k ((j, w) ∷ m) = if k == j then some w else lookup k m

pub Ordering-cases : (o : Ordering) → (o ≡ Ordering.lt) ⊎ ((o ≡ Ordering.eq) ⊎ (o ≡ Ordering.gt))
Ordering-cases Ordering.lt = inl refl
Ordering-cases Ordering.eq = inr (inl refl)
Ordering-cases Ordering.gt = inr (inr refl)

ne-gt : (k j : String) → compare k j ≡ Ordering.gt → k ≢ j
ne-gt k j g e = cc (rw (e, compare_refl j) at g)

if-same :
    (b : Bool) (v : ℕ) (o p : Option ℕ)
    → (b ≡ false → o ≡ p)
    → (if b then some v else o) ≡ (if b then some v else p)
if-same true v o p h = refl
if-same false v o p h = h refl

-- After an insertion, the map has the new value at the key, and at every other key what it had.
pub lookup-insert :
    (i k : String) (v : ℕ) (m : Limits)
    → lookup i (insert k v m) ≡ (if i == k then some v else lookup i m)
unfolding lookup insert
lookup-insert i k v [] = refl
lookup-insert i k v ((j, w) ∷ m) = elim (Ordering-cases (compare k j)) [
  | inl lt ↦ rw lt refl
  | inr (inl eq) ↦ rw (eq, ← path_by_compare k j eq) (if-same (i == k) v _ _ (λ b. rw b refl))
  | inr (inr gt) ↦ elim (Bool-cases (i == j)) [
    | inr b ↦ rw (gt, b) (lookup-insert i k v m)
    | inl b ↦ elim (Bool-cases (i == k)) [
      | inr c ↦ rw (gt, b, c) refl
      | inl c ↦ elim (ne-gt k j gt (sym ((eq_iff i k).0 c) ∙ (eq_iff i j).0 b)) [ ]
    ]
  ]
]
