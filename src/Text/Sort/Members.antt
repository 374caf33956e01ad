-- ===== src/Text/Sort/Members.antt =====
-- Sorting keeps the members of a list.
use legion_linux_toolkit_rus.Prelude.{
  String, List, [], ◌∷◌, ◌≡◌, Bool, true, false, refl, ◌||◌, ◌==◌, eq_iff, arith, any, Bool-cases,
  inl, inr, In,
}
use legion_linux_toolkit_rus.Text.Sort.{str_le, insert, sort}

-- `any` sees no order.
any-insert :
    (p : String → Bool) (s : String) (ts : List String) → any p (insert s ts) ≡ (p s || any p ts)
unfolding insert
any-insert p s [] = refl
any-insert p s (t ∷ ts) = ground (arith, any-insert p s ts)

pub any-sort : (p : String → Bool) (ts : List String) → any p (sort ts) ≡ any p ts
unfolding sort
any-sort p [] = refl
any-sort p (t ∷ ts) = ground (arith, any-insert p t (sort ts), any-sort p ts)

-- The text stands in the list.
abbrev pub Listed : String → List String → Type 0
Listed s ts = any (λ t. t == s) ts ≡ true

or-true : (b : Bool) → (b || true) ≡ true
or-true true = refl
or-true false = refl

pub any_of_Listed :
    (p : String → Bool) (s : String) (ts : List String) → Listed s ts → p s ≡ true → any p ts ≡ true
any_of_Listed p s [] h k = h
any_of_Listed p s (t ∷ ts) h k = elim (Bool-cases (t == s)) [
  | inl b ↦ rw ((eq_iff t s).0 b, k)
  | inr b ↦ rw (any_of_Listed p s ts (rw b at h) k) (or-true (p t))
]

In-insert_self : (s : String) (ts : List String) → In s (insert s ts)
unfolding insert
In-insert_self s [] = inl refl
In-insert_self s (t ∷ ts) = elim (Bool-cases (str_le s t)) [
  | inl b ↦ rw b (inl refl)
  | inr b ↦ rw b (inr (In-insert_self s ts))
]

In-insert : (a s : String) (ts : List String) → In a ts → In a (insert s ts)
unfolding insert
In-insert a s [] m = elim m [ ]
In-insert a s (t ∷ ts) (inl e) = elim (Bool-cases (str_le s t)) [
  | inl b ↦ rw b (inr (inl e))
  | inr b ↦ rw b (inl e)
]
In-insert a s (t ∷ ts) (inr m) = elim (Bool-cases (str_le s t)) [
  | inl b ↦ rw b (inr (inr m))
  | inr b ↦ rw b (inr (In-insert a s ts m))
]

pub In-sort : (a : String) (ts : List String) → In a ts → In a (sort ts)
unfolding sort
In-sort a [] m = elim m [ ]
In-sort a (t ∷ ts) (inl e) = rw e (In-insert_self t (sort ts))
In-sort a (t ∷ ts) (inr m) = In-insert a t (sort ts) (In-sort a ts m)
