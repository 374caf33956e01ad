-- ===== src/Tests/Codec.antt =====
-- Texts of values, from which the values are read back: marks tell where a value ends.
use Prim.Native.String.{[], ◌∷◌}
use mathlib.Core.Option.{Option, none, some}
use legion_linux_toolkit_rus.Prelude.{
  ℕ, zero, suc, Char, String, Bool, true, false, List, ◌≡◌, refl, code, ◌=?◌, if◌then◌else◌, length,
}

-- Writing a value in front of a text, and reading it back with the rest.
pub record Codec (A : Type 0) : Type 1 where
  pub put : A → String → String
  pub take : String → Option (A × String)
  pub law : (a : A) (s : String) → take (put a s) ≡ some (a, s)

abbrev and_then : {A B : Type 0} → Option A → (A → Option B) → Option B
and_then none f = none
and_then (some a) f = f a

abbrev mark : Bool → Char
mark true = "|"
mark false = "."

abbrev take_bool : String → Option (Bool × String)
take_bool [] = none
take_bool (c ∷ s) = some (code c =? b'|', s)

bool_law : (b : Bool) (s : String) → take_bool (mark b ∷ s) ≡ some (b, s)
bool_law true s = refl
bool_law false s = refl

pub bool : Codec Bool
bool = record { put = λ b s. mark b ∷ s; take = take_bool; law = bool_law }

abbrev put_nat : ℕ → String → String
put_nat zero s = mark false ∷ s
put_nat (suc n) s = mark true ∷ put_nat n s

abbrev next : Option (ℕ × String) → Option (ℕ × String)
next none = none
next (some (n, s)) = some (suc n, s)

abbrev take_nat : String → Option (ℕ × String)
take_nat [] = none
take_nat (c ∷ s) = let rest = take_nat s in if code c =? b'|' then next rest else some (0, s)

nat_law : (n : ℕ) (s : String) → take_nat (put_nat n s) ≡ some (n, s)
nat_law zero s = refl
nat_law (suc n) s = rw (nat_law n s) refl

pub nat : Codec ℕ
nat = record { put = put_nat; take = take_nat; law = nat_law }

abbrev put_text : String → String → String
put_text [] s = mark false ∷ s
put_text (c ∷ t) s = mark true ∷ c ∷ put_text t s

abbrev push : Char → Option (String × String) → Option (String × String)
push c none = none
push c (some (t, s)) = some (c ∷ t, s)

abbrev take_text : String → Option (String × String)
take_text [] = none
take_text (c ∷ []) = if code c =? b'|' then none else some ([], [])
take_text (c ∷ d ∷ s) =
    let rest = take_text s in if code c =? b'|' then push d rest else some ([], d ∷ s)

text_end : (s : String) → take_text (mark false ∷ s) ≡ some ([], s)
text_end [] = refl
text_end (c ∷ s) = refl

text_law : (t s : String) → take_text (put_text t s) ≡ some (t, s)
text_law [] s = text_end s
text_law (c ∷ t) s = rw (text_law t s) refl

pub text : Codec String
text = record { put = put_text; take = take_text; law = text_law }

module _ {A : Type 0} (C : Codec A) where
  abbrev put_option : Option A → String → String
  put_option none s = mark false ∷ s
  put_option (some a) s = mark true ∷ C.put a s

  abbrev found : Option (A × String) → Option (Option A × String)
  found none = none
  found (some (a, s)) = some (some a, s)

  abbrev take_option : String → Option (Option A × String)
  take_option [] = none
  take_option (c ∷ s) = if code c =? b'|' then found (C.take s) else some (none, s)

  option_law : (o : Option A) (s : String) → take_option (put_option o s) ≡ some (o, s)
  option_law none s = refl
  option_law (some a) s = rw (C.law a s) refl

  pub option : Codec (Option A)
  option = record { put = put_option; take = take_option; law = option_law }

  abbrev put_items : List A → String → String
  put_items List.[] s = s
  put_items (List.◌∷◌ a l) s = C.put a (put_items l s)

  abbrev take_items : ℕ → String → Option (List A × String)
  take_items zero s = some (List.[], s)
  take_items (suc n) s = and_then (C.take s) λ r.
      let (a, rest) = r in
      and_then (take_items n rest) λ q. let (l, end) = q in some (List.◌∷◌ a l, end)

  items_law : (l : List A) (s : String) → take_items (length l) (put_items l s) ≡ some (l, s)
  items_law List.[] s = refl
  items_law (List.◌∷◌ a l) s = rw (C.law a (put_items l s), items_law l s) refl

  abbrev put_list : List A → String → String
  put_list l s = put_nat (length l) (put_items l s)

  abbrev take_list : String → Option (List A × String)
  take_list s = and_then (take_nat s) λ r. let (n, rest) = r in take_items n rest

  list_law : (l : List A) (s : String) → take_list (put_list l s) ≡ some (l, s)
  list_law l s = rw (nat_law (length l) (put_items l s), items_law l s) refl

  pub list : Codec (List A)
  list = record { put = put_list; take = take_list; law = list_law }

-- One value after another.
module _ {A B : Type 0} (C : Codec A) (D : Codec B) where
  abbrev take_pair : String → Option ((A × B) × String)
  take_pair s =
      and_then (C.take s)
        λ r. let (a, rest) = r in and_then (D.take rest) λ q. let (b, end) = q in some ((a, b), end)

  pair_law : (p : A × B) (s : String) → take_pair (C.put p.0 (D.put p.1 s)) ≡ some (p, s)
  pair_law p s = rw (C.law p.0 (D.put p.1 s), D.law p.1 s) refl

  pub pair : Codec (A × B)
  pair = record { put = λ p s. C.put p.0 (D.put p.1 s); take = take_pair; law = pair_law }

-- A value that is kept as another.
module _ {A B : Type 0} (C : Codec A) (to : B → A) (from : A → B)
    (same : (b : B) → from (to b) ≡ b) where
  abbrev take_as : String → Option (B × String)
  take_as s = and_then (C.take s) λ r. let (a, rest) = r in some (from a, rest)

  as_law : (b : B) (s : String) → take_as (C.put (to b) s) ≡ some (b, s)
  as_law b s = rw (C.law (to b) s, same b) refl

  pub kept_as : Codec B
  kept_as = record { put = λ b s. C.put (to b) s; take = take_as; law = as_law }

abbrev pub whole : {A : Type 0} → Option (A × String) → Option A
whole none = none
whole (some (a, s)) = some a
