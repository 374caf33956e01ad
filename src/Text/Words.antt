-- ===== src/Text/Words.antt =====
-- `split_whitespace` against `join`, and on a text that has been trimmed.
use Prim.Native.String.{[], ◌∷◌}
use legion_linux_toolkit_rus.Prelude.{
  String, List, Char, ◌≡◌, ◌≢◌, refl, ◌∙◌, ap, true, inl, inr, Bool-cases, All,
}
use legion_linux_toolkit_rus.Text.{
  ◌<>◌, is_whitespace, trim_start, trim_end, trim, split_words, split_whitespace, push_word,
  drop_blank, join,
}
use legion_linux_toolkit_rus.Text.Append.{<>_assoc}
use legion_linux_toolkit_rus.Text.Trim.{NoSpace}

-- A token: what white space cannot split.
abbrev pub IsWord : String → Type 0
IsWord s = NoSpace s × (s ≢ "")

split_words-drop_blank :
    (c : Char) (t s : String)
    → split_words t ≡ split_words s
    → split_words (drop_blank c t) ≡ split_words (c ∷ s)
unfolding split_words
split_words-drop_blank c (d ∷ t) s e = cc
split_words-drop_blank c [] s e = elim (Bool-cases (is_whitespace c)) [
  | inl b ↦ rw (b, ← e) refl
  | inr b ↦ rw (b, ← e) (rw b)
]

split_words-trim_end : (s : String) → split_words (trim_end s) ≡ split_words s
unfolding trim_end
split_words-trim_end [] = refl
split_words-trim_end (c ∷ s) = split_words-drop_blank c (trim_end s) s (split_words-trim_end s)

split_whitespace-trim_start : (s : String) → split_whitespace (trim_start s) ≡ split_whitespace s
unfolding trim_start split_whitespace
split_whitespace-trim_start [] = refl
split_whitespace-trim_start (c ∷ s) = elim (Bool-cases (is_whitespace c)) [
  | inl b ↦ rw b (split_whitespace-trim_start s)
  | inr b ↦ rw b (rw b)
]

-- Trimming does not change the tokens.
pub split_whitespace-trim : (s : String) → split_whitespace (trim s) ≡ split_whitespace s
unfolding trim
split_whitespace-trim s =
    split_whitespace-trim_start (trim_end s)
    ∙ unfold split_whitespace in rw (split_words-trim_end s)

-- A word in front of white space is the first token.
split_words-word :
    (w : String) (c : Char) (s : String)
    → NoSpace w
    → is_whitespace c ≡ true
    → split_words (w <> (c ∷ s)) ≡ (w, split_whitespace s)
unfolding split_words split_whitespace
split_words-word [] c s h b = rw b
split_words-word (d ∷ w) c s h b = rw (h.0, split_words-word w c s h.1 b)

push_word-ne : (w : String) (ws : List String) → w ≢ "" → push_word w ws ≡ List.◌∷◌ w ws
push_word-ne [] ws h = absurd (h refl)
push_word-ne (c ∷ w) ws h = refl

-- A word in front of white space, and the tokens of what follows.
pub split_whitespace-word :
    (w : String) (c : Char) (s : String)
    → IsWord w
    → is_whitespace c ≡ true
    → split_whitespace (w <> (c ∷ s)) ≡ List.◌∷◌ w (split_whitespace s)
unfolding split_whitespace
split_whitespace-word w c s h b =
    rw (split_words-word w c s h.0 b) (push_word-ne w (split_whitespace s) h.1)

-- The tokens of words joined by spaces, on a line, are the words.
pub split_whitespace-join :
    (ws : List String) → All IsWord ws → split_whitespace (join ws <> "\n") ≡ ws
unfolding join is_whitespace
split_whitespace-join List.[] h = unfold split_whitespace in refl
split_whitespace-join (List.◌∷◌ w List.[]) h =
    split_whitespace-word w "\n" "" h.0 refl ∙ unfold split_whitespace in refl
split_whitespace-join (List.◌∷◌ w (List.◌∷◌ v ws)) h =
    rw (<>_assoc w (" " <> join (List.◌∷◌ v ws)) "\n") (
      split_whitespace-word w " " (join (List.◌∷◌ v ws) <> "\n") h.0 refl
      ∙ ap (λ rest. List.◌∷◌ w rest) (split_whitespace-join (List.◌∷◌ v ws) h.1))
