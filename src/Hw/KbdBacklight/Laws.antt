-- ===== src/Hw/KbdBacklight/Laws.antt =====
-- The level of the backlight stays within the maximum, and is read back.
use legion_linux_toolkit_rus.Prelude.{
  ℕ, ◌<◌, ◌≤◌, String, ◌≡◌, ◌⊎◌, inl, inr, refl, some, none, Option, arith, ltb, Bool-cases,
}
use legion_linux_toolkit_rus.Prelude.Result.{ok, err, ◌>>=◌}
use legion_linux_toolkit_rus.Text.{parse_unsigned}
use legion_linux_toolkit_rus.Text.Decimal.{show}
use legion_linux_toolkit_rus.Hw.Error.{HwResult}
use legion_linux_toolkit_rus.Hw.Sysfs.{Sysfs, Kernel, u32, read, parsed, read_parsed}
use legion_linux_toolkit_rus.Hw.Sysfs.Laws.{IsAttribute, read_parsed-write, write-left}
use legion_linux_toolkit_rus.Hw.KbdBacklight.{brightness_file, max_file, max, get, set, set_within}

parse_unsigned-lt : (limit : ℕ) (s : String) {n : ℕ} → parse_unsigned limit s ≡ some n → n < limit
unfolding parse_unsigned
parse_unsigned-lt limit s h = ground arith

parsed-lt :
    (q raw : String) (o : Option ℕ) {n : ℕ}
    → parsed q raw o ≡ ok n
    → ((m : ℕ) → o ≡ some m → m < 4294967296)
    → n < 4294967296
parsed-lt q raw none h k = cc
parsed-lt q raw (some m) h k = ground (arith, k m refl)

bound-lt :
    (q : String) (r : HwResult String) {n : ℕ}
    → (r >>= λ raw. parsed q raw (u32 raw)) ≡ ok n
    → n < 4294967296
bound-lt q (ok raw) h = parsed-lt q raw (u32 raw) h (λ m e. parse_unsigned-lt 4294967296 raw e)
bound-lt q (err e) h = cc

read_parsed-lt :
    (root : Sysfs) (q : String) {n : ℕ} → read_parsed u32 root q ≡ ok n → n < 4294967296
unfolding read_parsed
read_parsed-lt root q h = bound-lt q (read root q) h

module _ (K : Kernel) (level : ℕ) (root : Sysfs) where
  set_within-guarded :
      (r : HwResult ℕ)
      → max root ≡ r
      → ((set_within K level r root).1 ≡ root)
        ⊎ ((maximum : ℕ) × (max root ≡ ok maximum)
            × (level ≤ maximum)
            × ((set_within K level r root).1 ≡ (K root brightness_file (show level)).1))
  set_within-guarded (err e) h = inl refl
  set_within-guarded (ok maximum) h = elim (Bool-cases (ltb maximum level)) [
    | inl b ↦ inl (rw b)
    | inr b ↦ elim (write-left K brightness_file (show level) root) [
      | inl same ↦ inl (rw b same)
      | inr left ↦ inr (maximum, h, ground arith, rw b left)
    ]
  ]

  -- A request leaves the files alone, unless the maximum can be read and the level does not exceed
  -- it; then it leaves what the kernel made of the write of that level.
  pub set-guarded :
      ((set K level root).1 ≡ root)
      ⊎ ((maximum : ℕ) × (max root ≡ ok maximum)
          × (level ≤ maximum)
          × ((set K level root).1 ≡ (K root brightness_file (show level)).1))
  set-guarded = unfold set in set_within-guarded (max root) refl

  module _ (A : IsAttribute K brightness_file) where
    get-set_level_within :
        (r : HwResult ℕ)
        → max root ≡ r
        → (set_within K level r root).0 ≡ ok tt
        → get (set_within K level r root).1 ≡ ok level
    get-set_level_within (err e) m h = cc
    get-set_level_within (ok maximum) m h = elim (Bool-cases (ltb maximum level)) [
      | inl b ↦ cc (rw b at h)
      | inr b ↦
          let fits : maximum < 4294967296 = read_parsed-lt root max_file (unfold max in m) in
          rw b (
            unfold get in
            read_parsed-write K brightness_file level root A (ground arith) (rw b at h))
    ]

    -- Where the brightness is an attribute that keeps what is written, a level whose write succeeds
    -- is the level that is read afterwards.
    pub get-set_level : (set K level root).0 ≡ ok tt → get (set K level root).1 ≡ ok level
    unfolding set
    get-set_level h = get-set_level_within (max root) refl h
