-- ===== src/Ctl/Commands/Limits.antt =====
-- What `legion-ctl ppt` may change, over either way.
use legion_linux_toolkit_rus.Prelude.{
  ℕ, String, true, Option, none, some, List, [], ◌∷◌, ◌≡◌, ◌⊎◌, refl, Bool-cases, inl, inr,
}
use legion_linux_toolkit_rus.Prelude.Result.{Result, ok, err}
use legion_linux_toolkit_rus.Hw.Error.{Message}
use legion_linux_toolkit_rus.Hw.Sysfs.{Kernel}
use legion_linux_toolkit_rus.Hw.FirmwareAttrs
use legion_linux_toolkit_rus.Hw.FirmwareAttrs.{AttrInfo, in_range}
use legion_linux_toolkit_rus.Daemon.Iface.{Call}
use legion_linux_toolkit_rus.Daemon.Methods.{named_or}
use legion_linux_toolkit_rus.Ctl.Backend.{Proxy, Backend, change}
use legion_linux_toolkit_rus.Ctl.Commands.{
  then_print, read_ppt, entry_of, ppt_found, ppt_named, ppt_of, ppt,
}

module _ (P : Proxy) (K : Kernel) (b : Backend) (w : P.World) where
  -- The change that the command makes for an entry of the list.
  abbrev pub changed_by : AttrInfo → ℕ → P.World
  changed_by info watts =
      (change P b (Call.set_ppt info.key watts)
        (FirmwareAttrs.write_by_name K
          (named_or FirmwareAttrs.dir_name info.key (FirmwareAttrs.from_key info.key)) watts)
        w).1

  -- The command was given an attribute and a value, the list of limits has an entry of that name,
  -- and the value lies in its range.
  pub record IsRequested (attr : Option String) (watts : Option ℕ) (after : P.World) : Type 0 where
    pub name : String
    pub value : ℕ
    pub all : List AttrInfo
    pub info : AttrInfo
    pub named : attr ≡ some name
    pub valued : watts ≡ some value
    pub listed : read_ppt P b w ≡ ok all
    pub found : entry_of P K name all ≡ some info
    pub within : in_range info value ≡ true
    pub changed : after ≡ changed_by info value

  then_print-world :
      (line : Message) (x : Result Message (Unit {0}) × P.World) → (then_print P K line x).1 ≡ x.1
  then_print-world line (ok u, v) = refl
  then_print-world line (err e, v) = refl

  ppt_found-guarded :
      (name : String) (watts : Option ℕ) (all : List AttrInfo) (o : Option AttrInfo)
      → read_ppt P b w ≡ ok all
      → entry_of P K name all ≡ o
      → ((ppt_found P K b name watts all o w).1 ≡ w)
        ⊎ IsRequested (some name) watts (ppt_found P K b name watts all o w).1
  ppt_found-guarded name watts all none l f = inl refl
  ppt_found-guarded name none all (some info) l f = inl refl
  ppt_found-guarded name (some n) all (some info) l f = elim (Bool-cases (in_range info n)) [
    | inr r ↦ inl (rw r refl)
    | inl r ↦ inr (record {
      name = name;
      value = n;
      all = all;
      info = info;
      named = refl;
      valued = refl;
      listed = l;
      found = f;
      within = r;
      changed = rw r (then_print-world _ _);
    })
  ]

  ppt_named-guarded :
      (attr : Option String) (watts : Option ℕ) (all : List AttrInfo)
      → read_ppt P b w ≡ ok all
      → ((ppt_named P K b attr watts all w).1 ≡ w)
        ⊎ IsRequested attr watts (ppt_named P K b attr watts all w).1
  ppt_named-guarded none watts all l = inl refl
  ppt_named-guarded (some name) watts all l =
      ppt_found-guarded name watts all (entry_of P K name all) l refl

  ppt_of-guarded :
      (attr : Option String) (watts : Option ℕ) (r : Result Message (List AttrInfo))
      → read_ppt P b w ≡ r
      → ((ppt_of P K b attr watts r w).1 ≡ w)
        ⊎ IsRequested attr watts (ppt_of P K b attr watts r w).1
  ppt_of-guarded attr watts (err e) l = inl refl
  ppt_of-guarded attr watts (ok []) l = inl refl
  ppt_of-guarded attr watts (ok (a ∷ rest)) l = ppt_named-guarded attr watts (a ∷ rest) l

  -- Over either way, the command changes nothing, unless it is given an attribute that the list of
  -- limits has and a value in the range of its entry; then it makes the one change for that entry.
  pub ppt-guarded :
      (attr : Option String) (watts : Option ℕ)
      → ((ppt P K b attr watts w).1 ≡ w) ⊎ IsRequested attr watts (ppt P K b attr watts w).1
  unfolding ppt
  ppt-guarded attr watts = ppt_of-guarded attr watts (read_ppt P b w) refl
