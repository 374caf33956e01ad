-- ===== src/Tests/Host.antt =====
-- A daemon on the machine, with a bus whose headers say whether polkit allows the sender, and a
-- disk that keeps what is written.
use Prim.Native.String
use legion_linux_toolkit_rus.Prelude.{
  String, Bool, Option, none, some, [], ◌∷◌, ◌≡◌, ◌≢◌, refl, ap, ◌==◌, eq_refl, eq_iff,
  if◌then◌else◌, Bool-cases, inl, inr,
}
use legion_linux_toolkit_rus.Prelude.Result.{Result, ok, err, unwrap_or}
use legion_linux_toolkit_rus.Text.{◌<>◌}
use legion_linux_toolkit_rus.Hw.Error.{IoError}
use legion_linux_toolkit_rus.Daemon.Auth.{Polkit, Authorizer}
use legion_linux_toolkit_rus.Daemon.State
use legion_linux_toolkit_rus.Daemon.State.{State, StatePath, Storage, Disk}
use legion_linux_toolkit_rus.Daemon.State.RoundTrip.{IsStorage}
use legion_linux_toolkit_rus.Daemon.Iface.{Outside, Daemon}
use legion_linux_toolkit_rus.Tests.Machine.{machine, missing, keeping}

abbrev pub bus : Polkit
bus = record {
  Header = Bool;
  Subject = Bool;
  new_for_message_header = λ h. ok h;
  check_authorization = λ s action. ok s;
}

abbrev store : Disk → String → Result IoError String → Disk
store disk p r q = if q == p then r else disk q

abbrev renaming : Disk → String → String → Result IoError String → Result IoError (Unit {0}) × Disk
renaming disk p q (err e) = (err e, disk)
renaming disk p q (ok t) = (ok tt, store (store disk p (err missing)) q (ok t))

-- A text for the states that hold a profile alone, and for the empty one.
abbrev encode_fields : Option String → Option String → State.Limits → Result IoError String
encode_fields none none [] = ok ""
encode_fields (some p) none [] = ok ("=" <> p)
encode_fields _ _ _ = err missing

abbrev encode : State → Result IoError String
encode s = encode_fields s.profile s.battery_mode s.ppt

abbrev decode : String → Option State
decode Prim.Native.String.[] = some State.default
decode (Prim.Native.String.◌∷◌ c p) =
    some (record { profile = some p; battery_mode = none; ppt = [] })

abbrev pub storage : Storage
storage = record {
  create_dir_all = λ disk p. (ok tt, disk);
  write = λ disk p t. (ok tt, store disk p (ok t));
  rename = λ disk p q. renaming disk p q (disk p);
  to_string_pretty = encode;
  from_str = decode;
}

store-other :
    (disk : Disk) (p q : String) (r : Result IoError String) → q ≢ p → store disk p r q ≡ disk q
store-other disk p q r ne = elim (Bool-cases (q == p)) [
  | inl b ↦ absurd (ne ((eq_iff q p).0 b))
  | inr b ↦ rw b refl
]

renaming-ok :
    (disk : Disk) (p q : String) (r : Result IoError String)
    → (renaming disk p q r).0 ≡ ok tt
    → (renaming disk p q r).1 q ≡ r
renaming-ok disk p q (ok t) h = rw (eq_refl q) refl
renaming-ok disk p q (err e) h = cc

renaming-err :
    (disk : Disk) (p q : String) (r : Result IoError String) (e : IoError)
    → (renaming disk p q r).0 ≡ err e
    → (renaming disk p q r).1 ≡ disk
renaming-err disk p q (ok t) e h = cc
renaming-err disk p q (err x) e h = refl

encode-decodes :
    (p m : Option String) (l : State.Limits) (t : String)
    → encode_fields p m l ≡ ok t
    → decode t ≡ some (record { profile = p; battery_mode = m; ppt = l })
encode-decodes none none [] t h = let e : "" ≡ t = ap (unwrap_or "") h in rw (← e) refl
encode-decodes (some p) none [] t h = let e : ("=" <> p) ≡ t = ap (unwrap_or "") h in rw (← e) refl
encode-decodes none none (x ∷ xs) t h = cc
encode-decodes none (some m) l t h = cc
encode-decodes (some p) (some m) l t h = cc
encode-decodes (some p) none (x ∷ xs) t h = cc

pub storage-IsStorage : IsStorage storage
storage-IsStorage = record {
  wrote = λ d p t h. rw (eq_refl p) refl;
  write_keeps = λ d p t q ne. store-other d p q (ok t) ne;
  renamed = λ d p q h. renaming-ok d p q (d p) h;
  not_renamed = λ d p q e h. renaming-err d p q (d p) e h;
  made = λ d p q. refl;
  decodes = λ s t h. encode-decodes s.profile s.battery_mode s.ppt t h;
}

abbrev pub outside : Outside
outside = record { kernel = keeping; bus = bus; storage = storage; send = λ sent s. ok tt }

abbrev pub state_file : StatePath
state_file = record {
  path = "/var/lib/legiond/state.json";
  parent = some "/var/lib/legiond";
  tmp = "/var/lib/legiond/state.json.tmp";
}

abbrev pub empty_disk : Disk
empty_disk q = err missing

abbrev pub daemon : Daemon
daemon = record {
  root = machine;
  disk = empty_disk;
  signals = [];
  state = State.default;
  state_path = state_file;
  authorizer = Authorizer.polkit;
}
