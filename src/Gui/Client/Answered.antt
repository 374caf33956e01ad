-- ===== src/Gui/Client/Answered.antt =====
-- Every request and every signal is answered.
use legion_linux_toolkit_rus.Prelude.{
  ℕ, suc, ◌+◌, Bool, true, false, Option, none, some, List, [], ◌∷◌, ◌++◌, ◌≡◌, refl, arith,
  if◌then◌else◌, String, Option-cases, inl, inr,
}
use legion_linux_toolkit_rus.Prelude.Result.{Result, ok, err}
use legion_linux_toolkit_rus.Bus.{ZbusError, Json}
use legion_linux_toolkit_rus.Daemon.Iface.{Call}
use legion_linux_toolkit_rus.Gui.Snapshot
use legion_linux_toolkit_rus.Gui.Snapshot.{Snapshot, Request, Server, to_call, toast_of}
use legion_linux_toolkit_rus.Gui.Client.{
  Event, Input, request, signal, elsewhere, report, toasts, refresh, turn, turns, bus_task,
}

abbrev is_report : Event → Bool
is_report (Event.snapshot s) = true
is_report (Event.toast msg) = false
is_report (Event.disconnected why) = true

-- How many events bring the state of the daemon, or that it cannot be read.
abbrev pub reports : List Event → ℕ
reports [] = 0
reports (e ∷ rest) = if is_report e then suc (reports rest) else reports rest

-- How many events bring the message of a failure.
abbrev pub messages : List Event → ℕ
messages [] = 0
messages (e ∷ rest) = if is_report e then messages rest else suc (messages rest)

reports-++ : (xs ys : List Event) → reports (xs ++ ys) ≡ reports xs + reports ys
reports-++ [] ys = omega arith
reports-++ (x ∷ xs) ys = let ih = reports-++ xs ys in ground arith

messages-++ : (xs ys : List Event) → messages (xs ++ ys) ≡ messages xs + messages ys
messages-++ [] ys = omega arith
messages-++ (x ∷ xs) ys = let ih = messages-++ xs ys in ground arith

module _ (S : Server) (J : Json) where
  open S use {World, call_method}

  -- How many of the inputs reach the task: the requests, and the signals where it subscribed.
  abbrev pub asked : Bool → List (Input S J) → ℕ
  asked subscribed [] = 0
  asked subscribed (request r ∷ rest) = suc (asked subscribed rest)
  asked subscribed (signal ∷ rest) =
      let n = asked subscribed rest in if subscribed then suc n else n
  asked subscribed (elsewhere f ∷ rest) = asked subscribed rest

  abbrev one_failure : Result ZbusError (Unit {0}) → ℕ
  one_failure (ok u) = 0
  one_failure (err e) = 1

  -- How many of the requests are calls that fail, each in the world that it meets.
  abbrev call_fails : Option Call → World → ℕ
  call_fails none w = 0
  call_fails (some c) w = one_failure (call_method c w).0

  abbrev left_by : Option Call → World → World
  left_by none w = w
  left_by (some c) w = (call_method c w).1

  abbrev pub failures : List (Input S J) → World → ℕ
  unfolding to_call
  failures [] w = 0
  failures (request r ∷ rest) w = call_fails (to_call r) w + failures rest (left_by (to_call r) w)
  failures (signal ∷ rest) w = failures rest w
  failures (elsewhere f ∷ rest) w = failures rest (f w)

  abbrev Counted : Bool → List (Input S J) → World → Type 0
  Counted subscribed inputs w =
      (reports (turns S J subscribed inputs w).0 ≡ asked subscribed inputs)
      × (messages (turns S J subscribed inputs w).0 ≡ failures inputs w)

  report-is_report : (r : Result String Snapshot) → is_report (report r) ≡ true
  report-is_report (ok s) = refl
  report-is_report (err e) = refl

  refresh-is_report : (w : World) → is_report (refresh S J w) ≡ true
  unfolding refresh
  refresh-is_report w = report-is_report (Snapshot.snapshot S J w)

  toasts-reports : (m : Option String) → reports (toasts m) ≡ 0
  toasts-reports none = refl
  toasts-reports (some msg) = refl

  failure-messages :
      (r : Result ZbusError (Unit {0})) → messages (toasts (toast_of r)) ≡ one_failure r
  failure-messages (ok u) = refl
  failure-messages (err e) = refl

  apply-messages :
      (r : Request) (w : World)
      → messages (toasts (Snapshot.apply S r w).0) ≡ call_fails (to_call r) w
  unfolding Snapshot.apply
  apply-messages r w = elim (Option-cases (to_call r)) [
    | inl e ↦ rw e refl
    | inr (c, e) ↦ rw e (failure-messages (call_method c w).0)
  ]

  apply-left : (r : Request) (w : World) → (Snapshot.apply S r w).1 ≡ left_by (to_call r) w
  unfolding Snapshot.apply
  apply-left r w = elim (Option-cases (to_call r)) [ inl e ↦ rw e refl | inr (c, e) ↦ rw e refl ]

  turns-Counted :
      (subscribed : Bool) (inputs : List (Input S J)) (w : World) → Counted subscribed inputs w
  unfolding turns turn
  turns-Counted subscribed [] w = (refl, refl)
  turns-Counted subscribed (request r ∷ rest) w =
      let ih = turns-Counted subscribed rest (left_by (to_call r) w) in
      rw
        (
          apply-left r w,
          reports-++ (toasts (Snapshot.apply S r w).0 ++ refresh S J (left_by (to_call r) w) ∷ [])
              (turns S J subscribed rest (left_by (to_call r) w)).0,
          reports-++ (toasts (Snapshot.apply S r w).0) (refresh S J (left_by (to_call r) w) ∷ []),
          messages-++ (toasts (Snapshot.apply S r w).0 ++ refresh S J (left_by (to_call r) w) ∷ [])
              (turns S J subscribed rest (left_by (to_call r) w)).0,
          messages-++ (toasts (Snapshot.apply S r w).0) (refresh S J (left_by (to_call r) w) ∷ []),
          toasts-reports (Snapshot.apply S r w).0,
          apply-messages r w,
          refresh-is_report (left_by (to_call r) w),
          ih.0,
          ih.1,
        )
        (omega arith, omega arith)
  turns-Counted true (signal ∷ rest) w =
      let ih = turns-Counted true rest w in rw (refresh-is_report w, ih.0, ih.1) (refl, refl)
  turns-Counted false (signal ∷ rest) w = turns-Counted false rest w
  turns-Counted subscribed (elsewhere f ∷ rest) w = turns-Counted subscribed rest (f w)

  -- A task that has connected answers: whatever it meets, it reports the state of the daemon once
  -- at the start and once for every request and every signal it gets, and it sends a message for
  -- every request whose call fails and no other message.
  pub bus_task-answered :
      (subscribed : Bool) (inputs : List (Input S J)) (w : World)
      → (reports (bus_task S J (ok tt) subscribed inputs w).0 ≡ suc (asked subscribed inputs))
        × (messages (bus_task S J (ok tt) subscribed inputs w).0 ≡ failures inputs w)
  unfolding bus_task
  bus_task-answered subscribed inputs w =
      let c = turns-Counted subscribed inputs w in rw (refresh-is_report w, c.0, c.1) (refl, refl)
