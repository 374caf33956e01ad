-- ===== src/Tests/Sockets.antt =====
-- The theorem about the single instance, on sockets that keep the process that holds the name.
use legion_linux_toolkit_rus.Prelude.{
  ℕ, Bool, true, false, Option, none, some, List, [], ◌∷◌, ◌++◌, ◌≡◌, ◌⊎◌, refl, arith, ◌=?◌,
  if◌then◌else◌,
}
use legion_linux_toolkit_rus.Gui.SingleInstance.{Sockets, Desktop, main}
use legion_linux_toolkit_rus.Gui.SingleInstance.Single.{
  IsSockets, Act, starts, ends, after, IsAsked, main-single,
}

record Table : Type 0 where
  holder : Option ℕ
  received : List (List ℕ)

abbrev bind : ℕ → List (List ℕ) → Option ℕ → Bool × Table
bind p l none = (true, record { holder = some p; received = l })
bind p l (some q) = (false, record { holder = some q; received = l })

abbrev deliver : List ℕ → List (List ℕ) → Option ℕ → Table
deliver b l none = record { holder = none; received = l }
deliver b l (some q) = record { holder = some q; received = l ++ b ∷ [] }

abbrev release : ℕ → Option ℕ → Option ℕ
release p none = none
release p (some q) = if q =? p then none else some q

abbrev sockets : Sockets
sockets = record {
  World = Table;
  from_abstract_name = λ n w. true;
  bind_addr = λ n p w. bind p w.received w.holder;
  connect_write = λ n b w. deliver b w.received w.holder;
  close = λ p w. record w { holder = release p w.holder };
}

deliver-holder : (b : List ℕ) (l : List (List ℕ)) (o : Option ℕ) → (deliver b l o).holder ≡ o
deliver-holder b l none = refl
deliver-holder b l (some q) = refl

same_pid : (q : ℕ) → (q =? q) ≡ true
same_pid q = ground arith

refused :
    (l : List (List ℕ)) (o : Option ℕ) (p q : ℕ)
    → o ≡ some q
    → bind p l o ≡ (false, record { holder = o; received = l })
refused l (some q) p _ e = refl
refused l none p q e = cc

sockets-IsSockets : IsSockets sockets
sockets-IsSockets = record {
  holder = λ w. w.holder;
  received = λ w. w.received;
  binds = λ w p e. rw e (refl, refl);
  refuses = λ w p q e. refused w.received w.holder p q e;
  keeps = λ w b. deliver-holder b w.received w.holder;
  delivers = λ w b q e. rw e refl;
  frees = λ w p e. rw (e, same_pid p) refl;
  leaves = λ w p q e ne. rw (e, ne) refl;
  vacant = λ w p e. rw e refl;
}

abbrev acts : List Act
acts = starts 7 ∷ starts 8 ∷ ends 8 ∷ []

abbrev desktop : Desktop sockets
desktop = record { world = record { holder = none; received = [] }; running = [] }

abbrev later : Desktop sockets
later = after sockets sockets-IsSockets acts desktop

single_example :
    ((later.running ≡ []) × ((main sockets 9 later).running ≡ 9 ∷ []))
    ⊎ ((q : ℕ) × (later.running ≡ q ∷ [])
        × IsAsked sockets sockets-IsSockets later (main sockets 9 later) q)
unfolding sockets-IsSockets
single_example = main-single sockets sockets-IsSockets acts desktop 9 refl refl refl
