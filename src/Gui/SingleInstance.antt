-- ===== src/Gui/SingleInstance.antt =====
-- crates/legion-gui/src/single_instance.rs, and its use at the start of main.rs: the instance that
-- holds the socket runs, and a later one asks it to show its window.
pub mod Single
use legion_linux_toolkit_rus.Prelude.{
  ℕ, String, Bool, true, false, Option, none, some, List, [], ◌∷◌, ◌=?◌, if◌then◌else◌, filter, not,
}

abbrev pub socket_name : String
socket_name = "legion-toolkit.lock"

-- The abstract sockets of the system: whether it has them, the binding of a name by a process, a
-- connection that writes some bytes to whoever listens, and the end of a process.
pub record Sockets : Type 1 where
  pub World : Type 0
  pub from_abstract_name : String → World → Bool
  pub bind_addr : String → ℕ → World → Bool × World
  pub connect_write : String → List ℕ → World → World
  pub close : ℕ → World → World

pub data Instance : Type 0 where
  primary already_running : Instance

module _ (S : Sockets) where
  open S use {World, from_abstract_name, bind_addr, connect_write, close}

  abbrev bound : Bool × World → Instance × World
  bound (free, w) = (if free then primary else already_running, w)

  -- `acquire`, by the process `pid`
  unfoldable pub acquire : ℕ → World → Instance × World
  acquire pid w =
      if from_abstract_name socket_name w
      then bound (bind_addr socket_name pid w)
      else (already_running, w)

  unfoldable pub signal_show : World → World
  signal_show w =
      if from_abstract_name socket_name w then connect_write socket_name (b'S' ∷ []) w else w

  -- The processes that run the window.
  pub record Desktop : Type 0 where
    pub world : World
    pub running : List ℕ

  abbrev pub as_instance : ℕ → List ℕ → Instance × World → Desktop
  unfolding signal_show
  as_instance pid others (primary, w) = record { world = w; running = pid ∷ others }
  as_instance pid others (already_running, w) = record { world = signal_show w; running = others }

  -- The start of `main`, in the process `pid`.
  unfoldable pub main : ℕ → Desktop → Desktop
  unfolding acquire signal_show
  main pid d = as_instance pid d.running (acquire pid d.world)

  -- The end of a process.
  unfoldable pub exit : ℕ → Desktop → Desktop
  exit pid d = record {
    world = close pid d.world;
    running = filter (λ q. not (q =? pid)) d.running;
  }

-- What the thread of `spawn_listener` does with the bytes of a connection: whether it shows the
-- window.
unfoldable pub shows : List ℕ → Bool
shows [] = false
shows (b ∷ rest) = b =? b'S'
