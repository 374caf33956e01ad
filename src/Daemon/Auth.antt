-- ===== src/Daemon/Auth.antt =====
-- crates/legion-daemon/src/auth.rs: the check of a caller. The bus and polkit are parameters.
use legion_linux_toolkit_rus.Prelude.{String, Bool, [], ◌∷◌, if◌then◌else◌}
use legion_linux_toolkit_rus.Prelude.Result.{Result, ok, err, map_err, ◌>>=◌}
use legion_linux_toolkit_rus.Hw.Error.{plain}
use legion_linux_toolkit_rus.Daemon.Error.{DaemonError, DaemonResult}

abbrev pub action_id : String
action_id = "org.legiontoolkit.control"

-- What `zbus_polkit` answers: who sent a message, and whether polkit allows an action to them.
pub record Polkit : Type 1 where
  pub Header : Type 0
  pub Subject : Type 0
  pub new_for_message_header : Header → Result String Subject
  pub check_authorization : Subject → String → Result String Bool

pub data Authorizer : Type 0 where
  polkit allow_all : Authorizer

module _ (P : Polkit) where
  open P use {Header, Subject, new_for_message_header, check_authorization}

  abbrev verdict : Bool → DaemonResult (Unit {0})
  verdict is_authorized =
      if is_authorized
      then ok tt
      else err (
          DaemonError.not_authorized (
            plain
              "not authorized to change Legion hardware settings (active local session required)"
            ∷ []))

  unfoldable pub check : Authorizer → Header → DaemonResult (Unit {0})
  check Authorizer.allow_all hdr = ok tt
  check Authorizer.polkit hdr = do
    subject ←
        map_err (λ e. DaemonError.failed (plain "identifying caller: " ∷ plain e ∷ []))
          (new_for_message_header hdr)
    is_authorized ←
        map_err (λ e. DaemonError.failed (plain "polkit check failed: " ∷ plain e ∷ []))
          (check_authorization subject action_id)
    verdict is_authorized
