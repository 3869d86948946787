-- ===== src/Commands.antt =====
-- The queue of commands for the gateway (dashboard/main.go: sanitizeCommand, queueCommand,
-- handleControl). The file is a text; the append to it may fail. Events and the audit are left out.
pub mod Queue
mod Examples
use ninj_os_proxie_edge_fabr.Prelude.{
  Bool, true, false, not, ◌||◌, List, [], ◌∷◌, ◌++◌, if◌then◌else◌, Text, ◌==◌,
}
use ninj_os_proxie_edge_fabr.Prelude.Int.{ℤ}
use ninj_os_proxie_edge_fabr.GoText.{codes, trim_space, replace_byte}
use ninj_os_proxie_edge_fabr.GoText.Decimal.{format_int}

-- `sanitizeCommand`
unfoldable pub sanitize_command : Text → Text
sanitize_command value =
    trim_space (replace_byte b'\r' b' ' (replace_byte b'\n' b' ' (replace_byte b'|' b' ' value)))

pub record Command : Type 0 where
  pub time : ℤ
  pub command : Text
  pub argument : Text
  pub argument2 : Text

-- A line of the file, without its end.
unfoldable pub command_body : Command → Text
unfolding sanitize_command
command_body c =
    format_int c.time
    ++ (b'|' ∷ sanitize_command c.command
        ++ (b'|' ∷ sanitize_command c.argument ++ (b'|' ∷ sanitize_command c.argument2)))

-- `queueCommand`: does it succeed, and the file.
unfoldable pub queue_command : Bool → Command → Text → Bool × Text
unfolding command_body
queue_command ok c file =
    if ok then (true, file ++ (command_body c ++ (b'\n' ∷ []))) else (false, file)

unfoldable pub is_allowed : Text → Bool
is_allowed c =
    c == codes "maintenance"
    || c == codes "drain"
    || c == codes "ban"
    || c == codes "unban"
    || c == codes "backend"
    || c == codes "routing"
    || c == codes "reload"
    || c == codes "topology_restart"
    || c == codes "service_restart"
    || c == codes "risk_reset"

pub data ControlAnswer : Type 0 where
  unsupported failed queued : ControlAnswer

-- `handleControl`
unfoldable pub handle_control : Bool → Command → Text → ControlAnswer × Text
unfolding is_allowed queue_command
handle_control ok c file =
    let (done, file') = queue_command ok c file in
    if not (is_allowed c.command)
    then (unsupported, file)
    else if done
    then (queued, file')
    else (failed, file')

-- The file after a row of requests, from an empty one.
unfoldable pub handle_all : List (Bool × Command) → Text → Text
unfolding handle_control
handle_all [] file = file
handle_all ((ok, c) ∷ requests) file = handle_all requests (handle_control ok c file).1
