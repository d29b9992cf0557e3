-- ===== src/Mode/Creation.antt =====
-- `NewLocalMode` of mode/mode_local.go and `NewRemoteMode` of mode/mode_remote.go.
use terraform_provisioner_an.Base.{
  ◌||◌, Option, none, some, List, Text, text, text_eq, is_empty, if◌then◌else◌,
}
use terraform_provisioner_an.Base.Outcome.{Outcome, ok, err, ◌>>=◌}
use terraform_provisioner_an.Mode.ConnectionInfo.{
  ConnectionInfo, Libraries, value_at, parse_connection_info,
}

-- The switch on the type of the connection.
unfoldable pub check_connection_type : List (Text × Text) → Outcome (Unit {0})
check_connection_type conn_info =
    let conn_type = value_at conn_info (text "type") in
    if text_eq conn_type (text "ssh") || is_empty conn_type
    then ok tt
    else err (text "Currently, only SSH connection is supported")

module _ (libraries : Libraries) (ssh_auth_sock : Text) where
  unfoldable pub new_local_mode : List (Text × Text) → Outcome ConnectionInfo
  new_local_mode conn_info = do
    _ ← check_connection_type conn_info
    parse_connection_info libraries conn_info ssh_auth_sock

  -- For the error of `communicator.New`, if there is one.
  unfoldable pub new_remote_mode : Option Text → List (Text × Text) → Outcome ConnectionInfo
  new_remote_mode (some e) conn_info = err e
  new_remote_mode none conn_info = do
    _ ← check_connection_type conn_info
    parse_connection_info libraries conn_info ssh_auth_sock
