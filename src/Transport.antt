-- ===== src/Transport.antt =====
-- src/ssh/ssh-client-transport.ts: the transport that the SDK sends frames through. The SSH client is a
-- library: its answers are any function of the calls that it has seen.
pub mod Closing
pub mod Tests
use vigor3912s_mcp.Common.{
  ℕ, String, Bool, true, false, Option, none, some, List, [], ◌∷◌, ◌++◌, Text, lit, text_eq,
  if◌then◌else◌, Error, vigor_error, VigorErrorCode, connect, auth, timeout, closed, invalid,
  Result, ok, err,
}
use vigor3912s_mcp.Config.{VigorConfig}
use vigor3912s_mcp.Client.{CommandTiming}

-- The part of the options of `SshClient` that the configuration decides.
pub data HostCheck : Type 0 where
  insecure_skip_verify : HostCheck
  host_fingerprint : Option Text → HostCheck

unfoldable pub host_check : {Key : Type 0} → VigorConfig Key → HostCheck
host_check cfg =
    if cfg.ssh_insecure_skip_host_verify
    then insecure_skip_verify
    else host_fingerprint cfg.ssh_host_fingerprint

-- What the library, or the code around it, throws; `other_code` is a code of the library that the
-- program does not name, and `other` is any other error, by its message.
pub data SshErrorCode : Type 0 where
  connect_code auth_code timeout_code closed_code invalid_code : SshErrorCode
  other_code : String → SshErrorCode

pub data Raised : Type 0 where
  vigor_command_error : VigorErrorCode → Text → Raised
  ssh_client_error : SshErrorCode → Text → Raised
  other : Text → Raised

abbrev pub code_of : SshErrorCode → VigorErrorCode
code_of connect_code = connect
code_of auth_code = auth
code_of timeout_code = timeout
code_of closed_code = closed
code_of invalid_code = invalid
code_of (other_code name) = connect

-- `mapTransportError`
unfoldable pub map_transport_error : Raised → Error
map_transport_error (vigor_command_error code message) = vigor_error code message
map_transport_error (ssh_client_error code message) = vigor_error (code_of code) message
map_transport_error (other message) = vigor_error connect message

pub record ExecutionLimits : Type 0 where
  pub command_timeout_ms : ℕ
  pub idle_timeout_ms : ℕ
  pub max_output_bytes : ℕ

pub record ExecResult : Type 0 where
  pub stdout : Text
  pub timing : CommandTiming

pub data SshCall : Type 0 where
  connects disconnects : SshCall
  executes : Text → ExecutionLimits → SshCall

pub data Outcome (A : Type 0) : Type 0 where
  gave : A → Outcome A
  raised : Raised → Outcome A

-- The library; its calls are the latest first.
pub record SshClient : Type 0 where
  pub on_connect : List SshCall → Outcome (Unit {0})
  pub on_execute : List SshCall → Text → ExecutionLimits → Outcome ExecResult

pub record Transport : Type 0 where
  pub is_open : Bool
  pub last_command_timing : Option CommandTiming
  pub calls : List SshCall

abbrev pub new_transport : Transport
new_transport = record { is_open = true; last_command_timing = none; calls = [] }

abbrev pub transport_closed : Error
transport_closed = vigor_error closed (lit "transport is closed")

abbrev pub called : SshCall → Transport → Transport
called c t = record t { calls = c ∷ t.calls }

module _ (ssh : SshClient) where
  unfoldable pub connected : Outcome (Unit {0}) → Transport → Result (Unit {0}) × Transport
  unfolding map_transport_error
  connected (gave u) t = (ok u, t)
  connected (raised e) t = (err (map_transport_error e), t)

  unfoldable pub ensure_connected : Transport → Result (Unit {0}) × Transport
  unfolding connected
  ensure_connected t =
      if t.is_open
      then connected (ssh.on_connect t.calls) (called connects t)
      else (err transport_closed, t)

  unfoldable pub executed : Outcome ExecResult → Transport → Result Text × Transport
  unfolding map_transport_error
  executed (gave r) t = (ok r.stdout, record t { last_command_timing = some r.timing })
  executed (raised e) t = (err (map_transport_error e), record t { last_command_timing = none })

  unfoldable pub sent :
      Outcome (Unit {0}) → Text → ExecutionLimits → Transport → Result Text × Transport
  unfolding map_transport_error executed
  sent (raised e) command limits t =
      (err (map_transport_error e), record t { last_command_timing = none })
  sent (gave u) command limits t =
      executed (ssh.on_execute t.calls command limits) (called (executes command limits) t)

  unfoldable pub send : Text → ExecutionLimits → Transport → Result Text × Transport
  unfolding sent
  send command limits t =
      if t.is_open
      then sent (ssh.on_connect t.calls) command limits (called connects t)
      else (err transport_closed, t)

-- A failure to disconnect is ignored.
unfoldable pub close : Text → Transport → Transport
unfolding text_eq lit
close reason t =
    called disconnects
      (if text_eq reason (lit "mcp_disconnect") then record t { is_open = false } else t)
