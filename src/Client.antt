-- ===== src/Client.antt =====
-- src/ssh/sdk-vigor-client.ts, src/ssh/sdk-error.ts and the interface of src/ssh/client.ts: the
-- policy in front of the router SDK. The SDK and the router behind it are a parameter: their
-- answers are any function of what was sent before.
pub mod Sending
pub mod Authority
pub mod Delivery
pub mod Tests
use vigor3912s_mcp.Common.{
  ℕ, String, Bool, true, false, not, ◌||◌, Option, none, some, List, [], ◌∷◌, ◌++◌, map, Text, lit,
  any, if◌then◌else◌, lookup, string_key, text_key, ◌==◌, text_eq, join, contains, starts_with,
  drop, length, is_space, eqb, is_some, Result, ok, err, ◌>>=◌, Error, vigor_error, sdk_error,
  confirm_error, plain_error, out_of_draws, VigorErrorCode, connect, auth, timeout, closed, invalid,
  unauthorized, SdkErrorCode, output_limit_exceeded, session_closed, execution_timeout,
  command_framing_rejected, command_rejected, other,
}
use vigor3912s_mcp.Values.{Value, undefined, null, bool, num, str, arr, obj, Fields, end, field}
use vigor3912s_mcp.Forbidden.{is_forbidden}

-- `AnyOperation` of src/sdk/operation-index.ts; `build_frames` is the SDK's own.
pub record Operation : Type 0 where
  pub manifest_id : String
  pub classification : String
  pub build_frames : Value → Result (List Text)

pub record CommandTiming : Type 0 where
  pub send_at : ℕ
  pub recv_at : ℕ
  pub connect_ms : ℕ

-- What reached the SDK: a raw command, or a typed operation with its input.
pub data Sent : Type 0 where
  raw : Text → Sent
  typed : Operation → Value → Sent

pub record Exchange (A : Type 0) : Type 0 where
  pub result : Result A
  pub timing : Option CommandTiming

-- The SDK: its operations by manifest id, its answers, and the JSON printer of the runtime.
pub record Sdk : Type 0 where
  pub operations : List (String × Operation)
  pub execute : List Sent → Text → Exchange Text
  pub invoke : List Sent → Operation → Value → Exchange Value
  pub to_json : Value → Text

-- The allowlist of src/commands/read-allowlist.ts once it is built: exact commands, and commands
-- that end in a host which a schema accepts.
pub record HostArgMatcher : Type 0 where
  pub prefix : Text
  pub host_schema : Text → Bool

pub record Allowlist : Type 0 where
  pub read_exact : List Text
  pub host_arg_matchers : List HostArgMatcher

-- A character of `[\s;|&`$]`
unfoldable pub is_unsafe : ℕ → Bool
unfolding is_space
is_unsafe c = is_space c || eqb c 59 || eqb c 124 || eqb c 38 || eqb c 96 || eqb c 36

unfoldable pub matches_host_arg : Text → HostArgMatcher → Bool
unfolding is_unsafe starts_with drop
matches_host_arg command m =
    let host = drop (length m.prefix) command in
    if not (starts_with command m.prefix)
    then false
    else if eqb (length host) 0 || any is_unsafe host
    then false
    else m.host_schema host

unfoldable pub is_allowed_read_command : Allowlist → Text → Bool
unfolding contains matches_host_arg
is_allowed_read_command allow command =
    if contains allow.read_exact command
    then true
    else any (matches_host_arg command) allow.host_arg_matchers

abbrev pub sdk_code : SdkErrorCode → VigorErrorCode
sdk_code execution_timeout = timeout
sdk_code session_closed = closed
sdk_code command_framing_rejected = invalid
sdk_code command_rejected = invalid
sdk_code output_limit_exceeded = invalid
sdk_code (other _) = connect

-- `mapSdkError`
unfoldable pub map_sdk_error : Error → Error
unfolding lit
map_sdk_error (vigor_error code message) = vigor_error code message
map_sdk_error (sdk_error output_limit_exceeded message) =
    vigor_error invalid
      (message ++ lit " The output limit was reached; narrow the query and try again.")
map_sdk_error (sdk_error code message) = vigor_error (sdk_code code) message
map_sdk_error (confirm_error code message) = vigor_error connect message
map_sdk_error (plain_error code message) = vigor_error connect message
map_sdk_error out_of_draws = out_of_draws

raw_field : Fields → Option Value
raw_field end = none
raw_field (field k v fs) = let rest = raw_field fs in if k == "raw" then some v else rest

raw_text : Option Value → Option Text
raw_text (some (str s)) = some s
raw_text _ = none

-- `formatInvokeResult`
unfoldable pub format_invoke_result : Sdk → Value → Text
unfolding raw_field raw_text
format_invoke_result sdk (str s) = s
format_invoke_result sdk undefined = []
format_invoke_result sdk null = []
format_invoke_result sdk (obj fs) = elim (raw_text (raw_field fs)) [
  | some s ↦ s
  | none ↦ sdk.to_json (obj fs)
]
format_invoke_result sdk v = sdk.to_json v

pub record Session : Type 0 where
  pub timing : Option CommandTiming

pub record Client : Type 0 where
  pub session : Option Session
  pub write_authorized : Option Text
  pub closed : Bool
  pub read_only : Bool
  pub sent : List Sent

unfoldable pub new_client : Bool → Client
new_client read_only = record {
  session = none;
  write_authorized = none;
  closed = false;
  read_only = read_only;
  sent = [];
}

abbrev pub last_command_timing : Client → Option CommandTiming
last_command_timing c = elim c.session [ none ↦ none | some s ↦ s.timing ]

unfoldable pub authorize_write : Text → Client → Client
authorize_write command c = record c { write_authorized = some command }

unfoldable pub disconnect : Client → Client
disconnect c = record c { closed = true; session = none }

abbrev pub refused : VigorErrorCode → Text → Error
refused code message = vigor_error code message

abbrev pub client_closed : Error
client_closed = refused closed (lit "client is closed")

-- The failures after which the SDK session is dropped.
abbrev drops_session : Error → Bool
drops_session (sdk_error output_limit_exceeded _) = true
drops_session (sdk_error session_closed _) = true
drops_session _ = false

-- `resetAfterSdkFailure` on a client that is not closed, then `mapSdkError`.
settle : {A : Type 0} → (A → Text) → Client → Exchange A → Result Text × Client
settle format c x = elim x.result [
  | ok a ↦ (ok (format a), record c { session = some (record { timing = x.timing }) })
  | err e ↦ (
    err (map_sdk_error e),
    record c { session = if drops_session e then none else some (record { timing = x.timing }) },
  )
]

module _ (sdk : Sdk) where
  -- `exec`
  unfoldable pub exec : Text → Client → Result Text × Client
  unfolding settle
  exec command c =
      settle (λ s. s) (record c { sent = c.sent ++ raw command ∷ [] }) (sdk.execute c.sent command)

  -- `invokeOperation`
  unfoldable pub invoke_operation : Operation → Value → Client → Result Text × Client
  unfolding settle
  invoke_operation op input c =
      settle (format_invoke_result sdk) (record c { sent = c.sent ++ typed op input ∷ [] })
        (sdk.invoke c.sent op input)

  unfoldable pub run_command : Allowlist → Text → Client → Result Text × Client
  run_command allow command c =
      if not (is_allowed_read_command allow command)
      then (
        err (
            refused invalid
              (lit "command is not a registered read command and was refused: " ++ command)),
        c,
      )
      else if is_forbidden command
      then (err (refused invalid (lit "command is forbidden and was refused: " ++ command)), c)
      else if c.closed
      then (err client_closed, c)
      else exec command c

  abbrev pub is_authorized : Option Text → Text → Bool
  is_authorized none command = false
  is_authorized (some authorized) command = authorized == command

  abbrev pub read_only_refused : Error
  read_only_refused =
      refused unauthorized (lit "read-only mode is enabled; write commands are refused")

  unfoldable pub run_write_command : Text → Client → Result Text × Client
  run_write_command command c =
      let spent = record c { write_authorized = none } in
      if not (is_authorized c.write_authorized command)
      then (
        err (refused unauthorized (lit "write command was not confirmed and was refused")),
        spent,
      )
      else if is_forbidden command
      then (err (refused invalid (lit "command is forbidden and was refused: " ++ command)), spent)
      else if c.read_only
      then (err read_only_refused, spent)
      else if c.closed
      then (err client_closed, spent)
      else exec command spent

  -- `operationFor`
  abbrev pub operation_for : String → Option Operation
  operation_for manifest_id = lookup manifest_id sdk.operations

  -- `renderFrames`
  unfoldable pub render_frames : Operation → Value → Result (List Text)
  render_frames op input = elim (op.build_frames input) [
    | ok frames ↦ ok frames
    | err e ↦ err (map_sdk_error e)
  ]

  -- `refuseForbiddenFrames`: the first forbidden frame, if there is one
  unfoldable pub forbidden_frame : List Text → Option Text
  forbidden_frame [] = none
  forbidden_frame (f ∷ frames) =
      let rest = forbidden_frame frames in if is_forbidden f then some f else rest

  abbrev pub unknown_operation : String → Error
  unknown_operation manifest_id =
      refused invalid (lit "unknown SDK operation and was refused: " ++ lit manifest_id)

  -- The end of both typed calls.
  send_frames : Operation → Value → Client → Option Text → Bool → Result Text × Client
  send_frames op input c (some frame) refuse =
      (err (refused invalid (lit "command is forbidden and was refused: " ++ frame)), c)
  send_frames op input c none refuse =
      if refuse
      then (err read_only_refused, c)
      else if c.closed
      then (err client_closed, c)
      else invoke_operation op input c

  read_frames : Operation → Value → Client → Result (List Text) → Result Text × Client
  unfolding send_frames
  read_frames op input c (err e) = (err e, c)
  read_frames op input c (ok frames) = send_frames op input c (forbidden_frame frames) false

  read_with : String → Value → Client → Option Operation → Result Text × Client
  unfolding read_frames
  read_with manifest_id input c none = (err (unknown_operation manifest_id), c)
  read_with manifest_id input c (some op) =
      if not (op.classification == "read")
      then (
        err (
            refused invalid (
              lit "operation \""
              ++ (lit manifest_id ++ lit "\" is not a read operation and was refused"))),
        c,
      )
      else read_frames op input c (render_frames op input)

  unfoldable pub run_operation : String → Value → Client → Result Text × Client
  unfolding read_with
  run_operation manifest_id input c = read_with manifest_id input c (operation_for manifest_id)

  write_frames :
      String → Operation → Value → Client → Option Text → Result (List Text) → Result Text × Client
  unfolding send_frames
  write_frames manifest_id op input c authorized (err e) = (err e, c)
  write_frames manifest_id op input c authorized (ok frames) =
      if not (is_authorized authorized (join (lit "\n") frames))
      then (
        err (
            refused unauthorized (
              lit "write operation \""
              ++ (lit manifest_id ++ lit "\" was not confirmed and was refused"))),
        c,
      )
      else send_frames op input c (forbidden_frame frames) c.read_only

  write_with : String → Value → Client → Option Text → Option Operation → Result Text × Client
  unfolding write_frames
  write_with manifest_id input c authorized none = (err (unknown_operation manifest_id), c)
  write_with manifest_id input c authorized (some op) =
      if op.classification == "read"
      then (
        err (
            refused invalid (
              lit "operation \""
              ++ (lit manifest_id ++ lit "\" is not a write operation and was refused"))),
        c,
      )
      else write_frames manifest_id op input c authorized (render_frames op input)

  unfoldable pub run_write_operation : String → Value → Client → Result Text × Client
  unfolding write_with
  run_write_operation manifest_id input c =
      write_with manifest_id input (record c { write_authorized = none }) c.write_authorized
        (operation_for manifest_id)
