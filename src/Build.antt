-- ===== src/Build.antt =====
-- src/commands/build.ts: which tools are registered, and the handler of a read tool.
pub mod Reads
pub mod Exposure
pub mod Tests
use vigor3912s_mcp.Common.{
  ℕ, suc, text_key, ◌+◌, ◌-◌, String, Bool, true, false, not, ◌&&◌, ◌||◌, Option, none, some, List,
  [], ◌∷◌, ◌++◌, Text, lit, if◌then◌else◌, ltb, length, take, contains, string_key, get_or, Result,
  ok, err, Error,
}
use vigor3912s_mcp.Values.{Value, str, Args}
use vigor3912s_mcp.Registry.{
  CommandDef, CommandKind, read, write, is_write, CommandSdkBinding, resolve_sdk_input,
}
use vigor3912s_mcp.Redaction.{redact_args}
use vigor3912s_mcp.Log.{LogEntry, LogStore, RequestOutcome, request}
use vigor3912s_mcp.Client.{
  Client, Sdk, Allowlist, CommandTiming, last_command_timing, run_command, run_operation,
}
use vigor3912s_mcp.Executor.{err_code, err_msg}

pub data ExposedTools : Type 0 where
  all : ExposedTools
  only : List Text → ExposedTools

-- `RegisterOptions`, its tool filters; absent options are `all`, none and false.
pub record RegisterOptions : Type 0 where
  pub read_only : Bool
  pub expose_tools : ExposedTools
  pub disabled_tools : List Text

abbrev pub is_exposed : ExposedTools → String → Bool
is_exposed all id = true
is_exposed (only ids) id = contains ids (lit id)

unfoldable pub is_tool_enabled : RegisterOptions → CommandDef → Bool
is_tool_enabled opts cmd =
    if not (is_exposed opts.expose_tools cmd.id)
    then false
    else if contains opts.disabled_tools (lit cmd.id)
    then false
    else if opts.read_only && is_write cmd.kind
    then false
    else true

-- The loop of `registerAllTools`: the tools that get a handler. Their number is the result.
unfoldable pub registered : RegisterOptions → List CommandDef → List CommandDef
unfolding is_tool_enabled
registered opts [] = []
registered opts (cmd ∷ commands) =
    let rest = registered opts commands in if is_tool_enabled opts cmd then cmd ∷ rest else rest

unfoldable pub register_all_tools : RegisterOptions → List CommandDef → ℕ
unfolding registered
register_all_tools opts commands = length (registered opts commands)

-- What a read tool returns: the output, or its beginning with a flag.
pub data ReadBody : Type 0 where
  whole : Value → ReadBody
  truncated : Text → ReadBody

cut : ℕ → Text → ReadBody
unfolding take
cut limit s =
    if ltb 0 limit && ltb limit (length s)
    then truncated (take limit s ++ lit "\n...[truncated]")
    else whole (str s)

pub limited : ℕ → Value → ReadBody
unfolding cut
limited limit (str s) = cut limit s
limited limit v = whole v

formatted : CommandDef → Text → Args → Value
formatted cmd raw args = elim cmd.format [ none ↦ str raw | some format ↦ format raw args ]

read_entry :
    CommandDef
    → Text
    → Args
    → RequestOutcome
    → Option Error
    → ℕ
    → ℕ
    → Option Text
    → Option CommandTiming
    → LogEntry
unfolding redact_args
read_entry cmd command args outcome e started ended output timing = record {
  tool_id = cmd.id;
  kind = read;
  command = command;
  args_json = redact_args args cmd.secret_args;
  outcome = outcome;
  error_code = elim e [ none ↦ none | some x ↦ err_code x ];
  error_msg = elim e [ none ↦ none | some x ↦ some (err_msg x) ];
  duration_ms = ended - started;
  output = output;
  requested_at = some started;
  responded_at = some ended;
  send_at = elim timing [ none ↦ none | some t ↦ some t.send_at ];
  recv_at = elim timing [ none ↦ none | some t ↦ some t.recv_at ];
  connect_ms = elim timing [ none ↦ none | some t ↦ some t.connect_ms ];
}

-- The client and the log that a read tool works on.
pub record Reader : Type 0 where
  pub client : Client
  pub store : LogStore

module _ (sdk : Sdk) (allow : Allowlist) (output_limit started ended : ℕ) where
  run_input : String → Client → Result Value → Result Text × Client
  run_input manifest_id c (err e) = (err e, c)
  run_input manifest_id c (ok input) = run_operation sdk manifest_id input c

  -- The call to the router: by the SDK binding, or by the rendered command.
  run_read : Option CommandSdkBinding → Text → Args → Client → Result Text × Client
  unfolding run_input
  run_read none command args c = run_command sdk allow command c
  run_read (some sdk_binding) command args c =
      run_input sdk_binding.manifest_id c (resolve_sdk_input sdk_binding args)

  finish : CommandDef → Args → Text → Reader → Result Text → Result ReadBody × Reader
  unfolding read_entry limited formatted
  finish cmd args command r (ok raw) = (
    ok (limited output_limit (formatted cmd raw args)),
    record r {
      store =
          (request ended
            (read_entry cmd command args RequestOutcome.ok none started ended
              (if cmd.sensitive_output then none else some raw) (last_command_timing r.client))
            r.store).1;
    },
  )
  finish cmd args command r (err e) = (
    err e,
    record r {
      store =
          (request ended
            (read_entry cmd command args RequestOutcome.error (some e) started ended none
              (last_command_timing r.client))
            r.store).1;
    },
  )

  rendered : CommandDef → Args → Reader → Result Text → Result ReadBody × Reader
  unfolding run_read finish
  rendered cmd args r (err e) = finish cmd args (lit cmd.id) r (err e)
  rendered cmd args r (ok command) =
      let (x, c) = run_read cmd.sdk command args r.client in
      finish cmd args command (record r { client = c }) x

  -- The handler of `registerRead`.
  unfoldable pub read_tool : CommandDef → Args → Reader → Result ReadBody × Reader
  unfolding rendered
  read_tool cmd args r = rendered cmd args r (cmd.render args)
