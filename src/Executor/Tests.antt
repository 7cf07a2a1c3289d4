-- ===== src/Executor/Tests.antt =====
-- A concrete setting (src/commands/write-executor.ts), and what the theorems on the executor say
-- of it.
use vigor3912s_mcp.Common.{
  ℕ, ◌≡◌, ◌≢◌, refl, true, false, some, none, [], ◌∷◌, ap, sym, ◌∙◌, ok, err, lookup, ◌||◌,
  string_key, text_eq, lit,
}
use vigor3912s_mcp.Crypto.{build_sign_payload, digest_command, verify_approval_signature}
use vigor3912s_mcp.Crypto.Digits.{decimal}
use vigor3912s_mcp.Forbidden.{is_forbidden}
use vigor3912s_mcp.CliResult.{is_router_cli_failure}
use vigor3912s_mcp.Redaction.{redact_command}
use vigor3912s_mcp.Gate.{consume_signed}
use vigor3912s_mcp.Values.{Value, str, undefined, Args, arg}
use vigor3912s_mcp.Policy.{
  apply_tool_policy, asks_dual, policy_for, is_destructive, classification_of,
}
use vigor3912s_mcp.Policy.Tests.{passwd, unclassified}
use vigor3912s_mcp.Registry.Builders.{Converted, success, SdkCommandOptions, sdk_command}
use vigor3912s_mcp.Executor.Destructive.{apply_tool_policy-acknowledged}
use vigor3912s_mcp.Registry.{CommandDef, write, confirm}
use vigor3912s_mcp.Client.{
  Operation, Client, Sdk, raw, new_client, run_write_command, authorize_write, exec,
}
use vigor3912s_mcp.Executor.{
  is_true, PreparedWrite, World, Moment, Setting, execute_write, prepare_write, verify_approval,
  perform_write, send_write, snapshot, run_commit, recorded, record_write,
}
use vigor3912s_mcp.Executor.Approval.{Executed, execute_write-Executed, execute_write_once}
use vigor3912s_mcp.Gate.Tests.{plain_crypto, gate, at, command, id, signature}

abbrev echo : Sdk
echo = record {
  operations = [];
  execute = λ sent text. record { result = ok text; timing = none };
  invoke = λ sent op input. record { result = ok input; timing = none };
  to_json = λ value. [];
}

abbrev reboot : CommandDef
reboot = record {
  id = "sys_reboot";
  family = "sys";
  kind = write;
  desc = "";
  render = λ args. ok command;
  args = [];
  confirm = some confirm;
  affects_network = true;
  format = none;
  snapshot_read = none;
  secret_args = [];
  sensitive_output = false;
  timeout_ms = none;
  skip_commit = false;
  sdk = none;
}

abbrev setting : Setting ℕ
setting = record {
  crypto = plain_crypto;
  sdk = echo;
  allow = record { read_exact = []; host_arg_matchers = [] };
  commands = ("sys_reboot", reboot) ∷ [];
  auto_commit = true;
}

abbrev moment : ℕ → Moment
moment now = record {
  started = now;
  gate = at now;
  commit_started = now;
  commit_ended = now;
  ended = now;
  aborted = false;
  aborted_later = false;
}

abbrev world : World ℕ
world = record { gate = gate; client = new_client false; store = record { db = none } }

abbrev approval : Args
approval = ("confirmation_id", str id) ∷ ("signature", str signature) ∷ []

-- The approved call sends the command and the commit.
execute_write_sent :
    (execute_write setting (moment 50) reboot approval world).1.client.sent
    ≡ raw command ∷ raw (115 ∷ 121 ∷ 115 ∷ 32 ∷ 99 ∷ 111 ∷ 109 ∷ 109 ∷ 105 ∷ 116 ∷ []) ∷ []
unfolding execute_write new_client prepare_write redact_command verify_approval build_sign_payload
    consume_signed text_eq digest_command verify_approval_signature decimal perform_write send_write
    run_write_command authorize_write is_forbidden snapshot exec is_router_cli_failure run_commit
    recorded record_write lit
execute_write_sent = refl

touched : (execute_write setting (moment 50) reboot approval world).1.client ≢ world.client
unfolding new_client
touched same = cc (sym execute_write_sent ∙ ap (λ (c : Client). c.sent) same)

execute_write-Executed_example :
    Executed setting
      (moment 50)
      reboot
      approval
      world
      (execute_write setting (moment 50) reboot approval world).1
execute_write-Executed_example =
    execute_write-Executed setting (moment 50) reboot approval world touched

execute_write_once_example :
    (execute_write setting
      (moment 60)
      reboot
      approval
      (execute_write setting (moment 50) reboot approval world).1).1.client
    ≡ (execute_write setting (moment 50) reboot approval world).1.client
execute_write_once_example =
    execute_write_once setting (moment 50) reboot approval world (moment 60) reboot approval touched
      refl

-- A tool that the policy grades dual; its call acknowledges.
abbrev graded_approval : Args
graded_approval =
    ("confirmation_id", str id)
    ∷ ("signature", str signature)
    ∷ ("acknowledge", Value.bool true)
    ∷ []

graded_sent :
    (execute_write setting
      (moment 50)
      (apply_tool_policy unclassified passwd)
      graded_approval
      world).1.client.sent
    ≡ raw command ∷ raw (lit "sys commit") ∷ []
unfolding execute_write new_client prepare_write redact_command verify_approval build_sign_payload
    consume_signed text_eq digest_command verify_approval_signature decimal perform_write send_write
    run_write_command authorize_write is_forbidden snapshot exec is_router_cli_failure run_commit
    recorded record_write lit apply_tool_policy
graded_sent = refl

graded_touched :
    (execute_write setting
      (moment 50)
      (apply_tool_policy unclassified passwd)
      graded_approval
      world).1.client
    ≢ world.client
unfolding new_client
graded_touched same = cc (sym graded_sent ∙ ap (λ (c : Client). c.sent) same)

passwd_dual :
    asks_dual (policy_for passwd.kind passwd.id)
      || is_destructive (classification_of unclassified passwd.sdk)
    ≡ true
unfolding lookup
passwd_dual = refl

apply_tool_policy-acknowledged_example : is_true (arg graded_approval "acknowledge") ≡ true
apply_tool_policy-acknowledged_example =
    apply_tool_policy-acknowledged setting unclassified passwd (moment 50) graded_approval world
      refl passwd_dual graded_touched

abbrev fresh_client : Client
fresh_client = record {
  session = none;
  write_authorized = none;
  closed = false;
  read_only = false;
  sent = [];
}

-- A typed write of the SDK.
abbrev operation : Operation
operation = record {
  manifest_id = "cli.sys.reboot";
  classification = "destructive";
  build_frames = λ input. ok (command ∷ []);
}

abbrev typed_sdk : Sdk
typed_sdk = record {
  operations = ("cli.sys.reboot", operation) ∷ [];
  execute = λ sent text. record { result = ok text; timing = none };
  invoke = λ sent op input. record { result = ok input; timing = none };
  to_json = λ value. [];
}

abbrev any_input : Converted
any_input = record { shape = []; full = λ v. success v; wraps_input = false }

abbrev no_options : SdkCommandOptions
no_options = record {
  args = none;
  to_input = none;
  validate = none;
  format = none;
  secret_args = [];
  snapshot_read = none;
  skip_commit = false;
  partial = false;
  timeout_ms = none;
}

abbrev typed_reboot : CommandDef
typed_reboot =
    elim (sdk_command typed_sdk.operations "reboot" "sys" "cli.sys.reboot" "" any_input []
      no_options) [ ok cmd ↦ cmd | err e ↦ reboot ]

abbrev prepared : PreparedWrite
prepared = record {
  command = command;
  sdk_input = some undefined;
  command_log = command;
  redacted_fields = [];
}
