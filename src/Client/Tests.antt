-- ===== src/Client/Tests.antt =====
-- A concrete client (src/ssh/sdk-vigor-client.ts), and what the theorems on it say of it.
use vigor3912s_mcp.Common.{◌+◌, ◌≤◌, ◌≡◌, false, none, List, [], ◌∷◌, Text, ok}
use vigor3912s_mcp.Values.{undefined}
use vigor3912s_mcp.Client.{Sdk, Operation, Allowlist, new_client, disconnect}
use vigor3912s_mcp.Client.Authority.{
  ClientCall, authorizes, runs, writes, operates, write_operates, run, IsSafe, run-IsSafe,
  run-disconnect_silent, writes_sent, authorizations, held, writes_sent-le-authorizations,
}

abbrev status : Text
status = 115 ∷ []

abbrev change : Text
change = 114 ∷ 109 ∷ []

abbrev reader : Operation
reader = record {
  manifest_id = "show.status";
  classification = "read";
  build_frames = λ input. ok (status ∷ []);
}

abbrev changer : Operation
changer = record {
  manifest_id = "sys.change";
  classification = "write";
  build_frames = λ input. ok (change ∷ []);
}

abbrev pub sdk : Sdk
sdk = record {
  operations = ("show.status", reader) ∷ ("sys.change", changer) ∷ [];
  execute = λ sent text. record { result = ok text; timing = none };
  invoke = λ sent op input. record { result = ok input; timing = none };
  to_json = λ value. [];
}

abbrev pub allow : Allowlist
allow = record { read_exact = status ∷ []; host_arg_matchers = [] }

-- The second write finds its authorization spent.
abbrev calls : List ClientCall
calls =
    runs status
    ∷ operates "show.status" undefined
    ∷ authorizes change
    ∷ write_operates "sys.change" undefined
    ∷ writes change
    ∷ []

new_client-IsSafe : IsSafe sdk allow (new_client false)
unfolding new_client
new_client-IsSafe = record { harmless = tt; reads_only = λ r. tt }

run-IsSafe_example : IsSafe sdk allow (run sdk allow calls (new_client false))
run-IsSafe_example = run-IsSafe sdk allow calls (new_client false) new_client-IsSafe

run-disconnect_silent_example :
    (run sdk allow calls (disconnect (new_client false))).sent ≡ (new_client false).sent
run-disconnect_silent_example = run-disconnect_silent sdk allow calls (new_client false)

writes_sent-le-authorizations_example :
    writes_sent sdk allow calls (new_client false)
      + held sdk allow (run sdk allow calls (new_client false))
    ≤ authorizations sdk allow calls + held sdk allow (new_client false)
writes_sent-le-authorizations_example =
    writes_sent-le-authorizations sdk allow calls (new_client false)
