-- ===== src/Build/Reads.antt =====
-- The handler of a read tool (src/commands/build.ts): what it sends, returns and stores.
use vigor3912s_mcp.Common.{ℕ, String, false, ◌≡◌, refl, Option, none, some, Text, Result, ok, err}
use vigor3912s_mcp.Values.{Value, Args}
use vigor3912s_mcp.Registry.{CommandDef, CommandSdkBinding, resolve_sdk_input}
use vigor3912s_mcp.Client.{Client, Sdk, Allowlist}
use vigor3912s_mcp.Client.Sending.{
  Sends, nothing, guards_refl, run_command-Sends, run_operation-Sends,
}
use vigor3912s_mcp.Build.{Reader, read_tool, rendered, run_read, run_input, finish}

module _ (sdk : Sdk) (allow : Allowlist) (output_limit started ended : ℕ) where
  run_input-Sends :
      (manifest_id : String) (c : Client) (r : Result Value)
      → Sends sdk allow c false (run_input sdk allow output_limit started ended manifest_id c r).1
  unfolding run_input
  run_input-Sends manifest_id c (err e) = nothing (guards_refl c) refl
  run_input-Sends manifest_id c (ok input) = run_operation-Sends sdk allow manifest_id input c

  run_read-Sends :
      (b : Option CommandSdkBinding) (command : Text) (args : Args) (c : Client)
      → Sends sdk allow c false (run_read sdk allow output_limit started ended b command args c).1
  unfolding run_read
  run_read-Sends none command args c = run_command-Sends sdk allow command c
  run_read-Sends (some b) command args c =
      run_input-Sends b.manifest_id c (resolve_sdk_input b args)

  finish-client :
      (cmd : CommandDef) (args : Args) (command : Text) (r : Reader) (x : Result Text)
      → (finish sdk allow output_limit started ended cmd args command r x).1.client ≡ r.client
  unfolding finish
  finish-client cmd args command r (ok raw) = refl
  finish-client cmd args command r (err e) = refl

  rendered-Sends :
      (cmd : CommandDef) (args : Args) (r : Reader) (x : Result Text)
      → Sends sdk allow r.client false
          (rendered sdk allow output_limit started ended cmd args r x).1.client
  unfolding rendered
  rendered-Sends cmd args r (err e) = rw finish-client (nothing (guards_refl r.client) refl)
  rendered-Sends cmd args r (ok command) =
      rw finish-client (run_read-Sends cmd.sdk command args r.client)

  -- A read tool sends nothing, or one read that holds no forbidden command while the client is
  -- open, and it leaves the guards of the client as they are.
  pub read_tool-Sends :
      (cmd : CommandDef) (args : Args) (r : Reader)
      → Sends sdk allow r.client false
          (read_tool sdk allow output_limit started ended cmd args r).1.client
  unfolding read_tool
  read_tool-Sends cmd args r = rendered-Sends cmd args r (cmd.render args)
