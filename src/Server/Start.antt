-- ===== src/Server/Start.antt =====
-- What a started server promises (src/index.ts).
use vigor3912s_mcp.Common.{
  true, false, ◌≡◌, sym, subst, inl, inr, some, List, Text, arith, ok, bind-ok, ok-injective,
}
use mathlib.Core.List.{Memᴰ}
use vigor3912s_mcp.Crypto.{Crypto}
use vigor3912s_mcp.Registry.{CommandDef, is_write}
use vigor3912s_mcp.Gate.{new_gate}
use vigor3912s_mcp.Client.{new_client}
use vigor3912s_mcp.Log.{LogStore}
use vigor3912s_mcp.Config.{Env, VigorConfig, Runtime, load_config}
use vigor3912s_mcp.Config.Loaded.{Guarded, load_config-Guarded}
use vigor3912s_mcp.Build.Exposure.{MayRun, registered_iff}
use vigor3912s_mcp.Server.{Server, build_server, options_of, start}

module _ {PublicKey : Type 0} (open_store : Text → LogStore) (all_commands : List CommandDef)
    (runtime : Runtime) (crypto : Crypto PublicKey) where
  open crypto use {asymmetric_key_type}

  -- A write tool is one of the commands and not disabled, and the gate of its server checks approvals
  -- with an Ed25519 key.
  pub record OffersWrite (config : VigorConfig PublicKey) (server : Server PublicKey)
      (cmd : CommandDef) : Type 0 where
    pub known : Memᴰ cmd all_commands
    pub may_run : MayRun (options_of config) cmd
    pub key : PublicKey
    pub keyed : server.gate.approve_public_key ≡ some key
    pub ed25519 : asymmetric_key_type key ≡ "ed25519"
    pub writes : server.client.read_only ≡ false

  abbrev Ed25519Key : VigorConfig PublicKey → Type 0
  Ed25519Key config =
      (key : PublicKey) × (config.approve_public_key ≡ some key)
      × (asymmetric_key_type key ≡ "ed25519")

  key_of_writer :
      (config : VigorConfig PublicKey)
      → Guarded runtime crypto config
      → config.read_only ≡ false
      → Ed25519Key config
  key_of_writer config guarded off = elim guarded.ed25519 [
    | inr found ↦ found
    | inl missing ↦ elim guarded.keyed [
      | inl on ↦ absurd (ground (arith, on, off))
      | inr (key, there) ↦ absurd (ground (arith, there, missing))
    ]
  ]

  keyed_write :
      (config : VigorConfig PublicKey) (cmd : CommandDef)
      → Guarded runtime crypto config
      → is_write cmd.kind ≡ true
      → Memᴰ cmd (build_server open_store all_commands config).tools
      → OffersWrite config (build_server open_store all_commands config) cmd
  unfolding build_server options_of new_gate new_client
  keyed_write config cmd guarded writes offered =
      let (known, may_run) = (registered_iff (options_of config) cmd all_commands).0 offered in
      let off : config.read_only ≡ false = ground (arith, writes, may_run.reads_only) in
      let (key, keyed, ed25519) = key_of_writer config guarded off in
      record {
        known = known;
        may_run = may_run;
        key = key;
        keyed = keyed;
        ed25519 = ed25519;
        writes = off;
      }

  -- If a server starts and offers a write tool, its gate checks approvals with an Ed25519 key, its
  -- client may write, and the tool is exposed and not disabled by the configuration that was loaded.
  pub start-OffersWrite :
      (env : Env) (server : Server PublicKey) (cmd : CommandDef)
      → start open_store all_commands runtime crypto env ≡ ok server
      → is_write cmd.kind ≡ true
      → Memᴰ cmd server.tools
      → (config : VigorConfig PublicKey) × (load_config runtime crypto env ≡ ok config)
        × OffersWrite config server cmd
  unfolding start
  start-OffersWrite env server cmd started writes offered =
      let (config, loaded, built) =
        bind-ok (load_config runtime crypto env)
          (λ config. ok (build_server open_store all_commands config)) server started in
      let same = ok-injective built in
      (
        config,
        loaded,
        subst (λ s. OffersWrite config s cmd) same
            (keyed_write config cmd (load_config-Guarded runtime crypto env config loaded) writes
              (subst (λ (s : Server PublicKey). Memᴰ cmd s.tools) (sym same) offered)),
      )
