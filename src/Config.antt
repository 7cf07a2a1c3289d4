-- ===== src/Config.antt =====
-- src/config.ts: the configuration from the environment. The number parser, the JSON printer, the
-- path functions and the messages of the schema library are arguments.
pub mod Loaded
pub mod Tests
use vigor3912s_mcp.Common.{
  ℕ, String, Bool, true, false, not, ◌&&◌, ◌||◌, Option, none, some, List, [], ◌∷◌, ◌++◌, map, keep,
  Text, lit, trim, to_lower_case, contains, text_key, ◌==◌, if◌then◌else◌, leb, eqb, length,
  is_some, get_or, Result, ok, err, ◌>>=◌, plain_error,
}
use vigor3912s_mcp.Forbidden.{push}
use vigor3912s_mcp.Crypto.{Crypto, parse_approve_public_key}

-- The variables that are read; `none` is an unset one.
pub record Env : Type 0 where
  pub vigor_host : Option Text
  pub vigor_port : Option Text
  pub vigor_user : Option Text
  pub vigor_password : Option Text
  pub vigor_log_db : Option Text
  pub vigor_pending_file : Option Text
  pub vigor_read_only : Option Text
  pub vigor_auto_commit : Option Text
  pub vigor_approve_pubkey : Option Text
  pub expose_tools : Option Text
  pub vigor_disabled_tools : Option Text
  pub vigor_tool_output_limit : Option Text
  pub vigor_ssh_host_fingerprint : Option Text
  pub vigor_ssh_insecure_skip_verify : Option Text

pub data ExposeTools : Type 0 where
  all : ExposeTools
  list_of : List Text → ExposeTools

-- `VigorConfig`; while it is parsed, the key is still a text.
pub record VigorConfig (Key : Type 0) : Type 0 where
  pub host : Text
  pub port : ℕ
  pub username : Text
  pub password : Text
  pub log_db : Text
  pub pending_file : Option Text
  pub read_only : Bool
  pub auto_commit : Bool
  pub approve_public_key : Option Key
  pub expose_tools : ExposeTools
  pub disabled_tools : List Text
  pub tool_output_limit : ℕ
  pub ssh_host_fingerprint : Option Text
  pub ssh_insecure_skip_host_verify : Bool

-- `to_number` gives a text's number if that is a natural number; the schema refuses all others.
pub record Runtime : Type 0 where
  pub to_number : Text → Option ℕ
  pub to_json : Text → Text
  pub resolve_data_path : Text → Text
  pub pending_beside : Text → Text
  pub schema_message : Env → Text
  pub read_command_ids : List String

abbrev truthy : List Text
truthy = lit "true" ∷ lit "1" ∷ lit "yes" ∷ lit "on" ∷ []

abbrev falsy : List Text
falsy = lit "false" ∷ lit "0" ∷ lit "no" ∷ lit "off" ∷ []

-- `text.split(',')`
split_commas : Text → List Text
split_commas [] = [] ∷ []
split_commas (c ∷ s) = let rest = split_commas s in if eqb c 44 then [] ∷ rest else push c rest

-- `list`
unfoldable pub list : Option Text → List Text
unfolding split_commas trim
list none = []
list (some v) = keep (λ s. not (eqb (length s) 0)) (map trim (split_commas v))

module _ (runtime : Runtime) where
  open runtime use {
    to_number, to_json, resolve_data_path, pending_beside, schema_message, read_command_ids,
  }

  -- `parseEnvBool`
  unfoldable pub parse_env_bool : String → Option Text → Bool → Result Bool
  unfolding trim to_lower_case contains lit
  parse_env_bool name none default = ok default
  parse_env_bool name (some v) default =
      let n = to_lower_case (trim v) in
      if eqb (length (trim v)) 0
      then ok default
      else if contains truthy n
      then ok true
      else if contains falsy n
      then ok false
      else err (
          plain_error none (
            lit "Invalid boolean for "
            ++ (lit name
                ++ (lit "=" ++ (to_json v ++ lit "; use true/false, 1/0, yes/no, or on/off")))))

  read_ids : ExposeTools
  unfolding lit
  read_ids = list_of (map lit read_command_ids)

  -- `resolveExposeTools`
  unfoldable pub resolve_expose_tools : Option Text → ExposeTools
  unfolding read_ids list trim to_lower_case lit
  resolve_expose_tools none = read_ids
  resolve_expose_tools (some raw) =
      let v = to_lower_case (trim raw) in
      if eqb (length (trim raw)) 0
      then read_ids
      else if v == lit "all"
      then all
      else if v == lit "readonly"
      then read_ids
      else list_of (list (some raw))

  module _ (env : Env) where
    invalid_config : {A : Type 0} → Result A
    unfolding lit
    invalid_config = err (
        plain_error none
          (lit "Invalid VIGOR_* / EXPOSE_TOOLS environment config: " ++ schema_message env))

    -- The fields of `configSchema`: a text that is not empty, with or without a default.
    filled : Option Text → Result Text
    unfolding invalid_config
    filled none = invalid_config
    filled (some []) = invalid_config
    filled (some (c ∷ s)) = ok (c ∷ s)

    optional : Option Text → Result (Option Text)
    unfolding invalid_config
    optional none = ok none
    optional (some []) = invalid_config
    optional (some (c ∷ s)) = ok (some (c ∷ s))

    -- A number within its bounds, or the default of an unset variable.
    bounded : (ℕ → Bool) → ℕ → Option Text → Result ℕ
    unfolding invalid_config
    bounded test default none = ok default
    bounded test default (some v) = elim (to_number v) [
      | none ↦ invalid_config
      | some n ↦ if test n then ok n else invalid_config
    ]

    -- Up to `safeParse`.
    parse : Result (VigorConfig Text)
    unfolding parse_env_bool resolve_expose_tools filled optional bounded lit
    parse = do
      read_only ← parse_env_bool "VIGOR_READ_ONLY" env.vigor_read_only false
      auto_commit ← parse_env_bool "VIGOR_AUTO_COMMIT" env.vigor_auto_commit true
      skip ←
          parse_env_bool "VIGOR_SSH_INSECURE_SKIP_VERIFY" env.vigor_ssh_insecure_skip_verify false
      host ← filled (some (get_or env.vigor_host (lit "192.168.1.1")))
      port ← bounded (λ n. leb 1 n && leb n 65535) 22 env.vigor_port
      username ← filled (some (get_or env.vigor_user (lit "admin")))
      password ← filled env.vigor_password
      log_db ← filled (some (get_or env.vigor_log_db (lit "data/vigor3912s.db")))
      pending_file ← optional env.vigor_pending_file
      key ← optional env.vigor_approve_pubkey
      limit ← bounded (λ n. true) 16000 env.vigor_tool_output_limit
      fingerprint ← optional env.vigor_ssh_host_fingerprint
      ok (record {
        host = host;
        port = port;
        username = username;
        password = password;
        log_db = log_db;
        pending_file = pending_file;
        read_only = read_only;
        auto_commit = auto_commit;
        approve_public_key = key;
        expose_tools = resolve_expose_tools env.expose_tools;
        disabled_tools = list env.vigor_disabled_tools;
        tool_output_limit = limit;
        ssh_host_fingerprint = fingerprint;
        ssh_insecure_skip_host_verify = skip;
      })

  module _ {PublicKey : Type 0} (crypto : Crypto PublicKey) where
    key_of : Option Text → Result (Option PublicKey)
    unfolding parse_approve_public_key
    key_of none = ok none
    key_of (some text) = do key ← parse_approve_public_key crypto text; ok (some key)

    -- The object that is returned.
    resolved : VigorConfig Text → Option PublicKey → VigorConfig PublicKey
    unfolding lit
    resolved config key = record {
      host = config.host;
      port = config.port;
      username = config.username;
      password = config.password;
      log_db = resolve_data_path config.log_db;
      pending_file =
          if config.log_db == lit ":memory:"
          then none
          else some (
              resolve_data_path
                (get_or config.pending_file (pending_beside (resolve_data_path config.log_db))));
      read_only = config.read_only;
      auto_commit = config.auto_commit;
      approve_public_key = key;
      expose_tools = config.expose_tools;
      disabled_tools = config.disabled_tools;
      tool_output_limit = config.tool_output_limit;
      ssh_host_fingerprint = config.ssh_host_fingerprint;
      ssh_insecure_skip_host_verify = config.ssh_insecure_skip_host_verify;
    }

    check_host : VigorConfig Text → Option PublicKey → Result (VigorConfig PublicKey)
    unfolding resolved lit
    check_host config key =
        if not (is_some config.ssh_host_fingerprint) && not config.ssh_insecure_skip_host_verify
        then err (
            plain_error none (
              lit
                "SSH host-key verification required: set VIGOR_SSH_HOST_FINGERPRINT (preferred) or explicitly VIGOR_SSH_INSECURE_SKIP_VERIFY=true for tests/simulated servers only"))
        else ok (resolved config key)

    -- From the parsed fields on.
    check_config : VigorConfig Text → Result (VigorConfig PublicKey)
    unfolding key_of check_host lit
    check_config config =
        if not config.read_only && not (is_some config.approve_public_key)
        then err (
            plain_error none (
              lit
                "Write mode requires VIGOR_APPROVE_PUBKEY (Ed25519 SPKI PEM or base64 DER). Generate a keypair with: node tools/approve-keygen.mjs"))
        else key_of config.approve_public_key >>= check_host config

    -- `loadConfig`
    unfoldable pub load_config : Env → Result (VigorConfig PublicKey)
    unfolding parse check_config
    load_config env = parse env >>= check_config
