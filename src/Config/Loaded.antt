-- ===== src/Config/Loaded.antt =====
-- What a loaded configuration promises (src/config.ts).
use vigor3912s_mcp.Common.{
  Bool, true, false, not, ◌&&◌, ◌≡◌, refl, sym, ap, ◌∙◌, ◌⊎◌, inl, inr, Option, none, some, arith,
  Text, is_some, Bool-cases, ok, bind-ok, ok-injective, ◌==◌, string_key, eq_iff,
}
use vigor3912s_mcp.Crypto.{Crypto, parse_approve_public_key, parse_public_key, ed25519_only}
use vigor3912s_mcp.Config.{
  Env, VigorConfig, Runtime, parse, key_of, resolved, check_host, check_config, load_config,
}

module _ (runtime : Runtime) {PublicKey : Type 0} (crypto : Crypto PublicKey) where
  open crypto use {asymmetric_key_type}

  -- The key of a configuration, if there is one, is an Ed25519 key; without one the server only
  -- reads; and the host key of the router is pinned unless that is switched off.
  pub record Guarded (config : VigorConfig PublicKey) : Type 0 where
    pub keyed :
        (config.read_only ≡ true) ⊎ ((key : PublicKey) × (config.approve_public_key ≡ some key))
    pub ed25519 :
        (config.approve_public_key ≡ none)
        ⊎ ((key : PublicKey) × (config.approve_public_key ≡ some key)
            × (asymmetric_key_type key ≡ "ed25519"))
    pub pinned :
        ((fingerprint : Text) × (config.ssh_host_fingerprint ≡ some fingerprint))
        ⊎ (config.ssh_insecure_skip_host_verify ≡ true)

  ed25519_only-ok :
      (o : Option PublicKey) (key : PublicKey)
      → ed25519_only crypto o ≡ ok key
      → asymmetric_key_type key ≡ "ed25519"
  unfolding ed25519_only
  ed25519_only-ok none key h = cc
  ed25519_only-ok (some k) key h = elim (Bool-cases (asymmetric_key_type k == "ed25519")) [
    | inl fits ↦
        ap asymmetric_key_type (sym (ok-injective (rw fits at h)))
        ∙ (eq_iff (asymmetric_key_type k) "ed25519").0 fits
    | inr other ↦ cc (rw other at h)
  ]

  -- A key text gives a key of the right kind, and no text no key.
  abbrev FitsText : Option Text → Option PublicKey → Type 0
  FitsText none k = k ≡ none
  FitsText (some text) k =
      (key : PublicKey) × (k ≡ some key) × (asymmetric_key_type key ≡ "ed25519")

  key_of-FitsText :
      (o : Option Text) (k : Option PublicKey) → key_of runtime crypto o ≡ ok k → FitsText o k
  unfolding key_of parse_approve_public_key
  key_of-FitsText none k h = sym (ok-injective h)
  key_of-FitsText (some text) k h =
      let (key, parses, e) =
        bind-ok (parse_approve_public_key crypto text) (λ key. ok (some key)) k h in
      (key, sym (ok-injective e), ed25519_only-ok (parse_public_key crypto text) key parses)

  check_host-ok :
      (parsed : VigorConfig Text) (key : Option PublicKey) (config : VigorConfig PublicKey)
      → check_host runtime crypto parsed key ≡ ok config
      → (config ≡ resolved runtime crypto parsed key)
        × (not (is_some parsed.ssh_host_fingerprint) && not parsed.ssh_insecure_skip_host_verify
            ≡ false)
  unfolding check_host
  check_host-ok parsed key config h =
      elim (Bool-cases
        (not (is_some parsed.ssh_host_fingerprint) && not parsed.ssh_insecure_skip_host_verify)) [
          | inl bare ↦ cc (rw bare at h)
          | inr safe ↦ (sym (ok-injective (rw safe at h)), safe)
        ]

  pinned_lem :
      (o : Option Text) (skip : Bool)
      → not (is_some o) && not skip ≡ false
      → ((fingerprint : Text) × (o ≡ some fingerprint)) ⊎ (skip ≡ true)
  pinned_lem none skip h = ground arith
  pinned_lem (some f) skip h = inl (f, refl)

  keyed_lem :
      (read_only : Bool) (o : Option Text) (k : Option PublicKey)
      → not read_only && not (is_some o) ≡ false
      → FitsText o k
      → (read_only ≡ true) ⊎ ((key : PublicKey) × (k ≡ some key))
  keyed_lem read_only none k h fits = ground arith
  keyed_lem read_only (some t) k h (key, e, kind) = inr (key, e)

  ed25519_lem :
      (o : Option Text) (k : Option PublicKey)
      → FitsText o k
      → (k ≡ none) ⊎ ((key : PublicKey) × (k ≡ some key) × (asymmetric_key_type key ≡ "ed25519"))
  ed25519_lem none k fits = inl fits
  ed25519_lem (some t) k fits = inr fits

  resolved-Guarded :
      (parsed : VigorConfig Text) (key : Option PublicKey)
      → not parsed.read_only && not (is_some parsed.approve_public_key) ≡ false
      → FitsText parsed.approve_public_key key
      → not (is_some parsed.ssh_host_fingerprint) && not parsed.ssh_insecure_skip_host_verify
        ≡ false
      → Guarded (resolved runtime crypto parsed key)
  unfolding resolved
  resolved-Guarded parsed key writes fits safe = record {
    keyed = keyed_lem parsed.read_only parsed.approve_public_key key writes fits;
    ed25519 = ed25519_lem parsed.approve_public_key key fits;
    pinned = pinned_lem parsed.ssh_host_fingerprint parsed.ssh_insecure_skip_host_verify safe;
  }

  check_config-Guarded :
      (parsed : VigorConfig Text) (config : VigorConfig PublicKey)
      → check_config runtime crypto parsed ≡ ok config
      → Guarded config
  unfolding check_config
  check_config-Guarded parsed config h =
      elim (Bool-cases (not parsed.read_only && not (is_some parsed.approve_public_key))) [
        | inl keyless ↦ cc (rw keyless at h)
        | inr writes ↦
            let (key, of_text, checked) =
              bind-ok (key_of runtime crypto parsed.approve_public_key)
                (check_host runtime crypto parsed) config (rw writes at h) in
            let (same, safe) = check_host-ok parsed key config checked in
            rw same (
              resolved-Guarded parsed key writes
                (key_of-FitsText parsed.approve_public_key key of_text) safe)
      ]

  -- If the environment loads, then the server only reads or has an approval key; an approval key is
  -- an Ed25519 key; and the router's host key is pinned or its check explicitly switched off.
  pub load_config-Guarded :
      (env : Env) (config : VigorConfig PublicKey)
      → load_config runtime crypto env ≡ ok config
      → Guarded config
  unfolding load_config
  load_config-Guarded env config h =
      let (parsed, _, checked) =
        bind-ok (parse runtime env) (check_config runtime crypto) config h in
      check_config-Guarded parsed config checked
