-- ===== src/Policy/Tiers.antt =====
-- What the policy makes of a tool (src/commands/tool-policy.ts).
use vigor3912s_mcp.Common.{
  String, Bool, ◌||◌, ◌≡◌, refl, ◌∙◌, Option, none, some, [], ◌++◌, contains, contains-append,
  contains-distinct_from, string_key, if◌then◌else◌,
}
use vigor3912s_mcp.Registry.{CommandDef, CommandKind, read, write, ConfirmTier, auto, confirm, dual}
use vigor3912s_mcp.Policy.Table.{WritePolicy}
use vigor3912s_mcp.Policy.{
  apply_tool_policy, resolve_confirm_tier, policy_for, policy_secrets, classification_of, asks_dual,
  is_destructive, with_policy,
}

-- What the policy does to a tool, by its kind. A read runs at once; a write is confirmed, and twice
-- exactly if its policy or the class of its SDK operation asks for that.
unfoldable pub Tiered : CommandKind → Bool → Option ConfirmTier → Type 0
Tiered read twice tier = tier ≡ some auto
Tiered write twice tier = tier ≡ some (if twice then dual else confirm)

module _ (classify : String → Option String) (cmd : CommandDef) where
  pub record Graded (after : CommandDef) : Type 0 where
    pub tier :
        Tiered cmd.kind
          (asks_dual (policy_for cmd.kind cmd.id)
            || is_destructive (classification_of classify cmd.sdk))
          after.confirm
    pub secrets :
        (a : String)
        → contains after.secret_args a
          ≡ contains cmd.secret_args a || contains (policy_secrets (policy_for cmd.kind cmd.id)) a
    pub same_kind : after.kind ≡ cmd.kind
    pub same_id : after.id ≡ cmd.id
    pub same_render : after.render ≡ cmd.render
    pub same_sdk : after.sdk ≡ cmd.sdk

  with_policy_same :
      (policy : Option WritePolicy)
      → ((with_policy cmd policy).kind ≡ cmd.kind)
        × ((with_policy cmd policy).id ≡ cmd.id)
        × ((with_policy cmd policy).render ≡ cmd.render)
        × ((with_policy cmd policy).sdk ≡ cmd.sdk)
  unfolding with_policy
  with_policy_same none = (refl, refl, refl, refl)
  with_policy_same (some p) = (refl, refl, refl, refl)

  tier_lem :
      (kind : CommandKind) (policy : Option WritePolicy) (classification : Option String)
      → Tiered kind
          (asks_dual policy || is_destructive classification)
          (some (resolve_confirm_tier kind policy classification))
  unfolding Tiered resolve_confirm_tier
  tier_lem read policy classification = refl
  tier_lem write policy classification = refl

  -- The policy gives each tool its tier by its kind, keeps every secret argument that the tool or
  -- the policy names and adds no other, and leaves the tool's kind, id, rendering and binding.
  pub apply_tool_policy-Graded : Graded (apply_tool_policy classify cmd)
  unfolding apply_tool_policy contains
  apply_tool_policy-Graded =
      let policy = policy_for cmd.kind cmd.id in
      let same = with_policy_same policy in
      record {
        tier = tier_lem cmd.kind policy (classification_of classify cmd.sdk);
        secrets = λ a.
            contains-distinct_from [] (cmd.secret_args ++ policy_secrets policy) a
            ∙ contains-append cmd.secret_args (policy_secrets policy) a;
        same_kind = same.0;
        same_id = same.1;
        same_render = same.2;
        same_sdk = same.3;
      }
