-- ===== src/Executor/Destructive.antt =====
-- The second confirmation (src/commands/tool-policy.ts and src/commands/write-executor.ts).
use vigor3912s_mcp.Common.{String, Bool, true, ◌||◌, ◌≡◌, ◌≢◌, refl, Option}
use vigor3912s_mcp.Values.{Args, arg}
use vigor3912s_mcp.Registry.{CommandDef, CommandKind, read, write, ConfirmTier}
use vigor3912s_mcp.Policy.{
  apply_tool_policy, policy_for, classification_of, asks_dual, is_destructive,
}
use vigor3912s_mcp.Policy.Tiers.{Tiered, apply_tool_policy-Graded}
use vigor3912s_mcp.Executor.{World, Moment, Setting, execute_write, is_true, is_dual, tier_of}
use vigor3912s_mcp.Executor.Approval.{execute_write-Executed}

tier_lem :
    (kind : CommandKind) (twice : Bool) (tier : Option ConfirmTier)
    → kind ≡ write
    → twice ≡ true
    → Tiered kind twice tier
    → is_dual (tier_of tier) ≡ true
unfolding Tiered
tier_lem read twice tier k t h = cc
tier_lem write twice tier k t h = rw h (rw t refl)

module _ {PublicKey : Type 0} (setting : Setting PublicKey) (classify : String → Option String)
    (cmd : CommandDef) (m : Moment) (args : Args) (w : World PublicKey) where
  -- A write tool that its policy grades dual, or whose SDK operation is classed destructive, does
  -- nothing to the client unless its call says `acknowledge: true`.
  pub apply_tool_policy-acknowledged :
      cmd.kind ≡ write
      → asks_dual (policy_for cmd.kind cmd.id)
          || is_destructive (classification_of classify cmd.sdk)
        ≡ true
      → (execute_write setting m (apply_tool_policy classify cmd) args w).1.client ≢ w.client
      → is_true (arg args "acknowledge") ≡ true
  apply_tool_policy-acknowledged writes twice touched =
      let graded = apply_tool_policy-Graded classify cmd in
      let executed =
        execute_write-Executed setting m (apply_tool_policy classify cmd) args w touched in
      executed.passed.acknowledged (tier_lem cmd.kind _ _ writes twice graded.tier)
