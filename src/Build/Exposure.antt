-- ===== src/Build/Exposure.antt =====
-- Which tools are registered (src/commands/build.ts).
use vigor3912s_mcp.Common.{
  ◌&&◌, true, false, ◌≡◌, ◌↔◌, sym, subst, List, [], ◌∷◌, arith, Bool-cases, inl, inr, contains,
  text_key, lit,
}
use mathlib.Core.List.{Memᴰ}
use mathlib.Core.List.Memᴰ.{head, tail}
use vigor3912s_mcp.Registry.{CommandDef, is_write}
use vigor3912s_mcp.Build.{RegisterOptions, is_exposed, is_tool_enabled, registered}

-- The tool is exposed and not disabled, and it is no write if the server only reads.
pub record MayRun (opts : RegisterOptions) (cmd : CommandDef) : Type 0 where
  pub exposed : is_exposed opts.expose_tools cmd.id ≡ true
  pub not_disabled : contains opts.disabled_tools (lit cmd.id) ≡ false
  pub reads_only : opts.read_only && is_write cmd.kind ≡ false

module _ (opts : RegisterOptions) where
  enabled_iff : (cmd : CommandDef) → (is_tool_enabled opts cmd ≡ true) ↔ MayRun opts cmd
  unfolding is_tool_enabled
  enabled_iff cmd = (
    λ h. record { exposed = ground arith; not_disabled = ground arith; reads_only = ground arith },
    λ r. simp (r.exposed, r.not_disabled, r.reads_only),
  )

  in_front :
      (cmd c : CommandDef) (commands : List CommandDef)
      → is_tool_enabled opts c ≡ true
      → (Memᴰ cmd (registered opts commands) → Memᴰ cmd commands × MayRun opts cmd)
      → Memᴰ cmd (c ∷ registered opts commands)
      → Memᴰ cmd (c ∷ commands) × MayRun opts cmd
  in_front cmd c commands on later (head e) =
      (head e, subst (MayRun opts) (sym e) ((enabled_iff c).0 on))
  in_front cmd c commands on later (tail m) = let (there, fine) = later m in (tail there, fine)

  registered_sound :
      (cmd : CommandDef) (commands : List CommandDef)
      → Memᴰ cmd (registered opts commands)
      → Memᴰ cmd commands × MayRun opts cmd
  unfolding registered
  registered_sound cmd [] m = elim m [ ]
  registered_sound cmd (c ∷ commands) m = elim (Bool-cases (is_tool_enabled opts c)) [
    | inl on ↦ in_front cmd c commands on (registered_sound cmd commands) (rw on at m)
    | inr off ↦
        let (there, fine) = registered_sound cmd commands (rw off at m) in (tail there, fine)
  ]

  registered_complete :
      (cmd : CommandDef) (commands : List CommandDef)
      → Memᴰ cmd commands
      → MayRun opts cmd
      → Memᴰ cmd (registered opts commands)
  unfolding registered
  registered_complete cmd [] m fine = elim m [ ]
  registered_complete cmd (c ∷ commands) (head e) fine =
      rw ((enabled_iff c).1 (subst (MayRun opts) e fine)) (head e)
  registered_complete cmd (c ∷ commands) (tail m) fine =
      elim (Bool-cases (is_tool_enabled opts c)) [
        | inl on ↦ rw on (tail (registered_complete cmd commands m fine))
        | inr off ↦ rw off (registered_complete cmd commands m fine)
      ]

  -- A tool is registered exactly if it is one of the commands, is exposed, is not disabled and, in
  -- read-only mode, is no write.
  pub registered_iff :
      (cmd : CommandDef) (commands : List CommandDef)
      → Memᴰ cmd (registered opts commands) ↔ (Memᴰ cmd commands × MayRun opts cmd)
  registered_iff cmd commands =
      (registered_sound cmd commands, λ (m, fine). registered_complete cmd commands m fine)
