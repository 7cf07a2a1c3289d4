-- ===== src/Allowlist/Origin.antt =====
-- What one read adds to the allowlist of src/commands/read-allowlist.ts.
use vigor3912s_mcp.Common.{
  ◌≡◌, refl, sym, ap, ◌∙◌, subst, inl, inr, arith, ℕ, zero, suc, ◌-◌, String, Bool, true, Option,
  none, some, List, [], ◌∷◌, ◌++◌, Text, All, length, take, drop, text_eq_iff, string_key, text_key,
  ◌==◌, is_some, ok, bind-ok, ok-injective, Bool-cases, Option-cases,
}
use vigor3912s_mcp.Values.{str}
use vigor3912s_mcp.Zod.{Zod}
use vigor3912s_mcp.Registry.{CommandDef}
use vigor3912s_mcp.Client.{Allowlist, HostArgMatcher}
use vigor3912s_mcp.Allowlist.{
  host_probes, Choice, expand_arg_combos, is_empty, value_lists, render_all, host_only, ends_with,
  first_such, matcher_added, host_added, expanded, added_by, thrown,
}
use vigor3912s_mcp.Allowlist.Choices.{
  RenderedBy, SafeList, expand-Plain, render_all-RenderedBy, value_lists-SafeList,
}

take-drop : (n : ℕ) (s : Text) → take n s ++ drop n s ≡ s
unfolding take drop
take-drop zero s = refl
take-drop (suc n) [] = refl
take-drop (suc n) (c ∷ s) = ap (λ t. c ∷ t) (take-drop n s)

ends_with-take : (s end : Text) → ends_with s end ≡ true → take (length s - length end) s ++ end ≡ s
unfolding ends_with
ends_with-take s end h =
    let same = (text_eq_iff (drop (length s - length end) s) end).0 (ground arith) in
    ap (λ t. take (length s - length end) s ++ t) (sym same) ∙ take-drop (length s - length end) s

host_only-args :
    (args : List (String × Zod)) (schema : Zod)
    → host_only args ≡ some schema
    → args ≡ ("host", schema) ∷ []
host_only-args [] schema e = cc
host_only-args ((key, z) ∷ []) schema e = elim (Bool-cases (key == "host")) [
  | inl same ↦
      let is_host = (string_key.same_iff key "host").0 same in
      let is_schema : z ≡ schema = cc (rw same at e) in
      ap (λ (k : String). (k, z) ∷ []) is_host ∙ ap (λ (x : Zod). ("host", x) ∷ []) is_schema
  | inr other ↦ cc (rw other at e)
]
host_only-args (a ∷ b ∷ args) schema e = cc

module _ (accepts : Zod → Text → Bool) where
  -- A pattern for commands that end in a host, made by a tool whose only argument is a host.
  abbrev pub MatchedBy : CommandDef → HostArgMatcher → Type 0
  MatchedBy cmd m =
      (schema : Zod) × (cmd.args ≡ ("host", schema) ∷ [])
      × (m.host_schema ≡ accepts schema)
      × ((sample : Text) × (cmd.render (("host", str sample) ∷ []) ≡ ok (m.prefix ++ sample)))

  abbrev pub AddedBy : CommandDef → Allowlist → Type 0
  AddedBy cmd a = All (RenderedBy cmd) a.read_exact × All (MatchedBy cmd) a.host_arg_matchers

  matcher_added-AddedBy :
      (cmd : CommandDef) (schema : Zod) (sample rendered : Text) (a : Allowlist)
      → cmd.args ≡ ("host", schema) ∷ []
      → cmd.render (("host", str sample) ∷ []) ≡ ok rendered
      → matcher_added accepts cmd schema sample rendered ≡ ok a
      → AddedBy cmd a
  unfolding matcher_added thrown
  matcher_added-AddedBy cmd schema sample rendered a only made e =
      elim (Bool-cases (ends_with rendered sample)) [
        | inl ends ↦ subst (AddedBy cmd) (ok-injective (rw ends at e)) (
          tt,
          (
            (
              schema,
              only,
              refl,
              (sample, made ∙ ap ok (sym (ends_with-take rendered sample ends))),
            ),
            tt,
          ),
        )
        | inr no_end ↦ cc (rw no_end at e)
      ]

  host_added-AddedBy :
      (cmd : CommandDef) (schema : Zod) (sample : Option Text) (a : Allowlist)
      → cmd.args ≡ ("host", schema) ∷ []
      → host_added accepts cmd schema sample ≡ ok a
      → AddedBy cmd a
  unfolding host_added thrown
  host_added-AddedBy cmd schema none a only e = cc
  host_added-AddedBy cmd schema (some sample) a only e =
      let (rendered, made, after) =
        bind-ok (cmd.render (("host", str sample) ∷ [])) (matcher_added accepts cmd schema sample) a
          e in
      matcher_added-AddedBy cmd schema sample rendered a only made after

  expanded-AddedBy :
      (cmd : CommandDef) (o : Option (List (String × List Choice))) (a : Allowlist)
      → ((lists : List (String × List Choice)) → o ≡ some lists → All SafeList lists)
      → expanded accepts cmd o ≡ ok a
      → AddedBy cmd a
  unfolding expanded thrown
  expanded-AddedBy cmd none a safe e = elim (Bool-cases (is_some cmd.sdk)) [
    | inl bound ↦ subst (AddedBy cmd) (ok-injective (rw bound at e)) (tt, tt)
    | inr free ↦ cc (rw free at e)
  ]
  expanded-AddedBy cmd (some lists) a safe e =
      let combos = expand_arg_combos lists ([] ∷ []) in
      let (texts, made, after) =
        bind-ok (render_all cmd combos)
          (λ (texts : List Text). ok (record { read_exact = texts; host_arg_matchers = [] })) a e in
      subst (AddedBy cmd) (ok-injective after) (
        render_all-RenderedBy cmd combos texts
            (expand-Plain lists ([] ∷ []) (safe lists refl) (tt, tt)) made,
        tt,
      )

  pub added_by-AddedBy :
      (cmd : CommandDef) (a : Allowlist) → added_by accepts cmd ≡ ok a → AddedBy cmd a
  unfolding added_by
  added_by-AddedBy cmd a e = elim (Bool-cases (is_empty cmd.args)) [
    | inl none_needed ↦ subst (AddedBy cmd) (ok-injective (rw none_needed at e)) (tt, tt)
    | inr some_needed ↦ elim (Option-cases (host_only cmd.args)) [
      | inl other ↦
          let (o, found, after) =
            bind-ok (value_lists cmd.id cmd.args) (expanded accepts cmd) a
              (rw (some_needed, other) at e) in
          expanded-AddedBy cmd o a
            (λ lists same. value_lists-SafeList cmd.id cmd.args lists (found ∙ ap ok same)) after
      | inr (schema, host) ↦
          host_added-AddedBy cmd schema (first_such (accepts schema) host_probes) a
            (host_only-args cmd.args schema host) (rw (some_needed, host) at e)
    ]
  ]
