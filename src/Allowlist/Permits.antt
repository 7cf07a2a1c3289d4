-- ===== src/Allowlist/Permits.antt =====
-- What the allowlist of src/commands/read-allowlist.ts permits.
use vigor3912s_mcp.Common.{
  ◌≡◌, refl, sym, ap, ◌∙◌, subst, inl, inr, arith, Bool, true, false, List, [], ◌∷◌, ◌++◌, Text,
  any, All, All-map, length, drop, starts_with, string_key, text_key, ◌==◌, contains,
  contains-append, ok, ◌>>=◌, bind-ok, ok-injective, Bool-cases,
}
use mathlib.Core.List.{Memᴰ}
use mathlib.Core.List.Memᴰ.{head, tail}
use vigor3912s_mcp.Values.{str}
use vigor3912s_mcp.Zod.{Zod}
use vigor3912s_mcp.Registry.{CommandDef}
use vigor3912s_mcp.Client.{
  Allowlist, HostArgMatcher, is_unsafe, is_allowed_read_command, matches_host_arg,
}
use vigor3912s_mcp.Allowlist.{
  session_exact, is_empty, nothing_added, added_by, build_host_arg_matchers, exact_reads, together,
  with_exact, build_allowlist,
}
use vigor3912s_mcp.Allowlist.Choices.{RenderedBy, All-both}
use vigor3912s_mcp.Allowlist.Origin.{MatchedBy, added_by-AddedBy}

All-contains :
    (P : Text → Type 0) (xs : List Text) (a : Text) → All P xs → contains xs a ≡ true → P a
unfolding contains
All-contains P [] a h k = cc
All-contains P (x ∷ xs) a h k = elim (Bool-cases (x == a)) [
  | inl here ↦ subst P ((text_key.same_iff x a).0 here) h.0
  | inr there ↦ All-contains P xs a h.1 (ground arith)
]

All-any :
    {A : Type 0} (P : A → Type 0) (q : A → Bool) (xs : List A)
    → All P xs
    → any q xs ≡ true
    → (x : A) × P x × (q x ≡ true)
All-any P q [] h k = cc
All-any P q (x ∷ xs) h k = elim (Bool-cases (q x)) [
  | inl here ↦ (x, h.0, here)
  | inr there ↦ All-any P q xs h.1 (ground arith)
]

starts_with-drop : (s p : Text) → starts_with s p ≡ true → s ≡ p ++ drop (length p) s
unfolding starts_with drop
starts_with-drop s [] h = refl
starts_with-drop [] (p ∷ ps) h = cc
starts_with-drop (c ∷ s) (p ∷ ps) h =
    let same : c ≡ p = ground arith in
    ap (λ t. c ∷ t) (starts_with-drop s ps (ground arith))
    ∙ ap (λ x. x ∷ (ps ++ drop (length ps) s)) same

module _ (accepts : Zod → Text → Bool) where
  -- Why a command is permitted: it controls the session; a read renders it for plain arguments; or
  -- it is a host behind the prefix that a read with one argument renders before a sample host, where
  -- the schema of the argument accepts the host, which has no white space and no shell character.
  pub data Permitted (commands : List CommandDef) (text : Text) : Type 0 where
    session : contains session_exact text ≡ true → Permitted commands text
    rendered :
        (cmd : CommandDef) → Memᴰ cmd commands → RenderedBy cmd text → Permitted commands text
    with_host :
        (cmd : CommandDef)
        → Memᴰ cmd commands
        → (schema : Zod) → cmd.args ≡ ("host", schema) ∷ []
        → (prefix sample host : Text)
        → cmd.render (("host", str sample) ∷ []) ≡ ok (prefix ++ sample)
        → text ≡ prefix ++ host
        → accepts schema host ≡ true
        → any is_unsafe host ≡ false
        → Permitted commands text

  abbrev ExactFrom : List CommandDef → Text → Type 0
  ExactFrom commands text = (cmd : CommandDef) × Memᴰ cmd commands × RenderedBy cmd text

  abbrev MatcherFrom : List CommandDef → HostArgMatcher → Type 0
  MatcherFrom commands m = (cmd : CommandDef) × Memᴰ cmd commands × MatchedBy accepts cmd m

  build_host_arg_matchers-From :
      (commands : List CommandDef) (a : Allowlist)
      → build_host_arg_matchers accepts commands ≡ ok a
      → All (ExactFrom commands) a.read_exact × All (MatcherFrom commands) a.host_arg_matchers
  unfolding build_host_arg_matchers
  build_host_arg_matchers-From [] a e =
      subst
        (λ (x : Allowlist).
          All (ExactFrom []) x.read_exact × All (MatcherFrom []) x.host_arg_matchers)
        {x = nothing_added} (ok-injective e) (tt, tt)
  build_host_arg_matchers-From (cmd ∷ commands) a e =
      let (first, added, after) =
        bind-ok (added_by accepts cmd)
          (λ (x : Allowlist). build_host_arg_matchers accepts commands >>= λ y. ok (together x y)) a
          e in
      let (later, built, last) =
        bind-ok (build_host_arg_matchers accepts commands)
          (λ (y : Allowlist). ok (together first y)) a after in
      let mine = added_by-AddedBy accepts cmd first added in
      let others = build_host_arg_matchers-From commands later built in
      subst
        (λ (x : Allowlist).
          All (ExactFrom (cmd ∷ commands)) x.read_exact
          × All (MatcherFrom (cmd ∷ commands)) x.host_arg_matchers)
        (ok-injective last)
        (
          All-both (ExactFrom (cmd ∷ commands)) first.read_exact later.read_exact
              (All-map (RenderedBy cmd) (ExactFrom (cmd ∷ commands)) first.read_exact
                (λ t r. (cmd, head refl, r)) mine.0)
              (All-map (ExactFrom commands) (ExactFrom (cmd ∷ commands)) later.read_exact
                (λ t r. (r.0, tail r.1, r.2)) others.0),
          All-both (MatcherFrom (cmd ∷ commands)) first.host_arg_matchers later.host_arg_matchers
              (All-map (MatchedBy accepts cmd) (MatcherFrom (cmd ∷ commands))
                first.host_arg_matchers (λ t r. (cmd, head refl, r)) mine.1)
              (All-map (MatcherFrom commands) (MatcherFrom (cmd ∷ commands)) later.host_arg_matchers
                (λ t r. (r.0, tail r.1, r.2)) others.1),
        )

  exact_reads-From :
      (commands : List CommandDef) (texts : List Text)
      → exact_reads commands ≡ ok texts
      → All (ExactFrom commands) texts
  unfolding exact_reads
  exact_reads-From [] texts e = subst (All (ExactFrom [])) {x = []} (ok-injective e) tt
  exact_reads-From (cmd ∷ commands) texts e = elim (Bool-cases (is_empty cmd.args)) [
    | inl bare ↦
        let (text, made, after) =
          bind-ok (cmd.render []) (λ (t : Text). exact_reads commands >>= λ ts. ok (t ∷ ts)) texts
            (rw bare at e) in
        let (later, others, last) =
          bind-ok (exact_reads commands) (λ (ts : List Text). ok (text ∷ ts)) texts after in
        subst (All (ExactFrom (cmd ∷ commands))) (ok-injective last)
          ((cmd, head refl, ([], tt, made)), moved later (exact_reads-From commands later others))
    | inr parameterized ↦ moved texts (exact_reads-From commands texts (rw parameterized at e))
  ]
    where
      moved : (ts : List Text) → All (ExactFrom commands) ts → All (ExactFrom (cmd ∷ commands)) ts
      moved ts h =
          All-map (ExactFrom commands) (ExactFrom (cmd ∷ commands)) ts (λ t r. (r.0, tail r.1, r.2))
            h

  matches_host_arg-Permitted :
      (commands : List CommandDef) (text : Text) (m : HostArgMatcher)
      → MatcherFrom commands m
      → matches_host_arg text m ≡ true
      → Permitted commands text
  unfolding matches_host_arg
  matches_host_arg-Permitted commands text m (cmd, known, (schema, only, accepted, (sample, made)))
        h =
      let host = drop (length m.prefix) text in
      with_host cmd known schema only m.prefix sample host made
        (starts_with-drop text m.prefix (ground arith))
        (sym (ap (λ (f : Text → Bool). f host) accepted) ∙ ground arith) (ground arith)

  with_exact-Permitted :
      (commands : List CommandDef) (exact : List Text) (built : Allowlist) (text : Text)
      → All (ExactFrom commands) exact
      → All (ExactFrom commands) built.read_exact
        × All (MatcherFrom commands) built.host_arg_matchers
      → is_allowed_read_command (with_exact exact built) text ≡ true
      → Permitted commands text
  unfolding is_allowed_read_command
  with_exact-Permitted commands exact built text reads added h =
      let rest = exact ++ built.read_exact in
      let split = contains-append session_exact rest text in
      elim (Bool-cases (contains session_exact text)) [
        | inl control ↦ session control
        | inr other ↦ elim (Bool-cases (contains rest text)) [
          | inl read ↦
              let (cmd, known, made) =
                All-contains (ExactFrom commands) rest text
                  (All-both (ExactFrom commands) exact built.read_exact reads added.0) read in
              rendered cmd known made
          | inr unread ↦
              let (m, from, matched) =
                All-any (MatcherFrom commands) (matches_host_arg text) built.host_arg_matchers
                  added.1 (ground arith) in
              matches_host_arg-Permitted commands text m from matched
        ]
      ]

  -- Every command that the allowlist permits, once it is built from the read commands, controls the
  -- session, is what one of them renders for plain arguments, or is a prefix and a host. The prefix
  -- stands before a sample host in what a read with one argument renders for that sample; what the
  -- read renders for the other host is not said.
  pub build_allowlist-Permitted :
      (commands : List CommandDef) (allow : Allowlist)
      → build_allowlist accepts commands ≡ ok allow
      → (text : Text) → is_allowed_read_command allow text ≡ true
      → Permitted commands text
  unfolding build_allowlist
  build_allowlist-Permitted commands allow e text h =
      let (exact, reads, after) =
        bind-ok (exact_reads commands)
          (λ (x : List Text). build_host_arg_matchers accepts commands >>= λ b. ok (with_exact x b))
          allow e in
      let (built, made, last) =
        bind-ok (build_host_arg_matchers accepts commands)
          (λ (b : Allowlist). ok (with_exact exact b)) allow after in
      with_exact-Permitted commands exact built text (exact_reads-From commands exact reads)
        (build_host_arg_matchers-From commands built made)
        (ap (λ (x : Allowlist). is_allowed_read_command x text) (ok-injective last) ∙ h)
