-- ===== src/Executor/Safety.antt =====
-- What a write tool call (src/commands/write-executor.ts) may send to the router, and when.
use vigor3912s_mcp.Common.{
  String, true, false, not, ◌&&◌, ◌≡◌, refl, sym, ap, ◌∙◌, ◌⊎◌, inl, inr, Option, none, some, List,
  [], ◌∷◌, ◌++◌, Text, lit, All, append_assoc, append-nil, Result, ok, err, Bool-cases, subst,
}
use vigor3912s_mcp.Values.{Value}
use vigor3912s_mcp.Registry.{
  CommandDef, CommandKind, read, write, CommandSdkBinding, resolve_sdk_input,
}
use vigor3912s_mcp.Client.{Client, Sent, authorize_write, run_write_command}
use vigor3912s_mcp.Client.Sending.{
  IsHarmless, IsRead, Renders, Sends, nothing, reading, writing, run_command-Sends,
  run_operation-Sends, run_write_command-Sends, run_write_operation-Sends,
}
use vigor3912s_mcp.Executor.{
  World, Moment, Setting, WriteContext, PerformedWrite, snapshot, snapshot_with, run_commit,
  send_write, sent_as, perform_write, written, committed, record_write, recorded, read_by, read_if,
  read_raw, read_typed, find_command, checked, commit_logged,
}

module _ {PublicKey : Type 0} (setting : Setting PublicKey) where
  open setting use {crypto, sdk, allow, commands, auto_commit}

  -- What a performed write may send: reads, the approved command, and the commit; nothing forbidden.
  abbrev pub Legit : Text → Sent → Type 0
  Legit command s =
      IsHarmless sdk s
      × (IsRead sdk allow s ⊎ Renders sdk s command ⊎ Renders sdk s (lit "sys commit"))

  -- What the client sent from `c` to `d` is legitimate.
  pub record Extends (command : Text) (c d : Client) : Type 0 where
    pub new : List Sent
    pub sent : d.sent ≡ c.sent ++ new
    pub legit : All (Legit command) new

  All-concat :
      (command : Text) (xs ys : List Sent)
      → All (Legit command) xs
      → All (Legit command) ys
      → All (Legit command) (xs ++ ys)
  All-concat command [] ys h k = k
  All-concat command (x ∷ xs) ys h k = (h.0, All-concat command xs ys h.1 k)

  Extends-refl : (command : Text) (c : Client) → Extends command c c
  Extends-refl command c = record { new = []; sent = sym (append-nil c.sent); legit = tt }

  Extends-trans :
      {command : Text} {c d e : Client}
      → Extends command c d
      → Extends command d e
      → Extends command c e
  Extends-trans {command} {c} x y = record {
    new = x.new ++ y.new;
    sent = y.sent ∙ ap (λ l. l ++ y.new) x.sent ∙ append_assoc c.sent x.new y.new;
    legit = All-concat command x.new y.new x.legit y.legit;
  }

  -- One call of the client, from a client that differs from `c` by its authorization at most.
  Sends-read-Extends :
      {command : Text} {c d : Client} → Sends sdk allow c false d → Extends command c d
  Sends-read-Extends {c} (nothing g e) = record {
    new = [];
    sent = e ∙ sym (append-nil c.sent);
    legit = tt;
  }
  Sends-read-Extends (reading s g e h is_read reads live) = record {
    new = s ∷ [];
    sent = e;
    legit = ((h, inl is_read), tt);
  }
  Sends-read-Extends (writing s text g e h renders writes authorized writable live) = cc

  Sends-write-Extends :
      {command text : Text} {c d : Client}
      → ((s : Sent) → Renders sdk s text → Renders sdk s command ⊎ Renders sdk s (lit "sys commit"))
      → Sends sdk allow (authorize_write text c) true d
      → Extends command c d
  unfolding authorize_write
  Sends-write-Extends {c} allowed (nothing g e) = record {
    new = [];
    sent = e ∙ sym (append-nil c.sent);
    legit = tt;
  }
  Sends-write-Extends allowed (reading s g e h is_read reads live) = cc
  Sends-write-Extends {command} {text} allowed
        (writing s other g e h renders writes authorized writable live) =
      record {
        new = s ∷ [];
        sent = e;
        legit = ((h, inr (allowed s (subst (Renders sdk s) (same authorized) renders))), tt);
      }
    where
      same : some text ≡ some other → other ≡ text
      same q = cc

  read_by-Extends :
      (command : Text) (cmd : CommandDef) (b : Option CommandSdkBinding) (c : Client)
      → Extends command c (read_by setting cmd b c).1
  unfolding read_by
  read_by-Extends command cmd none c = go (cmd.render [])
    where
      go : (r : Result Text) → Extends command c (read_raw setting c r).1
      go (err e) = Extends-refl command c
      go (ok text) = Sends-read-Extends (run_command-Sends sdk allow text c)
  read_by-Extends command cmd (some binding) c = go (resolve_sdk_input binding [])
    where
      go : (r : Result Value) → Extends command c (read_typed setting binding.manifest_id c r).1
      go (err e) = Extends-refl command c
      go (ok input) = Sends-read-Extends (run_operation-Sends sdk allow binding.manifest_id input c)

  read_if-Extends :
      (command : Text) (k : CommandKind) (cmd : CommandDef) (c : Client)
      → Extends command c (read_if setting k cmd c).1
  unfolding read_if
  read_if-Extends command write cmd c = Extends-refl command c
  read_if-Extends command read cmd c = read_by-Extends command cmd cmd.sdk c

  snapshot-Extends :
      (command : Text) (id : Option String) (c : Client)
      → Extends command c (snapshot setting id c).1
  unfolding snapshot
  snapshot-Extends command none c = Extends-refl command c
  snapshot-Extends command (some id) c = go (find_command setting id)
    where
      go : (o : Option CommandDef) → Extends command c (snapshot_with setting o c).1
      go none = Extends-refl command c
      go (some cmd) = read_if-Extends command cmd.kind cmd c

  sent_as-Extends :
      (ctx : WriteContext) (b : Option CommandSdkBinding) (c : Client)
      → Extends ctx.command c (sent_as setting b ctx (authorize_write ctx.command c)).1
  unfolding sent_as
  sent_as-Extends ctx none c =
      Sends-write-Extends (λ s r. inl r)
        (run_write_command-Sends sdk allow ctx.command (authorize_write ctx.command c))
  sent_as-Extends ctx (some binding) c =
      Sends-write-Extends (λ s r. inl r)
        (run_write_operation-Sends sdk allow binding.manifest_id _ (authorize_write ctx.command c))

  send_write-Extends :
      (m : Moment) (ctx : WriteContext) (c : Client)
      → Extends ctx.command c (send_write setting m ctx c).1
  unfolding send_write
  send_write-Extends m ctx c = elim (Bool-cases m.aborted_later) [
    | inl gone ↦ rw gone (Extends-refl ctx.command c)
    | inr still ↦ rw still (sent_as-Extends ctx ctx.cmd.sdk c)
  ]

  commit_logged_lem :
      (m : Moment) (w : World PublicKey) (r : Result Text)
      → ((commit_logged setting m w r).1.client ≡ w.client)
        × ((commit_logged setting m w r).1.gate ≡ w.gate)
  unfolding commit_logged
  commit_logged_lem m w (ok raw) = (refl, refl)
  commit_logged_lem m w (err e) = (refl, refl)

  -- A step of the executor behind the gate: it sends what is legitimate and leaves the gate alone.
  pub record Performs (command : Text) (w v : World PublicKey) : Type 0 where
    pub client : Extends command w.client v.client
    pub gate : v.gate ≡ w.gate

  run_commit-Performs :
      (command : Text) (m : Moment) (w : World PublicKey)
      → Performs command w (run_commit setting m w).1
  unfolding run_commit
  run_commit-Performs command m w =
      let text = lit "sys commit" in
      let (r, c) = run_write_command sdk text (authorize_write text w.client) in
      let logged =
        commit_logged_lem m (record w { client = c })
          (checked setting "router rejected commit: " none r) in
      record {
        client = subst (Extends command w.client) (sym logged.0) (
            Sends-write-Extends (λ s q. inr q)
              (run_write_command-Sends sdk allow text (authorize_write text w.client)));
        gate = logged.1;
      }

  committed-Performs :
      (m : Moment) (ctx : WriteContext) (before : Option Text) (raw_text : Text)
      (w : World PublicKey)
      → Performs ctx.command w (committed setting m ctx before raw_text w).1
  unfolding committed
  committed-Performs m ctx before raw_text w =
      let read = snapshot-Extends ctx.command ctx.cmd.snapshot_read w.client in
      let c = (snapshot setting ctx.cmd.snapshot_read w.client).1 in
      let commit = run_commit-Performs ctx.command m (record w { client = c }) in
      elim (Bool-cases (auto_commit && not ctx.cmd.skip_commit)) [
        | inl commits ↦
            rw commits (record { client = Extends-trans read commit.client; gate = commit.gate })
        | inr skips ↦ rw skips (record { client = read; gate = refl })
      ]

  written-Performs :
      (m : Moment) (ctx : WriteContext) (before : Option Text) (w : World PublicKey)
      (r : Result Text)
      → Performs ctx.command w (written setting m ctx before w r).1
  unfolding written
  written-Performs m ctx before w (err e) = record {
    client = Extends-refl ctx.command w.client;
    gate = refl;
  }
  written-Performs m ctx before w (ok text) = committed-Performs m ctx before text w

  pub perform_write-Performs :
      (m : Moment) (ctx : WriteContext) (w : World PublicKey)
      → Performs ctx.command w (perform_write setting m ctx w).1
  unfolding perform_write
  perform_write-Performs m ctx w =
      let read = snapshot-Extends ctx.command ctx.cmd.snapshot_read w.client in
      let (before, c) = snapshot setting ctx.cmd.snapshot_read w.client in
      let sent = send_write-Extends m ctx c in
      let (r, c') = send_write setting m ctx c in
      let rest = written-Performs m ctx before (record w { client = c' }) r in
      record { client = Extends-trans read (Extends-trans sent rest.client); gate = rest.gate }

  pub recorded-Performs :
      (m : Moment) (ctx : WriteContext) (w : World PublicKey)
      (x : Result PerformedWrite × World PublicKey)
      → Performs ctx.command w x.1
      → Performs ctx.command w (recorded setting m ctx x).1
  unfolding recorded record_write
  recorded-Performs m ctx w (err e, v) p = p
  recorded-Performs m ctx w (ok q, v) p = record { client = p.client; gate = p.gate }
