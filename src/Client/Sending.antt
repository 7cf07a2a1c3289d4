-- ===== src/Client/Sending.antt =====
-- What one call of the client (src/ssh/sdk-vigor-client.ts) sends to the router.
use vigor3912s_mcp.Common.{
  String, Bool, true, false, ◌≡◌, refl, ap, ◌⊎◌, inl, inr, Option, none, some, List, [], ◌∷◌, ◌++◌,
  arith, Text, lit, text_key, string_key, ◌==◌, text_eq_iff, eq_iff, join, Result, ok, err,
  Bool-cases,
}
use vigor3912s_mcp.Values.{Value}
use vigor3912s_mcp.Forbidden.{is_forbidden}
use vigor3912s_mcp.Client.{
  Operation, Sent, raw, typed, Exchange, Sdk, Allowlist, Client, settle, exec, format_invoke_result,
  invoke_operation, run_command, run_write_command, run_operation, run_write_operation,
  is_allowed_read_command, is_authorized, operation_for, render_frames, forbidden_frame,
  send_frames, read_frames, read_with, write_frames, write_with,
}

-- The parts of the client that a sent command leaves alone.
pub record SameGuards (c d : Client) : Type 0 where
  pub write_authorized : d.write_authorized ≡ c.write_authorized
  pub closed : d.closed ≡ c.closed
  pub read_only : d.read_only ≡ c.read_only

pub guards_refl : (c : Client) → SameGuards c c
guards_refl c = record { write_authorized = refl; closed = refl; read_only = refl }

settle_lem :
    {A : Type 0} (format : A → Text) (c : Client) (x : Exchange A)
    → SameGuards c (settle format c x).1 × ((settle format c x).1.sent ≡ c.sent)
unfolding settle
settle_lem format c x = ground arith

-- The client with its authorization spent.
abbrev pub spent : Client → Client
spent c = record c { write_authorized = none }

-- What a call leaves of the guards: a write call spends the authorization.
abbrev pub guards_after : Bool → Client → Client
guards_after true c = spent c
guards_after false c = c

module _ (sdk : Sdk) where
  exec_lem :
      (command : Text) (c : Client)
      → SameGuards c (exec sdk command c).1
        × ((exec sdk command c).1.sent ≡ c.sent ++ raw command ∷ [])
  unfolding exec
  exec_lem command c =
      let (g, e) =
        settle_lem (λ s. s) (record c { sent = c.sent ++ raw command ∷ [] })
          (sdk.execute c.sent command) in
      (
        record {
          write_authorized = g.write_authorized;
          closed = g.closed;
          read_only = g.read_only;
        },
        e,
      )

  invoke_lem :
      (op : Operation) (input : Value) (c : Client)
      → SameGuards c (invoke_operation sdk op input c).1
        × ((invoke_operation sdk op input c).1.sent ≡ c.sent ++ typed op input ∷ [])
  unfolding invoke_operation
  invoke_lem op input c =
      let (g, e) =
        settle_lem (format_invoke_result sdk) (record c { sent = c.sent ++ typed op input ∷ [] })
          (sdk.invoke c.sent op input) in
      (
        record {
          write_authorized = g.write_authorized;
          closed = g.closed;
          read_only = g.read_only;
        },
        e,
      )

  -- The text that a sent item puts on the wire, as the SDK renders it for the approval.
  pub data Renders : Sent → Text → Type 0 where
    as_raw : (command : Text) → Renders (raw command) command
    as_frames :
        (op : Operation) (input : Value) (frames : List Text) (command : Text)
        → render_frames sdk op input ≡ ok frames
        → command ≡ join (lit "\n") frames
        → Renders (typed op input) command

  -- No forbidden command is in it.
  pub data IsHarmless : Sent → Type 0 where
    raw_harmless : (command : Text) → is_forbidden command ≡ false → IsHarmless (raw command)
    frames_harmless :
        (op : Operation) (input : Value) (frames : List Text)
        → render_frames sdk op input ≡ ok frames
        → forbidden_frame sdk frames ≡ none
        → IsHarmless (typed op input)

  module _ (allow : Allowlist) where
    -- It only reads: an allowlisted command, or an operation that the SDK classifies as a read.
    pub data IsRead : Sent → Type 0 where
      raw_read :
          (command : Text) → is_allowed_read_command allow command ≡ true → IsRead (raw command)
      operation_read :
          (op : Operation) (input : Value) → op.classification ≡ "read" → IsRead (typed op input)

    -- What a call may do: send nothing, send a read, or send the write that is authorized. A
    -- write call leaves no authorization; the other guards stay.
    pub data Sends (c : Client) (is_write : Bool) (d : Client) : Type 0 where
      nothing : SameGuards (guards_after is_write c) d → d.sent ≡ c.sent → Sends c is_write d
      reading :
          (s : Sent)
          → SameGuards (guards_after is_write c) d
          → d.sent ≡ c.sent ++ s ∷ []
          → IsHarmless s
          → IsRead s
          → is_write ≡ false
          → c.closed ≡ false
          → Sends c is_write d
      writing :
          (s : Sent) (command : Text)
          → SameGuards (guards_after is_write c) d
          → d.sent ≡ c.sent ++ s ∷ []
          → IsHarmless s
          → Renders s command
          → is_write ≡ true
          → c.write_authorized ≡ some command
          → c.read_only ≡ false
          → c.closed ≡ false
          → Sends c is_write d

    run_command_cases :
        (command : Text) (c : Client)
        → ((run_command sdk allow command c).1 ≡ c)
          ⊎ ((run_command sdk allow command c ≡ exec sdk command c)
              × (is_allowed_read_command allow command ≡ true)
              × (is_forbidden command ≡ false)
              × (c.closed ≡ false))
    unfolding run_command
    run_command_cases command c = ground arith

    pub run_command-Sends :
        (command : Text) (c : Client) → Sends c false (run_command sdk allow command c).1
    run_command-Sends command c = elim (run_command_cases command c) [
      | inl same ↦ rw same (nothing (guards_refl _) refl)
      | inr (sent, allowed, fine, live) ↦ rw sent (
          reading (raw command) (exec_lem command c).0 (exec_lem command c).1
            (raw_harmless command fine) (raw_read command allowed) refl live)
    ]

    is_authorized_lem :
        (o : Option Text) (command : Text) → is_authorized sdk o command ≡ true → o ≡ some command
    is_authorized_lem none command h = cc
    is_authorized_lem (some t) command h = ap some ((text_eq_iff t command).0 h)

    run_write_command_cases :
        (command : Text) (c : Client)
        → ((run_write_command sdk command c).1 ≡ spent c)
          ⊎ ((run_write_command sdk command c ≡ exec sdk command (spent c))
              × (is_authorized sdk c.write_authorized command ≡ true)
              × (is_forbidden command ≡ false)
              × (c.read_only ≡ false)
              × (c.closed ≡ false))
    unfolding run_write_command
    run_write_command_cases command c = ground arith

    pub run_write_command-Sends :
        (command : Text) (c : Client) → Sends c true (run_write_command sdk command c).1
    run_write_command-Sends command c = elim (run_write_command_cases command c) [
      | inl same ↦ rw same (nothing (guards_refl _) refl)
      | inr (e, authorized, fine, writable, live) ↦
          let sent = exec_lem command (spent c) in
          rw e (
            writing (raw command) command sent.0 sent.1 (raw_harmless command fine) (as_raw command)
              refl (is_authorized_lem c.write_authorized command authorized) writable live)
    ]

    send_frames_cases :
        (op : Operation) (input : Value) (c : Client) (o : Option Text) (refuse : Bool)
        → ((send_frames sdk op input c o refuse).1 ≡ c)
          ⊎ ((send_frames sdk op input c o refuse ≡ invoke_operation sdk op input c)
              × (o ≡ none)
              × (refuse ≡ false)
              × (c.closed ≡ false))
    unfolding send_frames
    send_frames_cases op input c (some frame) refuse = inl refl
    send_frames_cases op input c none refuse = ground arith

    read_frames-Sends :
        (op : Operation) (input : Value) (c : Client) (r : Result (List Text))
        → op.classification ≡ "read"
        → render_frames sdk op input ≡ r
        → Sends c false (read_frames sdk op input c r).1
    unfolding read_frames
    read_frames-Sends op input c (err e) is_read r = nothing (guards_refl _) refl
    read_frames-Sends op input c (ok frames) is_read r =
        elim (send_frames_cases op input c (forbidden_frame sdk frames) false) [
          | inl same ↦ rw same (nothing (guards_refl _) refl)
          | inr (e, fine, _, live) ↦ rw e (
              reading (typed op input) (invoke_lem op input c).0 (invoke_lem op input c).1
                (frames_harmless op input frames r fine) (operation_read op input is_read) refl
                live)
        ]

    pub run_operation-Sends :
        (manifest_id : String) (input : Value) (c : Client)
        → Sends c false (run_operation sdk manifest_id input c).1
    unfolding run_operation
    run_operation-Sends manifest_id input c = go (operation_for sdk manifest_id)
      where
        go : (o : Option Operation) → Sends c false (read_with sdk manifest_id input c o).1
        go none = nothing (guards_refl _) refl
        go (some op) = elim (Bool-cases (op.classification == "read")) [
          | inl is_read ↦ rw is_read (
              read_frames-Sends op input c (render_frames sdk op input)
                ((eq_iff op.classification "read").0 is_read) refl)
          | inr other ↦ rw other (nothing (guards_refl _) refl)
        ]

    write_frames-Sends :
        (manifest_id : String) (op : Operation) (input : Value) (c : Client)
        (r : Result (List Text))
        → render_frames sdk op input ≡ r
        → Sends c true (write_frames sdk manifest_id op input (spent c) c.write_authorized r).1
    unfolding write_frames
    write_frames-Sends manifest_id op input c (err e) r = nothing (guards_refl _) refl
    write_frames-Sends manifest_id op input c (ok frames) r =
        elim (Bool-cases (is_authorized sdk c.write_authorized (join (lit "\n") frames))) [
          | inr other ↦ rw other (nothing (guards_refl _) refl)
          | inl authorized ↦
              rw authorized
                (elim (send_frames_cases op input (spent c) (forbidden_frame sdk frames)
                  c.read_only) [
                    | inl same ↦ rw same (nothing (guards_refl _) refl)
                    | inr (e, fine, writable, live) ↦
                        let sent = invoke_lem op input (spent c) in
                        rw e (
                          writing (typed op input) (join (lit "\n") frames) sent.0 sent.1
                            (frames_harmless op input frames r fine)
                            (as_frames op input frames _ r refl) refl
                            (is_authorized_lem c.write_authorized (join (lit "\n") frames)
                              authorized)
                            writable live)
                  ])
        ]

    pub run_write_operation-Sends :
        (manifest_id : String) (input : Value) (c : Client)
        → Sends c true (run_write_operation sdk manifest_id input c).1
    unfolding run_write_operation
    run_write_operation-Sends manifest_id input c = go (operation_for sdk manifest_id)
      where
        go :
            (o : Option Operation)
            → Sends c true (write_with sdk manifest_id input (spent c) c.write_authorized o).1
        go none = nothing (guards_refl _) refl
        go (some op) = elim (Bool-cases (op.classification == "read")) [
          | inl is_read ↦ rw is_read (nothing (guards_refl _) refl)
          | inr other ↦
              rw other (write_frames-Sends manifest_id op input c (render_frames sdk op input) refl)
        ]
