-- ===== src/Transport/Closing.antt =====
-- What a history of calls on the transport of src/ssh/ssh-client-transport.ts does.
use vigor3912s_mcp.Common.{
  ◌≡◌, refl, sym, ap, ◌∙◌, true, false, List, [], ◌∷◌, Text, lit, text_eq, if◌then◌else◌, Result,
  err, Bool-cases, inl, inr, ℕ, suc, is_ok, is_some,
}
use vigor3912s_mcp.Transport.{
  Transport, SshClient, SshCall, disconnects, connects, executes, ExecutionLimits, ExecResult,
  Outcome, gave, raised, ensure_connected, connected, sent, executed, send, close, transport_closed,
  called,
}

pub data Method : Type 0 where
  ensures_connected : Method
  sends : Text → ExecutionLimits → Method
  closes : Text → Method

-- How many calls of the library reach for the router.
abbrev pub acts : List SshCall → ℕ
acts [] = 0
acts (disconnects ∷ calls) = acts calls
acts (c ∷ calls) = suc (acts calls)

module _ (ssh : SshClient) where
  unfoldable pub step : Method → Transport → Transport
  unfolding ensure_connected send close
  step ensures_connected t = (ensure_connected ssh t).1
  step (sends command limits) t = (send ssh command limits t).1
  step (closes reason) t = close reason t

  unfoldable pub run : List Method → Transport → Transport
  unfolding step
  run [] t = t
  run (m ∷ methods) t = run methods (step m t)

  ensure_connected-closed :
      (t : Transport) → t.is_open ≡ false → ensure_connected ssh t ≡ (err transport_closed, t)
  unfolding ensure_connected
  ensure_connected-closed t h =
      ap
        (λ b.
          if b
          then connected ssh (ssh.on_connect t.calls) (called connects t)
          else (err transport_closed, t))
        h

  send-closed :
      (command : Text) (limits : ExecutionLimits) (t : Transport)
      → t.is_open ≡ false
      → send ssh command limits t ≡ (err transport_closed, t)
  unfolding send
  send-closed command limits t h =
      ap
        (λ b.
          if b
          then sent ssh (ssh.on_connect t.calls) command limits (called connects t)
          else (err transport_closed, t))
        h

  send-open :
      (command : Text) (limits : ExecutionLimits) (t : Transport)
      → t.is_open ≡ true
      → send ssh command limits t
        ≡ sent ssh (ssh.on_connect t.calls) command limits (called connects t)
  unfolding send
  send-open command limits t h =
      ap
        (λ b.
          if b
          then sent ssh (ssh.on_connect t.calls) command limits (called connects t)
          else (err transport_closed, t))
        h

  step-closed :
      (m : Method) (t : Transport)
      → t.is_open ≡ false
      → ((step m t).is_open ≡ false) × (acts (step m t).calls ≡ acts t.calls)
  unfolding step
  step-closed ensures_connected t h =
      let same : ensure_connected ssh t ≡ (err transport_closed, t) = ensure_connected-closed t h in
      (
        ap (λ (r : Result (Unit {0}) × Transport). r.1.is_open) same ∙ h,
        ap (λ (r : Result (Unit {0}) × Transport). acts r.1.calls) same,
      )
  step-closed (sends command limits) t h =
      let same : send ssh command limits t ≡ (err transport_closed, t) =
        send-closed command limits t h in
      (
        ap (λ (r : Result Text × Transport). r.1.is_open) same ∙ h,
        ap (λ (r : Result Text × Transport). acts r.1.calls) same,
      )
  step-closed (closes reason) t h = elim (Bool-cases (text_eq reason (lit "mcp_disconnect"))) [
    | inl last ↦ rw last (refl, refl)
    | inr other_reason ↦ rw other_reason (h, refl)
  ]

  run-closed :
      (methods : List Method) (t : Transport)
      → t.is_open ≡ false
      → acts (run methods t).calls ≡ acts t.calls
  unfolding run
  run-closed [] t h = refl
  run-closed (m ∷ methods) t h =
      let (still, same) = step-closed m t h in run-closed methods (step m t) still ∙ same

  -- After `close('mcp_disconnect')` no later call connects to the router or executes a command on it.
  pub run-close_silent :
      (methods : List Method) (t : Transport)
      → acts (run methods (close (lit "mcp_disconnect") t)).calls ≡ acts t.calls
  unfolding close text_eq lit
  run-close_silent methods t = run-closed methods (close (lit "mcp_disconnect") t) refl

  executed-timing :
      (o : Outcome ExecResult) (t : Transport)
      → is_ok (executed ssh o t).0 ≡ is_some (executed ssh o t).1.last_command_timing
  unfolding executed
  executed-timing (gave r) t = refl
  executed-timing (raised e) t = refl

  sent-timing :
      (o : Outcome (Unit {0})) (command : Text) (limits : ExecutionLimits) (t : Transport)
      → is_ok (sent ssh o command limits t).0
        ≡ is_some (sent ssh o command limits t).1.last_command_timing
  unfolding sent
  sent-timing (raised e) command limits t = refl
  sent-timing (gave u) command limits t =
      executed-timing (ssh.on_execute t.calls command limits) (called (executes command limits) t)

  -- An open transport has a timing after a frame exactly if the frame was answered.
  pub send-timing :
      (command : Text) (limits : ExecutionLimits) (t : Transport)
      → t.is_open ≡ true
      → is_ok (send ssh command limits t).0
        ≡ is_some (send ssh command limits t).1.last_command_timing
  send-timing command limits t h =
      let same = send-open command limits t h in
      ap (λ (r : Result Text × Transport). is_ok r.0) same
      ∙ sent-timing (ssh.on_connect t.calls) command limits (called connects t)
      ∙ sym (ap (λ (r : Result Text × Transport). is_some r.1.last_command_timing) same)
