-- ===== src/Transport/Tests.antt =====
-- A transport over a library that always answers (src/ssh/ssh-client-transport.ts).
use vigor3912s_mcp.Common.{◌≡◌, refl, List, [], ◌∷◌, lit, is_ok, is_some}
use vigor3912s_mcp.Transport.{SshClient, ExecutionLimits, gave, new_transport, send, close}
use vigor3912s_mcp.Transport.Closing.{
  Method, ensures_connected, sends, closes, run, acts, run-close_silent, send-timing,
}

abbrev answering : SshClient
answering = record {
  on_connect = λ calls. gave tt;
  on_execute = λ calls command limits.
      gave
        (record { stdout = command; timing = record { send_at = 3; recv_at = 5; connect_ms = 1 } });
}

abbrev limits : ExecutionLimits
limits = record { command_timeout_ms = 1000; idle_timeout_ms = 100; max_output_bytes = 4096 }

abbrev later_calls : List Method
later_calls =
    sends (lit "show lan") limits
    ∷ ensures_connected
    ∷ closes (lit "sdk_failure")
    ∷ sends (lit "sys reboot") limits
    ∷ []

run-close_silent_example :
    acts
      (run answering later_calls (
        close
          (lit "mcp_disconnect")
          (send answering (lit "show lan") limits new_transport).1)).calls
    ≡ acts (send answering (lit "show lan") limits new_transport).1.calls
run-close_silent_example =
    run-close_silent answering later_calls (send answering (lit "show lan") limits new_transport).1

send-timing_example :
    is_ok (send answering (lit "show lan") limits new_transport).0
    ≡ is_some (send answering (lit "show lan") limits new_transport).1.last_command_timing
send-timing_example = send-timing answering (lit "show lan") limits new_transport refl
