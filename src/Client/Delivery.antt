-- ===== src/Client/Delivery.antt =====
-- When an authorized write reaches the router (src/ssh/sdk-vigor-client.ts).
use vigor3912s_mcp.Common.{
  String, false, ◌≡◌, refl, ◌⊎◌, inl, inr, Option, none, some, List, ◌++◌, Text, lit, join, arith,
  ◌==◌, string_key, text_key, Result, ok, err, lookup, invalid, text_eq_refl,
}
use vigor3912s_mcp.Values.{Value}
use vigor3912s_mcp.Client.{
  Operation, Sdk, Client, refused, authorize_write, render_frames, forbidden_frame,
  invoke_operation, run_write_operation, write_with, write_frames, send_frames,
}
use vigor3912s_mcp.Client.Sending.{spent}

module _ (sdk : Sdk) (manifest_id : String) (op : Operation) (input : Value) (frames : List Text)
    (c : Client) where
  -- What a write call answers whose authorization fits: the SDK's answer, unless a frame is
  -- forbidden.
  pub Delivered : Result Text × Client → Type 0
  Delivered r =
      ((forbidden_frame sdk frames ≡ none) × (r ≡ invoke_operation sdk op input (spent c)))
      ⊎ ((frame : Text) × (forbidden_frame sdk frames ≡ some frame)
          × (r ≡ (
            err (refused invalid (lit "command is forbidden and was refused: " ++ frame)),
            spent c,
          )))

  send_frames-Delivered :
      (o : Option Text)
      → forbidden_frame sdk frames ≡ o
      → c.read_only ≡ false
      → c.closed ≡ false
      → Delivered (send_frames sdk op input (spent c) o c.read_only)
  unfolding Delivered send_frames
  send_frames-Delivered (some frame) o writable live = inr (frame, o, refl)
  send_frames-Delivered none o writable live = inl (o, simp (writable, live))

  render_frames-ok : op.build_frames input ≡ ok frames → render_frames sdk op input ≡ ok frames
  unfolding render_frames
  render_frames-ok renders = ground arith

  write_frames-Delivered :
      c.read_only ≡ false
      → c.closed ≡ false
      → Delivered (
          write_frames sdk manifest_id op input
            (spent c)
            (some (join (lit "\n") frames))
            (ok frames))
  unfolding write_frames
  write_frames-Delivered writable live =
      rw (text_eq_refl (join (lit "\n") frames))
        (send_frames-Delivered (forbidden_frame sdk frames) refl writable live)

  -- On an open client that may write, a typed write whose frames are exactly the authorized text is
  -- never refused as unconfirmed: it reaches the SDK, or one of its frames is forbidden.
  pub run_write_operation-Delivered :
      lookup manifest_id sdk.operations ≡ some op
      → (op.classification == "read") ≡ false
      → op.build_frames input ≡ ok frames
      → c.read_only ≡ false
      → c.closed ≡ false
      → Delivered
          (run_write_operation sdk manifest_id input (authorize_write (join (lit "\n") frames) c))
  unfolding run_write_operation write_with authorize_write
  run_write_operation-Delivered found writes renders writable live =
      simp (found, writes, render_frames-ok renders) (write_frames-Delivered writable live)
