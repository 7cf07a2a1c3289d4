-- ===== src/Gate/Prune.antt =====
-- `prune` and `persist` (src/tools/confirm-gate.ts): what they leave in the two maps.
use vigor3912s_mcp.Common.{
  ℕ, ◌≤◌, not, ◌≡◌, refl, ◌⊎◌, Option, none, some, List, arith, Text, text_key, lookup,
  lookup-keep-none, lookup-keep-some, length, length-keep-le, keep, keep_idem,
}
use vigor3912s_mcp.Gate.{
  ConfirmGate, WriteIntent, Call, Disk, no_folder, no_write, written, expired, forgotten,
  drop_expired, write_file, prune_then, persist_to, persist, prune, PendingIntentView,
}

abbrev pub live_intents : ℕ → List (Text × WriteIntent) → List (Text × WriteIntent)
live_intents now = keep (λ e. not (expired now e))

abbrev pub live_used : ℕ → List (Text × ℕ) → List (Text × ℕ)
live_used now = keep (λ e. not (forgotten now e))

module _ {PublicKey : Type 0} where
  -- `h` has the settings of `g`, and both maps or neither lost their stale entries.
  pub record Settles (now : ℕ) (g h : ConfirmGate PublicKey) : Type 0 where
    pub ttl_ms : h.ttl_ms ≡ g.ttl_ms
    pub max_pending : h.max_pending ≡ g.max_pending
    pub approve_public_key : h.approve_public_key ≡ g.approve_public_key
    pub maps :
        ((h.intents ≡ g.intents) × (h.used ≡ g.used))
        ⊎ ((h.intents ≡ live_intents now g.intents) × (h.used ≡ live_used now g.used))

  persist_to-Settles :
      (f : Option (List PendingIntentView)) (c : Call) (d : Disk) (g : ConfirmGate PublicKey)
      → c.disk ≡ d
      → Settles c.now g (persist_to f c g)
  unfolding persist_to write_file prune_then drop_expired
  persist_to-Settles none c d g e = ground arith
  persist_to-Settles (some content) c no_folder g e = rw e (ground arith)
  persist_to-Settles (some content) c no_write g e = rw e (ground arith)
  persist_to-Settles (some content) c written g e = rw e (ground arith)

  pub persist-Settles : (c : Call) (g : ConfirmGate PublicKey) → Settles c.now g (persist c g)
  unfolding persist
  persist-Settles c g = persist_to-Settles g.pending_file c c.disk g refl

  module _ (c : Call) (g : ConfirmGate PublicKey) where
    pub prune-intents : (prune c g).intents ≡ live_intents c.now g.intents
    unfolding prune drop_expired
    prune-intents = ground (
      arith,
      persist-Settles c (drop_expired c.now g),
      keep_idem (λ e. not (expired c.now e)) g.intents,
    )

    pub prune-used : (prune c g).used ≡ live_used c.now g.used
    unfolding prune drop_expired
    prune-used = ground (
      arith,
      persist-Settles c (drop_expired c.now g),
      keep_idem (λ e. not (forgotten c.now e)) g.used,
    )

    pub prune-settings :
        ((prune c g).ttl_ms ≡ g.ttl_ms)
        × ((prune c g).max_pending ≡ g.max_pending)
        × ((prune c g).approve_public_key ≡ g.approve_public_key)
    unfolding prune drop_expired
    prune-settings = ground (arith, persist-Settles c (drop_expired c.now g))

    -- What `persist` keeps or loses, key by key.
    pub persist-intents_none :
        (id : Text) → lookup id g.intents ≡ none → lookup id (persist c g).intents ≡ none
    persist-intents_none id h =
        ground
          (arith, persist-Settles c g, lookup-keep-none (λ e. not (expired c.now e)) id g.intents)

    pub persist-intents_some :
        (id : Text) (i : WriteIntent)
        → lookup id g.intents ≡ some i
        → c.now ≤ i.expires_at
        → lookup id (persist c g).intents ≡ some i
    persist-intents_some id i h live =
        ground
          (arith, persist-Settles c g, lookup-keep-some (λ e. not (expired c.now e)) id i g.intents)

    pub persist-used_none :
        (id : Text) → lookup id g.used ≡ none → lookup id (persist c g).used ≡ none
    persist-used_none id h =
        ground
          (arith, persist-Settles c g, lookup-keep-none (λ e. not (forgotten c.now e)) id g.used)

    pub persist-used_some :
        (id : Text) (expiry : ℕ)
        → lookup id g.used ≡ some expiry
        → c.now ≤ expiry
        → lookup id (persist c g).used ≡ some expiry
    persist-used_some id expiry h live = ground (
      arith,
      persist-Settles c g,
      lookup-keep-some (λ e. not (forgotten c.now e)) id expiry g.used,
    )

    pub length-persist-intents : length (persist c g).intents ≤ length g.intents
    length-persist-intents =
        ground (arith, persist-Settles c g, length-keep-le (λ e. not (expired c.now e)) g.intents)
