-- ===== src/Channel/Delivery.antt =====
-- Deliveries that were seen (`is_duplicate_delivery` and `track_delivery_id` of
-- apps/kelvin-gateway/src/channels.rs).
pub mod Seen
use kelvinclaw.Prelude.{
  ℕ, Bool, true, false, Option, none, some, List, [], ◌∷◌, ◌++◌, leb, if◌then◌else◌, length,
}
use kelvinclaw.Prelude.Text.{Text}
use kelvinclaw.Prelude.Map.{contains, add, delete}
use kelvinclaw.Prelude.Exec.{◌>>=◌, ◌>>◌}
use kelvinclaw.Channel.Types.{TextChannelAdapter, ChannelMetrics}
use kelvinclaw.Channel.World.{Channel, Script, World, now_ms, update}

unfoldable pub is_duplicate_delivery : TextChannelAdapter → Text → Bool
is_duplicate_delivery a delivery_id = contains a.seen_delivery_ids delivery_id

-- `while order.len() > max { order.pop_front() … }`: the ids and the order that are left
unfoldable pub evict : ℕ → List Text → List Text → List Text × List Text
evict max_len ids [] = (ids, [])
evict max_len ids (t ∷ order) =
    let rest = evict max_len (delete t ids) order in
    if leb (length (t ∷ order)) max_len then (ids, t ∷ order) else rest

-- The ids and their order with one more delivery.
unfoldable pub track : ℕ → Text → List Text → List Text → List Text × List Text
unfolding evict
track max_len t ids order =
    if contains ids t then evict max_len ids order else evict max_len (add t ids) (order ++ t ∷ [])

unfoldable pub tracked : Text → ℕ → TextChannelAdapter → TextChannelAdapter
unfolding track
tracked t now a =
    let r =
      track a.config.policy.max_seen_delivery_ids t a.seen_delivery_ids a.seen_delivery_order in
    record a {
      seen_delivery_ids = r.0;
      seen_delivery_order = r.1;
      metrics = record (a.metrics) { last_delivery_at_ms = some now };
    }

module _ (script : Script) where
  unfoldable pub track_delivery_id : Text → Channel (Unit {0})
  unfolding tracked
  track_delivery_id delivery_id = do now ← now_ms script; update (tracked delivery_id now)
