-- ===== src/Channel/Ingest/Queue.antt =====
-- The bound of the inbox and the messages that were handled before.
use kelvinclaw.Prelude.{
  Bool, true, false, ◌≡◌, ◌≤◌, ◌<◌, refl, ◌∙◌, arith, List, [], ◌∷◌, if◌then◌else◌, length,
  length-append, leb,
}
use kelvinclaw.Prelude.Error.{KelvinResult, ok, err}
use kelvinclaw.Prelude.Exec.{◌>>◌, and_then, pure, lift}
use kelvinclaw.Prelude.Json.{Json, object, field, nil, name, text}
use kelvinclaw.Channel.Types.{ChannelEnvelope, SlashCommandMeta, QueuedEnvelope}
use kelvinclaw.Channel.World.{Channel, Script, World, persist_state, count, update}
use kelvinclaw.Channel.World.Counts.{
  Counted, OnlyCounts, OnlyCounts-bind, count-OnlyCounts, persist_state-OnlyCounts,
}
use kelvinclaw.Channel.Routing.{RouteRule}
use kelvinclaw.Channel.Inbox.{process_inbox}
use kelvinclaw.Channel.Inbox.Drains.{Fewer, Fewer-Counted, process_inbox-Fewer}
use kelvinclaw.Channel.Delivery.{is_duplicate_delivery}
use kelvinclaw.Channel.Policy.{verify_ingress_auth}
use kelvinclaw.Channel.Envelope.{normalize_envelope}
use kelvinclaw.Channel.Ingest.{
  reject_full, rejected_metric, queued_metric, push_back, accept, enqueue, dedupe, ingest,
  ingest_new, clear_token, deduped_metric, ingest_metric,
}

-- The inbox holds no more than the policy allows.
abbrev pub WithinDepth : World → Type 0
WithinDepth w = length w.adapter.inbox ≤ w.adapter.config.policy.max_queue_depth

Fewer-WithinDepth : (w v : World) → Fewer w v → WithinDepth w → WithinDepth v
Fewer-WithinDepth w v (c, s, l) h = rw c (omega arith)

-- A message is pushed onto the inbox, and counted.
abbrev pushed : QueuedEnvelope → World → World
unfolding count update queued_metric push_back
pushed entry w = (update (push_back entry) (count queued_metric w).1).1

abbrev counted : World → World
unfolding count
counted w = (count ingest_metric w).1

-- No run, no message, and the same inbox and seen deliveries.
abbrev pub Untouched : World → World → Type 0
Untouched w v =
    (v.runs ≡ w.runs)
    × (v.sent ≡ w.sent)
    × (v.adapter.inbox ≡ w.adapter.inbox)
    × (v.adapter.seen_delivery_ids ≡ w.adapter.seen_delivery_ids)

Untouched-then :
    (r : KelvinResult (Unit {0})) (v : World) (k : Channel Json) (w : World)
    → Untouched w v
    → Untouched v (k v).1
    → Untouched w (and_then (r, v) (λ _. k)).1
Untouched-then (ok u) v k w (a, b, c, d) (a', b', c', d') = (a' ∙ a, b' ∙ b, c' ∙ c, d' ∙ d)
Untouched-then (err e) v k w h h' = h

-- The envelope of a message that was seen before, as `ingest` sees it after its checks.
abbrev pub IsRedelivery : World → ChannelEnvelope → ChannelEnvelope → Type 0
IsRedelivery w envelope e =
    (normalize_envelope w.adapter.config.policy envelope ≡ ok e)
    × (is_duplicate_delivery w.adapter e.delivery_id ≡ true)

module _ (script : Script) (routing : List RouteRule) (commands : List SlashCommandMeta) where
  accept-WithinDepth :
      (entry : QueuedEnvelope) (w : World)
      → length w.adapter.inbox < w.adapter.config.policy.max_queue_depth
      → WithinDepth (accept script routing commands entry w).1
  unfolding accept count update push_back
  accept-WithinDepth entry w room =
      go (persist_state script (pushed entry w)) (persist_state-OnlyCounts script (pushed entry w))
    where
      fits : WithinDepth (pushed entry w)
      fits = omega (arith, length-append w.adapter.inbox (entry ∷ []))

      go :
          (r : KelvinResult (Unit {0}) × World)
          → Counted (pushed entry w) r.1
          → WithinDepth (and_then r (λ _. process_inbox script entry.envelope.delivery_id)).1
      go (ok u, v) h =
          Fewer-WithinDepth v (process_inbox script entry.envelope.delivery_id v).1
            (process_inbox-Fewer script entry.envelope.delivery_id v)
            (Fewer-WithinDepth (pushed entry w) v (Fewer-Counted (pushed entry w) v h) fits)
      go (err x, v) h =
          Fewer-WithinDepth (pushed entry w) v (Fewer-Counted (pushed entry w) v h) fits

  reject_full-OnlyCounts : OnlyCounts (reject_full script routing commands)
  unfolding reject_full
  reject_full-OnlyCounts =
      OnlyCounts-bind (count rejected_metric) _ (count-OnlyCounts rejected_metric) λ _.
        OnlyCounts-bind (persist_state script) _ (persist_state-OnlyCounts script) (λ _ w m. refl)

  -- Queueing a message keeps an inbox that is within the queue depth of the policy within it,
  -- whether the message is handled, queued or refused and whatever fails on the way.
  pub enqueue-WithinDepth :
      (entry : QueuedEnvelope) (w : World)
      → WithinDepth w
      → WithinDepth (enqueue script routing commands entry w).1
  unfolding enqueue
  enqueue-WithinDepth entry w h =
      go (leb w.adapter.config.policy.max_queue_depth (length w.adapter.inbox)) refl
    where
      go :
          (full : Bool)
          → leb w.adapter.config.policy.max_queue_depth (length w.adapter.inbox) ≡ full
          → WithinDepth
              (if full
                then reject_full script routing commands w
                else accept script routing commands entry w).1
      go true q =
          Fewer-WithinDepth w (reject_full script routing commands w).1
            (Fewer-Counted w (reject_full script routing commands w).1 (reject_full-OnlyCounts w)) h
      go false q = accept-WithinDepth entry w (ground arith)

  dedupe-Untouched :
      (e : ChannelEnvelope) (w : World)
      → is_duplicate_delivery w.adapter e.delivery_id ≡ true
      → Untouched w (dedupe script routing commands e w).1
  unfolding dedupe count
  dedupe-Untouched e w d = go (is_duplicate_delivery w.adapter e.delivery_id) d
    where
      go :
          (b : Bool)
          → b ≡ true
          → Untouched w
              (if b
                then (count deduped_metric
                      >> pure (
                          object (
                            field "status"
                              (name "deduped")
                              (field "delivery_id" (text e.delivery_id) nil))))
                    w
                else ingest_new script routing commands e w).1
      go true q = (refl, refl, refl, refl)
      go false q = cc

  -- A message that normalizes to one whose delivery was seen before is not handled again: no run
  -- is submitted, nothing is sent, and the inbox and the seen deliveries stay as they are.
  pub ingest-once :
      (w : World) (envelope e : ChannelEnvelope)
      → IsRedelivery w envelope e
      → Untouched w (ingest script routing commands envelope w).1
  unfolding ingest count is_duplicate_delivery clear_token
  ingest-once w envelope e (n, d) = go (normalize_envelope w.adapter.config.policy envelope) n
    where
      go :
          (r : KelvinResult ChannelEnvelope)
          → r ≡ ok e
          → Untouched w
              (and_then
                (r, counted w)
                (λ x.
                  lift (verify_ingress_auth (counted w).adapter x)
                  >> dedupe script routing commands (clear_token x))).1
      go (err x) q = cc
      go (ok x) q =
          let same : x ≡ e = cc q in
          Untouched-then (verify_ingress_auth (counted w).adapter x) (counted w)
            (dedupe script routing commands (clear_token x)) w (refl, refl, refl, refl)
            (dedupe-Untouched (clear_token x) (counted w) (rw same d))
