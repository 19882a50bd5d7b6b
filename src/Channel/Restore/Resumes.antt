-- ===== src/Channel/Restore/Resumes.antt =====
-- What a restart keeps.
use kelvinclaw.Prelude.{
  ℕ, zero, suc, ◌≤◌, true, false, ◌≡◌, refl, sym, ap, ◌∙◌, arith, none, List, [], ◌∷◌, length, take,
  Bool-cases, inl, inr, ◌||◌,
}
use kelvinclaw.Prelude.Text.{Text, text_eq, text_eq_iff}
use kelvinclaw.Prelude.Map.{lookup, contains, contains-add}
use kelvinclaw.Channel.Types.{TextChannelAdapter}
use kelvinclaw.Channel.World.{snapshot_state}
use kelvinclaw.Channel.Policy.{expire, admit, window_of}
use kelvinclaw.Channel.Delivery.{is_duplicate_delivery}
use kelvinclaw.Channel.Delivery.Seen.{SeenWindow, IsWindow}
use kelvinclaw.Channel.Restore.{trim_front, ids_of, live_windows, put_window, restored}

trim_front-short : (n : ℕ) (order : List Text) → length order ≤ n → trim_front n order ≡ order
unfolding trim_front
trim_front-short n [] h = refl
trim_front-short n (t ∷ order) h = ground arith

take-short : {A : Type 0} (n : ℕ) (xs : List A) → length xs ≤ n → take n xs ≡ xs
take-short zero [] h = refl
take-short zero (x ∷ xs) h = ground arith
take-short (suc n) [] h = refl
take-short (suc n) (x ∷ xs) h = ap (λ ys. x ∷ ys) (take-short n xs (omega arith))

contains-ids_of : (order : List Text) (t : Text) → contains (ids_of order) t ≡ contains order t
unfolding ids_of contains
contains-ids_of [] t = refl
contains-ids_of (u ∷ order) t =
    contains-add u t (ids_of order) ∙ ap (λ b. text_eq u t || b) (contains-ids_of order t)

-- Expiring now and again later is expiring later.
expire-expire :
    (now later : ℕ) (window : List ℕ)
    → now ≤ later
    → expire later (expire now window) ≡ expire later window
unfolding expire
expire-expire now later [] h = refl
expire-expire now later (ts ∷ window) h = ground (arith, expire-expire now later window h)

-- The senders of the windows are different, as in a map.
abbrev pub HasSenders : List (Text × List ℕ) → Type 0
HasSenders [] = Unit {0}
HasSenders ((s, w) ∷ ws) = (lookup s ws ≡ none) × HasSenders ws

lookup-live_windows :
    (now : ℕ) (sender_id : Text) (windows : List (Text × List ℕ))
    → lookup sender_id windows ≡ none
    → lookup sender_id (live_windows now windows) ≡ none
unfolding live_windows lookup
lookup-live_windows now sender_id [] h = refl
lookup-live_windows now sender_id ((s, w) ∷ windows) h = elim (Bool-cases (text_eq s sender_id)) [
  | inl e ↦ cc (rw e at h)
  | inr e ↦ go e (expire now w) (lookup-live_windows now sender_id windows (rw e at h))
]
  where
    go :
        text_eq s sender_id ≡ false
        → (l : List ℕ) → lookup sender_id (live_windows now windows) ≡ none
        → lookup sender_id (put_window s l (live_windows now windows)) ≡ none
    go e [] k = k
    go e (ts ∷ l) k = rw e k

window-live_windows :
    (now : ℕ) (sender_id : Text) (windows : List (Text × List ℕ))
    → HasSenders windows
    → window_of sender_id (live_windows now windows) ≡ expire now (window_of sender_id windows)
unfolding live_windows lookup window_of expire
window-live_windows now sender_id [] d = refl
window-live_windows now sender_id ((s, w) ∷ windows) d = elim (Bool-cases (text_eq s sender_id)) [
  | inl e ↦
      let same : s ≡ sender_id = (text_eq_iff s sender_id).0 e in
      let none_left =
        lookup-live_windows now sender_id windows (ap (λ k. lookup k windows) (sym same) ∙ d.0) in
      rw (e, window_of) (own e (expire now w) none_left)
  | inr e ↦
      rw (e, window_of) (other e (expire now w) (window-live_windows now sender_id windows d.1))
]
  where
    own :
        text_eq s sender_id ≡ true
        → (l : List ℕ) → lookup sender_id (live_windows now windows) ≡ none
        → window_of sender_id (put_window s l (live_windows now windows)) ≡ l
    own e [] k = rw (k, window_of) refl
    own e (ts ∷ l) k = rw (e, window_of) refl

    other :
        text_eq s sender_id ≡ false
        → (l : List ℕ)
        → window_of sender_id (live_windows now windows) ≡ expire now (window_of sender_id windows)
        → window_of sender_id (put_window s l (live_windows now windows))
          ≡ expire now (window_of sender_id windows)
    other e [] k = k
    other e (ts ∷ l) k = rw (e, window_of) k

trimmed-IsWindow :
    (n : ℕ) (ids order : List Text)
    → IsWindow n ids order
    → IsWindow n (ids_of (trim_front n order)) (trim_front n order)
trimmed-IsWindow n ids order w =
    rw (trim_front-short n order w.bounded)
      (record { agree = contains-ids_of order; nodup = w.nodup; bounded = w.bounded })

admit-same :
    (quota later : ℕ) (v w : List ℕ)
    → expire later v ≡ expire later w
    → (admit quota later v).1 ≡ (admit quota later w).1
unfolding admit
admit-same quota later v w h = rw h refl

-- What a restart keeps of a channel, at the time `now`.
pub record Resumes (now : ℕ) (a b : TextChannelAdapter) : Type 0 where
  pub duplicates : (t : Text) → is_duplicate_delivery b t ≡ is_duplicate_delivery a t
  pub window : SeenWindow b
  pub paired : b.paired_accounts ≡ a.paired_accounts
  pub codes : b.pending_pair_codes ≡ a.pending_pair_codes
  pub queued : b.inbox ≡ a.inbox
  pub limits :
      (sender_id : Text) (quota later : ℕ)
      → now ≤ later
      → (admit quota later (window_of sender_id b.rate_windows)).1
        ≡ (admit quota later (window_of sender_id a.rate_windows)).1

-- A channel whose seen deliveries are a window within their bound, whose inbox is within its
-- depth and whose rate windows are of different senders, and that is restored from its saved
-- state with the same configuration, knows the same deliveries, pairings, codes and queued
-- messages as before; and from then on its rate limit gives every sender the answer that it would
-- have given without the restart.
pub restored-Resumes :
    (now : ℕ) (a fresh : TextChannelAdapter)
    → fresh.config ≡ a.config
    → SeenWindow a
    → length a.inbox ≤ a.config.policy.max_queue_depth
    → HasSenders a.rate_windows
    → Resumes now a (restored now (snapshot_state a) fresh)
unfolding restored snapshot_state is_duplicate_delivery
restored-Resumes now a fresh c w l d =
    let order : trim_front fresh.config.policy.max_seen_delivery_ids a.seen_delivery_order
        ≡ a.seen_delivery_order =
      rw c
        (trim_front-short a.config.policy.max_seen_delivery_ids a.seen_delivery_order w.bounded) in
    record {
      duplicates = λ t. rw order (contains-ids_of a.seen_delivery_order t ∙ sym (w.agree t));
      window = rw c (
          trimmed-IsWindow a.config.policy.max_seen_delivery_ids a.seen_delivery_ids
            a.seen_delivery_order w);
      paired = refl;
      codes = refl;
      queued = rw c (take-short a.config.policy.max_queue_depth a.inbox l);
      limits = λ sender_id quota later h.
          admit-same quota later (window_of sender_id (live_windows now a.rate_windows))
            (window_of sender_id a.rate_windows)
            (ap (expire later) (window-live_windows now sender_id a.rate_windows d)
              ∙ expire-expire now later (window_of sender_id a.rate_windows) h);
    }
