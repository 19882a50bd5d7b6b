-- ===== src/Channel/Delivery/Seen.antt =====
-- The set of seen deliveries is a bounded window of the last ones.
use kelvinclaw.Prelude.{
  ℕ, zero, suc, ◌+◌, ◌-◌, ◌≤◌, ◌<◌, true, false, ◌≡◌, refl, arith, List, [], ◌∷◌, ◌++◌, leb, length,
  length-append, drop, Bool-cases, inl, inr, sym, ◌∙◌,
}
use kelvinclaw.Prelude.Text.{Text, text_eq_iff, text_eq_refl}
use kelvinclaw.Prelude.Map.{contains, add, delete, contains-add, contains-delete, contains-append}
use kelvinclaw.Channel.Types.{TextChannelAdapter}
use kelvinclaw.Channel.Delivery.{is_duplicate_delivery, evict, track, tracked}

abbrev IsNodup : List Text → Type 0
IsNodup [] = Unit {0}
IsNodup (t ∷ ts) = (contains ts t ≡ false) × IsNodup ts

-- The set and the queue hold the same ids, each of them once, and not more than `max_len`.
pub record IsWindow (max_len : ℕ) (ids order : List Text) : Type 0 where
  pub agree : (t : Text) → contains ids t ≡ contains order t
  pub nodup : IsNodup order
  pub bounded : length order ≤ max_len

IsNodup-append_one :
    (t : Text) (order : List Text)
    → contains order t ≡ false
    → IsNodup order
    → IsNodup (order ++ t ∷ [])
unfolding contains
IsNodup-append_one t [] n d = (refl, tt)
IsNodup-append_one t (u ∷ order) n d = (
  contains-append order (t ∷ []) u ∙ ground (arith, d.0, text_eq_iff t u, text_eq_iff u t),
  IsNodup-append_one t order (ground arith) d.1,
)

delete_front :
    (ids order : List Text) (t : Text)
    → ((u : Text) → contains ids u ≡ contains (t ∷ order) u)
    → contains order t ≡ false
    → (u : Text) → contains (delete t ids) u ≡ contains order u
unfolding contains
delete_front ids order t agree n u =
    ground (arith, contains-delete t u ids, agree u, text_eq_iff t u)

evict-IsWindow :
    (max_len : ℕ) (ids order : List Text)
    → ((t : Text) → contains ids t ≡ contains order t)
    → IsNodup order
    → IsWindow max_len (evict max_len ids order).0 (evict max_len ids order).1
unfolding evict
evict-IsWindow max_len ids [] agree d = record { agree = agree; nodup = d; bounded = omega arith }
evict-IsWindow max_len ids (t ∷ order) agree d =
    elim (Bool-cases (leb (length (t ∷ order)) max_len)) [
      | inl e ↦ rw e (record { agree = agree; nodup = d; bounded = ground arith })
      | inr e ↦
          rw e
            (evict-IsWindow max_len (delete t ids) order (delete_front ids order t agree d.0) d.1)
    ]

-- What stays of the queue are its last `max_len` ids.
evict-drop :
    (max_len : ℕ) (ids order : List Text)
    → (evict max_len ids order).1 ≡ drop (length order - max_len) order
unfolding evict
evict-drop max_len ids [] = ground arith
evict-drop max_len ids (t ∷ order) = elim (Bool-cases (leb (length (t ∷ order)) max_len)) [
  | inl e ↦ (let z : suc (length order) - max_len ≡ 0 = ground arith in rw (e, z) refl)
  | inr e ↦
      (let z : suc (length order) - max_len ≡ suc (length order - max_len) = ground arith in
        rw (e, z) (evict-drop max_len (delete t ids) order))
]

add_agree :
    (t : Text) (ids order : List Text)
    → ((u : Text) → contains ids u ≡ contains order u)
    → (u : Text) → contains (add t ids) u ≡ contains (order ++ t ∷ []) u
unfolding contains
add_agree t ids order agree u =
    ground (arith, contains-add t u ids, contains-append order (t ∷ []) u, agree u)

-- Tracking a delivery keeps the window.
pub track-IsWindow :
    (max_len : ℕ) (t : Text) (ids order : List Text)
    → IsWindow max_len ids order
    → IsWindow max_len (track max_len t ids order).0 (track max_len t ids order).1
unfolding track
track-IsWindow max_len t ids order w = elim (Bool-cases (contains ids t)) [
  | inl e ↦ rw e (evict-IsWindow max_len ids order w.agree w.nodup)
  | inr e ↦ rw e (
      evict-IsWindow max_len (add t ids) (order ++ t ∷ []) (add_agree t ids order w.agree)
        (IsNodup-append_one t order (sym (w.agree t) ∙ e) w.nodup))
]

contains-drop_last :
    (k : ℕ) (order : List Text) (t : Text)
    → k ≤ length order
    → contains (drop k (order ++ t ∷ [])) t ≡ true
unfolding contains
contains-drop_last zero [] t h = ground (arith, text_eq_refl t)
contains-drop_last zero (u ∷ order) t h =
    ground (arith, contains-drop_last zero order t (omega arith))
contains-drop_last (suc k) [] t h = absurd (omega arith)
contains-drop_last (suc k) (u ∷ order) t h = contains-drop_last k order t (omega arith)

track-seen :
    (max_len : ℕ) (t : Text) (ids order : List Text)
    → 0 < max_len
    → IsWindow max_len ids order
    → contains (track max_len t ids order).1 t ≡ true
unfolding track
track-seen max_len t ids order p w = elim (Bool-cases (contains ids t)) [
  | inl e ↦
      (let z : length order - max_len ≡ 0 = omega (arith, w.bounded) in
        rw (e, evict-drop, z) (sym (w.agree t) ∙ e))
  | inr e ↦
      rw (e, evict-drop)
        (contains-drop_last (length (order ++ t ∷ []) - max_len) order t
          (omega (arith, length-append order (t ∷ []), w.bounded)))
]

abbrev pub SeenWindow : TextChannelAdapter → Type 0
SeenWindow a =
    IsWindow a.config.policy.max_seen_delivery_ids a.seen_delivery_ids a.seen_delivery_order

-- In a channel with a positive bound, where the set and the queue of the seen deliveries hold the
-- same ids, each once and within the bound, this is so after a delivery was tracked; in that state
-- the delivery is a duplicate; and if it was new, the queue holds the last ids, up to the bound,
-- of the queue before with the new id behind it.
pub tracked-SeenWindow :
    (t : Text) (now : ℕ) (a : TextChannelAdapter)
    → SeenWindow a
    → 0 < a.config.policy.max_seen_delivery_ids
    → SeenWindow (tracked t now a)
      × (is_duplicate_delivery (tracked t now a) t ≡ true)
      × (is_duplicate_delivery a t ≡ false
          → (tracked t now a).seen_delivery_order
            ≡ drop
                (length a.seen_delivery_order + 1 - a.config.policy.max_seen_delivery_ids)
                (a.seen_delivery_order ++ t ∷ []))
unfolding tracked is_duplicate_delivery
tracked-SeenWindow t now a w p = (
  after,
  after.agree t ∙ track-seen max_len t a.seen_delivery_ids a.seen_delivery_order p w,
  λ fresh. newest fresh,
)
  where
    max_len : ℕ
    max_len = a.config.policy.max_seen_delivery_ids

    after : SeenWindow (tracked t now a)
    after = track-IsWindow max_len t a.seen_delivery_ids a.seen_delivery_order w

    newest :
        contains a.seen_delivery_ids t ≡ false
        → (track max_len t a.seen_delivery_ids a.seen_delivery_order).1
          ≡ drop (length a.seen_delivery_order + 1 - max_len) (a.seen_delivery_order ++ t ∷ [])
    newest e =
        let n : length (a.seen_delivery_order ++ t ∷ []) ≡ length a.seen_delivery_order + 1 =
          length-append a.seen_delivery_order (t ∷ []) in
        rw (e, evict-drop, n)
