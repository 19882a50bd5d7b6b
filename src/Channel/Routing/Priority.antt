-- ===== src/Channel/Routing/Priority.antt =====
-- The rule that a routing table follows.
use kelvinclaw.Prelude.{
  ℕ, ◌≤◌, Bool, true, false, ◌&&◌, ◌≡◌, refl, arith, List, [], ◌∷◌, any, ltb, Bool-cases, inl, inr,
  ◌∙◌,
}
use kelvinclaw.Prelude.Error.{ok, Returned-bind, Returned-elim}
use kelvinclaw.Prelude.Sort.{sort_by, insert_by, any-insert_by, any-sort_by}
use kelvinclaw.Channel.Types.{RouteDecision}
use kelvinclaw.Channel.Routing.{
  RouteRule, RouteInput, matches, decide, decision_of, default_decision, rule_le, check_ids,
  routing_table,
}

-- A rule of a higher priority than `n`.
abbrev above : ℕ → RouteRule → Bool
above n rule = ltb n rule.priority

abbrev IsDescending : List RouteRule → Type 0
IsDescending [] = Unit {0}
IsDescending (rule ∷ rules) = (any (above rule.priority) rules ≡ false) × IsDescending rules

any-above_mono :
    (m n : ℕ) (rules : List RouteRule)
    → m ≤ n
    → any (above m) rules ≡ false
    → any (above n) rules ≡ false
unfolding any
any-above_mono m n [] h e = refl
any-above_mono m n (rule ∷ rules) h e = ground (arith, any-above_mono m n rules)

IsDescending-insert_by :
    (rule : RouteRule) (rules : List RouteRule)
    → IsDescending rules
    → IsDescending (insert_by rule_le rule rules)
unfolding insert_by any
IsDescending-insert_by rule [] d = (refl, tt)
IsDescending-insert_by rule (r ∷ rules) d = elim (Bool-cases (rule_le rule r)) [
  | inl e ↦
      (let p : r.priority ≤ rule.priority = unfold rule_le in ground arith in
        rw e (ground (arith, any-above_mono r.priority rule.priority rules p d.0), (d.0, d.1)))
  | inr e ↦
      (let p : rule.priority ≤ r.priority = unfold rule_le in ground arith in
        rw e (
          any-insert_by (above r.priority) rule_le rule rules ∙ ground (arith, d.0, p),
          IsDescending-insert_by rule rules d.1,
        ))
]

IsDescending-sort_by : (rules : List RouteRule) → IsDescending (sort_by rule_le rules)
unfolding sort_by
IsDescending-sort_by [] = tt
IsDescending-sort_by (rule ∷ rules) =
    IsDescending-insert_by rule (sort_by rule_le rules) (IsDescending-sort_by rules)

-- What a table does with an input: it follows a rule of the table that matches, of the highest
-- priority among those that match, or no rule matches and it takes the default.
pub data Decides (rules : List RouteRule) (input : RouteInput) (d : RouteDecision) : Type 0 where
  by_default :
      any (λ r. matches r input) rules ≡ false → d ≡ default_decision input → Decides rules input d
  by_rule :
      (rule : RouteRule)
      → ((p : RouteRule → Bool) → p rule ≡ true → any p rules ≡ true)
      → matches rule input ≡ true
      → any (λ r. matches r input && ltb rule.priority r.priority) rules ≡ false
      → d ≡ decision_of rule input
      → Decides rules input d

none_above :
    (n : ℕ) (input : RouteInput) (rules : List RouteRule)
    → any (above n) rules ≡ false
    → any (λ r. matches r input && above n r) rules ≡ false
unfolding any
none_above n input [] e = refl
none_above n input (r ∷ rules) e = ground (arith, none_above n input rules)

decide-cons :
    (r : RouteRule) (rules : List RouteRule) (input : RouteInput)
    → matches r input ≡ false
    → Decides rules input (decide rules input)
    → Decides (r ∷ rules) input (decide (r ∷ rules) input)
unfolding any decide
decide-cons r rules input e (by_default n d) = by_default (rw e n) (rw e d)
decide-cons r rules input e (by_rule rule mem m best d) =
    by_rule rule (λ p h. ground (arith, mem p h)) m (rw e best) (rw e d)

decide-Decides :
    (rules : List RouteRule) (input : RouteInput)
    → IsDescending rules
    → Decides rules input (decide rules input)
unfolding any decide
decide-Decides [] input d = by_default refl refl
decide-Decides (r ∷ rules) input d = elim (Bool-cases (matches r input)) [
  | inl e ↦
      by_rule r (λ p h. rw h refl) e (ground (arith, none_above r.priority input rules d.0))
        (rw e refl)
  | inr e ↦ decide-cons r rules input e (decide-Decides rules input d.1)
]

Decides-sort_by :
    (rules : List RouteRule) (input : RouteInput) {d : RouteDecision}
    → Decides (sort_by rule_le rules) input d
    → Decides rules input d
Decides-sort_by rules input (by_default n e) = by_default (rw any-sort_by at n) e
Decides-sort_by rules input (by_rule rule mem m best e) =
    by_rule rule (λ p h. rw any-sort_by at (mem p h)) m (rw any-sort_by at best) e

-- A table that was loaded from a list of rules sends a message by a rule of the list that matches
-- it, of the highest priority of those that match; only if none matches it takes the default.
pub routing_table-Decides :
    (parsed rules : List RouteRule) (input : RouteInput)
    → routing_table parsed ≡ ok rules
    → Decides parsed input (decide rules input)
unfolding routing_table
routing_table-Decides parsed rules input h =
    Returned-elim (λ rules. Decides parsed input (decide rules input)) _ rules
      (Returned-bind _ (check_ids parsed []) _ λ _ _.
        Decides-sort_by parsed input
          (decide-Decides (sort_by rule_le parsed) input (IsDescending-sort_by parsed)))
      h
