-- ===== src/Channel/Policy/RateWindow.antt =====
-- The rate limit admits exactly the messages that keep each minute within the quota.
use mathlib.Core.Path.{ap₂}
use kelvinclaw.Prelude.{
  ℕ, ◌-◌, ◌≤◌, Bool, true, false, ◌≡◌, refl, arith, List, [], ◌∷◌, ◌++◌, leb, ltb, if◌then◌else◌,
  length, retain, Bool-cases, inl, inr, ◌∙◌, All, ap, sym,
}
use kelvinclaw.Channel.Policy.{window_ms, expire, admit}

-- A message at `ts` counts in the minute before `now`.
abbrev pub recent : ℕ → ℕ → Bool
recent now ts = leb (now - ts) window_ms

-- The independent description: the log of all admitted messages, and a message is admitted if
-- fewer than `quota` of them lie in the minute before it.
pub admit_by_log : ℕ → ℕ → List ℕ → List ℕ × Bool
admit_by_log quota now log =
    if ltb (length (retain (recent now) log)) quota then (log ++ now ∷ [], true) else (log, false)

-- The times in a list rise, up to `last`.
abbrev pub IsRising : ℕ → List ℕ → Type 0
IsRising last [] = Unit {0}
IsRising last (ts ∷ log) = All (λ t. ts ≤ t) log × (ts ≤ last) × IsRising last log

retain-All :
    (now ts : ℕ) (log : List ℕ)
    → now - ts ≤ window_ms
    → All (λ t. ts ≤ t) log
    → retain (recent now) log ≡ log
unfolding retain
retain-All now ts [] n h = refl
retain-All now ts (t ∷ log) n h = ground (arith, retain-All now ts log n h.1, h.0)

expire-eq-retain :
    (now last : ℕ) (log : List ℕ) → IsRising last log → expire now log ≡ retain (recent now) log
unfolding expire retain
expire-eq-retain now last [] h = refl
expire-eq-retain now last (ts ∷ log) h = ground (
  arith,
  expire-eq-retain now last log h.2,
  λ (n : now - ts ≤ window_ms). retain-All now ts log n h.0,
)

retain-retain :
    (last now : ℕ) (log : List ℕ)
    → last ≤ now
    → retain (recent now) (retain (recent last) log) ≡ retain (recent now) log
unfolding retain
retain-retain last now [] h = refl
retain-retain last now (ts ∷ log) h = elim (Bool-cases (recent last ts)) [
  | inl e ↦ rw (e, retain-retain last now log h)
  | inr e ↦ ground (arith, e, retain-retain last now log h)
]

retain-append_now :
    (now : ℕ) (log : List ℕ)
    → retain (recent now) (log ++ now ∷ []) ≡ retain (recent now) log ++ now ∷ []
unfolding retain
retain-append_now now [] = ground arith
retain-append_now now (ts ∷ log) = ground (arith, retain-append_now now log)

All-retain :
    (m now : ℕ) (log : List ℕ) → All (λ t. m ≤ t) log → All (λ t. m ≤ t) (retain (recent now) log)
unfolding retain
All-retain m now [] h = tt
All-retain m now (ts ∷ log) h = elim (Bool-cases (recent now ts)) [
  | inl e ↦ rw e (h.0, All-retain m now log h.1)
  | inr e ↦ rw e (All-retain m now log h.1)
]

IsRising-retain :
    (last now : ℕ) (log : List ℕ) → IsRising last log → IsRising last (retain (recent now) log)
unfolding retain
IsRising-retain last now [] h = tt
IsRising-retain last now (ts ∷ log) h = elim (Bool-cases (recent now ts)) [
  | inl e ↦ rw e (All-retain ts now log h.0, h.1, IsRising-retain last now log h.2)
  | inr e ↦ rw e (IsRising-retain last now log h.2)
]

All-append_now :
    (m now : ℕ) (log : List ℕ) → m ≤ now → All (λ t. m ≤ t) log → All (λ t. m ≤ t) (log ++ now ∷ [])
All-append_now m now [] n h = (n, tt)
All-append_now m now (t ∷ log) n h = (h.0, All-append_now m now log n h.1)

IsRising-append :
    (last now : ℕ) (log : List ℕ) → last ≤ now → IsRising last log → IsRising now (log ++ now ∷ [])
IsRising-append last now [] n h = (tt, omega arith, tt)
IsRising-append last now (ts ∷ log) n h = (
  All-append_now ts now log (omega (arith, h.1)) h.0,
  omega (arith, h.1),
  IsRising-append last now log n h.2,
)

IsRising-later : (last now : ℕ) (log : List ℕ) → last ≤ now → IsRising last log → IsRising now log
IsRising-later last now [] n h = tt
IsRising-later last now (ts ∷ log) n h =
    (h.0, omega (arith, h.1), IsRising-later last now log n h.2)

-- The window of a sender, against the log of what was admitted up to `last`.
record Follows (last : ℕ) (window log : List ℕ) : Type 0 where
  same : window ≡ retain (recent last) log
  rising : IsRising last log

-- One message: the same answer, and the window still follows the log.
step :
    (quota last now : ℕ) (window log : List ℕ)
    → last ≤ now
    → Follows last window log
    → ((admit quota now window).1 ≡ (admit_by_log quota now log).1)
      × Follows now (admit quota now window).0 (admit_by_log quota now log).0
unfolding admit admit_by_log
step quota last now window log n f = elim (Bool-cases (leb quota (length kept))) [
  | inl e ↦
      (let e' : ltb (length kept) quota ≡ false = ground arith in
        rw (left, e, e')
          (refl, record { same = refl; rising = IsRising-later last now log n f.rising }))
  | inr e ↦
      (let e' : ltb (length kept) quota ≡ true = ground arith in
        rw (left, e, e')
          (
            refl,
            record {
              same = sym (retain-append_now now log);
              rising = IsRising-append last now log n f.rising;
            },
          ))
]
  where
    kept : List ℕ
    kept = retain (recent now) log

    left : expire now window ≡ retain (recent now) log
    left =
        ap (expire now) f.same
        ∙ (expire-eq-retain now last (retain (recent last) log)
              (IsRising-retain last last log f.rising)
            ∙ retain-retain last now log n)

-- The answers to messages at the given times.
pub answers : (ℕ → List ℕ → List ℕ × Bool) → List ℕ → List ℕ → List Bool
answers f state [] = []
answers f state (now ∷ times) = let r = f now state in r.1 ∷ answers f r.0 times

-- The times of a clock that does not go back, from `last` on.
abbrev pub IsClock : ℕ → List ℕ → Type 0
IsClock last [] = Unit {0}
IsClock last (now ∷ times) = (last ≤ now) × IsClock now times

answers-agree :
    (quota last : ℕ) (window log times : List ℕ)
    → Follows last window log
    → IsClock last times
    → answers (admit quota) window times ≡ answers (admit_by_log quota) log times
unfolding answers
answers-agree quota last window log [] f c = refl
answers-agree quota last window log (now ∷ times) f c =
    let s = step quota last now window log c.0 f in
    ap₂ (λ b bs. b ∷ bs) s.0 (answers-agree quota now _ _ times s.1 c.1)

-- A sender whose messages come at times that do not go back gets the answers of an independent
-- description: a message is admitted exactly if fewer than `quota` of the messages admitted
-- before it lie in the 60,000 ms before it.
pub admit-refines_log :
    (quota : ℕ) (times : List ℕ)
    → IsClock 0 times
    → answers (admit quota) [] times ≡ answers (admit_by_log quota) [] times
admit-refines_log quota times c =
    answers-agree quota 0 [] [] times (record { same = unfold retain in refl; rising = tt }) c
