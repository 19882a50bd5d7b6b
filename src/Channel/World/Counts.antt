-- ===== src/Channel/World/Counts.antt =====
-- Operations that change nothing of a channel but its metrics.
use kelvinclaw.Prelude.{Bool, true, false, ◌≡◌, refl, ◌∙◌, Option, none, some, if◌then◌else◌}
use kelvinclaw.Prelude.Error.{KelvinError, KelvinResult, ok, err}
use kelvinclaw.Prelude.Exec.{◌>>=◌, and_then}
use kelvinclaw.Channel.Types.{ChannelMetrics, TextChannelAdapter}
use kelvinclaw.Channel.World.{Channel, Script, World, count, saved, persist_state}

-- The adapter, with the metrics given.
unfoldable pub masked : ChannelMetrics → World → TextChannelAdapter
masked m w = record (w.adapter) { metrics = m }

-- Only the metrics differ between two states.
abbrev pub Counted : World → World → Type 0
Counted w v = (m : ChannelMetrics) → masked m v ≡ masked m w

-- Whatever an operation returns, only the metrics of the adapter change.
abbrev pub OnlyCounts : {A : Type 0} → Channel A → Type 0
OnlyCounts f = (w : World) → Counted w (f w).1

pub OnlyCounts-bind :
    {A B : Type 0} (f : Channel A) (g : A → Channel B)
    → OnlyCounts f
    → ((a : A) → OnlyCounts (g a))
    → OnlyCounts (f >>= g)
OnlyCounts-bind {A = A} f g hf hg w = go (f w) (hf w)
  where
    go : (r : KelvinResult A × World) → Counted w r.1 → Counted w (and_then r g).1
    go (ok a, v) e m = hg a v m ∙ e m
    go (err x, v) e m = e m

pub Counted-if :
    {A : Type 0} (b : Bool) (r s : KelvinResult A × World) (w : World)
    → Counted w r.1
    → Counted w s.1
    → Counted w (if b then r else s).1
Counted-if true r s w h k = h
Counted-if false r s w h k = k

pub Counted-option :
    {A B : Type 0} (o : Option B) (r : KelvinResult A × World) (s : B → KelvinResult A × World)
    (w : World)
    → Counted w r.1
    → ((b : B) → Counted w (s b).1)
    → Counted w (elim o as (λ _. KelvinResult A × World) [ none ↦ r | some b ↦ s b ]).1
Counted-option none r s w h k = h
Counted-option (some b) r s w h k = k b

pub count-OnlyCounts : (f : ChannelMetrics → ChannelMetrics) → OnlyCounts (count f)
unfolding masked count
count-OnlyCounts f w m = refl

module _ (script : Script) where
  saved-OnlyCounts : (e : Option KelvinError) → OnlyCounts (saved script e)
  unfolding saved masked
  saved-OnlyCounts none w m = refl
  saved-OnlyCounts (some e) w m = refl

  pub persist_state-OnlyCounts : OnlyCounts (persist_state script)
  unfolding persist_state
  persist_state-OnlyCounts w =
      Counted-if w.adapter.has_persistence (saved script (script.save_error w.saves) w) (ok tt, w) w
        (saved-OnlyCounts (script.save_error w.saves) w) (λ m. refl)
