-- ===== src/Conversation/Selector.antt =====
-- `JevThreadSelector.select` of course_discovery/conversation/selector.py. A score is a number of
-- millionths; `none` is an exception of the question. `P` is the parked thread, which the questions see.
use course_discovery_agent.Prelude.{
  ℕ, ◌≤◌, ◌<◌, String, false, Option, none, some, strip, leb, ltb, ◌==◌, if◌then◌else◌, ◌≡◌, refl,
  inl, inr, arith, Bool-cases,
}

pub data Decision : Type 0 where
  continue new_topic no_signal : Decision

pub record SelectorResult : Type 0 where
  pub decision : Decision
  pub score : Option ℕ
  pub reason : String

pub record SelectorThresholds : Type 0 where
  pub continue_threshold : ℕ
  pub new_topic_threshold : ℕ
  pub no_signal_threshold : ℕ

-- The constants of the module.
abbrev pub default_selector_thresholds : SelectorThresholds
default_selector_thresholds = record {
  continue_threshold = 700000;
  new_topic_threshold = 350000;
  no_signal_threshold = 700000;
}

abbrev pub scored : Decision → ℕ → SelectorResult
scored d n = record { decision = d; score = some n; reason = "scored" }

-- `_degraded`
abbrev pub degraded : String → Option ℕ → SelectorResult
degraded reason score = record { decision = new_topic; score = score; reason = reason }

unfoldable pub by_score : SelectorThresholds → Option ℕ → SelectorResult
by_score t none = degraded "selector_failed" none
by_score t (some n) =
    if leb t.continue_threshold n
    then scored continue n
    else if ltb n t.new_topic_threshold
    then scored new_topic n
    else degraded "middle_score" (some n)

-- The second question is asked only where the first has not settled the matter.
unfoldable pub by_signal : SelectorThresholds → Option ℕ → Option ℕ → SelectorResult
unfolding by_score
by_signal t none score = degraded "selector_failed" none
by_signal t (some signal) score =
    let asked = by_score t score in
    if leb t.no_signal_threshold signal then scored no_signal signal else asked

module _ {P : Type 0} (t : SelectorThresholds) (signal_score score : String → P → Option ℕ) where
  unfoldable pub select : String → Option P → SelectorResult
  unfolding by_signal
  select message none = record { decision = new_topic; score = none; reason = "no_parked_thread" }
  select message (some parked) =
      if strip message == ""
      then record { decision = new_topic; score = none; reason = "no_parked_thread" }
      else by_signal t (signal_score message parked) (score message parked)

  by_signal-continues :
      (signal n : Option ℕ)
      → (by_signal t signal n).decision ≡ continue
      → (a : ℕ) × (b : ℕ) × (signal ≡ some a)
        × (n ≡ some b)
        × (a < t.no_signal_threshold)
        × (t.continue_threshold ≤ b)
  unfolding by_signal by_score
  by_signal-continues none n e = absurd cc
  by_signal-continues (some a) none e = absurd (ground (arith, e))
  by_signal-continues (some a) (some b) e = (a, b, refl, refl, ground (arith, e), ground (arith, e))

  -- A message continues the parked thread only if there is one, the message is not blank, both
  -- questions were answered, the first below the threshold of an acknowledgement, and the second not
  -- below that of a continuation.
  pub select-continues :
      (message : String) (parked : Option P)
      → (select message parked).decision ≡ continue
      → (p : P) × (a : ℕ) × (b : ℕ) × (parked ≡ some p)
        × ((strip message == "") ≡ false)
        × (signal_score message p ≡ some a)
        × (score message p ≡ some b)
        × (a < t.no_signal_threshold)
        × (t.continue_threshold ≤ b)
  unfolding select
  select-continues message none = λ e. absurd cc
  select-continues message (some p) = elim (Bool-cases (strip message == "")) [
    | inl blank ↦ rw blank (λ e. absurd cc)
    | inr said ↦ rw said (λ e.
        let (a, b, x, y, low, high) =
          by_signal-continues (signal_score message p) (score message p) e in
        (p, a, b, refl, refl, x, y, low, high))
  ]
