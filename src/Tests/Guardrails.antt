-- ===== src/Tests/Guardrails.antt =====
-- Runs of the injection guard, of the highlights that it screens, and of the thread selector.
use course_discovery_agent.Prelude.{ℕ, ◌<◌, true, none, some, [], ◌≡◌, refl, ◌⊎◌, strip, ◌==◌}
use course_discovery_agent.Guardrails.Injection.{
  review, screen_untrusted, screened, classify_score, default_thresholds,
  screen_untrusted-is_closed,
}
use course_discovery_agent.Research.Highlights.{
  IsAllowed, highlight_with_retry, highlight_with_retry-IsAllowed,
}
use course_discovery_agent.Tests.Samples.{course}
use course_discovery_agent.Conversation.Selector.{
  select, by_signal, by_score, default_selector_thresholds, select-continues,
}
use course_discovery_agent.Prelude.{false, ◌≤◌, String}

screen_untrusted-is_closed_example :
    ((strip "hello" == "") ≡ true) ⊎ ((n : ℕ) × (some 10 ≡ some n) × (n < 350000) × (n < 700000))
unfolding screen_untrusted screened classify_score strip
screen_untrusted-is_closed_example =
    screen_untrusted-is_closed default_thresholds (λ t. some 10) "hello" refl

highlight_with_retry-IsAllowed_example :
    IsAllowed
      (λ k p. none)
      review
      (highlight_with_retry (λ k p. none) true (λ t. review) (course "https://a.org/1") none []).1
highlight_with_retry-IsAllowed_example =
    highlight_with_retry-IsAllowed (λ k p. none) (λ t. review) (course "https://a.org/1") none []

select-continues_example :
    (p : String) × (a : ℕ) × (b : ℕ) × (some "sql" ≡ some p)
    × ((strip "cheaper" == "") ≡ false)
    × (some 100000 ≡ some a)
    × (some 900000 ≡ some b)
    × (a < 700000)
    × (700000 ≤ b)
unfolding select by_signal by_score strip
select-continues_example =
    select-continues default_selector_thresholds (λ m p. some 100000) (λ m p. some 900000) "cheaper"
      (some "sql") refl
