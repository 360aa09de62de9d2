-- ===== src/Guardrails/Injection.antt =====
-- course_discovery/guardrails/injection.py. The screen's score is a number of millionths, or `none`
-- where the screen raises; the thresholds are the environment's.
use course_discovery_agent.Prelude.{
  ℕ, ◌<◌, String, Bool, true, not, ◌||◌, Option, none, some, strip, leb, ◌==◌, if◌then◌else◌, ◌≡◌,
  refl, ◌⊎◌, inl, inr, arith, Bool-cases, Option-cases,
}

pub data InjectionAction : Type 0 where
  pass review block : InjectionAction

pub record Thresholds : Type 0 where
  pub review_at : ℕ
  pub block_at : ℕ

-- `REVIEW_THRESHOLD` and `BLOCK_THRESHOLD`
abbrev pub default_thresholds : Thresholds
default_thresholds = record { review_at = 350000; block_at = 700000 }

unfoldable pub classify_score : Thresholds → ℕ → InjectionAction
classify_score t score =
    if leb t.block_at score then block else if leb t.review_at score then review else pass

unfoldable pub screened : Thresholds → Option ℕ → InjectionAction
screened t none = review
screened t (some score) = classify_score t score

unfoldable pub screen_untrusted : Bool → Thresholds → (String → Option ℕ) → String → InjectionAction
screen_untrusted enabled t score text =
    if not enabled || strip text == "" then pass else screened t (score text)

-- With the guard on, a text passes only if it is blank, or if the screen gave it a score and the
-- score is below both thresholds.
pub screen_untrusted-is_closed :
    (t : Thresholds) (score : String → Option ℕ) (text : String)
    → screen_untrusted true t score text ≡ pass
    → ((strip text == "") ≡ true)
      ⊎ ((n : ℕ) × (score text ≡ some n) × (n < t.review_at) × (n < t.block_at))
unfolding screen_untrusted screened
screen_untrusted-is_closed t score text = elim (Bool-cases (strip text == "")) [
  | inl e ↦ λ h. inl e
  | inr e ↦ elim (Option-cases (score text)) [
    | inl f ↦ rw (e, f) (λ h. absurd cc)
    | inr (n, f) ↦
        rw (e, f)
          (λ h. inr (
            n,
            refl,
            unfold classify_score in ground (arith, h),
            unfold classify_score in ground (arith, h),
          ))
  ]
]
