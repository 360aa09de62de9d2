-- ===== src/Effects/Backoff.antt =====
-- The retry delays of course_discovery/effects/worker.py.
use Prim.Native.Nat.{◌-◌}
use native.Mathlib.Nat.{pow-suc}
use course_discovery_agent.Prelude.{
  ℕ, zero, suc, ◌*◌, ◌^◌, ◌≤◌, ◌≡◌, min, arith, ◌+◌, ltb, true, false, some, none, refl,
}
use course_discovery_agent.Effects.Worker.{exponential_backoff}

pow-pos : (n : ℕ) → 1 ≤ 2 ^ n
pow-pos zero = omega arith
pow-pos (suc n) = omega (arith, pow-pos n, pow-suc 2 n)

-- From the first attempt to the 1024th there is a delay: none passes the cap, none is shorter than the base
-- (or the cap, where that is less), and a later attempt never waits less than the one before it. From the
-- 1025th on, the delay raises.
pub exponential_backoff_bounds :
    (base cap attempts more : ℕ)
    → suc (suc attempts) ≤ 1024
    → (now : ℕ) × (after : ℕ) × (exponential_backoff base cap (suc attempts) ≡ some now)
      × (exponential_backoff base cap (suc (suc attempts)) ≡ some after)
      × (now ≤ cap)
      × (min base cap ≤ now)
      × (now ≤ after)
      × (exponential_backoff base cap (1025 + more) ≡ none)
unfolding exponential_backoff
exponential_backoff_bounds base cap n more h =
    let grows : base * 2 ^ n ≤ base * 2 ^ suc n = rw (pow-suc 2 n) (grind arith) in
    let positive : base ≤ base * 2 ^ n = grind (arith, pow-pos n) in
    let here : suc n - 1 ≡ n = omega arith in
    let next : suc (suc n) - 1 ≡ suc n = omega arith in
    let few : ltb 1024 (suc n) ≡ false = ground (arith, h) in
    let fewer : ltb 1024 (suc (suc n)) ≡ false = ground (arith, h) in
    let many : ltb 1024 (1025 + more) ≡ true = ground arith in
    (
      min cap (base * 2 ^ n),
      min cap (base * 2 ^ suc n),
      rw (few, here) refl,
      rw (fewer, next) refl,
      omega arith,
      omega arith,
      omega arith,
      rw many refl,
    )
