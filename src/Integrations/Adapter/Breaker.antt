-- ===== src/Integrations/Adapter/Breaker.antt =====
-- The circuit breaker of integrations/adapters/base.py under calls, failures and successes.
use skysolver.Prelude.{
  ℕ, ◌+◌, ◌≤◌, ◌<◌, ◌≡◌, refl, sym, subst, inl, inr, true, false, ◌||◌, some, List, [], ◌∷◌, ◌++◌,
  map, arith, leb, ◌==◌, nat_eq, string_eq, pair_eq, Bool-cases, length,
}
use skysolver.Integrations.Adapter.{
  reset_due, circuit_code, failure, closed, success, open_circuit, new_breaker, allow,
  CircuitBreaker,
}

-- An open breaker knows when it opened; a closed one has seen fewer failures than its threshold.
pub record IsSteady (b : CircuitBreaker) : Type 0 where
  pub positive : 1 ≤ b.failure_threshold
  pub resets : 1 ≤ b.reset_seconds
  pub dated : b.state ≡ open_circuit → (t : ℕ) × (b.opened_at ≡ some t)
  pub within : b.state ≡ closed → b.failures < b.failure_threshold

-- What the adapter does to its breaker.
pub data Signal : Type 0 where
  asked succeeded failed_at : ℕ → Signal

unfoldable pub react : Signal → CircuitBreaker → CircuitBreaker
unfolding allow success failure
react (asked now) b = (allow now b).1
react (succeeded _) b = success b
react (failed_at now) b = failure now b

unfoldable pub react_all : List Signal → CircuitBreaker → CircuitBreaker
unfolding react
react_all [] b = b
react_all (s ∷ ss) b = react_all ss (react s b)

new_breaker-IsSteady : (n r : ℕ) (b : CircuitBreaker) → new_breaker n r ≡ some b → IsSteady b
unfolding new_breaker
new_breaker-IsSteady n r b h = record {
  positive = ground arith;
  resets = ground arith;
  dated = λ q. absurd (ground arith);
  within = λ q. ground arith;
}

allow-IsSteady : (now : ℕ) (b : CircuitBreaker) → IsSteady b → IsSteady (allow now b).1
unfolding allow
allow-IsSteady now b h = elim (Bool-cases (circuit_code b.state == 1)) [
  | inl opened ↦ elim (Bool-cases (reset_due b.opened_at b.reset_seconds now)) [
    | inl due ↦
        rw (opened, allow)
          (rw (due, allow)
            (record {
              positive = h.positive;
              resets = h.resets;
              dated = λ q. absurd (ground arith);
              within = λ q. absurd (ground arith);
            }))
    | inr early ↦ rw (opened, allow) (rw (early, allow) h)
  ]
  | inr other ↦ rw (other, allow) h
]

react-IsSteady : (s : Signal) (b : CircuitBreaker) → IsSteady b → IsSteady (react s b)
unfolding react allow success failure
react-IsSteady (asked now) b h = allow-IsSteady now b h
react-IsSteady (succeeded _) b h = record {
  positive = h.positive;
  resets = h.resets;
  dated = λ q. absurd (ground arith);
  within = λ q. ground (arith, h.positive);
}
react-IsSteady (failed_at now) b h =
    elim (Bool-cases (circuit_code b.state == 2 || leb b.failure_threshold (b.failures + 1))) [
      | inl opens ↦
          rw (opens, failure)
            (record {
              positive = h.positive;
              resets = h.resets;
              dated = λ q. (now, refl);
              within = λ q. absurd (ground arith);
            })
      | inr stays ↦
          rw (stays, failure)
            (record {
              positive = h.positive;
              resets = h.resets;
              dated = h.dated;
              within = λ q. ground arith;
            })
    ]

react_all_keeps : (ss : List Signal) (b : CircuitBreaker) → IsSteady b → IsSteady (react_all ss b)
unfolding react_all
react_all_keeps [] b h = h
react_all_keeps (s ∷ ss) b h = react_all_keeps ss (react s b) (react-IsSteady s b h)

-- Whatever a breaker that could be made has been told, in any order: while it is open it knows since
-- when, and while it is closed it has counted fewer failures than its threshold.
pub react_all-IsSteady :
    (n r : ℕ) (b : CircuitBreaker) (ss : List Signal)
    → new_breaker n r ≡ some b
    → IsSteady (react_all ss b)
react_all-IsSteady n r b ss made = react_all_keeps ss b (new_breaker-IsSteady n r b made)

-- No breaker stays shut for ever: for each steady one there is a time from which on it lets a call
-- through.
pub allow_eventually :
    (b : CircuitBreaker) → IsSteady b → (t : ℕ) × ((now : ℕ) → t ≤ now → (allow now b).0 ≡ true)
unfolding allow
allow_eventually b h = elim (Bool-cases (circuit_code b.state == 1)) [
  | inl opened ↦
      let (t, since) = h.dated (ground arith) in
      (t + b.reset_seconds, λ now late. ground (arith, opened, since))
  | inr other ↦ (0, λ now late. ground (arith, other))
]

failure_opens :
    (now : ℕ) (b : CircuitBreaker)
    → b.failure_threshold ≤ b.failures + 1
    → failure now b
      ≡ record b { failures = b.failures + 1; state = open_circuit; opened_at = some now }
unfolding failure
failure_opens now b h = ground arith

failure_counts :
    (now : ℕ) (b : CircuitBreaker)
    → ((failure now b).failures ≡ b.failures + 1)
      × ((failure now b).failure_threshold ≡ b.failure_threshold)
      × ((failure now b).reset_seconds ≡ b.reset_seconds)
unfolding failure
failure_counts now b = (ground arith, ground arith, ground arith)

opened_refuses :
    (now t : ℕ) (b : CircuitBreaker)
    → b.state ≡ open_circuit
    → b.opened_at ≡ some t
    → now < t + b.reset_seconds
    → allow now b ≡ (false, b)
unfolding allow
opened_refuses now t b o since early = rw (o, since) (ground arith)

-- Failures in a row that bring the count to the threshold shut the breaker: until the reset time
-- after the last of them every call is refused, and refusing changes nothing.
pub failures_refuse :
    (b : CircuitBreaker) (times : List ℕ) (last now : ℕ)
    → b.failure_threshold ≤ b.failures + length times + 1
    → now < last + b.reset_seconds
    → allow now (react_all (map failed_at (times ++ (last ∷ []))) b)
      ≡ (false, react_all (map failed_at (times ++ (last ∷ []))) b)
unfolding react_all react
failures_refuse b [] last now h early =
    let opened = failure_opens last b (omega (arith, h)) in
    opened_refuses now last (failure last b) (subst (λ x. x.state ≡ open_circuit) (sym opened) refl)
      (subst (λ x. x.opened_at ≡ some last) (sym opened) refl)
      (subst (λ x. now < last + x.reset_seconds) (sym opened) early)
failures_refuse b (t ∷ times) last now h early =
    let (counted, limit, wait) = failure_counts t b in
    failures_refuse (failure t b) times last now (omega (arith, counted, limit, h))
      (omega (arith, wait, early))
