-- ===== src/Resilience/Executor/Retries.antt =====
-- Which attempt ends an execution, and what the caller gets.
use liveclass.Prelude.{ℕ, zero, suc, ◌+◌, ◌-◌, ◌<◌, ◌≡◌, ◌⊎◌, true, false, none, arith}
use liveclass.Resilience.Float.{Float64}
use liveclass.Resilience.Executor.{
  Round, Outcome, value, fault, returned, failed, waited, Policy, Progress, admit, settle,
  after_fault, count_retry, may_retry, wait_backoff, attempt_loop, execute,
}

module _ (float : Float64) (T E : Type 0) (p : Policy float T E) (rounds : ℕ → Round T E) where
  -- Attempt `n` fails with an error that the policy retries, and nothing cuts it short.
  pub record Retried (n : ℕ) : Type 0 where
    pub error : E
    pub alive : (rounds n).ctx_err ≡ none
    pub replied : (rounds n).reply ≡ fault error
    pub retries : may_retry float T E p error ≡ true
    pub waits : wait_backoff float T E p n (rounds n) ≡ waited

  -- The attempts from `n` on, `k` of them, are all retried.
  abbrev pub RetriedFrom : ℕ → ℕ → Type 0
  RetriedFrom n zero = Unit
  RetriedFrom n (suc k) = Retried n × RetriedFrom (suc n) k

  -- One retried attempt, without a breaker, hands over to the next with one call and one retry more.
  loop-Retried :
      (left n : ℕ) (s : Progress float T E)
      → s.breaker ≡ none
      → Retried n
      → 0 < left
      → (t : Progress float T E) × (t.breaker ≡ none)
        × (t.calls ≡ s.calls + 1)
        × (t.retries ≡ s.retries + 1)
        × (attempt_loop float T E (suc left) n p rounds s
            ≡ attempt_loop float T E left (suc n) p rounds t)
  unfolding attempt_loop admit settle
  loop-Retried left n s b r l = (
    count_retry float T E (after_fault float T E s (rounds n)),
    ground arith,
    ground arith,
    ground arith,
    ground arith,
  )

  loop-RetriedFrom :
      (k left n : ℕ) (s : Progress float T E)
      → s.breaker ≡ none
      → RetriedFrom n k
      → 0 < left
      → (t : Progress float T E) × (t.breaker ≡ none)
        × (t.calls ≡ s.calls + k)
        × (t.retries ≡ s.retries + k)
        × (attempt_loop float T E (k + left) n p rounds s
            ≡ attempt_loop float T E left (n + k) p rounds t)
  loop-RetriedFrom zero left n s b r l = (s, b, omega arith, omega arith, ground arith)
  loop-RetriedFrom (suc k) left n s b r l =
      let (t, b', c, q, e) = loop-Retried (k + left) n s b r.0 (omega arith) in
      let (u, b'', c', q', e') = loop-RetriedFrom k left (suc n) t b' r.1 l in
      (u, b'', omega arith, omega arith, ground (arith, e, e'))

  -- What the last attempt made returns.
  abbrev pub Returns :
      Progress float T E → ℕ → Progress float T E × Outcome T E → Outcome T E → Type 0
  Returns s k r o = (r.1 ≡ o) × (r.0.calls ≡ s.calls + k + 1) × (r.0.retries ≡ s.retries + k)

  last_value :
      (left n : ℕ) (s : Progress float T E) (v : T)
      → s.breaker ≡ none
      → (rounds n).ctx_err ≡ none
      → (rounds n).reply ≡ value v
      → Returns s 0 (attempt_loop float T E (suc left) n p rounds s) (returned v)
  unfolding attempt_loop admit
  last_value left n s v b a r = ground arith

  last_fault :
      (left n : ℕ) (s : Progress float T E) (e : E)
      → s.breaker ≡ none
      → (rounds n).ctx_err ≡ none
      → (rounds n).reply ≡ fault e
      → (left ≡ 0) ⊎ (may_retry float T E p e ≡ false)
      → Returns s 0 (attempt_loop float T E (suc left) n p rounds s) (failed e)
  unfolding attempt_loop admit settle
  last_fault left n s e b a r h = ground arith

  -- Without a breaker, if the first k attempts are retried and the next, still an allowed one and
  -- before the context is done, succeeds, an execution returns its value, with k + 1 calls and k
  -- retries.
  pub execute-returned :
      (s : Progress float T E) (k : ℕ) (v : T)
      → s.breaker ≡ none
      → k < p.attempts
      → RetriedFrom 1 k
      → (rounds (1 + k)).ctx_err ≡ none
      → (rounds (1 + k)).reply ≡ value v
      → Returns s k (execute float T E p rounds s) (returned v)
  unfolding execute
  execute-returned s k v b l r a q =
      let (t, b', c, w, e) =
        loop-RetriedFrom k (suc (p.attempts - 1 - k)) 1 (record s { requests = s.requests + 1 }) b r
          (omega arith) in
      let last = last_value (p.attempts - 1 - k) (1 + k) t v b' a q in
      let n : p.attempts ≡ k + suc (p.attempts - 1 - k) = omega arith in ground (arith, e, last, n)

  -- Without a breaker, if the first k attempts are retried and the next one, before the context is
  -- done, fails with an error that the policy does not retry or as the last attempt allowed, an
  -- execution returns this error, with k + 1 calls and k retries.
  pub execute-failed :
      (s : Progress float T E) (k : ℕ) (x : E)
      → s.breaker ≡ none
      → k < p.attempts
      → RetriedFrom 1 k
      → (rounds (1 + k)).ctx_err ≡ none
      → (rounds (1 + k)).reply ≡ fault x
      → (k + 1 ≡ p.attempts) ⊎ (may_retry float T E p x ≡ false)
      → Returns s k (execute float T E p rounds s) (failed x)
  unfolding execute
  execute-failed s k x b l r a q h =
      let (t, b', c, w, e) =
        loop-RetriedFrom k (suc (p.attempts - 1 - k)) 1 (record s { requests = s.requests + 1 }) b r
          (omega arith) in
      let last = last_fault (p.attempts - 1 - k) (1 + k) t x b' a q in
      let n : p.attempts ≡ k + suc (p.attempts - 1 - k) = omega arith in ground (arith, e, last, n)
