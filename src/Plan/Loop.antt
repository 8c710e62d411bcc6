-- ===== src/Plan/Loop.antt =====
-- The loop of executePlannedTask ends before its limit of iterations,
-- internal/rpc/agent/workflow/agent/plan_executor.go.
use liveclass.Prelude.{
  ℕ, zero, suc, ◌+◌, ◌*◌, ◌≤◌, ◌<◌, ◌≡◌, ◌≢◌, string_eq, nat_eq, inl, inr, arith,
}
use liveclass.Plan.Moves.{Fits}
use liveclass.Plan.Rounds.{Advances, exec_round-Advances}
use liveclass.Plan.Executor.{
  ExecConfig, Round, iteration_limit, halted, ExecState, Next, continues, ends, go_on, exec_round,
  exec_loop, iterations,
}

module _ (cfg : ExecConfig) (id : ℕ) where
  -- `n` steps are left, and `j` replans.
  exec_loop-ends :
      (left i n j : ℕ) (rounds : ℕ → Round) (st : ExecState)
      → Fits id n st.db
      → cfg.max_replans ≤ st.replans + j
      → n + j * (cfg.max_steps + 1) < left
      → (exec_loop cfg id left i rounds st).1 ≢ halted iteration_limit
  unfolding exec_loop
  exec_loop-ends zero i n j rounds st f b l = omega (arith, l)
  exec_loop-ends (suc left) i n j rounds st f b l =
      next-ends j l b (λ m k st' f' b' l'. exec_loop-ends left (i + 1) m k rounds st' f' b' l')
        (exec_round cfg id (rounds i) st) (exec_round-Advances cfg id (rounds i) n st f)
    where
      next-ends :
          (j : ℕ)
          → n + j * (cfg.max_steps + 1) < suc left
          → cfg.max_replans ≤ st.replans + j
          → ((m k : ℕ) (st' : ExecState)
              → Fits id m st'.db
              → cfg.max_replans ≤ st'.replans + k
              → m + k * (cfg.max_steps + 1) < left
              → (exec_loop cfg id left (i + 1) rounds st').1 ≢ halted iteration_limit)
          → (x : Next) → Advances cfg id n st.replans x
          → (go_on x (λ st'. exec_loop cfg id left (i + 1) rounds st')).1 ≢ halted iteration_limit
      next-ends j l b goes_on (ends d e) a = a
      next-ends j l b goes_on (continues st') (inl (m, (less, (fits, same)))) =
          goes_on m j st' fits (omega (arith, b, same)) (omega (arith, l, less))
      next-ends zero l b goes_on (continues st') (inr (more, (fits, same))) =
          absurd (omega (arith, more, b))
      next-ends (suc j) l b goes_on (continues st') (inr (more, (fits, same))) =
          goes_on cfg.max_steps j st' fits (omega (arith, b, same)) (omega (arith, l))

  pub loop-ends :
      (rounds : ℕ → Round) (st : ExecState)
      → Fits id cfg.max_steps st.db
      → st.replans ≡ 0
      → (exec_loop cfg id (iterations cfg) 0 rounds st).1 ≢ halted iteration_limit
  loop-ends rounds st f z =
      exec_loop-ends (iterations cfg) 0 cfg.max_steps cfg.max_replans rounds st f (omega (arith, z))
        (omega arith)
