-- ===== src/Outbox/Relay.antt =====
-- The outbox relay, internal/rpc/chat/kafka_dispatcher.go: one round of `drain` is a walk through the
-- phases below, one statement or one Kafka write a step, so that workers, of one process or of
-- several, come between each other anywhere. Statements may fail, or take effect and report a
-- failure.
use liveclass.Prelude.{
  ℕ, zero, suc, ◌≡◌, refl, ◌⊎◌, inl, inr, ◌+◌, ◌-◌, ◌*◌, Bool, true, false, ◌||◌, String, Option,
  none, some, List, [], ◌∷◌, Table, ltb, leb, nat_beq, if◌then◌else◌,
}
use liveclass.Outbox.{
  Message, claim_next, has_earlier_unpublished, defer_for_ordering, mark_published, mark_retry,
  new_message, insert_message_idempotent,
}

pub record OutboxConfig : Type 0 where
  pub ordering_retry_interval : ℕ
  pub lease_duration : ℕ
  pub retry_attempts : ℕ
  pub retry_base_backoff : ℕ
  pub retry_max_backoff : ℕ

-- The loop of `retryDelay`, by the rounds left.
unfoldable pub retry_loop : ℕ → ℕ → ℕ → ℕ
retry_loop max_backoff zero delay = delay
retry_loop max_backoff (suc n) delay = elim (ltb delay max_backoff) [
  | true ↦ retry_loop max_backoff n (if ltb max_backoff (delay * 2) then max_backoff else delay * 2)
  | false ↦ delay
]

-- `retryDelay` before the jitter, for backoffs below 2^62, which doubling cannot overflow.
unfoldable pub retry_delay : OutboxConfig → ℕ → ℕ
retry_delay cfg attempt =
    retry_loop cfg.retry_max_backoff ((if ltb attempt 1 then 1 else attempt) - 1)
      cfg.retry_base_backoff

-- Where a worker is in `drain`, with the key and the message that it claimed.
pub data Phase : Type 0 where
  idle : Phase
  holds gated defers retries sent : String → Message → Phase
  cleared : String → Message → ℕ → Phase  -- in `writeWithRetry`, with the number of the attempt

-- What the environment does in a step: the clock, the answer of the statement or the write,
-- whether the context is done where it is selected on, the jitter and the text of an error.
pub data Reply : Type 0 where
  fine fails unseen : Reply

pub record Turn : Type 0 where
  pub now : ℕ
  pub reply : Reply
  pub cancelled : Bool
  pub jitter : ℕ
  pub error_text : String

-- The workers of all processes: their lease owners, processes and affinities.
pub record Workers : Type 0 where
  pub owner : ℕ → String
  pub process : ℕ → ℕ
  pub affinity : ℕ → Option (ℕ × ℕ)

pub record Relay : Type 0 where
  pub store : Table String Message
  pub written : List (String × Message)  -- the Kafka records, newest first
  pub phases : ℕ → Phase
  pub gates : ℕ → ℕ → Bool  -- `lessonGates` by process and lesson

abbrev pub commit : {A : Type 0} → Reply → A → A → A
commit fine before after = after
commit unseen before after = after
commit fails before after = before

abbrev pub set_phase : ℕ → Phase → (ℕ → Phase) → ℕ → Phase
set_phase w p f v = if nat_beq v w then p else f v

abbrev pub set_gate : ℕ → ℕ → Bool → (ℕ → ℕ → Bool) → ℕ → ℕ → Bool
set_gate i l b f j k = if nat_beq j i then (if nat_beq k l then b else f j k) else f j k

pub Reply-cases : (r : Reply) → (r ≡ fine) ⊎ ((r ≡ fails) ⊎ (r ≡ unseen))
Reply-cases fine = inl refl
Reply-cases fails = inr (inl refl)
Reply-cases unseen = inr (inr refl)

-- What a claim leads to.
abbrev pub claimed_phase : Reply → Option (String × Message) → Phase
claimed_phase fine (some (k, m)) = holds k m
claimed_phase fine none = idle
claimed_phase fails found = idle
claimed_phase unseen found = idle

abbrev pub goes : ℕ → Phase → Relay → Relay
goes w p s = record s { phases = set_phase w p s.phases }

abbrev pub stores : Reply → Table String Message → Relay → Relay
stores r t s = record s { store = commit r s.store t }

abbrev pub writes : String → Message → Relay → Relay
writes k m s = record s { written = (k, m) ∷ s.written }

-- No message, idle workers and free gates.
unfoldable pub idle_relay : Relay
idle_relay = record { store = []; written = []; phases = λ w. idle; gates = λ i l. false }

pub data RelayStep : Type 0 where
  sends : String → String → ℕ → ℕ → String → ℕ → RelayStep
  turns : ℕ → Turn → RelayStep
  restarts : ℕ → RelayStep

module _ (id_before : String → String → Bool) (cfg : OutboxConfig) (ws : Workers) where
  abbrev pub releases : ℕ → Message → Relay → Relay
  releases w m s = record s { gates = set_gate (ws.process w) m.lesson_id false s.gates }

  -- `claimNext`, and the return of `drain` if there is no message.
  unfoldable pub claim_step : ℕ → Turn → Relay → Relay
  claim_step w e s =
      let (t, found) =
        claim_next id_before (ws.owner w) e.now cfg.lease_duration (ws.affinity w) s.store in
      goes w (claimed_phase e.reply found) (stores e.reply t s)

  -- The select on the lesson's gate.
  unfoldable pub gate_step : ℕ → Turn → String → Message → Relay → Relay
  gate_step w e k m s =
      if e.cancelled
      then goes w idle s
      else if s.gates (ws.process w) m.lesson_id
      then goes w (defers k m) s
      else goes w (gated k m)
          (record s { gates = set_gate (ws.process w) m.lesson_id true s.gates })

  -- HasEarlierUnpublished; an error counts as blocked.
  unfoldable pub order_step : ℕ → Turn → String → Message → Relay → Relay
  order_step w e k m s = elim e.reply [
    | fine ↦
        if has_earlier_unpublished id_before m s.store
        then goes w (defers k m) (releases w m s)
        else goes w (cleared k m 1) s
    | fails ↦ goes w (defers k m) (releases w m s)
    | unseen ↦ goes w (defers k m) (releases w m s)
  ]

  abbrev pub gives_up : ℕ → Turn → ℕ → String → Message → Relay → Relay
  gives_up w e n k m s =
      if leb cfg.retry_attempts n || e.cancelled
      then goes w (retries k m) (releases w m s)
      else goes w (cleared k m (n + 1)) s

  -- One attempt of `writeWithRetry`.
  unfoldable pub write_step : ℕ → Turn → ℕ → String → Message → Relay → Relay
  write_step w e n k m s = elim e.reply [
    | fine ↦ goes w (sent k m) (writes k m s)
    | fails ↦ gives_up w e n k m s
    | unseen ↦ gives_up w e n k m (writes k m s)
  ]

  -- One step of a worker in a phase.
  unfoldable pub phase_step : ℕ → Turn → Relay → Phase → Relay
  phase_step w e s idle = claim_step w e s
  phase_step w e s (holds k m) = gate_step w e k m s
  phase_step w e s (gated k m) = order_step w e k m s
  phase_step w e s (cleared k m n) = write_step w e n k m s
  phase_step w e s (defers k m) =
      let next = e.now + cfg.ordering_retry_interval in
      goes w idle (stores e.reply (defer_for_ordering k (ws.owner w) next s.store).0 s)
  phase_step w e s (retries k m) =
      let next = e.now + retry_delay cfg (m.outbox.attempts + 1) + e.jitter in
      goes w idle (stores e.reply (mark_retry k (ws.owner w) e.error_text next s.store).0 s)
  phase_step w e s (sent k m) =
      goes w idle (releases w m (stores e.reply (mark_published k (ws.owner w) e.now s.store).0 s))

  unfoldable pub worker_step : ℕ → Turn → Relay → Relay
  worker_step w e s = phase_step w e s (s.phases w)

  -- A process that restarts loses its workers' places and its gates.
  unfoldable pub restart : ℕ → Relay → Relay
  restart i s = record s {
    phases = λ w. if nat_beq (ws.process w) i then idle else s.phases w;
    gates = λ j l. if nat_beq j i then false else s.gates j l;
  }

  unfoldable pub relay_step : Relay → RelayStep → Relay
  relay_step s (sends id client lesson sender content now) = record s {
    store = (insert_message_idempotent (new_message id client lesson sender content now) s.store).0;
  }
  relay_step s (turns w e) = worker_step w e s
  relay_step s (restarts i) = restart i s

  unfoldable pub run_relay : Relay → List RelayStep → Relay
  run_relay s [] = s
  run_relay s (c ∷ cs) = run_relay (relay_step s c) cs
