-- ===== src/Outbox/Steps.antt =====
-- That every step of the relay keeps its invariant, internal/rpc/chat/kafka_dispatcher.go.
use liveclass.Prelude.{
  ℕ, ◌+◌, ◌≡◌, refl, ap, ◌∙◌, Bool, true, false, ◌||◌, String, Option, none, some, List, [], ◌∷◌,
  Table, lookup, IsKeyed, if_holds, nat_beq, leb, string_eq, inl, inr, arith, beq_refl,
}
use liveclass.Outbox.{
  Message, is_published, claim_next, has_earlier_unpublished, defer_for_ordering, mark_published,
  mark_retry,
}
use liveclass.Outbox.Relay.{
  OutboxConfig, Phase, idle, holds, gated, defers, retries, sent, cleared, Reply, fine, fails,
  unseen, Turn, Workers, Relay, commit, set_phase, Reply-cases, claim_step, claimed_phase,
  gate_step, order_step, write_step, phase_step, restart,
}
use liveclass.Outbox.Updates.{
  Evolves, Nobody, claim-Evolves, claim-lookup, defer-Evolves, retry-Evolves,
  mark_published-Evolves, update_leased-IsKeyed, claim-IsKeyed, has_earlier-published,
}
use liveclass.Outbox.Invariant.{
  is_written, IsKnown, IsDue, PhaseOk, InOrder, IsValid, Grows, Grows-PhaseOk, Grows-InOrder,
}

module _ (id_before : String → String → Bool) (cfg : OutboxConfig) (ws : Workers) where
  -- A step in which a worker goes to another phase, with the store and the records changed.
  goes-IsValid :
      (w : ℕ) (p : Phase) (s : Relay) (t : Table String Message) (es : List (String × Message))
      (g : ℕ → ℕ → Bool)
      → IsValid id_before s
      → IsKeyed t
      → Grows id_before s.store t s.written es
      → ((j : String) (a : Message)
          → lookup j t ≡ some a
          → is_published a ≡ true
          → is_written j es ≡ true)
      → InOrder id_before t es
      → PhaseOk id_before t es p
      → IsValid id_before
          (record { store = t; written = es; phases = set_phase w p s.phases; gates = g })
  goes-IsValid w p s t es g v u grows published o h = record {
    keyed = u;
    published_written = published;
    phases_ok = λ x.
        if_holds (PhaseOk id_before t es) (nat_beq x w) _ _ (λ _. h)
          (λ _. Grows-PhaseOk id_before s.store t s.written es (s.phases x) grows (v.phases_ok x));
    in_order = o;
  }

  -- The same, where neither the store nor the records change.
  walks-IsValid :
      (w : ℕ) (p : Phase) (s : Relay) (g : ℕ → ℕ → Bool)
      → IsValid id_before s
      → PhaseOk id_before s.store s.written p
      → IsValid id_before (record s { phases = set_phase w p s.phases; gates = g })
  walks-IsValid w p s g v h =
      goes-IsValid w p s s.store s.written g v v.keyed
        (record {
          keeps = λ j a f. (a, f, refl);
          from = λ j b f. inl (b, f, refl);
          writes = λ j h'. h';
        })
        v.published_written v.in_order h

  Evolves-Grows :
      (Q : String → Type 0) (t t' : Table String Message) (es : List (String × Message))
      → Evolves Q t t'
      → Grows id_before t t' es es
  Evolves-Grows Q t t' es e = record {
    keeps = e.keeps;
    from = λ j b f. let (a, fa, same, _) = e.comes j b f in inl (a, fa, same);
    writes = λ j h. h;
  }

  stored-IsValid :
      (Q : String → Type 0) (w : ℕ) (p : Phase) (s : Relay) (t : Table String Message)
      (g : ℕ → ℕ → Bool)
      → IsValid id_before s
      → Evolves Q s.store t
      → IsKeyed t
      → ((j : String) → Q j → is_written j s.written ≡ true)
      → PhaseOk id_before t s.written p
      → IsValid id_before (record s { store = t; phases = set_phase w p s.phases; gates = g })
  stored-IsValid Q w p s t g v e u q h =
      goes-IsValid w p s t s.written g v u (Evolves-Grows Q s.store t s.written e)
        (λ j b f o.
          let (a, fa, _, was) = e.comes j b f in
          elim (was o) [ inl x ↦ v.published_written j a fa x | inr x ↦ q j x ])
        (Grows-InOrder id_before s.store t s.written (Evolves-Grows Q s.store t [] e) v.in_order) h

  -- The same, where a statement may change the store.
  stores-IsValid :
      (Q : String → Type 0) (r : Reply) (w : ℕ) (p : Phase) (s : Relay) (t : Table String Message)
      (g : ℕ → ℕ → Bool)
      → IsValid id_before s
      → Evolves Q s.store t
      → IsKeyed t
      → ((j : String) → Q j → is_written j s.written ≡ true)
      → PhaseOk id_before (commit r s.store t) s.written p
      → IsValid id_before
          (record s { store = commit r s.store t; phases = set_phase w p s.phases; gates = g })
  stores-IsValid Q fails w p s t g v e u q h = walks-IsValid w p s g v h
  stores-IsValid Q fine w p s t g v e u q h = stored-IsValid Q w p s t g v e u q h
  stores-IsValid Q unseen w p s t g v e u q h = stored-IsValid Q w p s t g v e u q h

  claimed-PhaseOk :
      (r : Reply) (t t' : Table String Message) (es : List (String × Message))
      (found : Option (String × Message))
      → ((k : String) (m : Message) → found ≡ some (k, m) → lookup k t' ≡ some m)
      → PhaseOk id_before (commit r t t') es (claimed_phase r found)
  claimed-PhaseOk fine t t' es (some (k, m)) h = (m, h k m refl, refl)
  claimed-PhaseOk fine t t' es none h = tt
  claimed-PhaseOk fails t t' es found h = tt
  claimed-PhaseOk unseen t t' es found h = tt

  claim-IsValid :
      (w : ℕ) (e : Turn) (s : Relay)
      → IsValid id_before s
      → IsValid id_before (claim_step id_before cfg ws w e s)
  unfolding claim_step
  claim-IsValid w e s v =
      let found =
        claim_next id_before (ws.owner w) e.now cfg.lease_duration (ws.affinity w) s.store in
      stores-IsValid Nobody e.reply w _ s found.0 s.gates v
        (claim-Evolves id_before _ _ _ _ s.store v.keyed)
        (claim-IsKeyed id_before _ _ _ _ s.store v.keyed) (λ j q. absurd q)
        (claimed-PhaseOk e.reply s.store found.0 s.written found.1
          (λ k m h. claim-lookup id_before _ _ _ _ s.store k m h))

  gate-IsValid :
      (w : ℕ) (e : Turn) (k : String) (m : Message) (s : Relay)
      → IsValid id_before s
      → IsKnown k m s.store
      → IsValid id_before (gate_step id_before cfg ws w e k m s)
  unfolding gate_step
  gate-IsValid w e k m s v h =
      if_holds (IsValid id_before) e.cancelled _ _ (λ _. walks-IsValid w idle s s.gates v tt)
        λ _.
          if_holds (IsValid id_before) (s.gates (ws.process w) m.lesson_id) _ _
            (λ _. walks-IsValid w (defers k m) s s.gates v tt)
            (λ _. walks-IsValid w (gated k m) s _ v h)

  order-IsValid :
      (w : ℕ) (e : Turn) (k : String) (m : Message) (s : Relay)
      → IsValid id_before s
      → IsKnown k m s.store
      → IsValid id_before (order_step id_before cfg ws w e k m s)
  unfolding order_step
  order-IsValid w e k m s v h = elim (Reply-cases e.reply) [
    | inl r ↦
        rw (r, order_step)
          (if_holds (IsValid id_before) (has_earlier_unpublished id_before m s.store) _ _
            (λ _. walks-IsValid w (defers k m) s _ v tt)
            (λ clear. walks-IsValid w (cleared k m 1) s s.gates v (h, due clear)))
    | inr (inl r) ↦ rw (r, order_step) (walks-IsValid w (defers k m) s _ v tt)
    | inr (inr r) ↦ rw (r, order_step) (walks-IsValid w (defers k m) s _ v tt)
  ]
    where
      due :
          has_earlier_unpublished id_before m s.store ≡ false → IsDue id_before m s.store s.written
      due clear j a f p =
          v.published_written j a f (has_earlier-published id_before m s.store j a clear f p)

  is_written-later :
      (j k : String) (m : Message) (es : List (String × Message))
      → is_written j es ≡ true
      → is_written j ((k, m) ∷ es) ≡ true
  unfolding is_written
  is_written-later j k m es h = ground (arith, h)

  written-IsValid :
      (w : ℕ) (p : Phase) (k : String) (m : Message) (s : Relay) (g : ℕ → ℕ → Bool)
      → IsValid id_before s
      → IsKnown k m s.store
      → IsDue id_before m s.store s.written
      → PhaseOk id_before s.store ((k, m) ∷ s.written) p
      → IsValid id_before
          (record s { written = (k, m) ∷ s.written; phases = set_phase w p s.phases; gates = g })
  written-IsValid w p k m s g v known due h =
      goes-IsValid w p s s.store ((k, m) ∷ s.written) g v v.keyed
        (record {
          keeps = λ j a f. (a, f, refl);
          from = λ j b f. inl (b, f, refl);
          writes = λ j x. is_written-later j k m s.written x;
        })
        (λ j a f o. is_written-later j k m s.written (v.published_written j a f o))
        ((known, due), v.in_order) h

  write-IsValid :
      (w : ℕ) (e : Turn) (n : ℕ) (k : String) (m : Message) (s : Relay)
      → IsValid id_before s
      → IsKnown k m s.store
      → IsDue id_before m s.store s.written
      → IsValid id_before (write_step id_before cfg ws w e n k m s)
  unfolding write_step is_written
  write-IsValid w e n k m s v known due = elim (Reply-cases e.reply) [
    | inl r ↦
        rw (r, write_step)
          (written-IsValid w (sent k m) k m s s.gates v known due (ground (arith, beq_refl k)))
    | inr (inl r) ↦
        rw (r, write_step)
          (if_holds (IsValid id_before) (leb cfg.retry_attempts n || e.cancelled) _ _
            (λ _. walks-IsValid w (retries k m) s _ v tt)
            (λ _. walks-IsValid w (cleared k m (n + 1)) s s.gates v (known, due)))
    | inr (inr r) ↦
        rw (r, write_step)
          (if_holds (IsValid id_before) (leb cfg.retry_attempts n || e.cancelled) _ _
            (λ _. written-IsValid w (retries k m) k m s _ v known due tt)
            (λ _.
              written-IsValid w (cleared k m (n + 1)) k m s s.gates v known due
                (known, λ j a f p. is_written-later j k m s.written (due j a f p))))
  ]

  pub phase-IsValid :
      (w : ℕ) (e : Turn) (s : Relay) (p : Phase)
      → IsValid id_before s
      → PhaseOk id_before s.store s.written p
      → IsValid id_before (phase_step id_before cfg ws w e s p)
  unfolding phase_step defer_for_ordering mark_retry mark_published
  phase-IsValid w e s idle v h = claim-IsValid w e s v
  phase-IsValid w e s (holds k m) v h = gate-IsValid w e k m s v h
  phase-IsValid w e s (gated k m) v h = order-IsValid w e k m s v h
  phase-IsValid w e s (cleared k m n) v h = write-IsValid w e n k m s v h.0 h.1
  phase-IsValid w e s (defers k m) v h =
      stores-IsValid Nobody e.reply w idle s _ s.gates v (defer-Evolves k (ws.owner w) _ s.store)
        (update_leased-IsKeyed k _ _ s.store v.keyed) (λ j q. absurd q) tt
  phase-IsValid w e s (retries k m) v h =
      stores-IsValid Nobody e.reply w idle s _ s.gates v (retry-Evolves k (ws.owner w) _ _ s.store)
        (update_leased-IsKeyed k _ _ s.store v.keyed) (λ j q. absurd q) tt
  phase-IsValid w e s (sent k m) v h =
      stores-IsValid (λ j. j ≡ k) e.reply w idle s _ _ v
        (mark_published-Evolves k (ws.owner w) e.now s.store)
        (update_leased-IsKeyed k _ _ s.store v.keyed)
        (λ j q. ap (λ x. is_written x s.written) q ∙ h) tt

  pub restart-IsValid :
      (i : ℕ) (s : Relay) → IsValid id_before s → IsValid id_before (restart id_before cfg ws i s)
  unfolding restart
  restart-IsValid i s v = record {
    keyed = v.keyed;
    published_written = v.published_written;
    phases_ok = λ w.
        if_holds (PhaseOk id_before s.store s.written) (nat_beq (ws.process w) i) _ _ (λ _. tt)
          (λ _. v.phases_ok w);
    in_order = v.in_order;
  }
