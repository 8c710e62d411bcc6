-- ===== src/Outbox/Order.antt =====
-- The order in which messages reach Kafka, internal/rpc/chat/kafka_dispatcher.go.
use liveclass.Prelude.{
  ◌≡◌, refl, sym, ap, ◌∙◌, Bool, true, false, String, none, some, List, [], ◌∷◌, Table, lookup, put,
  lookup-put_kept, lookup-put_cases, put-IsKeyed, some_inj, string_eq, inl, inr,
}
use mathlib.Core.Path.{subst}
use liveclass.Outbox.{Message, is_published, precedes, new_message}
use liveclass.Outbox.Relay.{
  OutboxConfig, Workers, Relay, idle_relay, worker_step, RelayStep, sends, turns, restarts,
  relay_step, run_relay,
}
use liveclass.Outbox.Updates.{insert-cases}
use liveclass.Outbox.Invariant.{is_written, InOrder, IsValid, Grows, Grows-PhaseOk, Grows-InOrder}
use liveclass.Outbox.Steps.{phase-IsValid, restart-IsValid}

module _ (id_before : String → String → Bool) (cfg : OutboxConfig) (ws : Workers) where
  -- A message that is sent precedes no message that is stored.
  abbrev pub IsLate : Message → Table String Message → Type 0
  IsLate m t = (k : String) (a : Message) → lookup k t ≡ some a → precedes id_before m a ≡ false

  abbrev pub Allowed : Relay → RelayStep → Type 0
  Allowed s (sends id client lesson sender content now) =
      IsLate (new_message id client lesson sender content now) s.store
  Allowed s (turns w e) = Unit
  Allowed s (restarts i) = Unit

  -- Every message of a run is sent in the order of messages.
  abbrev pub AllAllowed : Relay → List RelayStep → Type 0
  AllAllowed s [] = Unit
  AllAllowed s (c ∷ cs) = Allowed s c × AllAllowed (relay_step id_before cfg ws s c) cs

  stored-IsValid :
      (m : Message) (s : Relay)
      → IsValid id_before s
      → IsLate m s.store
      → is_published m ≡ false
      → lookup m.message_id s.store ≡ none
      → IsValid id_before (record s { store = put m.message_id m s.store })
  stored-IsValid m s v late new fresh = record {
    keyed = put-IsKeyed m.message_id m s.store v.keyed;
    published_written = λ j a f o. elim (lookup-put_cases m.message_id j m s.store) [
      | inl (_, at) ↦ cc (o, new, ap is_published (some_inj (sym at ∙ f)))
      | inr at ↦ v.published_written j a (sym at ∙ f) o
    ];
    phases_ok = λ w.
        Grows-PhaseOk id_before s.store (put m.message_id m s.store) s.written s.written
          (s.phases w) (grows s.written) (v.phases_ok w);
    in_order =
        Grows-InOrder id_before s.store (put m.message_id m s.store) s.written (grows [])
          v.in_order;
  }
    where
      grows :
          (es : List (String × Message))
          → Grows id_before s.store (put m.message_id m s.store) es es
      grows es = record {
        keeps = λ j a f. (a, lookup-put_kept m.message_id j m a s.store fresh f, refl);
        from = λ j b f. elim (lookup-put_cases m.message_id j m s.store) [
          | inl (_, at) ↦
              inr (λ k a g.
                ap (λ x. precedes id_before x a) (sym (some_inj (sym at ∙ f))) ∙ late k a g)
          | inr at ↦ inl (b, sym at ∙ f, refl)
        ];
        writes = λ j h. h;
      }

  relay_step-IsValid :
      (s : Relay) (c : RelayStep)
      → IsValid id_before s
      → Allowed s c
      → IsValid id_before (relay_step id_before cfg ws s c)
  unfolding relay_step worker_step
  relay_step-IsValid s (turns w e) v a =
      phase-IsValid id_before cfg ws w e s (s.phases w) v (v.phases_ok w)
  relay_step-IsValid s (restarts i) v a = restart-IsValid id_before cfg ws i s v
  relay_step-IsValid s (sends id client lesson sender content now) v a =
      let m = new_message id client lesson sender content now in
      elim (insert-cases m s.store) [
        | inl e ↦
            subst (λ (t : Table String Message). IsValid id_before (record s { store = t })) (sym e)
              v
        | inr (fresh, e) ↦
            subst (λ (t : Table String Message). IsValid id_before (record s { store = t })) (sym e)
              (stored-IsValid m s v a refl fresh)
      ]

  run_relay-IsValid :
      (s : Relay) (cs : List RelayStep)
      → IsValid id_before s
      → AllAllowed s cs
      → IsValid id_before (run_relay id_before cfg ws s cs)
  unfolding run_relay
  run_relay-IsValid s [] v a = v
  run_relay-IsValid s (c ∷ cs) v a =
      run_relay-IsValid (relay_step id_before cfg ws s c) cs (relay_step-IsValid s c v a.0) a.1

  idle_relay-IsValid : IsValid id_before idle_relay
  unfolding idle_relay lookup
  idle_relay-IsValid = record {
    keyed = tt;
    published_written = λ j a f o. cc;
    phases_ok = λ w. tt;
    in_order = tt;
  }

  -- From an empty collection, however any number of workers, in any number of processes, come
  -- between each other, whatever statements and writes fail, or take effect and report a failure,
  -- and whichever processes restart: if no message is sent that precedes a stored one of its
  -- lesson, each Kafka record was written after one of every stored message of the lesson that
  -- precedes it, and every message that is marked as published was written.
  pub run_relay-InOrder :
      (cs : List RelayStep)
      → AllAllowed idle_relay cs
      → let s = run_relay id_before cfg ws idle_relay cs in
        InOrder id_before s.store s.written
        × ((j : String) (a : Message)
            → lookup j s.store ≡ some a
            → is_published a ≡ true
            → is_written j s.written ≡ true)
  run_relay-InOrder cs a =
      let v = run_relay-IsValid idle_relay cs idle_relay-IsValid a in
      (v.in_order, v.published_written)
