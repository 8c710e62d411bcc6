-- ===== src/Outbox/Invariant.antt =====
-- What holds of the relay, internal/rpc/chat/kafka_dispatcher.go, between any two steps of its
-- workers.
use liveclass.Prelude.{
  ℕ, ◌≡◌, refl, sym, ap, ◌∙◌, Bool, true, false, ◌&&◌, ◌||◌, String, some, List, [], ◌∷◌, Table,
  lookup, IsKeyed, ltb, ◌==◌, nat_eq, string_eq, inl, inr, ◌⊎◌,
}
use liveclass.Outbox.{Message, is_published, precedes}
use liveclass.Outbox.Relay.{Phase, idle, holds, gated, defers, retries, sent, cleared, Relay}
use liveclass.Outbox.Updates.{Head, head, Keeps}

unfoldable pub is_written : String → List (String × Message) → Bool
is_written k [] = false
is_written k ((j, m) ∷ es) = j == k || is_written k es

-- The message that a worker holds is in the store.
abbrev pub IsKnown : String → Message → Table String Message → Type 0
IsKnown k m t = (a : Message) × (lookup k t ≡ some a) × (head a ≡ head m)

module _ (id_before : String → String → Bool) where
  -- Whatever precedes the message has been written.
  abbrev pub IsDue : Message → Table String Message → List (String × Message) → Type 0
  IsDue m t es =
      (j : String) (a : Message)
      → lookup j t ≡ some a
      → precedes id_before a m ≡ true
      → is_written j es ≡ true

  abbrev pub PhaseOk : Table String Message → List (String × Message) → Phase → Type 0
  PhaseOk t es idle = Unit
  PhaseOk t es (holds k m) = IsKnown k m t
  PhaseOk t es (gated k m) = IsKnown k m t
  PhaseOk t es (defers k m) = Unit
  PhaseOk t es (retries k m) = Unit
  PhaseOk t es (sent k m) = is_written k es ≡ true
  PhaseOk t es (cleared k m n) = IsKnown k m t × IsDue m t es

  -- Every record was written after all messages that precede it.
  abbrev pub InOrder : Table String Message → List (String × Message) → Type 0
  InOrder t [] = Unit
  InOrder t ((k, m) ∷ es) = (IsKnown k m t × IsDue m t es) × InOrder t es

  pub record IsValid (s : Relay) : Type 0 where
    pub keyed : IsKeyed s.store
    pub published_written :
        (j : String) (a : Message)
        → lookup j s.store ≡ some a
        → is_published a ≡ true
        → is_written j s.written ≡ true
    pub phases_ok : (w : ℕ) → PhaseOk s.store s.written (s.phases w)
    pub in_order : InOrder s.store s.written

  precedes-head :
      (a b m n : Message)
      → head a ≡ head b
      → head m ≡ head n
      → precedes id_before a m ≡ precedes id_before b n
  precedes-head a b m n e f =
      ap (λ (h : Head). precedes_heads h (head m)) e ∙ ap (precedes_heads (head b)) f
    where
      precedes_heads : Head → Head → Bool
      precedes_heads h i =
          (h.lesson_id == i.lesson_id)
          && (ltb h.created_at i.created_at
              || ((h.created_at == i.created_at) && id_before h.message_id i.message_id))

  -- How the store and the written records change under what a worker relies on.
  pub record Grows (t t' : Table String Message) (es es' : List (String × Message)) : Type 0 where
    pub keeps : Keeps t t'
    pub from :
        (j : String) (b : Message)
        → lookup j t' ≡ some b
        → ((a : Message) × (lookup j t ≡ some a) × (head b ≡ head a))
          ⊎ ((k : String) (a : Message) → lookup k t ≡ some a → precedes id_before b a ≡ false)
    pub writes : (j : String) → is_written j es ≡ true → is_written j es' ≡ true

  Grows-IsKnown :
      (k : String) (m : Message) (t t' : Table String Message) (es es' : List (String × Message))
      → Grows t t' es es'
      → IsKnown k m t
      → IsKnown k m t'
  Grows-IsKnown k m t t' es es' g (a, f, e) = let (b, f', e') = g.keeps k a f in (b, f', e' ∙ e)

  Grows-IsDue :
      (k : String) (m : Message) (t t' : Table String Message) (es es' : List (String × Message))
      → Grows t t' es es'
      → IsKnown k m t
      → IsDue m t es
      → IsDue m t' es'
  Grows-IsDue k m t t' es es' g (x, fx, ex) d j b f p = elim (g.from j b f) [
    | inl (a, fa, ea) ↦ g.writes j (d j a fa (precedes-head a b m m (sym ea) refl ∙ p))
    | inr late ↦ cc (late k x fx, p, precedes-head b b x m refl ex)
  ]

  pub Grows-PhaseOk :
      (t t' : Table String Message) (es es' : List (String × Message)) (p : Phase)
      → Grows t t' es es'
      → PhaseOk t es p
      → PhaseOk t' es' p
  Grows-PhaseOk t t' es es' idle g h = tt
  Grows-PhaseOk t t' es es' (holds k m) g h = Grows-IsKnown k m t t' es es' g h
  Grows-PhaseOk t t' es es' (gated k m) g h = Grows-IsKnown k m t t' es es' g h
  Grows-PhaseOk t t' es es' (defers k m) g h = tt
  Grows-PhaseOk t t' es es' (retries k m) g h = tt
  Grows-PhaseOk t t' es es' (sent k m) g h = g.writes k h
  Grows-PhaseOk t t' es es' (cleared k m n) g h =
      (Grows-IsKnown k m t t' es es' g h.0, Grows-IsDue k m t t' es es' g h.0 h.1)

  -- The records themselves stay in order when the store changes.
  pub Grows-InOrder :
      (t t' : Table String Message) (es : List (String × Message))
      → Grows t t' [] []
      → InOrder t es
      → InOrder t' es
  Grows-InOrder t t' [] g h = tt
  Grows-InOrder t t' ((k, m) ∷ es) g h =
      let same : Grows t t' es es = record { keeps = g.keeps; from = g.from; writes = λ j w. w } in
      (
        (Grows-IsKnown k m t t' es es same h.0.0, Grows-IsDue k m t t' es es same h.0.0 h.0.1),
        Grows-InOrder t t' es g h.1,
      )
