-- ===== src/Outbox/Updates.antt =====
-- What the statements of internal/rpc/chat/dao/mongo.go leave of a message: its place in the order
-- never changes, and only MarkOutboxPublished publishes it.
use liveclass.Prelude.{
  ℕ, ◌+◌, ◌≡◌, refl, sym, ap, ◌∙◌, Bool, true, false, String, Option, none, some, [], ◌∷◌, Table,
  lookup, put, lookup-put_self, lookup-put_cases, IsKeyed, put-IsKeyed, lookup-rest, some_inj,
  if_holds, string_eq, nat_eq, Option-cases, inl, inr, ◌⊎◌, arith, beq_refl,
}
use mathlib.Core.Path.{subst}
use liveclass.Outbox.{
  OutboxState, Message, is_published, owned_by, update_leased, defer_for_ordering, mark_published,
  mark_retry, claimed, claim_next, find_first, is_claimable, precedes, has_earlier_unpublished,
  insert_mongo, insert_message_idempotent,
}

-- What the order of messages reads.
pub record Head : Type 0 where
  pub message_id : String
  pub lesson_id : ℕ
  pub created_at : ℕ

abbrev pub head : Message → Head
head m = record { message_id = m.message_id; lesson_id = m.lesson_id; created_at = m.created_at }

-- The rows of `t` stand in `t'` under their keys with their heads.
abbrev pub Keeps : Table String Message → Table String Message → Type 0
Keeps t t' =
    (j : String) (a : Message)
    → lookup j t ≡ some a
    → (b : Message) × (lookup j t' ≡ some b) × (head b ≡ head a)

-- The rows of `t'` come from `t`, and those that are published were so, or are under a key of `Q`.
abbrev pub ComesFrom : (String → Type 0) → Table String Message → Table String Message → Type 0
ComesFrom Q t t' =
    (j : String) (b : Message)
    → lookup j t' ≡ some b
    → (a : Message) × (lookup j t ≡ some a)
      × (head b ≡ head a)
      × ((is_published b ≡ true) → (is_published a ≡ true) ⊎ Q j)

pub record Evolves (Q : String → Type 0) (t t' : Table String Message) : Type 0 where
  pub keeps : Keeps t t'
  pub comes : ComesFrom Q t t'

pub stays : (Q : String → Type 0) (t : Table String Message) → Evolves Q t t
stays Q t = record { keeps = λ j a h. (a, h, refl); comes = λ j b h. (b, h, refl, λ p. inl p) }

-- A row written over another one with its head.
pub put-Evolves :
    (Q : String → Type 0) (k : String) (m n : Message) (t : Table String Message)
    → lookup k t ≡ some m
    → head n ≡ head m
    → (is_published n ≡ true → (is_published m ≡ true) ⊎ Q k)
    → Evolves Q t (put k n t)
put-Evolves Q k m n t h same new = record {
  keeps = λ j a f. elim (lookup-put_cases k j n t) [
    | inl (e, at) ↦ (n, at, same ∙ ap head (some_inj (sym h ∙ ap (λ x. lookup x t) e ∙ f)))
    | inr at ↦ (a, at ∙ f, refl)
  ];
  comes = λ j b f. elim (lookup-put_cases k j n t) [
    | inl (e, at) ↦
        let here : n ≡ b = some_inj (sym at ∙ f) in
        (
          m,
          ap (λ x. lookup x t) (sym e) ∙ h,
          ap head (sym here) ∙ same,
          λ p. elim (new (ap is_published here ∙ p)) [
            | inl was ↦ inl was
            | inr q ↦ inr (subst Q e q)
          ],
        )
    | inr at ↦ (b, sym at ∙ f, refl, λ p. inl p)
  ];
}

-- A leased row whose outbox is updated.
update_leased-Evolves :
    (Q : String → Type 0) (k owner : String) (f : OutboxState → OutboxState)
    (t : Table String Message)
    → ((m : Message) → is_published (record m { outbox = f m.outbox }) ≡ true → Q k)
    → Evolves Q t (update_leased k owner f t).0
unfolding update_leased
update_leased-Evolves Q k owner f t new = elim (Option-cases (lookup k t)) [
  | inl e ↦ rw (e, update_leased) (stays Q t)
  | inr (m, e) ↦
      rw (e, update_leased)
        (if_holds (λ (x : Table String Message × Bool). Evolves Q t x.0) (owned_by owner m) _ _
          (λ _. put-Evolves Q k m (record m { outbox = f m.outbox }) t e refl (λ p. inr (new m p)))
          (λ _. stays Q t))
]

abbrev pub Nobody : String → Type 0
Nobody k = ⊥

pub defer-Evolves :
    (k owner : String) (next : ℕ) (t : Table String Message)
    → Evolves Nobody t (defer_for_ordering k owner next t).0
unfolding defer_for_ordering
defer-Evolves k owner next t = update_leased-Evolves Nobody k owner _ t (λ m p. ground (arith, p))

pub retry-Evolves :
    (k owner text : String) (next : ℕ) (t : Table String Message)
    → Evolves Nobody t (mark_retry k owner text next t).0
unfolding mark_retry
retry-Evolves k owner text next t =
    update_leased-Evolves Nobody k owner _ t (λ m p. ground (arith, p))

pub mark_published-Evolves :
    (k owner : String) (at : ℕ) (t : Table String Message)
    → Evolves (λ j. j ≡ k) t (mark_published k owner at t).0
unfolding mark_published
mark_published-Evolves k owner at t = update_leased-Evolves (λ j. j ≡ k) k owner _ t (λ m p. refl)

pub update_leased-IsKeyed :
    (k owner : String) (f : OutboxState → OutboxState) (t : Table String Message)
    → IsKeyed t
    → IsKeyed (update_leased k owner f t).0
unfolding update_leased
update_leased-IsKeyed k owner f t u = elim (Option-cases (lookup k t)) [
  | inl e ↦ rw (e, update_leased) u
  | inr (m, e) ↦
      rw (e, update_leased)
        (if_holds (λ (x : Table String Message × Bool). IsKeyed x.0) (owned_by owner m) _ _
          (λ _. put-IsKeyed k _ t u) (λ _. u))
]

module _ (id_before : String → String → Bool) where
  find_first-cases :
      (p : Message → Bool) (x : String × Message) (j : String) (w : Message)
      (t : Table String Message)
      → find_first id_before p ((j, w) ∷ t) ≡ some x
      → (x ≡ (j, w)) ⊎ (find_first id_before p t ≡ some x)
  unfolding find_first
  find_first-cases p x j w t h = ground (arith, h)

  pub find_first-lookup :
      (p : Message → Bool) (k : String) (m : Message) (t : Table String Message)
      → IsKeyed t
      → find_first id_before p t ≡ some (k, m)
      → lookup k t ≡ some m
  unfolding find_first lookup
  find_first-lookup p k m [] u h = cc
  find_first-lookup p k m ((j, w) ∷ t) u h = elim (find_first-cases p (k, m) j w t h) [
    | inl e ↦
        ground (arith, ap (λ x. x.0) e, ap (λ x. x.1) e, beq_refl j, string_eq.same_key_iff j k)
    | inr rest ↦ lookup-rest k j m w t u.0 (find_first-lookup p k m t u.1 rest)
  ]

  pub claim-Evolves :
      (owner : String) (now lease : ℕ) (affinity : Option (ℕ × ℕ)) (t : Table String Message)
      → IsKeyed t
      → Evolves Nobody t (claim_next id_before owner now lease affinity t).0
  unfolding claim_next
  claim-Evolves owner now lease affinity t u =
      elim (Option-cases (find_first id_before (is_claimable now affinity) t)) [
        | inl e ↦ rw (e, claim_next) (stays Nobody t)
        | inr ((k, m), e) ↦
            rw (e, claim_next)
              (put-Evolves Nobody k m _ t (find_first-lookup _ k m t u e) refl
                (λ p. ground (arith, p)))
      ]

  pub claim-IsKeyed :
      (owner : String) (now lease : ℕ) (affinity : Option (ℕ × ℕ)) (t : Table String Message)
      → IsKeyed t
      → IsKeyed (claim_next id_before owner now lease affinity t).0
  unfolding claim_next
  claim-IsKeyed owner now lease affinity t u =
      elim (Option-cases (find_first id_before (is_claimable now affinity) t)) [
        | inl e ↦ rw (e, claim_next) u
        | inr ((k, m), e) ↦ rw (e, claim_next) (put-IsKeyed k _ t u)
      ]

  -- What a claim that returns a message has found and written.
  pub claim-result :
      (owner : String) (now lease : ℕ) (affinity : Option (ℕ × ℕ)) (t : Table String Message)
      (k : String) (m : Message)
      → (claim_next id_before owner now lease affinity t).1 ≡ some (k, m)
      → (x : Message) × (find_first id_before (is_claimable now affinity) t ≡ some (k, x))
        × (claimed owner (now + lease) x ≡ m)
        × ((claim_next id_before owner now lease affinity t).0 ≡ put k m t)
  unfolding claim_next
  claim-result owner now lease affinity t k m h =
      let claim = claim_next id_before owner now lease affinity t in
      let found : Table String Message × Option (String × Message) → Option (String × Message) =
        λ x. x.1 in
      elim (Option-cases (find_first id_before (is_claimable now affinity) t)) [
        | inl e ↦ let q : claim ≡ (t, none) = rw (e, claim_next) refl in cc (h, ap found q)
        | inr ((i, n), e) ↦
            let n' = claimed owner (now + lease) n in
            let q : claim ≡ (put i n' t, some (i, n')) = rw (e, claim_next) refl in
            let same : (i, n') ≡ (k, m) = some_inj (sym (ap found q) ∙ h) in
            let key : i ≡ k = ap (λ (x : String × Message). x.0) same in
            (
              n,
              e ∙ ap (λ j. some (j, n)) key,
              ap (λ (x : String × Message). x.1) same,
              ap (λ (x : Table String Message × Option (String × Message)). x.0) q
                  ∙ ap (λ (x : String × Message). put x.0 x.1 t) same,
            )
      ]

  -- The message of a claim stands in the store that the claim leaves.
  pub claim-lookup :
      (owner : String) (now lease : ℕ) (affinity : Option (ℕ × ℕ)) (t : Table String Message)
      (k : String) (m : Message)
      → (claim_next id_before owner now lease affinity t).1 ≡ some (k, m)
      → lookup k (claim_next id_before owner now lease affinity t).0 ≡ some m
  claim-lookup owner now lease affinity t k m h =
      let (_, _, _, left) = claim-result owner now lease affinity t k m h in
      ap (lookup k) left ∙ lookup-put_self k m t

  -- What HasEarlierUnpublished excludes: whatever precedes the message is published.
  pub has_earlier-published :
      (m : Message) (t : Table String Message) (j : String) (a : Message)
      → has_earlier_unpublished id_before m t ≡ false
      → lookup j t ≡ some a
      → precedes id_before a m ≡ true
      → is_published a ≡ true
  unfolding has_earlier_unpublished lookup
  has_earlier-published m [] j a h f p = cc
  has_earlier-published m ((k, b) ∷ t) j a h f p =
      ground (arith, has_earlier-published m t j a, h, f, p)

-- Whether and where a message is inserted.
pub insert-cases :
    (m : Message) (t : Table String Message)
    → ((insert_message_idempotent m t).0 ≡ t)
      ⊎ ((lookup m.message_id t ≡ none)
          × ((insert_message_idempotent m t).0 ≡ put m.message_id m t))
unfolding insert_message_idempotent insert_mongo
insert-cases m t = ground arith
