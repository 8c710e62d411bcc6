-- ===== src/Outbox/Inserts.antt =====
-- Sending again and claiming twice, internal/rpc/chat/dao/mongo.go.
use liveclass.Prelude.{
  ℕ, ◌+◌, ◌<◌, ◌≡◌, ◌≢◌, refl, sym, ap, ◌∙◌, Bool, true, false, String, Option, none, some, [], ◌∷◌,
  Table, lookup, put, IsKeyed, some_inj, ◌==◌, nat_eq, string_eq, beq_refl, Option-cases, inl, inr,
  ◌⊎◌, arith,
}
use liveclass.Outbox.{
  Message, Inserted, InsertError, no_documents, persisted, refused, is_claimable, find_client,
  compare_content, insert_mongo, insert_message_idempotent, find_first, claim_next,
}
use liveclass.Outbox.Updates.{claim-result, claim-lookup, claim-IsKeyed, find_first-lookup}

-- Two requests of one sender with one client_message_id and the same content.
pub record IsRepeat (m n : Message) : Type 0 where
  pub named : m.client_message_id ≢ ""
  pub client : n.client_message_id ≡ m.client_message_id
  pub sender : n.sender_id ≡ m.sender_id
  pub lesson : n.lesson_id ≡ m.lesson_id
  pub content : n.content ≡ m.content

find_client-put :
    (m : Message) (t : Table String Message)
    → lookup m.message_id t ≡ none
    → find_client m.sender_id m.client_message_id t ≡ none
    → find_client m.sender_id m.client_message_id (put m.message_id m t) ≡ some m
unfolding find_client lookup put
find_client-put m [] f h = ground (arith, beq_refl m.sender_id, beq_refl m.client_message_id)
find_client-put m ((k, a) ∷ t) f h = ground (arith, f, h, find_client-put m t)

-- The three ways in which a request with a client_message_id ends.
insert-results :
    (m : Message) (t : Table String Message)
    → m.client_message_id ≢ ""
    → ((old : Message) × (find_client m.sender_id m.client_message_id t ≡ some old)
        × (insert_message_idempotent m t ≡ (t, compare_content m old)))
      ⊎ (((find_client m.sender_id m.client_message_id t ≡ none)
            × (lookup m.message_id t ≡ none)
            × (insert_message_idempotent m t ≡ (put m.message_id m t, compare_content m m)))
          ⊎ ((x : InsertError) × ((insert_message_idempotent m t).1 ≡ refused x)))
unfolding insert_message_idempotent insert_mongo
insert-results m t named =
    let is_named : (m.client_message_id == "") ≡ false =
      ground (arith, named, string_eq.same_key_iff m.client_message_id "") in
    elim (Option-cases (find_client m.sender_id m.client_message_id t)) [
      | inl e ↦ elim (Option-cases (lookup m.message_id t)) [
        | inl f ↦
            inr (inl (e, f, rw (is_named, e, insert_message_idempotent, f, insert_mongo) refl))
        | inr (a, f) ↦
            inr (
              inr (no_documents, rw (is_named, e, insert_message_idempotent, f, insert_mongo) refl))
      ]
      | inr (old, e) ↦ inl (old, e, rw (is_named, e, insert_message_idempotent) refl)
    ]

persisted_inj : {p q : Message} {b c : Bool} → persisted p b ≡ persisted q c → (p ≡ q) × (b ≡ c)
persisted_inj h = ground (arith, h)

compare-persisted :
    (m old p : Message) (b : Bool)
    → compare_content m old ≡ persisted p b
    → (old ≡ p) × (old.lesson_id ≡ m.lesson_id) × (old.content ≡ m.content)
compare-persisted m old p b h = ground (
  arith,
  h,
  nat_eq.same_key_iff old.lesson_id m.lesson_id,
  string_eq.same_key_iff old.content m.content,
)

compare-same :
    (m old : Message)
    → old.lesson_id ≡ m.lesson_id
    → old.content ≡ m.content
    → compare_content m old ≡ persisted old (old.message_id == m.message_id)
compare-same m old h k = ground (
  arith,
  h,
  k,
  nat_eq.same_key_iff old.lesson_id m.lesson_id,
  string_eq.same_key_iff old.content m.content,
)

-- After a message was stored or found, its document is found.
insert-find :
    (m p : Message) (b : Bool) (t : Table String Message)
    → m.client_message_id ≢ ""
    → (insert_message_idempotent m t).1 ≡ persisted p b
    → (find_client m.sender_id m.client_message_id (insert_message_idempotent m t).0 ≡ some p)
      × (p.lesson_id ≡ m.lesson_id)
      × (p.content ≡ m.content)
insert-find m p b t named h =
    let answer : Table String Message × Inserted → Inserted = λ x. x.1 in
    elim (insert-results m t named) [
      | inl (old, e, q) ↦
          let (same, l, c) = compare-persisted m old p b (sym (ap answer q) ∙ h) in
          (
            ap
                  (λ (x : Table String Message × Inserted).
                    find_client m.sender_id m.client_message_id x.0)
                  q
                ∙ e
                ∙ ap some same,
            ap (λ x. x.lesson_id) (sym same) ∙ l,
            ap (λ x. x.content) (sym same) ∙ c,
          )
      | inr (inl (e, f, q)) ↦
          let (same, l, c) = compare-persisted m m p b (sym (ap answer q) ∙ h) in
          (
            ap
                  (λ (x : Table String Message × Inserted).
                    find_client m.sender_id m.client_message_id x.0)
                  q
                ∙ find_client-put m t f e
                ∙ ap some same,
            ap (λ x. x.lesson_id) (sym same),
            ap (λ x. x.content) (sym same),
          )
      | inr (inr (x, q)) ↦ ground (arith, sym q ∙ h)
    ]

insert-found :
    (n p : Message) (t : Table String Message)
    → n.client_message_id ≢ ""
    → find_client n.sender_id n.client_message_id t ≡ some p
    → insert_message_idempotent n t ≡ (t, compare_content n p)
unfolding insert_message_idempotent
insert-found n p t named e =
    let is_named : (n.client_message_id == "") ≡ false =
      ground (arith, named, string_eq.same_key_iff n.client_message_id "") in
    rw (is_named, e, insert_message_idempotent) refl

-- A request with a client_message_id that is not empty, repeated after it was accepted, is accepted
-- again with the same document, and stores nothing; it counts as inserted only under the document's
-- own message_id.
pub insert_message_idempotent-again :
    (m n p : Message) (b : Bool) (t : Table String Message)
    → IsRepeat m n
    → (insert_message_idempotent m t).1 ≡ persisted p b
    → let t' = (insert_message_idempotent m t).0 in
      insert_message_idempotent n t' ≡ (t', persisted p (p.message_id == n.message_id))
insert_message_idempotent-again m n p b t r h =
    let t' = (insert_message_idempotent m t).0 in
    let (found, lesson, content) = insert-find m p b t r.named h in
    let there : find_client n.sender_id n.client_message_id t' ≡ some p =
      ap (λ (x : ℕ). find_client x n.client_message_id t') r.sender
      ∙ ap (λ (x : String). find_client m.sender_id x t') r.client
      ∙ found in
    insert-found n p t' (λ e. r.named (sym r.client ∙ e)) there
    ∙ ap (λ x. (t', x)) (compare-same n p (lesson ∙ sym r.lesson) (content ∙ sym r.content))

module _ (id_before : String → String → Bool) where
  find_first-test :
      (test : Message → Bool) (x : String × Message) (t : Table String Message)
      → find_first id_before test t ≡ some x
      → test x.1 ≡ true
  unfolding find_first
  find_first-test test x [] h = cc
  find_first-test test x ((k, m) ∷ t) h = ground (arith, h, find_first-test test x t)

  claim-leased :
      (o : String) (now later lease : ℕ) (a a' : Option (ℕ × ℕ)) (t : Table String Message)
      (k : String) (m : Message)
      → (claim_next id_before o now lease a t).1 ≡ some (k, m)
      → later < now + lease
      → is_claimable later a' m ≡ false
  unfolding is_claimable
  claim-leased o now later lease a a' t k m h early =
      let (x, _, m', _) = claim-result id_before o now lease a t k m h in
      ap (is_claimable later a') (sym m') ∙ ground (arith, early)

  -- Until the lease of a claimed message has run out, no claim on the collection as the claim left
  -- it returns the message again, whoever claims.
  pub claim_next-exclusive :
      (o o' : String) (now later lease lease' : ℕ) (a a' : Option (ℕ × ℕ))
      (t : Table String Message) (k k' : String) (m m' : Message)
      → IsKeyed t
      → (claim_next id_before o now lease a t).1 ≡ some (k, m)
      → later < now + lease
      → (claim_next id_before o' later lease' a' (claim_next id_before o now lease a t).0).1
        ≡ some (k', m')
      → k' ≢ k
  claim_next-exclusive o o' now later lease lease' a a' t k k' m m' u h early h' same =
      let t' = (claim_next id_before o now lease a t).0 in
      let (x, found, _, _) = claim-result id_before o' later lease' a' t' k' m' h' in
      let here : lookup k t' ≡ some m = claim-lookup id_before o now lease a t k m h in
      let there : lookup k t' ≡ some x =
        ap (λ y. lookup y t') (sym same)
        ∙ find_first-lookup id_before _ k' x t' (claim-IsKeyed id_before o now lease a t u) found in
      let one : m ≡ x = some_inj (sym here ∙ there) in
      let no : is_claimable later a' m ≡ false =
        claim-leased o now later lease a a' t k m h early in
      cc (no, ap (is_claimable later a') one, find_first-test _ (k', x) t' found)
