-- ===== src/Chat/Bounds.antt =====
-- What one call leaves of a client's limits, internal/api/chatroom/hub.go.
use liveclass.Prelude.{
  ℕ, ◌+◌, ◌≤◌, ◌≡◌, refl, sym, ap, ◌∙◌, Bool, true, false, String, List, [], ◌∷◌, ◌++◌, length,
  length-append, ltb, not, if_holds, arith,
}
use liveclass.Prelude.Int.{ℤ}
use liveclass.Chat.Client.{
  member, Client, Offer, sent, finished, offer, new_resuming_client, remember_message,
  forget_oldest, first_or_zero, is_duplicate, offer_chat, offer_replay,
}
use mathlib.Core.Path.{subst}
use liveclass.Chat.Seen.{IsDistinct, Remembers, remember_message-Remembers}

module _ {P : Type 0} where
  -- A client within its limits.
  pub record IsBounded (c : Client P) : Type 0 where
    pub send_le : length c.send ≤ c.send_queue_size
    pub pending_le : length c.pending_live ≤ c.send_queue_size
    pub remembers : Remembers c

  -- The steps that leave the remembered ids alone.
  abbrev pub SameSeen : Client P → Client P → Type 0
  SameSeen c c' =
      (c'.seen_message_ids ≡ c.seen_message_ids)
      × (c'.seen_order ≡ c.seen_order)
      × (c'.message_dedup_size ≡ c.message_dedup_size)

  pub SameSeen-Remembers : (c c' : Client P) → SameSeen c c' → Remembers c → Remembers c'
  SameSeen-Remembers c c' (ids, order, size) r = record {
    same_ids = λ k. ap (member k) ids ∙ r.same_ids k ∙ ap (member k) (sym order);
    distinct = subst IsDistinct (sym order) r.distinct;
    within = ground (arith, r.within, ap length order, size);
  }

  -- What ChatQueueDepth depends on.
  abbrev pub SameDepth : Client P → Client P → Type 0
  SameDepth c c' =
      (length c'.send ≡ length c.send)
      × (c'.depth_added ≡ c.depth_added)
      × (c'.depth_taken ≡ c.depth_taken)

  -- A client within its limits, with what ChatQueueDepth depends on as in another.
  abbrev pub Keeps : Client P → Client P → Type 0
  Keeps c c' = IsBounded c' × SameDepth c c'

  pub remember-Keeps : (k : String) (c : Client P) → IsBounded c → Keeps c (remember_message P k c)
  unfolding remember_message forget_oldest
  remember-Keeps k c b =
      let (x, y, same) = sizes in
      (
        record {
          send_le = x;
          pending_le = y;
          remembers = remember_message-Remembers k c b.remembers;
        },
        same,
      )
    where
      sizes :
          let c' = remember_message P k c in
          (length c'.send ≤ c'.send_queue_size)
          × (length c'.pending_live ≤ c'.send_queue_size)
          × SameDepth c c'
      sizes = ground (arith, b.send_le, b.pending_le)

  -- An offer puts one payload on the channel, or none.
  abbrev pub Offered : Client P → Client P × Offer P → Type 0
  Offered c (c', sent) =
      IsBounded c'
      × (length c'.send ≡ length c.send + 1)
      × (c'.depth_added ≡ c.depth_added)
      × (c'.depth_taken ≡ c.depth_taken)
  Offered c (c', finished b) = Keeps c c'

  pub offer-SameSeen : (p : P) (c : Client P) → SameSeen c (offer P p c).0
  unfolding offer
  offer-SameSeen p c = ground arith

  pub offer-Offered : (p : P) (c : Client P) → IsBounded c → Offered c (offer P p c)
  unfolding offer
  offer-Offered p c b =
      let kept : Keeps c c = (b, (refl, refl, refl)) in
      if_holds (Offered c) c.closed (c, finished false) _ (λ _. kept)
        (λ _.
          if_holds (Offered c) (ltb (length c.send) c.send_queue_size) _ (c, finished false)
            (λ (room : ltb (length c.send) c.send_queue_size ≡ true).
              let grown = length-append c.send (p ∷ []) in
              (
                record {
                  send_le = ground (arith, room, grown);
                  pending_le = b.pending_le;
                  remembers = SameSeen-Remembers c _ (refl, refl, refl) b.remembers;
                },
                grown,
                refl,
                refl,
              ))
            (λ _. kept))

  pub offer_chat-Offered :
      (k : String) (p : P) (seq : List ℤ) (c : Client P)
      → IsBounded c
      → Offered c (offer_chat P k p seq c)
  unfolding offer_chat
  offer_chat-Offered k p seq c b =
      let suppressed : Keeps c (record c { suppressed = c.suppressed + 1 }) = (
        record {
          send_le = b.send_le;
          pending_le = b.pending_le;
          remembers = SameSeen-Remembers c _ (refl, refl, refl) b.remembers;
        },
        (refl, refl, refl),
      ) in
      if_holds (Offered c) (is_duplicate P k c) _ _ (λ _. suppressed)
        λ _.
          if_holds (Offered c) c.resuming _ _
            (λ _.
              if_holds (Offered c) (not (ltb (length c.pending_live) c.send_queue_size))
                (c, finished false) _ (λ _. (b, (refl, refl, refl)))
                (λ (room : not (ltb (length c.pending_live) c.send_queue_size) ≡ false).
                  remember-Keeps k
                    (record c {
                      pending_live =
                          c.pending_live
                          ++ record { message_id = k; lesson_seq = first_or_zero seq; payload = p }
                            ∷ [];
                    })
                    (record {
                      send_le = b.send_le;
                      pending_le =
                          let grown = length-append c.pending_live (
                            record { message_id = k; lesson_seq = first_or_zero seq; payload = p }
                            ∷ []) in
                          ground (arith, room, grown);
                      remembers = SameSeen-Remembers c _ (refl, refl, refl) b.remembers;
                    })))
            (λ _. offer-Offered p c b)

  pub offer_replay-Offered :
      (k : String) (p : P) (c : Client P) → IsBounded c → Offered c (offer_replay P k p c)
  unfolding offer_replay
  offer_replay-Offered k p c b =
      if_holds (Offered c) (is_duplicate P k c) (c, finished true) _ (λ _. (b, (refl, refl, refl)))
        (λ _. offer-Offered p c b)

  pub fresh-IsBounded :
      (queue_size dedup_size : ℕ) (resuming : Bool)
      → IsBounded (new_resuming_client P queue_size dedup_size resuming)
  unfolding new_resuming_client
  fresh-IsBounded queue_size dedup_size resuming = record {
    send_le = omega arith;
    pending_le = omega arith;
    remembers = record { same_ids = λ k. refl; distinct = tt; within = omega arith };
  }
