-- ===== src/Chat/Delivery.antt =====
-- Which messages reach the socket of a client, internal/api/chatroom/hub.go.
use liveclass.Prelude.{
  ◌+◌, ◌≤◌, ◌<◌, ◌≡◌, ◌≢◌, refl, sym, ap, ◌∙◌, Bool, true, false, String, List, [], ◌∷◌, ◌++◌, map,
  length, length-append, ltb, string_eq, Bool-cases, not, if_holds, inl, inr, arith,
}
use mathlib.Core.List.{append-nil, append_assoc}
use liveclass.Prelude.Int.{ℤ}
use liveclass.Chat.Client.{
  member, ChatDelivery, Client, enqueue, remember_message, forget_oldest, Offer, finished, offer,
  completed, offer_chat, offer_replay, is_duplicate, enqueue_chat, enqueue_replay, flush,
  finish_resume,
}
use liveclass.Chat.Seen.{Remembers}
use liveclass.Chat.Window.{remember_each, remember_message-again}
use liveclass.Chat.Bounds.{IsBounded, SameSeen-Remembers}

module _ {P : Type 0} where
  -- What remembering an id does not touch.
  remember-rest :
      (k : String) (c : Client P)
      → let c' = remember_message P k c in
        (c'.closed ≡ c.closed)
        × (c'.send ≡ c.send)
        × (c'.send_queue_size ≡ c.send_queue_size)
        × (c'.resuming ≡ c.resuming)
  unfolding remember_message forget_oldest
  remember-rest k c = ground arith

  pub enqueue-open :
      (p : P) (c : Client P)
      → c.closed ≡ false
      → length c.send < c.send_queue_size
      → let (c', accepted) = enqueue P p c in
        (accepted ≡ true)
        × (c'.send ≡ (c.send ++ p ∷ []))
        × (c'.closed ≡ false)
        × (c'.send_queue_size ≡ c.send_queue_size)
        × (c'.resuming ≡ c.resuming)
        × (c'.written ≡ c.written)
        × (c'.depth_taken ≡ c.depth_taken)
        × (c'.depth_added ≡ c.depth_added + 1)
  unfolding enqueue offer
  enqueue-open p c h room = ground arith

  flush-send :
      (ds : List (ChatDelivery P)) (c : Client P)
      → c.closed ≡ false
      → length c.send + length ds ≤ c.send_queue_size
      → let (c', flushed) = flush P ds c in
        (flushed ≡ true)
        × (c'.send ≡ (c.send ++ map (λ d. d.payload) ds))
        × (c'.resuming ≡ c.resuming)
  unfolding flush
  flush-send [] c h room = (refl, sym (append-nil c.send), refl)
  flush-send (d ∷ ds) c h room =
      let (y, queued, open_still, size, back, _, _, _) = enqueue-open d.payload c h (omega arith) in
      let c' = (enqueue P d.payload c).0 in
      let (closed', send', size', back') = remember-rest d.message_id c' in
      let grown : length (remember_message P d.message_id c').send ≡ length c.send + 1 =
        ap length (send' ∙ queued) ∙ length-append c.send (d.payload ∷ []) in
      let (done, all, same) =
        flush-send ds (remember_message P d.message_id c') (closed' ∙ open_still)
          (omega (arith, grown, size, size')) in
      rw (y, flush)
        (
          done,
          all
              ∙ ap (λ xs. xs ++ map (λ e. e.payload) ds) (send' ∙ queued)
              ∙ append_assoc c.send (d.payload ∷ []) (map (λ e. e.payload) ds),
          same ∙ back' ∙ back,
        )

  -- If an open client has room for them, FinishResume reports success and queues all live messages
  -- that it held back, in their order, behind what the queue holds, and then the client holds none
  -- back and no longer resumes.
  pub finish_resume-send :
      (c : Client P)
      → c.closed ≡ false
      → length c.send + length c.pending_live ≤ c.send_queue_size
      → let (c', done) = finish_resume P c in
        (done ≡ true)
        × (c'.send ≡ (c.send ++ map (λ d. d.payload) c.pending_live))
        × (c'.pending_live ≡ [])
        × (c'.resuming ≡ false)
  unfolding finish_resume
  finish_resume-send c h room =
      ground (arith, flush-send c.pending_live (record c { resuming = false }) h room)

  remember-member :
      (k : String) (c : Client P)
      → Remembers c
      → k ≢ ""
      → 0 < c.message_dedup_size
      → member k (remember_message P k c).seen_message_ids ≡ true
  unfolding remember_message remember_each
  remember-member k c r h room = elim (Bool-cases (member k c.seen_message_ids)) [
    | inl known ↦ ground (arith, known, string_eq.same_key_iff k "")
    | inr new ↦ remember_message-again k [] c r h new room
  ]

  -- An accepted message leaves its id remembered.
  abbrev Known : String → Client P × Bool → Type 0
  Known k x = x.1 ≡ true → member k x.0.seen_message_ids ≡ true

  offered-Known :
      (k : String) (p : P) (c : Client P)
      → Remembers c
      → k ≢ ""
      → 0 < c.message_dedup_size
      → Known k (completed P k (offer P p c))
  unfolding offer
  offered-Known k p c r h room =
      if_holds (λ x. Known k (completed P k x)) c.closed (c, finished false) _
        (λ _ e. ground (arith, e))
        λ _.
          if_holds (λ x. Known k (completed P k x)) (ltb (length c.send) c.send_queue_size) _
            (c, finished false)
            (λ _ _. remember-member k _ (SameSeen-Remembers c _ (refl, refl, refl) r) h room)
            (λ _ e. ground (arith, e))

  enqueue_chat-Known :
      (k : String) (p : P) (seq : List ℤ) (c : Client P)
      → Remembers c
      → k ≢ ""
      → 0 < c.message_dedup_size
      → Known k (enqueue_chat P k p seq c)
  unfolding enqueue_chat offer_chat
  enqueue_chat-Known k p seq c r h room =
      if_holds Told (is_duplicate P k c) _ _ (λ d _. ground (arith, d))
        λ _.
          if_holds Told c.resuming _ _
            (λ _.
              if_holds Told (not (ltb (length c.pending_live) c.send_queue_size))
                (c, finished false) _ (λ _ e. ground (arith, e))
                (λ _ _. remember-member k _ (SameSeen-Remembers c _ (refl, refl, refl) r) h room))
            (λ _. offered-Known k p c r h room)
    where
      Told : Client P × Offer P → Type 0
      Told x = Known k (completed P k x)

  known_again :
      (k : String) (q : P) (seq : List ℤ) (c : Client P)
      → k ≢ ""
      → member k c.seen_message_ids ≡ true
      → (enqueue_chat P k q seq c ≡ (record c { suppressed = c.suppressed + 1 }, true))
        × (enqueue_replay P k q c ≡ (c, true))
  unfolding enqueue_chat enqueue_replay offer_chat offer_replay
  known_again k q seq c h known =
      let twice : is_duplicate P k c ≡ true = ground (arith, known, string_eq.same_key_iff k "") in
      rw twice (refl, refl)

  -- If a client within its limits, which keeps at least one id, accepted a live message with an id,
  -- another message of this id is accepted too without being queued: a live one is only counted as
  -- suppressed, a replayed one changes nothing.
  pub enqueue_chat-again :
      (k : String) (p q : P) (seq seq' : List ℤ) (c : Client P)
      → IsBounded c
      → k ≢ ""
      → 0 < c.message_dedup_size
      → (enqueue_chat P k p seq c).1 ≡ true
      → let c' = (enqueue_chat P k p seq c).0 in
        (enqueue_chat P k q seq' c' ≡ (record c' { suppressed = c'.suppressed + 1 }, true))
        × (enqueue_replay P k q c' ≡ (c', true))
  enqueue_chat-again k p q seq seq' c v h room accepted =
      known_again k q seq' (enqueue_chat P k p seq c).0 h
        (enqueue_chat-Known k p seq c v.remembers h room accepted)
