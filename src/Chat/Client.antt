-- ===== src/Chat/Client.antt =====
-- One websocket client of a chat room, internal/api/chatroom/hub.go: its send queue, the live
-- messages it holds back while it resumes, and the message ids it remembers. The functions with the
-- methods' names are calls that no other goroutine comes between; Threads takes them apart where the
-- code lets others in. So Enqueue is `offer`, the closed test with the send on the channel, and
-- `count_added`, the Inc of ChatQueueDepth, between which the writer may take the message. The
-- metrics are kept by client: what it added to and took from ChatQueueDepth, and its part of
-- DuplicateDeliveriesSuppressedTotal.
use liveclass.Prelude.{
  ℕ, ◌+◌, ◌-◌, Bool, true, false, not, ◌&&◌, ◌||◌, String, List, [], ◌∷◌, ◌++◌, length, take, drop,
  keep_if, ltb, ◌==◌, string_eq, if◌then◌else◌,
}
use liveclass.Prelude.Int.{ℤ, pos}

unfoldable pub member : String → List String → Bool
member k [] = false
member k (x ∷ xs) = x == k || member k xs

-- `delete(c.seenMessageIDs, expired)`, for each of a list.
unfoldable pub delete_each : List String → List String → List String
delete_each [] seen = seen
delete_each (k ∷ ks) seen = delete_each ks (keep_if (λ x. not (x == k)) seen)

-- `sequence ...int64`: the first, or 0.
abbrev pub first_or_zero : List ℤ → ℤ
first_or_zero [] = pos 0
first_or_zero (n ∷ ns) = n

module _ (P : Type 0) where
  pub record ChatDelivery : Type 0 where
    pub message_id : String
    pub lesson_seq : ℤ
    pub payload : P

  pub record Client : Type 0 where
    pub send_queue_size : ℕ
    pub message_dedup_size : ℕ
    pub send : List P
    pub closed : Bool
    pub reason : String
    pub context_done : Bool
    pub resuming : Bool
    pub pending_live : List ChatDelivery
    pub seen_message_ids : List String
    pub seen_order : List String
    pub written : List P  -- what WriteMessage was given
    pub depth_added : ℕ
    pub depth_taken : ℕ
    pub suppressed : ℕ

  -- `NewResumingClient`, for a parent context that is not done.
  unfoldable pub new_resuming_client : ℕ → ℕ → Bool → Client
  new_resuming_client queue_size dedup_size resuming = record {
    send_queue_size = queue_size;
    message_dedup_size = dedup_size;
    send = [];
    closed = false;
    reason = "";
    context_done = false;
    resuming = resuming;
    pending_live = [];
    seen_message_ids = [];
    seen_order = [];
    written = [];
    depth_added = 0;
    depth_taken = 0;
    suppressed = 0;
  }

  -- What `Enqueue` has done before the Inc: the payload is on the channel, or the call is over.
  pub data Offer : Type 0 where
    sent : Offer
    finished : Bool → Offer

  -- The closed test, under stateMu, and the select.
  unfoldable pub offer : P → Client → Client × Offer
  offer p c =
      if c.closed
      then (c, finished false)
      else if ltb (length c.send) c.send_queue_size
      then (record c { send = c.send ++ p ∷ [] }, sent)
      else (c, finished false)

  -- `ChatQueueDepth.Inc()`
  abbrev pub count_added : Client → Client
  count_added c = record c { depth_added = c.depth_added + 1 }

  abbrev pub counted : Client × Offer → Client × Bool
  counted (c, sent) = (count_added c, true)
  counted (c, finished b) = (c, b)

  -- `Enqueue`
  unfoldable pub enqueue : P → Client → Client × Bool
  enqueue p c = counted (offer p c)

  -- The second half of `rememberMessageLocked`.
  unfoldable pub forget_oldest : Client → Client
  forget_oldest c =
      let overflow = length c.seen_order - c.message_dedup_size in
      if ltb 0 overflow
      then record c {
        seen_message_ids = delete_each (take overflow c.seen_order) c.seen_message_ids;
        seen_order = drop overflow c.seen_order;
      }
      else c

  -- `rememberMessageLocked`
  unfoldable pub remember_message : String → Client → Client
  remember_message k c =
      if k == ""
      then c
      else if member k c.seen_message_ids
      then c
      else forget_oldest (record c {
        seen_message_ids = k ∷ c.seen_message_ids;
        seen_order = c.seen_order ++ k ∷ [];
      })

  abbrev pub is_duplicate : String → Client → Bool
  is_duplicate k c = not (k == "") && member k c.seen_message_ids

  -- `EnqueueChat` up to the Inc in `Enqueue`.
  unfoldable pub offer_chat : String → P → List ℤ → Client → Client × Offer
  offer_chat k p sequence c =
      if is_duplicate k c
      then (record c { suppressed = c.suppressed + 1 }, finished true)
      else if c.resuming
      then if not (ltb (length c.pending_live) c.send_queue_size) then (c, finished false) else (
        remember_message k (record c { pending_live = c.pending_live ++ held ∷ [] }),
        finished true,
      )
      else offer p c
    where
      held : ChatDelivery
      held = record { message_id = k; lesson_seq = first_or_zero sequence; payload = p }

  -- `EnqueueReplay` up to the Inc in `Enqueue`.
  unfoldable pub offer_replay : String → P → Client → Client × Offer
  offer_replay k p c = if is_duplicate k c then (c, finished true) else offer p c

  -- The Inc, and `rememberMessageLocked`.
  abbrev pub completed : String → Client × Offer → Client × Bool
  completed k (c, sent) = (remember_message k (count_added c), true)
  completed k (c, finished b) = (c, b)

  -- `EnqueueChat`
  unfoldable pub enqueue_chat : String → P → List ℤ → Client → Client × Bool
  enqueue_chat k p sequence c = completed k (offer_chat k p sequence c)

  -- `EnqueueReplay`
  unfoldable pub enqueue_replay : String → P → Client → Client × Bool
  enqueue_replay k p c = completed k (offer_replay k p c)

  -- The loop of `FinishResume`.
  unfoldable pub flush : List ChatDelivery → Client → Client × Bool
  flush [] c = (c, true)
  flush (d ∷ ds) c = elim (enqueue d.payload c).1 [
    | true ↦ flush ds (remember_message d.message_id (enqueue d.payload c).0)
    | false ↦ ((enqueue d.payload c).0, false)
  ]

  -- `FinishResume`
  unfoldable pub finish_resume : Client → Client × Bool
  finish_resume c =
      let (c', flushed) = flush c.pending_live (record c { resuming = false }) in
      if flushed then (record c' { pending_live = [] }, true) else (c', false)

  -- `close`: whether this call closed the client.
  unfoldable pub close_client : String → Client → Client × Bool
  close_client reason c =
      if c.closed
      then (c, false)
      else (record c { reason = reason; closed = true; context_done = true }, true)
