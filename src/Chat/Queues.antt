-- ===== src/Chat/Queues.antt =====
-- What holds of every client of internal/api/chatroom/hub.go, whatever is called on it and however
-- its goroutines come between each other.
use liveclass.Prelude.{
  ℕ, ◌≡◌, refl, sym, ap, ◌∙◌, Bool, true, false, List, [], ◌∷◌, ◌++◌, length, if_holds, arith,
}
use liveclass.Chat.Client.{
  Client, offer, new_resuming_client, offer_chat, offer_replay, close_client,
}
use liveclass.Chat.Threads.{
  Writer, waiting, took, writing, failing, ending, subtracting, over, Threads, new_threads, is_read,
  close_step, take_step, write_step, leave_select, ClientStep, chat, replay, finish_step, delivers,
  plain, plain_adds, closes, parent_done, takes, writes, ping_fails, pong_timeout, sees_done,
  client_step, run_client,
}
use liveclass.Chat.Bounds.{
  IsBounded, Keeps, SameSeen-Remembers, offer-Offered, offer_chat-Offered, offer_replay-Offered,
  fresh-IsBounded,
}
use liveclass.Chat.Balance.{
  received, is_over, IsValid, started-IsValid, plain_offer-IsValid, with_lock-IsValid,
  start_flush-IsValid, deliver_step-IsValid, plain_add-IsValid, close_client-Keeps,
}

module _ {P : Type 0} where
  -- A client that changes only where ChatQueueDepth does not look, under a writer that is not over
  -- unless it was.
  same_depth :
      (s : Threads P) (c : Client P) (w : Writer P)
      → (is_over w ≡ false → is_over s.writer ≡ false)
      → received w ≡ received s.writer
      → IsValid s
      → Keeps s.client c
      → IsValid (record s { client = c; writer = w })
  same_depth s c w on' same_received v (b, (same, added, taken)) = record {
    client_ok = b;
    depth = λ on. omega (arith, v.depth (on' on), same_received, same, added, taken);
  }

  unchanged : (c : Client P) → IsBounded c → Keeps c c
  unchanged c b = (b, (refl, refl, refl))

  take_step-IsValid :
      (ps : List P) (w : Writer P) (s : Threads P)
      → s.client.send ≡ ps
      → s.writer ≡ w
      → IsValid s
      → IsValid (take_step P ps w s)
  unfolding take_step
  take_step-IsValid [] w s h e v = v
  take_step-IsValid (p ∷ ps) waiting s h e v = record {
    client_ok = record {
      send_le = omega (arith, ap length h, v.client_ok.send_le);
      pending_le = v.client_ok.pending_le;
      remembers = SameSeen-Remembers s.client _ (refl, refl, refl) v.client_ok.remembers;
    };
    depth = λ on. omega (arith, v.depth (ap is_over e), ap received e, ap length h);
  }
  take_step-IsValid (p ∷ ps) (took q) s h e v = v
  take_step-IsValid (p ∷ ps) (writing q) s h e v = v
  take_step-IsValid (p ∷ ps) (failing reason) s h e v = v
  take_step-IsValid (p ∷ ps) ending s h e v = v
  take_step-IsValid (p ∷ ps) (subtracting n) s h e v = v
  take_step-IsValid (p ∷ ps) over s h e v = v

  write_step-IsValid :
      (failed : Bool) (w : Writer P) (s : Threads P)
      → s.writer ≡ w
      → IsValid s
      → IsValid (write_step P failed w s)
  unfolding write_step
  write_step-IsValid failed waiting s e v = v
  write_step-IsValid failed (took p) s e v = record {
    client_ok = record {
      send_le = v.client_ok.send_le;
      pending_le = v.client_ok.pending_le;
      remembers = SameSeen-Remembers s.client _ (refl, refl, refl) v.client_ok.remembers;
    };
    depth = λ on. omega (arith, v.depth (ap is_over e), ap received e);
  }
  write_step-IsValid failed (writing p) s e v =
      let c : Client P = record (s.client) { written = s.client.written ++ p ∷ [] } in
      let kept : Keeps s.client c = (
        record {
          send_le = v.client_ok.send_le;
          pending_le = v.client_ok.pending_le;
          remembers = SameSeen-Remembers s.client _ (refl, refl, refl) v.client_ok.remembers;
        },
        (refl, refl, refl),
      ) in
      if_holds (λ w. IsValid (record s { client = c; writer = w })) failed (failing "write error")
        waiting
        (λ _.
          same_depth s c (failing "write error") (λ _. ap is_over e) (sym (ap received e)) v kept)
        (λ _. same_depth s c waiting (λ _. ap is_over e) (sym (ap received e)) v kept)
  write_step-IsValid failed (failing reason) s e v =
      if_holds IsValid (is_read P s) s _ (λ _. v)
        λ _.
          same_depth s (close_client P reason s.client).0 ending (λ _. ap is_over e)
            (sym (ap received e)) v (close_client-Keeps reason s.client v.client_ok)
  write_step-IsValid failed ending s e v =
      same_depth s s.client (subtracting (length s.client.send)) (λ _. ap is_over e)
        (sym (ap received e)) v (unchanged s.client v.client_ok)
  write_step-IsValid failed (subtracting n) s e v = record {
    client_ok = record {
      send_le = v.client_ok.send_le;
      pending_le = v.client_ok.pending_le;
      remembers = SameSeen-Remembers s.client _ (refl, refl, refl) v.client_ok.remembers;
    };
    depth = λ on. ground (arith, on);
  }
  write_step-IsValid failed over s e v = v

  leave_select-IsValid :
      (w to : Writer P) (s : Threads P)
      → s.writer ≡ w
      → is_over to ≡ false
      → received to ≡ 0
      → IsValid s
      → IsValid (leave_select P w to s)
  leave_select-IsValid waiting to s e on none v =
      same_depth s s.client to (λ _. ap is_over e) (none ∙ sym (ap received e)) v
        (unchanged s.client v.client_ok)
  leave_select-IsValid (took p) to s e on none v = v
  leave_select-IsValid (writing p) to s e on none v = v
  leave_select-IsValid (failing reason) to s e on none v = v
  leave_select-IsValid ending to s e on none v = v
  leave_select-IsValid (subtracting n) to s e on none v = v
  leave_select-IsValid over to s e on none v = v

  pub client_step-IsValid :
      (s : Threads P) (x : ClientStep P) → IsValid s → IsValid (client_step P s x)
  unfolding client_step close_step
  client_step-IsValid s (chat k p seq) v = with_lock-IsValid s.delivery _ s refl v λ h.
      started-IsValid k s (offer_chat P k p seq s.client) h v
        (offer_chat-Offered k p seq s.client v.client_ok)
  client_step-IsValid s (replay k p) v = with_lock-IsValid s.delivery _ s refl v λ h.
      started-IsValid k s (offer_replay P k p s.client) h v
        (offer_replay-Offered k p s.client v.client_ok)
  client_step-IsValid s finish_step v =
      with_lock-IsValid s.delivery _ s refl v λ h. start_flush-IsValid s h v
  client_step-IsValid s delivers v = deliver_step-IsValid s.delivery s refl v
  client_step-IsValid s (plain p) v =
      plain_offer-IsValid s (offer P p s.client) v (offer-Offered p s.client v.client_ok)
  client_step-IsValid s plain_adds v = plain_add-IsValid s.adding s refl v
  client_step-IsValid s (closes reason) v =
      if_holds IsValid (is_read P s) s _ (λ _. v)
        λ _.
          same_depth s (close_client P reason s.client).0 s.writer (λ on. on) refl v
            (close_client-Keeps reason s.client v.client_ok)
  client_step-IsValid s parent_done v =
      same_depth s (record (s.client) { context_done = true }) s.writer (λ on. on) refl v
        (
          record {
            send_le = v.client_ok.send_le;
            pending_le = v.client_ok.pending_le;
            remembers = SameSeen-Remembers s.client _ (refl, refl, refl) v.client_ok.remembers;
          },
          (refl, refl, refl),
        )
  client_step-IsValid s takes v = take_step-IsValid s.client.send s.writer s refl refl v
  client_step-IsValid s (writes failed) v = write_step-IsValid failed s.writer s refl v
  client_step-IsValid s ping_fails v =
      leave_select-IsValid s.writer (failing "ping error") s refl refl refl v
  client_step-IsValid s pong_timeout v =
      leave_select-IsValid s.writer (failing "pong timeout") s refl refl refl v
  client_step-IsValid s sees_done v =
      if_holds IsValid s.client.context_done _ s
        (λ _. leave_select-IsValid s.writer ending s refl refl refl v) (λ _. v)

  pub run_client-IsValid :
      (s : Threads P) (xs : List (ClientStep P)) → IsValid s → IsValid (run_client P s xs)
  unfolding run_client
  run_client-IsValid s [] v = v
  run_client-IsValid s (x ∷ xs) v =
      run_client-IsValid (client_step P s x) xs (client_step-IsValid s x v)

  -- However the goroutines that hold a client of NewResumingClient come between each other, at each
  -- send on its channel, each Inc, each round of FinishResume's loop and each step of writePump,
  -- its send queue and the live messages that it holds back are at most the queue size, and the map
  -- and the order list of message ids hold the same ids, each once and at most as many as
  -- configured; until its writer has run its deferred function, what it added to ChatQueueDepth
  -- with the sends that are not counted yet is what its writer took from it with the receive that
  -- is not counted yet and what the queue holds.
  pub run-new_resuming_client-IsValid :
      (queue_size dedup_size : ℕ) (resuming : Bool) (xs : List (ClientStep P))
      → let c = new_resuming_client P queue_size dedup_size resuming in
        IsValid (run_client P (new_threads P c) xs)
  unfolding new_resuming_client
  run-new_resuming_client-IsValid queue_size dedup_size resuming xs =
      let c = new_resuming_client P queue_size dedup_size resuming in
      run_client-IsValid (new_threads P c) xs (record {
        client_ok = fresh-IsBounded queue_size dedup_size resuming;
        depth = λ on. omega arith;
      })
