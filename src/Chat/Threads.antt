-- ===== src/Chat/Threads.antt =====
-- The goroutines that hold a client, internal/api/chatroom/hub.go. Who holds `deliveryMu` keeps out
-- the other deliveries, but not the writer, nor who calls Enqueue or Close: so EnqueueChat,
-- EnqueueReplay and FinishResume are taken apart at each send on the channel and at each Inc of
-- ChatQueueDepth, and writePump at each receive, count, write, close and at the end. What stands
-- between two steps touches nothing that another goroutine reads. `Enqueue` holds stateMu for
-- reading until its Inc, which keeps Close waiting. Deadlines, pings that arrive and the idle timer's
-- clock are left out, so a pong timeout may come at any time.
use liveclass.Prelude.{
  ℕ, zero, suc, ◌+◌, Bool, true, false, String, List, [], ◌∷◌, ◌++◌, length, ltb, if◌then◌else◌,
}
use liveclass.Prelude.Int.{ℤ}
use liveclass.Chat.Client.{
  ChatDelivery, Client, Offer, sent, finished, offer, count_added, remember_message, offer_chat,
  offer_replay, close_client,
}

module _ (P : Type 0) where
  -- Where the holder of `deliveryMu` is; `free`: nobody holds it.
  pub data Delivering : Type 0 where
    free : Delivering
    adds : String → Delivering  -- before the Inc, with the message's id
    flushing : List (ChatDelivery P) → Delivering  -- in the loop of FinishResume
    flush_adds : ChatDelivery P → List (ChatDelivery P) → Delivering

  -- Where `writePump` is.
  pub data Writer : Type 0 where
    waiting : Writer  -- in the select
    took : P → Writer  -- before the Dec
    writing : P → Writer
    failing : String → Writer  -- before Close with a reason
    ending : Writer  -- at the deferred function
    subtracting : ℕ → Writer  -- before the Sub
    over : Writer

  pub record Threads : Type 0 where
    pub client : Client P
    pub delivery : Delivering
    pub adding : ℕ  -- calls of Enqueue without deliveryMu, between send and Inc
    pub writer : Writer

  abbrev pub new_threads : Client P → Threads
  new_threads c = record { client = c; delivery = free; adding = 0; writer = waiting }

  -- How many sends a holder of `deliveryMu` has not counted.
  abbrev pub uncounted : Delivering → ℕ
  uncounted free = 0
  uncounted (adds k) = 1
  uncounted (flushing ds) = 0
  uncounted (flush_adds d ds) = 1

  -- Somebody holds stateMu for reading.
  abbrev pub is_read : Threads → Bool
  is_read s = ltb 0 (s.adding + uncounted s.delivery)

  -- A delivery that starts when nobody holds `deliveryMu`.
  abbrev pub started : String → Client P × Offer P → Threads → Threads
  started k (c, sent) s = record s { client = c; delivery = adds k }
  started k (c, finished b) s = record s { client = c }

  abbrev pub with_lock : Delivering → Threads → Threads → Threads
  with_lock free then_s s = then_s
  with_lock (adds k) then_s s = s
  with_lock (flushing ds) then_s s = s
  with_lock (flush_adds d ds) then_s s = s

  -- `FinishResume` up to its loop.
  abbrev pub start_flush : Threads → Threads
  start_flush s = record s {
    client = record (s.client) { resuming = false };
    delivery = flushing s.client.pending_live;
  }

  abbrev pub flush_next :
      ChatDelivery P → List (ChatDelivery P) → Client P × Offer P → Threads → Threads
  flush_next d ds (c, sent) s = record s { client = c; delivery = flush_adds d ds }
  flush_next d ds (c, finished b) s = record s { client = c; delivery = free }

  -- The holder of `deliveryMu` goes on.
  unfoldable pub deliver_step : Delivering → Threads → Threads
  deliver_step free s = s
  deliver_step (adds k) s = record s {
    client = remember_message P k (count_added P s.client);
    delivery = free;
  }
  deliver_step (flushing []) s = record s {
    client = record (s.client) { pending_live = [] };
    delivery = free;
  }
  deliver_step (flushing (d ∷ ds)) s = flush_next d ds (offer P d.payload s.client) s
  deliver_step (flush_adds d ds) s = record s {
    client = remember_message P d.message_id (count_added P s.client);
    delivery = flushing ds;
  }

  -- `Enqueue` without `deliveryMu`.
  abbrev pub plain_offer : Client P × Offer P → Threads → Threads
  plain_offer (c, sent) s = record s { client = c; adding = suc s.adding }
  plain_offer (c, finished b) s = record s { client = c }

  unfoldable pub plain_add : ℕ → Threads → Threads
  plain_add zero s = s
  plain_add (suc n) s = record s { client = count_added P s.client; adding = n }

  -- `Close`, which waits while somebody reads.
  unfoldable pub close_step : String → Threads → Threads
  close_step reason s =
      if is_read s then s else record s { client = (close_client P reason s.client).0 }

  -- `case payload := <-c.send`
  unfoldable pub take_step : List P → Writer → Threads → Threads
  take_step [] w s = s
  take_step (p ∷ ps) waiting s = record s {
    client = record (s.client) { send = ps };
    writer = took p;
  }
  take_step (p ∷ ps) w s = s

  -- The writer goes on; the flag is whether WriteMessage returned an error.
  unfoldable pub write_step : Bool → Writer → Threads → Threads
  write_step failed waiting s = s
  write_step failed (took p) s = record s {
    client = record (s.client) { depth_taken = s.client.depth_taken + 1 };
    writer = writing p;
  }
  write_step failed (writing p) s = record s {
    client = record (s.client) { written = s.client.written ++ p ∷ [] };
    writer = if failed then failing "write error" else waiting;
  }
  write_step failed (failing reason) s =
      if is_read s
      then s
      else record s { client = (close_client P reason s.client).0; writer = ending }
  write_step failed ending s = record s { writer = subtracting (length s.client.send) }
  write_step failed (subtracting n) s = record s {
    client = record (s.client) { depth_taken = s.client.depth_taken + n };
    writer = over;
  }
  write_step failed over s = s

  -- The other cases of `writePump`'s select, by where they lead.
  abbrev pub leave_select : Writer → Writer → Threads → Threads
  leave_select waiting w s = record s { writer = w }
  leave_select (took p) w s = s
  leave_select (writing p) w s = s
  leave_select (failing reason) w s = s
  leave_select ending w s = s
  leave_select (subtracting n) w s = s
  leave_select over w s = s

  -- A step of one of the goroutines.
  pub data ClientStep : Type 0 where
    chat : String → P → List ℤ → ClientStep
    replay : String → P → ClientStep
    finish_step : ClientStep
    delivers : ClientStep
    plain : P → ClientStep
    plain_adds : ClientStep
    closes : String → ClientStep
    parent_done : ClientStep
    takes : ClientStep
    writes : Bool → ClientStep
    ping_fails : ClientStep
    pong_timeout : ClientStep
    sees_done : ClientStep  -- `case <-c.ctx.Done()`

  unfoldable pub client_step : Threads → ClientStep → Threads
  client_step s (chat k p sequence) =
      with_lock s.delivery (started k (offer_chat P k p sequence s.client) s) s
  client_step s (replay k p) = with_lock s.delivery (started k (offer_replay P k p s.client) s) s
  client_step s finish_step = with_lock s.delivery (start_flush s) s
  client_step s delivers = deliver_step s.delivery s
  client_step s (plain p) = plain_offer (offer P p s.client) s
  client_step s plain_adds = plain_add s.adding s
  client_step s (closes reason) = close_step reason s
  client_step s parent_done = record s { client = record (s.client) { context_done = true } }
  client_step s takes = take_step s.client.send s.writer s
  client_step s (writes failed) = write_step failed s.writer s
  client_step s ping_fails = leave_select s.writer (failing "ping error") s
  client_step s pong_timeout = leave_select s.writer (failing "pong timeout") s
  client_step s sees_done = if s.client.context_done then leave_select s.writer ending s else s

  unfoldable pub run_client : Threads → List ClientStep → Threads
  run_client s [] = s
  run_client s (x ∷ xs) = run_client (client_step s x) xs
