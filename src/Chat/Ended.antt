-- ===== src/Chat/Ended.antt =====
-- What becomes of messages when the writer goroutine of a client has ended,
-- internal/api/chatroom/hub.go.
use liveclass.Prelude.{
  ◌+◌, ◌<◌, ◌≡◌, refl, ap, ◌++◌, ◌∙◌, true, false, List, [], ◌∷◌, length, arith,
}
use liveclass.Chat.Client.{Client, sent, offer, enqueue}
use liveclass.Chat.Threads.{
  waiting, over, Threads, uncounted, plain_add, write_step, ClientStep, plain, plain_adds,
  parent_done, writes, sees_done, client_step, run_client,
}
use liveclass.Chat.Balance.{received, is_over, IsValid}
use liveclass.Chat.Delivery.{enqueue-open}
use liveclass.Chat.Quiet.{IsQuiet, IsQuiet-trans, still, step-IsIdle}

module _ {P : Type 0} where
  run-IsQuiet :
      (s : Threads P) (xs : List (ClientStep P))
      → s.writer ≡ over
      → IsQuiet s.client (run_client P s xs).client
  unfolding run_client
  run-IsQuiet s [] h = still s.client
  run-IsQuiet s (x ∷ xs) h =
      let i = step-IsIdle s x h in
      IsQuiet-trans s.client (client_step P s x).client _ i.quiet
        (run-IsQuiet (client_step P s x) xs (i.writer ∙ h))

  -- The writer when its parent context is done: it sees it, and runs its deferred function.
  abbrev pub writer_ends : List (ClientStep P)
  writer_ends = parent_done ∷ sees_done ∷ writes false ∷ writes false ∷ []

  run-writer_ends :
      (s : Threads P)
      → s.writer ≡ waiting
      → run_client P s writer_ends ≡ record s {
        client = record (s.client) {
          context_done = true;
          depth_taken = s.client.depth_taken + length s.client.send;
        };
        writer = over;
      }
  unfolding run_client client_step write_step
  run-writer_ends s on = rw on refl

  offer-open :
      (p : P) (c : Client P)
      → c.closed ≡ false
      → length c.send < c.send_queue_size
      → offer P p c ≡ (record c { send = c.send ++ p ∷ [] }, sent)
  unfolding offer
  offer-open p c h room = ground (arith, h, room)

  -- An uninterrupted Enqueue, as the two steps it is made of.
  plain-enqueue :
      (s : Threads P) (p : P) (xs : List (ClientStep P))
      → s.client.closed ≡ false
      → length s.client.send < s.client.send_queue_size
      → run_client P s (plain p ∷ plain_adds ∷ xs)
        ≡ run_client P (record s { client = (enqueue P p s.client).0 }) xs
  unfolding run_client client_step enqueue plain_add
  plain-enqueue s p xs h room = let o = offer-open p s.client h room in rw o refl

  -- When the parent context of an open client in a valid state, whose writer waits in its select,
  -- is done, the writer sees it and runs its deferred function, the client still accepts a message
  -- if its queue had room; whatever step any goroutine takes later, nothing more is written, and
  -- what was taken from ChatQueueDepth for the client stays below what it added with the sends that
  -- were not counted at first.
  pub accepted_lost :
      (s : Threads P) (p : P) (xs : List (ClientStep P))
      → IsValid s
      → s.client.closed ≡ false
      → s.writer ≡ waiting
      → length s.client.send < s.client.send_queue_size
      → let s' = run_client P s writer_ends in
        let s'' = run_client P s' (plain p ∷ plain_adds ∷ xs) in
        ((enqueue P p s'.client).1 ≡ true)
        × (s''.client.written ≡ s.client.written)
        × (s''.client.depth_taken < s''.client.depth_added + (s.adding + uncounted P s.delivery))
  accepted_lost s p xs v h on room =
      let ended : Threads P = record s {
        client = record (s.client) {
          context_done = true;
          depth_taken = s.client.depth_taken + length s.client.send;
        };
        writer = over;
      } in
      let (accepted, _, _, _, _, same, taken, added) = enqueue-open p ended.client h room in
      let after : Threads P = record ended { client = (enqueue P p ended.client).0 } in
      let q = run-IsQuiet after xs refl in
      let balance = v.depth (ap is_over on) in
      rw (run-writer_ends s on) (
        accepted,
        rw (plain-enqueue ended p xs h room) (q.written ∙ same),
        rw (plain-enqueue ended p xs h room)
            (omega (arith, q.taken, q.added, taken, added, balance, ap received on)),
      )
