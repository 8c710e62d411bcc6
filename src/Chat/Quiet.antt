-- ===== src/Chat/Quiet.antt =====
-- The steps after the writer goroutine of a client has ended, internal/api/chatroom/hub.go.
use liveclass.Prelude.{
  ℕ, zero, suc, ◌≤◌, ◌≡◌, refl, ◌∙◌, Bool, not, if_holds, String, List, [], ◌∷◌, length, ltb, arith,
}
use liveclass.Prelude.Int.{ℤ}
use liveclass.Chat.Client.{
  ChatDelivery, Client, Offer, sent, finished, offer, count_added, remember_message, forget_oldest,
  is_duplicate, offer_chat, offer_replay, close_client,
}
use liveclass.Chat.Threads.{
  Delivering, free, adds, flushing, flush_adds, Writer, failing, ending, over, Threads, started,
  with_lock, flush_next, deliver_step, plain_offer, plain_add, close_step, take_step, write_step,
  leave_select, ClientStep, chat, replay, finish_step, delivers, plain, plain_adds, closes,
  parent_done, takes, writes, ping_fails, pong_timeout, sees_done, client_step,
}

module _ {P : Type 0} where
  -- Nothing was written or taken from the queue, and no Inc was lost.
  pub record IsQuiet (c c' : Client P) : Type 0 where
    pub written : c'.written ≡ c.written
    pub taken : c'.depth_taken ≡ c.depth_taken
    pub added : c.depth_added ≤ c'.depth_added

  pub IsQuiet-trans : (a b c : Client P) → IsQuiet a b → IsQuiet b c → IsQuiet a c
  IsQuiet-trans a b c h k = record {
    written = k.written ∙ h.written;
    taken = k.taken ∙ h.taken;
    added = omega (arith, h.added, k.added);
  }

  pub still : (c : Client P) → IsQuiet c c
  still c = record { written = refl; taken = refl; added = omega arith }

  offer-IsQuiet : (p : P) (c : Client P) → IsQuiet c (offer P p c).0
  unfolding offer
  offer-IsQuiet p c = ground arith

  remember-IsQuiet : (k : String) (c : Client P) → IsQuiet c (remember_message P k c)
  unfolding remember_message forget_oldest
  remember-IsQuiet k c = ground arith

  counted-IsQuiet : (k : String) (c : Client P) → IsQuiet c (remember_message P k (count_added P c))
  counted-IsQuiet k c =
      IsQuiet-trans c (count_added P c) _
        (record { written = refl; taken = refl; added = omega arith })
        (remember-IsQuiet k (count_added P c))

  abbrev Quietly : Client P → Client P × Offer P → Type 0
  Quietly c x = IsQuiet c x.0

  offer_chat-IsQuiet :
      (k : String) (p : P) (seq : List ℤ) (c : Client P) → IsQuiet c (offer_chat P k p seq c).0
  unfolding offer_chat
  offer_chat-IsQuiet k p seq c =
      if_holds (Quietly c) (is_duplicate P k c) _ _ (λ _. ground arith)
        λ _.
          if_holds (Quietly c) c.resuming _ _
            (λ _.
              if_holds (Quietly c) (not (ltb (length c.pending_live) c.send_queue_size)) _ _
                (λ _. still c) (λ _. IsQuiet-trans c _ _ (ground arith) (remember-IsQuiet k _)))
            (λ _. offer-IsQuiet p c)

  offer_replay-IsQuiet : (k : String) (p : P) (c : Client P) → IsQuiet c (offer_replay P k p c).0
  unfolding offer_replay
  offer_replay-IsQuiet k p c =
      if_holds (Quietly c) (is_duplicate P k c) _ _ (λ _. still c) (λ _. offer-IsQuiet p c)

  -- A step that leaves the writer where it is.
  pub record IsIdle (s s' : Threads P) : Type 0 where
    pub quiet : IsQuiet s.client s'.client
    pub writer : s'.writer ≡ s.writer

  idle : (s : Threads P) → IsIdle s s
  idle s = record { quiet = still s.client; writer = refl }

  started-IsIdle :
      (k : String) (x : Client P × Offer P) (s : Threads P)
      → IsQuiet s.client x.0
      → IsIdle s (started P k x s)
  started-IsIdle k (c, sent) s q = record { quiet = q; writer = refl }
  started-IsIdle k (c, finished b) s q = record { quiet = q; writer = refl }

  flush_next-IsIdle :
      (d : ChatDelivery P) (ds : List (ChatDelivery P)) (x : Client P × Offer P) (s : Threads P)
      → IsQuiet s.client x.0
      → IsIdle s (flush_next P d ds x s)
  flush_next-IsIdle d ds (c, sent) s q = record { quiet = q; writer = refl }
  flush_next-IsIdle d ds (c, finished b) s q = record { quiet = q; writer = refl }

  plain_offer-IsIdle :
      (x : Client P × Offer P) (s : Threads P) → IsQuiet s.client x.0 → IsIdle s (plain_offer P x s)
  plain_offer-IsIdle (c, sent) s q = record { quiet = q; writer = refl }
  plain_offer-IsIdle (c, finished b) s q = record { quiet = q; writer = refl }

  with_lock-IsIdle :
      (d : Delivering P) (then_s s : Threads P)
      → IsIdle s then_s
      → IsIdle s (with_lock P d then_s s)
  with_lock-IsIdle free then_s s q = q
  with_lock-IsIdle (adds k) then_s s q = idle s
  with_lock-IsIdle (flushing ds) then_s s q = idle s
  with_lock-IsIdle (flush_adds d ds) then_s s q = idle s

  deliver_step-IsIdle : (d : Delivering P) (s : Threads P) → IsIdle s (deliver_step P d s)
  unfolding deliver_step
  deliver_step-IsIdle free s = idle s
  deliver_step-IsIdle (adds k) s = record { quiet = counted-IsQuiet k s.client; writer = refl }
  deliver_step-IsIdle (flushing []) s = record {
    quiet = record { written = refl; taken = refl; added = omega arith };
    writer = refl;
  }
  deliver_step-IsIdle (flushing (d ∷ ds)) s =
      flush_next-IsIdle d ds (offer P d.payload s.client) s (offer-IsQuiet d.payload s.client)
  deliver_step-IsIdle (flush_adds d ds) s = record {
    quiet = counted-IsQuiet d.message_id s.client;
    writer = refl;
  }

  plain_add-IsIdle : (n : ℕ) (s : Threads P) → IsIdle s (plain_add P n s)
  unfolding plain_add
  plain_add-IsIdle zero s = idle s
  plain_add-IsIdle (suc n) s = record {
    quiet = record { written = refl; taken = refl; added = omega arith };
    writer = refl;
  }

  close_step-IsIdle : (reason : String) (s : Threads P) → IsIdle s (close_step P reason s)
  unfolding close_step close_client
  close_step-IsIdle reason s = ground arith

  take_step-IsIdle :
      (ps : List P) (w : Writer P) (s : Threads P) → w ≡ over → IsIdle s (take_step P ps w s)
  unfolding take_step
  take_step-IsIdle [] w s h = idle s
  take_step-IsIdle (p ∷ ps) w s h = rw h (idle s)

  write_step-IsIdle :
      (failed : Bool) (w : Writer P) (s : Threads P) → w ≡ over → IsIdle s (write_step P failed w s)
  unfolding write_step
  write_step-IsIdle failed w s h = rw h (idle s)

  leave_select-IsIdle :
      (w to : Writer P) (s : Threads P) → w ≡ over → IsIdle s (leave_select P w to s)
  leave_select-IsIdle w to s h = rw h (idle s)

  pub step-IsIdle :
      (s : Threads P) (x : ClientStep P) → s.writer ≡ over → IsIdle s (client_step P s x)
  unfolding client_step
  step-IsIdle s (chat k p seq) h =
      with_lock-IsIdle s.delivery _ s
        (started-IsIdle k (offer_chat P k p seq s.client) s (offer_chat-IsQuiet k p seq s.client))
  step-IsIdle s (replay k p) h =
      with_lock-IsIdle s.delivery _ s
        (started-IsIdle k (offer_replay P k p s.client) s (offer_replay-IsQuiet k p s.client))
  step-IsIdle s finish_step h = with_lock-IsIdle s.delivery _ s (record {
    quiet = record { written = refl; taken = refl; added = omega arith };
    writer = refl;
  })
  step-IsIdle s delivers h = deliver_step-IsIdle s.delivery s
  step-IsIdle s (plain p) h = plain_offer-IsIdle (offer P p s.client) s (offer-IsQuiet p s.client)
  step-IsIdle s plain_adds h = plain_add-IsIdle s.adding s
  step-IsIdle s (closes reason) h = close_step-IsIdle reason s
  step-IsIdle s parent_done h = record {
    quiet = record { written = refl; taken = refl; added = omega arith };
    writer = refl;
  }
  step-IsIdle s takes h = take_step-IsIdle s.client.send s.writer s h
  step-IsIdle s (writes failed) h = write_step-IsIdle failed s.writer s h
  step-IsIdle s ping_fails h = leave_select-IsIdle s.writer (failing "ping error") s h
  step-IsIdle s pong_timeout h = leave_select-IsIdle s.writer (failing "pong timeout") s h
  step-IsIdle s sees_done h =
      if_holds (IsIdle s) s.client.context_done _ s (λ _. leave_select-IsIdle s.writer ending s h)
        (λ _. idle s)
