-- ===== src/Chat/Balance.antt =====
-- What the steps of the deliveries keep, internal/api/chatroom/hub.go: a client within its limits, and
-- a balance between ChatQueueDepth and what the queue holds.
use liveclass.Prelude.{
  ℕ, zero, suc, ◌+◌, ◌≡◌, refl, ap, Bool, true, false, String, List, [], ◌∷◌, length, if_holds,
  arith,
}
use liveclass.Chat.Client.{
  ChatDelivery, Client, Offer, sent, finished, offer, count_added, close_client,
}
use liveclass.Chat.Threads.{
  Delivering, free, adds, flushing, flush_adds, Writer, waiting, took, writing, failing, ending,
  subtracting, over, Threads, uncounted, started, with_lock, start_flush, flush_next, deliver_step,
  plain_offer, plain_add,
}
use liveclass.Chat.Bounds.{
  IsBounded, Keeps, Offered, SameSeen-Remembers, remember-Keeps, offer-Offered,
}

-- How many payloads the writer has received and not counted.
abbrev pub received : {P : Type 0} → Writer P → ℕ
received waiting = 0
received (took p) = 1
received (writing p) = 0
received (failing reason) = 0
received ending = 0
received (subtracting n) = 0
received over = 0

abbrev pub is_over : {P : Type 0} → Writer P → Bool
is_over waiting = false
is_over (took p) = false
is_over (writing p) = false
is_over (failing reason) = false
is_over ending = false
is_over (subtracting n) = false
is_over over = true

module _ {P : Type 0} where
  -- The equation between ChatQueueDepth and what the queue holds, for `n` sends not counted.
  abbrev pub Balanced : Client P → ℕ → Writer P → Type 0
  Balanced c n w =
      is_over w ≡ false → c.depth_added + n ≡ c.depth_taken + received w + length c.send

  pub record IsValid (s : Threads P) : Type 0 where
    pub client_ok : IsBounded s.client
    pub depth : Balanced s.client (s.adding + uncounted P s.delivery) s.writer

  pub started-IsValid :
      (k : String) (s : Threads P) (x : Client P × Offer P)
      → s.delivery ≡ free
      → IsValid s
      → Offered s.client x
      → IsValid (started P k x s)
  started-IsValid k s (c, sent) h v (b, grown, added, taken) = record {
    client_ok = b;
    depth = λ on.
        let e = v.depth on in
        let u = ap (uncounted P) h in omega (arith, e, u, grown, added, taken);
  }
  started-IsValid k s (c, finished r) h v (b, (same, added, taken)) = record {
    client_ok = b;
    depth = λ on. omega (arith, v.depth on, same, added, taken);
  }

  pub flush_next-IsValid :
      (d : ChatDelivery P) (ds : List (ChatDelivery P)) (s : Threads P) (x : Client P × Offer P)
      → s.delivery ≡ flushing (d ∷ ds)
      → IsValid s
      → Offered s.client x
      → IsValid (flush_next P d ds x s)
  flush_next-IsValid d ds s (c, sent) h v (b, grown, added, taken) = record {
    client_ok = b;
    depth = λ on. omega (arith, v.depth on, ap (uncounted P) h, grown, added, taken);
  }
  flush_next-IsValid d ds s (c, finished r) h v (b, (same, added, taken)) = record {
    client_ok = b;
    depth = λ on. omega (arith, v.depth on, ap (uncounted P) h, same, added, taken);
  }

  pub plain_offer-IsValid :
      (s : Threads P) (x : Client P × Offer P)
      → IsValid s
      → Offered s.client x
      → IsValid (plain_offer P x s)
  plain_offer-IsValid s (c, sent) v (b, grown, added, taken) = record {
    client_ok = b;
    depth = λ on. omega (arith, v.depth on, grown, added, taken);
  }
  plain_offer-IsValid s (c, finished r) v (b, (same, added, taken)) = record {
    client_ok = b;
    depth = λ on. omega (arith, v.depth on, same, added, taken);
  }

  pub with_lock-IsValid :
      (d : Delivering P) (then_s s : Threads P)
      → s.delivery ≡ d
      → IsValid s
      → (s.delivery ≡ free → IsValid then_s)
      → IsValid (with_lock P d then_s s)
  with_lock-IsValid free then_s s h v f = f h
  with_lock-IsValid (adds k) then_s s h v f = v
  with_lock-IsValid (flushing ds) then_s s h v f = v
  with_lock-IsValid (flush_adds d ds) then_s s h v f = v

  pub start_flush-IsValid :
      (s : Threads P) → s.delivery ≡ free → IsValid s → IsValid (start_flush P s)
  start_flush-IsValid s h v = record {
    client_ok = record {
      send_le = v.client_ok.send_le;
      pending_le = v.client_ok.pending_le;
      remembers = SameSeen-Remembers s.client _ (refl, refl, refl) v.client_ok.remembers;
    };
    depth = λ on. omega (arith, v.depth on, ap (uncounted P) h);
  }

  -- The Inc keeps a client within its limits.
  count_added-IsBounded : (c : Client P) → IsBounded c → IsBounded (count_added P c)
  count_added-IsBounded c b = record {
    send_le = b.send_le;
    pending_le = b.pending_le;
    remembers = SameSeen-Remembers c (count_added P c) (refl, refl, refl) b.remembers;
  }

  pub deliver_step-IsValid :
      (d : Delivering P) (s : Threads P) → s.delivery ≡ d → IsValid s → IsValid (deliver_step P d s)
  unfolding deliver_step
  deliver_step-IsValid free s h v = v
  deliver_step-IsValid (adds k) s h v =
      let (b, (same, added, taken)) =
        remember-Keeps k (count_added P s.client) (count_added-IsBounded s.client v.client_ok) in
      record {
        client_ok = b;
        depth = λ on. omega (arith, v.depth on, ap (uncounted P) h, same, added, taken);
      }
  deliver_step-IsValid (flushing []) s h v = record {
    client_ok = record {
      send_le = v.client_ok.send_le;
      pending_le = omega arith;
      remembers = SameSeen-Remembers s.client _ (refl, refl, refl) v.client_ok.remembers;
    };
    depth = λ on. omega (arith, v.depth on, ap (uncounted P) h);
  }
  deliver_step-IsValid (flushing (d ∷ ds)) s h v =
      flush_next-IsValid d ds s (offer P d.payload s.client) h v
        (offer-Offered d.payload s.client v.client_ok)
  deliver_step-IsValid (flush_adds d ds) s h v =
      let (b, (same, added, taken)) =
        remember-Keeps d.message_id (count_added P s.client)
          (count_added-IsBounded s.client v.client_ok) in
      record {
        client_ok = b;
        depth = λ on. omega (arith, v.depth on, ap (uncounted P) h, same, added, taken);
      }

  pub plain_add-IsValid :
      (n : ℕ) (s : Threads P) → s.adding ≡ n → IsValid s → IsValid (plain_add P n s)
  unfolding plain_add
  plain_add-IsValid zero s h v = v
  plain_add-IsValid (suc n) s h v = record {
    client_ok = count_added-IsBounded s.client v.client_ok;
    depth = λ on. omega (arith, v.depth on, h);
  }

  -- Close touches neither the queues nor the ids nor the counts.
  pub close_client-Keeps :
      (reason : String) (c : Client P) → IsBounded c → Keeps c (close_client P reason c).0
  unfolding close_client
  close_client-Keeps reason c b =
      if_holds (λ (x : Client P × Bool). Keeps c x.0) c.closed (c, false) _
        (λ _. (b, (refl, refl, refl)))
        (λ _. (
          record {
            send_le = b.send_le;
            pending_le = b.pending_le;
            remembers = SameSeen-Remembers c _ (refl, refl, refl) b.remembers;
          },
          (refl, refl, refl),
        ))
