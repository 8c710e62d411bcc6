-- ===== src/Chat/Calls.antt =====
-- The steps of a delivery that no other goroutine comes between are a call of the method,
-- internal/api/chatroom/hub.go.
use liveclass.Prelude.{
  arith, ◌≡◌, ◌⊎◌, refl, sym, ap, ◌∙◌, Bool, true, false, inl, inr, String, List, [], ◌∷◌, ◌++◌,
  if◌then◌else◌,
}
use liveclass.Prelude.Int.{ℤ}
use liveclass.Chat.Client.{
  ChatDelivery, Client, Offer, sent, finished, offer, count_added, counted, enqueue, completed,
  remember_message, offer_chat, offer_replay, enqueue_chat, enqueue_replay, flush, finish_resume,
}
use liveclass.Chat.Threads.{
  Threads, free, flushing, started, flush_next, deliver_step, ClientStep, chat, replay, finish_step,
  delivers, client_step, run_client,
}

module _ {P : Type 0} where
  -- When the call has ended, nobody holds `deliveryMu`.
  abbrev ended : Threads P → Client P → Threads P
  ended s c = record s { client = c; delivery = free }

  started-completed :
      (k : String) (x : Client P × Offer P) (s : Threads P) (c : Client P)
      → let s' = started P k x (ended s c) in
        deliver_step P s'.delivery s' ≡ ended s (completed P k x).0
  unfolding deliver_step
  started-completed k (c', sent) s c = refl
  started-completed k (c', finished b) s c = refl

  chat-enqueue_chat :
      (k : String) (p : P) (seq : List ℤ) (s : Threads P) (c : Client P)
      → run_client P (ended s c) (chat k p seq ∷ delivers ∷ [])
        ≡ ended s (enqueue_chat P k p seq c).0
  unfolding run_client client_step enqueue_chat
  chat-enqueue_chat k p seq s c = started-completed k (offer_chat P k p seq c) s c

  replay-enqueue_replay :
      (k : String) (p : P) (s : Threads P) (c : Client P)
      → run_client P (ended s c) (replay k p ∷ delivers ∷ []) ≡ ended s (enqueue_replay P k p c).0
  unfolding run_client client_step enqueue_replay
  replay-enqueue_replay k p s c = started-completed k (offer_replay P k p c) s c

  -- Two steps for each message held back, and one for the end of the loop.
  unfoldable flush_steps : List (ChatDelivery P) → List (ClientStep P)
  flush_steps [] = delivers ∷ []
  flush_steps (d ∷ ds) = delivers ∷ delivers ∷ flush_steps ds

  free-flush_steps :
      (ds : List (ChatDelivery P)) (s : Threads P) (c : Client P)
      → run_client P (ended s c) (flush_steps ds) ≡ ended s c
  unfolding run_client client_step deliver_step flush_steps
  free-flush_steps [] s c = refl
  free-flush_steps (d ∷ ds) s c = free-flush_steps ds s c

  -- What FinishResume leaves of what its loop left.
  abbrev cleared : Client P × Bool → Client P
  cleared (c, true) = record c { pending_live = [] }
  cleared (c, false) = c

  offer-cases :
      (p : P) (c : Client P)
      → (offer P p c ≡ (record c { send = c.send ++ p ∷ [] }, sent))
        ⊎ (offer P p c ≡ (c, finished false))
  unfolding offer
  offer-cases p c = ground arith

  enqueue-offer :
      (p : P) (c : Client P) (x : Client P × Offer P)
      → offer P p c ≡ x
      → enqueue P p c ≡ counted P x
  unfolding enqueue
  enqueue-offer p c x e = ap (counted P) e

  flush-sent :
      (d : ChatDelivery P) (ds : List (ChatDelivery P)) (c c' : Client P)
      → offer P d.payload c ≡ (c', sent)
      → flush P (d ∷ ds) c ≡ flush P ds (remember_message P d.message_id (count_added P c'))
  unfolding flush
  flush-sent d ds c c' e =
      let q = enqueue-offer d.payload c (c', sent) e in
      rw (q, flush) (ap (λ x. flush P ds (remember_message P d.message_id x.0)) q)

  flush-full :
      (d : ChatDelivery P) (ds : List (ChatDelivery P)) (c : Client P)
      → offer P d.payload c ≡ (c, finished false)
      → flush P (d ∷ ds) c ≡ (c, false)
  unfolding flush
  flush-full d ds c e =
      let q = enqueue-offer d.payload c (c, finished false) e in
      rw (q, flush) (ap (λ x. (x.0, false)) q)

  flushing-flush :
      (ds : List (ChatDelivery P)) (s : Threads P) (c : Client P)
      → run_client P (record s { client = c; delivery = flushing ds }) (flush_steps ds)
        ≡ ended s (cleared (flush P ds c))
  unfolding run_client client_step deliver_step flush_steps flush
  flushing-flush [] s c = refl
  flushing-flush (d ∷ ds) s c = elim (offer-cases d.payload c) [
    | inl e ↦
        let c' : Client P = record c { send = c.send ++ d.payload ∷ [] } in
        let f = flush-sent d ds c c' e in
        next (_, sent) e
        ∙ flushing-flush ds s (remember_message P d.message_id (count_added P c'))
        ∙ ap (λ x. ended s (cleared x)) (sym f)
    | inr e ↦
        let f = flush-full d ds c e in
        next (c, finished false) e ∙ free-flush_steps ds s c ∙ ap (λ x. ended s (cleared x)) (sym f)
  ]
    where
      t : Threads P
      t = record s { client = c; delivery = flushing (d ∷ ds) }

      next :
          (x : Client P × Offer P)
          → offer P d.payload c ≡ x
          → run_client P t (flush_steps (d ∷ ds))
            ≡ run_client P
                (deliver_step P (flush_next P d ds x t).delivery (flush_next P d ds x t))
                (flush_steps ds)
      next x e =
          ap
            (λ y.
              run_client P (deliver_step P (flush_next P d ds y t).delivery (flush_next P d ds y t))
                (flush_steps ds))
            e

  if-cleared :
      (x : Client P × Bool)
      → let y : Client P × Bool =
          if x.1 then (record (x.0) { pending_live = [] }, true) else (x.0, false) in
        y.0 ≡ cleared x
  if-cleared (c, true) = refl
  if-cleared (c, false) = refl

  finish_step-finish_resume :
      (s : Threads P) (c : Client P)
      → run_client P (ended s c) (finish_step ∷ flush_steps c.pending_live)
        ≡ ended s (finish_resume P c).0
  unfolding run_client client_step finish_resume
  finish_step-finish_resume s c =
      let live = record c { resuming = false } in
      flushing-flush c.pending_live s live
      ∙ ap (ended s) (sym (if-cleared (flush P c.pending_live live)))
