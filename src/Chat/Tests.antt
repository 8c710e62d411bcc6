-- ===== src/Chat/Tests.antt =====
-- Runs of a small client of internal/api/chatroom/hub.go.
use liveclass.Prelude.{
  ℕ, ◌+◌, ◌<◌, ◌≡◌, ◌≢◌, refl, true, false, String, [], ◌∷◌, arith, ◌==◌, string_eq,
}
use liveclass.Chat.Client.{
  member, Client, new_resuming_client, enqueue, offer, remember_message, forget_oldest, offer_chat,
  offer_replay, enqueue_chat, enqueue_replay, finish_resume,
}
use liveclass.Chat.Threads.{
  Threads, new_threads, deliver_step, write_step, take_step, client_step, run_client, chat, replay,
  finish_step, delivers, plain, plain_adds, closes, takes, writes,
}
use liveclass.Chat.Window.{remember_each, remember_message-again}
use liveclass.Chat.Bounds.{IsBounded, fresh-IsBounded}
use liveclass.Chat.Balance.{IsValid}
use liveclass.Chat.Queues.{run-new_resuming_client-IsValid}
use liveclass.Chat.Delivery.{enqueue_chat-again, finish_resume-send}
use liveclass.Prelude.Int.{ℤ, pos}
use liveclass.Chat.Hub.{
  contains, new_manager, register, room_clients, registers, removes_client, removes_room, run_hub,
}
use liveclass.Chat.Reached.{register-room_clients}
use liveclass.Chat.Ended.{writer_ends, accepted_lost}

abbrev lesson_five : ℕ → ℤ
lesson_five c = pos 5

-- A client with room for two messages and two ids, that resumes.
abbrev fresh : Client ℕ
fresh = new_resuming_client ℕ 2 2 true

small-IsBounded : IsBounded fresh
small-IsBounded = fresh-IsBounded 2 2 true

named : (k : String) → (k == "") ≡ false → k ≢ ""
named k h = ground (arith, string_eq.same_key_iff k "")

-- One live message held back.
abbrev holding : Client ℕ
holding = (enqueue_chat ℕ "b" 2 [] fresh).0

-- A live message comes first and the replay of it and of an older one after it: the older one is
-- sent first, and the other once, though the writer takes the first before it is counted and writes
-- it while FinishResume is in its loop.
resumes :
    let done = run_client ℕ (new_threads ℕ fresh) (
      chat "b" 2 []
      ∷ replay "a" 1
      ∷ takes
      ∷ delivers
      ∷ replay "b" 2
      ∷ finish_step
      ∷ delivers
      ∷ writes false
      ∷ writes false
      ∷ takes
      ∷ delivers
      ∷ delivers
      ∷ writes false
      ∷ writes false
      ∷ []) in
    (done.client.written ≡ 1 ∷ 2 ∷ [])
    × (done.client.pending_live ≡ [])
    × (done.client.depth_added ≡ done.client.depth_taken)
unfolding run_client client_step deliver_step take_step write_step offer offer_chat offer_replay
    remember_message forget_oldest member new_resuming_client
resumes = (refl, refl, refl)

-- A message on the queue that is not counted yet.
abbrev in_flight : Threads ℕ
in_flight = run_client ℕ (new_threads ℕ (new_resuming_client ℕ 2 2 false)) (plain 4 ∷ [])

in_flight-IsValid : IsValid in_flight
in_flight-IsValid = run-new_resuming_client-IsValid 2 2 false (plain 4 ∷ [])

run-new_resuming_client-IsValid_example :
    IsValid (run_client ℕ (new_threads ℕ fresh) (plain 2 ∷ takes ∷ writes true ∷ plain_adds ∷ []))
run-new_resuming_client-IsValid_example =
    run-new_resuming_client-IsValid 2 2 true (plain 2 ∷ takes ∷ writes true ∷ plain_adds ∷ [])

remember_message-again_example :
    member "a" (remember_each ("b" ∷ []) (remember_message ℕ "a" fresh)).seen_message_ids ≡ true
unfolding new_resuming_client member
remember_message-again_example =
    remember_message-again "a" ("b" ∷ []) fresh small-IsBounded.remembers (named "a" refl) refl
      (omega arith)

enqueue_chat-again_example :
    let c' = (enqueue_chat ℕ "b" 2 [] fresh).0 in
    (enqueue_chat ℕ "b" 3 [] c' ≡ (record c' { suppressed = c'.suppressed + 1 }, true))
    × (enqueue_replay ℕ "b" 3 c' ≡ (c', true))
unfolding new_resuming_client enqueue_chat offer_chat member
enqueue_chat-again_example =
    enqueue_chat-again "b" 2 3 [] [] fresh small-IsBounded (named "b" refl) (omega arith) refl

finish_resume-send_example :
    let (c', done) = finish_resume ℕ holding in
    (done ≡ true) × (c'.send ≡ 2 ∷ []) × (c'.pending_live ≡ []) × (c'.resuming ≡ false)
unfolding new_resuming_client enqueue_chat offer_chat remember_message forget_oldest member
finish_resume-send_example = finish_resume-send holding refl (omega arith)

accepted_lost_example :
    let s' = run_client ℕ in_flight writer_ends in
    let s'' = run_client ℕ s' (plain 7 ∷ plain_adds ∷ takes ∷ closes "connection closed" ∷ []) in
    ((enqueue ℕ 7 s'.client).1 ≡ true)
    × (s''.client.written ≡ [])
    × (s''.client.depth_taken < s''.client.depth_added + 1)
unfolding new_resuming_client run_client client_step offer
accepted_lost_example =
    accepted_lost in_flight 7 (takes ∷ closes "connection closed" ∷ []) in_flight-IsValid refl refl
      (omega arith)

-- Client 1 leaves the room of lesson 5 and finds it empty; client 2 registers before the room is
-- removed, and is reached all the same.
register-room_clients_example :
    let m =
      register lesson_five 2
        (run_hub lesson_five new_manager (registers 1 ∷ removes_client 0 1 ∷ [])) in
    contains 2 (
      room_clients
        (pos 5)
        (run_hub lesson_five m (removes_room 0 1 ∷ registers 3 ∷ removes_client 0 3 ∷ [])))
    ≡ true
register-room_clients_example =
    register-room_clients lesson_five 2 (registers 1 ∷ removes_client 0 1 ∷ [])
      (removes_room 0 1 ∷ registers 3 ∷ removes_client 0 3 ∷ []) (tt, (tt, (omega arith, tt)))
