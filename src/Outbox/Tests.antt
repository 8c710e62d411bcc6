-- ===== src/Outbox/Tests.antt =====
-- Runs of a small outbox of internal/rpc/chat.
use liveclass.Prelude.{
  ℕ, ◌≡◌, ◌≢◌, refl, Bool, true, false, not, ◌&&◌, String, none, some, List, [], ◌∷◌, Table, lookup,
  put, ◌==◌, string_eq, nat_eq, if◌then◌else◌, Bool-cases, some_inj, sym, ap, ◌∙◌, inl, inr, arith,
}
use liveclass.Outbox.{
  Message, persisted, precedes, claim_next, find_first, is_claimable, has_earlier_unpublished,
  defer_for_ordering, mark_published, update_leased, new_message, insert_message_idempotent,
  insert_mongo, find_client, is_published,
}
use liveclass.Outbox.Relay.{
  OutboxConfig, fine, unseen, Workers, idle_relay, RelayStep, sends, turns, relay_step, run_relay,
  worker_step, phase_step, claim_step, gate_step, order_step, write_step,
}
use liveclass.Outbox.Invariant.{is_written, InOrder}
use liveclass.Outbox.Order.{IsLate, run_relay-InOrder}
use liveclass.Outbox.History.{
  read_pages, select_mongo, matching, page, page_limit, with_cursor, next_cursor, last,
  encode_cursor, decode_cursor, sorted, insert, newer, read_on,
}
use liveclass.Outbox.Sorting.{IsUnique}
use liveclass.Outbox.Pages.{lesson_history, read_pages-history}
use liveclass.Outbox.Newer.{read_on-newer}
use liveclass.Outbox.TextOrder.{
  text_before, text_before-IsIdOrder, unary_codec, cursor_text, read_cursor,
}
use liveclass.Outbox.Inserts.{insert_message_idempotent-again, claim_next-exclusive}

abbrev a_before_b : String → String → Bool
a_before_b x y = (x == "a") && (y == "b")

abbrev config : OutboxConfig
config = record {
  ordering_retry_interval = 10;
  lease_duration = 100;
  retry_attempts = 2;
  retry_base_backoff = 5;
  retry_max_backoff = 50;
}

abbrev workers : Workers
workers = record {
  owner = λ w. if w == 0 then "zero" else "one";
  process = λ w. w;
  affinity = λ w. none;
}

abbrev goes_well : ℕ → ℕ → RelayStep
goes_well w now =
    turns w (record { now = now; reply = fine; cancelled = false; jitter = 0; error_text = "" })

abbrev first_message : RelayStep
first_message = sends "a" "one" 7 1 "hello" 3

abbrev second_message : RelayStep
second_message = sends "b" "two" 7 2 "hi" 3

-- Worker 1 claims the second message while worker 0 holds the first, and is deferred; the first write
-- of worker 0 takes effect and reports a failure, so the first message is written twice.
abbrev history : List RelayStep
history =
    first_message
    ∷ second_message
    ∷ goes_well 0 4
    ∷ goes_well 1 4
    ∷ goes_well 1 5
    ∷ goes_well 1 6
    ∷ goes_well 0 6
    ∷ goes_well 0 7
    ∷ turns 0 (record { now = 8; reply = unseen; cancelled = false; jitter = 0; error_text = "x" })
    ∷ goes_well 0 9
    ∷ goes_well 0 10
    ∷ goes_well 1 11
    ∷ goes_well 1 20
    ∷ goes_well 1 21
    ∷ goes_well 1 22
    ∷ goes_well 1 23
    ∷ goes_well 1 24
    ∷ []

abbrev keys : List (String × Message) → List String
keys [] = []
keys ((k, m) ∷ es) = k ∷ keys es

history_runs :
    keys (run_relay a_before_b config workers idle_relay history).written ≡ "b" ∷ "a" ∷ "a" ∷ []
unfolding run_relay relay_step worker_step phase_step claim_step gate_step order_step write_step
    idle_relay claim_next find_first is_claimable has_earlier_unpublished defer_for_ordering
    mark_published update_leased insert_message_idempotent insert_mongo find_client lookup put
history_runs = refl

abbrev short_history : List RelayStep
short_history =
    first_message
    ∷ second_message
    ∷ goes_well 0 4
    ∷ goes_well 1 4
    ∷ goes_well 0 5
    ∷ goes_well 0 6
    ∷ goes_well 0 7
    ∷ []

-- No row of a table is preceded by a message.
abbrev precedes_none : Message → Table String Message → Bool
precedes_none m [] = true
precedes_none m ((k, a) ∷ t) = not (precedes a_before_b m a) && precedes_none m t

precedes_none-IsLate :
    (m : Message) (t : Table String Message)
    → precedes_none m t ≡ true
    → IsLate a_before_b config workers m t
unfolding lookup
precedes_none-IsLate m [] h k a f = cc
precedes_none-IsLate m ((j, b) ∷ t) h k a f = elim (Bool-cases (j == k)) [
  | inl hit ↦
      let same : b ≡ a = some_inj (ground (arith, f, hit)) in
      let far : precedes a_before_b m b ≡ false = ground (arith, h) in
      ap (precedes a_before_b m) (sym same) ∙ far
  | inr miss ↦ precedes_none-IsLate m t (ground (arith, h)) k a (ground (arith, f, miss))
]

run_relay-InOrder_example :
    let s = run_relay a_before_b config workers idle_relay short_history in
    InOrder a_before_b s.store s.written
    × ((j : String) (a : Message)
        → lookup j s.store ≡ some a
        → is_published a ≡ true
        → is_written j s.written ≡ true)
unfolding idle_relay relay_step insert_message_idempotent insert_mongo find_client lookup put
run_relay-InOrder_example = run_relay-InOrder a_before_b config workers short_history (
  precedes_none-IsLate (new_message "a" "one" 7 1 "hello" 3) [] refl,
  (
    precedes_none-IsLate (new_message "b" "two" 7 2 "hi" 3)
        (relay_step a_before_b config workers idle_relay first_message).store refl,
    (tt, (tt, (tt, (tt, (tt, tt))))),
  ),
)

abbrev request : String → Message
request id = new_message id "one" 7 1 "hello" 3

insert_message_idempotent-again_example :
    let t = (insert_message_idempotent (request "a") []).0 in
    insert_message_idempotent (request "b") t
    ≡ (t, persisted (request "a") ((request "a").message_id == (request "b").message_id))
unfolding insert_message_idempotent insert_mongo find_client lookup
insert_message_idempotent-again_example =
    insert_message_idempotent-again (request "a") (request "b") (request "a") true []
      (record {
        named = ground (arith, string_eq.same_key_iff "one" "");
        client = refl;
        sender = refl;
        lesson = refl;
        content = refl;
      })
      refl

abbrev two_messages : Table String Message
two_messages =
    ("a", new_message "a" "one" 7 1 "hello" 3) ∷ ("b", new_message "b" "two" 7 2 "hi" 3) ∷ []

claim_next-exclusive_example : ¬ (◌≡◌ {A = String} "b" "a")
unfolding claim_next find_first is_claimable lookup put
claim_next-exclusive_example =
    claim_next-exclusive a_before_b "zero" "one" 4 50 100 100 none none two_messages "a" "b" _ _
      (refl, (refl, tt)) refl (omega arith) refl

abbrev three_messages : Table String Message
three_messages = ("c", new_message "c" "three" 7 2 "hey" 5) ∷ two_messages

distinct_texts : (s t : String) → (s == t) ≡ false → s ≢ t
distinct_texts s t h e = cc (h, (string_eq.same_key_iff s t).1 e)

abbrev all_unique : IsUnique three_messages
all_unique = (
  (distinct_texts "c" "a" refl, (distinct_texts "c" "b" refl, tt)),
  ((distinct_texts "a" "b" refl, tt), (tt, tt)),
)

read_pages-history_example :
    read_pages unary_codec text_before 4 7 "" 1 three_messages
    ≡ some (lesson_history text_before 7 three_messages)
unfolding sorted insert text_before
read_pages-history_example =
    read_pages-history unary_codec text_before text_before-IsIdOrder 7 1 three_messages all_unique
      (refl, (refl, (refl, tt))) 4 (omega arith)

abbrev anchor : Message
anchor = new_message "a" "one" 7 1 "hello" 3

read_on-newer_example :
    read_on text_before 3 7 "a" 1 three_messages ≡ some (newer text_before 7 anchor three_messages)
unfolding newer sorted insert text_before lookup
read_on-newer_example =
    read_on-newer text_before text_before-IsIdOrder 7 1 three_messages all_unique
      (
        record { found = refl; named = refl },
        (record { found = refl; named = refl }, (record { found = refl; named = refl }, tt)),
      )
      3 anchor (record { found = refl; named = refl; here = refl }) (omega arith)

two_pages :
    read_pages unary_codec text_before 2 7 "" 2 three_messages
    ≡ some (lesson_history text_before 7 three_messages)
unfolding read_pages select_mongo matching page page_limit with_cursor next_cursor last
    encode_cursor decode_cursor sorted insert text_before cursor_text read_cursor
two_pages = refl
