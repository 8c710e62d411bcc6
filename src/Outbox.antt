-- ===== src/Outbox.antt =====
-- The chat service's message collection and its outbox, internal/rpc/chat/dao/mongo.go and
-- internal/rpc/chat/model. A statement of the driver has the meaning of its filter and update on a
-- table of messages by message_id, which the unique index makes a key; times are numbers, and the
-- order of two message ids is the database's, a parameter. Lesson ids are above 0.
pub mod Relay
pub mod Updates
pub mod Invariant
pub mod Steps
pub mod Order
pub mod Inserts
pub mod History
pub mod Sorting
pub mod Pages
pub mod Newer
pub mod TextOrder
pub mod Tests
use liveclass.Prelude.{
  ℕ, ◌+◌, ◌%◌, Bool, true, false, not, ◌&&◌, ◌||◌, String, Option, none, some, List, [], ◌∷◌, Table,
  lookup, put, ltb, leb, ◌==◌, string_eq, nat_eq, if◌then◌else◌,
}

pub data OutboxStatus : Type 0 where
  pending publishing published : OutboxStatus

pub record OutboxState : Type 0 where
  pub status : OutboxStatus
  pub attempts : ℕ
  pub next_attempt_at : ℕ
  pub lease_owner : Option String
  pub lease_until : Option ℕ
  pub published_at : Option ℕ
  pub last_error : String

pub record Message : Type 0 where
  pub message_id : String
  pub client_message_id : String
  pub lesson_id : ℕ
  pub lesson_seq : ℕ
  pub sender_id : ℕ
  pub content : String
  pub created_at : ℕ
  pub outbox : OutboxState

abbrev pub is_published : Message → Bool
is_published m = elim m.outbox.status [ published ↦ true | pending ↦ false | publishing ↦ false ]

abbrev pub past : ℕ → Option ℕ → Bool
past now none = false
past now (some t) = leb t now

-- The filter of `claimNextOutbox`; a worker's affinity is its number and their count.
unfoldable pub is_claimable : ℕ → Option (ℕ × ℕ) → Message → Bool
is_claimable now affinity m = due m.outbox.status && mine affinity
  where
    due : OutboxStatus → Bool
    due pending = leb m.outbox.next_attempt_at now
    due publishing = past now m.outbox.lease_until
    due published = false

    mine : Option (ℕ × ℕ) → Bool
    mine none = true
    mine (some (worker, count)) = m.lesson_id % count == worker

abbrev pub owned_by : String → Message → Bool
owned_by owner m = elim m.outbox.status [
  | publishing ↦ has_owner m.outbox.lease_owner
  | pending ↦ false
  | published ↦ false
]
  where
    has_owner : Option String → Bool
    has_owner none = false
    has_owner (some o) = o == owner

-- UpdateOne with the filter on message_id, status and lease_owner: whether it matched.
unfoldable pub update_leased :
    String
    → String
    → (OutboxState → OutboxState)
    → Table String Message
    → Table String Message × Bool
update_leased k owner f t = elim (lookup k t) [
  | none ↦ (t, false)
  | some m ↦
      if owned_by owner m then (put k (record m { outbox = f m.outbox }) t, true) else (t, false)
]

-- DeferOutboxForOrdering
abbrev pub deferred : ℕ → OutboxState → OutboxState
deferred next o = record o {
  status = pending;
  next_attempt_at = next;
  lease_owner = none;
  lease_until = none;
}

unfoldable pub defer_for_ordering :
    String → String → ℕ → Table String Message → Table String Message × Bool
defer_for_ordering k owner next = update_leased k owner (deferred next)

-- MarkOutboxPublished
unfoldable pub mark_published :
    String → String → ℕ → Table String Message → Table String Message × Bool
mark_published k owner at = update_leased k owner λ o. record o {
  status = published;
  next_attempt_at = 0;
  lease_owner = none;
  lease_until = none;
  published_at = some at;
  last_error = "";
}

-- MarkOutboxRetry
unfoldable pub mark_retry :
    String → String → String → ℕ → Table String Message → Table String Message × Bool
mark_retry k owner last_error next = update_leased k owner λ o. record o {
  status = pending;
  attempts = o.attempts + 1;
  next_attempt_at = next;
  lease_owner = none;
  lease_until = none;
  last_error = last_error;
}

-- CountPendingOutbox
unfoldable pub count_pending : Table String Message → ℕ
count_pending [] = 0
count_pending ((k, m) ∷ t) = if is_published m then count_pending t else count_pending t + 1

-- InsertMongo, which the unique index on message_id refuses for a known id.
unfoldable pub insert_mongo : Message → Table String Message → Option (Table String Message)
insert_mongo m t = elim (lookup m.message_id t) [
  | none ↦ some (put m.message_id m t)
  | some old ↦ none
]

-- What InsertMessageIdempotent reports instead of a message.
pub data InsertError : Type 0 where
  duplicate_key no_documents content_conflict : InsertError

pub data Inserted : Type 0 where
  persisted : Message → Bool → Inserted  -- the document, and whether this call inserted it
  refused : InsertError → Inserted

-- The filter { sender_id, client_message_id }.
unfoldable pub find_client : ℕ → String → Table String Message → Option Message
find_client sender client [] = none
find_client sender client ((k, m) ∷ t) =
    if (m.sender_id == sender) && (m.client_message_id == client)
    then some m
    else find_client sender client t

abbrev pub compare_content : Message → Message → Inserted
compare_content m old =
    if not (old.lesson_id == m.lesson_id) || not (old.content == m.content)
    then refused content_conflict
    else persisted old (old.message_id == m.message_id)

-- InsertMessageIdempotent; the upsert is one atomic command.
unfoldable pub insert_message_idempotent :
    Message → Table String Message → Table String Message × Inserted
insert_message_idempotent m t =
    if m.client_message_id == ""
    then elim (insert_mongo m t) [
      | none ↦ (t, refused duplicate_key)
      | some t' ↦ (t', persisted m true)
    ]
    else elim (find_client m.sender_id m.client_message_id t) [
      | some old ↦ (t, compare_content m old)
      | none ↦ elim (insert_mongo m t) [
        | none ↦ (t, refused no_documents)
        | some t' ↦ (t', compare_content m m)
      ]
    ]

-- The message that LiveChat stores.
abbrev pub new_message : String → String → ℕ → ℕ → String → ℕ → Message
new_message id client lesson sender content now = record {
  message_id = id;
  client_message_id = client;
  lesson_id = lesson;
  lesson_seq = 0;
  sender_id = sender;
  content = content;
  created_at = now;
  outbox = record {
    status = pending;
    attempts = 0;
    next_attempt_at = now;
    lease_owner = none;
    lease_until = none;
    published_at = none;
    last_error = "";
  };
}

-- The update of `claimNextOutbox`.
abbrev pub claimed : String → ℕ → Message → Message
claimed owner until m = record m {
  outbox = record (m.outbox) {
    status = publishing;
    lease_owner = some owner;
    lease_until = some until;
  };
}

-- `id_before` is the database's order of message ids.
module _ (id_before : String → String → Bool) where
  -- The sort key { created_at: 1, message_id: 1 }.
  abbrev pub is_earlier : Message → Message → Bool
  is_earlier a b =
      ltb a.created_at b.created_at
      || ((a.created_at == b.created_at) && id_before a.message_id b.message_id)

  abbrev pub first_of : String × Message → Option (String × Message) → String × Message
  first_of a none = a
  first_of a (some b) = if is_earlier b.1 a.1 then b else a

  -- The first message of a filter in the order of the sort key.
  unfoldable pub find_first : (Message → Bool) → Table String Message → Option (String × Message)
  find_first p [] = none
  find_first p ((k, m) ∷ t) =
      let rest = find_first p t in if p m then some (first_of (k, m) rest) else rest

  -- claimNextOutbox: FindOneAndUpdate, which returns the updated message.
  unfoldable pub claim_next :
      String
      → ℕ
      → ℕ
      → Option (ℕ × ℕ)
      → Table String Message
      → Table String Message × Option (String × Message)
  claim_next owner now lease affinity t = elim (find_first (is_claimable now affinity) t) [
    | none ↦ (t, none)
    | some (k, m) ↦
        (put k (claimed owner (now + lease) m) t, some (k, claimed owner (now + lease) m))
  ]

  -- The filter of HasEarlierUnpublishedOutbox on another message.
  abbrev pub precedes : Message → Message → Bool
  precedes a m = (a.lesson_id == m.lesson_id) && is_earlier a m

  -- HasEarlierUnpublishedOutbox
  unfoldable pub has_earlier_unpublished : Message → Table String Message → Bool
  has_earlier_unpublished m [] = false
  has_earlier_unpublished m ((k, a) ∷ t) =
      (precedes a m && not (is_published a)) || has_earlier_unpublished m t
