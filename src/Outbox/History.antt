-- ===== src/Outbox/History.antt =====
-- The history of a lesson's messages, internal/rpc/chat/dao/mongo.go: SelectMongo with its cursors, and
-- SelectMongoAfter. A find with a sort walks through the rows in the order of the sort. JSON and
-- base64 are a parameter; time 0 stands for Go's zero time, limit 0 for every limit that is not
-- positive.
use liveclass.Prelude.{
  lookup, ℕ, zero, suc, ◌≡◌, ◌≢◌, Bool, true, false, ◌&&◌, ◌||◌, String, Option, none, some, List,
  [], ◌∷◌, ◌++◌, Table, length, take, keep_if, ltb, leb, ◌==◌, nat_eq, string_eq, if◌then◌else◌,
}
use liveclass.Outbox.{Message, is_earlier}

pub record HistoryCursor : Type 0 where
  pub created_at : ℕ
  pub message_id : String

-- JSON and base64: what is encoded is no empty text, and decodes to the same cursor.
pub record CursorCodec : Type 0 where
  pub to_text : HistoryCursor → String
  pub of_text : String → Option HistoryCursor
  pub of_text-to_text : (c : HistoryCursor) → of_text (to_text c) ≡ some c
  pub to_text-nonempty : (c : HistoryCursor) → to_text c ≢ ""

abbrev pub is_empty_cursor : HistoryCursor → Bool
is_empty_cursor c = (c.created_at == 0) || (c.message_id == "")

-- The limit of a page.
unfoldable pub page_limit : ℕ → ℕ
page_limit limit = let n = if limit == 0 then 50 else limit in if ltb 100 n then 100 else n

abbrev pub cursor_of : Message → HistoryCursor
cursor_of m = record { created_at = m.created_at; message_id = m.message_id }

unfoldable pub last : List Message → Option Message
last [] = none
last (m ∷ []) = some m
last (m ∷ n ∷ ms) = last (n ∷ ms)

module _ (before : Message → Message → Bool) where
  unfoldable pub insert : Message → List Message → List Message
  insert m [] = m ∷ []
  insert m (x ∷ xs) = let rest = insert m xs in if before m x then m ∷ x ∷ xs else x ∷ rest

  unfoldable pub sorted : Table String Message → List Message
  sorted [] = []
  sorted ((k, m) ∷ t) = insert m (sorted t)

-- A page of a list that is read one entry beyond the limit, and whether there is more.
unfoldable pub page : ℕ → List Message → List Message × Bool
page n ms =
    let found = take (suc n) ms in
    if leb (length found) n then (found, false) else (take n found, true)

abbrev pub in_lesson : ℕ → Message → Bool
in_lesson lesson m = m.lesson_id == lesson

module _ (id_before : String → String → Bool) where
  -- The filter on messages that are older than a cursor.
  abbrev pub older : HistoryCursor → Message → Bool
  older c m =
      ltb m.created_at c.created_at
      || ((m.created_at == c.created_at) && id_before m.message_id c.message_id)

  abbrev pub newest_first : Message → Message → Bool
  newest_first a b = is_earlier id_before b a

module _ (codec : CursorCodec) where
  -- encodeCursor
  unfoldable pub encode_cursor : HistoryCursor → Option String
  encode_cursor c = if is_empty_cursor c then none else some (codec.to_text c)

  -- decodeCursor
  unfoldable pub decode_cursor : String → Option HistoryCursor
  decode_cursor s = elim (codec.of_text s) [
    | none ↦ none
    | some c ↦ if is_empty_cursor c then none else some c
  ]

  -- The cursor of the next page; a page that is not the last is not empty.
  unfoldable pub next_cursor : List Message → Option String
  next_cursor ms = elim (last ms) [ none ↦ none | some m ↦ encode_cursor (cursor_of m) ]

  unfoldable pub with_cursor : List Message × Bool → Option (List Message × String)
  with_cursor (ms, false) = some (ms, "")
  with_cursor (ms, true) = elim (next_cursor ms) [ none ↦ none | some s ↦ some (ms, s) ]

  module _ (id_before : String → String → Bool) where
    -- The messages that match a cursor's filter, the newest first; none for a cursor that is refused.
    unfoldable pub matching : ℕ → String → Table String Message → Option (List Message)
    matching lesson cursor t =
        if cursor == ""
        then some (keep_if (in_lesson lesson) (sorted (newest_first id_before) t))
        else elim (decode_cursor cursor) [
          | none ↦ none
          | some c ↦ some (
              keep_if (λ m. in_lesson lesson m && older id_before c m)
                (sorted (newest_first id_before) t))
        ]

    -- SelectMongo
    unfoldable pub select_mongo :
        ℕ → String → ℕ → Table String Message → Option (List Message × String)
    select_mongo lesson cursor limit t = elim (matching lesson cursor t) [
      | none ↦ none
      | some ms ↦ with_cursor (page (page_limit limit) ms)
    ]

    -- A client that reads page after page, at most so many.
    unfoldable pub read_pages : ℕ → ℕ → String → ℕ → Table String Message → Option (List Message)
    read_pages zero lesson cursor limit t = none
    read_pages (suc n) lesson cursor limit t = elim (select_mongo lesson cursor limit t) [
      | none ↦ none
      | some (ms, next) ↦ more ms next (read_pages n lesson next limit t)
    ]
      where
        more : List Message → String → Option (List Message) → Option (List Message)
        more ms next rest =
            if next == "" then some ms else elim rest [ none ↦ none | some ns ↦ some (ms ++ ns) ]

module _ (id_before : String → String → Bool) where
  -- The filter on messages of a lesson that are newer than an anchor, the oldest first.
  unfoldable pub newer : ℕ → Message → Table String Message → List Message
  newer lesson anchor t =
      keep_if (λ m. in_lesson lesson m && is_earlier id_before anchor m)
        (sorted (is_earlier id_before) t)

  -- SelectMongoAfter: a page, and whether there is more.
  unfoldable pub select_mongo_after :
      ℕ → String → ℕ → Table String Message → Option (List Message × Bool)
  select_mongo_after lesson after limit t = if after == "" then none else elim (lookup after t) [
    | none ↦ none
    | some a ↦
        if in_lesson lesson a then some (page (page_limit limit) (newer lesson a t)) else none
  ]

  -- A client that reads on behind the last message it has got, at most so often.
  unfoldable pub read_on : ℕ → ℕ → String → ℕ → Table String Message → Option (List Message)
  read_on zero lesson after limit t = none
  read_on (suc n) lesson after limit t = elim (select_mongo_after lesson after limit t) [
    | none ↦ none
    | some (ms, false) ↦ some ms
    | some (ms, true) ↦ elim (last ms) [
      | none ↦ none
      | some m ↦ elim (read_on n lesson m.message_id limit t) [
        | none ↦ none
        | some ns ↦ some (ms ++ ns)
      ]
    ]
  ]

-- What GetHistory answers: the messages, the next cursor and `has_more`.
pub record HistoryPage : Type 0 where
  pub messages : List Message
  pub next_cursor : String
  pub has_more : Bool

abbrev pub last_id : List Message → String
last_id ms = elim (last ms) [ none ↦ "" | some m ↦ m.message_id ]

-- GetHistory after the check of the permission; `after` is trimmed.
unfoldable pub get_history :
    CursorCodec
    → (String → String → Bool)
    → ℕ
    → String
    → String
    → ℕ
    → Table String Message
    → Option HistoryPage
get_history codec id_before lesson cursor after limit t =
    if after == ""
    then elim (select_mongo codec id_before lesson cursor limit t) [
      | none ↦ none
      | some (ms, next) ↦ some (record { messages = ms; next_cursor = next; has_more = false })
    ]
    else elim (select_mongo_after id_before lesson after limit t) [
      | none ↦ none
      | some (ms, more) ↦ some (record { messages = ms; next_cursor = last_id ms; has_more = more })
    ]

-- DeleteLessonMessages
unfoldable pub delete_lesson_messages : ℕ → Table String Message → Table String Message
delete_lesson_messages lesson [] = []
delete_lesson_messages lesson ((k, m) ∷ t) =
    if in_lesson lesson m
    then delete_lesson_messages lesson t
    else (k, m) ∷ delete_lesson_messages lesson t
