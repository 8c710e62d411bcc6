-- ===== src/Outbox/Pages.antt =====
-- Reading a lesson's history page by page, internal/rpc/chat/dao/mongo.go.
use liveclass.Prelude.{
  ℕ, zero, suc, ◌≤◌, ◌<◌, ◌≡◌, refl, sym, ap, ◌∙◌, Bool, true, false, String, some, List, [], ◌∷◌,
  ◌++◌, Table, length, keep_if, All, ltb, ◌==◌, nat_eq, string_eq, Bool-cases, inl, inr, arith,
}
use mathlib.Core.Path.{subst}
use liveclass.Outbox.{Message}
use liveclass.Outbox.History.{
  CursorCodec, cursor_of, is_empty_cursor, page_limit, sorted, in_lesson, older, newest_first,
  encode_cursor, decode_cursor, next_cursor, with_cursor, matching, select_mongo, read_pages,
}
use liveclass.Outbox.Sorting.{
  IsIdOrder, IsUnique, newest_first-IsOrder, keep_if-and, keep_if-IsSorted, All-keep_if, All-sorted,
  All-middle, IsSorted, sorted-IsSorted, keep_if-behind, Cut, Cut-at, last-append, page-last,
  page-more,
}

pub append_assoc : (xs ys zs : List Message) → (xs ++ ys) ++ zs ≡ xs ++ (ys ++ zs)
append_assoc [] ys zs = refl
append_assoc (x ∷ xs) ys zs = ap (λ l. x ∷ l) (append_assoc xs ys zs)

pub page_limit-pos : (limit : ℕ) → 0 < page_limit limit
unfolding page_limit
page_limit-pos limit = ground arith

module _ (codec : CursorCodec) where
  -- The cursor behind a message is no empty text, and decodes to the message's place.
  next_cursor-decode :
      (xs : List Message) (m : Message)
      → is_empty_cursor (cursor_of m) ≡ false
      → (next_cursor codec (xs ++ (m ∷ [])) ≡ some (codec.to_text (cursor_of m)))
        × (((codec.to_text (cursor_of m) == "") ≡ false)
            × (decode_cursor codec (codec.to_text (cursor_of m)) ≡ some (cursor_of m)))
  unfolding next_cursor encode_cursor decode_cursor
  next_cursor-decode xs m h = (
    rw (last-append xs m, h, next_cursor, encode_cursor) refl,
    (
      ground (
        arith,
        codec.to_text-nonempty (cursor_of m),
        string_eq.same_key_iff (codec.to_text (cursor_of m)) "",
      ),
      rw (codec.of_text-to_text (cursor_of m), h, decode_cursor) refl,
    ),
  )

-- The lesson's messages, the newest first.
abbrev pub lesson_history : (String → String → Bool) → ℕ → Table String Message → List Message
lesson_history id_before lesson t = keep_if (in_lesson lesson) (sorted (newest_first id_before) t)

module _ (codec : CursorCodec) (id_before : String → String → Bool) (o : IsIdOrder id_before)
    (lesson limit : ℕ) (t : Table String Message) (u : IsUnique t)
    (named : All (λ row. is_empty_cursor (cursor_of row.1) ≡ false) t) where
  middle-named :
      (xs : List Message) (m : Message) (ys : List Message)
      → lesson_history id_before lesson t ≡ xs ++ (m ∷ ys)
      → is_empty_cursor (cursor_of m) ≡ false
  middle-named xs m ys e =
      let P : Message → Type 0 = λ x. is_empty_cursor (cursor_of x) ≡ false in
      let order = newest_first-IsOrder id_before o in
      All-middle (newest_first id_before) order P xs m ys (
        subst (All P) e (
          All-keep_if (newest_first id_before) P (in_lesson lesson)
            (sorted (newest_first id_before) t) (All-sorted (newest_first id_before) P t named)))

  matching-behind :
      (xs : List Message) (m : Message) (ys : List Message)
      → lesson_history id_before lesson t ≡ xs ++ (m ∷ ys)
      → matching codec id_before lesson (codec.to_text (cursor_of m)) t ≡ some ys
  unfolding matching
  matching-behind xs m ys e =
      let order = newest_first-IsOrder id_before o in
      let all = sorted (newest_first id_before) t in
      let (_, (nonempty, decoded)) = next_cursor-decode codec [] m (middle-named xs m ys e) in
      let rest : keep_if (older id_before (cursor_of m)) (lesson_history id_before lesson t) ≡ ys =
        ap (keep_if (older id_before (cursor_of m))) e
        ∙ keep_if-behind (newest_first id_before) order xs m ys (
            subst (IsSorted (newest_first id_before)) e (
              keep_if-IsSorted (newest_first id_before) (in_lesson lesson) all
                (sorted-IsSorted (newest_first id_before) order t u))) in
      rw (nonempty, decoded, matching)
        (ap some (keep_if-and (in_lesson lesson) (older id_before (cursor_of m)) all ∙ rest))

  select_mongo-last :
      (cursor : String) (ys : List Message)
      → matching codec id_before lesson cursor t ≡ some ys
      → length ys ≤ page_limit limit
      → select_mongo codec id_before lesson cursor limit t ≡ some (ys, "")
  unfolding select_mongo with_cursor
  select_mongo-last cursor ys h l =
      rw (h, select_mongo) (ap (with_cursor codec) (page-last (page_limit limit) ys l))

  select_mongo-more :
      (cursor : String) (xs ys : List Message) (c : Cut (page_limit limit) ys)
      → lesson_history id_before lesson t ≡ xs ++ ys
      → matching codec id_before lesson cursor t ≡ some ys
      → page_limit limit < length ys
      → select_mongo codec id_before lesson cursor limit t
        ≡ some (c.front ++ (c.middle ∷ []), codec.to_text (cursor_of c.middle))
  unfolding select_mongo with_cursor
  select_mongo-more cursor xs ys c e h l =
      let whole =
        e ∙ ap (λ l. xs ++ l) c.list ∙ sym (append_assoc xs c.front (c.middle ∷ c.back)) in
      let is_named = middle-named (xs ++ c.front) c.middle c.back whole in
      let (next, _) = next_cursor-decode codec c.front c.middle is_named in
      rw (h, select_mongo)
        (ap (with_cursor codec) (page-more (page_limit limit) ys l ∙ ap (λ l. (l, true)) c.head)
          ∙ rw (next, with_cursor) refl)

  reads :
      (fuel : ℕ) (cursor : String) (xs ys : List Message)
      → lesson_history id_before lesson t ≡ xs ++ ys
      → matching codec id_before lesson cursor t ≡ some ys
      → length ys < fuel
      → read_pages codec id_before fuel lesson cursor limit t ≡ some ys
  unfolding read_pages
  reads zero cursor xs ys e h l = absurd (omega (arith, l))
  reads (suc fuel) cursor xs ys e h l = elim (Bool-cases (ltb (page_limit limit) (length ys))) [
    | inr short ↦ rw (select_mongo-last cursor ys h (ground (arith, short)), read_pages) refl
    | inl long ↦
        let c = Cut-at (page_limit limit) ys (ground (arith, long)) (page_limit-pos limit) in
        let whole =
          e ∙ ap (λ l. xs ++ l) c.list ∙ sym (append_assoc xs c.front (c.middle ∷ c.back)) in
        let (_, (nonempty, _)) =
          next_cursor-decode codec [] c.middle
            (middle-named (xs ++ c.front) c.middle c.back whole) in
        let rest =
          reads fuel (codec.to_text (cursor_of c.middle)) ((xs ++ c.front) ++ (c.middle ∷ []))
            c.back (whole ∙ sym (append_assoc (xs ++ c.front) (c.middle ∷ []) c.back))
            (matching-behind (xs ++ c.front) c.middle c.back whole) (omega (arith, l, c.short)) in
        rw (select_mongo-more cursor xs ys c e h (ground (arith, long)), nonempty, rest, read_pages)
          (ap some (append_assoc c.front (c.middle ∷ []) c.back ∙ sym c.list))
  ]

  -- On a collection whose message ids are unique and not empty, and whose times are set, and which
  -- does not change meanwhile, a client that reads page after page of a lesson's history until
  -- there is no next cursor, whatever the limit of a page, gets every message of the lesson once,
  -- the newest first, where the database's order of ids is a strict total order.
  pub read_pages-history :
      (fuel : ℕ)
      → length (lesson_history id_before lesson t) < fuel
      → read_pages codec id_before fuel lesson "" limit t ≡ some (lesson_history id_before lesson t)
  unfolding matching
  read_pages-history fuel l = reads fuel "" [] (lesson_history id_before lesson t) refl refl l
