-- ===== src/Outbox/Newer.antt =====
-- Reading on behind a message, internal/rpc/chat/dao/mongo.go.
use liveclass.Prelude.{
  ℕ, zero, suc, ◌<◌, ◌≡◌, refl, sym, ap, ◌∙◌, Bool, true, false, ◌&&◌, String, some, List, [], ◌∷◌,
  ◌++◌, Table, lookup, length, keep_if, All, ltb, ◌==◌, nat_eq, string_eq, Bool-cases, inl, inr,
  arith,
}
use mathlib.Core.Path.{subst}
use liveclass.Outbox.{Message, is_earlier}
use liveclass.Outbox.History.{
  page_limit, sorted, page, in_lesson, newer, select_mongo_after, read_on,
}
use liveclass.Outbox.Sorting.{
  IsIdOrder, IsUnique, earlier-IsOrder, keep_if-and, keep_if-implied, keep_if-passes,
  keep_if-IsSorted, All-keep_if, All-sorted, All-middle, IsSorted, sorted-IsSorted, keep_if-behind,
  Cut-at, last-append, page-last, page-more,
}
use liveclass.Outbox.Pages.{append_assoc, page_limit-pos}

-- A message is found by its message_id, which is no empty text, and it is one of the lesson.
pub record IsAnchor (lesson : ℕ) (t : Table String Message) (m : Message) : Type 0 where
  pub found : lookup m.message_id t ≡ some m
  pub named : (m.message_id == "") ≡ false
  pub here : in_lesson lesson m ≡ true

-- Every row is found by its message_id, which is no empty text.
pub record IsFound (t : Table String Message) (m : Message) : Type 0 where
  pub found : lookup m.message_id t ≡ some m
  pub named : (m.message_id == "") ≡ false

module _ (id_before : String → String → Bool) (o : IsIdOrder id_before) (lesson limit : ℕ)
    (t : Table String Message) (u : IsUnique t) (rows : All (λ row. IsFound t row.1) t) where
  lesson-first :
      (m : Message)
      → newer id_before lesson m t
        ≡ keep_if
            (is_earlier id_before m)
            (keep_if (in_lesson lesson) (sorted (is_earlier id_before) t))
  unfolding newer
  lesson-first m =
      keep_if-and (in_lesson lesson) (is_earlier id_before m) (sorted (is_earlier id_before) t)

  newer-IsSorted : (a : Message) → IsSorted (is_earlier id_before) (newer id_before lesson a t)
  unfolding newer
  newer-IsSorted a =
      let before = is_earlier id_before in
      keep_if-IsSorted before (λ m. in_lesson lesson m && is_earlier id_before a m)
        (sorted before t) (sorted-IsSorted before (earlier-IsOrder id_before o) t u)

  newer-passes :
      (a : Message)
      → All
          (λ x. (in_lesson lesson x && is_earlier id_before a x) ≡ true)
          (newer id_before lesson a t)
  unfolding newer
  newer-passes a =
      keep_if-passes (λ x. in_lesson lesson x && is_earlier id_before a x)
        (sorted (is_earlier id_before) t)

  newer-IsFound : (a : Message) → All (IsFound t) (newer id_before lesson a t)
  unfolding newer
  newer-IsFound a =
      let before = is_earlier id_before in
      All-keep_if before (IsFound t) (λ x. in_lesson lesson x && before a x) (sorted before t)
        (All-sorted before (IsFound t) t rows)

  -- What is newer than a message that is newer than another.
  newer-newer :
      (a m : Message) (xs ys : List Message)
      → newer id_before lesson a t ≡ xs ++ (m ∷ ys)
      → IsAnchor lesson t m × (newer id_before lesson m t ≡ ys)
  newer-newer a m xs ys e =
      let before = is_earlier id_before in
      let order = earlier-IsOrder id_before o in
      let all = sorted before t in
      let rest = keep_if (in_lesson lesson) all in
      let found =
        All-middle before order (IsFound t) xs m ys (subst (All (IsFound t)) e (newer-IsFound a)) in
      let behind =
        All-middle before order (λ x. (in_lesson lesson x && before a x) ≡ true) xs m ys
          (subst (All (λ x. (in_lesson lesson x && before a x) ≡ true)) e (newer-passes a)) in
      let later : before a m ≡ true = ground (arith, behind) in
      let cut : keep_if (before m) (newer id_before lesson a t) ≡ ys =
        ap (keep_if (before m)) e
        ∙ keep_if-behind before order xs m ys (subst (IsSorted before) e (newer-IsSorted a)) in
      (
        record { found = found.found; named = found.named; here = ground (arith, behind) },
        lesson-first m
            ∙ sym (keep_if-implied (before a) (before m) rest (λ x h. order.trans a m x later h))
            ∙ ap (keep_if (before m)) (sym (lesson-first a))
            ∙ cut,
      )

  select_mongo_after-anchor :
      (a : Message)
      → IsAnchor lesson t a
      → select_mongo_after id_before lesson a.message_id limit t
        ≡ some (page (page_limit limit) (newer id_before lesson a t))
  unfolding select_mongo_after
  select_mongo_after-anchor a h = rw (h.named, h.found, h.here, select_mongo_after) refl

  -- On a collection whose message ids are unique and not empty, and which does not change
  -- meanwhile, a client that reads on behind one of a lesson's messages until there is no more,
  -- whatever the limit of a page, gets every newer message of the lesson once, the oldest first,
  -- where the database's order of ids is a strict total order.
  pub read_on-newer :
      (fuel : ℕ) (a : Message)
      → IsAnchor lesson t a
      → length (newer id_before lesson a t) < fuel
      → read_on id_before fuel lesson a.message_id limit t ≡ some (newer id_before lesson a t)
  unfolding read_on
  read_on-newer zero a h l = absurd (omega (arith, l))
  read_on-newer (suc fuel) a h l =
      let ys = newer id_before lesson a t in
      let n = page_limit limit in
      elim (Bool-cases (ltb n (length ys))) [
        | inr short ↦
            rw
              (
                select_mongo_after-anchor a h ∙ ap some (page-last n ys (ground (arith, short))),
                read_on,
              )
              refl
        | inl long ↦
            let c = Cut-at n ys (ground (arith, long)) (page_limit-pos limit) in
            let (next, behind) = newer-newer a c.middle c.front c.back c.list in
            let rest =
              read_on-newer fuel c.middle next (omega (arith, ap length behind, l, c.short)) in
            let answer =
              select_mongo_after-anchor a h
              ∙ ap some (page-more n ys (ground (arith, long)) ∙ ap (λ x. (x, true)) c.head) in
            rw (answer, last-append c.front c.middle, rest, behind, read_on)
              (ap some (append_assoc c.front (c.middle ∷ []) c.back ∙ sym c.list))
      ]
