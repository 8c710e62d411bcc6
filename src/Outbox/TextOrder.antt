-- ===== src/Outbox/TextOrder.antt =====
-- The order of texts by their characters, a concrete order of message ids for
-- internal/rpc/chat/dao/mongo.go.
use Prim.Native.String.{String, [], ◌∷◌}
use Prim.Native.Char.{code}
use text.Mathlib.TextEquality.{codes_equal}
use text.Mathlib.TextPositions.{compare_self}
use liveclass.Prelude.{
  ℕ, zero, suc, Option, none, some, if◌then◌else◌, ◌≡◌, ◌≢◌, refl, ap, ◌∙◌, Bool, true, false, ◌&&◌,
  ◌||◌, ltb, nat_beq, Bool-cases, inl, inr, arith,
}
use liveclass.Outbox.History.{HistoryCursor, CursorCodec}
use liveclass.Outbox.Sorting.{IsIdOrder}

unfoldable pub text_before : String → String → Bool
text_before [] [] = false
text_before [] (d ∷ t) = true
text_before (c ∷ s) [] = false
text_before (c ∷ s) (d ∷ t) =
    let rest = text_before s t in ltb (code c) (code d) || (nat_beq (code c) (code d) && rest)

text_before-asym : (s t : String) → text_before s t ≡ true → text_before t s ≡ false
unfolding text_before
text_before-asym [] [] h = refl
text_before-asym [] (d ∷ t) h = refl
text_before-asym (c ∷ s) [] h = cc
text_before-asym (c ∷ s) (d ∷ t) h = ground (arith, h, text_before-asym s t)

text_before_trans :
    (s t r : String) → text_before s t ≡ true → text_before t r ≡ true → text_before s r ≡ true
unfolding text_before
text_before_trans [] [] r h k = k
text_before_trans [] (d ∷ t) [] h k = k
text_before_trans [] (d ∷ t) (e ∷ r) h k = refl
text_before_trans (c ∷ s) [] r h k = cc
text_before_trans (c ∷ s) (d ∷ t) [] h k = k
text_before_trans (c ∷ s) (d ∷ t) (e ∷ r) h k = ground (arith, h, k, text_before_trans s t r)

text_before_neither : (s t : String) → text_before s t ≡ false → text_before t s ≡ false → s ≡ t
unfolding text_before
text_before_neither [] [] h k = refl
text_before_neither [] (d ∷ t) h k = cc
text_before_neither (c ∷ s) [] h k = cc
text_before_neither (c ∷ s) (d ∷ t) h k =
    let same : code c ≡ code d = ground (arith, h, k) in
    let here = codes_equal c d (rw same (compare_self (code d))) in
    let rest : s ≡ t =
      text_before_neither s t (ground (arith, h, same)) (ground (arith, k, same)) in
    ap (λ x. x ∷ s) here ∙ ap (λ x. d ∷ x) rest

pub text_before-IsIdOrder : IsIdOrder text_before
text_before-IsIdOrder = record {
  asym = text_before-asym;
  trans = text_before_trans;
  total = λ s t d h. elim (Bool-cases (text_before t s)) [
    | inl e ↦ e
    | inr e ↦ absurd (d (text_before_neither s t h e))
  ];
}

-- A codec of cursors: as many characters 1 as the time, a 0, and the message id.
unfoldable pub cursor_text : ℕ → String → String
cursor_text zero s = "0" ∷ s
cursor_text (suc n) s = "1" ∷ cursor_text n s

abbrev later_by_one : Option HistoryCursor → Option HistoryCursor
later_by_one none = none
later_by_one (some c) = some (record c { created_at = suc c.created_at })

unfoldable pub read_cursor : String → Option HistoryCursor
read_cursor [] = none
read_cursor (c ∷ s) =
    let rest = read_cursor s in
    if nat_beq (code c) 49
    then later_by_one rest
    else some (record { created_at = 0; message_id = s })

pub read_cursor-cursor_text :
    (n : ℕ) (s : String)
    → read_cursor (cursor_text n s) ≡ some (record { created_at = n; message_id = s })
unfolding read_cursor cursor_text
read_cursor-cursor_text zero s = refl
read_cursor-cursor_text (suc n) s = ap later_by_one (read_cursor-cursor_text n s)

pub cursor_text-nonempty : (n : ℕ) (s : String) → cursor_text n s ≢ ""
unfolding cursor_text
cursor_text-nonempty zero s h = cc
cursor_text-nonempty (suc n) s h = cc

abbrev pub unary_codec : CursorCodec
unary_codec = record {
  to_text = λ c. cursor_text c.created_at c.message_id;
  of_text = read_cursor;
  of_text-to_text = λ c. read_cursor-cursor_text c.created_at c.message_id;
  to_text-nonempty = λ c. cursor_text-nonempty c.created_at c.message_id;
}
