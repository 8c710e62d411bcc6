-- ===== src/Chat/Seen.antt =====
-- The ids that a client remembers, `rememberMessageLocked` of internal/api/chatroom/hub.go: the map
-- and the order list hold the same ids, each once.
use liveclass.Prelude.{
  ℕ, suc, zero, ◌-◌, ◌≤◌, ◌≡◌, refl, sym, ap, ◌∙◌, false, not, ◌&&◌, ◌||◌, String, List, [], ◌∷◌,
  ◌++◌, length, take, drop, keep_if, length-drop, ◌==◌, string_eq, arith, ltb, Bool-cases, inl, inr,
}
use mathlib.Core.Path.{subst}
use liveclass.Chat.Client.{member, delete_each, Client, forget_oldest, remember_message}

-- Each id stands in the list once.
abbrev pub IsDistinct : List String → Type 0
IsDistinct [] = Unit
IsDistinct (x ∷ xs) = (member x xs ≡ false) × IsDistinct xs

pub member-append :
    (k : String) (xs ys : List String) → member k (xs ++ ys) ≡ (member k xs || member k ys)
unfolding member
member-append k [] ys = refl
member-append k (x ∷ xs) ys = ground (arith, member-append k xs ys)

pub append-IsDistinct :
    (xs : List String) (k : String)
    → IsDistinct xs
    → member k xs ≡ false
    → IsDistinct (xs ++ k ∷ [])
unfolding member
append-IsDistinct [] k d h = ground arith
append-IsDistinct (x ∷ xs) k d h = ground (
  arith,
  append-IsDistinct xs k d.1,
  member-append x xs (k ∷ []),
  string_eq.same_key_iff x k,
  string_eq.same_key_iff k x,
)

drop-IsDistinct : (n : ℕ) (xs : List String) → IsDistinct xs → IsDistinct (drop n xs)
drop-IsDistinct zero xs d = d
drop-IsDistinct (suc n) [] d = d
drop-IsDistinct (suc n) (x ∷ xs) d = drop-IsDistinct n xs d.1

member-delete :
    (k j : String) (xs : List String)
    → member k (keep_if (λ x. not (x == j)) xs) ≡ (member k xs && not (j == k))
unfolding member
member-delete k j [] = refl
member-delete k j (x ∷ xs) = ground (
  arith,
  member-delete k j xs,
  string_eq.same_key_iff x j,
  string_eq.same_key_iff x k,
  string_eq.same_key_iff j k,
)

member-delete_each :
    (k : String) (js xs : List String)
    → member k (delete_each js xs) ≡ (member k xs && not (member k js))
unfolding member delete_each
member-delete_each k [] xs = ground arith
member-delete_each k (j ∷ js) xs =
    ground (arith, member-delete_each k js (keep_if (λ x. not (x == j)) xs), member-delete k j xs)

-- What is left of a list without repetition after its first n entries.
member-drop :
    (k : String) (n : ℕ) (xs : List String)
    → IsDistinct xs
    → (member k xs && not (member k (take n xs))) ≡ member k (drop n xs)
unfolding member
member-drop k zero xs d = ground arith
member-drop k (suc n) [] d = refl
member-drop k (suc n) (x ∷ xs) d =
    let absent : x ≡ k → member k xs ≡ false = λ e. subst (λ y. member y xs ≡ false) e d.0 in
    ground (arith, member-drop k n xs d.1, string_eq.same_key_iff x k, absent)

module _ {P : Type 0} where
  -- The map and the order list hold the same ids, none twice and at most as many as configured.
  pub record Remembers (c : Client P) : Type 0 where
    pub same_ids : (k : String) → member k c.seen_message_ids ≡ member k c.seen_order
    pub distinct : IsDistinct c.seen_order
    pub within : length c.seen_order ≤ c.message_dedup_size

  forget_oldest-Remembers :
      (c : Client P)
      → ((k : String) → member k c.seen_message_ids ≡ member k c.seen_order)
      → IsDistinct c.seen_order
      → Remembers (forget_oldest P c)
  unfolding forget_oldest
  forget_oldest-Remembers c same d =
      elim (Bool-cases (ltb 0 (length c.seen_order - c.message_dedup_size))) [
        | inl over ↦ rw over (record {
          same_ids = λ k.
              member-delete_each k (take n c.seen_order) c.seen_message_ids
              ∙ ap (λ b. b && not (member k (take n c.seen_order))) (same k)
              ∙ member-drop k n c.seen_order d;
          distinct = drop-IsDistinct n c.seen_order d;
          within = omega (arith, length-drop n c.seen_order);
        })
        | inr fits ↦ rw fits (record { same_ids = same; distinct = d; within = ground arith })
      ]
    where
      n : ℕ
      n = length c.seen_order - c.message_dedup_size

  pub remember_message-Remembers :
      (k : String) (c : Client P) → Remembers c → Remembers (remember_message P k c)
  unfolding remember_message member
  remember_message-Remembers k c r = elim (Bool-cases (k == "")) [
    | inl e ↦ rw e r
    | inr e ↦ elim (Bool-cases (member k c.seen_message_ids)) [
      | inl m ↦ rw e (rw m r)
      | inr m ↦ rw e (
          rw m (
            forget_oldest-Remembers grown
              (λ j. ground (arith, member-append j c.seen_order (k ∷ []), r.same_ids j))
              (append-IsDistinct c.seen_order k r.distinct (sym (r.same_ids k) ∙ m))))
    ]
  ]
    where
      grown : Client P
      grown = record c {
        seen_message_ids = k ∷ c.seen_message_ids;
        seen_order = c.seen_order ++ k ∷ [];
      }
