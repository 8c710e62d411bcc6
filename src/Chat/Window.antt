-- ===== src/Chat/Window.antt =====
-- How long a client remembers an id, `rememberMessageLocked` of internal/api/chatroom/hub.go.
use liveclass.Prelude.{
  ℕ, suc, zero, ◌+◌, ◌-◌, ◌≤◌, ◌<◌, ◌≡◌, refl, sym, ap, ◌∙◌, ◌≢◌, true, false, String, List, [],
  ◌∷◌, ◌++◌, length, drop, length-append, length-drop, ltb, ◌==◌, string_eq, beq_refl, Bool-cases,
  ◌⊎◌, inl, inr, arith,
}
use liveclass.Chat.Client.{member, Client, forget_oldest, remember_message}
use liveclass.Chat.Seen.{Remembers, remember_message-Remembers, member-append}

-- The last `n` entries.
abbrev pub last_of : ℕ → List String → List String
last_of n xs = drop (length xs - n) xs

drop-append : (m : ℕ) (xs ys : List String) → m ≤ length xs → drop m (xs ++ ys) ≡ (drop m xs ++ ys)
drop-append zero xs ys h = refl
drop-append (suc m) [] ys h = ground arith
drop-append (suc m) (x ∷ xs) ys h = drop-append m xs ys (omega (arith, h))

drop_nil : (n : ℕ) → drop {A = String} n [] ≡ []
drop_nil zero = refl
drop_nil (suc n) = refl

drop-drop : (m n : ℕ) (xs : List String) → drop m (drop n xs) ≡ drop (n + m) xs
drop-drop m zero xs = ap (λ i. drop i xs) (omega arith)
drop-drop m (suc n) [] = drop_nil m ∙ sym (drop_nil (suc n + m))
drop-drop m (suc n) (x ∷ xs) = drop-drop m n xs ∙ ap (λ i. drop i (x ∷ xs)) same
  where
    same : suc (n + m) ≡ suc n + m
    same = omega arith

last-append :
    (n : ℕ) (xs : List String) (j : String)
    → last_of (suc n) (xs ++ j ∷ []) ≡ (last_of n xs ++ j ∷ [])
last-append n xs j =
    ap (λ m. drop m (xs ++ j ∷ [])) (omega (arith, length-append xs (j ∷ [])))
    ∙ drop-append (length xs - n) xs (j ∷ []) (omega arith)

last-last : (n d : ℕ) (xs : List String) → n ≤ d → last_of n (last_of d xs) ≡ last_of n xs
last-last n d xs h =
    drop-drop (length (last_of d xs) - n) (length xs - d) xs
    ∙ ap (λ m. drop m xs) (omega (arith, length-drop (length xs - d) xs))

member-drop_le :
    (k : String) (n : ℕ) (xs : List String) → member k (drop n xs) ≡ true → member k xs ≡ true
unfolding member
member-drop_le k zero xs h = h
member-drop_le k (suc n) [] h = h
member-drop_le k (suc n) (x ∷ xs) h = ground (arith, member-drop_le k n xs)

module _ {P : Type 0} where
  unfoldable pub remember_each : List String → Client P → Client P
  remember_each [] c = c
  remember_each (k ∷ ks) c = remember_each ks (remember_message P k c)

  forget_oldest-order :
      (c : Client P) → (forget_oldest P c).seen_order ≡ last_of c.message_dedup_size c.seen_order
  unfolding forget_oldest
  forget_oldest-order c = elim (Bool-cases (ltb 0 (length c.seen_order - c.message_dedup_size))) [
    | inl over ↦ rw over refl
    | inr fits ↦
        let kept : 0 ≡ length c.seen_order - c.message_dedup_size = ground arith in
        rw fits (ap (λ n. drop n c.seen_order) kept)
  ]

  remember-size :
      (k : String) (c : Client P)
      → (remember_message P k c).message_dedup_size ≡ c.message_dedup_size
  unfolding remember_message forget_oldest
  remember-size k c = ground arith

  -- An id that is among the last `n` of the order list is among the last `n` or `n + 1` after
  -- another one was remembered.
  remember-last :
      (k j : String) (n : ℕ) (c : Client P)
      → suc n ≤ c.message_dedup_size
      → member k (last_of n c.seen_order) ≡ true
      → (member k (last_of n (remember_message P j c).seen_order) ≡ true)
        ⊎ (member k (last_of (suc n) (remember_message P j c).seen_order) ≡ true)
  unfolding remember_message member
  remember-last k j n c room h = elim (Bool-cases (j == "")) [
    | inl e ↦ rw e (inl h)
    | inr e ↦ elim (Bool-cases (member j c.seen_message_ids)) [
      | inl m ↦ rw e (rw m (inl h))
      | inr m ↦ rw e (
          rw m (
            inr (
              ap (λ os. member k (last_of (suc n) os)) (forget_oldest-order grown)
              ∙ ap (member k) (last-last (suc n) c.message_dedup_size grown.seen_order room)
              ∙ ap (member k) (last-append n c.seen_order j)
              ∙ ground (arith, member-append k (last_of n c.seen_order) (j ∷ []), h))))
    ]
  ]
    where
      grown : Client P
      grown = record c {
        seen_message_ids = j ∷ c.seen_message_ids;
        seen_order = c.seen_order ++ j ∷ [];
      }

  remember-newest :
      (k : String) (c : Client P)
      → k ≢ ""
      → member k c.seen_message_ids ≡ false
      → 0 < c.message_dedup_size
      → member k (last_of 1 (remember_message P k c).seen_order) ≡ true
  unfolding remember_message member
  remember-newest k c h m room =
      let named : (k == "") ≡ false = ground (arith, string_eq.same_key_iff k "") in
      rw named (
        rw m (
          ap (λ os. member k (last_of 1 os)) (forget_oldest-order grown)
          ∙ ap (member k) (last-last 1 c.message_dedup_size grown.seen_order (omega arith))
          ∙ ap (member k) (last-append 0 c.seen_order k)
          ∙ member-append k (last_of 0 c.seen_order) (k ∷ [])
          ∙ ground (arith, beq_refl k)))
    where
      grown : Client P
      grown = record c {
        seen_message_ids = k ∷ c.seen_message_ids;
        seen_order = c.seen_order ++ k ∷ [];
      }

  still_remembered :
      (k : String) (ks : List String) (n : ℕ) (c : Client P)
      → Remembers c
      → n + length ks ≤ c.message_dedup_size
      → member k (last_of n c.seen_order) ≡ true
      → member k (remember_each ks c).seen_message_ids ≡ true
  unfolding remember_each
  still_remembered k [] n c r room h =
      r.same_ids k ∙ member-drop_le k (length c.seen_order - n) c.seen_order h
  still_remembered k (j ∷ ks) n c r room h =
      let c' = remember_message P j c in
      let r' = remember_message-Remembers j c r in
      let size = remember-size j c in
      elim (remember-last k j n c (omega arith) h) [
        | inl now ↦ still_remembered k ks n c' r' (omega (arith, size)) now
        | inr now ↦ still_remembered k ks (suc n) c' r' (omega (arith, size)) now
      ]

  -- An id that is not empty and new to a client whose map and order list hold the same ids, each
  -- once, is still remembered after fewer further ids than the client is configured to keep.
  pub remember_message-again :
      (k : String) (ks : List String) (c : Client P)
      → Remembers c
      → k ≢ ""
      → member k c.seen_message_ids ≡ false
      → length ks < c.message_dedup_size
      → member k (remember_each ks (remember_message P k c)).seen_message_ids ≡ true
  remember_message-again k ks c r h m room =
      still_remembered k ks 1 (remember_message P k c) (remember_message-Remembers k c r)
        (omega (arith, remember-size k c)) (remember-newest k c h m (omega arith))
