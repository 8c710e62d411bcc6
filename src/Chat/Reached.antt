-- ===== src/Chat/Reached.antt =====
-- That a registered client is reached, the Manager of internal/api/chatroom/hub.go.
use liveclass.Prelude.{
  ℕ, ◌≡◌, ◌≢◌, refl, sym, ap, ◌∙◌, true, false, List, [], ◌∷◌, All, int_eq, Bool-cases,
  Option-cases, inl, inr, arith,
}
use liveclass.Prelude.Int.{ℤ}
use liveclass.Chat.Hub.{
  contains, without, add_client, set_clients, Manager, new_manager, register, remove_client,
  remove_room, room_clients, HubStep, registers, removes_client, removes_room, hub_step, run_hub,
}
use liveclass.Chat.Rooms.{
  IsConnected, run_hub-IsConnected, step-IsConnected, register-IsConnected, set_clients-cases,
  remove_room-cases,
}

contains-add_client :
    (c d : ℕ) (xs : List ℕ) → contains c xs ≡ true → contains c (add_client d xs) ≡ true
unfolding contains
contains-add_client c d xs h = ground (arith, h)

contains-add_self : (c : ℕ) (xs : List ℕ) → contains c (add_client c xs) ≡ true
unfolding contains
contains-add_self c xs = ground arith

contains-without_ne :
    (c d : ℕ) (xs : List ℕ) → d ≢ c → contains c xs ≡ true → contains c (without d xs) ≡ true
unfolding contains
contains-without_ne c d [] n h = h
contains-without_ne c d (x ∷ xs) n h = ground (arith, contains-without_ne c d xs n)

-- A step that does not remove the client.
abbrev pub Keeps : ℕ → HubStep → Type 0
Keeps c (registers d) = Unit
Keeps c (removes_client r d) = d ≢ c
Keeps c (removes_room r d) = Unit

module _ (lesson_id : ℕ → ℤ) where
  -- The client stands in some room, whether the map has it or not.
  abbrev Stands : ℕ → Manager → Type 0
  Stands c m = (r : ℕ) × (contains c (m.clients r) ≡ true)

  register-Stands :
      (c d : ℕ) (m : Manager)
      → IsConnected lesson_id m
      → Stands c m
      → Stands c (register lesson_id d m)
  unfolding register contains
  register-Stands c d m v (r, h) = elim (Option-cases (m.rooms (lesson_id d))) [
    | inl e ↦
        rw (e, register)
          (elim (set_clients-cases m.next_room (d ∷ []) m.clients r) [
            | inl (same, is) ↦
                let nobody : contains c (m.clients r) ≡ false =
                  ap (contains c) (v.unused r (omega (arith, same))) in
                ground (arith, h, nobody)
            | inr (_, is) ↦ (r, ap (contains c) is ∙ h)
          ])
    | inr (x, e) ↦
        rw (e, register)
          (elim (set_clients-cases x (add_client d (m.clients x)) m.clients r) [
            | inl (same, is) ↦
                let before : contains c (m.clients x) ≡ true =
                  ap (λ y. contains c (m.clients y)) (sym same) ∙ h in
                (r, ap (contains c) is ∙ contains-add_client c d (m.clients x) before)
            | inr (_, is) ↦ (r, ap (contains c) is ∙ h)
          ])
  ]

  remove_client-Stands :
      (c a d : ℕ) (m : Manager) → d ≢ c → Stands c m → Stands c (remove_client a d m)
  unfolding remove_client
  remove_client-Stands c a d m n (r, h) = elim (Bool-cases (contains d (m.clients a))) [
    | inr out ↦ rw out (r, h)
    | inl here ↦ rw here (elim (set_clients-cases a (without d (m.clients a)) m.clients r) [
      | inl (same, is) ↦
          let before : contains c (m.clients a) ≡ true =
            ap (λ y. contains c (m.clients y)) (sym same) ∙ h in
          (r, ap (contains c) is ∙ contains-without_ne c d (m.clients a) n before)
      | inr (_, is) ↦ (r, ap (contains c) is ∙ h)
    ])
  ]

  remove_room-Stands :
      (c a d : ℕ) (m : Manager) → Stands c m → Stands c (remove_room lesson_id a d m)
  remove_room-Stands c a d m (r, h) = elim (remove_room-cases lesson_id a d m) [
    | inl e ↦ (r, ap (λ (x : Manager). contains c (x.clients r)) e ∙ h)
    | inr (_, _, e) ↦ (r, ap (λ (x : Manager). contains c (x.clients r)) e ∙ h)
  ]

  run_hub-Stands :
      (c : ℕ) (m : Manager) (ss : List HubStep)
      → IsConnected lesson_id m
      → All (Keeps c) ss
      → Stands c m
      → Stands c (run_hub lesson_id m ss)
  unfolding run_hub hub_step
  run_hub-Stands c m [] v k h = h
  run_hub-Stands c m (registers d ∷ ss) v k h =
      run_hub-Stands c (register lesson_id d m) ss (register-IsConnected lesson_id d m v) k.1
        (register-Stands c d m v h)
  run_hub-Stands c m (removes_client a d ∷ ss) v k h =
      run_hub-Stands c (remove_client a d m) ss
        (step-IsConnected lesson_id m (removes_client a d) v) k.1
        (remove_client-Stands c a d m k.0 h)
  run_hub-Stands c m (removes_room a d ∷ ss) v k h =
      run_hub-Stands c (remove_room lesson_id a d m) ss
        (step-IsConnected lesson_id m (removes_room a d) v) k.1 (remove_room-Stands c a d m h)

  -- A client that stands in a room is reached.
  Stands-reached :
      (c : ℕ) (m : Manager)
      → IsConnected lesson_id m
      → Stands c m
      → contains c (room_clients (lesson_id c) m) ≡ true
  unfolding room_clients
  Stands-reached c m v (r, h) = rw (v.attached r c h, room_clients) h

  placed :
      (c r : ℕ) (cs : List ℕ) (m : Manager)
      → contains c cs ≡ true
      → contains c (set_clients r cs m.clients r) ≡ true
  placed c r cs m h = elim (set_clients-cases r cs m.clients r) [
    | inl (_, is) ↦ ap (contains c) is ∙ h
    | inr (away, _) ↦ absurd (away refl)
  ]

  register-Stands_self : (c : ℕ) (m : Manager) → Stands c (register lesson_id c m)
  unfolding register contains
  register-Stands_self c m = elim (Option-cases (m.rooms (lesson_id c))) [
    | inl e ↦
        rw (e, register) (m.next_room, placed c m.next_room (c ∷ []) m (contains-add_self c []))
    | inr (x, e) ↦
        let cs = add_client c (m.clients x) in
        rw (e, register) (x, placed c x cs m (contains-add_self c (m.clients x)))
  ]

  new-IsConnected : IsConnected lesson_id new_manager
  unfolding new_manager contains
  new-IsConnected = record {
    known = λ l r h. ground (arith, h);
    attached = λ r c h. ground (arith, h);
    unused = λ r h. refl;
  }

  -- From a new manager, however the steps of its callers come before and after, a client that was
  -- registered is among those that a broadcast to its lesson reaches, as long as no step after
  -- removes this client from a room.
  pub register-room_clients :
      (c : ℕ) (before after : List HubStep)
      → All (Keeps c) after
      → let m = register lesson_id c (run_hub lesson_id new_manager before) in
        contains c (room_clients (lesson_id c) (run_hub lesson_id m after)) ≡ true
  register-room_clients c before after k =
      let start = run_hub lesson_id new_manager before in
      let v =
        register-IsConnected lesson_id c start
          (run_hub-IsConnected lesson_id new_manager before new-IsConnected) in
      Stands-reached c (run_hub lesson_id (register lesson_id c start) after)
        (run_hub-IsConnected lesson_id (register lesson_id c start) after v)
        (run_hub-Stands c (register lesson_id c start) after v k (register-Stands_self c start))
