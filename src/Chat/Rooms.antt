-- ===== src/Chat/Rooms.antt =====
-- Where the clients of a chat server are found, the Manager of internal/api/chatroom/hub.go, however
-- the steps of its callers come between.
use liveclass.Prelude.{
  some_inj, ℕ, ◌≤◌, ◌<◌, ◌≡◌, ◌≢◌, sym, ap, ◌∙◌, true, false, Option, none, some, List, [], ◌∷◌,
  int_eq, Bool-cases, Option-cases, inl, inr, ◌⊎◌, arith,
}
use mathlib.Core.Path.{subst}
use liveclass.Prelude.Int.{ℤ}
use liveclass.Chat.Hub.{
  contains, without, add_client, set_clients, set_room, Manager, register, remove_client,
  remove_room, HubStep, registers, removes_client, removes_room, hub_step, run_hub,
}

contains-without : (c d : ℕ) (xs : List ℕ) → contains c (without d xs) ≡ true → contains c xs ≡ true
unfolding contains
contains-without c d [] h = h
contains-without c d (x ∷ xs) h = ground (arith, contains-without c d xs)

contains-single : (c d : ℕ) → contains c (d ∷ []) ≡ true → c ≡ d
unfolding contains
contains-single c d h = ground (arith, h)

contains-add :
    (c d : ℕ) (xs : List ℕ) → contains c (add_client d xs) ≡ true → (c ≡ d) ⊎ (contains c xs ≡ true)
unfolding contains
contains-add c d xs h = ground (arith, h)

pub set_clients-cases :
    (r : ℕ) (cs : List ℕ) (f : ℕ → List ℕ) (a : ℕ)
    → ((a ≡ r) × (set_clients r cs f a ≡ cs)) ⊎ ((a ≢ r) × (set_clients r cs f a ≡ f a))
set_clients-cases r cs f a = ground arith

set_room-cases :
    (l : ℤ) (x : Option ℕ) (f : ℤ → Option ℕ) (k : ℤ)
    → ((k ≡ l) × (set_room l x f k ≡ x)) ⊎ ((k ≢ l) × (set_room l x f k ≡ f k))
set_room-cases l x f k = ground (arith, int_eq.same_key_iff k l)

module _ (lesson_id : ℕ → ℤ) where
  -- A client stands in no room but the one that the map has for its lesson.
  pub record IsConnected (m : Manager) : Type 0 where
    pub known : (l : ℤ) (r : ℕ) → m.rooms l ≡ some r → r < m.next_room
    pub attached : (r c : ℕ) → contains c (m.clients r) ≡ true → m.rooms (lesson_id c) ≡ some r
    pub unused : (r : ℕ) → m.next_room ≤ r → m.clients r ≡ []

  remove_client-IsConnected :
      (r c : ℕ) (m : Manager) → IsConnected m → IsConnected (remove_client r c m)
  unfolding remove_client contains
  remove_client-IsConnected r c m v = elim (Bool-cases (contains c (m.clients r))) [
    | inr out ↦ rw out v
    | inl here ↦ rw here (record {
      known = v.known;
      attached = λ a d h. elim (set_clients-cases r (without c (m.clients r)) m.clients a) [
        | inl (same, is) ↦ v.attached a d (
            ap (λ x. contains d (m.clients x)) same
            ∙ contains-without d c (m.clients r) (ap (contains d) (sym is) ∙ h))
        | inr (_, is) ↦ v.attached a d (ap (contains d) (sym is) ∙ h)
      ];
      unused = λ a h. elim (set_clients-cases r (without c (m.clients r)) m.clients a) [
        | inl (same, is) ↦
            let empty : contains c (m.clients r) ≡ false =
              ap (contains c) (v.unused r (omega (arith, h, same))) in
            ground (arith, here, empty)
        | inr (_, is) ↦ is ∙ v.unused a h
      ];
    })
  ]

  pub remove_room-cases :
      (r c : ℕ) (m : Manager)
      → (remove_room lesson_id r c m ≡ m)
        ⊎ ((m.rooms (lesson_id c) ≡ some r)
            × (m.clients r ≡ [])
            × (remove_room lesson_id r c m
                ≡ record m { rooms = set_room (lesson_id c) none m.rooms }))
  unfolding remove_room
  remove_room-cases r c m = ground arith

  remove_room-IsConnected :
      (r c : ℕ) (m : Manager) → IsConnected m → IsConnected (remove_room lesson_id r c m)
  unfolding contains
  remove_room-IsConnected r c m v = elim (remove_room-cases r c m) [
    | inl e ↦ subst IsConnected (sym e) v
    | inr (here, empty, e) ↦ subst IsConnected (sym e) (record {
      known = λ l a h. elim (set_room-cases (lesson_id c) none m.rooms l) [
        | inl (_, is) ↦ ground (arith, sym is ∙ h)
        | inr (_, is) ↦ v.known l a (sym is ∙ h)
      ];
      attached = λ a d h. elim (set_room-cases (lesson_id c) none m.rooms (lesson_id d)) [
        | inl (same, _) ↦
            let one : some a ≡ some r = sym (v.attached a d h) ∙ ap m.rooms same ∙ here in
            let nobody : contains d (m.clients a) ≡ false =
              ap (λ x. contains d (m.clients x)) (some_inj one) ∙ ap (contains d) empty in
            ground (arith, h, nobody)
        | inr (_, is) ↦ is ∙ v.attached a d h
      ];
      unused = v.unused;
    })
  ]

  pub register-IsConnected :
      (c : ℕ) (m : Manager) → IsConnected m → IsConnected (register lesson_id c m)
  unfolding register contains
  register-IsConnected c m v = elim (Option-cases (m.rooms (lesson_id c))) [
    | inl e ↦
        rw (e, register)
          (record {
            known = λ l a h. elim (set_room-cases (lesson_id c) (some m.next_room) m.rooms l) [
              | inl (_, is) ↦ omega (arith, some_inj (sym is ∙ h))
              | inr (_, is) ↦ omega (arith, v.known l a (sym is ∙ h))
            ];
            attached = λ a d h. elim (set_clients-cases m.next_room (c ∷ []) m.clients a) [
              | inl (same, is) ↦
                  let self : d ≡ c = contains-single d c (ap (contains d) (sym is) ∙ h) in
                  elim (set_room-cases (lesson_id c) (some m.next_room) m.rooms (lesson_id d)) [
                    | inl (_, at) ↦ at ∙ ap some (sym same)
                    | inr (away, _) ↦ absurd (away (ap lesson_id self))
                  ]
              | inr (_, is) ↦
                  let there = v.attached a d (ap (contains d) (sym is) ∙ h) in
                  elim (set_room-cases (lesson_id c) (some m.next_room) m.rooms (lesson_id d)) [
                    | inl (near, _) ↦ ground (arith, sym there ∙ ap m.rooms near ∙ e)
                    | inr (_, at) ↦ at ∙ there
                  ]
            ];
            unused = λ a h. elim (set_clients-cases m.next_room (c ∷ []) m.clients a) [
              | inl (same, is) ↦ absurd (omega (arith, same, h))
              | inr (_, is) ↦ is ∙ v.unused a (omega (arith, h))
            ];
          })
    | inr (x, e) ↦
        rw (e, register)
          (record {
            known = v.known;
            attached = λ a d h.
                elim (set_clients-cases x (add_client c (m.clients x)) m.clients a) [
                  | inl (same, is) ↦
                      elim (contains-add d c (m.clients x) (ap (contains d) (sym is) ∙ h)) [
                        | inl self ↦ ap (λ y. m.rooms (lesson_id y)) self ∙ e ∙ ap some (sym same)
                        | inr was ↦ v.attached x d was ∙ ap some (sym same)
                      ]
                  | inr (_, is) ↦ v.attached a d (ap (contains d) (sym is) ∙ h)
                ];
            unused = λ a h. elim (set_clients-cases x (add_client c (m.clients x)) m.clients a) [
              | inl (same, is) ↦ absurd (omega (arith, same, h, v.known (lesson_id c) x e))
              | inr (_, is) ↦ is ∙ v.unused a h
            ];
          })
  ]

  pub step-IsConnected :
      (m : Manager) (s : HubStep) → IsConnected m → IsConnected (hub_step lesson_id m s)
  unfolding hub_step
  step-IsConnected m (registers c) v = register-IsConnected c m v
  step-IsConnected m (removes_client r c) v = remove_client-IsConnected r c m v
  step-IsConnected m (removes_room r c) v = remove_room-IsConnected r c m v

  pub run_hub-IsConnected :
      (m : Manager) (ss : List HubStep) → IsConnected m → IsConnected (run_hub lesson_id m ss)
  unfolding run_hub
  run_hub-IsConnected m [] v = v
  run_hub-IsConnected m (s ∷ ss) v =
      run_hub-IsConnected (hub_step lesson_id m s) ss (step-IsConnected m s v)
