-- ===== src/Chat/Hub.antt =====
-- The rooms of a chat server, the Manager of internal/api/chatroom/hub.go. A room is an object with
-- an address, which a caller can hold after the map has lost it, and what runs under one lock is one
-- step: `register` under the manager's, the removal of a client under the room's, and the removal of
-- an empty room under the manager's. Clients are numbers, each with the lesson it was made for; of the metrics only
-- ActiveWebSocketConnections is kept.
use liveclass.Prelude.{
  ℕ, ◌+◌, Bool, false, not, ◌||◌, Option, none, some, List, [], ◌∷◌, keep_if, nat_beq, ◌==◌, int_eq,
  if◌then◌else◌,
}
use liveclass.Prelude.Int.{ℤ}

unfoldable pub contains : ℕ → List ℕ → Bool
contains c [] = false
contains c (x ∷ xs) = nat_beq x c || contains c xs

pub record Manager : Type 0 where
  pub rooms : ℤ → Option ℕ
  pub clients : ℕ → List ℕ  -- `room.clients` by address
  pub lesson_of : ℕ → ℤ  -- `room.lessonID` by address
  pub next_room : ℕ  -- the first address not in use
  pub connections_added : ℕ  -- ActiveWebSocketConnections, Inc and Dec
  pub connections_removed : ℕ

unfoldable pub new_manager : Manager
new_manager = record {
  rooms = λ l. none;
  clients = λ r. [];
  lesson_of = λ r. ℤ.pos 0;
  next_room = 0;
  connections_added = 0;
  connections_removed = 0;
}

abbrev pub set_clients : ℕ → List ℕ → (ℕ → List ℕ) → ℕ → List ℕ
set_clients r cs f a = if nat_beq a r then cs else f a

abbrev pub set_room : ℤ → Option ℕ → (ℤ → Option ℕ) → ℤ → Option ℕ
set_room l r f k = if k == l then r else f k

-- `room.clients[client] = struct{}{}`
abbrev pub add_client : ℕ → List ℕ → List ℕ
add_client c cs = if contains c cs then cs else c ∷ cs

abbrev pub without : ℕ → List ℕ → List ℕ
without c cs = keep_if (λ x. not (nat_beq x c)) cs

-- The part of `unregister` under `room.mu`, for the room that it read before.
unfoldable pub remove_client : ℕ → ℕ → Manager → Manager
remove_client r c m =
    if contains c (m.clients r)
    then record m {
      clients = set_clients r (without c (m.clients r)) m.clients;
      connections_removed = m.connections_removed + 1;
    }
    else m

-- The clients that `Broadcast` and `broadcastChat` reach.
unfoldable pub room_clients : ℤ → Manager → List ℕ
room_clients l m = elim (m.rooms l) [ none ↦ [] | some r ↦ m.clients r ]

pub data HubStep : Type 0 where
  registers : ℕ → HubStep
  removes_client removes_room : ℕ → ℕ → HubStep

module _ (lesson_id : ℕ → ℤ) where
  -- `register`
  unfoldable pub register : ℕ → Manager → Manager
  register c m = elim (m.rooms (lesson_id c)) [
    | some r ↦ record m {
      clients = set_clients r (add_client c (m.clients r)) m.clients;
      connections_added = m.connections_added + 1;
    }
    | none ↦ record m {
      rooms = set_room (lesson_id c) (some m.next_room) m.rooms;
      clients = set_clients m.next_room (c ∷ []) m.clients;
      lesson_of = λ a. if nat_beq a m.next_room then lesson_id c else m.lesson_of a;
      next_room = m.next_room + 1;
      connections_added = m.connections_added + 1;
    }
  ]

  -- The part of `unregister` under `m.mu`, for the same room.
  unfoldable pub remove_room : ℕ → ℕ → Manager → Manager
  remove_room r c m = elim (m.rooms (lesson_id c)) [
    | none ↦ m
    | some current ↦
        if nat_beq current r
        then elim (m.clients r) [
          | [] ↦ record m { rooms = set_room (lesson_id c) none m.rooms }
          | x ∷ xs ↦ m
        ]
        else m
  ]

  unfoldable pub hub_step : Manager → HubStep → Manager
  hub_step m (registers c) = register c m
  hub_step m (removes_client r c) = remove_client r c m
  hub_step m (removes_room r c) = remove_room r c m

  unfoldable pub run_hub : Manager → List HubStep → Manager
  run_hub m [] = m
  run_hub m (s ∷ ss) = run_hub (hub_step m s) ss
