-- ===== src/Core/Sockets.antt =====
-- packages/core/src/context/builders.ts: the contexts of jobs, tasks and websocket messages. The hooks of a
-- queue and the driver of a socket are code outside: of the driver the calls are kept, the newest first.
pub mod Rooms
mod Tests
use intellibiz.Shared.{
  ℕ, String, Bool, true, false, Option, none, some, List, [], ◌∷◌, ◌==◌, if◌then◌else◌, Result, ok,
  err,
}
use intellibiz.Shared.Text.{Text}
use intellibiz.Shared.Table.{Table}
use intellibiz.Core.Context.{IntellibizStore, Factories, build_registered_services}

-- `H` is the type of the hooks.
pub record JobContextMeta (H : Type 0) : Type 0 where
  pub job_id : Text
  pub attempt : ℕ
  pub max_attempts : ℕ
  pub queue : Text
  pub retry : H
  pub fail : H

pub record JobContext (V H D : Type 0) : Type 0 where
  pub store : IntellibizStore
  pub services : Table V
  pub input : D
  pub meta : JobContextMeta H

unfoldable pub build_job_context :
    {V H D : Type 0} → Factories V → IntellibizStore → D → JobContextMeta H → JobContext V H D
unfolding build_registered_services
build_job_context factories store input meta = record {
  store = store;
  services = build_registered_services store factories;
  input = input;
  meta = meta;
}

pub record TaskContextMeta : Type 0 where
  pub job_id : Text
  pub cron_expression : Text
  pub scheduled_at : ℕ

pub record TaskContext (V : Type 0) : Type 0 where
  pub store : IntellibizStore
  pub services : Table V
  pub meta : TaskContextMeta

unfoldable pub build_task_context :
    {V : Type 0} → Factories V → IntellibizStore → TaskContextMeta → TaskContext V
unfolding build_registered_services
build_task_context factories store meta = record {
  store = store;
  services = build_registered_services store factories;
  meta = meta;
}

-- A call of the driver, for the connection; `P` is the type of payloads.
pub data DriverCall (P : Type 0) : Type 0 where
  sent : String → P → DriverCall P
  broadcasted : String → String → P → DriverCall P
  joined left : String → DriverCall P
  disconnected : DriverCall P

-- `currentRoom`, and the driver's calls
pub record SocketState (P : Type 0) : Type 0 where
  pub current_room : Option String
  pub calls : List (DriverCall P)

pub record SocketContext (V D P : Type 0) : Type 0 where
  pub store : IntellibizStore
  pub services : Table V
  pub input : D
  pub connection_id : Text
  pub state : SocketState P

unfoldable pub build_socket_context :
    {V D P : Type 0}
    → Factories V
    → IntellibizStore
    → D
    → Text
    → Option String
    → SocketContext V D P
unfolding build_registered_services
build_socket_context factories store input connection_id room_id = record {
  store = store;
  services = build_registered_services store factories;
  input = input;
  connection_id = connection_id;
  state = record { current_room = room_id; calls = [] };
}

-- `currentRoom === room`
abbrev pub is_room : String → Option String → Bool
is_room room none = false
is_room room (some current) = current == room

module _ {P : Type 0} where
  abbrev pub asked : DriverCall P → SocketState P → SocketState P
  asked call s = record s { calls = call ∷ s.calls }

  unfoldable pub send : String → P → SocketState P → SocketState P
  send event payload s = asked (sent event payload) s

  abbrev pub to_room : Option String → String → P → SocketState P → Result (SocketState P)
  to_room none event payload s =
      err "SocketContext.broadcast requires an active room — call join() first."
  to_room (some room) event payload s = ok (asked (broadcasted room event payload) s)

  unfoldable pub broadcast : String → P → SocketState P → Result (SocketState P)
  broadcast event payload s = to_room s.current_room event payload s

  unfoldable pub join_room : String → SocketState P → SocketState P
  join_room room s = record (asked (joined room) s) { current_room = some room }

  unfoldable pub leave_room : String → SocketState P → SocketState P
  leave_room room s = record (asked (left room) s) {
    current_room = if is_room room s.current_room then none else s.current_room;
  }

  unfoldable pub disconnect : SocketState P → SocketState P
  disconnect s = asked disconnected s
