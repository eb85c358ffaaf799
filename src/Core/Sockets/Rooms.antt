-- ===== src/Core/Sockets/Rooms.antt =====
-- packages/core/src/context/builders.ts: a broadcast reaches the room that the connection is in.
use intellibiz.Shared.{
  String, Option, none, some, List, [], ◌∷◌, if◌then◌else◌, Result, ok, err, ◌≡◌, refl, sym, ap,
  ◌∙◌,
}
use intellibiz.Core.Sockets.{
  DriverCall, broadcasted, joined, left, SocketState, is_room, send, to_room, broadcast, join_room,
  leave_room, disconnect,
}

-- The room that the connection is in after the driver's calls, from the one that it was in before
abbrev pub room_after : {P : Type 0} → Option String → List (DriverCall P) → Option String
room_after first [] = first
room_after first (joined room ∷ calls) = some room
room_after first (left room ∷ calls) =
    let rest = room_after first calls in if is_room room rest then none else rest
room_after first (_ ∷ calls) = room_after first calls

-- Every broadcast went to the room that the connection was in at the time.
abbrev pub Routed : {P : Type 0} → Option String → List (DriverCall P) → Type 0
Routed first [] = Unit
Routed first (broadcasted room event payload ∷ calls) =
    (room_after first calls ≡ some room) × Routed first calls
Routed first (_ ∷ calls) = Routed first calls

-- What a handler calls on its context
pub data SocketCall (P : Type 0) : Type 0 where
  sends broadcasts : String → P → SocketCall P
  joins leaves : String → SocketCall P
  disconnects : SocketCall P

abbrev pub kept : {P : Type 0} → SocketState P → Result (SocketState P) → SocketState P
kept s (ok s') = s'
kept s (err e) = s

unfoldable pub act : {P : Type 0} → SocketCall P → SocketState P → SocketState P
unfolding send broadcast join_room leave_room disconnect
act (sends event payload) s = send event payload s
act (broadcasts event payload) s = kept s (broadcast event payload s)
act (joins room) s = join_room room s
act (leaves room) s = leave_room room s
act disconnects s = disconnect s

unfoldable pub act_all : {P : Type 0} → List (SocketCall P) → SocketState P → SocketState P
unfolding act
act_all [] s = s
act_all (c ∷ cs) s = act_all cs (act c s)

abbrev pub IsRouted : {P : Type 0} → Option String → SocketState P → Type 0
IsRouted first s = (s.current_room ≡ room_after first s.calls) × Routed first s.calls

to_room-IsRouted :
    {P : Type 0} (first room : Option String) (event : String) (payload : P) (s : SocketState P)
    → s.current_room ≡ room
    → IsRouted first s
    → IsRouted first (kept s (to_room room event payload s))
to_room-IsRouted first none event payload s e h = h
to_room-IsRouted first (some room) event payload s e h = (h.0, (sym h.0 ∙ e, h.1))

act-IsRouted :
    {P : Type 0} (first : Option String) (c : SocketCall P) (s : SocketState P)
    → IsRouted first s
    → IsRouted first (act c s)
unfolding act send broadcast join_room leave_room disconnect
act-IsRouted first (sends event payload) s h = h
act-IsRouted first (broadcasts event payload) s h =
    to_room-IsRouted first s.current_room event payload s refl h
act-IsRouted first (joins room) s h = (refl, h.1)
act-IsRouted first (leaves room) s h = (ap (λ o. if is_room room o then none else o) h.0, h.1)
act-IsRouted first disconnects s h = h

-- Whatever a handler calls on the context of a socket, the context's room is the one that the driver's
-- calls have led to: the room joined last, unless it was left since; and every broadcast that reached
-- the driver was for the room that the connection was in at the time.
pub act_all-IsRouted :
    {P : Type 0} (first : Option String) (cs : List (SocketCall P)) (s : SocketState P)
    → IsRouted first s
    → IsRouted first (act_all cs s)
unfolding act_all
act_all-IsRouted first [] s h = h
act_all-IsRouted first (c ∷ cs) s h = act_all-IsRouted first cs (act c s) (act-IsRouted first c s h)
