-- ===== src/Core/Sockets/Tests.antt =====
-- packages/core/src/context/builders.ts at concrete inputs.
use intellibiz.Shared.{ℕ, none, some, List, [], ◌∷◌, ◌≡◌, refl}
use intellibiz.Core.Sockets.{
  broadcasted, joined, left, SocketState, send, broadcast, join_room, leave_room, disconnect,
}
use intellibiz.Core.Sockets.Rooms.{
  SocketCall, broadcasts, joins, leaves, act, act_all, IsRouted, act_all-IsRouted,
}

sockets : Unit {0}
unfolding send broadcast join_room leave_room disconnect act act_all
sockets = tt

abbrev start : SocketState ℕ
start = record { current_room = some "lobby"; calls = [] }

abbrev calls : List (SocketCall ℕ)
calls =
    broadcasts "hi" 1
    ∷ joins "a"
    ∷ leaves "lobby"
    ∷ broadcasts "hi" 2
    ∷ leaves "a"
    ∷ broadcasts "hi" 3
    ∷ []

socket_tests :
    ((act_all calls start).calls
      ≡ left "a"
        ∷ broadcasted "a" "hi" 2
        ∷ left "lobby"
        ∷ joined "a"
        ∷ broadcasted "lobby" "hi" 1
        ∷ [])
    × ((act_all calls start).current_room ≡ none)
unfolding sockets
socket_tests = (refl, refl)

act_all-IsRouted_example : IsRouted (some "lobby") (act_all calls start)
unfolding sockets
act_all-IsRouted_example = act_all-IsRouted (some "lobby") calls start (refl, tt)
