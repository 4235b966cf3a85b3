-- ===== src/ChatRoom/Tests.antt =====
-- Runs of the chat room.
use mathlib.Core.Quot
use mathlib.Core.Quot.{Quot}
use networking_cpp_intro.Common.{◌≡◌, refl, true, arith, false, [], ◌∷◌}
use networking_cpp_intro.ChatRoom.{Room, Session, on_accept, on_read, on_write, accepted_session}
use networking_cpp_intro.ChatRoom.Serving.{
  Reach, IsOrderly, new_room, here, next, accepted, read_done, write_done, room-IsOrderly,
}
use networking_cpp_intro.ChatRoom.Ordering.{ClientSet, seen, order_unseen}

abbrev two_clients : Room
two_clients = record { sessions = λ j. accepted_session; clients = 1 ∷ 0 ∷ []; created = 2 }

abbrev blank : Session
blank = record { outgoing_msgs = []; is_open = false; reads = 0; writes = 0 }

-- Two clients are accepted, the first writes its welcome, and the second's socket fails.
room-IsOrderly_example :
    IsOrderly (on_read true [] 1 (on_write false 0 (on_accept (on_accept (new_room blank)))))
room-IsOrderly_example = room-IsOrderly blank refl (
    next
      (next (next (next here accepted) accepted) (write_done false 0 (omega arith) (omega arith)))
      (read_done true [] 1 (omega arith) (omega arith)))

-- The same two clients in the other order; a third is accepted.
abbrev other_order : Room
other_order = record two_clients { clients = 0 ∷ 1 ∷ [] }

same_seen : seen two_clients ≡ seen other_order
same_seen = λ i. (two_clients.sessions, same_set i, 2)
  where
    same_set : Path ClientSet (Quot.mk (1 ∷ 0 ∷ [])) (Quot.mk (0 ∷ 1 ∷ []))
    same_set = Quot.sound (λ j. grind arith)

order_unseen_example : (t : Room) × Reach other_order t × (seen (on_accept two_clients) ≡ seen t)
order_unseen_example = order_unseen same_seen (next here accepted)
