-- ===== src/ChatServer/Numbers.antt =====
-- src/custom_server.cpp on top of net_server.hpp: the numbers of the connections.
use networking_cpp_intro.Common.{
  ℕ, zero, suc, ◌+◌, ◌%◌, ◌^◌, ◌<◌, ◌≤◌, ◌≡◌, ◌≢◌, refl, ap, ◌∙◌, true, false, List, [], ◌∷◌, ◌++◌,
  some, length, length-append, length-set, get_elem?, arith, Option-cases, inl, inr,
}
use networking_cpp_intro.Connection.{
  Connection, server, send_data, make_connection, connect_to_client,
}
use networking_cpp_intro.Server.{Server, at, on_accept}
use networking_cpp_intro.Server.Store.{
  get_elem?-at_self, get_elem?-at_other, get_elem?-push_back, get_elem?-append,
}
use networking_cpp_intro.ChatServer.{on_client_connect, chat_hooks}
use networking_cpp_intro.ChatServer.Accept.{welcome, admitted}

-- Clients accepted one after the other, each with what goes to the constructor of its connection.
abbrev pub accept_all : List (ℕ × ℕ) → Server → Server
accept_all [] s = s
accept_all ((now, memory) ∷ more) s = accept_all more (on_accept chat_hooks false now memory s)

length-at :
    (p : ℕ) (f : Connection → Connection) (store : List Connection)
    → length (at (some p) f store) ≡ length store
length-at p f store = elim (Option-cases (get_elem? store p)) [
  | inl e ↦ ground arith
  | inr (c, e) ↦ ground (arith, length-set store p (f c))
]

on_accept-counts :
    (now memory : ℕ) (s : Server)
    → let s' = on_accept chat_hooks false now memory s in
      (length s'.store ≡ length s.store + 1) × (s'.id_counter ≡ (s.id_counter + 1) % 2 ^ 32)
unfolding on_accept on_client_connect
on_accept-counts now memory s =
    let p = length s.store in
    let made = make_connection server p true [] now memory in
    let grown = s.store ++ made ∷ [] in
    let greeted = at (some p) (send_data welcome) grown in
    (
      omega (
        arith,
        length-at p (connect_to_client s.id_counter) greeted,
        length-at p (send_data welcome) grown,
        length-append s.store (made ∷ []),
      ),
      refl,
    )

on_accept-new :
    (now memory : ℕ) (s : Server)
    → get_elem? (on_accept chat_hooks false now memory s).store (length s.store)
      ≡ some (admitted (length s.store) s.id_counter now memory)
unfolding on_accept on_client_connect
on_accept-new now memory s =
    let p = length s.store in
    let made = make_connection server p true [] now memory in
    let grown = s.store ++ made ∷ [] in
    let greeted = at (some p) (send_data welcome) grown in
    get_elem?-at_self greeted p (connect_to_client s.id_counter) (send_data welcome made)
      (get_elem?-at_self grown p (send_data welcome) made (get_elem?-push_back s.store made))

on_accept-kept :
    (now memory q : ℕ) (s : Server) (d : Connection)
    → get_elem? s.store q ≡ some d
    → get_elem? (on_accept chat_hooks false now memory s).store q ≡ some d
unfolding on_accept on_client_connect
on_accept-kept now memory q s d h =
    let p = length s.store in
    let made = make_connection server p true [] now memory in
    let grown = s.store ++ made ∷ [] in
    let greeted = at (some p) (send_data welcome) grown in
    let (kept, other) = get_elem?-append s.store q made d h in
    get_elem?-at_other greeted p q (connect_to_client s.id_counter) d other
      (get_elem?-at_other grown p q (send_data welcome) d other kept)

accept_all-kept :
    (visits : List (ℕ × ℕ)) (q : ℕ) (s : Server) (d : Connection)
    → get_elem? s.store q ≡ some d
    → get_elem? (accept_all visits s).store q ≡ some d
accept_all-kept [] q s d h = h
accept_all-kept ((now, memory) ∷ more) q s d h =
    accept_all-kept more q (on_accept chat_hooks false now memory s) d
      (on_accept-kept now memory q s d h)

id-admitted : (place u_id now memory : ℕ) → (admitted place u_id now memory).id ≡ u_id
unfolding connect_to_client make_connection send_data
id-admitted place u_id now memory = refl

-- The object at a place has a number.
abbrev pub IsNumbered : Server → ℕ → ℕ → Type 0
IsNumbered s place u_id = (c : Connection) × (get_elem? s.store place ≡ some c) × (c.id ≡ u_id)

accepted-IsNumbered :
    (visits : List (ℕ × ℕ)) (i : ℕ) (s : Server)
    → s.id_counter < 2 ^ 32
    → i < length visits
    → IsNumbered (accept_all visits s) (length s.store + i) ((s.id_counter + i) % 2 ^ 32)
accepted-IsNumbered [] i s fits h = absurd (omega arith)
accepted-IsNumbered ((now, memory) ∷ more) zero s fits h =
    let p = length s.store in
    let c = admitted p s.id_counter now memory in
    let s' = on_accept chat_hooks false now memory s in
    let here = accept_all-kept more p s' c (on_accept-new now memory s) in
    let place : p + 0 ≡ p = omega arith in
    (
      c,
      ap (get_elem? (accept_all more s').store) place ∙ here,
      omega (arith, id-admitted p s.id_counter now memory),
    )
accepted-IsNumbered ((now, memory) ∷ more) (suc i) s fits h =
    let s' = on_accept chat_hooks false now memory s in
    let counts = on_accept-counts now memory s in
    let rest = accepted-IsNumbered more i s' (omega (arith, counts.1)) (omega (arith, h)) in
    let place : length s.store + suc i ≡ length s'.store + i = omega (arith, counts.0) in
    (
      rest.0,
      ap (get_elem? (accept_all more s').store) place ∙ rest.1,
      omega (arith, rest.2, counts.1),
    )

-- However many clients are accepted one after the other, as long as they are no more than 2 ^ 32: each has
-- a connection object of its own, and no two of these have the same number, also where the counter
-- wraps around.
pub accepted_apart :
    (visits : List (ℕ × ℕ)) (i j : ℕ) (s : Server)
    → s.id_counter < 2 ^ 32
    → length visits ≤ 2 ^ 32
    → i < length visits
    → j < length visits
    → i ≢ j
    → (c : Connection) × (d : Connection) × (get_elem?
          (accept_all visits s).store
          (length s.store + i)
        ≡ some c)
      × (get_elem? (accept_all visits s).store (length s.store + j) ≡ some d)
      × (c.id ≢ d.id)
accepted_apart visits i j s fits few hi hj apart =
    let (c, at_i, id_i) = accepted-IsNumbered visits i s fits hi in
    let (d, at_j, id_j) = accepted-IsNumbered visits j s fits hj in
    (c, d, at_i, at_j, λ same. apart (omega (arith, same, id_i, id_j, fits, few)))
