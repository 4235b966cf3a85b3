-- ===== src/ChatRoom/Posting.antt =====
-- simple_tcp_chat_server.cpp: who is told what.
use networking_cpp_intro.Common.{
  ℕ, ◌==◌, ◌≡◌, refl, if◌then◌else◌, Bool, true, false, not, ◌&&◌, List, [], ◌∷◌, arith,
}
use networking_cpp_intro.ChatRoom.{
  Text, newcomer, one_less, Session, Room, post_to, modify, post_each, is_client, erase, on_error,
  on_accept, accepted_session, start_read,
}

-- A set has no element twice.
abbrev pub is_distinct : List ℕ → Bool
is_distinct [] = true
is_distinct (c ∷ cs) = not (is_client c cs) && is_distinct cs

post_each_at :
    (message : Text) (cs : List ℕ) (sessions : ℕ → Session) (j : ℕ)
    → is_distinct cs ≡ true
    → post_each message cs sessions j
      ≡ (if is_client j cs then post_to message (sessions j) else sessions j)
post_each_at message [] sessions j d = refl
post_each_at message (c ∷ cs) sessions j d =
    ground (arith, post_each_at message cs (modify c (post_to message) sessions) j)

is_client-erase :
    (c j : ℕ) (cs : List ℕ) → is_client j (erase c cs) ≡ (is_client j cs && not (c == j))
is_client-erase c j [] = refl
is_client-erase c j (d ∷ ds) = ground (arith, is_client-erase c j ds)

pub is_distinct-erase :
    (c : ℕ) (cs : List ℕ) → is_distinct cs ≡ true → is_distinct (erase c cs) ≡ true
is_distinct-erase c [] h = refl
is_distinct-erase c (d ∷ ds) h = ground (arith, is_distinct-erase c ds, is_client-erase c d ds)

-- The first error of a client's session takes it out of the set and tells each of the others, and
-- nobody else, once that there is one less.
pub error_tells_others :
    (c j : ℕ) (r : Room)
    → is_distinct r.clients ≡ true
    → is_client c r.clients ≡ true
    → (is_client c (on_error c r).clients ≡ false)
      × ((on_error c r).sessions j ≡ (
          if is_client j r.clients && not (c == j)
          then post_to one_less (r.sessions j)
          else r.sessions j))
error_tells_others c j r d h = (
  ground (arith, is_client-erase c c r.clients),
  ground (
    arith,
    post_each_at one_less (erase c r.clients) r.sessions j (is_distinct-erase c r.clients d),
    is_client-erase c j r.clients,
  ),
)

-- A second error of the same session, from its other operation, changes nothing.
pub second_error_silent :
    (c : ℕ) (r : Room) → is_distinct r.clients ≡ true → on_error c (on_error c r) ≡ on_error c r
second_error_silent c r d = ground (arith, is_client-erase c c r.clients)

-- An accepted client is sent the welcome and not the news of itself, and is listened to; every
-- client from before is sent the news; and the set has grown by the new one.
pub accept_announces :
    (j : ℕ) (r : Room)
    → is_distinct r.clients ≡ true
    → is_client r.created r.clients ≡ false
    → ((on_accept r).sessions r.created ≡ start_read accepted_session)
      × (is_client j r.clients ≡ true → (on_accept r).sessions j ≡ post_to newcomer (r.sessions j))
      × ((on_accept r).clients ≡ r.created ∷ r.clients)
accept_announces j r d fresh =
    let placed = modify r.created (λ s. accepted_session) r.sessions in
    (
      ground (arith, post_each_at newcomer r.clients placed r.created d),
      λ h. ground (arith, post_each_at newcomer r.clients placed j d),
      refl,
    )
