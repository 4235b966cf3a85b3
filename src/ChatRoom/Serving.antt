-- ===== src/ChatRoom/Serving.antt =====
-- simple_tcp_chat_server.cpp: the room under an environment that accepts clients and completes reads and
-- writes in any order.
use networking_cpp_intro.Common.{
  ℕ, ◌+◌, ◌-◌, ◌≤◌, ◌<◌, ◌==◌, ◌≡◌, refl, subst, ap, ◌∙◌, ==_refl, if◌then◌else◌, Bool, true, false,
  List, [], ◌∷◌, All, arith,
}
use networking_cpp_intro.TsQueue.{is_empty}
use networking_cpp_intro.ChatRoom.{
  Text, newcomer, one_less, said, Session, Room, post_to, modify, post_each, post, is_client, erase,
  on_error, close_session, on_accept, accepted_session, start_read, on_read, pop_and_write,
  on_write,
}
use networking_cpp_intro.ChatRoom.Posting.{is_distinct, is_distinct-erase}

pub data Step (r : Room) : Room → Type 0 where
  accepted : Step r (on_accept r)
  read_done :
      (failed : Bool) (line : List ℕ) (c : ℕ)
      → c < r.created
      → 0 < (r.sessions c).reads
      → Step r (on_read failed line c r)
  write_done :
      (failed : Bool) (c : ℕ)
      → c < r.created
      → 0 < (r.sessions c).writes
      → Step r (on_write failed c r)

pub data Reach (r : Room) : Room → Type 0 where
  here : Reach r r
  next : {t u : Room} → Reach r t → Step t u → Reach r u

-- At most one write is in hand, and none without a message for it.
abbrev pub IsServed : Session → Type 0
IsServed s = s.writes ≤ (if is_empty s.outgoing_msgs then 0 else 1)

abbrev pub AreServed : (ℕ → Session) → Type 0
AreServed sessions = (j : ℕ) → IsServed (sessions j)

pub record IsOrderly (r : Room) : Type 0 where
  pub served : AreServed r.sessions
  pub distinct : is_distinct r.clients ≡ true
  pub known : All (λ c. c < r.created) r.clients

post_to-IsServed : (message : Text) (s : Session) → IsServed s → IsServed (post_to message s)
post_to-IsServed message s h = ground (arith, h)

pop_and_write-IsServed : (s : Session) → s.writes ≡ 0 → IsServed (pop_and_write s)
pop_and_write-IsServed s h = ground (arith, h)

modify-AreServed :
    (i : ℕ) (f : Session → Session) (sessions : ℕ → Session)
    → AreServed sessions
    → IsServed (f (sessions i))
    → AreServed (modify i f sessions)
modify-AreServed i f sessions h new j = go (i == j) refl
  where
    go : (b : Bool) → (i == j) ≡ b → IsServed (if b then f (sessions j) else sessions j)
    go true e = let same : i ≡ j = ground arith in subst (λ k. IsServed (f (sessions k))) same new
    go false e = h j

post_each-AreServed :
    (message : Text) (cs : List ℕ) (sessions : ℕ → Session)
    → AreServed sessions
    → AreServed (post_each message cs sessions)
post_each-AreServed message [] sessions h = h
post_each-AreServed message (c ∷ cs) sessions h =
    post_each-AreServed message cs (modify c (post_to message) sessions) (
      modify-AreServed c (post_to message) sessions h (post_to-IsServed message (sessions c) (h c)))

erase-known : (n c : ℕ) (cs : List ℕ) → All (λ d. d < n) cs → All (λ d. d < n) (erase c cs)
erase-known n c [] h = h
erase-known n c (d ∷ ds) h = go (d == c) (erase-known n c ds h.1)
  where
    go :
        (b : Bool)
        → All (λ x. x < n) (erase c ds)
        → All (λ x. x < n) (if b then erase c ds else d ∷ erase c ds)
    go true rest = rest
    go false rest = (h.0, rest)

on_error-IsOrderly : (c : ℕ) (r : Room) → IsOrderly r → IsOrderly (on_error c r)
on_error-IsOrderly c r o = go (is_client c r.clients)
  where
    go :
        (b : Bool)
        → IsOrderly (if b then post one_less (record r { clients = erase c r.clients }) else r)
    go true = record {
      served = post_each-AreServed one_less (erase c r.clients) r.sessions o.served;
      distinct = is_distinct-erase c r.clients o.distinct;
      known = erase-known r.created c r.clients o.known;
    }
    go false = o

modify_self :
    (c : ℕ) (f : Session → Session) (sessions : ℕ → Session)
    → modify c f sessions c ≡ f (sessions c)
modify_self c f sessions = grind (arith, ==_refl c)

-- A change of one session.
change-IsOrderly :
    (c : ℕ) (f : Session → Session) (r : Room)
    → IsOrderly r
    → IsServed (f (r.sessions c))
    → IsOrderly (record r { sessions = modify c f r.sessions })
change-IsOrderly c f r o new = record {
  served = modify-AreServed c f r.sessions o.served new;
  distinct = o.distinct;
  known = o.known;
}

fresh_client : (n : ℕ) (cs : List ℕ) → All (λ d. d < n) cs → is_client n cs ≡ false
fresh_client n [] h = refl
fresh_client n (d ∷ ds) h = ground (arith, h.0, fresh_client n ds h.1)

known_later : (n : ℕ) (cs : List ℕ) → All (λ d. d < n) cs → All (λ d. d < n + 1) cs
known_later n [] h = h
known_later n (d ∷ ds) h = (omega (arith, h.0), known_later n ds h.1)

on_accept-IsOrderly : (r : Room) → IsOrderly r → IsOrderly (on_accept r)
on_accept-IsOrderly r o =
    let c = r.created in
    let placed = modify c (λ s. accepted_session) r.sessions in
    let told = post_each newcomer r.clients placed in
    let told_served =
      post_each-AreServed newcomer r.clients placed
        (modify-AreServed c (λ s. accepted_session) r.sessions o.served (omega arith)) in
    record {
      served = modify-AreServed c start_read told told_served (told_served c);
      distinct = ground (arith, o.distinct, fresh_client c r.clients o.known);
      known = (omega arith, known_later c r.clients o.known);
    }

on_read-IsOrderly :
    (failed : Bool) (line : List ℕ) (c : ℕ) (r : Room)
    → IsOrderly r
    → IsOrderly (on_read failed line c r)
on_read-IsOrderly failed line c r o =
    let less : Session → Session = λ s. record s { reads = s.reads - 1 } in
    let done = record r { sessions = modify c less r.sessions } in
    let o' = change-IsOrderly c less r o (o.served c) in go failed done o'
  where
    go :
        (b : Bool) (done : Room)
        → IsOrderly done
        → IsOrderly (
            if b
            then on_error c (close_session c done)
            else (let told = post (said line) done in
                record told { sessions = modify c start_read told.sessions }))
    go true done o' =
        on_error-IsOrderly c (close_session c done)
          (change-IsOrderly c (λ s. record s { is_open = false }) done o' (o'.served c))
    go false done o' =
        let told = post_each (said line) done.clients done.sessions in
        let told_served = post_each-AreServed (said line) done.clients done.sessions o'.served in
        record {
          served = modify-AreServed c start_read told told_served (told_served c);
          distinct = o'.distinct;
          known = o'.known;
        }

on_write-IsOrderly :
    (failed : Bool) (c : ℕ) (r : Room)
    → 0 < (r.sessions c).writes
    → IsOrderly r
    → IsOrderly (on_write failed c r)
on_write-IsOrderly failed c r pending o =
    let less : Session → Session = λ s. record s { writes = s.writes - 1 } in
    let done = record r { sessions = modify c less r.sessions } in
    let none_left : (less (r.sessions c)).writes ≡ 0 = ground (arith, o.served c) in
    let o' = change-IsOrderly c less r o (ground (arith, none_left)) in
    go failed done o' (ap (λ (s : Session). s.writes) (modify_self c less r.sessions) ∙ none_left)
  where
    go :
        (b : Bool) (done : Room)
        → IsOrderly done
        → (done.sessions c).writes ≡ 0
        → IsOrderly (
            if b
            then on_error c (close_session c done)
            else record done { sessions = modify c pop_and_write done.sessions })
    go true done o' none_left =
        on_error-IsOrderly c (close_session c done)
          (change-IsOrderly c (λ s. record s { is_open = false }) done o' (o'.served c))
    go false done o' none_left =
        change-IsOrderly c pop_and_write done o'
          (pop_and_write-IsServed (done.sessions c) none_left)

-- A room before the first client; `blank` stands for the sessions that are not made yet.
abbrev pub new_room : Session → Room
new_room blank = record { sessions = λ j. blank; clients = []; created = 0 }

-- Through every history of the room, each session has at most one write in hand, and none without a
-- message at the front of its queue, so no `pop` meets an empty queue; and the set of clients has no
-- client twice and none that was not accepted.
pub room-IsOrderly :
    (blank : Session) {r : Room} → blank.writes ≡ 0 → Reach (new_room blank) r → IsOrderly r
room-IsOrderly blank none_yet here = record {
  served = λ j. ground (arith, none_yet);
  distinct = refl;
  known = tt;
}
room-IsOrderly blank none_yet (next {t} reach accepted) =
    on_accept-IsOrderly t (room-IsOrderly blank none_yet reach)
room-IsOrderly blank none_yet (next {t} reach (read_done failed line c made pending)) =
    on_read-IsOrderly failed line c t (room-IsOrderly blank none_yet reach)
room-IsOrderly blank none_yet (next {t} reach (write_done failed c made pending)) =
    on_write-IsOrderly failed c t pending (room-IsOrderly blank none_yet reach)
