-- ===== src/ChatRoom/Ordering.antt =====
-- simple_tcp_chat_server.cpp: the order in which the `unordered_set` of clients is gone through is open, and
-- nothing of a room depends on it.
use mathlib.Core.Path.{fun_ext}
use mathlib.Core.Quot
use mathlib.Core.Quot.{Quot, Quot-set}
use networking_cpp_intro.Common.{
  ℕ, zero, suc, ◌+◌, ◌-◌, ◌==◌, ◌≡◌, refl, sym, ap, subst, ◌∙◌, ltb, if◌then◌else◌, Bool, true,
  false, List, [], ◌∷◌, arith,
}
use networking_cpp_intro.ChatRoom.{
  Text, newcomer, one_less, said, Session, Room, post_to, modify, post_each, post, is_client, erase,
  on_error, on_accept, accepted_session, start_read, on_read, pop_and_write, on_write,
}
use networking_cpp_intro.ChatRoom.Serving.{Step, accepted, read_done, write_done, Reach, here, next}

abbrev how_often : ℕ → List ℕ → ℕ
how_often j [] = 0
how_often j (c ∷ cs) = let rest = how_often j cs in if c == j then suc rest else rest

-- Two lists that hold the same, in any order.
abbrev SameItems : List ℕ → List ℕ → Type 0
SameItems cs ds = (j : ℕ) → how_often j cs ≡ how_often j ds

abbrev times : ℕ → (Session → Session) → Session → Session
times zero f s = s
times (suc n) f s = times n f (f s)

one_more :
    (b : Bool) (n : ℕ) (f : Session → Session) (s : Session)
    → times n f (if b then f s else s) ≡ times (if b then suc n else n) f s
one_more true n f s = refl
one_more false n f s = refl

-- A post to each client of a list.
post_each-times :
    (message : Text) (cs : List ℕ) (sessions : ℕ → Session) (j : ℕ)
    → post_each message cs sessions j ≡ times (how_often j cs) (post_to message) (sessions j)
post_each-times message [] sessions j = refl
post_each-times message (c ∷ cs) sessions j =
    post_each-times message cs (modify c (post_to message) sessions) j
    ∙ one_more (c == j) (how_often j cs) (post_to message) (sessions j)

is_client-how_often : (j : ℕ) (cs : List ℕ) → is_client j cs ≡ ltb 0 (how_often j cs)
is_client-how_often j [] = refl
is_client-how_often j (c ∷ cs) = ground (arith, is_client-how_often j cs)

how_often-erase :
    (c j : ℕ) (cs : List ℕ) → how_often j (erase c cs) ≡ (if c == j then 0 else how_often j cs)
how_often-erase c j [] = ground arith
how_often-erase c j (d ∷ ds) = ground (arith, how_often-erase c j ds)

-- Rooms that differ in the order of the clients only.
record Alike (r r' : Room) : Type 0 where
  same_sessions : r.sessions ≡ r'.sessions
  same_clients : SameItems r.clients r'.clients
  same_created : r.created ≡ r'.created

modify-Alike :
    (c : ℕ) (f : Session → Session) {r r' : Room}
    → Alike r r'
    → Alike
        (record r { sessions = modify c f r.sessions })
        (record r' { sessions = modify c f r'.sessions })
modify-Alike c f a = record {
  same_sessions = ap (modify c f) a.same_sessions;
  same_clients = a.same_clients;
  same_created = a.same_created;
}

post-Alike : (message : Text) {r r' : Room} → Alike r r' → Alike (post message r) (post message r')
post-Alike message {r} {r'} a = record {
  same_sessions = fun_ext (λ j.
      post_each-times message r.clients r.sessions j
      ∙ rw (a.same_clients j, a.same_sessions) refl
      ∙ sym (post_each-times message r'.clients r'.sessions j));
  same_clients = a.same_clients;
  same_created = a.same_created;
}

erase-Alike :
    (c : ℕ) {r r' : Room}
    → Alike r r'
    → Alike (record r { clients = erase c r.clients }) (record r' { clients = erase c r'.clients })
erase-Alike c {r} {r'} a = record {
  same_sessions = a.same_sessions;
  same_clients = λ j.
      ground
        (arith, how_often-erase c j r.clients, how_often-erase c j r'.clients, a.same_clients j);
  same_created = a.same_created;
}

if-Alike :
    (b b' : Bool) {r r' t t' : Room}
    → b ≡ b'
    → Alike r r'
    → Alike t t'
    → Alike (if b then r else t) (if b' then r' else t')
if-Alike true true e h k = h
if-Alike false false e h k = k
if-Alike _ _ e h k = absurd cc

on_error-Alike : (c : ℕ) {r r' : Room} → Alike r r' → Alike (on_error c r) (on_error c r')
on_error-Alike c {r} {r'} a =
    if-Alike (is_client c r.clients) (is_client c r'.clients)
      (is_client-how_often c r.clients
        ∙ ap (ltb 0) (a.same_clients c)
        ∙ sym (is_client-how_often c r'.clients))
      (post-Alike one_less (erase-Alike c a)) a

on_read-Alike :
    (failed : Bool) (line : List ℕ) (c : ℕ) {r r' : Room}
    → Alike r r'
    → Alike (on_read failed line c r) (on_read failed line c r')
on_read-Alike failed line c a =
    let done = modify-Alike c (λ s. record s { reads = s.reads - 1 }) a in
    if-Alike failed failed refl
      (on_error-Alike c (modify-Alike c (λ s. record s { is_open = false }) done))
      (modify-Alike c start_read (post-Alike (said line) done))

on_write-Alike :
    (failed : Bool) (c : ℕ) {r r' : Room}
    → Alike r r'
    → Alike (on_write failed c r) (on_write failed c r')
on_write-Alike failed c a =
    let done = modify-Alike c (λ s. record s { writes = s.writes - 1 }) a in
    if-Alike failed failed refl
      (on_error-Alike c (modify-Alike c (λ s. record s { is_open = false }) done))
      (modify-Alike c pop_and_write done)

place : Room → Room
place r = record r {
  sessions = modify r.created (λ s. accepted_session) r.sessions;
  created = r.created + 1;
}

place-Alike : {r r' : Room} → Alike r r' → Alike (place r) (place r')
unfolding place
place-Alike a = record {
  same_sessions = cc (a.same_sessions, a.same_created);
  same_clients = a.same_clients;
  same_created = ap (λ n. n + 1) a.same_created;
}

enter : ℕ → Room → Room
enter c r = record r { clients = c ∷ r.clients; sessions = modify c start_read r.sessions }

enter-Alike : (c : ℕ) {r r' : Room} → Alike r r' → Alike (enter c r) (enter c r')
unfolding enter
enter-Alike c a = record {
  same_sessions = ap (modify c start_read) a.same_sessions;
  same_clients = λ j. ground (arith, a.same_clients j);
  same_created = a.same_created;
}

on_accept-Alike : {r r' : Room} → Alike r r' → Alike (on_accept r) (on_accept r')
unfolding place enter
on_accept-Alike {r} {r'} a =
    subst (λ n. Alike (on_accept r) (enter n (post newcomer (place r')))) a.same_created
      (enter-Alike r.created (post-Alike newcomer (place-Alike a)))

Step-Alike : {r t r' : Room} → Step r t → Alike r r' → (t' : Room) × Step r' t' × Alike t t'
Step-Alike accepted a = (_, accepted, on_accept-Alike a)
Step-Alike (read_done failed line c made pending) a = (
  _,
  read_done failed line c (rw (sym a.same_created) made) (rw (sym a.same_sessions) pending),
  on_read-Alike failed line c a,
)
Step-Alike (write_done failed c made pending) a = (
  _,
  write_done failed c (rw (sym a.same_created) made) (rw (sym a.same_sessions) pending),
  on_write-Alike failed c a,
)

Reach-Alike : {r t r' : Room} → Reach r t → Alike r r' → (t' : Room) × Reach r' t' × Alike t t'
Reach-Alike here a = (_, here, a)
Reach-Alike (next h st) a =
    let (u', h', b) = Reach-Alike h a in let (t', st', d) = Step-Alike st b in (t', next h' st', d)

-- A set of clients: a list, but for its order.
abbrev pub ClientSet : Type 0
ClientSet = Quot SameItems

-- What is seen of a room: all but the order of its clients.
abbrev pub seen : Room → (ℕ → Session) × ClientSet × ℕ
seen r = (r.sessions, Quot.mk r.clients, r.created)

occurrences : ℕ → ClientSet → ℕ
occurrences j = Quot.lift (hlevel) (how_often j) (λ cs ds h. h j)

seen-Alike : {r r' : Room} → seen r ≡ seen r' → Alike r r'
unfolding occurrences
seen-Alike e = record {
  same_sessions = ap (λ (v : (ℕ → Session) × ClientSet × ℕ). v.0) e;
  same_clients = λ j. ap (λ (v : (ℕ → Session) × ClientSet × ℕ). occurrences j v.1) e;
  same_created = ap (λ (v : (ℕ → Session) × ClientSet × ℕ). v.2) e;
}

Alike-seen : {r r' : Room} → Alike r r' → seen r ≡ seen r'
Alike-seen {r} {r'} a =
    let same_set : Path ClientSet (Quot.mk r.clients) (Quot.mk r'.clients) =
      Quot.sound a.same_clients in
    λ i. (a.same_sessions i, same_set i, a.same_created i)

-- The order in which the set of clients is gone through is never seen: of two rooms that differ in that order
-- only, whatever clients come and whatever reads and writes complete in the one can come and complete in the
-- other, and leaves rooms with the same clients, the same messages, and the same reads and writes in hand.
pub order_unseen :
    {r t r' : Room} → seen r ≡ seen r' → Reach r t → (t' : Room) × Reach r' t' × (seen t ≡ seen t')
order_unseen e h = let (t', h', a) = Reach-Alike h (seen-Alike e) in (t', h', Alike-seen a)
