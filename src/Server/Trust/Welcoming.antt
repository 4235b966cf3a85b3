-- ===== src/Server/Trust/Welcoming.antt =====
-- net_server.hpp: the accept handler makes an object and tells it its number, or closes it.
use networking_cpp_intro.Common.{
  ℕ, zero, suc, ◌+◌, ◌%◌, ◌^◌, ◌≤◌, ◌≡◌, ◌≢◌, refl, sym, subst, ◌∙◌, ◌⊎◌, if◌then◌else◌, Bool, true,
  false, inl, inr, List, [], ◌∷◌, ◌++◌, some, length, get_elem?, All, arith, eq_of_some,
}
use networking_cpp_intro.TsQueue.{push_back}
use networking_cpp_intro.Message.{Message}
use networking_cpp_intro.Connection.{
  Connection, server, close, make_connection, connect_to_client, send_data,
}
use networking_cpp_intro.Server.{Server, Hooks, at, on_accept}
use networking_cpp_intro.Server.Store.{get_elem?-append}
use networking_cpp_intro.Server.Sending.{Sends, IsPolite}
use networking_cpp_intro.Server.Trust.{IsGuarded, IsRaw, AllObjects, Extends, IsHeard, IsVigilant}
use networking_cpp_intro.Server.Trust.Hearing.{Sends-AllObjects, Sends-Extends, Sends-queue}
use networking_cpp_intro.Server.Trust.Objects.{at_each, at-Extends, Extends-trans, Extends-IsHeard}
use networking_cpp_intro.Server.Trust.Accepting.{
  send_data-IsGuarded, send_data-IsRaw, make_connection-IsRaw, close-IsGuarded,
  connect_to_client-IsGuarded, connect_to_client-validated,
}

-- While the accept handler runs, the object that it has made is not guarded yet.
abbrev IsPlaced : ℕ → ℕ → Connection → Type 0
IsPlaced place q c = (q ≡ place → IsRaw q c) × (q ≢ place → IsGuarded q c)

get_elem?-snoc :
    (store : List Connection) (x c : Connection) (q : ℕ)
    → get_elem? (store ++ x ∷ []) q ≡ some c
    → ((get_elem? store q ≡ some c) × (q ≢ length store)) ⊎ ((q ≡ length store) × (x ≡ c))
get_elem?-snoc [] x c zero e = inr (refl, eq_of_some e)
get_elem?-snoc [] x c (suc q) e = absurd cc
get_elem?-snoc (y ∷ store) x c zero e = inl (e, omega arith)
get_elem?-snoc (y ∷ store) x c (suc q) e = elim (get_elem?-snoc store x c q e) [
  | inl h ↦ inl (h.0, λ same. h.1 (omega (arith, same)))
  | inr h ↦ inr (omega (arith, h.0), h.1)
]

module _ (store : List Connection) (now memory : ℕ) where
  abbrev made : Connection
  made = make_connection server (length store) true [] now memory

  made-IsPlaced :
      AllObjects IsGuarded store → AllObjects (IsPlaced (length store)) (store ++ made ∷ [])
  made-IsPlaced all q c e = elim (get_elem?-snoc store made c q e) [
    | inl h ↦ (λ same. absurd (h.1 same), λ other. all q c h.0)
    | inr h ↦ (
      λ same.
          subst (IsRaw q) h.1
            (subst (λ p. IsRaw p made) (sym h.0) (make_connection-IsRaw (length store) now memory)),
      λ other. absurd (other h.0),
    )
  ]

  made-Extends : Extends store (store ++ made ∷ [])
  made-Extends = record {
    further = λ q c e. (c, (get_elem?-append store q made c e).0, omega arith);
  }

send_data-IsPlaced :
    (place : ℕ) (m : Message) (q : ℕ) (c : Connection)
    → IsPlaced place q c
    → IsPlaced place q (send_data m c)
send_data-IsPlaced place m q c h =
    (λ same. send_data-IsRaw m (h.0 same), λ other. send_data-IsGuarded m (h.1 other))

-- The last call of the accept handler on the object.
finish-AllObjects :
    (place : ℕ) (f : Connection → Connection) (store : List Connection)
    → ((c : Connection) → IsRaw place c → IsGuarded place (f c))
    → AllObjects (IsPlaced place) store
    → AllObjects IsGuarded (at (some place) f store)
finish-AllObjects place f store guards =
    at_each (IsPlaced place) IsGuarded place f store (λ c _ h. guards c (h.0 refl))
      (λ q c other h. h.1 other)

finish-IsVigilant :
    (place : ℕ) (f : Connection → Connection) {s : Server} (t : Server) {u : Server}
    → ((c : Connection) → IsRaw place c → IsGuarded place (f c))
    → ((c : Connection) → c.validated ≤ (f c).validated)
    → AllObjects (IsPlaced place) t.store
    → Extends s.store t.store
    → IsVigilant s
    → t.in_msg_queue ≡ s.in_msg_queue
    → u.store ≡ at (some place) f t.store
    → u.in_msg_queue ≡ t.in_msg_queue
    → IsVigilant u
finish-IsVigilant place f {s} t {u} guards more placed longer v same e same' =
    let all : AllObjects IsGuarded u.store =
      subst (AllObjects IsGuarded) (sym e) (finish-AllObjects place f t.store guards placed) in
    let on : Extends s.store u.store =
      subst (Extends s.store) (sym e)
        (Extends-trans longer (at-Extends place f t.store (λ c _. more c))) in
    record {
      objects = all;
      messages =
          subst (All (IsHeard u.store)) (sym (same' ∙ same))
            (Extends-IsHeard s.in_msg_queue on v.messages);
    }

abbrev grown : Server → ℕ → ℕ → Server
grown s now memory = record s { store = s.store ++ made s.store now memory ∷ [] }

Sends-IsPlaced :
    (s : Server) (now memory : ℕ) {t : Server}
    → IsVigilant s
    → Sends (grown s now memory) t
    → AllObjects (IsPlaced (length s.store)) t.store
Sends-IsPlaced s now memory v sends =
    Sends-AllObjects (IsPlaced (length s.store)) (send_data-IsPlaced (length s.store)) sends
      (made-IsPlaced s.store now memory v.objects)

Sends-longer :
    (s : Server) (now memory : ℕ) {t : Server}
    → Sends (grown s now memory) t
    → Extends s.store t.store
Sends-longer s now memory sends =
    Extends-trans (made-Extends s.store now memory) (Sends-Extends sends)

-- Whatever client comes, with an error or not, and is welcome or not.
pub on_accept-IsVigilant :
    (h : Hooks)
    → IsPolite h
    → (failed : Bool) (now memory : ℕ) (s : Server) → IsVigilant s
    → IsVigilant (on_accept h failed now memory s)
unfolding on_accept
on_accept-IsVigilant h polite true now memory s v = v
on_accept-IsVigilant h polite false now memory s v =
    let told = h.on_client_connect (length s.store) (grown s now memory) in
    go told.0 told.1 (polite.connects (length s.store) (grown s now memory))
  where
    go :
        (t : Server) (welcome : Bool)
        → Sends (grown s now memory) t
        → IsVigilant (
            if welcome
            then record t {
              connections_queue = push_back (some (length s.store)) t.connections_queue;
              store = at (some (length s.store)) (connect_to_client t.id_counter) t.store;
              id_counter = (t.id_counter + 1) % 2 ^ 32;
            }
            else record t { store = at (some (length s.store)) close t.store })
    go t true sends =
        finish-IsVigilant (length s.store) (connect_to_client t.id_counter) t
          (λ c. connect_to_client-IsGuarded t.id_counter) (connect_to_client-validated t.id_counter)
          (Sends-IsPlaced s now memory v sends) (Sends-longer s now memory sends) v
          (Sends-queue sends) refl refl
    go t false sends =
        finish-IsVigilant (length s.store) close t (λ c. close-IsGuarded) (λ c. omega arith)
          (Sends-IsPlaced s now memory v sends) (Sends-longer s now memory sends) v
          (Sends-queue sends) refl refl
