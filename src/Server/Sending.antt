-- ===== src/Server/Sending.antt =====
-- net_server.hpp: what the virtual methods may do to a server: send messages, and change what is neither a
-- connection object nor a received message.
use networking_cpp_intro.Common.{
  ℕ, ◌≡◌, refl, ◌∙◌, Bool, true, false, List, [], ◌∷◌, Option, none, if◌then◌else◌,
}
use networking_cpp_intro.Message.{Message}
use networking_cpp_intro.Connection.{send_data}
use networking_cpp_intro.Server.{
  Server, Hooks, base_hooks, at, is_connected, same_ref, on_client_disconnect, visit, send_loop,
  send_message_to_all_clients,
}

pub data Sends (s : Server) : Server → Type 0 where
  nothing : {t : Server} → t.store ≡ s.store → t.in_msg_queue ≡ s.in_msg_queue → Sends s t
  sent :
      {t u : Server} (ref : Option ℕ) (m : Message)
      → Sends s t
      → u.store ≡ at ref (send_data m) t.store
      → u.in_msg_queue ≡ t.in_msg_queue
      → Sends s u

-- The law of the virtual methods.
pub record IsPolite (h : Hooks) : Type 0 where
  pub connects : (place : ℕ) (s : Server) → Sends s (h.on_client_connect place s).0
  pub messages : (remote : Option ℕ) (m : Message) (s : Server) → Sends s (h.on_message remote m s)

pub base_hooks-IsPolite : IsPolite base_hooks
base_hooks-IsPolite = record {
  connects = λ place s. nothing refl refl;
  messages = λ remote m s. nothing refl refl;
}

-- A change elsewhere afterwards.
pub Sends-same :
    {s t u : Server} → Sends s t → u.store ≡ t.store → u.in_msg_queue ≡ t.in_msg_queue → Sends s u
Sends-same (nothing a b) e f = nothing (e ∙ a) (f ∙ b)
Sends-same (sent ref m h a b) e f = sent ref m h (e ∙ a) (f ∙ b)

visit-Sends :
    {s t : Server} (msg : Message) (ignored ref : Option ℕ)
    → Sends s t
    → Sends s (visit msg ignored ref t)
unfolding visit
visit-Sends {s} {t} msg ignored ref h = go (is_connected t.store ref) (same_ref ref ignored)
  where
    go :
        (b d : Bool)
        → Sends s (
            if b
            then if d then t else record t { store = at ref (send_data msg) t.store }
            else on_client_disconnect ref t)
    go true true = h
    go true false = sent ref msg h refl refl
    go false d = Sends-same h refl refl

send_loop-Sends :
    {s : Server} (msg : Message) (ignored : Option ℕ) (refs : List (Option ℕ)) (t : Server)
    → Sends s t
    → Sends s (send_loop msg ignored refs t).0
unfolding send_loop
send_loop-Sends msg ignored [] t h = h
send_loop-Sends {s} msg ignored (ref ∷ refs) t h =
    go (is_connected t.store ref) (send_loop msg ignored refs (visit msg ignored ref t))
      (send_loop-Sends msg ignored refs (visit msg ignored ref t) (visit-Sends msg ignored ref h))
  where
    go :
        (b : Bool) (loop : Server × List (Option ℕ) × Bool)
        → Sends s loop.0
        → Sends s
            (if◌then◌else◌ {A = Server × List (Option ℕ) × Bool} b
              (loop.0, ref ∷ loop.1, loop.2)
              (loop.0, none ∷ loop.1, true)).0
    go true loop k = k
    go false loop k = k

pub send_message_to_all_clients-Sends :
    (msg : Message) (ignored : Option ℕ) (s : Server)
    → Sends s (send_message_to_all_clients msg ignored s)
unfolding send_message_to_all_clients
send_message_to_all_clients-Sends msg ignored s =
    Sends-same (send_loop-Sends msg ignored s.connections_queue s (nothing refl refl)) refl refl
