-- ===== src/Server/Trust/Hearing.antt =====
-- net_server.hpp: what the virtual methods and `update` do to a vigilant server.
use networking_cpp_intro.Common.{ℕ, zero, suc, ◌≡◌, sym, subst, ◌∙◌, List, [], ◌∷◌, none, some, All}
use networking_cpp_intro.Message.{Message}
use networking_cpp_intro.Connection.{Connection, OwnedMessage, send_data}
use networking_cpp_intro.Server.{Server, Hooks, update}
use networking_cpp_intro.Server.Sending.{Sends, nothing, sent, IsPolite}
use networking_cpp_intro.Server.Trust.{IsGuarded, AllObjects, Extends, IsHeard, IsVigilant}
use networking_cpp_intro.Server.Trust.Objects.{
  at-AllObjects, at-Extends, Extends-refl, Extends-trans, Extends-IsHeard,
}
use networking_cpp_intro.Server.Trust.Accepting.{send_data-IsGuarded, send_data-validated}

-- Sending keeps what a sent message keeps of one object.
pub Sends-AllObjects :
    (P : ℕ → Connection → Type 0)
    → ((m : Message) (q : ℕ) (c : Connection) → P q c → P q (send_data m c))
    → {s t : Server} → Sends s t
    → AllObjects P s.store
    → AllObjects P t.store
Sends-AllObjects P keeps (nothing e f) all = subst (AllObjects P) (sym e) all
Sends-AllObjects P keeps (sent none m h e f) all =
    subst (AllObjects P) (sym e) (Sends-AllObjects P keeps h all)
Sends-AllObjects P keeps (sent {t = t} (some p) m h e f) all =
    subst (AllObjects P) (sym e) (
      at-AllObjects P p (send_data m) t.store (λ c _. keeps m p c) (Sends-AllObjects P keeps h all))

pub Sends-Extends : {s t : Server} → Sends s t → Extends s.store t.store
Sends-Extends {s} (nothing e f) = subst (Extends s.store) (sym e) (Extends-refl s.store)
Sends-Extends {s} (sent none m h e f) = subst (Extends s.store) (sym e) (Sends-Extends h)
Sends-Extends {s} (sent {t = t} (some p) m h e f) = subst (Extends s.store) (sym e) (
    Extends-trans (Sends-Extends h)
      (at-Extends p (send_data m) t.store (λ c _. send_data-validated m c)))

pub Sends-queue : {s t : Server} → Sends s t → t.in_msg_queue ≡ s.in_msg_queue
Sends-queue (nothing e f) = f
Sends-queue (sent ref m h e f) = f ∙ Sends-queue h

pub Sends-IsVigilant : {s t : Server} → Sends s t → IsVigilant s → IsVigilant t
Sends-IsVigilant {s} {t} h v = record {
  objects = Sends-AllObjects IsGuarded (λ m q c. send_data-IsGuarded m) h v.objects;
  messages =
      subst (All (IsHeard t.store)) (sym (Sends-queue h))
        (Extends-IsHeard s.in_msg_queue (Sends-Extends h) v.messages);
}

-- `update` takes messages off the queue and hands them on.
pub update-IsVigilant :
    (h : Hooks) → IsPolite h → (n : ℕ) (s : Server) → IsVigilant s → IsVigilant (update h n s)
unfolding update
update-IsVigilant h polite zero s v = v
update-IsVigilant h polite (suc n) s v =
    go (λ t w. update-IsVigilant h polite n t w) s.in_msg_queue v.messages
  where
    go :
        ((t : Server) → IsVigilant t → IsVigilant (update h n t))
        → (queue : List OwnedMessage) → All (IsHeard s.store) queue
        → IsVigilant (elim queue [
          | [] ↦ s
          | m ∷ rest ↦ update h n (h.on_message m.remote m.msg (record s { in_msg_queue = rest }))
        ])
    go more [] all = v
    go more (m ∷ rest) all =
        let without : Server = record s { in_msg_queue = rest } in
        more (h.on_message m.remote m.msg without) (
          Sends-IsVigilant (polite.messages m.remote m.msg without)
            (record { objects = v.objects; messages = all.1 }))
