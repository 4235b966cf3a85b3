-- ===== src/Sender/Program.antt =====
-- send_recursive_not_recommend.cpp: `main`, which accepts one client and sends it a text.
use networking_cpp_intro.Common.{
  ◌≡◌, refl, if◌then◌else◌, Bool, true, false, List, [], ◌∷◌, ◌++◌, Text, codes,
}

pub data Line : Type 0 where
  sending_data finished_sending accept_error : Line

-- `in_hand` are the buffers of the `async_send`s that have been started and not completed.
pub record Program : Type 0 where
  pub is_open : Bool
  pub in_hand : List Text
  pub shown : List Line

abbrev pub accepted : Program
accepted = record { is_open = true; in_hand = []; shown = [] }

-- `io::buffer` of a literal has its final zero byte too.
abbrev pub text : Text
text = codes "Hello, this is a test." ++ 0 ∷ []

abbrev pub show : Line → Program → Program
show l p = record p { shown = p.shown ++ l ∷ [] }

-- The first `send`, which returns before the I/O service has completed what it starts.
abbrev pub start_send : Text → Program → Program
start_send data_to_send p = record p { in_hand = p.in_hand ++ data_to_send ∷ [] }

unfoldable pub on_accept : Bool → Program → Program
on_accept fails p =
    if fails
    then show accept_error p
    else record (show finished_sending (start_send text (show sending_data p))) { is_open = false }

-- The handler closes the socket and prints that the sending is finished while the send is still in hand.
pub closed_before_sent :
    let p = on_accept false accepted in
    (p.in_hand ≡ text ∷ []) × (p.is_open ≡ false) × (p.shown ≡ sending_data ∷ finished_sending ∷ [])
unfolding on_accept
closed_before_sent = (refl, refl, refl)
