-- ===== src/HttpClient.antt =====
-- other_ressources/boost_beast/src/async_http_get_client.cpp: a client that asks for one document. One
-- operation is in hand at a time, and its completion runs the handler that it was started with.
pub mod Tls
pub mod Outcomes
pub mod TlsOutcomes
pub mod Plain
pub mod Chunks
pub mod Scripts
mod Tests
use networking_cpp_intro.Common.{
  ℕ, if◌then◌else◌, Bool, true, false, List, [], ◌∷◌, ◌++◌, Text, codes,
}

-- The operation in hand, or none.
pub data Phase : Type 0 where
  resolving connecting handshaking writing reading shutting_down ended : Phase

-- `request_`; the method is GET.
pub record Request : Type 0 where
  pub version : ℕ
  pub target : Text
  pub host : Text
  pub user_agent : Text

-- The lines printed: an answer, that the socket is closed, or an error and the operation it is about.
pub data Line : Type 0 where
  message_from_server : Text → Line
  closed_the_socket : Line
  error_during : Phase → Line
  error_on_run : Line

-- `written` is what has been sent.
pub record Session : Type 0 where
  pub request_ : Request
  pub phase : Phase
  pub written : List Request
  pub shown : List Line

-- How an operation completes; a read gives an answer with it.
pub record Completion : Type 0 where
  pub fails : Bool
  pub answer : Text

abbrev pub stop : Phase → Session → Session
stop p s = record s { phase = ended; shown = s.shown ++ error_during p ∷ [] }

-- `run`, with the version of Boost.Beast as a parameter.
abbrev pub run : Text → Text → Text → ℕ → Session
run agent host target version = record {
  request_ = record { version = version; target = target; host = host; user_agent = agent };
  phase = resolving;
  written = [];
  shown = [];
}

unfoldable pub on_resolve : Bool → Session → Session
on_resolve fails s = if fails then stop resolving s else record s { phase = connecting }

unfoldable pub on_connect : Bool → Session → Session
on_connect fails s = if fails then stop connecting s else record s { phase = writing }

unfoldable pub on_write : Bool → Session → Session
on_write fails s =
    if fails
    then stop writing s
    else record s { phase = reading; written = s.written ++ s.request_ ∷ [] }

unfoldable pub on_read : Bool → Text → Session → Session
on_read fails answer s = if fails then stop reading s else record s {
  phase = ended;
  shown = s.shown ++ message_from_server answer ∷ closed_the_socket ∷ [];
}

-- The operation in hand completes.
unfoldable pub complete : Completion → Session → Session
complete c s = elim s.phase [
  | resolving ↦ on_resolve c.fails s
  | connecting ↦ on_connect c.fails s
  | writing ↦ on_write c.fails s
  | reading ↦ on_read c.fails c.answer s
  | handshaking ↦ s
  | shutting_down ↦ s
  | ended ↦ s
]

-- `ioserv.run`
unfoldable pub completes : List Completion → Session → Session
completes [] s = s
completes (c ∷ more) s = completes more (complete c s)
