-- ===== src/HttpClient/Plain.antt =====
-- other_ressources/async_io_with_cpp/simple_http_client.cpp: `ClientApplication`, whose handlers print the error
-- and start the next operation all the same.
use networking_cpp_intro.Common.{ℕ, ◌≡◌, refl, Bool, List, [], ◌∷◌, ◌++◌, Text, codes}
use networking_cpp_intro.HttpClient.{
  Phase, resolving, connecting, handshaking, writing, reading, shutting_down, ended,
}

-- The line of a handler: its operation, whether that failed, and the bytes transferred; and the response.
pub data Line : Type 0 where
  report : Phase → Bool → ℕ → Line
  response : Text → Line

-- `asked` are the requests whose write has been started.
pub record Application : Type 0 where
  pub request_ : Text
  pub phase : Phase
  pub asked : List Text
  pub shown : List Line

-- How an operation completes, with the bytes transferred and what a read has put into the buffer.
pub record Completion : Type 0 where
  pub fails : Bool
  pub transferred : ℕ
  pub buffer : Text

-- The constructor
abbrev pub make_application : Text → Application
make_application hostname = record {
  request_ = codes "GET / HTTP/1.1\nHost: " ++ (hostname ++ codes "\nConnection: close\n\n");
  phase = resolving;
  asked = [];
  shown = [];
}

abbrev pub on_resolve : Completion → Application → Application
on_resolve c a = record a { phase = connecting; shown = a.shown ++ report resolving c.fails 0 ∷ [] }

abbrev pub on_connect : Completion → Application → Application
on_connect c a = record a {
  phase = writing;
  asked = a.asked ++ a.request_ ∷ [];
  shown = a.shown ++ report connecting c.fails 0 ∷ [];
}

abbrev pub on_write : Completion → Application → Application
on_write c a = record a {
  phase = reading;
  shown = a.shown ++ report writing c.fails c.transferred ∷ [];
}

abbrev pub on_read : Completion → Application → Application
on_read c a = record a {
  phase = ended;
  shown = a.shown ++ report reading c.fails c.transferred ∷ response c.buffer ∷ [];
}

-- The operation in hand completes.
abbrev pub complete : Completion → Application → Application
complete c a = elim a.phase [
  | resolving ↦ on_resolve c a
  | connecting ↦ on_connect c a
  | writing ↦ on_write c a
  | reading ↦ on_read c a
  | handshaking ↦ a
  | shutting_down ↦ a
  | ended ↦ a
]

-- However its operations complete, the client ends after four of them and has started to write its request once,
-- also where it has no connection, and has printed a line about each operation and then the buffer.
pub goes_on :
    (hostname : Text) (a b c d : Completion)
    → let start = make_application hostname in
      let end_ = complete d (complete c (complete b (complete a start))) in
      (end_.phase ≡ ended)
      × (end_.asked ≡ start.request_ ∷ [])
      × (end_.shown
          ≡ report resolving a.fails 0
            ∷ report connecting b.fails 0
            ∷ report writing c.fails c.transferred
            ∷ report reading d.fails d.transferred
            ∷ response d.buffer
            ∷ [])
goes_on hostname a b c d = (refl, refl, refl)
