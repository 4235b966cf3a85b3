-- ===== src/TerminalServer/Tests.antt =====
-- Runs of the terminal server with words split at one space.
use networking_cpp_intro.Common.{
  ◌==◌, ◌≡◌, refl, if◌then◌else◌, true, false, List, [], ◌∷◌, ◌++◌, some, Text, codes, text_eq,
  text_lt, get_elem?, arith,
}
use networking_cpp_intro.TerminalServer.{
  Handled, returned, Dispatcher, Session, find, insert, emplace, attach, respond, write_reply,
  reply, prompt, welcome, on_read, on_write,
}
use networking_cpp_intro.TerminalServer.Commands.{attached_command}
use networking_cpp_intro.TerminalServer.Serving.{
  Server, Handlers, History, begins, attach_commands, served, on_accept, Reach, here, next,
  accepted, read_done, write_done,
}
use networking_cpp_intro.TerminalServer.Serving.Alone.{texts_of, each_session_alone}
use networking_cpp_intro.TerminalServer.Replies.{replies_to, IsModest}

abbrev words : Text → List Text
words [] = []
words (c ∷ rest) = elim (words rest) as (λ q. List Text) [
  | [] ↦ if c == 32 then [] else (c ∷ []) ∷ []
  | w ∷ more ↦ if c == 32 then [] ∷ w ∷ more else (c ∷ w) ∷ more
]

abbrev join : List Text → Handled
join [] = returned []
join (a ∷ more) = returned a

abbrev commands : Dispatcher
commands = (codes "say", record { description = codes "Repeat"; args = 1; handler = join }) ∷ []

attached_command_example : reply words commands (codes "say hi") ≡ some (codes "hi")
unfolding find insert emplace attach respond
attached_command_example =
    attached_command words (codes "say %") (codes "Repeat") (codes "say") (codes "say hi")
      (codes "%" ∷ []) (codes "hi" ∷ []) join [] commands refl refl refl refl

abbrev same : Text → Text
same line = line

-- The server of `main`, with commands that say their first word.
abbrev handlers : Handlers
handlers = record { date = join; pwd = join; dir = join; cd = join; mul = join }

-- A client sends a line, with the beginning of the next.
serving_run :
    (v : Server) × (t : History) × (s : Session) × (served words handlers ≡ some v)
    × Reach words same (begins v) t
    × (get_elem? t.server.sessions 1 ≡ some s)
unfolding attach_commands attach emplace find insert on_accept on_read on_write respond write_reply
    text_eq text_lt
serving_run = (
  _,
  _,
  _,
  refl,
  next
      (next (next (next here (accepted (omega arith))) (accepted (omega arith)))
        (write_done 1 false _ refl (omega arith)))
      (read_done 1 (codes "mul 2 3" ++ 10 ∷ codes "da") _ _ refl (omega arith) refl refl),
  refl,
)

each_session_alone_example :
    (serving_run.1.server.accepts ≡ 1)
    × (texts_of 1 serving_run.1.written ++ serving_run.2.outgoing
        ≡ (welcome ++ prompt)
          ∷ replies_to words same serving_run.0.dispatcher (texts_of 1 serving_run.1.lines))
    × IsModest serving_run.2
each_session_alone_example =
    each_session_alone words same handlers 1 serving_run.2 serving_run.3 serving_run.4 serving_run.5

-- Two lines that came together: the reply to the first is queued, and the second is discarded.
abbrev two_lines : Session
two_lines = record {
  incoming = codes "say a" ++ 10 ∷ codes "say b" ++ 10 ∷ [];
  outgoing = [];
  is_open = true;
  reads = 1;
  writes = 0;
}

second_line_lost :
    on_read words same commands false 6 two_lines
    ≡ some (record {
      incoming = [];
      outgoing = (codes "a" ++ prompt) ∷ [];
      is_open = true;
      reads = 1;
      writes = 1;
    })
unfolding on_read find respond write_reply text_eq
second_line_lost = refl
