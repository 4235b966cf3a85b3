-- ===== src/TerminalServer/Commands.antt =====
-- simple_terminal_server.cpp: what an attached command answers.
use networking_cpp_intro.Common.{
  ◌==◌, ◌≡◌, if◌then◌else◌, List, [], ◌∷◌, none, some, length, Text, text_eq_refl, arith,
}
use networking_cpp_intro.TerminalServer.{
  Handled, DispatcherEntry, Dispatcher, find, insert, emplace, respond, run_handler, wrong_count,
  attach, reply,
}

find-insert_self :
    (name : Text) (e : DispatcherEntry) (d : Dispatcher)
    → find name d ≡ none
    → find name (insert name e d) ≡ some e
unfolding find insert
find-insert_self name e [] h = ground (arith, text_eq_refl name)
find-insert_self name e ((key, entry) ∷ rest) h =
    ground (arith, text_eq_refl name, find-insert_self name e rest)

find-emplace_self :
    (name : Text) (e : DispatcherEntry) (d : Dispatcher)
    → find name d ≡ none
    → find name (emplace name e d) ≡ some e
unfolding emplace
find-emplace_self name e d h = ground (arith, find-insert_self name e d)

-- A command attached under a new name runs its handler on exactly as many arguments as its pattern
-- names behind the command, and refuses any other number; so one whose pattern is the bare name,
-- as that of `cd`, only ever runs without arguments.
pub attached_command :
    (split : Text → List Text) (pattern_ description name line : Text) (params args : List Text)
    (f : List Text → Handled) (d d' : Dispatcher)
    → split pattern_ ≡ name ∷ params
    → find name d ≡ none
    → attach split pattern_ description f d ≡ some d'
    → split line ≡ name ∷ args
    → reply split d' line
      ≡ some (
          if length params == length args
          then run_handler (f args)
          else wrong_count (length params) (length args))
unfolding attach respond
attached_command split pattern_ description name line params args f d d' p new ok l =
    let e : DispatcherEntry = record {
      description = description;
      args = length params;
      handler = f;
    } in
    ground (arith, find-emplace_self name e d)
