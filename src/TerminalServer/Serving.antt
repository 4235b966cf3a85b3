-- ===== src/TerminalServer/Serving.antt =====
-- simple_terminal_server.cpp: `Server`, whose sessions all use its table of commands, and the table that `main`
-- attaches.
pub mod Alone
use networking_cpp_intro.Common.{
  ℕ, suc, ◌+◌, ◌-◌, ◌<◌, ◌≡◌, ◌==◌, if◌then◌else◌, Bool, true, false, List, [], ◌∷◌, ◌++◌, Option,
  some, ◌>>=◌, length, get_elem?, set, Text, codes,
}
use networking_cpp_intro.TerminalServer.{
  Handled, Dispatcher, Session, started, first_line, on_read, on_write, attach,
}

-- `accepts` is the number of accepts in hand.
pub record Server : Type 0 where
  pub dispatcher : Dispatcher
  pub sessions : List Session
  pub accepts : ℕ

abbrev pub accept : Server → Server
accept v = record v { accepts = v.accepts + 1 }

-- The constructor
abbrev pub make_server : Server
make_server = accept (record { dispatcher = []; sessions = []; accepts = 0 })

-- An accept completes, with an error or not: the handler looks at none.
unfoldable pub on_accept : Server → Server
on_accept v = accept (record v { sessions = v.sessions ++ started ∷ []; accepts = v.accepts - 1 })

-- The functions that `main` attaches.
pub record Handlers : Type 0 where
  pub date : List Text → Handled
  pub pwd : List Text → Handled
  pub dir : List Text → Handled
  pub cd : List Text → Handled
  pub mul : List Text → Handled

module _ (split : Text → List Text) where
  -- The calls of `attach` in `main`, on the table of the server.
  unfoldable pub attach_commands : Handlers → Dispatcher → Option Dispatcher
  attach_commands h empty = do
    with_date ← attach split (codes "date") (codes "Print current date and time") h.date empty
    with_pwd ← attach split (codes "pwd") (codes "Print working directory") h.pwd with_date
    with_dir ← attach split (codes "dir") (codes "Print working directorys content") h.dir with_pwd
    with_cd ← attach split (codes "cd") (codes "Change current working directory") h.cd with_dir
    attach split (codes "mul % %") (codes "Multiply two numbers") h.mul with_cd

  -- `main`, up to `run`.
  abbrev pub served : Handlers → Option Server
  served h = do
    table ← attach_commands h make_server.dispatcher
    some (record make_server { dispatcher = table })

-- Texts, each with the number of the session that it belongs to.
abbrev pub Log : Type 0
Log = List (ℕ × Text)

-- The text in front of a queue, which the write in hand carries.
abbrev pub front_text : List Text → List Text
front_text [] = []
front_text (text ∷ more) = text ∷ []

abbrev pub numbered : ℕ → List Text → Log
numbered i [] = []
numbered i (text ∷ more) = (i, text) ∷ numbered i more

-- A buffer with the bytes that a read has added, up to and with a newline. Where the buffer has one
-- already, nothing is read.
abbrev pub has_newline : Text → Bool
has_newline [] = false
has_newline (c ∷ rest) = let more = has_newline rest in if c == 10 then true else more

abbrev pub with_bytes : Text → Session → Session
with_bytes more s = record s {
  incoming = s.incoming ++ (if has_newline s.incoming then [] else more);
}

-- A server, the lines that its sessions have taken off their buffers, and the texts that were written in full.
pub record History : Type 0 where
  pub server : Server
  pub lines : Log
  pub written : Log

abbrev pub begins : Server → History
begins v = record { server = v; lines = []; written = [] }

module _ (split : Text → List Text) (trim : Text → Text) where
  -- Accepts, reads and writes complete in any order. `async_read_until` gives the number of bytes up to the
  -- first newline and with it; it may have put more bytes into the buffer.
  pub data Step (t : History) : History → Type 0 where
    accepted : 0 < t.server.accepts → Step t (record t { server = on_accept t.server })
    read_done :
        (i : ℕ) (more : Text) (s s' : Session)
        → get_elem? t.server.sessions i ≡ some s
        → 0 < s.reads
        → has_newline (with_bytes more s).incoming ≡ true
        → on_read split trim t.server.dispatcher false
            (suc (length (first_line (with_bytes more s).incoming)))
            (with_bytes more s)
          ≡ some s'
        → Step t (record t {
          server = record t.server { sessions = set t.server.sessions i s' };
          lines = t.lines ++ numbered i (first_line (with_bytes more s).incoming ∷ []);
        })
    read_failed :
        (i : ℕ) (more : Text) (s s' : Session)
        → get_elem? t.server.sessions i ≡ some s
        → 0 < s.reads
        → on_read split trim t.server.dispatcher true 0 (with_bytes more s) ≡ some s'
        → Step t (record t { server = record t.server { sessions = set t.server.sessions i s' } })
    write_done :
        (i : ℕ) (fails : Bool) (s : Session)
        → get_elem? t.server.sessions i ≡ some s
        → 0 < s.writes
        → Step t (record t {
          server = record t.server { sessions = set t.server.sessions i (on_write fails s) };
          written = t.written ++ numbered i (if fails then [] else front_text s.outgoing);
        })

  pub data Reach (t : History) : History → Type 0 where
    here : Reach t t
    next : {u w : History} → Reach t u → Step u w → Reach t w
