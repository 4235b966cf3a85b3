-- ===== src/EchoServer/Program.antt =====
-- tcp_echo_server_circularbuffer_multithreaded.cpp: `main`, which makes the group and the server on it, and runs
-- neither.
use networking_cpp_intro.Common.{ℕ, zero, suc, ◌==◌, ◌≡◌, refl, if◌then◌else◌, none, some}
use networking_cpp_intro.EchoServer.Contexts.{IoContextGroup, make_contexts, make_group}
use networking_cpp_intro.EchoServer.Accepting.{Server, make_server}

-- `crashed` is undefined behaviour; `finished` has the server as it is destroyed.
pub data Ending : Type 0 where
  usage crashed : Ending
  finished : Server → Ending

-- The constructor of the server asks the group for a context.
pub serve : IoContextGroup → Ending
serve group = if group.contexts == 0 then crashed else finished (make_server group)

pub main : ℕ → ℕ → Ending
unfolding serve
main argc size =
    if argc == 3
    then (elim (make_group size) [ none ↦ crashed | some group ↦ serve group ])
    else usage

-- Called with a port and any number of threads, the program does not come to an end that is defined.
pub main_crashes : (size : ℕ) → main 3 size ≡ crashed
unfolding main serve make_contexts
main_crashes zero = refl
main_crashes (suc n) = refl
