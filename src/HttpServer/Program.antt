-- ===== src/HttpServer/Program.antt =====
-- async_http_server.cpp: `main`, which makes the listener and lets threads run the I/O service. That of
-- ssl_http_server.cpp makes the same threads.
use networking_cpp_intro.Common.{
  ℕ, zero, suc, ◌+◌, ◌-◌, ◌≤◌, ◌≡◌, ◌==◌, ltb, if◌then◌else◌, Bool, true, false, ◌||◌, arith,
}

-- The number on the command line, an `int`, as its sign and its size.
pub record Demand : Type 0 where
  pub is_negative : Bool
  pub magnitude : ℕ

abbrev pub thread_count : Demand → ℕ
thread_count d = if d.is_negative || ltb d.magnitude 1 then 1 else d.magnitude

-- The loop that fills `thread_vec`: `i` threads more.
unfoldable pub emplace_threads : ℕ → ℕ → ℕ
emplace_threads zero threads = threads
emplace_threads (suc i) threads = emplace_threads i (threads + 1)

-- How `main` ends. `never`: the I/O service has work as long as the listener listens. `terminated`: the threads
-- of `thread_vec` are not joined, so the destructor of one ends the program.
pub data Ending : Type 0 where
  usage never returned terminated : Ending

-- `joinable` are the threads of `thread_vec`.
pub record Outcome : Type 0 where
  pub joinable : ℕ
  pub ending : Ending

-- With the number of arguments, and whether `run` returns.
unfoldable pub main : ℕ → Demand → Bool → Outcome
main argc d run_returns =
    let joinable = emplace_threads (thread_count d - 1) 0 in
    if argc == 5
    then record {
      joinable = joinable;
      ending = if run_returns then (if joinable == 0 then returned else terminated) else never;
    }
    else record { joinable = 0; ending = usage }

emplace_threads_lem : (i threads : ℕ) → emplace_threads i threads ≡ threads + i
unfolding emplace_threads
emplace_threads_lem zero threads = omega arith
emplace_threads_lem (suc i) threads = omega (arith, emplace_threads_lem i (threads + 1))

-- Called with all arguments, `main` has the I/O service run by one thread at least, and by as many as are asked for
-- if that is more, the main thread among them.
pub threads_run :
    (d : Demand) (run_returns : Bool)
    → ((main 5 d run_returns).joinable + 1 ≡ thread_count d) × (1 ≤ thread_count d)
unfolding main
threads_run d run_returns =
    let count = emplace_threads_lem (thread_count d - 1) 0 in
    let some_ : 1 ≤ thread_count d = ground arith in (omega (arith, count, some_), some_)

-- Where more than one thread is asked for and the listener gives up, `main` does not return.
pub gives_up_badly :
    (m : ℕ)
    → 2 ≤ m
    → (main 5 (record { is_negative = false; magnitude = m }) true).ending ≡ terminated
unfolding main
gives_up_badly m many = ground (arith, emplace_threads_lem (m - 1) 0)
