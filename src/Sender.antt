-- ===== src/Sender.antt =====
-- other_ressources/async_io_with_cpp/send_recursive_not_recommend.cpp: `send` and `on_send`, which call
-- each other until a message is delivered.
pub mod Delivery
pub mod Program
mod Tests
use networking_cpp_intro.Common.{
  ℕ, min, ◌==◌, if◌then◌else◌, Bool, List, [], ◌∷◌, ◌++◌, length, take, drop,
}

-- What `on_send` does: prints that the message is delivered, prints an error, or calls `send` on a rest.
pub data Next : Type 0 where
  delivered send_error : Next
  sending : List ℕ → Next

unfoldable pub on_send : Bool → ℕ → List ℕ → Next
on_send fails bytes_transferred data_to_send =
    let rest = drop bytes_transferred data_to_send in
    if fails then send_error else if length rest == 0 then delivered else sending rest

-- The bytes that the socket took, and where it stands.
pub record Outcome : Type 0 where
  pub taken : List ℕ
  pub stands : Next

abbrev pub after : List ℕ → Outcome → Outcome
after bytes o = record { taken = bytes ++ o.taken; stands = o.stands }

-- `send`, as long as the I/O service completes what it starts: for each `async_send`, whether it
-- fails and how many bytes the socket has room for.
unfoldable pub send : List (Bool × ℕ) → List ℕ → Outcome
send [] data_to_send = record { taken = []; stands = sending data_to_send }
send ((fails, room) ∷ completions) data_to_send =
    let n = min room (length data_to_send) in
    elim (on_send fails n data_to_send) [
      | delivered ↦ record { taken = take n data_to_send; stands = delivered }
      | send_error ↦ record { taken = take n data_to_send; stands = send_error }
      | sending rest ↦ after (take n data_to_send) (send completions rest)
    ]
