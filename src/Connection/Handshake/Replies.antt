-- ===== src/Connection/Handshake/Replies.antt =====
-- connection_net_interface.hpp: the handlers of the reads of messages and of the client's answer.
use networking_cpp_intro.Common.{
  ℕ, ◌≡◌, refl, ◌==◌, Bool, true, false, Bool-cases, inl, inr, List, [], arith, some, of_le_bytes,
}
use networking_cpp_intro.Connection.{
  Connection, AsyncOp, reading_header, reading_payload, checking_validation, complete,
  on_check_validation, on_read_header, on_read_payload,
}
use networking_cpp_intro.Connection.Pending.{
  is_reading, is_checking, is_asking, select, select-start,
}
use networking_cpp_intro.Connection.Handshake.Stages.{IsServing, IsQuiet, passed, refused, Trusted}

-- What the completion of a message's read leaves alone.
pub record Reads (c c' : Connection) : Type 0 where
  pub owner : c'.owner ≡ c.owner
  pub check : c'.handshake_check ≡ c.handshake_check
  pub answer : c'.handshake_in ≡ c.handshake_in
  pub count : c'.validated ≡ c.validated
  pub checks : select is_checking c'.pending ≡ select is_checking c.pending
  pub asks : select is_asking c'.pending ≡ select is_asking c.pending

pub reading_kind :
    (op : AsyncOp) → is_reading op ≡ true → (is_checking op ≡ false) × (is_asking op ≡ false)
reading_kind reading_header p = (refl, refl)
reading_kind reading_payload p = (refl, refl)
reading_kind _ p = absurd (ground arith)

pub complete-Reads :
    (op : AsyncOp) (failed : Bool) (bytes : List ℕ) (c c' : Connection)
    → is_reading op ≡ true
    → complete op failed bytes c ≡ some c'
    → Reads c c'
unfolding complete on_read_header on_read_payload
complete-Reads reading_header failed bytes c c' p h = ground (
  arith,
  select-start is_checking c.pending reading_header,
  select-start is_asking c.pending reading_header,
  select-start is_checking c.pending reading_payload,
  select-start is_asking c.pending reading_payload,
)
complete-Reads reading_payload failed bytes c c' p h = ground (
  arith,
  select-start is_checking c.pending reading_header,
  select-start is_asking c.pending reading_header,
)
complete-Reads _ failed bytes c c' p h = absurd (ground arith)

pub on_check_validation-Trusted :
    {k : ℕ} (failed : Bool) (bytes : List ℕ) (c c' : Connection)
    → IsServing k c
    → select is_checking c.pending ≡ []
    → IsQuiet c
    → complete checking_validation failed bytes c ≡ some c'
    → Trusted k c'
unfolding complete on_check_validation
on_check_validation-Trusted true bytes c c' s n q h =
    (ground arith, refused (ground arith) (ground arith) (ground arith))
on_check_validation-Trusted {k} false bytes c c' s n q h =
    elim (Bool-cases (of_le_bytes bytes == c.handshake_check)) [
      | inl right ↦ (
        ground (arith, select-start is_asking c.pending reading_header),
        passed (ground (arith, select-start is_checking c.pending reading_header)) (ground arith)
            (ground arith),
      )
      | inr wrong ↦ (ground arith, refused (ground arith) (ground arith) (ground arith))
    ]
