-- ===== src/MainClient/Sync.antt =====
-- src/main_client.cpp: the same request, and one read of what has come after a fixed time.
use networking_cpp_intro.Common.{
  ℕ, ◌+◌, ◌-◌, ◌≤◌, ◌<◌, ◌≡◌, refl, ◌==◌, if◌then◌else◌, Bool, false, List, [], ◌∷◌, ◌++◌, map,
  length, take, replicate, drop-replicate, arith, Text,
}
use networking_cpp_intro.Message.{overwrite}
use networking_cpp_intro.MainClient.{Line, connected, no_connection, cell, http_request}

-- What the calls on the socket give: whether `connect` fails, how many bytes `write_some` takes and `available`
-- counts, and what `read_some` puts into its buffer.
pub record Network : Type 0 where
  pub connect_fails : Bool
  pub taken : ℕ
  pub available : ℕ
  pub arriving : List ℕ

pub data Output : Type 0 where
  line : Line → Output
  available_bytes : ℕ → Output
  no_data : Output

-- The end of `main`: its result, what it has printed, and what it has sent.
pub record Outcome : Type 0 where
  pub exit_code : ℕ
  pub printed : List Output
  pub sent : Text

-- The error codes of `write_some` and `read_some` are not looked at.
unfoldable pub main : Network → Outcome
main n =
    let response_buffer = overwrite 0 n.arriving (replicate n.available 0) in
    let asked = line connected ∷ available_bytes n.available ∷ [] in
    if n.connect_fails
    then record { exit_code = 1; printed = line no_connection ∷ []; sent = [] }
    else if n.available == 0
    then record { exit_code = 1; printed = asked ++ no_data ∷ []; sent = take n.taken http_request }
    else record {
      exit_code = 0;
      printed = asked ++ map (λ b. line (cell b)) response_buffer;
      sent = take n.taken http_request;
    }

-- With a connection and a byte or more that has come: `main` prints the bytes that the read brings and a zero for
-- each byte that it does not bring, also where it fails, and reports success.
pub prints_whole_buffer :
    (n : Network)
    → n.connect_fails ≡ false
    → 0 < n.available
    → length n.arriving ≤ n.available
    → ((main n).exit_code ≡ 0)
      × ((main n).printed
          ≡ line connected
            ∷ available_bytes n.available
            ∷ map
                (λ b. line (cell b))
                (n.arriving ++ replicate (n.available - length n.arriving) 0))
unfolding main
prints_whole_buffer n ok some_came fits =
    let some_there : (n.available == 0) ≡ false = ground (arith, some_came) in
    let whole : 0 + length n.arriving ≡ length n.arriving = omega arith in
    rw (ok, some_there, whole, drop-replicate {A = ℕ} (length n.arriving) n.available 0)
      (refl, refl)
