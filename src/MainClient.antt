-- ===== src/MainClient.antt =====
-- src/main_client_async.cpp: a client that asks one server for a page, while a thread reads what comes and prints
-- it. In MainClient/Sync, src/main_client.cpp.
pub mod Arrivals
pub mod Sync
mod Tests
use networking_cpp_intro.Common.{
  ℕ, ◌≤◌, ◌≡◌, if◌then◌else◌, Bool, true, false, List, [], ◌∷◌, ◌++◌, map, length, take, replicate,
  Text, codes,
}
use networking_cpp_intro.Message.{overwrite}

pub data Line : Type 0 where
  connected no_connection finished_reading : Line
  read_bytes : ℕ → Line
  cell : ℕ → Line

-- Where `main` stands: before `connect`, before `write_some`, asleep, and at its ends. `terminated`: it returns
-- while its thread is joinable, which ends the program at once.
pub data Phase : Type 0 where
  connecting asking sleeping finished terminated : Phase

-- `reading`: `async_read_some` is in hand. `sent` is what `write_some` has taken of the request.
pub record Program : Type 0 where
  pub phase : Phase
  pub storage : List ℕ
  pub reading : Bool
  pub sent : Text
  pub printed : List Line

abbrev pub http_request : Text
http_request = codes "GET /index.html HTTP/1.1\r\nHost: example.com\r\nConnection: close\r\n\r\n"

-- `global_receive_storage`, and `main` up to `connect`.
abbrev pub new_program : Program
new_program = record {
  phase = connecting;
  storage = replicate 1024 0;
  reading = false;
  sent = [];
  printed = [];
}

abbrev pub grap_some_data : Program → Program
grap_some_data p = record p { reading = true }

-- The lambda of `grapSomeData`; the read has put `bytes` at the start of the storage.
unfoldable pub on_read : Bool → List ℕ → Program → Program
on_read failed bytes p =
    let done = record p { reading = false; storage = overwrite 0 bytes p.storage } in
    if failed
    then done
    else grap_some_data (record done {
      printed =
          done.printed ++ read_bytes (length bytes) ∷ map cell (take (length bytes) done.storage);
    })

unfoldable pub on_connect : Bool → Program → Program
on_connect failed p =
    if failed
    then record p { phase = terminated; printed = p.printed ++ no_connection ∷ [] }
    else grap_some_data (record p { phase = asking; printed = p.printed ++ connected ∷ [] })

-- `write_some` takes the first `n` bytes.
abbrev pub write_some : ℕ → Program → Program
write_some n p = record p { phase = sleeping; sent = take n http_request }

-- The I/O service is stopped and the thread is joined, so no read completes any more.
abbrev pub finish : Program → Program
finish p = record p {
  phase = finished;
  reading = false;
  printed = p.printed ++ finished_reading ∷ [];
}

-- What `main` does next, and reads that complete in the other thread.
pub data Step (p : Program) : Program → Type 0 where
  connects : (failed : Bool) → p.phase ≡ connecting → Step p (on_connect failed p)
  writes : (n : ℕ) → p.phase ≡ asking → n ≤ length http_request → Step p (write_some n p)
  read_done :
      (failed : Bool) (bytes : List ℕ)
      → p.reading ≡ true
      → length bytes ≤ 1024
      → Step p (on_read failed bytes p)
  wakes : p.phase ≡ sleeping → Step p (finish p)
