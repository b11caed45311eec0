-- ===== src/Client.antt =====
-- The client library (client/src/dfs_client.cpp): `putFileSync`, `getFileSync` and `deleteFileSync`,
-- and `putFile`, `getFile` and `deleteFile`, which run these on a thread and hand the result or the
-- exception on through a future. The calls of the coordinator are parameters: what comes back for
-- what was sent.
pub mod Transfers
pub mod Deletions
mod Tests
use toy_dfs.Prelude.{
  ℕ, zero, suc, Bool, true, false, List, [], ◌∷◌, ◌++◌, Option, none, some, leb, length, take, drop,
  ◌&&◌, if◌then◌else◌,
}
use toy_dfs.Bytes.{Bytes, codes, is_empty}
use toy_dfs.Bytes.Decimal.{to_string_nat}
use toy_dfs.Grpc.{Status, is_ok, StatusCode, PutFileRequest}
use toy_dfs.Coordinator.Download.Stream.{joined}

-- How a call ends: with its value, with a `system_error` for EEXIST or ENOENT, or with a
-- `runtime_error`.
pub data Outcome (A : Type 0) : Type 0 where
  done : A → Outcome A
  file_exists : Outcome A
  no_such_file : Outcome A
  failed : Bytes → Outcome A

abbrev pub block_size : ℕ
block_size = 4096

abbrev pub request : Bytes → Bytes → PutFileRequest
request filename content = record { filename = filename; content = content }

-- The loop over the blocks of the file, and the last, shorter one. `takes` says of each message, by
-- its number, whether `Write` succeeds. The result is the messages sent and, where the source throws,
-- the text. `fuel` counts the rounds; one more than the length of the content is enough.
unfoldable pub send_data : ℕ → Bytes → Bytes → (ℕ → Bool) → ℕ → List PutFileRequest × Option Bytes
send_data zero filename content takes i = ([], none)
send_data (suc fuel) filename content takes i =
    let (reqs, failure) = send_data fuel filename (drop block_size content) takes (suc i) in
    if leb block_size (length content)
    then (if takes i
        then (request filename (take block_size content) ∷ reqs, failure)
        else ([], some (codes "Failed to send data chunk")))
    else if is_empty content
    then ([], none)
    else if takes i
    then (request filename content ∷ [], none)
    else ([], some (codes "Failed to send final data chunk"))

-- The file name goes first, in a message without data.
unfoldable pub send_file : Bytes → Bytes → (ℕ → Bool) → List PutFileRequest × Option Bytes
unfolding send_data
send_file filename content takes =
    let (reqs, failure) = send_data (suc (length content)) filename content takes 1 in
    if takes 0
    then (request filename [] ∷ reqs, failure)
    else ([], some (codes "Failed to send filename"))

abbrev pub is_code : StatusCode → StatusCode → Bool
is_code StatusCode.already_exists StatusCode.already_exists = true
is_code StatusCode.not_found StatusCode.not_found = true
is_code _ _ = false

unfoldable pub put_outcome : Status → Bool → Outcome (Unit {0})
put_outcome st success =
    if is_ok st && success
    then done tt
    else if is_code st.code StatusCode.already_exists
    then file_exists
    else failed st.message

-- `file` is the local file, if it can be opened; `rpc` is what `Finish` brings back.
unfoldable pub put_file_sync :
    Bytes → Option Bytes → (ℕ → Bool) → (List PutFileRequest → Status × Bool) → Outcome (Unit {0})
unfolding send_file put_outcome
put_file_sync filename file takes rpc = elim file [
  | none ↦ failed (codes "Failed to open file: " ++ filename)
  | some content ↦
      let (reqs, failure) = send_file filename content takes in
      elim failure [
        | none ↦ let (st, success) = rpc reqs in put_outcome st success
        | some text ↦ failed text
      ]
]

unfoldable pub get_file_sync : Status × List Bytes → Outcome Bytes
get_file_sync (st, messages) =
    if is_ok st
    then done (joined messages)
    else if is_code st.code StatusCode.not_found
    then no_such_file
    else failed st.message

-- The number of a status code is gRPC's.
unfoldable pub delete_file_sync : (StatusCode → ℕ) → Status × Bool → Outcome Bool
delete_file_sync number (st, success) =
    if is_ok st && success
    then done true
    else if is_code st.code StatusCode.not_found
    then no_such_file
    else failed
        (codes "gRPC error [" ++ (to_string_nat (number st.code) ++ (codes "]: " ++ st.message)))

-- The thread that sets the value of a promise, or its exception, as `future.get()` gives it back.
abbrev pub hand_on : {A B : Type 0} → (A → B) → Outcome A → Outcome B
hand_on f (done a) = done (f a)
hand_on f file_exists = file_exists
hand_on f no_such_file = no_such_file
hand_on f (failed text) = failed text

abbrev pub put_file : Outcome (Unit {0}) → Outcome Bool
put_file = hand_on (λ u. true)

abbrev pub get_file : Outcome Bytes → Outcome Bytes
get_file = hand_on (λ content. content)

abbrev pub delete_file : Outcome Bool → Outcome Bool
delete_file = hand_on (λ success. success)
