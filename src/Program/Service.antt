-- ===== src/Program/Service.antt =====
-- The client's program on a coordinator, and what its exit codes say.
use toy_dfs.Prelude.{
  ℕ, ◌≡◌, ◌≢◌, refl, Bool, true, false, ◌&&◌, List, [], ◌∷◌, Option, none, some, arith,
}
use toy_dfs.Bytes.{Bytes, codes, bytes_beq, bytes_eq}
use toy_dfs.Grpc.{Status, StatusCode, is_ok, PutFileRequest}
use toy_dfs.Coordinator.{Coordinator}
use toy_dfs.Coordinator.Environment.{Environment}
use toy_dfs.Coordinator.Upload
use toy_dfs.Coordinator.Upload.{PutResult, returned, read_data}
use toy_dfs.Coordinator.Download
use toy_dfs.Coordinator.Deletion
use toy_dfs.Coordinator.System.Uploads.{success}
use toy_dfs.Client.{
  Outcome, done, file_exists, no_such_file, failed, send_file, put_file_sync, put_outcome,
  get_file_sync, delete_file_sync, put_file, get_file, delete_file,
}
use toy_dfs.Program.{exit}
use toy_dfs.Program.ClientMain.{Calls, main, parse_options, run_command, after_put, after_get}

-- What the client gets back of an upload. After undefined behaviour that may be anything.
abbrev pub reply : Status × Bool → PutResult → Status × Bool
reply anything (returned st b) = (st, b)
reply anything PutResult.undefined = anything

-- The client on this coordinator. `file` is the local file system, `takes` says which messages the
-- connection takes, `quota` how many a download carries.
module _ {W : Type 0} (env : Environment W) (file : Bytes → Option Bytes) (takes : ℕ → Bool)
    (quota : ℕ) (number : StatusCode → ℕ) (now later : ℕ) (anything : Status × Bool) where
  unfoldable pub service : Calls (Coordinator × W)
  service = record {
    put = λ path (s : Coordinator × W). elim (file path) [
      | none ↦ (put_file (put_file_sync path none takes (λ reqs. anything)), s)
      | some content ↦
          let reqs = (send_file path content takes).0 in
          let (p, c', w') = Upload.put_file env reqs s.0 s.1 in
          (put_file (put_file_sync path (some content) takes (λ sent. reply anything p)), (c', w'))
    ];
    get = λ path s.
        let (st, messages, c', w') = Download.get_file env.client path quota s.0 s.1 in
        (get_file (get_file_sync (st, messages)), (c', w'));
    delete = λ path s.
        let (st, success, c') = Deletion.delete_file now later path s.0 in
        (delete_file (delete_file_sync number (st, success)), (c', s.1));
  }

-- An exit code of 0 says that the call was a success.
pub after_put_done :
    (path : Bytes) (r : Outcome Bool) → (after_put path r).0 ≡ exit 0 → r ≡ done true
after_put_done path (done true) e = refl
after_put_done path (done false) e = cc
after_put_done path file_exists e = cc
after_put_done path no_such_file e = cc
after_put_done path (failed text) e = cc

pub put_file_done : (r : Outcome (Unit {0})) → put_file r ≡ done true → r ≡ done tt
put_file_done (done tt) e = refl
put_file_done file_exists e = cc
put_file_done no_such_file e = cc
put_file_done (failed text) e = cc

put_outcome_done : (st : Status) (b : Bool) → put_outcome st b ≡ done tt → (is_ok st && b) ≡ true
unfolding put_outcome
put_outcome_done st b e = ground arith

-- Where the connection took every message, the answer was a success.
pub put_file_sync_done :
    (path content : Bytes) (takes : ℕ → Bool) (rpc : List PutFileRequest → Status × Bool)
    → (send_file path content takes).1 ≡ none
    → put_file_sync path (some content) takes rpc ≡ done tt
    → let (st, b) = rpc (send_file path content takes).0 in (is_ok st && b) ≡ true
unfolding put_file_sync
put_file_sync_done path content takes rpc sent e =
    let (st, b) = rpc (send_file path content takes).0 in
    put_outcome_done st b (rw (sent, put_file_sync) at e)

pub reply_success :
    (anything : Status × Bool) (p : PutResult)
    → p ≢ PutResult.undefined
    → (is_ok (reply anything p).0 && (reply anything p).1) ≡ true
    → success p ≡ true
reply_success anything (returned st b) d h = ground (arith, h)
reply_success anything PutResult.undefined d h = absurd (d refl)

module _ {S : Type 0} (program : Bytes) (path : Bytes) (connect : Bytes → Calls S) (s : S) where
  abbrev here : Calls S
  here = connect (codes "localhost:50051")

  pub main_put : main program [] (codes "put" ∷ (path ∷ [])) connect s ≡ (
      let (r, s') = here.put path s in
      let (ending, output) = after_put path r in (ending, output, s'))
  unfolding main parse_options run_command codes bytes_beq
  main_put = refl

  pub main_get : main program [] (codes "get" ∷ (path ∷ [])) connect s ≡ (
      let (r, s') = here.get path s in
      let (ending, output) = after_get path r in (ending, output, s'))
  unfolding main parse_options run_command codes bytes_beq
  main_get = refl
