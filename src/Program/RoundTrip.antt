-- ===== src/Program/RoundTrip.antt =====
-- A `put` of the client's program and a later `get`.
use toy_dfs.Prelude.{
  ℕ, suc, ◌+◌, ◌*◌, ◌≤◌, ◌≡◌, refl, ap, ◌∙◌, sym, subst, Bool, true, List, [], ◌∷◌, Option, some,
  length, All, int_max,
}
use toy_dfs.Bytes.{Bytes, codes, bytes_eq}
use toy_dfs.Grpc.{Status, StatusCode, status_ok}
use toy_dfs.Coordinator.{Coordinator, init}
use toy_dfs.Coordinator.Client.{IsReliable}
use toy_dfs.Coordinator.Environment.{Environment}
use toy_dfs.Coordinator.Upload
use toy_dfs.Coordinator.Upload.{PutResult, returned, read_data}
use toy_dfs.Coordinator.Upload.Chunks.{max_chunks, max_file_size}
use toy_dfs.Coordinator.Upload.Defined.{put_file-defined}
use toy_dfs.Coordinator.Download
use toy_dfs.Coordinator.Download.Stream.{joined}
use toy_dfs.Coordinator.System.{Request, run}
use toy_dfs.Coordinator.System.Refinement.{IsSmall}
use toy_dfs.Coordinator.System.Lasting.{Spares, run-lasting}
use toy_dfs.Coordinator.System.Uploads.{put_file_success}
use toy_dfs.Client.{Outcome, request, send_data, send_file, put_file_sync, get_file_sync, put_file}
use toy_dfs.Client.Transfers.{send_file-read_data}
use toy_dfs.Program.{Ending, exit, Output, out}
use toy_dfs.Program.ClientMain.{Calls, main}
use toy_dfs.Program.Service.{
  reply, service, after_put_done, put_file_done, put_file_sync_done, reply_success, main_put,
  main_get,
}

module _ {W : Type 0} (env : Environment W) (reliable : IsReliable env.client)
    (file : Bytes → Option Bytes) (takes : ℕ → Bool) (quota : ℕ) (number : StatusCode → ℕ)
    (now later : ℕ) (anything : Status × Bool) (program : Bytes) where
  abbrev calls : Bytes → Calls (Coordinator × W)
  calls address = service env file takes quota number now later anything

  called :
      (path content : Bytes) (c : Coordinator) (w : W)
      → file path ≡ some content
      → (calls (codes "localhost:50051")).put path (c, w) ≡ (
          let (p, c', w') = Upload.put_file env (send_file path content takes).0 c w in
          (put_file (put_file_sync path (some content) takes (λ sent. reply anything p)), (c', w')))
  unfolding service
  called path content c w there = rw there refl

  -- A `put` that exits with 0 has had its success from the coordinator.
  put_returned :
      (path content : Bytes) (c : Coordinator) (w : W)
      → ((j : ℕ) → takes j ≡ true)
      → file path ≡ some content
      → length content ≤ max_file_size
      → (main program [] (codes "put" ∷ (path ∷ [])) calls (c, w)).0 ≡ exit 0
      → (Upload.put_file env (send_file path content takes).0 c w).0 ≡ returned status_ok true
  put_returned path content c w taken there small e =
      let reqs = (send_file path content takes).0 in
      let p = (Upload.put_file env reqs c w).0 in
      let (sent, all) = send_file-read_data path content takes taken in
      let fine = after_put_done path _ (
        sym (
          ap (λ (t : Ending × List Output × (Coordinator × W)). t.0)
            (main_put program path calls (c, w)))
        ∙ e) in
      let synced = put_file_done _ (
        sym (ap (λ (t : Outcome Bool × (Coordinator × W)). t.0) (called path content c w there))
        ∙ fine) in
      let ok = put_file_sync_done path content takes (λ rs. reply anything p) sent synced in
      put_file_success env reliable reqs c w (
        reply_success anything p
          (put_file-defined env reqs c w (subst (λ l. length l ≤ max_file_size) (sym all) small))
          ok)

  get_printed :
      (path content : Bytes) (c : Coordinator) (w : W)
      → (Download.get_file env.client path quota c w).0 ≡ status_ok
      → joined (Download.get_file env.client path quota c w).1 ≡ content
      → let (ending, output, s) = main program [] (codes "get" ∷ (path ∷ [])) calls (c, w) in
        (ending ≡ exit 0) × (output ≡ out content ∷ [])
  unfolding service get_file_sync
  get_printed path content c w ok all =
      rw (main_get program path calls (c, w)) (rw (ok, all) (refl, refl))

  -- The messages begin with the name of the file.
  sent_first :
      (path content : Bytes)
      → takes 0 ≡ true
      → (send_file path content takes).0
        ≡ request path [] ∷ (send_data (suc (length content)) path content takes 1).0
  unfolding send_file
  sent_first path content first = rw first refl

  -- What the coordinator holds after a `put`.
  put_state :
      (path content : Bytes) (c : Coordinator) (w : W)
      → file path ≡ some content
      → (main program [] (codes "put" ∷ (path ∷ [])) calls (c, w)).2
        ≡ (let (p, c', w') = Upload.put_file env (send_file path content takes).0 c w in (c', w'))
  put_state path content c w there =
      ap (λ (t : Ending × List Output × (Coordinator × W)). t.2)
        (main_put program path calls (c, w))
      ∙ ap (λ (t : Outcome Bool × (Coordinator × W)). t.1) (called path content c w there)

  -- A download of the file after these calls succeeds.
  abbrev Fetched : List Request → Bytes → Bytes → PutResult × Coordinator × W → Type 0
  Fetched during path content (p, c, w) =
      let (answers, c', w') = run env during c w in
      ((Download.get_file env.client path quota c' w').0 ≡ status_ok)
      × (joined (Download.get_file env.client path quota c' w').1 ≡ content)

  sent_Fetched :
      (before during : List Request) (path content : Bytes) (w : W)
      → ((j : ℕ) → takes j ≡ true)
      → max_chunks ≤ quota
      → length content ≤ max_file_size
      → All IsSmall before
      → All IsSmall during
      → All (Spares path) during
      → max_chunks * (length before + length during + 1) ≤ int_max
      → let (answers, c1, w1) = run env before init w in
        let stored = Upload.put_file env (send_file path content takes).0 c1 w1 in
        stored.0 ≡ returned status_ok true → Fetched during path content stored
  sent_Fetched before during path content w taken long size small small' spared room =
      let (answers, c1, w1) = run env before init w in
      let (sent, all) = send_file-read_data path content takes taken in
      let later = (send_data (suc (length content)) path content takes 1).0 in
      let first = sent_first path content (taken 0) in
      let whole = ap read_data (sym first) ∙ all in
      subst
        (λ rs.
          (Upload.put_file env rs c1 w1).0 ≡ returned status_ok true
          → Fetched during path content (Upload.put_file env rs c1 w1))
        (sym first)
        (λ ok.
          let (fine, same) =
            run-lasting env reliable before during (request path []) later quota w small
              (subst (λ l. length l ≤ max_file_size) (sym whole) size) small' spared room long ok in
          (fine, same ∙ whole))

  -- Let the data nodes be reliable, the connection take every message of an upload and a download
  -- all its chunks. After any history of the service, if `put` of a local file of at most 2 GiB exits
  -- with 0, then after any further sequence of calls that does not delete the file, so short that the
  -- chunk numbers stay in the range of `int`, `get` of the file exits with 0 and prints exactly its
  -- bytes.
  pub main_get-main_put :
      (before during : List Request) (path content : Bytes) (w : W)
      → ((j : ℕ) → takes j ≡ true)
      → max_chunks ≤ quota
      → file path ≡ some content
      → length content ≤ max_file_size
      → All IsSmall before
      → All IsSmall during
      → All (Spares path) during
      → max_chunks * (length before + length during + 1) ≤ int_max
      → let (answers, c1, w1) = run env before init w in
        let (ending, output, s) = main program [] (codes "put" ∷ (path ∷ [])) calls (c1, w1) in
        ending ≡ exit 0
        → let (answers', c3, w3) = run env during s.0 s.1 in
          let (ending', output', s') = main program [] (codes "get" ∷ (path ∷ [])) calls (c3, w3) in
          (ending' ≡ exit 0) × (output' ≡ out content ∷ [])
  main_get-main_put before during path content w taken long there size small small' spared room e =
      let (answers, c1, w1) = run env before init w in
      let ok = put_returned path content c1 w1 taken there size e in
      let (fine, same) =
        sent_Fetched before during path content w taken long size small small' spared room ok in
      subst
        (λ s.
          let (answers', c3, w3) = run env during s.0 s.1 in
          let (ending', output', s') = main program [] (codes "get" ∷ (path ∷ [])) calls (c3, w3) in
          (ending' ≡ exit 0) × (output' ≡ out content ∷ []))
        (sym (put_state path content c1 w1 there)) (get_printed path content _ _ fine same)
