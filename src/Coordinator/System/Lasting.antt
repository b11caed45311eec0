-- ===== src/Coordinator/System/Lasting.antt =====
-- How long a stored file stays.
use toy_dfs.Prelude.{
  ℕ, ◌+◌, ◌*◌, ◌≤◌, ◌≡◌, refl, ap, true, false, List, ◌∷◌, none, some, arith, All, Bool-cases, inl,
  inr, length, ◌==◌, ==-refl, int_max,
}
use toy_dfs.Bytes.{Bytes, bytes_eq, bytes_beq_iff}
use toy_dfs.Grpc.{Status, status_ok, PutFileRequest}
use toy_dfs.Coordinator.{Coordinator, init}
use toy_dfs.Coordinator.Client.{IsReliable}
use toy_dfs.Coordinator.Environment.{Environment}
use toy_dfs.Coordinator.Upload.{PutResult, returned, read_data, put_file}
use toy_dfs.Coordinator.Upload.Chunks.{max_chunks, max_file_size}
use toy_dfs.Coordinator.Download.{get_file}
use toy_dfs.Coordinator.Download.Stream.{joined}
use toy_dfs.Coordinator.System.{
  Request, upload, download, delete, join, cleanup, Answer, handle, run,
}
use toy_dfs.Coordinator.System.Spec.{
  Contents, Allowed, stores, stores_nothing, sends, breaks, sends_nothing, deletes, deletes_nothing,
  joins, cleans, Trace, done, next,
}
use toy_dfs.Coordinator.System.Represents.{Represents, init-Represents}
use toy_dfs.Coordinator.System.Refinement.{IsSmall, run-Represents}
use toy_dfs.Coordinator.System.Uploads.{upload-Allowed}
use toy_dfs.Coordinator.System.Downloads.{download-Allowed}

-- The request deletes no file at this path.
abbrev pub Spares : Bytes → Request → Type 0
Spares path (upload reqs) = Unit {0}
Spares path (download other quota) = Unit {0}
Spares path (delete now later other) = (other == path) ≡ false
Spares path (join peer port) = Unit {0}
Spares path (cleanup now) = Unit {0}

Allowed-keeps :
    {files files' : Contents} {r : Request} {answer : Answer} (path content : Bytes)
    → Allowed files r answer files'
    → Spares path r
    → files path ≡ some content
    → files' path ≡ some content
Allowed-keeps {files = files} path content (stores req reqs free) s e =
    elim (Bool-cases (req.filename == path)) [
      | inl same ↦ absurd (taken same)
      | inr other ↦ rw other e
    ]
  where
    taken : (req.filename == path) ≡ true → ⊥
    taken same = ground (arith, free, ap files ((bytes_beq_iff req.filename path).0 same))
Allowed-keeps path content (stores_nothing reqs p failed why) s e = e
Allowed-keeps path content (sends other bytes quota messages at same) s e = e
Allowed-keeps path content (breaks other bytes rest quota st messages at short bad same) s e = e
Allowed-keeps path content (sends_nothing other quota free) s e = e
Allowed-keeps path content (deletes now later other bytes at) s e = rw s e
Allowed-keeps path content (deletes_nothing now later other free) s e = e
Allowed-keeps path content (joins peer port resp) s e = e
Allowed-keeps path content (cleans now log) s e = e

Trace-keeps :
    {files files' : Contents} {rs : List Request} {answers : List Answer} (path content : Bytes)
    → Trace files rs answers files'
    → All (Spares path) rs
    → files path ≡ some content
    → files' path ≡ some content
Trace-keeps path content done spared e = e
Trace-keeps path content (next allowed trace) spared e =
    Trace-keeps path content trace spared.1 (Allowed-keeps path content allowed spared.0 e)

-- An upload that is answered by a success leaves its data in the map.
Allowed-stored :
    {req : PutFileRequest} {reqs : List PutFileRequest} {p : PutResult} {files files' : Contents}
    → Allowed files (upload (req ∷ reqs)) (Answer.uploaded p) files'
    → p ≡ returned status_ok true
    → files' req.filename ≡ some (read_data (req ∷ reqs))
Allowed-stored (stores req reqs free) e = rw (==-refl req.filename) refl
Allowed-stored (stores_nothing reqs p failed why) e = absurd (failed e)

-- A download through a stream that takes enough messages is answered by the content.
Allowed-sent :
    {files files' : Contents} {path : Bytes} {quota : ℕ} {st : Status} {messages : List Bytes}
    (content : Bytes)
    → Allowed files (download path quota) (Answer.sent st messages) files'
    → max_chunks ≤ quota
    → files path ≡ some content
    → (st ≡ status_ok) × (joined messages ≡ content)
Allowed-sent content (sends path bytes quota messages at same) long e =
    (refl, ground (arith, same, at, e))
Allowed-sent content (breaks path bytes rest quota st messages at short bad same) long e =
    absurd (omega arith)
Allowed-sent content (sends_nothing path quota free) long e = cc

module _ {W : Type 0} (env : Environment W) (reliable : IsReliable env.client) where
  -- From a state in which the path has this content.
  lasting :
      (during : List Request) (path content : Bytes) (quota : ℕ) (files : Contents) (k : ℕ)
      (c : Coordinator) (w : W)
      → All IsSmall during
      → All (Spares path) during
      → c.chunk_id_counter + max_chunks * length during ≤ int_max
      → k + length during ≤ int_max
      → max_chunks ≤ quota
      → Represents env.client files k c w
      → files path ≡ some content
      → let (answers, c', w') = run env during c w in
        let (st, messages, c'', w'') = get_file env.client path quota c' w' in
        (st ≡ status_ok) × (joined messages ≡ content)
  unfolding handle
  lasting during path content quota files k c w small spared room ids long r e =
      let (answers, c', w') = run env during c w in
      let (files', k', trace, r', count, used) =
        run-Represents env reliable during files k c w small room ids r in
      let (allowed, r'', same) = download-Allowed env reliable path quota files' k' c' w' r' in
      Allowed-sent content allowed long (Trace-keeps path content trace spared e)

  -- Let the data nodes be reliable. A file of at most 2 GiB whose upload reported success, after any
  -- history of the service, lasts: after any further sequence of uploads, downloads, deletions of
  -- other paths, registrations and rounds of the cleanup, so short that the chunk numbers stay in the
  -- range of `int`, a download through a stream that takes all its chunks returns OK and exactly the
  -- bytes that were sent.
  pub run-lasting :
      (before during : List Request) (req : PutFileRequest) (reqs : List PutFileRequest) (quota : ℕ)
      (w : W)
      → All IsSmall before
      → length (read_data (req ∷ reqs)) ≤ max_file_size
      → All IsSmall during
      → All (Spares req.filename) during
      → max_chunks * (length before + length during + 1) ≤ int_max
      → max_chunks ≤ quota
      → let (answers, c1, w1) = run env before init w in
        let (p, c2, w2) = put_file env (req ∷ reqs) c1 w1 in
        p ≡ returned status_ok true
        → let (answers', c3, w3) = run env during c2 w2 in
          let (st, messages, c4, w4) = get_file env.client req.filename quota c3 w3 in
          (st ≡ status_ok) × (joined messages ≡ read_data (req ∷ reqs))
  run-lasting before during req reqs quota w small size small' spared room long ok =
      let (answers, c1, w1) = run env before init w in
      let (files, k, trace, r, count, ids) =
        run-Represents env reliable before (λ path. none) 1 init w small
          (omega (arith, counter_start)) (omega arith) (init-Represents env.client w) in
      let (p, c2, w2) = put_file env (req ∷ reqs) c1 w1 in
      let (files', allowed, r', count') =
        upload-Allowed env reliable (req ∷ reqs) files k c1 w1 r size
          (omega (arith, counter_start, count)) in
      lasting during req.filename (read_data (req ∷ reqs)) quota files' k c2 w2 small' spared
        (omega (arith, counter_start, count, count')) (omega (arith, ids)) long r'
        (Allowed-stored allowed ok)
    where
      counter_start : init.chunk_id_counter ≡ 0
      counter_start = unfold init in refl
