-- ===== src/Coordinator/System/Refinement.antt =====
-- Sequences of calls, against the contract.
use toy_dfs.Prelude.{
  ℕ, suc, ◌+◌, ◌*◌, ◌<◌, ◌≤◌, ◌≡◌, refl, Bool, true, false, List, [], ◌∷◌, none, arith, All,
  int_max, length, if◌then◌else◌,
}
use toy_dfs.Coordinator.{Coordinator, init}
use toy_dfs.Coordinator.Client.{IsReliable}
use toy_dfs.Coordinator.Environment.{Environment}
use toy_dfs.Coordinator.Registry.{register_data_node}
use toy_dfs.Coordinator.Upload.{read_data}
use toy_dfs.Coordinator.Upload.Chunks.{max_chunks, max_file_size}
use toy_dfs.Coordinator.System.{
  Request, upload, download, delete, join, cleanup, Answer, handle, run,
}
use toy_dfs.Coordinator.System.Spec.{Contents, Allowed, joins, cleans, Trace, done, next}
use toy_dfs.Coordinator.System.Represents.{Represents, init-Represents}
use toy_dfs.Coordinator.System.Uploads.{upload-Allowed}
use toy_dfs.Coordinator.System.Downloads.{download-Allowed}
use toy_dfs.Coordinator.System.Deletions.{delete-Allowed}
use toy_dfs.Coordinator.System.Joins.{join-Represents}
use toy_dfs.Coordinator.System.Cleanups.{cleanup-Represents}

-- No upload is larger than 2 GiB.
abbrev pub IsSmall : Request → Type 0
IsSmall (upload reqs) = length (read_data reqs) ≤ max_file_size
IsSmall (download path quota) = Unit {0}
IsSmall (delete now later path) = Unit {0}
IsSmall (join peer port) = Unit {0}
IsSmall (cleanup now) = Unit {0}

module _ {W : Type 0} (env : Environment W) (reliable : IsReliable env.client) where
  -- One call: what it answers, and what it uses up of the chunk numbers and of the node ids.
  abbrev Step : Request → Contents → ℕ → Coordinator → Answer × Coordinator × W → Type 0
  Step request files k c (answer, c', w') =
      (files' : Contents) × (k' : ℕ) × Allowed files request answer files'
      × Represents env.client files' k' c' w'
      × (c'.chunk_id_counter ≤ c.chunk_id_counter + max_chunks)
      × (k' ≤ suc k)

  handle-Allowed :
      (request : Request) (files : Contents) (k : ℕ) (c : Coordinator) (w : W)
      → IsSmall request
      → c.chunk_id_counter + max_chunks ≤ int_max
      → k < int_max
      → Represents env.client files k c w
      → Step request files k c (handle env request c w)
  unfolding handle
  handle-Allowed (upload reqs) files k c w small room ids r =
      let (files', allowed, r', count) =
        upload-Allowed env reliable reqs files k c w r small room in
      (files', k, allowed, r', count, omega arith)
  handle-Allowed (download path quota) files k c w small room ids r =
      let (allowed, r', count) = download-Allowed env reliable path quota files k c w r in
      (files, k, allowed, r', omega (arith, count), omega arith)
  handle-Allowed (delete now later path) files k c w small room ids r =
      let (files', allowed, r', count) = delete-Allowed env now later path files k c w r in
      (files', k, allowed, r', omega (arith, count), omega arith)
  handle-Allowed (join peer port) files k c w small room ids r =
      let (r', count) = join-Represents env.client peer port files k c w ids r in
      (
        files,
        if (register_data_node peer port c).1.success then suc k else k,
        joins peer port _,
        r',
        omega (arith, count),
        at_most (register_data_node peer port c).1.success,
      )
    where
      at_most : (b : Bool) → (if b then suc k else k) ≤ suc k
      at_most true = omega arith
      at_most false = omega arith
  handle-Allowed (cleanup now) files k c w small room ids r =
      let (r', count) = cleanup-Represents env.client reliable now files k c w (omega arith) r in
      (files, k, cleans now _, r', omega (arith, count), omega arith)

  pub run-Represents :
      (rs : List Request) (files : Contents) (k : ℕ) (c : Coordinator) (w : W)
      → All IsSmall rs
      → c.chunk_id_counter + max_chunks * length rs ≤ int_max
      → k + length rs ≤ int_max
      → Represents env.client files k c w
      → let (answers, c', w') = run env rs c w in
        (files' : Contents) × (k' : ℕ) × Trace files rs answers files'
        × Represents env.client files' k' c' w'
        × (c'.chunk_id_counter ≤ c.chunk_id_counter + max_chunks * length rs)
        × (k' ≤ k + length rs)
  unfolding run
  run-Represents [] files k c w small room ids r = (files, k, done, r, omega arith, omega arith)
  run-Represents (request ∷ rs) files k c w small room ids r =
      let (answer, c', w') = handle env request c w in
      let (files', k', allowed, r', count, used) =
        handle-Allowed request files k c w small.0 (omega arith) (omega arith) r in
      let (files'', k'', trace, r'', count', used') =
        run-Represents rs files' k' c' w' small.1 (omega (arith, count)) (omega (arith, used)) r' in
      (
        files'',
        k'',
        next allowed trace,
        r'',
        omega (arith, count, count'),
        omega (arith, used, used'),
      )

  -- Let the data nodes be reliable. To any sequence of uploads of at most 2 GiB each, downloads,
  -- deletions, registrations and rounds of the cleanup, that is so short that the chunk numbers stay
  -- in the range of `int`, the freshly started service answers as a map from paths to contents
  -- allows: an upload succeeds only at a free path and adds exactly the bytes sent, or it has no
  -- effect; a download gives those bytes, or breaks off with an error and only with its stream; a
  -- deletion takes the path away; nothing else changes a file.
  pub run-Trace :
      (rs : List Request) (w : W)
      → All IsSmall rs
      → max_chunks * length rs ≤ int_max
      → let (answers, c', w') = run env rs init w in
        (files : Contents) × Trace (λ path. none) rs answers files
  run-Trace rs w small room =
      let (files, k, trace, r, count, ids) =
        run-Represents rs (λ path. none) 1 init w small (omega (arith, counter_start)) (omega arith)
          (init-Represents env.client w) in
      (files, trace)
    where
      counter_start : init.chunk_id_counter ≡ 0
      counter_start = unfold init in refl
