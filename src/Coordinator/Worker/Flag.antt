-- ===== src/Coordinator/Worker/Flag.antt =====
-- The flag of the cleanup thread under the handlers.
use toy_dfs.Prelude.{
  ℕ, ◌≡◌, refl, ◌∙◌, ℤ, true, List, [], ◌∷◌, length, pos_part, Bool-cases, Option-cases, inl, inr,
  int_eq,
}
use toy_dfs.Bytes.{Bytes, is_empty}
use toy_dfs.Grpc.{PutFileRequest}
use toy_dfs.MetadataStore.{is_some}
use toy_dfs.MetadataStore.Files.{file_at}
use toy_dfs.Coordinator.{Coordinator}
use toy_dfs.Coordinator.Environment.{Environment}
use toy_dfs.Coordinator.Registry.{register_data_node, find_conflict, extract_client_address}
use toy_dfs.Coordinator.Upload.{
  Loop, finished, stopped, finish, store_file, put_file, num_chunks, read_data,
}
use toy_dfs.Coordinator.Upload.Failure.{put_chunks-running, looked_up}
use toy_dfs.Coordinator.Download.{get_file}
use toy_dfs.Coordinator.Deletion.{delete_file}
use toy_dfs.Coordinator.System.{Request, upload, download, delete, join, cleanup, handle}
use toy_dfs.Coordinator.Worker.Stopping.{cleanup_round-running}

module _ {W : Type 0} (env : Environment W) where
  finish-running :
      (filename : Bytes) (size : ℕ) (l : Loop × Coordinator × W)
      → (finish filename size l).1.running ≡ l.1.running
  finish-running filename size (finished chunks, c, w) = refl
  finish-running filename size (stopped st, c, w) = refl
  finish-running filename size (Loop.undefined, c, w) = refl

  store_file-running :
      (filename file_data : Bytes) (c : Coordinator) (w : W)
      → (store_file env filename file_data c w).1.running ≡ c.running
  unfolding store_file
  store_file-running filename file_data c w = elim (Bool-cases (is_empty filename)) [
    | inl nameless ↦ rw (nameless, store_file) refl
    | inr named ↦
        let rounds = pos_part (num_chunks (length file_data)) in
        rw (named, store_file)
          (finish-running filename (length file_data) _
            ∙ put_chunks-running env rounds 0 file_data [] c w)
  ]

  put_file-running :
      (reqs : List PutFileRequest) (c : Coordinator) (w : W)
      → (put_file env reqs c w).1.running ≡ c.running
  unfolding put_file
  put_file-running [] c w = store_file-running [] [] c w
  put_file-running (req ∷ reqs) c w = elim (Bool-cases (is_some (file_at c.store req.filename))) [
    | inl there ↦ rw (there, put_file) refl
    | inr new ↦
        rw (new, put_file)
          (store_file-running req.filename (read_data (req ∷ reqs)) (looked_up req.filename c) w)
  ]

  get_file-running :
      (path : Bytes) (quota : ℕ) (c : Coordinator) (w : W)
      → (get_file env.client path quota c w).2.running ≡ c.running
  unfolding get_file
  get_file-running path quota c w = elim (Option-cases (file_at c.store path)) [
    | inl e ↦ rw (e, get_file) refl
    | inr (meta, e) ↦ rw (e, get_file) refl
  ]

  register-running :
      (peer : Bytes) (port : ℤ) (c : Coordinator)
      → (register_data_node peer port c).2.running ≡ c.running
  unfolding register_data_node
  register-running peer port c =
      elim (Option-cases (find_conflict (extract_client_address peer) port c.registered_nodes)) [
        | inl free ↦ rw (free, register_data_node) refl
        | inr (id, taken) ↦ rw (taken, register_data_node) refl
      ]

  delete_file-running :
      (now later : ℕ) (path : Bytes) (c : Coordinator)
      → c.running ≡ true
      → (delete_file now later path c).2.running ≡ true
  unfolding delete_file
  delete_file-running now later path c on = elim (Option-cases (file_at c.store path)) [
    | inl e ↦ rw (e, delete_file) on
    | inr (meta, e) ↦ rw (e, delete_file) refl
  ]

  -- A flag that is set stays set.
  pub handle-running :
      (request : Request) (c : Coordinator) (w : W)
      → c.running ≡ true
      → (handle env request c w).1.running ≡ true
  unfolding handle
  handle-running (upload reqs) c w on = put_file-running reqs c w ∙ on
  handle-running (download path quota) c w on = get_file-running path quota c w ∙ on
  handle-running (delete now later path) c w on = delete_file-running now later path c on
  handle-running (join peer port) c w on = register-running peer port c ∙ on
  handle-running (cleanup now) c w on = cleanup_round-running env now c w ∙ on
