-- ===== src/Coordinator/Upload/Defined.antt =====
-- Which uploads have defined behaviour.
use toy_dfs.Prelude.{
  ℕ, zero, suc, ◌+◌, ◌*◌, ◌≤◌, ◌≢◌, refl, List, [], ◌∷◌, ℤ, int_max, length, pos_part, arith,
  Bool-cases, inl, inr,
}
use toy_dfs.Bytes.{Bytes, is_empty}
use toy_dfs.Grpc.{Status, is_ok, PutFileRequest}
use toy_dfs.MetadataStore.{ChunkInfo, is_some}
use toy_dfs.MetadataStore.Files.{file_at}
use toy_dfs.Coordinator.{Coordinator}
use toy_dfs.Coordinator.Client.{chunk_name}
use toy_dfs.Coordinator.Environment.{Environment}
use toy_dfs.Coordinator.Placement.{select_nodes}
use toy_dfs.Coordinator.Distribution.{distribute}
use toy_dfs.Coordinator.Upload.{
  chunk_size, replicas, Loop, finished, stopped, fresh_number, put_chunks, finish, store_file,
  put_file, read_data, num_chunks, PutResult,
}
use toy_dfs.Coordinator.Upload.Chunks.{chunk_at-piece, piece, num_chunks_bounds, max_file_size}
use toy_dfs.Coordinator.Upload.Failure.{looked_up}

module _ {W : Type 0} (env : Environment W) where
  pub put_chunks-defined :
      (n i : ℕ) (file_data : Bytes) (chunks : List ChunkInfo) (c : Coordinator) (w : W)
      → (i + n) * chunk_size ≤ int_max + chunk_size
      → (put_chunks env n i file_data chunks c w).0 ≢ Loop.undefined
  unfolding put_chunks
  put_chunks-defined zero i file_data chunks c w room = λ e. cc
  put_chunks-defined (suc n) i file_data chunks c w room = elim (Bool-cases (is_empty ids)) [
    | inl none_left ↦ rw (none_left, put_chunks) (λ e. cc)
    | inr a_node ↦
        let at = chunk_at-piece i file_data (omega arith) in
        elim (Bool-cases (is_ok written.0)) [
          | inl ok ↦
              rw (a_node, at, ok, put_chunks)
                (put_chunks-defined n (i + 1) file_data _ c' written.1 (omega arith))
          | inr bad ↦ rw (a_node, at, bad, put_chunks) (λ e. cc)
        ]
  ]
    where
      ids : List ℤ
      ids = (select_nodes env.iteration replicas (fresh_number c)).0

      c' : Coordinator
      c' = (select_nodes env.iteration replicas (fresh_number c)).1

      written : Status × W
      written =
          distribute env.client c'.registered_nodes (chunk_name c.chunk_id_counter)
            (piece i file_data) (env.schedule c.chunk_id_counter) ids w

  finish-defined :
      (filename : Bytes) (size : ℕ) (l : Loop × Coordinator × W)
      → l.0 ≢ Loop.undefined
      → (finish filename size l).0 ≢ PutResult.undefined
  finish-defined filename size (finished chunks, c, w) h e = cc
  finish-defined filename size (stopped st, c, w) h e = cc
  finish-defined filename size (Loop.undefined, c, w) h e = h refl

  store_file-defined :
      (filename file_data : Bytes) (c : Coordinator) (w : W)
      → length file_data ≤ max_file_size
      → (store_file env filename file_data c w).0 ≢ PutResult.undefined
  unfolding store_file
  store_file-defined filename file_data c w small = elim (Bool-cases (is_empty filename)) [
    | inl nameless ↦ rw (nameless, store_file) (λ e. cc)
    | inr named ↦
        let rounds = pos_part (num_chunks (length file_data)) in
        rw (named, store_file)
          (finish-defined filename (length file_data) _ (
            put_chunks-defined rounds 0 file_data [] c w
              (omega (arith, num_chunks_bounds (length file_data) (omega arith)))))
  ]

  -- An upload of at most 2 GiB never has undefined behaviour, whatever the data nodes do: it returns
  -- a status.
  pub put_file-defined :
      (reqs : List PutFileRequest) (c : Coordinator) (w : W)
      → length (read_data reqs) ≤ max_file_size
      → (put_file env reqs c w).0 ≢ PutResult.undefined
  unfolding put_file
  put_file-defined [] c w small = store_file-defined [] [] c w small
  put_file-defined (req ∷ reqs) c w small =
      elim (Bool-cases (is_some (file_at c.store req.filename))) [
        | inl there ↦ rw (there, put_file) (λ e. cc)
        | inr new ↦
            rw (new, put_file)
              (store_file-defined req.filename (read_data (req ∷ reqs)) (looked_up req.filename c) w
                small)
      ]
