-- ===== src/Coordinator/RoundTrip.antt =====
-- An upload that reports success can be downloaded.
use toy_dfs.Prelude.{
  ℕ, ◌+◌, ◌*◌, ◌≤◌, ◌<◌, ◌≡◌, refl, ap, ◌∙◌, sym, subst, true, false, List, [], ◌∷◌, some, pos_part,
  if◌then◌else◌, arith, length, int_max, Bool-cases, inl, inr, ==-refl, ◌==◌, All,
}
use toy_dfs.Bytes.{Bytes, is_empty, bytes_eq}
use toy_dfs.Grpc.{status_ok, PutFileRequest}
use toy_dfs.MetadataStore
use toy_dfs.MetadataStore.{MetadataStore, ChunkInfo, FileMeta, is_some}
use toy_dfs.MetadataStore.Files.{file_at, file_at-put_file}
use toy_dfs.Coordinator.{Coordinator}
use toy_dfs.Coordinator.Client.{IsReliable}
use toy_dfs.Coordinator.Environment.{Environment}
use toy_dfs.Coordinator.Upload.{
  put_file, store_file, put_chunks, read_data, chunk_size, num_chunks, returned, Loop, finished,
  stopped, finish, file_meta,
}
use toy_dfs.Coordinator.Upload.Chunks.{num_chunks_bounds, max_file_size, max_chunks}
use toy_dfs.Coordinator.Upload.Failure.{looked_up}
use toy_dfs.Coordinator.Upload.Stored.{Stored, IsNumbered, put_chunks-Stored}
use toy_dfs.Coordinator.Download.{get_file, send_chunks}
use toy_dfs.Coordinator.Download.Stream.{joined, send_chunks-Stored}

module _ {W : Type 0} (env : Environment W) (reliable : IsReliable env.client) where
  -- The file is entered, its chunks are on the nodes that it names, and they hold its data.
  pub record IsUploaded (filename file_data : Bytes) (c c' : Coordinator) (w w' : W) : Type 0 where
    pub chunks : List ChunkInfo
    pub entered : file_at c'.store filename ≡ some (file_meta (length file_data) chunks)
    pub others :
        (other : Bytes)
        → file_at c'.store other ≡ (
            if filename == other
            then some (file_meta (length file_data) chunks)
            else file_at c.store other)
    pub same_nodes : c'.registered_nodes ≡ c.registered_nodes
    pub few : length chunks ≤ max_chunks
    pub stored : Stored env.client c'.registered_nodes c'.chunk_id_counter w' chunks file_data
    pub numbered : All (IsNumbered c.chunk_id_counter c'.chunk_id_counter) chunks

  -- The loop's end, where the call reports success.
  finished_loop :
      (filename : Bytes) (size : ℕ) (l : Loop × Coordinator × W) (c' : Coordinator) (w' : W)
      → finish filename size l ≡ (returned status_ok true, c', w')
      → (chunks : List ChunkInfo) × (last : Coordinator) × (l ≡ (finished chunks, last, w'))
        × (c' ≡ record last {
          store = MetadataStore.put_file filename (file_meta size chunks) last.store;
        })
  finished_loop filename size (finished chunks, last, w'') c' w' e =
      (chunks, last, ground arith, ground arith)
  finished_loop filename size (stopped st, last, w'') c' w' e = cc
  finished_loop filename size (Loop.undefined, last, w'') c' w' e = cc

  store_file-IsUploaded :
      (filename file_data : Bytes) (c c' : Coordinator) (w w' : W)
      → length file_data ≤ max_file_size
      → c.chunk_id_counter + max_chunks ≤ int_max
      → store_file env filename file_data c w ≡ (returned status_ok true, c', w')
      → IsUploaded filename file_data c c' w w'
  store_file-IsUploaded filename file_data c c' w w' small fresh e =
      elim (Bool-cases (is_empty filename)) [
        | inl nameless ↦ absurd (rejected nameless)
        | inr named ↦ uploaded (finished_loop filename size loop c' w' (looped named))
      ]
    where
      size : ℕ
      size = length file_data

      rounds : ℕ
      rounds = pos_part (num_chunks size)

      bounds : (size ≤ rounds * chunk_size) × (rounds * chunk_size < size + chunk_size)
      bounds = num_chunks_bounds size (omega arith)

      loop : Loop × Coordinator × W
      loop = put_chunks env rounds 0 file_data [] c w

      rejected : is_empty filename ≡ true → ⊥
      rejected h = unfold store_file in ground (arith, e)

      looped :
          is_empty filename ≡ false → finish filename size loop ≡ (returned status_ok true, c', w')
      looped h = unfold store_file in ground (arith, e)

      uploaded :
          (chunks : List ChunkInfo) × (last : Coordinator) × (loop ≡ (finished chunks, last, w'))
            × (c' ≡ record last {
              store = MetadataStore.put_file filename (file_meta size chunks) last.store;
            })
          → IsUploaded filename file_data c c' w w'
      uploaded (chunks, last, ended, final) =
          let (more, whole, length_more, count, stored, nodes, store, survives, numbered) =
            put_chunks-Stored env reliable rounds 0 file_data [] chunks c last w w'
              (omega (arith, bounds)) (omega (arith, bounds)) (omega (arith, bounds)) ended in
          let moved = ap (λ (d : Coordinator). d.registered_nodes) final in
          let all : more ≡ chunks = sym whole in
          record {
            chunks = chunks;
            entered =
                ap (λ (d : Coordinator). file_at d.store filename) final
                ∙ file_at-put_file filename filename (file_meta size chunks) last.store
                ∙ ap (λ b. if b then some (file_meta size chunks) else file_at last.store filename)
                    (==-refl filename);
            others = λ other.
                ap (λ (d : Coordinator). file_at d.store other) final
                ∙ file_at-put_file filename other (file_meta size chunks) last.store
                ∙ ap
                    (λ (t : MetadataStore).
                      if filename == other then some (file_meta size chunks) else file_at t other)
                    store;
            same_nodes = moved ∙ nodes;
            few = omega (arith, bounds, length_more, ap length all);
            stored =
                subst (λ n. Stored env.client c'.registered_nodes n w' chunks file_data)
                  (sym (ap (λ (d : Coordinator). d.chunk_id_counter) final))
                  (subst (λ ns. Stored env.client ns last.chunk_id_counter w' chunks file_data)
                    (sym (moved ∙ nodes))
                    (subst
                      (λ l.
                        Stored env.client c.registered_nodes last.chunk_id_counter w' l file_data)
                      all stored));
            numbered =
                subst (λ n. All (IsNumbered c.chunk_id_counter n) chunks)
                  (sym (ap (λ (d : Coordinator). d.chunk_id_counter) final))
                  (subst (All (IsNumbered c.chunk_id_counter last.chunk_id_counter)) all numbered);
          }

  -- The call got past the test on the first message.
  accepted :
      (req : PutFileRequest) (reqs : List PutFileRequest) (c c' : Coordinator) (w w' : W)
      → put_file env (req ∷ reqs) c w ≡ (returned status_ok true, c', w')
      → store_file env req.filename
          (read_data (req ∷ reqs))
          (record c { store = (MetadataStore.get_file req.filename c.store).1 })
          w
        ≡ (returned status_ok true, c', w')
  unfolding put_file
  accepted req reqs c c' w w' e = ground arith

  pub get_file_entered :
      (filename : Bytes) (quota : ℕ) (meta : FileMeta) (c : Coordinator) (w : W)
      → file_at c.store filename ≡ some meta
      → let (st, messages, c', w') = get_file env.client filename quota c w in
        (st ≡ (send_chunks env.client c.registered_nodes meta.chunks quota w).0)
        × (messages ≡ (send_chunks env.client c.registered_nodes meta.chunks quota w).1)
  unfolding get_file
  get_file_entered filename quota meta c w e = rw (e, get_file) (refl, refl)

  -- An upload that reports success has got past the lookup, and its file is stored.
  pub put_file-IsUploaded :
      (req : PutFileRequest) (reqs : List PutFileRequest) (c c' : Coordinator) (w w' : W)
      → length (read_data (req ∷ reqs)) ≤ max_file_size
      → c.chunk_id_counter + max_chunks ≤ int_max
      → put_file env (req ∷ reqs) c w ≡ (returned status_ok true, c', w')
      → IsUploaded req.filename (read_data (req ∷ reqs)) (looked_up req.filename c) c' w w'
  put_file-IsUploaded req reqs c c' w w' small fresh e =
      store_file-IsUploaded req.filename (read_data (req ∷ reqs)) _ c' w w' small fresh
        (accepted req reqs c c' w w' e)

  -- Let the data nodes be reliable and the chunk numbers stay in the range of `int`. A file of at
  -- most 2 GiB whose upload reports success can be downloaded at once: through a stream that takes
  -- all its chunks the download returns OK and exactly the bytes that were sent.
  pub get_file-put_file :
      (req : PutFileRequest) (reqs : List PutFileRequest) (quota : ℕ) (c c' : Coordinator)
      (w w' : W)
      → length (read_data (req ∷ reqs)) ≤ max_file_size
      → c.chunk_id_counter + max_chunks ≤ int_max
      → max_chunks ≤ quota
      → put_file env (req ∷ reqs) c w ≡ (returned status_ok true, c', w')
      → let (st, messages, c'', w'') = get_file env.client req.filename quota c' w' in
        (st ≡ status_ok) × (joined messages ≡ read_data (req ∷ reqs))
  get_file-put_file req reqs quota c c' w w' small fresh room e =
      let up = put_file-IsUploaded req reqs c c' w w' small fresh e in
      let (count, prefix, whole, broken) =
        send_chunks-Stored env.client reliable c'.registered_nodes c'.chunk_id_counter up.chunks
          (read_data (req ∷ reqs)) quota w' up.stored in
      let (st, messages) = get_file_entered req.filename quota _ c' w' up.entered in
      let (ok, all) = whole (omega (arith, up.few)) in (st ∙ ok, ap joined messages ∙ all)
