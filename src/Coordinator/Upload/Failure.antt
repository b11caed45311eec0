-- ===== src/Coordinator/Upload/Failure.antt =====
-- Uploads that do not succeed.
use mathlib.Core.Bool.{false≢true}
use native.Mathlib.Decide.{dec_lt}
use toy_dfs.Prelude.{
  ℕ, zero, suc, ◌+◌, ◌*◌, ◌≤◌, ◌<◌, ◌≡◌, ◌≢◌, refl, ap, ◌∙◌, sym, Bool, true, false, List, [], ◌∷◌,
  ◌++◌, pos_part, arith, length, Bool-cases, inl, inr, Option-cases, ◌⊎◌, some, none, ℤ,
}
use toy_dfs.Bytes.{Bytes, is_empty, codes}
use toy_dfs.Grpc.{Status, status, internal, already_exists, status_ok, is_ok, PutFileRequest}
use toy_dfs.MetadataStore
use toy_dfs.MetadataStore.{ChunkInfo, is_some}
use toy_dfs.MetadataStore.Files.{file_at, file_at-get_file}
use toy_dfs.Coordinator.{Coordinator}
use toy_dfs.Coordinator.Environment.{Environment}
use toy_dfs.Coordinator.Placement.{select_nodes, select_nodes-keeps}
use toy_dfs.Coordinator.Distribution.{distribute}
use toy_dfs.Coordinator.Client.{chunk_name}
use toy_dfs.Coordinator.Upload.{
  put_file, store_file, put_chunks, read_data, chunk_size, num_chunks, PutResult, returned, Loop,
  finished, stopped, finish, chunk_at, fresh_number, replicas, chunk_info,
}
use toy_dfs.Coordinator.Upload.Chunks.{num_chunks_bounds, chunk_at_overflow}

abbrev is_finished : Loop → Bool
is_finished (finished chunks) = true
is_finished (stopped st) = false
is_finished Loop.undefined = false

abbrev pub looked_up : Bytes → Coordinator → Coordinator
looked_up filename c = record c { store = (MetadataStore.get_file filename c.store).1 }

module _ {W : Type 0} (env : Environment W) where
  select-store :
      (c : Coordinator) → (select_nodes env.iteration replicas (fresh_number c)).1.store ≡ c.store
  select-store c =
      ap (λ (d : Coordinator). d.store) (select_nodes-keeps env.iteration replicas (fresh_number c))

  -- The state after the nodes of a chunk have been selected.
  abbrev chosen : Coordinator → Coordinator
  chosen c = (select_nodes env.iteration replicas (fresh_number c)).1

  -- A round either ends the loop with a failure, or goes on with the next chunk.
  abbrev Ends : ℕ → ℕ → Bytes → List ChunkInfo → Coordinator → W → Type 0
  Ends n i file_data chunks c w =
      (l : Loop) × (w' : W) × (is_finished l ≡ false)
      × (put_chunks env (suc n) i file_data chunks c w ≡ (l, chosen c, w'))

  abbrev GoesOn : ℕ → ℕ → Bytes → List ChunkInfo → Coordinator → W → Type 0
  GoesOn n i file_data chunks c w =
      (content : Bytes) × (chunks' : List ChunkInfo) × (w' : W) × (chunk_at i file_data
        ≡ some content)
      × (put_chunks env (suc n) i file_data chunks c w
          ≡ put_chunks env n (i + 1) file_data chunks' (chosen c) w')

  put_chunks_step :
      (n i : ℕ) (file_data : Bytes) (chunks : List ChunkInfo) (c : Coordinator) (w : W)
      → Ends n i file_data chunks c w ⊎ GoesOn n i file_data chunks c w
  unfolding put_chunks
  put_chunks_step n i file_data chunks c w = elim (Bool-cases (is_empty ids)) [
    | inl none_left ↦ inl (
      stopped (status internal (codes "No nodes available for replication")),
      w,
      refl,
      rw none_left,
    )
    | inr a_node ↦ elim (Option-cases (chunk_at i file_data)) [
      | inl past ↦ inl (Loop.undefined, w, refl, ground arith)
      | inr (content, e) ↦
          let (st, w') = written content in
          elim (Bool-cases (is_ok st)) [
            | inl ok ↦
                inr (content, chunks ++ chunk_info c.chunk_id_counter ids ∷ [], w', e, ground arith)
            | inr failed ↦ inl (stopped st, w', refl, ground arith)
          ]
    ]
  ]
    where
      ids : List ℤ
      ids = (select_nodes env.iteration replicas (fresh_number c)).0

      written : Bytes → Status × W
      written content =
          distribute env.client (chosen c).registered_nodes (chunk_name c.chunk_id_counter) content
            (env.schedule c.chunk_id_counter) ids w

  -- The loop, however it ends, keeps what the selection of the nodes keeps.
  put_chunks-keeps :
      {A : Type 0} (f : Coordinator → A)
      → ((c : Coordinator) → f (chosen c) ≡ f c)
      → (n i : ℕ) (file_data : Bytes) (chunks : List ChunkInfo) (c : Coordinator) (w : W)
      → f (put_chunks env n i file_data chunks c w).1 ≡ f c
  put_chunks-keeps f kept zero i file_data chunks c w = unfold put_chunks in refl
  put_chunks-keeps f kept (suc n) i file_data chunks c w =
      elim (put_chunks_step n i file_data chunks c w) [
        | inl (l, w', open_end, e) ↦ rw e (kept c)
        | inr (content, chunks', w', at, e) ↦
            rw e (put_chunks-keeps f kept n (i + 1) file_data chunks' (chosen c) w' ∙ kept c)
      ]

  pub put_chunks-store :
      (n i : ℕ) (file_data : Bytes) (chunks : List ChunkInfo) (c : Coordinator) (w : W)
      → (put_chunks env n i file_data chunks c w).1.store ≡ c.store
  put_chunks-store = put_chunks-keeps (λ (c : Coordinator). c.store) select-store

  pub put_chunks-running :
      (n i : ℕ) (file_data : Bytes) (chunks : List ChunkInfo) (c : Coordinator) (w : W)
      → (put_chunks env n i file_data chunks c w).1.running ≡ c.running
  put_chunks-running =
      put_chunks-keeps (λ (c : Coordinator). c.running)
        (λ c.
          ap (λ (d : Coordinator). d.running)
            (select_nodes-keeps env.iteration replicas (fresh_number c)))

  finish-store :
      (filename : Bytes) (size : ℕ) (l : Loop × Coordinator × W)
      → (finish filename size l).0 ≢ returned status_ok true
      → (finish filename size l).1.store ≡ l.1.store
  finish-store filename size (finished chunks, c, w) failed = absurd (failed refl)
  finish-store filename size (stopped st, c, w) failed = refl
  finish-store filename size (Loop.undefined, c, w) failed = refl

  store_file-store :
      (filename file_data : Bytes) (c : Coordinator) (w : W)
      → (store_file env filename file_data c w).0 ≢ returned status_ok true
      → (store_file env filename file_data c w).1.store ≡ c.store
  store_file-store filename file_data c w failed = elim (Bool-cases (is_empty filename)) [
    | inl nameless ↦ unfold store_file in rw nameless
    | inr named ↦
        ap (λ (r : PutResult × Coordinator × W). r.1.store) (entered named)
        ∙ finish-store filename (length file_data) loop
            (λ e. failed (ap (λ (r : PutResult × Coordinator × W). r.0) (entered named) ∙ e))
        ∙ put_chunks-store _ 0 file_data [] c w
  ]
    where
      loop : Loop × Coordinator × W
      loop = put_chunks env (pos_part (num_chunks (length file_data))) 0 file_data [] c w

      entered :
          is_empty filename ≡ false
          → store_file env filename file_data c w ≡ finish filename (length file_data) loop
      entered named = unfold store_file in rw named

  put_file-store_file :
      (req : PutFileRequest) (reqs : List PutFileRequest) (c : Coordinator) (w : W)
      → is_some (file_at c.store req.filename) ≡ false
      → put_file env (req ∷ reqs) c w
        ≡ store_file env req.filename (read_data (req ∷ reqs)) (looked_up req.filename c) w
  unfolding put_file
  put_file-store_file req reqs c w h = rw h

  -- A path that names a file is refused, whatever the stream goes on to send.
  pub put_file_exists :
      (req : PutFileRequest) (reqs : List PutFileRequest) (c : Coordinator) (w : W)
      → is_some (file_at c.store req.filename) ≡ true
      → put_file env (req ∷ reqs) c w ≡ (
        returned (status already_exists (codes "File exists")) false,
        looked_up req.filename c,
        w,
      )
  unfolding put_file
  put_file_exists req reqs c w h = rw h

  -- An upload that does not report success leaves what every path names as it was.
  pub put_file_atomic :
      (reqs : List PutFileRequest) (other : Bytes) (c : Coordinator) (w : W)
      → (put_file env reqs c w).0 ≢ returned status_ok true
      → file_at (put_file env reqs c w).1.store other ≡ file_at c.store other
  put_file_atomic [] other c w failed =
      unfold put_file in
      ap (λ s. file_at s other) (store_file-store [] [] c w (unfold put_file in failed))
  put_file_atomic (req ∷ reqs) other c w failed =
      elim (Bool-cases (is_some (file_at c.store req.filename))) [
        | inl there ↦
            ap (λ (r : PutResult × Coordinator × W). file_at r.1.store other)
              (put_file_exists req reqs c w there)
            ∙ file_at-get_file req.filename other c.store
        | inr new ↦
            let e = put_file-store_file req reqs c w new in
            ap (λ (r : PutResult × Coordinator × W). file_at r.1.store other) e
            ∙ ap (λ s. file_at s other)
                (store_file-store req.filename (read_data (req ∷ reqs)) (looked_up req.filename c) w
                  (λ f. failed (ap (λ (r : PutResult × Coordinator × W). r.0) e ∙ f)))
            ∙ file_at-get_file req.filename other c.store
      ]

  -- A loop over more than 2048 chunks stops, or comes to the chunk whose start overflows.
  put_chunks_overflow :
      (n i : ℕ) (file_data : Bytes) (chunks : List ChunkInfo) (c : Coordinator) (w : W)
      → i ≤ 2048
      → 2048 < i + n
      → is_finished (put_chunks env n i file_data chunks c w).0 ≡ false
  put_chunks_overflow zero i file_data chunks c w h k = absurd (omega arith)
  put_chunks_overflow (suc n) i file_data chunks c w h k =
      elim (put_chunks_step n i file_data chunks c w) [
        | inl (l, w', open_end, e) ↦ rw e open_end
        | inr (content, chunks', w', at, e) ↦ elim (dec_lt i 2048) [
          | yes below ↦ rw e (
              put_chunks_overflow n (i + 1) file_data chunks' (chosen c) w' (omega arith)
                (omega arith))
          | no past ↦ absurd (none_there at (chunk_at_overflow i file_data (omega arith)))
        ]
      ]
    where
      none_there :
          {content : Bytes} → chunk_at i file_data ≡ some content → chunk_at i file_data ≡ none → ⊥
      none_there p q = cc

  finish-is_finished :
      (filename : Bytes) (size : ℕ) (l : Loop × Coordinator × W)
      → (finish filename size l).0 ≡ returned status_ok true
      → is_finished l.0 ≡ true
  finish-is_finished filename size (finished chunks, c, w) e = refl
  finish-is_finished filename size (stopped st, c, w) e = cc
  finish-is_finished filename size (Loop.undefined, c, w) e = cc

  store_file_too_large :
      (filename file_data : Bytes) (c : Coordinator) (w : W)
      → 2147483648 < length file_data
      → length file_data ≤ 2251799812636672
      → (store_file env filename file_data c w).0 ≢ returned status_ok true
  store_file_too_large filename file_data c w large room e = elim (Bool-cases (is_empty filename)) [
    | inl nameless ↦ nameless_fails nameless
    | inr named ↦ false≢true (
        sym (put_chunks_overflow rounds 0 file_data [] c w (omega arith) (omega (arith, bounds)))
        ∙ finish-is_finished filename (length file_data) _ (finishes named))
  ]
    where
      rounds : ℕ
      rounds = pos_part (num_chunks (length file_data))

      bounds :
          (length file_data ≤ rounds * chunk_size)
          × (rounds * chunk_size < length file_data + chunk_size)
      bounds = num_chunks_bounds (length file_data) room

      nameless_fails : is_empty filename ≡ true → ⊥
      nameless_fails h = unfold store_file in ground (arith, e)

      finishes :
          is_empty filename ≡ false
          → (finish filename (length file_data) (put_chunks env rounds 0 file_data [] c w)).0
            ≡ returned status_ok true
      finishes h = unfold store_file in ground (arith, e)

  -- No file of more than 2 GiB, up to the 2251799812636672 bytes whose chunks an `int` can count,
  -- can be uploaded: the call does not report success, it fails or its behaviour is undefined.
  pub put_file_too_large :
      (req : PutFileRequest) (reqs : List PutFileRequest) (c : Coordinator) (w : W)
      → 2147483648 < length (read_data (req ∷ reqs))
      → length (read_data (req ∷ reqs)) ≤ 2251799812636672
      → (put_file env (req ∷ reqs) c w).0 ≢ returned status_ok true
  put_file_too_large req reqs c w large room e =
      elim (Bool-cases (is_some (file_at c.store req.filename))) [
        | inl there ↦ absurd (
            refused
              (ap (λ (r : PutResult × Coordinator × W). r.0) (put_file_exists req reqs c w there)))
        | inr new ↦
            store_file_too_large req.filename (read_data (req ∷ reqs)) (looked_up req.filename c) w
              large room
              (sym (
                  ap (λ (r : PutResult × Coordinator × W). r.0)
                    (put_file-store_file req reqs c w new))
                ∙ e)
      ]
    where
      refused :
          (put_file env (req ∷ reqs) c w).0
            ≡ returned (status already_exists (codes "File exists")) false
          → ⊥
      refused p = cc
