-- ===== src/Coordinator/System/Uploads.antt =====
-- Uploads, against the contract.
use mathlib.Core.Bool.{true≢false}
use toy_dfs.Prelude.{
  ℕ, ◌+◌, ◌≤◌, ◌≡◌, ◌≢◌, refl, ap, ◌∙◌, sym, subst, Bool, true, false, List, [], ◌∷◌, none, some,
  length, int_max, Bool-cases, Option-cases, inl, inr,
}
use toy_dfs.Bytes.{Bytes, is_empty, codes, bytes_eq}
use toy_dfs.Grpc.{status, status_ok, already_exists, PutFileRequest}
use toy_dfs.MetadataStore.{is_some}
use toy_dfs.MetadataStore.Files.{file_at}
use toy_dfs.Coordinator.{Coordinator}
use toy_dfs.Coordinator.Client.{IsReliable}
use toy_dfs.Coordinator.Environment.{Environment}
use toy_dfs.Coordinator.RoundTrip.{put_file-IsUploaded}
use toy_dfs.Coordinator.Upload.{
  put_file, read_data, PutResult, returned, store_file, finish, Loop, finished, stopped,
}
use toy_dfs.Coordinator.Upload.Chunks.{max_chunks, max_file_size}
use toy_dfs.Coordinator.Upload.Failure.{put_file_exists, put_file_atomic}
use toy_dfs.Coordinator.Upload.Keeps.{put_file-Uses, put_file-deleted}
use toy_dfs.Coordinator.System.{Request, Answer}
use toy_dfs.Coordinator.System.Spec.{Contents, Allowed, Explained, assign, stores, stores_nothing}
use toy_dfs.Coordinator.System.Represents.{Represents, Agree-is_some, moved-Represents}
use toy_dfs.Coordinator.System.Stores.{Uses-RegistryInv, survivors, stored-Represents}

-- The response's `success`.
abbrev pub success : PutResult → Bool
success (returned st b) = b
success PutResult.undefined = false

module _ {W : Type 0} (env : Environment W) (reliable : IsReliable env.client) where
  finish_success :
      (filename : Bytes) (size : ℕ) (l : Loop × Coordinator × W)
      → success (finish filename size l).0 ≡ true
      → (finish filename size l).0 ≡ returned status_ok true
  finish_success filename size (finished chunks, c, w) e = refl
  finish_success filename size (stopped st, c, w) e = cc
  finish_success filename size (Loop.undefined, c, w) e = cc

  store_file_success :
      (filename file_data : Bytes) (c : Coordinator) (w : W)
      → success (store_file env filename file_data c w).0 ≡ true
      → (store_file env filename file_data c w).0 ≡ returned status_ok true
  unfolding store_file
  store_file_success filename file_data c w = elim (Bool-cases (is_empty filename)) [
    | inl nameless ↦ rw (nameless, store_file) (λ e. cc)
    | inr named ↦ rw (named, store_file) (finish_success filename (length file_data) _)
  ]

  -- A success comes with the status OK.
  pub put_file_success :
      (reqs : List PutFileRequest) (c : Coordinator) (w : W)
      → success (put_file env reqs c w).0 ≡ true
      → (put_file env reqs c w).0 ≡ returned status_ok true
  unfolding put_file
  put_file_success [] c w = store_file_success [] [] c w
  put_file_success (req ∷ reqs) c w = elim (Bool-cases (is_some (file_at c.store req.filename))) [
    | inl there ↦ rw (there, put_file) (λ e. cc)
    | inr new ↦ rw (new, put_file) (store_file_success req.filename (read_data (req ∷ reqs)) _ w)
  ]

  no_stream : (c : Coordinator) (w : W) → (put_file env [] c w).0 ≢ returned status_ok true
  unfolding put_file store_file
  no_stream c w e = cc

  explained :
      (reqs : List PutFileRequest) (files : Contents) (k : ℕ) (c : Coordinator) (w : W)
      → Represents env.client files k c w
      → Explained files reqs (put_file env reqs c w).0
  explained [] files k c w r = tt
  explained (req ∷ reqs) files k c w r = λ there.
      ap (λ (p : PutResult × Coordinator × W). p.0)
        (put_file_exists env req reqs c w (
          Agree-is_some env.client c.registered_nodes c.chunk_id_counter w _ (files req.filename)
            (r.agree req.filename)
          ∙ there))

  -- A failure changes nothing.
  failing :
      (reqs : List PutFileRequest) (files : Contents) (k : ℕ) (c : Coordinator) (w : W)
      → Represents env.client files k c w
      → length (read_data reqs) ≤ max_file_size
      → c.chunk_id_counter + max_chunks ≤ int_max
      → (put_file env reqs c w).0 ≢ returned status_ok true
      → Represents env.client files k (put_file env reqs c w).1 (put_file env reqs c w).2
  failing reqs files k c w r small room failed =
      let u = put_file-Uses env reliable reqs c w small room in
      moved-Represents env.client files k k c _ w _
        (Uses-RegistryInv env reliable max_chunks k c _ w _ u r.registry)
        (λ path. put_file_atomic env reqs path c w failed) (put_file-deleted env reliable reqs c w)
        u.grows (survivors env reliable max_chunks c _ w _ u) r

  -- A success says that the path was free.
  was_free :
      (req : PutFileRequest) (reqs : List PutFileRequest) (files : Contents) (k : ℕ)
      (c : Coordinator) (w : W)
      → Represents env.client files k c w
      → (put_file env (req ∷ reqs) c w).0 ≡ returned status_ok true
      → files req.filename ≡ none
  was_free req reqs files k c w r ok = elim (Option-cases (files req.filename)) [
    | inl free ↦ free
    | inr (bytes, taken) ↦
        absurd (refused (sym (explained (req ∷ reqs) files k c w r (ap is_some taken)) ∙ ok))
  ]
    where
      refused :
          returned (status already_exists (codes "File exists")) false ≡ returned status_ok true → ⊥
      refused e = cc

  abbrev Answered :
      List PutFileRequest → Contents → ℕ → Coordinator → PutResult × Coordinator × W → Type 0
  Answered reqs files k c (p, c', w') =
      (files' : Contents) × Allowed files (Request.upload reqs) (Answer.uploaded p) files'
      × Represents env.client files' k c' w'
      × (c'.chunk_id_counter ≤ c.chunk_id_counter + max_chunks)

  succeeding :
      (req : PutFileRequest) (reqs : List PutFileRequest) (files : Contents) (k : ℕ)
      (c : Coordinator) (w : W)
      → Represents env.client files k c w
      → length (read_data (req ∷ reqs)) ≤ max_file_size
      → c.chunk_id_counter + max_chunks ≤ int_max
      → (put_file env (req ∷ reqs) c w).0 ≡ returned status_ok true
      → Answered (req ∷ reqs) files k c (put_file env (req ∷ reqs) c w)
  succeeding req reqs files k c w r small room ok =
      let (p, c', w') = put_file env (req ∷ reqs) c w in
      let u = put_file-Uses env reliable (req ∷ reqs) c w small room in
      let up =
        put_file-IsUploaded env reliable req reqs c c' w w' small room (ap (λ q. (q, c', w')) ok) in
      (
        assign req.filename (some (read_data (req ∷ reqs))) files,
        subst
            (λ q.
              Allowed files (Request.upload (req ∷ reqs)) (Answer.uploaded q)
                (assign req.filename (some (read_data (req ∷ reqs))) files))
            (sym ok) (stores req reqs (was_free req reqs files k c w r ok)),
        stored-Represents env reliable req reqs files k c c' w w' r up u
            (put_file-deleted env reliable (req ∷ reqs) c w),
        u.within,
      )

  -- While numbers are left, an upload of at most 2 GiB is answered as the contract allows.
  pub upload-Allowed :
      (reqs : List PutFileRequest) (files : Contents) (k : ℕ) (c : Coordinator) (w : W)
      → Represents env.client files k c w
      → length (read_data reqs) ≤ max_file_size
      → c.chunk_id_counter + max_chunks ≤ int_max
      → Answered reqs files k c (put_file env reqs c w)
  upload-Allowed reqs files k c w r small room =
      elim (Bool-cases (success (put_file env reqs c w).0)) [
        | inl ok ↦ succeeded reqs r small (put_file_success reqs c w ok)
        | inr bad ↦
            let failed : (put_file env reqs c w).0 ≢ returned status_ok true =
              λ e. true≢false (sym (ap success e) ∙ bad) in
            (
              files,
              stores_nothing reqs _ failed (explained reqs files k c w r),
              failing reqs files k c w r small room failed,
              (put_file-Uses env reliable reqs c w small room).within,
            )
      ]
    where
      succeeded :
          (reqs : List PutFileRequest)
          → Represents env.client files k c w
          → length (read_data reqs) ≤ max_file_size
          → (put_file env reqs c w).0 ≡ returned status_ok true
          → Answered reqs files k c (put_file env reqs c w)
      succeeded [] r small ok = absurd (no_stream c w ok)
      succeeded (req ∷ reqs) r small ok = succeeding req reqs files k c w r small room ok
