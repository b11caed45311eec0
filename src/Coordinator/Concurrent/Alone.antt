-- ===== src/Coordinator/Concurrent/Alone.antt =====
-- A call that runs alone, against the handler.
use toy_dfs.Prelude.{
  ℕ, zero, suc, ◌+◌, ℤ, ◌≡◌, refl, ap, ◌∙◌, sym, subst, Bool, true, false, List, [], ◌∷◌, Option,
  none, some, length, pos_part, Bool-cases, Option-cases, inl, inr, map, if◌then◌else◌,
}
use toy_dfs.Bytes.{Bytes, is_empty, codes}
use toy_dfs.Grpc.{
  Status, status, status_ok, is_ok, PutFileRequest, already_exists, invalid_argument,
}
use toy_dfs.MetadataStore
use toy_dfs.MetadataStore.{ChunkInfo, is_some}
use toy_dfs.MetadataStore.Files.{file_at}
use toy_dfs.Coordinator.{Coordinator}
use toy_dfs.Coordinator.Environment.{Environment}
use toy_dfs.Coordinator.Client.{chunk_name}
use toy_dfs.Coordinator.Placement.{select_nodes}
use toy_dfs.Coordinator.Distribution.{distribute}
use toy_dfs.Coordinator.Upload.{
  Loop, finished, stopped, PutResult, returned, put_chunks, put_file, store_file, finish, read_data,
  num_chunks, file_meta, chunk_at, fresh_number, replicas,
}
use toy_dfs.Coordinator.Upload.Failure.{looked_up}
use toy_dfs.Coordinator.Concurrent.{
  Stage, started, looping, succeeded, failed, undefined, Call, after_round, step, step_at,
  interleave,
}

abbrev pub turns : ℕ → List ℕ
turns zero = []
turns (suc n) = 0 ∷ turns n

-- What the call returns, once it has ended.
abbrev pub result_of : Stage → Option PutResult
result_of started = none
result_of (looping n i chunks) = none
result_of (succeeded chunks) = some (returned status_ok true)
result_of (failed st) = some (returned st false)
result_of undefined = some PutResult.undefined

abbrev pub call_at : Bytes → Bytes → Stage → Call
call_at filename file_data stage = record {
  filename = filename;
  file_data = file_data;
  stage = stage;
}

module _ {W : Type 0} (env : Environment W) where
  abbrev go_on : ℕ → ℕ → Bytes → Loop × Coordinator × W → Loop × Coordinator × W
  go_on n i file_data (finished chunks, c, w) = put_chunks env n (i + 1) file_data chunks c w
  go_on n i file_data (stopped st, c, w) = (stopped st, c, w)
  go_on n i file_data (Loop.undefined, c, w) = (Loop.undefined, c, w)

  -- The loop is its first round and the rest.
  put_chunks-go_on :
      (n i : ℕ) (file_data : Bytes) (chunks : List ChunkInfo) (c : Coordinator) (w : W)
      → put_chunks env (suc n) i file_data chunks c w
        ≡ go_on n i file_data (put_chunks env 1 i file_data chunks c w)
  unfolding put_chunks
  put_chunks-go_on n i file_data chunks c w = elim (Bool-cases (is_empty ids)) [
    | inl none_left ↦ rw (none_left, put_chunks) refl
    | inr a_node ↦ elim (Option-cases (chunk_at i file_data)) [
      | inl past ↦ rw (a_node, past, put_chunks) refl
      | inr (content, at) ↦ elim (Bool-cases (is_ok (written content).0)) [
        | inl ok ↦ rw (a_node, at, ok, put_chunks) refl
        | inr bad ↦ rw (a_node, at, bad, put_chunks) refl
      ]
    ]
  ]
    where
      ids : List ℤ
      ids = (select_nodes env.iteration replicas (fresh_number c)).0

      written : Bytes → Status × W
      written content =
          distribute env.client
            (select_nodes env.iteration replicas (fresh_number c)).1.registered_nodes
            (chunk_name c.chunk_id_counter) content (env.schedule c.chunk_id_counter) ids w

  module _ (filename file_data : Bytes) where
    abbrev ended : Loop × Coordinator × W → List Call × Coordinator × W
    ended (finished chunks, c, w) = (
      call_at filename file_data (succeeded chunks) ∷ [],
      record c {
        store = MetadataStore.put_file filename (file_meta (length file_data) chunks) c.store;
      },
      w,
    )
    ended (stopped st, c, w) = (call_at filename file_data (failed st) ∷ [], c, w)
    ended (Loop.undefined, c, w) = (call_at filename file_data undefined ∷ [], c, w)

    -- A call that has ended takes no more steps.
    idle_failed :
        (n : ℕ) (st : Status) (c : Coordinator) (w : W)
        → interleave env (turns n) (call_at filename file_data (failed st) ∷ []) c w
          ≡ (call_at filename file_data (failed st) ∷ [], c, w)
    unfolding interleave step_at step
    idle_failed zero st c w = refl
    idle_failed (suc n) st c w = idle_failed n st c w

    idle_undefined :
        (n : ℕ) (c : Coordinator) (w : W)
        → interleave env (turns n) (call_at filename file_data undefined ∷ []) c w
          ≡ (call_at filename file_data undefined ∷ [], c, w)
    unfolding interleave step_at step
    idle_undefined zero c w = refl
    idle_undefined (suc n) c w = idle_undefined n c w

    -- After its first round the call is in the loop again, or at its end.
    after_round_alone :
        (n i : ℕ)
        → ((chunks : List ChunkInfo) (c : Coordinator) (w : W)
            → interleave env
                (turns (suc n))
                (call_at filename file_data (looping n (i + 1) chunks) ∷ [])
                c
                w
              ≡ ended (put_chunks env n (i + 1) file_data chunks c w))
        → (l : Loop × Coordinator × W)
        → interleave env
            (turns (suc n))
            (call_at filename file_data (after_round n i l.0) ∷ [])
            l.1
            l.2
          ≡ ended (go_on n i file_data l)
    after_round_alone n i ih (finished all, c', w') = ih all c' w'
    after_round_alone n i ih (stopped st, c', w') = idle_failed (suc n) st c' w'
    after_round_alone n i ih (Loop.undefined, c', w') = idle_undefined (suc n) c' w'

    loop_alone :
        (n i : ℕ) (chunks : List ChunkInfo) (c : Coordinator) (w : W)
        → interleave env (turns (suc n)) (call_at filename file_data (looping n i chunks) ∷ []) c w
          ≡ ended (put_chunks env n i file_data chunks c w)
    unfolding interleave step_at step
    loop_alone zero i chunks c w = unfold put_chunks in refl
    loop_alone (suc n) i chunks c w =
        after_round_alone n i (λ all c' w'. loop_alone n (i + 1) all c' w')
          (put_chunks env 1 i file_data chunks c w)
        ∙ ap ended (sym (put_chunks-go_on n i file_data chunks c w))

    -- The calls have come to what the handler answers and leaves.
    abbrev Agrees : List Call × Coordinator × W → PutResult × Coordinator × W → Type 0
    Agrees (calls, c, w) (p, c', w') =
        (map (λ (call : Call). result_of call.stage) calls ≡ some p ∷ []) × (c ≡ c') × (w ≡ w')

    ended-Agrees :
        (l : Loop × Coordinator × W) → Agrees (ended l) (finish filename (length file_data) l)
    ended-Agrees (finished chunks, c, w) = (refl, refl, refl)
    ended-Agrees (stopped st, c, w) = (refl, refl, refl)
    ended-Agrees (Loop.undefined, c, w) = (refl, refl, refl)

  -- The steps of an upload that no other interrupts, its lookup, its rounds and the entry of its file,
  -- are the handler: they end with its answer, and leave its state and its data nodes.
  pub interleave-put_file :
      (req : PutFileRequest) (reqs : List PutFileRequest) (c : Coordinator) (w : W)
      → let rounds = pos_part (num_chunks (length (read_data (req ∷ reqs)))) in
        let (calls, c', w') =
          interleave env
            (turns (suc (suc rounds)))
            (call_at req.filename (read_data (req ∷ reqs)) started ∷ [])
            c
            w in
        let (p, c'', w'') = put_file env (req ∷ reqs) c w in
        (map (λ (call : Call). result_of call.stage) calls ≡ some p ∷ []) × (c' ≡ c'') × (w' ≡ w'')
  unfolding interleave step_at step put_file store_file
  interleave-put_file req reqs c w =
      tested (is_some (file_at c.store req.filename)) (is_empty req.filename)
    where
      name : Bytes
      name = req.filename

      bytes : Bytes
      bytes = read_data (req ∷ reqs)

      rounds : ℕ
      rounds = pos_part (num_chunks (length bytes))

      c' : Coordinator
      c' = looked_up req.filename c

      refused :
          (st : Status)
          → Agrees name bytes
              (interleave env (turns (suc rounds)) (call_at name bytes (failed st) ∷ []) c' w)
              (returned st false, c', w)
      refused st =
          subst (λ t. Agrees name bytes t (returned st false, c', w))
            (sym (idle_failed name bytes (suc rounds) st c' w)) (refl, refl, refl)

      -- For every outcome of the two tests.
      tested :
          (there nameless : Bool)
          → Agrees name bytes
              (interleave env
                (turns (suc rounds))
                (call_at name bytes (
                    if there
                    then failed (status already_exists (codes "File exists"))
                    else if nameless
                    then failed (status invalid_argument (codes "Filename not provided"))
                    else looping rounds 0 [])
                  ∷ [])
                c'
                w)
              (if there
                then (returned (status already_exists (codes "File exists")) false, c', w)
                else if nameless
                then (
                  returned (status invalid_argument (codes "Filename not provided")) false,
                  c',
                  w,
                )
                else finish name (length bytes) (put_chunks env rounds 0 bytes [] c' w))
      tested true nameless = refused (status already_exists (codes "File exists"))
      tested false true = refused (status invalid_argument (codes "Filename not provided"))
      tested false false =
          subst
            (λ t.
              Agrees name bytes t
                (finish name (length bytes) (put_chunks env rounds 0 bytes [] c' w)))
            (sym (loop_alone name bytes rounds 0 [] c' w))
            (ended-Agrees name bytes (put_chunks env rounds 0 bytes [] c' w))
