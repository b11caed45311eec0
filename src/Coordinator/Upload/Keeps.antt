-- ===== src/Coordinator/Upload/Keeps.antt =====
-- What every upload leaves alone, also one that fails.
use toy_dfs.Prelude.{
  ℕ, zero, suc, ◌+◌, ◌≤◌, ◌<◌, ◌≡◌, refl, ap, ◌∙◌, sym, subst, List, [], ◌∷◌, ℤ, int_max, pos_part,
  length, arith, Bool-cases, Option-cases, inl, inr,
}
use toy_dfs.Bytes.{Bytes, is_empty}
use toy_dfs.Grpc.{Status, is_ok, PutFileRequest}
use toy_dfs.MetadataStore
use toy_dfs.MetadataStore.{MetadataStore, ChunkInfo, size_modulus, is_some}
use toy_dfs.MetadataStore.Files.{file_at}
use toy_dfs.Coordinator.{Coordinator}
use toy_dfs.Coordinator.Client.{IsReliable, chunk_name}
use toy_dfs.Coordinator.Environment.{Environment}
use toy_dfs.Coordinator.Placement.{select_nodes, select_nodes-keeps}
use toy_dfs.Coordinator.Distribution.{distribute}
use toy_dfs.Coordinator.Distribution.Replicas.{HasReplica}
use toy_dfs.Coordinator.Distribution.Frame.{distribute_keeps}
use toy_dfs.Coordinator.Upload.{
  replicas, chunk_at, num_chunks, Loop, finished, stopped, fresh_number, put_chunks, store_file,
  put_file, finish, read_data,
}
use toy_dfs.Coordinator.Upload.Chunks.{num_chunks_bounds, max_file_size, max_chunks}
use toy_dfs.Coordinator.Upload.Failure.{looked_up, put_chunks-store}
use toy_dfs.Coordinator.Upload.Stored.{Survives}

module _ {W : Type 0} (env : Environment W) (reliable : IsReliable env.client) where
  -- At most `n` numbers are used up, the registry stays, and the replicas of all chunks with earlier
  -- numbers stay readable.
  pub record Uses (n : ℕ) (c c' : Coordinator) (w w' : W) : Type 0 where
    pub grows : c.chunk_id_counter ≤ c'.chunk_id_counter
    pub within : c'.chunk_id_counter ≤ c.chunk_id_counter + n
    pub same_nodes : c'.registered_nodes ≡ c.registered_nodes
    pub same_next : c'.next_node_id ≡ c.next_node_id
    pub survives : Survives env reliable c.registered_nodes c.chunk_id_counter w w'

  -- The state after the nodes of a chunk have been selected.
  abbrev chosen : Coordinator → Coordinator
  chosen c = (select_nodes env.iteration replicas (fresh_number c)).1

  chosen_lem :
      (c : Coordinator)
      → c.chunk_id_counter < int_max
      → ((chosen c).chunk_id_counter ≡ c.chunk_id_counter + 1)
        × ((chosen c).registered_nodes ≡ c.registered_nodes)
        × ((chosen c).next_node_id ≡ c.next_node_id)
  chosen_lem c h =
      let moved = select_nodes-keeps env.iteration replicas (fresh_number c) in
      (
        ap (λ (d : Coordinator). d.chunk_id_counter) moved ∙ omega arith,
        ap (λ (d : Coordinator). d.registered_nodes) moved,
        ap (λ (d : Coordinator). d.next_node_id) moved,
      )

  chosen-Uses :
      (n : ℕ) (c : Coordinator) (w w' : W)
      → c.chunk_id_counter < int_max
      → Survives env reliable c.registered_nodes c.chunk_id_counter w w'
      → Uses (suc n) c (chosen c) w w'
  chosen-Uses n c w w' h s =
      let (count, nodes, next) = chosen_lem c h in
      record {
        grows = omega (arith, count);
        within = omega (arith, count);
        same_nodes = nodes;
        same_next = next;
        survives = s;
      }

  Uses-trans :
      (n : ℕ) (c c' : Coordinator) (w v w' : W)
      → c.chunk_id_counter < int_max
      → Survives env reliable c.registered_nodes c.chunk_id_counter w v
      → Uses n (chosen c) c' v w'
      → Uses (suc n) c c' w w'
  Uses-trans n c c' w v w' h s u =
      let (count, nodes, next) = chosen_lem c h in
      record {
        grows = omega (arith, count, u.grows);
        within = omega (arith, count, u.within);
        same_nodes = u.same_nodes ∙ nodes;
        same_next = u.same_next ∙ next;
        survives = λ m other content below held.
            subst (λ ns. HasReplica env.client ns (chunk_name m) content w' other) nodes
              (u.survives m other content (omega (arith, count)) (
                subst (λ ns. HasReplica env.client ns (chunk_name m) content v other) (sym nodes)
                  (s m other content below held)));
      }

  pub put_chunks-Uses :
      (n i : ℕ) (file_data : Bytes) (chunks : List ChunkInfo) (c : Coordinator) (w : W)
      → c.chunk_id_counter + n ≤ int_max
      → let (l, c', w') = put_chunks env n i file_data chunks c w in Uses n c c' w w'
  unfolding put_chunks
  put_chunks-Uses zero i file_data chunks c w room = record {
    grows = omega arith;
    within = omega arith;
    same_nodes = refl;
    same_next = refl;
    survives = λ m other content below held. held;
  }
  put_chunks-Uses (suc n) i file_data chunks c w room =
      let (node_ids, c') = select_nodes env.iteration replicas (fresh_number c) in
      let (count, nodes, next) = chosen_lem c (omega arith) in
      elim (Bool-cases (is_empty node_ids)) [
        | inl none_left ↦
            rw (none_left, put_chunks)
              (chosen-Uses n c w w (omega arith) (λ m other content below held. held))
        | inr a_node ↦ elim (Option-cases (chunk_at i file_data)) [
          | inl past ↦
              rw (a_node, past, put_chunks)
                (chosen-Uses n c w w (omega arith) (λ m other content below held. held))
          | inr (content, at) ↦
              let (st, w') = written content in
              let kept =
                λ (m : ℕ) (other : ℤ) (old : Bytes) (below : m < c.chunk_id_counter)
                    (held : HasReplica env.client c.registered_nodes (chunk_name m) old w other).
                  survivors content m other old below held in
              elim (Bool-cases (is_ok st)) [
                | inl ok ↦
                    rw (a_node, at, ok, put_chunks)
                      (Uses-trans n c _ w w' _ (omega arith) kept
                        (put_chunks-Uses n (i + 1) file_data _ c' w' (omega (arith, count))))
                | inr failed ↦
                    rw (a_node, at, failed, put_chunks) (chosen-Uses n c w w' (omega arith) kept)
              ]
        ]
      ]
    where
      written : Bytes → Status × W
      written content =
          distribute env.client (chosen c).registered_nodes (chunk_name c.chunk_id_counter) content
            (env.schedule c.chunk_id_counter)
            (select_nodes env.iteration replicas (fresh_number c)).0 w

      survivors :
          (content : Bytes) (m : ℕ) (other : ℤ) (old : Bytes)
          → m < c.chunk_id_counter
          → HasReplica env.client c.registered_nodes (chunk_name m) old w other
          → HasReplica env.client c.registered_nodes (chunk_name m) old (written content).1 other
      survivors content m other old below held =
          let (count, nodes, next) = chosen_lem c (omega arith) in
          subst (λ ns. HasReplica env.client ns (chunk_name m) old (written content).1 other) nodes
            (distribute_keeps env.client reliable (chosen c).registered_nodes c.chunk_id_counter m
              content old (omega arith) (omega arith) (omega arith)
              (env.schedule c.chunk_id_counter) _ other w
              (subst (λ ns. HasReplica env.client ns (chunk_name m) old w other) (sym nodes) held))

  -- What follows the loop changes the metadata only.
  finish-Uses :
      (n size : ℕ) (filename : Bytes) (l : Loop × Coordinator × W) (c : Coordinator) (w : W)
      → Uses n c l.1 w l.2
      → Uses n c (finish filename size l).1 w (finish filename size l).2
  finish-Uses n size filename (finished chunks, c', w') c w u = record {
    grows = u.grows;
    within = u.within;
    same_nodes = u.same_nodes;
    same_next = u.same_next;
    survives = u.survives;
  }
  finish-Uses n size filename (stopped st, c', w') c w u = u
  finish-Uses n size filename (Loop.undefined, c', w') c w u = u

  few_rounds : (size : ℕ) → size ≤ max_file_size → pos_part (num_chunks size) ≤ max_chunks
  few_rounds size small = omega (arith, num_chunks_bounds size (omega arith))

  Uses-le : (n m : ℕ) (c c' : Coordinator) (w w' : W) → n ≤ m → Uses n c c' w w' → Uses m c c' w w'
  Uses-le n m c c' w w' h u = record {
    grows = u.grows;
    within = omega (arith, u.within);
    same_nodes = u.same_nodes;
    same_next = u.same_next;
    survives = u.survives;
  }

  Uses-refl : (n : ℕ) (c : Coordinator) (w : W) → Uses n c c w w
  Uses-refl n c w = record {
    grows = omega arith;
    within = omega arith;
    same_nodes = refl;
    same_next = refl;
    survives = λ m other content below held. held;
  }

  store_file-Uses :
      (filename file_data : Bytes) (c : Coordinator) (w : W)
      → length file_data ≤ max_file_size
      → c.chunk_id_counter + max_chunks ≤ int_max
      → let (r, c', w') = store_file env filename file_data c w in Uses max_chunks c c' w w'
  unfolding store_file
  store_file-Uses filename file_data c w small room = elim (Bool-cases (is_empty filename)) [
    | inl nameless ↦ rw (nameless, store_file) (Uses-refl max_chunks c w)
    | inr named ↦
        let rounds = pos_part (num_chunks (length file_data)) in
        let few = few_rounds (length file_data) small in
        rw (named, store_file)
          (finish-Uses max_chunks (length file_data) filename _ c w (
            Uses-le rounds max_chunks c _ w _ few
              (put_chunks-Uses rounds 0 file_data [] c w (omega (arith, few)))))
  ]

  -- An upload of at most 2 GiB, successful or not, uses at most 2048 numbers, leaves the registry as
  -- it is, and every chunk that is there readable.
  pub put_file-Uses :
      (reqs : List PutFileRequest) (c : Coordinator) (w : W)
      → length (read_data reqs) ≤ max_file_size
      → c.chunk_id_counter + max_chunks ≤ int_max
      → let (r, c', w') = put_file env reqs c w in Uses max_chunks c c' w w'
  unfolding put_file
  put_file-Uses [] c w small room = store_file-Uses [] [] c w small room
  put_file-Uses (req ∷ reqs) c w small room =
      elim (Bool-cases (is_some (file_at c.store req.filename))) [
        | inl there ↦
            rw (there, put_file) (looked-Uses (Uses-refl max_chunks (looked_up req.filename c) w))
        | inr new ↦
            rw (new, put_file)
              (looked-Uses (
                store_file-Uses req.filename (read_data (req ∷ reqs)) (looked_up req.filename c) w
                  small room))
      ]
    where
      looked-Uses :
          {c' : Coordinator} {w' : W}
          → Uses max_chunks (looked_up req.filename c) c' w w'
          → Uses max_chunks c c' w w'
      looked-Uses u = record {
        grows = u.grows;
        within = u.within;
        same_nodes = u.same_nodes;
        same_next = u.same_next;
        survives = u.survives;
      }

  finish-deleted :
      (size : ℕ) (filename : Bytes) (l : Loop × Coordinator × W)
      → (finish filename size l).1.store.deleted_entries ≡ l.1.store.deleted_entries
  unfolding MetadataStore.put_file
  finish-deleted size filename (finished chunks, c', w') = refl
  finish-deleted size filename (stopped st, c', w') = refl
  finish-deleted size filename (Loop.undefined, c', w') = refl

  store_file-deleted :
      (filename file_data : Bytes) (c : Coordinator) (w : W)
      → (store_file env filename file_data c w).1.store.deleted_entries ≡ c.store.deleted_entries
  unfolding store_file
  store_file-deleted filename file_data c w = elim (Bool-cases (is_empty filename)) [
    | inl nameless ↦ rw (nameless, store_file) refl
    | inr named ↦
        rw (named, store_file)
          (finish-deleted (length file_data) filename _
            ∙ ap (λ (s : MetadataStore). s.deleted_entries)
                (put_chunks-store env (pos_part (num_chunks (length file_data))) 0 file_data [] c
                  w))
  ]

  -- No upload touches the tombstones.
  pub put_file-deleted :
      (reqs : List PutFileRequest) (c : Coordinator) (w : W)
      → (put_file env reqs c w).1.store.deleted_entries ≡ c.store.deleted_entries
  unfolding put_file MetadataStore.get_file
  put_file-deleted [] c w = store_file-deleted [] [] c w
  put_file-deleted (req ∷ reqs) c w = elim (Bool-cases (is_some (file_at c.store req.filename))) [
    | inl there ↦ rw (there, put_file) refl
    | inr new ↦
        rw (new, put_file)
          (store_file-deleted req.filename (read_data (req ∷ reqs)) (looked_up req.filename c) w)
  ]
