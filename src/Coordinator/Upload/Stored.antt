-- ===== src/Coordinator/Upload/Stored.antt =====
-- What the loop over the chunks leaves on the data nodes.
use toy_dfs.Prelude.{
  ℕ, zero, suc, ◌+◌, ◌*◌, ◌%◌, ◌≤◌, ◌<◌, ◌≡◌, ◌≢◌, refl, ap, ◌∙◌, sym, subst, true, false, List, [],
  ◌∷◌, ◌++◌, ℤ, int_max, length, drop, arith, All, All-map, Bool-cases, inl, inr, append_assoc,
  append-nil, drop-zero_of_le,
}
use toy_dfs.Bytes.{Bytes, is_empty}
use toy_dfs.Grpc.{Status, is_ok}
use toy_dfs.MetadataStore.{ChunkInfo, size_modulus}
use toy_dfs.Coordinator.{Coordinator, Nodes}
use toy_dfs.Coordinator.Client.{DataNodeClient, IsReliable, chunk_name}
use toy_dfs.Coordinator.Environment.{Environment}
use toy_dfs.Coordinator.Placement.{select_nodes, select_nodes-keeps}
use toy_dfs.Coordinator.Distribution.{distribute}
use toy_dfs.Coordinator.Distribution.Replicas.{HasReplica, distribute-HasReplica}
use toy_dfs.Coordinator.Distribution.Frame.{distribute_keeps}
use toy_dfs.Coordinator.Upload.{
  chunk_size, replicas, Loop, finished, fresh_number, chunk_info, put_chunks,
}
use toy_dfs.Coordinator.Upload.Chunks.{piece, chunk_at-piece, piece-append}

-- The chunks of a file, each numbered below `bound` and readable from every node that its entry
-- names, hold these bytes.
abbrev pub Stored :
    {W : Type 0} → DataNodeClient W → Nodes → ℕ → W → List ChunkInfo → Bytes → Type 0
Stored client nodes bound w [] content = content ≡ []
Stored client nodes bound w (chunk ∷ chunks) content =
    (here : Bytes) × (rest : Bytes) × (content ≡ here ++ rest)
    × (is_empty chunk.node_ids ≡ false)
    × (number : ℕ) × (chunk.chunk_id ≡ chunk_name number)
    × (number < bound)
    × All (HasReplica client nodes chunk.chunk_id here w) chunk.node_ids
    × Stored client nodes bound w chunks rest

-- The id of the chunk is that of a number from `low` to below `high`.
abbrev pub IsNumbered : ℕ → ℕ → ChunkInfo → Type 0
IsNumbered low high chunk =
    (number : ℕ) × (chunk.chunk_id ≡ chunk_name number) × (low ≤ number) × (number < high)

module _ {W : Type 0} (env : Environment W) (reliable : IsReliable env.client) where
  -- One round of the loop, where it goes on.
  pub record Round (i : ℕ) (file_data : Bytes) (c c' : Coordinator) (w w' : W) (ids : List ℤ)
      : Type 0 where
    pub some_node : is_empty ids ≡ false
    pub same_nodes : c'.registered_nodes ≡ c.registered_nodes
    same_store : c'.store ≡ c.store
    pub counted : c'.chunk_id_counter ≡ (c.chunk_id_counter + 1) % size_modulus
    pub stored :
        All
          (HasReplica env.client c.registered_nodes
            (chunk_name c.chunk_id_counter)
            (piece i file_data)
            w')
          ids
    kept :
        (m : ℕ) (other : ℤ) (content : Bytes)
        → c.chunk_id_counter ≤ int_max
        → m ≤ int_max
        → c.chunk_id_counter ≢ m
        → HasReplica env.client c.registered_nodes (chunk_name m) content w other
        → HasReplica env.client c.registered_nodes (chunk_name m) content w' other

  -- A loop that finishes went on in every round.
  pub round :
      (n i : ℕ) (file_data : Bytes) (chunks all : List ChunkInfo) (c last : Coordinator)
      (w done : W)
      → i * chunk_size ≤ int_max
      → put_chunks env (suc n) i file_data chunks c w ≡ (finished all, last, done)
      → (ids : List ℤ) × (c' : Coordinator) × (w' : W) × Round i file_data c c' w w' ids
        × (put_chunks env n
              (i + 1)
              file_data
              (chunks ++ chunk_info c.chunk_id_counter ids ∷ [])
              c'
              w'
            ≡ (finished all, last, done))
  round n i file_data chunks all c last w done h e = elim (Bool-cases (is_empty ids)) [
    | inl no_node ↦ absurd (no_node_stops no_node)
    | inr a_node ↦ elim (Bool-cases (is_ok written.0)) [
      | inr failed ↦ absurd (failure_stops a_node failed)
      | inl ok ↦ (
        ids,
        c',
        written.1,
        record {
          some_node = a_node;
          same_nodes = same;
          same_store = ap (λ d. d.store) moved;
          counted = ap (λ d. d.chunk_id_counter) moved;
          stored = stored ok;
          kept = kept;
        },
        goes_on a_node ok,
      )
    ]
  ]
    where
      selected : List ℤ × Coordinator
      selected = select_nodes env.iteration replicas (fresh_number c)

      ids : List ℤ
      ids = selected.0

      c' : Coordinator
      c' = selected.1

      moved : c' ≡ record (fresh_number c) { next_node_index = c'.next_node_index }
      moved = select_nodes-keeps env.iteration replicas (fresh_number c)

      same : c'.registered_nodes ≡ c.registered_nodes
      same = ap (λ d. d.registered_nodes) moved

      written : Status × W
      written =
          distribute env.client c'.registered_nodes (chunk_name c.chunk_id_counter)
            (piece i file_data) (env.schedule c.chunk_id_counter) ids w

      no_node_stops : is_empty ids ≡ true → ⊥
      no_node_stops p = unfold put_chunks in ground (arith, e)

      failure_stops : is_empty ids ≡ false → is_ok written.0 ≡ false → ⊥
      failure_stops p q = unfold put_chunks in ground (arith, e, chunk_at-piece i file_data h)

      goes_on :
          is_empty ids ≡ false
          → is_ok written.0 ≡ true
          → put_chunks env n
              (i + 1)
              file_data
              (chunks ++ chunk_info c.chunk_id_counter ids ∷ [])
              c'
              written.1
            ≡ (finished all, last, done)
      goes_on p q = unfold put_chunks in ground (arith, e, chunk_at-piece i file_data h)

      stored :
          is_ok written.0 ≡ true
          → All
              (HasReplica env.client c.registered_nodes
                (chunk_name c.chunk_id_counter)
                (piece i file_data)
                written.1)
              ids
      stored ok =
          subst
            (λ nodes.
              All
                (HasReplica env.client nodes (chunk_name c.chunk_id_counter) (piece i file_data)
                  written.1)
                ids)
            same
            (distribute-HasReplica env.client reliable c'.registered_nodes
              (chunk_name c.chunk_id_counter) (piece i file_data) (env.schedule c.chunk_id_counter)
              ids w ok)

      kept :
          (m : ℕ) (other : ℤ) (content : Bytes)
          → c.chunk_id_counter ≤ int_max
          → m ≤ int_max
          → c.chunk_id_counter ≢ m
          → HasReplica env.client c.registered_nodes (chunk_name m) content w other
          → HasReplica env.client c.registered_nodes (chunk_name m) content written.1 other
      kept m other content fits fits' apart held =
          subst (λ nodes. HasReplica env.client nodes (chunk_name m) content written.1 other) same
            (distribute_keeps env.client reliable c'.registered_nodes c.chunk_id_counter m
              (piece i file_data) content fits fits' apart (env.schedule c.chunk_id_counter) ids
              other w
              (subst (λ nodes. HasReplica env.client nodes (chunk_name m) content w other)
                (sym same) held))

  -- A replica of an earlier chunk.
  abbrev pub Survives : Nodes → ℕ → W → W → Type 0
  Survives nodes bound w w' =
      (m : ℕ) (other : ℤ) (content : Bytes)
      → m < bound
      → HasReplica env.client nodes (chunk_name m) content w other
      → HasReplica env.client nodes (chunk_name m) content w' other

  -- A loop that finishes has stored the rest of the file, under fresh numbers.
  pub put_chunks-Stored :
      (n i : ℕ) (file_data : Bytes) (chunks all : List ChunkInfo) (c last : Coordinator)
      (w done : W)
      → (i + n) * chunk_size ≤ int_max + chunk_size
      → length file_data ≤ (i + n) * chunk_size
      → c.chunk_id_counter + n ≤ int_max
      → put_chunks env n i file_data chunks c w ≡ (finished all, last, done)
      → (more : List ChunkInfo) × (all ≡ chunks ++ more)
        × (length more ≡ n)
        × (last.chunk_id_counter ≡ c.chunk_id_counter + n)
        × Stored env.client c.registered_nodes last.chunk_id_counter done more
            (drop (i * chunk_size) file_data)
        × (last.registered_nodes ≡ c.registered_nodes)
        × (last.store ≡ c.store)
        × Survives c.registered_nodes c.chunk_id_counter w done
        × All (IsNumbered c.chunk_id_counter last.chunk_id_counter) more
  put_chunks-Stored zero i file_data chunks all c last w done room long fresh e = (
    [],
    ground (arith, append-nil chunks, ended),
    refl,
    omega (arith, ap (λ (d : Coordinator). d.chunk_id_counter) last_state),
    drop-zero_of_le (i * chunk_size) file_data (omega arith),
    ap (λ (d : Coordinator). d.registered_nodes) last_state,
    ap (λ (d : Coordinator). d.store) last_state,
    λ m other content h r.
        subst (λ (v : W). HasReplica env.client c.registered_nodes (chunk_name m) content v other)
          last_world r,
    tt,
  )
    where
      ended : ◌≡◌ {A = Loop × Coordinator × W} (finished chunks, c, w) (finished all, last, done)
      ended = unfold put_chunks in e

      last_state : last ≡ c
      last_state = ap (λ (t : Loop × Coordinator × W). t.1) (sym ended)

      last_world : w ≡ done
      last_world = ap (λ (t : Loop × Coordinator × W). t.2) ended
  put_chunks-Stored (suc n) i file_data chunks all c last w done room long fresh e =
      let (ids, c', w', r, e') = round n i file_data chunks all c last w done (omega arith) e in
      let next : c'.chunk_id_counter ≡ c.chunk_id_counter + 1 = omega (arith, r.counted) in
      let info = chunk_info c.chunk_id_counter ids in
      let (more, joined, size, count, stored, nodes, store, survives, numbered) =
        put_chunks-Stored n (i + 1) file_data (chunks ++ info ∷ []) all c' last w' done
          (omega arith) (omega arith) (omega arith) e' in
      let survives' : Survives c.registered_nodes c'.chunk_id_counter w' done =
        subst (λ ns. Survives ns c'.chunk_id_counter w' done) r.same_nodes survives in
      (
        info ∷ more,
        joined ∙ simp append_assoc,
        ap suc size,
        omega (arith, count),
        (
          piece i file_data,
          drop ((i + 1) * chunk_size) file_data,
          sym (piece-append i file_data),
          r.some_node,
          c.chunk_id_counter,
          refl,
          omega (arith, count),
          All-map _ _
              (λ other held.
                survives' c.chunk_id_counter other (piece i file_data) (omega arith) held)
              ids r.stored,
          subst
              (λ ns.
                Stored env.client ns last.chunk_id_counter done more
                  (drop ((i + 1) * chunk_size) file_data))
              r.same_nodes stored,
        ),
        nodes ∙ r.same_nodes,
        store ∙ r.same_store,
        λ m other content h held.
            survives' m other content (omega arith)
              (r.kept m other content (omega arith) (omega arith) (omega arith) held),
        (
          (c.chunk_id_counter, refl, omega arith, omega (arith, count)),
          All-map _ (IsNumbered c.chunk_id_counter last.chunk_id_counter)
              (λ chunk numbers. (numbers.0, numbers.1, omega (arith, numbers.2, next), numbers.3))
              more numbered,
        ),
      )
