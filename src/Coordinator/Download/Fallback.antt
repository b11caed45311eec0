-- ===== src/Coordinator/Download/Fallback.antt =====
-- Reading a chunk from its replicas: which failures are survived.
use toy_dfs.Prelude.{
  ◌≡◌, refl, true, false, List, [], ◌∷◌, ◌++◌, none, some, ℤ, int_eq, arith, All, Bool-cases,
  Option-cases, inl, inr,
}
use toy_dfs.Bytes.{Bytes, is_empty}
use toy_dfs.Grpc.{status_ok, is_ok, internal}
use toy_dfs.Table.{find}
use toy_dfs.Coordinator.{DataNodeInfo, Nodes}
use toy_dfs.Coordinator.Client.{DataNodeClient, IsReliable}
use toy_dfs.Coordinator.Distribution.Replicas.{HasReplica}
use toy_dfs.Coordinator.Download.{try_nodes, read_chunk_with_fallback}

module _ {W : Type 0} (client : DataNodeClient W) (nodes : Nodes) (chunk_id : Bytes) where
  -- A registered node that answers returns these bytes, or it does not answer.
  abbrev pub IsHonest : Bytes → ℤ → Type 0
  IsHonest content id =
      (info : DataNodeInfo) (w : W)
      → find id nodes ≡ some info
      → is_ok (client.get_chunk info.address info.port chunk_id w).0 ≡ true
      → (client.get_chunk info.address info.port chunk_id w).1 ≡ content

  -- The node is not registered, or it does not answer.
  abbrev pub IsDown : ℤ → Type 0
  IsDown id =
      (info : DataNodeInfo) (w : W)
      → find id nodes ≡ some info
      → is_ok (client.get_chunk info.address info.port chunk_id w).0 ≡ false

  try_nodes_skip :
      (id : ℤ) (ids : List ℤ) (w : W)
      → find id nodes ≡ none
      → try_nodes client nodes chunk_id (id ∷ ids) w ≡ try_nodes client nodes chunk_id ids w
  unfolding try_nodes
  try_nodes_skip id ids w e = rw (e, try_nodes)

  try_nodes_refused :
      (id : ℤ) (ids : List ℤ) (w : W) (info : DataNodeInfo)
      → find id nodes ≡ some info
      → is_ok (client.get_chunk info.address info.port chunk_id w).0 ≡ false
      → try_nodes client nodes chunk_id (id ∷ ids) w
        ≡ try_nodes client nodes chunk_id ids (client.get_chunk info.address info.port chunk_id w).2
  unfolding try_nodes
  try_nodes_refused id ids w info e h = rw (e, try_nodes) (ground arith)

  pub try_nodes_answered :
      (id : ℤ) (ids : List ℤ) (w : W) (info : DataNodeInfo)
      → find id nodes ≡ some info
      → is_ok (client.get_chunk info.address info.port chunk_id w).0 ≡ true
      → let (st, chunk_data, w') = client.get_chunk info.address info.port chunk_id w in
        try_nodes client nodes chunk_id (id ∷ ids) w ≡ (status_ok, chunk_data, w')
  unfolding try_nodes
  try_nodes_answered id ids w info e h = rw (e, try_nodes) (ground arith)

  pub read_chunk-try_nodes :
      (ids : List ℤ) (w : W)
      → is_empty ids ≡ false
      → read_chunk_with_fallback client nodes chunk_id ids w ≡ try_nodes client nodes chunk_id ids w
  unfolding read_chunk_with_fallback
  read_chunk-try_nodes ids w h = rw h

  -- No replica answers: the read fails, and hands out nothing.
  try_nodes_down :
      (ids : List ℤ) (w : W)
      → All IsDown ids
      → let (st, chunk_data, w') = try_nodes client nodes chunk_id ids w in
        (st.code ≡ internal) × (chunk_data ≡ [])
  try_nodes_down [] w h = unfold try_nodes in (refl, refl)
  try_nodes_down (id ∷ ids) w h = elim (Option-cases (find id nodes)) [
    | inl e ↦ rw (try_nodes_skip id ids w e) (try_nodes_down ids w h.1)
    | inr (info, e) ↦
        rw (try_nodes_refused id ids w info e (h.0 info w e))
          (try_nodes_down ids (client.get_chunk info.address info.port chunk_id w).2 h.1)
  ]

  -- If none of the nodes of a chunk is registered and answers, the read fails and hands out nothing.
  pub read_chunk_with_fallback_down :
      (ids : List ℤ) (w : W)
      → All IsDown ids
      → let (st, chunk_data, w') = read_chunk_with_fallback client nodes chunk_id ids w in
        (st.code ≡ internal) × (chunk_data ≡ [])
  read_chunk_with_fallback_down [] w h = unfold read_chunk_with_fallback in (refl, refl)
  read_chunk_with_fallback_down (id ∷ ids) w h =
      rw (read_chunk-try_nodes (id ∷ ids) w refl) (try_nodes_down (id ∷ ids) w h)

  module _ (reliable : IsReliable client) (content : Bytes) where
    try_nodes_fallback :
        (before : List ℤ) (id : ℤ) (after : List ℤ) (w : W)
        → All (IsHonest content) before
        → HasReplica client nodes chunk_id content w id
        → let (st, chunk_data, w') = try_nodes client nodes chunk_id (before ++ id ∷ after) w in
          (st ≡ status_ok) × (chunk_data ≡ content)
    try_nodes_fallback [] id after w h (info, e, held) =
        rw (try_nodes_answered id after w info e held.reads) (refl, held.same)
    try_nodes_fallback (b ∷ before) id after w h r = elim (Option-cases (find b nodes)) [
      | inl e ↦
          rw (try_nodes_skip b (before ++ id ∷ after) w e)
            (try_nodes_fallback before id after w h.1 r)
      | inr (info, e) ↦
          elim (Bool-cases (is_ok (client.get_chunk info.address info.port chunk_id w).0)) [
            | inl ok ↦
                rw (try_nodes_answered b (before ++ id ∷ after) w info e ok) (refl, h.0 info w e ok)
            | inr refused ↦ rw (try_nodes_refused b (before ++ id ∷ after) w info e refused) (
                try_nodes_fallback before id after _ h.1 (
                  r.0,
                  r.1,
                  reliable.get_keeps info.address r.0.address info.port r.0.port chunk_id chunk_id
                      content w r.2,
                ))
          ]
    ]

    -- Fault tolerance: over reliable data nodes one node that holds the chunk is enough, wherever
    -- it stands among the chunk's nodes, if the nodes before it are unregistered, do not answer,
    -- or answer with the same bytes.
    pub read_chunk_with_fallback_lem :
        (before : List ℤ) (id : ℤ) (after : List ℤ) (w : W)
        → All (IsHonest content) before
        → HasReplica client nodes chunk_id content w id
        → let (st, chunk_data, w') =
            read_chunk_with_fallback client nodes chunk_id (before ++ id ∷ after) w in
          (st ≡ status_ok) × (chunk_data ≡ content)
    read_chunk_with_fallback_lem before id after w h r =
        rw (read_chunk-try_nodes (before ++ id ∷ after) w (not_empty before))
          (try_nodes_fallback before id after w h r)
      where
        not_empty : (xs : List ℤ) → is_empty (xs ++ id ∷ after) ≡ false
        not_empty [] = refl
        not_empty (x ∷ xs) = refl
