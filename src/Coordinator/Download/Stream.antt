-- ===== src/Coordinator/Download/Stream.antt =====
-- The messages that `GetFile` sends for a stored file.
use toy_dfs.Prelude.{
  ℕ, zero, suc, ◌≤◌, ◌≡◌, refl, ap, ◌∙◌, sym, subst, false, List, [], ◌∷◌, ◌++◌, ℤ, min, arith, All,
  All-map, length, append_assoc,
}
use toy_dfs.Bytes.{Bytes, is_empty}
use toy_dfs.Grpc.{status_ok, internal}
use toy_dfs.MetadataStore.{ChunkInfo}
use toy_dfs.Coordinator.{Nodes}
use toy_dfs.Coordinator.Client.{DataNodeClient, IsReliable}
use toy_dfs.Coordinator.Distribution.Replicas.{HasReplica}
use toy_dfs.Coordinator.Upload.Stored.{Stored}
use toy_dfs.Coordinator.Download.{read_chunk_with_fallback, send_chunks}
use toy_dfs.Coordinator.Download.Fallback.{try_nodes_answered, read_chunk-try_nodes}

abbrev pub joined : List Bytes → Bytes
joined [] = []
joined (m ∷ ms) = m ++ joined ms

module _ {W : Type 0} (client : DataNodeClient W) (reliable : IsReliable client)
    (nodes : Nodes) where
  -- A read of a chunk that all its nodes hold: the first node answers, and nothing is lost.
  record ReadBack (chunk : ChunkInfo) (here : Bytes) (w : W) : Type 0 where
    succeeds : (read_chunk_with_fallback client nodes chunk.chunk_id chunk.node_ids w).0 ≡ status_ok
    returns : (read_chunk_with_fallback client nodes chunk.chunk_id chunk.node_ids w).1 ≡ here
    keeps :
        (other : Bytes) (content : Bytes) (id : ℤ)
        → HasReplica client nodes other content w id
        → HasReplica client nodes other content
            (read_chunk_with_fallback client nodes chunk.chunk_id chunk.node_ids w).2
            id

  read_back :
      (chunk : ChunkInfo) (here : Bytes) (w : W)
      → is_empty chunk.node_ids ≡ false
      → All (HasReplica client nodes chunk.chunk_id here w) chunk.node_ids
      → ReadBack chunk here w
  read_back chunk here w some_node held = first chunk.node_ids refl some_node held
    where
      first :
          (ids : List ℤ)
          → chunk.node_ids ≡ ids
          → is_empty ids ≡ false
          → All (HasReplica client nodes chunk.chunk_id here w) ids
          → ReadBack chunk here w
      first [] e h held' = cc
      first (id ∷ ids) e h held' =
          let (info, f, answer) = held'.0 in
          let r = client.get_chunk info.address info.port chunk.chunk_id w in
          let answered : read_chunk_with_fallback client nodes chunk.chunk_id chunk.node_ids w
              ≡ (status_ok, r.1, r.2) =
            ap (λ l. read_chunk_with_fallback client nodes chunk.chunk_id l w) e
            ∙ read_chunk-try_nodes client nodes chunk.chunk_id (id ∷ ids) w refl
            ∙ try_nodes_answered client nodes chunk.chunk_id id ids w info f answer.reads in
          record {
            succeeds = ap (λ t. t.0) answered;
            returns = ap (λ t. t.1) answered ∙ answer.same;
            keeps = λ other content j k.
                subst (λ (v : W). HasReplica client nodes other content v j)
                  (sym (ap (λ t. t.2) answered))
                  (
                    k.0,
                    k.1,
                    reliable.get_keeps info.address k.0.address info.port k.0.port chunk.chunk_id
                        other content w k.2,
                  );
          }

  keeps-Stored :
      (bound : ℕ) (chunks : List ChunkInfo) (content : Bytes) (w w' : W)
      → ((chunk_id : Bytes) (here : Bytes) (id : ℤ)
          → HasReplica client nodes chunk_id here w id
          → HasReplica client nodes chunk_id here w' id)
      → Stored client nodes bound w chunks content
      → Stored client nodes bound w' chunks content
  keeps-Stored bound [] content w w' keep s = s
  keeps-Stored bound (chunk ∷ chunks) content w w' keep s =
      let (here, rest, cut, some_node, number, named, below, held, more) = s in
      (
        here,
        rest,
        cut,
        some_node,
        number,
        named,
        below,
        All-map _ _ (keep chunk.chunk_id here) chunk.node_ids held,
        keeps-Stored bound chunks rest w w' keep more,
      )

  -- The messages are the file from its start on. If the stream takes them all they are the whole
  -- file and the status is OK; if it breaks, the status is INTERNAL.
  pub send_chunks-Stored :
      (bound : ℕ) (chunks : List ChunkInfo) (content : Bytes) (quota : ℕ) (w : W)
      → Stored client nodes bound w chunks content
      → let (st, messages, w') = send_chunks client nodes chunks quota w in
        (length messages ≡ min quota (length chunks))
        × ((rest : Bytes) × (content ≡ joined messages ++ rest))
        × (length chunks ≤ quota → (st ≡ status_ok) × (joined messages ≡ content))
        × (suc quota ≤ length chunks → st.code ≡ internal)
  unfolding send_chunks
  send_chunks-Stored bound [] content quota w s =
      (omega arith, (content, refl), (λ h. (refl, sym s)), λ h. absurd (omega arith))
  send_chunks-Stored bound (chunk ∷ chunks) content zero w s =
      let (here, rest, cut, some_node, number, named, below, held, more) = s in
      let back = read_back chunk here w some_node held in
      rw back.succeeds (omega arith, (content, refl), (λ h. absurd (omega arith)), λ h. refl)
  send_chunks-Stored bound (chunk ∷ chunks) content (suc left) w s =
      let (here, rest, cut, some_node, number, named, below, held, more) = s in
      let back = read_back chunk here w some_node held in
      let w' = (read_chunk_with_fallback client nodes chunk.chunk_id chunk.node_ids w).2 in
      let (count, (unsent, split), whole, broken) =
        send_chunks-Stored bound chunks rest left w'
          (keeps-Stored bound chunks rest w w' back.keeps more) in
      rw (back.succeeds, back.returns)
        (
          omega (arith, count),
          (unsent, cut ∙ ap (λ t. here ++ t) split ∙ simp append_assoc),
          (λ h. let (ok, all) = whole (omega arith) in (ok, ap (λ t. here ++ t) all ∙ sym cut)),
          λ h. broken (omega arith),
        )
