-- ===== src/Coordinator/Download.antt =====
-- `GetFile` and `readChunkWithFallback`.
pub mod Fallback
pub mod Stream
use toy_dfs.Prelude.{
  ℕ, zero, suc, Bool, true, false, List, [], ◌∷◌, ◌++◌, Option, none, some, ℤ, int_eq,
  if◌then◌else◌,
}
use toy_dfs.Bytes.{Bytes, codes, is_empty}
use toy_dfs.Grpc.{Status, status, status_ok, is_ok, internal, not_found}
use toy_dfs.Table.{find}
use toy_dfs.MetadataStore
use toy_dfs.MetadataStore.{MetadataStore, ChunkInfo, FileMeta}
use toy_dfs.Coordinator.{Coordinator, DataNodeInfo, Nodes}
use toy_dfs.Coordinator.Client.{DataNodeClient}

module _ {W : Type 0} (client : DataNodeClient W) where
  -- The loop over the replicas: the first that answers.
  unfoldable pub try_nodes : Nodes → Bytes → List ℤ → W → Status × Bytes × W
  try_nodes nodes chunk_id [] w =
      (status internal (codes "Failed to read chunk from any replica node"), [], w)
  try_nodes nodes chunk_id (node_id ∷ node_ids) w = elim (find node_id nodes) [
    | none ↦ try_nodes nodes chunk_id node_ids w
    | some info ↦
        let (st, chunk_data, w') = client.get_chunk info.address info.port chunk_id w in
        let next = try_nodes nodes chunk_id node_ids w' in
        if is_ok st then (status_ok, chunk_data, w') else next
  ]

  unfoldable pub read_chunk_with_fallback : Nodes → Bytes → List ℤ → W → Status × Bytes × W
  unfolding try_nodes
  read_chunk_with_fallback nodes chunk_id node_ids w =
      if is_empty node_ids
      then (status internal (codes "No nodes specified for chunk read"), [], w)
      else try_nodes nodes chunk_id node_ids w

  abbrev pub read_failure : Bytes → Status → Status
  read_failure chunk_id st =
      status internal (codes "Failed to read chunk " ++ (chunk_id ++ (codes ": " ++ st.message)))

  -- The loop over the chunks. The stream to the caller accepts `quota` more messages and then breaks;
  -- the result is the status and the messages that were accepted.
  unfoldable pub send_chunks : Nodes → List ChunkInfo → ℕ → W → Status × List Bytes × W
  unfolding read_chunk_with_fallback
  send_chunks nodes [] quota w = (status_ok, [], w)
  send_chunks nodes (chunk ∷ chunks) quota w =
      let (st, chunk_data, w') = read_chunk_with_fallback nodes chunk.chunk_id chunk.node_ids w in
      if is_ok st
      then elim quota [
        | zero ↦ (status internal (codes "Failed to write response"), [], w')
        | suc left ↦
            let (st', messages, w'') = send_chunks nodes chunks left w' in
            (st', chunk_data ∷ messages, w'')
      ]
      else (read_failure chunk.chunk_id st, [], w')

  unfoldable pub get_file : Bytes → ℕ → Coordinator → W → Status × List Bytes × Coordinator × W
  unfolding send_chunks
  get_file filename quota c w =
      let (found, store') = MetadataStore.get_file filename c.store in
      let c' = record c { store = store' } in
      elim found [
        | none ↦ (status not_found (codes "File not found"), [], c', w)
        | some meta ↦
            let (st, messages, w') = send_chunks c.registered_nodes meta.chunks quota w in
            (st, messages, c', w')
      ]
