-- ===== src/Coordinator/Deletion.antt =====
-- `DeleteFile`, and the chunk deleter that `cleanupWorker` hands to the store. The log lines of the
-- deleter are part of the model: they are all that it reports.
pub mod Laws
use toy_dfs.Prelude.{
  ℕ, Bool, true, false, List, [], ◌∷◌, ◌++◌, Option, none, some, ℤ, int_eq, if◌then◌else◌,
}
use toy_dfs.Bytes.{Bytes, codes}
use toy_dfs.Grpc.{Status, status, status_ok, is_ok, not_found, DeleteChunkResponse}
use toy_dfs.Table.{find}
use toy_dfs.MetadataStore
use toy_dfs.MetadataStore.{MetadataStore, ChunkInfo, FileMeta}
use toy_dfs.Coordinator.{Coordinator, DataNodeInfo, Nodes}
use toy_dfs.Coordinator.Client.{DataNodeClient}

-- The status, the response's `success`, and the state. The first deletion sets the flag and starts
-- the cleanup thread.
unfoldable pub delete_file : ℕ → ℕ → Bytes → Coordinator → Status × Bool × Coordinator
delete_file now later path c =
    let (found, store') = MetadataStore.get_file path c.store in
    elim found [
      | none ↦ (status not_found (codes "File not found"), false, record c { store = store' })
      | some meta ↦ (
        status_ok,
        true,
        record c { store = MetadataStore.delete_path now later path store'; running = true },
      )
    ]

-- What the deleter writes to the log about one replica.
pub data Outcome : Type 0 where
  not_registered : Outcome
  rpc_error : Status → Outcome
  not_deleted : Bytes → Outcome
  deleted : Outcome

pub record Event : Type 0 where
  pub chunk_id : Bytes
  pub node_id : ℤ
  pub outcome : Outcome

-- `DeleteChunkResponse del_resp;`, which no call fills in.
abbrev pub del_resp : DeleteChunkResponse
del_resp = record { success = false; error_message = codes "" }

module _ {W : Type 0} (client : DataNodeClient W) (nodes : Nodes) where
  -- The cases after the call.
  abbrev pub outcome_of : Status → DeleteChunkResponse → Outcome
  outcome_of st resp =
      if is_ok st
      then (if resp.success then deleted else not_deleted resp.error_message)
      else rpc_error st

  unfoldable pub delete_replica : Bytes → ℤ → W × List Event → W × List Event
  delete_replica chunk_id node_id (w, log) = elim (find node_id nodes) [
    | none ↦ (
      w,
      log ++ (record { chunk_id = chunk_id; node_id = node_id; outcome = not_registered }) ∷ [],
    )
    | some info ↦
        let (st, w') = client.delete_chunk info.address info.port chunk_id w in
        (
          w',
          log
              ++ (record {
                chunk_id = chunk_id;
                node_id = node_id;
                outcome = outcome_of st del_resp;
              })
                ∷ [],
        )
  ]

  unfoldable pub delete_replicas : Bytes → List ℤ → W × List Event → W × List Event
  unfolding delete_replica
  delete_replicas chunk_id [] s = s
  delete_replicas chunk_id (id ∷ ids) s =
      delete_replicas chunk_id ids (delete_replica chunk_id id s)

  unfoldable pub delete_chunks : List ChunkInfo → W × List Event → W × List Event
  unfolding delete_replicas
  delete_chunks [] s = s
  delete_chunks (chunk ∷ chunks) s =
      delete_chunks chunks (delete_replicas chunk.chunk_id chunk.node_ids s)

  unfoldable pub chunk_deleter : FileMeta → W × List Event → W × List Event
  unfolding delete_chunks
  chunk_deleter meta s = delete_chunks meta.chunks s

-- One round of the cleanup thread, at the time `now`: the new state, the data nodes and the log.
unfoldable pub cleanup_round :
    {W : Type 0} → DataNodeClient W → ℕ → Coordinator → W → Coordinator × W × List Event
cleanup_round client now c w =
    let (store', (w', log)) =
      MetadataStore.cleanup_tombstones now (some (chunk_deleter client c.registered_nodes)) c.store
        (w, []) in
    (record c { store = store' }, w', log)
