-- ===== src/DataNode/Service.antt =====
-- The service (datanode/src/datanode_service_impl.cpp): `PutChunk`, `GetChunk`, `DeleteChunk`.
pub mod Blocks
use toy_dfs.Prelude.{
  ℕ, zero, suc, Bool, true, false, List, [], ◌∷◌, ◌++◌, Option, none, some, if◌then◌else◌, leb,
  take, drop, length,
}
use toy_dfs.Bytes.{Bytes, codes, is_empty}
use toy_dfs.Grpc.{
  Status, status, status_ok, internal, not_found, PutChunkRequest, DeleteChunkResponse,
}
use toy_dfs.DataNode.{DataNodeConfig}
use toy_dfs.DataNode.Files.{FileSystem, RemoveResult}
use toy_dfs.DataNode.Paths.{get_chunk_path}

-- A handler returns, or lets an exception of `stoi` through.
pub data Handled {ℓ} (A : Type ℓ) : Type ℓ where
  returned : A → Handled A
  threw : Handled A

abbrev pub buffer_size : ℕ
buffer_size = 4096

-- The loop of `GetChunk` over the content that is left, into a stream that says of each message, by
-- its number, whether it takes it. The source ignores whether the last message, a part of the
-- buffer, was taken. `fuel` counts the rounds; one more than the length of the content is enough.
unfoldable pub send_blocks : ℕ → Bytes → (ℕ → Bool) → ℕ → Status × List Bytes
send_blocks zero content takes i = (status_ok, [])
send_blocks (suc fuel) content takes i =
    let (st, messages) = send_blocks fuel (drop buffer_size content) takes (suc i) in
    if leb buffer_size (length content)
    then (if takes i
        then (st, take buffer_size content ∷ messages)
        else (status internal (codes "Write failed"), []))
    else if is_empty content
    then (status_ok, [])
    else (status_ok, if takes i then content ∷ [] else [])

module _ {D : Type 0} (fs : FileSystem D) (host : Bytes) (config : DataNodeConfig) where
  unfoldable pub write_all : Bytes → List PutChunkRequest → D → D
  write_all path [] d = d
  write_all path (req ∷ reqs) d = write_all path reqs (fs.append host path req.content d)

  unfoldable pub open_and_write : Bytes → List PutChunkRequest → D → Handled (Status × Bool) × D
  unfolding write_all
  open_and_write path reqs d =
      let (opened, d') = fs.open_write host path d in
      if opened
      then (returned (status_ok, true), write_all path reqs d')
      else (returned (status internal (codes "Failed to open file"), false), d')

  -- The status and the response's `success`. The first message names the chunk. Whether the writes
  -- succeeded is not asked.
  unfoldable pub put_chunk : List PutChunkRequest → D → Handled (Status × Bool) × D
  unfolding open_and_write
  put_chunk [] d = (returned (status_ok, true), d)
  put_chunk (req ∷ reqs) d =
      let (path, d') = get_chunk_path fs host config req.chunk_id d in
      elim path [ none ↦ (threw, d') | some p ↦ open_and_write p (req ∷ reqs) d' ]

  unfoldable pub get_chunk : Bytes → (ℕ → Bool) → D → Handled (Status × List Bytes) × D
  get_chunk chunk_id takes d =
      let (path, d') = get_chunk_path fs host config chunk_id d in
      elim path [
        | none ↦ (threw, d')
        | some p ↦ elim (fs.read_file host p d') [
          | none ↦ (returned (status not_found (codes "Chunk not found"), []), d')
          | some content ↦ (returned (send_blocks (suc (length content)) content takes 0), d')
        ]
      ]

  abbrev remove_response : RemoveResult → DeleteChunkResponse
  remove_response RemoveResult.removed = record { success = true; error_message = codes "" }
  remove_response RemoveResult.no_entry = record { success = true; error_message = codes "" }
  remove_response (RemoveResult.failed e) = record { success = false; error_message = e }

  unfoldable pub delete_chunk : Bytes → D → Handled (Status × DeleteChunkResponse) × D
  delete_chunk chunk_id d =
      let (path, d') = get_chunk_path fs host config chunk_id d in
      elim path [
        | none ↦ (threw, d')
        | some p ↦
            let (r, d'') = fs.remove host p d' in (returned (status_ok, remove_response r), d'')
      ]
