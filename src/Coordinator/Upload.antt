-- ===== src/Coordinator/Upload.antt =====
-- `PutFile`: read the stream, cut the data into chunks, write each chunk to its nodes, and only then
-- enter the file in the metadata.
pub mod Chunks
pub mod Stored
pub mod Failure
pub mod Defined
pub mod Keeps
use toy_dfs.Prelude.{
  ℕ, zero, suc, ◌+◌, ◌-◌, ◌*◌, ◌/◌, ◌%◌, min, Bool, true, false, List, [], ◌∷◌, ◌++◌, Option, none,
  some, ℤ, pos, pos_part, to_int32, int_max, if◌then◌else◌, leb, length, take, drop,
}
use toy_dfs.Bytes.{Bytes, codes, is_empty}
use toy_dfs.Grpc.{
  Status, status, status_ok, is_ok, internal, already_exists, invalid_argument, PutFileRequest,
}
use toy_dfs.MetadataStore
use toy_dfs.MetadataStore.{MetadataStore, ChunkInfo, FileMeta, size_modulus, is_some}
use toy_dfs.Coordinator.{Coordinator}
use toy_dfs.Coordinator.Client.{DataNodeClient, chunk_name}
use toy_dfs.Coordinator.Environment.{Environment}
use toy_dfs.Coordinator.Placement.{select_nodes}
use toy_dfs.Coordinator.Distribution.{distribute}

-- 1 MB
abbrev pub chunk_size : ℕ
chunk_size = 1048576

abbrev pub replicas : ℤ
replicas = pos 3

-- An `int`, of a quotient of `size_t`s.
unfoldable pub num_chunks : ℕ → ℤ
num_chunks size = to_int32 ((size + (chunk_size - 1)) % size_modulus / chunk_size)

-- The bytes from `i * chunk_size` up to the next chunk or the end. The product is one of `int`s: past
-- the range of `int` the behaviour is undefined, `none`.
unfoldable pub chunk_at : ℕ → Bytes → Option Bytes
chunk_at i file_data =
    let start = i * chunk_size in
    let end = min (start + chunk_size) (length file_data) in
    if leb start int_max then some (take (end - start) (drop start file_data)) else none

-- How the loop over the chunks ends.
pub data Loop : Type 0 where
  finished : List ChunkInfo → Loop
  stopped : Status → Loop
  undefined : Loop

-- How the call ends: by a status and the response's `success`, or by undefined behaviour.
pub data PutResult : Type 0 where
  returned : Status → Bool → PutResult
  undefined : PutResult

abbrev pub fresh_number : Coordinator → Coordinator
fresh_number c = record c { chunk_id_counter = (c.chunk_id_counter + 1) % size_modulus }

abbrev pub chunk_info : ℕ → List ℤ → ChunkInfo
chunk_info number node_ids = record {
  chunk_id = chunk_name number;
  node_ids = node_ids;
  replication_factor = replicas;
}

abbrev pub file_meta : ℕ → List ChunkInfo → FileMeta
file_meta size chunks = record { size = pos size; chunk_size = pos chunk_size; chunks = chunks }

-- After the loop: the file becomes visible only if every chunk was written.
abbrev pub finish {ℓ} :
    {W : Type ℓ} → Bytes → ℕ → Loop × Coordinator × W → PutResult × Coordinator × W
finish filename size (finished chunks, c, w) = (
  returned status_ok true,
  record c { store = MetadataStore.put_file filename (file_meta size chunks) c.store },
  w,
)
finish filename size (stopped st, c, w) = (returned st false, c, w)
finish filename size (undefined, c, w) = (undefined, c, w)

-- The data of the messages that are left on the stream.
abbrev pub read_data : List PutFileRequest → Bytes
read_data [] = []
read_data (req ∷ reqs) = req.content ++ read_data reqs

module _ {W : Type 0} (env : Environment W) where
  -- The loop from the i-th chunk on, with `n` rounds left.
  unfoldable pub put_chunks :
      ℕ → ℕ → Bytes → List ChunkInfo → Coordinator → W → Loop × Coordinator × W
  put_chunks zero i file_data chunks c w = (finished chunks, c, w)
  put_chunks (suc n) i file_data chunks c w =
      let number = c.chunk_id_counter in
      let (node_ids, c') = select_nodes env.iteration replicas (fresh_number c) in
      if is_empty node_ids
      then (stopped (status internal (codes "No nodes available for replication")), c', w)
      else elim (chunk_at i file_data) [
        | none ↦ (Loop.undefined, c', w)
        | some chunk_data ↦
            let (st, w') =
              distribute env.client c'.registered_nodes (chunk_name number) chunk_data
                (env.schedule number) node_ids w in
            let rest =
              put_chunks n (i + 1) file_data (chunks ++ chunk_info number node_ids ∷ []) c' w' in
            if is_ok st then rest else (stopped st, c', w')
      ]

  unfoldable pub store_file : Bytes → Bytes → Coordinator → W → PutResult × Coordinator × W
  unfolding num_chunks
  store_file filename file_data c w =
      if is_empty filename
      then (returned (status invalid_argument (codes "Filename not provided")) false, c, w)
      else finish filename (length file_data)
          (put_chunks (pos_part (num_chunks (length file_data))) 0 file_data [] c w)

  -- The first message names the file, and ends the call if there is such a file.
  unfoldable pub put_file : List PutFileRequest → Coordinator → W → PutResult × Coordinator × W
  unfolding store_file
  put_file [] c w = store_file [] [] c w
  put_file (req ∷ reqs) c w =
      let (found, store') = MetadataStore.get_file req.filename c.store in
      let c' = record c { store = store' } in
      if is_some found
      then (returned (status already_exists (codes "File exists")) false, c', w)
      else store_file req.filename (read_data (req ∷ reqs)) c' w
