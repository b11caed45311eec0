-- ===== src/DataNode/Stub/Disks.antt =====
-- What the handlers of the data node do to the files of the disks.
use toy_dfs.Prelude.{
  ◌≡◌, ◌≢◌, ◌⊎◌, refl, ◌∙◌, true, false, List, [], ◌∷◌, ◌++◌, Option, none, some, Bool-cases, inl,
  inr, not, ◌&&◌, nat_beq,
}
use toy_dfs.Bytes.{Bytes, codes, is_empty}
use toy_dfs.Grpc.{status, status_ok, internal, PutChunkRequest}
use toy_dfs.DataNode.{DataNodeConfig}
use toy_dfs.DataNode.Files.{FileSystem, IsLasting}
use toy_dfs.DataNode.Paths.{
  get_chunk_path, path_for, make_directories, parse_chunk_id, chunk_file, dir_path, ChunkId,
  numbered, refused, other_name, cannot_make,
}
use toy_dfs.DataNode.Service.{returned, open_and_write, write_all}

-- The path of a chunk does not depend on the disks.
abbrev pub path_of : DataNodeConfig → Bytes → ChunkId → Option Bytes
path_of config chunk_id other_name = some chunk_id
path_of config chunk_id (numbered n) = some (chunk_file config n)
path_of config chunk_id refused = none

abbrev pub chunk_path : DataNodeConfig → Bytes → Option Bytes
chunk_path config chunk_id = path_of config chunk_id (parse_chunk_id chunk_id)

-- The one message of a write.
abbrev pub message : Bytes → Bytes → List PutChunkRequest
message chunk_id content = (record { chunk_id = chunk_id; content = content }) ∷ []

module _ {D : Type 0} (fs : FileSystem D) (lasting : IsLasting fs) where
  make_directories_keeps :
      (host host' path current rest : Bytes) (d : D)
      → fs.read_file host' path (make_directories fs host current rest d).1
        ≡ fs.read_file host' path d
  unfolding make_directories
  make_directories_keeps host host' path current [] d =
      lasting.mkdir_keeps host current host' path d
  make_directories_keeps host host' path current (c ∷ rest) d =
      let next = current ++ c ∷ [] in
      let d' = (fs.mkdir host current d).1 in
      let kept = lasting.mkdir_keeps host current host' path d in
      let later = make_directories_keeps host host' path next rest d' ∙ kept in
      let plain = make_directories_keeps host host' path next rest d in
      elim (Bool-cases (nat_beq c b'/' && not (is_empty current))) [
        | inl cut ↦ rw cut (elim (Bool-cases (cannot_make (fs.mkdir host current d).0)) [
          | inl stop ↦ rw stop kept
          | inr go ↦ rw go later
        ])
        | inr on ↦ rw on plain
      ]

  path_for-path_of :
      (host : Bytes) (config : DataNodeConfig) (chunk_id : Bytes) (parsed : ChunkId) (d : D)
      → (path_for fs host config chunk_id parsed d).0 ≡ path_of config chunk_id parsed
  unfolding path_for
  path_for-path_of host config chunk_id other_name d = refl
  path_for-path_of host config chunk_id (numbered n) d = refl
  path_for-path_of host config chunk_id refused d = refl

  path_for_keeps :
      (host : Bytes) (config : DataNodeConfig) (chunk_id : Bytes) (parsed : ChunkId)
      (host' path : Bytes) (d : D)
      → fs.read_file host' path (path_for fs host config chunk_id parsed d).1
        ≡ fs.read_file host' path d
  unfolding path_for
  path_for_keeps host config chunk_id other_name host' path d = refl
  path_for_keeps host config chunk_id (numbered n) host' path d =
      make_directories_keeps host host' path [] (dir_path config n) d
  path_for_keeps host config chunk_id refused host' path d = refl

  pub get_chunk_path-chunk_path :
      (host : Bytes) (config : DataNodeConfig) (chunk_id : Bytes) (d : D)
      → (get_chunk_path fs host config chunk_id d).0 ≡ chunk_path config chunk_id
  unfolding get_chunk_path
  get_chunk_path-chunk_path host config chunk_id d = path_for-path_of host config chunk_id _ d

  pub get_chunk_path_keeps :
      (host : Bytes) (config : DataNodeConfig) (chunk_id host' path : Bytes) (d : D)
      → fs.read_file host' path (get_chunk_path fs host config chunk_id d).1
        ≡ fs.read_file host' path d
  unfolding get_chunk_path
  get_chunk_path_keeps host config chunk_id host' path d =
      path_for_keeps host config chunk_id _ host' path d

  pub open_and_write-reads :
      (host : Bytes) (config : DataNodeConfig) (path chunk_id content : Bytes) (d : D)
      → let (r, d') = open_and_write fs host config path (message chunk_id content) d in
        (r ≡ returned (status internal (codes "Failed to open file"), false))
        ⊎ ((r ≡ returned (status_ok, true)) × (fs.read_file host path d' ≡ some content))
  unfolding open_and_write write_all
  open_and_write-reads host config path chunk_id content d =
      elim (Bool-cases (fs.open_write host path d).0) [
        | inl opened ↦ rw opened (
            inr (
              refl,
              lasting.append_adds host path content [] _ (lasting.open_empties host path d opened),
            ))
        | inr failed ↦ rw failed (inl refl)
      ]

  pub open_and_write_keeps :
      (host : Bytes) (config : DataNodeConfig) (path chunk_id content host' path' : Bytes) (d : D)
      → ◌≢◌ {A = Bytes × Bytes} (host, path) (host', path')
      → fs.read_file host' path' (open_and_write fs host config path (message chunk_id content) d).1
        ≡ fs.read_file host' path' d
  unfolding open_and_write write_all
  open_and_write_keeps host config path chunk_id content host' path' d apart =
      let kept = lasting.open_keeps host path host' path' d apart in
      elim (Bool-cases (fs.open_write host path d).0) [
        | inl opened ↦ rw opened (lasting.append_keeps host path host' path' content _ apart ∙ kept)
        | inr failed ↦ rw failed kept
      ]
