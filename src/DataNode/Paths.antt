-- ===== src/DataNode/Paths.antt =====
-- `get_chunk_path` and `create_directories_recursively` (datanode/src/datanode_utils.cpp).
pub mod Distinct
use toy_dfs.Prelude.{
  ℕ, suc, ◌*◌, Bool, true, false, not, ◌&&◌, List, [], ◌∷◌, ◌++◌, Option, none, some, ℤ, div_trunc,
  mod_trunc, if◌then◌else◌, take, drop, ◌==◌, nat_beq,
}
use toy_dfs.Bytes.{Bytes, bytes_eq, bytes_beq, codes, is_empty, find_byte}
use toy_dfs.Bytes.Decimal.{to_string, stoi}
use toy_dfs.DataNode.{DataNodeConfig}
use toy_dfs.DataNode.Files.{FileSystem, MkdirResult}

abbrev pub group_size : ℕ
group_size = 1000

unfoldable pub base_path : DataNodeConfig → Bytes
base_path config =
    if not (is_empty config.node_id)
    then config.chunk_root_path ++ (b'/' ∷ config.node_id)
    else config.chunk_root_path

-- Two levels of directories of a thousand entries each.
unfoldable pub dir_path : DataNodeConfig → ℤ → Bytes
unfolding base_path
dir_path config n =
    let level3 = div_trunc n (group_size * group_size) in
    let level2 = mod_trunc (div_trunc n group_size) group_size in
    base_path config ++ (b'/' ∷ (to_string level3 ++ (b'/' ∷ to_string level2)))

unfoldable pub chunk_file : DataNodeConfig → ℤ → Bytes
unfolding dir_path
chunk_file config n = dir_path config n ++ (b'/' ∷ (to_string n ++ codes ".cfile"))

-- What the id says: another name than a chunk's, a number, or a number that `stoi` refuses.
pub data ChunkId : Type 0 where
  other_name : ChunkId
  numbered : ℤ → ChunkId
  refused : ChunkId

abbrev number_or_refused : Option ℤ → ChunkId
number_or_refused none = refused
number_or_refused (some n) = numbered n

unfoldable pub parse_chunk_id : Bytes → ChunkId
unfolding codes
parse_chunk_id chunk_id = elim (find_byte b'_' chunk_id) [
  | none ↦ other_name
  | some pos ↦
      if not (take pos chunk_id == codes "chunk")
      then other_name
      else number_or_refused (stoi (drop (suc pos) chunk_id))
]

-- `mkdir(...) != 0 && errno != EEXIST`
abbrev pub cannot_make : MkdirResult → Bool
cannot_make (MkdirResult.failed errno) = true
cannot_make MkdirResult.created = false
cannot_make MkdirResult.already_there = false

module _ {D : Type 0} (fs : FileSystem D) (host : Bytes) where
  -- `current` is the path up to the place that the search for '/' has come to. The result is false
  -- where the source throws.
  unfoldable pub make_directories : Bytes → Bytes → D → Bool × D
  make_directories current [] d = let (r, d') = fs.mkdir host current d in (not (cannot_make r), d')
  make_directories current (c ∷ rest) d =
      let next = current ++ c ∷ [] in
      if nat_beq c b'/' && not (is_empty current)
      then (let (r, d') = fs.mkdir host current d in
          let more = make_directories next rest d' in if cannot_make r then (false, d') else more)
      else let more = make_directories next rest d in more

  -- The path, or `none` where `stoi` throws. A directory that cannot be made is passed over.
  unfoldable pub path_for : DataNodeConfig → Bytes → ChunkId → D → Option Bytes × D
  unfolding make_directories
  path_for config chunk_id other_name d = (some chunk_id, d)
  path_for config chunk_id refused d = (none, d)
  path_for config chunk_id (numbered n) d =
      (some (chunk_file config n), (make_directories [] (dir_path config n) d).1)

  unfoldable pub get_chunk_path : DataNodeConfig → Bytes → D → Option Bytes × D
  unfolding path_for
  get_chunk_path config chunk_id d = path_for config chunk_id (parse_chunk_id chunk_id) d
