-- ===== src/DataNode.antt =====
-- The data node: where a chunk is stored, the service that stores it, and the coordinator's client of
-- that service (datanode/, without the command line of datanode/src/main.cpp).
pub mod Files
pub mod Paths
pub mod Service
pub mod Stub
mod Tests
use toy_dfs.Prelude.{Bool, true, false, ◌++◌, if◌then◌else◌, ℕ}
use toy_dfs.Bytes.{Bytes, codes, is_empty}
use toy_dfs.Bytes.Decimal.{to_string_nat}

-- datanode/include/datanode_config.h
pub record DataNodeConfig : Type 0 where
  pub chunk_root_path : Bytes
  pub node_id : Bytes

unfoldable pub default_config : DataNodeConfig
default_config = record { chunk_root_path = codes "/tmp/dfs_chunks"; node_id = codes "" }

-- `CreateUnique`; `drawn` is the number between 1000 and 9999 that the generator draws.
unfoldable pub create_unique : Bytes → Bytes → ℕ → DataNodeConfig
create_unique base_path unique_suffix drawn = record {
  chunk_root_path = base_path;
  node_id = if is_empty unique_suffix then codes "node_" ++ to_string_nat drawn else unique_suffix;
}
