-- ===== src/Coordinator.antt =====
-- The coordinator service (coordinator/include/coordinator_service_impl.h and
-- coordinator/src/coordinator_service_impl.cpp): its state. Each handler is in a child module.
pub mod Client
pub mod Registry
pub mod Placement
pub mod Distribution
pub mod Environment
pub mod Upload
pub mod Download
pub mod Deletion
pub mod RoundTrip
pub mod System
pub mod Worker
pub mod Concurrent
pub mod Samples
mod Tests
mod TransferTests
use toy_dfs.Prelude.{ℕ, Bool, false, [], ℤ, pos, List}
use toy_dfs.Bytes.{Bytes}
use toy_dfs.Table.{Table}
use toy_dfs.MetadataStore.{MetadataStore, empty}

pub record DataNodeInfo : Type 0 where
  pub node_id : ℤ
  pub address : Bytes
  pub port : ℤ

abbrev pub Nodes : Type 0
Nodes = Table ℤ DataNodeInfo

-- `running` is the flag of the cleanup thread, `chunk_id_counter` the static counter of `PutFile`.
pub record Coordinator : Type 0 where
  pub store : MetadataStore
  pub registered_nodes : Nodes
  pub next_node_id : ℤ
  pub next_node_index : ℕ
  pub chunk_id_counter : ℕ
  pub running : Bool

unfoldable pub init : Coordinator
unfolding empty
init = record {
  store = empty;
  registered_nodes = [];
  next_node_id = pos 1;
  next_node_index = 0;
  chunk_id_counter = 0;
  running = false;
}
