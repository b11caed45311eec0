-- ===== src/DataNode/Stub.antt =====
-- The coordinator's client of a data node (datanode/src/datanode_stub_wrapper.cpp), over gRPC. The
-- transport is not the program's: a reachable address leads to one service on one host, a message
-- stream arrives whole and in order, and a handler that throws answers with UNKNOWN.
pub mod Disks
pub mod Stored
pub mod Written
pub mod Reliable
use toy_dfs.Prelude.{
  ◌≡◌, Bool, true, false, List, [], ◌∷◌, Option, none, some, ℤ, if◌then◌else◌, ◌&&◌, not,
}
use toy_dfs.Bytes.{Bytes, codes, is_empty}
use toy_dfs.Grpc.{Status, status, is_ok, unknown, DeleteChunkResponse}
use toy_dfs.Coordinator.Client.{DataNodeClient}
use toy_dfs.Coordinator.Download.Stream.{joined}
use toy_dfs.DataNode.{DataNodeConfig}
use toy_dfs.DataNode.Files.{FileSystem}
use toy_dfs.DataNode.Service
use toy_dfs.DataNode.Service.{Handled, returned, threw}

pub record Transport : Type 0 where
  -- The host and the configuration of the service at that address and port, if it can be reached.
  pub locate : Bytes → ℤ → Option (Bytes × DataNodeConfig)
  pub unreachable : Status
  pub unreachable_fails : is_ok unreachable ≡ false

abbrev pub handler_threw : Status
handler_threw = status unknown (codes "Unexpected error in RPC handling")

module _ {D : Type 0} (transport : Transport) (fs : FileSystem D) where
  abbrev pub finish_put : Handled (Status × Bool) × D → Status × D
  finish_put (returned (st, success), d) = (st, d)
  finish_put (threw, d) = (handler_threw, d)

  -- One message with the id and the data; the response is not looked at.
  unfoldable pub put_chunk : Bytes → ℤ → Bytes → Bytes → D → Status × D
  put_chunk address port chunk_id content d = elim (transport.locate address port) [
    | none ↦ (transport.unreachable, d)
    | some (host, config) ↦ finish_put (
        Service.put_chunk fs host config ((record { chunk_id = chunk_id; content = content }) ∷ [])
          d)
  ]

  -- The data stays empty unless a message came and the status is OK.
  abbrev pub received : Status → List Bytes → Bytes
  received st messages = if is_ok st && not (is_empty messages) then joined messages else []

  abbrev pub finish_get : Handled (Status × List Bytes) × D → Status × Bytes × D
  finish_get (returned (st, messages), d) = (st, received st messages, d)
  finish_get (threw, d) = (handler_threw, [], d)

  -- The reader takes every message.
  unfoldable pub get_chunk : Bytes → ℤ → Bytes → D → Status × Bytes × D
  get_chunk address port chunk_id d = elim (transport.locate address port) [
    | none ↦ (transport.unreachable, [], d)
    | some (host, config) ↦ finish_get (Service.get_chunk fs host config chunk_id (λ i. true) d)
  ]

  abbrev pub finish_delete : Handled (Status × DeleteChunkResponse) × D → Status × D
  finish_delete (returned (st, response), d) = (st, d)
  finish_delete (threw, d) = (handler_threw, d)

  unfoldable pub delete_chunk : Bytes → ℤ → Bytes → D → Status × D
  delete_chunk address port chunk_id d = elim (transport.locate address port) [
    | none ↦ (transport.unreachable, d)
    | some (host, config) ↦ finish_delete (Service.delete_chunk fs host config chunk_id d)
  ]

  -- The concrete client that `DataNodeStubWrapperFactory` makes.
  abbrev pub stub_client : DataNodeClient D
  stub_client = record { put_chunk = put_chunk; get_chunk = get_chunk; delete_chunk = delete_chunk }
