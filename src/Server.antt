-- ===== src/Server.antt =====
-- The server of a data node (server/include/datanode_server.h, server/src/datanode_server.cpp): how a
-- starting node registers with the coordinator and a stopping one leaves. The coordinator's answers
-- are parameters, with `S` the state behind them. The gRPC server is in Lifecycle.
pub mod Registration
pub mod Lifecycle
mod Tests
use toy_dfs.Prelude.{
  suc, Bool, true, false, Option, none, some, ℤ, pos, negsuc, is_positive, drop, ◌&&◌,
  if◌then◌else◌,
}
use toy_dfs.Bytes.{Bytes, rfind_byte}
use toy_dfs.Bytes.Decimal.{stoi}
use toy_dfs.Grpc.{Status, is_ok, RegisterResponse, UnregisterResponse}

pub record DataNodeServer : Type 0 where
  pub listening_port : ℤ
  pub node_id : ℤ

abbrev server_at : ℤ → DataNodeServer
server_at port = record { listening_port = port; node_id = negsuc 0 }

-- The constructor; `none` where `stoi` throws.
unfoldable pub create : Bytes → Option DataNodeServer
create address = elim (rfind_byte b':' address) [
  | none ↦ some (server_at (pos 50052))
  | some colon_pos ↦ elim (stoi (drop (suc colon_pos) address)) [
    | none ↦ none
    | some port ↦ some (server_at port)
  ]
]

module _ {S : Type 0} where
  unfoldable pub register_with_coordinator :
      (ℤ → S → Status × RegisterResponse × S) → DataNodeServer → S → Bool × DataNodeServer × S
  register_with_coordinator rpc server s =
      let (st, resp, s') = rpc server.listening_port s in
      if is_ok st && resp.success
      then (true, record server { node_id = resp.node_id }, s')
      else (false, server, s')

  unfoldable pub unregister_with_coordinator :
      (ℤ → S → Status × UnregisterResponse × S) → DataNodeServer → S → Bool × S
  unregister_with_coordinator rpc server s =
      if is_positive server.node_id
      then (let (st, resp, s') = rpc server.node_id s in (is_ok st && resp.success, s'))
      else (false, s)

  -- A failed registration only writes a warning.
  unfoldable pub start :
      (ℤ → S → Status × RegisterResponse × S) → DataNodeServer → S → DataNodeServer × S
  unfolding register_with_coordinator
  start rpc server s =
      let (registered, server', s') = register_with_coordinator rpc server s in (server', s')

  -- So does a failed unregistration.
  unfoldable pub stop : (ℤ → S → Status × UnregisterResponse × S) → DataNodeServer → S → S
  unfolding unregister_with_coordinator
  stop rpc server s =
      if is_positive server.node_id then (unregister_with_coordinator rpc server s).1 else s
