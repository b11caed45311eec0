-- ===== src/Coordinator/Registry.antt =====
-- Registration of data nodes: `RegisterDataNode`, `UnregisterDataNode`, `extractClientAddress` and
-- `resolveNodeAddresses`. The handlers touch the registry, the id counter and nothing else. Lines
-- written to the log are left out. Their `catch` blocks are not reached: nothing in the `try` throws
-- but an allocation.
pub mod Entries
pub mod Laws
use toy_dfs.Prelude.{
  ℕ, Bool, true, false, ◌&&◌, List, [], ◌∷◌, ◌++◌, Option, none, some, ℤ, pos, int_eq, ◌==◌,
  if◌then◌else◌, increment, take,
}
use toy_dfs.Bytes.{Bytes, bytes_eq, bytes_beq, codes, rfind_byte}
use toy_dfs.Bytes.Decimal.{to_string}
use toy_dfs.Grpc.{Status, status, status_ok, not_found, RegisterResponse, UnregisterResponse}
use toy_dfs.Table.{find, insert, erase}
use toy_dfs.Coordinator.{Coordinator, DataNodeInfo, Nodes}

-- "ipv4:127.0.0.1:54321" without its port.
unfoldable pub extract_client_address : Bytes → Bytes
extract_client_address peer_info = elim (rfind_byte b':' peer_info) [
  | none ↦ peer_info
  | some colon_pos ↦ take colon_pos peer_info
]

abbrev pub is_at : Bytes → ℤ → DataNodeInfo → Bool
is_at address port info = info.address == address && info.port == port

-- The first registered node at that address and port.
unfoldable pub find_conflict : Bytes → ℤ → Nodes → Option ℤ
find_conflict address port [] = none
find_conflict address port ((id, info) ∷ nodes) =
    if is_at address port info then some id else find_conflict address port nodes

abbrev pub conflict_message : Bytes → ℤ → ℤ → Bytes
conflict_message address port id =
    codes "Address:port "
    ++ (address
        ++ (codes ":"
            ++ (to_string port ++ (codes " already registered with node ID " ++ to_string id))))

unfoldable pub register_data_node :
    Bytes → ℤ → Coordinator → Status × RegisterResponse × Coordinator
unfolding extract_client_address find_conflict
register_data_node peer_info port c =
    let client_address = extract_client_address peer_info in
    elim (find_conflict client_address port c.registered_nodes) [
      | some existing_id ↦ (
        status_ok,
        record {
          success = false;
          node_id = pos 0;
          error_message = conflict_message client_address port existing_id;
        },
        c,
      )
      | none ↦ (
        status_ok,
        record { success = true; node_id = c.next_node_id; error_message = codes "" },
        record c {
          registered_nodes =
              insert c.next_node_id
                (record { node_id = c.next_node_id; address = client_address; port = port })
                c.registered_nodes;
          next_node_id = increment c.next_node_id;
        },
      )
    ]

unfoldable pub unregister_data_node : ℤ → Coordinator → Status × UnregisterResponse × Coordinator
unregister_data_node node_id c = elim (find node_id c.registered_nodes) [
  | none ↦ (
    status not_found (codes "Node not found"),
    record {
      success = false;
      error_message = codes "Node ID " ++ (to_string node_id ++ codes " not found in registry");
    },
    c,
  )
  | some info ↦ (
    status_ok,
    record { success = true; error_message = codes "" },
    record c { registered_nodes = erase node_id c.registered_nodes },
  )
]

abbrev pub node_address : DataNodeInfo → Bytes
node_address info = info.address ++ (codes ":" ++ to_string info.port)

unfoldable pub resolve_address : Nodes → ℤ → Bytes
resolve_address nodes node_id = elim (find node_id nodes) [
  | some info ↦ node_address info
  | none ↦ codes "unknown:" ++ to_string node_id
]

unfoldable pub resolve_node_addresses : Nodes → List ℤ → List Bytes
unfolding resolve_address
resolve_node_addresses nodes [] = []
resolve_node_addresses nodes (node_id ∷ node_ids) =
    resolve_address nodes node_id ∷ resolve_node_addresses nodes node_ids
