-- ===== src/Coordinator/Tests.antt =====
-- The handlers on a small cluster whose data nodes share one table of chunks.
use toy_dfs.Prelude.{
  ℕ, increment, ◌≡◌, refl, true, false, List, [], ◌∷◌, pos, arith, length, ◌++◌, ◌+◌, int_eq, ◌↔◌,
  nat_eq,
}
use toy_dfs.Bytes.{Bytes, codes, bytes_eq, bytes_beq, rfind_byte}
use toy_dfs.Table.{find, insert, erase}
use toy_dfs.Grpc.{status_ok}
use toy_dfs.Coordinator.{Coordinator, init}
use toy_dfs.Coordinator.Registry.{register_data_node, unregister_data_node, extract_client_address}
use toy_dfs.Coordinator.Registry.Laws.{
  RegistryInv, Taken, register_data_node-RegistryInv, register_data_node_refused,
  unregister-register, serve, serve-consecutive, Request, consecutive, init-RegistryInv,
}

abbrev peer : ℕ → Bytes
peer n = codes "ipv4:10.0.0.1:" ++ n ∷ []

-- Two nodes have registered from one host; the second asks again and is refused.
abbrev one_node : Coordinator
one_node = (register_data_node (peer 49) (pos 5001) init).2

one_node-RegistryInv : RegistryInv 2 one_node
unfolding register_data_node init codes
one_node-RegistryInv =
    register_data_node-RegistryInv (peer 49) (pos 5001) 1 init init-RegistryInv (omega arith)

abbrev two_nodes : Coordinator
two_nodes = (register_data_node (peer 50) (pos 5002) one_node).2

two_nodes-RegistryInv : RegistryInv 3 two_nodes
unfolding register_data_node init codes extract_client_address rfind_byte insert bytes_beq
two_nodes-RegistryInv =
    register_data_node-RegistryInv (peer 50) (pos 5002) 2 one_node one_node-RegistryInv
      (omega arith)

register_data_node_refused_example :
    let (st, resp, c') = register_data_node (peer 51) (pos 5001) two_nodes in
    ((resp.success ≡ false)
      ↔ Taken (extract_client_address (peer 51)) (pos 5001) two_nodes.registered_nodes)
    × (resp.success ≡ false → c' ≡ two_nodes)
register_data_node_refused_example =
    register_data_node_refused (peer 51) (pos 5001) 3 two_nodes two_nodes-RegistryInv (omega arith)

unregister-register_example :
    let (st, resp, c') = register_data_node (peer 50) (pos 5002) one_node in
    let (st', resp', c'') = unregister_data_node resp.node_id c' in
    (st' ≡ status_ok)
    × (resp'.success ≡ true)
    × (c''.registered_nodes ≡ one_node.registered_nodes)
    × (c''.next_node_id ≡ pos 3)
unfolding register_data_node init codes extract_client_address rfind_byte insert bytes_beq
unregister-register_example =
    unregister-register (peer 50) (pos 5002) 2 one_node one_node-RegistryInv (omega arith) refl

abbrev requests : List Request
requests =
    Request.register (peer 49) (pos 5001)
    ∷ (Request.register (peer 50) (pos 5002)
        ∷ (Request.unregister (pos 1) ∷ (Request.register (peer 51) (pos 5001) ∷ [])))

requests_ids : (serve requests init).0 ≡ pos 1 ∷ (pos 2 ∷ (pos 3 ∷ []))
unfolding serve init register_data_node insert bytes_beq rfind_byte codes increment
    unregister_data_node find erase
requests_ids = refl

serve-consecutive_example :
    let (ids, c') = serve requests init in
    (ids ≡ consecutive 1 (length ids)) × RegistryInv (1 + length ids) c'
serve-consecutive_example = serve-consecutive requests 1 init init-RegistryInv (omega arith)
