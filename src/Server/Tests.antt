-- ===== src/Server/Tests.antt =====
-- A data node on port 5001.
use toy_dfs.Prelude.{ℕ, false, List, [], ◌∷◌, ◌++◌, map, ◌≡◌, refl, some, pos, negsuc, arith}
use toy_dfs.Bytes.{Bytes, codes, rfind_byte}
use toy_dfs.Bytes.Search.{has_byte}
use toy_dfs.MetadataStore.{is_some}
use toy_dfs.Bytes.Decimal.{stoi}
use toy_dfs.Coordinator.{init}
use toy_dfs.Coordinator.Registry.{register_data_node, unregister_data_node}
use toy_dfs.Coordinator.Registry.Laws.{init-RegistryInv}
use toy_dfs.Server.{DataNodeServer, create, start, stop}
use toy_dfs.Server.Lifecycle.{
  ServerBuilder, create_server, start_server, force_shutdown, is_running, hosts,
  start_server-force_shutdown,
}
use toy_dfs.Server.Registration.{stop-start}

abbrev server : DataNodeServer
server = record { listening_port = pos 5001; node_id = negsuc 0 }

created : create (codes "0.0.0.0:5001") ≡ some server
unfolding create codes rfind_byte stoi
created = refl

stop-start_example :
    let (running, c') = start (register_data_node (codes "ipv4:10.0.0.1:40000")) server init in
    (stop unregister_data_node running c').registered_nodes ≡ init.registered_nodes
stop-start_example =
    stop-start (codes "0.0.0.0:5001") (codes "ipv4:10.0.0.1:40000") server 1 init created
      init-RegistryInv (omega arith)

-- gRPC builds the server 7, and remembers where it listens.
abbrev builder : ServerBuilder ℕ (List Bytes)
builder = record {
  build_and_start = λ ports s. (some 7, ports);
  shutdown = λ server s. [];
  shutdown_now = λ server s. [];
  wait_for = λ server s. s;
}

start_server-force_shutdown_example :
    let (built, s') =
      builder.build_and_start (map (λ h. h ++ b':' ∷ codes "5001") (hosts (codes "0.0.0.0"))) [] in
    let (d, s'') =
      start_server builder (create_server (codes "0.0.0.0" ++ b':' ∷ codes "5001")) [] in
    let (d', s3) = force_shutdown builder d s'' in
    (s'' ≡ s')
    × (d.server ≡ built)
    × (is_running d ≡ is_some built)
    × (is_running d' ≡ false)
    × (force_shutdown builder d' s3 ≡ (d', s3))
unfolding has_byte codes
start_server-force_shutdown_example =
    start_server-force_shutdown builder (codes "0.0.0.0") (codes "5001") [] refl
