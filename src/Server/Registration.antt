-- ===== src/Server/Registration.antt =====
-- A data node that starts and stops, against the coordinator's handlers.
use toy_dfs.Prelude.{
  ℕ, ◌≤◌, ◌<◌, ◌≡◌, ap, ◌∙◌, true, false, some, pos, negsuc, int_max, Option-cases, inl, inr, arith,
}
use toy_dfs.Bytes.{Bytes}
use toy_dfs.Grpc.{status_ok}
use toy_dfs.Coordinator.{Coordinator}
use toy_dfs.Coordinator.Registry.{register_data_node, unregister_data_node, find_conflict}
use toy_dfs.Coordinator.Registry.Laws.{
  RegistryInv, register_accepts, register_refuses, unregister-register, address,
}
use toy_dfs.Server.{DataNodeServer, create, start, stop}

created_unregistered :
    (listening : Bytes) (server : DataNodeServer)
    → create listening ≡ some server
    → server.node_id ≡ negsuc 0
unfolding create
created_unregistered listening server e = ground arith

module _ (peer : Bytes) (server : DataNodeServer) (c : Coordinator) where
  stop-start_accepted :
      (k : ℕ)
      → 1 ≤ k
      → (register_data_node peer server.listening_port c).0 ≡ status_ok
      → (register_data_node peer server.listening_port c).1.success ≡ true
      → (register_data_node peer server.listening_port c).1.node_id ≡ pos k
      → stop unregister_data_node
          (start (register_data_node peer) server c).0
          (start (register_data_node peer) server c).1
        ≡ (unregister_data_node
            (register_data_node peer server.listening_port c).1.node_id
            (register_data_node peer server.listening_port c).2).2
  unfolding start stop
  stop-start_accepted k positive st ok id = rw (st, ok, start, stop) (rw id (ground arith))

  stop-start_refused :
      server.node_id ≡ negsuc 0
      → (register_data_node peer server.listening_port c).1.success ≡ false
      → stop unregister_data_node
          (start (register_data_node peer) server c).0
          (start (register_data_node peer) server c).1
        ≡ (register_data_node peer server.listening_port c).2
  unfolding start stop
  stop-start_refused none_yet refused = ground (arith, none_yet, refused)

-- A data node whose address names a port, and which starts and stops again against a well-formed
-- registry with ids left, leaves the registry as it was, whether the coordinator accepted it or
-- refused it; no other node's entry is touched.
pub stop-start :
    (listening peer : Bytes) (server : DataNodeServer) (k : ℕ) (c : Coordinator)
    → create listening ≡ some server
    → RegistryInv k c
    → k < int_max
    → let (running, c') = start (register_data_node peer) server c in
      (stop unregister_data_node running c').registered_nodes ≡ c.registered_nodes
stop-start listening peer server k c e v room =
    elim (Option-cases (
      find_conflict (address peer server.listening_port k c v) server.listening_port
        c.registered_nodes)) [
          | inl free ↦
              let (st, ok, id, nodes, next) =
                register_accepts peer server.listening_port k c v free room in
              let (st', ok', restored, kept) =
                unregister-register peer server.listening_port k c v room ok in
              ap (λ d. d.registered_nodes) (stop-start_accepted peer server c k v.starts st ok id)
              ∙ restored
          | inr (id, taken) ↦
              let (st, refused, same) =
                register_refuses peer server.listening_port k c v id taken in
              ap (λ d. d.registered_nodes)
                (stop-start_refused peer server c (created_unregistered listening server e) refused
                  ∙ same)
        ]
