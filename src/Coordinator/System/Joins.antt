-- ===== src/Coordinator/System/Joins.antt =====
-- Registrations, against the contract.
use toy_dfs.Prelude.{
  ℕ, suc, ◌<◌, ◌≡◌, refl, ap, [], ◌∷◌, ◌++◌, some, ℤ, arith, Option-cases, inl, inr, if◌then◌else◌,
  int_max, int_eq,
}
use toy_dfs.Bytes.{Bytes}
use toy_dfs.Table.{find}
use toy_dfs.MetadataStore.{MetadataStore}
use toy_dfs.MetadataStore.Files.{file_at}
use toy_dfs.Coordinator.{Coordinator, DataNodeInfo, Nodes}
use toy_dfs.Coordinator.Client.{DataNodeClient}
use toy_dfs.Coordinator.Registry.{find_conflict, register_data_node, extract_client_address}
use toy_dfs.Coordinator.Registry.Laws.{
  RegistryInv, register_accepts, register_refuses, register_data_node-RegistryInv, address,
}
use toy_dfs.Coordinator.System.Spec.{Contents}
use toy_dfs.Coordinator.System.Represents.{Represents, moved-Represents}

find-append :
    (id : ℤ) (info : DataNodeInfo) (nodes more : Nodes)
    → find id nodes ≡ some info
    → find id (nodes ++ more) ≡ some info
unfolding find
find-append id info [] more e = cc
find-append id info ((j, other) ∷ nodes) more e = ground (arith, find-append id info nodes more)

-- Registration changes nothing but the registry and the id counter.
register-keeps :
    (peer : Bytes) (port : ℤ) (c : Coordinator)
    → let (st, resp, c') = register_data_node peer port c in
      (c'.store ≡ c.store) × (c'.chunk_id_counter ≡ c.chunk_id_counter)
unfolding register_data_node
register-keeps peer port c =
    elim (Option-cases (find_conflict (extract_client_address peer) port c.registered_nodes)) [
      | inl free ↦ rw (free, register_data_node) (refl, refl)
      | inr (id, taken) ↦ rw (taken, register_data_node) (refl, refl)
    ]

-- A node that is registered stays registered, under its id.
register-find :
    (peer : Bytes) (port : ℤ) (k : ℕ) (c : Coordinator) (id : ℤ) (info : DataNodeInfo)
    → RegistryInv k c
    → k < int_max
    → find id c.registered_nodes ≡ some info
    → find id (register_data_node peer port c).2.registered_nodes ≡ some info
register-find peer port k c id info v room at =
    elim (Option-cases (find_conflict (address peer port k c v) port c.registered_nodes)) [
      | inl free ↦
          let (st, ok, new, nodes, next) = register_accepts peer port k c v free room in
          rw nodes (find-append id info c.registered_nodes _ at)
      | inr (old, taken) ↦
          let (st, refused, same) = register_refuses peer port k c v old taken in rw same at
    ]

pub join-Represents :
    {W : Type 0} (client : DataNodeClient W) (peer : Bytes) (port : ℤ) (files : Contents) (k : ℕ)
    (c : Coordinator) (w : W)
    → k < int_max
    → Represents client files k c w
    → let (st, resp, c') = register_data_node peer port c in
      Represents client files (if resp.success then suc k else k) c' w
      × (c'.chunk_id_counter ≡ c.chunk_id_counter)
join-Represents client peer port files k c w room r =
    let c' = (register_data_node peer port c).2 in
    let (store, count) = register-keeps peer port c in
    (
      moved-Represents client files k _ c c' w w
          (register_data_node-RegistryInv peer port k c r.registry room)
          (λ path. ap (λ (s : MetadataStore). file_at s path) store)
          (ap (λ (s : MetadataStore). s.deleted_entries) store) (omega (arith, count))
          (λ n here id below held.
            (held.0, register-find peer port k c id held.0 r.registry room held.1, held.2))
          r,
      count,
    )
