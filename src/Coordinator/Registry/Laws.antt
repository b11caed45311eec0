-- ===== src/Coordinator/Registry/Laws.antt =====
-- What registration promises: fresh ids, one node to an address and port, and an unregistration that
-- undoes a registration.
use toy_dfs.Prelude.{
  ℕ, zero, suc, ◌+◌, ◌≤◌, ◌<◌, ◌≡◌, refl, ◌↔◌, true, false, List, [], ◌∷◌, ◌++◌, none, some, ℤ, pos,
  int_eq, if◌then◌else◌, arith, Option-cases, inl, inr, int_max, increment-pos, All-append, ap,
  length, ◌∙◌, subst,
}
use toy_dfs.Bytes.{Bytes, bytes_eq}
use native.Mathlib.Nat.{add-zero}
use toy_dfs.Grpc.{status_ok}
use toy_dfs.Table.{find, erase}
use toy_dfs.Table.Laws.{All-erase}
use toy_dfs.Coordinator.{Coordinator, DataNodeInfo, Nodes, init}
use toy_dfs.Coordinator.Registry.{
  find_conflict, register_data_node, unregister_data_node, extract_client_address,
}
use toy_dfs.Coordinator.Registry.Entries.{
  Separate, IsIssued, Issued, find-Issued, Issued-suc, insert_fresh, erase_fresh, Separate-append,
  Separate-erase, Distinct, Distinct-append, Distinct-erase, find_conflict_sound,
  find_conflict_complete, find_last,
}

-- `k` is the next id: every id in use is smaller, and no two entries share an id or an address.
pub record RegistryInv (k : ℕ) (c : Coordinator) : Type 0 where
  pub next : c.next_node_id ≡ pos k
  pub starts : 1 ≤ k
  pub issued : Issued k c.registered_nodes
  pub distinct : Distinct c.registered_nodes
  pub separate : Separate c.registered_nodes

pub init-RegistryInv : RegistryInv 1 init
unfolding init
init-RegistryInv = record {
  next = refl;
  starts = omega arith;
  issued = tt;
  distinct = tt;
  separate = tt;
}

module _ (peer : Bytes) (port : ℤ) (k : ℕ) (c : Coordinator) (v : RegistryInv k c) where
  pub address : Bytes
  address = extract_client_address peer

  pub entry : DataNodeInfo
  unfolding address
  entry = record { node_id = pos k; address = address; port = port }

  fresh : find (pos k) c.registered_nodes ≡ none
  fresh = find-Issued k c.registered_nodes v.issued

  -- With no conflict the new node stands at the end of the registry, under the next id.
  pub register_accepts :
      find_conflict address port c.registered_nodes ≡ none
      → k < int_max
      → let (st, resp, c') = register_data_node peer port c in
        (st ≡ status_ok)
        × (resp.success ≡ true)
        × (resp.node_id ≡ pos k)
        × (c'.registered_nodes ≡ c.registered_nodes ++ (pos k, entry) ∷ [])
        × (c'.next_node_id ≡ pos (suc k))
  unfolding register_data_node entry
  register_accepts free room =
      rw (free, register_data_node, v.next)
        (refl, refl, refl, insert_fresh (pos k) _ c.registered_nodes fresh, increment-pos k room)

  pub register_refuses :
      (id : ℤ)
      → find_conflict address port c.registered_nodes ≡ some id
      → let (st, resp, c') = register_data_node peer port c in
        (st ≡ status_ok) × (resp.success ≡ false) × (c' ≡ c)
  unfolding register_data_node address
  register_refuses id taken = rw (taken, register_data_node) (refl, refl, refl)

-- While ids are left, registration keeps the registry well formed, and uses up an id exactly if it
-- succeeds.
pub register_data_node-RegistryInv :
    (peer : Bytes) (port : ℤ) (k : ℕ) (c : Coordinator)
    → RegistryInv k c
    → k < int_max
    → let (st, resp, c') = register_data_node peer port c in
      RegistryInv (if resp.success then suc k else k) c'
register_data_node-RegistryInv peer port k c v room =
    elim (Option-cases (find_conflict (address peer port k c v) port c.registered_nodes)) [
      | inl free ↦
          let (st, ok, id, nodes, next) = register_accepts peer port k c v free room in
          rw ok (record {
            next = next;
            starts = omega arith;
            issued = rw nodes (
                All-append (IsIssued (suc k)) c.registered_nodes _
                  (Issued-suc k c.registered_nodes v.issued)
                  (unfold entry in ((v.starts, omega arith, refl), tt)));
            distinct = rw nodes (
                Distinct-append (pos k) (entry peer port k c v) c.registered_nodes
                  (fresh peer port k c v) v.distinct);
            separate = rw nodes (
                Separate-append (pos k) (entry peer port k c v) c.registered_nodes
                  (unfold entry in free) v.separate);
          })
      | inr (id, taken) ↦
          let (st, refused, same) = register_refuses peer port k c v id taken in
          rw (refused, same) v
    ]

-- Unregistration keeps the registry well formed, and gives no id back.
pub unregister_data_node-RegistryInv :
    (node_id : ℤ) (k : ℕ) (c : Coordinator)
    → RegistryInv k c
    → RegistryInv k (unregister_data_node node_id c).2
unfolding unregister_data_node
unregister_data_node-RegistryInv node_id k c v =
    elim (Option-cases (find node_id c.registered_nodes)) [
      | inl e ↦ rw (e, unregister_data_node) v
      | inr (info, e) ↦
          rw (e, unregister_data_node)
            (record {
              next = v.next;
              starts = v.starts;
              issued = All-erase (IsIssued k) node_id c.registered_nodes v.issued;
              distinct = Distinct-erase node_id c.registered_nodes v.distinct;
              separate = Separate-erase node_id c.registered_nodes v.separate;
            })
    ]

-- A registered node listens at that address and port.
abbrev pub Taken : Bytes → ℤ → Nodes → Type 0
Taken address port nodes =
    (id : ℤ) × (info : DataNodeInfo) × (find id nodes ≡ some info)
    × (info.address ≡ address)
    × (info.port ≡ port)

find_conflict-Taken :
    (address : Bytes) (port : ℤ) (nodes : Nodes)
    → find_conflict address port nodes ≡ none
    → ¬ Taken address port nodes
find_conflict-Taken address port nodes free (id, info, at, a, p) =
    find_conflict_complete id info nodes at (rw (a, p) free)

-- In a well-formed registry with ids left, a registration is refused exactly if a registered node
-- has the address that the connection shows and the port that the request names, and then it
-- changes nothing.
pub register_data_node_refused :
    (peer : Bytes) (port : ℤ) (k : ℕ) (c : Coordinator)
    → RegistryInv k c
    → k < int_max
    → let (st, resp, c') = register_data_node peer port c in
      ((resp.success ≡ false) ↔ Taken (extract_client_address peer) port c.registered_nodes)
      × (resp.success ≡ false → c' ≡ c)
unfolding address
register_data_node_refused peer port k c v room =
    elim (Option-cases (find_conflict (address peer port k c v) port c.registered_nodes)) [
      | inl free ↦
          let (st, ok, id, nodes, next) = register_accepts peer port k c v free room in
          ((λ e. cc, λ t. absurd (find_conflict-Taken _ port _ free t)), λ e. cc)
      | inr (id, taken) ↦
          let (st, refused, same) = register_refuses peer port k c v id taken in
          (
            (
              λ e.
                  let (info, f, a, p) = find_conflict_sound _ port id _ v.distinct taken in
                  (id, info, f, a, p),
              λ t. refused,
            ),
            λ e. same,
          )
    ]

unregister_last :
    (id : ℤ) (info : DataNodeInfo) (nodes : Nodes) (c : Coordinator)
    → find id nodes ≡ none
    → c.registered_nodes ≡ nodes ++ (id, info) ∷ []
    → let (st, resp, c') = unregister_data_node id c in
      (st ≡ status_ok)
      × (resp.success ≡ true)
      × (c'.registered_nodes ≡ nodes)
      × (c'.next_node_id ≡ c.next_node_id)
unregister_last id info nodes c fresh last =
    let at : find id c.registered_nodes ≡ some info = rw last (find_last id info nodes fresh) in
    unfold unregister_data_node in
    rw (at, unregister_data_node)
      (refl, refl, ap (erase id) last ∙ erase_fresh id info nodes fresh, refl)

-- In a well-formed registry with ids left, unregistering the id that a registration gave out
-- succeeds and restores the registry; the id is not used again.
pub unregister-register :
    (peer : Bytes) (port : ℤ) (k : ℕ) (c : Coordinator)
    → RegistryInv k c
    → k < int_max
    → let (st, resp, c') = register_data_node peer port c in
      resp.success ≡ true
      → let (st', resp', c'') = unregister_data_node resp.node_id c' in
        (st' ≡ status_ok)
        × (resp'.success ≡ true)
        × (c''.registered_nodes ≡ c.registered_nodes)
        × (c''.next_node_id ≡ pos (suc k))
unregister-register peer port k c v room succeeded =
    elim (Option-cases (find_conflict (address peer port k c v) port c.registered_nodes)) [
      | inl free ↦
          let (st, ok, id, nodes, next) = register_accepts peer port k c v free room in
          let (st', ok', rest, kept) =
            unregister_last (pos k) (entry peer port k c v) c.registered_nodes
              (register_data_node peer port c).2 (fresh peer port k c v) nodes in
          rw id (st', ok', rest, kept ∙ next)
      | inr (id, taken) ↦ let (st, refused, same) = register_refuses peer port k c v id taken in cc
    ]

pub data Request : Type 0 where
  register : Bytes → ℤ → Request
  unregister : ℤ → Request

-- The ids that a sequence of requests gives out, and the state after it.
unfoldable pub serve : List Request → Coordinator → List ℤ × Coordinator
serve [] c = ([], c)
serve (register peer port ∷ rs) c =
    let (st, resp, c') = register_data_node peer port c in
    let (ids, last) = serve rs c' in (if resp.success then resp.node_id ∷ ids else ids, last)
serve (unregister id ∷ rs) c = serve rs (unregister_data_node id c).2

abbrev pub consecutive : ℕ → ℕ → List ℤ
consecutive k zero = []
consecutive k (suc n) = pos k ∷ consecutive (suc k) n

-- From a well-formed registry, over any history of requests that does not take the ids past the
-- range of `int`, the ids given out are consecutive, so no id is ever given out twice, not even
-- after its node has left; and the registry stays well formed.
pub serve-consecutive :
    (rs : List Request) (k : ℕ) (c : Coordinator)
    → RegistryInv k c
    → k + length rs ≤ int_max
    → let (ids, c') = serve rs c in
      (ids ≡ consecutive k (length ids)) × RegistryInv (k + length ids) c'
unfolding serve
serve-consecutive [] k c v room = (refl, rw add-zero v)
serve-consecutive (unregister id ∷ rs) k c v room =
    serve-consecutive rs k (unregister_data_node id c).2 (unregister_data_node-RegistryInv id k c v)
      (omega arith)
serve-consecutive (register peer port ∷ rs) k c v room =
    let v' = register_data_node-RegistryInv peer port k c v (omega arith) in
    elim (Option-cases (find_conflict (address peer port k c v) port c.registered_nodes)) [
      | inl free ↦
          let (st, ok, id, nodes, next) = register_accepts peer port k c v free (omega arith) in
          let c' = (register_data_node peer port c).2 in
          let (ids, last) = serve-consecutive rs (suc k) c' (rw ok at v') (omega arith) in
          rw (ok, id)
            (ap (λ l. pos k ∷ l) ids, subst (λ n. RegistryInv n (serve rs c').1) (omega arith) last)
      | inr (id, taken) ↦
          let (st, refused, same) = register_refuses peer port k c v id taken in
          let c' = (register_data_node peer port c).2 in
          rw refused (serve-consecutive rs k c' (rw refused at v') (omega arith))
    ]
