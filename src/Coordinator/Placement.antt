-- ===== src/Coordinator/Placement.antt =====
-- Placement of replicas: `selectNodesForReplication`. The registry is an `unordered_map`: the order
-- in which a loop visits its keys is the standard library's choice, a parameter here. The bound of
-- 10 on the replication factor only writes a warning.
pub mod RoundRobin
use mathlib.Core.List.{Perm}
use toy_dfs.Prelude.{
  ℕ, zero, suc, ◌+◌, ◌%◌, Bool, true, false, List, [], ◌∷◌, Option, none, some, ℤ, pos, negsuc,
  pos_part, is_positive, if◌then◌else◌, map, length, ◌≡◌, arith,
}
use toy_dfs.Bytes.{is_empty}
use toy_dfs.Table.{keys}
use toy_dfs.Coordinator.{Coordinator}

-- The keys of an unordered map, in the order of its iteration.
pub record Iteration : Type 0 where
  pub order : List ℤ → List ℤ
  pub order-perm : (xs : List ℤ) → Perm (order xs) xs

abbrev pub u32_modulus : ℕ
u32_modulus = 4294967296

-- `node_ids[i]`; the index is always in range, see Placement/RoundRobin.
unfoldable pub at_index : List ℤ → ℕ → ℤ
at_index [] i = pos 0
at_index (x ∷ xs) zero = x
at_index (x ∷ xs) (suc i) = at_index xs i

-- The loop over `i`, with `n` rounds left.
unfoldable pub pick : List ℤ → ℕ → ℕ → ℕ → List ℤ
unfolding at_index
pick node_ids start i zero = []
pick node_ids start i (suc n) =
    at_index node_ids ((start + i) % length node_ids) ∷ pick node_ids start (i + 1) n

-- `next_node_index_` is a `uint32_t`: its sum with one wraps.
unfoldable pub select_nodes : Iteration → ℤ → Coordinator → List ℤ × Coordinator
unfolding pick
select_nodes it replication_factor c =
    if is_positive replication_factor
    then (if is_empty c.registered_nodes
        then ([], c)
        else let node_ids = it.order (keys c.registered_nodes) in
          (
            pick node_ids (c.next_node_index % length node_ids) 0 (pos_part replication_factor),
            record c { next_node_index = (c.next_node_index + 1) % u32_modulus },
          ))
    else ([], c)

-- Selecting nodes moves the round-robin counter only.
pub select_nodes-keeps :
    (it : Iteration) (r : ℤ) (c : Coordinator)
    → let c' = (select_nodes it r c).1 in c' ≡ record c { next_node_index = c'.next_node_index }
unfolding select_nodes
select_nodes-keeps it r c = ground arith
