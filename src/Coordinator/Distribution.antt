-- ===== src/Coordinator/Distribution.antt =====
-- Writing a chunk to its replicas: `distributeChunkToSingleNode` and `distributeChunkToNodes`. The
-- tasks of `std::async` run in any order: a schedule says which task runs next, and waiting on the
-- futures in turn completes those that it leaves out. A task, one remote call, is one step.
mod Steps
pub mod Replicas
pub mod Frame
pub mod Completion
use toy_dfs.Prelude.{
  ℕ, zero, suc, Bool, true, false, List, [], ◌∷◌, ◌++◌, Option, none, some, ℤ, int_eq,
  if◌then◌else◌, length,
}
use toy_dfs.Bytes.{Bytes, codes, is_empty}
use toy_dfs.Bytes.Decimal.{to_string}
use toy_dfs.Grpc.{Status, status, status_ok, is_ok, not_found, internal, unknown}
use toy_dfs.Table.{find}
use toy_dfs.Coordinator.{DataNodeInfo, Nodes}
use toy_dfs.Coordinator.Client.{DataNodeClient}

-- A task by its node, and its status once it has run.
abbrev pub Slot : Type 0
Slot = ℤ × Option Status

abbrev pub launch : List ℤ → List Slot
launch [] = []
launch (id ∷ ids) = (id, none) ∷ launch ids

-- The node of the i-th task, if that has not run.
unfoldable pub pending : ℕ → List Slot → Option ℤ
pending i [] = none
pending zero ((id, none) ∷ slots) = some id
pending zero ((id, some st) ∷ slots) = none
pending (suc i) (slot ∷ slots) = pending i slots

unfoldable pub fill : ℕ → Status → List Slot → List Slot
fill i st [] = []
fill zero st ((id, old) ∷ slots) = (id, some st) ∷ slots
fill (suc i) st (slot ∷ slots) = slot ∷ fill i st slots

-- 0, 1, … up to below `n`, from `i` on.
abbrev pub indices : ℕ → ℕ → List ℕ
indices i zero = []
indices i (suc n) = i ∷ indices (suc i) n

-- Only a task that never ran would be without a status, and there is none: see
-- Distribution/Completion.
abbrev pub status_of : Option Status → Status
status_of none = status unknown (codes "")
status_of (some st) = st

-- The messages of the tasks that failed, in the order of the nodes.
unfoldable pub collect_errors : List Slot → List Bytes
collect_errors [] = []
collect_errors ((id, result) ∷ slots) =
    let st = status_of result in
    if is_ok st
    then collect_errors slots
    else ((codes "Node " ++ (to_string id ++ (codes ": " ++ st.message))) ∷ collect_errors slots)

abbrev pub join_errors : List Bytes → Bytes
join_errors [] = []
join_errors (e ∷ []) = e
join_errors (e ∷ (f ∷ es)) = e ++ (codes "; " ++ join_errors (f ∷ es))

module _ {W : Type 0} (client : DataNodeClient W) (nodes : Nodes) (chunk_id content : Bytes) where
  unfoldable pub write_to : DataNodeInfo → W → Status × W
  write_to info w =
      let (st, w') = client.put_chunk info.address info.port chunk_id content w in
      (if is_ok st then status_ok else st, w')

  unfoldable pub distribute_to_single : ℤ → W → Status × W
  unfolding write_to
  distribute_to_single node_id w = elim (find node_id nodes) [
    | none ↦ (
      status not_found (codes "Node ID " ++ (to_string node_id ++ codes " not found in registry")),
      w,
    )
    | some info ↦ write_to info w
  ]

  -- Runs the i-th task, unless it has run.
  unfoldable pub run_task : ℕ → List Slot → W → List Slot × W
  run_task i slots w = elim (pending i slots) [
    | none ↦ (slots, w)
    | some id ↦ let (st, w') = distribute_to_single id w in (fill i st slots, w')
  ]

  unfoldable pub run_tasks : List ℕ → List Slot → W → List Slot × W
  unfolding run_task
  run_tasks [] slots w = (slots, w)
  run_tasks (i ∷ is) slots w = let (slots', w') = run_task i slots w in run_tasks is slots' w'

  unfoldable pub distribute : List ℕ → List ℤ → W → Status × W
  unfolding run_tasks collect_errors distribute_to_single
  distribute schedule node_ids w =
      if is_empty node_ids
      then (status internal (codes "No nodes specified for chunk distribution"), w)
      else let (slots, w') =
          run_tasks (schedule ++ indices 0 (length node_ids)) (launch node_ids) w in
        let errors = collect_errors slots in
        if is_empty errors then (status_ok, w') else (
          status internal (codes "Failed to distribute chunk to nodes: " ++ join_errors errors),
          w',
        )
