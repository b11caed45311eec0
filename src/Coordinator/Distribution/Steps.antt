-- ===== src/Coordinator/Distribution/Steps.antt =====
-- One task of a distribution, once its case is known.
use toy_dfs.Prelude.{ℕ, ◌≡◌, List, some, ℤ, int_eq}
use toy_dfs.Bytes.{Bytes}
use toy_dfs.Table.{find}
use toy_dfs.Coordinator.{DataNodeInfo, Nodes}
use toy_dfs.Coordinator.Client.{DataNodeClient}
use toy_dfs.Coordinator.Distribution.{Slot, pending, fill, write_to, distribute_to_single, run_task}

module _ {W : Type 0} (client : DataNodeClient W) (nodes : Nodes) (chunk_id content : Bytes)
    (w : W) where
  pub distribute_to_single_found :
      (id : ℤ) (info : DataNodeInfo)
      → find id nodes ≡ some info
      → distribute_to_single client nodes chunk_id content id w
        ≡ write_to client nodes chunk_id content info w
  unfolding distribute_to_single
  distribute_to_single_found id info e = rw (e, distribute_to_single)

  pub run_task-pending :
      (i : ℕ) (slots : List Slot) (id : ℤ)
      → pending i slots ≡ some id
      → let (st, w') = distribute_to_single client nodes chunk_id content id w in
        run_task client nodes chunk_id content i slots w ≡ (fill i st slots, w')
  unfolding run_task
  run_task-pending i slots id e = rw (e, run_task)
