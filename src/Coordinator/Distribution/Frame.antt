-- ===== src/Coordinator/Distribution/Frame.antt =====
-- What a distribution leaves alone: the chunks with other numbers.
use toy_dfs.Prelude.{
  ℕ, ◌≤◌, ◌≡◌, ◌≢◌, inl, inr, List, [], ◌∷◌, ◌++◌, ℤ, int_eq, length, arith, Option-cases, int_max,
  sym, subst,
}
use toy_dfs.Bytes.{Bytes}
use toy_dfs.Grpc.{Status}
use toy_dfs.Table.{find}
use toy_dfs.Coordinator.{Nodes}
use toy_dfs.Coordinator.Client.{DataNodeClient, IsReliable, chunk_name}
use toy_dfs.Coordinator.Distribution.{
  Slot, launch, pending, indices, write_to, distribute_to_single, run_task, run_tasks, distribute,
}
use toy_dfs.Coordinator.Distribution.Steps.{distribute_to_single_found, run_task-pending}
use toy_dfs.Coordinator.Distribution.Replicas.{HasReplica}

module _ {W : Type 0} (client : DataNodeClient W) (reliable : IsReliable client) (nodes : Nodes)
    (n m : ℕ) (content content' : Bytes) (n_fits : n ≤ int_max) (m_fits : m ≤ int_max)
    (apart : n ≢ m) where
  abbrev KeptOther : W → ℤ → Type 0
  KeptOther = HasReplica client nodes (chunk_name m) content'

  single_keeps :
      (id other : ℤ) (w : W)
      → KeptOther w other
      → KeptOther (distribute_to_single client nodes (chunk_name n) content id w).1 other
  unfolding write_to
  single_keeps id other w k = elim (Option-cases (find id nodes)) [
    | inl e ↦ unfold distribute_to_single in rw (e, distribute_to_single) k
    | inr (info, e) ↦
        subst (λ (r : Status × W). KeptOther r.1 other)
          (sym (distribute_to_single_found client nodes (chunk_name n) content w id info e))
          (
            k.0,
            k.1,
            reliable.put_keeps_other info.address k.0.address info.port k.0.port n m content
                content' w n_fits m_fits apart k.2,
          )
  ]

  run_task_keeps :
      (i : ℕ) (slots : List Slot) (other : ℤ) (w : W)
      → KeptOther w other
      → KeptOther (run_task client nodes (chunk_name n) content i slots w).1 other
  run_task_keeps i slots other w k = elim (Option-cases (pending i slots)) [
    | inl e ↦ unfold run_task in rw (e, run_task) k
    | inr (id, e) ↦
        subst (λ (r : List Slot × W). KeptOther r.1 other)
          (sym (run_task-pending client nodes (chunk_name n) content w i slots id e))
          (single_keeps id other w k)
  ]

  run_tasks_keeps :
      (is : List ℕ) (slots : List Slot) (other : ℤ) (w : W)
      → KeptOther w other
      → KeptOther (run_tasks client nodes (chunk_name n) content is slots w).1 other
  unfolding run_tasks
  run_tasks_keeps [] slots other w k = k
  run_tasks_keeps (i ∷ is) slots other w k =
      run_tasks_keeps is _ other _ (run_task_keeps i slots other w k)

  distribute-world :
      (schedule : List ℕ) (id : ℤ) (ids : List ℤ) (w : W)
      → (distribute client nodes (chunk_name n) content schedule (id ∷ ids) w).1
        ≡ (run_tasks client nodes
            (chunk_name n)
            content
            (schedule ++ indices 0 (length (id ∷ ids)))
            (launch (id ∷ ids))
            w).1
  unfolding distribute
  distribute-world schedule id ids w = ground arith

  -- Writing one chunk, also where it fails, leaves the replicas of every other chunk readable.
  pub distribute_keeps :
      (schedule : List ℕ) (node_ids : List ℤ) (other : ℤ) (w : W)
      → KeptOther w other
      → KeptOther (distribute client nodes (chunk_name n) content schedule node_ids w).1 other
  distribute_keeps schedule [] other w k = unfold distribute in k
  distribute_keeps schedule (id ∷ ids) other w k =
      subst (λ (w' : W). KeptOther w' other) (sym (distribute-world schedule id ids w))
        (run_tasks_keeps _ (launch (id ∷ ids)) other w k)
