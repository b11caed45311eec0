-- ===== src/Coordinator/Distribution/Replicas.antt =====
-- A distribution that succeeds has stored a replica on every node it was given, under every schedule.
use mathlib.Core.Bool.{false≢true}
use toy_dfs.Prelude.{
  ℕ, zero, suc, ◌≡◌, refl, ◌⊎◌, inl, inr, Bool, true, false, List, [], ◌∷◌, ◌++◌, none, some, ℤ,
  int_eq, if◌then◌else◌, length, All, All-map, arith, Bool-cases, Option-cases, map, ap, ◌∙◌, sym,
  subst, ◌||◌, not,
}
use toy_dfs.Bytes.{Bytes, is_empty}
use toy_dfs.Grpc.{Status, status_ok, is_ok}
use toy_dfs.Table.{find}
use toy_dfs.Coordinator.{DataNodeInfo, Nodes}
use toy_dfs.Coordinator.Client.{DataNodeClient, Holds, IsReliable}
use toy_dfs.Coordinator.Distribution.{
  Slot, launch, pending, fill, indices, collect_errors, distribute_to_single, run_task, run_tasks,
  distribute,
}

-- Some task has reported a failure.
abbrev has_failed : List Slot → Bool
has_failed [] = false
has_failed ((id, none) ∷ slots) = has_failed slots
has_failed ((id, some st) ∷ slots) = not (is_ok st) || has_failed slots

fill-failed :
    (i : ℕ) (st : Status) (slots : List Slot) (id : ℤ)
    → pending i slots ≡ some id
    → has_failed slots ≡ true
    → has_failed (fill i st slots) ≡ true
unfolding pending fill
fill-failed i st [] id p h = cc
fill-failed zero st ((j, none) ∷ slots) id p h = ground arith
fill-failed zero st ((j, some old) ∷ slots) id p h = cc
fill-failed (suc i) st ((j, none) ∷ slots) id p h = fill-failed i st slots id p h
fill-failed (suc i) st ((j, some old) ∷ slots) id p h = ground (arith, fill-failed i st slots id p)

fill_failure :
    (i : ℕ) (st : Status) (slots : List Slot) (id : ℤ)
    → pending i slots ≡ some id
    → is_ok st ≡ false
    → has_failed (fill i st slots) ≡ true
unfolding pending fill
fill_failure i st [] id p h = cc
fill_failure zero st ((j, none) ∷ slots) id p h = ground arith
fill_failure zero st ((j, some old) ∷ slots) id p h = cc
fill_failure (suc i) st ((j, none) ∷ slots) id p h = fill_failure i st slots id p h
fill_failure (suc i) st ((j, some old) ∷ slots) id p h =
    ground (arith, fill_failure i st slots id p)

abbrev pub ids_of : List Slot → List ℤ
ids_of = map (λ p. p.0)

ids_of-fill : (i : ℕ) (st : Status) (slots : List Slot) → ids_of (fill i st slots) ≡ ids_of slots
unfolding fill
ids_of-fill i st [] = refl
ids_of-fill zero st ((j, old) ∷ slots) = refl
ids_of-fill (suc i) st ((j, old) ∷ slots) = ap (λ l. j ∷ l) (ids_of-fill i st slots)

ids_of-launch : (ids : List ℤ) → ids_of (launch ids) ≡ ids
ids_of-launch [] = refl
ids_of-launch (id ∷ ids) = ap (λ l. id ∷ l) (ids_of-launch ids)

module _ {W : Type 0} (client : DataNodeClient W) (nodes : Nodes) where
  -- The registered node with that id returns the content for the chunk.
  abbrev pub HasReplica : Bytes → Bytes → W → ℤ → Type 0
  HasReplica chunk_id content w id =
      (info : DataNodeInfo) × (find id nodes ≡ some info)
      × Holds client info.address info.port chunk_id content w

-- `distributeChunkToSingleNode` passes the status of the call on.
passed : (st : Status) → is_ok (if is_ok st then status_ok else st) ≡ true → is_ok st ≡ true
passed st h = ground arith

module _ {W : Type 0} (client : DataNodeClient W) (reliable : IsReliable client) (nodes : Nodes)
    (chunk_id content : Bytes) where
  abbrev Kept : W → Slot → Type 0
  Kept w (id, none) = Unit {0}
  Kept w (id, some st) = HasReplica client nodes chunk_id content w id

  abbrev Sound : List Slot → W → Type 0
  Sound slots w = All (Kept w) slots ⊎ (has_failed slots ≡ true)

  fill-Kept :
      (i : ℕ) (st : Status) (slots : List Slot) (id : ℤ) (w : W)
      → pending i slots ≡ some id
      → HasReplica client nodes chunk_id content w id
      → All (Kept w) slots
      → All (Kept w) (fill i st slots)
  unfolding pending fill
  fill-Kept i st [] id w p r k = tt
  fill-Kept zero st ((j, none) ∷ slots) id w p r k =
      (subst (HasReplica client nodes chunk_id content w) (ground arith) r, k.1)
  fill-Kept zero st ((j, some old) ∷ slots) id w p r k = (cc, k.1)
  fill-Kept (suc i) st (slot ∷ slots) id w p r k = (k.0, fill-Kept i st slots id w p r k.1)

  -- A successful write leaves a replica, and keeps those that are there.
  single-stores :
      (id : ℤ) (w : W)
      → let (st, w') = distribute_to_single client nodes chunk_id content id w in
        is_ok st ≡ true
        → HasReplica client nodes chunk_id content w' id
          × ((other : ℤ)
              → HasReplica client nodes chunk_id content w other
              → HasReplica client nodes chunk_id content w' other)
  single-stores id w = elim (Option-cases (find id nodes)) [
    | inl e ↦ unfold distribute_to_single in rw (e, distribute_to_single) (λ h. cc)
    | inr (info, e) ↦
        unfold distribute_to_single in
        rw (e, distribute_to_single)
          (λ h.
            let ok = passed (client.put_chunk info.address info.port chunk_id content w).0 h in
            (
              (info, refl, reliable.put_holds info.address info.port chunk_id content w ok),
              λ other r. (
                r.0,
                r.1,
                reliable.put_keeps_replica info.address r.0.address info.port r.0.port chunk_id
                    content w ok r.2,
              ),
            ))
  ]

  Kept-mono :
      (w w' : W)
      → ((other : ℤ)
          → HasReplica client nodes chunk_id content w other
          → HasReplica client nodes chunk_id content w' other)
      → (slot : Slot) → Kept w slot
      → Kept w' slot
  Kept-mono w w' keep (id, none) k = tt
  Kept-mono w w' keep (id, some st) k = keep id k

  run_task-Sound :
      (i : ℕ) (slots : List Slot) (w : W)
      → Sound slots w
      → let (slots', w') = run_task client nodes chunk_id content i slots w in
        Sound slots' w' × (ids_of slots' ≡ ids_of slots)
  run_task-Sound i slots w sound = elim (Option-cases (pending i slots)) [
    | inl e ↦ unfold run_task in rw (e, run_task) (sound, refl)
    | inr (id, e) ↦
        let (st, w') = distribute_to_single client nodes chunk_id content id w in
        unfold run_task in
        rw (e, run_task)
          (
            elim sound [
              | inr failed ↦ inr (fill-failed i st slots id e failed)
              | inl kept ↦ elim (Bool-cases (is_ok st)) [
                | inr bad ↦ inr (fill_failure i st slots id e bad)
                | inl ok ↦
                    let (here, keep) = single-stores id w ok in
                    inl (
                      fill-Kept i st slots id w' e here
                        (All-map _ _ (Kept-mono w w' keep) slots kept))
              ]
            ],
            ids_of-fill i st slots,
          )
  ]

  run_tasks-Sound :
      (is : List ℕ) (slots : List Slot) (w : W)
      → Sound slots w
      → let (slots', w') = run_tasks client nodes chunk_id content is slots w in
        Sound slots' w' × (ids_of slots' ≡ ids_of slots)
  unfolding run_tasks
  run_tasks-Sound [] slots w sound = (sound, refl)
  run_tasks-Sound (i ∷ is) slots w sound =
      let (slots', w') = run_task client nodes chunk_id content i slots w in
      let (sound', same) = run_task-Sound i slots w sound in
      let (last, rest) = run_tasks-Sound is slots' w' sound' in (last, rest ∙ same)

  launch-Kept : (ids : List ℤ) (w : W) → All (Kept w) (launch ids)
  launch-Kept [] w = tt
  launch-Kept (id ∷ ids) w = (tt, launch-Kept ids w)

  no_error :
      (slots : List Slot) → is_empty (collect_errors slots) ≡ true → has_failed slots ≡ true → ⊥
  unfolding collect_errors
  no_error [] c f = cc
  no_error ((id, none) ∷ slots) c f = cc
  no_error ((id, some st) ∷ slots) c f = elim (Bool-cases (is_ok st)) [
    | inl ok ↦ no_error slots (ground arith) (ground arith)
    | inr bad ↦ ground arith
  ]

  no_error-Kept :
      (slots : List Slot) (w : W)
      → is_empty (collect_errors slots) ≡ true
      → All (Kept w) slots
      → All (HasReplica client nodes chunk_id content w) (ids_of slots)
  unfolding collect_errors
  no_error-Kept [] w c k = tt
  no_error-Kept ((id, none) ∷ slots) w c k = cc
  no_error-Kept ((id, some st) ∷ slots) w c k = elim (Bool-cases (is_ok st)) [
    | inl ok ↦ (k.0, no_error-Kept slots w (ground arith) k.1)
    | inr bad ↦ ground arith
  ]

  -- No error collected: every task has run, and none has failed.
  collected-Kept :
      (slots : List Slot) (w : W)
      → is_empty (collect_errors slots) ≡ true
      → Sound slots w
      → All (HasReplica client nodes chunk_id content w) (ids_of slots)
  collected-Kept slots w clean (inr failed) = absurd (no_error slots clean failed)
  collected-Kept slots w clean (inl kept) = no_error-Kept slots w clean kept

  module _ (schedule : List ℕ) (id : ℤ) (ids : List ℤ) (w : W) where
    tasks_run : List Slot × W
    tasks_run =
        run_tasks client nodes chunk_id content (schedule ++ indices 0 (length (id ∷ ids)))
          (launch (id ∷ ids)) w

    distribute_clean :
        is_empty (collect_errors tasks_run.0) ≡ true
        → distribute client nodes chunk_id content schedule (id ∷ ids) w ≡ (status_ok, tasks_run.1)
    unfolding distribute tasks_run
    distribute_clean clean = rw clean

    distribute_errors :
        is_empty (collect_errors tasks_run.0) ≡ false
        → is_ok (distribute client nodes chunk_id content schedule (id ∷ ids) w).0 ≡ false
    unfolding distribute tasks_run
    distribute_errors errors = rw errors

    tasks_run-Sound : Sound tasks_run.0 tasks_run.1 × (ids_of tasks_run.0 ≡ id ∷ ids)
    unfolding tasks_run
    tasks_run-Sound =
        let (sound, same) =
          run_tasks-Sound (schedule ++ indices 0 (length (id ∷ ids))) (launch (id ∷ ids)) w
            (inl (launch-Kept (id ∷ ids) w)) in
        (sound, same ∙ ids_of-launch (id ∷ ids))

  -- If, over reliable data nodes, the distribution of a chunk reports success, then whatever the
  -- order of the tasks every node that was given is registered and returns the chunk.
  pub distribute-HasReplica :
      (schedule : List ℕ) (node_ids : List ℤ) (w : W)
      → let (st, w') = distribute client nodes chunk_id content schedule node_ids w in
        is_ok st ≡ true → All (HasReplica client nodes chunk_id content w') node_ids
  distribute-HasReplica schedule [] w = λ h. tt
  distribute-HasReplica schedule (id ∷ ids) w =
      let (slots, w') = tasks_run schedule id ids w in
      elim (Bool-cases (is_empty (collect_errors slots))) [
        | inl clean ↦
            let (sound, same) = tasks_run-Sound schedule id ids w in
            let stored =
              subst (All (HasReplica client nodes chunk_id content w')) same
                (collected-Kept slots w' clean sound) in
            subst
              (λ (r : Status × W).
                is_ok r.0 ≡ true → All (HasReplica client nodes chunk_id content r.1) (id ∷ ids))
              (sym (distribute_clean schedule id ids w clean)) (λ h. stored)
        | inr errors ↦
            λ h. absurd (false≢true (sym (distribute_errors schedule id ids w errors) ∙ h))
      ]
