-- ===== src/Coordinator/Distribution/Completion.antt =====
-- Every task of a distribution runs, and the distribution succeeds if every write does.
use native.Mathlib.Decide.{dec_le}
use toy_dfs.Prelude.{
  ℕ, zero, suc, ◌≤◌, ◌<◌, ◌+◌, ◌≡◌, refl, inl, inr, List, [], ◌∷◌, ◌++◌, Option, none, some, ℤ,
  int_eq, length, arith, Option-cases, sym, subst, true, All, ap, ◌∙◌,
}
use toy_dfs.Bytes.{Bytes, is_empty}
use toy_dfs.Grpc.{Status, is_ok, status_ok}
use toy_dfs.Coordinator.{Nodes}
use toy_dfs.Coordinator.Client.{DataNodeClient}
use toy_dfs.Coordinator.Distribution.Steps.{run_task-pending}
use toy_dfs.Coordinator.Distribution.{
  Slot, launch, pending, fill, indices, distribute_to_single, run_task, run_tasks, distribute,
  collect_errors,
}

pending-fill_self : (i : ℕ) (st : Status) (slots : List Slot) → pending i (fill i st slots) ≡ none
unfolding pending fill
pending-fill_self i st [] = refl
pending-fill_self zero st ((j, old) ∷ slots) = refl
pending-fill_self (suc i) st ((j, none) ∷ slots) = pending-fill_self i st slots
pending-fill_self (suc i) st ((j, some old) ∷ slots) = pending-fill_self i st slots

-- A task that has run stays so.
pending-fill-none :
    (i j : ℕ) (st : Status) (slots : List Slot)
    → pending i slots ≡ none
    → pending i (fill j st slots) ≡ none
unfolding pending fill
pending-fill-none i j st [] h = refl
pending-fill-none zero zero st ((k, old) ∷ slots) h = refl
pending-fill-none zero (suc j) st ((k, none) ∷ slots) h = h
pending-fill-none zero (suc j) st ((k, some old) ∷ slots) h = h
pending-fill-none (suc i) zero st ((k, none) ∷ slots) h = h
pending-fill-none (suc i) zero st ((k, some old) ∷ slots) h = h
pending-fill-none (suc i) (suc j) st ((k, none) ∷ slots) h = pending-fill-none i j st slots h
pending-fill-none (suc i) (suc j) st ((k, some old) ∷ slots) h = pending-fill-none i j st slots h

length-fill : (i : ℕ) (st : Status) (slots : List Slot) → length (fill i st slots) ≡ length slots
unfolding fill
length-fill i st [] = refl
length-fill zero st ((j, old) ∷ slots) = refl
length-fill (suc i) st ((j, old) ∷ slots) = ap suc (length-fill i st slots)

length-launch : (ids : List ℤ) → length (launch ids) ≡ length ids
length-launch [] = refl
length-launch (id ∷ ids) = ap suc (length-launch ids)

pending-past : (i : ℕ) (slots : List Slot) → length slots ≤ i → pending i slots ≡ none
unfolding pending
pending-past i [] h = refl
pending-past zero (slot ∷ slots) h = absurd (omega arith)
pending-past (suc i) ((k, none) ∷ slots) h = pending-past i slots (omega arith)
pending-past (suc i) ((k, some old) ∷ slots) h = pending-past i slots (omega arith)

module _ {W : Type 0} (client : DataNodeClient W) (nodes : Nodes) (chunk_id content : Bytes) where
  run_task_done :
      (i : ℕ) (slots : List Slot) (w : W)
      → let slots' = (run_task client nodes chunk_id content i slots w).0 in
        (pending i slots' ≡ none)
        × ((j : ℕ) → pending j slots ≡ none → pending j slots' ≡ none)
        × (length slots' ≡ length slots)
  run_task_done i slots w = elim (Option-cases (pending i slots)) [
    | inl e ↦ unfold run_task in rw (e, run_task) (e, λ j h. h, refl)
    | inr (id, e) ↦
        unfold run_task in
        rw (e, run_task)
          (
            pending-fill_self i _ slots,
            λ j h. pending-fill-none j i _ slots h,
            length-fill i _ slots,
          )
  ]

  run_tasks_done :
      (is : List ℕ) (slots : List Slot) (w : W)
      → let slots' = (run_tasks client nodes chunk_id content is slots w).0 in
        ((j : ℕ) → pending j slots ≡ none → pending j slots' ≡ none)
        × (length slots' ≡ length slots)
  unfolding run_tasks
  run_tasks_done [] slots w = (λ j h. h, refl)
  run_tasks_done (i ∷ is) slots w =
      let (slots', w') = run_task client nodes chunk_id content i slots w in
      let (here, keep, len) = run_task_done i slots w in
      let (rest, len') = run_tasks_done is slots' w' in (λ j h. rest j (keep j h), len' ∙ len)

  -- Waiting on the futures in turn leaves no task behind.
  run_indices_done :
      (start n : ℕ) (slots : List Slot) (w : W)
      → let slots' = (run_tasks client nodes chunk_id content (indices start n) slots w).0 in
        (j : ℕ) → start ≤ j → j < start + n → pending j slots' ≡ none
  unfolding run_tasks
  run_indices_done start zero slots w j h k = absurd (omega arith)
  run_indices_done start (suc n) slots w j h k =
      let (slots', w') = run_task client nodes chunk_id content start slots w in
      elim (dec_le j start) [
        | yes e ↦
            (run_tasks_done (indices (suc start) n) slots' w').0 j
              (subst (λ i. pending i slots' ≡ none) (omega arith) (run_task_done start slots w).0)
        | no e ↦ run_indices_done (suc start) n slots' w' j (omega arith) (omega arith)
      ]

  run_tasks-append :
      (is js : List ℕ) (slots : List Slot) (w : W)
      → let (slots', w') = run_tasks client nodes chunk_id content is slots w in
        run_tasks client nodes chunk_id content (is ++ js) slots w
        ≡ run_tasks client nodes chunk_id content js slots' w'
  unfolding run_tasks
  run_tasks-append [] js slots w = refl
  run_tasks-append (i ∷ is) js slots w =
      let (slots', w') = run_task client nodes chunk_id content i slots w in
      run_tasks-append is js slots' w'

  -- A write to that node succeeds, whatever the other tasks have done.
  abbrev pub Writable : ℤ → Type 0
  Writable id = (w : W) → is_ok (distribute_to_single client nodes chunk_id content id w).0 ≡ true

  -- The task has not failed, and cannot fail.
  abbrev Fine : Slot → Type 0
  Fine (id, none) = Writable id
  Fine (id, some st) = is_ok st ≡ true

  pending-Writable :
      (i : ℕ) (slots : List Slot) (id : ℤ)
      → pending i slots ≡ some id
      → All Fine slots
      → Writable id
  unfolding pending
  pending-Writable i [] id p f = cc
  pending-Writable zero ((j, none) ∷ slots) id p f = subst Writable (ground arith) f.0
  pending-Writable zero ((j, some st) ∷ slots) id p f = cc
  pending-Writable (suc i) ((j, none) ∷ slots) id p f = pending-Writable i slots id p f.1
  pending-Writable (suc i) ((j, some st) ∷ slots) id p f = pending-Writable i slots id p f.1

  fill-Fine :
      (i : ℕ) (st : Status) (slots : List Slot)
      → is_ok st ≡ true
      → All Fine slots
      → All Fine (fill i st slots)
  unfolding fill
  fill-Fine i st [] h f = tt
  fill-Fine zero st ((j, old) ∷ slots) h f = (h, f.1)
  fill-Fine (suc i) st ((j, old) ∷ slots) h f = (f.0, fill-Fine i st slots h f.1)

  run_task-Fine :
      (i : ℕ) (slots : List Slot) (w : W)
      → All Fine slots
      → All Fine (run_task client nodes chunk_id content i slots w).0
  run_task-Fine i slots w f = elim (Option-cases (pending i slots)) [
    | inl e ↦ unfold run_task in rw (e, run_task) f
    | inr (id, e) ↦
        subst (λ (r : List Slot × W). All Fine r.0)
          (sym (run_task-pending client nodes chunk_id content w i slots id e))
          (fill-Fine i _ slots (pending-Writable i slots id e f w) f)
  ]

  run_tasks-Fine :
      (is : List ℕ) (slots : List Slot) (w : W)
      → All Fine slots
      → All Fine (run_tasks client nodes chunk_id content is slots w).0
  unfolding run_tasks
  run_tasks-Fine [] slots w f = f
  run_tasks-Fine (i ∷ is) slots w f =
      let (slots', w') = run_task client nodes chunk_id content i slots w in
      run_tasks-Fine is slots' w' (run_task-Fine i slots w f)

  launch-Fine : (ids : List ℤ) → All Writable ids → All Fine (launch ids)
  launch-Fine [] h = tt
  launch-Fine (id ∷ ids) h = (h.0, launch-Fine ids h.1)

  done-clean :
      (slots : List Slot)
      → ((j : ℕ) → j < length slots → pending j slots ≡ none)
      → All Fine slots
      → is_empty (collect_errors slots) ≡ true
  unfolding collect_errors pending
  done-clean [] h f = refl
  done-clean ((id, none) ∷ slots) h f = absurd (no_pending (h zero (omega arith)))
    where
      no_pending : ◌≡◌ {A = Option ℤ} (some id) none → ⊥
      no_pending e = cc
  done-clean ((id, some st) ∷ slots) h f =
      rw f.0 (done-clean slots (λ j k. h (suc j) (omega arith)) f.1)

  -- If a write to each of the selected nodes succeeds, the distribution reports success, under every
  -- schedule.
  pub distribute-Writable :
      (schedule : List ℕ) (id : ℤ) (ids : List ℤ) (w : W)
      → All Writable (id ∷ ids)
      → (distribute client nodes chunk_id content schedule (id ∷ ids) w).0 ≡ status_ok
  unfolding distribute
  distribute-Writable schedule id ids w h = rw (done-clean slots all_done fine)
    where
      waits : List ℕ
      waits = indices 0 (length (id ∷ ids))

      before : List Slot × W
      before = run_tasks client nodes chunk_id content schedule (launch (id ∷ ids)) w

      slots : List Slot
      slots = (run_tasks client nodes chunk_id content (schedule ++ waits) (launch (id ∷ ids)) w).0

      fine : All Fine slots
      fine = run_tasks-Fine (schedule ++ waits) (launch (id ∷ ids)) w (launch-Fine (id ∷ ids) h)

      split : slots ≡ (run_tasks client nodes chunk_id content waits before.0 before.1).0
      split = ap (λ r. r.0) (run_tasks-append schedule waits (launch (id ∷ ids)) w)

      size : length slots ≡ length (id ∷ ids)
      size = (run_tasks_done (schedule ++ waits) (launch (id ∷ ids)) w).1 ∙ length-launch (id ∷ ids)

      all_done : (j : ℕ) → j < length slots → pending j slots ≡ none
      all_done j k =
          subst (λ l. pending j l ≡ none) (sym split)
            (run_indices_done 0 (length (id ∷ ids)) before.0 before.1 j (omega arith)
              (omega (arith, size)))
