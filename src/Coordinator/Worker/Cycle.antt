-- ===== src/Coordinator/Worker/Cycle.antt =====
-- One turn of the loop of `cleanupWorker`, while the flag stays set.
use toy_dfs.Prelude.{
  ℕ, zero, suc, ◌+◌, ◌*◌, ◌≡◌, refl, ap, ◌∙◌, true, ◌&&◌, List, [], ◌∷◌, ◌++◌, length, arith, ltb,
  lt→ltb, if◌then◌else◌,
}
use toy_dfs.Coordinator.{Coordinator}
use toy_dfs.Coordinator.Environment.{Environment}
use toy_dfs.Coordinator.Deletion.{cleanup_round}
use toy_dfs.Coordinator.Worker.{
  Place, at_while, at_for, asleep, at_if, at_cleanup, ended, Phase, Service, at, work, work_all,
  naps,
}

module _ {W : Type 0} (env : Environment W) where
  work_all-append :
      (times times' : List ℕ) (s : Service W)
      → work_all env (times ++ times') s ≡ work_all env times' (work_all env times s)
  unfolding work_all
  work_all-append [] times' s = refl
  work_all-append (now ∷ times) times' s = work_all-append times times' (work env now s)

  -- Two steps a nap.
  work_all-naps :
      (n i : ℕ) (times : List ℕ) (c : Coordinator) (w : W) (ph : Phase)
      → c.running ≡ true
      → i + n ≡ naps
      → length times ≡ 2 * n
      → work_all env times (at c w (at_for i) ph) ≡ at c w (at_for naps) ph
  unfolding work_all work
  work_all-naps zero i [] c w ph on count long = ap (λ j. at c w (at_for j) ph) (omega arith)
  work_all-naps zero i (now ∷ times) c w ph on count long = absurd (omega arith)
  work_all-naps (suc n) i [] c w ph on count long = absurd (omega arith)
  work_all-naps (suc n) i (now ∷ []) c w ph on count long = absurd (omega arith)
  work_all-naps (suc n) i (now ∷ (now' ∷ times)) c w ph on count long =
      let below : (ltb i naps && c.running) ≡ true = rw (lt→ltb i naps (omega arith), on) refl in
      ap (λ (p : Place). work_all env times (work env now' (at c w p ph)))
        (ap (λ b. if b then asleep i else at_if) below)
      ∙ work_all-naps n (suc i) times c w ph on (omega arith) (omega arith)

  -- In a serving or stopped service whose flag stays set, the thread takes sixty naps from the top of
  -- its loop and then runs one round of the cleanup, at the time of its last step, and is back at the
  -- top: 124 steps in all.
  pub work_all_lem :
      (first second third now : ℕ) (times : List ℕ) (c : Coordinator) (w : W) (ph : Phase)
      → c.running ≡ true
      → length times ≡ 2 * naps
      → let (c', w', log) = cleanup_round env.client now c w in
        work_all env (first ∷ (times ++ (second ∷ (third ∷ (now ∷ []))))) (at c w at_while ph)
        ≡ at c' w' at_while ph
  unfolding work_all work
  work_all_lem first second third now times c w ph on long =
      ap (λ (p : Place). work_all env (times ++ last) (at c w p ph))
        (ap (λ b. if b then at_for 0 else ended) on)
      ∙ work_all-append times last (at c w (at_for 0) ph)
      ∙ ap (work_all env last) (work_all-naps naps 0 times c w ph on refl long)
      ∙ ap (λ (p : Place). work env now (at c w p ph))
          (ap (λ b. if b then at_cleanup else ended) on)
    where
      last : List ℕ
      last = second ∷ (third ∷ (now ∷ []))
