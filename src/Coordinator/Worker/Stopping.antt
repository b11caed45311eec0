-- ===== src/Coordinator/Worker/Stopping.antt =====
-- The cleanup thread once the flag is clear.
use toy_dfs.Prelude.{
  ℕ, ◌-◌, ◌≤◌, ◌≡◌, refl, Bool, true, false, List, [], ◌∷◌, length, arith, ltb, ◌∙◌, Bool-cases,
  inl, inr,
}
use toy_dfs.Coordinator.{Coordinator}
use toy_dfs.Coordinator.Environment.{Environment}
use toy_dfs.Coordinator.Deletion.{cleanup_round}
use toy_dfs.Coordinator.Worker.{
  Place, not_started, at_while, at_for, asleep, at_if, at_cleanup, ended, Phase, destroyed, Service,
  at, work, work_all, join, has_ended, naps,
}

abbrev pub is_started : Place → Bool
is_started not_started = false
is_started at_while = true
is_started (at_for i) = true
is_started (asleep i) = true
is_started at_if = true
is_started at_cleanup = true
is_started ended = true

-- The steps that are left once the flag is clear.
abbrev pub left : Place → ℕ
left not_started = 0
left at_while = 1
left (at_for i) = 2
left (asleep i) = 3
left at_if = 1
left at_cleanup = 2
left ended = 0

pub left_few : (p : Place) → left p ≤ 3
left_few not_started = omega arith
left_few at_while = omega arith
left_few (at_for i) = omega arith
left_few (asleep i) = omega arith
left_few at_if = omega arith
left_few at_cleanup = omega arith
left_few ended = omega arith

module _ {W : Type 0} (env : Environment W) where
  pub cleanup_round-running :
      (now : ℕ) (c : Coordinator) (w : W) → (cleanup_round env.client now c w).0.running ≡ c.running
  unfolding cleanup_round
  cleanup_round-running now c w = refl

  -- The flag stays clear, and fewer steps are left.
  record IsNearer (s s' : Service W) : Type 0 where
    off : s'.coordinator.running ≡ false
    started : is_started s'.place ≡ true
    nearer : left s'.place ≤ left s.place - 1
    same_phase : s'.phase ≡ s.phase

  work-IsNearer :
      (now : ℕ) (c : Coordinator) (w : W) (p : Place) (ph : Phase)
      → c.running ≡ false
      → is_started p ≡ true
      → IsNearer (at c w p ph) (work env now (at c w p ph))
  unfolding work
  work-IsNearer now c w not_started ph off started = cc
  work-IsNearer now c w at_while ph off started =
      rw off (record { off = refl; started = refl; nearer = omega arith; same_phase = refl })
  work-IsNearer now c w (at_for i) ph off started = elim (Bool-cases (ltb i naps)) [
    | inl more ↦
        rw (more, off)
          (record { off = refl; started = refl; nearer = omega arith; same_phase = refl })
    | inr over ↦
        rw over (record { off = off; started = refl; nearer = omega arith; same_phase = refl })
  ]
  work-IsNearer now c w (asleep i) ph off started = record {
    off = off;
    started = refl;
    nearer = omega arith;
    same_phase = refl;
  }
  work-IsNearer now c w at_if ph off started =
      rw off (record { off = refl; started = refl; nearer = omega arith; same_phase = refl })
  work-IsNearer now c w at_cleanup ph off started = record {
    off = cleanup_round-running now c w ∙ off;
    started = refl;
    nearer = omega arith;
    same_phase = refl;
  }
  work-IsNearer now c w ended ph off started = record {
    off = off;
    started = refl;
    nearer = omega arith;
    same_phase = refl;
  }

  left_none : (p : Place) → is_started p ≡ true → left p ≤ 0 → has_ended p ≡ true
  left_none not_started started h = cc
  left_none at_while started h = absurd (omega arith)
  left_none (at_for i) started h = absurd (omega arith)
  left_none (asleep i) started h = absurd (omega arith)
  left_none at_if started h = absurd (omega arith)
  left_none at_cleanup started h = absurd (omega arith)
  left_none ended started h = refl

  -- Enough steps bring the thread to its end.
  pub work_all-has_ended :
      (times : List ℕ) (s : Service W)
      → s.coordinator.running ≡ false
      → is_started s.place ≡ true
      → left s.place ≤ length times
      → (has_ended (work_all env times s).place ≡ true) × ((work_all env times s).phase ≡ s.phase)
  unfolding work_all
  work_all-has_ended [] s off started h = (left_none s.place started h, refl)
  work_all-has_ended (now ∷ times) s off started h =
      let n = work-IsNearer now s.coordinator s.world s.place s.phase off started in
      let (over, same) =
        work_all-has_ended times (work env now s) n.off n.started (omega (arith, n.nearer)) in
      (over, same ∙ n.same_phase)

pub join-destroyed :
    {W : Type 0} (s : Service W) → has_ended s.place ≡ true → (join s).phase ≡ destroyed
unfolding join
join-destroyed s over = rw over refl
