-- ===== src/Coordinator/Worker/Ends.antt =====
-- When the cleanup thread is there, and the end of the destructor.
use toy_dfs.Prelude.{
  ℕ, suc, ◌≤◌, ◌≡◌, refl, ◌∙◌, sym, Bool, true, false, not, ◌&&◌, List, length, arith, ltb,
  Bool-cases, inl, inr, if◌then◌else◌,
}
use toy_dfs.Coordinator.{Coordinator, init}
use toy_dfs.Coordinator.Environment.{Environment}
use toy_dfs.Coordinator.System.{Request, Answer}
use toy_dfs.Coordinator.Worker.{
  Place, not_started, at_while, at_for, asleep, at_if, at_cleanup, ended, Phase, serving, joining,
  destroyed, Service, at, work, work_all, serve, stop, join, has_ended, naps,
}
use toy_dfs.Coordinator.Worker.Flag.{handle-running}
use toy_dfs.Coordinator.Worker.Stopping.{
  is_started, left_few, work_all-has_ended, join-destroyed, cleanup_round-running,
}
use toy_dfs.Coordinator.Worker.Threads.{Execution, begin, idles, cleans, serves, stops, joins}

-- The thread has started and not ended.
abbrev pub is_alive : Place → Bool
is_alive p = is_started p && not (has_ended p)

abbrev InPhase : Phase → Bool → Place → Type 0
InPhase serving running p = is_alive p ≡ running
InPhase joining running p = (running ≡ false) × (is_started p ≡ true)
InPhase destroyed running p = (running ≡ false) × (is_alive p ≡ false)

abbrev IsThreaded : {W : Type 0} → Service W → Type 0
IsThreaded s = InPhase s.phase s.coordinator.running s.place

alive_started : (p : Place) → is_alive p ≡ true → is_started p ≡ true
alive_started p h = ground arith

module _ {W : Type 0} (env : Environment W) where
  -- A test of the flag lets the thread go on exactly if it is set.
  InPhase-if :
      (p q : Place) (ph : Phase) (b : Bool)
      → is_alive p ≡ true
      → is_alive q ≡ true
      → InPhase ph b p
      → InPhase ph b (if b then q else ended)
  InPhase-if p q serving true alive alive' h = alive'
  InPhase-if p q serving false alive alive' h = refl
  InPhase-if p q joining true alive alive' h = cc
  InPhase-if p q joining false alive alive' h = (refl, refl)
  InPhase-if p q destroyed true alive alive' h = cc
  InPhase-if p q destroyed false alive alive' h = (refl, refl)

  InPhase-alive :
      (p q : Place) (ph : Phase) (b : Bool)
      → is_alive p ≡ true
      → is_alive q ≡ true
      → InPhase ph b p
      → InPhase ph b q
  InPhase-alive p q serving b alive alive' h = alive' ∙ sym alive ∙ h
  InPhase-alive p q joining b alive alive' h = (h.0, alive_started q alive')
  InPhase-alive p q destroyed b alive alive' h = cc

  work-IsThreaded :
      (now : ℕ) (c : Coordinator) (w : W) (p : Place) (ph : Phase)
      → IsThreaded (at c w p ph)
      → IsThreaded (work env now (at c w p ph))
  unfolding work
  work-IsThreaded now c w not_started ph h = h
  work-IsThreaded now c w at_while ph h = InPhase-if at_while (at_for 0) ph c.running refl refl h
  work-IsThreaded now c w (at_for i) ph h = elim (Bool-cases (ltb i naps && c.running)) [
    | inl more ↦ rw more (InPhase-alive (at_for i) (asleep i) ph c.running refl refl h)
    | inr over ↦ rw over (InPhase-alive (at_for i) at_if ph c.running refl refl h)
  ]
  work-IsThreaded now c w (asleep i) ph h =
      InPhase-alive (asleep i) (at_for (suc i)) ph c.running refl refl h
  work-IsThreaded now c w at_if ph h = InPhase-if at_if at_cleanup ph c.running refl refl h
  work-IsThreaded now c w at_cleanup ph h =
      rw (cleanup_round-running env now c w)
        (InPhase-alive at_cleanup at_while ph c.running refl refl h)
  work-IsThreaded now c w ended ph h = h

  -- A call that sets the flag starts the thread.
  started_by :
      (b b' : Bool) (p : Place)
      → is_alive p ≡ b
      → (b ≡ true → b' ≡ true)
      → is_alive (if not b && b' then at_while else p) ≡ b'
  started_by true b' p alive kept = alive ∙ sym (kept refl)
  started_by false true p alive kept = refl
  started_by false false p alive kept = alive

  serve-IsThreaded :
      (request : Request) (s : Service W)
      → s.phase ≡ serving
      → IsThreaded s
      → IsThreaded (serve env request s).1
  unfolding serve
  serve-IsThreaded request s e h = rw e (
      started_by s.coordinator.running _ s.place (rw e at h)
        (handle-running env request s.coordinator s.world))

  stop-IsThreaded : (s : Service W) → s.phase ≡ serving → IsThreaded s → IsThreaded (stop s)
  unfolding stop
  stop-IsThreaded s e h = elim (Bool-cases s.coordinator.running) [
    | inl on ↦ rw (on, stop) (refl, alive_started s.place ((rw e at h) ∙ on))
    | inr off ↦ rw (off, stop) (refl, (rw e at h) ∙ off)
  ]

  join-IsThreaded : (s : Service W) → s.phase ≡ joining → IsThreaded s → IsThreaded (join s)
  unfolding join
  join-IsThreaded s e h = elim (Bool-cases (has_ended s.place)) [
    | inl over ↦ rw over ((rw e at h).0, ground (arith, over))
    | inr under ↦ rw under h
  ]

  Execution-IsThreaded :
      {w : W} {calls : List Request} {answers : List Answer} {s : Service W}
      → Execution env w calls answers s
      → IsThreaded s
  unfolding init
  Execution-IsThreaded begin = refl
  Execution-IsThreaded (idles {s = s} now quiet x) =
      work-IsThreaded now s.coordinator s.world s.place s.phase (Execution-IsThreaded x)
  Execution-IsThreaded (cleans {s = s} now here x) =
      work-IsThreaded now s.coordinator s.world s.place s.phase (Execution-IsThreaded x)
  Execution-IsThreaded (serves {s = s} request ready x) =
      serve-IsThreaded request s ready (Execution-IsThreaded x)
  Execution-IsThreaded (stops {s = s} ready x) = stop-IsThreaded s ready (Execution-IsThreaded x)
  Execution-IsThreaded (joins {s = s} waiting x) =
      join-IsThreaded s waiting (Execution-IsThreaded x)

  -- In every reachable state before the destructor, the cleanup thread has started and not ended
  -- exactly if the flag is set.
  pub Execution-is_alive :
      (w : W) (calls : List Request) (answers : List Answer) (s : Service W)
      → s.phase ≡ serving
      → Execution env w calls answers s
      → is_alive s.place ≡ s.coordinator.running
  Execution-is_alive w calls answers s ready x = rw ready at (Execution-IsThreaded x)

  -- Where the destructor waits for the thread, in any reachable state, three more steps of the thread,
  -- at any times, are enough: then `join` returns.
  pub join-work_all :
      (w : W) (calls : List Request) (answers : List Answer) (s : Service W) (times : List ℕ)
      → s.phase ≡ joining
      → 3 ≤ length times
      → Execution env w calls answers s
      → (join (work_all env times s)).phase ≡ destroyed
  join-work_all w calls answers s times waiting enough x =
      let (off, started) = rw waiting at (Execution-IsThreaded x) in
      let (over, same) =
        work_all-has_ended env times s off started (omega (arith, left_few s.place)) in
      join-destroyed (work_all env times s) over
