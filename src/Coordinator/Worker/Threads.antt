-- ===== src/Coordinator/Worker/Threads.antt =====
-- The service with its cleanup thread, under every interleaving of the thread with the handlers.
use toy_dfs.Prelude.{
  ℕ, ◌*◌, ◌≤◌, ◌≡◌, ◌≢◌, refl, ap, ◌∙◌, subst, Bool, false, List, [], ◌∷◌, ◌++◌, none, length, All,
  Bool-cases, inl, inr, int_max,
}
use toy_dfs.Coordinator.{Coordinator, init}
use toy_dfs.Coordinator.Client.{IsReliable}
use toy_dfs.Coordinator.Environment.{Environment}
use toy_dfs.Coordinator.Deletion.{cleanup_round}
use toy_dfs.Coordinator.Upload.Chunks.{max_chunks}
use toy_dfs.Coordinator.System.{Request, cleanup, Answer, handle, run, run-append}
use toy_dfs.Coordinator.System.Spec.{Contents, Trace}
use toy_dfs.Coordinator.System.Refinement.{IsSmall, run-Trace}
use toy_dfs.Coordinator.Worker.{
  Place, not_started, at_while, at_for, asleep, at_if, at_cleanup, ended, Phase, serving, joining,
  Service, at, work, serve, stop, join, has_ended,
}

module _ {W : Type 0} (env : Environment W) where
  abbrev pub fresh : W → Service W
  fresh w = record { coordinator = init; world = w; place = not_started; phase = serving }

  -- The calls and the rounds of the cleanup so far, and their answers.
  pub data Execution (w : W) : List Request → List Answer → Service W → Type 0 where
    begin : Execution w [] [] (fresh w)
    -- A step of the thread that tests the flag or sleeps.
    idles :
        {calls : List Request} {answers : List Answer} {s : Service W} (now : ℕ)
        → s.place ≢ at_cleanup
        → Execution w calls answers s
        → Execution w calls answers (work env now s)
    cleans :
        {calls : List Request} {answers : List Answer} {s : Service W} (now : ℕ)
        → s.place ≡ at_cleanup
        → Execution w calls answers s
        → Execution w
            (calls ++ cleanup now ∷ [])
            (answers ++ Answer.cleaned (cleanup_round env.client now s.coordinator s.world).2 ∷ [])
            (work env now s)
    serves :
        {calls : List Request} {answers : List Answer} {s : Service W} (request : Request)
        → s.phase ≡ serving
        → Execution w calls answers s
        → Execution w
            (calls ++ request ∷ [])
            (answers ++ (serve env request s).0 ∷ [])
            (serve env request s).1
    stops :
        {calls : List Request} {answers : List Answer} {s : Service W}
        → s.phase ≡ serving
        → Execution w calls answers s
        → Execution w calls answers (stop s)
    joins :
        {calls : List Request} {answers : List Answer} {s : Service W}
        → s.phase ≡ joining
        → Execution w calls answers s
        → Execution w calls answers (join s)

  -- The state is the one after these calls, one after the other, but for the flag of a service that
  -- stops.
  abbrev Matches : W → List Request → List Answer → Service W → Type 0
  Matches w calls answers s =
      (b : Bool) × (run env calls init w ≡ (answers, record s.coordinator { running = b }, s.world))
      × (s.phase ≡ serving → b ≡ s.coordinator.running)

  -- But for the round of the cleanup, the thread changes nothing but its place.
  idle-Matches :
      (w : W) (calls : List Request) (answers : List Answer) (now : ℕ) (c : Coordinator) (v : W)
      (p : Place) (ph : Phase)
      → p ≢ at_cleanup
      → Matches w calls answers (at c v p ph)
      → Matches w calls answers (work env now (at c v p ph))
  unfolding work
  idle-Matches w calls answers now c v not_started ph quiet m = m
  idle-Matches w calls answers now c v at_while ph quiet m = m
  idle-Matches w calls answers now c v (at_for i) ph quiet m = m
  idle-Matches w calls answers now c v (asleep i) ph quiet m = m
  idle-Matches w calls answers now c v at_if ph quiet m = m
  idle-Matches w calls answers now c v at_cleanup ph quiet m = absurd (quiet refl)
  idle-Matches w calls answers now c v ended ph quiet m = m

  one_more :
      (w : W) (calls : List Request) (answers : List Answer) (request : Request) (c : Coordinator)
      (v : W)
      → run env calls init w ≡ (answers, c, v)
      → run env (calls ++ request ∷ []) init w
        ≡ (let (answer, c', v') = handle env request c v in (answers ++ answer ∷ [], c', v'))
  one_more w calls answers request c v e =
      run-append env calls request init w
      ∙ ap
          (λ (t : List Answer × Coordinator × W).
            let (past, c', v') = t in
            let (answer, c'', v'') = handle env request c' v' in (past ++ answer ∷ [], c'', v''))
          e

  clean-Matches :
      (w : W) (calls : List Request) (answers : List Answer) (now : ℕ) (c : Coordinator) (v : W)
      (p : Place) (ph : Phase)
      → p ≡ at_cleanup
      → Matches w calls answers (at c v p ph)
      → Matches w
          (calls ++ cleanup now ∷ [])
          (answers ++ Answer.cleaned (cleanup_round env.client now c v).2 ∷ [])
          (work env now (at c v p ph))
  unfolding work handle cleanup_round
  clean-Matches w calls answers now c v p ph e m =
      rw e (m.0, one_more w calls answers (cleanup now) _ v m.1, m.2)

  serve-Matches :
      (w : W) (calls : List Request) (answers : List Answer) (request : Request) (s : Service W)
      → s.phase ≡ serving
      → Matches w calls answers s
      → Matches w
          (calls ++ request ∷ [])
          (answers ++ (serve env request s).0 ∷ [])
          (serve env request s).1
  unfolding serve
  serve-Matches w calls answers request s e m = (
    (handle env request s.coordinator s.world).1.running,
    one_more w calls answers request s.coordinator s.world
        (m.1 ∙ ap (λ b. (answers, record s.coordinator { running = b }, s.world)) (m.2 e)),
    λ f. refl,
  )

  stop-Matches :
      (w : W) (calls : List Request) (answers : List Answer) (s : Service W)
      → Matches w calls answers s
      → Matches w calls answers (stop s)
  unfolding stop
  stop-Matches w calls answers s m = elim (Bool-cases s.coordinator.running) [
    | inl on ↦ rw (on, stop) (m.0, m.1, λ e. cc)
    | inr off ↦ rw (off, stop) (m.0, m.1, λ e. cc)
  ]

  join-Matches :
      (w : W) (calls : List Request) (answers : List Answer) (s : Service W)
      → Matches w calls answers s
      → Matches w calls answers (join s)
  unfolding join
  join-Matches w calls answers s m = elim (Bool-cases (has_ended s.place)) [
    | inl over ↦ rw over (m.0, m.1, λ e. cc)
    | inr under ↦ rw under m
  ]

  Execution-Matches :
      {w : W} {calls : List Request} {answers : List Answer} {s : Service W}
      → Execution w calls answers s
      → Matches w calls answers s
  Execution-Matches begin = (false, unfold run init in refl, λ e. unfold init in refl)
  Execution-Matches (idles {s = s} now quiet x) =
      idle-Matches _ _ _ now s.coordinator s.world s.place s.phase quiet (Execution-Matches x)
  Execution-Matches (cleans {s = s} now here x) =
      clean-Matches _ _ _ now s.coordinator s.world s.place s.phase here (Execution-Matches x)
  Execution-Matches (serves {s = s} request ready x) =
      serve-Matches _ _ _ request s ready (Execution-Matches x)
  Execution-Matches (stops {s = s} ready x) = stop-Matches _ _ _ s (Execution-Matches x)
  Execution-Matches (joins {s = s} waiting x) = join-Matches _ _ _ s (Execution-Matches x)

  -- Let the data nodes be reliable, every upload be of at most 2 GiB, and the calls be so few that the
  -- chunk numbers stay in the range of `int`. Whatever the interleaving of the cleanup thread with the
  -- calls, and wherever the service is stopped, the answers are ones that the contract of a map from
  -- paths to contents allows; a round of the thread counts as a call that changes no file.
  pub Execution-Trace :
      (reliable : IsReliable env.client) (w : W) (calls : List Request) (answers : List Answer)
      (s : Service W)
      → All IsSmall calls
      → max_chunks * length calls ≤ int_max
      → Execution w calls answers s
      → (files : Contents) × Trace (λ path. none) calls answers files
  Execution-Trace reliable w calls answers s small room x =
      let (b, e, same) = Execution-Matches x in
      let (files, trace) = run-Trace env reliable calls w small room in
      (
        files,
        subst (λ (past : List Answer). Trace (λ path. none) calls past files)
            (ap (λ (t : List Answer × Coordinator × W). t.0) e) trace,
      )
