-- ===== src/Coordinator/Concurrent/Entered.antt =====
-- Uploads that run at once, and the files that the store names.
use mathlib.Core.List.{Memᴰ}
use mathlib.Core.List.Memᴰ
use toy_dfs.Prelude.{
  ℕ, zero, suc, ◌≡◌, ◌⊎◌, inl, inr, refl, ap, ◌∙◌, sym, subst, Bool, true, false, Bool-cases, List,
  [], ◌∷◌, Option, none, some, length, pos_part, All, if◌then◌else◌, map, ◌==◌, ◌++◌,
}
use toy_dfs.Bytes.{Bytes, bytes_eq, codes, is_empty}
use toy_dfs.Grpc.{status, already_exists, invalid_argument}
use toy_dfs.MetadataStore.{MetadataStore, FileMeta, is_some}
use toy_dfs.MetadataStore.Files.{file_at, file_at-put_file, file_at-get_file}
use toy_dfs.Coordinator.{Coordinator}
use toy_dfs.Coordinator.Environment.{Environment}
use toy_dfs.Coordinator.Upload.{Loop, finished, stopped, put_chunks, num_chunks, file_meta}
use toy_dfs.Coordinator.Upload.Failure.{put_chunks-store}
use toy_dfs.Coordinator.Concurrent.{
  Stage, started, looping, succeeded, failed, undefined, Call, after_round, step, step_at,
  interleave,
}

-- The metadata that a call reports to have entered.
abbrev pub entry_of : Bytes → Stage → Option FileMeta
entry_of file_data (succeeded chunks) = some (file_meta (length file_data) chunks)
entry_of file_data started = none
entry_of file_data (looping n i chunks) = none
entry_of file_data (failed st) = none
entry_of file_data undefined = none

-- The same, if the call is for `path`.
abbrev pub entry_for : Bytes → Call → Option FileMeta
entry_for path call = if call.filename == path then entry_of call.file_data call.stage else none

-- A step leaves a path and what the calls have entered there, or some call has just entered the file
-- that the path names now.
abbrev Moves : Bytes → MetadataStore → MetadataStore → List Call → List Call → Type 0
Moves path before after calls calls' =
    ((file_at after path ≡ file_at before path)
      × (map (entry_for path) calls' ≡ map (entry_for path) calls))
    ⊎ ((m : FileMeta) × Memᴰ (some m) (map (entry_for path) calls') × (file_at after path ≡ some m))

-- The path names what one of the calls has entered; or none has entered anything, and it names what
-- it did before.
abbrev pub Shows : Bytes → Option FileMeta → MetadataStore → List (Option FileMeta) → Type 0
Shows path before s entries =
    ((m : FileMeta) × Memᴰ (some m) entries × (file_at s path ≡ some m))
    ⊎ (All (λ e. e ≡ none) entries × (file_at s path ≡ before))

Shows-Moves :
    (path : Bytes) (before : Option FileMeta) (s t : MetadataStore) (calls calls' : List Call)
    → Shows path before s (map (entry_for path) calls)
    → Moves path s t calls calls'
    → Shows path before t (map (entry_for path) calls')
Shows-Moves path before s t calls calls' (inl (m, there, e)) (inl (same, entries)) =
    inl (m, subst (Memᴰ (some m)) (sym entries) there, same ∙ e)
Shows-Moves path before s t calls calls' (inr (nothing, e)) (inl (same, entries)) =
    inr (subst (All (λ (o : Option FileMeta). o ≡ none)) (sym entries) nothing, same ∙ e)
Shows-Moves path before s t calls calls' shown (inr entered) = inl entered

if_none {ℓ} : {A : Type ℓ} (b : Bool) (o : Option A) → o ≡ none → (if b then o else none) ≡ none
if_none true o e = e
if_none false o e = refl

module _ {W : Type 0} (env : Environment W) where
  abbrev call_at : Bytes → Bytes → Stage → Call
  call_at filename file_data stage = record {
    filename = filename;
    file_data = file_data;
    stage = stage;
  }

  round-none :
      (n i : ℕ) (file_data : Bytes) (l : Loop) → entry_of file_data (after_round n i l) ≡ none
  round-none n i file_data (finished chunks) = refl
  round-none n i file_data (stopped st) = refl
  round-none n i file_data Loop.undefined = refl

  looked-none :
      (there nameless : Bool) (n : ℕ) (file_data : Bytes)
      → entry_of file_data (
          if there
          then failed (status already_exists (codes "File exists"))
          else if nameless
          then failed (status invalid_argument (codes "Filename not provided"))
          else looping n 0 [])
        ≡ none
  looked-none true nameless n file_data = refl
  looked-none false true n file_data = refl
  looked-none false false n file_data = refl

  step-Moves :
      (path filename file_data : Bytes) (stage : Stage) (c : Coordinator) (w : W)
      → let (call, c', w') = step env (call_at filename file_data stage) c w in
        Moves path c.store c'.store (call_at filename file_data stage ∷ []) (call ∷ [])
  unfolding step
  step-Moves path filename file_data started c w = inl (
    file_at-get_file filename path c.store,
    ap (λ o. o ∷ [])
        (if_none (filename == path) _ (
            looked-none (is_some (file_at c.store filename)) (is_empty filename)
              (pos_part (num_chunks (length file_data))) file_data)
          ∙ sym (if_none (filename == path) none refl)),
  )
  step-Moves path filename file_data (looping zero i chunks) c w =
      let meta = file_meta (length file_data) chunks in
      elim (Bool-cases (filename == path)) [
        | inl here ↦ inr (
          meta,
          Memᴰ.head (sym (ap (λ b. if b then some meta else none) here)),
          file_at-put_file filename path meta c.store
              ∙ ap (λ b. if b then some meta else file_at c.store path) here,
        )
        | inr elsewhere ↦ inl (
          file_at-put_file filename path meta c.store
              ∙ ap (λ b. if b then some meta else file_at c.store path) elsewhere,
          ap (λ o. o ∷ [])
              (ap (λ b. if b then some meta else none) elsewhere
                ∙ sym (if_none (filename == path) none refl)),
        )
      ]
  step-Moves path filename file_data (looping (suc n) i chunks) c w = inl (
    ap (λ s. file_at s path) (put_chunks-store env 1 i file_data chunks c w),
    ap (λ o. o ∷ [])
        (if_none (filename == path) _
            (round-none n i file_data (put_chunks env 1 i file_data chunks c w).0)
          ∙ sym (if_none (filename == path) none refl)),
  )
  step-Moves path filename file_data (succeeded chunks) c w = inl (refl, refl)
  step-Moves path filename file_data (failed st) c w = inl (refl, refl)
  step-Moves path filename file_data undefined c w = inl (refl, refl)

  Moves-beside :
      (path : Bytes) (s t : MetadataStore) (call call' : Call) (calls : List Call)
      → Moves path s t (call ∷ []) (call' ∷ [])
      → Moves path s t (call ∷ calls) (call' ∷ calls)
  Moves-beside path s t call call' calls (inl (same, entries)) =
      inl (same, ap (λ es. es ++ map (entry_for path) calls) entries)
  Moves-beside path s t call call' calls (inr (m, Memᴰ.head e, now)) = inr (m, Memᴰ.head e, now)
  Moves-beside path s t call call' calls (inr (m, Memᴰ.tail n, now)) = absurd (Memᴰ.not-nil n)

  Moves-behind :
      (path : Bytes) (s t : MetadataStore) (call : Call) (calls calls' : List Call)
      → Moves path s t calls calls'
      → Moves path s t (call ∷ calls) (call ∷ calls')
  Moves-behind path s t call calls calls' (inl (same, entries)) =
      inl (same, ap (λ es. entry_for path call ∷ es) entries)
  Moves-behind path s t call calls calls' (inr (m, there, now)) = inr (m, Memᴰ.tail there, now)

  step_at-Moves :
      (path : Bytes) (j : ℕ) (calls : List Call) (c : Coordinator) (w : W)
      → let (calls', c', w') = step_at env j calls c w in Moves path c.store c'.store calls calls'
  unfolding step_at
  step_at-Moves path j [] c w = inl (refl, refl)
  step_at-Moves path zero (call ∷ calls) c w =
      let (call', c', w') = step env call c w in
      Moves-beside path c.store c'.store call call' calls
        (step-Moves path call.filename call.file_data call.stage c w)
  step_at-Moves path (suc j) (call ∷ calls) c w =
      let (calls', c', w') = step_at env j calls c w in
      Moves-behind path c.store c'.store call calls calls' (step_at-Moves path j calls c w)

  pub interleave-Shows :
      (path : Bytes) (before : Option FileMeta) (schedule : List ℕ) (calls : List Call)
      (c : Coordinator) (w : W)
      → Shows path before c.store (map (entry_for path) calls)
      → let (calls', c', w') = interleave env schedule calls c w in
        Shows path before c'.store (map (entry_for path) calls')
  unfolding interleave
  interleave-Shows path before [] calls c w s = s
  interleave-Shows path before (j ∷ schedule) calls c w s =
      let (calls', c', w') = step_at env j calls c w in
      interleave-Shows path before schedule calls' c' w'
        (Shows-Moves path before c.store c'.store calls calls' s (step_at-Moves path j calls c w))
