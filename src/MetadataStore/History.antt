-- ===== src/MetadataStore/History.antt =====
-- Sequences of method calls. The mutex puts the calls of all threads in one order, so a history is a
-- list of calls, each with the times that it reads.
use toy_dfs.Prelude.{
  ℕ, ◌%◌, ◌≤◌, ◌≡◌, refl, Option, none, some, List, [], ◌∷◌, if◌then◌else◌, ◌==◌, arith, ◌∙◌,
  fun_ext, ap,
}
use toy_dfs.Bytes.{Bytes, bytes_eq}
use toy_dfs.MetadataStore.{
  MetadataStore, FileMeta, empty, put_file, get_file, delete_path, file_exists, cleanup_tombstones,
  size_modulus, get_statistics,
}
use toy_dfs.MetadataStore.Files.{
  file_at, file_at-put_file, file_at-delete_path, file_at-get_file, file_at-cleanup_tombstones,
  file_at-file_exists,
}
use toy_dfs.MetadataStore.Invariant.{
  Inv, empty-Inv, put_file-Inv, get_file-Inv, file_exists-Inv, delete_path-Inv,
  cleanup_tombstones-Inv,
}

pub data Call (W : Type 0) : Type 0 where
  put : Bytes → FileMeta → Call W
  get : Bytes → Call W
  exists : Bytes → Call W
  -- The two readings of the clock, and the path.
  delete : ℕ → ℕ → Bytes → Call W
  sweep : ℕ → Option (FileMeta → W → W) → Call W

-- The abstract store: a partial map from paths to files, which only puts and deletions change.
abbrev pub Files : Type 0
Files = Bytes → Option FileMeta

module _ {W : Type 0} where
  unfoldable pub step : Call W → MetadataStore × W → MetadataStore × W
  step (put path meta) (s, w) = (put_file path meta s, w)
  step (get path) (s, w) = ((get_file path s).1, w)
  step (exists path) (s, w) = ((file_exists path s).1, w)
  step (delete now later path) (s, w) = (delete_path now later path s, w)
  step (sweep now deleter) (s, w) = cleanup_tombstones now deleter s w

  unfoldable pub run : List (Call W) → MetadataStore × W → MetadataStore × W
  unfolding step
  run [] s = s
  run (c ∷ cs) s = run cs (step c s)

  abbrev pub effect : Call W → Files → Files
  effect (put path meta) files = λ other. if path == other then some meta else files other
  effect (delete now later path) files = λ other. if path == other then none else files other
  effect (get path) files = files
  effect (exists path) files = files
  effect (sweep now deleter) files = files

  abbrev pub effects : List (Call W) → Files → Files
  effects [] files = files
  effects (c ∷ cs) files = effects cs (effect c files)

  step-effect : (c : Call W) (s : MetadataStore × W) → file_at (step c s).0 ≡ effect c (file_at s.0)
  unfolding step
  step-effect (put path meta) s = fun_ext λ other. file_at-put_file path other meta s.0
  step-effect (get path) s = fun_ext λ other. file_at-get_file path other s.0
  step-effect (exists path) s = fun_ext λ other. file_at-file_exists path other s.0
  step-effect (delete now later path) s =
      fun_ext λ other. file_at-delete_path now later path other s.0
  step-effect (sweep now deleter) s =
      fun_ext λ other. file_at-cleanup_tombstones now deleter other s.0 s.1

  -- Refinement: after any history the store names exactly the files that the abstract map holds
  -- after the same history, whatever the tombstones, the cleanups and the counters did.
  pub run-effects :
      (cs : List (Call W)) (s : MetadataStore × W) → file_at (run cs s).0 ≡ effects cs (file_at s.0)
  unfolding run
  run-effects [] s = refl
  run-effects (c ∷ cs) s = run-effects cs (step c s) ∙ ap (effects cs) (step-effect c s)

  -- Deletions come in the order of their times, the first not before `clock`.
  abbrev pub Timed : ℕ → List (Call W) → Type 0
  Timed clock [] = Unit {0}
  Timed clock (delete now later path ∷ cs) = (clock ≤ now) × Timed now cs
  Timed clock (put path meta ∷ cs) = Timed clock cs
  Timed clock (get path ∷ cs) = Timed clock cs
  Timed clock (exists path ∷ cs) = Timed clock cs
  Timed clock (sweep now deleter ∷ cs) = Timed clock cs

  abbrev pub last_time : ℕ → List (Call W) → ℕ
  last_time clock [] = clock
  last_time clock (delete now later path ∷ cs) = last_time now cs
  last_time clock (put path meta ∷ cs) = last_time clock cs
  last_time clock (get path ∷ cs) = last_time clock cs
  last_time clock (exists path ∷ cs) = last_time clock cs
  last_time clock (sweep now deleter ∷ cs) = last_time clock cs

  -- From a well-formed store, any history whose deletions come in the order of their times, none
  -- before the store's clock, keeps the store well formed.
  pub run-Inv :
      (clock : ℕ) (cs : List (Call W)) (s : MetadataStore × W)
      → Timed clock cs
      → Inv clock s.0
      → Inv (last_time clock cs) (run cs s).0
  unfolding run
  run-Inv clock [] s t v = v
  run-Inv clock (put path meta ∷ cs) s t v =
      run-Inv clock cs (put_file path meta s.0, s.1) t (put_file-Inv clock s.0 v path meta)
  run-Inv clock (get path ∷ cs) s t v =
      run-Inv clock cs ((get_file path s.0).1, s.1) t (get_file-Inv clock s.0 v path)
  run-Inv clock (exists path ∷ cs) s t v =
      run-Inv clock cs ((file_exists path s.0).1, s.1) t (file_exists-Inv clock s.0 v path)
  run-Inv clock (delete now later path ∷ cs) s t v =
      run-Inv now cs (delete_path now later path s.0, s.1) t.1
        (delete_path-Inv clock now later path s.0 t.0 v)
  run-Inv clock (sweep now deleter ∷ cs) s t v =
      run-Inv clock cs (cleanup_tombstones now deleter s.0 s.1) t
        (cleanup_tombstones-Inv clock s.0 v now deleter s.1)

  -- From the empty store, after any history whose deletions come in the order of their times, the
  -- monitored tombstone count is the number of deleted entries, in a `size_t`.
  pub run-tombstone_count :
      (cs : List (Call W)) (w : W)
      → Timed 0 cs
      → let stats = get_statistics (run cs (empty, w)).0 in
        stats.tombstone_count ≡ stats.deleted_entries % size_modulus
  unfolding get_statistics
  run-tombstone_count cs w t = omega (arith, (run-Inv 0 cs (empty, w) t empty-Inv).counted)
