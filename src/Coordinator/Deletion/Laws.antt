-- ===== src/Coordinator/Deletion/Laws.antt =====
-- What deletion and the cleanup do.
use mathlib.Core.List.{map-append}
use toy_dfs.Prelude.{
  ℕ, ◌≡◌, ◌≢◌, refl, ap, ◌∙◌, sym, true, List, [], ◌∷◌, ◌++◌, none, some, ℤ, int_eq, if◌then◌else◌,
  Option-cases, inl, inr, map, filter_by, All, All-append, ◌==◌, append_assoc, append-nil, subst,
  ◌&&◌, Bool-cases, arith,
}
use toy_dfs.Bytes.{Bytes, codes, bytes_eq}
use toy_dfs.Grpc.{status, status_ok, is_ok, not_found}
use toy_dfs.Table.{find}
use toy_dfs.MetadataStore
use toy_dfs.MetadataStore.{ChunkInfo, FileMeta, Tombstone, is_expired, call_deleter, is_some}
use toy_dfs.MetadataStore.Files.{file_at, file_at-get_file, file_at-delete_path}
use toy_dfs.MetadataStore.Tombstones.{cleanup_tombstones_lem, delete_all, is_fresh}
use toy_dfs.Coordinator.{Coordinator, Nodes}
use toy_dfs.Coordinator.Client.{DataNodeClient}
use toy_dfs.Coordinator.Deletion.{
  delete_file, Event, deleted, delete_replica, delete_replicas, delete_chunks, chunk_deleter,
  cleanup_round,
}

-- Deleting succeeds exactly if the path names a file; then that path names nothing, the cleanup
-- thread has been asked for, and no other path changes. Otherwise the answer is NOT_FOUND, and no
-- path changes.
pub delete_file_lem :
    (now later : ℕ) (path other : Bytes) (c : Coordinator)
    → let (st, success, c') = delete_file now later path c in
      (success ≡ is_some (file_at c.store path))
      × (st ≡ (if success then status_ok else status not_found (codes "File not found")))
      × (file_at c'.store other
          ≡ (if success && path == other then none else file_at c.store other))
      × (success ≡ true → c'.running ≡ true)
unfolding delete_file
delete_file_lem now later path other c = elim (Option-cases (file_at c.store path)) [
  | inl e ↦ rw (e, delete_file) (refl, refl, file_at-get_file path other c.store, λ h. cc)
  | inr (meta, e) ↦
      rw (e, delete_file)
        (
          refl,
          refl,
          file_at-delete_path now later path other (MetadataStore.get_file path c.store).1
              ∙ ap (λ f. if path == other then none else f) (file_at-get_file path other c.store),
          λ h. refl,
        )
]

abbrev pub target : Event → Bytes × ℤ
target e = (e.chunk_id, e.node_id)

-- The replicas that the metadata of a file names, chunk by chunk.
abbrev pub replicas_of : List ChunkInfo → List (Bytes × ℤ)
replicas_of [] = []
replicas_of (chunk ∷ chunks) = map (λ id. (chunk.chunk_id, id)) chunk.node_ids ++ replicas_of chunks

abbrev pub replicas_of_all : List Tombstone → List (Bytes × ℤ)
replicas_of_all [] = []
replicas_of_all (t ∷ ts) = replicas_of t.meta.chunks ++ replicas_of_all ts

abbrev pub IsUnconfirmed : Event → Type 0
IsUnconfirmed e = e.outcome ≢ deleted

module _ {W : Type 0} (client : DataNodeClient W) (nodes : Nodes) where
  -- A replica is taken from the data node that has its number, if one is registered.
  abbrev pub remove : Bytes × ℤ → W → W
  remove (chunk_id, id) w = elim (find id nodes) [
    | none ↦ w
    | some info ↦ (client.delete_chunk info.address info.port chunk_id w).1
  ]

  abbrev pub remove_all : List (Bytes × ℤ) → W → W
  remove_all [] w = w
  remove_all (p ∷ ps) w = remove_all ps (remove p w)

  remove_all-append :
      (ps qs : List (Bytes × ℤ)) (w : W) → remove_all (ps ++ qs) w ≡ remove_all qs (remove_all ps w)
  remove_all-append [] qs w = refl
  remove_all-append (p ∷ ps) qs w = remove_all-append ps qs (remove p w)

  -- The log grows by these targets, and by no confirmation; the data nodes are left as by removing
  -- them.
  abbrev Logs : List (Bytes × ℤ) → W × List Event → W × List Event → Type 0
  Logs targets s s' =
      (more : List Event) × (s'.1 ≡ s.1 ++ more)
      × (map target more ≡ targets)
      × All IsUnconfirmed more
      × (s'.0 ≡ remove_all targets s.0)

  Logs-trans :
      (ps qs : List (Bytes × ℤ)) (s t u : W × List Event)
      → Logs ps s t
      → Logs qs t u
      → Logs (ps ++ qs) s u
  Logs-trans ps qs s t u (m, e, f, n, r) (m', e', f', n', r') = (
    m ++ m',
    e' ∙ ap (λ l. l ++ m') e ∙ simp append_assoc,
    simp (map-append, f, f'),
    All-append IsUnconfirmed m m' n n',
    r' ∙ ap (remove_all qs) r ∙ sym (remove_all-append ps qs s.0),
  )

  delete_replica-remove :
      (chunk_id : Bytes) (id : ℤ) (w : W) (log : List Event)
      → (delete_replica client nodes chunk_id id (w, log)).0 ≡ remove (chunk_id, id) w
  unfolding delete_replica
  delete_replica-remove chunk_id id w log = elim (Option-cases (find id nodes)) [
    | inl e ↦ ground arith
    | inr (info, e) ↦ ground arith
  ]

  delete_replica-log :
      (chunk_id : Bytes) (id : ℤ) (w : W) (log : List Event)
      → (more : List Event) × ((delete_replica client nodes chunk_id id (w, log)).1 ≡ log ++ more)
        × (map target more ≡ (chunk_id, id) ∷ [])
        × All IsUnconfirmed more
  delete_replica-log chunk_id id w log = elim (Option-cases (find id nodes)) [
    | inl e ↦ unfold delete_replica in rw (e, delete_replica) (_ ∷ [], refl, refl, (λ h. cc, tt))
    | inr (info, e) ↦
        elim (Bool-cases (is_ok (client.delete_chunk info.address info.port chunk_id w).0)) [
          | inl ok ↦
              unfold delete_replica in
              rw (e, delete_replica) (_ ∷ [], refl, refl, (rw ok (λ h. cc), tt))
          | inr bad ↦
              unfold delete_replica in
              rw (e, delete_replica) (_ ∷ [], refl, refl, (rw bad (λ h. cc), tt))
        ]
  ]

  delete_replica-Logs :
      (chunk_id : Bytes) (id : ℤ) (s : W × List Event)
      → Logs ((chunk_id, id) ∷ []) s (delete_replica client nodes chunk_id id s)
  delete_replica-Logs chunk_id id (w, log) =
      let (more, grown, targets, unconfirmed) = delete_replica-log chunk_id id w log in
      (more, grown, targets, unconfirmed, delete_replica-remove chunk_id id w log)

  delete_replicas-Logs :
      (chunk_id : Bytes) (ids : List ℤ) (s : W × List Event)
      → Logs (map (λ id. (chunk_id, id)) ids) s (delete_replicas client nodes chunk_id ids s)
  unfolding delete_replicas
  delete_replicas-Logs chunk_id [] s = ([], sym (append-nil s.1), refl, tt, refl)
  delete_replicas-Logs chunk_id (id ∷ ids) s =
      Logs-trans ((chunk_id, id) ∷ []) _ s (delete_replica client nodes chunk_id id s)
        (delete_replicas client nodes chunk_id ids (delete_replica client nodes chunk_id id s))
        (delete_replica-Logs chunk_id id s)
        (delete_replicas-Logs chunk_id ids (delete_replica client nodes chunk_id id s))

  delete_chunks-Logs :
      (chunks : List ChunkInfo) (s : W × List Event)
      → Logs (replicas_of chunks) s (delete_chunks client nodes chunks s)
  unfolding delete_chunks
  delete_chunks-Logs [] s = ([], sym (append-nil s.1), refl, tt, refl)
  delete_chunks-Logs (chunk ∷ chunks) s =
      let s' = delete_replicas client nodes chunk.chunk_id chunk.node_ids s in
      Logs-trans _ (replicas_of chunks) s s' (delete_chunks client nodes chunks s')
        (delete_replicas-Logs chunk.chunk_id chunk.node_ids s) (delete_chunks-Logs chunks s')

  delete_all-Logs :
      (now : ℕ) (ts : List Tombstone) (s : W × List Event)
      → Logs (replicas_of_all ts) s (delete_all now (some (chunk_deleter client nodes)) ts s)
  delete_all-Logs now [] s = ([], sym (append-nil s.1), refl, tt, refl)
  delete_all-Logs now (t ∷ ts) s =
      let s' = chunk_deleter client nodes t.meta s in
      Logs-trans _ (replicas_of_all ts) s s'
        (delete_all now (some (chunk_deleter client nodes)) ts s') (chunk_deleter-Logs t.meta s)
        (delete_all-Logs now ts s')
    where
      chunk_deleter-Logs :
          (meta : FileMeta) (v : W × List Event)
          → Logs (replicas_of meta.chunks) v (chunk_deleter client nodes meta v)
      chunk_deleter-Logs meta v = unfold chunk_deleter in delete_chunks-Logs meta.chunks v

-- A round of the cleanup takes up every replica of every expired tombstone once, in order: the data
-- nodes are left as by one call of DeleteChunk for each of these replicas whose node is registered,
-- and the log has one line for each. It drops the tombstone whatever came of it; the other tombstones
-- and all active files stay. It never logs that a chunk was deleted, not even where the data node
-- deleted it.
pub cleanup_round_lem :
    {W : Type 0} (client : DataNodeClient W) (now : ℕ) (c : Coordinator) (w : W)
    → let (c', w', log) = cleanup_round client now c w in
      (map target log ≡ replicas_of_all (filter_by (is_expired now) c.store.deleted_entries))
      × All IsUnconfirmed log
      × (w'
          ≡ remove_all client c.registered_nodes
              (replicas_of_all (filter_by (is_expired now) c.store.deleted_entries))
              w)
      × (c'.store.deleted_entries ≡ filter_by (is_fresh now) c.store.deleted_entries)
      × (c'.store.entries ≡ c.store.entries)
unfolding cleanup_round
cleanup_round_lem {W} client now c w =
    let deleter = chunk_deleter client c.registered_nodes in
    let (kept, world, entries) = cleanup_tombstones_lem now (some deleter) c.store (w, []) in
    let (log, added, targets, unconfirmed, removed) =
      delete_all-Logs client c.registered_nodes now
        (filter_by (is_expired now) c.store.deleted_entries) (w, []) in
    let logged : (cleanup_round client now c w).2 ≡ log =
      ap (λ (s : W × List Event). s.1) world ∙ added in
    (
      ap (map target) logged ∙ targets,
      subst (All IsUnconfirmed) (sym logged) unconfirmed,
      ap (λ (s : W × List Event). s.0) world ∙ removed,
      kept,
      entries,
    )
