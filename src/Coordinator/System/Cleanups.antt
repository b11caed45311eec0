-- ===== src/Coordinator/System/Cleanups.antt =====
-- Rounds of the cleanup, against the contract.
use toy_dfs.Prelude.{
  ℕ, ◌≤◌, ◌≡◌, ◌≢◌, refl, ap, ◌∙◌, sym, subst, List, [], ◌∷◌, Option, none, some, ℤ, arith, All,
  Option-cases, inl, inr, int_max, int_eq, filter_by,
}
use toy_dfs.Bytes.{Bytes}
use toy_dfs.Table.{find}
use toy_dfs.MetadataStore
use toy_dfs.MetadataStore.{ChunkInfo, FileMeta, Tombstone, is_expired}
use toy_dfs.MetadataStore.Files.{file_at, file_at-cleanup_tombstones}
use toy_dfs.MetadataStore.Buried.{filter_by-All}
use toy_dfs.MetadataStore.Tombstones.{is_fresh, delete_all, cleanup_tombstones_lem}
use toy_dfs.Coordinator.{Coordinator, Nodes, DataNodeInfo}
use toy_dfs.Coordinator.Client.{DataNodeClient, IsReliable, chunk_name}
use toy_dfs.Coordinator.Distribution.Replicas.{HasReplica}
use toy_dfs.Coordinator.Upload.Stored.{Stored, IsNumbered}
use toy_dfs.Coordinator.Deletion.{
  Event, delete_replica, delete_replicas, delete_chunks, chunk_deleter, cleanup_round,
}
use toy_dfs.Coordinator.System.Chunks.{IsApart, Apart, Stored-map}
use toy_dfs.Coordinator.System.Spec.{Contents}
use toy_dfs.Coordinator.System.Represents.{Represents, Agree}

module _ {W : Type 0} (client : DataNodeClient W) (reliable : IsReliable client) (nodes : Nodes)
    (bound : ℕ) (room : bound ≤ int_max) (chunks : List ChunkInfo) (content : Bytes) where
  abbrev Held : W × List Event → Type 0
  Held s = Stored client nodes bound s.0 chunks content

  -- The replicas of the chunk `y` can go where it is no chunk of the file.
  delete_replica-Held :
      (y : ChunkInfo) (id : ℤ) (s : W × List Event)
      → IsNumbered 0 bound y
      → IsApart chunks y
      → Held s
      → Held (delete_replica client nodes y.chunk_id id s)
  unfolding delete_replica
  delete_replica-Held y id (w, log) (n, named, from, below) other held =
      elim (Option-cases (find id nodes)) [
        | inl e ↦ rw (e, delete_replica) held
        | inr (info, e) ↦
            rw (e, delete_replica)
              (Stored-map client (λ x. y.chunk_id ≢ x.chunk_id) nodes nodes bound bound w _ chunks
                content (omega arith) other
                (λ x here node apart numbered replica. kept info x here node apart numbered replica)
                held)
      ]
    where
      differ : (x : ChunkInfo) (m : ℕ) → x.chunk_id ≡ chunk_name m → y.chunk_id ≢ x.chunk_id → n ≢ m
      differ x m called apart e = apart (named ∙ ap chunk_name e ∙ sym called)

      kept :
          (info : DataNodeInfo) (x : ChunkInfo) (here : Bytes) (node : ℤ)
          → y.chunk_id ≢ x.chunk_id
          → IsNumbered 0 bound x
          → HasReplica client nodes x.chunk_id here w node
          → HasReplica client nodes x.chunk_id here
              (client.delete_chunk info.address info.port y.chunk_id w).1
              node
      kept info x here node apart (m, called, start, low) (at, found, holds) = (
        at,
        found,
        rw (named, called)
            (reliable.delete_keeps_other info.address at.address info.port at.port n m here w
              (omega arith) (omega arith) (differ x m called apart) (rw called at holds)),
      )

  delete_replicas-Held :
      (y : ChunkInfo) (ids : List ℤ) (s : W × List Event)
      → IsNumbered 0 bound y
      → IsApart chunks y
      → Held s
      → Held (delete_replicas client nodes y.chunk_id ids s)
  unfolding delete_replicas
  delete_replicas-Held y [] s numbered other held = held
  delete_replicas-Held y (id ∷ ids) s numbered other held =
      delete_replicas-Held y ids (delete_replica client nodes y.chunk_id id s) numbered other
        (delete_replica-Held y id s numbered other held)

  delete_chunks-Held :
      (ys : List ChunkInfo) (s : W × List Event)
      → All (IsNumbered 0 bound) ys
      → Apart ys chunks
      → Held s
      → Held (delete_chunks client nodes ys s)
  unfolding delete_chunks
  delete_chunks-Held [] s numbered other held = held
  delete_chunks-Held (y ∷ ys) s numbered other held =
      delete_chunks-Held ys (delete_replicas client nodes y.chunk_id y.node_ids s) numbered.1
        other.1 (delete_replicas-Held y y.node_ids s numbered.0 other.0 held)

  delete_all-Held :
      (now : ℕ) (ts : List Tombstone) (s : W × List Event)
      → All (λ (t : Tombstone). All (IsNumbered 0 bound) t.meta.chunks) ts
      → All (λ (t : Tombstone). Apart t.meta.chunks chunks) ts
      → Held s
      → Held (delete_all now (some (chunk_deleter client nodes)) ts s)
  delete_all-Held now [] s numbered other held = held
  delete_all-Held now (t ∷ ts) s numbered other held =
      delete_all-Held now ts (chunk_deleter client nodes t.meta s) numbered.1 other.1
        (unfold chunk_deleter in delete_chunks-Held t.meta.chunks s numbered.0 other.0 held)

module _ {W : Type 0} (client : DataNodeClient W) (reliable : IsReliable client) where
  -- Every file that is there before a round is there after it.
  pub cleanup-Represents :
      (now : ℕ) (files : Contents) (k : ℕ) (c : Coordinator) (w : W)
      → c.chunk_id_counter ≤ int_max
      → Represents client files k c w
      → let (c', w', log) = cleanup_round client now c w in
        Represents client files k c' w' × (c'.chunk_id_counter ≡ c.chunk_id_counter)
  unfolding cleanup_round
  cleanup-Represents now files k c w room r = (
    record {
      registry = record {
        next = r.registry.next;
        starts = r.registry.starts;
        issued = r.registry.issued;
        distinct = r.registry.distinct;
        separate = r.registry.separate;
      };
      agree = λ path.
          subst (λ m. Agree client c.registered_nodes c.chunk_id_counter swept.1.0 m (files path))
            (sym (same path)) (still path (file_at c.store path) (files path) refl (r.agree path));
      apart = λ p q m m' e e' ne. r.apart p q m m' (sym (same p) ∙ e) (sym (same q) ∙ e') ne;
      buried = rw (swept_lem.0) (filter_by-All _ (is_fresh now) c.store.deleted_entries r.buried);
      buried_apart = λ p m e. rw (swept_lem.0) (
          filter_by-All _ (is_fresh now) c.store.deleted_entries
            (r.buried_apart p m (sym (same p) ∙ e)));
    },
    refl,
  )
    where
      deleter : Option (FileMeta → W × List Event → W × List Event)
      deleter = some (chunk_deleter client c.registered_nodes)

      swept : MetadataStore.MetadataStore × (W × List Event)
      swept = MetadataStore.cleanup_tombstones now deleter c.store (w, [])

      swept_lem :
          (swept.0.deleted_entries ≡ filter_by (is_fresh now) c.store.deleted_entries)
          × (swept.1
              ≡ delete_all now deleter (filter_by (is_expired now) c.store.deleted_entries) (w, []))
          × (swept.0.entries ≡ c.store.entries)
      swept_lem = cleanup_tombstones_lem now deleter c.store (w, [])

      same : (path : Bytes) → file_at swept.0 path ≡ file_at c.store path
      same path = file_at-cleanup_tombstones now deleter path c.store (w, [])

      still :
          (path : Bytes) (m : Option FileMeta) (content : Option Bytes)
          → file_at c.store path ≡ m
          → Agree client c.registered_nodes c.chunk_id_counter w m content
          → Agree client c.registered_nodes c.chunk_id_counter swept.1.0 m content
      still path none none e a = a
      still path none (some content) e a = a
      still path (some meta) none e a = a
      still path (some meta) (some content) e a = (
        subst
            (λ (s : W × List Event).
              Stored client c.registered_nodes c.chunk_id_counter s.0 meta.chunks content)
            (sym swept_lem.1)
            (delete_all-Held client reliable c.registered_nodes c.chunk_id_counter room meta.chunks
              content now (filter_by (is_expired now) c.store.deleted_entries) (w, [])
              (filter_by-All _ (is_expired now) c.store.deleted_entries r.buried)
              (filter_by-All _ (is_expired now) c.store.deleted_entries
                (r.buried_apart path meta e))
              a.0),
        a.1,
      )
