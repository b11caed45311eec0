-- ===== src/Coordinator/System/Represents.antt =====
-- How the coordinator and the data nodes represent the map of contents.
use toy_dfs.Prelude.{
  ℕ, ◌≤◌, ◌<◌, ◌≡◌, refl, ◌∙◌, sym, subst, false, List, [], ◌∷◌, Option, none, some, ℤ, All,
  All-map, length, ◌==◌, int_eq,
}
use toy_dfs.Bytes.{Bytes, bytes_eq}
use toy_dfs.Table.{find}
use toy_dfs.MetadataStore.{FileMeta, Tombstone, ChunkInfo, is_some, get_file, empty}
use toy_dfs.MetadataStore.Files.{file_at}
use toy_dfs.Coordinator.{Coordinator, Nodes, init}
use toy_dfs.Coordinator.Client.{DataNodeClient, chunk_name}
use toy_dfs.Coordinator.Registry.Laws.{RegistryInv, init-RegistryInv}
use toy_dfs.Coordinator.Distribution.Replicas.{HasReplica}
use toy_dfs.Coordinator.Upload.Stored.{Stored, IsNumbered}
use toy_dfs.Coordinator.Upload.Chunks.{max_chunks}
use toy_dfs.Coordinator.System.Chunks.{Apart, Stored-map, Stored-IsNumbered, IsNumbered-le}
use toy_dfs.Coordinator.System.Spec.{Contents}

module _ {W : Type 0} (client : DataNodeClient W) where
  -- The metadata of a path are those of its content.
  abbrev pub Agree : Nodes → ℕ → W → Option FileMeta → Option Bytes → Type 0
  Agree nodes bound w none none = Unit {0}
  Agree nodes bound w (some meta) (some content) =
      Stored client nodes bound w meta.chunks content × (length meta.chunks ≤ max_chunks)
  Agree nodes bound w none (some content) = ⊥
  Agree nodes bound w (some meta) none = ⊥

  -- `k` is the next node id. No two files share a chunk, nor do a file and a tombstone.
  pub record Represents (files : Contents) (k : ℕ) (c : Coordinator) (w : W) : Type 0 where
    pub registry : RegistryInv k c
    pub agree :
        (path : Bytes)
        → Agree c.registered_nodes c.chunk_id_counter w (file_at c.store path) (files path)
    pub apart :
        (p q : Bytes) (m m' : FileMeta)
        → file_at c.store p ≡ some m
        → file_at c.store q ≡ some m'
        → (p == q) ≡ false
        → Apart m.chunks m'.chunks
    pub buried :
        All
          (λ (t : Tombstone). All (IsNumbered 0 c.chunk_id_counter) t.meta.chunks)
          c.store.deleted_entries
    pub buried_apart :
        (p : Bytes) (m : FileMeta)
        → file_at c.store p ≡ some m
        → All (λ (t : Tombstone). Apart t.meta.chunks m.chunks) c.store.deleted_entries

  pub init-Represents : (w : W) → Represents (λ path. none) 1 init w
  unfolding init empty find get_file
  init-Represents w = record {
    registry = init-RegistryInv;
    agree = λ path. tt;
    apart = λ p q m m' e e' ne. cc;
    buried = tt;
    buried_apart = λ p m e. tt;
  }

  pub Agree-map :
      (nodes nodes' : Nodes) (bound bound' : ℕ) (w w' : W) (meta : Option FileMeta)
      (content : Option Bytes)
      → bound ≤ bound'
      → ((n : ℕ) (here : Bytes) (id : ℤ)
          → n < bound
          → HasReplica client nodes (chunk_name n) here w id
          → HasReplica client nodes' (chunk_name n) here w' id)
      → Agree nodes bound w meta content
      → Agree nodes' bound' w' meta content
  Agree-map nodes nodes' bound bound' w w' none none h keep a = tt
  Agree-map nodes nodes' bound bound' w w' none (some content) h keep a = a
  Agree-map nodes nodes' bound bound' w w' (some meta) none h keep a = a
  Agree-map nodes nodes' bound bound' w w' (some meta) (some content) h keep a = (
    Stored-map client (λ chunk. Unit {0}) nodes nodes' bound bound' w w' meta.chunks content h
        (everything meta.chunks)
        (λ chunk here id u numbered held.
          subst (λ name. HasReplica client nodes' name here w' id) (sym numbered.1)
            (keep numbered.0 here id numbered.3
              (subst (λ name. HasReplica client nodes name here w id) numbered.1 held)))
        a.0,
    a.1,
  )
    where
      everything : (xs : List ChunkInfo) → All (λ chunk. Unit {0}) xs
      everything [] = tt
      everything (x ∷ xs) = (tt, everything xs)

  -- A step that changes no path and no tombstone, and keeps the replicas of all numbered chunks.
  pub moved-Represents :
      (files : Contents) (k k' : ℕ) (c c' : Coordinator) (w w' : W)
      → RegistryInv k' c'
      → ((path : Bytes) → file_at c'.store path ≡ file_at c.store path)
      → c'.store.deleted_entries ≡ c.store.deleted_entries
      → c.chunk_id_counter ≤ c'.chunk_id_counter
      → ((n : ℕ) (here : Bytes) (id : ℤ)
          → n < c.chunk_id_counter
          → HasReplica client c.registered_nodes (chunk_name n) here w id
          → HasReplica client c'.registered_nodes (chunk_name n) here w' id)
      → Represents files k c w
      → Represents files k' c' w'
  moved-Represents files k k' c c' w w' registry same dead grows keep r = record {
    registry = registry;
    agree = λ path.
        subst (λ m. Agree c'.registered_nodes c'.chunk_id_counter w' m (files path))
          (sym (same path))
          (Agree-map c.registered_nodes c'.registered_nodes c.chunk_id_counter c'.chunk_id_counter w
            w' (file_at c.store path) (files path) grows keep (r.agree path));
    apart = λ p q m m' e e' ne. r.apart p q m m' (sym (same p) ∙ e) (sym (same q) ∙ e') ne;
    buried =
        subst (All (λ (t : Tombstone). All (IsNumbered 0 c'.chunk_id_counter) t.meta.chunks))
          (sym dead)
          (All-map _ _
            (λ t n. IsNumbered-le 0 c.chunk_id_counter c'.chunk_id_counter t.meta.chunks grows n)
            c.store.deleted_entries r.buried);
    buried_apart = λ p m e.
        subst (All (λ (t : Tombstone). Apart t.meta.chunks m.chunks)) (sym dead)
          (r.buried_apart p m (sym (same p) ∙ e));
  }

  -- The metadata and the content of a path are there together.
  pub Agree-some :
      (nodes : Nodes) (bound : ℕ) (w : W) (meta : FileMeta) (content : Option Bytes)
      → Agree nodes bound w (some meta) content
      → (bytes : Bytes) × (content ≡ some bytes)
        × Stored client nodes bound w meta.chunks bytes
        × (length meta.chunks ≤ max_chunks)
  Agree-some nodes bound w meta none a = absurd a
  Agree-some nodes bound w meta (some bytes) a = (bytes, refl, a.0, a.1)

  pub Agree-none :
      (nodes : Nodes) (bound : ℕ) (w : W) (content : Option Bytes)
      → Agree nodes bound w none content
      → content ≡ none
  Agree-none nodes bound w none a = refl
  Agree-none nodes bound w (some bytes) a = absurd a

  -- So are they absent together.
  pub Agree-is_some :
      (nodes : Nodes) (bound : ℕ) (w : W) (meta : Option FileMeta) (content : Option Bytes)
      → Agree nodes bound w meta content
      → is_some meta ≡ is_some content
  Agree-is_some nodes bound w none none a = refl
  Agree-is_some nodes bound w (some meta) (some bytes) a = refl
  Agree-is_some nodes bound w none (some bytes) a = absurd a
  Agree-is_some nodes bound w (some meta) none a = absurd a

  -- The chunks of a file that is there have numbers that are in use.
  pub file-IsNumbered :
      (files : Contents) (k : ℕ) (c : Coordinator) (w : W) (path : Bytes) (meta : FileMeta)
      → Represents files k c w
      → file_at c.store path ≡ some meta
      → All (IsNumbered 0 c.chunk_id_counter) meta.chunks
  file-IsNumbered files k c w path meta r e =
      let a =
        subst (λ m. Agree c.registered_nodes c.chunk_id_counter w m (files path)) e
          (r.agree path) in
      let (bytes, there, stored, few) =
        Agree-some c.registered_nodes c.chunk_id_counter w meta (files path) a in
      Stored-IsNumbered client c.registered_nodes c.chunk_id_counter w meta.chunks bytes stored
