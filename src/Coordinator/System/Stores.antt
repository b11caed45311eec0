-- ===== src/Coordinator/System/Stores.antt =====
-- The state after an upload that succeeds, against the contract.
use toy_dfs.Prelude.{
  ℕ, ◌<◌, ◌≡◌, ◌⊎◌, ◌∙◌, sym, subst, true, false, List, ◌∷◌, some, ℤ, length, arith, All, All-map,
  Bool-cases, inl, inr, ◌==◌,
}
use toy_dfs.Bytes.{Bytes, bytes_eq, bytes_beq_iff}
use toy_dfs.Grpc.{PutFileRequest}
use toy_dfs.MetadataStore.{FileMeta, Tombstone, get_file}
use toy_dfs.MetadataStore.Files.{file_at, file_at-get_file}
use toy_dfs.Coordinator.{Coordinator}
use toy_dfs.Coordinator.Client.{IsReliable, chunk_name}
use toy_dfs.Coordinator.Environment.{Environment}
use toy_dfs.Coordinator.Registry.Laws.{RegistryInv}
use toy_dfs.Coordinator.Distribution.Replicas.{HasReplica}
use toy_dfs.Coordinator.RoundTrip.{IsUploaded}
use toy_dfs.Coordinator.Upload.{read_data, file_meta}
use toy_dfs.Coordinator.Upload.Chunks.{max_chunks}
use toy_dfs.Coordinator.Upload.Failure.{looked_up}
use toy_dfs.Coordinator.Upload.Keeps.{Uses}
use toy_dfs.Coordinator.Upload.Stored.{IsNumbered}
use toy_dfs.Coordinator.System.Chunks.{Apart, Apart-sym, IsNumbered-Apart, IsNumbered-le}
use toy_dfs.Coordinator.System.Spec.{Contents, assign}
use toy_dfs.Coordinator.System.Represents.{Represents, Agree, Agree-map, file-IsNumbered}

module _ {W : Type 0} (env : Environment W) (reliable : IsReliable env.client) where
  pub Uses-RegistryInv :
      (n k : ℕ) (c c' : Coordinator) (w w' : W)
      → Uses env reliable n c c' w w'
      → RegistryInv k c
      → RegistryInv k c'
  Uses-RegistryInv n k c c' w w' u v = record {
    next = u.same_next ∙ v.next;
    starts = v.starts;
    issued = rw u.same_nodes v.issued;
    distinct = rw u.same_nodes v.distinct;
    separate = rw u.same_nodes v.separate;
  }

  pub survivors :
      (n : ℕ) (c c' : Coordinator) (w w' : W)
      → Uses env reliable n c c' w w'
      → (m : ℕ) (here : Bytes) (id : ℤ) → m < c.chunk_id_counter
      → HasReplica env.client c.registered_nodes (chunk_name m) here w id
      → HasReplica env.client c'.registered_nodes (chunk_name m) here w' id
  survivors n c c' w w' u m here id below held =
      subst (λ ns. HasReplica env.client ns (chunk_name m) here w' id) (sym u.same_nodes)
        (u.survives m id here below held)

  module _ (req : PutFileRequest) (reqs : List PutFileRequest) (files : Contents) (k : ℕ)
      (c c' : Coordinator) (w w' : W) (r : Represents env.client files k c w)
      (up : IsUploaded env reliable req.filename
        (read_data (req ∷ reqs))
        (looked_up req.filename c)
        c'
        w
        w')
      (u : Uses env reliable max_chunks c c' w w')
      (dead : c'.store.deleted_entries ≡ c.store.deleted_entries) where
    abbrev new : FileMeta
    new = file_meta (length (read_data (req ∷ reqs))) up.chunks

    -- A path names the new file, or what it named before.
    which :
        (p : Bytes) (m : FileMeta)
        → file_at c'.store p ≡ some m
        → (((req.filename == p) ≡ true) × (new ≡ m))
          ⊎ (((req.filename == p) ≡ false) × (file_at c.store p ≡ some m))
    which p m e = elim (Bool-cases (req.filename == p)) [
      | inl same ↦ inl (same, ground (arith, up.others p, file_at-get_file req.filename p c.store))
      | inr other ↦
          inr (other, ground (arith, up.others p, file_at-get_file req.filename p c.store))
    ]

    numbered_before :
        (p : Bytes) (m : FileMeta)
        → file_at c.store p ≡ some m
        → All (IsNumbered 0 c.chunk_id_counter) m.chunks
    numbered_before p m e = file-IsNumbered env.client files k c w p m r e

    Agree-after :
        (path : Bytes)
        → Agree env.client c'.registered_nodes c'.chunk_id_counter w'
            (file_at c'.store path)
            (assign req.filename (some (read_data (req ∷ reqs))) files path)
    unfolding get_file
    Agree-after path = elim (Bool-cases (req.filename == path)) [
      | inl same ↦ rw (up.others path) (rw same (up.stored, up.few))
      | inr other ↦ rw (up.others path) (
          rw other (
            Agree-map env.client c.registered_nodes c'.registered_nodes c.chunk_id_counter
              c'.chunk_id_counter w w' (file_at c.store path) (files path) u.grows
              (survivors max_chunks c c' w w' u) (r.agree path)))
    ]

    Apart-after :
        (p q : Bytes) (m m' : FileMeta)
        → file_at c'.store p ≡ some m
        → file_at c'.store q ≡ some m'
        → (p == q) ≡ false
        → Apart m.chunks m'.chunks
    Apart-after p q m m' e e' ne = elim (which p m e) [
      | inl (here, fresh) ↦ elim (which q m' e') [
        | inl (here', fresh') ↦ absurd (twice here here')
        | inr (there', old') ↦
            subst (λ (n : FileMeta). Apart n.chunks m'.chunks) fresh
              (Apart-sym m'.chunks up.chunks (
                IsNumbered-Apart 0 c.chunk_id_counter c'.chunk_id_counter m'.chunks up.chunks
                  (numbered_before q m' old') up.numbered))
      ]
      | inr (there, old) ↦ elim (which q m' e') [
        | inl (here', fresh') ↦
            subst (λ (n : FileMeta). Apart m.chunks n.chunks) fresh'
              (IsNumbered-Apart 0 c.chunk_id_counter c'.chunk_id_counter m.chunks up.chunks
                (numbered_before p m old) up.numbered)
        | inr (there', old') ↦ r.apart p q m m' old old' ne
      ]
    ]
      where
        twice : (req.filename == p) ≡ true → (req.filename == q) ≡ true → ⊥
        twice a b =
            ground
              (arith, bytes_beq_iff req.filename p, bytes_beq_iff req.filename q, bytes_beq_iff p q)

    buried_after :
        (p : Bytes) (m : FileMeta)
        → file_at c'.store p ≡ some m
        → All (λ (t : Tombstone). Apart t.meta.chunks m.chunks) c.store.deleted_entries
    buried_after p m e = elim (which p m e) [
      | inl (here, fresh) ↦
          subst
            (λ (n : FileMeta).
              All (λ (t : Tombstone). Apart t.meta.chunks n.chunks) c.store.deleted_entries)
            fresh
            (All-map _ _
              (λ t numbers.
                IsNumbered-Apart 0 c.chunk_id_counter c'.chunk_id_counter t.meta.chunks up.chunks
                  numbers up.numbered)
              c.store.deleted_entries r.buried)
      | inr (there, old) ↦ r.buried_apart p m old
    ]

    pub stored-Represents :
        Represents env.client (assign req.filename (some (read_data (req ∷ reqs))) files) k c' w'
    stored-Represents = record {
      registry = Uses-RegistryInv max_chunks k c c' w w' u r.registry;
      agree = Agree-after;
      apart = Apart-after;
      buried =
          subst (All (λ (t : Tombstone). All (IsNumbered 0 c'.chunk_id_counter) t.meta.chunks))
            (sym dead)
            (All-map _ _
              (λ t n.
                IsNumbered-le 0 c.chunk_id_counter c'.chunk_id_counter t.meta.chunks u.grows n)
              c.store.deleted_entries r.buried);
      buried_apart = λ p m e.
          subst (All (λ (t : Tombstone). Apart t.meta.chunks m.chunks)) (sym dead)
            (buried_after p m e);
    }
