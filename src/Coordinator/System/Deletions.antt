-- ===== src/Coordinator/System/Deletions.antt =====
-- Deletions, against the contract.
use toy_dfs.Prelude.{
  ℕ, ◌≡◌, refl, ap, ◌∙◌, sym, subst, true, false, Option, none, some, arith, All, Option-cases,
  Bool-cases, inl, inr, if◌then◌else◌, ◌==◌,
}
use toy_dfs.Bytes.{Bytes, bytes_eq}
use toy_dfs.MetadataStore
use toy_dfs.MetadataStore.{MetadataStore, FileMeta, Tombstone}
use toy_dfs.MetadataStore.Files.{file_at, file_at-get_file, file_at-delete_path}
use toy_dfs.MetadataStore.Buried.{delete_path-All}
use toy_dfs.Coordinator.{Coordinator}
use toy_dfs.Coordinator.Environment.{Environment}
use toy_dfs.Coordinator.Registry.Laws.{RegistryInv}
use toy_dfs.Coordinator.Deletion.{delete_file}
use toy_dfs.Coordinator.Upload.Failure.{looked_up}
use toy_dfs.Coordinator.System.{Request, Answer}
use toy_dfs.Coordinator.System.Spec.{Contents, Allowed, assign, deletes, deletes_nothing}
use toy_dfs.Coordinator.System.Represents.{
  Represents, Agree, Agree-some, Agree-none, file-IsNumbered, moved-Represents,
}

module _ {W : Type 0} (env : Environment W) where
  same-RegistryInv :
      (k : ℕ) (c c' : Coordinator)
      → c'.registered_nodes ≡ c.registered_nodes
      → c'.next_node_id ≡ c.next_node_id
      → RegistryInv k c
      → RegistryInv k c'
  same-RegistryInv k c c' nodes next v = record {
    next = next ∙ v.next;
    starts = v.starts;
    issued = rw nodes v.issued;
    distinct = rw nodes v.distinct;
    separate = rw nodes v.separate;
  }

  module _ (now later : ℕ) (path : Bytes) (files : Contents) (k : ℕ) (c : Coordinator) (w : W)
      (r : Represents env.client files k c w) (meta : FileMeta)
      (there : file_at c.store path ≡ some meta) where
    abbrev after : Coordinator
    after = record c {
      store = MetadataStore.delete_path now later path (looked_up path c).store;
      running = true;
    }

    after-file_at :
        (p : Bytes) → file_at after.store p ≡ (if path == p then none else file_at c.store p)
    after-file_at p =
        file_at-delete_path now later path p (looked_up path c).store
        ∙ ap (λ m. if path == p then none else m) (file_at-get_file path p c.store)

    -- A path that names a file after named it before, and is another path.
    remains :
        (p : Bytes) (m : FileMeta)
        → file_at after.store p ≡ some m
        → ((path == p) ≡ false) × (file_at c.store p ≡ some m)
    remains p m e = elim (Bool-cases (path == p)) [
      | inl same ↦ ground (arith, after-file_at p)
      | inr other ↦ (other, ground (arith, after-file_at p))
    ]

    Agree-after :
        (p : Bytes)
        → Agree env.client c.registered_nodes c.chunk_id_counter w
            (file_at after.store p)
            (assign path none files p)
    Agree-after p = elim (Bool-cases (path == p)) [
      | inl same ↦ rw (after-file_at p) (rw same tt)
      | inr other ↦ rw (after-file_at p) (rw other (r.agree p))
    ]

    buried_after :
        (P : Tombstone → Type 0)
        → P (record { path = path; meta = meta; delete_time = now })
        → All P c.store.deleted_entries
        → All P after.store.deleted_entries
    buried_after P new h =
        delete_path-All P now later path (looked_up path c).store
          (λ m e.
            subst (λ x. P (record { path = path; meta = x; delete_time = now }))
              (same (sym there ∙ sym (file_at-get_file path path c.store) ∙ e)) new)
          (unfold MetadataStore.get_file in h)
      where
        same : {m : FileMeta} → ◌≡◌ {A = Option FileMeta} (some meta) (some m) → meta ≡ m
        same e = cc

    pub deleted-Represents : Represents env.client (assign path none files) k after w
    deleted-Represents = record {
      registry = same-RegistryInv k c after refl refl r.registry;
      agree = Agree-after;
      apart = λ p q m m' e e' ne. r.apart p q m m' (remains p m e).1 (remains q m' e').1 ne;
      buried = buried_after _ (file-IsNumbered env.client files k c w path meta r there) r.buried;
      buried_apart = λ p m e.
          let (other, old) = remains p m e in
          buried_after _ (r.apart path p meta m there old other) (r.buried_apart p m old);
    }

  -- A deletion is answered as the contract allows, and touches no data node.
  pub delete-Allowed :
      (now later : ℕ) (path : Bytes) (files : Contents) (k : ℕ) (c : Coordinator) (w : W)
      → Represents env.client files k c w
      → let (st, success, c') = delete_file now later path c in
        (files' : Contents) × Allowed files
          (Request.delete now later path)
          (Answer.deleted st success)
          files'
        × Represents env.client files' k c' w
        × (c'.chunk_id_counter ≡ c.chunk_id_counter)
  unfolding delete_file
  delete-Allowed now later path files k c w r = elim (Option-cases (file_at c.store path)) [
    | inl e ↦
        rw (e, delete_file)
          (
            files,
            deletes_nothing now later path
                (Agree-none env.client c.registered_nodes c.chunk_id_counter w (files path) (at e)),
            moved-Represents env.client files k k c (looked_up path c) w w
                (same-RegistryInv k c _ refl refl r.registry)
                (λ other. file_at-get_file path other c.store)
                (unfold MetadataStore.get_file in refl) (omega arith) (λ n here id below held. held)
                r,
            refl,
          )
    | inr (meta, e) ↦
        let (content, there, stored, few) =
          Agree-some env.client c.registered_nodes c.chunk_id_counter w meta (files path) (at e) in
        rw (e, delete_file)
          (
            assign path none files,
            deletes now later path content there,
            deleted-Represents now later path files k c w r meta e,
            refl,
          )
  ]
    where
      at :
          {m : Option FileMeta}
          → file_at c.store path ≡ m
          → Agree env.client c.registered_nodes c.chunk_id_counter w m (files path)
      at e =
          subst (λ m. Agree env.client c.registered_nodes c.chunk_id_counter w m (files path)) e
            (r.agree path)
