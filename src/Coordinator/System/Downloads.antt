-- ===== src/Coordinator/System/Downloads.antt =====
-- Downloads, against the contract.
use toy_dfs.Prelude.{
  ℕ, zero, suc, ◌≤◌, ◌≡◌, refl, sym, subst, List, [], ◌∷◌, Option, some, ℤ, int_eq, length, arith,
  Bool-cases, Option-cases, inl, inr,
}
use native.Mathlib.Decide.{dec_lt}
use toy_dfs.Bytes.{Bytes, is_empty}
use toy_dfs.Grpc.{is_ok}
use toy_dfs.Table.{find}
use toy_dfs.MetadataStore
use toy_dfs.MetadataStore.{ChunkInfo, FileMeta}
use toy_dfs.MetadataStore.Files.{file_at, file_at-get_file}
use toy_dfs.Coordinator.{Coordinator, Nodes}
use toy_dfs.Coordinator.Client.{DataNodeClient, IsReliable}
use toy_dfs.Coordinator.Environment.{Environment}
use toy_dfs.Coordinator.Registry.Laws.{RegistryInv}
use toy_dfs.Coordinator.Distribution.Replicas.{HasReplica}
use toy_dfs.Coordinator.Upload.Chunks.{max_chunks}
use toy_dfs.Coordinator.Upload.Stored.{Stored}
use toy_dfs.Coordinator.Download.{try_nodes, read_chunk_with_fallback, send_chunks, get_file}
use toy_dfs.Coordinator.Download.Stream.{send_chunks-Stored}
use toy_dfs.Coordinator.System.{Request, Answer, handle}
use toy_dfs.Coordinator.System.Spec.{Contents, Allowed, sends, breaks, sends_nothing}
use toy_dfs.Coordinator.System.Represents.{
  Represents, Agree, Agree-some, Agree-none, moved-Represents,
}

module _ {W : Type 0} (client : DataNodeClient W) (reliable : IsReliable client)
    (nodes : Nodes) where
  abbrev Keeps : W → W → Type 0
  Keeps w w' =
      (other content : Bytes) (id : ℤ)
      → HasReplica client nodes other content w id
      → HasReplica client nodes other content w' id

  try_nodes-Keeps :
      (chunk_id : Bytes) (ids : List ℤ) (w : W) → Keeps w (try_nodes client nodes chunk_id ids w).2
  unfolding try_nodes
  try_nodes-Keeps chunk_id [] w other content id held = held
  try_nodes-Keeps chunk_id (n ∷ ids) w other content id held = elim (Option-cases (find n nodes)) [
    | inl e ↦ rw (e, try_nodes) (try_nodes-Keeps chunk_id ids w other content id held)
    | inr (info, e) ↦
        let (st, bytes, w') = client.get_chunk info.address info.port chunk_id w in
        let kept : HasReplica client nodes other content w' id = (
          held.0,
          held.1,
          reliable.get_keeps info.address held.0.address info.port held.0.port chunk_id other
              content w held.2,
        ) in
        elim (Bool-cases (is_ok st)) [
          | inl ok ↦ rw (e, ok, try_nodes) kept
          | inr bad ↦ rw (e, bad, try_nodes) (try_nodes-Keeps chunk_id ids w' other content id kept)
        ]
  ]

  read_chunk-Keeps :
      (chunk_id : Bytes) (ids : List ℤ) (w : W)
      → Keeps w (read_chunk_with_fallback client nodes chunk_id ids w).2
  unfolding read_chunk_with_fallback
  read_chunk-Keeps chunk_id ids w other content id held = elim (Bool-cases (is_empty ids)) [
    | inl e ↦ rw (e, read_chunk_with_fallback) held
    | inr e ↦
        rw (e, read_chunk_with_fallback) (try_nodes-Keeps chunk_id ids w other content id held)
  ]

  -- Reading, however it ends, keeps every chunk readable.
  pub send_chunks-Keeps :
      (chunks : List ChunkInfo) (quota : ℕ) (w : W)
      → Keeps w (send_chunks client nodes chunks quota w).2
  unfolding send_chunks
  send_chunks-Keeps [] quota w other content id held = held
  send_chunks-Keeps (chunk ∷ chunks) zero w other content id held =
      let r = read_chunk_with_fallback client nodes chunk.chunk_id chunk.node_ids w in
      let kept = read_chunk-Keeps chunk.chunk_id chunk.node_ids w other content id held in
      elim (Bool-cases (is_ok r.0)) [
        | inl ok ↦ rw (ok, send_chunks) kept
        | inr bad ↦ rw (bad, send_chunks) kept
      ]
  send_chunks-Keeps (chunk ∷ chunks) (suc left) w other content id held =
      let r = read_chunk_with_fallback client nodes chunk.chunk_id chunk.node_ids w in
      let kept = read_chunk-Keeps chunk.chunk_id chunk.node_ids w other content id held in
      elim (Bool-cases (is_ok r.0)) [
        | inl ok ↦ rw (ok, send_chunks) (send_chunks-Keeps chunks left r.2 other content id kept)
        | inr bad ↦ rw (bad, send_chunks) kept
      ]

module _ {W : Type 0} (env : Environment W) (reliable : IsReliable env.client) where
  looked-RegistryInv :
      (path : Bytes) (k : ℕ) (c : Coordinator)
      → RegistryInv k c
      → RegistryInv k (record c { store = (MetadataStore.get_file path c.store).1 })
  looked-RegistryInv path k c v = record {
    next = v.next;
    starts = v.starts;
    issued = v.issued;
    distinct = v.distinct;
    separate = v.separate;
  }

  found-Allowed :
      (files : Contents) (path content : Bytes) (quota bound : ℕ) (nodes : Nodes)
      (chunks : List ChunkInfo) (w : W)
      → files path ≡ some content
      → Stored env.client nodes bound w chunks content
      → length chunks ≤ max_chunks
      → let (st, messages, w') = send_chunks env.client nodes chunks quota w in
        Allowed files (Request.download path quota) (Answer.sent st messages) files
  found-Allowed files path content quota bound nodes chunks w there stored few =
      let (count, (rest, cut), whole, broken) =
        send_chunks-Stored env.client reliable nodes bound chunks content quota w stored in
      elim (dec_lt quota (length chunks)) [
        | yes short ↦
            breaks path content rest quota _ _ there (omega (arith, few)) (broken (omega arith)) cut
        | no all ↦
            let (ok, same) = whole (omega arith) in
            subst
              (λ st.
                Allowed files (Request.download path quota)
                  (Answer.sent st (send_chunks env.client nodes chunks quota w).1) files)
              (sym ok)
              (sends path content quota (send_chunks env.client nodes chunks quota w).1 there same)
      ]

  pub download-Allowed :
      (path : Bytes) (quota : ℕ) (files : Contents) (k : ℕ) (c : Coordinator) (w : W)
      → Represents env.client files k c w
      → let (answer, c', w') = handle env (Request.download path quota) c w in
        Allowed files (Request.download path quota) answer files
        × Represents env.client files k c' w'
        × (c'.chunk_id_counter ≡ c.chunk_id_counter)
  unfolding handle get_file
  download-Allowed path quota files k c w r = elim (Option-cases (file_at c.store path)) [
    | inl e ↦
        rw (e, get_file)
          (
            sends_nothing path quota
                (Agree-none env.client c.registered_nodes c.chunk_id_counter w (files path) (at e)),
            moved-Represents env.client files k k c _ w w (looked-RegistryInv path k c r.registry)
                (λ other. file_at-get_file path other c.store) deleted (omega arith)
                (λ n here id below held. held) r,
            refl,
          )
    | inr (meta, e) ↦
        let (content, there, stored, few) =
          Agree-some env.client c.registered_nodes c.chunk_id_counter w meta (files path) (at e) in
        rw (e, get_file)
          (
            found-Allowed files path content quota c.chunk_id_counter c.registered_nodes meta.chunks
                w there stored few,
            moved-Represents env.client files k k c _ w _ (looked-RegistryInv path k c r.registry)
                (λ other. file_at-get_file path other c.store) deleted (omega arith)
                (λ n here id below held.
                  send_chunks-Keeps env.client reliable c.registered_nodes meta.chunks quota w _
                    here id held)
                r,
            refl,
          )
  ]
    where
      at :
          {m : Option FileMeta}
          → file_at c.store path ≡ m
          → Agree env.client c.registered_nodes c.chunk_id_counter w m (files path)
      at e =
          subst (λ m. Agree env.client c.registered_nodes c.chunk_id_counter w m (files path)) e
            (r.agree path)

      deleted : (MetadataStore.get_file path c.store).1.deleted_entries ≡ c.store.deleted_entries
      deleted = unfold MetadataStore.get_file in refl
