-- ===== src/DataNode/Stub/Stored.antt =====
-- What a read and a write through the client of a data node do to the files of the disks.
use mathlib.Core.Bool.{false≢true}
use toy_dfs.Prelude.{
  suc, ◌≡◌, refl, ap, ◌∙◌, sym, true, List, [], ◌∷◌, none, some, ℤ, arith, Option-cases, inl, inr,
  length, not, if◌then◌else◌,
}
use toy_dfs.Bytes.{Bytes, codes, is_empty}
use toy_dfs.Grpc.{Status, status, status_ok, is_ok, not_found}
use toy_dfs.Coordinator.Client.{Holds}
use toy_dfs.DataNode.{DataNodeConfig}
use toy_dfs.DataNode.Files.{FileSystem, IsLasting}
use toy_dfs.DataNode.Paths.{get_chunk_path}
use toy_dfs.DataNode.Service
use toy_dfs.DataNode.Service.{send_blocks, Handled, returned, threw, open_and_write}
use toy_dfs.DataNode.Service.Blocks.{send_blocks_lem}
use toy_dfs.DataNode.Stub.{Transport, get_chunk, stub_client, received, finish_get}
use toy_dfs.DataNode.Stub.Disks.{chunk_path, get_chunk_path-chunk_path, get_chunk_path_keeps}

module _ {D : Type 0} (transport : Transport) (fs : FileSystem D) (lasting : IsLasting fs) where
  -- The service at that address has the chunk in its file.
  abbrev pub Stored : Bytes → ℤ → Bytes → Bytes → D → Type 0
  Stored address port chunk_id content d =
      (host : Bytes) × (config : DataNodeConfig) × (path : Bytes) × (transport.locate address port
        ≡ some (host, config))
      × (chunk_path config chunk_id ≡ some path)
      × (fs.read_file host path d ≡ some content)

  received_all :
      (content : Bytes)
      → let (st, messages) = send_blocks (suc (length content)) content (λ i. true) 0 in
        (st ≡ status_ok) × (received transport fs st messages ≡ content)
  received_all content =
      let (ok, all, empty) =
        send_blocks_lem (suc (length content)) content (λ i. true) 0 (λ j. refl) (omega arith) in
      (ok, rw (ok, empty, all) (nonempty content))
    where
      nonempty : (c : Bytes) → (if not (is_empty c) then c else []) ≡ c
      nonempty [] = refl
      nonempty (x ∷ xs) = refl

  get_chunk_located :
      (address : Bytes) (port : ℤ) (chunk_id host : Bytes) (config : DataNodeConfig) (d : D)
      → transport.locate address port ≡ some (host, config)
      → get_chunk transport fs address port chunk_id d
        ≡ finish_get transport fs (Service.get_chunk fs host config chunk_id (λ i. true) d)
  unfolding get_chunk Service.get_chunk
  get_chunk_located address port chunk_id host config d at = rw (at, get_chunk) refl

  service_reads :
      (chunk_id host : Bytes) (config : DataNodeConfig) (path content : Bytes) (d : D)
      → chunk_path config chunk_id ≡ some path
      → fs.read_file host path d ≡ some content
      → Service.get_chunk fs host config chunk_id (λ i. true) d ≡ (
        returned (send_blocks (suc (length content)) content (λ i. true) 0),
        (get_chunk_path fs host config chunk_id d).1,
      )
  unfolding Service.get_chunk send_blocks get_chunk_path
  service_reads chunk_id host config path content d named held =
      rw
        (
          get_chunk_path-chunk_path fs lasting host config chunk_id d ∙ named,
          get_chunk_path_keeps fs lasting host config chunk_id host path d ∙ held,
          Service.get_chunk,
        )
        refl

  pub get_chunk-Stored :
      (address : Bytes) (port : ℤ) (chunk_id content : Bytes) (d : D)
      → Stored address port chunk_id content d
      → Holds (stub_client transport fs) address port chunk_id content d
  get_chunk-Stored address port chunk_id content d (host, config, path, at, named, held) =
      let e =
        get_chunk_located address port chunk_id host config d at
        ∙ ap (finish_get transport fs)
            (service_reads chunk_id host config path content d named held) in
      let (ok, all) = received_all content in
      record {
        reads = ap (λ (t : Status × Bytes × D). is_ok t.0) e ∙ ap is_ok ok;
        same = ap (λ (t : Status × Bytes × D). t.1) e ∙ all;
      }

  service_keeps :
      (chunk_id host : Bytes) (config : DataNodeConfig) (host' path' : Bytes) (d : D)
      → fs.read_file host' path' (Service.get_chunk fs host config chunk_id (λ i. true) d).1
        ≡ fs.read_file host' path' d
  unfolding Service.get_chunk
  service_keeps chunk_id host config host' path' d =
      let kept = get_chunk_path_keeps fs lasting host config chunk_id host' path' d in
      elim (Option-cases (get_chunk_path fs host config chunk_id d).0) [
        | inl bad ↦ rw (bad, Service.get_chunk) kept
        | inr (path, named) ↦
            let d' = (get_chunk_path fs host config chunk_id d).1 in
            elim (Option-cases (fs.read_file host path d')) [
              | inl missing ↦ rw (named, missing, Service.get_chunk) kept
              | inr (content, there) ↦ rw (named, there, Service.get_chunk) kept
            ]
      ]

  finish_get-world :
      (h : Handled (Status × List Bytes)) (d : D) → (finish_get transport fs (h, d)).2 ≡ d
  finish_get-world (returned (st, messages)) d = refl
  finish_get-world threw d = refl

  pub get_chunk_keeps :
      (address : Bytes) (port : ℤ) (chunk_id host' path' : Bytes) (d : D)
      → fs.read_file host' path' (get_chunk transport fs address port chunk_id d).2
        ≡ fs.read_file host' path' d
  unfolding get_chunk
  get_chunk_keeps address port chunk_id host' path' d =
      elim (Option-cases (transport.locate address port)) [
        | inl away ↦ rw (away, get_chunk) refl
        | inr ((host, config), at) ↦
            let r = Service.get_chunk fs host config chunk_id (λ i. true) d in
            ap (λ (t : Status × Bytes × D). fs.read_file host' path' t.2)
              (get_chunk_located address port chunk_id host config d at)
            ∙ ap (λ e. fs.read_file host' path' e) (finish_get-world r.0 r.1)
            ∙ service_keeps chunk_id host config host' path' d
      ]

  pub Holds-Stored :
      (address : Bytes) (port : ℤ) (chunk_id content : Bytes) (d : D)
      → Holds (stub_client transport fs) address port chunk_id content d
      → Stored address port chunk_id content d
  unfolding get_chunk Service.get_chunk get_chunk_path
  Holds-Stored address port chunk_id content d h =
      elim (Option-cases (transport.locate address port)) [
        | inl away ↦ absurd (
            false≢true (
              sym transport.unreachable_fails
              ∙ sym (ap (λ (t : Status × Bytes × D). is_ok t.0) (unreached away))
              ∙ h.reads))
        | inr ((host, config), at) ↦
            let e = get_chunk_located address port chunk_id host config d at in
            elim (Option-cases (chunk_path config chunk_id)) [
              | inl bad ↦ absurd (
                  false≢true (
                    sym (
                      ap (λ (t : Status × Bytes × D). is_ok t.0)
                        (e ∙ ap (finish_get transport fs) (service_throws host config bad)))
                    ∙ h.reads))
              | inr (path, named) ↦ elim (Option-cases (fs.read_file host path d)) [
                | inl missing ↦ absurd (
                    false≢true (
                      sym (
                        ap (λ (t : Status × Bytes × D). is_ok t.0)
                          (e
                            ∙ ap (finish_get transport fs)
                                (service_misses host config path named missing)))
                      ∙ h.reads))
                | inr (old, there) ↦
                    let s : Stored address port chunk_id old d =
                      (host, config, path, at, named, there) in
                    let same = sym (get_chunk-Stored address port chunk_id old d s).same ∙ h.same in
                    (host, config, path, at, named, there ∙ ap some same)
              ]
            ]
      ]
    where
      unreached :
          transport.locate address port ≡ none
          → get_chunk transport fs address port chunk_id d ≡ (transport.unreachable, [], d)
      unreached away = rw (away, get_chunk) refl

      service_throws :
          (host : Bytes) (config : DataNodeConfig)
          → chunk_path config chunk_id ≡ none
          → Service.get_chunk fs host config chunk_id (λ i. true) d
            ≡ (threw, (get_chunk_path fs host config chunk_id d).1)
      service_throws host config bad =
          rw (get_chunk_path-chunk_path fs lasting host config chunk_id d ∙ bad, Service.get_chunk)
            refl

      service_misses :
          (host : Bytes) (config : DataNodeConfig) (path : Bytes)
          → chunk_path config chunk_id ≡ some path
          → fs.read_file host path d ≡ none
          → Service.get_chunk fs host config chunk_id (λ i. true) d ≡ (
            returned (status not_found (codes "Chunk not found"), []),
            (get_chunk_path fs host config chunk_id d).1,
          )
      service_misses host config path named missing =
          rw
            (
              get_chunk_path-chunk_path fs lasting host config chunk_id d ∙ named,
              get_chunk_path_keeps fs lasting host config chunk_id host path d ∙ missing,
              Service.get_chunk,
            )
            refl
