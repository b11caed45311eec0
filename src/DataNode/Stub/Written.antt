-- ===== src/DataNode/Stub/Written.antt =====
-- What a write through the client of a data node does to the files of the disks.
use mathlib.Core.Bool.{false≢true}
use toy_dfs.Prelude.{
  ◌≡◌, ◌≢◌, refl, ap, ◌∙◌, sym, Bool, true, false, none, some, ℤ, Option-cases, inl, inr,
}
use toy_dfs.Bytes.{Bytes, codes}
use toy_dfs.Grpc.{Status, status, is_ok, internal, DeleteChunkResponse}
use toy_dfs.DataNode.{DataNodeConfig}
use toy_dfs.DataNode.Files.{FileSystem, IsLasting}
use toy_dfs.DataNode.Paths.{get_chunk_path}
use toy_dfs.DataNode.Service
use toy_dfs.DataNode.Service.{send_blocks, Handled, returned, threw, open_and_write}
use toy_dfs.DataNode.Stub.{Transport, put_chunk, finish_put, delete_chunk, finish_delete}
use toy_dfs.DataNode.Stub.Disks.{
  chunk_path, get_chunk_path-chunk_path, get_chunk_path_keeps, open_and_write-reads,
  open_and_write_keeps, message,
}
use toy_dfs.DataNode.Stub.Stored.{Stored}

module _ {D : Type 0} (transport : Transport) (fs : FileSystem D) (lasting : IsLasting fs) where
  put_chunk_located :
      (address : Bytes) (port : ℤ) (chunk_id content host : Bytes) (config : DataNodeConfig) (d : D)
      → transport.locate address port ≡ some (host, config)
      → put_chunk transport fs address port chunk_id content d
        ≡ finish_put transport fs (Service.put_chunk fs host config (message chunk_id content) d)
  unfolding put_chunk Service.put_chunk
  put_chunk_located address port chunk_id content host config d at = rw (at, put_chunk) refl

  service_writes :
      (chunk_id content host : Bytes) (config : DataNodeConfig) (path : Bytes) (d : D)
      → chunk_path config chunk_id ≡ some path
      → Service.put_chunk fs host config (message chunk_id content) d
        ≡ open_and_write fs host config path
            (message chunk_id content)
            (get_chunk_path fs host config chunk_id d).1
  unfolding Service.put_chunk open_and_write get_chunk_path
  service_writes chunk_id content host config path d named =
      rw (get_chunk_path-chunk_path fs lasting host config chunk_id d ∙ named, Service.put_chunk)
        refl

  service_refuses :
      (chunk_id content host : Bytes) (config : DataNodeConfig) (d : D)
      → chunk_path config chunk_id ≡ none
      → Service.put_chunk fs host config (message chunk_id content) d
        ≡ (threw, (get_chunk_path fs host config chunk_id d).1)
  unfolding Service.put_chunk get_chunk_path
  service_refuses chunk_id content host config d bad =
      rw (get_chunk_path-chunk_path fs lasting host config chunk_id d ∙ bad, Service.put_chunk) refl

  finish_put-world : (h : Handled (Status × Bool)) (x : D) → (finish_put transport fs (h, x)).1 ≡ x
  finish_put-world (returned (st, success)) x = refl
  finish_put-world threw x = refl

  -- A write that reports success has written the content.
  pub put_chunk_stores :
      (address : Bytes) (port : ℤ) (chunk_id content : Bytes) (d : D)
      → is_ok (put_chunk transport fs address port chunk_id content d).0 ≡ true
      → Stored transport fs lasting address port chunk_id content
          (put_chunk transport fs address port chunk_id content d).1
  unfolding put_chunk
  put_chunk_stores address port chunk_id content d ok =
      elim (Option-cases (transport.locate address port)) [
        | inl away ↦
            absurd (false≢true (sym transport.unreachable_fails ∙ (rw (away, put_chunk) at ok)))
        | inr ((host, config), at) ↦
            let e = put_chunk_located address port chunk_id content host config d at in
            elim (Option-cases (chunk_path config chunk_id)) [
              | inl bad ↦ absurd (
                  false≢true (
                    sym (
                      ap (λ (t : Status × D). is_ok t.0)
                        (e
                          ∙ ap (finish_put transport fs)
                              (service_refuses chunk_id content host config d bad)))
                    ∙ ok))
              | inr (path, named) ↦
                  let d' = (get_chunk_path fs host config chunk_id d).1 in
                  let all =
                    e
                    ∙ ap (finish_put transport fs)
                        (service_writes chunk_id content host config path d named) in
                  elim (open_and_write-reads fs lasting host config path chunk_id content d') [
                    | inl failed ↦ absurd (
                        false≢true (
                          sym (
                            ap (λ (t : Status × D). is_ok t.0) all
                            ∙ opened_status host config path d' failed)
                          ∙ ok))
                    | inr (done, there) ↦ (
                      host,
                      config,
                      path,
                      at,
                      named,
                      ap (λ (t : Status × D). fs.read_file host path t.1) all
                          ∙ ap (λ x. fs.read_file host path x) (finish_put-world _ _)
                          ∙ there,
                    )
                  ]
            ]
      ]
    where
      opened_status :
          (host : Bytes) (config : DataNodeConfig) (path : Bytes) (x : D)
          → (open_and_write fs host config path (message chunk_id content) x).0
            ≡ returned (status internal (codes "Failed to open file"), false)
          → is_ok
              (finish_put transport fs
                (open_and_write fs host config path (message chunk_id content) x)).0
            ≡ false
      opened_status host config path x failed =
          ap
            (λ h.
              is_ok
                (finish_put transport fs
                  (h, (open_and_write fs host config path (message chunk_id content) x).1)).0)
            failed

  -- A write changes no file but the one of its chunk.
  pub put_chunk_keeps :
      (address : Bytes) (port : ℤ) (chunk_id content host' path' : Bytes) (d : D)
      → ((host : Bytes) (config : DataNodeConfig) (path : Bytes)
          → transport.locate address port ≡ some (host, config)
          → chunk_path config chunk_id ≡ some path
          → ◌≢◌ {A = Bytes × Bytes} (host, path) (host', path'))
      → fs.read_file host' path' (put_chunk transport fs address port chunk_id content d).1
        ≡ fs.read_file host' path' d
  unfolding put_chunk
  put_chunk_keeps address port chunk_id content host' path' d apart =
      elim (Option-cases (transport.locate address port)) [
        | inl away ↦ rw (away, put_chunk) refl
        | inr ((host, config), at) ↦
            let e = put_chunk_located address port chunk_id content host config d at in
            let kept = get_chunk_path_keeps fs lasting host config chunk_id host' path' d in
            let d' = (get_chunk_path fs host config chunk_id d).1 in
            elim (Option-cases (chunk_path config chunk_id)) [
              | inl bad ↦
                  ap (λ (t : Status × D). fs.read_file host' path' t.1)
                    (e
                      ∙ ap (finish_put transport fs)
                          (service_refuses chunk_id content host config d bad))
                  ∙ kept
              | inr (path, named) ↦
                  ap (λ (t : Status × D). fs.read_file host' path' t.1)
                    (e
                      ∙ ap (finish_put transport fs)
                          (service_writes chunk_id content host config path d named))
                  ∙ ap (λ x. fs.read_file host' path' x) (finish_put-world _ _)
                  ∙ open_and_write_keeps fs lasting host config path chunk_id content host' path' d'
                      (apart host config path at named)
                  ∙ kept
            ]
      ]

  finish_delete-world :
      (h : Handled (Status × DeleteChunkResponse)) (x : D)
      → (finish_delete transport fs (h, x)).1 ≡ x
  finish_delete-world (returned (st, response)) x = refl
  finish_delete-world threw x = refl

  service_delete_keeps :
      (chunk_id host : Bytes) (config : DataNodeConfig) (host' path' : Bytes) (d : D)
      → ((path : Bytes)
          → chunk_path config chunk_id ≡ some path
          → ◌≢◌ {A = Bytes × Bytes} (host, path) (host', path'))
      → fs.read_file host' path' (Service.delete_chunk fs host config chunk_id d).1
        ≡ fs.read_file host' path' d
  unfolding Service.delete_chunk
  service_delete_keeps chunk_id host config host' path' d apart =
      let kept = get_chunk_path_keeps fs lasting host config chunk_id host' path' d in
      let d' = (get_chunk_path fs host config chunk_id d).1 in
      let named = get_chunk_path-chunk_path fs lasting host config chunk_id d in
      elim (Option-cases (get_chunk_path fs host config chunk_id d).0) [
        | inl bad ↦ rw (bad, Service.delete_chunk) kept
        | inr (path, there) ↦
            rw (there, Service.delete_chunk)
              (lasting.remove_keeps host path host' path' d' (apart path (sym named ∙ there))
                ∙ kept)
      ]

  -- A deletion changes no file but the one of its chunk.
  pub delete_chunk_keeps :
      (address : Bytes) (port : ℤ) (chunk_id host' path' : Bytes) (d : D)
      → ((host : Bytes) (config : DataNodeConfig) (path : Bytes)
          → transport.locate address port ≡ some (host, config)
          → chunk_path config chunk_id ≡ some path
          → ◌≢◌ {A = Bytes × Bytes} (host, path) (host', path'))
      → fs.read_file host' path' (delete_chunk transport fs address port chunk_id d).1
        ≡ fs.read_file host' path' d
  unfolding delete_chunk Service.delete_chunk
  delete_chunk_keeps address port chunk_id host' path' d apart =
      elim (Option-cases (transport.locate address port)) [
        | inl away ↦ rw (away, delete_chunk) refl
        | inr ((host, config), at) ↦
            let r = Service.delete_chunk fs host config chunk_id d in
            ap (λ (t : Status × D). fs.read_file host' path' t.1) (located host config at)
            ∙ ap (λ x. fs.read_file host' path' x) (finish_delete-world r.0 r.1)
            ∙ service_delete_keeps chunk_id host config host' path' d (λ p. apart host config p at)
      ]
    where
      located :
          (host : Bytes) (config : DataNodeConfig)
          → transport.locate address port ≡ some (host, config)
          → delete_chunk transport fs address port chunk_id d
            ≡ finish_delete transport fs (Service.delete_chunk fs host config chunk_id d)
      located host config at = rw (at, delete_chunk) refl
