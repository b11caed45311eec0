-- ===== src/DataNode/Stub/Reliable.antt =====
-- The client of the data nodes, over their service, is what the coordinator relies on.
use mathlib.Core.Option.{some-injective}
use toy_dfs.Prelude.{
  ℕ, ◌≤◌, ◌≡◌, ◌≢◌, ap, ◌∙◌, sym, true, false, ◌&&◌, some, ℤ, pos, int_max, Bool-cases, inl, inr,
  ◌==◌, arith,
}
use toy_dfs.Bytes.{Bytes, bytes_eq, bytes_beq_iff}
use toy_dfs.Coordinator.Client.{IsReliable, chunk_name}
use toy_dfs.DataNode.{DataNodeConfig}
use toy_dfs.DataNode.Files.{FileSystem, IsLasting}
use toy_dfs.DataNode.Paths.{chunk_file}
use toy_dfs.DataNode.Paths.Distinct.{parse_chunk_id-chunk_name, chunk_file-injective}
use toy_dfs.DataNode.Stub.{Transport, put_chunk, stub_client}
use toy_dfs.DataNode.Stub.Disks.{chunk_path, path_of}
use toy_dfs.DataNode.Stub.Stored.{Stored, get_chunk-Stored, get_chunk_keeps, Holds-Stored}
use toy_dfs.DataNode.Stub.Written.{put_chunk_stores, put_chunk_keeps, delete_chunk_keeps}

chunk_path-chunk_name :
    (config : DataNodeConfig) (n : ℕ)
    → n ≤ int_max
    → chunk_path config (chunk_name n) ≡ some (chunk_file config (pos n))
chunk_path-chunk_name config n h =
    ap (path_of config (chunk_name n)) ((parse_chunk_id-chunk_name n).0 h)

module _ {D : Type 0} (transport : Transport) (fs : FileSystem D) (lasting : IsLasting fs) where
  same_file :
      (host host' path path' : Bytes)
      → (host == host' && path == path') ≡ false
      → ◌≢◌ {A = Bytes × Bytes} (host, path) (host', path')
  same_file host host' path path' f e =
      ground (
        arith,
        bytes_beq_iff host host',
        bytes_beq_iff path path',
        ap (λ p. p.0) e,
        ap (λ p. p.1) e,
      )

  replicas_kept :
      (address address' : Bytes) (port port' : ℤ) (chunk_id content : Bytes) (d : D)
      → Stored transport fs lasting address port chunk_id content
          (put_chunk transport fs address port chunk_id content d).1
      → Stored transport fs lasting address' port' chunk_id content d
      → Stored transport fs lasting address' port' chunk_id content
          (put_chunk transport fs address port chunk_id content d).1
  replicas_kept address address' port port' chunk_id content d (host, config, path, at, named, new)
        (host', config', path', at', named', old) =
      elim (Bool-cases (host == host' && path == path')) [
        | inl same ↦ (host', config', path', at', named', moved same)
        | inr other ↦ (
          host',
          config',
          path',
          at',
          named',
          put_chunk_keeps transport fs lasting address port chunk_id content host' path' d
                (λ h c p e f x. same_file host host' path path' other (
                  ap (λ l. (l, path)) (ap (λ (q : Bytes × DataNodeConfig). q.0) (unique at e))
                  ∙ cc))
              ∙ old,
        )
      ]
    where
      moved :
          (host == host' && path == path') ≡ true
          → fs.read_file host' path' (put_chunk transport fs address port chunk_id content d).1
            ≡ some content
      moved same = ground (arith, bytes_beq_iff host host', bytes_beq_iff path path')

      unique :
          {x y : Bytes × DataNodeConfig}
          → transport.locate address port ≡ some x
          → transport.locate address port ≡ some y
          → x ≡ y
      unique p q = cc

  -- Chunks with different numbers are in different files, on whatever host.
  file_apart :
      (config config' : DataNodeConfig) (n m : ℕ) (host host' path path' : Bytes)
      → n ≤ int_max
      → m ≤ int_max
      → n ≢ m
      → chunk_path config (chunk_name n) ≡ some path
      → chunk_path config' (chunk_name m) ≡ some path'
      → ◌≢◌ {A = Bytes × Bytes} (host, path) (host', path')
  file_apart config config' n m host host' path path' h k ne named named' same = ne (
      chunk_file-injective config config' n m (
        some-injective _ _ (
          sym (chunk_path-chunk_name config n h)
          ∙ named
          ∙ ap (λ (q : Bytes × Bytes). some q.1) same
          ∙ sym named'
          ∙ chunk_path-chunk_name config' m k)))

  others_kept :
      (address' : Bytes) (port' : ℤ) (n m : ℕ) (content' : Bytes) (d d' : D)
      → n ≤ int_max
      → m ≤ int_max
      → n ≢ m
      → ((host' path' : Bytes)
          → ((host : Bytes) (config : DataNodeConfig) (path : Bytes)
              → chunk_path config (chunk_name n) ≡ some path
              → ◌≢◌ {A = Bytes × Bytes} (host, path) (host', path'))
          → fs.read_file host' path' d' ≡ fs.read_file host' path' d)
      → Stored transport fs lasting address' port' (chunk_name m) content' d
      → Stored transport fs lasting address' port' (chunk_name m) content' d'
  others_kept address' port' n m content' d d' h k ne keep
        (host', config', path', at', named', old) =
      (
        host',
        config',
        path',
        at',
        named',
        keep host' path' (λ host config path named.
              file_apart config config' n m host host' path path' h k ne named named')
            ∙ old,
      )

  -- On file systems that keep what is written to them, the client of the data nodes is what the
  -- coordinator relies on: an acknowledged write can be read back, it keeps the chunk's other
  -- replicas and, for numbers in the range of `int`, all other chunks, as a deletion does, even
  -- where several addresses lead to one disk; and a read keeps every chunk.
  pub stub_client-IsReliable : IsReliable (stub_client transport fs)
  stub_client-IsReliable = record {
    put_holds = λ address port chunk_id content d ok.
        get_chunk-Stored transport fs lasting address port chunk_id content _
          (put_chunk_stores transport fs lasting address port chunk_id content d ok);
    put_keeps_replica = λ address address' port port' chunk_id content d ok held.
        get_chunk-Stored transport fs lasting address' port' chunk_id content _ (
          replicas_kept address address' port port' chunk_id content d
            (put_chunk_stores transport fs lasting address port chunk_id content d ok)
            (Holds-Stored transport fs lasting address' port' chunk_id content d held));
    put_keeps_other = λ address address' port port' n m content content' d h k ne held.
        get_chunk-Stored transport fs lasting address' port' (chunk_name m) content' _ (
          others_kept address' port' n m content' d _ h k ne
            (λ host' path' apart.
              put_chunk_keeps transport fs lasting address port (chunk_name n) content host' path' d
                (λ host config path at. apart host config path))
            (Holds-Stored transport fs lasting address' port' (chunk_name m) content' d held));
    delete_keeps_other = λ address address' port port' n m content' d h k ne held.
        get_chunk-Stored transport fs lasting address' port' (chunk_name m) content' _ (
          others_kept address' port' n m content' d _ h k ne
            (λ host' path' apart.
              delete_chunk_keeps transport fs lasting address port (chunk_name n) host' path' d
                (λ host config path at. apart host config path))
            (Holds-Stored transport fs lasting address' port' (chunk_name m) content' d held));
    get_keeps = λ address address' port port' chunk_id chunk_id' content' d held.
        let (host, config, path, at, named, there) =
          Holds-Stored transport fs lasting address' port' chunk_id' content' d held in
        get_chunk-Stored transport fs lasting address' port' chunk_id' content' _ (
          host,
          config,
          path,
          at,
          named,
          get_chunk_keeps transport fs lasting address port chunk_id host path d ∙ there,
        );
  }
