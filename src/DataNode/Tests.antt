-- ===== src/DataNode/Tests.antt =====
-- Chunk numbers, paths and blocks on concrete data.
use toy_dfs.Prelude.{
  false, [], ◌++◌, Option, none, some, ◌==◌, ◌&&◌, if◌then◌else◌, ==-refl, ◌≢◌, ap₂, Bool-cases,
  inl, inr, ℕ, suc, ◌≤◌, ◌≡◌, refl, true, pos, int_max, arith, div_trunc, mod_trunc,
}
use toy_dfs.Bytes.Decimal.{to_string}
use toy_dfs.Bytes.{Bytes, bytes_eq, bytes_beq_iff, codes, is_empty}
use toy_dfs.Grpc.{status, internal, status_ok}
use toy_dfs.Coordinator.Client.{IsReliable, chunk_name}
use toy_dfs.Coordinator.Download.Stream.{joined}
use toy_dfs.DataNode.{default_config}
use toy_dfs.DataNode.Files.{FileSystem, IsLasting, MkdirResult, RemoveResult}
use toy_dfs.DataNode.Stub.{Transport, stub_client}
use toy_dfs.DataNode.Stub.Reliable.{stub_client-IsReliable}
use toy_dfs.DataNode.Paths.{parse_chunk_id, numbered, refused, chunk_file}
use toy_dfs.DataNode.Paths.Distinct.{parse_chunk_id-chunk_name, chunk_file-injective}
use toy_dfs.DataNode.Service.{send_blocks}
use toy_dfs.DataNode.Service.Blocks.{send_blocks_lem}

parse_chunk_id-chunk_name_example :
    (7 ≤ int_max → parse_chunk_id (chunk_name 7) ≡ numbered (pos 7))
    × (suc int_max ≤ 7 → parse_chunk_id (chunk_name 7) ≡ refused)
parse_chunk_id-chunk_name_example = parse_chunk_id-chunk_name 7

abbrev number : ℕ
number = 1234567

chunk_file-injective_example : number ≡ number
chunk_file-injective_example = chunk_file-injective default_config default_config number number refl

-- The chunk 1234567 lies two directories deep.
chunk_file_example :
    chunk_file default_config (pos 1234567) ≡ codes "/tmp/dfs_chunks/1/234/1234567.cfile"
unfolding chunk_file default_config codes to_string div_trunc mod_trunc
chunk_file_example = refl

send_blocks_lem_example :
    let (st, messages) = send_blocks 6 (codes "hello") (λ i. true) 0 in
    (st ≡ status_ok)
    × (joined messages ≡ codes "hello")
    × (is_empty messages ≡ is_empty (codes "hello"))
unfolding codes
send_blocks_lem_example = send_blocks_lem 6 (codes "hello") (λ i. true) 0 (λ j. refl) (omega arith)

-- File systems in memory, and a network in which every address leads to a host of that name.
abbrev Memory : Type 0
Memory = Bytes → Bytes → Option Bytes

abbrev grown : Bytes → Option Bytes → Option Bytes
grown content none = none
grown content (some old) = some (old ++ content)

abbrev memory : FileSystem Memory
memory = record {
  mkdir = λ host dir d. (MkdirResult.created, d);
  open_write = λ host path d. (true, λ h p. if host == h && path == p then some [] else d h p);
  append =
      λ host path content d. λ h p. if host == h && path == p then grown content (d h p) else d h p;
  read_file = λ host path d. d host path;
  remove =
      λ host path d. (RemoveResult.removed, λ h p. if host == h && path == p then none else d h p);
}

at_itself : (host path : Bytes) → (host == host && path == path) ≡ true
at_itself host path = rw (==-refl host, ==-refl path) refl

elsewhere :
    (host path host' path' : Bytes)
    → ◌≢◌ {A = Bytes × Bytes} (host, path) (host', path')
    → (host == host' && path == path') ≡ false
elsewhere host path host' path' n = elim (Bool-cases (host == host' && path == path')) [
  | inl e ↦ absurd (n (ap₂ (λ x y. (x, y)) (hosts e) (paths e)))
  | inr e ↦ e
]
  where
    hosts : (host == host' && path == path') ≡ true → host ≡ host'
    hosts e = ground (arith, bytes_beq_iff host host')

    paths : (host == host' && path == path') ≡ true → path ≡ path'
    paths e = ground (arith, bytes_beq_iff path path')

memory-IsLasting : IsLasting memory
memory-IsLasting = record {
  mkdir_keeps = λ host dir host' path d. refl;
  open_empties = λ host path d opened. rw (at_itself host path) refl;
  open_keeps = λ host path host' path' d n. rw (elsewhere host path host' path' n) refl;
  append_adds = λ host path content old d e. rw (at_itself host path, e) refl;
  append_keeps = λ host path host' path' content d n. rw (elsewhere host path host' path' n) refl;
  remove_keeps = λ host path host' path' d n. rw (elsewhere host path host' path' n) refl;
}

abbrev network : Transport
network = record {
  locate = λ address port. some (address, default_config);
  unreachable = status internal (codes "unreachable");
  unreachable_fails = refl;
}

stub_client-IsReliable_example : IsReliable (stub_client network memory)
stub_client-IsReliable_example = stub_client-IsReliable network memory memory-IsLasting
