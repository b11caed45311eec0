-- ===== src/Coordinator/Samples.antt =====
-- A small cluster to try the handlers on: data nodes that share one table of chunks.
use mathlib.Core.List.Perm
use toy_dfs.Prelude.{
  ℕ, ◌≡◌, ◌≢◌, refl, ap, ◌∙◌, [], ◌∷◌, Option, none, some, ℤ, pos, Option-cases, inl, inr, ◌==◌,
  ==-refl, ==-ne, false,
}
use toy_dfs.Bytes.{Bytes, codes, bytes_eq}
use toy_dfs.Grpc.{Status, status, status_ok, not_found}
use toy_dfs.Table.{Table, find, insert, erase}
use toy_dfs.Table.Laws.{find-insert, find-erase}
use toy_dfs.Coordinator.{Coordinator, DataNodeInfo, init}
use toy_dfs.Coordinator.Client.{DataNodeClient, Holds, IsReliable, chunk_name, chunk_name-injective}
use toy_dfs.Coordinator.Environment.{Environment}

abbrev pub Disk : Type 0
Disk = Table Bytes Bytes

abbrev answer : Option Bytes → Disk → Status × Bytes × Disk
answer none w = (status not_found (codes "Chunk not found"), [], w)
answer (some content) w = (status_ok, content, w)

abbrev pub disk_client : DataNodeClient Disk
disk_client = record {
  put_chunk = λ address port chunk_id content w. (status_ok, insert chunk_id content w);
  get_chunk = λ address port chunk_id w. answer (find chunk_id w) w;
  delete_chunk = λ address port chunk_id w. (status_ok, erase chunk_id w);
}

Holds-find :
    (address : Bytes) (port : ℤ) (chunk_id content : Bytes) (w : Disk)
    → find chunk_id w ≡ some content
    → Holds disk_client address port chunk_id content w
Holds-find address port chunk_id content w e = record { reads = rw e refl; same = rw e refl }

find-Holds :
    (address : Bytes) (port : ℤ) (chunk_id content : Bytes) (w : Disk)
    → Holds disk_client address port chunk_id content w
    → find chunk_id w ≡ some content
find-Holds address port chunk_id content w h = elim (Option-cases (find chunk_id w)) [
  | inl e ↦ absurd (mathlib.Core.Bool.false≢true (rw e at h.reads))
  | inr (old, e) ↦ e ∙ ap some (rw e at h.same)
]

pub disk_client-IsReliable : IsReliable disk_client
disk_client-IsReliable = record {
  put_holds = λ address port chunk_id content w ok.
      Holds-find address port chunk_id content (insert chunk_id content w)
        (written chunk_id content w);
  put_keeps_replica = λ address address' port port' chunk_id content w ok held.
      Holds-find address' port' chunk_id content (insert chunk_id content w)
        (written chunk_id content w);
  put_keeps_other = λ address address' port port' n m content content' w h k ne held.
      Holds-find address' port' (chunk_name m) content' (insert (chunk_name n) content w) (
        apart n m content content' w ne (find-Holds address' port' (chunk_name m) content' w held));
  delete_keeps_other = λ address address' port port' n m content' w h k ne held.
      Holds-find address' port' (chunk_name m) content' (erase (chunk_name n) w)
        (erased n m content' w ne (find-Holds address' port' (chunk_name m) content' w held));
  get_keeps = λ address address' port port' chunk_id chunk_id' content' w held.
      elim (Option-cases (find chunk_id w)) [ inl e ↦ rw e held | inr (old, e) ↦ rw e held ];
}
  where
    written : (k v : Bytes) (w : Disk) → find k (insert k v w) ≡ some v
    written k v w = find-insert k k v w ∙ rw (==-refl k) refl

    other_name : (n m : ℕ) → n ≢ m → (chunk_name n == chunk_name m) ≡ false
    other_name n m ne = ==-ne (chunk_name n) (chunk_name m) (λ e. ne (chunk_name-injective n m e))

    apart :
        (n m : ℕ) (content content' : Bytes) (w : Disk)
        → n ≢ m
        → find (chunk_name m) w ≡ some content'
        → find (chunk_name m) (insert (chunk_name n) content w) ≡ some content'
    apart n m content content' w ne e =
        find-insert (chunk_name n) (chunk_name m) content w ∙ rw (other_name n m ne) e

    erased :
        (n m : ℕ) (content' : Bytes) (w : Disk)
        → n ≢ m
        → find (chunk_name m) w ≡ some content'
        → find (chunk_name m) (erase (chunk_name n) w) ≡ some content'
    erased n m content' w ne e =
        find-erase (chunk_name n) (chunk_name m) w ∙ rw (other_name n m ne) e

abbrev pub env : Environment Disk
env = record {
  client = disk_client;
  iteration = record { order = λ xs. xs; order-perm = λ xs. Perm.refl xs };
  schedule = λ number. 2 ∷ (0 ∷ []);
}

abbrev node : ℤ → ℤ × DataNodeInfo
node id = (id, record { node_id = id; address = codes "10.0.0.1"; port = id })

abbrev pub cluster : Coordinator
cluster = record init {
  registered_nodes = node (pos 1) ∷ (node (pos 2) ∷ (node (pos 3) ∷ []));
  next_node_id = pos 4;
}
