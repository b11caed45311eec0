-- ===== src/MetadataStore.antt =====
-- The coordinator's metadata (coordinator/include/metadata_store.h): the active files, the deleted
-- files that wait for the removal of their chunks, and the counters. Each method runs under the
-- store's mutex, so it is one step from a state to a state; the times that it reads from
-- `steady_clock` are arguments, in nanoseconds.
pub mod Files
pub mod Buried
pub mod Tombstones
pub mod Invariant
pub mod History
mod Tests
use toy_dfs.Prelude.{
  ℕ, ◌+◌, ◌-◌, ◌%◌, Bool, true, false, List, [], ◌∷◌, ◌++◌, Option, none, some, leb, ltb, length, ℤ,
  if◌then◌else◌, arith,
}
use toy_dfs.Bytes.{Bytes, bytes_eq}
use toy_dfs.Table.{Table, find, insert, erase}

pub record ChunkInfo : Type 0 where
  pub chunk_id : Bytes
  pub node_ids : List ℤ
  pub replication_factor : ℤ

pub record FileMeta : Type 0 where
  pub size : ℤ
  pub chunk_size : ℤ
  pub chunks : List ChunkInfo

pub record PathEntry : Type 0 where
  pub is_file : Bool
  pub file_meta : FileMeta

-- An entry of `deleted_entries_`.
pub record Tombstone : Type 0 where
  pub path : Bytes
  pub meta : FileMeta
  pub delete_time : ℕ

pub record MetadataStore : Type 0 where
  pub entries : Table Bytes PathEntry
  pub deleted_entries : List Tombstone
  pub read_count : ℕ
  pub write_count : ℕ
  pub tombstone_count : ℕ

abbrev pub tombstone_lifetime : ℕ
tombstone_lifetime = 300000000000

abbrev pub max_deleted_entries : ℕ
max_deleted_entries = 10000

-- `fetch_add(1)` and `fetch_sub(1)` on a `std::atomic<size_t>`.
abbrev pub size_modulus : ℕ
size_modulus = 18446744073709551616

abbrev pub fetch_add : ℕ → ℕ
fetch_add n = (n + 1) % size_modulus

abbrev pub fetch_sub : ℕ → ℕ
fetch_sub n = (n + (size_modulus - 1)) % size_modulus

unfoldable pub empty : MetadataStore
empty = record {
  entries = [];
  deleted_entries = [];
  read_count = 0;
  write_count = 0;
  tombstone_count = 0;
}

unfoldable pub put_file : Bytes → FileMeta → MetadataStore → MetadataStore
put_file path meta s = record s {
  entries = insert path (record { is_file = true; file_meta = meta }) s.entries;
  write_count = fetch_add s.write_count;
}

-- The metadata of an entry that is a file.
unfoldable pub as_file : Option PathEntry → Option FileMeta
as_file none = none
as_file (some entry) = if entry.is_file then some entry.file_meta else none

-- The pointer that the source returns is an `Option`; `none` is `nullptr`.
unfoldable pub get_file : Bytes → MetadataStore → Option FileMeta × MetadataStore
unfolding as_file
get_file path s = (as_file (find path s.entries), record s { read_count = fetch_add s.read_count })

-- age > TOMBSTONE_LIFETIME. The clock is steady, and an age below 0 would be no greater either.
abbrev pub is_expired : ℕ → Tombstone → Bool
is_expired now t = ltb tombstone_lifetime (now - t.delete_time)

-- The loop of `cleanupOldTombstones`, on the deque and the counter.
unfoldable pub drop_old : ℕ → List Tombstone → ℕ → List Tombstone × ℕ
drop_old now [] count = ([], count)
drop_old now (t ∷ ts) count =
    let rest = drop_old now ts (fetch_sub count) in
    if is_expired now t then rest else (t ∷ ts, count)

unfoldable pub cleanup_old_tombstones : ℕ → MetadataStore → MetadataStore
unfolding drop_old
cleanup_old_tombstones now s =
    let (kept, count) = drop_old now s.deleted_entries s.tombstone_count in
    record s { deleted_entries = kept; tombstone_count = count }

-- The file's metadata moves to the tombstones.
unfoldable pub bury : ℕ → Bytes → FileMeta → MetadataStore → MetadataStore
bury now path meta s = record s {
  entries = erase path s.entries;
  deleted_entries =
      s.deleted_entries ++ (record { path = path; meta = meta; delete_time = now }) ∷ [];
}

unfoldable pub limit_tombstones : ℕ → MetadataStore → MetadataStore
unfolding cleanup_old_tombstones
limit_tombstones now s =
    if ltb max_deleted_entries (length s.deleted_entries) then cleanup_old_tombstones now s else s

unfoldable pub count_delete : MetadataStore → MetadataStore
count_delete s = record s {
  write_count = fetch_add s.write_count;
  tombstone_count = fetch_add s.tombstone_count;
}

-- `now` is the first reading of the clock, `later` that of `cleanupOldTombstones`.
unfoldable pub delete_path : ℕ → ℕ → Bytes → MetadataStore → MetadataStore
unfolding as_file bury limit_tombstones count_delete
delete_path now later path s = elim (as_file (find path s.entries)) [
  | none ↦ s
  | some meta ↦ count_delete (limit_tombstones later (bury now path meta s))
]

abbrev pub is_some {ℓ} : {A : Type ℓ} → Option A → Bool
is_some none = false
is_some (some a) = true

unfoldable pub file_exists : Bytes → MetadataStore → Bool × MetadataStore
file_exists path s =
    (is_some (find path s.entries), record s { read_count = fetch_add s.read_count })

-- What `if (chunkDeleter) chunkDeleter(meta)` does to the world outside.
abbrev pub call_deleter {ℓ} : {W : Type ℓ} → Option (FileMeta → W → W) → FileMeta → W → W
call_deleter none meta w = w
call_deleter (some deleter) meta w = deleter meta w

-- The loop of `cleanupOldTombstonesInternal`: the deque, the counter and the world outside.
unfoldable pub sweep {ℓ} :
    {W : Type ℓ} → ℕ → Option (FileMeta → W → W) → List Tombstone → ℕ → W → List Tombstone × ℕ × W
sweep now deleter [] count w = ([], count, w)
sweep now deleter (t ∷ ts) count w =
    let cleaned = sweep now deleter ts (fetch_sub count) (call_deleter deleter t.meta w) in
    let (kept, count', w') = sweep now deleter ts count w in
    if is_expired now t then cleaned else (t ∷ kept, count', w')

unfoldable pub cleanup_tombstones {ℓ} :
    {W : Type ℓ} → ℕ → Option (FileMeta → W → W) → MetadataStore → W → MetadataStore × W
unfolding sweep
cleanup_tombstones now deleter s w =
    let (kept, count, w') = sweep now deleter s.deleted_entries s.tombstone_count w in
    (record s { deleted_entries = kept; tombstone_count = count }, w')

pub record Statistics : Type 0 where
  pub read_count : ℕ
  pub write_count : ℕ
  pub tombstone_count : ℕ
  pub active_entries : ℕ
  pub deleted_entries : ℕ

unfoldable pub get_statistics : MetadataStore → Statistics
get_statistics s = record {
  read_count = s.read_count;
  write_count = s.write_count;
  tombstone_count = s.tombstone_count;
  active_entries = length s.entries;
  deleted_entries = length s.deleted_entries;
}
