-- ===== src/MetadataStore/Files.antt =====
-- What a client of the store sees: a partial map from paths to files.
use toy_dfs.Prelude.{
  ℕ, ◌≡◌, refl, Option, none, some, arith, if◌then◌else◌, ◌==◌, Option-cases, inl, inr, ap,
}
use toy_dfs.Bytes.{Bytes, bytes_eq, bytes_beq_iff}
use toy_dfs.Table.{find, erase}
use toy_dfs.Table.Laws.{find-insert, find-erase}
use toy_dfs.MetadataStore.{
  MetadataStore, FileMeta, put_file, get_file, as_file, delete_path, file_exists,
  cleanup_tombstones, bury, limit_tombstones, count_delete, is_some,
}

-- The file that a path names.
abbrev pub file_at : MetadataStore → Bytes → Option FileMeta
file_at s path = (get_file path s).0

pub file_at-put_file :
    (path other : Bytes) (meta : FileMeta) (s : MetadataStore)
    → file_at (put_file path meta s) other ≡ (if path == other then some meta else file_at s other)
unfolding put_file get_file
file_at-put_file path other meta s = rw (find-insert path other) (ground arith)

-- A lookup changes nothing but the read counter.
pub file_at-get_file :
    (path other : Bytes) (s : MetadataStore) → file_at (get_file path s).1 other ≡ file_at s other
unfolding get_file
file_at-get_file path other s = refl

pub file_at-file_exists :
    (path other : Bytes) (s : MetadataStore)
    → file_at (file_exists path s).1 other ≡ file_at s other
unfolding get_file file_exists
file_at-file_exists path other s = refl

-- The tombstones never decide what a path names.
limit_tombstones-entries :
    (now : ℕ) (s : MetadataStore) → (limit_tombstones now s).entries ≡ s.entries
unfolding limit_tombstones
limit_tombstones-entries now s = ground arith

delete_path-entries :
    (now later : ℕ) (path other : Bytes) (s : MetadataStore)
    → find other (delete_path now later path s).entries ≡ (
        if is_some (file_at s path)
        then find other (erase path s.entries)
        else find other s.entries)
unfolding get_file delete_path
delete_path-entries now later path other s = elim (Option-cases (as_file (find path s.entries))) [
  | inl e ↦ rw (e, delete_path)
  | inr (meta, e) ↦
      rw (e, delete_path)
        (unfold bury count_delete in
          ap (find other) (limit_tombstones-entries later (bury now path meta s)))
]

-- A deleted file is gone at once, and no other path changes.
pub file_at-delete_path :
    (now later : ℕ) (path other : Bytes) (s : MetadataStore)
    → file_at (delete_path now later path s) other
      ≡ (if path == other then none else file_at s other)
unfolding get_file
file_at-delete_path now later path other s =
    rw (delete_path-entries now later path other s, find-erase path other)
      (ground (arith, bytes_beq_iff path other))

-- The sweep of the tombstones concerns no active file.
pub file_at-cleanup_tombstones {ℓ} :
    {W : Type ℓ} (now : ℕ) (deleter : Option (FileMeta → W → W)) (other : Bytes) (s : MetadataStore)
    (w : W)
    → file_at (cleanup_tombstones now deleter s w).0 other ≡ file_at s other
unfolding get_file cleanup_tombstones
file_at-cleanup_tombstones now deleter other s w = refl
