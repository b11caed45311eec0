-- ===== src/MetadataStore/Tombstones.antt =====
-- Which tombstones the two cleanups keep, and what they hand to the chunk deleter.
use mathlib.Core.List.{foldl}
use toy_dfs.Prelude.{
  ℕ, ◌-◌, ◌≤◌, ◌≡◌, refl, Bool, not, Option, some, arith, List, [], ◌∷◌, ◌++◌, length,
  length-append, filter_by, none, ap, ◌∙◌, sym, append-nil, Option-cases, inl, inr,
}
use toy_dfs.Bytes.{Bytes}
use toy_dfs.MetadataStore.{
  MetadataStore, FileMeta, Tombstone, is_expired, drop_old, sweep, cleanup_tombstones, delete_path,
  bury, limit_tombstones, cleanup_old_tombstones, count_delete, fetch_sub, max_deleted_entries,
  tombstone_lifetime, get_file, call_deleter,
}
use toy_dfs.MetadataStore.Files.{file_at}

abbrev pub is_fresh : ℕ → Tombstone → Bool
is_fresh now t = not (is_expired now t)

-- Delete times do not fall along the list, nor below `low`.
abbrev pub Ordered : ℕ → List Tombstone → Type 0
Ordered low [] = Unit {0}
Ordered low (t ∷ ts) = (low ≤ t.delete_time) × Ordered t.delete_time ts

module _ {ℓ} {W : Type ℓ} (now : ℕ) (deleter : Option (FileMeta → W → W)) where
  abbrev pub delete_all : List Tombstone → W → W
  delete_all ts w = foldl (λ v t. call_deleter deleter t.meta v) w ts

  pub sweep-kept :
      (ts : List Tombstone) (count : ℕ) (w : W)
      → (sweep now deleter ts count w).0 ≡ filter_by (is_fresh now) ts
  unfolding sweep
  sweep-kept [] count w = refl
  sweep-kept (t ∷ ts) count w = ground (
    arith,
    sweep-kept ts count w,
    sweep-kept ts (fetch_sub count) (call_deleter deleter t.meta w),
  )

  sweep-world :
      (ts : List Tombstone) (count : ℕ) (w : W)
      → (sweep now deleter ts count w).2 ≡ delete_all (filter_by (is_expired now) ts) w
  unfolding sweep
  sweep-world [] count w = refl
  sweep-world (t ∷ ts) count w = ground (
    arith,
    sweep-world ts count w,
    sweep-world ts (fetch_sub count) (call_deleter deleter t.meta w),
  )

  -- The background cleanup hands the metadata of exactly the expired tombstones to the deleter, if
  -- there is one, the oldest entry of the deque first, keeps exactly the others in their order, and leaves the active
  -- files alone.
  pub cleanup_tombstones_lem :
      (s : MetadataStore) (w : W)
      → let (s', w') = cleanup_tombstones now deleter s w in
        (s'.deleted_entries ≡ filter_by (is_fresh now) s.deleted_entries)
        × (w' ≡ delete_all (filter_by (is_expired now) s.deleted_entries) w)
        × (s'.entries ≡ s.entries)
  unfolding cleanup_tombstones
  cleanup_tombstones_lem s w = (sweep-kept _ _ w, sweep-world _ s.tombstone_count w, refl)

filter_fresh :
    (now low : ℕ) (ts : List Tombstone)
    → Ordered low ts
    → now - low ≤ tombstone_lifetime
    → filter_by (is_fresh now) ts ≡ ts
filter_fresh now low [] o h = refl
filter_fresh now low (t ∷ ts) o h = ground (arith, filter_fresh now t.delete_time ts o.1)

-- In a deque that is ordered by time, popping the expired entries off the front removes exactly the
-- expired entries.
pub drop_old-filter :
    (now low count : ℕ) (ts : List Tombstone)
    → Ordered low ts
    → (drop_old now ts count).0 ≡ filter_by (is_fresh now) ts
unfolding drop_old
drop_old-filter now low count [] o = refl
drop_old-filter now low count (t ∷ ts) o = ground (
  arith,
  drop_old-filter now t.delete_time (fetch_sub count) ts o.1,
  filter_fresh now t.delete_time ts o.1,
)

-- The front-only cleanup and the full sweep keep the same tombstones of an ordered deque.
pub cleanup_old_tombstones-cleanup_tombstones {ℓ} :
    {W : Type ℓ} (now low : ℕ) (deleter : Option (FileMeta → W → W)) (s : MetadataStore) (w : W)
    → Ordered low s.deleted_entries
    → (cleanup_old_tombstones now s).deleted_entries
      ≡ (cleanup_tombstones now deleter s w).0.deleted_entries
unfolding cleanup_old_tombstones
cleanup_old_tombstones-cleanup_tombstones now low deleter s w o =
    rw ((cleanup_tombstones_lem now deleter s w).0)
      (drop_old-filter now low s.tombstone_count s.deleted_entries o)

-- The tombstone that a deletion adds.
abbrev pub buried : ℕ → Bytes → FileMeta → Tombstone
buried now path meta = record { path = path; meta = meta; delete_time = now }

module _ (now later : ℕ) (path : Bytes) (meta : FileMeta) (s : MetadataStore)
    (found : file_at s path ≡ some meta) where
  pub delete_path-limit :
      (delete_path now later path s) ≡ count_delete (limit_tombstones later (bury now path meta s))
  unfolding delete_path get_file
  delete_path-limit = rw (found, delete_path)

  -- Past `MAX_DELETED_ENTRIES`, the expired tombstones of an ordered deque are dropped, and no deleter sees them.
  pub delete_path-full :
      (low : ℕ)
      → Ordered low (s.deleted_entries ++ buried now path meta ∷ [])
      → max_deleted_entries ≤ length s.deleted_entries
      → (delete_path now later path s).deleted_entries
        ≡ filter_by (is_fresh later) (s.deleted_entries ++ buried now path meta ∷ [])
  unfolding count_delete limit_tombstones bury
  delete_path-full low o full = rw delete_path-limit (
      ground (
        arith,
        length-append s.deleted_entries (buried now path meta ∷ []),
        drop_old-filter later low s.tombstone_count (s.deleted_entries ++ buried now path meta ∷ [])
            o,
      ))

-- The tombstone that a deletion adds, if the path names a file.
abbrev pub added : ℕ → Bytes → Option FileMeta → List Tombstone
added now path none = []
added now path (some meta) = buried now path meta ∷ []

filter_by-drop_old :
    (now count : ℕ) (ts : List Tombstone)
    → filter_by (is_fresh now) (drop_old now ts count).0 ≡ filter_by (is_fresh now) ts
unfolding drop_old
filter_by-drop_old now count [] = refl
filter_by-drop_old now count (t ∷ ts) = ground (arith, filter_by-drop_old now (fetch_sub count) ts)

filter_by-limit_tombstones :
    (now : ℕ) (s : MetadataStore)
    → filter_by (is_fresh now) (limit_tombstones now s).deleted_entries
      ≡ filter_by (is_fresh now) s.deleted_entries
unfolding limit_tombstones cleanup_old_tombstones
filter_by-limit_tombstones now s =
    ground (arith, filter_by-drop_old now s.tombstone_count s.deleted_entries)

delete_path-none :
    (now later : ℕ) (path : Bytes) (s : MetadataStore)
    → file_at s path ≡ none
    → (delete_path now later path s).deleted_entries ≡ s.deleted_entries
unfolding delete_path get_file
delete_path-none now later path s e = rw (e, delete_path) refl

-- A deletion loses no tombstone that is fresh when it reads the clock the second time, in any state
-- of the store and whether or not it drops expired ones: the fresh tombstones after it are, in order,
-- those before it and its own, if the path names a file.
pub filter_by-delete_path :
    (now later : ℕ) (path : Bytes) (s : MetadataStore)
    → filter_by (is_fresh later) (delete_path now later path s).deleted_entries
      ≡ filter_by (is_fresh later) (s.deleted_entries ++ added now path (file_at s path))
filter_by-delete_path now later path s = elim (Option-cases (file_at s path)) [
  | inl e ↦ rw e (
      ap (filter_by (is_fresh later))
        (delete_path-none now later path s e ∙ sym (append-nil s.deleted_entries)))
  | inr (meta, e) ↦
      rw (e, delete_path-limit now later path meta s e)
        (unfold count_delete bury in filter_by-limit_tombstones later (bury now path meta s))
]
