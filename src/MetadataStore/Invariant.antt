-- ===== src/MetadataStore/Invariant.antt =====
-- The well-formedness of the store, and that every method keeps it.
use toy_dfs.Prelude.{
  ℕ, ◌+◌, ◌-◌, ◌%◌, ◌≤◌, ◌<◌, ◌≡◌, refl, Bool, true, Option, arith, List, [], ◌∷◌, ◌++◌, length,
  length-append, filter_by, All, All-append, Bool-cases, Option-cases, inl, inr,
}
use toy_dfs.Bytes.{Bytes, bytes_eq}
use toy_dfs.Table.Laws.{All-erase, All-insert}
use toy_dfs.MetadataStore.{
  MetadataStore, FileMeta, PathEntry, Tombstone, is_expired, drop_old, sweep, cleanup_tombstones,
  delete_path, bury, limit_tombstones, count_delete, size_modulus, fetch_sub, put_file, get_file,
  file_exists, empty,
}
use toy_dfs.MetadataStore.Files.{file_at}
use toy_dfs.MetadataStore.Tombstones.{Ordered, buried, is_fresh, sweep-kept, delete_path-limit}

-- The `size_t` value `count`, after `pending` more increments, is the number `n`.
abbrev pub Counts : ℕ → ℕ → ℕ → Type 0
Counts pending count n =
    ((count + pending) % size_modulus ≡ n % size_modulus) × (count < size_modulus)

abbrev pub NotAfter : ℕ → List Tombstone → Type 0
NotAfter clock = All (λ t. t.delete_time ≤ clock)

-- At the time `clock`: only files are entries, the deque is ordered by the time of deletion and
-- holds nothing from the future, and the counter of tombstones is the length of the deque, but for
-- `pending` increments that are still to come (1 inside `deletePath`, 0 between the methods).
pub record Coherent (pending clock : ℕ) (s : MetadataStore) : Type 0 where
  pub only_files : All (λ (p : Bytes × PathEntry). p.1.is_file ≡ true) s.entries
  pub ordered : Ordered 0 s.deleted_entries
  pub past : NotAfter clock s.deleted_entries
  pub counted : Counts pending s.tombstone_count (length s.deleted_entries)

abbrev pub Inv : ℕ → MetadataStore → Type 0
Inv = Coherent 0

NotAfter-mono : (a b : ℕ) (ts : List Tombstone) → a ≤ b → NotAfter a ts → NotAfter b ts
NotAfter-mono a b [] h p = tt
NotAfter-mono a b (t ∷ ts) h p = (omega arith, NotAfter-mono a b ts h p.1)

Ordered-append :
    (low now : ℕ) (ts : List Tombstone) (t : Tombstone)
    → low ≤ t.delete_time
    → NotAfter t.delete_time ts
    → Ordered low ts
    → Ordered low (ts ++ t ∷ [])
Ordered-append low now [] t h p o = (h, tt)
Ordered-append low now (x ∷ ts) t h p o = (o.0, Ordered-append x.delete_time now ts t p.0 p.1 o.1)

Ordered-weaken :
    (low low' : ℕ) (ts : List Tombstone) → low' ≤ low → Ordered low ts → Ordered low' ts
Ordered-weaken low low' [] h o = tt
Ordered-weaken low low' (t ∷ ts) h o = (omega arith, o.1)

module _ (now : ℕ) where
  drop_old-Ordered :
      (low count : ℕ) (ts : List Tombstone) → Ordered low ts → Ordered low (drop_old now ts count).0
  unfolding drop_old
  drop_old-Ordered low count [] o = tt
  drop_old-Ordered low count (t ∷ ts) o = elim (Bool-cases (is_expired now t)) [
    | inl e ↦ rw e (
        Ordered-weaken t.delete_time low _ o.0
          (drop_old-Ordered t.delete_time (fetch_sub count) ts o.1))
    | inr e ↦ rw e o
  ]

  drop_old-NotAfter :
      (clock count : ℕ) (ts : List Tombstone)
      → NotAfter clock ts
      → NotAfter clock (drop_old now ts count).0
  unfolding drop_old
  drop_old-NotAfter clock count [] p = tt
  drop_old-NotAfter clock count (t ∷ ts) p =
      ground (arith, drop_old-NotAfter clock (fetch_sub count) ts p.1)

  drop_old-Counts :
      (pending count : ℕ) (ts : List Tombstone)
      → Counts pending count (length ts)
      → Counts pending (drop_old now ts count).1 (length (drop_old now ts count).0)
  unfolding drop_old
  drop_old-Counts pending count [] c = c
  drop_old-Counts pending count (t ∷ ts) c = elim (Bool-cases (is_expired now t)) [
    | inl e ↦ rw e (drop_old-Counts pending (fetch_sub count) ts (omega arith))
    | inr e ↦ rw e c
  ]

filter_by-Ordered :
    (test : Tombstone → Bool) (low : ℕ) (ts : List Tombstone)
    → Ordered low ts
    → Ordered low (filter_by test ts)
filter_by-Ordered test low [] o = tt
filter_by-Ordered test low (t ∷ ts) o = elim (Bool-cases (test t)) [
  | inl e ↦ rw (e, Ordered) (o.0, filter_by-Ordered test t.delete_time ts o.1)
  | inr e ↦
      rw (e, Ordered)
        (Ordered-weaken t.delete_time low _ o.0 (filter_by-Ordered test t.delete_time ts o.1))
]

filter_by-NotAfter :
    (test : Tombstone → Bool) (clock : ℕ) (ts : List Tombstone)
    → NotAfter clock ts
    → NotAfter clock (filter_by test ts)
filter_by-NotAfter test clock [] p = tt
filter_by-NotAfter test clock (t ∷ ts) p = ground (arith, filter_by-NotAfter test clock ts p.1)

sweep-Counts {ℓ} :
    {W : Type ℓ} (now : ℕ) (deleter : Option (FileMeta → W → W)) (pending : ℕ) (ts : List Tombstone)
    (count : ℕ) (w : W)
    → Counts pending count (length ts)
    → let (kept, count', w') = sweep now deleter ts count w in Counts pending count' (length kept)
unfolding sweep
sweep-Counts now deleter pending [] count w c = c
sweep-Counts now deleter pending (t ∷ ts) count w c = elim (Bool-cases (is_expired now t)) [
  | inl e ↦ rw e (sweep-Counts now deleter pending ts (fetch_sub count) _ (omega arith))
  | inr e ↦ rw e (
      omega
        (arith, sweep-Counts now deleter (pending + (size_modulus - 1)) ts count w (omega arith)))
]

pub empty-Inv : Inv 0 empty
unfolding empty
empty-Inv = record { only_files = tt; ordered = tt; past = tt; counted = omega arith }

module _ (clock : ℕ) (s : MetadataStore) (v : Inv clock s) where
  pub put_file-Inv : (path : Bytes) (meta : FileMeta) → Inv clock (put_file path meta s)
  unfolding put_file
  put_file-Inv path meta = record {
    only_files = All-insert _ path _ s.entries refl v.only_files;
    ordered = v.ordered;
    past = v.past;
    counted = v.counted;
  }

  pub get_file-Inv : (path : Bytes) → Inv clock (get_file path s).1
  unfolding get_file
  get_file-Inv path = ground arith

  pub file_exists-Inv : (path : Bytes) → Inv clock (file_exists path s).1
  unfolding file_exists
  file_exists-Inv path = ground arith

  pub cleanup_tombstones-Inv {ℓ} :
      {W : Type ℓ} (now : ℕ) (deleter : Option (FileMeta → W → W)) (w : W)
      → Inv clock (cleanup_tombstones now deleter s w).0
  unfolding cleanup_tombstones
  cleanup_tombstones-Inv now deleter w = record {
    only_files = v.only_files;
    ordered =
        rw (sweep-kept now deleter s.deleted_entries s.tombstone_count w)
          (filter_by-Ordered (is_fresh now) 0 s.deleted_entries v.ordered);
    past =
        rw (sweep-kept now deleter s.deleted_entries s.tombstone_count w)
          (filter_by-NotAfter (is_fresh now) clock s.deleted_entries v.past);
    counted = sweep-Counts now deleter 0 s.deleted_entries s.tombstone_count w v.counted;
  }

  bury-Coherent :
      (now : ℕ) (path : Bytes) (meta : FileMeta)
      → clock ≤ now
      → Coherent 1 now (bury now path meta s)
  unfolding bury
  bury-Coherent now path meta later = record {
    only_files = All-erase _ path s.entries v.only_files;
    ordered =
        Ordered-append 0 now s.deleted_entries (buried now path meta) (omega arith)
          (NotAfter-mono clock now _ later v.past) v.ordered;
    past =
        All-append _ s.deleted_entries (buried now path meta ∷ [])
          (NotAfter-mono clock now _ later v.past) (omega arith);
    counted = omega (arith, length-append s.deleted_entries (buried now path meta ∷ []), v.counted);
  }

limit_tombstones-Coherent :
    (now pending clock : ℕ) (s : MetadataStore)
    → Coherent pending clock s
    → Coherent pending clock (limit_tombstones now s)
unfolding limit_tombstones
limit_tombstones-Coherent now pending clock s v = ground (
  arith,
  drop_old-Ordered now 0 s.tombstone_count s.deleted_entries v.ordered,
  drop_old-NotAfter now clock s.tombstone_count s.deleted_entries v.past,
  drop_old-Counts now pending s.tombstone_count s.deleted_entries v.counted,
)

count_delete-Inv : (clock : ℕ) (s : MetadataStore) → Coherent 1 clock s → Inv clock (count_delete s)
unfolding count_delete
count_delete-Inv clock s v = record {
  only_files = v.only_files;
  ordered = v.ordered;
  past = v.past;
  counted = omega (arith, v.counted);
}

-- A deletion at the time `now`, not before the last one, keeps the store well formed.
pub delete_path-Inv :
    (clock now later : ℕ) (path : Bytes) (s : MetadataStore)
    → clock ≤ now
    → Inv clock s
    → Inv now (delete_path now later path s)
delete_path-Inv clock now later path s h v = elim (Option-cases (file_at s path)) [
  | inl e ↦
      unfold delete_path get_file in
      rw (e, delete_path)
        (record {
          only_files = v.only_files;
          ordered = v.ordered;
          past = NotAfter-mono clock now _ h v.past;
          counted = v.counted;
        })
  | inr (meta, e) ↦ rw (delete_path-limit now later path meta s e) (
      count_delete-Inv now _
        (limit_tombstones-Coherent later 1 now _ (bury-Coherent clock s v now path meta h)))
]
