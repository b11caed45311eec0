-- ===== src/Coordinator/Registry/Entries.antt =====
-- The registry as a list of entries: addresses that differ, ids below a bound.
use toy_dfs.Prelude.{
  ◌≢◌, ℕ, suc, ◌≤◌, ◌<◌, ◌≡◌, refl, false, [], ◌∷◌, ◌++◌, none, some, ℤ, pos, negsuc, int_eq,
  int_beq_iff, ◌==◌, arith, All, Bool-cases, inl, inr,
}
use toy_dfs.Bytes.{Bytes, bytes_eq, bytes_beq_iff}
use toy_dfs.Table.{find, insert, erase}
use toy_dfs.Coordinator.{DataNodeInfo, Nodes}
use toy_dfs.Coordinator.Registry.{find_conflict, is_at}

-- No two entries have one address and port.
abbrev pub Separate : Nodes → Type 0
Separate [] = Unit {0}
Separate ((id, info) ∷ nodes) = (find_conflict info.address info.port nodes ≡ none) × Separate nodes

-- The ids are numbers from 1 to below `k`, and each is the one that its entry names.
abbrev pub IsIssued : ℕ → ℤ × DataNodeInfo → Type 0
IsIssued k (pos n, info) = (1 ≤ n) × (n < k) × (info.node_id ≡ pos n)
IsIssued k (negsuc n, info) = ⊥

abbrev pub Issued : ℕ → Nodes → Type 0
Issued k = All (IsIssued k)

-- Below the bound there is no entry for the bound itself, so a new id is fresh.
pub find-Issued : (k : ℕ) (nodes : Nodes) → Issued k nodes → find (pos k) nodes ≡ none
unfolding find
find-Issued k [] h = refl
find-Issued k ((pos n, info) ∷ nodes) h = ground (arith, find-Issued k nodes h.1)
find-Issued k ((negsuc n, info) ∷ nodes) h = absurd h.0

pub Issued-suc : (k : ℕ) (nodes : Nodes) → Issued k nodes → Issued (suc k) nodes
Issued-suc k [] h = tt
Issued-suc k ((pos n, info) ∷ nodes) h = ((h.0.0, omega arith, h.0.2), Issued-suc k nodes h.1)
Issued-suc k ((negsuc n, info) ∷ nodes) h = absurd h.0

module _ (id : ℤ) (info : DataNodeInfo) where
  -- A fresh entry goes to the end.
  pub insert_fresh :
      (nodes : Nodes) → find id nodes ≡ none → insert id info nodes ≡ nodes ++ (id, info) ∷ []
  unfolding find insert
  insert_fresh [] h = refl
  insert_fresh ((j, other) ∷ nodes) h = ground (arith, insert_fresh nodes)

  pub erase_fresh :
      (nodes : Nodes) → find id nodes ≡ none → erase id (nodes ++ (id, info) ∷ []) ≡ nodes
  unfolding find erase
  erase_fresh [] h = ground (arith, int_beq_iff id id)
  erase_fresh ((j, other) ∷ nodes) h = ground (arith, erase_fresh nodes)

  find_conflict-append :
      (address : Bytes) (port : ℤ) (nodes : Nodes)
      → find_conflict address port nodes ≡ none
      → is_at address port info ≡ false
      → find_conflict address port (nodes ++ (id, info) ∷ []) ≡ none
  unfolding find_conflict
  find_conflict-append address port [] h a = ground arith
  find_conflict-append address port ((j, other) ∷ nodes) h a =
      ground (arith, find_conflict-append address port nodes)

  pub Separate-append :
      (nodes : Nodes)
      → find_conflict info.address info.port nodes ≡ none
      → Separate nodes
      → Separate (nodes ++ (id, info) ∷ [])
  Separate-append [] h s = (unfold find_conflict in refl, tt)
  Separate-append ((j, other) ∷ nodes) h s = (
    find_conflict-append other.address other.port nodes s.0 (apart h),
    Separate-append nodes (later h) s.1,
  )
    where
      apart :
          find_conflict info.address info.port ((j, other) ∷ nodes) ≡ none
          → is_at other.address other.port info ≡ false
      apart e =
          unfold find_conflict in
          ground (
            arith,
            bytes_beq_iff other.address info.address,
            bytes_beq_iff info.address other.address,
            int_beq_iff other.port info.port,
            int_beq_iff info.port other.port,
          )

      later :
          find_conflict info.address info.port ((j, other) ∷ nodes) ≡ none
          → find_conflict info.address info.port nodes ≡ none
      later e = unfold find_conflict in ground arith

find_conflict-erase :
    (id : ℤ) (address : Bytes) (port : ℤ) (nodes : Nodes)
    → find_conflict address port nodes ≡ none
    → find_conflict address port (erase id nodes) ≡ none
unfolding find_conflict erase
find_conflict-erase id address port [] h = refl
find_conflict-erase id address port ((j, other) ∷ nodes) h =
    ground (arith, find_conflict-erase id address port nodes)

pub Separate-erase : (id : ℤ) (nodes : Nodes) → Separate nodes → Separate (erase id nodes)
unfolding erase
Separate-erase id [] s = tt
Separate-erase id ((j, other) ∷ nodes) s = elim (Bool-cases (j == id)) [
  | inl e ↦ rw (e, Separate) (Separate-erase id nodes s.1)
  | inr e ↦
      rw (e, Separate)
        (find_conflict-erase id other.address other.port nodes s.0, Separate-erase id nodes s.1)
]

-- No two entries have one id.
abbrev pub Distinct : Nodes → Type 0
Distinct [] = Unit {0}
Distinct ((id, info) ∷ nodes) = (find id nodes ≡ none) × Distinct nodes

find-append :
    (j id : ℤ) (info : DataNodeInfo) (nodes : Nodes)
    → find j nodes ≡ none
    → find id ((j, info) ∷ []) ≡ none
    → find j (nodes ++ (id, info) ∷ []) ≡ none
unfolding find
find-append j id info [] h n = ground (arith, int_beq_iff id j, int_beq_iff j id)
find-append j id info ((i, other) ∷ nodes) h n = ground (arith, find-append j id info nodes)

pub Distinct-append :
    (id : ℤ) (info : DataNodeInfo) (nodes : Nodes)
    → find id nodes ≡ none
    → Distinct nodes
    → Distinct (nodes ++ (id, info) ∷ [])
unfolding find
Distinct-append id info [] h d = (refl, tt)
Distinct-append id info ((i, other) ∷ nodes) h d = (
  find-append i id info nodes d.0 (ground arith),
  Distinct-append id info nodes (ground arith) d.1,
)

find-erase-none : (j id : ℤ) (nodes : Nodes) → find j nodes ≡ none → find j (erase id nodes) ≡ none
unfolding find erase
find-erase-none j id [] h = refl
find-erase-none j id ((i, other) ∷ nodes) h = ground (arith, find-erase-none j id nodes)

pub Distinct-erase : (id : ℤ) (nodes : Nodes) → Distinct nodes → Distinct (erase id nodes)
unfolding erase
Distinct-erase id [] d = tt
Distinct-erase id ((i, other) ∷ nodes) d = elim (Bool-cases (i == id)) [
  | inl e ↦ rw (e, Distinct) (Distinct-erase id nodes d.1)
  | inr e ↦ rw (e, Distinct) (find-erase-none i id nodes d.0, Distinct-erase id nodes d.1)
]

-- The conflict that the scan reports is a registered node at that address and port.
pub find_conflict_sound :
    (address : Bytes) (port id : ℤ) (nodes : Nodes)
    → Distinct nodes
    → find_conflict address port nodes ≡ some id
    → (info : DataNodeInfo) × (find id nodes ≡ some info)
      × (info.address ≡ address)
      × (info.port ≡ port)
unfolding find_conflict find
find_conflict_sound address port id [] d h = cc
find_conflict_sound address port id ((i, other) ∷ nodes) d h =
    elim (Bool-cases (is_at address port other)) [
      | inl e ↦ (
        other,
        ground (arith, int_beq_iff i id),
        ground (arith, bytes_beq_iff other.address address),
        ground (arith, int_beq_iff other.port port),
      )
      | inr e ↦
          let (info, f, a, p) = find_conflict_sound address port id nodes d.1 (ground arith) in
          (info, ground (arith, int_beq_iff i id), a, p)
    ]

-- And it misses none.
pub find_conflict_complete :
    (id : ℤ) (info : DataNodeInfo) (nodes : Nodes)
    → find id nodes ≡ some info
    → find_conflict info.address info.port nodes ≢ none
unfolding find_conflict find
find_conflict_complete id info [] h = λ e. cc
find_conflict_complete id info ((i, other) ∷ nodes) h = ground (
  arith,
  bytes_beq_iff other.address info.address,
  int_beq_iff other.port info.port,
  find_conflict_complete id info nodes,
)

pub find_last :
    (id : ℤ) (info : DataNodeInfo) (nodes : Nodes)
    → find id nodes ≡ none
    → find id (nodes ++ (id, info) ∷ []) ≡ some info
unfolding find
find_last id info [] h = ground (arith, int_beq_iff id id)
find_last id info ((i, other) ∷ nodes) h = ground (arith, find_last id info nodes)
