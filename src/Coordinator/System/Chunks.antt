-- ===== src/Coordinator/System/Chunks.antt =====
-- Lists of chunks that share no id, and files that stay stored.
use toy_dfs.Prelude.{ℕ, ◌≤◌, ◌≡◌, ◌≢◌, ◌∙◌, sym, List, [], ◌∷◌, ℤ, arith, All, All-map}
use toy_dfs.Bytes.{Bytes}
use toy_dfs.MetadataStore.{ChunkInfo}
use toy_dfs.Coordinator.{Nodes}
use toy_dfs.Coordinator.Client.{DataNodeClient, chunk_name-injective}
use toy_dfs.Coordinator.Distribution.Replicas.{HasReplica}
use toy_dfs.Coordinator.Upload.Stored.{Stored, IsNumbered}

abbrev pub IsApart : List ChunkInfo → ChunkInfo → Type 0
IsApart ys x = All (λ y. x.chunk_id ≢ y.chunk_id) ys

-- No id is in both lists.
abbrev pub Apart : List ChunkInfo → List ChunkInfo → Type 0
Apart xs ys = All (IsApart ys) xs

pub Apart-nil : (xs : List ChunkInfo) → Apart xs []
Apart-nil [] = tt
Apart-nil (x ∷ xs) = (tt, Apart-nil xs)

Apart-cons :
    (y : ChunkInfo) (xs ys : List ChunkInfo)
    → All (λ x. x.chunk_id ≢ y.chunk_id) xs
    → Apart xs ys
    → Apart xs (y ∷ ys)
Apart-cons y [] ys h a = tt
Apart-cons y (x ∷ xs) ys h a = ((h.0, a.0), Apart-cons y xs ys h.1 a.1)

pub Apart-sym : (xs ys : List ChunkInfo) → Apart xs ys → Apart ys xs
Apart-sym [] ys a = Apart-nil ys
Apart-sym (x ∷ xs) ys a =
    Apart-cons x ys xs
      (All-map (λ y. x.chunk_id ≢ y.chunk_id) (λ y. y.chunk_id ≢ x.chunk_id) (λ y n e. n (sym e)) ys
        a.0)
      (Apart-sym xs ys a.1)

-- Chunks with lower numbers are apart from chunks with higher ones.
pub IsNumbered-Apart :
    (low bound high : ℕ) (xs ys : List ChunkInfo)
    → All (IsNumbered low bound) xs
    → All (IsNumbered bound high) ys
    → Apart xs ys
IsNumbered-Apart low bound high xs ys below above =
    All-map (IsNumbered low bound) (IsApart ys) (λ x n. one x n) xs below
  where
    one : (x : ChunkInfo) → IsNumbered low bound x → IsApart ys x
    one x (n, named, from, to) =
        All-map (IsNumbered bound high) (λ y. x.chunk_id ≢ y.chunk_id)
          (λ y m e. absurd (differ (chunk_name-injective n m.0 (sym named ∙ e ∙ m.1)) m.2)) ys above
      where
        differ : {k : ℕ} → n ≡ k → bound ≤ k → ⊥
        differ e h = omega arith

pub IsNumbered-le :
    (low bound bound' : ℕ) (xs : List ChunkInfo)
    → bound ≤ bound'
    → All (IsNumbered low bound) xs
    → All (IsNumbered 0 bound') xs
IsNumbered-le low bound bound' xs h =
    All-map (IsNumbered low bound) (IsNumbered 0 bound')
      (λ x n. (n.0, n.1, omega arith, omega (arith, n.3))) xs

module _ {W : Type 0} (client : DataNodeClient W) where
  pub Stored-IsNumbered :
      (nodes : Nodes) (bound : ℕ) (w : W) (chunks : List ChunkInfo) (content : Bytes)
      → Stored client nodes bound w chunks content
      → All (IsNumbered 0 bound) chunks
  Stored-IsNumbered nodes bound w [] content s = tt
  Stored-IsNumbered nodes bound w (chunk ∷ chunks) content s =
      let (here, rest, cut, some_node, number, named, below, held, more) = s in
      ((number, named, omega arith, below), Stored-IsNumbered nodes bound w chunks rest more)

  -- A file stays stored where the replicas of its chunks stay readable.
  pub Stored-map :
      (P : ChunkInfo → Type 0) (nodes nodes' : Nodes) (bound bound' : ℕ) (w w' : W)
      (chunks : List ChunkInfo) (content : Bytes)
      → bound ≤ bound'
      → All P chunks
      → ((chunk : ChunkInfo) (here : Bytes) (id : ℤ)
          → P chunk
          → IsNumbered 0 bound chunk
          → HasReplica client nodes chunk.chunk_id here w id
          → HasReplica client nodes' chunk.chunk_id here w' id)
      → Stored client nodes bound w chunks content
      → Stored client nodes' bound' w' chunks content
  Stored-map P nodes nodes' bound bound' w w' [] content h ps keep s = s
  Stored-map P nodes nodes' bound bound' w w' (chunk ∷ chunks) content h ps keep s =
      let (here, rest, cut, some_node, number, named, below, held, more) = s in
      (
        here,
        rest,
        cut,
        some_node,
        number,
        named,
        omega arith,
        All-map _ _ (λ id. keep chunk here id ps.0 (number, named, omega arith, below))
            chunk.node_ids held,
        Stored-map P nodes nodes' bound bound' w w' chunks rest h ps.1 keep more,
      )
