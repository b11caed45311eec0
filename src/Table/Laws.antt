-- ===== src/Table/Laws.antt =====
-- The laws of the map operations.
use toy_dfs.Prelude.{
  Eq, ◌==◌, ◌≡◌, refl, [], ◌∷◌, none, some, arith, if◌then◌else◌, length, ◌≤◌, ◌+◌, All,
}
use toy_dfs.Table.{Table, find, insert, erase}

module _ {ℓ} {K V : Type ℓ} ⦃e : Eq K⦄ where
  pub find-insert :
      (k j : K) (v : V) (m : Table K V)
      → find j (insert k v m) ≡ (if k == j then some v else find j m)
  unfolding find insert
  find-insert k j v [] = refl
  find-insert k j v ((i, w) ∷ m) =
      ground (arith, e.equal_iff k j, e.equal_iff i k, e.equal_iff i j, find-insert k j v m)

  pub find-erase :
      (k j : K) (m : Table K V) → find j (erase k m) ≡ (if k == j then none else find j m)
  unfolding find erase
  find-erase k j [] = ground arith
  find-erase k j ((i, w) ∷ m) =
      ground (arith, e.equal_iff k j, e.equal_iff i k, e.equal_iff i j, find-erase k j m)

  pub length-insert : (k : K) (v : V) (m : Table K V) → length (insert k v m) ≤ length m + 1
  unfolding insert
  length-insert k v [] = omega arith
  length-insert k v ((i, w) ∷ m) = ground (arith, length-insert k v m)

  pub length-erase : (k : K) (m : Table K V) → length (erase k m) ≤ length m
  unfolding erase
  length-erase k [] = omega arith
  length-erase k ((i, w) ∷ m) = ground (arith, length-erase k m)

  -- An entry survives an erasure, or belongs to the erased key.
  pub All-erase {κ} : (P : K × V → Type κ) (k : K) (m : Table K V) → All P m → All P (erase k m)
  unfolding erase
  All-erase P k [] h = tt
  All-erase P k ((i, w) ∷ m) h = ground (arith, All-erase P k m h.1)

  pub All-insert {κ} :
      (P : K × V → Type κ) (k : K) (v : V) (m : Table K V)
      → P (k, v)
      → All P m
      → All P (insert k v m)
  unfolding insert
  All-insert P k v [] p h = (p, tt)
  All-insert P k v ((i, w) ∷ m) p h = ground (arith, All-insert P k v m p h.1)
