-- ===== src/Coordinator/Client.antt =====
-- The interface through which the coordinator reaches the data nodes (`IDataNodeStubWrapper` and its
-- factory in datanode/include/datanode_stub_wrapper.h): `W` is the state of the data nodes and of
-- the network. `CreateClient(address, port)` and the call on the new client are one operation.
use toy_dfs.Prelude.{ℕ, ◌≤◌, ◌≡◌, ◌≢◌, refl, sym, ap, ◌∙◌, true, [], ℤ, int_max, ◌++◌, drop}
use toy_dfs.Bytes.{Bytes, codes}
use toy_dfs.Bytes.Decimal.{to_string_nat, scan, scan-to_string_nat}
use toy_dfs.Grpc.{Status, is_ok}

pub record DataNodeClient (W : Type 0) : Type 0 where
  pub put_chunk : Bytes → ℤ → Bytes → Bytes → W → Status × W
  -- The data is what the call leaves in its empty out-parameter.
  pub get_chunk : Bytes → ℤ → Bytes → W → Status × Bytes × W
  pub delete_chunk : Bytes → ℤ → Bytes → W → Status × W

-- The id of the chunk with the given number.
unfoldable pub chunk_name : ℕ → Bytes
chunk_name n = codes "chunk_" ++ to_string_nat n

pub chunk_name-injective : (n m : ℕ) → chunk_name n ≡ chunk_name m → n ≡ m
unfolding chunk_name codes
chunk_name-injective n m e = sym (number n) ∙ ap (λ l. scan 0 (drop 6 l ++ [])) e ∙ number m
  where
    number : (k : ℕ) → scan 0 (to_string_nat k ++ []) ≡ k
    number k = scan-to_string_nat k [] refl

module _ {W : Type 0} (client : DataNodeClient W) where
  -- A read of the chunk from the node at that address succeeds and returns the data.
  pub record Holds (address : Bytes) (port : ℤ) (chunk_id content : Bytes) (w : W) : Type 0 where
    pub reads : is_ok (client.get_chunk address port chunk_id w).0 ≡ true
    pub same : (client.get_chunk address port chunk_id w).1 ≡ content

  -- What the coordinator relies on while the nodes that it uses stay reachable.
  pub record IsReliable : Type 0 where
    -- A write that is reported as successful can be read back.
    pub put_holds :
        (address : Bytes) (port : ℤ) (chunk_id content : Bytes) (w : W)
        → is_ok (client.put_chunk address port chunk_id content w).0 ≡ true
        → Holds address port chunk_id content (client.put_chunk address port chunk_id content w).1
    -- So can the replicas of the chunk that are already there.
    pub put_keeps_replica :
        (address address' : Bytes) (port port' : ℤ) (chunk_id content : Bytes) (w : W)
        → is_ok (client.put_chunk address port chunk_id content w).0 ≡ true
        → Holds address' port' chunk_id content w
        → Holds address' port' chunk_id content (client.put_chunk address port chunk_id content w).1
    -- A write, successful or not, leaves the other chunks alone.
    pub put_keeps_other :
        (address address' : Bytes) (port port' : ℤ) (n m : ℕ) (content content' : Bytes) (w : W)
        → n ≤ int_max
        → m ≤ int_max
        → n ≢ m
        → Holds address' port' (chunk_name m) content' w
        → Holds address' port'
            (chunk_name m)
            content'
            (client.put_chunk address port (chunk_name n) content w).1
    -- So does a deletion.
    pub delete_keeps_other :
        (address address' : Bytes) (port port' : ℤ) (n m : ℕ) (content' : Bytes) (w : W)
        → n ≤ int_max
        → m ≤ int_max
        → n ≢ m
        → Holds address' port' (chunk_name m) content' w
        → Holds address' port'
            (chunk_name m)
            content'
            (client.delete_chunk address port (chunk_name n) w).1
    -- A read changes no chunk.
    pub get_keeps :
        (address address' : Bytes) (port port' : ℤ) (chunk_id chunk_id' content' : Bytes) (w : W)
        → Holds address' port' chunk_id' content' w
        → Holds address' port' chunk_id' content' (client.get_chunk address port chunk_id w).2
