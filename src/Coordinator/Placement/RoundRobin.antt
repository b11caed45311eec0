-- ===== src/Coordinator/Placement/RoundRobin.antt =====
-- What the round-robin placement promises of the nodes it selects.
use mathlib.Core.List.{
  Mem, mem-cons, mem-cons_self, not-mem-nil, Perm, Nodup, Nodup-cons, Nodup-nil,
}
use mathlib.Core.List.Perm
use mathlib.Core.Logic.Or
use mathlib.Core.Bool.{false≢true}
use mathlib.Core.List
use native.Mathlib.Bridge.{from_ℕ}
use native.Mathlib.Nat.{mod-lt, mod-add-mod, mod-eq_of_lt, mod-eq-sub-mod}
use native.Mathlib.Decide.{dec_lt}
use toy_dfs.Prelude.{
  ℕ, zero, suc, ◌+◌, ◌-◌, ◌%◌, ◌≤◌, ◌<◌, ◌≡◌, refl, ◌≢◌, false, List, [], ◌∷◌, none, ℤ, pos, negsuc,
  pos_part, is_positive, if◌then◌else◌, length, All, arith, ap, ap₂, int_eq, int_beq_iff, ◌∙◌, sym,
  lt→ltb, ltb, ◌&&◌, not, Bool-cases, inl, inr, All-map, ◌++◌,
}
use toy_dfs.Bytes.{is_empty}
use toy_dfs.Table.{keys, find}
use toy_dfs.Coordinator.{Coordinator, Nodes}
use toy_dfs.Coordinator.Placement.{Iteration, at_index, pick, select_nodes, u32_modulus}

length-from_ℕ {ℓ} : {A : Type ℓ} (xs : List A) → length xs ≡ from_ℕ (List.length xs)
length-from_ℕ [] = refl
length-from_ℕ (x ∷ xs) = ap suc (length-from_ℕ xs)

length-perm {ℓ} : {A : Type ℓ} (xs ys : List A) → Perm xs ys → length xs ≡ length ys
length-perm xs ys p = rw (length-from_ℕ xs, length-from_ℕ ys) (ap from_ℕ (Perm.length-eq p))

length-keys : (nodes : Nodes) → length (keys nodes) ≡ length nodes
length-keys [] = refl
length-keys (p ∷ nodes) = ap suc (length-keys nodes)

at_index-Mem : (xs : List ℤ) (i : ℕ) → i < length xs → Mem (at_index xs i) xs
unfolding at_index
at_index-Mem [] i h = elim h [ ]
at_index-Mem (x ∷ xs) zero h = mem-cons_self
at_index-Mem (x ∷ xs) (suc i) h = mem-cons.1 (Or.inr (at_index-Mem xs i (omega arith)))

find-keys : (id : ℤ) (nodes : Nodes) → Mem id (keys nodes) → find id nodes ≢ none
unfolding find
find-keys id [] m e = absurd (not-mem-nil m)
find-keys id ((j, info) ∷ nodes) m e =
    Or.elim (λ x y. absurd x) (mem-cons.0 m) (λ same. ground (arith, int_beq_iff j id))
      (λ rest. find-keys id nodes rest (ground arith))

module _ (xs : List ℤ) where
  length-pick : (start i n : ℕ) → length (pick xs start i n) ≡ n
  unfolding pick
  length-pick start i zero = refl
  length-pick start i (suc n) = ap suc (length-pick start (i + 1) n)

  pick-Mem : (start i n : ℕ) → 0 < length xs → All (λ id. Mem id xs) (pick xs start i n)
  unfolding pick
  pick-Mem start i zero h = tt
  pick-Mem start i (suc n) h =
      (at_index-Mem xs ((start + i) % length xs) (mod-lt (start + i) h), pick-Mem start (i + 1) n h)

  -- Only the remainder of the start matters, and a later start is a later round.
  pick-mod : (start i n : ℕ) → pick xs (start % length xs) i n ≡ pick xs start i n
  unfolding pick
  pick-mod start i zero = refl
  pick-mod start i (suc n) =
      ap₂ (λ k l. at_index xs k ∷ l) (mod-add-mod start (length xs) i) (pick-mod start (i + 1) n)

  pick-shift : (start i n : ℕ) → pick xs (start + 1) i n ≡ pick xs start (i + 1) n
  unfolding pick
  pick-shift start i zero = refl
  pick-shift start i (suc n) =
      ap₂ (λ k l. at_index xs (k % length xs) ∷ l) (omega arith) (pick-shift start (i + 1) n)

module _ (xs : List ℤ) where
  pick_last :
      (start i n : ℕ)
      → pick xs start i (suc n)
        ≡ pick xs start i n ++ at_index xs ((start + (i + n)) % length xs) ∷ []
  unfolding pick
  pick_last start i zero = ap (λ k. at_index xs ((start + k) % length xs) ∷ []) (omega arith)
  pick_last start i (suc n) =
      ap (λ l. at_index xs ((start + i) % length xs) ∷ l)
        (pick_last start (i + 1) n
          ∙ ap (λ k. pick xs start (i + 1) n ++ at_index xs ((start + k) % length xs) ∷ [])
              (omega arith))

-- Two rounds that are less than a full turn apart visit different indices.
mod-ne : (x d n : ℕ) → 0 < d → d < n → (x + d) % n ≢ x % n
mod-ne x d n h k e = elim (dec_lt (x % n + d) n) [
  | yes low ↦
      absurd (omega (arith, mod-add-mod x n d ∙ e, mod-eq_of_lt {n = x % n + d} {m = n} low))
  | no high ↦ absurd (
      omega (
        arith,
        mod-add-mod x n d ∙ e,
        mod-eq-sub-mod {n = x % n + d} {m = n} (omega arith),
        mod-eq_of_lt {n = x % n + d - n} {m = n} (omega (arith, mod-lt x {m = n} (omega arith))),
        mod-lt x {m = n} (omega arith),
      ))
]

at_index-ne :
    (xs : List ℤ) (i j : ℕ)
    → Nodup xs
    → i < length xs
    → j < length xs
    → i ≢ j
    → at_index xs i ≢ at_index xs j
unfolding at_index
at_index-ne [] i j d h k n e = elim h [ ]
at_index-ne (x ∷ xs) zero zero d h k n e = absurd (n refl)
at_index-ne (x ∷ xs) zero (suc j) d h k n e =
    (Nodup-cons.0 d).0 (rw e (at_index-Mem xs j (omega arith)))
at_index-ne (x ∷ xs) (suc i) zero d h k n e =
    (Nodup-cons.0 d).0 (rw (← e) (at_index-Mem xs i (omega arith)))
at_index-ne (x ∷ xs) (suc i) (suc j) d h k n e =
    at_index-ne xs i j (Nodup-cons.0 d).1 (omega arith) (omega arith) (λ p. n (ap suc p)) e

module _ (xs : List ℤ) (d : Nodup xs) (start : ℕ) where
  pick_later :
      (a i n : ℕ)
      → a < i
      → i + n ≤ a + length xs
      → ¬ Mem (at_index xs ((start + a) % length xs)) (pick xs start i n)
  unfolding pick
  pick_later a i zero h k m = not-mem-nil m
  pick_later a i (suc n) h k m =
      Or.elim (λ x y. absurd x) (mem-cons.0 m)
        (λ e.
          at_index-ne xs ((start + a) % length xs) ((start + i) % length xs) d
            (mod-lt _ (omega arith)) (mod-lt _ (omega arith))
            (λ same.
              mod-ne (start + a) (i - a) (length xs) (omega arith) (omega arith)
                (ap (λ k. k % length xs) (omega arith) ∙ sym same))
            e)
        (pick_later a (i + 1) n (omega arith) (omega arith))

  pick-Nodup : (i n : ℕ) → n ≤ length xs → Nodup (pick xs start i n)
  unfolding pick
  pick-Nodup i zero h = Nodup-nil
  pick-Nodup i (suc n) h =
      Nodup-cons.1
        (pick_later i (i + 1) n (omega arith) (omega arith), pick-Nodup (i + 1) n (omega arith))

not_empty-length : (nodes : Nodes) → is_empty nodes ≡ false → 0 < length nodes
not_empty-length [] h = absurd (false≢true (sym h))
not_empty-length (p ∷ nodes) h = omega arith

is_empty-length : (nodes : Nodes) → 0 < length nodes → is_empty nodes ≡ false
is_empty-length [] h = elim h [ ]
is_empty-length (p ∷ nodes) h = refl

module _ (it : Iteration) (c : Coordinator) where
  visited : List ℤ
  visited = it.order (keys c.registered_nodes)

  length-visited : length visited ≡ length c.registered_nodes
  unfolding visited
  length-visited =
      length-perm visited (keys c.registered_nodes) (it.order-perm _)
      ∙ length-keys c.registered_nodes

  -- What `selectNodesForReplication` returns when there is a node and a replica to place.
  select_nodes_lem :
      (r : ℕ)
      → 0 < r
      → 0 < length c.registered_nodes
      → select_nodes it (pos r) c ≡ (
        pick visited (c.next_node_index % length visited) 0 r,
        record c { next_node_index = (c.next_node_index + 1) % u32_modulus },
      )
  unfolding select_nodes visited
  select_nodes_lem r h k = rw (lt→ltb 0 r h, is_empty-length c.registered_nodes k)

  -- With a positive replication factor and a registered node, as many nodes are selected as replicas
  -- are asked for, and each of them is registered. Otherwise none is selected.
  pub select_nodes_registered :
      (r : ℤ)
      → let ids = (select_nodes it r c).0 in
        (length ids
          ≡ (if is_positive r && not (is_empty c.registered_nodes) then pos_part r else 0))
        × All (λ id. find id c.registered_nodes ≢ none) ids
  unfolding select_nodes visited
  select_nodes_registered (negsuc n) = (refl, tt)
  select_nodes_registered (pos r) = elim (Bool-cases (ltb 0 r)) [
    | inl some_replica ↦ elim (Bool-cases (is_empty c.registered_nodes)) [
      | inl e ↦ rw (some_replica, e) (refl, tt)
      | inr e ↦
          rw (some_replica, e)
            (
              length-pick visited (c.next_node_index % length visited) 0 r,
              All-map _ _
                  (λ id m. find-keys id c.registered_nodes ((Perm.mem_iff (it.order-perm _)).0 m)) _
                  (pick-Mem visited (c.next_node_index % length visited) 0 r
                    (omega (arith, length-visited, not_empty-length c.registered_nodes e))),
            )
    ]
    | inr no_replica ↦ rw no_replica (refl, tt)
  ]

  -- Where the ids of the registry are distinct and there are at least as many nodes as replicas,
  -- the replicas go to different nodes.
  pub select_nodes-Nodup :
      (r : ℕ)
      → r ≤ length c.registered_nodes
      → Nodup (keys c.registered_nodes)
      → Nodup (select_nodes it (pos r) c).0
  select_nodes-Nodup zero h d = unfold select_nodes in Nodup-nil
  select_nodes-Nodup (suc r) h d = rw (select_nodes_lem (suc r) (omega arith) (omega arith)) (
      pick-Nodup visited (unfold visited in Perm.nodup (Perm.symm (it.order-perm _)) d)
        (c.next_node_index % length visited) 0 (suc r) (omega (arith, length-visited)))

select_nodes-pick :
    (it : Iteration) (r : ℕ) (c : Coordinator)
    → 0 < length c.registered_nodes
    → (select_nodes it (pos (suc r)) c).0 ≡ pick (visited it c) c.next_node_index 0 (suc r)
select_nodes-pick it r c h =
    rw (select_nodes_lem it c (suc r) (omega arith) h)
      (pick-mod (visited it c) c.next_node_index 0 (suc r))

abbrev turned : Coordinator → Coordinator
turned c = record c { next_node_index = (c.next_node_index + 1) % u32_modulus }

select_nodes-turned :
    (it : Iteration) (r : ℕ) (c : Coordinator)
    → 0 < length c.registered_nodes
    → c.next_node_index + 1 < u32_modulus
    → (select_nodes it (pos (suc r)) (turned c)).0 ≡ pick (visited it c) c.next_node_index 1 (suc r)
unfolding visited
select_nodes-turned it r c h k =
    select_nodes-pick it r (turned c) h
    ∙ ap (λ n. pick (visited it c) n 0 (suc r)) (mod-eq_of_lt k)
    ∙ pick-shift (visited it c) c.next_node_index 0 (suc r)
    ∙ ap (λ n. pick (visited it c) c.next_node_index n (suc r)) (omega arith)

-- Round robin: with a registered node, and while the 32-bit counter does not wrap, the next call
-- for one replica or more starts one node later, so its replicas are those of this call from the
-- second on, and one more.
pub select_nodes_turn :
    (it : Iteration) (r : ℕ) (c : Coordinator)
    → 0 < length c.registered_nodes
    → c.next_node_index + 1 < u32_modulus
    → let (first, c') = select_nodes it (pos (suc r)) c in
      (x : ℤ) × (shared : List ℤ) × (y : ℤ) × (first ≡ x ∷ shared)
      × ((select_nodes it (pos (suc r)) c').0 ≡ shared ++ y ∷ [])
select_nodes_turn it r c h k = (
  at_index xs ((s + 0) % length xs),
  pick xs s 1 r,
  at_index xs ((s + (1 + r)) % length xs),
  select_nodes-pick it r c h
      ∙ (unfold pick in ap (λ n. at_index xs ((s + 0) % length xs) ∷ pick xs s n r) (omega arith)),
  ap (λ d. (select_nodes it (pos (suc r)) d).0)
        (ap (λ p. p.1) (select_nodes_lem it c (suc r) (omega arith) h))
      ∙ select_nodes-turned it r c h k
      ∙ pick_last xs s 1 r,
)
  where
    xs : List ℤ
    xs = visited it c

    s : ℕ
    s = c.next_node_index
