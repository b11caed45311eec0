-- ===== src/Coordinator/Concurrent/Rounds.antt =====
-- What one round of a call adds, and what a step leaves alone.
use toy_dfs.Prelude.{
  ℕ, zero, suc, ◌+◌, ◌*◌, ◌≤◌, ◌<◌, ◌≡◌, refl, ap, ◌∙◌, sym, subst, List, [], ◌∷◌, ◌++◌, length,
  take, drop, arith, All, int_max, append-nil, append_assoc, take-append-drop, drop-zero_of_le,
}
use toy_dfs.Bytes.{Bytes}
use toy_dfs.MetadataStore.{ChunkInfo}
use toy_dfs.Coordinator.{Coordinator, Nodes}
use toy_dfs.Coordinator.Client.{IsReliable, DataNodeClient, chunk_name}
use toy_dfs.Coordinator.Environment.{Environment}
use toy_dfs.Coordinator.Distribution.Replicas.{HasReplica}
use toy_dfs.Coordinator.Upload.{chunk_size, Loop, finished, stopped, put_chunks, chunk_info}
use toy_dfs.Coordinator.Upload.Chunks.{piece, max_file_size}
use toy_dfs.Coordinator.Upload.Keeps.{Uses, put_chunks-Uses}
use toy_dfs.Coordinator.Upload.Stored.{Stored, IsNumbered, Survives, round}
use toy_dfs.Coordinator.System.Chunks.{Stored-map, Stored-IsNumbered}
use toy_dfs.Coordinator.Concurrent.{Stage, started, looping, succeeded, failed, undefined, Call}

take_add : (a b : ℕ) (xs : Bytes) → take (a + b) xs ≡ take a xs ++ take b (drop a xs)
take_add zero b xs = ap (λ n. take n xs) (omega arith)
take_add (suc a) b [] = ap (λ n. take n []) more ∙ take_nil b
  where
    more : suc a + b ≡ suc (a + b)
    more = omega arith

    take_nil : (b : ℕ) → ◌≡◌ {A = Bytes} [] (take b [])
    take_nil zero = refl
    take_nil (suc b) = refl
take_add (suc a) b (x ∷ xs) = ap (λ n. take n (x ∷ xs)) more ∙ ap (λ r. x ∷ r) (take_add a b xs)
  where
    more : suc a + b ≡ suc (a + b)
    more = omega arith

-- The pieces before the i-th and the i-th are those before the next one.
take-piece :
    (i : ℕ) (file_data : Bytes)
    → take (i * chunk_size) file_data ++ piece i file_data ≡ take ((i + 1) * chunk_size) file_data
take-piece i file_data =
    sym (take_add (i * chunk_size) chunk_size file_data) ∙ ap (λ n. take n file_data) (omega arith)

pub take_all : (n : ℕ) (xs : Bytes) → length xs ≤ n → take n xs ≡ xs
take_all n xs h =
    sym (append-nil (take n xs))
    ∙ ap (λ r. take n xs ++ r) (sym (drop-zero_of_le n xs h))
    ∙ take-append-drop n xs

module _ {W : Type 0} (client : DataNodeClient W) (nodes : Nodes) (bound : ℕ) (w : W) where
  Stored-append :
      (xs ys : List ChunkInfo) (a b : Bytes)
      → Stored client nodes bound w xs a
      → Stored client nodes bound w ys b
      → Stored client nodes bound w (xs ++ ys) (a ++ b)
  Stored-append [] ys a b s t = subst (λ l. Stored client nodes bound w ys (l ++ b)) (sym s) t
  Stored-append (x ∷ xs) ys a b s t =
      let (here, rest, cut, some_node, number, named, below, held, more) = s in
      (
        here,
        rest ++ b,
        ap (λ l. l ++ b) cut ∙ simp append_assoc,
        some_node,
        number,
        named,
        below,
        held,
        Stored-append xs ys rest b more t,
      )

module _ {W : Type 0} (env : Environment W) (reliable : IsReliable env.client) where
  -- What holds of a call in the middle: its chunks so far hold its data so far.
  abbrev pub StageSound : Nodes → ℕ → W → Bytes → Stage → Type 0
  StageSound nodes bound w file_data started = length file_data ≤ max_file_size
  StageSound nodes bound w file_data (looping n i chunks) =
      ((i + n) * chunk_size ≤ int_max + chunk_size)
      × (length file_data ≤ (i + n) * chunk_size)
      × Stored env.client nodes bound w chunks (take (i * chunk_size) file_data)
  StageSound nodes bound w file_data (succeeded chunks) =
      Stored env.client nodes bound w chunks file_data
  StageSound nodes bound w file_data (failed st) = Unit {0}
  StageSound nodes bound w file_data undefined = ⊥

  abbrev pub CallSound : Coordinator → W → Call → Type 0
  CallSound c w call = StageSound c.registered_nodes c.chunk_id_counter w call.file_data call.stage

  Stored-Survives :
      (nodes nodes' : Nodes) (bound bound' : ℕ) (w w' : W) (chunks : List ChunkInfo)
      (content : Bytes)
      → nodes' ≡ nodes
      → bound ≤ bound'
      → Survives env reliable nodes bound w w'
      → Stored env.client nodes bound w chunks content
      → Stored env.client nodes' bound' w' chunks content
  Stored-Survives nodes nodes' bound bound' w w' chunks content same grows survives s =
      Stored-map env.client (IsNumbered 0 bound) nodes nodes' bound bound' w w' chunks content grows
        (Stored-IsNumbered env.client nodes bound w chunks content s)
        (λ chunk here id p numbered held.
          subst (λ ns. HasReplica env.client ns chunk.chunk_id here w' id) (sym same)
            (subst (λ name. HasReplica env.client nodes name here w' id) (sym numbered.1)
              (survives numbered.0 id here numbered.3
                (subst (λ name. HasReplica env.client nodes name here w id) numbered.1 held))))
        s

  -- The other calls do not notice a step.
  pub Uses-CallSound :
      (n : ℕ) (c c' : Coordinator) (w w' : W)
      → Uses env reliable n c c' w w'
      → (call : Call) → CallSound c w call
      → CallSound c' w' call
  Uses-CallSound n c c' w w' u call s = go call.stage s
    where
      kept :
          (chunks : List ChunkInfo) (content : Bytes)
          → Stored env.client c.registered_nodes c.chunk_id_counter w chunks content
          → Stored env.client c'.registered_nodes c'.chunk_id_counter w' chunks content
      kept chunks content =
          Stored-Survives c.registered_nodes c'.registered_nodes c.chunk_id_counter
            c'.chunk_id_counter w w' chunks content u.same_nodes u.grows u.survives

      go :
          (stage : Stage)
          → StageSound c.registered_nodes c.chunk_id_counter w call.file_data stage
          → StageSound c'.registered_nodes c'.chunk_id_counter w' call.file_data stage
      go started s = s
      go (looping k i chunks) s = (s.0, s.1, kept chunks _ s.2)
      go (succeeded chunks) s = kept chunks call.file_data s
      go (failed st) s = s
      go undefined s = s

  abbrev pub RoundSound : ℕ → Bytes → Loop × Coordinator × W → Type 0
  RoundSound i file_data (finished all, last, done) =
      Stored env.client last.registered_nodes last.chunk_id_counter done all
        (take ((i + 1) * chunk_size) file_data)
  RoundSound i file_data (stopped st, last, done) = Unit {0}
  RoundSound i file_data (Loop.undefined, last, done) = Unit {0}

  -- A round that goes on adds a chunk that holds the next piece.
  pub round-Stored :
      (i : ℕ) (file_data : Bytes) (chunks all : List ChunkInfo) (c last : Coordinator) (w done : W)
      → i * chunk_size ≤ int_max
      → c.chunk_id_counter < int_max
      → put_chunks env 1 i file_data chunks c w ≡ (finished all, last, done)
      → Stored env.client c.registered_nodes c.chunk_id_counter w chunks
          (take (i * chunk_size) file_data)
      → RoundSound i file_data (finished all, last, done)
  round-Stored i file_data chunks all c last w done fits room e s =
      let (ids, c', w', r, e') = round env reliable 0 i file_data chunks all c last w done fits e in
      let info = chunk_info c.chunk_id_counter ids in
      let after : ◌≡◌ {A = Loop × Coordinator × W} (finished (chunks ++ info ∷ []), c', w')
          (finished all, last, done) =
        unfold put_chunks in e' in
      let u : Uses env reliable 1 c c' w w' =
        subst (λ (t : Loop × Coordinator × W). Uses env reliable 1 c t.1 w t.2) (e ∙ sym after)
          (put_chunks-Uses env reliable 1 i file_data chunks c w (omega arith)) in
      subst (RoundSound i file_data) after (
        subst (Stored env.client c'.registered_nodes c'.chunk_id_counter w' (chunks ++ info ∷ []))
          (take-piece i file_data)
          (Stored-append env.client c'.registered_nodes c'.chunk_id_counter w' chunks (info ∷ []) _
            _
            (Stored-Survives c.registered_nodes c'.registered_nodes c.chunk_id_counter
              c'.chunk_id_counter w w' chunks _ u.same_nodes u.grows u.survives s)
            (
              piece i file_data,
              [],
              sym (append-nil (piece i file_data)),
              r.some_node,
              c.chunk_id_counter,
              refl,
              omega (arith, r.counted),
              subst
                  (λ ns.
                    All
                      (HasReplica env.client ns (chunk_name c.chunk_id_counter) (piece i file_data)
                        w')
                      ids)
                  (sym r.same_nodes) r.stored,
              refl,
            )))
