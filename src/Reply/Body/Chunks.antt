-- ===== src/Reply/Body/Chunks.antt =====
-- src/reply/body.rs: the chunks of a pattern and of a literal against the whole body.
use native.Mathlib.Nat.{zero-mod}
use mockinx.Common.{
  ℕ, zero, suc, ◌+◌, ◌-◌, ◌%◌, ◌<◌, ◌≤◌, ◌≡◌, ◌≢◌, ◌==◌, refl, sym, ap, ◌∙◌, inl, inr, false,
  Option, none, some, List, [], ◌∷◌, ◌++◌, min, max, length, take, drop, leb, arith, Bool-cases,
  take-append-take, drop-drop,
}
use mockinx.Text.{Text}
use mockinx.Error.{Result, ok, panicked, ◌>>=◌}
use mockinx.Json.{Value, null, bool, number, string, array, object}
use mockinx.Reply.{BodySpec, no_body, literal, rand, pattern_of, reflect, file}
use mockinx.Reply.Body.{
  generate_body, generate_pattern, body_size, body_chunks, chunk_source, BodySources, ChunkSource,
  BodyChunks, next_chunk, cut, advanced, cycle_bytes,
}
use mockinx.Reply.Body.Pattern.{cycle_bytes-eq, pattern_bytes, pattern_from-eq, pattern_bytes-add}

module _ (src : BodySources) where
  -- The chunks of an iterator, joined; it panics where the fuel runs out.
  abbrev join_chunk : Option (List ℕ) → Result (List ℕ) → Result (List ℕ)
  join_chunk none later = ok []
  join_chunk (some bytes) later = later >>= λ rest. ok (bytes ++ rest)

  unfoldable pub collect_chunks : ℕ → BodyChunks src → Result (List ℕ)
  collect_chunks zero c = panicked
  collect_chunks (suc fuel) c =
      next_chunk src c >>= λ (chunk, c'). join_chunk chunk (collect_chunks fuel c')

  -- A source whose chunks depend on the place only: `bytes o n` are the `n` bytes at `o`.
  record IsSteady (source : ChunkSource src) (total : ℕ) (bytes : ℕ → ℕ → List ℕ) : Type 0 where
    cut-eq : (o n : ℕ) → o + n ≤ total → cut src source o n ≡ ok (some (bytes o n), source)
    add-eq : (o m n : ℕ) → o + (m + n) ≤ total → bytes o (m + n) ≡ bytes o m ++ bytes (o + m) n
    none-eq : (o : ℕ) → bytes o 0 ≡ []

  collect_chunks-IsSteady :
      (fuel o : ℕ) (source : ChunkSource src) (size total : ℕ) (bytes : ℕ → ℕ → List ℕ)
      → IsSteady source total bytes
      → 0 < size
      → o ≤ total
      → total - o < fuel
      → collect_chunks fuel
          (record { source = source; chunk_size = size; offset = o; total_size = total })
        ≡ ok (bytes o (total - o))
  unfolding collect_chunks next_chunk
  collect_chunks-IsSteady zero o source size total bytes st pos le enough = absurd (omega arith)
  collect_chunks-IsSteady (suc fuel) o source size total bytes st pos le enough =
      elim (Bool-cases (leb total o)) [
        | inl done ↦
            let empty : total - o ≡ 0 = ground arith in
            rw done (ap ok (sym (ap (bytes o) empty ∙ st.none-eq o)))
        | inr more ↦
            let len = min (total - o) size in
            let c : BodyChunks src = record {
              source = source;
              chunk_size = size;
              offset = o;
              total_size = total;
            } in
            let c' : BodyChunks src = record {
              source = source;
              chunk_size = size;
              offset = o + len;
              total_size = total;
            } in
            let next : next_chunk src c ≡ ok (some (bytes o len), c') =
              rw more
                (ap (λ r. r >>= λ p. ok (advanced src c len p)) (st.cut-eq o len (ground arith))) in
            let ih =
              collect_chunks-IsSteady fuel (o + len) source size total bytes st pos (ground arith)
                (ground arith) in
            let rest : len + (total - (o + len)) ≡ total - o = ground arith in
            ap (λ r. r >>= λ x. join_chunk x.0 (collect_chunks fuel x.1)) next
            ∙ ap (join_chunk (some (bytes o len))) ih
            ∙ ap ok (sym (st.add-eq o len (total - (o + len)) (ground arith)))
            ∙ ap (λ k. ok (bytes o k)) rest
      ]

  pattern-IsSteady :
      (total b : ℕ) (pat : List ℕ)
      → IsSteady (ChunkSource.pattern (b ∷ pat)) total (λ o n. pattern_bytes o n b pat)
  unfolding cut
  pattern-IsSteady total b pat = record {
    cut-eq = λ o n h.
        ap (λ r. r >>= λ bs. ok (some bs, ChunkSource.pattern (b ∷ pat)))
          (pattern_from-eq o n b pat);
    add-eq = λ o m n h. pattern_bytes-add o m n b pat;
    none-eq = λ o. unfold pattern_bytes in refl;
  }

  stored-IsSteady :
      (data' : List ℕ)
      → IsSteady (ChunkSource.stored data') (length data') (λ o n. take n (drop o data'))
  unfolding cut
  stored-IsSteady data' = record {
    cut-eq = λ o n h. ground arith;
    add-eq = λ o m n h.
        sym (take-append-take m n (drop o data'))
        ∙ ap (λ r. take m (drop o data') ++ take n r) (drop-drop o m data');
    none-eq = λ o. refl;
  }

  all_left : (n : ℕ) → n - 0 ≡ n
  all_left n = omega arith

  take-length : (xs : List ℕ) → take (length xs) xs ≡ xs
  take-length [] = refl
  take-length (x ∷ xs) = ap (◌∷◌ x) (take-length xs)

  -- Bodies that are nothing, a literal, or a pattern that is not empty.
  abbrev pub HasChunks : BodySpec → Type 0
  HasChunks no_body = Unit
  HasChunks (literal v) = Unit
  HasChunks (pattern_of repeat size) = src.as_bytes repeat ≢ []
  HasChunks (rand size seed) = ⊥
  HasChunks (reflect fields) = ⊥
  HasChunks (file path) = ⊥

  abbrev pub Joins : BodyChunks src → List ℕ → Type 0
  Joins c whole = (fuel : ℕ) → c.total_size < fuel → collect_chunks fuel c ≡ ok whole

  stored-Joins :
      (data' : List ℕ) (size : ℕ)
      → 0 < size
      → Joins
          (record {
            source = ChunkSource.stored data';
            chunk_size = size;
            offset = 0;
            total_size = length data';
          })
          data'
  stored-Joins data' size pos fuel h =
      collect_chunks-IsSteady fuel 0 (ChunkSource.stored data') size (length data') _
        (stored-IsSteady data') pos (omega arith) (omega arith)
      ∙ ap ok (ap (λ n. take n data') (all_left (length data')) ∙ take-length data')

  pattern-Joins :
      (pat : List ℕ) (size total : ℕ)
      → pat ≢ []
      → 0 < size
      → (whole : List ℕ) × (cycle_bytes total pat pat ≡ ok whole)
        × Joins
            (record {
              source = ChunkSource.pattern pat;
              chunk_size = size;
              offset = 0;
              total_size = total;
            })
            whole
  pattern-Joins [] size total h pos = absurd (h refl)
  pattern-Joins (b ∷ pat) size total h pos = (
    pattern_bytes 0 total b pat,
    cycle_bytes-start total b pat ∙ cycle_bytes-eq total 0 b pat ∙ pattern_from-eq 0 total b pat,
    λ fuel k.
        collect_chunks-IsSteady fuel 0 (ChunkSource.pattern (b ∷ pat)) size total _
          (pattern-IsSteady total b pat) pos (omega arith) (omega arith)
        ∙ ap (λ n. ok (pattern_bytes 0 n b pat)) (all_left total),
  )
    where
      cycle_bytes-start :
          (n b' : ℕ) (pat' : List ℕ)
          → cycle_bytes n (b' ∷ pat') (b' ∷ pat')
            ≡ cycle_bytes n (drop (0 % suc (length pat')) (b' ∷ pat')) (b' ∷ pat')
      cycle_bytes-start n b' pat' =
          ap (λ k. cycle_bytes n (drop k (b' ∷ pat')) (b' ∷ pat'))
            (sym (zero-mod (suc (length pat'))))

  none-Joins :
      (size : ℕ)
      → Joins
          (record { source = ChunkSource.nothing; chunk_size = size; offset = 0; total_size = 0 })
          []
  unfolding collect_chunks next_chunk
  none-Joins size zero h = absurd (omega arith)
  none-Joins size (suc fuel) h = refl

  literal_bytes :
      (v : Value)
      → (bytes : List ℕ) × (generate_body src (literal v) ≡ ok bytes)
        × (body_size src (literal v) ≡ ok (length bytes))
  unfolding generate_body body_size
  literal_bytes null = (_, refl, refl)
  literal_bytes (bool b) = (_, refl, refl)
  literal_bytes (number n) = (_, refl, refl)
  literal_bytes (string s) = (_, refl, refl)
  literal_bytes (array vs) = (_, refl, refl)
  literal_bytes (object m) = (_, refl, refl)

  generate_pattern-eq :
      (repeat : Text) (n : ℕ)
      → generate_pattern src repeat n ≡ cycle_bytes n (src.as_bytes repeat) (src.as_bytes repeat)
  unfolding generate_pattern cycle_bytes
  generate_pattern-eq repeat zero = refl
  generate_pattern-eq repeat (suc n) =
      let some_left : (suc n == 0) ≡ false = ground arith in rw some_left refl

  body_chunks-literal :
      (v : Value) (chunk_size : ℕ) (bytes : List ℕ)
      → generate_body src (literal v) ≡ ok bytes
      → body_size src (literal v) ≡ ok (length bytes)
      → body_chunks src (literal v) chunk_size
        ≡ ok (record {
          source = ChunkSource.stored bytes;
          chunk_size = max chunk_size 1;
          offset = 0;
          total_size = length bytes;
        })
  unfolding body_chunks chunk_source
  body_chunks-literal v chunk_size bytes whole sized = rw (sized, whole) refl

  -- The chunks of a body that is nothing, a literal or a pattern that is not empty join up to the body
  -- as it is generated whole, for any chunk size; neither panics, and the iterator ends after no more
  -- chunks than the body has bytes.
  pub body_chunks-generate_body :
      (spec : BodySpec) (chunk_size : ℕ)
      → HasChunks spec
      → (c : BodyChunks src) × (whole : List ℕ) × (body_chunks src spec chunk_size ≡ ok c)
        × (generate_body src spec ≡ ok whole)
        × Joins c whole
  unfolding body_chunks body_size chunk_source generate_body
  body_chunks-generate_body no_body chunk_size h =
      (_, [], refl, refl, none-Joins (max chunk_size 1))
  body_chunks-generate_body (literal v) chunk_size h =
      let (bytes, whole, sized) = literal_bytes v in
      (
        record {
          source = ChunkSource.stored bytes;
          chunk_size = max chunk_size 1;
          offset = 0;
          total_size = length bytes;
        },
        bytes,
        body_chunks-literal v chunk_size bytes whole sized,
        whole,
        stored-Joins bytes (max chunk_size 1) (omega arith),
      )
  body_chunks-generate_body (pattern_of repeat size) chunk_size h =
      let (whole, cycled, joins) =
        pattern-Joins (src.as_bytes repeat) (max chunk_size 1) size.bytes h (omega arith) in
      (_, whole, refl, generate_pattern-eq repeat size.bytes ∙ cycled, joins)
  body_chunks-generate_body (rand size seed) chunk_size h = absurd h
  body_chunks-generate_body (reflect fields) chunk_size h = absurd h
  body_chunks-generate_body (file path) chunk_size h = absurd h
