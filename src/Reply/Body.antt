-- ===== src/Reply/Body.antt =====
-- src/reply/body.rs: the bytes of a body, whole and in chunks. UTF-8, the printing of values, the seeded
-- generator and the file system are parameters.
pub mod Pattern
pub mod Chunks
mod Tests
use mockinx.Common.{
  ℕ, zero, suc, ◌+◌, ◌-◌, ◌%◌, ◌==◌, Bool, true, false, Option, none, some, List, [], ◌∷◌, min, max,
  length, get_elem?, take, drop, leb, if◌then◌else◌,
}
use mockinx.Text.{Text}
use mockinx.Error.{Result, ok, panicked, ◌>>=◌, or_panic}
use mockinx.Units.{ByteSize}
use mockinx.Json.{Value, string}
use mockinx.Reply.{BodySpec, no_body, literal, rand, pattern_of, reflect, file}

pub record BodySources : Type 1 where
  pub as_bytes : Text → List ℕ
  pub to_vec : Value → List ℕ
  pub StdRng : Type 0
  pub seed_from_u64 : ℕ → StdRng
  pub fill : ℕ → StdRng → List ℕ × StdRng
  -- the contents, or the text of the error
  pub read : Text → List ℕ
  -- the size that the metadata gives, or 0
  pub file_len : Text → ℕ

-- The loop over `pattern.iter().cycle()`; `ahead` is what is left of the round.
unfoldable pub cycle_bytes : ℕ → List ℕ → List ℕ → Result (List ℕ)
cycle_bytes zero ahead pattern = ok []
cycle_bytes (suc n) (b ∷ ahead) pattern = cycle_bytes n ahead pattern >>= λ bs. ok (b ∷ bs)
cycle_bytes (suc n) [] [] = panicked
cycle_bytes (suc n) [] (b ∷ pattern) = cycle_bytes n pattern (b ∷ pattern) >>= λ bs. ok (b ∷ bs)

-- `pat[i % pat.len()]`
abbrev pub byte_at : List ℕ → ℕ → Result ℕ
byte_at pattern i =
    if length pattern == 0 then panicked else or_panic (get_elem? pattern (i % length pattern))

unfoldable pub pattern_from : ℕ → ℕ → List ℕ → Result (List ℕ)
pattern_from offset zero pattern = ok []
pattern_from offset (suc n) pattern =
    byte_at pattern offset >>= λ b. pattern_from (suc offset) n pattern >>= λ bs. ok (b ∷ bs)

-- `data[offset..offset + len]`
abbrev pub slice : List ℕ → ℕ → ℕ → Result (List ℕ)
slice bytes offset len =
    if leb (offset + len) (length bytes) then ok (take len (drop offset bytes)) else panicked

module _ (src : BodySources) where
  unfoldable pub generate_rand : ℕ → ℕ → List ℕ
  generate_rand size seed = (src.fill size (src.seed_from_u64 seed)).0

  unfoldable pub generate_pattern : Text → ℕ → Result (List ℕ)
  unfolding cycle_bytes
  generate_pattern repeat size =
      let pattern = src.as_bytes repeat in
      let cycled = cycle_bytes size pattern pattern in if size == 0 then ok [] else cycled

  unfoldable pub generate_body : BodySpec → Result (List ℕ)
  unfolding generate_rand generate_pattern
  generate_body no_body = ok []
  generate_body (literal (string s)) = ok (src.as_bytes s)
  generate_body (literal v) = ok (src.to_vec v)
  generate_body (rand size seed) = ok (generate_rand size.bytes seed)
  generate_body (pattern_of repeat size) = generate_pattern repeat size.bytes
  generate_body (reflect fields) = panicked
  generate_body (file path) = ok (src.read path)

  unfoldable pub body_size : BodySpec → Result ℕ
  body_size no_body = ok 0
  body_size (literal (string s)) = ok (length (src.as_bytes s))
  body_size (literal v) = ok (length (src.to_vec v))
  body_size (rand size seed) = ok size.bytes
  body_size (pattern_of repeat size) = ok size.bytes
  body_size (reflect fields) = panicked
  body_size (file path) = ok (src.file_len path)

  -- What a chunk is cut from: one of the three optional fields of the source's record, which its
  -- specification selects, or nothing.
  pub data ChunkSource : Type 0 where
    nothing : ChunkSource
    random : src.StdRng → ChunkSource
    pattern : List ℕ → ChunkSource
    stored : List ℕ → ChunkSource

  pub record BodyChunks : Type 0 where
    pub source : ChunkSource
    pub chunk_size : ℕ
    pub offset : ℕ
    pub total_size : ℕ

  unfoldable pub chunk_source : BodySpec → Result ChunkSource
  unfolding generate_body
  chunk_source no_body = ok nothing
  chunk_source (literal v) = generate_body (literal v) >>= λ bytes. ok (stored bytes)
  chunk_source (rand size seed) = ok (random (src.seed_from_u64 seed))
  chunk_source (pattern_of repeat size) = ok (pattern (src.as_bytes repeat))
  chunk_source (reflect fields) = panicked
  chunk_source (file path) = generate_body (file path) >>= λ bytes. ok (stored bytes)

  unfoldable pub body_chunks : BodySpec → ℕ → Result BodyChunks
  unfolding body_size chunk_source
  body_chunks spec chunk_size = do
    total_size ← body_size spec
    source ← chunk_source spec
    ok (record {
      source = source;
      chunk_size = max chunk_size 1;
      offset = 0;
      total_size = total_size;
    })

  -- The bytes of the next chunk, and what the later ones are cut from.
  unfoldable pub cut : ChunkSource → ℕ → ℕ → Result (Option (List ℕ) × ChunkSource)
  unfolding pattern_from
  cut nothing offset len = ok (none, nothing)
  cut (random rng) offset len = let (bytes, rng') = src.fill len rng in ok (some bytes, random rng')
  cut (pattern pat) offset len = pattern_from offset len pat >>= λ bs. ok (some bs, pattern pat)
  cut (stored data') offset len = slice data' offset len >>= λ bs. ok (some bs, stored data')

  abbrev advanced : BodyChunks → ℕ → Option (List ℕ) × ChunkSource → Option (List ℕ) × BodyChunks
  advanced c len (none, source) = (none, c)
  advanced c len (some bytes, source) =
      (some bytes, record c { source = source; offset = c.offset + len })

  -- `Iterator::next`
  unfoldable pub next_chunk : BodyChunks → Result (Option (List ℕ) × BodyChunks)
  unfolding cut
  next_chunk c =
      let len = min (c.total_size - c.offset) c.chunk_size in
      let r = cut c.source c.offset len >>= λ p. ok (advanced c len p) in
      if leb c.total_size c.offset then ok (none, c) else r
