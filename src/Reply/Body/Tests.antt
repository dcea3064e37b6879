-- ===== src/Reply/Body/Tests.antt =====
-- src/reply/body.rs on a short pattern.
use mockinx.Common.{ℕ, ◌≡◌, ◌≢◌, refl, List, [], replicate}
use mockinx.Text.{str}
use mockinx.Error.{ok}
use mockinx.Reply.{BodySpec, pattern_of}
use mockinx.Reply.Body.{
  BodySources, BodyChunks, generate_body, generate_pattern, body_chunks, cycle_bytes,
}
use mockinx.Reply.Body.Chunks.{Joins, body_chunks-generate_body}

-- Text in ASCII, a generator of zeros and no files.
abbrev plain : BodySources
plain = record {
  as_bytes = λ s. s;
  to_vec = λ v. [];
  StdRng = ℕ;
  seed_from_u64 = λ seed. seed;
  fill = λ n rng. (replicate n 0, rng);
  read = λ path. [];
  file_len = λ path. 0;
}

abbrev abc_five : BodySpec
abc_five = pattern_of (str "abc") (record { bytes = 5 })

five : generate_body plain abc_five ≡ ok (str "abcab")
unfolding generate_body generate_pattern cycle_bytes str
five = refl

abc_nonempty : str "abc" ≢ []
unfolding str
abc_nonempty e = cc e

body_chunks-generate_body_example :
    (c : BodyChunks plain) × (whole : List ℕ) × (body_chunks plain abc_five 2 ≡ ok c)
    × (generate_body plain abc_five ≡ ok whole)
    × Joins plain c whole
body_chunks-generate_body_example = body_chunks-generate_body plain abc_five 2 abc_nonempty
