-- ===== src/Server/Respond/Reflected.antt =====
-- src/server.rs: which replies panic when they are sent.
use mockinx.Common.{
  ℕ, zero, suc, ◌<◌, ◌≡◌, ◌↔◌, refl, sym, subst, Option, List, [], ◌∷◌, length, arith, Bool-cases,
  inl, inr, ◌==◌,
}
use mockinx.Text.{Text}
use mockinx.Error.{ok, panicked}
use mockinx.Json.{SerdeJson, string, null, bool, number, array, object, json_object}
use mockinx.Reply.{ReplySpec, BodySpec, no_body, literal, rand, pattern_of, reflect, file}
use mockinx.Reply.Body.{BodySources, cycle_bytes, generate_pattern, generate_body}
use mockinx.Server.Reflect.{Request, resolve_reflect, resolve_body}
use mockinx.Server.Respond.{Response, HttpApi, build_reply_response, finish, full, head_of}

-- The text of a pattern has a byte, as the parser requires.
abbrev pub IsRepeatable : BodySources → BodySpec → Type 0
IsRepeatable src (pattern_of repeat size) = 0 < length (src.as_bytes repeat)
IsRepeatable src (no_body) = Unit
IsRepeatable src (literal v) = Unit
IsRepeatable src (rand size seed) = Unit
IsRepeatable src (reflect fields) = Unit
IsRepeatable src (file path) = Unit

-- The body is a `reflect!`.
abbrev pub IsReflect : BodySpec → Type 0
IsReflect (reflect fields) = Unit
IsReflect _ = ⊥

cycle_bytes-total :
    (n : ℕ) (ahead pattern : List ℕ)
    → 0 < length pattern
    → (bytes : List ℕ) × (cycle_bytes n ahead pattern ≡ ok bytes)
unfolding cycle_bytes
cycle_bytes-total zero ahead pattern pos = ([], refl)
cycle_bytes-total (suc n) (b ∷ ahead) pattern pos =
    let (bytes, e) = cycle_bytes-total n ahead pattern pos in (b ∷ bytes, rw e refl)
cycle_bytes-total (suc n) [] [] pos = absurd (omega arith)
cycle_bytes-total (suc n) [] (b ∷ pattern) pos =
    let (bytes, e) = cycle_bytes-total n pattern (b ∷ pattern) pos in (b ∷ bytes, rw e refl)

generate_pattern-total :
    (src : BodySources) (repeat : Text) (size : ℕ)
    → 0 < length (src.as_bytes repeat)
    → (bytes : List ℕ) × (generate_pattern src repeat size ≡ ok bytes)
unfolding generate_pattern
generate_pattern-total src repeat size pos =
    let (bytes, e) = cycle_bytes-total size (src.as_bytes repeat) (src.as_bytes repeat) pos in
    elim (Bool-cases (size == 0)) [
      | inl none_wanted ↦ ([], rw none_wanted refl)
      | inr some_wanted ↦ (bytes, rw (some_wanted, e) refl)
    ]

-- A body is generated, or it is a `reflect!` and panics.
abbrev pub Generates : BodySources → BodySpec → Type 0
Generates src b = (bytes : List ℕ) × (generate_body src b ≡ ok bytes)

generate_body-Generates :
    (src : BodySources) (b : BodySpec) → IsRepeatable src b → ¬ IsReflect b → Generates src b
unfolding generate_body
generate_body-Generates src no_body h n = ([], refl)
generate_body-Generates src (literal null) h n = (_, refl)
generate_body-Generates src (literal (bool b)) h n = (_, refl)
generate_body-Generates src (literal (number k)) h n = (_, refl)
generate_body-Generates src (literal (string s)) h n = (_, refl)
generate_body-Generates src (literal (array vs)) h n = (_, refl)
generate_body-Generates src (literal (object m)) h n = (_, refl)
generate_body-Generates src (rand size seed) h n = (_, refl)
generate_body-Generates src (pattern_of repeat size) h n =
    generate_pattern-total src repeat size.bytes h
generate_body-Generates src (reflect fields) h n = absurd (n tt)
generate_body-Generates src (file path) h n = (_, refl)

module _ (http : HttpApi) (src : BodySources) (json : SerdeJson)
    (from_utf8 : List ℕ → Option Text) where
  resolve_body-Generates :
      (req : Request) (reply : ReplySpec) (b : BodySpec)
      → reply.body ≡ b
      → IsRepeatable src b
      → Generates src (resolve_body json from_utf8 req reply b).body
  unfolding generate_body json_object
  resolve_body-Generates req reply (reflect fields) e h = (_, refl)
  resolve_body-Generates req reply no_body e h =
      subst (Generates src) (sym e) (generate_body-Generates src no_body h (λ n. n))
  resolve_body-Generates req reply (literal v) e h =
      subst (Generates src) (sym e) (generate_body-Generates src (literal v) h (λ n. n))
  resolve_body-Generates req reply (rand size seed) e h =
      subst (Generates src) (sym e) (generate_body-Generates src (rand size seed) h (λ n. n))
  resolve_body-Generates req reply (pattern_of repeat size) e h =
      subst (Generates src) (sym e)
        (generate_body-Generates src (pattern_of repeat size) h (λ n. n))
  resolve_body-Generates req reply (file path) e h =
      subst (Generates src) (sym e) (generate_body-Generates src (file path) h (λ n. n))

  pub resolve_reflect-Generates :
      (req : Request) (reply : ReplySpec)
      → IsRepeatable src reply.body
      → Generates src (resolve_reflect json from_utf8 req reply).body
  unfolding resolve_reflect
  resolve_reflect-Generates req reply h = resolve_body-Generates req reply reply.body refl h

  pub sends :
      (reply : ReplySpec) (b : BodySpec) (bytes : List ℕ)
      → reply.body ≡ b
      → generate_body src b ≡ ok bytes
      → build_reply_response http src reply ≡ ok (finish (full bytes) (head_of http reply))
  unfolding build_reply_response
  sends reply b bytes e made = rw (e, made) refl

  build_reply_response-panics :
      (reply : ReplySpec) (b : BodySpec)
      → reply.body ≡ b
      → IsRepeatable src b
      → build_reply_response http src reply ≡ panicked ↔ IsReflect b
  unfolding build_reply_response generate_body
  build_reply_response-panics reply (reflect fields) e h = (λ p. tt, λ t. rw e refl)
  build_reply_response-panics reply no_body e h =
      let (bytes, made) = generate_body-Generates src no_body h (λ n. n) in
      (λ p. cc (p, sends reply no_body bytes e made), λ n. absurd n)
  build_reply_response-panics reply (literal v) e h =
      let (bytes, made) = generate_body-Generates src (literal v) h (λ n. n) in
      (λ p. cc (p, sends reply (literal v) bytes e made), λ n. absurd n)
  build_reply_response-panics reply (rand size seed) e h =
      let (bytes, made) = generate_body-Generates src (rand size seed) h (λ n. n) in
      (λ p. cc (p, sends reply (rand size seed) bytes e made), λ n. absurd n)
  build_reply_response-panics reply (pattern_of repeat size) e h =
      let (bytes, made) = generate_body-Generates src (pattern_of repeat size) h (λ n. n) in
      (λ p. cc (p, sends reply (pattern_of repeat size) bytes e made), λ n. absurd n)
  build_reply_response-panics reply (file path) e h =
      let (bytes, made) = generate_body-Generates src (file path) h (λ n. n) in
      (λ p. cc (p, sends reply (file path) bytes e made), λ n. absurd n)

  -- A reply that reflects the request is sent without a panic once `resolve_reflect` has been applied to
  -- it, as every other reply is; a reply that it is not applied to, as those of chaos and of a refusal,
  -- panics exactly if its body is a `reflect!`. The text of a pattern has to have a byte.
  pub resolve_reflect-sends :
      (req : Request) (reply : ReplySpec)
      → IsRepeatable src reply.body
      → ((r : Response) × (build_reply_response http src (resolve_reflect json from_utf8 req reply)
            ≡ ok r))
        × (build_reply_response http src reply ≡ panicked ↔ IsReflect reply.body)
  resolve_reflect-sends req reply h =
      let resolved = resolve_reflect json from_utf8 req reply in
      let (bytes, made) = resolve_reflect-Generates req reply h in
      (
        (_, sends resolved resolved.body bytes refl made),
        build_reply_response-panics reply reply.body refl h,
      )
