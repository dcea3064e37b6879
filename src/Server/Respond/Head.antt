-- ===== src/Server/Respond/Head.antt =====
-- src/server.rs: the status and the headers of a response.
use mockinx.Common.{
  ℕ, true, false, Option, none, some, List, [], ◌∷◌, ◌++◌, ◌≡◌, ◌≢◌, refl, ◌∙◌, Bool-cases, inl,
  inr, if◌then◌else◌, arith,
}
use mockinx.Text.{Text, str, text_eq, text_eq_iff, text_eq_refl, eq_ignore_ascii_case}
use mockinx.Error.{ok}
use mockinx.Json.{Map, as_str, keys, array, object, string, null, bool, number}
use mockinx.Reply.{ReplySpec, BodySpec, no_body, literal, rand, pattern_of, reflect, file}
use mockinx.Reply.Body.{BodySources, generate_body}
use mockinx.Server.Handle.{infer_content_type, any_content_type, type_of}
use mockinx.Server.Respond.{
  Headers, HttpApi, HttpLaws, building, failed, full, header, add_inferred, head_of,
  build_reply_response, status_response,
}
use mockinx.Server.Respond.Headers.{
  converted, valid_header, add_headers-building, add_headers-failed, valid_headers,
  inferred_headers,
}

-- The values of the headers named content-type.
abbrev pub content_types : Headers → List (List ℕ)
content_types [] = []
content_types ((name, value) ∷ rest) =
    if text_eq name (str "content-type") then value ∷ content_types rest else content_types rest

module _ (http : HttpApi) where
  open http use {is_status, header_name, header_value}

  type_of-value :
      (laws : HttpLaws http) (b : BodySpec) (ct : Text)
      → type_of b ≡ some ct
      → header_value ct ≡ some ct
  type_of-value laws (literal (object m)) ct e = cc (e, laws.json_type)
  type_of-value laws (literal (array vs)) ct e = cc (e, laws.json_type)
  type_of-value laws (literal (string s)) ct e = cc (e, laws.text_type)
  type_of-value laws (literal null) ct e = cc e
  type_of-value laws (literal (bool b)) ct e = cc e
  type_of-value laws (literal (number n)) ct e = cc e
  type_of-value laws no_body ct e = cc e
  type_of-value laws (rand size seed) ct e = cc e
  type_of-value laws (pattern_of repeat size) ct e = cc e
  type_of-value laws (reflect fields) ct e = cc e
  type_of-value laws (file path) ct e = cc e

  infer_content_type-value :
      (laws : HttpLaws http) (reply : ReplySpec) (ct : Text)
      → infer_content_type reply ≡ some ct
      → header_value ct ≡ some ct
  unfolding infer_content_type
  infer_content_type-value laws reply ct e =
      elim (Bool-cases (any_content_type (keys reply.headers))) [
        | inl own ↦ ground arith
        | inr bare ↦ type_of-value laws reply.body ct (ground arith)
      ]

  name-content_type : HttpLaws http → header_name (str "content-type") ≡ some (str "content-type")
  unfolding eq_ignore_ascii_case str
  name-content_type laws = (laws.names (str "content-type")).0 refl

  add_inferred-building :
      (laws : HttpLaws http) (inferred : Option Text) (code : ℕ)
      → ((ct : Text) → inferred ≡ some ct → header_value ct ≡ some ct)
      → add_inferred http inferred (building code [])
        ≡ building code (inferred_headers http inferred)
  add_inferred-building laws none code h = refl
  add_inferred-building laws (some ct) code h = rw (name-content_type laws, h ct refl) refl

  -- The headers of the response to a reply whose status is accepted.
  abbrev pub response_headers : ReplySpec → Headers
  response_headers reply =
      inferred_headers http (infer_content_type reply) ++ valid_headers http reply.headers

  head_of-building :
      (laws : HttpLaws http) (reply : ReplySpec)
      → is_status reply.status ≡ true
      → head_of http reply ≡ building reply.status (response_headers reply)
  unfolding head_of
  head_of-building laws reply valid =
      let inferred =
        add_inferred-building laws (infer_content_type reply) reply.status
          (infer_content_type-value laws reply) in
      rw (valid, inferred)
        (add_headers-building http reply.headers reply.status
          (inferred_headers http (infer_content_type reply)))

  add_inferred-failed : (inferred : Option Text) → add_inferred http inferred failed ≡ failed
  add_inferred-failed none = refl
  add_inferred-failed (some ct) = header-failed (header_name (str "content-type")) (header_value ct)
    where
      header-failed :
          (name : Option Text) (value : Option (List ℕ)) → header name value failed ≡ failed
      header-failed (some name) (some value) = refl
      header-failed (some name) none = refl
      header-failed none value = refl

  head_of-failed :
      (reply : ReplySpec) → is_status reply.status ≡ false → head_of http reply ≡ failed
  unfolding head_of
  head_of-failed reply invalid =
      rw (invalid, add_inferred-failed (infer_content_type reply))
        (add_headers-failed http reply.headers)

  content_types-append :
      (hs gs : Headers) → content_types (hs ++ gs) ≡ content_types hs ++ content_types gs
  content_types-append [] gs = refl
  content_types-append ((name, value) ∷ hs) gs = ground (arith, content_types-append hs gs)

  converted-other :
      (name : Option Text) (value : Option (List ℕ))
      → name ≢ some (str "content-type")
      → content_types (converted http name value) ≡ []
  converted-other (some n) (some v) other =
      ground (arith, text_eq_iff n (str "content-type"), other)
  converted-other (some n) none other = refl
  converted-other none value other = refl

  valid_header-other :
      (laws : HttpLaws http) (key : Text) (val : Option Text)
      → eq_ignore_ascii_case key (str "content-type") ≡ false
      → content_types (valid_header http key val) ≡ []
  valid_header-other laws key none other = refl
  valid_header-other laws key (some v) other =
      converted-other (header_name key) (header_value v) (λ e. cc ((laws.names key).1 e))

  valid_headers-bare :
      (laws : HttpLaws http) (m : Map)
      → any_content_type (keys m) ≡ false
      → content_types (valid_headers http m) ≡ []
  valid_headers-bare laws [] bare = refl
  valid_headers-bare laws ((key, val) ∷ rest) bare =
      let here : eq_ignore_ascii_case key (str "content-type") ≡ false = ground arith in
      let later : any_content_type (keys rest) ≡ false = ground arith in
      content_types-append (valid_header http key (as_str val)) (valid_headers http rest)
      ∙ rw (valid_header-other laws key (as_str val) here) (valid_headers-bare laws rest later)

  infer_content_type-bare :
      (reply : ReplySpec) (ct : Text)
      → infer_content_type reply ≡ some ct
      → any_content_type (keys reply.headers) ≡ false
  unfolding infer_content_type
  infer_content_type-bare reply ct e = ground arith

  inferred-content_types :
      (laws : HttpLaws http) (reply : ReplySpec) (ct : Text)
      → infer_content_type reply ≡ some ct
      → content_types (response_headers reply) ≡ ct ∷ []
  inferred-content_types laws reply ct e =
      let bare = valid_headers-bare laws reply.headers (infer_content_type-bare reply ct e) in
      rw (e, text_eq_refl (str "content-type"), bare) refl

  -- A reply whose body is generated and whose status the crate http does not accept is answered 500 and
  -- nothing else. With any other status it is sent with that status, the inferred content type if
  -- there is one, those of its headers that are strings and valid, in their order, and its body's
  -- bytes; and a content type that is inferred is then the only one.
  pub build_reply_response-cases :
      (src : BodySources) (laws : HttpLaws http) (reply : ReplySpec) (bytes : List ℕ)
      → generate_body src reply.body ≡ ok bytes
      → (is_status reply.status ≡ false
          → build_reply_response http src reply ≡ ok (status_response 500))
        × (is_status reply.status ≡ true
            → build_reply_response http src reply
              ≡ ok (record {
                status = reply.status;
                headers = response_headers reply;
                body = full bytes;
              }))
        × ((ct : Text)
            → infer_content_type reply ≡ some ct
            → content_types (response_headers reply) ≡ ct ∷ [])
  unfolding build_reply_response
  build_reply_response-cases src laws reply bytes generated = (
    λ invalid. rw (generated, head_of-failed reply invalid) refl,
    λ valid. rw (generated, head_of-building laws reply valid) refl,
    inferred-content_types laws reply,
  )
