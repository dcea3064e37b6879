-- ===== src/Server/Reflect.antt =====
-- src/server.rs: a reply that reflects the request, and the decoding of its query.
mod Tests
use mockinx.Common.{
  ℕ, ◌+◌, ◌-◌, ◌*◌, ◌/◌, ◌%◌, ◌<◌, ◌≡◌, refl, ap, Bool, true, false, ◌&&◌, Option, none, some, List,
  [], ◌∷◌, ◌++◌, ◌==◌, leb, ltb, if◌then◌else◌, arith, All,
}
use mockinx.Text.{Text, str, split, split_once}
use mockinx.Json.{Value, null, string, SerdeJson, Map, json_object, insert, contains_key}
use mockinx.Reply.{ReflectField, ReplySpec, BodySpec, reflect, literal}

abbrev between : ℕ → ℕ → ℕ → Bool
between lo hi c = leb lo c && leb c hi

-- `to_digit(16)`
unfoldable pub to_digit : ℕ → Option ℕ
to_digit c =
    if between b'0' b'9' c
    then some (c - b'0')
    else if between b'a' b'f' c
    then some (c - b'a' + 10)
    else if between b'A' b'F' c
    then some (c - b'A' + 10)
    else none

-- Two bytes behind a percent sign: both are consumed, and without two digits nothing is pushed.
abbrev escaped : Option ℕ → Option ℕ → Text → Text
escaped (some h) (some l) rest = (h * 16 + l) ∷ rest
escaped _ _ rest = rest

-- The query is a list of bytes; a byte that is pushed is the character of that number.
unfoldable pub urldecode : List ℕ → Text
unfolding to_digit
urldecode [] = []
urldecode (b ∷ []) = if b == b'+' then b' ' ∷ [] else if b == b'%' then [] else b ∷ []
urldecode (b ∷ h ∷ []) =
    let rest = urldecode (h ∷ []) in
    if b == b'+' then b' ' ∷ rest else if b == b'%' then [] else b ∷ rest
urldecode (b ∷ h ∷ l ∷ s) =
    let rest = urldecode (h ∷ l ∷ s) in
    let after = escaped (to_digit h) (to_digit l) (urldecode s) in
    if b == b'+' then b' ' ∷ rest else if b == b'%' then after else b ∷ rest

abbrev pair_of : List ℕ → Option (List ℕ × List ℕ) → List ℕ × List ℕ
pair_of pair none = (pair, [])
pair_of pair (some (key, val)) = (key, val)

unfoldable pub query_pairs : List (List ℕ) → Map → Map
unfolding urldecode
query_pairs [] q = q
query_pairs (pair ∷ rest) q =
    let (key, val) = pair_of pair (split_once pair (str "=")) in
    query_pairs rest (insert (urldecode key) (string (urldecode val)) q)

unfoldable pub query_object : List ℕ → Map
unfolding query_pairs
query_object [] = []
query_object (c ∷ s) = query_pairs (split b'&' (c ∷ s)) []

-- A header's name, and its value where this is visible ASCII.
abbrev pub HeaderMap : Type 0
HeaderMap = List (Text × Option Text)

abbrev or_empty : Option Text → Text
or_empty none = []
or_empty (some s) = s

unfoldable pub header_object : HeaderMap → Map → Map
header_object [] h = h
header_object ((name, value) ∷ rest) h =
    header_object rest (insert name (string (or_empty value)) h)

pub record Request : Type 0 where
  pub method : Text
  pub path : Text
  pub query : List ℕ
  pub headers : HeaderMap
  pub body : List ℕ
  pub peer_addr : Option Text

module _ (json : SerdeJson) (from_utf8 : List ℕ → Option Text) where
  abbrev as_text : Option Text → Value
  as_text none = null
  as_text (some s) = string s

  abbrev json_or_text : Option Value → List ℕ → Value
  json_or_text (some v) bytes = v
  json_or_text none bytes = as_text (from_utf8 bytes)

  unfoldable pub reflected_body : List ℕ → Value
  reflected_body [] = null
  reflected_body (b ∷ bytes) = json_or_text (json.from_slice (b ∷ bytes)) (b ∷ bytes)

  unfoldable pub reflect_field : Request → ReflectField → Map → Map
  unfolding header_object query_object reflected_body
  reflect_field req ReflectField.method inner = insert (str "m") (string req.method) inner
  reflect_field req ReflectField.headers inner =
      insert (str "h") (json_object (header_object req.headers [])) inner
  reflect_field req ReflectField.url inner = insert (str "u") (string req.path) inner
  reflect_field req ReflectField.query inner =
      insert (str "q") (json_object (query_object req.query)) inner
  reflect_field req ReflectField.body inner = insert (str "b") (reflected_body req.body) inner

  unfoldable pub reflect_fields : Request → List ReflectField → Map → Map
  unfolding reflect_field
  reflect_fields req [] inner = inner
  reflect_fields req (field ∷ fields) inner =
      reflect_fields req fields (reflect_field req field inner)

  abbrev with_json_type : Map → Map
  with_json_type headers =
      if contains_key (str "content-type") headers
      then headers
      else insert (str "content-type") (string (str "application/json")) headers

  abbrev reflected : ReplySpec → Map → ReplySpec
  reflected reply inner = record reply {
    body = literal (json_object ((str "i", json_object inner) ∷ []));
    headers = with_json_type reply.headers;
  }

  abbrev pub resolve_body : Request → ReplySpec → BodySpec → ReplySpec
  resolve_body req reply (reflect fields) = reflected reply (reflect_fields req fields [])
  resolve_body req reply _ = reply

  unfoldable pub resolve_reflect : Request → ReplySpec → ReplySpec
  unfolding reflect_fields
  resolve_reflect req reply = resolve_body req reply reply.body

-- An upper-case hexadecimal digit, and the percent-encoding of every byte.
abbrev pub hex_digit : ℕ → ℕ
hex_digit n = if ltb n 10 then b'0' + n else b'A' + (n - 10)

unfoldable pub percent_encode : List ℕ → List ℕ
percent_encode [] = []
percent_encode (b ∷ bytes) = b'%' ∷ hex_digit (b / 16) ∷ hex_digit (b % 16) ∷ percent_encode bytes

to_digit-hex_digit : (n : ℕ) → n < 16 → to_digit (hex_digit n) ≡ some n
unfolding to_digit
to_digit-hex_digit n h = ground arith

-- Decoding gives back the bytes of a percent-encoded text, one character for each byte: a character
-- that UTF-8 encodes in two bytes or more becomes as many characters.
pub urldecode-percent_encode :
    (bytes : List ℕ) → All (λ b. b < 256) bytes → urldecode (percent_encode bytes) ≡ bytes
unfolding urldecode percent_encode
urldecode-percent_encode [] h = refl
urldecode-percent_encode (b ∷ bytes) (small, h) =
    let hi = to_digit-hex_digit (b / 16) (omega arith) in
    let lo = to_digit-hex_digit (b % 16) (omega arith) in
    let whole : b / 16 * 16 + b % 16 ≡ b = omega arith in
    rw (hi, lo, urldecode-percent_encode bytes h) (ap (λ c. c ∷ bytes) whole)
