-- ===== src/Server/Respond/Headers.antt =====
-- src/server.rs: the headers of a reply that are sent.
use mathlib.Core.List.{append-nil, append_assoc}
use mockinx.Common.{ℕ, Option, none, some, List, [], ◌∷◌, ◌++◌, ◌≡◌, refl, ◌∙◌, ap, sym}
use mockinx.Text.{Text, str}
use mockinx.Json.{Map, as_str}
use mockinx.Server.Respond.{
  Headers, HttpApi, building, failed, given_header, add_header, add_headers,
}

module _ (http : HttpApi) where
  open http use {is_status, header_name, header_value}

  abbrev pub converted : Option Text → Option (List ℕ) → Headers
  converted (some name) (some value) = (name, value) ∷ []
  converted _ _ = []

  abbrev pub valid_header : Text → Option Text → Headers
  valid_header key none = []
  valid_header key (some v) = converted (header_name key) (header_value v)

  -- The headers of a reply that are strings and valid, in order.
  abbrev pub valid_headers : Map → Headers
  valid_headers [] = []
  valid_headers ((key, val) ∷ rest) = valid_header key (as_str val) ++ valid_headers rest

  abbrev pub inferred_headers : Option Text → Headers
  inferred_headers none = []
  inferred_headers (some ct) = (str "content-type", ct) ∷ []

  pub given_header-building :
      (name : Option Text) (value : Option (List ℕ)) (code : ℕ) (hs : Headers)
      → given_header name value (building code hs) ≡ building code (hs ++ converted name value)
  given_header-building (some name) (some value) code hs = refl
  given_header-building (some name) none code hs = ap (building code) (sym (append-nil hs))
  given_header-building none value code hs = ap (building code) (sym (append-nil hs))

  pub add_header-building :
      (key : Text) (val : Option Text) (code : ℕ) (hs : Headers)
      → add_header http key val (building code hs) ≡ building code (hs ++ valid_header key val)
  add_header-building key none code hs = ap (building code) (sym (append-nil hs))
  add_header-building key (some v) code hs =
      given_header-building (header_name key) (header_value v) code hs

  pub add_headers-building :
      (m : Map) (code : ℕ) (hs : Headers)
      → add_headers http m (building code hs) ≡ building code (hs ++ valid_headers m)
  unfolding add_headers
  add_headers-building [] code hs = ap (building code) (sym (append-nil hs))
  add_headers-building ((key, val) ∷ rest) code hs =
      ap (add_headers http rest) (add_header-building key (as_str val) code hs)
      ∙ add_headers-building rest code (hs ++ valid_header key (as_str val))
      ∙ ap (building code) (append_assoc hs (valid_header key (as_str val)) (valid_headers rest))

  pub given_header-failed :
      (name : Option Text) (value : Option (List ℕ)) → given_header name value failed ≡ failed
  given_header-failed (some name) (some value) = refl
  given_header-failed (some name) none = refl
  given_header-failed none value = refl

  pub add_headers-failed : (m : Map) → add_headers http m failed ≡ failed
  unfolding add_headers
  add_headers-failed [] = refl
  add_headers-failed ((key, val) ∷ rest) =
      ap (add_headers http rest) (given (as_str val)) ∙ add_headers-failed rest
    where
      given : (v : Option Text) → add_header http key v failed ≡ failed
      given none = refl
      given (some v) = given_header-failed (header_name key) (header_value v)
