-- ===== src/Server/Respond.antt =====
-- src/server.rs: the HTTP response to a request. The crate http's names, values and status codes, and
-- tokio's timeout, are parameters; a header map that is full is not modelled.
pub mod Headers
pub mod Head
pub mod Whole
pub mod Reflected
pub mod Served
pub mod Unresolved
mod Tests
use mockinx.Common.{
  ℕ, Bool, true, false, Option, none, some, List, [], ◌∷◌, ◌++◌, ◌≡◌, ◌↔◌, if◌then◌else◌,
}
use mockinx.Text.{Text, str, eq_ignore_ascii_case}
use mockinx.Error.{Result, ok, ◌>>=◌}
use mockinx.Float.{FloatOps}
use mockinx.Units.{Duration, Rng}
use mockinx.Json.{Value, SerdeJson, Map, as_str}
use mockinx.Reply.{ReplySpec}
use mockinx.Reply.Body.{BodySources, generate_body}
use mockinx.Serve.Pace.{DeliverySpec, is_default}
use mockinx.Serve.Runtime.{SemaphoreApi}
use mockinx.Serve.Engine.{DeliveryStream}
use mockinx.Serve.Engine.Setup.{deliver}
use mockinx.Server.{AppState}
use mockinx.Server.Reflect.{Request}
use mockinx.Server.Handle.{
  Answer, status, plain, shaped, stalled, infer_content_type, handle_request,
}

-- Bytes that are there at once, or a stream and whether it holds a permit (`PermitStream`) until it
-- is dropped.
pub data Body : Type 0 where
  full : List ℕ → Body
  streamed : DeliveryStream → (permit : Bool) → Body

abbrev pub Headers : Type 0
Headers = List (Text × List ℕ)

pub record Response : Type 0 where
  pub status : ℕ
  pub headers : Headers
  pub body : Body

pub record HttpApi : Type 0 where
  -- `StatusCode::try_from` a `u16`
  pub is_status : ℕ → Bool
  -- `HeaderName::try_from` and `HeaderValue::try_from` a `&str`
  pub header_name : Text → Option Text
  pub header_value : Text → Option (List ℕ)
  -- `tokio::time::timeout` on a future that builds this response, none where the time has elapsed
  pub timeout : Duration → Response → Option Response
  -- `(StatusCode, &str)::into_response`
  pub text_response : ℕ → Text → Response

-- What http documents: names ignore case, and the two content types are values.
pub record HttpLaws (http : HttpApi) : Type 0 where
  pub names :
      (key : Text)
      → eq_ignore_ascii_case key (str "content-type") ≡ true
        ↔ http.header_name key ≡ some (str "content-type")
  pub json_type : http.header_value (str "application/json") ≡ some (str "application/json")
  pub text_type : http.header_value (str "text/plain") ≡ some (str "text/plain")

-- `http::response::Builder`: the first error stays.
pub data Builder : Type 0 where
  building : (status : ℕ) → Headers → Builder
  failed : Builder

-- `StatusCode::into_response`
abbrev pub status_response : ℕ → Response
status_response code = record { status = code; headers = []; body = full [] }

-- `Builder::header`, on a name and a value that are converted or not
abbrev pub header : Option Text → Option (List ℕ) → Builder → Builder
header (some name) (some value) (building code headers) =
    building code (headers ++ (name, value) ∷ [])
header _ _ _ = failed

abbrev given_header : Option Text → Option (List ℕ) → Builder → Builder
given_header (some name) (some value) b = header (some name) (some value) b
given_header _ _ b = b

-- `body(…).unwrap_or_else(…)`
abbrev pub finish : Body → Builder → Response
finish sent (building code headers) = record { status = code; headers = headers; body = sent }
finish sent failed = status_response 500

module _ (http : HttpApi) where
  open http use {is_status, header_name, header_value}

  abbrev add_header : Text → Option Text → Builder → Builder
  add_header key none b = b
  add_header key (some v) b = given_header (header_name key) (header_value v) b

  -- The loop over the headers of the reply.
  unfoldable pub add_headers : Map → Builder → Builder
  add_headers [] b = b
  add_headers ((key, val) ∷ rest) b = add_headers rest (add_header key (as_str val) b)

  -- `Response::builder().status(…)`
  abbrev pub builder : ℕ → Builder
  builder code = if is_status code then building code [] else failed

  abbrev pub add_inferred : Option Text → Builder → Builder
  add_inferred none b = b
  add_inferred (some ct) b = header (header_name (str "content-type")) (header_value ct) b

  -- Status and headers, which both kinds of response build in the same way.
  unfoldable pub head_of : ReplySpec → Builder
  unfolding add_headers infer_content_type
  head_of reply =
      add_headers reply.headers (add_inferred (infer_content_type reply) (builder reply.status))

  module _ (src : BodySources) where
    unfoldable pub build_reply_response : ReplySpec → Result Response
    unfolding head_of
    build_reply_response reply =
        generate_body src reply.body >>= λ bytes. ok (finish (full bytes) (head_of reply))

    module _ (ops : FloatOps) where
      abbrev streamed_response :
          ReplySpec → Bool → Result (DeliveryStream × Rng) → Result (Response × Rng)
      streamed_response reply permit delivered =
          delivered >>= λ (s, rng'). ok (finish (streamed s permit) (head_of reply), rng')

      -- `at_drop` and `at_hang` are the instants that `deliver` reads. A permit that is not held
      -- by a stream is dropped.
      unfoldable pub build_delivery_response :
          ReplySpec
          → DeliverySpec
          → (at_drop at_hang : ℕ) → Rng
          → (permit : Bool) → Result (Response × Rng)
      unfolding build_reply_response
      build_delivery_response reply delivery at_drop at_hang rng permit =
          let whole = build_reply_response reply >>= λ r. ok (r, rng) in
          generate_body src reply.body >>= λ bytes.
          if is_default delivery
          then whole
          else streamed_response reply permit (deliver ops bytes delivery at_drop at_hang rng)

      abbrev in_time_or_504 : Option Response → Response
      in_time_or_504 (some r) = r
      in_time_or_504 none = status_response 504

      -- The response under the timeout, which is tokio's to run.
      abbrev timed : Option Duration → Result (Response × Rng) → Result (Response × Rng)
      timed none built = built
      timed (some d) built = built >>= λ (r, rng'). ok (in_time_or_504 (http.timeout d r), rng')

      -- No response for a request that still waits.
      unfoldable pub respond : Answer → (at_drop at_hang : ℕ) → Rng → Result (Option Response × Rng)
      unfolding build_reply_response build_delivery_response
      respond (status code) at_drop at_hang rng = ok (some (status_response code), rng)
      respond (plain reply) at_drop at_hang rng =
          build_reply_response reply >>= λ r. ok (some r, rng)
      respond (shaped reply delivery timeout permit) at_drop at_hang rng =
          timed timeout (build_delivery_response reply delivery at_drop at_hang rng permit)
          >>= λ (r, rng'). ok (some r, rng')
      respond stalled at_drop at_hang rng = ok (none, rng)

      module _ (json : SerdeJson) (from_utf8 : List ℕ → Option Text) (api : SemaphoreApi) where
        -- The whole handler; `read` is the body, or none where it cannot be read or is too long.
        unfoldable pub serve :
            AppState api
            → Request
            → (read : Option (List ℕ)) → (uuid : Text) → (now at_drop at_hang : ℕ) → Rng
            → Result (Option Response × AppState api × Rng)
        unfolding respond handle_request
        serve state req none uuid now at_drop at_hang rng =
            ok (some (http.text_response 400 (str "failed to read body")), state, rng)
        serve state req (some bytes) uuid now at_drop at_hang rng =
            handle_request ops json from_utf8 api state (record req { body = bytes }) uuid now rng
            >>= λ (answer, state', rng1).
                respond answer at_drop at_hang rng1 >>= λ (r, rng2). ok (r, state', rng2)
