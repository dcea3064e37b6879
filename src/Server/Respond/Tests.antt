-- ===== src/Server/Respond/Tests.antt =====
-- src/server.rs: responses over names in lower case and values as they are.
use mockinx.Common.{
  ℕ, ◌≡◌, ◌↔◌, refl, ap, true, false, ◌&&◌, none, some, List, [], ◌∷◌, map, leb, ltb, arith,
  replicate,
}
use mockinx.Text.{
  Text, str, text_eq, strip_suffix, starts_with, eq_ignore_ascii_case, eq_ignore_ascii_case_iff,
  lower_ascii,
}
use mockinx.Error.{ok, panicked}
use mockinx.Units.{fixed, sample}
use mockinx.Json.{string}
use mockinx.Reply.{ReplySpec, literal, reflect, method}
use mockinx.Reply.Body.{BodySources, generate_body}
use mockinx.Serve.Pace.{DeliverySpec, PaceSpec}
use mockinx.Serve.Engine.{Clock}
use mockinx.Serve.Engine.Setup.{
  deliver, first_byte_of, drop_bytes_of, drop_deadline_of, hang_bytes_of, hang_deadline_of, pace_of,
  sample_bytes, sample_nanos,
}
use mockinx.Server.Reflect.{resolve_reflect}
use mockinx.Server.Handle.{infer_content_type}
use mockinx.Server.Respond.{
  Response, HttpApi, HttpLaws, full, streamed, build_reply_response, build_delivery_response, serve,
  status_response, head_of, add_headers,
}
use mockinx.Server.Respond.Head.{content_types, response_headers, build_reply_response-cases}
use mockinx.Server.Respond.Whole.{SameFor, build_delivery_response-whole}
use mockinx.Server.Respond.Reflected.{IsReflect, resolve_reflect-sends}
use mockinx.Server.Respond.Served.{IsPlainRule, serve-plain}
use mockinx.MatchRule.{matches, path_agrees, normalize_path}
use mockinx.Reply.Strategy.{static}
use mockinx.Serve.Runtime.{new_runtime}
use mockinx.Rule.{Rule}
use mockinx.Store.{new_entry, match_request, find_match}
use mockinx.Server.{AppState}
use mockinx.Samples.{no_text, get_root, counting, rule_at, fixed_point, printer, quarter_draws}

abbrev pub lower_names : HttpApi
lower_names = record {
  is_status = λ n. leb 100 n && ltb n 1000;
  header_name = λ key. some (map lower_ascii key);
  header_value = λ value. some value;
  timeout = λ d r. some r;
  text_response = λ code msg. record {
    status = code;
    headers = (str "content-type", str "text/plain; charset=utf-8") ∷ [];
    body = full msg;
  };
}

laws : HttpLaws lower_names
unfolding str
laws = record {
  names = λ key. (
    λ e. ap some ((eq_ignore_ascii_case_iff key (str "content-type")).0 e),
    λ e. (eq_ignore_ascii_case_iff key (str "content-type")).1 (some_injective e),
  );
  json_type = refl;
  text_type = refl;
}
  where
    some_injective : {s t : Text} → some s ≡ some t → s ≡ t
    some_injective e = cc e

-- Text in ASCII, printed values that are a brace, and no files.
abbrev pub ascii : BodySources
ascii = record {
  as_bytes = λ s. s;
  to_vec = λ v. str "{}";
  StdRng = ℕ;
  seed_from_u64 = λ seed. seed;
  fill = λ n rng. (replicate n 0, rng);
  read = λ path. [];
  file_len = λ path. 0;
}

abbrev greeting : ReplySpec
greeting = record {
  status = 200;
  headers = (str "X-Id", string (str "7")) ∷ [];
  body = literal (string (str "hi"));
}

generated : generate_body ascii greeting.body ≡ ok (str "hi")
unfolding generate_body
generated = refl

sent :
    build_reply_response lower_names ascii greeting
    ≡ ok (record {
      status = 200;
      headers = (str "content-type", str "text/plain") ∷ (str "x-id", str "7") ∷ [];
      body = full (str "hi");
    })
unfolding build_reply_response head_of add_headers generate_body infer_content_type str
    eq_ignore_ascii_case
sent = refl

build_reply_response-cases_example :
    (false ≡ false
      → build_reply_response lower_names ascii (record greeting { status = 42 })
        ≡ ok (status_response 500))
    × (false ≡ true
        → build_reply_response lower_names ascii (record greeting { status = 42 })
          ≡ ok (record {
            status = 42;
            headers = response_headers lower_names (record greeting { status = 42 });
            body = full (str "hi");
          }))
    × ((ct : Text)
        → infer_content_type (record greeting { status = 42 }) ≡ some ct
        → content_types (response_headers lower_names (record greeting { status = 42 })) ≡ ct ∷ [])
build_reply_response-cases_example =
    build_reply_response-cases lower_names ascii laws (record greeting { status = 42 }) (str "hi")
      generated

abbrev at : ℕ → Clock
at t = record { at_start = t; at_timer = t; at_hang = t; at_end = t }

abbrev six : List Clock
six = at 10 ∷ at 20 ∷ at 30 ∷ at 40 ∷ at 50 ∷ at 60 ∷ []

-- `pace: 1b@5ns`
abbrev one_byte : DeliverySpec
one_byte = record {
  pace = some (PaceSpec.in_chunks (fixed (record { bytes = 1 })) (fixed (record { nanos = 5 })));
  drop = none;
  hang = none;
  first_byte = none;
}

abbrev paced : Response
paced = record {
  status = 200;
  headers = (str "content-type", str "text/plain") ∷ (str "x-id", str "7") ∷ [];
  body =
      streamed
        (record {
          body = str "hi";
          offset = 0;
          chunk_size = 1;
          chunk_delay = some 5;
          drop_after_bytes = none;
          drop_deadline = none;
          hang_after_bytes = none;
          hang_deadline = none;
          first_byte_done = false;
          first_byte_delay = none;
          sleep = none;
          started = false;
        })
        true;
}

built :
    build_delivery_response lower_names ascii fixed_point greeting one_byte 0 0 quarter_draws true
    ≡ ok (paced, quarter_draws)
unfolding build_delivery_response head_of add_headers generate_body infer_content_type str
    eq_ignore_ascii_case deliver first_byte_of drop_bytes_of drop_deadline_of hang_bytes_of
    hang_deadline_of pace_of sample_bytes sample_nanos sample
built = refl

build_delivery_response-whole_example :
    (whole : Response) × (build_reply_response lower_names ascii greeting ≡ ok whole)
    × SameFor lower_names ascii fixed_point six paced whole
unfolding str
build_delivery_response-whole_example =
    build_delivery_response-whole lower_names ascii fixed_point greeting one_byte 0 0 5 0
      quarter_draws quarter_draws true paced (str "hi") six refl refl generated built
      (omega arith, omega arith)
      (omega arith, (omega arith, (omega arith, (omega arith, (omega arith, (omega arith, tt))))))
      (omega arith)

abbrev pub mirror : ReplySpec
mirror = record greeting { body = reflect (method ∷ []) }

resolve_reflect-sends_example :
    ((r : Response) × (build_reply_response lower_names ascii
          (resolve_reflect printer no_text get_root mirror)
        ≡ ok r))
    × (build_reply_response lower_names ascii mirror ≡ panicked ↔ IsReflect mirror.body)
resolve_reflect-sends_example =
    resolve_reflect-sends lower_names ascii printer no_text get_root mirror tt

abbrev mirror_rule : Rule
mirror_rule = rule_at (str "/") (static mirror)

abbrev mirror_state : AppState counting
mirror_state = record {
  store = record { entries = new_entry mirror_rule 0 ∷ [] };
  runtimes = new_runtime counting mirror_rule.behavior ∷ [];
  crud_stores = [];
  stub_counter = 1;
}

matched :
    match_request mirror_state.store get_root.method get_root.path ≡ some (new_entry mirror_rule 0)
unfolding match_request find_match matches path_agrees normalize_path text_eq strip_suffix
    starts_with eq_ignore_ascii_case str new_entry
matched = refl

mirror-IsPlainRule : IsPlainRule (new_entry mirror_rule 0).rule mirror
unfolding new_entry
mirror-IsPlainRule = record {
  replies = refl;
  calm = refl;
  unshaped = refl;
  unlimited = refl;
  unrated = refl;
  untimed = refl;
}

serve-plain_example :
    (resp : Response) × (build_reply_response lower_names ascii
        (resolve_reflect printer no_text (record get_root { body = str "x" }) mirror)
      ≡ ok resp)
    × (serve lower_names ascii fixed_point printer no_text counting mirror_state get_root
          (some (str "x"))
          []
          0
          0
          0
          quarter_draws
        ≡ ok (some resp, mirror_state, quarter_draws))
serve-plain_example =
    serve-plain lower_names ascii fixed_point printer no_text counting mirror_state
      (new_entry mirror_rule 0) mirror get_root (str "x") [] 0 0 0 quarter_draws matched
      mirror-IsPlainRule tt
