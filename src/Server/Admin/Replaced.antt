-- ===== src/Server/Admin/Replaced.antt =====
-- src/server.rs: the state behind a `PUT` of `/_mx`.
use mockinx.Common.{
  ℕ, ◌+◌, ◌≡◌, ◌≢◌, refl, sym, ap, ◌⊎◌, inl, inr, ◌∙◌, Option, List, [], ◌∷◌, length, arith,
}
use mockinx.Text.{Text}
use mockinx.Float.{FloatOps}
use mockinx.Json.{SerdeJson}
use mockinx.Yttp.{Yttp}
use mockinx.Serve.Runtime.{SemaphoreApi}
use mockinx.Rule.{Rule}
use mockinx.Store.{clear}
use mockinx.Server.{AppState, register_rules, clear_all}
use mockinx.Server.Registry.{AllServed, register_rules-IsConsistent}
use mockinx.Server.Registry.Interleaving.{fresh_runtimes, runtimes-register_from}
use mockinx.Server.Registry.Race.{fresh_entries, entries-register_from}
use mockinx.Server.Admin.{
  Read, ParsedBody, rules, plain_error, aborted, Response, responds, parse_body_as_rules,
  replace_parsed, handle_replace_rules,
}

module _ (json : SerdeJson) (api : SemaphoreApi) where
  -- The state has these rules at the indices from 0 on and no others, a runtime for each, and the
  -- resources that they need.
  pub record IsLoaded (state : AppState api) (rs : List Rule) : Type 0 where
    pub entries : state.store.entries ≡ fresh_entries api json 0 rs
    pub runtimes : state.runtimes ≡ fresh_runtimes api json rs
    pub counted : state.stub_counter ≡ length rs
    pub served : AllServed api json state.store.entries state.runtimes state.crud_stores

  length-fresh_runtimes : (rs : List Rule) → length (fresh_runtimes api json rs) ≡ length rs
  length-fresh_runtimes [] = refl
  length-fresh_runtimes (r ∷ rs) = omega (arith, length-fresh_runtimes rs)

  register_rules-IsLoaded :
      (state : AppState api) (rs : List Rule)
      → IsLoaded (register_rules api json (clear_all api state) rs) rs
  unfolding register_rules clear_all clear
  register_rules-IsLoaded state rs =
      let cleared = record (clear_all api state) { stub_counter = 0 + length rs } in
      let consistent = register_rules-IsConsistent api json (clear_all api state) rs (refl, tt) in
      let pushed = runtimes-register_from api json rs cleared 0 refl in
      record {
        entries = entries-register_from api json rs cleared 0;
        runtimes = pushed;
        counted = sym consistent.0 ∙ ap length pushed ∙ length-fresh_runtimes rs;
        served = consistent.1;
      }

module _ (ops : FloatOps) (json : SerdeJson) (yttp : Yttp) (from_utf8 : List ℕ → Option Text)
    (from_str : Text → Read) (api : SemaphoreApi) where
  -- The two outcomes of a `PUT` of rules.
  abbrev pub Outcome : AppState api → ParsedBody → AppState api → Response → Type 0
  Outcome state parsed after response =
      ((rs : List Rule) × (msg : Text) × (parsed ≡ rules rs)
        × (response ≡ responds 200 msg)
        × IsLoaded json api after rs)
      ⊎ (((rs : List Rule) → parsed ≢ rules rs)
          × ((msg : Text) → response ≢ responds 200 msg)
          × (after ≡ state))

  abbrev replaced : AppState api → ParsedBody → AppState api × Response
  replaced = replace_parsed ops json yttp from_utf8 from_str api

  replace_parsed-Outcome :
      (state : AppState api) (parsed : ParsedBody)
      → Outcome state parsed (replaced state parsed).0 (replaced state parsed).1
  replace_parsed-Outcome state (rules rs) =
      inl (rs, _, refl, refl, register_rules-IsLoaded json api state rs)
  replace_parsed-Outcome state (plain_error msg) = inr (λ rs e. cc e, λ m e. ground arith, refl)
  replace_parsed-Outcome state aborted = inr (λ rs e. cc e, λ m e. cc e, refl)

  -- A `PUT` of `/_mx` that runs by itself loads all the rules of its body or none. If the body holds rules,
  -- it answers 200, and then the state has just these rules, at the indices from 0 on in their order,
  -- whatever it had before: a runtime for each in the same order, the counter at their number, and a
  -- resource for each rule that needs one. Otherwise it does not answer 200, and the state is as before.
  pub handle_replace_rules-cases :
      (state : AppState api) (body : List ℕ)
      → let after = handle_replace_rules ops json yttp from_utf8 from_str api state body in
        Outcome state
          (parse_body_as_rules ops json yttp from_utf8 from_str api body)
          after.0
          after.1
  unfolding handle_replace_rules
  handle_replace_rules-cases state body =
      replace_parsed-Outcome state (parse_body_as_rules ops json yttp from_utf8 from_str api body)
