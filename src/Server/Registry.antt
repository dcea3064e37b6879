-- ===== src/Server/Registry.antt =====
-- src/server.rs: the runtime and the resource of each registered rule.
pub mod Interleaving
pub mod Race
mod Tests
use mockinx.Common.{
  ℕ, zero, suc, ◌+◌, ◌≡◌, ◌<◌, refl, sym, ap, subst, ◌∙◌, some, List, [], ◌∷◌, ◌++◌, length, set,
  get_elem?, arith, All, All-at, All-append, length-append,
}
use mockinx.Json.{SerdeJson}
use mockinx.Serve.Runtime.{SemaphoreApi, BehaviorRuntime, new_runtime}
use mockinx.Serve.Behavior.{default_behavior}
use mockinx.Reply.Strategy.{ReplyStrategy, static, sequence, crud}
use mockinx.Reply.Crud.{CrudStore, new}
use mockinx.Rule.{Rule}
use mockinx.Text.{Text}
use mockinx.Store.{new_store, RuleEntry, new_entry, add, clear, match_request}
use mockinx.Store.Matching.{match_request_iff}
use mockinx.Server.{
  AppState, new_state, grow, register_rule, register_from, register_rules, clear_all, get_at,
  get_runtime, crud_entry,
}

-- The two handlers that change the rules, once the body is parsed.
pub data Admin : Type 0 where
  appends replaces_all : List Rule → Admin

module _ (api : SemaphoreApi) (json : SerdeJson) where
  unfoldable pub administer : AppState api → List Admin → AppState api
  administer state [] = state
  administer state (appends rules ∷ rest) = administer (register_rules api json state rules) rest
  administer state (replaces_all rules ∷ rest) =
      administer (register_rules api json (clear_all api state) rules) rest

  -- A rule of a resource finds the store that was made from its specification.
  abbrev pub HasResource : List (ℕ × CrudStore) → ℕ → ReplyStrategy → Type 0
  HasResource stores idx (crud spec headers) = get_at idx stores ≡ some (new json spec)
  HasResource stores idx (static r) = Unit
  HasResource stores idx (sequence rs) = Unit

  abbrev pub IsServed : List (BehaviorRuntime api) → List (ℕ × CrudStore) → RuleEntry → Type 0
  IsServed runtimes stores e =
      (e.index < length runtimes)
      × (get_elem? runtimes e.index ≡ some (new_runtime api e.rule.behavior))
      × HasResource stores e.index e.rule.reply

  abbrev pub AllServed : List RuleEntry → List (BehaviorRuntime api) → List (ℕ × CrudStore) → Type 0
  AllServed entries runtimes stores = All (IsServed runtimes stores) entries

  get_elem?-append-lt {ℓ} :
      {A : Type ℓ} (xs ys : List A) (i : ℕ)
      → i < length xs
      → get_elem? (xs ++ ys) i ≡ get_elem? xs i
  get_elem?-append-lt [] ys i h = absurd (omega arith)
  get_elem?-append-lt (x ∷ xs) ys zero h = refl
  get_elem?-append-lt (x ∷ xs) ys (suc i) h = get_elem?-append-lt xs ys i (omega arith)

  get_elem?-append-length {ℓ} :
      {A : Type ℓ} (xs : List A) (x : A) → get_elem? (xs ++ x ∷ []) (length xs) ≡ some x
  get_elem?-append-length [] x = refl
  get_elem?-append-length (y ∷ xs) x = get_elem?-append-length xs x

  set-append-length {ℓ} :
      {A : Type ℓ} (xs : List A) (x y : A) → set (xs ++ x ∷ []) (length xs) y ≡ xs ++ y ∷ []
  set-append-length [] x y = refl
  set-append-length (z ∷ xs) x y = ap (◌∷◌ z) (set-append-length xs x y)

  grow-done :
      (fuel idx : ℕ) (runtimes : List (BehaviorRuntime api))
      → idx < length runtimes
      → grow api fuel idx runtimes ≡ runtimes
  unfolding grow
  grow-done zero idx runtimes h = refl
  grow-done (suc fuel) idx runtimes h = ground arith

  -- Where the index is the vector's length, one default is pushed.
  grow-length :
      (fuel : ℕ) (runtimes : List (BehaviorRuntime api))
      → grow api (suc fuel) (length runtimes) runtimes
        ≡ runtimes ++ new_runtime api default_behavior ∷ []
  unfolding grow
  grow-length fuel runtimes =
      let pushed = runtimes ++ new_runtime api default_behavior ∷ [] in
      ground (
        arith,
        grow-done fuel (length runtimes) pushed
            (omega (arith, length-append runtimes (new_runtime api default_behavior ∷ []))),
      )

  HasResource-later :
      (stores : List (ℕ × CrudStore)) (i idx : ℕ) (reply later : ReplyStrategy)
      → i < idx
      → HasResource stores i reply
      → HasResource (crud_entry api json idx later stores) i reply
  HasResource-later stores i idx (static r) later h s = tt
  HasResource-later stores i idx (sequence rs) later h s = tt
  HasResource-later stores i idx (crud spec headers) (static r) h s = s
  HasResource-later stores i idx (crud spec headers) (sequence rs) h s = s
  HasResource-later stores i idx (crud spec headers) (crud later headers') h s = ground arith

  HasResource-self :
      (stores : List (ℕ × CrudStore)) (idx : ℕ) (reply : ReplyStrategy)
      → HasResource (crud_entry api json idx reply stores) idx reply
  HasResource-self stores idx (static r) = tt
  HasResource-self stores idx (sequence rs) = tt
  HasResource-self stores idx (crud spec headers) = ground arith

  AllServed-later :
      (entries : List RuleEntry) (runtimes : List (BehaviorRuntime api))
      (stores : List (ℕ × CrudStore)) (rt : BehaviorRuntime api) (later : ReplyStrategy)
      → AllServed entries runtimes stores
      → AllServed entries (runtimes ++ rt ∷ []) (crud_entry api json (length runtimes) later stores)
  AllServed-later [] runtimes stores rt later h = tt
  AllServed-later (e ∷ entries) runtimes stores rt later ((lt, found, s), h) = (
    (
      omega (arith, lt, length-append runtimes (rt ∷ [])),
      get_elem?-append-lt runtimes (rt ∷ []) e.index lt ∙ found,
      HasResource-later stores e.index (length runtimes) e.rule.reply later lt s,
    ),
    AllServed-later entries runtimes stores rt later h,
  )

  -- The counter is the number of runtimes, and every entry finds its own.
  abbrev pub IsConsistent : AppState api → Type 0
  IsConsistent state =
      (length state.runtimes ≡ state.stub_counter)
      × AllServed state.store.entries state.runtimes state.crud_stores

  pub runtimes-register_rule :
      (state : AppState api) (rule : Rule)
      → (register_rule api json state rule (length state.runtimes)).runtimes
        ≡ state.runtimes ++ new_runtime api rule.behavior ∷ []
  unfolding register_rule
  runtimes-register_rule state rule =
      let n = length state.runtimes in
      let one : n + 1 ≡ suc n = omega arith in
      ap (λ f. set (grow api f n state.runtimes) n (new_runtime api rule.behavior)) one
      ∙ ap (λ l. set l n (new_runtime api rule.behavior)) (grow-length n state.runtimes)
      ∙ set-append-length state.runtimes (new_runtime api default_behavior)
          (new_runtime api rule.behavior)

  register_rule-AllServed :
      (state : AppState api) (rule : Rule)
      → AllServed state.store.entries state.runtimes state.crud_stores
      → let after = register_rule api json state rule (length state.runtimes) in
        AllServed after.store.entries after.runtimes after.crud_stores
  unfolding add new_entry register_rule
  register_rule-AllServed state rule h =
      let n = length state.runtimes in
      let rt = new_runtime api rule.behavior in
      subst
        (λ rts.
          AllServed (state.store.entries ++ new_entry rule n ∷ []) rts
            (crud_entry api json n rule.reply state.crud_stores))
        (sym (runtimes-register_rule state rule))
        (All-append
          (IsServed (state.runtimes ++ rt ∷ [])
            (crud_entry api json n rule.reply state.crud_stores))
          state.store.entries (new_entry rule n ∷ [])
          (AllServed-later state.store.entries state.runtimes state.crud_stores rt rule.reply h)
          (
            (
              omega (arith, length-append state.runtimes (rt ∷ [])),
              get_elem?-append-length state.runtimes rt,
              HasResource-self state.crud_stores n rule.reply,
            ),
            tt,
          ))

  IsRegistered : AppState api → Rule → ℕ → Type 0
  IsRegistered state rule idx =
      let after = register_rule api json state rule idx in
      (length after.runtimes ≡ idx + 1)
      × AllServed after.store.entries after.runtimes after.crud_stores

  register_rule-IsRegistered :
      (state : AppState api) (rule : Rule) (idx : ℕ)
      → length state.runtimes ≡ idx
      → AllServed state.store.entries state.runtimes state.crud_stores
      → IsRegistered state rule idx
  unfolding IsRegistered
  register_rule-IsRegistered state rule idx e h =
      let n = length state.runtimes in
      let grown : length (register_rule api json state rule n).runtimes ≡ n + 1 =
        ap length (runtimes-register_rule state rule) ∙ length-append state.runtimes _ in
      subst (IsRegistered state rule) e (grown, register_rule-AllServed state rule h)

  register_from-AllServed :
      (rules : List Rule) (state : AppState api) (idx : ℕ)
      → length state.runtimes ≡ idx
      → AllServed state.store.entries state.runtimes state.crud_stores
      → let after = register_from api json state rules idx in
        (length after.runtimes ≡ idx + length rules)
        × (after.stub_counter ≡ state.stub_counter)
        × AllServed after.store.entries after.runtimes after.crud_stores
  unfolding register_from IsRegistered register_rule
  register_from-AllServed [] state idx e h = (omega (arith, e), refl, h)
  register_from-AllServed (rule ∷ rules) state idx e h =
      let (e', h') = register_rule-IsRegistered state rule idx e h in
      let (n, c, r) =
        register_from-AllServed rules (register_rule api json state rule idx) (idx + 1) e' h' in
      (omega (arith, n), c, r)

  pub register_rules-IsConsistent :
      (state : AppState api) (rules : List Rule)
      → IsConsistent state
      → IsConsistent (register_rules api json state rules)
  unfolding register_rules
  register_rules-IsConsistent state rules (n, h) =
      let counted = record state { stub_counter = state.stub_counter + length rules } in
      let (n', c, h') = register_from-AllServed rules counted state.stub_counter n h in
      (omega (arith, n', c), h')

  administer-IsConsistent :
      (state : AppState api) (requests : List Admin)
      → IsConsistent state
      → IsConsistent (administer state requests)
  unfolding administer
  administer-IsConsistent state [] h = h
  administer-IsConsistent state (appends rules ∷ rest) h =
      administer-IsConsistent (register_rules api json state rules) rest
        (register_rules-IsConsistent state rules h)
  administer-IsConsistent state (replaces_all rules ∷ rest) h =
      administer-IsConsistent (register_rules api json (clear_all api state) rules) rest (
        register_rules-IsConsistent (clear_all api state) rules
          (unfold clear_all clear in (refl, tt)))

  match_request-IsServed :
      (state : AppState api) (method path : Text) (e : RuleEntry)
      → AllServed state.store.entries state.runtimes state.crud_stores
      → match_request state.store method path ≡ some e
      → IsServed state.runtimes state.crud_stores e
  match_request-IsServed state method path e served found =
      let (before, after, split, _, _) =
        ((match_request_iff state.store method path).0 e).0 found in
      All-at (IsServed state.runtimes state.crud_stores) before after e
        (subst (All (IsServed state.runtimes state.crud_stores)) split served)

  -- After any requests that append or replace rules, an entry that answers a request has at its index
  -- the runtime made from its own limits and, for a resource, the store made from its own specification:
  -- neither is missing, and neither is another rule's.
  pub matched-IsServed :
      (requests : List Admin) (method path : Text) (e : RuleEntry)
      → let state = administer (new_state api) requests in
        match_request state.store method path ≡ some e
        → (get_runtime api state e.index ≡ some (new_runtime api e.rule.behavior))
          × HasResource state.crud_stores e.index e.rule.reply
  unfolding get_runtime
  matched-IsServed requests method path e found =
      let state = administer (new_state api) requests in
      let consistent =
        administer-IsConsistent (new_state api) requests
          (unfold new_state new_store in (refl, tt)) in
      let (lt, runtime, resource) = match_request-IsServed state method path e consistent.1 found in
      (runtime, resource)
