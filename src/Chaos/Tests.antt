-- ===== src/Chaos/Tests.antt =====
-- src/chaos.rs on a list with one entry.
use mockinx.Common.{◌+◌, ◌≡◌, ◌≢◌, ◌⊎◌, refl, none, some, [], ◌∷◌}
use mockinx.Text.{str, text_eq, trim, trim_start_matches, trim_end_matches, strip_suffix}
use mockinx.Decimal.{parse_u64, parse_digits, digits_value}
use mockinx.Error.{ok}
use mockinx.Float.{F64}
use mockinx.Json.{
  Value, string, number, pos_int, object, items, fields, get, cons, nil, field, end, array,
}
use mockinx.Reply.{parse_reply}
use mockinx.Chaos.{
  ChaosEntry, normal, overriding, resolve_chaos, parse_chaos, parse_chaos_items, parse_entries,
  parse_p, parse_percentage, parse_overrides, parse_chaos_reply, parse_chaos_serve,
}
use mockinx.Chaos.Selection.{
  IsHit, IsBeyond, IsAccepted, resolve_chaos-cases, parse_chaos-IsAccepted,
}
use mockinx.Samples.{fixed_point, printer, shortcuts, quarter_draws, empty_reply}

-- Thirty percent; the roll is 25.
abbrev thirty : ChaosEntry
thirty = record { p = F64.bits 30_000; reply = some empty_reply; serve = none }

hit : (resolve_chaos fixed_point (thirty ∷ []) quarter_draws).0 ≡ overriding (some empty_reply) none
unfolding resolve_chaos
hit = refl

resolve_chaos-cases_example :
    let roll = fixed_point.mul (quarter_draws.draw 0) (fixed_point.of_u64 100) in
    let (res, rng') = resolve_chaos fixed_point (thirty ∷ []) quarter_draws in
    (((e : ChaosEntry) × (res ≡ overriding e.reply e.serve)
        × IsHit fixed_point roll (fixed_point.of_u64 0) (thirty ∷ []) e)
      ⊎ ((res ≡ normal) × IsBeyond fixed_point roll (fixed_point.of_u64 0) (thirty ∷ [])))
    × (rng'.place ≡ quarter_draws.place + 1)
resolve_chaos-cases_example = resolve_chaos-cases fixed_point (thirty ∷ []) quarter_draws

abbrev given : Value
given = array (
    cons
      (object (
        field (str "p") (string (str "30%"))
          (field (str "reply") (object (field (str "s") (number (pos_int 200)) end)) end)))
      nil)

accepts : parse_chaos fixed_point printer shortcuts given ≡ ok (thirty ∷ [])
unfolding parse_chaos parse_chaos_items parse_entries parse_p parse_percentage parse_overrides
    parse_chaos_reply parse_chaos_serve parse_reply items fields get text_eq str trim
    trim_start_matches trim_end_matches strip_suffix parse_u64 parse_digits digits_value
accepts = refl

parse_chaos-IsAccepted_example :
    (thirty ∷ [] ≢ [])
    × IsAccepted fixed_point printer shortcuts (fixed_point.of_u64 0) (thirty ∷ [])
parse_chaos-IsAccepted_example =
    parse_chaos-IsAccepted fixed_point printer shortcuts given (thirty ∷ []) accepts
