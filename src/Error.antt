-- ===== src/Error.antt =====
-- src/units.rs: `ParseError`, and Rust's `Result` over it. A panic is a third outcome.
use mockinx.Common.{
  ℕ, ◌≡◌, refl, List, [], ◌∷◌, ◌++◌, Option, none, some, Bool, true, false, if◌then◌else◌,
}
use mockinx.Text.{Text, str}

pub record ParseError : Type 0 where
  pub msg : Text
  pub path : List Text
  pub got : Option Text

-- `ParseError::new`
unfoldable pub error : Text → ParseError
error msg = record { msg = msg; path = []; got = none }

-- `From<String>` and `From<&str>`
unfoldable pub from_text : Text → ParseError
unfolding error
from_text msg = error msg

unfoldable pub with_got : ParseError → Text → ParseError
with_got e got = record e { got = some got }

unfoldable pub in_field : Text → ParseError → ParseError
in_field field e = record e { path = field ∷ e.path }

-- The segment is written out by the caller's formatter: `name[idx]`.
unfoldable pub in_index : (ℕ → Text) → Text → ℕ → ParseError → ParseError
in_index decimal name idx e = record e {
  path = (name ++ str "[" ++ decimal idx ++ str "]") ∷ e.path;
}

unfoldable pub join : Text → List Text → Text
join sep [] = []
join sep (s ∷ []) = s
join sep (s ∷ t ∷ rest) = s ++ sep ++ join sep (t ∷ rest)

unfoldable pub path_str : ParseError → Text
unfolding join
path_str e = join (str ".") e.path

abbrev is_empty : List Text → Bool
is_empty [] = true
is_empty (s ∷ rest) = false

abbrev got_suffix : Option Text → Text
got_suffix none = []
got_suffix (some got) = str " (got " ++ got ++ str ")"

-- `Display`
unfoldable pub display : ParseError → Text
unfolding path_str
display e = (if is_empty e.path then [] else path_str e ++ str ": ") ++ e.msg ++ got_suffix e.got

-- What fallible code returns; a panic unwinds the task.
pub data Result {ℓ} (T : Type ℓ) : Type ℓ where
  panicked : Result T
  err : (error : ParseError) → Result T
  ok : (value : T) → Result T

infixl 5 ◌>>=◌ ◌>>◌
-- The `?` operator, and the unwinding of a panic.
abbrev pub ◌>>=◌ {ℓ ℓ'} : {T : Type ℓ} {U : Type ℓ'} → Result T → (T → Result U) → Result U
panicked >>= next = panicked
err error >>= next = err error
ok value >>= next = next value

abbrev pub ◌>>◌ {ℓ} : {U : Type ℓ} → Result (Unit {0}) → Result U → Result U
panicked >> k = panicked
err e >> k = err e
ok tt >> k = k

-- `return Err(ParseError::new(msg))`
abbrev pub fail {ℓ} : {A : Type ℓ} → Text → Result A
fail msg = err (error msg)

-- `if bad { return Err(…) }`
abbrev pub reject : Bool → Text → Result (Unit {0})
reject true msg = fail msg
reject false msg = ok tt

-- `ok_or_else`
abbrev pub or_fail {ℓ} : {A : Type ℓ} → Option A → Text → Result A
or_fail none msg = fail msg
or_fail (some a) msg = ok a

-- `unwrap`, `expect`
abbrev pub or_panic {ℓ} : {A : Type ℓ} → Option A → Result A
or_panic none = panicked
or_panic (some a) = ok a

abbrev pub map_err {ℓ} : {A : Type ℓ} → (ParseError → ParseError) → Result A → Result A
map_err f (ok a) = ok a
map_err f (err e) = err (f e)
map_err f panicked = panicked

pub >>=-eq-ok {ℓ ℓ'} :
    {T : Type ℓ} {U : Type ℓ'} (first : Result T) (next : T → Result U) {u : U}
    → (first >>= next) ≡ ok u
    → (t : T) × (first ≡ ok t) × (next t ≡ ok u)
>>=-eq-ok panicked next h = cc
>>=-eq-ok (err error) next h = cc
>>=-eq-ok (ok t) next h = (t, refl, h)
