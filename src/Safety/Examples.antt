-- ===== src/Safety/Examples.antt =====
-- The theorems on the safety rails at concrete inputs, and runs of the code.
use go_clockify.Base.{
  ℕ, ◌+◌, ◌≤◌, ◌<◌, String, ◌≡◌, refl, true, none, some, List, [], ◌∷◌, ℕ_eq, String_eq, pos,
}
use mathlib.Core.List.{Memᴰ}
use go_clockify.Base.Assoc.{lookup, insert}
use go_clockify.Json.{Value, bool, num, str, obj, Fields, end, field, put, remove}
use go_clockify.Safety.Canonical.{is_control, normalize, hash_canonical, hash_canonical_control}
use go_clockify.Safety.Tokens.{
  Payload, Payload_eq, not_issued, new_token_store, issue, validate, TokenCall, issue_call,
  validate_call, token_run,
}
use go_clockify.Safety.Tokens.Laws.{
  accepted, issued, accepted-le-issued, validate-issued, validate_consumes,
}

abbrev removal : Payload
removal = record {
  tool_name = "clockify_projects_delete";
  workspace_id = "w1";
  risk_class = "write+destructive";
  args_hash = "h1";
  preview_hash = "";
}

abbrev other_removal : Payload
other_removal = record removal { args_hash = "h2" }

abbrev tool_of : Payload → String
tool_of p = p.tool_name

abbrev history : List TokenCall
history =
    issue_call removal (some "t1") 10
    ∷ validate_call "t1" removal 20
    ∷ validate_call "t1" removal 21
    ∷ issue_call removal none 30
    ∷ []

accepted-le-issued_example :
    accepted tool_of "t1" (new_token_store (pos 100)) history ≤ issued tool_of "t1" history
accepted-le-issued_example = accepted-le-issued tool_of (pos 100) "t1" history

history_accepts_once : accepted tool_of "t1" (new_token_store (pos 100)) history ≡ 1
unfolding accepted new_token_store issue validate lookup insert
history_accepts_once = refl

fresh_accepted :
    (validate
      (token_run tool_of (new_token_store (pos 100)) (issue_call removal (some "t1") 10 ∷ []))
      "t1"
      removal
      109).1
    ≡ none
unfolding token_run new_token_store issue validate lookup insert
fresh_accepted = refl

validate-issued_example :
    (at : ℕ) × Memᴰ (issue_call removal (some "t1") at) (issue_call removal (some "t1") 10 ∷ [])
    × (109 < at + (new_token_store (pos 100)).ttl)
validate-issued_example =
    validate-issued tool_of (pos 100) (issue_call removal (some "t1") 10 ∷ []) "t1" removal 109
      fresh_accepted

validate_consumes_example :
    (validate (validate (new_token_store (pos 5)) "t" removal 1).0 "t" other_removal 2).1
    ≡ some not_issued
validate_consumes_example =
    validate_consumes (new_token_store (pos 5)) "t" removal other_removal 1 2

abbrev args : Fields
args = field "project_id" (str "p1") (
    field "dry_run" (bool true)
      (field "nested" (obj (field "confirm_token" (str "s") (field "keep" (num "2") end))) end))

normalize_args :
    normalize (obj args)
    ≡ obj (field "project_id" (str "p1") (field "nested" (obj (field "keep" (num "2") end)) end))
unfolding normalize is_control
normalize_args = refl

abbrev marshalled : Value → String
marshalled (obj (field k v fs)) = k
marshalled v = ""

hash_canonical_control_example :
    (hash_canonical marshalled (obj (put "confirm_token" (str "t") args))
      ≡ hash_canonical marshalled (obj args))
    × (hash_canonical marshalled (obj (remove "confirm_token" args))
        ≡ hash_canonical marshalled (obj args))
unfolding is_control
hash_canonical_control_example =
    hash_canonical_control marshalled "confirm_token" (str "t") args refl
