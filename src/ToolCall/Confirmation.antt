-- ===== src/ToolCall/Confirmation.antt =====
-- The parts of the confirmation protocol of tools/call, internal/mcp/tools.go.
use go_clockify.Base.{
  String, Bool, true, false, not, Option, none, some, List, [], ◌∷◌, if◌then◌else◌, ◌==◌, ℕ_eq,
  String_eq,
}
use Prim.Native.String as Text
use go_clockify.Json.{
  Value, bool, str, arr, obj, Items, nil, cons, Fields, end, field, get, remove, put,
}
use go_clockify.Risk.{RiskClass, has, risk_destructive, risk_class_names}
use go_clockify.Safety.Policy.{Requirement, no_requirement, requirement_for_risk}
use go_clockify.Safety.Canonical.{hash_canonical}
use go_clockify.Safety.Tokens.{Payload, TokenStore, Issue}
use go_clockify.ToolCall.Types.{Env, ToolDescriptor, Server}

-- The store, if confirmations are enabled.
unfoldable pub confirmation_enabled : Env → Server → Option TokenStore
confirmation_enabled env s =
    if env.casing.trim_space s.confirmation_mode == "disabled_for_local_dev"
    then none
    else s.confirmation_store

unfoldable pub confirmation_requirement : Env → ToolDescriptor → Fields → Requirement
confirmation_requirement env d args =
    if not (env.casing.trim_space d.safety_exemption == "")
    then no_requirement
    else elim d.safety_requirement_func [
      | some f ↦ f args
      | none ↦
          requirement_for_risk env.casing (risk_class_names d.risk_class)
            (has d.risk_class risk_destructive) ""
    ]

-- strings.Join(names, "+")
join_plus : List String → String
join_plus [] = ""
join_plus (n ∷ []) = n
join_plus (n ∷ m ∷ names) = Text.◌++◌ n (Text.◌++◌ "+" (join_plus (m ∷ names)))

unfoldable pub confirmation_payload : Env → Server → ToolDescriptor → Fields → Payload
unfolding join_plus
confirmation_payload env s d args = record {
  tool_name = d.name;
  workspace_id = s.workspace_id_for_safety;
  risk_class = join_plus (risk_class_names d.risk_class);
  args_hash = hash_canonical env.hash_value (obj args);
  preview_hash = "";
}

-- Where the key is absent the map itself is returned, which is the same map.
unfoldable pub strip_confirmation_token : Fields → Fields
strip_confirmation_token args = remove "confirm_token" args

-- value, _ := args[key].(bool)
abbrev pub as_bool : Option Value → Bool
as_bool (some (bool b)) = b
as_bool _ = false

unfoldable pub bool_arg : Fields → String → Bool
bool_arg args key = as_bool (get key args)

-- token, _ := args["confirm_token"].(string)
abbrev pub as_string : Option Value → String
as_string (some (str s)) = s
as_string _ = ""

unfoldable pub token_arg : Env → Fields → String
token_arg env args = env.casing.trim_space (as_string (get "confirm_token" args))

abbrev items_of : List String → Items
items_of [] = nil
items_of (s ∷ ss) = cons (str s) (items_of ss)

unfoldable pub confirmation_metadata : Env → RiskClass → Issue → Fields
confirmation_metadata env rc i = field "required" (bool true) (
    field "risk_class" (arr (items_of (risk_class_names rc))) (
      field "preview_hash" (str i.preview_hash) (
        field "confirm_token" (str i.token) (
          field "expires_at" (str (env.format_time i.expires_at)) (
            field "instructions"
              (str
                "Call the same tool with these arguments, omit dry_run, and include confirm_token to execute.")
              end)))))

-- A result that is no object goes under "data" of a new one.
unfoldable pub merge_confirmation_metadata : Value → Fields → Value
merge_confirmation_metadata (obj m) confirmation = obj (put "confirmation" (obj confirmation) m)
merge_confirmation_metadata v confirmation =
    obj (field "ok" (bool true) (field "confirmation" (obj confirmation) (field "data" v end)))

unfoldable pub central_dry_run_preview : ToolDescriptor → Requirement → Value
central_dry_run_preview d req = obj (
    field "ok" (bool true) (
      field "action" (str d.name) (
        field "dry_run" (bool true) (
          field "changed" (bool false) (
            field "data"
              (obj (
                field "would_execute"
                  (obj (
                    field "tool" (str d.name) (
                      field "risk_class" (arr (items_of (risk_class_names d.risk_class)))
                        (field "reason" (str req.reason) end))))
                  end))
              (field "warnings"
                (arr (
                  cons
                    (str
                      "No changes were made. Re-run with confirm_token to execute this high-risk operation.")
                    nil))
                end))))))
