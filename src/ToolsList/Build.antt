-- ===== src/ToolsList/Build.antt =====
-- The list of advertised tools and its cache, internal/mcp/tools.go and server.go. A tool is known here
-- by its name and by the priority that `toolPriority` reads from its metadata, if any; the rest of it
-- is passed on. The tools are a Go map by their names.
use go_clockify.Base.{
  String, ◌≡◌, Bool, true, false, Option, none, some, List, [], ◌∷◌, ltb, if◌then◌else◌, ℕ_eq,
  String_eq, any, ℤ, pos, negsuc,
}
use Prim.Native.Nat.{Ordering}
use Prim.Native.String.{compare as compare_String}
use go_clockify.Json.{Value, obj, arr, str, Fields, field, end, cons, nil}
use go_clockify.Base.Assoc.{lookup, insert}

pub record Tool : Type 0 where
  pub name : String
  pub priority : Option ℤ
  pub output_schema : Value

pub record ToolDescriptor : Type 0 where
  pub tool : Tool
  pub advertise_output_schema : Bool

pub record Registry : Type 0 where
  pub tools : List (String × ToolDescriptor)
  pub advertised_tools : Option (List (String × Bool))
  pub tools_list_page_size : ℤ
  -- `toolListCache`, where `toolListCacheValid`.
  pub tool_list_cache : Option (List Tool)

abbrev type_is : String → Value
type_is t = obj (field "type" (str t) end)

abbrev with_types : List (String × String) → Fields → Fields
with_types [] fs = fs
with_types ((name, t) ∷ types) fs = field name (type_is t) (with_types types fs)

abbrev texts_by_name : Value
texts_by_name =
    obj (field "type" (str "object") (field "additionalProperties" (type_is "string") end))

abbrev pub compact_tool_result_output_schema : Value
compact_tool_result_output_schema =
    let last =
      ("changed", "object")
      ∷ ("warnings", "array")
      ∷ ("next", "array")
      ∷ ("meta", "object")
      ∷ ("error", "object")
      ∷ ("recovery", "object")
      ∷ [] in
    let members = field "ids" texts_by_name (field "data" (obj end) (with_types last end)) in
    let first =
      ("ok", "boolean")
      ∷ ("supported", "boolean")
      ∷ ("performed", "boolean")
      ∷ ("action", "string")
      ∷ [] in
    obj (
      field "type" (str "object") (
        field "properties" (obj (with_types first members))
          (field "required" (arr (cons (str "ok") (cons (str "action") nil))) end)))

abbrev pub or_false : Option Bool → Bool
or_false none = false
or_false (some b) = b

-- s.advertisedTools == nil || s.advertisedTools[name]
abbrev pub is_advertised : String → Option (List (String × Bool)) → Bool
is_advertised name none = true
is_advertised name (some visible) = or_false (lookup name visible)

-- `toolListItem`
pub record Item : Type 0 where
  pub name : String
  pub tool : Tool
  pub prio : ℤ

abbrev or_fifty : Option ℤ → ℤ
or_fifty none = pos 50
or_fifty (some n) = n

abbrev has_priority : Option ℤ → Bool
has_priority none = false
has_priority (some n) = true

-- The tool as it is listed.
abbrev pub listed : ToolDescriptor → Tool
listed d =
    if d.advertise_output_schema
    then d.tool
    else record d.tool { output_schema = compact_tool_result_output_schema }

unfoldable pub items_of : Option (List (String × Bool)) → List (String × ToolDescriptor) → List Item
items_of advertised [] = []
items_of advertised ((name, d) ∷ tools) =
    let rest = items_of advertised tools in
    if is_advertised name advertised
    then record { name = name; tool = listed d; prio = or_fifty d.tool.priority } ∷ rest
    else rest

-- Whether any of the items has a priority of its own.
abbrev pub priority_aware : List Item → Bool
priority_aware items = any (λ item. has_priority item.tool.priority) items

abbrev name_before : String → String → Bool
name_before a b = elim (compare_String a b) [ Ordering.gt ↦ false | _ ↦ true ]

abbrev below : ℤ → ℤ → Bool
below (pos m) (pos n) = ltb m n
below (pos m) (negsuc n) = false
below (negsuc m) (pos n) = true
below (negsuc m) (negsuc n) = ltb n m

-- The comparison of the sort, with equality on its side.
abbrev pub before : Bool → Item → Item → Bool
before aware a b =
    if aware
    then if below a.prio b.prio
      then true
      else if below b.prio a.prio
      then false
      else name_before a.name b.name
    else name_before a.name b.name

-- `slices.SortFunc`: its result is the one order of distinct names.
unfoldable pub place : Bool → Item → List Item → List Item
place aware item [] = item ∷ []
place aware item (first ∷ items) =
    let rest = place aware item items in
    if before aware item first then item ∷ first ∷ items else first ∷ rest

unfoldable pub sort_items : Bool → List Item → List Item
sort_items aware [] = []
sort_items aware (item ∷ items) = place aware item (sort_items aware items)

abbrev pub tools_of : List Item → List Tool
tools_of [] = []
tools_of (item ∷ items) = item.tool ∷ tools_of items

unfoldable pub build_tool_list : Registry → List Tool
build_tool_list s =
    let items = items_of s.advertised_tools s.tools in
    tools_of (sort_items (priority_aware items) items)

abbrev visible_of : List Tool → List (String × Bool) → List (String × Bool)
visible_of [] visible = visible
visible_of (tool ∷ tools) visible = visible_of tools (insert tool.name true visible)

abbrev visible_if : Option (List Tool) → Option (List (String × Bool))
visible_if none = none
visible_if (some tools) = some (visible_of tools [])

unfoldable pub set_advertised_tools : Option (List Tool) → Registry → Registry
unfolding insert
set_advertised_tools advertised s = record s {
  advertised_tools = visible_if advertised;
  tool_list_cache = none;
}

-- The cache is filled where it is not valid.
abbrev pub cached : Option (List Tool) → Registry → List Tool × Registry
cached (some tools) s = (tools, s)
cached none s = (build_tool_list s, record s { tool_list_cache = some (build_tool_list s) })

unfoldable pub ensure_cache : Registry → List Tool × Registry
ensure_cache s = cached s.tool_list_cache s

-- A valid cache is what would be built.
unfoldable pub Coherent : Registry → Type 0
Coherent s = (tools : List Tool) → s.tool_list_cache ≡ some tools → tools ≡ build_tool_list s
