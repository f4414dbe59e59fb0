-- ===== src/MergePatch/Examples.antt =====
-- Concrete documents for the theorems on merge patches. Bytes are the documents themselves here.
use go_clockify.Base.{◌≡◌, ◌⊎◌, true, ℕ_eq, String_eq}
use go_clockify.Json.Equality.{Value_eq}
use go_clockify.Json.{Value, null, bool, num, str, obj, end, field}
use go_clockify.MergePatch.Patch.{apply_any, diff_or_full, has_null, merge, full}
use go_clockify.MergePatch.Same.{Same, equal}
use go_clockify.MergePatch.RoundTrip.{diff_or_full_lem}

abbrev marshal : Value → Value
marshal v = v

reads : (a b : Value) → marshal a ≡ marshal b → Same a b
reads a b e = rw e (equal b)

-- A running timer of a project, and after it was stopped: its name stays, the running mark is gone.
abbrev before_stop : Value
before_stop = obj (
    field "name" (str "review") (
      field "interval" (obj (field "start" (num "1") (field "running" (bool true) end)))
        (field "tag" null end)))

abbrev after_stop : Value
after_stop = obj (
    field "interval" (obj (field "end" (num "9") (field "start" (num "1") end)))
      (field "name" (str "review") end))

diff_or_full_lem_example :
    let (sent, format) = diff_or_full marshal after_stop before_stop in
    ((format ≡ merge) × Same (apply_any after_stop sent) before_stop)
    ⊎ ((format ≡ full) × (sent ≡ before_stop) × (has_null before_stop ≡ true))
diff_or_full_lem_example = diff_or_full_lem marshal reads after_stop before_stop
