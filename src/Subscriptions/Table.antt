-- ===== src/Subscriptions/Table.antt =====
-- `resourceSubscriptions` of internal/mcp/resources.go. Go's maps are association lists. A notifier is
-- an interface value, of which the code only asks whether two are the same: a connected stream is a
-- number here.
use go_clockify.Base.{
  ℕ, ◌+◌, ◌-◌, String, ◌≡◌, ◌↔◌, Bool, true, false, Option, none, some, List, [], ◌∷◌, arith, ltb,
  if◌then◌else◌, Testable, ◌==◌, beq_iff, ℕ_eq, String_eq,
}
use go_clockify.Base.Assoc.{lookup, insert, erase}

-- The sentinel for a subscription that came without a notifier, and the connected streams.
pub data Notifier : Type 0 where
  broadcast_subscriber : Notifier
  stream : ℕ → Notifier

abbrev same_notifier : Notifier → Notifier → Bool
same_notifier broadcast_subscriber broadcast_subscriber = true
same_notifier (stream i) (stream j) = i == j
same_notifier _ _ = false

pub same_notifier_iff : (a b : Notifier) → (same_notifier a b ≡ true) ↔ (a ≡ b)
same_notifier_iff broadcast_subscriber broadcast_subscriber = ground arith
same_notifier_iff broadcast_subscriber (stream j) = ground arith
same_notifier_iff (stream i) broadcast_subscriber = ground arith
same_notifier_iff (stream i) (stream j) = ground (arith, beq_iff i j)

instance abbrev pub Notifier_eq : Testable Notifier
Notifier_eq = record { test = same_notifier; test_iff = same_notifier_iff }

-- map[string]struct{}
abbrev pub Uris : Type 0
Uris = List (String × Unit {0})

pub record ResourceSubscriptions : Type 0 where
  pub by_notifier : List (Notifier × Uris)
  pub refcount : List (String × ℕ)

abbrev pub no_subscriptions : ResourceSubscriptions
no_subscriptions = record { by_notifier = []; refcount = [] }

abbrev pub or_broadcast : Option Notifier → Notifier
or_broadcast none = broadcast_subscriber
or_broadcast (some n) = n

abbrev pub or_empty : Option Uris → Uris
or_empty none = []
or_empty (some set) = set

abbrev pub or_zero : Option ℕ → ℕ
or_zero none = 0
or_zero (some n) = n

abbrev pub is_some {ℓ} : {A : Type ℓ} → Option A → Bool
is_some none = false
is_some (some a) = true

-- r.refcount[uri], which is 0 where the key is missing.
abbrev pub refs : String → List (String × ℕ) → ℕ
refs uri counts = or_zero (lookup uri counts)

-- The guarded decrement that drops the entry at 0.
unfoldable pub release_ref : String → List (String × ℕ) → List (String × ℕ)
release_ref uri counts =
    if ltb 0 (refs uri counts)
    then (if (refs uri counts - 1) == 0
        then erase uri (insert uri (refs uri counts - 1) counts)
        else insert uri (refs uri counts - 1) counts)
    else counts

unfoldable pub add : Option Notifier → String → ResourceSubscriptions → ResourceSubscriptions
add notifier uri r =
    let n = or_broadcast notifier in
    let set = or_empty (lookup n r.by_notifier) in
    if is_some (lookup uri set) then r else record {
      by_notifier = insert n (insert uri tt set) r.by_notifier;
      refcount = insert uri (refs uri r.refcount + 1) r.refcount;
    }

-- A notifier whose last subscription goes leaves the map.
abbrev pub keep_nonempty : Notifier → Uris → List (Notifier × Uris) → List (Notifier × Uris)
keep_nonempty n [] m = erase n m
keep_nonempty n (entry ∷ set) m = insert n (entry ∷ set) m

unfoldable pub remove : Option Notifier → String → ResourceSubscriptions → ResourceSubscriptions
remove notifier uri r =
    let n = or_broadcast notifier in
    elim (lookup n r.by_notifier) [
      | none ↦ r
      | some set ↦
          if is_some (lookup uri set)
          then record {
            by_notifier = keep_nonempty n (erase uri set) r.by_notifier;
            refcount = release_ref uri r.refcount;
          }
          else r
    ]

-- The loop over the dropped notifier's set.
unfoldable pub release_all : Uris → List (String × ℕ) → List (String × ℕ)
release_all [] counts = counts
release_all ((uri, present) ∷ set) counts = release_all set (release_ref uri counts)

unfoldable pub drop_notifier : Option Notifier → ResourceSubscriptions → ResourceSubscriptions
drop_notifier none r = r
drop_notifier (some n) r = elim (lookup n r.by_notifier) [
  | none ↦ r
  | some set ↦ record { by_notifier = erase n r.by_notifier; refcount = release_all set r.refcount }
]

unfoldable pub has_any_uri : String → ResourceSubscriptions → Bool
has_any_uri uri r = ltb 0 (refs uri r.refcount)

-- The loop of `targetsFor`, with the streams before the flag.
unfoldable pub collect : String → List (Notifier × Uris) → List ℕ × Bool
collect uri [] = ([], false)
collect uri ((broadcast_subscriber, set) ∷ m) =
    let rest = collect uri m in if is_some (lookup uri set) then (rest.0, true) else rest
collect uri ((stream i, set) ∷ m) =
    let rest = collect uri m in if is_some (lookup uri set) then (i ∷ rest.0, rest.1) else rest

unfoldable pub targets_for : String → ResourceSubscriptions → List ℕ × Bool
targets_for uri r = if refs uri r.refcount == 0 then ([], false) else collect uri r.by_notifier
