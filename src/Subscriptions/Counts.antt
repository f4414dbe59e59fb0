-- ===== src/Subscriptions/Counts.antt =====
-- The reference counts of the subscription table of internal/mcp/resources.go agree with its sets.
use go_clockify.Base.{
  ℕ, suc, ◌+◌, ◌-◌, String, ◌≡◌, refl, Bool, true, false, Option, List, [], ◌∷◌, arith,
  if◌then◌else◌, ◌==◌, beq_iff, ℕ_eq, String_eq,
}
use go_clockify.Base.Assoc.{
  lookup, insert, erase, lookup-insert, lookup-erase, Distinct, erase_absent,
}
use go_clockify.Subscriptions.Table.{
  Notifier, Notifier_eq, Uris, ResourceSubscriptions, or_empty, is_some, refs, release_ref,
  release_all,
}

abbrev pub has : String → Option Uris → Bool
has uri set = is_some (lookup uri (or_empty set))

-- How many notifiers are subscribed to the resource.
unfoldable pub subscribers : String → List (Notifier × Uris) → ℕ
subscribers uri [] = 0
subscribers uri ((n, set) ∷ m) =
    let rest = subscribers uri m in if is_some (lookup uri set) then suc rest else rest

abbrev pub one_if : Bool → ℕ
one_if true = 1
one_if false = 0

module _ (uri : String) where
  pub subscribers-erase :
      (n : Notifier) (m : List (Notifier × Uris))
      → Distinct m
      → subscribers uri m ≡ one_if (has uri (lookup n m)) + subscribers uri (erase n m)
  unfolding subscribers lookup erase
  subscribers-erase n [] h = refl
  subscribers-erase n ((k, set) ∷ m) h =
      ground (arith, subscribers-erase n m h.1, beq_iff k n, erase_absent k m)

  pub refs-insert :
      (v : String) (n : ℕ) (counts : List (String × ℕ))
      → refs v (insert uri n counts) ≡ (if uri == v then n else refs v counts)
  refs-insert v n counts = ground (arith, lookup-insert uri v n counts)

  pub refs-release_ref :
      (v : String) (counts : List (String × ℕ))
      → refs v (release_ref uri counts) ≡ refs v counts - one_if (uri == v)
  unfolding release_ref
  refs-release_ref v counts = ground (
    arith,
    lookup-insert uri v (refs uri counts - 1) counts,
    lookup-erase uri v (insert uri (refs uri counts - 1) counts),
    beq_iff uri v,
  )

pub refs-release_all :
    (v : String) (set : Uris) (counts : List (String × ℕ))
    → Distinct set
    → refs v (release_all set counts) ≡ refs v counts - one_if (is_some (lookup v set))
unfolding release_all lookup
refs-release_all v [] counts h = omega arith
refs-release_all v ((u, present) ∷ set) counts h = ground (
  arith,
  refs-release_all v set (release_ref u counts) h.1,
  refs-release_ref u v counts,
  beq_iff u v,
)

-- The keys are distinct, in the table and in each set, and each count is the number of subscribers.
pub record Counted (r : ResourceSubscriptions) : Type 0 where
  pub keys : Distinct r.by_notifier
  pub sets : (n : Notifier) → Distinct (or_empty (lookup n r.by_notifier))
  pub counts : (uri : String) → refs uri r.refcount ≡ subscribers uri r.by_notifier
