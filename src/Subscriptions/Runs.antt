-- ===== src/Subscriptions/Runs.antt =====
-- The subscription table of internal/mcp/resources.go implements a set of pairs of a notifier and a
-- resource, through any sequence of its operations.
use go_clockify.Base.{
  ◌<◌, String, ◌≡◌, refl, sym, ◌∙◌, ◌↔◌, inl, inr, Bool, true, false, not, ◌&&◌, ◌||◌, Option, none,
  some, List, [], ◌∷◌, arith, ◌==◌, beq_iff, ℕ_eq, String_eq, Bool-cases,
}
use go_clockify.Base.Assoc.{lookup, insert, erase, lookup-insert, lookup-erase, Distinct}
use go_clockify.Subscriptions.Table.{
  Notifier, Notifier_eq, Uris, ResourceSubscriptions, no_subscriptions, or_broadcast, or_empty,
  is_some, add, remove, drop_notifier, has_any_uri,
}
use go_clockify.Subscriptions.Counts.{has, subscribers, Counted}
use go_clockify.Subscriptions.Kept.{
  lookup-keep_nonempty, add-Counted, remove-Counted, drop_notifier-Counted,
}

pub data Operation : Type 0 where
  subscribe unsubscribe : Option Notifier → String → Operation
  disconnect : Option Notifier → Operation

unfoldable pub run : List Operation → ResourceSubscriptions → ResourceSubscriptions
run [] r = r
run (subscribe n uri ∷ ops) r = run ops (add n uri r)
run (unsubscribe n uri ∷ ops) r = run ops (remove n uri r)
run (disconnect n ∷ ops) r = run ops (drop_notifier n r)

-- The specification: who is subscribed to what.
abbrev pub Subscribed : Type 0
Subscribed = Notifier → String → Bool

abbrev is_the : Option Notifier → Notifier → Bool
is_the none m = false
is_the (some n) m = n == m

unfoldable pub spec_run : List Operation → Subscribed → Subscribed
spec_run [] s = s
spec_run (subscribe n uri ∷ ops) s =
    spec_run ops (λ m v. ((or_broadcast n == m) && (uri == v)) || s m v)
spec_run (unsubscribe n uri ∷ ops) s =
    spec_run ops (λ m v. not ((or_broadcast n == m) && (uri == v)) && s m v)
spec_run (disconnect n ∷ ops) s = spec_run ops (λ m v. not (is_the n m) && s m v)

abbrev pub view : ResourceSubscriptions → Subscribed
view r m v = has v (lookup m r.by_notifier)

view-add :
    (n : Option Notifier) (uri : String) (r : ResourceSubscriptions) (m : Notifier) (v : String)
    → view (add n uri r) m v ≡ (((or_broadcast n == m) && (uri == v)) || view r m v)
unfolding add lookup
view-add n uri r m v =
    let k = or_broadcast n in
    let set = or_empty (lookup k r.by_notifier) in
    ground (
      arith,
      lookup-insert k m (insert uri tt set) r.by_notifier,
      lookup-insert uri v tt set,
      beq_iff k m,
      beq_iff uri v,
    )

view-remove :
    (n : Option Notifier) (uri : String) (r : ResourceSubscriptions) (m : Notifier) (v : String)
    → view (remove n uri r) m v ≡ (not ((or_broadcast n == m) && (uri == v)) && view r m v)
unfolding remove lookup
view-remove n uri r m v =
    let k = or_broadcast n in
    let set = or_empty (lookup k r.by_notifier) in
    ground (
      arith,
      lookup-keep_nonempty k m (erase uri set) r.by_notifier,
      lookup-erase uri v set,
      beq_iff k m,
      beq_iff uri v,
    )

pub view-drop_notifier :
    (n : Option Notifier) (r : ResourceSubscriptions) (m : Notifier) (v : String)
    → view (drop_notifier n r) m v ≡ (not (is_the n m) && view r m v)
unfolding drop_notifier lookup
view-drop_notifier none r m v = refl
view-drop_notifier (some n) r m v = ground (arith, lookup-erase n m r.by_notifier, beq_iff n m)

spec_run-ap : (ops : List Operation) {s t : Subscribed} → s ≡ t → spec_run ops s ≡ spec_run ops t
spec_run-ap ops q i = spec_run ops (q i)

run-view :
    (ops : List Operation) (r : ResourceSubscriptions) → view (run ops r) ≡ spec_run ops (view r)
unfolding run spec_run
run-view [] r = refl
run-view (subscribe n uri ∷ ops) r =
    run-view ops (add n uri r) ∙ spec_run-ap ops (λ i m v. view-add n uri r m v i)
run-view (unsubscribe n uri ∷ ops) r =
    run-view ops (remove n uri r) ∙ spec_run-ap ops (λ i m v. view-remove n uri r m v i)
run-view (disconnect n ∷ ops) r =
    run-view ops (drop_notifier n r) ∙ spec_run-ap ops (λ i m v. view-drop_notifier n r m v i)

run-Counted : (ops : List Operation) (r : ResourceSubscriptions) → Counted r → Counted (run ops r)
unfolding run
run-Counted [] r h = h
run-Counted (subscribe n uri ∷ ops) r h = run-Counted ops (add n uri r) (add-Counted n uri r h)
run-Counted (unsubscribe n uri ∷ ops) r h =
    run-Counted ops (remove n uri r) (remove-Counted n uri r h)
run-Counted (disconnect n ∷ ops) r h =
    run-Counted ops (drop_notifier n r) (drop_notifier-Counted n r h)

no_subscriptions-Counted : Counted no_subscriptions
unfolding subscribers lookup
no_subscriptions-Counted = record { keys = tt; sets = λ n. tt; counts = λ u. refl }

abbrev nobody : Subscribed
nobody m v = false

nobody-view : view no_subscriptions ≡ nobody
unfolding lookup
nobody-view = refl

-- The state after a sequence of operations on the empty table.
abbrev pub after : List Operation → ResourceSubscriptions
after ops = run ops no_subscriptions

pub after-Counted : (ops : List Operation) → Counted (after ops)
after-Counted ops = run-Counted ops no_subscriptions no_subscriptions-Counted

-- After any sequence of subscriptions, cancellations and disconnections, a notifier is in the table
-- with a resource exactly if the set that the sequence describes holds the pair.
pub run-spec_run :
    (ops : List Operation) (m : Notifier) (v : String)
    → view (after ops) m v ≡ spec_run ops (λ n u. false) m v
run-spec_run ops m v i = (run-view ops no_subscriptions ∙ spec_run-ap ops nobody-view) i m v

some_subscriber :
    (v : String) (m : List (Notifier × Uris))
    → Distinct m
    → 0 < subscribers v m
    → (n : Notifier) × (has v (lookup n m) ≡ true)
unfolding subscribers lookup
some_subscriber v [] d h = absurd (omega arith)
some_subscriber v ((n, set) ∷ m) d h = elim (Bool-cases (is_some (lookup v set))) [
  | inl q ↦ (n, ground (arith, beq_iff n n))
  | inr q ↦
      let rest = some_subscriber v m d.1 (ground arith) in
      (rest.0, ground (arith, beq_iff n rest.0, d.0, rest.1))
]

pub subscriber_counted :
    (v : String) (m : List (Notifier × Uris)) (n : Notifier)
    → has v (lookup n m) ≡ true
    → 0 < subscribers v m
unfolding subscribers lookup
subscriber_counted v [] n h = absurd (ground arith)
subscriber_counted v ((k, set) ∷ m) n h = ground (arith, subscriber_counted v m n, beq_iff k n)

-- After any sequence of operations, the shortcut for a resource holds exactly if some notifier is
-- subscribed to it by the set that the sequence describes.
pub has_any_uri_iff :
    (ops : List Operation) (v : String)
    → (has_any_uri v (after ops) ≡ true)
      ↔ ((n : Notifier) × (spec_run ops (λ m u. false) n v ≡ true))
unfolding has_any_uri
has_any_uri_iff ops v =
    let c = after-Counted ops in
    let table = (after ops).by_notifier in
    (
      λ h.
          let found = some_subscriber v table c.keys (ground (arith, h, c.counts v)) in
          (found.0, sym (run-spec_run ops found.0 v) ∙ found.1),
      λ (n, h). ground (arith, c.counts v, subscriber_counted v table n (run-spec_run ops n v ∙ h)),
    )
