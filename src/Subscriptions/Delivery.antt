-- ===== src/Subscriptions/Delivery.antt =====
-- Who a resource's update is delivered to: `NotifyResourceUpdated` of internal/mcp/resources.go,
-- `notifierHub` of internal/mcp/notifier_hub.go, and the server's `AddNotifier`, `SetNotifier` and
-- `Notify`. A delivery is a stream and what it is sent; the error of a delivery is only logged.
use go_clockify.Base.{
  ℕ, ◌+◌, String, ◌≡◌, refl, Bool, true, false, not, ◌&&◌, ◌||◌, Option, none, some, List, [], ◌∷◌,
  arith, if◌then◌else◌, ◌==◌, beq_iff, ℕ_eq, String_eq,
}
use go_clockify.Base.Assoc.{lookup, insert, erase, Distinct}
use go_clockify.Subscriptions.Table.{
  Notifier, broadcast_subscriber, stream, Notifier_eq, Uris, ResourceSubscriptions, is_some, refs,
  drop_notifier, collect, targets_for,
}
use go_clockify.Subscriptions.Counts.{has, one_if, Counted}
use go_clockify.Subscriptions.Runs.{view, subscriber_counted}

pub record NotifierHub : Type 0 where
  pub notifiers : List (ℕ × ℕ)
  pub next_id : ℕ

pub record Peers : Type 0 where
  pub hub : NotifierHub
  pub subscriptions : ResourceSubscriptions

-- The identifier stands for the closure that removes the notifier again.
unfoldable pub add_notifier : ℕ → Peers → Peers × ℕ
unfolding insert
add_notifier n s =
    let id = s.hub.next_id in
    (record s { hub = record { notifiers = insert id n s.hub.notifiers; next_id = id + 1 } }, id)

-- The closure, of the identifier and the notifier that it was made for.
unfoldable pub remove_notifier : ℕ → ℕ → Peers → Peers
remove_notifier id n s = record {
  hub = record s.hub { notifiers = erase id s.hub.notifiers };
  subscriptions =
      if is_some (lookup id s.hub.notifiers)
      then drop_notifier (some (stream n)) s.subscriptions
      else s.subscriptions;
}

abbrev remove_previous : Option (ℕ × ℕ) → Peers → Peers
remove_previous none s = s
remove_previous (some (id, n)) s = remove_notifier id n s

-- `previous` is the closure that the last call left in `setNotifierRemove`, as its two captured values.
unfoldable pub set_notifier : ℕ → (previous : Option (ℕ × ℕ)) → Peers → Peers × Option (ℕ × ℕ)
set_notifier n previous s =
    let added = add_notifier n (remove_previous previous s) in (added.0, some (added.1, n))

pub record ResourceUpdateDelta (P : Type 0) : Type 0 where
  pub format : String
  pub patch : P

pub record UpdateParams (P : Type 0) : Type 0 where
  pub uri : String
  pub format : Option String
  pub patch : Option P

-- Each stream in turn is sent the same.
abbrev pub send_all {ℓ} : {A : Type ℓ} → A → List ℕ → List (ℕ × A)
send_all params [] = []
send_all params (n ∷ ns) = (n, params) ∷ send_all params ns

-- `notify` of the hub.
abbrev pub notify {ℓ} : {A : Type ℓ} → A → List (ℕ × ℕ) → List (ℕ × A)
notify params [] = []
notify params ((id, n) ∷ m) = (n, params) ∷ notify params m

abbrev pub is_empty {ℓ} : {A : Type ℓ} → List A → Bool
is_empty [] = true
is_empty (x ∷ xs) = false

-- How often a stream is sent anything.
abbrev pub receipts {ℓ} : {A : Type ℓ} → ℕ → List (ℕ × A) → ℕ
receipts i [] = 0
receipts i ((n, a) ∷ sent) = one_if (n == i) + receipts i sent

-- How often a stream is registered with the hub.
abbrev pub registrations : ℕ → List (ℕ × ℕ) → ℕ
registrations i [] = 0
registrations i ((id, n) ∷ m) = one_if (n == i) + registrations i m

module _ {P : Type 0} where
  unfoldable pub update_params : String → ResourceUpdateDelta P → UpdateParams P
  update_params uri delta = record {
    uri = uri;
    format = if delta.format == "" then none else some delta.format;
    patch =
        if (delta.format == "") || (delta.format == "none") || (delta.format == "deleted")
        then none
        else some delta.patch;
  }

  unfoldable pub notify_resource_updated :
      String → ResourceUpdateDelta P → Peers → List (ℕ × UpdateParams P)
  notify_resource_updated uri delta s =
      let found = targets_for uri s.subscriptions in
      if uri == ""
      then []
      else if is_empty found.0 && not found.1
      then []
      else if found.1
      then notify (update_params uri delta) s.hub.notifiers
      else send_all (update_params uri delta) found.0

abbrev pub occurrences : ℕ → List ℕ → ℕ
occurrences i [] = 0
occurrences i (n ∷ ns) = one_if (n == i) + occurrences i ns

pub receipts-send_all :
    {A : Type 0} (i : ℕ) (a : A) (ns : List ℕ) → receipts i (send_all a ns) ≡ occurrences i ns
receipts-send_all i a [] = refl
receipts-send_all i a (n ∷ ns) = omega (arith, receipts-send_all i a ns)

pub receipts-notify :
    {A : Type 0} (i : ℕ) (a : A) (m : List (ℕ × ℕ)) → receipts i (notify a m) ≡ registrations i m
receipts-notify i a [] = refl
receipts-notify i a ((id, n) ∷ m) = omega (arith, receipts-notify i a m)

collect-streams :
    (v : String) (i : ℕ) (m : List (Notifier × Uris))
    → Distinct m
    → occurrences i (collect v m).0 ≡ one_if (has v (lookup (stream i) m))
unfolding collect lookup
collect-streams v i [] d = refl
collect-streams v i ((broadcast_subscriber, set) ∷ m) d = ground (arith, collect-streams v i m d.1)
collect-streams v i ((stream j, set) ∷ m) d =
    ground (arith, collect-streams v i m d.1, d.0, beq_iff j i)

collect-broadcast :
    (v : String) (m : List (Notifier × Uris))
    → Distinct m
    → (collect v m).1 ≡ has v (lookup broadcast_subscriber m)
unfolding collect lookup
collect-broadcast v [] d = refl
collect-broadcast v ((broadcast_subscriber, set) ∷ m) d =
    ground (arith, collect-broadcast v m d.1, d.0)
collect-broadcast v ((stream j, set) ∷ m) d = ground (arith, collect-broadcast v m d.1)

module _ (v : String) (r : ResourceSubscriptions) (c : Counted r) where
  -- Nobody is missed by the early return for a count of 0.
  uncounted : (n : Notifier) → (refs v r.refcount == 0) ≡ true → view r n v ≡ false
  uncounted n q =
      ground
        (arith, c.counts v, subscriber_counted v r.by_notifier n, beq_iff (refs v r.refcount) 0)

  pub targets_for-streams :
      (i : ℕ) → occurrences i (targets_for v r).0 ≡ one_if (view r (stream i) v)
  unfolding targets_for
  targets_for-streams i =
      ground (arith, uncounted (stream i), collect-streams v i r.by_notifier c.keys)

  pub targets_for-broadcast : (targets_for v r).1 ≡ view r broadcast_subscriber v
  unfolding targets_for
  targets_for-broadcast =
      ground (arith, uncounted broadcast_subscriber, collect-broadcast v r.by_notifier c.keys)
