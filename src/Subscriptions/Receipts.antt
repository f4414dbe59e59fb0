-- ===== src/Subscriptions/Receipts.antt =====
-- Which streams `NotifyResourceUpdated` of internal/mcp/resources.go reaches, and how often.
use go_clockify.Base.{
  ℕ, String, ◌≡◌, refl, sym, ◌∙◌, true, false, some, List, [], ◌∷◌, arith, if◌then◌else◌, ◌==◌,
  ℕ_eq, String_eq,
}
use go_clockify.Base.Assoc.{lookup}
use go_clockify.Subscriptions.Table.{
  broadcast_subscriber, stream, Notifier_eq, is_some, targets_for,
}
use go_clockify.Subscriptions.Counts.{one_if, Counted}
use go_clockify.Subscriptions.Kept.{drop_notifier-Counted}
use go_clockify.Subscriptions.Runs.{
  Operation, spec_run, view, after, after-Counted, run-spec_run, view-drop_notifier,
}
use go_clockify.Subscriptions.Delivery.{
  NotifierHub, Peers, remove_notifier, ResourceUpdateDelta, update_params, notify_resource_updated,
  is_empty, occurrences, receipts, registrations, receipts-send_all, receipts-notify,
  targets_for-streams, targets_for-broadcast,
}

occurrences-is_empty : (i : ℕ) (ns : List ℕ) → is_empty ns ≡ true → occurrences i ns ≡ 0
occurrences-is_empty i [] h = refl
occurrences-is_empty i (n ∷ ns) h = ground arith

receipts-view :
    {P : Type 0} (v : String) (delta : ResourceUpdateDelta P) (s : Peers) (i : ℕ)
    → Counted s.subscriptions
    → (v == "") ≡ false
    → receipts i (notify_resource_updated v delta s) ≡ (
        if view s.subscriptions broadcast_subscriber v
        then registrations i s.hub.notifiers
        else one_if (view s.subscriptions (stream i) v))
unfolding notify_resource_updated
receipts-view v delta s i c h =
    let found = targets_for v s.subscriptions in
    ground (
      arith,
      h,
      targets_for-streams v s.subscriptions c i,
      targets_for-broadcast v s.subscriptions c,
      occurrences-is_empty i found.0,
      receipts-send_all i (update_params v delta) found.0,
      receipts-notify i (update_params v delta) s.hub.notifiers,
    )

receipts-no_uri :
    {P : Type 0} (v : String) (delta : ResourceUpdateDelta P) (s : Peers) (i : ℕ)
    → (v == "") ≡ true
    → receipts i (notify_resource_updated v delta s) ≡ 0
unfolding notify_resource_updated
receipts-no_uri v delta s i h = ground (arith, h)

-- The peers after a sequence of operations on the subscriptions.
abbrev pub peers : NotifierHub → List Operation → Peers
peers hub ops = record { hub = hub; subscriptions = after ops }

-- After any sequence of operations, an update of a resource reaches each stream that is subscribed
-- to it by the set that the sequence describes once, and no other stream. Where the sentinel is
-- subscribed, it reaches each stream as often as it is registered with the hub instead.
pub notify_resource_updated-receipts :
    {P : Type 0} (ops : List Operation) (hub : NotifierHub) (v : String)
    (delta : ResourceUpdateDelta P) (i : ℕ)
    → (v == "") ≡ false
    → receipts i (notify_resource_updated v delta (peers hub ops)) ≡ (
        if spec_run ops (λ n u. false) broadcast_subscriber v
        then registrations i hub.notifiers
        else one_if (spec_run ops (λ n u. false) (stream i) v))
notify_resource_updated-receipts ops hub v delta i h =
    rw (sym (run-spec_run ops broadcast_subscriber v)) (
      rw (sym (run-spec_run ops (stream i) v))
        (receipts-view v delta (peers hub ops) i (after-Counted ops) h))

module _ {P : Type 0} (id n : ℕ) (v : String) (delta : ResourceUpdateDelta P) (s : Peers) where
  -- Removing a registered stream silences it, by the table alone.
  silenced :
      (i : ℕ)
      → Counted s.subscriptions
      → is_some (lookup id s.hub.notifiers) ≡ true
      → view s.subscriptions broadcast_subscriber v ≡ false
      → receipts i (notify_resource_updated v delta (remove_notifier id n s))
        ≡ (if n == i then 0 else receipts i (notify_resource_updated v delta s))
  unfolding remove_notifier
  silenced i c p q =
      let r = s.subscriptions in
      let t = remove_notifier id n s in
      let d = drop_notifier-Counted (some (stream n)) r c in
      ground (
        arith,
        p,
        q,
        d,
        receipts-no_uri v delta t i,
        receipts-no_uri v delta s i,
        receipts-view v delta t i,
        receipts-view v delta s i c,
        view-drop_notifier (some (stream n)) r broadcast_subscriber v,
        view-drop_notifier (some (stream n)) r (stream i) v,
      )

-- After any sequence of operations that leaves the sentinel unsubscribed, once a registered stream is
-- removed from the hub no update reaches it, and every other stream is reached as before.
pub remove_notifier-silences :
    {P : Type 0} (ops : List Operation) (hub : NotifierHub) (id n : ℕ) (v : String)
    (delta : ResourceUpdateDelta P)
    → is_some (lookup id hub.notifiers) ≡ true
    → spec_run ops (λ m u. false) broadcast_subscriber v ≡ false
    → (i : ℕ)
    → receipts i (notify_resource_updated v delta (remove_notifier id n (peers hub ops)))
      ≡ (if n == i then 0 else receipts i (notify_resource_updated v delta (peers hub ops)))
remove_notifier-silences ops hub id n v delta p q i =
    silenced id n v delta (peers hub ops) i (after-Counted ops) p
      (run-spec_run ops broadcast_subscriber v ∙ q)
