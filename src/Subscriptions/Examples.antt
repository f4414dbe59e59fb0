-- ===== src/Subscriptions/Examples.antt =====
-- The theorems on subscriptions at concrete inputs, and runs of the code.
use go_clockify.Base.{ℕ, ◌≡◌, refl, true, false, some, List, [], ◌∷◌, ℕ_eq, String_eq}
use go_clockify.Base.Assoc.{lookup, insert, erase}
use go_clockify.Subscriptions.Table.{stream, Notifier_eq, has_any_uri, add, remove, release_ref}
use go_clockify.Subscriptions.Runs.{
  Operation, subscribe, unsubscribe, run, spec_run, after, has_any_uri_iff,
}
use go_clockify.Subscriptions.Delivery.{
  NotifierHub, remove_notifier, ResourceUpdateDelta, notify_resource_updated, receipts,
  add_notifier, set_notifier,
}
use go_clockify.Subscriptions.Receipts.{
  peers, notify_resource_updated-receipts, remove_notifier-silences,
}

-- Two streams subscribe to an entry, one twice; the second leaves a project again.
abbrev session : List Operation
session =
    subscribe (some (stream 1)) "entry"
    ∷ subscribe (some (stream 2)) "entry"
    ∷ subscribe (some (stream 1)) "entry"
    ∷ subscribe (some (stream 2)) "project"
    ∷ unsubscribe (some (stream 2)) "project"
    ∷ []

abbrev two_streams : NotifierHub
two_streams = record { notifiers = (0, 1) ∷ (1, 2) ∷ []; next_id = 2 }

abbrev removed_entry : ResourceUpdateDelta ℕ
removed_entry = record { format = "deleted"; patch = 0 }

has_any_uri_iff_example : has_any_uri "entry" (after session) ≡ true
unfolding spec_run
has_any_uri_iff_example = (has_any_uri_iff session "entry").1 (stream 2, refl)

has_any_uri_project : has_any_uri "project" (after session) ≡ false
unfolding has_any_uri run add remove lookup insert erase release_ref
has_any_uri_project = refl

notify_resource_updated-receipts_example :
    receipts 1 (notify_resource_updated "entry" removed_entry (peers two_streams session)) ≡ 1
unfolding spec_run
notify_resource_updated-receipts_example =
    notify_resource_updated-receipts session two_streams "entry" removed_entry 1 refl

remove_notifier-silences_example :
    receipts 1 (
      notify_resource_updated "entry" removed_entry
        (remove_notifier 0 1 (peers two_streams session)))
    ≡ 0
unfolding spec_run lookup
remove_notifier-silences_example =
    remove_notifier-silences session two_streams 0 1 "entry" removed_entry refl refl 1

-- The stream that a later one replaces is out of the hub and of the table.
set_notifier_replaces :
    (set_notifier 3 (some (1, 2)) (peers two_streams session)).0.hub.notifiers
    ≡ (2, 3) ∷ (0, 1) ∷ []
unfolding set_notifier add_notifier remove_notifier insert erase
set_notifier_replaces = refl
