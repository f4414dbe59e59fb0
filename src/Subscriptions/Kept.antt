-- ===== src/Subscriptions/Kept.antt =====
-- Every operation on the subscription table of internal/mcp/resources.go keeps its counts right.
use go_clockify.Base.{
  ◌+◌, String, ◌≡◌, Option, none, some, List, [], ◌∷◌, arith, if◌then◌else◌, ◌==◌, beq_iff, ℕ_eq,
  String_eq,
}
use go_clockify.Base.Assoc.{
  lookup, insert, erase, lookup-insert, lookup-erase, Distinct, Distinct-erase, Distinct-insert,
}
use go_clockify.Subscriptions.Table.{
  Notifier, Notifier_eq, Uris, ResourceSubscriptions, or_broadcast, or_empty, is_some, refs, add,
  keep_nonempty, remove, drop_notifier,
}
use go_clockify.Subscriptions.Counts.{
  subscribers, one_if, subscribers-erase, refs-insert, refs-release_ref, refs-release_all, Counted,
}

-- A notifier's set is replaced, or left out where it is empty.
pub lookup-keep_nonempty :
    (n k : Notifier) (set : Uris) (m : List (Notifier × Uris))
    → or_empty (lookup k (keep_nonempty n set m)) ≡ (if n == k then set else or_empty (lookup k m))
lookup-keep_nonempty n k [] m = ground (arith, lookup-erase n k m)
lookup-keep_nonempty n k (entry ∷ set) m = ground (arith, lookup-insert n k (entry ∷ set) m)

subscribers-keep_nonempty :
    (uri : String) (n : Notifier) (set : Uris) (m : List (Notifier × Uris))
    → subscribers uri (keep_nonempty n set m)
      ≡ one_if (is_some (lookup uri set)) + subscribers uri (erase n m)
unfolding subscribers insert lookup
subscribers-keep_nonempty uri n [] m = omega arith
subscribers-keep_nonempty uri n (entry ∷ set) m = ground arith

Distinct-keep_nonempty :
    (n : Notifier) (set : Uris) (m : List (Notifier × Uris))
    → Distinct m
    → Distinct (keep_nonempty n set m)
Distinct-keep_nonempty n [] m h = Distinct-erase n m h
Distinct-keep_nonempty n (entry ∷ set) m h = Distinct-insert n (entry ∷ set) m h

pub add-Counted :
    (notifier : Option Notifier) (uri : String) (r : ResourceSubscriptions)
    → Counted r
    → Counted (add notifier uri r)
unfolding add subscribers insert
add-Counted notifier uri r h =
    let n = or_broadcast notifier in
    let set = or_empty (lookup n r.by_notifier) in
    record {
      keys = ground (arith, Distinct-insert n (insert uri tt set) r.by_notifier h.keys);
      sets = λ k. ground (
        arith,
        lookup-insert n k (insert uri tt set) r.by_notifier,
        Distinct-insert uri tt set (h.sets n),
        h.sets k,
      );
      counts = λ u. ground (
        arith,
        h.counts u,
        refs-insert uri u (refs uri r.refcount + 1) r.refcount,
        lookup-insert uri u tt set,
        subscribers-erase u n r.by_notifier h.keys,
        beq_iff uri u,
      );
    }

pub remove-Counted :
    (notifier : Option Notifier) (uri : String) (r : ResourceSubscriptions)
    → Counted r
    → Counted (remove notifier uri r)
unfolding remove subscribers
remove-Counted notifier uri r h =
    let n = or_broadcast notifier in
    let set = or_empty (lookup n r.by_notifier) in
    record {
      keys = ground (arith, Distinct-keep_nonempty n (erase uri set) r.by_notifier h.keys, h.keys);
      sets = λ k. ground (
        arith,
        lookup-keep_nonempty n k (erase uri set) r.by_notifier,
        Distinct-erase uri set (h.sets n),
        h.sets k,
      );
      counts = λ u. ground (
        arith,
        h.counts u,
        refs-release_ref uri u r.refcount,
        lookup-erase uri u set,
        subscribers-keep_nonempty u n (erase uri set) r.by_notifier,
        subscribers-erase u n r.by_notifier h.keys,
        beq_iff uri u,
      );
    }

pub drop_notifier-Counted :
    (notifier : Option Notifier) (r : ResourceSubscriptions)
    → Counted r
    → Counted (drop_notifier notifier r)
unfolding drop_notifier
drop_notifier-Counted none r h = h
drop_notifier-Counted (some n) r h =
    let set = or_empty (lookup n r.by_notifier) in
    record {
      keys = ground (arith, Distinct-erase n r.by_notifier h.keys, h.keys);
      sets = λ k. ground (arith, lookup-erase n k r.by_notifier, h.sets k);
      counts = λ u. ground (
        arith,
        h.counts u,
        refs-release_all u set r.refcount (h.sets n),
        subscribers-erase u n r.by_notifier h.keys,
      );
    }
