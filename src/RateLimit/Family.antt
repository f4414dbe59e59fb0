-- ===== src/RateLimit/Family.antt =====
-- The caps on concurrent calls by risk family, internal/mcp/rate_limit.go. A buffered channel used
-- as a semaphore is the number of its taken places: a send waits while they are as many as its
-- capacity, and the release function receives one. Calls interleave; each send or receive is atomic.
use go_clockify.Base.{
  ℕ, suc, ◌+◌, ◌-◌, ◌≤◌, ◌≡◌, ap, Bool, true, false, not, ◌&&◌, ◌||◌, Option, none, some, List, [],
  ◌∷◌, ◌++◌, arith, ltb, if◌then◌else◌, ℕ_eq, String_eq,
}
use go_clockify.Risk.{
  RiskClass, has, risk_write, risk_billing, risk_admin, risk_permission_change,
  risk_external_side_effect, risk_destructive,
}

pub data Semaphore : Type 0 where
  write_sem high_sem : Semaphore

-- `newFamilyLimiter`: the capacities of the two channels.
unfoldable pub cap_of : Semaphore → ℕ
cap_of write_sem = 2
cap_of high_sem = 1

pub record FamilyLimiter : Type 0 where
  pub write : ℕ
  pub high : ℕ

abbrev pub new_family_limiter : FamilyLimiter
new_family_limiter = record { write = 0; high = 0 }

-- The `switch` of `acquire`; a read takes no semaphore.
unfoldable pub family_of : RiskClass → Option Semaphore
family_of rc =
    if has rc risk_destructive
      || has rc risk_billing
      || has rc risk_admin
      || has rc risk_permission_change
      || has rc risk_external_side_effect
    then some high_sem
    else if has rc risk_write
    then some write_sem
    else none

unfoldable pub taken : Semaphore → FamilyLimiter → ℕ
taken write_sem l = l.write
taken high_sem l = l.high

set_taken : Semaphore → ℕ → FamilyLimiter → FamilyLimiter
set_taken write_sem n l = record l { write = n }
set_taken high_sem n l = record l { high = n }

-- An attempt to acquire at a moment at which the context is done or not: `none` waits on, `false`
-- is the context's error, and `true` goes on with the place taken. Where both channels of the
-- `select` are ready, the runtime picks either: `pick_sem` is its choice.
unfoldable pub acquire :
    RiskClass → (ctx_done pick_sem : Bool) → FamilyLimiter → Option (FamilyLimiter × Bool)
unfolding set_taken taken cap_of
acquire rc ctx_done pick_sem l = elim (family_of rc) [
  | none ↦ some (l, true)
  | some sem ↦
      if ltb (taken sem l) (cap_of sem) && (pick_sem || not ctx_done)
      then some (set_taken sem (taken sem l + 1) l, true)
      else if ctx_done
      then some (l, false)
      else none
]

-- The release function that a successful `acquire` returned.
unfoldable pub release : RiskClass → FamilyLimiter → FamilyLimiter
unfolding set_taken taken
release rc l = elim (family_of rc) [ none ↦ l | some sem ↦ set_taken sem (taken sem l - 1) l ]

-- The calls that hold their family's place, by their risk classes, beside the limiter.
pub record Calls : Type 0 where
  pub limiter : FamilyLimiter
  pub running : List RiskClass

-- How many of the running calls are of the semaphore's family.
abbrev is_of : Semaphore → Option Semaphore → Bool
is_of write_sem (some write_sem) = true
is_of high_sem (some high_sem) = true
is_of _ _ = false

pub count_of : Semaphore → List RiskClass → ℕ
count_of sem [] = 0
count_of sem (rc ∷ rcs) =
    let rest = count_of sem rcs in if is_of sem (family_of rc) then suc rest else rest

-- One step of the server: a call begins once its `acquire` succeeds, gives up, or a running call,
-- wherever it stands in the list, ends and releases.
pub data Step : Calls → Calls → Type 0 where
  begin :
      (s : Calls) (rc : RiskClass) (ctx_done pick_sem : Bool) (l : FamilyLimiter)
      → acquire rc ctx_done pick_sem s.limiter ≡ some (l, true)
      → Step s (record { limiter = l; running = rc ∷ s.running })
  give_up :
      (s : Calls) (rc : RiskClass) (ctx_done pick_sem : Bool) (l : FamilyLimiter)
      → acquire rc ctx_done pick_sem s.limiter ≡ some (l, false)
      → Step s (record s { limiter = l })
  finish :
      (before after : List RiskClass) (rc : RiskClass) (s : Calls)
      → s.running ≡ before ++ rc ∷ after
      → Step s (record { limiter = release rc s.limiter; running = before ++ after })

pub data Reach : Calls → Type 0 where
  start : Reach (record { limiter = new_family_limiter; running = [] })
  next : {s t : Calls} → Reach s → Step s t → Reach t

-- The taken places are the running calls, and within the capacities.
record Inv (s : Calls) : Type 0 where
  writes : s.limiter.write ≡ count_of write_sem s.running
  highs : s.limiter.high ≡ count_of high_sem s.running
  write_cap : s.limiter.write ≤ 2
  high_cap : s.limiter.high ≤ 1

count_of-middle :
    (sem : Semaphore) (xs ys : List RiskClass) (rc : RiskClass)
    → count_of sem (xs ++ rc ∷ ys)
      ≡ (if is_of sem (family_of rc) then 1 else 0) + count_of sem (xs ++ ys)
unfolding count_of
count_of-middle sem [] ys rc = ground arith
count_of-middle sem (x ∷ xs) ys rc = ground (arith, count_of-middle sem xs ys rc)

Step-Inv : {s t : Calls} → Step s t → Inv s → Inv t
unfolding acquire release count_of
Step-Inv (begin s rc ctx_done pick_sem l e) h = ground arith
Step-Inv (give_up s rc ctx_done pick_sem l e) h = ground arith
Step-Inv (finish xs ys rc s e) h = ground (
  arith,
  count_of-middle write_sem xs ys rc,
  count_of-middle high_sem xs ys rc,
  ap (count_of write_sem) e,
  ap (count_of high_sem) e,
)

Reach-Inv : {s : Calls} → Reach s → Inv s
unfolding count_of
Reach-Inv start = ground arith
Reach-Inv (next r st) = Step-Inv st (Reach-Inv r)

-- In every reachable state of the server, whatever the interleaving, at most two ordinary writes
-- and at most one call of a high-risk family are running.
pub Reach-capped :
    (s : Calls) → Reach s → (count_of write_sem s.running ≤ 2) × (count_of high_sem s.running ≤ 1)
Reach-capped s r = ground (arith, Reach-Inv r)
