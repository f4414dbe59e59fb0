-- ===== src/Session/Progress.antt =====
-- `AllowProgress` of internal/mcp/server.go. A progress value is a float64 that the code only compares:
-- it is no number, or has a place in the order of the numbers, those below zero included. Times are nanoseconds, above 0 as a clock gives them, with 0
-- for Go's zero time.
use go_clockify.Base.{
  ℕ, ◌+◌, ◌-◌, ◌≤◌, ◌<◌, ◌≡◌, refl, Bool, true, false, ◌&&◌, ◌||◌, Option, none, some, List, [],
  ◌∷◌, arith, ltb, leb, if◌then◌else◌, ◌==◌, ℕ_eq, String_eq, ℤ, pos, not, negsuc,
}

abbrev pub max_progress_notifications_per_second : ℕ
max_progress_notifications_per_second = 10

abbrev pub second : ℕ
second = 1_000_000_000

-- A float64: the one that is no number, or one by its place among the numbers, in which zero has place 0.
pub data Progress : Type 0 where
  nan : Progress
  at : ℤ → Progress

abbrev places_le : ℤ → ℤ → Bool
places_le (pos a) (pos b) = leb a b
places_le (pos a) (negsuc b) = false
places_le (negsuc a) (pos b) = true
places_le (negsuc a) (negsuc b) = leb b a

-- p <= q, which is false where one of them is no number.
abbrev pub at_most : Progress → Progress → Bool
at_most nan q = false
at_most (at a) nan = false
at_most (at a) (at b) = places_le a b

-- p < q
abbrev pub is_below : Progress → Progress → Bool
is_below (at a) (at b) = not (places_le b a)
is_below p q = false

pub record ProgressTokenState : Type 0 where
  pub last_progress : Progress
  pub has_progress : Bool
  pub window_start : ℕ
  pub window_count : ℕ

abbrev pub new_token_state : ProgressTokenState
new_token_state = record {
  last_progress = at (pos 0);
  has_progress = false;
  window_start = 0;
  window_count = 0;
}

abbrev roll : ℕ → ProgressTokenState → ProgressTokenState
roll now st =
    if (st.window_start == 0) || leb second (now - st.window_start)
    then record st { window_start = now; window_count = 0 }
    else st

-- The part under the lock, for a token that is registered.
unfoldable pub allow_progress : ℕ → Progress → ProgressTokenState → ProgressTokenState × Bool
allow_progress now progress st =
    let rolled = roll now st in
    if st.has_progress && at_most progress st.last_progress
    then (st, false)
    else if leb max_progress_notifications_per_second rolled.window_count
    then (rolled, false)
    else (
      record rolled {
        window_count = rolled.window_count + 1;
        last_progress = progress;
        has_progress = true;
      },
      true,
    )

-- A sequence of attempts, each with its time and progress; what was let through.
unfoldable pub allow_all : List (ℕ × Progress) → ProgressTokenState → List (ℕ × Progress)
allow_all [] st = []
allow_all ((now, progress) ∷ attempts) st =
    let answer = allow_progress now progress st in
    let later = allow_all attempts answer.0 in if answer.1 then (now, progress) ∷ later else later

abbrev pub is_number : Progress → Bool
is_number nan = false
is_number (at a) = true

-- No attempt has a progress that is no number.
abbrev pub Numbers : List (ℕ × Progress) → Type 0
Numbers [] = Unit
Numbers ((now, progress) ∷ later) = (is_number progress ≡ true) × Numbers later

-- The progress values of a list are above the bound and increase from one to the next.
abbrev pub Increasing : (bound : Option Progress) → List (ℕ × Progress) → Type 0
Increasing bound [] = Unit
Increasing none ((now, progress) ∷ later) = Increasing (some progress) later
Increasing (some b) ((now, progress) ∷ later) =
    (is_below b progress ≡ true) × Increasing (some progress) later

abbrev pub bound_of : ProgressTokenState → Option Progress
bound_of st = if st.has_progress then some st.last_progress else none

-- Whenever what numbers are attempted, fractions and negative ones included, those that are let through
-- for one token increase strictly, and begin above the last one that was let through before, which is a
-- number.
pub allow_all-Increasing :
    (attempts : List (ℕ × Progress)) (st : ProgressTokenState)
    → Numbers attempts
    → is_number st.last_progress ≡ true
    → Increasing (bound_of st) (allow_all attempts st)
unfolding allow_all allow_progress
allow_all-Increasing [] st h k = tt
allow_all-Increasing ((now, progress) ∷ attempts) st h k =
    ground (arith, allow_all-Increasing attempts (allow_progress now progress st).0, h, k)

-- How many of the attempts within a stretch of time are let through.
abbrev pub within : (from until : ℕ) → List (ℕ × Progress) → ℕ
within from until [] = 0
within from until ((now, progress) ∷ later) =
    (if leb from now && ltb now until then 1 else 0) + within from until later

-- The times of attempts do not go back.
abbrev pub Ordered : (now : ℕ) → List (ℕ × Progress) → Type 0
Ordered now [] = Unit
Ordered now ((t, progress) ∷ later) = (now ≤ t) × (0 < t) × Ordered t later

module _ (from until : ℕ) where
  nothing_later :
      (attempts : List (ℕ × Progress)) (st : ProgressTokenState) (now : ℕ)
      → until ≤ now
      → Ordered now attempts
      → within from until (allow_all attempts st) ≡ 0
  unfolding allow_all
  nothing_later [] st now h o = refl
  nothing_later ((t, progress) ∷ attempts) st now h o =
      ground (arith, nothing_later attempts (allow_progress t progress st).0 t, o)

  -- Where the stretch ends with the current window, the window's count bounds it.
  in_window :
      (attempts : List (ℕ × Progress)) (st : ProgressTokenState) (now : ℕ)
      → until ≤ st.window_start + second
      → 0 < st.window_start
      → st.window_count ≤ 10
      → Ordered now attempts
      → within from until (allow_all attempts st) + st.window_count ≤ 10
  unfolding allow_all allow_progress
  in_window [] st now u p c o = omega arith
  in_window ((t, progress) ∷ attempts) st now u p c o =
      let st' = (allow_progress t progress st).0 in
      ground (arith, in_window attempts st' t, nothing_later attempts st' t, o)

-- What may count against a second that has begun.
abbrev spent : (from now : ℕ) → ProgressTokenState → ℕ
spent from now st = if leb from now then st.window_count else 0

in_two_windows :
    (from : ℕ) (attempts : List (ℕ × Progress)) (st : ProgressTokenState) (now : ℕ)
    → st.window_count ≤ 10
    → Ordered now attempts
    → within from (from + second) (allow_all attempts st) + spent from now st ≤ 20
unfolding allow_all allow_progress
in_two_windows from [] st now c o = ground arith
in_two_windows from ((t, progress) ∷ attempts) st now c o =
    let st' = (allow_progress t progress st).0 in
    ground
      (arith, in_two_windows from attempts st' t, in_window from (from + second) attempts st' t, o)

-- Of the attempts for one token, whatever their times, if these do not go back, at most twenty are let
-- through in any stretch of one second. Ten are in each of the two windows that the stretch may touch.
pub allow_all-capped :
    (attempts : List (ℕ × Progress)) (now from : ℕ)
    → Ordered now attempts
    → within from (from + second) (allow_all attempts new_token_state) ≤ 20
allow_all-capped attempts now from o =
    ground (arith, in_two_windows from attempts new_token_state now (omega arith) o)
