-- ===== src/Delta/Cache.antt =====
-- `resourceStateCache` of internal/tools/resource_cache.go. The linked list and its index are one list
-- of entries by recency, the last used first.
use go_clockify.Base.{
  ℕ, ◌-◌, ◌≤◌, ◌<◌, String, ◌≡◌, refl, Option, none, some, List, [], ◌∷◌, arith, ltb, if◌then◌else◌,
  ◌==◌, beq_iff, ℕ_eq, String_eq, length, ℤ, positive_or,
}
use go_clockify.Base.Assoc.{lookup, insert, erase, lookup-insert}

pub record ResourceStateCache (B : Type 0) : Type 0 where
  pub cap : ℕ
  pub entries : List (String × B)

-- One use of the cache.
pub data Use (B : Type 0) : Type 0 where
  get_use drop_use : String → Use B
  put_use : String → B → Use B

module _ {B : Type 0} where
  unfoldable pub new_resource_state_cache : ℤ → ResourceStateCache B
  new_resource_state_cache capacity = record { cap = positive_or 1024 capacity; entries = [] }

  -- A hit moves the entry to the front.
  abbrev pub hit : String → Option B → ResourceStateCache B → Option B × ResourceStateCache B
  hit uri none c = (none, c)
  hit uri (some content) c = (some content, record c { entries = insert uri content c.entries })

  unfoldable pub get : String → ResourceStateCache B → Option B × ResourceStateCache B
  unfolding insert
  get uri c = hit uri (lookup uri c.entries) c

  abbrev pub without_last : List (String × B) → List (String × B)
  without_last [] = []
  without_last (entry ∷ []) = []
  without_last (entry ∷ next ∷ entries) = entry ∷ without_last (next ∷ entries)

  -- A new entry pushes out the oldest one of a full cache.
  abbrev pub pushed : ℕ → List (String × B) → List (String × B)
  pushed cap entries = if ltb cap (length entries) then without_last entries else entries

  abbrev pub stored : String → B → Option B → ResourceStateCache B → ResourceStateCache B
  stored uri content (some old) c = record c { entries = insert uri content c.entries }
  stored uri content none c = record c { entries = pushed c.cap ((uri, content) ∷ c.entries) }

  unfoldable pub put : String → B → ResourceStateCache B → ResourceStateCache B
  unfolding insert
  put uri content c = stored uri content (lookup uri c.entries) c

  unfoldable pub drop : String → ResourceStateCache B → ResourceStateCache B
  unfolding erase
  drop uri c = record c { entries = erase uri c.entries }

  -- An entry after an eviction is the one of before or gone.
  lookup-without_last :
      (k : String) (v : B) (entries : List (String × B))
      → lookup k (without_last entries) ≡ some v
      → lookup k entries ≡ some v
  unfolding lookup
  lookup-without_last k v [] h = h
  lookup-without_last k v ((i, d) ∷ []) h = absurd (ground (arith, h))
  lookup-without_last k v ((i, d) ∷ next ∷ entries) h =
      ground (arith, h, lookup-without_last k v (next ∷ entries))

  pub get-lookup : (uri : String) (c : ResourceStateCache B) → (get uri c).0 ≡ lookup uri c.entries
  unfolding get
  get-lookup uri c = found (lookup uri c.entries)
    where
      found : (o : Option B) → (hit uri o c).0 ≡ o
      found none = refl
      found (some d) = refl

  pub lookup-get :
      (uri k : String) (c : ResourceStateCache B)
      → lookup k (get uri c).1.entries ≡ lookup k c.entries
  unfolding get
  lookup-get uri k c = found (lookup uri c.entries) refl
    where
      found :
          (o : Option B)
          → lookup uri c.entries ≡ o
          → lookup k (hit uri o c).1.entries ≡ lookup k c.entries
      found none q = refl
      found (some d) q = ground (arith, q, lookup-insert uri k d c.entries, beq_iff uri k)

  -- What a key holds after something is stored is what was stored, if it is for the key, or else what it
  -- held before.
  pub lookup-put :
      (uri : String) (content : B) (k : String) (v : B) (c : ResourceStateCache B)
      → lookup k (put uri content c).entries ≡ some v
      → (if uri == k then some content else lookup k c.entries) ≡ some v
  unfolding put lookup
  lookup-put uri content k v c = found (lookup uri c.entries)
    where
      found :
          (o : Option B)
          → lookup k (stored uri content o c).entries ≡ some v
          → (if uri == k then some content else lookup k c.entries) ≡ some v
      found (some d) h = ground (arith, h, lookup-insert uri k content c.entries)
      found none h = ground (arith, h, lookup-without_last k v ((uri, content) ∷ c.entries))

  length-without_last :
      (entries : List (String × B)) → length (without_last entries) ≡ length entries - 1
  length-without_last [] = refl
  length-without_last (entry ∷ []) = refl
  length-without_last (entry ∷ next ∷ entries) = omega (arith, length-without_last (next ∷ entries))

  length-erase :
      (k : String) (entries : List (String × B)) → length (erase k entries) ≤ length entries
  unfolding erase
  length-erase k [] = omega arith
  length-erase k ((i, d) ∷ entries) = ground (arith, length-erase k entries)

  length-erase_found :
      (k : String) (v : B) (entries : List (String × B))
      → lookup k entries ≡ some v
      → length (erase k entries) < length entries
  unfolding erase lookup
  length-erase_found k v [] h = absurd (ground (arith, h))
  length-erase_found k v ((i, d) ∷ entries) h =
      ground (arith, h, length-erase_found k v entries, length-erase k entries)

  unfoldable pub use_all : List (Use B) → ResourceStateCache B → ResourceStateCache B
  use_all [] c = c
  use_all (get_use uri ∷ uses) c = use_all uses (get uri c).1
  use_all (drop_use uri ∷ uses) c = use_all uses (drop uri c)
  use_all (put_use uri content ∷ uses) c = use_all uses (put uri content c)

  within_cap :
      (uri : String) (content : B) (c : ResourceStateCache B)
      → length c.entries ≤ c.cap
      → 0 < c.cap
      → (length (put uri content c).entries ≤ c.cap) × ((put uri content c).cap ≡ c.cap)
  unfolding put insert
  within_cap uri content c h p = found (lookup uri c.entries) refl
    where
      found :
          (o : Option B)
          → lookup uri c.entries ≡ o
          → (length (stored uri content o c).entries ≤ c.cap)
            × ((stored uri content o c).cap ≡ c.cap)
      found none q = ground (arith, h, length-without_last ((uri, content) ∷ c.entries))
      found (some d) q = (omega (arith, length-erase_found uri d c.entries q, h), refl)

  hit_cap :
      (uri : String) (c : ResourceStateCache B)
      → length c.entries ≤ c.cap
      → (length (get uri c).1.entries ≤ c.cap) × ((get uri c).1.cap ≡ c.cap)
  unfolding get insert
  hit_cap uri c h = found (lookup uri c.entries) refl
    where
      found :
          (o : Option B)
          → lookup uri c.entries ≡ o
          → (length (hit uri o c).1.entries ≤ c.cap) × ((hit uri o c).1.cap ≡ c.cap)
      found none q = (h, refl)
      found (some d) q = (omega (arith, length-erase_found uri d c.entries q, h), refl)

  use_all_cap :
      (uses : List (Use B)) (c : ResourceStateCache B)
      → length c.entries ≤ c.cap
      → 0 < c.cap
      → length (use_all uses c).entries ≤ c.cap
  unfolding use_all drop
  use_all_cap [] c h p = h
  use_all_cap (get_use uri ∷ uses) c h p =
      let k = hit_cap uri c h in
      omega (arith, use_all_cap uses (get uri c).1 (omega (arith, k)) (omega (arith, k, p)), k)
  use_all_cap (drop_use uri ∷ uses) c h p =
      use_all_cap uses (drop uri c) (omega (arith, length-erase uri c.entries, h)) p
  use_all_cap (put_use uri content ∷ uses) c h p =
      let k = within_cap uri content c h p in
      omega
        (arith, use_all_cap uses (put uri content c) (omega (arith, k)) (omega (arith, k, p)), k)

  -- A cache that begins empty never holds more entries than its capacity, which is 1024 where the
  -- configured one is not positive, whatever is stored, looked up and dropped.
  pub use_all-capped :
      (capacity : ℤ) (uses : List (Use B))
      → length (use_all uses (new_resource_state_cache capacity)).entries
        ≤ positive_or 1024 capacity
  unfolding new_resource_state_cache
  use_all-capped capacity uses =
      use_all_cap uses (record { cap = positive_or 1024 capacity; entries = [] }) (omega arith)
        (ground arith)
