-- ===== src/Delta/Watch.antt =====
-- A subscribed client over any sequence of updates of this and other resources,
-- internal/tools/resources.go.
use go_clockify.Base.{
  String, ◌≡◌, refl, sym, ap, ◌∙◌, inl, inr, Bool, true, false, ◌||◌, Option, none, some, List, [],
  ◌∷◌, arith, if◌then◌else◌, Testable, ◌==◌, beq_iff, ℕ_eq, String_eq, Bool-cases, ℤ,
}
use mathlib.Core.Path.{subst}
use go_clockify.Base.Assoc.{lookup, lookup-erase}
use go_clockify.Json.{Value, obj, end}
use go_clockify.MergePatch.Same.{Same, equal}
use go_clockify.Delta.Cache.{
  ResourceStateCache, new_resource_state_cache, get, put, drop, get-lookup, lookup-get, lookup-put,
}
use go_clockify.Delta.Emit.{
  Codec, Delta, delta_against, emit_state, emit_resource_update, emit_resource_deleted,
  flatten_resource_contents,
}
use go_clockify.Delta.Mirror.{client_after, Mirrors, delta_against-Mirrors}

pub data Event (B : Type 0) : Type 0 where
  changed : (uri : String) (text : B) → Event B
  deleted : (uri : String) → Event B

pub record Watch (B : Type 0) : Type 0 where
  pub cache : ResourceStateCache B
  pub copy : Option Value

-- What a client that watches the resource does with what it is sent, if anything.
abbrev told : (sent : Option Delta) (fetched copy : Option Value) → Option Value
told none fetched copy = copy
told (some delta) fetched copy = client_after delta fetched copy

abbrev heard : Bool → (sent : Option Delta) (fetched copy : Option Value) → Option Value
heard true sent fetched copy = told sent fetched copy
heard false sent fetched copy = copy

module _ {B : Type 0} ⦃e : Testable B⦄ (codec : Codec B) (u : String) where
  -- One change of a resource, while the client is subscribed to the one that it watches.
  unfoldable pub watch : Event B → Watch B → Watch B
  watch (changed uri text) w =
      let sent = emit_resource_update codec uri true (some (text ∷ [])) w.cache in
      record { cache = sent.0; copy = heard (uri == u) sent.1 (codec.unmarshal text) w.copy }
  watch (deleted uri) w =
      let sent = emit_resource_deleted codec uri w.cache in
      record { cache = sent.0; copy = heard (uri == u) sent.1 none w.copy }

  unfoldable pub watch_all : List (Event B) → Watch B → Watch B
  watch_all [] w = w
  watch_all (e ∷ events) w = watch_all events (watch e w)

  -- Every document is JSON.
  abbrev pub Decodes : List (Event B) → Type 0
  Decodes [] = Unit
  Decodes (changed uri text ∷ events) =
      ((q : Value) × (codec.unmarshal text ≡ some q)) × Decodes events
  Decodes (deleted uri ∷ events) = Decodes events

  module _
      (reads_back : (v : Value)
        → (w : Value) × (codec.unmarshal (codec.marshal v) ≡ some w) × Same v w)
      (compacts : (s : B) (v : Value)
        → codec.unmarshal s ≡ some v
        → (t : B) × (codec.compact s ≡ some t)
          × (codec.unmarshal t ≡ some v)
          × (codec.is_empty t ≡ false))
      (empty_object : codec.unmarshal codec.empty_object ≡ some (obj end))
      (named : (u == "") ≡ false) where
    Is : Option Value → Value → Type 0
    Is = Mirrors codec reads_back compacts empty_object

    -- The client has what is cached for the resource.
    Synced : Watch B → Type 0
    Synced w =
        (prev : B)
        → lookup u w.cache.entries ≡ some prev
        → (p : Value) × (codec.unmarshal prev ≡ some p) × Is w.copy p

    state-Mirrors :
        (o : Option B) (text : B) (q : Value) (copy : Option Value)
        → codec.unmarshal text ≡ some q
        → ((prev : B) → o ≡ some prev → (p : Value) × (codec.unmarshal prev ≡ some p) × Is copy p)
        → Is (client_after (delta_against codec o text) (some q) copy) q
    unfolding Mirrors Is delta_against
    state-Mirrors none text q copy e s = (q, refl, equal q)
    state-Mirrors (some prev) text q copy e s =
        let (p, f, (m, c, same)) = s prev refl in
        subst (λ x. Is (client_after (delta_against codec (some prev) text) (some q) x) q) (sym c)
          (delta_against-Mirrors codec reads_back compacts empty_object prev text p q m f e same)

    emit_named :
        (uri : String) (text : B) (c : ResourceStateCache B)
        → (uri == "") ≡ false
        → emit_resource_update codec uri true (some (text ∷ [])) c
          ≡ (put uri text (get uri c).1, some (delta_against codec (lookup uri c.entries) text))
    unfolding emit_resource_update emit_state flatten_resource_contents
    emit_named uri text c q =
        ap
          (λ b.
            if b || false
            then (c, none)
            else (put uri text (get uri c).1, some (delta_against codec (get uri c).0 text)))
          q
        ∙ ap (λ o. (put uri text (get uri c).1, some (delta_against codec o text)))
            (get-lookup uri c)

    emit_unnamed :
        (uri : String) (text : B) (c : ResourceStateCache B)
        → (uri == "") ≡ true
        → emit_resource_update codec uri true (some (text ∷ [])) c ≡ (c, none)
    unfolding emit_resource_update emit_state flatten_resource_contents
    emit_unnamed uri text c q =
        ap
          (λ b.
            if b || false
            then (c, none)
            else (put uri text (get uri c).1, some (delta_against codec (get uri c).0 text)))
          q

    -- The watched resource's own change.
    own_change :
        (text : B) (q : Value) (w : Watch B)
        → codec.unmarshal text ≡ some q
        → Synced w
        → Is (watch (changed u text) w).copy q
    unfolding watch Synced
    own_change text q w e s =
        let sent = emit_resource_update codec u true (some (text ∷ [])) w.cache in
        let told_so =
          ap (λ b. heard b sent.1 (codec.unmarshal text) w.copy) ((beq_iff u u).1 refl)
          ∙ ap (λ r. told r.1 (codec.unmarshal text) w.copy) (emit_named u text w.cache named)
          ∙ ap (λ o. client_after (delta_against codec (lookup u w.cache.entries) text) o w.copy)
              e in
        subst (λ x. Is x q) (sym told_so)
          (state-Mirrors (lookup u w.cache.entries) text q w.copy e s)

    other_change :
        (uri : String) (text : B) (w : Watch B)
        → (uri == u) ≡ false
        → Synced w
        → Synced (watch (changed uri text) w)
    unfolding watch Synced
    other_change uri text w ne s prev h =
        let sent = emit_resource_update codec uri true (some (text ∷ [])) w.cache in
        let before : lookup u w.cache.entries ≡ some prev = elim (Bool-cases (uri == "")) [
          | inl q ↦ sym (ap (λ r. lookup u r.0.entries) (emit_unnamed uri text w.cache q)) ∙ h
          | inr q ↦ ground (
            arith,
            ne,
            lookup-get uri u w.cache,
            lookup-put uri text u prev (get uri w.cache).1
                (sym (ap (λ r. lookup u r.0.entries) (emit_named uri text w.cache q)) ∙ h),
          )
        ] in
        let (p, f, is) = s prev before in
        (
          p,
          f,
          subst (λ x. Is x p) (sym (ap (λ b. heard b sent.1 (codec.unmarshal text) w.copy) ne)) is,
        )

    own_Synced :
        (text : B) (q : Value) (w : Watch B)
        → codec.unmarshal text ≡ some q
        → Synced w
        → Synced (watch (changed u text) w)
    unfolding Synced watch
    own_Synced text q w e s prev h =
        let same : text ≡ prev = ground (
          arith,
          beq_iff u u,
          lookup-put u text u prev (get u w.cache).1
              (sym (ap (λ r. lookup u r.0.entries) (emit_named u text w.cache named)) ∙ h),
        ) in
        (q, ap codec.unmarshal (sym same) ∙ e, own_change text q w e s)

    -- A deletion that leaves something cached for the resource is one of another resource.
    deleted_other :
        (uri : String) (prev : B) (w : Watch B)
        → lookup u (emit_resource_deleted codec uri w.cache).0.entries ≡ some prev
        → ((uri == u) ≡ false) × (lookup u w.cache.entries ≡ some prev)
    unfolding emit_resource_deleted drop
    deleted_other uri prev w h =
        ground (arith, h, named, lookup-erase uri u w.cache.entries, beq_iff uri u)

    deletion-Synced : (uri : String) (w : Watch B) → Synced w → Synced (watch (deleted uri) w)
    unfolding watch Synced
    deletion-Synced uri w s prev h =
        let other = deleted_other uri prev w h in
        let (p, f, is) = s prev other.1 in
        let sent = emit_resource_deleted codec uri w.cache in
        (p, f, subst (λ x. Is x p) (sym (ap (λ b. heard b sent.1 none w.copy) other.0)) is)

    watch-Synced :
        (event : Event B) (w : Watch B) → Decodes (event ∷ []) → Synced w → Synced (watch event w)
    watch-Synced (changed uri text) w d s = elim (Bool-cases (uri == u)) [
      | inl q ↦
          subst (λ x. Synced (watch (changed x text) w)) (sym ((beq_iff uri u).0 q))
            (own_Synced text d.0.0 w d.0.1 s)
      | inr q ↦ other_change uri text w q s
    ]
    watch-Synced (deleted uri) w d s = deletion-Synced uri w s

    watch_all-Synced :
        (events : List (Event B)) (w : Watch B)
        → Decodes events
        → Synced w
        → Synced (watch_all events w)
    unfolding watch_all
    watch_all-Synced [] w d s = s
    watch_all-Synced (changed uri text ∷ events) w d s =
        watch_all-Synced events (watch (changed uri text) w) d.1
          (watch-Synced (changed uri text) w (d.0, tt) s)
    watch_all-Synced (deleted uri ∷ events) w d s =
        watch_all-Synced events (watch (deleted uri) w) d (watch-Synced (deleted uri) w tt s)

    -- A client that stays subscribed to a resource and begins with no copy, and with an empty cache of
    -- any capacity: after any changes and deletions of this and other resources, all of whose documents
    -- are JSON, a change of the resource leaves the client with the resource's document. Decoding reads
    -- back what is encoded up to the order of members, compacting keeps what a document decodes to, and
    -- the empty object decodes.
    pub watch_all-Mirrors :
        (capacity : ℤ) (events : List (Event B)) (text : B) (q : Value)
        → Decodes events
        → codec.unmarshal text ≡ some q
        → let start : Watch B = record { cache = new_resource_state_cache capacity; copy = none } in
          (m : Value) × ((watch (changed u text) (watch_all events start)).copy ≡ some m) × Same m q
    unfolding new_resource_state_cache Synced Mirrors lookup Is
    watch_all-Mirrors capacity events text q d e =
        let start : Watch B = record { cache = new_resource_state_cache capacity; copy = none } in
        own_change text q (watch_all events start) e
          (watch_all-Synced events start d (λ prev h. absurd (ground (arith, h))))
