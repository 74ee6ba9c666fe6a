-- ===== src/Mutation/View.antt =====
-- The queue as it looks to one field: each field has a queue of its own, which no event of another
-- field touches.
use open_kritt.Prelude.{
  ℕ, ◌+◌, String, ◌≡◌, refl, Bool, true, false, ◌&&◌, Option, none, some, List, [], ◌∷◌, eq_refl,
  ◌∙◌, inl, inr, Bool-cases, ◌==◌, if◌then◌else◌, map_get, map_set, map_get-map_set_same,
  map_get-map_set_other,
}
use open_kritt.Mutation.{
  key_for, Item, FieldState, Overlay, Queue, Output, started, answered, Event, enqueue, respond,
  finish, dispose, World, drain_from, state_or_new, enqueue_item, in_phase, is_none, is_overlay,
}

module _ {V : Type 0} where
  -- The value of the newest request of a field that was sent.
  abbrev pub last_started : String → List (Output V) → Option V
  last_started k [] = none
  last_started k (started j v ∷ l) = if j == k then some v else last_started k l
  last_started k (_ ∷ l) = last_started k l

  -- The newest request of a field has no answer yet.
  abbrev pub in_flight : String → List (Output V) → Bool
  in_flight k [] = false
  in_flight k (started j v ∷ l) = if j == k then true else in_flight k l
  in_flight k (answered j v ∷ l) = if j == k then false else in_flight k l
  in_flight k (_ ∷ l) = in_flight k l

module _ (V : Type 0) where
  pub record View : Type 0 where
    pub state : Option (FieldState V)
    pub overlay : Option (Overlay V)
    pub started_last : Option V
    pub sent_last : Option V
    pub flying : Bool

module _ {V : Type 0} where
  abbrev pub view : String → World V → View V
  view k w = record {
    state = map_get k w.queue.states;
    overlay = map_get k w.queue.overlays;
    started_last = last_started k w.log;
    sent_last = map_get k w.sent;
    flying = in_flight k w.log;
  }

  abbrev pub drain_view : Option (Item V) → Option (Item V) → View V → View V
  drain_view (some _) queued v = v
  drain_view none none v = v
  drain_view none (some item) v = record v {
    state = some (record { active = some item; queued = none; answered = false });
    started_last = some item.value;
    flying = true;
  }

  abbrev pub enqueue_view : Overlay V → View V → View V
  enqueue_view o v =
      let item : Item V = record { id = o.id; value = o.value } in
      let s = record (state_or_new v.state) { queued = some item } in
      drain_view s.active s.queued
        (record v { state = some s; overlay = some o; sent_last = some o.value })

  abbrev pub respond_view : Option (Item V × FieldState V) → View V → View V
  respond_view none v = v
  respond_view (some (item, s)) v =
      let latest = is_overlay item.id v.overlay && is_none s.queued in
      record v {
        state = some (record s { answered = true });
        overlay = if latest then none else v.overlay;
        flying = false;
      }

  abbrev pub finish_view : Option (Item V × FieldState V) → View V → View V
  finish_view none v = v
  finish_view (some (item, s)) v =
      let idle : FieldState V = record { active = none; queued = s.queued; answered = false } in
      if is_none s.queued
      then record v { state = none }
      else drain_view none s.queued (record v { state = some idle })

  -- What the event does at the field `k`.
  abbrev pub act_view : String → ℕ → Event V → View V → View V
  act_view k id (enqueue scope field_name value) v =
      if key_for scope field_name == k
      then enqueue_view (record { id = id; scope = scope; field_name = field_name; value = value })
          v
      else v
  act_view k id (respond j success) v =
      if j == k then respond_view (in_phase false v.state) v else v
  act_view k id (finish j) v = if j == k then finish_view (in_phase true v.state) v else v
  act_view k id dispose v = v

  unfoldable pub world : Queue V → List (Output V) → List (String × V) → World V
  world q log sent = record { queue = q; log = log; sent = sent }

  pub view-drain_same :
      (k j : String) (a b : Option (Item V)) (q : Queue V) (log : List (Output V))
      (sent : List (String × V))
      → (j == k) ≡ true
      → let r = drain_from j a b q log in
        view k (world r.0 r.1 sent) ≡ drain_view a b (view k (world q log sent))
  unfolding drain_from world
  view-drain_same k j (some _) b q log sent e = refl
  view-drain_same k j none none q log sent e = refl
  view-drain_same k j none (some item) q log sent e =
      rw (e, map_get-map_set_same j k _ q.states e) refl

  pub view-drain_other :
      (k j : String) (a b : Option (Item V)) (q : Queue V) (log : List (Output V))
      (sent : List (String × V))
      → (j == k) ≡ false
      → let r = drain_from j a b q log in view k (world r.0 r.1 sent) ≡ view k (world q log sent)
  unfolding drain_from world
  view-drain_other k j (some _) b q log sent e = refl
  view-drain_other k j none none q log sent e = refl
  view-drain_other k j none (some item) q log sent e =
      rw (e, map_get-map_set_other j k _ q.states e) refl

  pub view-enqueue_same :
      (scope field_name : String) (x : V) (q : Queue V) (log : List (Output V))
      (sent : List (String × V))
      → q.disposed ≡ false
      → let k = key_for scope field_name in
        let r = enqueue_item scope field_name x q log in
        view k (world r.0 r.1 ((k, x) ∷ sent))
        ≡ enqueue_view
            (record { id = q.sequence + 1; scope = scope; field_name = field_name; value = x })
            (view k (world q log sent))
  unfolding enqueue_item world
  view-enqueue_same scope field_name x q log sent d =
      let k = key_for scope field_name in
      let id = q.sequence + 1 in
      let i : Item V = record { id = id; value = x } in
      let o : Overlay V = record { id = id; scope = scope; field_name = field_name; value = x } in
      let s : FieldState V = record (state_or_new (map_get k q.states)) { queued = some i } in
      rw d (
        view-drain_same k k s.active s.queued
          (record {
            sequence = id;
            disposed = false;
            states = map_set k s q.states;
            overlays = map_set k o q.overlays;
          })
          log ((k, x) ∷ sent) (eq_refl k)
        ∙ rw
            (
              eq_refl k,
              map_get-map_set_same k k s q.states (eq_refl k),
              map_get-map_set_same k k o q.overlays (eq_refl k),
            )
            refl)

  pub view-enqueue_other :
      (k scope field_name : String) (x : V) (q : Queue V) (log : List (Output V))
      (sent : List (String × V))
      → (key_for scope field_name == k) ≡ false
      → let r = enqueue_item scope field_name x q log in
        view k (world r.0 r.1 ((key_for scope field_name, x) ∷ sent)) ≡ view k (world q log sent)
  unfolding enqueue_item world
  view-enqueue_other k scope field_name x q log sent e =
      let j = key_for scope field_name in
      let id = q.sequence + 1 in
      let i : Item V = record { id = id; value = x } in
      let o : Overlay V = record { id = id; scope = scope; field_name = field_name; value = x } in
      let s : FieldState V = record (state_or_new (map_get j q.states)) { queued = some i } in
      elim (Bool-cases q.disposed) [
        | inl d ↦ rw (d, e) refl
        | inr d ↦ rw d (
            view-drain_other k j s.active s.queued
              (record {
                sequence = id;
                disposed = false;
                states = map_set j s q.states;
                overlays = map_set j o q.overlays;
              })
              log ((j, x) ∷ sent) e
            ∙ rw
                (
                  e,
                  map_get-map_set_other j k s q.states e,
                  map_get-map_set_other j k o q.overlays e,
                )
                refl)
      ]
