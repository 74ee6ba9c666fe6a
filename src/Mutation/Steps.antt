-- ===== src/Mutation/Steps.antt =====
-- The answer and the end of a request, and then any event, as they look to one field.
use open_kritt.Prelude.{
  ◌+◌, String, ◌≡◌, refl, subst, Bool, true, false, not, ◌&&◌, Option, none, some, List, eq_refl,
  ◌∙◌, inl, inr, Bool-cases, ◌==◌, eq_iff, if◌then◌else◌, map_get, map_set, map_get-map_set_same,
  map_get-map_set_other, map_get-map_delete_same, map_get-map_delete_other,
}
use open_kritt.Mutation.{
  key_for, Item, FieldState, Overlay, Queue, Output, Event, enqueue, respond, finish, dispose,
  World, respond_item, finish_item, respond_to, finish_of, in_phase, act, is_none, is_overlay,
}
use open_kritt.Mutation.View.{
  View, view, world, enqueue_view, respond_view, finish_view, act_view, view-drain_same,
  view-drain_other, view-enqueue_same, view-enqueue_other,
}

module _ {V : Type 0} where
  view-respond_same :
      (k : String) (success : Bool) (o : Option (Item V × FieldState V)) (q : Queue V)
      (log : List (Output V)) (sent : List (String × V))
      → q.disposed ≡ false
      → let r = respond_to k success o q log in
        view k (world r.0 r.1 sent) ≡ respond_view o (view k (world q log sent))
  unfolding respond_item world
  view-respond_same k success none q log sent d = refl
  view-respond_same k success (some (i, s)) q log sent d =
      let same = map_get-map_set_same k k (record s { answered = true }) q.states (eq_refl k) in
      elim (Bool-cases (is_overlay i.id (map_get k q.overlays) && is_none s.queued)) [
        | inl l ↦ elim (Bool-cases success) [
          | inl t ↦
              rw (d, l, t, eq_refl k, same, map_get-map_delete_same k k q.overlays (eq_refl k)) refl
          | inr t ↦
              rw (d, l, t, eq_refl k, same, map_get-map_delete_same k k q.overlays (eq_refl k)) refl
        ]
        | inr l ↦ rw (d, l, eq_refl k, same) refl
      ]

  view-respond_other :
      (k j : String) (success : Bool) (o : Option (Item V × FieldState V)) (q : Queue V)
      (log : List (Output V)) (sent : List (String × V))
      → (j == k) ≡ false
      → let r = respond_to j success o q log in
        view k (world r.0 r.1 sent) ≡ view k (world q log sent)
  unfolding respond_item world
  view-respond_other k j success none q log sent e = refl
  view-respond_other k j success (some (i, s)) q log sent e =
      let other = map_get-map_set_other j k (record s { answered = true }) q.states e in
      elim (Bool-cases
        (not q.disposed && is_overlay i.id (map_get j q.overlays) && is_none s.queued)) [
          | inl l ↦ elim (Bool-cases success) [
            | inl t ↦ rw (l, t, e, other, map_get-map_delete_other j k q.overlays e) refl
            | inr t ↦ rw (l, t, e, other, map_get-map_delete_other j k q.overlays e) refl
          ]
          | inr l ↦ rw (l, e, other) refl
        ]

  view-finish_same :
      (k : String) (o : Option (Item V × FieldState V)) (q : Queue V) (log : List (Output V))
      (sent : List (String × V))
      → q.disposed ≡ false
      → let r = finish_of k o q log in
        view k (world r.0 r.1 sent) ≡ finish_view o (view k (world q log sent))
  unfolding finish_item world
  view-finish_same k none q log sent d = refl
  view-finish_same k (some (i, s)) q log sent d = elim (Bool-cases (is_none s.queued)) [
    | inl n ↦ rw (d, n, map_get-map_delete_same k k q.states (eq_refl k)) refl
    | inr n ↦
        let idle : FieldState V = record { active = none; queued = s.queued; answered = false } in
        rw (d, n)
          (view-drain_same k k none s.queued
              (record {
                sequence = q.sequence;
                disposed = false;
                states = map_set k idle q.states;
                overlays = q.overlays;
              })
              log sent (eq_refl k)
            ∙ rw (map_get-map_set_same k k idle q.states (eq_refl k)) refl)
  ]

  view-finish_other :
      (k j : String) (o : Option (Item V × FieldState V)) (q : Queue V) (log : List (Output V))
      (sent : List (String × V))
      → (j == k) ≡ false
      → let r = finish_of j o q log in view k (world r.0 r.1 sent) ≡ view k (world q log sent)
  unfolding finish_item world
  view-finish_other k j none q log sent e = refl
  view-finish_other k j (some (i, s)) q log sent e = elim (Bool-cases q.disposed) [
    | inl d ↦ rw d refl
    | inr d ↦ elim (Bool-cases (is_none s.queued)) [
      | inl n ↦ rw (d, n, map_get-map_delete_other j k q.states e) refl
      | inr n ↦
          let idle : FieldState V = record { active = none; queued = s.queued; answered = false } in
          rw (d, n)
            (view-drain_other k j none s.queued
                (record {
                  sequence = q.sequence;
                  disposed = false;
                  states = map_set j idle q.states;
                  overlays = q.overlays;
                })
                log sent e
              ∙ rw (map_get-map_set_other j k idle q.states e) refl)
    ]
  ]

  -- A branch on whether the event is about the field.
  branch :
      (b : Bool) (x y z : View V)
      → (b ≡ true → x ≡ y)
      → (b ≡ false → x ≡ z)
      → x ≡ (if b then y else z)
  branch true x y z f g = f refl
  branch false x y z f g = g refl

  -- An event is what `act_view` says, at each field, while the queue is not disposed.
  pub view-act :
      (k : String) (e : Event V) (w : World V)
      → w.queue.disposed ≡ false
      → (act w e).queue.disposed ≡ false
      → view k (act w e) ≡ act_view k (w.queue.sequence + 1) e (view k w)
  unfolding world
  view-act k (enqueue scope field_name x) w d d' =
      let o : Overlay V = record {
        id = w.queue.sequence + 1;
        scope = scope;
        field_name = field_name;
        value = x;
      } in
      branch (key_for scope field_name == k) _ _ _
        (λ e.
          subst (λ j. view j (act w (enqueue scope field_name x)) ≡ enqueue_view o (view j w))
            ((eq_iff _ k).0 e) (view-enqueue_same scope field_name x w.queue w.log w.sent d))
        (λ e. view-enqueue_other k scope field_name x w.queue w.log w.sent e)
  view-act k (respond j success) w d d' =
      branch (j == k) _ _ _
        (λ e.
          subst
            (λ i.
              view i (act w (respond j success))
              ≡ respond_view (in_phase false (map_get i w.queue.states)) (view i w))
            ((eq_iff j k).0 e)
            (view-respond_same j success (in_phase false (map_get j w.queue.states)) w.queue w.log
              w.sent d))
        (λ e.
          view-respond_other k j success (in_phase false (map_get j w.queue.states)) w.queue w.log
            w.sent e)
  view-act k (finish j) w d d' =
      branch (j == k) _ _ _
        (λ e.
          subst
            (λ i.
              view i (act w (finish j))
              ≡ finish_view (in_phase true (map_get i w.queue.states)) (view i w))
            ((eq_iff j k).0 e)
            (view-finish_same j (in_phase true (map_get j w.queue.states)) w.queue w.log w.sent d))
        (λ e.
          view-finish_other k j (in_phase true (map_get j w.queue.states)) w.queue w.log w.sent e)
  view-act k dispose w d d' = cc
