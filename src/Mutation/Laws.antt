-- ===== src/Mutation/Laws.antt =====
-- What the queue promises: one request of a field at a time, and the newest value in the end.
use open_kritt.Prelude.{
  ℕ, ◌+◌, String, ◌≡◌, refl, sym, ap, subst, ◌∙◌, Bool, true, false, not, Option, none, some, List,
  [], ◌∷◌, arith, ◌==◌, eq_iff, if◌then◌else◌, map_get, map_set, map_delete, ◌&&◌,
}
use open_kritt.Mutation.{
  Item, FieldState, Overlay, Output, started, answered, Event, enqueue, respond, finish, dispose,
  World, start, in_phase, act, run, is_none, is_overlay, state_or_new, drain_from, Queue, callback,
  respond_to, respond_item, finish_of, finish_item, enqueue_item, key_for,
}
use open_kritt.Mutation.Steps.{view-act}
use open_kritt.Mutation.View.{
  last_started, in_flight, View, view, enqueue_view, respond_view, finish_view, act_view,
}

module _ {V : Type 0} where
  -- The overlay shows the request.
  abbrev pub Shows : Item V → Option (Overlay V) → Type 0
  Shows i none = ⊥
  Shows i (some o) = (o.id ≡ i.id) × (o.value ≡ i.value)

  -- A field with the active request `a`: the newest value that the user sent is the queued one, if
  -- there is one, and else that of `a`; it is shown until it has its answer.
  abbrev pub Pending : Option (Item V) → Bool → Item V → Option (Overlay V) → Option V → Type 0
  Pending (some i) has_answer a overlay sent_last = Shows i overlay × (sent_last ≡ some i.value)
  Pending none false a overlay sent_last = Shows a overlay × (sent_last ≡ some a.value)
  Pending none true a overlay sent_last = (overlay ≡ none) × (sent_last ≡ some a.value)

  abbrev pub IsBusy : Option (Item V) → FieldState V → View V → Type 0
  IsBusy none s v = ⊥
  IsBusy (some a) s v =
      (v.started_last ≡ some a.value)
      × (v.flying ≡ not s.answered)
      × Pending s.queued s.answered a v.overlay v.sent_last

  abbrev pub IsLive : Option (FieldState V) → View V → Type 0
  IsLive none v = (v.overlay ≡ none) × (v.started_last ≡ v.sent_last) × (v.flying ≡ false)
  IsLive (some s) v = IsBusy s.active s v

  abbrev pub Live : View V → Type 0
  Live v = IsLive v.state v

  enqueue_view-Live : (o : Overlay V) (v : View V) → Live v → Live (enqueue_view o v)
  enqueue_view-Live o v h = ground arith

  respond_view-Live : (v : View V) → Live v → Live (respond_view (in_phase false v.state) v)
  respond_view-Live v h = ground arith

  finish_view-Live : (v : View V) → Live v → Live (finish_view (in_phase true v.state) v)
  finish_view-Live v h = ground arith

  if-Live : (b : Bool) (x y : View V) → Live x → Live y → Live (if b then x else y)
  if-Live true x y h k = h
  if-Live false x y h k = k

  act_view-Live : (k : String) (n : ℕ) (e : Event V) (v : View V) → Live v → Live (act_view k n e v)
  act_view-Live k n (enqueue scope field_name x) v h = if-Live _ _ _ (enqueue_view-Live _ v h) h
  act_view-Live k n (respond j success) v h = if-Live _ _ _ (respond_view-Live v h) h
  act_view-Live k n (finish j) v h = if-Live _ _ _ (finish_view-Live v h) h
  act_view-Live k n dispose v h = h

  -- A request of a field is sent only when the one before has its answer.
  abbrev pub IsSerial : String → List (Output V) → Type 0
  IsSerial k [] = Unit
  IsSerial k (started j x ∷ log) = ((j == k) ≡ true → in_flight k log ≡ false) × IsSerial k log
  IsSerial k (_ ∷ log) = IsSerial k log

  -- What holds of a field in every world that is reached.
  pub record IsSound (k : String) (w : World V) : Type 0 where
    pub serial : IsSerial k w.log
    pub live : w.queue.disposed ≡ false → Live (view k w)

  -- Nothing is under way for a field without an active request, or with one that is answered.
  not_flying_of_inactive :
      (o : Option (FieldState V)) (v : View V)
      → IsLive o v
      → (state_or_new o).active ≡ none
      → v.flying ≡ false
  not_flying_of_inactive o v h e = ground arith

  not_flying_of_answered :
      (o : Option (FieldState V)) (v : View V) (i : Item V) (s : FieldState V)
      → IsLive o v
      → in_phase true o ≡ some (i, s)
      → v.flying ≡ false
  not_flying_of_answered o v i s h e = ground arith

  drain_from-IsSerial :
      (k j : String) (a b : Option (Item V)) (q : Queue V) (log : List (Output V))
      → IsSerial k log
      → ((j == k) ≡ true → a ≡ none → in_flight k log ≡ false)
      → IsSerial k (drain_from j a b q log).1
  unfolding drain_from
  drain_from-IsSerial k j (some _) b q log h f = h
  drain_from-IsSerial k j none none q log h f = h
  drain_from-IsSerial k j none (some item) q log h f = (λ e. f e refl, h)

  pub disposed-drain_from :
      (j : String) (a b : Option (Item V)) (q : Queue V) (log : List (Output V))
      → (drain_from j a b q log).0.disposed ≡ q.disposed
  unfolding drain_from
  disposed-drain_from j (some _) b q log = refl
  disposed-drain_from j none none q log = refl
  disposed-drain_from j none (some item) q log = refl

  if-IsSerial :
      (k : String) (b : Bool) (x y : Queue V × List (Output V))
      → IsSerial k x.1
      → (b ≡ false → IsSerial k y.1)
      → IsSerial k (if b then x else y).1
  if-IsSerial k true x y h f = h
  if-IsSerial k false x y h f = f refl

  callback-IsSerial :
      (k j : String) (b : Bool) (x : V) (log : List (Output V))
      → IsSerial k log
      → IsSerial k (callback b j x ∷ log)
  callback-IsSerial k j true x log h = h
  callback-IsSerial k j false x log h = h

  respond_to-IsSerial :
      (k j : String) (b : Bool) (o : Option (Item V × FieldState V)) (q : Queue V)
      (log : List (Output V))
      → IsSerial k log
      → IsSerial k (respond_to j b o q log).1
  unfolding respond_item
  respond_to-IsSerial k j b none q log h = h
  respond_to-IsSerial k j b (some (i, s)) q log h =
      let states = map_set j (record s { answered = true }) q.states in
      if-IsSerial k (not q.disposed && is_overlay i.id (map_get j q.overlays) && is_none s.queued)
        (
          record q { states = states; overlays = map_delete j q.overlays },
          callback b j i.value ∷ answered j i.value ∷ log,
        )
        (record q { states = states }, answered j i.value ∷ log)
        (callback-IsSerial k j b i.value (answered j i.value ∷ log) h) (λ _. h)

  finish_of-IsSerial :
      (k j : String) (o : Option (Item V × FieldState V)) (q : Queue V) (log : List (Output V))
      → IsSerial k log
      → ((i : Item V) (s : FieldState V)
          → o ≡ some (i, s)
          → q.disposed ≡ false
          → (j == k) ≡ true
          → in_flight k log ≡ false)
      → IsSerial k (finish_of j o q log).1
  unfolding finish_item
  finish_of-IsSerial k j none q log h f = h
  finish_of-IsSerial k j (some (i, s)) q log h f = if-IsSerial k q.disposed _ _ h (λ d.
      if-IsSerial k (is_none s.queued) _ _ h
        (λ _. drain_from-IsSerial k j none s.queued _ log h (λ e _. f i s refl d e)))

  act-IsSerial : (k : String) (w : World V) (e : Event V) → IsSound k w → IsSerial k (act w e).log
  unfolding enqueue_item
  act-IsSerial k w (enqueue s f x) h = if-IsSerial k w.queue.disposed _ _ h.serial (λ d.
      drain_from-IsSerial k (key_for s f) _ _ _ w.log h.serial (λ e n.
        not_flying_of_inactive (map_get k w.queue.states) (view k w) (h.live d) (
          ap (λ j. (state_or_new (map_get j w.queue.states)).active) (sym ((eq_iff _ k).0 e)) ∙ n)))
  act-IsSerial k w (respond j b) h =
      respond_to-IsSerial k j b (in_phase false (map_get j w.queue.states)) w.queue w.log h.serial
  act-IsSerial k w (finish j) h =
      finish_of-IsSerial k j (in_phase true (map_get j w.queue.states)) w.queue w.log h.serial
        (λ i s p d e.
          not_flying_of_answered (map_get k w.queue.states) (view k w) i s (h.live d)
            (ap (λ t. in_phase true (map_get t w.queue.states)) (sym ((eq_iff j k).0 e)) ∙ p))
  act-IsSerial k w dispose h = h.serial

  -- A disposed queue stays so, and keeps no state.
  pub act-disposed :
      (w : World V) (e : Event V) → (act w e).queue.disposed ≡ false → w.queue.disposed ≡ false
  unfolding enqueue_item respond_item finish_item
  act-disposed w (enqueue s f x) h = ground (arith, disposed-drain_from (key_for s f))
  act-disposed w (respond j b) h = ground arith
  act-disposed w (finish j) h = ground arith
  act-disposed w dispose h = cc

  act-IsSound : (k : String) (w : World V) (e : Event V) → IsSound k w → IsSound k (act w e)
  act-IsSound k w e h = record {
    serial = act-IsSerial k w e h;
    live = λ d'.
        let d = act-disposed w e d' in
        subst Live (sym (view-act k e w d d'))
          (act_view-Live k (w.queue.sequence + 1) e (view k w) (h.live d));
  }

  pub run-IsSound :
      (k : String) (es : List (Event V)) (w : World V) → IsSound k w → IsSound k (run w es)
  run-IsSound k [] w h = h
  run-IsSound k (e ∷ es) w h = run-IsSound k es (act w e) (act-IsSound k w e h)

  pub start-IsSound : (k : String) → IsSound k (start {V = V})
  start-IsSound k = record { serial = tt; live = λ _. (refl, refl, refl) }

module _ {V : Type 0} where
  overlay_of_Live :
      (v : View V) (o : Overlay V) → Live v → v.overlay ≡ some o → v.sent_last ≡ some o.value
  overlay_of_Live v o h e = ground arith

-- However enqueues, answers and ends of requests follow one another, a request of a field is sent
-- only when the one before has its answer.
pub run-IsSerial : (V : Type 0) (k : String) (es : List (Event V)) → IsSerial k (run start es).log
run-IsSerial V k es = (run-IsSound k es start (start-IsSound k)).serial

-- However the events follow one another, when a field of a queue that was not disposed of has no
-- request left, the last value that was sent to the server for it is the last one that the user
-- chose, and no overlay is left for it.
pub newest_wins :
    (V : Type 0) (k : String) (es : List (Event V))
    → (run start es).queue.disposed ≡ false
    → map_get k (run start es).queue.states ≡ none
    → (last_started k (run start es).log ≡ map_get k (run start es).sent)
      × (map_get k (run start es).queue.overlays ≡ none)
newest_wins V k es d n =
    let w = run {V = V} start es in
    let l =
      subst (λ o. IsLive o (view k w)) n ((run-IsSound k es start (start-IsSound k)).live d) in
    (l.1, l.0)

-- However the events follow one another, what is shown for a field, while the queue is not disposed
-- of, is the last value that the user chose.
pub overlay_newest :
    (V : Type 0) (k : String) (es : List (Event V)) (o : Overlay V)
    → (run start es).queue.disposed ≡ false
    → map_get k (run start es).queue.overlays ≡ some o
    → map_get k (run start es).sent ≡ some o.value
overlay_newest V k es o d e =
    overlay_of_Live (view k (run start es)) o ((run-IsSound k es start (start-IsSound k)).live d) e
