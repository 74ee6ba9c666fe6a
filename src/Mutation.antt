-- ===== src/Mutation.antt =====
-- Optimistic writes to record fields: frontend/src/lib/latestMutation.js. The asynchronous `drain` is
-- cut at its `await`: `respond` is what it does from the server's answer up to the callback, and
-- `finish` is its `finally` block. Between the two a callback may enqueue again. A closure that is
-- sent, `mutate`, is named by the value that it writes. What comes back once the queue is disposed of
-- changes nothing and calls nothing back, and is left out. So is a field named
-- `__proto__`, which the overlay would set as the prototype of the patch.
pub mod View
mod Steps
pub mod Laws
mod Rest
pub mod Gate
pub mod Records
mod Tests
use open_kritt.Prelude.{
  ℕ, ◌+◌, String, Bool, true, false, not, ◌&&◌, Option, none, some, List, [], ◌∷◌, nat_eq,
  if◌then◌else◌, map_get, map_set, map_delete,
}
use open_kritt.Text.{concat}

-- `${scope}\u0000${field}`
pub key_for : String → String → String
key_for scope field = concat (scope ∷ "\0" ∷ field ∷ [])

abbrev pub is_none {ℓ} : {A : Type ℓ} → Option A → Bool
is_none none = true
is_none (some _) = false

abbrev pub bool_eq : Bool → Bool → Bool
bool_eq true b = b
bool_eq false b = not b

module _ (V : Type 0) where
  pub record Item : Type 0 where
    pub id : ℕ
    pub value : V

  -- A key's `active` and `queued`. `answered` says that the active request has its answer, so
  -- that only the `finally` block is left.
  pub record FieldState : Type 0 where
    pub active : Option Item
    pub queued : Option Item
    pub answered : Bool

  pub record Overlay : Type 0 where
    pub id : ℕ
    pub scope : String
    pub field_name : String
    pub value : V

  pub record Queue : Type 0 where
    pub sequence : ℕ
    pub disposed : Bool
    pub states : List (String × FieldState)
    pub overlays : List (String × Overlay)

  -- What can be seen outside: a request that is sent, its answer, and a callback.
  pub data Output : Type 0 where
    started answered succeeded failed : String → V → Output

  -- What happens to the queue. `respond` and `finish` belong to the active request of a key.
  pub data Event : Type 0 where
    enqueue : (scope field_name : String) → V → Event
    respond : String → (success : Bool) → Event
    finish : String → Event
    dispose : Event

  -- The queue, what was seen of it and what users sent, both the newest first.
  pub record World : Type 0 where
    pub queue : Queue
    pub log : List Output
    pub sent : List (String × V)

module _ {V : Type 0} where
  abbrev pub empty_queue : Queue V
  empty_queue = record { sequence = 0; disposed = false; states = []; overlays = [] }

  abbrev pub start : World V
  start = record { queue = empty_queue; log = []; sent = [] }

  -- `drain(key, state)` up to its `await`, for a queue that is not disposed: it sends the queued
  -- request where none is active.
  pub drain_from :
      String
      → Option (Item V)
      → Option (Item V)
      → Queue V
      → List (Output V)
      → Queue V × List (Output V)
  drain_from key (some _) queued q log = (q, log)
  drain_from key none none q log = (q, log)
  drain_from key none (some item) q log = (
    record q {
      states =
          map_set key (record { active = some item; queued = none; answered = false }) q.states;
    },
    Output.started key item.value ∷ log,
  )

  abbrev pub drain : String → FieldState V → Queue V → List (Output V) → Queue V × List (Output V)
  drain key s q log = drain_from key s.active s.queued q log

  -- `states.get(key) || { active: null, queued: null }`
  abbrev pub state_or_new : Option (FieldState V) → FieldState V
  state_or_new (some s) = s
  state_or_new none = record { active = none; queued = none; answered = false }

  pub enqueue_item : String → String → V → Queue V → List (Output V) → Queue V × List (Output V)
  unfolding drain_from
  enqueue_item scope field_name value q log =
      let key = key_for scope field_name in
      let id = q.sequence + 1 in
      let item : Item V = record { id = id; value = value } in
      let s = record (state_or_new (map_get key q.states)) { queued = some item } in
      if q.disposed
      then (q, log)
      else drain key s
          (record {
            sequence = id;
            disposed = q.disposed;
            states = map_set key s q.states;
            overlays =
                map_set key
                  (record { id = id; scope = scope; field_name = field_name; value = value })
                  q.overlays;
          })
          log

  -- `overlays.get(key)?.id === item.id`
  abbrev pub is_overlay : ℕ → Option (Overlay V) → Bool
  is_overlay id none = false
  is_overlay id (some o) = nat_eq o.id id

  abbrev pub callback : Bool → String → V → Output V
  callback true key value = Output.succeeded key value
  callback false key value = Output.failed key value

  -- The `try` or `catch` block for the request `item` of the state `s`.
  pub respond_item :
      String → Bool → Item V → FieldState V → Queue V → List (Output V) → Queue V × List (Output V)
  respond_item key success item s q log =
      let latest =
        not q.disposed && is_overlay item.id (map_get key q.overlays) && is_none s.queued in
      let states = map_set key (record s { answered = true }) q.states in
      let heard = Output.answered key item.value ∷ log in
      if latest
      then (
        record q { states = states; overlays = map_delete key q.overlays },
        callback success key item.value ∷ heard,
      )
      else (record q { states = states }, heard)

  -- The `finally` block.
  pub finish_item : String → FieldState V → Queue V → List (Output V) → Queue V × List (Output V)
  unfolding drain_from
  finish_item key s q log =
      let idle : FieldState V = record { active = none; queued = s.queued; answered = false } in
      if q.disposed
      then (q, log)
      else if is_none s.queued
      then (record q { states = map_delete key q.states }, log)
      else drain key idle (record q { states = map_set key idle q.states }) log

  abbrev pub at_phase : Bool → Option (Item V) → FieldState V → Option (Item V × FieldState V)
  at_phase has_answer none s = none
  at_phase has_answer (some item) s = if bool_eq s.answered has_answer then some (item, s) else none

  -- The active request of a key, where it is in the phase that is asked for.
  abbrev pub in_phase : Bool → Option (FieldState V) → Option (Item V × FieldState V)
  in_phase has_answer none = none
  in_phase has_answer (some s) = at_phase has_answer s.active s

  abbrev pub respond_to :
      String
      → Bool
      → Option (Item V × FieldState V)
      → Queue V
      → List (Output V)
      → Queue V × List (Output V)
  respond_to key success none q log = (q, log)
  respond_to key success (some (item, s)) q log = respond_item key success item s q log

  abbrev pub finish_of :
      String
      → Option (Item V × FieldState V)
      → Queue V
      → List (Output V)
      → Queue V × List (Output V)
  finish_of key none q log = (q, log)
  finish_of key (some (item, s)) q log = finish_item key s q log

  -- One event, at the queue. An answer or an end for which no request waits does not occur.
  abbrev pub handle : Event V → Queue V → List (Output V) → Queue V × List (Output V)
  handle (Event.enqueue scope field_name value) q log = enqueue_item scope field_name value q log
  handle (Event.respond key success) q log =
      respond_to key success (in_phase false (map_get key q.states)) q log
  handle (Event.finish key) q log = finish_of key (in_phase true (map_get key q.states)) q log
  handle Event.dispose q log = (record q { disposed = true; states = []; overlays = [] }, log)

  abbrev pub sending : Event V → List (String × V) → List (String × V)
  sending (Event.enqueue scope field_name value) sent = (key_for scope field_name, value) ∷ sent
  sending _ sent = sent

  abbrev pub act : World V → Event V → World V
  act w e = record {
    queue = (handle e w.queue w.log).0;
    log = (handle e w.queue w.log).1;
    sent = sending e w.sent;
  }

  -- A run, from the first event on.
  abbrev pub run : World V → List (Event V) → World V
  run w [] = w
  run w (e ∷ es) = run (act w e) es
