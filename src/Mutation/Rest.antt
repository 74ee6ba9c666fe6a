-- ===== src/Mutation/Rest.antt =====
-- Answers bring the queue of a field to rest.
use open_kritt.Prelude.{String, Bool, true, false, List, [], ◌∷◌}
use open_kritt.Mutation.{Event, respond, finish, in_phase}
use open_kritt.Mutation.View.{View, respond_view, finish_view}

module _ {V : Type 0} where
  -- The active request is answered and ended.
  abbrev pub served : String → Bool → List (Event V)
  served k b = respond k b ∷ finish k ∷ []

  abbrev served_view : View V → View V
  served_view v =
      let u = respond_view (in_phase false v.state) v in finish_view (in_phase true u.state) u

  abbrev respond_step : View V → View V
  respond_step v = respond_view (in_phase false v.state) v

  abbrev finish_step : View V → View V
  finish_step v = finish_view (in_phase true v.state) v
