-- ===== src/Mutation/Tests.antt =====
-- A run of the queue and of the gate, and the theorems at concrete inputs.
use open_kritt.Prelude.{
  ℕ, String, ◌≡◌, refl, true, false, not, none, some, List, [], ◌∷◌, map_get, map_set, map_delete,
  map,
}
use open_kritt.Text.{decimal}
use open_kritt.Value.{Value, bool, number, Fields, end, field, own, get, assign}
use open_kritt.Value.Texts.{to_text}
use open_kritt.Mutation.{
  key_for, started, answered, succeeded, Event, enqueue, respond, finish, start, Queue, Overlay,
  run, drain_from, enqueue_item, respond_item, finish_item,
}
use open_kritt.Mutation.View.{last_started}
use open_kritt.Mutation.Laws.{IsSerial, run-IsSerial, newest_wins, overlay_newest}
use open_kritt.Mutation.Gate.{
  Gate, begin, begin_all, current_fields, kept_fields, taken_over, entries_of, current_fields_exact,
}
use open_kritt.Mutation.Records.{overlay_records, or_else, newest, overlay_records_lem}

abbrev bug_one : String
bug_one = "1\0is_bug"

-- The user chooses twice, the second time before the first request has its answer.
abbrev two_choices : List (Event ℕ)
two_choices = enqueue "1" "is_bug" 5 ∷ enqueue "1" "is_bug" 6 ∷ []

abbrev both_served : List (Event ℕ)
both_served =
    enqueue "1" "is_bug" 5
    ∷ enqueue "1" "is_bug" 6
    ∷ respond bug_one false
    ∷ finish bug_one
    ∷ respond bug_one true
    ∷ finish bug_one
    ∷ []

-- The first answer calls nothing back, since a newer value waits.
served_log :
    (run start both_served).log
    ≡ succeeded bug_one 6
      ∷ answered bug_one 6
      ∷ started bug_one 6
      ∷ answered bug_one 5
      ∷ started bug_one 5
      ∷ []
unfolding key_for drain_from enqueue_item respond_item finish_item map_set map_delete
served_log = refl

run-IsSerial_example : IsSerial bug_one (run start both_served).log
run-IsSerial_example = run-IsSerial ℕ bug_one both_served

newest_wins_example :
    (last_started bug_one (run start both_served).log
      ≡ map_get bug_one (run start both_served).sent)
    × (map_get bug_one (run start both_served).queue.overlays ≡ none)
unfolding key_for drain_from enqueue_item respond_item finish_item map_set map_delete
newest_wins_example = newest_wins ℕ bug_one both_served refl refl

abbrev shown : Overlay ℕ
shown = record { id = 2; scope = "1"; field_name = "is_bug"; value = 6 }

overlay_newest_example : map_get bug_one (run start two_choices).sent ≡ some 6
unfolding key_for drain_from enqueue_item respond_item finish_item map_set map_delete
overlay_newest_example = overlay_newest ℕ bug_one two_choices shown refl refl

abbrev empty_gate : Gate
empty_gate = record { sequence = 0; latest_by_field = [] }

abbrev later_requests : List (List String × String)
later_requests = (("a" ∷ []), "1") ∷ (("b" ∷ []), "2") ∷ []

gate_run :
    let r = begin ("a" ∷ "b" ∷ []) "1" empty_gate in
    current_fields r.0 (begin_all later_requests r.1) ≡ "b" ∷ []
unfolding key_for map_set
gate_run = refl

current_fields_exact_example :
    let r = begin ("a" ∷ "b" ∷ []) "1" empty_gate in
    current_fields r.0 (begin_all later_requests r.1)
    ≡ kept_fields (λ key. not (taken_over later_requests key)) (entries_of ("a" ∷ "b" ∷ []) "1")
current_fields_exact_example = current_fields_exact ("a" ∷ "b" ∷ []) "1" empty_gate later_requests

abbrev one_overlay : Queue Value
one_overlay = record {
  sequence = 1;
  disposed = false;
  states = [];
  overlays =
      (bug_one, record { id = 1; scope = "1"; field_name = "is_bug"; value = bool true }) ∷ [];
}

abbrev two_records : List Fields
two_records =
    field "id" (number 1) (field "is_bug" (bool false) end)
    ∷ field "id" (number 2) (field "is_bug" (bool false) end)
    ∷ []

overlay_run :
    map (own "is_bug") (overlay_records one_overlay "id" two_records)
    ≡ some (bool true) ∷ some (bool false) ∷ []
unfolding to_text map_set decimal assign
overlay_run = refl

overlay_records_lem_example :
    map (own "is_bug") (overlay_records one_overlay "id" two_records)
    ≡ map
        (λ r.
          or_else (newest (to_text (get "id" r)) "is_bug" one_overlay.overlays) (own "is_bug" r))
        two_records
overlay_records_lem_example = overlay_records_lem one_overlay "id" "is_bug" two_records
