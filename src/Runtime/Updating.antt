-- ===== src/Runtime/Updating.antt =====
-- An update of the settings of the engine is read back when both files are written, and undone when
-- the second is not (backend/src/lib/runtimeSettings.js).
use open_kritt.Prelude.{
  String, ◌≡◌, refl, sym, ap, ◌∙◌, Bool, true, false, not, Option, none, some, [], ◌∷◌, ◌==◌,
  if◌then◌else◌, eq_iff, Bool-cases, inl, inr, subst, map_get, all, all_distinct,
}
use open_kritt.Environment.{Outcome, returned, thrown, parse_environment_text}
use open_kritt.Environment.Editing.{update_environment_text, file_lines, is_nil}
use open_kritt.Environment.Lines.{is_line}
use open_kritt.Environment.View.{overridden}
use open_kritt.Environment.Rewriting.{entries_fit}
use open_kritt.Environment.Adding.{entry_keys}
use open_kritt.Environment.Replace.{Directory, replace_environment_file, after_rename}
use open_kritt.Environment.Mutate.{
  Values, Updates, Mutated, file_text, mutated, reported, store_updated, apply_updates,
  mutate_environment_file, update_environment_file, previous_of,
}
use open_kritt.Environment.Undo.{IsUndone, update-IsUndone}
use open_kritt.Runtime.Update.{
  Files, Platform, update_runtime, update_project, roll_back, after_project, after_runtime,
  update_both, value_in,
}

-- What an operation on a file that is renamed leaves: the text, and the report.
record IsStored (p : Platform) (updates : Updates) (d : Directory) (updated : String)
    (result : Directory × Outcome (Option Mutated)) : Type 0 where
  text : file_text p.utf8_decode result.0.target ≡ updated
  report :
      result.1
      ≡ returned (
          some (
            mutated p.utf8_encode p.utf8_decode p.taken p.runtime_rename_error updates
              (file_text p.utf8_decode d.target)
              updated))
  same : (updated == file_text p.utf8_decode d.target) ≡ true → result.0 ≡ d

module _ (p : Platform) (renames : p.runtime_rename_error ≡ none)
    (decodes : (s : String) → p.utf8_decode (p.utf8_encode s) ≡ s) where
  module _ (updates : Updates) (d : Directory) (updated : String) where
    abbrev old_text : String
    old_text = file_text p.utf8_decode d.target

    abbrev report_of : Mutated
    report_of =
        mutated p.utf8_encode p.utf8_decode p.taken p.runtime_rename_error updates old_text updated

    stored_if :
        (b : Bool)
        → (updated == old_text) ≡ b
        → IsStored p updates d updated (
            if not b
            then reported p.utf8_encode p.utf8_decode p.taken p.runtime_rename_error report_of
                (replace_environment_file p.taken p.runtime_rename_error (p.utf8_encode updated) d)
            else (d, returned (some report_of)))
    unfolding replace_environment_file
    stored_if true e = record {
      text = sym ((eq_iff updated old_text).0 e);
      report = refl;
      same = λ _. refl;
    }
    stored_if false e =
        subst
          (λ r. IsStored p updates d updated (
            reported p.utf8_encode p.utf8_decode p.taken p.runtime_rename_error report_of
              (after_rename p.taken (p.utf8_encode updated) d.target r)))
          (sym renames) (record { text = decodes updated; report = refl; same = λ s. cc (s, e) })

  abbrev back : Updates → Directory → Updates
  back updates d = previous_of updates (parse_environment_text (file_text p.utf8_decode d.target))

  module _ (has_path : (p.runtime_path == "") ≡ false) where
    update_runtime-IsStored :
        (updates : Updates) (d : Directory) (updated : String)
        → is_nil updates ≡ false
        → update_environment_text (file_text p.utf8_decode d.target) updates ≡ returned updated
        → IsStored p updates d updated (update_runtime p updates d)
    unfolding update_environment_file mutate_environment_file
    update_runtime-IsStored [] d updated some_key e = cc some_key
    update_runtime-IsStored (u ∷ us) d updated some_key e =
        let text = file_text p.utf8_decode d.target in
        subst (IsStored p (u ∷ us) d updated)
          (sym (
            ap
              (λ b.
                if b
                then (d, returned none)
                else apply_updates p.utf8_encode p.utf8_decode p.taken p.runtime_rename_error d text
                    (returned (u ∷ us)))
              has_path
            ∙ ap
                (store_updated p.utf8_encode p.utf8_decode p.taken p.runtime_rename_error d (u ∷ us)
                  text)
                e))
          (stored_if (u ∷ us) d updated (updated == text) refl)

    is_nil-previous_of :
        (updates : Updates) (values : Values) → is_nil (previous_of updates values) ≡ is_nil updates
    is_nil-previous_of [] values = refl
    is_nil-previous_of (u ∷ us) values = refl

    -- What the rolling back leaves of the file of the engine.
    rolled_back :
        (updates : Updates) (d : Directory) (k : String)
        → is_nil updates ≡ false
        → (h : IsUndone (file_text p.utf8_decode d.target) updates)
        → (result : Directory × Outcome (Option Mutated)) → IsStored p updates d h.new_text result
        → (k == "__proto__") ≡ false
        → value_in p (roll_back p (some (report_of updates d h.new_text)) result.0) k
          ≡ value_in p d k
    rolled_back updates d k some_key h result stored named =
        elim (Bool-cases (h.new_text == file_text p.utf8_decode d.target)) [
          | inl same ↦
              ap
                (λ b.
                  value_in p
                    (if not b then (update_runtime p (back updates d) result.0).0 else result.0) k)
                same
              ∙ ap (λ e. value_in p e k) (stored.same same)
          | inr changed ↦
              let w =
                update_runtime-IsStored (back updates d) result.0 h.last_text
                  (is_nil-previous_of updates
                      (parse_environment_text (file_text p.utf8_decode d.target))
                    ∙ some_key)
                  (ap (λ t. update_environment_text t (back updates d)) stored.text ∙ h.undone) in
              ap
                (λ b.
                  value_in p
                    (if not b then (update_runtime p (back updates d) result.0).0 else result.0) k)
                changed
              ∙ ap (λ t. map_get k (parse_environment_text t)) w.text
              ∙ h.last_values k named
        ]

    module _ (updates : Updates) (s : Files)
        (lines : all is_line (file_lines (file_text p.utf8_decode s.runtime.target)) ≡ true)
        (distinct : all_distinct (entry_keys updates) ≡ true) (fits : entries_fit updates ≡ true)
        (some_key : is_nil updates ≡ false) where
      undone : IsUndone (file_text p.utf8_decode s.runtime.target) updates
      undone =
          update-IsUndone (file_text p.utf8_decode s.runtime.target) updates lines distinct fits

      stored : IsStored p updates s.runtime undone.new_text (update_runtime p updates s.runtime)
      stored = update_runtime-IsStored updates s.runtime undone.new_text some_key undone.done

      written :
          update_both p updates s
          ≡ after_project p
              (some (report_of updates s.runtime undone.new_text))
              (update_runtime p updates s.runtime).0
              (update_project p updates s.project)
      unfolding update_both
      written =
          ap (λ r. after_runtime p updates s.project ((update_runtime p updates s.runtime).0, r))
            stored.report

      -- The file of the project cannot be written.
      put_back_both :
          (k e : String)
          → (k == "__proto__") ≡ false
          → (project : Directory × Outcome (Option Mutated)) → project.1 ≡ thrown e
          → let (files, result) =
              after_project p
                (some (report_of updates s.runtime undone.new_text))
                (update_runtime p updates s.runtime).0
                project in
            (result ≡ thrown e) × (value_in p files.runtime k ≡ value_in p s.runtime k)
      put_back_both k e named (d, thrown f) h = (
        cc h,
        rolled_back updates s.runtime k some_key undone (update_runtime p updates s.runtime) stored
            named,
      )
      put_back_both k e named (d, returned m) h = cc h

      -- Both files can be written.
      kept_both :
          (k : String) (m : Option Mutated)
          → (k == "__proto__") ≡ false
          → (project : Directory × Outcome (Option Mutated)) → project.1 ≡ returned m
          → let (files, result) =
              after_project p
                (some (report_of updates s.runtime undone.new_text))
                (update_runtime p updates s.runtime).0
                project in
            (result ≡ returned tt)
            × (value_in p files.runtime k ≡ overridden (map_get k updates) (value_in p s.runtime k))
      kept_both k m named (d, thrown f) h = cc h
      kept_both k m named (d, returned n) h = (
        refl,
        ap (λ t. map_get k (parse_environment_text t)) stored.text ∙ undone.new_values k named,
      )

      pub update_both-put_back :
          (k e : String)
          → (k == "__proto__") ≡ false
          → (update_project p updates s.project).1 ≡ thrown e
          → ((update_both p updates s).1 ≡ thrown e)
            × (value_in p (update_both p updates s).0.runtime k ≡ value_in p s.runtime k)
      update_both-put_back k e named h =
          subst (λ r. (r.1 ≡ thrown e) × (value_in p r.0.runtime k ≡ value_in p s.runtime k))
            (sym written) (put_back_both k e named (update_project p updates s.project) h)

      pub update_both-kept :
          (k : String) (m : Option Mutated)
          → (k == "__proto__") ≡ false
          → (update_project p updates s.project).1 ≡ returned m
          → ((update_both p updates s).1 ≡ returned tt)
            × (value_in p (update_both p updates s).0.runtime k
                ≡ overridden (map_get k updates) (value_in p s.runtime k))
      update_both-kept k m named h =
          subst
            (λ r.
              (r.1 ≡ returned tt)
              × (value_in p r.0.runtime k
                  ≡ overridden (map_get k updates) (value_in p s.runtime k)))
            (sym written) (kept_both k m named (update_project p updates s.project) h)
