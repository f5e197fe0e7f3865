-- ===== src/Editor/Autosave/Tests.antt =====
-- An edit of a document, its save, and a switch of the document meanwhile.
use inkstave.Prelude.{◌≡◌, refl, true, none, some, List, [], ◌∷◌, text_eq, arith}
use inkstave.Editor.Autosave.{Autosave, Attempt, ConflictInfo, DocumentContent, SaveStatus}
use inkstave.Editor.Autosave.Run.{
  empty_hook, AutosaveEvent, edited, answered, saved, conflicted, reload, switched, debounce_fired,
  run_autosave,
}
use inkstave.Editor.Autosave.Pending.{IsKept, run_autosave-IsKept}
use inkstave.Editor.Autosave.Rounds.{IsDone, settle}
use inkstave.Editor.Autosave.Settled.{run_autosave-settles}
use inkstave.Editor.Autosave.Clean.{
  IsHonest, TakesSave, TakesTheirs, run_autosave-IsHonest, switched-answered,
}

abbrev main_tex : DocumentContent
main_tex = record { id = "main"; content = 97 ∷ []; loaded_version = 4 }

abbrev other_tex : DocumentContent
other_tex = record { id = "other"; content = 98 ∷ []; loaded_version = 7 }

-- A document is opened and edited, and the save begins.
abbrev typing : List AutosaveEvent
typing = switched (some main_tex) ∷ edited (97 ∷ 99 ∷ []) ∷ debounce_fired ∷ edited [] ∷ []

abbrev their_version : ConflictInfo
their_version = record { current_content = 100 ∷ []; current_version = 5 }

abbrev typed_attempt : Attempt
typed_attempt = record { doc_id = "main"; text = 97 ∷ 99 ∷ []; version = 4 }

abbrev typed : Autosave
typed = record {
  state = record {
    document_id = some "main";
    base_version = 4;
    server_text = 97 ∷ [];
    local_text = [];
    display_text = 97 ∷ [];
    status = SaveStatus.dirty;
    last_saved_at = none;
    retry_count = 0;
    conflict_info = none;
  };
  in_flight = some typed_attempt;
  debounce = some 1000;
  retry = none;
  put_off = 0;
  is_seeded = true;
}

types : (run_autosave empty_hook typing).0 ≡ typed
unfolding run_autosave text_eq
types = refl

run_autosave-settles_example :
    IsDone [] (settle 6 3 (settle 6 2 (settle 5 1 (run_autosave empty_hook typing).0)))
unfolding run_autosave text_eq
run_autosave-settles_example = run_autosave-settles typing 5 6 6 1 2 3 refl refl (omega arith)

run_autosave-IsHonest_example : IsHonest (run_autosave empty_hook typing).0
run_autosave-IsHonest_example = run_autosave-IsHonest empty_hook typing (λ _. refl)

run_autosave-IsKept_example : IsKept (run_autosave empty_hook typing).0
run_autosave-IsKept_example = run_autosave-IsKept typing

switched-answered_example :
    TakesSave other_tex typed_attempt 5
      (run_autosave typed (switched (some other_tex) ∷ answered (saved 5 1) ∷ [])).0
    × TakesTheirs other_tex their_version
        (run_autosave typed
          (switched (some other_tex) ∷ answered (conflicted their_version) ∷ reload 1 ∷ [])).0
switched-answered_example = switched-answered typed typed_attempt other_tex their_version 5 1 refl
