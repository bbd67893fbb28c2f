-- ===== src/Library/PageTests.antt =====
-- The library's page and tree at a small library.
use mathlib.Core.List.{Perm}
use readflow.Common.{
  ℕ, ◌+◌, ◌<◌, ◌≡◌, refl, ◌↔◌, Bool, true, false, none, some, List, [], ◌∷◌, String, arith, or_else,
  str_eq, if◌then◌else◌, subst, ap,
}
use readflow.Common.Sets.{has, string_eq, add}
use readflow.Api.{LibraryItemRef, folder, job}
use readflow.Api.{StreamJob}
use readflow.Chunk.{JobStatus}
use readflow.State.AppStore.{Payloads, WsEnvelope, initial_app, apply_event}
use readflow.Library.Tests.{snapshot, folder_of}
use readflow.Library.Folders.{folder_contents}
use readflow.Library.Folders.Reached.{Listed, Under}
use readflow.Library.Filter.{SearchText, filter_library}
use readflow.Library.Moves.{destinations, excluded_targets, folder_ids, destinations-Under}
use readflow.Library.Tree.{FolderNodes, build_folder_tree, top_folders}
use readflow.Library.Tree.Built.{IsBuilt, build_folder_tree-Built, IsRanked}
use readflow.Library.Page.{LibraryPage, Caller, initial_library, load_failed, delete_items, stay}
use readflow.Library.Page.Handlers.{visible_ids, toggle_selected}
use readflow.Library.Page.Events.{page_run, start, seen, time_passes}
use readflow.Library.Page.Reloads.{is_pending_by, page_of, page_run-reloads}
use readflow.Library.Page.Settled.{settled_lem}
use readflow.Common.Sort.{sort_by, insert_by}
use readflow.Library.Selection.{range_selection}

abbrev moved : List LibraryItemRef
moved = record { kind = folder; id = "b" } ∷ record { kind = job; id = "j2" } ∷ []

destinations-Under_example :
    Listed
      (folder_of "a" none)
      (destinations snapshot.folders (excluded_targets (some snapshot) moved))
    ↔ (Listed (folder_of "a" none) snapshot.folders
        × (¬ Under snapshot.folders (folder_ids moved) "a"))
destinations-Under_example = destinations-Under snapshot moved (folder_of "a" none)

-- The depth of a folder in the small library.
abbrev rank : String → ℕ
rank id = if str_eq id "a" then 2 else if str_eq id "b" then 1 else if str_eq id "c" then 0 else 3

rank_above :
    (n : ℕ) (above parent : String) → some above ≡ some parent → n < rank above → n < rank parent
rank_above n above parent up less = subst (λ j. n < rank j) (ap (λ o. or_else o "") up) less

ranked : IsRanked rank snapshot.folders
ranked = (
  λ parent up. rank_above 0 "b" parent up (omega arith),
  (λ parent up. rank_above 1 "a" parent up (omega arith), (λ parent up. absurd (cc up), tt)),
)

abbrev any_order : String → String → Bool
any_order a b = true

build_folder_tree-Built_example :
    (roots : FolderNodes) × (build_folder_tree any_order 4 snapshot
      ≡ some (roots, (folder_contents snapshot none).1))
    × Perm (top_folders roots) (folder_contents snapshot none).0
    × IsBuilt snapshot roots
build_folder_tree-Built_example =
    build_folder_tree-Built any_order snapshot rank 3 ranked
      (omega arith, (omega arith, (omega arith, tt)))

abbrev plain_text : SearchText
plain_text = record { trim = λ s. s; to_lower_case = λ s. s; includes = λ s part. str_eq s part }

settled_lem_example :
    (load_failed 0
      (Caller.of_run (some "Moved to trash") stay)
      (some "offline")
      (initial_library none)).error
    ≡ none
settled_lem_example =
    (settled_lem 0 (Caller.of_run (some "Moved to trash") stay) snapshot (some "offline")
      (record { request = delete_items []; message = none; continuation = stay })
      (initial_library none)).1.1

abbrev shown : LibraryPage
shown = record (initial_library (some "a")) {
  snapshot = some snapshot;
  organize = true;
  selection_anchor = some "b";
}

shown_row : has {A = String} "b" (visible_ids plain_text shown) ≡ true
unfolding visible_ids filter_library folder_contents sort_by insert_by
shown_row = refl

range_row : has {A = String} "b" (toggle_selected plain_text "b" true shown).selection ≡ true
unfolding toggle_selected visible_ids filter_library folder_contents sort_by insert_by
    range_selection add
range_row = refl

abbrev texts : Payloads
texts = record { Config = String; Batches = String; Recent = String; Memory = String; Progress = ℕ }

abbrev streamed : StreamJob
streamed = record {
  summary = record {
    id = "j1";
    title = none;
    status = JobStatus.rendering;
    voice_id = "suzy";
    model_id = "small";
    is_active_listening = true;
    render_to_end = false;
    total_chunks_emitted = 4;
    total_chunks_completed = 3;
    buffered_seconds = 5000;
    completed_seconds = 6000;
    folder_id = none;
    progress = none;
  };
  source_kind = none;
  source_text = none;
  plan_version = none;
  chunks = none;
  failed_reason = none;
  active_chunk_version = none;
  audio_epoch = none;
  folder_path = none;
  previous_job_id = none;
  next_job_id = none;
  folder_index = none;
  folder_count = none;
  previous_job_title = none;
  next_job_title = none;
}

-- A job is updated 100 ms after another job was created, and 100 ms pass.
page_run-reloads_example :
    let m =
      page_run {t = texts} plain_text
        (seen (WsEnvelope.job_created streamed) ∷ time_passes 100 ∷ [])
        (start none) in
    let event = WsEnvelope.job_updated streamed in
    let shown =
      page_of {t = texts} plain_text (apply_event event (initial_app texts)).last_event m in
    is_pending_by
      (page_run {t = texts} plain_text (time_passes 100 ∷ []) shown).page.refresh_timer
      (m.now + 250)
    ≡ true
page_run-reloads_example =
    (page_run-reloads {t = texts} plain_text none
      (seen (WsEnvelope.job_created streamed) ∷ time_passes 100 ∷ []) (time_passes 100 ∷ [])
      (WsEnvelope.job_updated streamed) (initial_app texts) refl refl (refl, tt)).1
