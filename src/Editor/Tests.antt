-- ===== src/Editor/Tests.antt =====
-- The editor on a small checkout.
use sovereign_ai.Prelude.{All, ◌≡◌, refl, [], ◌++◌, none, some, inr, ok, err}
use sovereign_ai.Prelude.Int.{pos}
use sovereign_ai.Text.{Bytes, bytes_eq, normalize_line_endings}
use sovereign_ai.Text.Equality.{bytes_eq-ne}
use sovereign_ai.Paths.Segments.{IsFilled}
use sovereign_ai.Paths.Normal.{IsSegment, normalize_path_safe}
use sovereign_ai.Editor.View.{view, digest_of}
use sovereign_ai.Editor.Refinement.{write_refines, write_back}
use sovereign_ai.Editor.Deletion.{delete_refines}
use sovereign_ai.Editor.Difference.{changes-patched, changes-IsRecord}
use sovereign_ai.Editor.Patch.{patched, IsRecord}
use sovereign_ai.Editor.Refusals.{stale_refused, missing_refused}
use sovereign_ai.Paths.{join, split}
use sovereign_ai.Editor.{stale, not_exist, read, content_digest, digest_prefix, absent_digest}
use sovereign_ai.Editor.Writing.{write, delete, replace_text}
use sovereign_ai.Editor.Checkout.{
  a_txt, b_txt, old_text, editor, empty, dotted, path_runs, read_file, read_runs, new_text,
  stored_text, written_file, edited, write_runs, removed, delete_runs, no_json, listed, changes_run,
  a_txt_runs, apart, id_IsInjective, kept_file, kept, back_runs, visited, placed, a_txt_filled,
  old_filled, b_txt_runs, b_txt_filled, b_missing,
}

normalize_path_safe_example :
    IsFilled (split a_txt) × All IsSegment (split a_txt) × (join (split a_txt) ≡ a_txt)
normalize_path_safe_example = normalize_path_safe dotted a_txt path_runs

write_refines_example :
    (digest_of editor (view editor empty a_txt) ≡ digest_prefix ++ old_text)
    × (view editor edited a_txt ≡ some stored_text)
    × (read editor edited a_txt (pos 0) ≡ ok written_file)
    × (normalize_line_endings stored_text ≡ normalize_line_endings new_text)
    × (view editor edited b_txt ≡ view editor empty b_txt)
write_refines_example =
    write_refines editor empty a_txt new_text (digest_prefix ++ old_text) edited written_file a_txt
      b_txt id_IsInjective a_txt_runs write_runs apart

write_back_example :
    (old_text ≡ read_file.content)
    × (a_txt ≡ read_file.path)
    × (kept_file.digest ≡ read_file.digest)
write_back_example =
    write_back editor empty a_txt (pos 0) read_file kept kept_file read_runs back_runs

delete_refines_example :
    ((content : Bytes) × (view editor edited a_txt ≡ some content)
      × (content_digest editor content ≡ digest_prefix ++ stored_text))
    × (view editor removed a_txt ≡ none)
    × (view editor removed b_txt ≡ view editor edited b_txt)
delete_refines_example =
    delete_refines editor edited a_txt (digest_prefix ++ stored_text) removed a_txt b_txt
      id_IsInjective a_txt_runs delete_runs apart.0 apart.2

changes-patched_example : patched editor listed.files a_txt ≡ view editor edited a_txt
changes-patched_example =
    changes-patched editor no_json edited listed a_txt changes_run visited
      (inr (stored_text, placed))

changes-IsRecord_example : All (IsRecord editor edited) listed.files
changes-IsRecord_example = changes-IsRecord editor no_json edited listed changes_run

stale_refused_example :
    (write editor empty a_txt new_text b_txt ≡ err (stale read_file.digest))
    × (replace_text editor empty a_txt old_text new_text b_txt (pos 1)
        ≡ err (stale read_file.digest))
    × (delete editor empty a_txt b_txt ≡ err (stale read_file.digest))
unfolding bytes_eq
stale_refused_example =
    stale_refused editor empty a_txt a_txt a_txt_runs a_txt_filled read_file new_text old_text
      new_text b_txt (pos 1) read_runs (bytes_eq-ne b_txt [] refl)
      (bytes_eq-ne read_file.digest b_txt refl) old_filled

missing_refused_example :
    (write editor empty b_txt new_text a_txt ≡ err (stale absent_digest))
    × (replace_text editor empty b_txt old_text new_text a_txt (pos 1) ≡ err not_exist)
    × (delete editor empty b_txt a_txt ≡ err not_exist)
unfolding bytes_eq
missing_refused_example =
    missing_refused editor empty b_txt b_txt b_txt_runs b_txt_filled new_text old_text new_text
      a_txt (pos 1) b_missing (bytes_eq-ne a_txt [] refl) (bytes_eq-ne a_txt absent_digest refl)
      old_filled
