-- ===== src/Editor/Checkout.antt =====
-- A small checkout with one edit, and the runs of the editor on it.
use sovereign_ai.Prelude.{
  ◌≢◌, ◌≡◌, refl, false, List, [], ◌∷◌, ◌++◌, some, inl, inr, ok, err, if◌then◌else◌,
}
use sovereign_ai.Prelude.Int.{pos}
use sovereign_ai.Text.{
  Bytes, bytes_eq, cr, lf, valid_utf8, contains_byte, contains_text, normalize_line_endings,
  detect_line_ending, restore_line_endings,
}
use sovereign_ai.Text.Equality.{bytes_eq-ne}
use sovereign_ai.Editor.View.{Apart, IsInjective}
use sovereign_ai.Paths.{join, normalize_path, is_blank, split}
use sovereign_ai.Editor.{
  not_exist, ancestors, Editor, Overlay, File, Stat, absent, directory, regular, file, folder,
  lookup_path, insert, new_file, read, digest_prefix, from_base, from_overlay, read_relative,
  read_at, deleted, limit, overlay_stat, tombstone_name,
}
use sovereign_ai.Editor.Listing.{
  changes, walk, add_markers, list_changes, change_of, add_path, in_excluded, excluded_directory,
  ChangedFile, Changes, modify,
}
use sovereign_ai.Editor.Writing.{
  store_text, line_ending_for_write, ending_for, validate_content, check_base_path, check_prefixes,
  atomic_write, mkdir_all, mark_deleted, write, delete,
}

abbrev pub a_txt : Bytes
a_txt = b'd' ∷ b'/' ∷ b'a' ∷ []

abbrev pub b_txt : Bytes
b_txt = b'b' ∷ []

abbrev pub old_text : Bytes
old_text = b'x' ∷ cr ∷ lf ∷ []

-- A base with the folder "d" and the file "d/a" of one line with a Windows ending.
abbrev pub base_stat : Bytes → Stat
base_stat p =
    if bytes_eq p a_txt
    then regular old_text
    else if bytes_eq p (b'd' ∷ [])
    then directory
    else absent

abbrev pub editor : Editor
editor = record { base = base_stat; max_file_bytes = pos 0; hash = λ b. b }

abbrev pub empty : Overlay
empty = record { files = []; markers = [] }

abbrev pub dotted : Bytes
dotted = b'.' ∷ b'/' ∷ b'd' ∷ b'/' ∷ b'.' ∷ b'.' ∷ b'/' ∷ b'd' ∷ b'/' ∷ b'/' ∷ b'a' ∷ []

pub path_runs : normalize_path dotted ≡ ok a_txt
unfolding normalize_path bytes_eq
path_runs = refl

abbrev pub read_file : File
read_file = record {
  path = a_txt;
  content = old_text;
  digest = digest_prefix ++ old_text;
  bytes = 3;
  source = from_base;
}

pub read_runs : read editor empty a_txt (pos 0) ≡ ok read_file
unfolding read normalize_path read_relative read_at deleted limit overlay_stat valid_utf8
    contains_byte tombstone_name
read_runs = refl

abbrev pub new_text : Bytes
new_text = b'y' ∷ lf ∷ b'z' ∷ []

abbrev pub stored_text : Bytes
stored_text = b'y' ∷ cr ∷ lf ∷ b'z' ∷ []

abbrev pub written_file : File
written_file = record {
  path = a_txt;
  content = stored_text;
  digest = digest_prefix ++ stored_text;
  bytes = 4;
  source = from_overlay;
}

abbrev pub edited : Overlay
edited = record { files = (a_txt, file stored_text) ∷ (b'd' ∷ [], folder) ∷ []; markers = [] }

pub write_runs :
    write editor empty a_txt new_text (digest_prefix ++ old_text) ≡ ok (edited, written_file)
unfolding write store_text line_ending_for_write ending_for detect_line_ending restore_line_endings
    validate_content check_base_path check_prefixes atomic_write mkdir_all lookup_path insert read
    normalize_path read_relative read_at deleted limit overlay_stat valid_utf8 contains_byte
    tombstone_name normalize_line_endings contains_text new_file bytes_eq
write_runs = refl

abbrev pub removed : Overlay
removed = record { files = (b'd' ∷ [], folder) ∷ []; markers = (a_txt, a_txt ++ lf ∷ []) ∷ [] }

pub delete_runs : delete editor edited a_txt (digest_prefix ++ stored_text) ≡ ok removed
unfolding delete mark_deleted lookup_path insert read normalize_path read_relative read_at deleted
    limit overlay_stat valid_utf8 contains_byte tombstone_name new_file bytes_eq
delete_runs = refl

abbrev pub no_json : List ChangedFile → Bytes
no_json files = []

abbrev pub listed : Changes
listed = record {
  files =
      record {
        path = a_txt;
        action = modify;
        base_digest = digest_prefix ++ old_text;
        result_digest = digest_prefix ++ stored_text;
        result_content = some stored_text;
      }
      ∷ [];
  evidence_digest = some digest_prefix;
}

pub changes_run : changes editor no_json edited ≡ ok listed
unfolding changes walk add_markers list_changes change_of add_path in_excluded excluded_directory
    lookup_path read_at deleted limit overlay_stat valid_utf8 contains_byte tombstone_name bytes_eq
    split
changes_run = refl

pub a_txt_runs : normalize_path a_txt ≡ ok a_txt
unfolding normalize_path bytes_eq
a_txt_runs = refl

pub apart : Apart a_txt b_txt
unfolding ancestors split join bytes_eq
apart = (
  bytes_eq-ne b_txt a_txt refl,
  (λ m. elim m [ inl e ↦ bytes_eq-ne b_txt (b'd' ∷ []) refl e | inr later ↦ later ]),
  λ m. m,
)

pub id_IsInjective : IsInjective editor.hash
id_IsInjective a b h = h

-- The text that was read, written back.
abbrev pub kept_file : File
kept_file = record {
  path = a_txt;
  content = old_text;
  digest = digest_prefix ++ old_text;
  bytes = 3;
  source = from_overlay;
}

abbrev pub kept : Overlay
kept = record { files = (a_txt, file old_text) ∷ (b'd' ∷ [], folder) ∷ []; markers = [] }

pub back_runs : write editor empty a_txt old_text (digest_prefix ++ old_text) ≡ ok (kept, kept_file)
unfolding write store_text line_ending_for_write ending_for detect_line_ending restore_line_endings
    validate_content check_base_path check_prefixes atomic_write mkdir_all lookup_path insert read
    normalize_path read_relative read_at deleted limit overlay_stat valid_utf8 contains_byte
    tombstone_name normalize_line_endings contains_text new_file bytes_eq
back_runs = refl

pub visited : in_excluded (split a_txt) ≡ false
unfolding in_excluded excluded_directory split bytes_eq
visited = refl

pub placed : overlay_stat edited.files a_txt ≡ regular stored_text
unfolding overlay_stat
placed = refl

pub a_txt_filled : is_blank a_txt ≡ false
unfolding is_blank
a_txt_filled = refl

pub old_filled : normalize_line_endings old_text ≢ []
unfolding normalize_line_endings bytes_eq
old_filled = bytes_eq-ne (normalize_line_endings old_text) [] refl

pub b_txt_runs : normalize_path b_txt ≡ ok b_txt
unfolding normalize_path bytes_eq
b_txt_runs = refl

pub b_txt_filled : is_blank b_txt ≡ false
unfolding is_blank
b_txt_filled = refl

pub b_missing : read editor empty b_txt (pos 0) ≡ err not_exist
unfolding read normalize_path read_relative read_at deleted limit overlay_stat bytes_eq
b_missing = refl
