-- ===== src/Orchestrator/Files.antt =====
-- src/internal/orchestrator/approval.go: the files that a run's approvals stand for, byte for byte. A Go map
-- from paths is the list of its pairs, the latest first, where a pair hides those behind it with the
-- same path. `base_file` is what the base commit has at a path, and `decode_b64` the base64 decoder.
pub mod Sizes
pub mod Confined
pub mod Stepwise
pub mod Replacing
pub mod Linebreaks
use st_air_case.Prelude.{
  ℕ, ◌+◌, ◌*◌, String, Bool, true, false, not, ◌&&◌, ◌||◌, Option, none, some, List, [], ◌∷◌, ◌++◌,
  map, select, length, ltb, leb, ◌==◌, str_eq, if◌then◌else◌, Result, ok, err, ◌>>=◌,
}
use Prim.Native.Nat.{Ordering}
use Prim.Native.String.{compare}
use st_air_case.Domain.{ProposedEdit}
use st_air_case.GoLibrary.Bytes.{
  Bytes, bytes, utf8_valid, contains_bytes, replace_first, count_byte, count_crlf, crlf_to_lf,
  lf_to_crlf, cr_to_lf, cr, lf,
}
use st_air_case.Orchestrator.Paths.{Kind, BadPath, clean_approved_path}

abbrev pub max_approved_file_bytes : ℕ
max_approved_file_bytes = 200 * 1024

abbrev pub max_approved_binary_bytes : ℕ
max_approved_binary_bytes = 2 * 1048576

abbrev pub marker_new_file : String
marker_new_file = "(new file)"

abbrev pub marker_delete_file : String
marker_delete_file = "(delete file)"

-- The permissions of a file: 0644 or 0755, as the code sets them.
pub data Mode : Type 0 where
  plain executable : Mode

-- `approvedFile`: a deleted file has neither content nor mode.
pub data ApprovedFile : Type 0 where
  deleted : ApprovedFile
  present : Bytes → Mode → ApprovedFile

-- A map from paths.
abbrev pub FileMap : Type 0
FileMap = List (String × ApprovedFile)

unfoldable pub lookup : FileMap → String → Option ApprovedFile
lookup [] p = none
lookup ((q, f) ∷ rest) p = if str_eq q p then some f else lookup rest p

-- The pairs of a map, each path once.
unfoldable pub entries : FileMap → FileMap
entries [] = []
entries ((q, f) ∷ rest) =
    (q, f) ∷ select (λ (e : String × ApprovedFile). not (str_eq q e.0)) (entries rest)

abbrev pub is_after : String → String → Bool
is_after s t = elim (compare s t) [ Ordering.gt ↦ true | _ ↦ false ]

unfoldable pub insert_sorted : String → List String → List String
insert_sorted s [] = s ∷ []
insert_sorted s (t ∷ ts) =
    let rest = insert_sorted s ts in if is_after s t then t ∷ rest else s ∷ t ∷ ts

-- `slices.Sorted(maps.Keys(m))`
unfoldable pub sort_texts : List String → List String
unfolding insert_sorted
sort_texts [] = []
sort_texts (s ∷ ss) = insert_sorted s (sort_texts ss)

unfoldable pub sorted_keys : FileMap → List String
unfolding entries sort_texts
sorted_keys m = sort_texts (map (λ (e : String × ApprovedFile). e.0) (entries m))

-- Why a proposal cannot be approved as shown; a path or a text is named where the code's message does.
pub data FileError : Type 0 where
  path_refused : BadPath → FileError
  not_regular read_base : String → FileError
  not_utf8 both_blocks not_base64 is_text : String → FileError
  binary_too_large new_file_too_large : String → ℕ → FileError
  unknown_mode : String → String → FileError
  stray_content cannot_delete cannot_edit search_not_found : String → FileError

-- What go-git finds in the base commit.
pub data BaseFile : Type 0 where
  absent unreadable other_kind : BaseFile
  regular : Bytes → Mode → BaseFile

unfoldable pub from_base : BaseFile → String → Result FileError (Option ApprovedFile)
from_base absent p = ok none
from_base unreadable p = err (read_base p)
from_base other_kind p = err (not_regular p)
from_base (regular content mode) p = ok (some (present content mode))

-- `b` has line breaks, all of them `\r\n`.
unfoldable pub all_crlf : Bytes → Bool
all_crlf b =
    let n = count_crlf false b in not (n == 0) && (count_byte cr b == n && count_byte lf b == n)

unfoldable pub universal_newlines : Bytes → Bytes
universal_newlines b = cr_to_lf (crlf_to_lf b)

-- The source as it is searched, and the two blocks as they are searched for and put in its place.
pub record Fitted : Type 0 where
  pub source : Bytes
  pub search : Bytes
  pub replace : Bytes

unfoldable pub fit : Bytes → Bytes → Bytes → Fitted
unfolding all_crlf universal_newlines
fit source search0 replace0 =
    let search = crlf_to_lf search0 in
    let replace = crlf_to_lf replace0 in
    if count_byte cr source == 0
    then record { source = source; search = search; replace = replace }
    else if all_crlf source
    then record { source = source; search = lf_to_crlf search; replace = lf_to_crlf replace }
    else record { source = universal_newlines source; search = search; replace = replace }

unfoldable pub apply_fitted : String → Mode → Fitted → Result FileError ApprovedFile
apply_fitted p mode f =
    if contains_bytes f.source f.search
    then ok (present (replace_first f.source f.search f.replace) mode)
    else err (search_not_found p)

abbrev pub has_text : String → Bool
has_text s = not (str_eq s "")

-- An edit carries the fields of a whole new file.
abbrev pub is_whole : ProposedEdit → Bool
is_whole e = has_text e.content_b64 || has_text e.file_mode

-- Overwriting keeps a file's mode.
abbrev pub mode_of : Option ApprovedFile → Mode
mode_of none = plain
mode_of (some deleted) = plain
mode_of (some (present content mode)) = mode

unfoldable pub choose_mode : String → String → Mode → Result FileError Mode
choose_mode p asked kept =
    if str_eq asked ""
    then ok kept
    else if str_eq asked "100644"
    then ok plain
    else if str_eq asked "100755"
    then ok executable
    else err (unknown_mode p asked)

unfoldable pub delete_file : String → Option ApprovedFile → Result FileError ApprovedFile
delete_file p none = err (cannot_delete p)
delete_file p (some deleted) = err (cannot_delete p)
delete_file p (some (present content mode)) = ok deleted

unfoldable pub edit_file :
    String → ProposedEdit → Option ApprovedFile → Result FileError ApprovedFile
unfolding apply_fitted fit
edit_file p e none = err (cannot_edit p)
edit_file p e (some deleted) = err (cannot_edit p)
edit_file p e (some (present content mode)) =
    apply_fitted p mode (fit content (bytes e.search_block) (bytes e.replace_block))

module _ (decode_b64 : String → Option Bytes) where
  -- The part of `binaryContent` behind the decoder.
  unfoldable pub check_binary : String → Option Bytes → Result FileError Bytes
  check_binary p none = err (not_base64 p)
  check_binary p (some b) =
      if utf8_valid b
      then err (is_text p)
      else if ltb max_approved_binary_bytes (length b)
      then err (binary_too_large p (length b))
      else ok b

  unfoldable pub binary_content : String → ProposedEdit → Result FileError Bytes
  unfolding check_binary
  binary_content p e =
      if has_text e.replace_block
      then err (both_blocks p)
      else check_binary p (decode_b64 e.content_b64)

  unfoldable pub new_content : String → ProposedEdit → Result FileError Bytes
  unfolding binary_content
  new_content p e =
      let content = bytes e.replace_block in
      if has_text e.content_b64
      then binary_content p e
      else if ltb max_approved_file_bytes (length content)
      then err (new_file_too_large p (length content))
      else ok content

  -- The state of a path that an edit makes of its state so far, `current`.
  unfoldable pub apply_edit :
      String → ProposedEdit → Result FileError (Option ApprovedFile) → Result FileError ApprovedFile
  unfolding new_content choose_mode delete_file edit_file
  apply_edit p e current =
      if str_eq e.search_block marker_new_file
      then (new_content p e >>= λ content. current >>= λ f.
          choose_mode p e.file_mode (mode_of f) >>= λ mode. ok (present content mode))
      else if is_whole e
      then err (stray_content p)
      else if str_eq e.search_block marker_delete_file
      then (current >>= delete_file p)
      else (current >>= edit_file p e)

-- `if f, ok := m[p]; ok { return f, nil }`, and what follows it.
abbrev pub found_or :
    Option ApprovedFile
    → Result FileError (Option ApprovedFile)
    → Result FileError (Option ApprovedFile)
found_or none rest = rest
found_or (some f) rest = ok (some f)

-- `approvals`: the state of each path that was approved so far, over the base commit.
pub record Approvals : Type 0 where
  pub base_file : String → BaseFile
  pub files : FileMap

unfoldable pub current : Approvals → String → Result FileError (Option ApprovedFile)
unfolding lookup from_base
current a p = found_or (lookup a.files p) (from_base (a.base_file p) p)

-- `record`: a derived state is adopted.
unfoldable pub record_files : Approvals → FileMap → Approvals
record_files a next = record a { files = next ++ a.files }

-- The refusal of a path, as the refusal of a proposal.
abbrev pub as_path : Result BadPath String → Result FileError String
as_path (ok p) = ok p
as_path (err b) = err (path_refused b)

module _ (equal_fold : String → String → Bool) (lstat : String → Kind)
    (decode_b64 : String → Option Bytes) where
  abbrev pub are_texts : ProposedEdit → Bool
  are_texts e =
      utf8_valid (bytes e.file)
      && (utf8_valid (bytes e.search_block) && utf8_valid (bytes e.replace_block))

  abbrev pub clean_path : ProposedEdit → Result FileError String
  clean_path e = as_path (clean_approved_path equal_fold lstat e.file)

  -- One turn of the loop: the path of an edit and its new state. Its state so far is that of `next`
  -- and, where that has none, of the approvals.
  unfoldable pub derive_one :
      Approvals → FileMap → ProposedEdit → Result FileError (String × ApprovedFile)
  unfolding apply_edit current record_files
  derive_one a next e =
      if not (are_texts e)
      then err (not_utf8 e.file)
      else (clean_path e >>= λ p.
          apply_edit decode_b64 p e (current (record_files a next) p) >>= λ f. ok (p, f))

  unfoldable pub derive_from : Approvals → FileMap → List ProposedEdit → Result FileError FileMap
  unfolding derive_one
  derive_from a next [] = ok next
  derive_from a next (e ∷ es) = derive_one a next e >>= λ made. derive_from a (made ∷ next) es

  unfoldable pub derive : Approvals → List ProposedEdit → Result FileError FileMap
  unfolding derive_from
  derive a edits = derive_from a [] edits
