-- ===== src/Orchestrator/Paths.antt =====
-- src/internal/orchestrator/approval.go: `cleanApprovedPath`, the check of a path that an agent names.
-- A path is kept as its components, the last one first.
pub mod Clean
use Prim.Native.Char.{code}
use Prim.Native.String.{◌++◌ as append_text}
use st_air_case.Prelude.{
  String, Bool, true, false, ◌||◌, List, [], ◌∷◌, ◌==◌, str_eq, any, if◌then◌else◌, Result, ok, err,
}
use st_air_case.Glob.{split}

-- What `os.Lstat` finds at a path.
pub data Kind : Type 0 where
  missing unreadable symlink directory regular : Kind

-- The refusals, all of them `errBadPath`.
pub data BadPath : Type 0 where
  not_relative outside_root internals no_access through_symlink is_directory : BadPath

abbrev pub is_dot : String → Bool
is_dot part = str_eq part "" || str_eq part "."

-- `..` takes back the component before it, where there is one.
unfoldable pub pop : List String → List String
pop [] = ".." ∷ []
pop (p ∷ ps) = if str_eq p ".." then ".." ∷ p ∷ ps else ps

-- What `filepath.Clean` does with one more component.
unfoldable pub push : List String → String → List String
unfolding pop
push kept part = if is_dot part then kept else if str_eq part ".." then pop kept else part ∷ kept

-- `filepath.Clean` of a relative path, by its components; none are left of ".".
unfoldable pub clean : List String → List String → List String
unfolding push
clean kept [] = kept
clean kept (p ∷ ps) = clean (push kept p) ps

unfoldable pub joined : List String → String
joined [] = ""
joined (p ∷ []) = p
joined (p ∷ q ∷ qs) = append_text (joined (q ∷ qs)) (append_text "/" p)

-- `clean == ".." || strings.HasPrefix(clean, "../")`
unfoldable pub climbs : List String → Bool
climbs [] = false
climbs (p ∷ []) = str_eq p ".."
climbs (p ∷ q ∷ qs) = climbs (q ∷ qs)

unfoldable pub starts_slash : String → Bool
starts_slash String.[] = false
starts_slash (String.◌∷◌ c s) = code c == b'/'

-- Where the loop over the prefixes of a path stands: all exist so far, the rest is new, or refused.
pub data Walk : Type 0 where
  existing new : Walk
  refused : BadPath → Walk

unfoldable pub look : Kind → Walk
look missing = new
look unreadable = refused no_access
look symlink = refused through_symlink
look directory = existing
look regular = existing

unfoldable pub last_is : Kind → List String → Result BadPath String
last_is directory parts = err is_directory
last_is _ parts = ok (joined parts)

abbrev pub is_nil : List String → Bool
is_nil [] = true
is_nil (p ∷ ps) = false

module _ (lstat : String → Kind) where
  -- The loop at the prefix that ends in `p`, behind the prefix `ps`.
  unfoldable pub onward : Walk → String → List String → Walk
  unfolding look
  onward existing p ps = look (lstat (joined (p ∷ ps)))
  onward new p ps = new
  onward (refused b) p ps = refused b

  unfoldable pub walk : List String → Walk
  walk [] = existing
  walk (p ∷ ps) = onward (walk ps) p ps

  unfoldable pub walked : Walk → List String → Result BadPath String
  unfolding last_is
  walked existing parts = last_is (lstat (joined parts)) parts
  walked new parts = ok (joined parts)
  walked (refused b) parts = err b

module _ (equal_fold : String → String → Bool) (lstat : String → Kind) where
  unfoldable pub check_parts : List String → Result BadPath String
  unfolding walked walk
  check_parts parts =
      if is_nil parts || climbs parts
      then err outside_root
      else if any (λ p. equal_fold p ".git") parts
      then err internals
      else walked lstat (walk lstat parts) parts

  -- `cleanApprovedPath`; `lstat` is asked for paths under the root.
  unfoldable pub clean_approved_path : String → Result BadPath String
  unfolding check_parts starts_slash
  clean_approved_path rel =
      if str_eq rel "" || starts_slash rel
      then err not_relative
      else check_parts (clean [] (split rel))
