-- ===== src/Platform.antt =====
-- What the source takes from outside the repository: GLib, libexpidus1util, the user database and
-- the file system. The fields are named after the functions that they stand for.
use esconf.Prelude.{Text, HashTable, ℕ, ℤ, ◌≡◌, ◌≢◌, Bool, Option, List, [], ◌∷◌, ◌++◌, All}

-- What a `strto…` function gives: the value, the text from `*endptr` on, and `errno == ERANGE`.
pub record Conversion (A : Type 0) : Type 0 where
  pub value : A
  pub rest : Text
  pub erange : Bool

-- What GMarkup reports to the parser's callbacks, in document order.
pub data Markup : Type 0 where
  start_elem : Text → List (Text × Text) → Markup
  end_elem : Text → Markup

-- The files by name.
abbrev pub Disk : Type 0
Disk = HashTable Text

-- A double and a float are their bit patterns.
pub record Platform : Type 0 where
  -- `g_strsplit(s, d, -1)` for a delimiter of one byte
  pub strsplit : ℕ → Text → List Text
  -- `g_ascii_strtod`, `g_ascii_strtoull`, `g_ascii_strtoll`
  pub ascii_strtod : Text → Conversion ℕ
  pub ascii_strtoull : Text → Conversion ℕ
  pub ascii_strtoll : Text → Conversion ℤ
  -- `==` and `<` on doubles, `==` on floats, `(gfloat)d`
  pub double_eq : ℕ → ℕ → Bool
  pub double_lt : ℕ → ℕ → Bool
  pub float_eq : ℕ → ℕ → Bool
  pub to_float : ℕ → ℕ
  -- `(gdouble)f`, and `printf` of a double by `%f`
  pub to_double : ℕ → ℕ
  pub printf_f : ℕ → Text
  -- `g_get_user_name`, and the groups that `getgrent` enumerates, with their members
  pub user_name : Text
  pub groups : List (Text × List Text)
  -- `stat` of /etc/group: the time of the last change, if the file can be asked
  pub etc_group_stat : Option ℕ
  -- the static variables `etc_group_mtime` and `group_cache`, as the parser finds them
  pub etc_group_mtime : ℕ
  pub group_cache : Option (HashTable (List Text))
  -- `g_ascii_strdown`
  pub ascii_strdown : Text → Text
  -- `g_markup_parse_context_parse` and `…_end_parse` on a file's contents: the events up to the
  -- end or to the first malformed markup, and whether the document was well formed
  pub markup : Text → List Markup × Bool
  -- `expidus_resource_lookup_all` and `expidus_resource_save_location` for EXPIDUS_RESOURCE_CONFIG
  pub lookup_all : Disk → Text → List Text
  pub save_location : Disk → Text → Option Text
  -- `g_markup_escape_text`
  pub markup_escape_text : Text → Text
  -- `fopen` for writing and the `fputs` of a first text: whether both succeed, and what they leave
  pub open_file : Disk → Text → Text → Bool × Disk
  -- where they succeed, the writing of a whole text with `fputs`, `fflush`, the call that syncs and
  -- `fclose`: whether all of them succeed, and what they leave
  pub write_file : Disk → Text → Text → Bool × Disk
  -- `rename`, which fails or gives the files that are left
  pub rename : Disk → Text → Text → Option Disk
  -- `g_dir_open` and the names that `g_dir_read_name` gives
  pub read_dir : Disk → Text → Option (List Text)
  -- `unlink`, which fails or gives the files that are left
  pub unlink : Disk → Text → Option Disk

abbrev pub Lacks : ℕ → Text → Type 0
Lacks d = All (λ c. c ≢ d)

-- Pieces joined by a delimiter, each with the delimiter in front.
abbrev pub joined : ℕ → List Text → Text
joined d [] = []
joined d (p ∷ ps) = d ∷ (p ++ joined d ps)

-- The documented behaviour of `g_strsplit` that the code relies on: it takes apart what was joined.
-- (On the empty string it gives the empty vector.)
pub record IsSplitter (p : Platform) : Type 0 where
  pub strsplit-joined :
      (d : ℕ) (s : Text) (ss : List Text)
      → Lacks d s
      → All (Lacks d) ss
      → s ++ joined d ss ≢ []
      → p.strsplit d (s ++ joined d ss) ≡ s ∷ ss
