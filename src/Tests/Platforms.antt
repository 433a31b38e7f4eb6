-- ===== src/Tests/Platforms.antt =====
-- A concrete platform: its splitter splits, its 64-bit conversions are the C library's, and its disk
-- has one system file and one user file.
use esconf.Prelude.{
  Text, bytes, lookup, insert, remove, ◌>>=◌, streq, ℕ, ◌+◌, ◌==◌, ltb, ◌≡◌, ◌≢◌, refl, Bool, true,
  false, is_some, none, some, List, [], ◌∷◌, ◌++◌, All, arith, if◌then◌else◌,
}
use esconf.Platform.{Platform, Markup, start_elem, end_elem, Lacks, joined, IsSplitter}
use esconf.Value.Parse.{strtoul, strtol}
use esconf.Value.Parse.RoundTrip.{IsAscii}
use mathlib.Core.List.{append-nil}

-- A byte in front of the first piece.
abbrev onto_first : ℕ → List Text → List Text
onto_first c [] = (c ∷ []) ∷ []
onto_first c (s ∷ ss) = (c ∷ s) ∷ ss

abbrev pieces : ℕ → Text → List Text
pieces d [] = [] ∷ []
pieces d (c ∷ s) = if c == d then [] ∷ pieces d s else onto_first c (pieces d s)

abbrev split : ℕ → Text → List Text
split d [] = []
split d (c ∷ s) = pieces d (c ∷ s)

abbrev downcase : Text → Text
downcase [] = []
downcase (c ∷ s) = (if ltb 64 c then (if ltb c 91 then 32 + c else c) else c) ∷ downcase s

abbrev pub etc_file : Text → Text
etc_file stem = bytes "/etc/xdg/" ++ stem

abbrev pub home_file : Text → Text
home_file stem = bytes "/home/me/.config/" ++ stem

abbrev attribute : Text → Text → Text × Text
attribute name value = (name, value)

-- `<channel name="ch" version="1.0">` with the properties `/a`, locked for a group of the user, and `/a/b`
abbrev system_markup : List Markup
system_markup =
    start_elem (bytes "channel")
      (attribute (bytes "name") (bytes "ch") ∷ attribute (bytes "version") (bytes "1.0") ∷ [])
    ∷ start_elem (bytes "property") (
        attribute (bytes "name") (bytes "a")
        ∷ attribute (bytes "type") (bytes "int")
        ∷ attribute (bytes "value") (bytes "5")
        ∷ attribute (bytes "locked") (bytes "@staff")
        ∷ [])
    ∷ start_elem (bytes "property") (
        attribute (bytes "name") (bytes "b")
        ∷ attribute (bytes "type") (bytes "bool")
        ∷ attribute (bytes "value") (bytes "true")
        ∷ [])
    ∷ end_elem (bytes "property")
    ∷ end_elem (bytes "property")
    ∷ end_elem (bytes "channel")
    ∷ []

-- A system file that locks the whole channel.
abbrev locked_markup : List Markup
locked_markup =
    start_elem (bytes "channel") (
      attribute (bytes "name") (bytes "ch")
      ∷ attribute (bytes "version") (bytes "1.0")
      ∷ attribute (bytes "locked") (bytes "@staff")
      ∷ [])
    ∷ end_elem (bytes "channel")
    ∷ []

-- A user's file with the property `/c`
abbrev user_markup : List Markup
user_markup =
    start_elem (bytes "channel")
      (attribute (bytes "name") (bytes "ch") ∷ attribute (bytes "version") (bytes "1.0") ∷ [])
    ∷ start_elem (bytes "property") (
        attribute (bytes "name") (bytes "c")
        ∷ attribute (bytes "type") (bytes "string")
        ∷ attribute (bytes "value") (bytes "hi")
        ∷ [])
    ∷ end_elem (bytes "property")
    ∷ end_elem (bytes "channel")
    ∷ []

abbrev test_markup : Text → List Markup × Bool
test_markup contents =
    if streq contents (bytes "system")
    then (system_markup, true)
    else if streq contents (bytes "locked")
    then (locked_markup, true)
    else if streq contents (bytes "user")
    then (user_markup, true)
    else ([], false)

abbrev pub test_platform : Platform
test_platform = record {
  strsplit = split;
  ascii_strtod = λ s. record { value = 0; rest = s; erange = false };
  ascii_strtoull = strtoul;
  ascii_strtoll = strtol;
  double_eq = λ a b. a == b;
  double_lt = ltb;
  float_eq = λ a b. a == b;
  to_float = λ d. d;
  to_double = λ f. f;
  printf_f = λ d. [];
  user_name = bytes "me";
  groups = (bytes "staff", bytes "me" ∷ []) ∷ [];
  etc_group_stat = some 7;
  etc_group_mtime = 0;
  group_cache = none;
  open_file = λ disk name s. (true, disk);
  ascii_strdown = downcase;
  markup = test_markup;
  lookup_all =
      λ disk stem. if is_some (lookup (etc_file stem) disk) then etc_file stem ∷ [] else [];
  save_location =
      λ disk stem. if is_some (lookup (home_file stem) disk) then some (home_file stem) else none;
  markup_escape_text = λ s. s;
  write_file = λ disk name s. (true, insert name s disk);
  rename = λ disk name other. lookup name disk >>= λ s. some (insert other s (remove name disk));
  read_dir = λ disk name. some (bytes "ch.xml" ∷ bytes "notes.txt" ∷ []);
  unlink = λ disk name. some disk;
}

pieces-Lacks : (d : ℕ) (s : Text) → Lacks d s → pieces d s ≡ s ∷ []
pieces-Lacks d [] h = refl
pieces-Lacks d (c ∷ s) h = ground (arith, pieces-Lacks d s h.1)

pieces-append : (d : ℕ) (s t : Text) → Lacks d s → pieces d (s ++ d ∷ t) ≡ s ∷ pieces d t
pieces-append d [] t h = ground arith
pieces-append d (c ∷ s) t h = ground (arith, pieces-append d s t h.1)

pieces-joined :
    (d : ℕ) (s : Text) (ss : List Text)
    → Lacks d s
    → All (Lacks d) ss
    → pieces d (s ++ joined d ss) ≡ s ∷ ss
pieces-joined d s [] h k = rw append-nil (pieces-Lacks d s h)
pieces-joined d s (t ∷ ss) h k =
    rw (pieces-append d s (t ++ joined d ss) h, pieces-joined d t ss k.0 k.1)

split-pieces : (d : ℕ) (s : Text) → s ≢ [] → split d s ≡ pieces d s
split-pieces d [] ne = absurd (ne refl)
split-pieces d (c ∷ s) ne = refl

pub test_platform-IsSplitter : IsSplitter test_platform
test_platform-IsSplitter = record {
  strsplit-joined =
      λ d s ss h k ne. rw (split-pieces d (s ++ joined d ss) ne) (pieces-joined d s ss h k);
}

pub test_platform-IsAscii : IsAscii test_platform
test_platform-IsAscii = record { strtoull = λ s. refl; strtoll = λ s. refl }
