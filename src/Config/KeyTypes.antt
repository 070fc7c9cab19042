-- ===== src/Config/KeyTypes.antt =====
-- `KeyType` of cmd/soroban-cli/src/config/locator.rs, as far as it reads: the files of identities and
-- networks under a configuration directory.
use Prim.Native.Nat.{Ordering}
use Prim.Native.Char.{Char, code}
use Prim.Native.String.{compare}
use soroban_tools.Prelude.{
  ℕ, String, Bool, true, false, ◌&&◌, ◌||◌, Option, none, some, List, [], ◌∷◌, ◌++◌, ◌==◌, leb,
  if◌then◌else◌, str_eq,
}
use soroban_tools.Prelude.Result.{Result, ok, err, ok_or, or_else, unwrap_or, ◌>>=◌}
use soroban_tools.Config.Paths.{FilePath, join_path, set_extension, file_stem, extension}
use soroban_tools.Config.Disk.{Host, Disk, read_to_string, exists, read_dir}
use soroban_tools.Config.Errors.{Error, network_file_read, toml, io, config_missing, Format}
use soroban_tools.Config.Directories.{Location, path_of, wrap, global_config_path}

pub data KeyType : Type 0 where
  identity : KeyType
  network : KeyType

-- `Display`
abbrev pub key_type_name : KeyType → String
key_type_name identity = "identity"
key_type_name network = "network"

abbrev pub root : KeyType → FilePath → FilePath
root kt pwd = key_type_name kt ∷ pwd

unfoldable pub path : KeyType → FilePath → String → FilePath
unfolding join_path set_extension
path kt pwd key = set_extension (join_path (root kt pwd) key) "toml"

module _ (host : Host) {T : Type 0} (format : Format T) where
  unfoldable pub read_from_path : FilePath → Disk → Result Error T
  unfolding read_to_string
  read_from_path p d = do
    text ← ok_or (read_to_string host p d) (network_file_read p)
    ok_or (format.parse text) toml

  unfoldable pub read : KeyType → String → FilePath → Disk → Result Error T
  unfolding path read_from_path
  read kt key pwd d = read_from_path (path kt pwd key) d

  -- The first directory whose file is read and parsed.
  unfoldable pub read_with_global : KeyType → String → FilePath → Disk → Result Error T
  unfolding read global_config_path
  read_with_global kt key pwd d = do
    home ← global_config_path host d
    or_else (read kt key pwd d)
        (or_else (read kt key home d) (err (config_missing (key_type_name kt) key)))

-- `char::is_whitespace`
abbrev pub is_whitespace : ℕ → Bool
is_whitespace n =
    (leb 9 n && leb n 13)
    || ((n == 32)
        || ((n == 133)
            || ((n == 160)
                || ((n == 5760)
                    || ((leb 8192 n && leb n 8202)
                        || ((n == 8232)
                            || ((n == 8233) || ((n == 8239) || ((n == 8287) || (n == 12288))))))))))

abbrev pub trim_start : String → String
trim_start String.[] = ""
trim_start (String.◌∷◌ c s) =
    let rest = trim_start s in if is_whitespace (code c) then rest else String.◌∷◌ c s

abbrev pub put_back : Char → String → String
put_back c String.[] = if is_whitespace (code c) then "" else String.◌∷◌ c ""
put_back c (String.◌∷◌ d s) = String.◌∷◌ c (String.◌∷◌ d s)

abbrev pub trim_end : String → String
trim_end String.[] = ""
trim_end (String.◌∷◌ c s) = put_back c (trim_end s)

-- `str::trim`
abbrev pub trim : String → String
trim s = trim_end (trim_start s)

-- The order of paths that differ in the last component at most.
abbrev pub path_le : FilePath → FilePath → Bool
path_le [] q = true
path_le (s ∷ p) [] = false
path_le (s ∷ p) (t ∷ q) = elim (compare s t) [ Ordering.gt ↦ false | _ ↦ true ]

abbrev pub file_le : String × FilePath → String × FilePath → Bool
file_le (s, p) (t, q) = elim (compare s t) [
  | Ordering.lt ↦ true
  | Ordering.eq ↦ path_le p q
  | Ordering.gt ↦ false
]

abbrev pub insert_sorted : String × FilePath → List (String × FilePath) → List (String × FilePath)
insert_sorted f [] = f ∷ []
insert_sorted f (g ∷ rest) =
    let later = insert_sorted f rest in if file_le f g then f ∷ (g ∷ rest) else g ∷ later

-- `Vec::sort`
unfoldable pub sort : List (String × FilePath) → List (String × FilePath)
sort [] = []
sort (f ∷ rest) = insert_sorted f (sort rest)

abbrev pub is_toml : Option String → Bool
is_toml none = false
is_toml (some ext) = str_eq ext "toml"

-- The loop of `read_dir` over the entries.
unfoldable pub toml_files : List FilePath → List (String × FilePath)
unfolding extension file_stem
toml_files [] = []
toml_files ([] ∷ rest) = toml_files rest
toml_files ((name ∷ p) ∷ rest) =
    let files = toml_files rest in
    if is_toml (extension name) then (trim (file_stem name), name ∷ p) ∷ files else files

-- `read_dir`, the function of the source.
unfoldable pub read_toml_dir : Host → FilePath → Disk → Result Error (List (String × FilePath))
unfolding read_dir sort toml_files
read_toml_dir host dir d = do
  contents ← ok_or (read_dir host dir d) io
  ok (sort (toml_files contents))

abbrev pub wrap_files : Location → List (String × FilePath) → List (String × Location)
wrap_files pwd [] = []
wrap_files pwd ((name, p) ∷ rest) = (name, wrap pwd p) ∷ wrap_files pwd rest

unfoldable pub list : Host → KeyType → Location → Disk → Result Error (List (String × Location))
unfolding exists read_toml_dir sort
list host kt pwd d =
    if exists (root kt (path_of pwd)) d
    then (do files ← read_toml_dir host (root kt (path_of pwd)) d; ok (wrap_files pwd (sort files)))
    else ok []

-- The locations whose listing fails are left out.
unfoldable pub list_paths : Host → KeyType → List Location → Disk → List (String × Location)
unfolding list
list_paths host kt [] d = []
list_paths host kt (p ∷ paths) d = unwrap_or (list host kt p d) [] ++ list_paths host kt paths d
