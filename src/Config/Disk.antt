-- ===== src/Config/Disk.antt =====
-- The calls of `std::fs` that the configuration code makes, on a disk that maps paths to files and
-- directories. The `Host` says which of them the system refuses.
pub mod Frame
pub mod Growth
pub mod Trees
use soroban_tools.Prelude.{
  String, Bool, true, false, not, ◌&&◌, Option, none, some, List, [], ◌∷◌, ◌≡◌, refl, if◌then◌else◌,
  arith, Bool-cases, inl, inr, ◌≢◌,
}
use soroban_tools.Config.Paths.{FilePath, path_eq, path_eq_iff, path_eq_refl}

pub data Node : Type 0 where
  dir : Node
  file : String → Node

abbrev pub Disk : Type 0
Disk = List (FilePath × Node)

-- `cut_short` is what a write leaves when it fails, and `none` when all of the text is written.
pub record Host : Type 0 where
  pub xdg_config_home : Option FilePath
  pub home_dir : Option FilePath
  pub current_dir : Option FilePath
  pub unreadable : FilePath → Bool
  pub unwritable : FilePath → Bool
  pub cut_short : FilePath → String → Option String

unfoldable pub lookup : FilePath → Disk → Option Node
lookup q [] = none
lookup q ((p, n) ∷ d) = elim (path_eq p q) [ true ↦ some n | false ↦ lookup q d ]

unfoldable pub erase : FilePath → Disk → Disk
erase q [] = []
erase q ((p, n) ∷ d) = elim (path_eq p q) [ true ↦ erase q d | false ↦ (p, n) ∷ erase q d ]

unfoldable pub put : FilePath → Node → Disk → Disk
unfolding erase
put p n d = (p, n) ∷ erase p d

-- The root is always there.
unfoldable pub node : FilePath → Disk → Option Node
unfolding lookup
node [] d = some dir
node (s ∷ p) d = lookup (s ∷ p) d

pub lookup-erase :
    (q p : FilePath) (d : Disk) → lookup q (erase p d) ≡ (if path_eq p q then none else lookup q d)
unfolding lookup erase
lookup-erase q p [] = ground arith
lookup-erase q p ((r, n) ∷ d) =
    grind (arith, lookup-erase q p d, path_eq_iff p q, path_eq_iff r q, path_eq_iff r p)

pub node-put :
    (t : String) (q p : FilePath) (n : Node) (d : Disk)
    → node (t ∷ q) (put p n d) ≡ (if path_eq p (t ∷ q) then some n else node (t ∷ q) d)
unfolding node put lookup
node-put t q p n d = ground (arith, lookup-erase (t ∷ q) p d)

pub node-erase :
    (t : String) (q p : FilePath) (d : Disk)
    → node (t ∷ q) (erase p d) ≡ (if path_eq p (t ∷ q) then none else node (t ∷ q) d)
unfolding node
node-erase t q p d = lookup-erase (t ∷ q) p d

-- `Path::exists` and `Path::is_file`
abbrev pub is_there : Option Node → Bool
is_there none = false
is_there (some n) = true

unfoldable pub exists : FilePath → Disk → Bool
exists p d = is_there (node p d)

unfoldable pub is_file : FilePath → Disk → Bool
is_file p d = elim (node p d) [ some (file s) ↦ true | _ ↦ false ]

unfoldable pub is_dir : FilePath → Disk → Bool
is_dir p d = elim (node p d) [ some dir ↦ true | _ ↦ false ]

-- Whether a call succeeded, and the disk it left.
abbrev pub Done : Type 0
Done = Bool × Disk

module _ (host : Host) where
  abbrev pub text_of : FilePath → Option Node → Option String
  text_of p (some (file s)) = if host.unreadable p then none else some s
  text_of p (some dir) = none
  text_of p none = none

  -- `fs::read_to_string`
  unfoldable pub read_to_string : FilePath → Disk → Option String
  read_to_string p d = text_of p (node p d)

  abbrev pub create_dir_under : FilePath → Done → Done
  create_dir_under p (true, d) = if host.unwritable p then (false, d) else (true, put p dir d)
  create_dir_under p (false, d) = (false, d)

  abbrev pub create_dir_at : FilePath → Option Node → Done → Disk → Done
  create_dir_at p (some dir) above d = (true, d)
  create_dir_at p (some (file s)) above d = (false, d)
  create_dir_at p none above d = create_dir_under p above

  -- `fs::create_dir_all`: what is missing above the directory is created first.
  unfoldable pub create_dir_all : FilePath → Disk → Done
  create_dir_all [] d = (true, d)
  create_dir_all (s ∷ p) d = create_dir_at (s ∷ p) (node (s ∷ p) d) (create_dir_all p d) d

  abbrev pub truncate_at : FilePath → Disk → Done
  truncate_at p d = if host.unwritable p then (false, d) else (true, put p (file "") d)

  -- `OpenOptions::new().create(true).truncate(true).write(true).open`, and `File::create`.
  unfoldable pub open_truncated : FilePath → Disk → Done
  open_truncated [] d = (false, d)
  open_truncated (s ∷ p) d = elim (node (s ∷ p) d) [
    | some (file t) ↦ truncate_at (s ∷ p) d
    | some dir ↦ (false, d)
    | none ↦ if is_dir p d then truncate_at (s ∷ p) d else (false, d)
  ]

  -- `write_all` on the file just opened.
  unfoldable pub write_all : FilePath → String → Disk → Done
  write_all p text d = elim (host.cut_short p text) [
    | none ↦ (true, put p (file text) d)
    | some part ↦ (false, put p (file part) d)
  ]

  abbrev pub and_write_all : FilePath → String → Done → Done
  and_write_all p text (true, d) = write_all p text d
  and_write_all p text (false, d) = (false, d)

  -- `fs::write`
  unfoldable pub write : FilePath → String → Disk → Done
  unfolding open_truncated write_all
  write p text d = and_write_all p text (open_truncated p d)

  -- `fs::remove_file`
  unfoldable pub remove_file : FilePath → Disk → Done
  unfolding erase
  remove_file p d = elim (node p d) [
    | some (file s) ↦ if host.unwritable p then (false, d) else (true, erase p d)
    | _ ↦ (false, d)
  ]

abbrev pub entry_of : FilePath → FilePath → List FilePath → List FilePath
entry_of p [] rest = rest
entry_of p (s ∷ q) rest = if path_eq p q then (s ∷ q) ∷ rest else rest

unfoldable pub entries : FilePath → Disk → List FilePath
entries p [] = []
entries p ((q, n) ∷ d) = entry_of p q (entries p d)

-- `fs::read_dir`: the paths in a directory, in no order that the code relies on.
unfoldable pub read_dir : Host → FilePath → Disk → Option (List FilePath)
unfolding entries
read_dir host p d = if is_dir p d && not (host.unreadable p) then some (entries p d) else none
