-- ===== src/Config/Paths.antt =====
-- The paths of `std::path` that the configuration code builds, and their extensions. A path is the
-- list of its components, the last one first, and the empty list is the root.
pub mod Names
use Prim.Native.Char.{Char, code}
use soroban_tools.Prelude.{
  String, Bool, true, false, not, ◌&&◌, ◌||◌, Option, none, some, List, [], ◌∷◌, ◌≡◌, ◌↔◌, refl, ap,
  ◌<>◌, ◌==◌, if◌then◌else◌, str_eq, eq_iff, eq_refl, arith, Bool-cases, inl, inr, ◌≢◌,
}

abbrev pub FilePath : Type 0
FilePath = List String

unfoldable pub path_eq : FilePath → FilePath → Bool
path_eq [] [] = true
path_eq [] (t ∷ q) = false
path_eq (s ∷ p) [] = false
path_eq (s ∷ p) (t ∷ q) = str_eq s t && path_eq p q

pub path_eq_iff : (p q : FilePath) → (path_eq p q ≡ true) ↔ (p ≡ q)
unfolding path_eq
path_eq_iff [] [] = ground arith
path_eq_iff [] (t ∷ q) = ground arith
path_eq_iff (s ∷ p) [] = ground arith
path_eq_iff (s ∷ p) (t ∷ q) = ground (arith, path_eq_iff p q, eq_iff s t)

pub path_eq_refl : (p : FilePath) → path_eq p p ≡ true
path_eq_refl p = ground (arith, path_eq_iff p p)

-- The text up to each `/`, and after the last one.
abbrev pub put_char : Char → List String → List String
put_char c [] = String.◌∷◌ c "" ∷ []
put_char c (s ∷ rest) = String.◌∷◌ c s ∷ rest

abbrev pub split_slash : String → List String
split_slash String.[] = "" ∷ []
split_slash (String.◌∷◌ c s) =
    let rest = split_slash s in if code c == 47 then "" ∷ rest else put_char c rest

abbrev pub is_absolute : String → Bool
is_absolute String.[] = false
is_absolute (String.◌∷◌ c s) = code c == 47

-- The components that `Path::components` keeps.
abbrev pub keep_components : List String → List String
keep_components [] = []
keep_components (s ∷ rest) =
    let kept = keep_components rest in if str_eq s "" || str_eq s "." then kept else s ∷ kept

abbrev pub push_components : FilePath → List String → FilePath
push_components p [] = p
push_components p (s ∷ rest) = push_components (s ∷ p) rest

-- `PathBuf::join`: an absolute path takes the place of the one before it.
unfoldable pub join_path : FilePath → String → FilePath
join_path p s = push_components (if is_absolute s then [] else p) (keep_components (split_slash s))

-- `Path::parent`
abbrev pub parent : FilePath → Option FilePath
parent [] = none
parent (s ∷ p) = some p

-- What stands before and after the last dot.
unfoldable pub split_dot : String → Option (String × String)
split_dot String.[] = none
split_dot (String.◌∷◌ c s) = elim (split_dot s) [
  | some (before, after) ↦ some (String.◌∷◌ c before, after)
  | none ↦ if code c == 46 then some ("", s) else none
]

-- `Path::file_stem` and `Path::extension` of a last component other than `..`.
unfoldable pub file_stem : String → String
unfolding split_dot
file_stem name = elim (split_dot name) [
  | none ↦ name
  | some (before, after) ↦ if str_eq before "" then name else before
]

unfoldable pub extension : String → Option String
unfolding split_dot
extension name = elim (split_dot name) [
  | none ↦ none
  | some (before, after) ↦ if str_eq before "" then none else some after
]

-- `PathBuf::set_extension`
unfoldable pub set_extension : FilePath → String → FilePath
unfolding file_stem
set_extension [] ext = []
set_extension (name ∷ p) ext =
    if str_eq name ".." then name ∷ p else (file_stem name <> ("." <> ext)) ∷ p

-- A name that `join_path` takes for one component.
abbrev pub IsComponent : String → Type 0
IsComponent s = (is_absolute s ≡ false) × (keep_components (split_slash s) ≡ s ∷ [])

pub join_path-component : (p : FilePath) (s : String) → IsComponent s → join_path p s ≡ s ∷ p
unfolding join_path
join_path-component p s h = rw (h.0, h.1)
