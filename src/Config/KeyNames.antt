-- ===== src/Config/KeyNames.antt =====
-- `KeyName` of cmd/soroban-cli/src/config/address.rs: the names that keys may have, and the files
-- they are kept in.
use Prim.Native.Char.{code}
use Prim.Native.String.{len}
use mathlib.Core.Path.{subst}
use text.Mathlib.TextLemmas.{append_cancel_right}
use soroban_tools.Prelude.{
  ℕ, String, Bool, true, false, not, ◌&&◌, ◌||◌, none, [], ◌∷◌, ◌≡◌, ◌≢◌, refl, sym, ap, ◌∙◌, ◌<>◌,
  ◌==◌, leb, ltb, if◌then◌else◌, str_eq, eq_iff, arith, Bool-cases, inl, inr,
}
use soroban_tools.Prelude.Result.{Result, ok, err}
use soroban_tools.Config.Paths.{
  FilePath, split_slash, keep_components, is_absolute, split_dot, file_stem,
}
use soroban_tools.Config.Paths.Names.{IsFileName, set_extension-join_path}
use soroban_tools.Config.KeyTypes.{KeyType, key_type_name, root, path}

pub data KeyNameError : Type 0 where
  invalid_key_name_characters : String → KeyNameError
  invalid_key_name_length : String → KeyNameError
  invalid_key_name : String → KeyNameError

abbrev pub in_range : ℕ → ℕ → ℕ → Bool
in_range low high n = leb low n && leb n high

-- `allowed_char`: an ASCII letter or digit, `_` or `-`.
abbrev pub allowed_char : ℕ → Bool
allowed_char n =
    (in_range 48 57 n || (in_range 65 90 n || in_range 97 122 n)) || ((n == 95) || (n == 45))

abbrev pub all_allowed : String → Bool
all_allowed String.[] = true
all_allowed (String.◌∷◌ c s) = allowed_char (code c) && all_allowed s

abbrev head_or_empty : FilePath → String
head_or_empty [] = ""
head_or_empty (s ∷ p) = s

-- `KeyName::from_str`
unfoldable pub key_name_from_str : String → Result KeyNameError String
key_name_from_str s =
    if not (all_allowed s)
    then err (invalid_key_name_characters s)
    else (if str_eq s "ledger"
        then err (invalid_key_name s)
        else (if ltb 250 (len s) then err (invalid_key_name_length s) else ok s))

allowed_apart : (n : ℕ) → allowed_char n ≡ true → ((n == 47) ≡ false) × ((n == 46) ≡ false)
allowed_apart n h = ground arith

no_slash : (s : String) → all_allowed s ≡ true → split_slash s ≡ (s ∷ [])
no_slash String.[] h = refl
no_slash (String.◌∷◌ c s) h = ground (arith, no_slash s, allowed_apart (code c))

no_dot : (s : String) → all_allowed s ≡ true → split_dot s ≡ none
unfolding split_dot
no_dot String.[] h = refl
no_dot (String.◌∷◌ c s) h = ground (arith, no_dot s, allowed_apart (code c))

not_absolute : (s : String) → all_allowed s ≡ true → is_absolute s ≡ false
not_absolute String.[] h = refl
not_absolute (String.◌∷◌ c s) h = ground (arith, allowed_apart (code c))

not_spelled : (s t : String) → all_allowed s ≡ true → all_allowed t ≡ false → s ≢ t
not_spelled s t h k e = ground (arith, ap all_allowed e)

allowed-IsFileName : (s : String) → all_allowed s ≡ true → s ≢ "" → IsFileName s
allowed-IsFileName s h not_empty = record {
  component = (
    not_absolute s h,
    ap keep_components (no_slash s h)
        ∙ ground (arith, not_empty, not_spelled s "." h refl, eq_iff s "", eq_iff s "."),
  );
  not_parent = not_spelled s ".." h refl;
}

allowed_file_stem : (s : String) → all_allowed s ≡ true → file_stem s ≡ s
unfolding file_stem
allowed_file_stem s h = rw (no_dot s h, file_stem) refl

accepted : (s t : String) → key_name_from_str s ≡ ok t → (all_allowed s ≡ true) × (s ≡ t)
unfolding key_name_from_str
accepted s t h = elim (Bool-cases (all_allowed s)) [
  | inl a ↦ ground (arith, a, h)
  | inr a ↦ absurd (ground (arith, a, h))
]

path-allowed :
    (kt : KeyType) (pwd : FilePath) (s : String)
    → all_allowed s ≡ true
    → s ≢ ""
    → path kt pwd s ≡ ((s <> ".toml") ∷ (key_type_name kt ∷ pwd))
unfolding path
path-allowed kt pwd s h not_empty =
    set_extension-join_path (root kt pwd) s (allowed-IsFileName s h not_empty)
    ∙ ap (λ (t : String). (t <> ".toml") ∷ (key_type_name kt ∷ pwd)) (allowed_file_stem s h)

-- A name accepted for a key that is not empty is a file name of its own: the file lies directly in
-- the directory of its kind, and another accepted name of the same file is the same name.
pub key_name_from_str-path :
    (kt : KeyType) (pwd : FilePath) (s t : String)
    → s ≢ ""
    → key_name_from_str s ≡ ok t
    → IsFileName t
      × ((path kt pwd t ≡ ((s <> ".toml") ∷ (key_type_name kt ∷ pwd)))
          × ((r : String)
              → r ≢ ""
              → key_name_from_str r ≡ ok r
              → path kt pwd r ≡ path kt pwd t
              → r ≡ t))
key_name_from_str-path kt pwd s t not_empty h =
    let a = accepted s t h in
    let at = path-allowed kt pwd s (a.0) not_empty in
    subst
      (λ (x : String).
        IsFileName x
        × ((path kt pwd x ≡ ((s <> ".toml") ∷ (key_type_name kt ∷ pwd)))
            × ((r : String)
                → r ≢ ""
                → key_name_from_str r ≡ ok r
                → path kt pwd r ≡ path kt pwd x
                → r ≡ x)))
      (a.1)
      (
        allowed-IsFileName s (a.0) not_empty,
        (
          at,
          λ r n k e.
              append_cancel_right r s ".toml"
                (ap head_or_empty (sym (path-allowed kt pwd r ((accepted r r k).0) n) ∙ (e ∙ at))),
        ),
      )
