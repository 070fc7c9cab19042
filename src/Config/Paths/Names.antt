-- ===== src/Config/Paths/Names.antt =====
-- The names of the files that the configuration writes.
use Prim.Native.Char.{Char, code}
use Prim.Native.String.append.{cons as append-cons}
use soroban_tools.Prelude.{ℕ, String, false, ◌∷◌, ◌≡◌, ◌≢◌, refl, ap, ◌<>◌, arith, str_eq, eq_iff}
use soroban_tools.Config.Paths.{
  FilePath, IsComponent, join_path, join_path-component, set_extension, file_stem,
}

-- The last two characters, after the two given.
abbrev last_two : ℕ → ℕ → String → ℕ × ℕ
last_two a b String.[] = (a, b)
last_two a b (String.◌∷◌ c s) = last_two b (code c) s

pub cons_append : (c : Char) (s t : String) → String.◌∷◌ c s <> t ≡ String.◌∷◌ c (s <> t)
cons_append c s t = λ i. append-cons c s t i

last_two-json : (s : String) (a b : ℕ) → last_two a b (s <> ".json") ≡ (111, 110)
last_two-json String.[] a b = refl
last_two-json (String.◌∷◌ c s) a b = rw (cons_append c s ".json") (last_two-json s b (code c))

last_two-toml : (s : String) (a b : ℕ) → last_two a b (s <> ".toml") ≡ (109, 108)
last_two-toml String.[] a b = refl
last_two-toml (String.◌∷◌ c s) a b = rw (cons_append c s ".toml") (last_two-toml s b (code c))

-- A name of a directory or file that is none of those the configuration is looked for by.
pub record IsPlain (s : String) : Type 0 where
  pub not_stellar : s ≢ ".stellar"
  pub not_soroban : s ≢ ".soroban"

last_two_of : (s t : String) → s ≡ t → last_two 0 0 s ≡ last_two 0 0 t
last_two_of s t e = ap (last_two 0 0) e

pub json-IsPlain : (s : String) → IsPlain (s <> ".json")
json-IsPlain s = record {
  not_stellar = λ h. ground (arith, last_two-json s 0 0, last_two_of (s <> ".json") ".stellar" h);
  not_soroban = λ h. ground (arith, last_two-json s 0 0, last_two_of (s <> ".json") ".soroban" h);
}

pub toml-IsPlain : (s : String) → IsPlain (s <> ".toml")
toml-IsPlain s = record {
  not_stellar = λ h. ground (arith, last_two-toml s 0 0, last_two_of (s <> ".toml") ".stellar" h);
  not_soroban = λ h. ground (arith, last_two-toml s 0 0, last_two_of (s <> ".toml") ".soroban" h);
}

apart-IsPlain : (s : String) → str_eq s ".stellar" ≡ false → str_eq s ".soroban" ≡ false → IsPlain s
apart-IsPlain s h k = record {
  not_stellar = λ e. ground (arith, eq_iff s ".stellar");
  not_soroban = λ e. ground (arith, eq_iff s ".soroban");
}

pub identity-IsPlain : IsPlain "identity"
identity-IsPlain = apart-IsPlain "identity" refl refl

pub network-IsPlain : IsPlain "network"
network-IsPlain = apart-IsPlain "network" refl refl

pub contract_ids-IsPlain : IsPlain "contract-ids"
contract_ids-IsPlain = apart-IsPlain "contract-ids" refl refl

-- A name of an identity or a network that is one component of a path.
pub record IsFileName (s : String) : Type 0 where
  pub component : IsComponent s
  pub not_parent : s ≢ ".."

pub set_extension-join_path :
    (p : FilePath) (s : String)
    → IsFileName s
    → set_extension (join_path p s) "toml" ≡ (file_stem s <> ".toml") ∷ p
unfolding set_extension
set_extension-join_path p s h =
    rw (join_path-component p s h.component) (ground (arith, h.not_parent, eq_iff s ".."))
