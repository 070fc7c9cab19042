-- ===== src/ArgParsing/Arguments.antt =====
-- What the arguments of a call are made of, and what has no influence on it.
use mathlib.Core.Path.{subst}
use soroban_tools.Prelude.{
  ℕ, String, true, false, Option, none, some, List, [], ◌∷◌, ◌≡◌, refl, arith, Bool-cases,
  Option-cases, inl, inr, All,
}
use soroban_tools.Prelude.Result.{ok, Result-cases, collect}
use soroban_tools.Xdr.{Bytes}
use soroban_tools.Spec.Types.{ScVal, Field, FunctionV0}
use soroban_tools.Spec.Base.{Crates}
use soroban_tools.Spec.Find.{Spec}
use soroban_tools.Spec.FromJson.{from_string}
use soroban_tools.Config.Disk.{Host, Disk}
use soroban_tools.Config.Directories.{Args}
use soroban_tools.Config.Locator
use soroban_tools.Config.Resolve.{NetworkArgs, ScAddress}
use soroban_tools.ArgParsing.{
  Matches, Files, InvokeContractArgs, fmt_arg_file_name, trim_quotes, is_address, is_option,
  is_raw_bytes, resolve_address_text, resolve_signer, parse_arg, given_arg, absent_arg, values_of,
  signers_of, build_call,
}

module _ (C : Locator.Crates) (K : Crates) (address_from_str : String → Option (ScAddress C))
    (address_to_string : ScAddress C → String) (args : Args) (network : NetworkArgs) (host : Host)
    (d : Disk) (files : Files) (matches : Matches) (fuel : ℕ) (spec : Spec) where
  -- Where the value of an input and its signer come from.
  pub data Argument (i : Field) (v : ScVal) (signer : Option C.keys.SigningKey) : Type 0 where
    by_text :
        (s : String)
        → matches.get_raw i.name ≡ some s
        → is_address i.type_ ≡ false
        → from_string K fuel spec (trim_quotes s) i.type_ ≡ ok v
        → signer ≡ none
        → Argument i v signer
    by_address :
        (s address : String)
        → matches.get_raw i.name ≡ some s
        → is_address i.type_ ≡ true
        → resolve_address_text C K address_from_str address_to_string args network host d
            (trim_quotes s)
          ≡ ok address
        → from_string K fuel spec address i.type_ ≡ ok v
        → signer
          ≡ resolve_signer C K address_from_str address_to_string args network host d
              (trim_quotes s)
        → Argument i v signer
    left_out :
        matches.get_raw i.name ≡ none
        → is_option i.type_ ≡ true
        → v ≡ ScVal.void
        → signer ≡ none
        → Argument i v signer
    by_bytes :
        (p : String) (b : Bytes)
        → matches.get_raw i.name ≡ none
        → is_option i.type_ ≡ false
        → matches.get_path (fmt_arg_file_name i.name) ≡ some p
        → is_raw_bytes i.type_ ≡ true
        → files.read p ≡ some b
        → v ≡ ScVal.bytes b
        → signer ≡ none
        → Argument i v signer
    by_file :
        (p s : String)
        → matches.get_raw i.name ≡ none
        → is_option i.type_ ≡ false
        → matches.get_path (fmt_arg_file_name i.name) ≡ some p
        → is_raw_bytes i.type_ ≡ false
        → files.read_to_string p ≡ some s
        → from_string K fuel spec s i.type_ ≡ ok v
        → signer ≡ none
        → Argument i v signer

  abbrev pub Arguments : List Field → List (ScVal × Option C.keys.SigningKey) → Type 0
  Arguments [] [] = Unit
  Arguments [] (p ∷ ps) = ⊥
  Arguments (i ∷ is) [] = ⊥
  Arguments (i ∷ is) ((v, s) ∷ ps) = Argument i v s × Arguments is ps

  given_arg-Argument :
      (i : Field) (s : String) (v : ScVal) (signer : Option C.keys.SigningKey)
      → matches.get_raw i.name ≡ some s
      → given_arg C K address_from_str address_to_string args network host d files matches fuel spec
          i.name i.type_
          (trim_quotes s)
          (is_address i.type_)
        ≡ ok (v, signer)
      → Argument i v signer
  given_arg-Argument i s v signer raw h = elim (Bool-cases (is_address i.type_)) [
    | inl a ↦
        elim (Result-cases (
          resolve_address_text C K address_from_str address_to_string args network host d
            (trim_quotes s))) [
              | inr (x, r) ↦ absurd (ground (arith, a, r, h))
              | inl (address, r) ↦ elim (Result-cases (from_string K fuel spec address i.type_)) [
                | inr (x, f) ↦ absurd (ground (arith, a, r, f, h))
                | inl (w, f) ↦
                    by_address s address raw a r (ground (arith, a, r, f, h))
                      (ground (arith, a, r, f, h))
              ]
            ]
    | inr a ↦ elim (Result-cases (from_string K fuel spec (trim_quotes s) i.type_)) [
      | inr (x, f) ↦ absurd (ground (arith, a, f, h))
      | inl (w, f) ↦ by_text s raw a (ground (arith, a, f, h)) (ground (arith, a, f, h))
    ]
  ]

  absent_arg-Argument :
      (i : Field) (v : ScVal) (signer : Option C.keys.SigningKey)
      → matches.get_raw i.name ≡ none
      → absent_arg C K address_from_str address_to_string args network host d files matches fuel
          spec i.name i.type_
          (is_option i.type_)
        ≡ ok (v, signer)
      → Argument i v signer
  absent_arg-Argument i v signer raw h = elim (Bool-cases (is_option i.type_)) [
    | inl o ↦ left_out raw o (ground (arith, o, h)) (ground (arith, o, h))
    | inr o ↦ elim (Option-cases (matches.get_path (fmt_arg_file_name i.name))) [
      | inl q ↦ absurd (ground (arith, o, q, h))
      | inr (p, q) ↦ elim (Bool-cases (is_raw_bytes i.type_)) [
        | inl b ↦ elim (Option-cases (files.read p)) [
          | inl r ↦ absurd (ground (arith, o, q, b, r, h))
          | inr (bs, r) ↦
              by_bytes p bs raw o q b r (ground (arith, o, q, b, r, h))
                (ground (arith, o, q, b, r, h))
        ]
        | inr b ↦ elim (Option-cases (files.read_to_string p)) [
          | inl r ↦ absurd (ground (arith, o, q, b, r, h))
          | inr (s, r) ↦ elim (Result-cases (from_string K fuel spec s i.type_)) [
            | inr (x, f) ↦ absurd (ground (arith, o, q, b, r, f, h))
            | inl (w, f) ↦
                by_file p s raw o q b r (ground (arith, o, q, b, r, f, h))
                  (ground (arith, o, q, b, r, f, h))
          ]
        ]
      ]
    ]
  ]

  parse_arg-Argument :
      (i : Field) (v : ScVal) (signer : Option C.keys.SigningKey)
      → parse_arg C K address_from_str address_to_string args network host d files matches fuel spec
          i
        ≡ ok (v, signer)
      → Argument i v signer
  unfolding parse_arg
  parse_arg-Argument i v signer h = elim (Option-cases (matches.get_raw i.name)) [
    | inl q ↦ absent_arg-Argument i v signer q (rw (q, parse_arg) at h)
    | inr (s, q) ↦ given_arg-Argument i s v signer q (rw (q, parse_arg) at h)
  ]

  collect-Arguments :
      (is : List Field) (ps : List (ScVal × Option C.keys.SigningKey))
      → collect
          (parse_arg C K address_from_str address_to_string args network host d files matches fuel
            spec)
          is
        ≡ ok ps
      → Arguments is ps
  collect-Arguments [] [] h = tt
  collect-Arguments [] (p ∷ ps) h = ground (arith, h)
  collect-Arguments (i ∷ is) ps h =
      elim (Result-cases (
        parse_arg C K address_from_str address_to_string args network host d files matches fuel spec
          i)) [
            | inr (x, q) ↦ absurd (ground (arith, q, h))
            | inl ((v, s), q) ↦
                elim (Result-cases (
                  collect
                    (parse_arg C K address_from_str address_to_string args network host d files
                      matches fuel spec)
                    is)) [
                      | inr (x, r) ↦ absurd (ground (arith, q, r, h))
                      | inl (rest, r) ↦
                          let e : (((v, s) ∷ rest) ≡ ps) = ground (arith, q, r, h) in
                          subst
                            (λ (x : List (ScVal × Option C.keys.SigningKey)). Arguments (i ∷ is) x)
                            e (parse_arg-Argument i v s q, collect-Arguments is rest r)
                    ]
          ]

  -- A call that is built is of the contract and the function asked for, and has one argument for
  -- each input of the function, in order: the text given for it parsed at its type, an address
  -- resolved before, nothing for an optional input that was not given, or what its file holds; its
  -- signers are the keys of the addresses given, in order.
  pub build_call-Arguments :
      (contract_id : C.Contract) (function : String) (func : FunctionV0)
      (call : InvokeContractArgs C.Contract) (signers : List C.keys.SigningKey) {f : String}
      → build_call C K address_from_str address_to_string args network host d files matches fuel
          spec contract_id function func
        ≡ ok (f, (call, signers))
      → (ps : List (ScVal × Option C.keys.SigningKey)) × (Arguments func.inputs ps
          × (((call.contract_address ≡ contract_id) × (call.function_name ≡ function))
              × ((call.args
                    ≡ values_of C K address_from_str address_to_string args network host d files
                        matches fuel spec ps)
                  × (signers
                      ≡ signers_of C K address_from_str address_to_string args network host d files
                          matches fuel spec ps))))
  unfolding build_call
  build_call-Arguments contract_id function func call signers h =
      elim (Result-cases (
        collect
          (parse_arg C K address_from_str address_to_string args network host d files matches fuel
            spec)
          func.inputs)) [
            | inr (x, q) ↦ absurd (ground (arith, q, h))
            | inl (ps, q) ↦ (ps, (collect-Arguments func.inputs ps q, ground (arith, q, h)))
          ]

  module _ (other : Files) (found : Matches)
      (same : (s : String) → found.get_raw s ≡ matches.get_raw s) where
    parse_arg-files :
        (i : Field)
        → (matches.get_raw i.name ≡ none → is_option i.type_ ≡ true)
        → parse_arg C K address_from_str address_to_string args network host d other found fuel spec
            i
          ≡ parse_arg C K address_from_str address_to_string args network host d files matches fuel
              spec i
    unfolding parse_arg
    parse_arg-files i given = elim (Option-cases (matches.get_raw i.name)) [
      | inl q ↦ rw (same i.name, q, parse_arg) (rw (given q) refl)
      | inr (s, q) ↦ rw (same i.name, q, parse_arg) refl
    ]

    collect_files :
        (is : List Field)
        → All (λ (i : Field). matches.get_raw i.name ≡ none → is_option i.type_ ≡ true) is
        → collect
            (parse_arg C K address_from_str address_to_string args network host d other found fuel
              spec)
            is
          ≡ collect
              (parse_arg C K address_from_str address_to_string args network host d files matches
                fuel spec)
              is
    collect_files [] given = refl
    collect_files (i ∷ is) given = rw (parse_arg-files i (given.0), collect_files is (given.1)) refl

    -- Where the only inputs that were not given directly are optional, the files given for them,
    -- and what the files hold, have no influence on the call.
    pub build_call_files :
        (contract_id : C.Contract) (function : String) (func : FunctionV0)
        → All (λ (i : Field). matches.get_raw i.name ≡ none → is_option i.type_ ≡ true) func.inputs
        → build_call C K address_from_str address_to_string args network host d other found fuel
            spec contract_id function func
          ≡ build_call C K address_from_str address_to_string args network host d files matches fuel
              spec contract_id function func
    unfolding build_call
    build_call_files contract_id function func given = rw (collect_files func.inputs given) refl
