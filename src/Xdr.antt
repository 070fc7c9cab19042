-- ===== src/Xdr.antt =====
-- The protocol types of the `stellar_xdr` crate that the CLI takes apart or builds, with the
-- constructors and fields that it names. What it only passes on is a type parameter of `Xdr`, and
-- so are the functions of the crate, which have no laws here.
use soroban_tools.Prelude.{ℕ, Bool, Option, List}

abbrev pub Bytes : Type 0
Bytes = List ℕ

pub data MuxedAccount : Type 0 where
  ed25519 : Bytes → MuxedAccount
  muxed_ed25519 : Bytes → ℕ → MuxedAccount

pub data ScAddress : Type 0 where
  account : Bytes → ScAddress
  contract : Bytes → ScAddress

pub record Xdr : Type 1 where
  -- Types that are never taken apart.
  pub Error : Type 0
  pub Preconditions : Type 0
  pub Memo : Type 0
  pub HostFunction : Type 0
  pub ContractArgs : Type 0
  pub CreateArgs : Type 0
  pub SubInvocations : Type 0
  pub SignatureVal : Type 0
  pub LedgerKey : Type 0
  pub OtherOperation : Type 0
  pub no_preconditions : Preconditions
  pub no_memo : Memo
  -- Whether a `VecM` of that maximum takes a vector of that length, and the error if not.
  pub vec_m_fits : ℕ → ℕ → Bool
  pub length_exceeds_max : Error

module _ (X : Xdr) where
  open X use {
    Preconditions, Memo, HostFunction, ContractArgs, CreateArgs, SubInvocations, SignatureVal,
    LedgerKey, OtherOperation,
  }

  pub data SorobanAuthorizedFunction : Type 0 where
    contract_fn : ContractArgs → SorobanAuthorizedFunction
    create_contract_host_fn : CreateArgs → SorobanAuthorizedFunction
    create_contract_v2_host_fn : CreateArgs → SorobanAuthorizedFunction

  pub record SorobanAuthorizedInvocation : Type 0 where
    pub function : SorobanAuthorizedFunction
    pub sub_invocations : SubInvocations

  pub record SorobanAddressCredentials : Type 0 where
    pub address : ScAddress
    pub nonce : ℕ
    pub signature_expiration_ledger : ℕ
    pub signature : SignatureVal

  pub data SorobanCredentials : Type 0 where
    source_account : SorobanCredentials
    address_credentials : SorobanAddressCredentials → SorobanCredentials

  pub record SorobanAuthorizationEntry : Type 0 where
    pub credentials : SorobanCredentials
    pub root_invocation : SorobanAuthorizedInvocation

  pub data OperationBody : Type 0 where
    invoke_host_function : HostFunction → List SorobanAuthorizationEntry → OperationBody
    restore_footprint : OperationBody
    other : OtherOperation → OperationBody

  pub record Operation : Type 0 where
    pub source_account : Option MuxedAccount
    pub body : OperationBody

  pub record SorobanResources : Type 0 where
    pub read_only : List LedgerKey
    pub read_write : List LedgerKey
    pub instructions : ℕ
    pub read_bytes : ℕ
    pub write_bytes : ℕ

  pub record SorobanTransactionData : Type 0 where
    pub resources : SorobanResources
    pub resource_fee : ℕ

  pub data TransactionExt : Type 0 where
    v0 : TransactionExt
    v1 : SorobanTransactionData → TransactionExt

  pub record Transaction : Type 0 where
    pub source_account : MuxedAccount
    pub fee : ℕ
    pub seq_num : ℕ
    pub cond : Preconditions
    pub memo : Memo
    pub operations : List Operation
    pub ext : TransactionExt
