-- ===== src/Bundle/Types.antt =====
-- The data of bundle_store.go: states, records, the startup pointer, and the sentinel errors.
-- Integer fields are compared, printed and sorted; they are natural numbers here.
use mihomo_extension_sidecar.Common.{
  ◌≡◌, ◌⊎◌, inl, inr, refl, ℕ, Bool, true, false, [], Bytes, codes, Option, none, some,
  if◌then◌else◌,
}

-- `bundleState`, a Go string: a record read from disk may hold any other word.
pub data BundleState : Type 0 where
  staged active superseded : BundleState
  unknown : Bytes → BundleState

unfoldable pub state_text : BundleState → Bytes
state_text staged = codes "STAGED"
state_text active = codes "ACTIVE"
state_text superseded = codes "SUPERSEDED"
state_text (unknown t) = t

abbrev pub is_staged : BundleState → Bool
is_staged staged = true
is_staged _ = false

abbrev pub is_active : BundleState → Bool
is_active active = true
is_active _ = false

abbrev pub is_superseded : BundleState → Bool
is_superseded superseded = true
is_superseded _ = false

pub record BundleRecord : Type 0 where
  pub schema : ℕ
  pub id : Bytes
  pub state : BundleState
  pub digest : Bytes
  pub document : Bytes
  pub staged_at : ℕ
  pub activated_at : ℕ
  pub record_digest : Bytes

pub record BundlePointer : Type 0 where
  pub schema : ℕ
  pub active : Bytes
  pub previous : Bytes
  pub updated_at : ℕ
  pub digest : Bytes

abbrev pub bundle_store_schema : ℕ
bundle_store_schema = 1

-- `&bundlePointer{Schema: bundleStoreSchema}`
abbrev pub empty_pointer : BundlePointer
empty_pointer = record {
  schema = bundle_store_schema;
  active = [];
  previous = [];
  updated_at = 0;
  digest = [];
}

-- The sentinel errors; `unclassified` is any error that wraps none of them.
pub data Error : Type 0 where
  not_found wrong_state conflict corrupt unsupported_schema invalid_document unclassified : Error

pub data Result {ℓ} (A : Type ℓ) : Type ℓ where
  ok : A → Result A
  err : Error → Result A

abbrev pub is_ok {ℓ} : {A : Type ℓ} → Result A → Bool
is_ok (err _) = false
is_ok (ok _) = true

abbrev pub guard : Bool → Error → Result (Unit {0})
guard holds failure = if holds then ok tt else err failure

infixl 5 ◌>>=◌ ◌>>◌
abbrev pub ◌>>=◌ {ℓ κ} : {A : Type ℓ} {B : Type κ} → Result A → (A → Result B) → Result B
done >>= next = elim done [ err failure ↦ err failure | ok value ↦ next value ]

abbrev pub ◌>>◌ {ℓ} : {B : Type ℓ} → Result (Unit {0}) → Result B → Result B
done >> last = done >>= (λ _. last)

abbrev pub or_err {ℓ} : {A : Type ℓ} → Option A → Error → Result A
or_err none e = err e
or_err (some a) e = ok a

pub Result-cases {ℓ} :
    {A : Type ℓ} (x : Result A) → ((a : A) × (x ≡ ok a)) ⊎ ((e : Error) × (x ≡ err e))
Result-cases (ok a) = inl (a, refl)
Result-cases (err e) = inr (e, refl)
