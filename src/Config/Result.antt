-- ===== src/Config/Result.antt =====
-- What a step of the compilation returns: a value, or the reason for which the configuration is
-- refused. The reasons stand for the errors of src/internal/monitor/config.go, without their texts.
use domain_monitor.Base.{◌≡◌, refl, ◌⊎◌, inl, inr, Bool, true, false}

pub data Refusal : Type 0 where
  invalid_server_port too_many_resolvers invalid_resolver invalid_doh_url : Refusal
  invalid_ntfy_url authenticated_ntfy_requires_https : Refusal
  reserved_dns_name domain_empty invalid_monitored_domain duplicate_domain : Refusal
  empty_nameserver invalid_nameserver duplicate_nameserver needs_answering_nameserver : Refusal
  domain_missing_name duplicate_domain_name negative_renewal_price : Refusal
  invalid_root_zone root_zone_is_not_a_parent : Refusal
  provider_and_mx_exclusive invalid_mx invalid_dkim_selector : Refusal
  dns_empty_hostname dns_missing_name duplicate_dns_name dns_missing_type : Refusal
  unsupported_record_type unsupported_match_type missing_expected : Refusal
  invalid_custom_resolver invalid_expected_caa invalid_expected_ip wrong_ip_version : Refusal
  empty_expected : Refusal

pub data Result {ℓ} (A : Type ℓ) : Type ℓ where
  accept : A → Result A
  refuse : Refusal → Result A

infixl 5 ◌>>=◌
abbrev pub ◌>>=◌ {ℓ κ} : {A : Type ℓ} {B : Type κ} → Result A → (A → Result B) → Result B
accept a >>= f = f a
refuse r >>= f = refuse r

-- An early return with an error.
abbrev pub unless {ℓ} : {A : Type ℓ} → Bool → Refusal → Result A → Result A
unless true r m = m
unless false r m = refuse r

pub Result-cases {ℓ} :
    {A : Type ℓ} (m : Result A) → ((a : A) × (m ≡ accept a)) ⊎ ((r : Refusal) × (m ≡ refuse r))
Result-cases (accept a) = inl (a, refl)
Result-cases (refuse r) = inr (r, refl)

pub bind-accepted {ℓ κ} :
    {A : Type ℓ} {B : Type κ} (m : Result A) (f : A → Result B) {b : B}
    → (m >>= f) ≡ accept b
    → (a : A) × (m ≡ accept a) × (f a ≡ accept b)
bind-accepted (accept a) f h = (a, refl, h)
bind-accepted (refuse r) f h = cc

pub accept-injective {ℓ} : {A : Type ℓ} {a b : A} → accept a ≡ accept b → a ≡ b
accept-injective h = cc h

pub unless-accepted {ℓ} :
    {A : Type ℓ} (test : Bool) (r : Refusal) (m : Result A) {a : A}
    → unless test r m ≡ accept a
    → m ≡ accept a
unless-accepted true r m h = h
unless-accepted false r m h = cc
