-- ===== src/Types.antt =====
-- apps/web/src/lib/types.ts: what the API's answers hold. Times are the texts that the API sends,
-- an optional field is an `Option`, and identifiers and counts are natural numbers.
use go_check_ssl.Prelude.{ℕ, Bool, Option, List}
use go_check_ssl.Prelude.Text.{Text}

pub data UserRole : Type 0 where
  super_admin tenant_owner : UserRole

pub data DomainStatus : Type 0 where
  pending healthy error : DomainStatus

pub data EndpointType : Type 0 where
  email telegram webhook : EndpointType

pub record ApiUser : Type 0 where
  pub id : ℕ
  pub tenant_id : ℕ
  pub username : Text
  pub email : Option Text
  pub role : UserRole
  pub email_verified : Bool
  pub last_login_at : Option Text

pub record ApiTenant : Type 0 where
  pub id : ℕ
  pub name : Text
  pub slug : Text
  pub public_status_title : Option Text
  pub public_status_subtitle : Option Text
  pub disabled : Bool
  pub created_at : Text
  pub updated_at : Text

-- A number of days, which is negative once a certificate has expired: `overdue n` is -n.
pub data Days : Type 0 where
  left : ℕ → Days
  overdue : ℕ → Days

pub record ApiDomain : Type 0 where
  pub id : ℕ
  pub hostname : Text
  pub port : ℕ
  pub target_ip : Option Text
  pub enabled : Bool
  pub status : DomainStatus
  pub resolved_ip : Option Text
  pub cert_valid_from : Option Text
  pub cert_expires_at : Option Text
  pub days_remaining : Option Days
  pub cert_issuer : Option Text
  pub cert_subject : Option Text
  pub cert_common_name : Option Text
  pub cert_dns_names : Option (List Text)
  pub cert_serial_number : Option Text
  pub cert_fingerprint_sha256 : Option Text
  pub cert_signature_algorithm : Option Text
  pub last_error : Option Text
  pub last_checked_at : Option Text
  pub last_successful_at : Option Text
  pub next_check_at : Text
  pub check_interval_seconds : ℕ
  pub created_at : Text
  pub updated_at : Text

-- The keys of `config` and `config_masked` that the client reads.
pub record EndpointConfig : Type 0 where
  pub recipient_email : Option Text
  pub bot_token : Option Text
  pub chat_id : Option Text
  pub url : Option Text
  pub auth_header_name : Option Text
  pub auth_header_value : Option Text

-- `config` is not optional in the type, but the forms still write `endpoint?.config ?? …`.
pub record ApiEndpoint : Type 0 where
  pub id : ℕ
  pub name : Text
  pub type : EndpointType
  pub enabled : Bool
  pub config : EndpointConfig
  pub config_masked : EndpointConfig
  pub created_at : Text
  pub updated_at : Text

pub record PolicyView : Type 0 where
  pub threshold_days : List ℕ
  pub endpoint_ids : List ℕ

-- `overrides` is keyed by a domain's id.
pub record TenantPolicies : Type 0 where
  pub default : PolicyView
  pub overrides : List (record { key : ℕ; view : PolicyView })

pub record TenantStats : Type 0 where
  pub domain_count : ℕ
  pub healthy_count : ℕ
  pub pending_count : ℕ
  pub error_count : ℕ
  pub next_expiry_at : Option Text
  pub public_status_url : Text

pub record AdminTenantListItem : Type 0 where
  pub tenant : ApiTenant
  pub owner : ApiUser
  pub stats : TenantStats

pub record ApiPagination : Type 0 where
  pub page : ℕ
  pub page_size : ℕ
  pub total : ℕ
  pub total_pages : ℕ

pub record AdminTenantListResponse : Type 0 where
  pub tenants : List AdminTenantListItem
  pub pagination : ApiPagination

pub record AdminTenantDetail : Type 0 where
  pub tenant : ApiTenant
  pub owner : ApiUser
  pub stats : TenantStats

pub record StatusSummary : Type 0 where
  pub overall_status : DomainStatus
  pub domain_count : ℕ
  pub healthy_count : ℕ
  pub pending_count : ℕ
  pub error_count : ℕ
  pub next_expiry_at : Option Text

pub record PublicTenantStatus : Type 0 where
  pub tenant : ApiTenant
  pub summary : StatusSummary
  pub public_url : Text
  pub domains : List ApiDomain
