-- ===== src/Payloads.antt =====
-- What the forms of apps/web/src/components pass on, and the requests carry: `EndpointPayload` of
-- notifications/endpoint-form.tsx, `PolicyPayload` of notifications/policy-form.tsx and `DomainPayload`
-- of domains/domain-form.tsx.
use go_check_ssl.Prelude.{ℕ, Bool, List}
use go_check_ssl.Prelude.Text.{Text}
use go_check_ssl.Prelude.Text.Number.{JsNumber}
use go_check_ssl.Types.{EndpointType, EndpointConfig}

pub record EndpointPayload : Type 0 where
  pub name : Text
  pub type : EndpointType
  pub enabled : Bool
  pub config : EndpointConfig

pub record PolicyPayload : Type 0 where
  pub threshold_days : List JsNumber
  pub endpoint_ids : List ℕ

pub record DomainPayload : Type 0 where
  pub hostname : Text
  pub port : ℕ
  pub target_ip : Text
  pub enabled : Bool
  pub check_interval_seconds : ℕ
