-- ===== src/Core/Tenant.antt =====
-- crates/mercury-core/src/tenant.rs
use mercury_messaging.Base.{ℕ}
use mercury_messaging.Core.Ids.{IdCrates, TenantId}

pub data SignupMode : Type 0 where
  open_to_all invite_only waitlist : SignupMode

pub record TenantContext (c : IdCrates) : Type 0 where
  pub tenant_id : TenantId c
  pub max_users : ℕ
  pub max_channels : ℕ
  pub max_file_size_mb : ℕ
  pub rate_limit_per_user : ℕ
  pub signup_mode : SignupMode

-- The default limits.
unfoldable pub new : (c : IdCrates) → TenantId c → TenantContext c
new c tenant_id = record {
  tenant_id = tenant_id;
  max_users = 1_000;
  max_channels = 100;
  max_file_size_mb = 25;
  rate_limit_per_user = 100;
  signup_mode = open_to_all;
}
