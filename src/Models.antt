-- ===== src/Models.antt =====
-- The rows of models/*.go. Times are nanoseconds since the epoch, negative before it; `*time.Time`
-- is an option; byte slices are lists of numbers.
use certhub_server.Common.{ℕ, String, Bool, true, false, Option, List, is_none}
use certhub_server.Common.Int.{ℤ, negsuc}

abbrev pub Time : Type 0
Time = ℤ

abbrev pub Bytes : Type 0
Bytes = List ℕ

-- Go's zero time, 1 January of the year 1.
abbrev pub zero_time : Time
zero_time = negsuc 62_135_596_799_999_999_999

-- The status column: the five words that the program writes, and any other text.
pub data Status : Type 0 where
  pending verified generating active error : Status
  other : String → Status

abbrev pub is_generating : Status → Bool
is_generating generating = true
is_generating _ = false

abbrev pub is_active_status : Status → Bool
is_active_status active = true
is_active_status _ = false

abbrev pub is_verified_status : Status → Bool
is_verified_status verified = true
is_verified_status _ = false

-- `status IN ("pending", "error")`
abbrev pub is_claimable_status : Status → Bool
is_claimable_status pending = true
is_claimable_status error = true
is_claimable_status _ = false

pub record Domain : Type 0 where
  pub id : ℕ
  pub user_id : ℕ
  pub domain : String
  pub status : Status
  pub generating_since : Option Time
  pub cname_target : String
  pub auto_renew : Bool
  pub cname_verified_at : Option Time
  pub auto_renew_failures : ℤ
  pub auto_renew_backoff_until : Option Time
  pub error_message : String
  pub created_at : Time
  pub updated_at : Time
  pub deleted_at : Option Time

pub record Certificate : Type 0 where
  pub id : ℕ
  pub domain_id : ℕ
  pub user_id : ℕ
  pub domain : String
  pub cert_pem : Bytes
  pub key_pem : Bytes
  pub issuer : Bytes
  pub cert_url : String
  pub cert_stable_url : String
  pub expires_at : Time
  pub created_at : Time
  pub updated_at : Time

pub record User : Type 0 where
  pub id : ℕ
  pub email : String
  pub password : String
  pub created_at : Time
  pub updated_at : Time

pub record DeployTarget : Type 0 where
  pub id : ℕ
  pub domain_id : ℕ
  pub user_id : ℕ
  pub name : String
  pub type : String
  pub host : String
  pub port : ℤ
  pub enabled : Bool
  pub auth_type : String
  pub ssh_user : String
  pub private_key_pem : Bytes
  pub password_enc : Bytes
  pub cert_path : String
  pub reload_command : String
  pub last_deploy_at : Option Time
  pub last_status : String
  pub created_at : Time
  pub updated_at : Time

pub record DeployJob : Type 0 where
  pub id : ℕ
  pub domain_id : ℕ
  pub user_id : ℕ
  pub status : String
  pub targets_json : Bytes
  pub created_at : Time
  pub finished_at : Option Time

pub record AcmeAccount : Type 0 where
  pub id : ℕ
  pub user_id : ℕ
  pub email : String
  pub private_key_pem : Bytes
  pub registration : Bytes
  pub ca_url : String
  pub created_at : Time
  pub updated_at : Time

-- gorm leaves soft-deleted rows out of every query that is not `Unscoped`.
abbrev pub is_live : Domain → Bool
is_live d = is_none d.deleted_at
