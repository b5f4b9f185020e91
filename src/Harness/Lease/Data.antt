-- ===== src/Harness/Lease/Data.antt =====
-- The Kubernetes Lease and the fields of LabLease (lease.ts).
use aippliance_magic_stick.Prelude.{ℕ, Bool, Option, String}
use aippliance_magic_stick.Prelude.Text.{Labels}

pub record Metadata : Type 0 where
  pub name : String
  pub namespace : String
  pub uid : Option String
  pub resource_version : String
  pub labels : Labels
  pub annotations : Option Labels

-- `leaseDurationSeconds` is an int32 of the API, and never negative.
pub record Spec : Type 0 where
  pub holder_identity : Option String
  pub renew_time : Option String
  pub lease_duration_seconds : Option ℕ

pub record Lease : Type 0 where
  pub api_version : String
  pub kind : String
  pub metadata : Metadata
  pub spec : Spec

-- `store` and `now` are the ports. `receipt` holds the run id of the receipt's journal.
pub record LabLease : Type 0 where
  pub owner : String
  pub target_uid : String
  pub duration_seconds : ℕ
  pub ordinary_duration_seconds : ℕ
  pub offline_reserved : Bool
  pub held : Bool
  pub fenced : Bool
  pub last_heartbeat : ℕ
  pub receipt : Option String

-- The constructor.
unfoldable pub new_lease : String → String → ℕ → Option String → LabLease
new_lease owner target_uid duration_seconds receipt = record {
  owner = owner;
  target_uid = target_uid;
  duration_seconds = duration_seconds;
  ordinary_duration_seconds = duration_seconds;
  offline_reserved = Bool.false;
  held = Bool.false;
  fenced = Bool.false;
  last_heartbeat = 0;
  receipt = receipt;
}
