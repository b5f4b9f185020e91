-- ===== src/Harness/Lease/Ports.antt =====
-- What LabLease calls: the API's Lease object, the clock, the receipt file, and Date.
use aippliance_magic_stick.Prelude.{ℕ, Option, String, ◌&&◌, if◌then◌else◌, ◌==◌, Bool}
use aippliance_magic_stick.Prelude.Result.{Action}
use aippliance_magic_stick.Prelude.Text.{is_digit}
use aippliance_magic_stick.Harness.Errors.{Thrown}
use Prim.Native.Char.{code}
use aippliance_magic_stick.Harness.Lease.Data.{Lease, LabLease}

pub data ReceiptState : Type 0 where
  requested released : ReceiptState

-- The JSON value that `record` writes.
pub record Receipt : Type 0 where
  pub run_id : String
  pub target_uid : String
  pub lease_uid : String
  pub owner : String
  pub state : ReceiptState

-- `W` is everything outside the object. `read` and `replace` are the LeaseStore, `write_receipt`
-- is writePrivate, `run_uid` is REGRESSION_RUN_UID, the last two are Date's.
pub record Ports (W : Type 0) : Type 0 where
  pub read : Action Thrown W Lease
  pub replace : Lease → Action Thrown W Lease
  -- The clock always answers.
  pub now : W → ℕ × W
  pub write_receipt : Receipt → Action Thrown W (Unit {0})
  pub run_uid : Option String
  pub date_parse : String → Option ℕ
  pub to_iso_string : ℕ → String

-- The object and the world.
pub record Cell (W : Type 0) : Type 0 where
  pub lab : LabLease
  pub world : W

abbrev is_tail : ℕ → ℕ → ℕ → ℕ → ℕ → Bool
is_tail dot a b c z = dot == b'.' && is_digit a && is_digit b && is_digit c && z == b'Z'

-- `.replace(/\.(\d{3})Z$/, '.$1000Z')`
unfoldable pub micro_time : String → String
micro_time (String.◌∷◌ d (String.◌∷◌ a (String.◌∷◌ b (String.◌∷◌ c (String.◌∷◌ z String.[]))))) =
    if is_tail (code d) (code a) (code b) (code c) (code z)
    then String.◌∷◌ d (String.◌∷◌ a (String.◌∷◌ b (String.◌∷◌ c "000Z")))
    else String.◌∷◌ d (String.◌∷◌ a (String.◌∷◌ b (String.◌∷◌ c (String.◌∷◌ z String.[]))))
micro_time (String.◌∷◌ c s) = String.◌∷◌ c (micro_time s)
micro_time String.[] = String.[]
