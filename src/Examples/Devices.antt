-- ===== src/Examples/Devices.antt =====
-- Tests of the Device_Manager, and its theorems at concrete inputs.
use auxifyai.Prelude.{
  ◌≡◌, refl, ◌&&◌, true, false, String, none, some, [], ◌∷◌, map, filter, length, All, str_eq,
  arith,
}
use auxifyai.Prelude.Maps.{lookup}
use auxifyai.Identity.{TenantContext}
use auxifyai.Device.{
  SessionRecord, password, sessions_of, DeviceState, is_active, on_device, revoke_device,
  deactivate_user, is_deactivated,
}
use auxifyai.Device.Revoking.{
  WellKeyed, retired, SignedOut, deactivate_user-SignedOut, revoke_device-retired,
}

abbrev admin : TenantContext
admin = record { organization_id = "o1"; user_id = "a1"; team_id = none; project_id = none }

abbrev session : String → String → String → SessionRecord
session id user device = record {
  id = id;
  user_id = user;
  organization_id = "o1";
  roles = [];
  method = password;
  mfa_satisfied = false;
  device_id = some device;
  device_name = none;
  created_at = 0;
  expires_at = 1000;
  last_active_at = 10;
  revoked_at = none;
  access_token_hash = none;
  access_token_expires_at = none;
  refresh_token_hash = none;
}

abbrev signed_in : DeviceState
signed_in = record {
  sessions =
      ("s1", session "s1" "u1" "phone")
      ∷ ("s2", session "s2" "u2" "phone")
      ∷ ("s3", session "s3" "u1" "laptop")
      ∷ [];
  deactivated = [];
  audited = [];
}

signed_in-WellKeyed : WellKeyed signed_in.sessions
unfolding lookup
signed_in-WellKeyed = (refl, refl, (refl, refl, (refl, refl, tt)))

phone_revoked : (revoke_device admin "u1" "phone" 20 signed_in).0 ≡ 1
unfolding revoke_device is_active
phone_revoked = refl

both_revoked : (deactivate_user admin "u1" 20 signed_in).0 ≡ 2
unfolding deactivate_user is_active
both_revoked = refl

deactivate_user-SignedOut_example :
    ((deactivate_user admin "u1" 20 signed_in).1.sessions
      ≡ map (retired (λ r. str_eq r.user_id "u1" && is_active 20 r) 20) signed_in.sessions)
    × All (SignedOut "u1" 30) (deactivate_user admin "u1" 20 signed_in).1.sessions
    × (is_deactivated admin "u1" (deactivate_user admin "u1" 20 signed_in).1 ≡ true)
    × ((deactivate_user admin "u1" 20 signed_in).0
        ≡ length (
            filter (λ r. str_eq r.user_id "u1" && is_active 20 r) (sessions_of signed_in.sessions)))
deactivate_user-SignedOut_example =
    deactivate_user-SignedOut admin "u1" 20 30 signed_in signed_in-WellKeyed (omega arith)

revoke_device-retired_example :
    ((revoke_device admin "u1" "phone" 20 signed_in).1.sessions
      ≡ map
          (retired (λ r. str_eq r.user_id "u1" && (on_device "phone" r && is_active 20 r)) 20)
          signed_in.sessions)
    × ((revoke_device admin "u1" "phone" 20 signed_in).0
        ≡ length (
            filter
              (λ r. str_eq r.user_id "u1" && (on_device "phone" r && is_active 20 r))
              (sessions_of signed_in.sessions)))
revoke_device-retired_example =
    revoke_device-retired admin "u1" "phone" 20 signed_in signed_in-WellKeyed
