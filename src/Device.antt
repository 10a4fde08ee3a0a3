-- ===== src/Device.antt =====
-- The Device_Manager: services/core/src/device (types.ts, device-manager.ts, fakes.ts) over the session
-- store of services/core/src/auth (types.ts, fakes.ts). The state of the stores is passed in and
-- returned. Instants are natural numbers of milliseconds, which the source writes as ISO text. Ids
-- are ordered by code points.
pub mod Revoking
pub mod Listing
use Prim.Native.String.{◌++◌ as text_append, compare}
use Prim.Native.Nat.{Ordering}
use auxifyai.Prelude.{
  ℕ, ◌&&◌, ◌||◌, Bool, true, false, not, String, Option, none, some, List, [], ◌∷◌, ◌++◌, map,
  filter, length, if◌then◌else◌, ltb, ◌==◌, str_eq, contains,
}
use auxifyai.Prelude.Maps.{lookup, put}
use auxifyai.Prelude.Sort.{sort_by}
use auxifyai.Identity.{TenantContext, Role}

pub data AuthMethod : Type 0 where
  password oauth saml : AuthMethod

pub record SessionRecord : Type 0 where
  pub id : String
  pub user_id : String
  pub organization_id : String
  pub roles : List Role
  pub method : AuthMethod
  pub mfa_satisfied : Bool
  pub device_id : Option String
  pub device_name : Option String
  pub created_at : ℕ
  pub expires_at : ℕ
  pub last_active_at : ℕ
  pub revoked_at : Option ℕ
  pub access_token_hash : Option String
  pub access_token_expires_at : Option ℕ
  pub refresh_token_hash : Option String

pub record DeviceSession : Type 0 where
  pub session_id : String
  pub device_id : Option String
  pub device_name : Option String
  pub user_id : String
  pub organization_id : String
  pub method : AuthMethod
  pub created_at : ℕ
  pub last_active_at : ℕ
  pub expires_at : ℕ
  pub current : Option Bool

abbrev pub Sessions : Type 0
Sessions = List (String × SessionRecord)

pub record DeviceEvent : Type 0 where
  pub action : String
  pub resource_type : String
  pub resource_id : String
  pub actor_id : Option String
  pub user_id : String
  pub revoked_count : Option ℕ

pub record DeviceState : Type 0 where
  pub sessions : Sessions
  pub deactivated : List String
  pub audited : List (TenantContext × DeviceEvent)

-- `InMemorySessionStore`
abbrev pub sessions_of : Sessions → List SessionRecord
sessions_of [] = []
sessions_of ((k, r) ∷ ss) = r ∷ sessions_of ss

abbrev pub list_by_user : String → Sessions → List SessionRecord
list_by_user user ss = filter (λ r. str_eq r.user_id user) (sessions_of ss)

unfoldable pub update : SessionRecord → Sessions → Sessions
update r ss = elim (lookup r.id ss) [ none ↦ ss | some old ↦ put r.id r ss ]

-- `InMemoryDeactivationStore`
unfoldable pub deactivation_key : String → String → String
deactivation_key org user = text_append org (text_append "\0" user)

abbrev pub add_key : String → List String → List String
add_key k ks = if contains ks k then ks else ks ++ (k ∷ [])

abbrev pub is_deactivated : TenantContext → String → DeviceState → Bool
is_deactivated ctx user st = contains st.deactivated (deactivation_key ctx.organization_id user)

unfoldable pub is_active : ℕ → SessionRecord → Bool
is_active now r = elim r.revoked_at [ some t ↦ false | none ↦ ltb now r.expires_at ]

unfoldable pub revoked_from : ℕ → SessionRecord → SessionRecord
revoked_from now r = record r { revoked_at = some now; last_active_at = now }

abbrev pub current_of : Option String → SessionRecord → Option Bool
current_of none r = none
current_of (some id) r = some (str_eq r.id id)

unfoldable pub to_device_session : Option String → SessionRecord → DeviceSession
to_device_session current r = record {
  session_id = r.id;
  device_id = r.device_id;
  device_name = r.device_name;
  user_id = r.user_id;
  organization_id = r.organization_id;
  method = r.method;
  created_at = r.created_at;
  last_active_at = r.last_active_at;
  expires_at = r.expires_at;
  current = current_of current r;
}

-- The comparator gives at most 0.
unfoldable pub most_recent_first : DeviceSession → DeviceSession → Bool
most_recent_first a b =
    if a.last_active_at == b.last_active_at
    then elim (compare a.session_id b.session_id) [ Ordering.gt ↦ false | _ ↦ true ]
    else not (ltb a.last_active_at b.last_active_at)

unfoldable pub list_devices : String → Option String → ℕ → DeviceState → List DeviceSession
list_devices user current now st =
    sort_by most_recent_first
      (map (to_device_session current) (filter (is_active now) (list_by_user user st.sessions)))

-- The loop of updates.
unfoldable pub revoke_all : ℕ → List SessionRecord → Sessions → Sessions
revoke_all now [] ss = ss
revoke_all now (r ∷ rs) ss = revoke_all now rs (update (revoked_from now r) ss)

abbrev pub on_device : String → SessionRecord → Bool
on_device device r = elim r.device_id [ none ↦ false | some d ↦ str_eq d device ]

unfoldable pub revoke_device : TenantContext → String → String → ℕ → DeviceState → ℕ × DeviceState
revoke_device ctx user device now st =
    let targets =
      filter (λ r. on_device device r && is_active now r) (list_by_user user st.sessions) in
    (
      length targets,
      record st {
        sessions = revoke_all now targets st.sessions;
        audited =
            st.audited
            ++ ((
              ctx,
              record {
                action = "device.revoked";
                resource_type = "device";
                resource_id = device;
                actor_id = none;
                user_id = user;
                revoked_count = some (length targets);
              },
            )
                ∷ []);
      },
    )

unfoldable pub revoke_session : TenantContext → String → ℕ → DeviceState → DeviceState
revoke_session ctx id now st = elim (lookup id st.sessions) [
  | none ↦ st
  | some r ↦ elim r.revoked_at [
    | some t ↦ st
    | none ↦ record st {
      sessions = update (revoked_from now r) st.sessions;
      audited =
          st.audited
          ++ ((
            ctx,
            record {
              action = "device.session_invalidated";
              resource_type = "session";
              resource_id = r.id;
              actor_id = some r.user_id;
              user_id = r.user_id;
              revoked_count = none;
            },
          )
              ∷ []);
    }
  ]
]

unfoldable pub deactivate_user : TenantContext → String → ℕ → DeviceState → ℕ × DeviceState
deactivate_user ctx user now st =
    let active = filter (is_active now) (list_by_user user st.sessions) in
    (
      length active,
      record {
        sessions = revoke_all now active st.sessions;
        deactivated = add_key (deactivation_key ctx.organization_id user) st.deactivated;
        audited =
            st.audited
            ++ ((
              ctx,
              record {
                action = "user.deactivated";
                resource_type = "user";
                resource_id = user;
                actor_id = none;
                user_id = user;
                revoked_count = some (length active);
              },
            )
                ∷ []);
      },
    )
