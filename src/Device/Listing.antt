-- ===== src/Device/Listing.antt =====
-- What the listing of devices shows.
use auxifyai.Prelude.{
  ℕ, ◌≡◌, ◌≤◌, refl, ap, inl, inr, String, Option, [], ◌∷◌, map, filter, All, Bool-cases, str_eq,
}
use auxifyai.Prelude.Sort.{sort_by}
use auxifyai.Identity.{TenantContext}
use auxifyai.Device.{
  Sessions, list_by_user, DeviceState, is_active, to_device_session, most_recent_first,
  list_devices, deactivate_user,
}
use auxifyai.Device.Revoking.{WellKeyed, SignedOut, deactivate_user-SignedOut}

none_active :
    (user : String) (t : ℕ) (ss : Sessions)
    → All (SignedOut user t) ss
    → filter (is_active t) (list_by_user user ss) ≡ []
none_active user t [] h = refl
none_active user t ((k, r) ∷ ss) (inl f, h) = rw f (none_active user t ss h)
none_active user t ((k, r) ∷ ss) (inr n, h) = elim (Bool-cases (str_eq r.user_id user)) [
  | inl e ↦ rw (e, n) (none_active user t ss h)
  | inr f ↦ rw f (none_active user t ss h)
]

-- After a user is deactivated, then or later, the listing of the user's devices is empty.
pub deactivate_user-list_devices :
    (ctx : TenantContext) (user : String) (current : Option String) (now t : ℕ) (st : DeviceState)
    → WellKeyed st.sessions
    → now ≤ t
    → list_devices user current t (deactivate_user ctx user now st).1 ≡ []
unfolding list_devices sort_by
deactivate_user-list_devices ctx user current now t st w l =
    let gone = deactivate_user-SignedOut ctx user now t st w l in
    ap (λ rs. sort_by most_recent_first (map (to_device_session current) rs))
      (none_active user t (deactivate_user ctx user now st).1.sessions gone.1)
