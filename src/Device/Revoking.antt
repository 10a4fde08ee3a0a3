-- ===== src/Device/Revoking.antt =====
-- Which sessions a revocation ends.
use auxifyai.Prelude.{
  ℕ, ◌≡◌, ◌≤◌, refl, sym, ap, subst, ◌∙◌, ◌⊎◌, inl, inr, ◌&&◌, Bool, true, false, String, none,
  List, [], ◌∷◌, ◌++◌, map, filter, length, All, Bool-cases, Option-cases, if◌then◌else◌, ltb,
  str_eq, eq_iff, str_eq-false_sym, contains, arith,
}
use auxifyai.Prelude.Maps.{lookup, put, lookup-other}
use auxifyai.Identity.{TenantContext}
use auxifyai.Device.{
  SessionRecord, Sessions, sessions_of, update, DeviceState, is_active, revoked_from, revoke_all,
  on_device, revoke_device, deactivate_user, is_deactivated, add_key,
}

-- Each session is under its id, and no two are under the same.
abbrev pub WellKeyed : Sessions → Type 0
WellKeyed [] = Unit
WellKeyed ((k, r) ∷ ss) = (r.id ≡ k) × (lookup k ss ≡ none) × WellKeyed ss

-- A session after those that pass a test are revoked.
abbrev pub retired : (SessionRecord → Bool) → ℕ → String × SessionRecord → String × SessionRecord
retired p now (k, r) = (k, if p r then revoked_from now r else r)

-- Records that are not under a key.
abbrev Apart : String → List SessionRecord → Type 0
Apart k rs = All (λ r. str_eq r.id k ≡ false) rs

update-Apart :
    (r x : SessionRecord) (k : String) (ss : Sessions)
    → str_eq r.id k ≡ false
    → update r ((k, x) ∷ ss) ≡ (k, x) ∷ update r ss
unfolding update lookup put
update-Apart r x k ss f = ground (arith, f)

update-head :
    (r x : SessionRecord) (k : String) (ss : Sessions)
    → str_eq r.id k ≡ true
    → update r ((k, x) ∷ ss) ≡ (k, r) ∷ ss
unfolding update lookup put
update-head r x k ss t = ground (arith, t)

revoke_all-Apart :
    (now : ℕ) (rs : List SessionRecord) (x : SessionRecord) (k : String) (ss : Sessions)
    → Apart k rs
    → revoke_all now rs ((k, x) ∷ ss) ≡ (k, x) ∷ revoke_all now rs ss
unfolding revoke_all revoked_from
revoke_all-Apart now [] x k ss h = refl
revoke_all-Apart now (r ∷ rs) x k ss h =
    ap (revoke_all now rs) (update-Apart (revoked_from now r) x k ss h.0)
    ∙ revoke_all-Apart now rs x k (update (revoked_from now r) ss) h.1

targets-Apart :
    (p : SessionRecord → Bool) (k : String) (ss : Sessions)
    → WellKeyed ss
    → lookup k ss ≡ none
    → Apart k (filter p (sessions_of ss))
unfolding lookup
targets-Apart p k [] w h = tt
targets-Apart p k ((i, r) ∷ ss) w h = elim (Bool-cases (str_eq k i)) [
  | inl t ↦ absurd (ground arith)
  | inr f ↦
      let rest = targets-Apart p k ss w.2 (sym (lookup-other k i r ss f) ∙ h) in
      let g : str_eq r.id k ≡ false =
        str_eq-false_sym k r.id (subst (λ j. str_eq k j ≡ false) (sym w.0) f) in
      elim (Bool-cases (p r)) [ inl t ↦ rw t (g, rest) | inr n ↦ rw n rest ]
]

-- Revoking the sessions that pass a test, one update at a time, revokes these and no others.
pub revoke_all-retired :
    (p : SessionRecord → Bool) (now : ℕ) (ss : Sessions)
    → WellKeyed ss
    → revoke_all now (filter p (sessions_of ss)) ss ≡ map (retired p now) ss
unfolding revoke_all revoked_from
revoke_all-retired p now [] w = refl
revoke_all-retired p now ((k, r) ∷ ss) w =
    let apart = targets-Apart p k ss w.2 w.1 in
    let rest = revoke_all-retired p now ss w.2 in
    elim (Bool-cases (p r)) [
      | inl t ↦ rw t (
          ap (revoke_all now (filter p (sessions_of ss)))
            (update-head (revoked_from now r) r k ss ((eq_iff r.id k).1 w.0))
          ∙ (revoke_all-Apart now (filter p (sessions_of ss)) (revoked_from now r) k ss apart
              ∙ ap (λ xs. (k, revoked_from now r) ∷ xs) rest))
      | inr f ↦ rw f (
          revoke_all-Apart now (filter p (sessions_of ss)) r k ss apart
          ∙ ap (λ xs. (k, r) ∷ xs) rest)
    ]

filter-filter :
    (p q : SessionRecord → Bool) (rs : List SessionRecord)
    → filter q (filter p rs) ≡ filter (λ r. p r && q r) rs
filter-filter p q [] = refl
filter-filter p q (r ∷ rs) = ground (arith, filter-filter p q rs)

contains-last : (k : String) (ks : List String) → contains (ks ++ (k ∷ [])) k ≡ true
contains-last k [] = let e = eq_iff k k in ground arith
contains-last k (j ∷ ks) = ground (arith, contains-last k ks)

contains-add_key : (k : String) (ks : List String) → contains (add_key k ks) k ≡ true
contains-add_key k ks = elim (Bool-cases (contains ks k)) [
  | inl t ↦ rw t t
  | inr f ↦ rw f (contains-last k ks)
]

-- A session of another user, or one that is not active at a time.
abbrev pub SignedOut : String → ℕ → String × SessionRecord → Type 0
SignedOut user t (k, r) = (str_eq r.user_id user ≡ false) ⊎ (is_active t r ≡ false)

inactive_by :
    (now : ℕ) (r : SessionRecord)
    → r.revoked_at ≡ none
    → is_active now r ≡ false
    → ltb now r.expires_at ≡ false
unfolding is_active
inactive_by now r n h =
    let e : is_active now r ≡ ltb now r.expires_at = rw (is_active, n) refl in sym e ∙ h

still_inactive :
    (now t : ℕ) (r : SessionRecord) → now ≤ t → is_active now r ≡ false → is_active t r ≡ false
unfolding is_active
still_inactive now t r l h = elim (Option-cases r.revoked_at) [
  | inl n ↦
      rw (is_active, n)
        (let e : ltb now r.expires_at ≡ false = inactive_by now r n h in ground arith)
  | inr (u, n) ↦ rw (is_active, n) refl
]

signed_out :
    (user : String) (now t : ℕ)
    → now ≤ t
    → (k : String) (r : SessionRecord)
    → SignedOut user t (retired (λ r. str_eq r.user_id user && is_active now r) now (k, r))
unfolding is_active revoked_from
signed_out user now t l k r = elim (Bool-cases (str_eq r.user_id user)) [
  | inr f ↦ rw f (inl f)
  | inl u ↦ elim (Bool-cases (is_active now r)) [
    | inl a ↦ rw (u, a) (inr refl)
    | inr n ↦ rw (u, n) (inr (still_inactive now t r l n))
  ]
]

retired-SignedOut :
    (user : String) (now t : ℕ)
    → now ≤ t
    → (ss : Sessions)
    → All (SignedOut user t) (map (retired (λ r. str_eq r.user_id user && is_active now r) now) ss)
unfolding is_active revoked_from
retired-SignedOut user now t l [] = tt
retired-SignedOut user now t l ((k, r) ∷ ss) =
    (signed_out user now t l k r, retired-SignedOut user now t l ss)

-- Deactivating a user revokes exactly the sessions of the user that are active, changes no other,
-- leaves none of the user's sessions active, then or later, and marks the user as deactivated in the
-- caller's Organization. It gives the number of the sessions that it revoked.
pub deactivate_user-SignedOut :
    (ctx : TenantContext) (user : String) (now t : ℕ) (st : DeviceState)
    → WellKeyed st.sessions
    → now ≤ t
    → ((deactivate_user ctx user now st).1.sessions
        ≡ map (retired (λ r. str_eq r.user_id user && is_active now r) now) st.sessions)
      × All (SignedOut user t) (deactivate_user ctx user now st).1.sessions
      × (is_deactivated ctx user (deactivate_user ctx user now st).1 ≡ true)
      × ((deactivate_user ctx user now st).0
          ≡ length
              (filter (λ r. str_eq r.user_id user && is_active now r) (sessions_of st.sessions)))
unfolding deactivate_user
deactivate_user-SignedOut ctx user now t st w l =
    let p : SessionRecord → Bool = λ r. str_eq r.user_id user && is_active now r in
    let fused =
      filter-filter (λ r. str_eq r.user_id user) (is_active now) (sessions_of st.sessions) in
    let e =
      ap (λ rs. revoke_all now rs st.sessions) fused ∙ revoke_all-retired p now st.sessions w in
    (
      e,
      subst (All (SignedOut user t)) (sym e) (retired-SignedOut user now t l st.sessions),
      contains-add_key _ st.deactivated,
      ap length fused,
    )

-- Revoking a device revokes exactly the user's active sessions on it, and gives their number; no other
-- session is changed.
pub revoke_device-retired :
    (ctx : TenantContext) (user device : String) (now : ℕ) (st : DeviceState)
    → WellKeyed st.sessions
    → ((revoke_device ctx user device now st).1.sessions
        ≡ map
            (retired (λ r. str_eq r.user_id user && (on_device device r && is_active now r)) now)
            st.sessions)
      × ((revoke_device ctx user device now st).0
          ≡ length (
              filter
                (λ r. str_eq r.user_id user && (on_device device r && is_active now r))
                (sessions_of st.sessions)))
unfolding revoke_device
revoke_device-retired ctx user device now st w =
    let q : SessionRecord → Bool = λ r. on_device device r && is_active now r in
    let fused = filter-filter (λ r. str_eq r.user_id user) q (sessions_of st.sessions) in
    (
      ap (λ rs. revoke_all now rs st.sessions) fused
          ∙ revoke_all-retired (λ r. str_eq r.user_id user && q r) now st.sessions w,
      ap length fused,
    )
