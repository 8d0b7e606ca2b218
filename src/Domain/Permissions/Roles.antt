-- ===== src/Domain/Permissions/Roles.antt =====
-- What the roles permit (Domain/Common/Permissions.h, AuthorizationService).
use cppbackend_api.Base.{
  ◌≡◌, ◌≢◌, ◌↔◌, ◌⊎◌, sym, ◌∙◌, Bool, true, false, inl, inr, String, str_eq, eq_iff, arith,
  Bool-cases,
}
use cppbackend_api.Domain.Entities.{User, Session}
use cppbackend_api.Domain.Permissions.{
  Permission, has_permission, role_has_permission, session_revoke_all, session_read_all,
  session_read_self, session_revoke_self, can_access_session, can_revoke_session,
}

-- Every permission belongs to the role "admin", and the two about one's own sessions to every role.
abbrev pub is_own : Permission → Bool
is_own session_read_self = true
is_own session_revoke_self = true
is_own _ = false

role_has_permission-admin :
    (role : String) (p : Permission)
    → str_eq role "admin" ≡ true
    → role_has_permission role p ≡ true
unfolding role_has_permission
role_has_permission-admin role Permission.session_read_self e = rw e
role_has_permission-admin role Permission.session_revoke_self e = rw e
role_has_permission-admin role Permission.session_read_all e = rw e
role_has_permission-admin role Permission.session_revoke_all e = rw e
role_has_permission-admin role Permission.user_manage e = rw e

role_has_permission-other :
    (role : String) (p : Permission)
    → str_eq role "admin" ≡ false
    → role_has_permission role p ≡ is_own p
unfolding role_has_permission
role_has_permission-other role Permission.session_read_self e = rw e
role_has_permission-other role Permission.session_revoke_self e = rw e
role_has_permission-other role Permission.session_read_all e = rw e
role_has_permission-other role Permission.session_revoke_all e = rw e
role_has_permission-other role Permission.user_manage e = rw e

-- A role has a permission exactly when it is "admin" or the permission is one of the two about
-- one's own sessions.
pub role_has_permission_iff :
    (role : String) (p : Permission)
    → (role_has_permission role p ≡ true) ↔ ((role ≡ "admin") ⊎ (is_own p ≡ true))
role_has_permission_iff role p = elim (Bool-cases (str_eq role "admin")) [
  | inl e ↦ ((λ _. inl ((eq_iff role "admin").0 e)), λ _. role_has_permission-admin role p e)
  | inr e ↦ (
    (λ h. inr (sym (role_has_permission-other role p e) ∙ h)),
    λ h. elim h [
      | inl same ↦ absurd (cc (sym ((eq_iff role "admin").1 same) ∙ e))
      | inr own ↦ role_has_permission-other role p e ∙ own
    ],
  )
]

-- A user may read a session, and may revoke it, exactly when his role is "admin" or the session is
-- his own.
pub session_rights_iff :
    (u : User) (s : Session)
    → ((can_access_session u s ≡ true) ↔ ((u.role ≡ "admin") ⊎ (u.id ≡ s.user_id)))
      × ((can_revoke_session u s ≡ true) ↔ ((u.role ≡ "admin") ⊎ (u.id ≡ s.user_id)))
unfolding can_access_session can_revoke_session
session_rights_iff u s = elim (Bool-cases (str_eq u.role "admin")) [
  | inl e ↦ ground (
    arith,
    (eq_iff u.role "admin").0 e,
    role_has_permission-admin u.role session_read_all e,
    role_has_permission-admin u.role session_revoke_all e,
  )
  | inr e ↦ ground (
    arith,
    e,
    eq_iff u.role "admin",
    eq_iff u.id s.user_id,
    role_has_permission-other u.role session_read_all e,
    role_has_permission-other u.role session_revoke_all e,
    role_has_permission-other u.role session_read_self e,
    role_has_permission-other u.role session_revoke_self e,
  )
]

pub has_permission-other :
    (u : User) (p : Permission) → u.role ≢ "admin" → is_own p ≡ false → has_permission u p ≡ false
unfolding has_permission
has_permission-other u p other h = elim (Bool-cases (str_eq u.role "admin")) [
  | inl e ↦ absurd (other ((eq_iff u.role "admin").0 e))
  | inr e ↦ role_has_permission-other u.role p e ∙ h
]
