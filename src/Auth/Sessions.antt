-- ===== src/Auth/Sessions.antt =====
-- src/services/auth/session.service.ts: the current session of each account, one Redis key each.
-- The id of a new session is an argument; so is the moment of each call.
pub mod Laws
use transport_backend.Base.{
  ℕ, Bool, true, false, not, Option, none, some, ◌==◌, or_else, if◌then◌else◌, Result, ok, err,
  unauthorized,
}
use transport_backend.Entities.{Uuid, Time}
use transport_backend.Auth.Keys.{Key, read, set, expire, delete_if_value}

abbrev pub session_ttl_seconds : ℕ
session_ttl_seconds = 2_592_000

-- The activeSession keys, by account.
abbrev pub Sessions : Type 0
Sessions = Uuid → Key Uuid

unfoldable pub put : {A : Type 0} → Uuid → A → (Uuid → A) → Uuid → A
put user a m u = if u == user then a else m u

-- What a token says of its session.
pub record SessionClaims : Type 0 where
  pub sid : Option Uuid
  pub multi : Bool

-- `start`, with the id that it draws.
unfoldable pub start : Time → Uuid → Uuid → Bool → Sessions → Sessions
start now new user multi m = if multi then m else put user (set now new session_ttl_seconds) m

abbrev pub same_session : Option Uuid → Uuid → Bool
same_session none sid = false
same_session (some active) sid = active == sid

-- `resume`
unfoldable pub resume : Time → Uuid → Uuid → Bool → Option Uuid → Sessions → Result Uuid × Sessions
resume now new user true none m = (ok new, m)
resume now new user true (some sid) m = (ok sid, m)
resume now new user false none m = elim (read now (m user)) [
  | some active ↦ (err (unauthorized "SESSION_REPLACED"), m)
  | none ↦ (ok new, start now new user false m)
]
resume now new user false (some sid) m =
    if same_session (read now (m user)) sid
    then (ok sid, put user (expire now session_ttl_seconds (m user)) m)
    else (err (unauthorized "SESSION_REPLACED"), m)

-- `isCurrent`
unfoldable pub is_current_session : Time → Uuid → SessionClaims → Sessions → Bool
is_current_session now user claims m = if claims.multi then true else elim claims.sid [
  | some sid ↦ same_session (read now (m user)) sid
  | none ↦ elim (read now (m user)) [ none ↦ true | some active ↦ false ]
]

-- `end`
unfoldable pub end_session : Time → Uuid → Option Uuid → Sessions → Sessions
end_session now user none m = m
end_session now user (some sid) m = put user (delete_if_value ◌==◌ now sid (m user)) m
