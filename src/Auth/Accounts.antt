-- ===== src/Auth/Accounts.antt =====
-- The rows that signing in and the check of accounts read and write: User, with the names of its
-- roles (src/domain/entities/auth/User.ts, jwt-payload.dto.ts).
use transport_backend.Base.{
  ℕ, Bool, true, false, Option, List, [], ◌∷◌, Text, if◌then◌else◌, any, text_eq,
}
use transport_backend.Entities.{Uuid, Time, RecordStatus, Role, record_is_active}

pub data VerificationStatus : Type 0 where
  not_asked pending approved rejected : VerificationStatus

abbrev pub is_approved : VerificationStatus → Bool
is_approved approved = true
is_approved _ = false

abbrev pub is_awaiting : VerificationStatus → Bool
is_awaiting pending = true
is_awaiting _ = false

-- The statuses from which a check may be asked for.
abbrev pub is_askable : VerificationStatus → Bool
is_askable not_asked = true
is_askable rejected = true
is_askable _ = false

-- `profileType`: a person or a legal entity.
pub data CustomerType : Type 0 where
  person company : CustomerType

pub record Account : Type 0 where
  pub id : Uuid
  pub mobile : Text
  pub record_status : RecordStatus
  pub is_parent_company : Bool
  pub roles : List Role
  pub profile_type : CustomerType
  pub invited_by_company_user_id : Option Uuid
  pub verification_status : VerificationStatus
  pub verification_requests : ℕ
  pub verification_note : Option Text
  pub verification_requested_at : Option Time
  pub verification_decided_at : Option Time
  pub verification_decided_by : Option Uuid

-- `roles` of JwtPayload: the names of the roles that are active.
abbrev pub active_roles : List Role → List Text
active_roles [] = []
active_roles (r ∷ rs) =
    let rest = active_roles rs in if record_is_active r.record_status then r.name ∷ rest else rest

-- `roles.includes(name)`
abbrev pub includes_role : Text → List Text → Bool
includes_role name roles = any (text_eq name) roles
