-- ===== src/Entities/Account.antt =====
-- src/domain/entities/auth and agent/BotLink.ts: the columns that buying and access read or write.
use mathlib.Core.Bool.{Bool}
use mathlib.Core.Option.{Option}
use transport_backend.Base.{Text}
use transport_backend.Entities.Enums.{RecordStatus}
use transport_backend.Entities.Payment.{Uuid, Time}

pub record User : Type 0 where
  pub id : Uuid
  pub username : Text
  pub mobile : Option Text
  pub record_status : RecordStatus
  pub is_parent_company : Bool
  pub created_at : Time

pub record Role : Type 0 where
  pub id : Uuid
  pub name : Text
  pub record_status : RecordStatus

pub record UserRole : Type 0 where
  pub id : Uuid
  pub user_id : Uuid
  pub role_id : Uuid

pub record BotLink : Type 0 where
  pub id : Uuid
  pub external_user_id : Text
  pub user_id : Uuid
