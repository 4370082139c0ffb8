-- ===== src/Provisioning/Buyer.antt =====
-- Steps 7 to 12 of `approveOrder`: the account that the subscription is for.
use transport_backend.Base.{
  Bool, true, false, ◌&&◌, ◌||◌, not, Option, none, some, ◌==◌, or_else, find, by_id, save, Text,
  codes, text_eq, Result, ok, ◌>>=◌, ◌>>◌, refuse_if, found_or, bad_request, not_found, Exception,
}
use transport_backend.Entities.{
  Uuid, Time, AccountType, driver, company, broker, factory, active, SubscriptionOrder, User, Role,
  UserRole, Database, record_is_active,
}
use transport_backend.Phones.{account_phone}

-- `getRoleName`
unfoldable pub role_name : AccountType → Text
role_name driver = codes "DRIVER"
role_name company = codes "COMPANY"
role_name broker = codes "BROKER"
role_name factory = codes "FACTORY"

-- `Active role "${roleName}" not found`
unfoldable pub role_not_found : AccountType → Exception
role_not_found driver = not_found "Active role \"DRIVER\" not found"
role_not_found company = not_found "Active role \"COMPANY\" not found"
role_not_found broker = not_found "Active role \"BROKER\" not found"
role_not_found factory = not_found "Active role \"FACTORY\" not found"

-- The ids and the creation time of the rows that an approval may add.
pub record NewRows : Type 0 where
  pub user_id : Uuid
  pub user_role_id : Uuid
  pub subscription_id : Uuid
  pub created_at : Time

pub record Buyer : Type 0 where
  pub user : User
  pub new_user : Bool
  pub db : Database

unfoldable pub active_role : Text → Database → Option Role
active_role name db = find (λ r. text_eq r.name name && record_is_active r.record_status) db.roles

-- The account that the messenger of the purchase is linked to.
unfoldable pub linked_user : Text → Database → Option User
linked_user external db = elim (find (λ l. text_eq l.external_user_id external) db.links) [
  | none ↦ none
  | some link ↦ by_id User.id link.user_id db.users
]

abbrev pub has_text : Option Text → Text → Bool
has_text none t = false
has_text (some s) t = text_eq s t

-- `where: [{ mobile }, { username }]`
unfoldable pub has_number : Text → User → Bool
has_number number u = has_text u.mobile number || text_eq u.username number

unfoldable pub existing_user : SubscriptionOrder → Database → Option User
existing_user order db =
    or_else (linked_user order.provider_user_id db)
      (find (has_number (account_phone order.phone_number)) db.users)

-- An account with no password: it signs in by its number and a code.
unfoldable pub new_account : NewRows → Text → User
new_account rows number = record {
  id = rows.user_id;
  username = number;
  mobile = some number;
  record_status = active;
  is_parent_company = false;
  created_at = rows.created_at;
}

unfoldable pub add_user : User → Database → Database
add_user u db = record db { users = save User.id u db.users }

unfoldable pub account_of : NewRows → SubscriptionOrder → Database → Result Buyer
account_of rows order db = elim (existing_user order db) [
  | some u ↦ do
    refuse_if (not (record_is_active u.record_status)) (bad_request "The buyer account is inactive")
    ok (record { user = u; new_user = false; db = db })
  | none ↦
      let u = new_account rows (account_phone order.phone_number) in
      ok (record { user = u; new_user = true; db = add_user u db })
]

unfoldable pub has_role : Uuid → Uuid → UserRole → Bool
has_role user role r = r.user_id == user && r.role_id == role

unfoldable pub with_role : NewRows → Role → Buyer → Buyer
with_role rows role b = elim (find (has_role b.user.id role.id) b.db.user_roles) [
  | some r ↦ b
  | none ↦ record b {
    db = record (b.db) {
      user_roles =
          save UserRole.id
            (record { id = rows.user_role_id; user_id = b.user.id; role_id = role.id })
            b.db.user_roles;
    };
  }
]

unfoldable pub resolve_buyer : NewRows → SubscriptionOrder → Database → Result Buyer
resolve_buyer rows order db = do
  role ←
      found_or (role_not_found order.account_type) (active_role (role_name order.account_type) db)
  b ← account_of rows order db
  ok (with_role rows role b)
