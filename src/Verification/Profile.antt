-- ===== src/Verification/Profile.antt =====
-- What an account is checked with: `verifiedKind`, `checked`, REQUIRED_FIELDS and the missing
-- fields of `state` of src/services/company/accountVerification.service.ts.
use transport_backend.Base.{
  Bool, true, false, ◌&&◌, ◌||◌, not, List, [], ◌∷◌, ◌++◌, map, Text, codes, trim, is_empty,
  if◌then◌else◌,
}
use transport_backend.Entities.{Role}
use transport_backend.Auth.Accounts.{includes_role}
use transport_backend.Verification.NationalId.{is_company_national_id, is_national_code}

pub data VerifiedKind : Type 0 where
  company factory broker driver : VerifiedKind

abbrev pub is_company_kind : VerifiedKind → Bool
is_company_kind company = true
is_company_kind _ = false

abbrev pub is_factory : VerifiedKind → Bool
is_factory factory = true
is_factory _ = false

abbrev pub is_broker : VerifiedKind → Bool
is_broker broker = true
is_broker _ = false

abbrev pub is_driver : VerifiedKind → Bool
is_driver driver = true
is_driver _ = false

-- `verifiedKind`
unfoldable pub verified_kind : List Text → VerifiedKind
verified_kind roles =
    if includes_role (codes "FACTORY") roles
    then factory
    else if includes_role (codes "BROKER") roles
    then broker
    else if includes_role (codes "DRIVER") roles
    then driver
    else company

-- `kindOf`: by all roles of the account, active or not.
unfoldable pub kind_of : List Role → VerifiedKind
kind_of roles = verified_kind (map Role.name roles)

-- `checked`; `driver_verification` is driverVerificationOn().
unfoldable pub is_checked : (driver_verification : Bool) → VerifiedKind → Bool
is_checked driver_verification kind = not (is_driver kind) || driver_verification

-- The columns of User and of DriverProfile that are asked for.
pub data Field : Type 0 where
  company_name licence_no phone national_code contact_mobiles first_name last_name mobile
        smart_card_number licence_number insurance_number insurance_expiry :
      Field

pub data DriverKind : Type 0 where
  domestic international : DriverKind

-- `REQUIRED_FIELDS`
abbrev pub required_fields : VerifiedKind → List Field
required_fields company = company_name ∷ licence_no ∷ phone ∷ []
required_fields factory = company_name ∷ phone ∷ []
required_fields broker = company_name ∷ national_code ∷ contact_mobiles ∷ phone ∷ []
required_fields driver = first_name ∷ last_name ∷ mobile ∷ smart_card_number ∷ licence_number ∷ []

-- `DRIVER_KIND_REQUIRED`
abbrev pub driver_kind_required : DriverKind → List Field
driver_kind_required international = company_name ∷ []
driver_kind_required domestic = insurance_number ∷ insurance_expiry ∷ []

abbrev pub of_kinds : List DriverKind → List Field
of_kinds [] = []
of_kinds (k ∷ ks) = driver_kind_required k ++ of_kinds ks

-- A profile, as `values` of `state` reads it: an empty column is the empty text, and a driver's own
-- papers stand before the columns of its account.
pub record Profile : Type 0 where
  pub value : Field → Text
  pub company_national_id : Text
  pub driver_kinds : List DriverKind

-- An entry of `missing`: a field that is empty, or an id that is wrong.
pub data Missing : Type 0 where
  empty_field : Field → Missing
  wrong_company_id wrong_national_code : Missing

abbrev pub empty_fields : Profile → List Field → List Missing
empty_fields p [] = []
empty_fields p (f ∷ fs) =
    let rest = empty_fields p fs in
    if is_empty (trim (p.value f)) then empty_field f ∷ rest else rest

abbrev pub required : VerifiedKind → Profile → List Field
required kind p = required_fields kind ++ (if is_driver kind then of_kinds p.driver_kinds else [])

-- `missing` of `state`
unfoldable pub missing : VerifiedKind → Profile → List Missing
missing kind p =
    empty_fields p (required kind p)
    ++ (if not (is_empty p.company_national_id)
          && not (is_company_national_id p.company_national_id)
        then wrong_company_id ∷ []
        else [])
    ++ (if is_broker kind
          && not (is_empty (p.value national_code))
          && not (is_national_code (p.value national_code))
        then wrong_national_code ∷ []
        else [])
