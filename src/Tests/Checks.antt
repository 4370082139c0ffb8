-- ===== src/Tests/Checks.antt =====
-- A company asks to be checked, is rejected, asks again and is approved.
use transport_backend.Base.{
  save, ◌+◌, ◌≤◌, ◌≡◌, refl, true, false, not, none, some, List, [], ◌∷◌, map, is_some, codes,
  by_id, count_where, update_where, trim, drop_spaces, is_digit, is_space, arith,
}
use transport_backend.Entities.{Uuid, RecordStatus, Role}
use transport_backend.Features.{FeatureTables, trips, is_locked, open_until}
use transport_backend.Auth.Accounts.{Account, not_asked, pending, approved, CustomerType}
use transport_backend.Verification.NationalId.{
  is_company_national_id, is_national_code, has_shape, digits, company_check, weighted, falling,
}
use transport_backend.Verification.Profile.{Profile, is_checked, kind_of, verified_kind, missing}
use transport_backend.Verification.Requests.{
  CheckTables, approve_check, request_check, reject_check, assert_parent, is_parent_account, state,
  may_request, state_of, approved_row, asked_row, may_ask, rejected_row, waits,
}
use transport_backend.Verification.Moves.{CheckEvent, after, requests, approves, rejects}
use transport_backend.Verification.Moves.Life.{after_all, requests_in, requests_end}
use transport_backend.Verification.Moves.Ways.{Deed, checks, invites}
use transport_backend.Verification.Moves.Deeds.{
  after_deed, after_deeds, EntitledIn, entitled_approval,
}
use transport_backend.Verification.Invites.{
  InviteReads, of_broker, invite_account, vouch_for, vouched, assert_invitable, is_invite_waiting,
  is_invite_expired,
}
use transport_backend.Verification.Menus.{company_user, approved_company_menus}

abbrev company_role : Role
company_role = record { id = 2; name = codes "COMPANY"; record_status = RecordStatus.active }

abbrev company_account : Account
company_account = record {
  id = 6;
  mobile = codes "09130000000";
  record_status = RecordStatus.active;
  is_parent_company = false;
  roles = company_role ∷ [];
  profile_type = CustomerType.company;
  invited_by_company_user_id = none;
  verification_status = not_asked;
  verification_requests = 0;
  verification_note = none;
  verification_requested_at = none;
  verification_decided_at = none;
  verification_decided_by = none;
}

abbrev parent_account : Account
parent_account = record company_account {
  id = 1;
  is_parent_company = true;
  verification_status = approved;
}

abbrev full_profile : Uuid → Profile
full_profile user = record {
  value = λ field. codes "x";
  company_national_id = [];
  driver_kinds = [];
}

abbrev tables : CheckTables
tables = record { users = parent_account ∷ company_account ∷ []; factory_companies = [] }

abbrev events : List CheckEvent
events = requests 100 6 ∷ rejects 200 1 6 (codes "phone") ∷ requests 300 6 ∷ approves 400 1 6 ∷ []

-- A national code and a company's national ID with their check digits.
good_ids :
    (is_national_code (codes "0499370899") ≡ true)
    × (is_company_national_id (codes "10380284790") ≡ true)
unfolding is_national_code is_company_national_id has_shape digits company_check weighted falling
    is_digit
good_ids = (refl, refl)

requests_end_example :
    (u' : Account) × (by_id Account.id 6 (after_all true full_profile events tables).users
      ≡ some u')
    × (requests_in true full_profile 6 events tables + 0 ≡ u'.verification_requests)
    × (u'.verification_requests ≤ 4)
unfolding by_id
requests_end_example =
    requests_end true full_profile 6 events tables company_account refl (omega arith)

-- A broker that signed up alone asks, is rejected, and an inviting company vouches for it.
abbrev broker_role : Role
broker_role = record { id = 4; name = codes "BROKER"; record_status = RecordStatus.active }

abbrev lone_broker : Account
lone_broker = record company_account { id = 8; roles = broker_role ∷ [] }

abbrev broker_tables : CheckTables
broker_tables = record { users = parent_account ∷ lone_broker ∷ []; factory_companies = [] }

abbrev broker_profile : Uuid → Profile
broker_profile user = record {
  value = λ field. codes "0499370899";
  company_national_id = [];
  driver_kinds = [];
}

abbrev invite_reads : InviteReads
invite_reads = record {
  hours = 24;
  kind = of_broker;
  role = some broker_role;
  named = false;
  invites = record { inviter = 6; used_at = none; revoked_at = none; created_at = 350 } ∷ [];
  made = some 50;
}

abbrev deeds : List Deed
deeds =
    checks (requests 100 8)
    ∷ checks (rejects 200 1 8 (codes "phone"))
    ∷ invites 400 invite_reads 6 8
    ∷ []

entitled_approval_example : EntitledIn true broker_profile (codes "") 8 deeds broker_tables
unfolding by_id after_deeds after_deed after approve_check assert_parent is_parent_account
    request_check state reject_check may_request state_of is_checked kind_of verified_kind missing
    trim count_where update_where drop_spaces is_digit is_space approved_row asked_row may_ask
    rejected_row waits invite_account vouch_for vouched assert_invitable is_invite_waiting
    is_invite_expired save is_national_code has_shape digits weighted falling
entitled_approval_example =
    entitled_approval true broker_profile (codes "") 8 deeds broker_tables lone_broker refl refl
      refl

-- The company's request waits.
abbrev waiting : Account
waiting = record company_account { verification_status = pending; verification_requests = 1 }

abbrev waiting_tables : CheckTables
waiting_tables = record { users = parent_account ∷ waiting ∷ []; factory_companies = [] }

abbrev menus : FeatureTables
menus = record { users = []; plans = []; tiers = []; orders = []; grants = [] }

approved_company_menus_example :
    (is_locked true 500 6 trips (record menus { users = map company_user waiting_tables.users })
      ≡ true)
    × (is_locked true 500 6 trips (record menus {
      users = map company_user (approve_check true full_profile 400 1 6 waiting_tables).1.users;
    })
        ≡ not (is_some (open_until 500 6 trips menus.grants)))
unfolding by_id kind_of verified_kind approve_check assert_parent is_parent_account
approved_company_menus_example =
    approved_company_menus true full_profile 400 500 true 1 6 waiting_tables menus waiting refl refl
      refl refl trips
