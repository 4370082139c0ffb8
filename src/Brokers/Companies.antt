-- ===== src/Brokers/Companies.antt =====
-- The companies that a broker has picked: `currentSelection`, `visiblePublishers`, `canSee`,
-- `selectCompanies`, `addInvitingCompany`, `dropCompany` and `addCompanies`.
use transport_backend.Base.{
  ℕ, Bool, true, false, ◌&&◌, ◌||◌, not, Option, none, some, List, [], ◌∷◌, ◌++◌, ◌==◌, ltb, leb,
  if◌then◌else◌, is_some, length, any, keep, update_where, Result, ok, err, ◌>>=◌, ◌>>◌, refuse_if,
  bad_request,
}
use transport_backend.Entities.{Uuid, Time}
use transport_backend.Brokers.Policy.{BrokerAccessPeriod, BrokerTables, BrokerRules}

abbrev pub contains : Uuid → List Uuid → Bool
contains x xs = any (λ y. y == x) xs

-- `[...new Set(ids)]`: each id where it stands first.
unfoldable pub distinct_after : List Uuid → List Uuid → List Uuid
distinct_after seen [] = []
distinct_after seen (x ∷ xs) =
    if contains x seen then distinct_after seen xs else x ∷ distinct_after (x ∷ seen) xs

unfoldable pub distinct : List Uuid → List Uuid
distinct xs = distinct_after [] xs

abbrev pub runs_until : Option Time → Time → Bool
runs_until none now = true
runs_until (some end) now = ltb now end

unfoldable pub is_selection : Time → Uuid → BrokerAccessPeriod → Bool
is_selection now user p = (p.user_id == user) && leb p.start_at now && runs_until p.expire_at now

abbrev pub later_start : BrokerAccessPeriod → Option BrokerAccessPeriod → BrokerAccessPeriod
later_start p none = p
later_start p (some q) = if ltb p.start_at q.start_at then q else p

unfoldable pub latest_period :
    (BrokerAccessPeriod → Bool) → List BrokerAccessPeriod → Option BrokerAccessPeriod
latest_period test [] = none
latest_period test (p ∷ ps) =
    let rest = latest_period test ps in if test p then some (later_start p rest) else rest

-- `currentSelection`: the row that began last.
unfoldable pub current_selection : Time → Uuid → BrokerTables → Option BrokerAccessPeriod
current_selection now user t = latest_period (is_selection now user) t.periods

abbrev pub picked_by : Option BrokerAccessPeriod → List Uuid
picked_by none = []
picked_by (some p) = p.company_user_ids

-- `visiblePublishers`: none for all companies.
unfoldable pub visible_publishers : BrokerRules → Time → Uuid → BrokerTables → Option (List Uuid)
visible_publishers rules now user t =
    if rules.brokers_open || not (rules.is_broker user) || not (is_some rules.policy.max_companies)
    then none
    else some (picked_by (current_selection now user t))

unfoldable pub can_see : BrokerRules → Time → Uuid → Uuid → BrokerTables → Bool
can_see rules now user publisher t = elim (visible_publishers rules now user t) [
  | none ↦ true
  | some ids ↦ contains publisher ids
]

-- The write of `selectCompanies`: the current row, or a new one with the id given.
unfoldable pub put_selection : Uuid → Time → Uuid → List Uuid → BrokerTables → BrokerTables
put_selection new_id now user ids t = elim (current_selection now user t) [
  | some current ↦ record t {
    periods =
        update_where (λ p. p.id == current.id)
          (λ p. record p { company_user_ids = ids; expire_at = none }) t.periods;
  }
  | none ↦ record t {
    periods =
        t.periods
        ++ record {
          id = new_id;
          user_id = user;
          company_user_ids = ids;
          start_at = now;
          expire_at = none;
          order_id = none;
        }
          ∷ [];
  }
]

-- The limit, where there is one.
abbrev pub limit_of : Option ℕ → Result ℕ
limit_of none = err (bad_request "You see the loads of all companies and need to pick none.")
limit_of (some n) = ok n

unfoldable pub select_companies :
    BrokerRules → Uuid → Time → Uuid → List Uuid → BrokerTables → Result BrokerTables
select_companies rules new_id now user chosen t = do
  refuse_if (not (rules.is_broker user)) (bad_request "Only a broker picks companies.")
  limit ← limit_of rules.policy.max_companies
  refuse_if (length (distinct chosen) == 0) (bad_request "Pick at least one company.")
  refuse_if (ltb limit (length (distinct chosen))) (bad_request "You can pick no more companies.")
  refuse_if (any (λ id. not (contains id rules.companies)) (distinct chosen))
      (bad_request "One of the companies was not found.")
  ok (put_selection new_id now user (distinct chosen) t)

-- The `try` of `addInvitingCompany`.
abbrev pub attempted : BrokerTables → Result BrokerTables → Bool × BrokerTables
attempted t (err e) = (false, t)
attempted t (ok t') = (true, t')

unfoldable pub add_within :
    BrokerRules → ℕ → Uuid → Time → Uuid → Uuid → BrokerTables → Bool × BrokerTables
add_within rules limit new_id now user company t =
    let picked = picked_by (current_selection now user t) in
    if contains company picked || leb limit (length picked)
    then (false, t)
    else attempted t (select_companies rules new_id now user (picked ++ company ∷ []) t)

-- `addInvitingCompany`: true when the company was added.
unfoldable pub add_inviting_company :
    BrokerRules → Uuid → Time → Uuid → Uuid → BrokerTables → Bool × BrokerTables
add_inviting_company rules new_id now user company t = elim rules.policy.max_companies [
  | none ↦ (false, t)
  | some limit ↦ add_within rules limit new_id now user company t
]

-- `dropCompany`
unfoldable pub drop_company : Uuid → Uuid → BrokerTables → BrokerTables
drop_company user company t = record t {
  periods =
      update_where (λ p. p.user_id == user)
        (λ p. record p { company_user_ids = keep (λ id. not (id == company)) p.company_user_ids })
        t.periods;
}

-- `addCompanies`, for an order of the older kind.
unfoldable pub add_companies : Uuid → Time → Uuid → List Uuid → Uuid → BrokerTables → BrokerTables
add_companies new_id now user ids order t = elim (current_selection now user t) [
  | some current ↦ record t {
    periods =
        update_where (λ p. p.id == current.id)
          (λ p. record p {
            company_user_ids = distinct (current.company_user_ids ++ ids);
            expire_at = none;
          })
          t.periods;
  }
  | none ↦ record t {
    periods =
        t.periods
        ++ record {
          id = new_id;
          user_id = user;
          company_user_ids = distinct ids;
          start_at = now;
          expire_at = none;
          order_id = some order;
        }
          ∷ [];
  }
]
