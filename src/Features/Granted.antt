-- ===== src/Features/Granted.antt =====
-- What a grant brings: its days, behind those that are left, and an open menu.
use transport_backend.Base.{
  ℕ, ◌+◌, ◌*◌, ◌≤◌, ◌<◌, ◌≡◌, ◌∙◌, refl, ap, Bool, true, false, ◌&&◌, Option, none, some, List, [],
  ◌∷◌, ◌++◌, ◌==◌, is_some, arith, Option-cases, inl, inr,
}
use transport_backend.Entities.{Uuid, Time}
use transport_backend.Rewards.{day_ms}
use transport_backend.Features.Tables.{
  CompanyFeature, feature_eq, CompanyFeatureGrant, FeatureTables,
}
use transport_backend.Features.Access.{
  standing, is_running_grant, later_end, latest_expiry, has_started, open_until, is_locked,
  has_feature,
}
use transport_backend.Features.Orders.{start_or, new_grant, add_grant, grant}
use transport_backend.Features.Chain.{
  GrantCall, run_grants, Ascending, last_time, add_grant-Covered, run_grants-Covered,
  no_grants-Covered,
}

latest_expiry_later :
    (s : Time) (u : Uuid) (f : CompanyFeature) (gs : List CompanyFeatureGrant) (e : Time)
    → latest_expiry s u f gs ≡ some e
    → s < e
unfolding latest_expiry is_running_grant
latest_expiry_later s u f [] e h = absurd (ground arith)
latest_expiry_later s u f (g ∷ gs) e h = elim (Option-cases (latest_expiry s u f gs)) [
  | inl q ↦ ground arith
  | inr (d, q) ↦ ground (arith, latest_expiry_later s u f gs d)
]

latest_after_append :
    (s : Time) (u : Uuid) (f : CompanyFeature) (g : CompanyFeatureGrant)
    (gs : List CompanyFeatureGrant)
    → is_running_grant s u f g ≡ true
    → latest_expiry s u f (gs ++ g ∷ []) ≡ some (later_end g.expire_at (latest_expiry s u f gs))
unfolding latest_expiry
latest_after_append s u f g [] h = rw h refl
latest_after_append s u f g (x ∷ xs) h = elim (Option-cases (latest_expiry s u f xs)) [
  | inl q ↦ ground (arith, latest_after_append s u f g xs h)
  | inr (d, q) ↦ ground (arith, latest_after_append s u f g xs h)
]

others_after_append :
    (s : Time) (u : Uuid) (f : CompanyFeature) (g : CompanyFeatureGrant)
    (gs : List CompanyFeatureGrant)
    → is_running_grant s u f g ≡ false
    → latest_expiry s u f (gs ++ g ∷ []) ≡ latest_expiry s u f gs
unfolding latest_expiry
others_after_append s u f g [] h = rw h refl
others_after_append s u f g (x ∷ xs) h = ground (arith, others_after_append s u f g xs h)

pub new_grant_runs :
    (new_id user : Uuid) (f : CompanyFeature) (days : ℕ) (now : Time) (order_id by : Option Uuid)
    (gs : List CompanyFeatureGrant)
    → 0 < days
    → is_running_grant now user f (new_grant new_id user f days now order_id by gs) ≡ true
unfolding is_running_grant new_grant
new_grant_runs new_id user f days now order_id by gs h =
    elim (Option-cases (latest_expiry now user f gs)) [
      | inl q ↦ rw q (ground arith)
      | inr (d, q) ↦ rw q (ground (arith, latest_expiry_later now user f gs d q))
    ]

-- A grant of some days to a company makes the menu end that many days after the end that it had, or
-- after now if it had none; every other menu, and every other company's, ends as before.
pub grant_extends :
    (new_id user : Uuid) (f : CompanyFeature) (days : ℕ) (now : Time) (order_id by : Option Uuid)
    (gs : List CompanyFeatureGrant)
    → 0 < days
    → (latest_expiry now user f (add_grant new_id user f days now order_id by gs)
        ≡ some (start_or (latest_expiry now user f gs) now + days * day_ms))
      × ((s : Time) (u : Uuid) (f' : CompanyFeature)
          → ((user == u) && feature_eq f f') ≡ false
          → latest_expiry s u f' (add_grant new_id user f days now order_id by gs)
            ≡ latest_expiry s u f' gs)
unfolding add_grant new_grant is_running_grant
grant_extends new_id user f days now order_id by gs h =
    let g = new_grant new_id user f days now order_id by gs in
    let runs = new_grant_runs new_id user f days now order_id by gs h in
    (
      latest_after_append now user f g gs runs ∙ elim (Option-cases (latest_expiry now user f gs)) [
        | inl q ↦ rw q refl
        | inr (d, q) ↦ rw q (ground arith)
      ],
      λ s u f' other. others_after_append s u f' g gs (ground (arith, other)),
    )

-- A verified company has a menu that is open.
pub has_feature_open :
    (menu_purchase : Bool) (now : Time) (user : Uuid) (f : CompanyFeature) (t : FeatureTables)
    → (standing user t).verified ≡ true
    → is_some (open_until now user f t.grants) ≡ true
    → has_feature menu_purchase now user f t ≡ true
unfolding has_feature is_locked
has_feature_open menu_purchase now user f t ver opn = ground (arith, ver, opn)

-- After any gifts and approvals in the order of the clock, a grant of some days to a verified
-- company opens the menu at once, whatever grants it had.
pub grant_opens :
    (menu_purchase : Bool) (cs : List GrantCall) (n : Time) (new_id user : Uuid)
    (f : CompanyFeature) (days : ℕ) (admin : Uuid) (now : Time) (t : FeatureTables)
    → Ascending n cs
    → last_time n cs ≤ now
    → t.grants ≡ run_grants cs []
    → (standing user t).verified ≡ true
    → 0 < days
    → has_feature menu_purchase now user f (grant new_id user f days admin now t) ≡ true
unfolding open_until grant standing
grant_opens menu_purchase cs n new_id user f days admin now t asc le made ver h =
    let c : GrantCall = record {
      new_id = new_id;
      user = user;
      feature = f;
      days = days;
      now = now;
      order_id = none;
      by = some admin;
    } in
    let covered = run_grants-Covered cs n [] asc (no_grants-Covered n) in
    let after = add_grant new_id user f days now none (some admin) (run_grants cs []) in
    let ends = (grant_extends new_id user f days now none (some admin) (run_grants cs []) h).0 in
    let began : has_started now user f after ≡ true =
      add_grant-Covered (last_time n cs) c (run_grants cs []) le covered now user f (omega arith)
        (rw ends refl) in
    let opn : is_some (open_until now user f after) ≡ true = rw (began, ends) refl in
    has_feature_open menu_purchase now user f (grant new_id user f days admin now t) ver (
      ap
        (λ gs.
          is_some (open_until now user f (add_grant new_id user f days now none (some admin) gs)))
        made
      ∙ opn)
