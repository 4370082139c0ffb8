-- ===== src/Features/Approved.antt =====
-- What an approval of an order opens: all its menus.
use transport_backend.Base.{
  suc, ◌≤◌, ◌<◌, ◌≡◌, ◌∙◌, refl, sym, ap, Bool, true, some, List, [], ◌∷◌, ◌++◌, ◌==◌, is_some,
  arith, Bool-cases, inl, inr, by_id, length, ok,
}
use mathlib.Core.Path.{subst}
use transport_backend.Entities.{Uuid, Time}
use transport_backend.Features.Tables.{
  CompanyFeature, feature_eq, CompanyFeatureGrant, CompanyFeatureOrder, CompanyUser, FeatureTables,
}
use transport_backend.Features.Access.{
  has_menu, standing, standing_of, is_running_grant, latest_expiry, has_started, open_until,
  has_feature,
}
use transport_backend.Features.Orders.{
  is_in_review, new_grant, add_grant, grant_all, ordered_menus, approve_menus,
}
use transport_backend.Features.Chain.{
  GrantCall, run_grants, Ascending, last_time, Covered, add_grant-Covered, run_grants-Covered,
  no_grants-Covered, running_after_append,
}
use transport_backend.Features.Granted.{new_grant_runs, has_feature_open}

module _ (o : CompanyFeatureOrder) (admin : Uuid) (now : Time) where
  grant_all-Covered :
      (new_id : Uuid) (fs : List CompanyFeature) (gs : List CompanyFeatureGrant)
      → Covered now gs
      → Covered now (grant_all new_id o admin now fs gs)
  unfolding grant_all
  grant_all-Covered new_id [] gs c = c
  grant_all-Covered new_id (f ∷ fs) gs c =
      grant_all-Covered (suc new_id) fs
        (add_grant new_id o.user_id f o.duration_days now (some o.id) (some admin) gs)
        (add_grant-Covered now
          (record {
            new_id = new_id;
            user = o.user_id;
            feature = f;
            days = o.duration_days;
            now = now;
            order_id = some o.id;
            by = some admin;
          })
          gs (omega arith) c)

  goes_on_running :
      (new_id : Uuid) (f : CompanyFeature) (fs : List CompanyFeature)
      (gs : List CompanyFeatureGrant)
      → is_some (latest_expiry now o.user_id f gs) ≡ true
      → is_some (latest_expiry now o.user_id f (grant_all new_id o admin now fs gs)) ≡ true
  unfolding grant_all add_grant
  goes_on_running new_id f [] gs h = h
  goes_on_running new_id f (g ∷ fs) gs h = goes_on_running (suc new_id) f fs _ (
      running_after_append now o.user_id f
        (new_grant new_id o.user_id g o.duration_days now (some o.id) (some admin) gs) gs
      ∙ rw h refl)

  same_menu_runs :
      (f g : CompanyFeature) (x : CompanyFeatureGrant)
      → feature_eq g f ≡ true
      → is_running_grant now o.user_id g x ≡ true
      → is_running_grant now o.user_id f x ≡ true
  unfolding is_running_grant
  same_menu_runs f g x e h = ground (arith, e, h)

  menu_runs :
      (new_id : Uuid) (f : CompanyFeature) (fs : List CompanyFeature)
      (gs : List CompanyFeatureGrant)
      → 0 < o.duration_days
      → has_menu f fs ≡ true
      → is_some (latest_expiry now o.user_id f (grant_all new_id o admin now fs gs)) ≡ true
  unfolding grant_all add_grant
  menu_runs new_id f [] gs d h = absurd (ground arith)
  menu_runs new_id f (g ∷ fs) gs d h = elim (Bool-cases (feature_eq g f)) [
    | inl e ↦
        let x = new_grant new_id o.user_id g o.duration_days now (some o.id) (some admin) gs in
        let runs =
          same_menu_runs f g x e
            (new_grant_runs new_id o.user_id g o.duration_days now (some o.id) (some admin) gs d) in
        goes_on_running (suc new_id) f fs (gs ++ x ∷ [])
          (running_after_append now o.user_id f x gs ∙ ground (arith, runs))
    | inr e ↦ menu_runs (suc new_id) f fs _ d (ground (arith, h, e))
  ]

-- What an approval found and left.
record IsApproval (new_id order_id admin : Uuid) (now : Time) (o : CompanyFeatureOrder)
    (t t' : FeatureTables) : Type 0 where
  granted : t'.grants ≡ grant_all new_id o admin now (ordered_menus o) t.grants
  same_users : t'.users ≡ t.users

approve_menus-IsApproval :
    (new_id order_id admin : Uuid) (now : Time) (o : CompanyFeatureOrder) (t t' : FeatureTables)
    → by_id CompanyFeatureOrder.id order_id t.orders ≡ some o
    → approve_menus new_id order_id admin now t ≡ ok t'
    → IsApproval new_id order_id admin now o t t'
unfolding approve_menus
approve_menus-IsApproval new_id order_id admin now o t t' found h =
    elim (Bool-cases (is_in_review o.status)) [
      | inr e ↦ absurd (ground arith)
      | inl e ↦ elim (Bool-cases (length (ordered_menus o) == 0)) [
        | inl z ↦ absurd (ground arith)
        | inr z ↦ record { granted = ground arith; same_users = ground arith }
      ]
    ]

-- After any gifts and approvals in the order of the clock, the approval of an order of some days by
-- a verified company opens each menu of the order at once.
pub approve_menus_opens :
    (menu_purchase : Bool) (cs : List GrantCall) (n : Time) (new_id order_id admin : Uuid)
    (now : Time) (o : CompanyFeatureOrder) (f : CompanyFeature) (t t' : FeatureTables)
    → Ascending n cs
    → last_time n cs ≤ now
    → t.grants ≡ run_grants cs []
    → by_id CompanyFeatureOrder.id order_id t.orders ≡ some o
    → 0 < o.duration_days
    → (standing o.user_id t).verified ≡ true
    → has_menu f (ordered_menus o) ≡ true
    → approve_menus new_id order_id admin now t ≡ ok t'
    → has_feature menu_purchase now o.user_id f t' ≡ true
unfolding open_until standing
approve_menus_opens menu_purchase cs n new_id order_id admin now o f t t' asc le made found days ver
      menu h =
    let a = approve_menus-IsApproval new_id order_id admin now o t t' found h in
    let before : Covered now t.grants =
      subst (λ gs. Covered now gs) (sym made)
        (λ s u f' le' runs.
          run_grants-Covered cs n [] asc (no_grants-Covered n) s u f' (omega (arith, le, le'))
            runs) in
    let after = grant_all new_id o admin now (ordered_menus o) t.grants in
    let runs = menu_runs o admin now new_id f (ordered_menus o) t.grants days menu in
    let began : has_started now o.user_id f after ≡ true =
      grant_all-Covered o admin now new_id (ordered_menus o) t.grants before now o.user_id f
        (omega arith) runs in
    let opn : is_some (open_until now o.user_id f after) ≡ true = rw began runs in
    has_feature_open menu_purchase now o.user_id f t'
      (ap (λ us. (standing_of (by_id CompanyUser.id o.user_id us)).verified) a.same_users ∙ ver)
      (ap (λ gs. is_some (open_until now o.user_id f gs)) a.granted ∙ opn)
