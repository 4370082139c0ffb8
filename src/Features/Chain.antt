-- ===== src/Features/Chain.antt =====
-- The grants of one menu are a chain without a gap: what `openGrants` says of them.
use transport_backend.Base.{
  ℕ, ◌≤◌, ◌≡◌, ◌∙◌, refl, true, ◌&&◌, ◌||◌, Option, none, some, List, [], ◌∷◌, ◌++◌, leb, is_some,
  arith, Bool-cases, Option-cases, inl, inr,
}
use transport_backend.Entities.{Uuid, Time}
use transport_backend.Features.Tables.{CompanyFeature, feature_place, CompanyFeatureGrant}
use transport_backend.Features.Access.{is_running_grant, latest_expiry, has_started, open_until}
use transport_backend.Features.Orders.{start_or, new_grant, add_grant}

-- One call of `addGrant`, by a gift or by the loop of an approval.
pub record GrantCall : Type 0 where
  pub new_id : Uuid
  pub user : Uuid
  pub feature : CompanyFeature
  pub days : ℕ
  pub now : Time
  pub order_id : Option Uuid
  pub by : Option Uuid

unfoldable pub run_grants : List GrantCall → List CompanyFeatureGrant → List CompanyFeatureGrant
run_grants [] gs = gs
run_grants (c ∷ cs) gs =
    run_grants cs (add_grant c.new_id c.user c.feature c.days c.now c.order_id c.by gs)

-- The clock does not run backwards.
abbrev pub Ascending : Time → List GrantCall → Type 0
Ascending n [] = Unit
Ascending n (c ∷ cs) = (n ≤ c.now) × Ascending c.now cs

abbrev pub last_time : Time → List GrantCall → Time
last_time n [] = n
last_time n (c ∷ cs) = last_time c.now cs

started_after_append :
    (s : Time) (u : Uuid) (f : CompanyFeature) (g : CompanyFeatureGrant)
    (gs : List CompanyFeatureGrant)
    → has_started s u f (gs ++ g ∷ [])
      ≡ (has_started s u f gs || (is_running_grant s u f g && leb g.start_at s))
unfolding has_started
started_after_append s u f g [] = ground arith
started_after_append s u f g (x ∷ xs) = ground (arith, started_after_append s u f g xs)

pub running_after_append :
    (s : Time) (u : Uuid) (f : CompanyFeature) (g : CompanyFeatureGrant)
    (gs : List CompanyFeatureGrant)
    → is_some (latest_expiry s u f (gs ++ g ∷ []))
      ≡ (is_some (latest_expiry s u f gs) || is_running_grant s u f g)
unfolding latest_expiry
running_after_append s u f g [] = ground arith
running_after_append s u f g (x ∷ xs) = ground (arith, running_after_append s u f g xs)

-- Where no grant of the menu runs any more, the last end has passed.
last_end_passed :
    (now s : Time) (u u' : Uuid) (f f' : CompanyFeature) (gs : List CompanyFeatureGrant) (e : Time)
    → u ≡ u'
    → feature_place f ≡ feature_place f'
    → latest_expiry s u f gs ≡ none
    → latest_expiry now u' f' gs ≡ some e
    → e ≤ s
unfolding latest_expiry is_running_grant
last_end_passed now s u u' f f' [] e a b n h = absurd (ground arith)
last_end_passed now s u u' f f' (g ∷ gs) e a b n h =
    elim (Option-cases (latest_expiry now u' f' gs)) [
      | inl q ↦ ground arith
      | inr (d, q) ↦ ground (arith, last_end_passed now s u u' f f' gs d a b)
    ]

-- From this time on, where a grant of a menu runs, one of them has started.
abbrev pub Covered : Time → List CompanyFeatureGrant → Type 0
Covered n gs =
    (s : Time) (u : Uuid) (f : CompanyFeature)
    → n ≤ s
    → is_some (latest_expiry s u f gs) ≡ true
    → has_started s u f gs ≡ true

-- A new grant that runs at a time when no other of the menu does has started by then.
new_started :
    (c : GrantCall) (gs : List CompanyFeatureGrant) (s : Time) (u : Uuid) (f : CompanyFeature)
    → c.now ≤ s
    → u ≡ c.user
    → feature_place f ≡ feature_place c.feature
    → latest_expiry s u f gs ≡ none
    → start_or (latest_expiry c.now c.user c.feature gs) c.now ≤ s
new_started c gs s u f h a b n = elim (Option-cases (latest_expiry c.now c.user c.feature gs)) [
  | inl e ↦ rw e h
  | inr (d, e) ↦ rw e (last_end_passed c.now s u c.user f c.feature gs d a b n e)
]

pub add_grant-Covered :
    (n : Time) (c : GrantCall) (gs : List CompanyFeatureGrant)
    → n ≤ c.now
    → Covered n gs
    → Covered c.now (add_grant c.new_id c.user c.feature c.days c.now c.order_id c.by gs)
unfolding add_grant new_grant is_running_grant
add_grant-Covered n c gs le old s u f h runs =
    let g = new_grant c.new_id c.user c.feature c.days c.now c.order_id c.by gs in
    started_after_append s u f g gs ∙ elim (Option-cases (latest_expiry s u f gs)) [
      | inr (d, e) ↦
          let was : has_started s u f gs ≡ true = old s u f (omega (arith, le, h)) (rw e refl) in
          rw was refl
      | inl e ↦
          let now_runs : is_running_grant s u f g ≡ true =
            ground (arith, running_after_append s u f g gs, e, runs) in
          let same_user : u ≡ c.user = ground (arith, now_runs) in
          let same_menu : feature_place f ≡ feature_place c.feature = ground (arith, now_runs) in
          let began : leb g.start_at s ≡ true =
            ground (arith, new_started c gs s u f h same_user same_menu e) in
          ground (arith, now_runs, began)
    ]

pub run_grants-Covered :
    (cs : List GrantCall) (n : Time) (gs : List CompanyFeatureGrant)
    → Ascending n cs
    → Covered n gs
    → Covered (last_time n cs) (run_grants cs gs)
unfolding run_grants
run_grants-Covered [] n gs asc old = old
run_grants-Covered (c ∷ cs) n gs (le, asc) old =
    run_grants-Covered cs c.now
      (add_grant c.new_id c.user c.feature c.days c.now c.order_id c.by gs) asc
      (add_grant-Covered n c gs le old)

pub no_grants-Covered : (n : Time) → Covered n []
unfolding latest_expiry
no_grants-Covered n s u f h runs = absurd (ground arith)

-- Whatever gifts and approvals there were, in the order of the clock, from the last of them on a
-- menu is open exactly until the last end of its grants: the step of `openGrants` that closes a
-- menu whose grants all start later never closes one.
pub open_until_last_end :
    (cs : List GrantCall) (n s : Time) (u : Uuid) (f : CompanyFeature)
    → Ascending n cs
    → last_time n cs ≤ s
    → open_until s u f (run_grants cs []) ≡ latest_expiry s u f (run_grants cs [])
unfolding open_until
open_until_last_end cs n s u f asc le =
    let gs = run_grants cs [] in
    elim (Option-cases (latest_expiry s u f gs)) [
      | inl e ↦ elim (Bool-cases (has_started s u f gs)) [
        | inl q ↦ rw q refl
        | inr q ↦ rw (q, e) refl
      ]
      | inr (d, e) ↦
          let began : has_started s u f gs ≡ true =
            run_grants-Covered cs n [] asc (no_grants-Covered n) s u f le (rw e refl) in
          rw began refl
    ]
