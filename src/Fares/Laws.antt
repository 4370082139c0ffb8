-- ===== src/Fares/Laws.antt =====
-- The agreed fare is fixed once the trip has started, and a reason stands by every real change.
use mathlib.Core.Path.{subst}
use transport_backend.Base.{
  ◌≡◌, ◌∙◌, refl, sym, ap, true, false, ◌&&◌, not, none, some, List, [], ◌∷◌, ◌==◌, if◌then◌else◌,
  is_some, find, ok, All, Bool-cases, inl, inr, arith, ==_refl,
}
use transport_backend.Entities.{Uuid}
use transport_backend.Entities.Trip.{
  CargoRequest, TripFareStage, agreed, TripFareValues, TripFare, stage_eq,
}
use transport_backend.Fares.{
  is_started, is_row, fare_at, upsert, record_agreed, changed_from, record_delivered, Call,
  answer_to, table_or, run,
}

stage_eq_common :
    (s a b : TripFareStage) → stage_eq s a ≡ true → stage_eq s b ≡ true → stage_eq a b ≡ true
stage_eq_common agreed agreed agreed h k = refl
stage_eq_common TripFareStage.delivered TripFareStage.delivered TripFareStage.delivered h k = refl
stage_eq_common agreed agreed TripFareStage.delivered h k = k
stage_eq_common agreed TripFareStage.delivered b h k = absurd (ground arith)
stage_eq_common TripFareStage.delivered agreed b h k = absurd (ground arith)
stage_eq_common TripFareStage.delivered TripFareStage.delivered agreed h k = k

-- A row is of one request and one stage.
is_row_apart :
    (request k : Uuid) (stage other : TripFareStage) (r : TripFare)
    → ((request == k) && stage_eq stage other) ≡ false
    → is_row request stage r ≡ true
    → is_row k other r ≡ false
unfolding is_row
is_row_apart request k stage other r h e = elim (Bool-cases (is_row k other r)) [
  | inr f ↦ f
  | inl f ↦ absurd (ground (arith, stage_eq_common r.stage stage other))
]

-- A row of another request or stage is not touched.
fare_at-upsert-other :
    (new_id request k : Uuid) (stage other : TripFareStage) (values : TripFareValues) (user : Uuid)
    (fares : List TripFare)
    → ((request == k) && stage_eq stage other) ≡ false
    → fare_at k other (upsert new_id request stage values user fares) ≡ fare_at k other fares
unfolding fare_at upsert find is_row
fare_at-upsert-other new_id request k stage other values user [] h = ground arith
fare_at-upsert-other new_id request k stage other values user (r ∷ rs) h =
    elim (Bool-cases (is_row request stage r)) [
      | inl e ↦
          let f : is_row k other r ≡ false = is_row_apart request k stage other r h e in
          rw e (rw f refl)
      | inr e ↦ rw e (rw (fare_at-upsert-other new_id request k stage other values user rs h) refl)
    ]

-- The row that was written is the row that is found.
fare_at-upsert :
    (new_id request : Uuid) (stage : TripFareStage) (values : TripFareValues) (user : Uuid)
    (fares : List TripFare)
    → stage_eq stage stage ≡ true
    → (r : TripFare) × (fare_at request stage (upsert new_id request stage values user fares)
        ≡ some r)
      × (r.fare ≡ values)
unfolding fare_at upsert find is_row
fare_at-upsert new_id request stage values user [] h = (
  record {
    id = new_id;
    request_id = request;
    stage = stage;
    fare = values;
    entered_by_user_id = user;
  },
  rw (==_refl request, h) refl,
  refl,
)
fare_at-upsert new_id request stage values user (x ∷ xs) h =
    elim (Bool-cases (is_row request stage x)) [
      | inl e ↦ rw e (record x { fare = values; entered_by_user_id = user }, rw e refl, refl)
      | inr e ↦ rw e (rw e (fare_at-upsert new_id request stage values user xs h))
    ]

record_agreed_keeps :
    (new_id k : Uuid) (request : CargoRequest) (values : TripFareValues) (user : Uuid)
    (fares : List TripFare) {r : TripFare}
    → (request.id ≡ k → is_started request.status ≡ true)
    → fare_at k agreed fares ≡ some r
    → fare_at k agreed (table_or fares (record_agreed new_id request values user fares)) ≡ some r
unfolding record_agreed
record_agreed_keeps new_id k request values user fares {r} s h =
    elim (Bool-cases (is_started request.status && is_some (fare_at request.id agreed fares))) [
      | inl g ↦ rw g h
      | inr g ↦
          let apart : ((request.id == k) && true) ≡ false = elim (Bool-cases (request.id == k)) [
            | inr f ↦ ground arith
            | inl f ↦
                let same : request.id ≡ k = ground arith in
                let there : fare_at request.id agreed fares ≡ some r =
                  ap (λ j. fare_at j agreed fares) same ∙ h in
                absurd (ground (arith, s same))
          ] in
          rw g (fare_at-upsert-other new_id request.id k agreed agreed _ user fares apart ∙ h)
    ]

record_delivered_keeps :
    (new_id k : Uuid) (request : CargoRequest) (values : TripFareValues) (user : Uuid)
    (fares : List TripFare)
    → fare_at k agreed (table_or fares (record_delivered new_id request values user fares))
      ≡ fare_at k agreed fares
unfolding record_delivered
record_delivered_keeps new_id k request values user fares =
    elim (Bool-cases (
      changed_from (fare_at request.id agreed fares) values
      && not (is_some values.change_reason))) [
        | inl g ↦ rw g refl
        | inr g ↦ rw g (
            fare_at-upsert-other new_id request.id k TripFareStage.delivered agreed _ user fares
              (ground arith))
      ]

answer_keeps :
    (k : Uuid) (c : Call) (fares : List TripFare) (r : TripFare) (stage : TripFareStage)
    → c.stage ≡ stage
    → (c.request.id ≡ k → is_started c.request.status ≡ true)
    → fare_at k agreed fares ≡ some r
    → fare_at k agreed (table_or fares (answer_to c fares)) ≡ some r
unfolding answer_to
answer_keeps k c fares r agreed e s h =
    rw e (record_agreed_keeps c.new_id k c.request c.values c.user fares s h)
answer_keeps k c fares r TripFareStage.delivered e s h =
    rw e (record_delivered_keeps c.new_id k c.request c.values c.user fares ∙ h)

-- What was agreed is not rewritten: once a trip has started and its agreed fare is there, no list
-- of calls, for this and other trips and at either stage, changes that row, as long as the trip
-- stays started in every call for it.
pub agreed_fixed :
    (k : Uuid) (cs : List Call) (fares : List TripFare) (r : TripFare)
    → All (λ c. c.request.id ≡ k → is_started c.request.status ≡ true) cs
    → fare_at k agreed fares ≡ some r
    → fare_at k agreed (run cs fares) ≡ some r
unfolding run
agreed_fixed k [] fares r s h = h
agreed_fixed k (c ∷ cs) fares r (s, ss) h =
    agreed_fixed k cs (table_or fares (answer_to c fares)) r ss
      (answer_keeps k c fares r c.stage refl s h)

-- «Changed» always means a real change: where `recordDelivered` succeeds, the delivered row has the
-- total given, and a reason of change exactly if there are agreed values and these differ in total,
-- currency or weight; the agreed row stays.
pub delivered_reason :
    (new_id : Uuid) (request : CargoRequest) (values : TripFareValues) (user : Uuid)
    (fares after : List TripFare)
    → record_delivered new_id request values user fares ≡ ok after
    → ((r : TripFare) × (fare_at request.id TripFareStage.delivered after ≡ some r)
        × (r.fare.total ≡ values.total)
        × (is_some r.fare.change_reason ≡ changed_from (fare_at request.id agreed fares) values))
      × (fare_at request.id agreed after ≡ fare_at request.id agreed fares)
unfolding record_delivered
delivered_reason new_id request values user fares after h =
    elim (Bool-cases (
      changed_from (fare_at request.id agreed fares) values
      && not (is_some values.change_reason))) [
        | inl g ↦ absurd (ground arith)
        | inr g ↦
            let changed = changed_from (fare_at request.id agreed fares) values in
            let given : TripFareValues = record values {
              change_reason = if changed then values.change_reason else none;
            } in
            let wrote : upsert new_id request.id TripFareStage.delivered given user fares ≡ after =
              ground arith in
            let (r, found, fare) =
              fare_at-upsert new_id request.id TripFareStage.delivered given user fares refl in
            (
              (
                r,
                subst (λ t. fare_at request.id TripFareStage.delivered t ≡ some r) wrote found,
                ap (λ v. v.total) fare,
                ap (λ v. is_some v.change_reason) fare ∙ ground arith,
              ),
              ap (λ t. fare_at request.id agreed t) (sym wrote)
                  ∙ fare_at-upsert-other new_id request.id request.id TripFareStage.delivered agreed
                      given user fares (ground arith),
            )
      ]
