-- ===== src/Auth/Sessions/Laws.antt =====
-- What the operations of src/services/auth/session.service.ts do to the current session of one
-- account.
use transport_backend.Base.{
  ℕ, ◌+◌, ◌*◌, ◌&&◌, not, ◌≤◌, ◌<◌, ◌≡◌, refl, ap, ◌∙◌, is_some, inl, inr, Bool, true, false,
  Option, none, some, ◌==◌, arith, Bool-cases, Option-cases,
}
use mathlib.Core.Path.{subst, sym}
use transport_backend.Entities.{Uuid, Time}
use transport_backend.Auth.Keys.{Key, read, set, expire, delete_if_value}
use transport_backend.Auth.Sessions.{Sessions, put, start, resume, end_session, same_session}

-- The session `a` is not the one that a key holds.
abbrev pub IsGone : Uuid → Time → Key Uuid → Type 0
IsGone a now k = same_session (read now k) a ≡ false

module _ (a : Uuid) where
  pub IsGone-later : (t u : Time) (k : Key Uuid) → t ≤ u → IsGone a t k → IsGone a u k
  unfolding read
  IsGone-later t u none h g = refl
  IsGone-later t u (some kept) h g = ground (arith, g)

  pub set-IsGone : (t u new : Uuid) (ttl : ℕ) → (new == a) ≡ false → IsGone a u (set t new ttl)
  unfolding set read
  set-IsGone t u new ttl h = ground arith

  expire-IsGone : (t : Time) (ttl : ℕ) (k : Key Uuid) → IsGone a t k → IsGone a t (expire t ttl k)
  unfolding expire read set
  expire-IsGone t ttl none g = refl
  expire-IsGone t ttl (some kept) g = ground (arith, g)

  delete-IsGone :
      (t : Time) (sid : Uuid) (k : Key Uuid)
      → IsGone a t k
      → IsGone a t (delete_if_value ◌==◌ t sid k)
  unfolding delete_if_value read
  delete-IsGone t sid none g = refl
  delete-IsGone t sid (some kept) g = ground (arith, g)

  put-IsGone :
      (t user u : Uuid) (k : Key Uuid) (m : Sessions)
      → IsGone a t (m u)
      → (user ≡ u → IsGone a t k)
      → IsGone a t (put user k m u)
  unfolding put
  put-IsGone t user u k m g h = elim (Bool-cases (u == user)) [
    | inl same ↦ rw (same, put) (h (ground (arith, same)))
    | inr other ↦ rw (other, put) g
  ]

  pub start-IsGone :
      (now new user : Uuid) (multi : Bool) (u : Uuid) (m : Sessions)
      → (new == a) ≡ false
      → IsGone a now (m u)
      → IsGone a now (start now new user multi m u)
  unfolding start
  start-IsGone now new user true u m d g = g
  start-IsGone now new user false u m d g =
      put-IsGone now user u _ m g (λ e. set-IsGone now now new _ d)

  pub end_session-IsGone :
      (now user : Uuid) (sid : Option Uuid) (u : Uuid) (m : Sessions)
      → IsGone a now (m u)
      → IsGone a now (end_session now user sid m u)
  unfolding end_session
  end_session-IsGone now user none u m g = g
  end_session-IsGone now user (some sid) u m g =
      put-IsGone now user u _ m g
        (λ e. delete-IsGone now sid (m user) (subst (λ v. IsGone a now (m v)) (sym e) g))

  pub resume-IsGone :
      (now new user : Uuid) (multi : Bool) (sid : Option Uuid) (u : Uuid) (m : Sessions)
      → (new == a) ≡ false
      → IsGone a now (m u)
      → IsGone a now ((resume now new user multi sid m).1 u)
  unfolding resume
  resume-IsGone now new user true none u m d g = g
  resume-IsGone now new user true (some sid) u m d g = g
  resume-IsGone now new user false none u m d g = elim (Option-cases (read now (m user))) [
    | inl e ↦ rw (e, resume) (start-IsGone now new user false u m d g)
    | inr (active, e) ↦ rw (e, resume) g
  ]
  resume-IsGone now new user false (some sid) u m d g =
      elim (Bool-cases (same_session (read now (m user)) sid)) [
        | inl e ↦
            rw (e, resume)
              (put-IsGone now user u _ m g
                (λ f. expire-IsGone now _ (m user) (subst (λ v. IsGone a now (m v)) (sym f) g)))
        | inr e ↦ rw (e, resume) g
      ]

-- The key holds the session `a` until the moment `b` at least.
abbrev pub Holds : Uuid → Time → Key Uuid → Type 0
Holds a b k = (t : Time) → t < b → read t k ≡ some a

module _ (a : Uuid) (b : Time) where
  pub set-Holds : (now : Time) (ttl : ℕ) → b ≤ now + 1000 * ttl → Holds a b (set now a ttl)
  unfolding set read
  set-Holds now ttl h t i = ground arith

  expire-Holds :
      (now : Time) (ttl : ℕ) (k : Key Uuid)
      → now < b
      → b ≤ now + 1000 * ttl
      → Holds a b k
      → Holds a b (expire now ttl k)
  unfolding expire read
  expire-Holds now ttl k h l o = rw (o now h, expire) (set-Holds now ttl l)

  delete-Holds :
      (now : Time) (sid : Uuid) (k : Key Uuid)
      → now < b
      → (a == sid) ≡ false
      → Holds a b k
      → Holds a b (delete_if_value ◌==◌ now sid k)
  unfolding delete_if_value read
  delete-Holds now sid k h d o = rw (o now h, delete_if_value) (rw d o)

  put-Holds :
      (user u : Uuid) (k : Key Uuid) (m : Sessions)
      → Holds a b (m u)
      → (user ≡ u → Holds a b k)
      → Holds a b (put user k m u)
  unfolding put
  put-Holds user u k m o h = elim (Bool-cases (u == user)) [
    | inl same ↦ rw (same, put) (h (ground (arith, same)))
    | inr other ↦ rw (other, put) o
  ]

  -- A sign-in to another account, or to one of many sessions, leaves the session.
  pub start-Holds :
      (now new user : Uuid) (multi : Bool) (u : Uuid) (m : Sessions)
      → ((u == user) && not multi) ≡ false
      → Holds a b (m u)
      → Holds a b (start now new user multi m u)
  unfolding start
  start-Holds now new user true u m d o = o
  start-Holds now new user false u m d o =
      put-Holds user u _ m o (λ e. absurd (ground (arith, d, e)))

  pub end_session-Holds :
      (now user : Uuid) (sid : Option Uuid) (u : Uuid) (m : Sessions)
      → now < b
      → ((u == user) && same_session sid a) ≡ false
      → Holds a b (m u)
      → Holds a b (end_session now user sid m u)
  unfolding end_session
  end_session-Holds now user none u m h d o = o
  end_session-Holds now user (some sid) u m h d o = put-Holds user u _ m o (λ e.
      delete-Holds now sid (m user) h (ground (arith, d, e))
        (subst (λ v. Holds a b (m v)) (sym e) o))

  none_held :
      (user u : Uuid) (m : Sessions) (now : Time)
      → user ≡ u
      → read now (m u) ≡ some a
      → read now (m user) ≡ none
      → 1 ≤ 0
  none_held user u m now f held gone =
      ground (arith, ap is_some (sym (subst (λ v. read now (m v) ≡ none) f gone) ∙ held))

  -- A refresh of any session leaves it, and its own gives it more time.
  pub resume-Holds :
      (now new user : Uuid) (multi : Bool) (sid : Option Uuid) (u : Uuid) (m : Sessions)
      → now < b
      → b ≤ now + 2_592_000_000
      → Holds a b (m u)
      → Holds a b ((resume now new user multi sid m).1 u)
  unfolding resume start
  resume-Holds now new user true none u m h l o = o
  resume-Holds now new user true (some sid) u m h l o = o
  resume-Holds now new user false none u m h l o = elim (Option-cases (read now (m user))) [
    | inl e ↦
        rw (e, resume)
          (put-Holds user u _ m o
            (λ f. absurd (ground (arith, none_held user u m now f (o now h) e))))
    | inr (active, e) ↦ rw (e, resume) o
  ]
  resume-Holds now new user false (some sid) u m h l o =
      elim (Bool-cases (same_session (read now (m user)) sid)) [
        | inl e ↦
            rw (e, resume)
              (put-Holds user u _ m o
                (λ f. expire-Holds now _ (m user) h l (subst (λ v. Holds a b (m v)) (sym f) o)))
        | inr e ↦ rw (e, resume) o
      ]
