-- ===== src/Limiter.antt =====
-- RateLimiter (src/services/notification/rateLimiter.ts): the pace of the messages to one
-- messenger. The interval, 1000 / perSecond, is a whole number of milliseconds.
use transport_backend.Base.{
  ℕ, ◌+◌, ◌≤◌, Bool, true, false, inl, inr, max, leb, if◌then◌else◌, List, [], ◌∷◌, arith,
  Bool-cases,
}
use transport_backend.Entities.{Time}

pub record RateLimiter : Type 0 where
  pub interval : ℕ
  pub next : Time
  pub paused_until : Time

-- When the next turn may be taken, seen from now.
unfoldable pub turn_at : Time → RateLimiter → Time
turn_at now l = max now (max l.next l.paused_until)

-- One pass of the loop of `take`: the turn is taken, or the caller waits and looks again later.
unfoldable pub try_take : Time → RateLimiter → Bool × RateLimiter
try_take now l =
    if leb (turn_at now l) now then (true, record l { next = now + l.interval }) else (false, l)

-- `pause`
unfoldable pub pause : Time → ℕ → RateLimiter → RateLimiter
pause now ms l = record l { paused_until = max l.paused_until (now + ms) }

-- What happens to a limiter: any number of callers of `take` look, and it
-- is paused.
pub data LimiterEvent : Type 0 where
  looks : Time → LimiterEvent
  pauses : Time → ℕ → LimiterEvent

-- The turns that are taken, the first one first, each with the end of the pauses so far: that is
-- reckoned from the pauses themselves, not read from the limiter.
unfoldable pub turns : List LimiterEvent → RateLimiter → Time → List (Time × Time)
turns [] l paused = []
turns (looks now ∷ es) l paused =
    let rest = turns es ((try_take now l).1) paused in
    if (try_take now l).0 then (now, paused) ∷ rest else rest
turns (pauses now ms ∷ es) l paused = turns es (pause now ms l) (max paused (now + ms))

-- Each turn is at least the interval after the one before it, and no sooner than a pause ends.
abbrev pub Spaced : ℕ → Time → List (Time × Time) → Type 0
Spaced interval from [] = Unit
Spaced interval from ((at, paused) ∷ rest) =
    (from ≤ at) × (paused ≤ at) × Spaced interval (at + interval) rest

-- Whatever callers look when, and whenever it is paused, the turns of a limiter are at least its
-- interval apart, the first not before `next`, and none is taken before the end of a pause that was
-- asked for before it, or of the pause that the limiter starts with.
pub turns-Spaced :
    (es : List LimiterEvent) (l : RateLimiter) (paused : Time)
    → paused ≤ l.paused_until
    → Spaced l.interval l.next (turns es l paused)
unfolding turns try_take turn_at pause
turns-Spaced [] l paused h = tt
turns-Spaced (looks now ∷ es) l paused h = elim (Bool-cases (leb (turn_at now l) now)) [
  | inl e ↦ rw e (
    ground (arith, e),
    ground (arith, e),
    turns-Spaced es (record l { next = now + l.interval }) paused h,
  )
  | inr e ↦ rw e (turns-Spaced es l paused h)
]
turns-Spaced (pauses now ms ∷ es) l paused h =
    turns-Spaced es (pause now ms l) (max paused (now + ms)) (ground (arith, h))
