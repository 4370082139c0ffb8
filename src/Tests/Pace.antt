-- ===== src/Tests/Pace.antt =====
-- Three callers look, and a pause comes between them.
use transport_backend.Base.{arith, List, [], ◌∷◌}
use transport_backend.Limiter.{
  RateLimiter, LimiterEvent, looks, pauses, turns, Spaced, turns-Spaced,
}

abbrev calm : RateLimiter
calm = record { interval = 40; next = 0; paused_until = 0 }

abbrev events : List LimiterEvent
events = looks 100 ∷ looks 110 ∷ pauses 120 500 ∷ looks 140 ∷ looks 620 ∷ looks 660 ∷ []

turns-Spaced_example : Spaced 40 0 (turns events calm 0)
turns-Spaced_example = turns-Spaced events calm 0 (omega arith)
