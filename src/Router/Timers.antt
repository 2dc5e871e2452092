-- ===== src/Router/Timers.antt =====
-- controller.py: the timers that run, by what was sent to POX.
use mininet_zone_segmentatio.Base.{
  ℕ, ◌≡◌, refl, Option, none, some, List, [], ◌∷◌, ◌++◌, ◌==◌, nat_eq, if◌then◌else◌,
}
use mininet_zone_segmentatio.Router.{
  Message, Effect, send, start_timer, cancel_timer, start_sweeps, Router,
}
use mininet_zone_segmentatio.Router.Output.{emit}

-- The interval and the address of a timer that was started and not cancelled since; `before` is what
-- runs before the effects.
unfoldable pub runs_after : List Effect → ℕ → Option (ℕ × ℕ) → Option (ℕ × ℕ)
runs_after [] timer before = before
runs_after (start_timer t interval ip ∷ effects) timer before =
    runs_after effects timer (if timer == t then some (interval, ip) else before)
runs_after (cancel_timer t ∷ effects) timer before =
    runs_after effects timer (if timer == t then none else before)
runs_after (send connection message ∷ effects) timer before = runs_after effects timer before
runs_after (start_sweeps interval ∷ effects) timer before = runs_after effects timer before

unfoldable pub running : Router → ℕ → Option (ℕ × ℕ)
running r timer = runs_after r.sent timer none

runs_after-append :
    (a b : List Effect) (timer : ℕ) (before : Option (ℕ × ℕ))
    → runs_after (a ++ b) timer before ≡ runs_after b timer (runs_after a timer before)
unfolding runs_after
runs_after-append [] b timer before = refl
runs_after-append (start_timer t interval ip ∷ a) b timer before = runs_after-append a b timer _
runs_after-append (cancel_timer t ∷ a) b timer before = runs_after-append a b timer _
runs_after-append (send connection message ∷ a) b timer before = runs_after-append a b timer before
runs_after-append (start_sweeps interval ∷ a) b timer before = runs_after-append a b timer before

pub running-send :
    (connection : ℕ) (message : Message) (r : Router) (timer : ℕ)
    → running (emit (send connection message) r) timer ≡ running r timer
unfolding running emit runs_after
running-send connection message r timer =
    runs_after-append r.sent (send connection message ∷ []) timer none

pub running-start :
    (t interval ip : ℕ) (r : Router) (timer : ℕ)
    → running (emit (start_timer t interval ip) r) timer
      ≡ (if timer == t then some (interval, ip) else running r timer)
unfolding running emit runs_after
running-start t interval ip r timer =
    runs_after-append r.sent (start_timer t interval ip ∷ []) timer none

pub running-cancel :
    (t : ℕ) (r : Router) (timer : ℕ)
    → running (emit (cancel_timer t) r) timer ≡ (if timer == t then none else running r timer)
unfolding running emit runs_after
running-cancel t r timer = runs_after-append r.sent (cancel_timer t ∷ []) timer none
