-- ===== src/Tui/Tasks/Polling.antt =====
-- The polls of ferro-wg-tui/src/lib.rs never overlap.
use ferro_wg.Prelude.{false, ◌≡◌, refl, arith, if◌then◌else◌}
use ferro_wg.Tui.Tasks.Starts.{Polls, PollStep, tick, finish, spawn_status_poll}

abbrev pub no_polls : Polls
no_polls = record { in_flight = false; tasks = 0 }

-- The states of the flag and the tasks, in any order of ticks and ends.
pub data Reaches : Polls → Type 0 where
  start : Reaches no_polls
  step : {p q : Polls} → Reaches p → PollStep p q → Reaches q

-- The flag says exactly whether a poll is under way, and there is never more than one.
abbrev pub IsSingle : Polls → Type 0
IsSingle p = p.tasks ≡ (if p.in_flight then 1 else 0)

step-IsSingle : {p q : Polls} → PollStep p q → IsSingle p → IsSingle q
unfolding spawn_status_poll
step-IsSingle {p} tick h = ground arith
step-IsSingle (finish {b} {n}) h = ground arith

pub Reaches-IsSingle : {p : Polls} → Reaches p → IsSingle p
Reaches-IsSingle start = refl
Reaches-IsSingle (step r s) = step-IsSingle s (Reaches-IsSingle r)
