-- ===== src/Tests/Steps.antt =====
-- The steps of a run: the states that it reaches, its links and its timers.
use propsim.Base.{ℕ, ◌≤◌, ◌≡◌, refl, true, Option, none, some, List, [], ◌∷◌, Text, replicate}
use propsim.Core.Node.{millis}
use propsim.Sim.Scheduler.{
  Scheduled, take_min, SchedCore, PoppedEvent, pop, arm_timer, cancel_timer,
}
use propsim.Sim.Scheduler.Fifo.Delivered.{FirstOfLink}
use propsim.Sim.Scheduler.Generations.{IsTimed, live}
use propsim.Sim.Scheduler.Generations.Preserved.{IsTimed-Kept}
use propsim.Sim.Scheduler.Timers.{Spent, empty-IsTimed, arm_timer-live, cancel_timer-live}
use propsim.Sim.Scheduler.Kept.{Kept}
use propsim.Sim.Driver.{World, handle}
use propsim.Sim.Driver.Run.{Loop, start_nodes, prepare, enter, after_event}
use propsim.Sim.Driver.Run.Reach.{Reachable, entered, handled}
use propsim.Sim.Scheduler.Rearranged.{Rearranged, swap, same, SameTaken}
use propsim.Sim.Driver.Run.Queue.{run-Rearranged}
use propsim.Sim.Driver.Run.Links.{run-delivers_oldest}
use propsim.Sim.Driver.Run.Timers.{run-fires_once}
use propsim.Tests.Run.{program, counter, counter_codec, plan, ops, fresh, fresh-empty}

abbrev OfCounter : Type 0
OfCounter = World counter counter_codec

abbrev or_fresh : Option OfCounter → OfCounter
or_fresh none = (fresh, [])
or_fresh (some w) = w

abbrev started : OfCounter
unfolding program
started = or_fresh (
    start_nodes counter counter_codec 2
      (prepare counter counter_codec plan 7, replicate 2 (some 0)))

abbrev loop : Loop counter counter_codec
unfolding program
loop = enter counter counter_codec 2 ops started

-- The next state of the run, if `pop` gives the event.
abbrev debug : ℕ → Text
debug t = t ∷ []

abbrev then_state : Loop counter counter_codec → PoppedEvent ℕ ℕ → OfCounter
unfolding program
then_state l ev =
    or_fresh (handle counter counter_codec ops ((pop debug l.issue.core).0, l.nodes) ev)

abbrev first : OfCounter
unfolding program
first = then_state loop (PoppedEvent.client_op 0 0)

abbrev second : OfCounter
unfolding program
second = then_state (after_event counter counter_codec 2 loop first) (PoppedEvent.client_op 1 1)

abbrev two_issued : Loop counter counter_codec
unfolding program
two_issued =
    after_event counter counter_codec 2 (after_event counter counter_codec 2 loop first) second

two_issued-Reachable : Reachable counter counter_codec plan (some ops) 7 two_issued
unfolding program
two_issued-Reachable =
    handled (after_event counter counter_codec 2 loop first) (PoppedEvent.client_op 1 1) second
      (handled loop (PoppedEvent.client_op 0 0) first (entered started refl) refl refl) refl refl

plan-ordered : (prepare counter counter_codec plan 7).model.ordered ≡ true
unfolding program
plan-ordered = refl

-- A message is delivered next.
delivers : (pop debug two_issued.issue.core).1 ≡ some (PoppedEvent.deliver 0 1 3)
unfolding program
delivers = refl

run-delivers_oldest_example : FirstOfLink two_issued.issue.core (pop debug two_issued.issue.core)
run-delivers_oldest_example =
    run-delivers_oldest counter counter_codec plan (some ops) 7 two_issued plan-ordered
      two_issued-Reachable

run-fires_once_example :
    (live debug two_issued.issue.core (0, 0 ∷ []) ≤ 1)
    × Spent debug (pop debug two_issued.issue.core)
run-fires_once_example =
    run-fires_once counter counter_codec plan (some ops) 7 two_issued (0, 0 ∷ [])
      two_issued-Reachable

-- A timer that is armed already.
abbrev armed : SchedCore ℕ ℕ
unfolding program
armed = arm_timer debug fresh 0 3 (millis 2)

armed-IsTimed : IsTimed debug armed
unfolding program
armed-IsTimed =
    Kept.armed (IsTimed-Kept debug) fresh 0 3 (millis 2) (empty-IsTimed debug fresh fresh-empty)

arm_timer-live_example : live debug (arm_timer debug armed 0 3 (millis 1)) (0, 3 ∷ []) ≡ 1
unfolding program
arm_timer-live_example = arm_timer-live debug armed 0 3 (millis 1) (0, 3 ∷ []) armed-IsTimed

cancel_timer-live_example : live debug (cancel_timer debug armed 0 3) (0, 3 ∷ []) ≡ 0
unfolding program
cancel_timer-live_example = cancel_timer-live debug armed 0 3 (0, 3 ∷ []) armed-IsTimed

-- The queue with its first two events exchanged.
abbrev exchanged : List (Scheduled ℕ ℕ) → List (Scheduled ℕ ℕ)
exchanged (x ∷ y ∷ q) = y ∷ x ∷ q
exchanged q = q

exchanged-Rearranged : (q : List (Scheduled ℕ ℕ)) → Rearranged q (exchanged q)
exchanged-Rearranged (x ∷ y ∷ q) = swap x y q
exchanged-Rearranged (x ∷ []) = same (x ∷ [])
exchanged-Rearranged [] = same []

run-Rearranged_example :
    SameTaken
      (take_min two_issued.issue.core.queue)
      (take_min (exchanged two_issued.issue.core.queue))
run-Rearranged_example =
    run-Rearranged counter counter_codec plan (some ops) 7 two_issued
      (exchanged two_issued.issue.core.queue) two_issued-Reachable
      (exchanged-Rearranged two_issued.issue.core.queue)
