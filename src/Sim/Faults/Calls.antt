-- ===== src/Sim/Faults/Calls.antt =====
-- Lowering posts fault events, and nothing else, on a timeline that has not started.
use propsim.Base.{
  ℕ, ◌≤◌, ◌≡◌, refl, inl, inr, Bool, ◌&&◌, Option, none, some, List, [], ◌∷◌, arith, leb, if_intro,
  Option-cases,
}
use propsim.Core.Node.{Duration}
use propsim.Core.Transport.{NetworkModel}
use propsim.Core.Faults.{Mode, FaultKind, ScriptedEvent, Faults, script, swarm_kinds}
use propsim.Sim.Rng.{SimRng}
use propsim.Sim.Scheduler.{SchedCore, FaultAction, schedule_fault, enqueue}
use propsim.Sim.Scheduler.Calls.{Calls, fault, here, next, here}
use propsim.Sim.Faults.{
  Swarm, is_liveness, lower_action, lower_script, swarm_partition, swarm_crash, lower_kind,
  lower_kinds, choose_kinds, lower_swarm, lower,
}

-- Reached by the posting of faults.

pub data Posted {M T : Type 0} (c : SchedCore M T) : SchedCore M T → Type 0 where
  nothing : Posted c c
  and_then :
      {d : SchedCore M T} (at : Duration) (action : FaultAction)
      → Posted c d
      → d.now ≤ at
      → Posted c (schedule_fault d at action)

module _ {M T : Type 0} where
  pub Posted-Calls : (debug : T → List ℕ) {c d : SchedCore M T} → Posted c d → Calls debug c d
  Posted-Calls debug nothing = here
  Posted-Calls debug (and_then at action p later) =
      next (Posted-Calls debug p) (fault at action later)

  pub Posted-now : {c d : SchedCore M T} → Posted c d → d.now ≡ c.now
  unfolding schedule_fault enqueue
  Posted-now nothing = refl
  Posted-now (and_then at action p later) = Posted-now p

module _ {M T : Type 0} (c : SchedCore M T) (unstarted : c.now ≡ 0) where
  -- Reached from `c` by calls.
  abbrev Reached : SchedCore M T → Type 0
  Reached d = Posted c d

  schedule-Reached :
      (d : SchedCore M T) (at : Duration) (action : FaultAction)
      → Reached d
      → Reached (schedule_fault d at action)
  schedule-Reached d at action m = and_then at action m (omega (arith, Posted-now m))

  lower_script-Reached :
      (evs : List ScriptedEvent) (d : SchedCore M T) → Reached d → Reached (lower_script evs d)
  unfolding lower_script
  lower_script-Reached [] d m = m
  lower_script-Reached (ev ∷ evs) d m =
      lower_script-Reached evs (schedule_fault d ev.at (lower_action ev.action))
        (schedule-Reached d ev.at (lower_action ev.action) m)

  abbrev ReachedSwarm : Swarm M T → Type 0
  ReachedSwarm s = Posted c s.core

  lower_kind-Reached :
      (mode : Mode) (n : ℕ) (k : FaultKind) (s : Swarm M T)
      → ReachedSwarm s
      → ReachedSwarm (lower_kind mode n k s)
  unfolding lower_kind swarm_partition swarm_crash
  lower_kind-Reached mode n (FaultKind.latency start end) s m = m
  lower_kind-Reached mode n (FaultKind.drop p) s m = m
  lower_kind-Reached mode n (FaultKind.duplicate p) s m = m
  lower_kind-Reached mode n FaultKind.reorder s m = m
  lower_kind-Reached mode n FaultKind.partitions s m =
      if_intro ReachedSwarm (leb 2 n) _ _ (λ _. schedule-Reached s.core _ _ m) (λ _. m)
  lower_kind-Reached mode n FaultKind.crash_restart s m =
      let crashed = schedule-Reached s.core _ _ m in
      if_intro ReachedSwarm (is_liveness mode) _ _ (λ _. schedule-Reached _ _ _ crashed)
        (λ _. crashed)

  lower_kinds-Reached :
      (mode : Mode) (n : ℕ) (ks : List FaultKind) (s : Swarm M T)
      → ReachedSwarm s
      → ReachedSwarm (lower_kinds mode n ks s)
  unfolding lower_kinds
  lower_kinds-Reached mode n [] s m = m
  lower_kinds-Reached mode n (k ∷ ks) s m =
      lower_kinds-Reached mode n ks (lower_kind mode n k s) (lower_kind-Reached mode n k s m)

  lower_swarm-Reached :
      (kinds : List FaultKind) (mode : Mode) (n : ℕ) (model : NetworkModel) (rng : SimRng)
      → Reached (lower_swarm kinds mode n model c rng).1
  unfolding lower_swarm
  lower_swarm-Reached kinds mode n model rng =
      let (enabled, rng') = choose_kinds kinds rng in
      let start : Swarm M T = record {
        model = model;
        core = c;
        rng = rng';
        scheduled_partition = Bool.false;
      } in
      let m = lower_kinds-Reached mode n enabled start nothing in
      if_intro {A = NetworkModel × SchedCore M T} (λ r. Reached r.1)
        (is_liveness mode && (lower_kinds mode n enabled start).scheduled_partition) _ _
        (λ _. schedule-Reached _ _ _ m) (λ _. m)

  pub lower-Posted :
      (faults : Option Faults) (model : NetworkModel) (rng : SimRng) (n : ℕ)
      → Posted c (lower faults model c rng n).1
  unfolding lower
  lower-Posted none model rng n = nothing
  lower-Posted (some faults) model rng n = elim (Option-cases (script faults)) [
    | inr (events, e) ↦ rw (e, lower) (lower_script-Reached events c nothing)
    | inl e ↦ elim (Option-cases (swarm_kinds faults)) [
      | inl none_left ↦ rw (e, none_left, lower) nothing
      | inr (kinds, k) ↦ rw (e, k, lower) (lower_swarm-Reached kinds faults.mode n model rng)
    ]
  ]
