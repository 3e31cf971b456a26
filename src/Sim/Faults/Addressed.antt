-- ===== src/Sim/Faults/Addressed.antt =====
-- Which nodes the faults that are lowered start again.
use propsim.Base.{
  ℕ, ◌≤◌, inl, inr, max, Bool, ◌&&◌, Option, none, some, List, [], ◌∷◌, arith, All, leb, if_intro,
  subst, Option-cases,
}
use propsim.Core.Transport.{NetworkModel}
use propsim.Core.Node.{Duration}
use propsim.Core.Faults.{Mode, FaultKind, ScriptedEvent, Faults, script, swarm_kinds}
use propsim.Sim.Rng.{SimRng, range_u64}
use propsim.Sim.Scheduler.{SchedCore, FaultAction, EventKind, schedule_fault}
use propsim.Sim.Scheduler.Addressed.{IsFaultIn, IsAddressed, enqueue-IsAddressed}
use propsim.Sim.Faults.Liveness.{range_u64-bounds}
use propsim.Sim.Faults.{
  Swarm, is_liveness, lower_action, lower_script, swarm_partition, swarm_crash, lower_kind,
  lower_kinds, choose_kinds, lower_swarm, lower,
}

-- A script, if there is one, starts again only nodes of the `n`.

abbrev pub IsScriptIn : ℕ → Option (List ScriptedEvent) → Type 0
IsScriptIn n none = Unit {0}
IsScriptIn n (some events) =
    All (λ (ev : ScriptedEvent). IsFaultIn n (lower_action ev.action)) events

abbrev pub AreFaultsIn : ℕ → Option Faults → Type 0
AreFaultsIn n none = Unit {0}
AreFaultsIn n (some faults) = IsScriptIn n (script faults)

module _ {M T : Type 0} (n ops : ℕ) (some_node : 1 ≤ n) (IsMsg : M → Type 0)
    (IsTag : T → Type 0) where
  abbrev Addressed : SchedCore M T → Type 0
  Addressed c = IsAddressed n ops IsMsg IsTag c

  pub schedule_fault-IsAddressed :
      (c : SchedCore M T) (at : Duration) (action : FaultAction)
      → IsFaultIn n action
      → Addressed c
      → Addressed (schedule_fault c at action)
  unfolding schedule_fault
  schedule_fault-IsAddressed c at action h i =
      enqueue-IsAddressed n ops IsMsg IsTag c at (EventKind.fault action) h i

  lower_script-IsAddressed :
      (events : List ScriptedEvent) (c : SchedCore M T)
      → IsScriptIn n (some events)
      → Addressed c
      → Addressed (lower_script events c)
  unfolding lower_script
  lower_script-IsAddressed [] c h i = i
  lower_script-IsAddressed (ev ∷ events) c h i =
      lower_script-IsAddressed events (schedule_fault c ev.at (lower_action ev.action)) h.1
        (schedule_fault-IsAddressed c ev.at (lower_action ev.action) h.0 i)

  abbrev IsSwarmIn : Swarm M T → Type 0
  IsSwarmIn s = Addressed s.core

  lower_kind-IsAddressed :
      (mode : Mode) (k : FaultKind) (s : Swarm M T)
      → IsSwarmIn s
      → IsSwarmIn (lower_kind mode n k s)
  unfolding lower_kind swarm_partition swarm_crash
  lower_kind-IsAddressed mode (FaultKind.latency start end) s i = i
  lower_kind-IsAddressed mode (FaultKind.drop p) s i = i
  lower_kind-IsAddressed mode (FaultKind.duplicate p) s i = i
  lower_kind-IsAddressed mode FaultKind.reorder s i = i
  lower_kind-IsAddressed mode FaultKind.partitions s i =
      if_intro IsSwarmIn (leb 2 n) _ s (λ _. schedule_fault-IsAddressed s.core _ _ tt i) (λ _. i)
  lower_kind-IsAddressed mode FaultKind.crash_restart s i =
      let (low, high) = range_u64-bounds s.rng 0 (max n 1) (omega arith) in
      let crashed =
        schedule_fault-IsAddressed s.core _ (FaultAction.crash (range_u64 s.rng 0 (max n 1)).0) tt
          i in
      if_intro IsSwarmIn (is_liveness mode) _ _
        (λ _.
          schedule_fault-IsAddressed _ _ (FaultAction.restart (range_u64 s.rng 0 (max n 1)).0)
            (omega arith) crashed)
        (λ _. crashed)

  lower_kinds-IsAddressed :
      (mode : Mode) (ks : List FaultKind) (s : Swarm M T)
      → IsSwarmIn s
      → IsSwarmIn (lower_kinds mode n ks s)
  unfolding lower_kinds
  lower_kinds-IsAddressed mode [] s i = i
  lower_kinds-IsAddressed mode (k ∷ ks) s i =
      lower_kinds-IsAddressed mode ks (lower_kind mode n k s) (lower_kind-IsAddressed mode k s i)

  lower_swarm-IsAddressed :
      (kinds : List FaultKind) (mode : Mode) (model : NetworkModel) (c : SchedCore M T)
      (rng : SimRng)
      → Addressed c
      → Addressed (lower_swarm kinds mode n model c rng).1
  unfolding lower_swarm
  lower_swarm-IsAddressed kinds mode model c rng i =
      let (enabled, rng') = choose_kinds kinds rng in
      let start : Swarm M T = record {
        model = model;
        core = c;
        rng = rng';
        scheduled_partition = Bool.false;
      } in
      let m = lower_kinds-IsAddressed mode enabled start i in
      if_intro {A = NetworkModel × SchedCore M T} (λ r. Addressed r.1)
        (is_liveness mode && (lower_kinds mode n enabled start).scheduled_partition) _ _
        (λ _. schedule_fault-IsAddressed _ _ FaultAction.heal_all tt m) (λ _. m)

  pub lower-IsAddressed :
      (faults : Option Faults) (model : NetworkModel) (c : SchedCore M T) (rng : SimRng)
      → AreFaultsIn n faults
      → Addressed c
      → Addressed (lower faults model c rng n).1
  unfolding lower
  lower-IsAddressed none model c rng h i = i
  lower-IsAddressed (some faults) model c rng h i = elim (Option-cases (script faults)) [
    | inr (events, e) ↦
        rw (e, lower) (lower_script-IsAddressed events c (subst (IsScriptIn n) e h) i)
    | inl e ↦ elim (Option-cases (swarm_kinds faults)) [
      | inl none_left ↦ rw (e, none_left, lower) i
      | inr (kinds, k) ↦ rw (e, k, lower) (lower_swarm-IsAddressed kinds faults.mode model c rng i)
    ]
  ]
