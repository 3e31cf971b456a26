-- ===== src/Core/Faults/Builder.antt =====
-- crates/propsim-core/src/faults.rs: the verbs that build a fault description.
use propsim.Base.{ℕ, ◌≡◌, refl, sym, ap, ◌∙◌, Bool, true, false, none, some, List, [], ◌∷◌, ◌++◌}
use mathlib.Core.List.{append_assoc, append-nil}
use propsim.Core.Node.{NodeId, Duration}
use propsim.Core.Transport.{Prob}
use propsim.Core.Faults.{
  Mode, FaultKind, ScriptedAction, ScriptedEvent, FaultSpec, swarm_spec, scripted_spec, Faults,
  swarm, scripted, set_mode, swarm_kinds, script, push_kind, commit, kinds_of, script_of, add_kind,
  add_event,
}

unfoldable pub get_mode : Faults → Mode
get_mode f = f.mode

abbrev spec_is_swarm : FaultSpec → Bool
spec_is_swarm (swarm_spec kinds) = true
spec_is_swarm (scripted_spec events) = false

unfoldable pub is_swarm : Faults → Bool
is_swarm f = spec_is_swarm f.spec

-- The verbs of a swarm.

unfoldable pub partitions : Faults → Faults
partitions f = push_kind f FaultKind.partitions

unfoldable pub crash_restart : Faults → Faults
crash_restart f = push_kind f FaultKind.crash_restart

unfoldable pub latency_ms : Faults → ℕ → ℕ → Faults
latency_ms f start end = push_kind f (FaultKind.latency start end)

unfoldable pub drop : Faults → Prob → Faults
drop f p = push_kind f (FaultKind.drop p)

unfoldable pub duplicate : Faults → Prob → Faults
duplicate f p = push_kind f (FaultKind.duplicate p)

unfoldable pub reorder : Faults → Faults
reorder f = push_kind f FaultKind.reorder

-- A step of a script, bound to its time.

pub record ScriptStep : Type 0 where
  pub faults : Faults
  pub at : Duration

unfoldable pub step_at : Faults → Duration → ScriptStep
step_at f at = record { faults = f; at = at }

unfoldable pub partition : ScriptStep → List NodeId → List NodeId → Faults
partition s a b = commit s.faults s.at (ScriptedAction.partition a b)

unfoldable pub heal_all : ScriptStep → Faults
heal_all s = commit s.faults s.at ScriptedAction.heal_all

unfoldable pub crash : ScriptStep → NodeId → Faults
crash s node = commit s.faults s.at (ScriptedAction.crash node)

unfoldable pub restart : ScriptStep → NodeId → Faults
restart s node = commit s.faults s.at (ScriptedAction.restart node)

-- A call of the builder: a kind of a swarm, an action of a script, or the mode.
pub data Verb : Type 0 where
  enable : FaultKind → Verb
  act : Duration → ScriptedAction → Verb
  in_mode : Mode → Verb

abbrev enabled : Faults → FaultKind → Faults
enabled f FaultKind.partitions = partitions f
enabled f FaultKind.crash_restart = crash_restart f
enabled f (FaultKind.latency start end) = latency_ms f start end
enabled f (FaultKind.drop p) = drop f p
enabled f (FaultKind.duplicate p) = duplicate f p
enabled f FaultKind.reorder = reorder f

abbrev acted : ScriptStep → ScriptedAction → Faults
acted s (ScriptedAction.partition a b) = partition s a b
acted s ScriptedAction.heal_all = heal_all s
acted s (ScriptedAction.crash node) = crash s node
acted s (ScriptedAction.restart node) = restart s node

abbrev called : Faults → Verb → Faults
called f (enable k) = enabled f k
called f (act at action) = acted (step_at f at) action
called f (in_mode m) = set_mode f m

-- A chain of calls.
unfoldable pub build : Faults → List Verb → Faults
build f [] = f
build f (v ∷ vs) = build (called f v) vs

abbrev pub kinds_in : List Verb → List FaultKind
kinds_in [] = []
kinds_in (enable k ∷ vs) = k ∷ kinds_in vs
kinds_in (v ∷ vs) = kinds_in vs

abbrev pub events_in : List Verb → List ScriptedEvent
events_in [] = []
events_in (act at action ∷ vs) = record { at = at; action = action } ∷ events_in vs
events_in (v ∷ vs) = events_in vs

enabled-push_kind : (f : Faults) (k : FaultKind) → enabled f k ≡ push_kind f k
unfolding partitions crash_restart latency_ms drop duplicate reorder
enabled-push_kind f FaultKind.partitions = refl
enabled-push_kind f FaultKind.crash_restart = refl
enabled-push_kind f (FaultKind.latency start end) = refl
enabled-push_kind f (FaultKind.drop p) = refl
enabled-push_kind f (FaultKind.duplicate p) = refl
enabled-push_kind f FaultKind.reorder = refl

acted-commit : (s : ScriptStep) (a : ScriptedAction) → acted s a ≡ commit s.faults s.at a
unfolding partition heal_all crash restart
acted-commit s (ScriptedAction.partition a b) = refl
acted-commit s ScriptedAction.heal_all = refl
acted-commit s (ScriptedAction.crash node) = refl
acted-commit s (ScriptedAction.restart node) = refl

abbrev pub mode_in : Mode → List Verb → Mode
mode_in m [] = m
mode_in m (in_mode n ∷ vs) = mode_in n vs
mode_in m (v ∷ vs) = mode_in m vs

build-swarm :
    (vs : List Verb) (f : Faults) (ks : List FaultKind)
    → f.spec ≡ swarm_spec ks
    → (build f vs).spec ≡ swarm_spec (ks ++ kinds_in vs)
unfolding build set_mode step_at push_kind commit
build-swarm [] f ks e = e ∙ ap (λ l. swarm_spec l) (sym (append-nil ks))
build-swarm (enable k ∷ vs) f ks e =
    rw (enabled-push_kind f k, build)
      (build-swarm vs (push_kind f k) (ks ++ k ∷ []) (ap (add_kind k) e))
    ∙ ap (λ l. swarm_spec l) (append_assoc ks (k ∷ []) (kinds_in vs))
build-swarm (act at action ∷ vs) f ks e =
    rw (acted-commit (step_at f at) action, build)
      (build-swarm vs (commit f at action) ks
        (ap (add_event (record { at = at; action = action })) e))
build-swarm (in_mode m ∷ vs) f ks e = build-swarm vs (set_mode f m) ks e

build-scripted :
    (vs : List Verb) (f : Faults) (evs : List ScriptedEvent)
    → f.spec ≡ scripted_spec evs
    → (build f vs).spec ≡ scripted_spec (evs ++ events_in vs)
unfolding build set_mode step_at push_kind commit
build-scripted [] f evs e = e ∙ ap (λ l. scripted_spec l) (sym (append-nil evs))
build-scripted (enable k ∷ vs) f evs e =
    rw (enabled-push_kind f k, build) (build-scripted vs (push_kind f k) evs (ap (add_kind k) e))
build-scripted (act at action ∷ vs) f evs e =
    let ev : ScriptedEvent = record { at = at; action = action } in
    rw (acted-commit (step_at f at) action, build)
      (build-scripted vs (commit f at action) (evs ++ ev ∷ []) (ap (add_event ev) e))
    ∙ ap (λ l. scripted_spec l) (append_assoc evs (ev ∷ []) (events_in vs))
build-scripted (in_mode m ∷ vs) f evs e = build-scripted vs (set_mode f m) evs e

build-mode : (vs : List Verb) (f : Faults) → get_mode (build f vs) ≡ mode_in (get_mode f) vs
unfolding build set_mode step_at push_kind commit get_mode
build-mode [] f = refl
build-mode (enable k ∷ vs) f = rw (enabled-push_kind f k, build) (build-mode vs (push_kind f k))
build-mode (act at action ∷ vs) f =
    rw (acted-commit (step_at f at) action) (build-mode vs (commit f at action))
build-mode (in_mode m ∷ vs) f = build-mode vs (set_mode f m)

-- However the calls of the builder are mixed, a swarm has the kinds of its own calls, in their
-- order, and no script, a script has the events of its own calls, in their order, and no kinds, and
-- either is in the mode that was set last.
pub build-regime :
    (vs : List Verb)
    → ((swarm_kinds (build swarm vs) ≡ some (kinds_in vs))
        × (script (build swarm vs) ≡ none)
        × (is_swarm (build swarm vs) ≡ true)
        × (get_mode (build swarm vs) ≡ mode_in (get_mode swarm) vs))
      × ((script (build scripted vs) ≡ some (events_in vs))
          × (swarm_kinds (build scripted vs) ≡ none)
          × (is_swarm (build scripted vs) ≡ false)
          × (get_mode (build scripted vs) ≡ mode_in (get_mode scripted) vs))
unfolding swarm_kinds script is_swarm swarm scripted
build-regime vs =
    let sw = build-swarm vs swarm [] refl in
    let sc = build-scripted vs scripted [] refl in
    (
      (ap kinds_of sw, ap script_of sw, ap spec_is_swarm sw, build-mode vs swarm),
      (ap script_of sc, ap kinds_of sc, ap spec_is_swarm sc, build-mode vs scripted),
    )
