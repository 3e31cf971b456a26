-- ===== src/Sim/Driver/Issuing.antt =====
-- Issuing the ops of a run: the indices that are posted.
use propsim.Base.{
  ℕ, zero, suc, ◌+◌, ◌%◌, ◌<◌, ◌≤◌, List, [], ◌∷◌, ◌++◌, arith, All, All-set, All-append,
  get_or-All, length, get_or, set, if_intro, ltb,
}
use propsim.Core.Node.{millis}
use propsim.Core.Plan.{FrozenOp}
use propsim.Sim.Scheduler.{EventKind, schedule_client_op, closed_for}
use propsim.Sim.Scheduler.Addressed.{IsAddressed, enqueue-IsAddressed}
use propsim.Sim.Driver.{Issue, group_ops, issue_next, pump_one, pump_client_ops}

-- The indices of the ops of each process are below the number of ops.

abbrev pub AreIssued : ℕ → List (List ℕ) → Type 0
AreIssued ops queues = All (λ (q : List ℕ). All (λ i. i < ops) q) queues

pub group_ops-AreIssued :
    (n i total : ℕ) (ops : List FrozenOp) (queues : List (List ℕ))
    → i + length ops ≤ total
    → AreIssued total queues
    → AreIssued total (group_ops n i ops queues)
unfolding group_ops
group_ops-AreIssued n i total [] queues l h = h
group_ops-AreIssued n i total (op ∷ ops) queues l h =
    let p = op.process % n in
    group_ops-AreIssued n (suc i) total ops (set queues p (get_or queues p [] ++ i ∷ []))
      (omega arith)
      (All-set _ queues p _
        (All-append (λ k. k < total) (get_or queues p []) (i ∷ []) (get_or-All _ queues p [] tt h)
          (omega arith, tt))
        h)

module _ {M T : Type 0} (n ops : ℕ) (IsMsg : M → Type 0) (IsTag : T → Type 0) where
  -- Issuing ops posts only events for the ops that there are.
  pub record IsIssuing (s : Issue M T) : Type 0 where
    pub core : IsAddressed n ops IsMsg IsTag s.core
    pub queues : AreIssued ops s.per_process

  issue_next-IsIssuing :
      (p : ℕ) (q : List ℕ) (s : Issue M T)
      → All (λ i. i < ops) q
      → IsIssuing s
      → IsIssuing (issue_next p q s)
  unfolding issue_next schedule_client_op
  issue_next-IsIssuing p [] s h i = i
  issue_next-IsIssuing p (idx ∷ rest) s h i = record {
    core =
        enqueue-IsAddressed n ops IsMsg IsTag s.core (s.core.now + millis 1)
          (EventKind.client_op p idx) h.0 i.core;
    queues = All-set (λ (q : List ℕ). All (λ i. i < ops) q) s.per_process p rest h.1 i.queues;
  }

  pub pump-IsIssuing : (k : ℕ) (s : Issue M T) → IsIssuing s → IsIssuing (pump_client_ops k s)
  unfolding pump_client_ops pump_one
  pump-IsIssuing zero s i = i
  pump-IsIssuing (suc k) s i =
      let t = pump_client_ops k s in
      let before = pump-IsIssuing k s i in
      if_intro IsIssuing (ltb (closed_for t.core.history k) (get_or t.scheduled k 0)) t
        (issue_next k (get_or t.per_process k []) t) (λ _. before)
        (λ _.
          issue_next-IsIssuing k (get_or t.per_process k []) t
            (get_or-All (λ (q : List ℕ). All (λ i. i < ops) q) t.per_process k [] tt before.queues)
            before)
