-- ===== src/Sim/Scheduler/Sequential/Rounds.antt =====
-- `pop` and the end of a run keep the processes sequential.
use propsim.Base.{
  ==_iff, ℕ, ◌+◌, ◌≤◌, ◌≡◌, refl, Option, none, some, List, [], ◌∷◌, ◌++◌, Text, arith,
  if◌then◌else◌,
}
use propsim.Base.Maps.{find, remove, contains}
use propsim.History.{ProcessId, OpKind}
use propsim.History.Values.{Value}
use propsim.Sim.Scheduler.{
  SchedCore, Scheduled, EventKind, FaultAction, PoppedEvent, PendingOp, closed_for, take_min,
  apply_fault, close_all, close_op, record_entry, victims, tokens, force_close_pending, fire, pop,
}
use propsim.Sim.Scheduler.Moves.{close_all-Moves}
use propsim.Sim.Scheduler.Rule.{pop-Rule, advanced}
use propsim.Sim.Scheduler.Pop.{Fires, deliver, timer, client_op, fault, fire-some}
use propsim.Sim.Scheduler.Turns.{one_if, open_for}
use propsim.Sim.Scheduler.Count.{queued-taken}
use propsim.Sim.Scheduler.Sequential.{
  is_op_of, queued_for, IsSequential, HasRoom, Moves-IsSequential,
}

module _ {M T : Type 0} (p : ProcessId) (issued : ℕ) where
  -- A popped client op of a process leaves room for it.
  abbrev pub Ready : SchedCore M T × Option (PoppedEvent M T) → Type 0
  Ready (d, none) = IsSequential p issued d
  Ready (d, some (PoppedEvent.client_op process index)) =
      IsSequential p issued d × HasRoom p issued process d
  Ready (d, some _) = IsSequential p issued d

  apply_fault-IsSequential :
      (c : SchedCore M T) (action : FaultAction)
      → IsSequential p issued c
      → IsSequential p issued (apply_fault c action).0
  unfolding apply_fault
  apply_fault-IsSequential c (FaultAction.partition a b) s = s
  apply_fault-IsSequential c FaultAction.heal_all s = s
  apply_fault-IsSequential c (FaultAction.restart n) s = s
  apply_fault-IsSequential c (FaultAction.crash n) s =
      let d = record c {
        crashed = if contains n c.crashed then c.crashed else c.crashed ++ n ∷ [];
      } in
      Moves-IsSequential p issued (close_all-Moves d (victims n d.pending_ops)) s

  fire-Ready :
      (debug : T → Text) (c : SchedCore M T) (kind : EventKind M T) (e : PoppedEvent M T)
      → Fires debug c kind e
      → one_if (is_op_of p kind)
          + queued_for p c.queue
          + open_for p c.pending_ops
          + closed_for c.history p
        ≤ issued
      → IsSequential p issued c
      → Ready ((fire debug c kind).0, some e)
  unfolding fire
  fire-Ready debug c _ _ (deliver from to msg up) room s = s
  fire-Ready debug c _ _ (timer node tag gen current up) room s = s
  fire-Ready debug c _ _ (client_op process index) room s = (s, omega arith)
  fire-Ready debug c _ _ (fault action) room s = apply_fault-IsSequential c action s

  advanced-IsSequential :
      (debug : T → Text) (c : SchedCore M T) (ev : Scheduled M T) (rest : List (Scheduled M T))
      → take_min c.queue ≡ some (ev, rest)
      → IsSequential p issued c
      → IsSequential p issued (advanced debug c ev rest)
        × (one_if (is_op_of p ev.kind)
              + queued_for p rest
              + open_for p c.pending_ops
              + closed_for c.history p
            ≤ issued)
  advanced-IsSequential debug c ev rest taken s =
      let split = queued-taken (is_op_of p) c.queue ev rest taken in
      (
        record {
          alternates = s.alternates;
          issued_once = omega (arith, s.issued_once);
          issued_next = s.issued_next;
          fresh = s.fresh;
        },
        omega (arith, s.issued_once),
      )

  pub pop-Ready :
      (debug : T → Text) (c : SchedCore M T) → IsSequential p issued c → Ready (pop debug c)
  pop-Ready debug c s =
      pop-Rule debug (λ d. IsSequential p issued d) Ready
        (record {
          drain = λ d i empty. i;
          stop = λ d ev rest i taken late.
              let (i', room) = advanced-IsSequential debug d ev rest taken i in
              record {
                alternates = i'.alternates;
                issued_once = i'.issued_once;
                issued_next = i'.issued_next;
                fresh = i'.fresh;
              };
          hand = λ d ev rest e i taken early out.
              let (i', room) = advanced-IsSequential debug d ev rest taken i in
              fire-Ready debug (advanced debug d ev rest) ev.kind e
                (fire-some debug (advanced debug d ev rest) ev.kind e out) room i';
          skip = λ d ev rest i taken early out. (advanced-IsSequential debug d ev rest taken i).0;
        })
        c s

module _ {M T : Type 0} where
  close_op-first :
      (c : SchedCore M T) (k : ℕ) (op : PendingOp) (m : List (ℕ × PendingOp))
      → c.pending_ops ≡ (k, op) ∷ m
      → (close_op c k OpKind.info Value.nil).pending_ops ≡ m
  unfolding close_op find remove record_entry
  close_op-first c k op m e =
      let same = (==_iff k k).1 refl in
      let found : find k c.pending_ops ≡ some op = rw (e, same) refl in
      rw (found, close_op, e, same) refl

  -- Closing every open op leaves none open.
  close_all-tokens :
      (c : SchedCore M T) (m : List (ℕ × PendingOp))
      → c.pending_ops ≡ m
      → (close_all c (tokens m)).pending_ops ≡ []
  unfolding close_all tokens
  close_all-tokens c [] e = e
  close_all-tokens c ((k, op) ∷ m) e =
      close_all-tokens (close_op c k OpKind.info Value.nil) m (close_op-first c k op m e)

  pub force_close_pending-empty : (c : SchedCore M T) → (force_close_pending c).pending_ops ≡ []
  unfolding force_close_pending
  force_close_pending-empty c = close_all-tokens c c.pending_ops refl
