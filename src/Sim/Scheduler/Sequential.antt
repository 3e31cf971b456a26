-- ===== src/Sim/Scheduler/Sequential.antt =====
-- The processes of a history are sequential: the counts of the scheduler's ops that keep them so.
pub mod Rounds
use propsim.Base.{
  ℕ, zero, suc, ◌+◌, ◌≤◌, ◌<◌, ◌==◌, ◌≡◌, refl, ap, ◌∙◌, sym, subst, inl, inr, Bool, true, false,
  not, ◌&&◌, Option, none, some, List, [], ◌∷◌, ◌++◌, arith, All, All-map, ltb, if◌then◌else◌, Text,
  Option-cases, Bool-cases, if_intro,
}
use propsim.Base.Maps.{find, put, remove}
use propsim.History.{History, OpEntry, OpKind, Function, ProcessId}
use propsim.History.Values.{Value}
use propsim.Core.Node.{NodeId, OpToken, Duration}
use propsim.Sim.Scheduler.{
  SchedCore, Scheduled, EventKind, FaultAction, PoppedEvent, PendingOp, is_terminal, closed_for,
  earlier, keep_min, take_min, record_entry, open_op, close_op, enqueue, close_all, tokens, fire,
}
use propsim.Sim.Scheduler.Count.{counted, queued}
use propsim.Sim.Scheduler.Moves.{
  Move, Moves, draw, floor, generation, post, close, here, next, is_client,
}
use propsim.Sim.Scheduler.Turns.{
  turn, after_turn, status, status-append, one_if, closed_for-append, open_for, open_for-put,
  open_for-find, put-All, remove-All, turn_close, turn_open,
}

module _ {M T : Type 0} where
  abbrev pub is_op_of : ProcessId → EventKind M T → Bool
  is_op_of p (EventKind.client_op process index) = process == p
  is_op_of p _ = false

  -- The ops of process `p` that wait in the queue.
  abbrev pub queued_for : ProcessId → List (Scheduled M T) → ℕ
  queued_for p = queued (is_op_of p)

  -- What keeps process `p` sequential when `issued` of its ops have been scheduled: its entries
  -- alternate, and no more than one of its ops is on its way from the queue to its completion.
  pub record Sequential (p : ProcessId) (issued : ℕ) (queue : List (Scheduled M T)) (h : History)
      (m : List (ℕ × PendingOp)) (next_token : ℕ) : Type 0 where
    pub alternates : status p (some false) h ≡ some (ltb 0 (open_for p m))
    pub issued_once : queued_for p queue + open_for p m + closed_for h p ≤ issued
    pub issued_next : issued ≤ suc (closed_for h p)
    pub fresh : All (λ (e : ℕ × PendingOp). e.0 < next_token) m

  abbrev pub IsSequential : ProcessId → ℕ → SchedCore M T → Type 0
  IsSequential p issued c = Sequential p issued c.queue c.history c.pending_ops c.next_token

  enqueue-IsSequential :
      (p : ProcessId) (issued : ℕ) (c : SchedCore M T) (at : Duration) (kind : EventKind M T)
      → is_client kind ≡ false
      → IsSequential p issued c
      → IsSequential p issued (enqueue c at kind)
  unfolding enqueue counted
  enqueue-IsSequential p issued c at (EventKind.client_op process index) h s = cc
  enqueue-IsSequential p issued c at (EventKind.deliver from to msg) h s = record {
    alternates = s.alternates;
    issued_once = omega (arith, s.issued_once);
    issued_next = s.issued_next;
    fresh = s.fresh;
  }
  enqueue-IsSequential p issued c at (EventKind.timer node tag gen) h s = record {
    alternates = s.alternates;
    issued_once = omega (arith, s.issued_once);
    issued_next = s.issued_next;
    fresh = s.fresh;
  }
  enqueue-IsSequential p issued c at (EventKind.fault action) h s = record {
    alternates = s.alternates;
    issued_once = omega (arith, s.issued_once);
    issued_next = s.issued_next;
    fresh = s.fresh;
  }

  close-Sequential :
      (p : ProcessId) (issued : ℕ) (q : List (Scheduled M T)) (h : History)
      (m m' : List (ℕ × PendingOp)) (n : ℕ) (e : OpEntry)
      → is_terminal e.kind ≡ true
      → open_for p m ≡ one_if (e.process == p) + open_for p m'
      → All (λ (x : ℕ × PendingOp). x.0 < n) m'
      → Sequential p issued q h m n
      → Sequential p issued q (h ++ e ∷ []) m' n
  close-Sequential p issued q h m m' n e t fewer k s =
      let few : open_for p m ≤ 1 = omega (arith, s.issued_once, s.issued_next) in
      let count = closed_for-append h e p in
      record {
        alternates =
            status-append p (some false) h e
            ∙ ap (after_turn p e) s.alternates
            ∙ turn_close p e (open_for p m) (open_for p m') t fewer few;
        issued_once = rw (count, t) (let i = s.issued_once in ground arith);
        issued_next = rw count (let i = s.issued_next in ground arith);
        fresh = k;
      }

  open-Sequential :
      (p : ProcessId) (issued : ℕ) (q : List (Scheduled M T)) (h : History)
      (m m' : List (ℕ × PendingOp)) (n : ℕ) (e : OpEntry)
      → is_terminal e.kind ≡ false
      → open_for p m' ≡ one_if (e.process == p) + open_for p m
      → All (λ (x : ℕ × PendingOp). x.0 < suc n) m'
      → queued_for p q + open_for p m' + closed_for h p ≤ issued
      → Sequential p issued q h m n
      → Sequential p issued q (h ++ e ∷ []) m' (suc n)
  open-Sequential p issued q h m m' n e t more k room s =
      let few : open_for p m' ≤ 1 = omega (arith, s.issued_next) in
      let count = closed_for-append h e p in
      record {
        alternates =
            status-append p (some false) h e
            ∙ ap (after_turn p e) s.alternates
            ∙ turn_open p e (open_for p m) (open_for p m') t more few;
        issued_once = rw (count, t) (ground arith);
        issued_next = rw count (let i = s.issued_next in ground arith);
        fresh = k;
      }

  close_op-IsSequential :
      (p : ProcessId) (issued : ℕ) (c : SchedCore M T) (token : OpToken) (kind : OpKind) (v : Value)
      → is_terminal kind ≡ true
      → IsSequential p issued c
      → IsSequential p issued (close_op c token kind v)
  unfolding close_op record_entry
  close_op-IsSequential p issued c token kind v t s =
      elim (Option-cases (find token c.pending_ops)) [
        | inl gone ↦ rw (gone, close_op) s
        | inr (op, found) ↦
            rw (found, close_op)
              (close-Sequential p issued c.queue c.history c.pending_ops
                (remove token c.pending_ops) c.next_token _ t
                (open_for-find p token op c.pending_ops found)
                (remove-All c.next_token token c.pending_ops s.fresh) s)
      ]

  -- There is room for one more op of process `p` that does not wait in the queue any more.
  abbrev pub HasRoom : ProcessId → ℕ → ProcessId → SchedCore M T → Type 0
  HasRoom p issued process c =
      queued_for p c.queue
        + (one_if (process == p) + open_for p c.pending_ops)
        + closed_for c.history p
      ≤ issued

  pub open_op-IsSequential :
      (p : ProcessId) (issued : ℕ) (c : SchedCore M T) (process : ProcessId) (f : Function)
      (v : Value)
      → HasRoom p issued process c
      → IsSequential p issued c
      → IsSequential p issued (open_op c process f v).0
  unfolding open_op record_entry
  open_op-IsSequential p issued c process f v room s =
      let op : PendingOp = record { process = process; f = f } in
      let more = open_for-put p c.next_token op c.pending_ops s.fresh in
      open-Sequential p issued c.queue c.history c.pending_ops (put c.next_token op c.pending_ops)
        c.next_token _ refl more
        (put-All (suc c.next_token) c.next_token op c.pending_ops (omega arith) (
          All-map (λ (x : ℕ × PendingOp). x.0 < c.next_token) _ c.pending_ops (λ x l. omega arith)
            s.fresh))
        (omega arith) s

  Move-IsSequential :
      (p : ProcessId) (issued : ℕ) {c d : SchedCore M T}
      → Move c d
      → IsSequential p issued c
      → IsSequential p issued d
  Move-IsSequential p issued (draw rng) s = s
  Move-IsSequential p issued (floor links) s = s
  Move-IsSequential p issued (generation gens) s = s
  Move-IsSequential p issued {c} (post at kind h k) s = enqueue-IsSequential p issued c at kind k s
  Move-IsSequential p issued {c} (close token kind v k) s =
      close_op-IsSequential p issued c token kind v k s

  pub Moves-IsSequential :
      (p : ProcessId) (issued : ℕ) {c d : SchedCore M T}
      → Moves c d
      → IsSequential p issued c
      → IsSequential p issued d
  Moves-IsSequential p issued here s = s
  Moves-IsSequential p issued (next m n) s =
      Move-IsSequential p issued n (Moves-IsSequential p issued m s)
