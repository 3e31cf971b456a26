-- ===== src/Sim/Scheduler.antt =====
-- crates/propsim-sim/src/scheduler.rs: the state of the discrete-event scheduler and its
-- operations. The source's sequence numbers, tokens and generations are u64 counters that grow by
-- one a call, and are plain numbers here.
pub mod Moves
pub mod Calls
pub mod Queue
pub mod Count
pub mod Sending
pub mod Kept
pub mod Addressed
pub mod Load
pub mod Generations
pub mod Timers
pub mod Rearranged
pub mod Fifo
pub mod Rule
pub mod Pop
pub mod Turns
pub mod Sequential
pub mod Time
use propsim.Base.{
  ℕ, zero, suc, ◌+◌, ◌-◌, ◌^◌, max, min, Bool, true, false, not, ◌&&◌, ◌||◌, Option, none, some,
  List, [], ◌∷◌, ◌++◌, Text, ltb, leb, ◌==◌, if◌then◌else◌, length,
}
use propsim.Base.Maps.{lookup, insert, find, put, remove, contains, link_keys, tag_keys}
use propsim.History.{History, OpKind, Function, ProcessId, virtual_nanos}
use propsim.History.Values.{Value, ℤ, pos}
use propsim.Core.Node.{NodeId, OpToken, Duration, secs, millis}
use propsim.Core.Transport.{NetworkModel}
use propsim.Sim.Rng.{SimRng, chance, range_u64, new}

pub data RunEvent : Type 0 where
  network_healed : Duration → RunEvent
  node_rejoined : Duration → NodeId → RunEvent

pub data FaultAction : Type 0 where
  partition : List NodeId → List NodeId → FaultAction
  heal_all : FaultAction
  crash restart : NodeId → FaultAction

pub data EventKind (M T : Type 0) : Type 0 where
  deliver : NodeId → NodeId → M → EventKind M T
  timer : NodeId → T → ℕ → EventKind M T
  client_op : NodeId → ℕ → EventKind M T
  fault : FaultAction → EventKind M T

pub record Scheduled (M T : Type 0) : Type 0 where
  pub at : Duration
  pub seq : ℕ
  pub kind : EventKind M T

-- `Ord::cmp` is `Less`: smaller `at` first, then smaller `seq`.
unfoldable pub earlier : {M T : Type 0} → Scheduled M T → Scheduled M T → Bool
earlier x y = ltb x.at y.at || (x.at == y.at && ltb x.seq y.seq)

-- The earlier of an event and the least of the others.
unfoldable pub keep_min :
    {M T : Type 0}
    → Scheduled M T
    → Option (Scheduled M T × List (Scheduled M T))
    → Option (Scheduled M T × List (Scheduled M T))
keep_min x none = some (x, [])
keep_min x (some (y, rest)) = if earlier y x then some (y, x ∷ rest) else some (x, y ∷ rest)

-- `BinaryHeap::pop` on the reversed order: an event that no other precedes, and the rest.
unfoldable pub take_min :
    {M T : Type 0} → List (Scheduled M T) → Option (Scheduled M T × List (Scheduled M T))
take_min [] = none
take_min (x ∷ xs) = keep_min x (take_min xs)

pub record PendingOp : Type 0 where
  pub process : ProcessId
  pub f : Function

-- `M` and `T` are the node's messages and timer tags.
pub record SchedCore (M T : Type 0) : Type 0 where
  pub now : Duration
  pub rng : SimRng
  pub model : NetworkModel
  pub horizon : Duration
  pub queue : List (Scheduled M T)
  pub seq : ℕ
  pub timer_gen : List ((ℕ × Text) × ℕ)
  pub partitions : List (List NodeId)
  pub crashed : List NodeId
  pub last_link : List ((ℕ × ℕ) × Duration)
  pub history : History
  pub events : List RunEvent
  pub pending_ops : List (ℕ × PendingOp)
  pub next_token : ℕ
  pub node_count : ℕ

pub data PoppedEvent (M T : Type 0) : Type 0 where
  deliver : NodeId → NodeId → M → PoppedEvent M T
  timer : NodeId → T → PoppedEvent M T
  client_op : NodeId → ℕ → PoppedEvent M T
  fault : Option NodeId → PoppedEvent M T

-- Saturates at `i64::MAX`.
unfoldable pub now_nanos : Duration → ℤ
now_nanos t = pos (min t (2 ^ 63 - 1))

abbrev pub or_zero : Option ℕ → ℕ
or_zero none = 0
or_zero (some n) = n

-- Whether some partition group holds both nodes.
unfoldable pub share_group : List (List NodeId) → NodeId → NodeId → Bool
share_group [] a b = false
share_group (g ∷ gs) a b = contains a g && contains b g || share_group gs a b

abbrev pub is_terminal : OpKind → Bool
is_terminal OpKind.invoke = false
is_terminal _ = true

unfoldable pub closed_for : History → ProcessId → ℕ
closed_for [] p = 0
closed_for (e ∷ h) p =
    if e.process == p && is_terminal e.kind then suc (closed_for h p) else closed_for h p

-- The nodes 0 to n - 1 but `me`.
unfoldable pub others_below : ℕ → NodeId → List NodeId
others_below zero me = []
others_below (suc n) me = others_below n me ++ (if n == me then [] else n ∷ [])

-- `retain(|&c| c != n)`.
unfoldable pub without : NodeId → List NodeId → List NodeId
without n [] = []
without n (c ∷ cs) = if c == n then without n cs else c ∷ without n cs

-- The tokens of the open ops of process `n`, in order.
unfoldable pub victims : NodeId → List (ℕ × PendingOp) → List OpToken
victims n [] = []
victims n ((k, p) ∷ m) = if p.process == n then k ∷ victims n m else victims n m

unfoldable pub tokens : List (ℕ × PendingOp) → List OpToken
tokens [] = []
tokens ((k, p) ∷ m) = k ∷ tokens m

module _ {M T : Type 0} where
  unfoldable pub init : ℕ → NetworkModel → ℕ → SchedCore M T
  init seed model node_count = record {
    now = 0;
    rng = new seed;
    model = model;
    horizon = secs 10;
    queue = [];
    seq = 0;
    timer_gen = [];
    partitions = [];
    crashed = [];
    last_link = [];
    history = [];
    events = [];
    pending_ops = [];
    next_token = 0;
    node_count = node_count;
  }

  -- `history.push` at the current virtual time.
  unfoldable pub record_entry :
      SchedCore M T → OpKind → ProcessId → Function → Value → SchedCore M T
  record_entry c kind process f value = record c {
    history =
        c.history
        ++ (record {
          index = length c.history;
          time = virtual_nanos (now_nanos c.now);
          kind = kind;
          process = process;
          f = f;
          value = value;
        }
            ∷ []);
  }

  unfoldable pub open_op : SchedCore M T → ProcessId → Function → Value → SchedCore M T × OpToken
  open_op c process f value =
      let d = record_entry c OpKind.invoke process f value in
      let op : PendingOp = record { process = process; f = f } in
      (
        record d { next_token = suc c.next_token; pending_ops = put c.next_token op c.pending_ops },
        c.next_token,
      )

  -- A no-op on a token that is not open.
  unfoldable pub close_op : SchedCore M T → OpToken → OpKind → Value → SchedCore M T
  close_op c token kind value = elim (find token c.pending_ops) [
    | none ↦ c
    | some p ↦
        record_entry (record c { pending_ops = remove token c.pending_ops }) kind p.process p.f
          value
  ]

  unfoldable pub pending_f : SchedCore M T → OpToken → Option Function
  pending_f c token = elim (find token c.pending_ops) [ none ↦ none | some p ↦ some p.f ]

  unfoldable pub enqueue : SchedCore M T → Duration → EventKind M T → SchedCore M T
  enqueue c at kind = record c {
    queue = record { at = at; seq = c.seq; kind = kind } ∷ c.queue;
    seq = suc c.seq;
  }

  unfoldable pub connected : SchedCore M T → NodeId → NodeId → Bool
  connected c a b =
      if contains a c.crashed || contains b c.crashed
      then false
      else elim c.partitions [ [] ↦ true | _ ∷ _ ↦ share_group c.partitions a b ]

  unfoldable pub sample_delay : SchedCore M T → Duration × SimRng
  sample_delay c =
      let (n, rng) =
        range_u64 c.rng c.model.delay_start (max c.model.delay_end c.model.delay_start) in
      (millis n, rng)

  -- The delivery time under FIFO, and the link's new floor.
  unfoldable pub order_link : SchedCore M T → NodeId → NodeId → Duration → SchedCore M T × Duration
  order_link c from to at =
      if c.model.ordered
      then (let at' = max at (or_zero (lookup link_keys (from, to) c.last_link)) in
          (record c { last_link = insert link_keys (from, to) at' c.last_link }, at'))
      else (c, at)

  -- The copy, or the two copies, of a message that was not dropped.
  unfoldable pub enqueue_copies : SchedCore M T → NodeId → NodeId → M → Duration → SchedCore M T
  enqueue_copies c from to msg at =
      let (dup, rng) = chance c.rng c.model.duplicate in
      let d = enqueue (record c { rng = rng }) at (EventKind.deliver from to msg) in
      if dup then enqueue d at (EventKind.deliver from to msg) else d

  unfoldable pub schedule_delivery : SchedCore M T → NodeId → NodeId → M → SchedCore M T
  schedule_delivery c from to msg =
      if not (connected c from to)
      then c
      else (let (lost, rng) = chance c.rng c.model.loss in
          let d = record c { rng = rng } in
          if lost
          then d
          else (let (base, rng') = sample_delay d in
              let (e, at) = order_link (record d { rng = rng' }) from to (d.now + base) in
              enqueue_copies e from to msg at))

  -- What `HarnessCtx` calls; two more of these are below.
  abbrev pub ctx_send : SchedCore M T → NodeId → NodeId → M → SchedCore M T
  ctx_send c from to msg = schedule_delivery c from to msg

  unfoldable pub current_gen : SchedCore M T → NodeId → Text → ℕ
  current_gen c node tag = or_zero (lookup tag_keys (node, tag) c.timer_gen)

  unfoldable pub bump_gen : SchedCore M T → NodeId → Text → SchedCore M T
  bump_gen c node tag = record c {
    timer_gen = insert tag_keys (node, tag) (suc (current_gen c node tag)) c.timer_gen;
  }

  -- `close_op(OpToken(k), OpKind::Info, Value::Nil)` for each token.
  unfoldable pub close_all : SchedCore M T → List OpToken → SchedCore M T
  close_all c [] = c
  close_all c (k ∷ ks) = close_all (close_op c k OpKind.info Value.nil) ks

  unfoldable pub apply_fault : SchedCore M T → FaultAction → SchedCore M T × Option NodeId
  apply_fault c (partition a b) = (record c { partitions = a ∷ b ∷ [] }, none)
  apply_fault c heal_all =
      (record c { partitions = []; events = c.events ++ network_healed c.now ∷ [] }, none)
  apply_fault c (crash n) =
      let d = record c {
        crashed = if contains n c.crashed then c.crashed else c.crashed ++ n ∷ [];
      } in
      (close_all d (victims n d.pending_ops), none)
  apply_fault c (restart n) = (
    record c { crashed = without n c.crashed; events = c.events ++ node_rejoined c.now n ∷ [] },
    some n,
  )

  unfoldable pub peers : SchedCore M T → NodeId → List NodeId
  peers c me = others_below c.node_count me

  unfoldable pub schedule_fault : SchedCore M T → Duration → FaultAction → SchedCore M T
  schedule_fault c at action = enqueue c at (EventKind.fault action)

  unfoldable pub schedule_client_op : SchedCore M T → Duration → NodeId → ℕ → SchedCore M T
  schedule_client_op c at process index = enqueue c at (EventKind.client_op process index)

  unfoldable pub force_close_pending : SchedCore M T → SchedCore M T
  force_close_pending c = close_all c (tokens c.pending_ops)

-- `debug` is the `Debug` form of a timer tag.
module _ {M T : Type 0} (debug : T → Text) where
  unfoldable pub arm_timer : SchedCore M T → NodeId → T → Duration → SchedCore M T
  arm_timer c node tag after =
      let d = bump_gen c node (debug tag) in
      enqueue d (d.now + after) (EventKind.timer node tag (current_gen d node (debug tag)))

  unfoldable pub cancel_timer : SchedCore M T → NodeId → T → SchedCore M T
  cancel_timer c node tag = bump_gen c node (debug tag)

  unfoldable pub timer_is_current : SchedCore M T → NodeId → T → ℕ → Bool
  timer_is_current c node tag gen = current_gen c node (debug tag) == gen

  -- The `match` of `pop` on an event whose time has come: the event that is handed to the driver,
  -- if it is not skipped.
  unfoldable pub fire : SchedCore M T → EventKind M T → SchedCore M T × Option (PoppedEvent M T)
  fire c (timer node tag gen) = (
    c,
    if timer_is_current c node tag gen && not (contains node c.crashed)
        then some (PoppedEvent.timer node tag)
        else none,
  )
  fire c (deliver from to msg) =
      (c, if not (contains to c.crashed) then some (PoppedEvent.deliver from to msg) else none)
  fire c (client_op process index) = (c, some (PoppedEvent.client_op process index))
  fire c (fault action) =
      let (d, rejoined) = apply_fault c action in (d, some (PoppedEvent.fault rejoined))

  -- The loop of `pop`. Each round takes one event off the queue and adds none, so the length of
  -- the queue is fuel enough.
  unfoldable pub pop_loop : ℕ → SchedCore M T → SchedCore M T × Option (PoppedEvent M T)
  pop_loop zero c = (c, none)
  pop_loop (suc fuel) c = elim (take_min c.queue) [
    | none ↦ (c, none)
    | some (ev, rest) ↦
        if leb c.horizon ev.at
        then (record c { queue = rest; now = c.horizon }, none)
        else (let (d, fired) = fire (record c { queue = rest; now = ev.at }) ev.kind in
            elim fired [ some e ↦ (d, some e) | none ↦ pop_loop fuel d ])
  ]

  unfoldable pub pop : SchedCore M T → SchedCore M T × Option (PoppedEvent M T)
  pop c = pop_loop (length c.queue) c

  abbrev pub ctx_set_timer : SchedCore M T → NodeId → T → Duration → SchedCore M T
  ctx_set_timer c node tag after = arm_timer c node tag after

  abbrev pub ctx_cancel_timer : SchedCore M T → NodeId → T → SchedCore M T
  ctx_cancel_timer c node tag = cancel_timer c node tag
