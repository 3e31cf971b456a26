-- ===== src/Oracle/Linearizability/Turns.antt =====
-- The open invokes of a history in which every process takes turns.
use propsim.Base.{
  ℕ, ◌+◌, ◌≤◌, ◌==◌, ◌≡◌, refl, sym, ◌∙◌, inl, inr, Bool, true, false, ltb, arith, Option, none,
  some, List, [], ◌∷◌, ◌++◌, Bool-cases, Option-cases, subst, All,
}
use propsim.History.{History, OpEntry, ProcessId}
use propsim.History.Values.{Value}
use propsim.Sim.Scheduler.{is_terminal}
use propsim.Sim.Scheduler.Turns.{turn, status, one_if}
use propsim.Oracle.Linearizability.{remove_open}

-- The open invokes of a process.

abbrev open_of : ProcessId → List (ℕ × OpEntry) → ℕ
open_of p [] = 0
open_of p ((at, inv) ∷ rest) = one_if (inv.process == p) + open_of p rest

open_of-append :
    (p : ProcessId) (xs : List (ℕ × OpEntry)) (x : ℕ × OpEntry)
    → open_of p (xs ++ x ∷ []) ≡ open_of p xs + one_if (x.1.process == p)
open_of-append p [] x = omega arith
open_of-append p ((at, inv) ∷ xs) x = omega (arith, open_of-append p xs x)

-- What the removal of an open invoke of process `q` leaves open.
abbrev Counted :
    ProcessId → List (ℕ × OpEntry) → Option ((ℕ × OpEntry) × List (ℕ × OpEntry)) → Type 0
Counted q opened none = open_of q opened ≡ 0
Counted q opened (some (inv, others)) =
    (p : ProcessId) → open_of p opened ≡ one_if (q == p) + open_of p others

remove_open-Counted :
    (q : ProcessId) (opened : List (ℕ × OpEntry)) → Counted q opened (remove_open q opened)
unfolding remove_open
remove_open-Counted q [] = refl
remove_open-Counted q ((at, inv) ∷ rest) = elim (Option-cases (remove_open q rest)) [
  | inr ((found, others), e) ↦
      let before = subst (Counted q rest) e (remove_open-Counted q rest) in
      rw (e, remove_open) (λ p. omega (arith, before p))
  | inl e ↦
      let before = subst (Counted q rest) e (remove_open-Counted q rest) in
      elim (Bool-cases (inv.process == q)) [
        | inl mine ↦ rw (e, remove_open, mine) (λ p. ground (arith, mine))
        | inr other ↦ rw (e, remove_open, other) (ground (arith, other, before))
      ]
]

status-none : (p : ProcessId) (h : History) → status p none h ≡ none
unfolding status
status-none p [] = refl
status-none p (e ∷ h) = status-none p h

-- Every process has an op open or not, as its entries to come require.
pub record InTurns (opened : List (ℕ × OpEntry)) (h : History) : Type 0 where
  pub few : (p : ProcessId) → open_of p opened ≤ 1
  pub turns : (p : ProcessId) → status p (some (ltb 0 (open_of p opened))) h ≡ some false

-- An entry of a process that may stand where it stands.
turn-some :
    (p : ProcessId) (s : Option Bool) (h : History)
    → status p s h ≡ some false
    → (b : Bool) × (s ≡ some b)
turn-some p none h e = let bad = sym (status-none p h) ∙ e in absurd (cc)
turn-some p (some b) h e = (b, refl)

-- What the next entry does to a process and its open ops.
invoked :
    (p : ProcessId) (e : OpEntry) (n : ℕ) (b : Bool)
    → is_terminal e.kind ≡ false
    → n ≤ 1
    → turn p e (ltb 0 n) ≡ some b
    → (n + one_if (e.process == p) ≤ 1) × (b ≡ ltb 0 (n + one_if (e.process == p)))
invoked p e n b k few t = ground arith

closed :
    (p : ProcessId) (e : OpEntry) (n m : ℕ) (b : Bool)
    → is_terminal e.kind ≡ true
    → n ≤ 1
    → n ≡ one_if (e.process == p) + m
    → turn p e (ltb 0 n) ≡ some b
    → (m ≤ 1) × (b ≡ ltb 0 m)
closed p e n m b k few count t = ground arith

closed-running :
    (e : OpEntry) (n : ℕ) (b : Bool)
    → is_terminal e.kind ≡ true
    → turn e.process e (ltb 0 n) ≡ some b
    → n ≡ 0
    → ⊥
closed-running e n b k t none' = ground arith

-- What the first entry leaves of a process.
after_first :
    (opened : List (ℕ × OpEntry)) (e : OpEntry) (h : History)
    → InTurns opened (e ∷ h)
    → (p : ProcessId)
    → (b : Bool) × (turn p e (ltb 0 (open_of p opened)) ≡ some b)
      × (status p (some b) h ≡ some false)
unfolding status
after_first opened e h m p =
    let (b, now) = turn-some p (turn p e (ltb 0 (open_of p opened))) h (m.turns p) in
    (b, now, subst (λ s. status p s h ≡ some false) now (m.turns p))

-- A process with `n` open invokes before the entries to come.
abbrev Fits : ProcessId → ℕ → History → Type 0
Fits p n h = (n ≤ 1) × (status p (some (ltb 0 n)) h ≡ some false)

pub invoke-InTurns :
    (opened : List (ℕ × OpEntry)) (pos : ℕ) (e : OpEntry) (h : History)
    → is_terminal e.kind ≡ false
    → InTurns opened (e ∷ h)
    → InTurns (opened ++ (pos, e) ∷ []) h
invoke-InTurns opened pos e h k m =
    let after : (p : ProcessId) → Fits p (open_of p opened + one_if (e.process == p)) h = λ p.
      (let (b, now, later) = after_first opened e h m p in
        let (few', b_is) = invoked p e (open_of p opened) b k (m.few p) now in
        (few', subst (λ c. status p (some c) h ≡ some false) b_is later)) in
    record {
      few = λ p. rw (open_of-append p opened (pos, e)) ((after p).0);
      turns = λ p. rw (open_of-append p opened (pos, e)) ((after p).1);
    }

pub close-InTurns :
    (opened : List (ℕ × OpEntry)) (e : OpEntry) (h : History)
    → is_terminal e.kind ≡ true
    → InTurns opened (e ∷ h)
    → (inv : ℕ × OpEntry) × (others : List (ℕ × OpEntry)) × (remove_open e.process opened
        ≡ some (inv, others))
      × InTurns others h
close-InTurns opened e h k m =
    let left = remove_open-Counted e.process opened in
    elim (Option-cases (remove_open e.process opened)) [
      | inl gone ↦
          let (b, now, later) = after_first opened e h m e.process in
          absurd (closed-running e _ b k now (subst (Counted e.process opened) gone left))
      | inr ((inv, others), found) ↦
          let count = subst (Counted e.process opened) found left in
          let after : (p : ProcessId) → Fits p (open_of p others) h = λ p.
            (let (b, now, later) = after_first opened e h m p in
              let (few', b_is) =
                closed p e (open_of p opened) (open_of p others) b k (m.few p) (count p) now in
              (few', subst (λ c. status p (some c) h ≡ some false) b_is later)) in
          (inv, others, found, record { few = λ p. (after p).0; turns = λ p. (after p).1 })
    ]

-- The values of the open invokes.
abbrev pub Opened : (Value → Type 0) → List (ℕ × OpEntry) → Type 0
Opened V opened = All (λ (x : ℕ × OpEntry). V x.1.value) opened

abbrev pub Parted : (Value → Type 0) → Option ((ℕ × OpEntry) × List (ℕ × OpEntry)) → Type 0
Parted V none = Unit
Parted V (some (inv, others)) = V inv.1.value × Opened V others

pub append-Opened :
    (V : Value → Type 0) (xs : List (ℕ × OpEntry)) (x : ℕ × OpEntry)
    → Opened V xs
    → V x.1.value
    → Opened V (xs ++ x ∷ [])
append-Opened V [] x h k = (k, tt)
append-Opened V (y ∷ xs) x h k = (h.0, append-Opened V xs x h.1 k)

pub remove_open-Parted :
    (V : Value → Type 0) (q : ProcessId) (opened : List (ℕ × OpEntry))
    → Opened V opened
    → Parted V (remove_open q opened)
unfolding remove_open
remove_open-Parted V q [] h = tt
remove_open-Parted V q ((at, inv) ∷ rest) h = elim (Option-cases (remove_open q rest)) [
  | inr ((found, others), e) ↦
      let below = subst (Parted V) e (remove_open-Parted V q rest h.1) in
      rw (e, remove_open) (below.0, (h.0, below.1))
  | inl e ↦ elim (Bool-cases (inv.process == q)) [
    | inl mine ↦ rw (e, remove_open, mine) h
    | inr other ↦ rw (e, remove_open, other) tt
  ]
]
