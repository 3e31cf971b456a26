-- ===== src/Oracle/Linearizability/Attempt.antt =====
-- One search node: the loop over the candidate spans.
use mathlib.Core.Bool.{true≢false}
use propsim.Base.{
  ℕ, zero, suc, ◌+◌, ◌≡◌, refl, Bool, true, false, ◌&&◌, ◌||◌, some, List, [], ◌∷◌, inl, inr, subst,
  sym, ap, ◌⊎◌, ◌≤◌, arith, ltb, length, get_elem?, get_or, set, Bool-cases,
}
use propsim.History.Values.{value_eq}
use propsim.Oracle.Model.{SequentialModel}
use propsim.Oracle.Linearizability.{Span, Visited, attempt, seen}
use propsim.Oracle.Linearizability.Undone.{undone}

or_false : (a b : Bool) → (a || b) ≡ false → (a ≡ false) × (b ≡ false)
or_false a b h = ground arith

module _ (M : SequentialModel) (real_time : Bool) (st : M.State) (done : List Bool)
    (earliest : ℕ) where
  open M use {State, Op, step}

  -- The span at index `i` may be placed next.
  pub record Callable (i : ℕ) (s : Span Op) : Type 0 where
    pub todo : get_or done i false ≡ false
    pub on_time : (real_time && ltb earliest s.start) ≡ false
    pub answers : value_eq (step st s.op).1 s.response ≡ true

module _ (M : SequentialModel) (real_time : Bool)
    (go : M.State → List Bool → Visited M → Bool × Visited M) (st : M.State) (done : List Bool)
    (earliest : ℕ) where
  open M use {State, Op, step}

  abbrev CallableHere : ℕ → Span Op → Type 0
  CallableHere = Callable M real_time st done earliest

  -- Some callable span whose subtree succeeded.
  abbrev pub Success : ℕ → List (Span Op) → Type 0
  Success i ss =
      (j : ℕ) × (s : Span Op) × (get_elem? ss j ≡ some s)
      × CallableHere (i + j) s
      × (u : Visited M) × (w : Visited M) × (go (step st s.op).0 (set done (i + j) true) u
          ≡ (true, w))

  shift : (i : ℕ) (x : Span Op) (ss : List (Span Op)) → Success (suc i) ss → Success i (x ∷ ss)
  shift i x ss (j, s, e, c, u, w, h) =
      let n : suc i + j ≡ i + suc j = omega arith in
      (
        suc j,
        s,
        e,
        subst (λ k. CallableHere k s) n c,
        u,
        w,
        subst (λ k. go (step st s.op).0 (set done k true) u ≡ (true, w)) n h,
      )

  pub attempt-Success :
      (ss : List (Span Op)) (i : ℕ) (v w : Visited M)
      → attempt M real_time go st done earliest i ss v ≡ (true, w)
      → Success i ss
  unfolding attempt
  attempt-Success [] i v w h = cc
  attempt-Success (s ∷ ss) i v w h =
      elim (Bool-cases (get_or done i false || (real_time && ltb earliest s.start))) [
        | inl skip ↦ shift i s ss (attempt-Success ss (suc i) v w (rw skip at h))
        | inr open' ↦ elim (Bool-cases (value_eq (step st s.op).1 s.response)) [
          | inr wrong ↦ shift i s ss (attempt-Success ss (suc i) v w (rw (open', wrong) at h))
          | inl right ↦ elim (Bool-cases (go (step st s.op).0 (set done i true) v).0) [
            | inr failed ↦ shift i s ss (
                attempt-Success ss (suc i) (go (step st s.op).0 (set done i true) v).1 w
                  (rw (open', right, failed) at h))
            | inl found ↦
                let n : i ≡ i + zero = omega arith in
                let c : CallableHere i s = record {
                  todo = (or_false _ _ open').0;
                  on_time = (or_false _ _ open').1;
                  answers = right;
                } in
                let w' = (go (step st s.op).0 (set done i true) v).1 in
                (
                  zero,
                  s,
                  refl,
                  subst (λ k. CallableHere k s) n c,
                  v,
                  w',
                  subst (λ k. go (step st s.op).0 (set done k true) v ≡ (true, w')) n
                      (λ j. (found j, w')),
                )
          ]
        ]
      ]

-- What a failed subtree leaves in the visited set.
module _ (M : SequentialModel) (Fails : M.State → List Bool → Type 0) where
  -- Whatever was added fails.
  abbrev pub Extends : Visited M → Visited M → Type 0
  Extends v w =
      (d : List Bool) (s : M.State) → seen M d s w ≡ true → (seen M d s v ≡ true) ⊎ Fails s d

  Extends-refl : (v : Visited M) → Extends v v
  Extends-refl v d s h = inl h

  pub Extends-trans : (u v w : Visited M) → Extends u v → Extends v w → Extends u w
  Extends-trans u v w h k d s e = elim (k d s e) [ inl m ↦ h d s m | inr f ↦ inr f ]

  -- The nodes with at most `r` spans left fail.
  abbrev pub Dead : List (Span M.Op) → ℕ → Visited M → Type 0
  Dead spans r v =
      (d : List Bool) (s : M.State) → seen M d s v ≡ true → length (undone d spans) ≤ r → Fails s d

  pub Dead-extend :
      (spans : List (Span M.Op)) (r : ℕ) (v w : Visited M)
      → Extends v w
      → Dead spans r v
      → Dead spans r w
  Dead-extend spans r v w h k d s e n = elim (h d s e) [ inl m ↦ k d s m n | inr f ↦ f ]

  -- Each callable span's subtree fails.
  abbrev pub AllFail : Bool → M.State → List Bool → ℕ → ℕ → List (Span M.Op) → Type 0
  AllFail real_time st done earliest i ss =
      (j : ℕ) (s : Span M.Op)
      → get_elem? ss j ≡ some s
      → Callable M real_time st done earliest (i + j) s
      → Fails (M.step st s.op).0 (set done (i + j) true)

  module _ (real_time : Bool) (go : M.State → List Bool → Visited M → Bool × Visited M)
      (st : M.State) (done : List Bool) (earliest : ℕ) (spans : List (Span M.Op)) (r : ℕ)
      (go_fails : (i : ℕ) (s : Span M.Op) (next : M.State) (v w : Visited M)
        → get_elem? spans i ≡ some s
        → get_or done i false ≡ false
        → Dead spans r v
        → go next (set done i true) v ≡ (false, w)
        → Fails next (set done i true) × Extends v w) where
    abbrev AllFailHere : ℕ → List (Span M.Op) → Type 0
    AllFailHere = AllFail real_time st done earliest

    cons-AllFail :
        (s : Span M.Op) (ss : List (Span M.Op)) (i : ℕ)
        → (Callable M real_time st done earliest i s → Fails (M.step st s.op).0 (set done i true))
        → AllFailHere (suc i) ss
        → AllFailHere i (s ∷ ss)
    cons-AllFail s ss i h t zero s' e c =
        let n : i + zero ≡ i = omega arith in
        let p : s ≡ s' = cc in
        let c' = subst (λ k. Callable M real_time st done earliest k s') n c in
        let c'' = subst (λ x. Callable M real_time st done earliest i x) (sym p) c' in
        subst (λ k. Fails (M.step st s'.op).0 (set done k true)) (sym n)
          (subst (λ x. Fails (M.step st x.op).0 (set done i true)) p (h c''))
    cons-AllFail s ss i h t (suc j) s' e c =
        let n : suc i + j ≡ i + suc j = omega arith in
        subst (λ k. Fails (M.step st s'.op).0 (set done k true)) n
          (t j s' e (subst (λ k. Callable M real_time st done earliest k s') (sym n) c))

    abbrev At : ℕ → List (Span M.Op) → Type 0
    At i ss = (j : ℕ) (s : Span M.Op) → get_elem? ss j ≡ some s → get_elem? spans (i + j) ≡ some s

    At-tail : (s : Span M.Op) (ss : List (Span M.Op)) (i : ℕ) → At i (s ∷ ss) → At (suc i) ss
    At-tail s ss i at j x e =
        let n : i + suc j ≡ suc i + j = omega arith in
        subst (λ k. get_elem? spans k ≡ some x) n (at (suc j) x e)

    At-head :
        (s : Span M.Op) (ss : List (Span M.Op)) (i : ℕ) → At i (s ∷ ss) → get_elem? spans i ≡ some s
    At-head s ss i at =
        let n : i + zero ≡ i = omega arith in
        subst (λ k. get_elem? spans k ≡ some s) n (at zero s refl)

    pub attempt-AllFail :
        (ss : List (Span M.Op)) (i : ℕ) (v w : Visited M)
        → At i ss
        → Dead spans r v
        → attempt M real_time go st done earliest i ss v ≡ (false, w)
        → AllFailHere i ss × Extends v w
    unfolding attempt
    attempt-AllFail [] i v w at dead h =
        (λ j s e c. cc, subst (Extends v) (ap (λ x. x.1) h) (Extends-refl v))
    attempt-AllFail (s ∷ ss) i v w at dead h =
        elim (Bool-cases (get_or done i false || (real_time && ltb earliest s.start))) [
          | inl skip ↦
              let (fails, ext) =
                attempt-AllFail ss (suc i) v w (At-tail s ss i at) dead (rw skip at h) in
              (cons-AllFail s ss i (λ c. absurd (not_skipped c skip)) fails, ext)
          | inr free ↦ elim (Bool-cases (value_eq (M.step st s.op).1 s.response)) [
            | inr wrong ↦
                let (fails, ext) =
                  attempt-AllFail ss (suc i) v w (At-tail s ss i at) dead (rw (free, wrong) at h) in
                (cons-AllFail s ss i (λ c. absurd (not_wrong c wrong)) fails, ext)
            | inl right ↦
                let next = go (M.step st s.op).0 (set done i true) v in
                elim (Bool-cases next.0) [
                  | inl found ↦ absurd (true≢false (ap (λ x. x.0) (rw (free, right, found) at h)))
                  | inr failed ↦
                      let (dies, grows) =
                        go_fails i s (M.step st s.op).0 v next.1 (At-head s ss i at)
                          (or_false _ _ free).0 dead (λ k. (failed k, next.1)) in
                      let (fails, ext) =
                        attempt-AllFail ss (suc i) next.1 w (At-tail s ss i at)
                          (Dead-extend spans r v next.1 grows dead)
                          (rw (free, right, failed) at h) in
                      (cons-AllFail s ss i (λ c. dies) fails, Extends-trans v next.1 w grows ext)
                ]
          ]
        ]
      where
        not_skipped :
            Callable M real_time st done earliest i s
            → (get_or done i false || (real_time && ltb earliest s.start)) ≡ true
            → ⊥
        not_skipped c e = ground (arith, c.todo, c.on_time)

        not_wrong :
            Callable M real_time st done earliest i s
            → value_eq (M.step st s.op).1 s.response ≡ false
            → ⊥
        not_wrong c e = ground (arith, c.answers)
