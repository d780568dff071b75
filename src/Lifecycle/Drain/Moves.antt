-- ===== src/Lifecycle/Drain/Moves.antt =====
-- What one event of a Drain of lifecycle/drain.go changes.
use packages_go.Prelude.{
  ℕ, zero, suc, ◌+◌, ◌-◌, ◌<◌, ◌≤◌, ◌≡◌, ◌≢◌, refl, ap, inl, inr, Bool, true, false, ◌==◌, ltb,
  List, [], ◌∷◌, ◌++◌, Option, some, Bytes, if◌then◌else◌, Bool-cases, ltb→lt, ==_iff, arith,
}
use packages_go.Lifecycle.Drain.{
  Phase, draining, drained, reported, finished, Event, returns, reports, ends, State, set,
  return_step, report_step, end_step, step,
}

-- The steps that a goroutine has in front of it at most, and whether it is still to call Done.
abbrev pub steps_left : Phase → ℕ
steps_left draining = 3
steps_left (drained e) = 2
steps_left reported = 1
steps_left finished = 0

abbrev pub open_of : Phase → ℕ
open_of finished = 0
open_of _ = 1

abbrev pub called : Bool → Phase → ℕ
called true reported = 1
called true finished = 1
called _ _ = 0

-- The sum of a weight over the targets.
abbrev pub total : (Phase → ℕ) → ℕ → (ℕ → Phase) → ℕ
total weight zero f = 0
total weight (suc n) f = weight (f n) + total weight n f

abbrev pub calls_of : ℕ → List (ℕ × Option Bytes) → ℕ
calls_of i [] = 0
calls_of i ((j, e) ∷ calls) = (if j == i then 1 else 0) + calls_of i calls

calls_of-append :
    (i : ℕ) (a b : List (ℕ × Option Bytes)) → calls_of i (a ++ b) ≡ calls_of i a + calls_of i b
calls_of-append i [] b = omega arith
calls_of-append i ((j, e) ∷ a) b = omega (arith, calls_of-append i a b)

calls_of-mine :
    (i : ℕ) (e : Option Bytes) (l : List (ℕ × Option Bytes))
    → calls_of i (l ++ (i, e) ∷ []) ≡ calls_of i l + 1
calls_of-mine i e l =
    let k : calls_of i ((i, e) ∷ []) ≡ 1 = ground arith in
    omega (arith, k, calls_of-append i l ((i, e) ∷ []))

calls_of-other :
    (j i : ℕ) (e : Option Bytes) (l : List (ℕ × Option Bytes))
    → j ≢ i
    → calls_of j (l ++ (i, e) ∷ []) ≡ calls_of j l
calls_of-other j i e l ne =
    let k : calls_of j ((i, e) ∷ []) ≡ 0 = ground arith in
    omega (arith, k, calls_of-append j l ((i, e) ∷ []))

pub set_same : (f : ℕ → Phase) (i : ℕ) (p : Phase) → set f i p i ≡ p
set_same f i p = let e : (i == i) ≡ true = ground arith in rw e refl

pub set_other : (f : ℕ → Phase) (i j : ℕ) (p : Phase) → j ≢ i → set f i p j ≡ f j
set_other f i j p h = let e : (j == i) ≡ false = ground arith in rw e refl

total-set_above :
    (weight : Phase → ℕ) (n : ℕ) (f : ℕ → Phase) (i : ℕ) (p : Phase)
    → n ≤ i
    → total weight n (set f i p) ≡ total weight n f
total-set_above weight zero f i p h = refl
total-set_above weight (suc n) f i p h =
    rw (set_other f i n p (omega (arith, h)), total-set_above weight n f i p (omega (arith, h)))
      refl

pub total-set :
    (weight : Phase → ℕ) (n : ℕ) (f : ℕ → Phase) (i : ℕ) (p : Phase)
    → i < n
    → total weight n (set f i p) + weight (f i) ≡ total weight n f + weight p
total-set weight zero f i p h = absurd (omega (arith, h))
total-set weight (suc n) f i p h = elim (Bool-cases (n == i)) [
  | inl e ↦
      let q : n ≡ i = (==_iff n i).0 e in
      let a : set f i p n ≡ p = rw e refl in
      let b : weight (f n) ≡ weight (f i) = ap (λ k. weight (f k)) q in
      omega (arith, ap weight a, b, total-set_above weight n f i p (omega (arith, q)))
  | inr e ↦
      let ne : n ≢ i = λ q. absurd (cc (e, (==_iff n i).1 q)) in
      let a : set f i p n ≡ f n = rw e refl in
      omega (arith, ap weight a, total-set weight n f i p (omega (arith, h, ne)))
]

pub called_draining : (b : Bool) → called b draining ≡ 0
called_draining true = refl
called_draining false = refl

called_drained : (b : Bool) (e : Option Bytes) → called b (drained e) ≡ 0
called_drained true e = refl
called_drained false e = refl

module _ (n : ℕ) where
  -- One target moved on, from q to p.
  pub record Move (has_report : Bool) (s s' : State) : Type 0 where
    pub i : ℕ
    pub q : Phase
    pub p : Phase
    pub within : i < n
    pub was : s.phases i ≡ q
    pub moved : s'.phases ≡ set s.phases i p
    pub fewer : steps_left p < steps_left q
    pub opens : open_of p ≤ open_of q
    pub counter : s'.waiting ≡ s.waiting - (open_of q - open_of p)
    pub mine : calls_of i s'.calls + called has_report q ≡ calls_of i s.calls + called has_report p
    pub others : (k : ℕ) → k ≢ i → calls_of k s'.calls ≡ calls_of k s.calls

  return_step-Move :
      (b : Bool) (q : Phase) (i : ℕ) (e : Option Bytes) (s s' : State)
      → i < n
      → s.phases i ≡ q
      → return_step n b q i e s ≡ some s'
      → Move b s s'
  return_step-Move b draining i e s s' w k h =
      let t : State = record s { phases = set s.phases i (drained e) } in
      let same : t ≡ s' = cc in
      rw (← same) (record {
        i = i;
        q = draining;
        p = drained e;
        within = w;
        was = k;
        moved = refl;
        fewer = omega arith;
        opens = omega arith;
        counter = omega arith;
        mine = omega (arith, called_draining b, called_drained b e);
        others = λ j ne. refl;
      })
  return_step-Move b (drained d) i e s s' w k h = cc
  return_step-Move b reported i e s s' w k h = cc
  return_step-Move b finished i e s s' w k h = cc

  report_step-Move :
      (b : Bool) (q : Phase) (i : ℕ) (s s' : State)
      → i < n
      → s.phases i ≡ q
      → report_step n b b q i s ≡ some s'
      → Move b s s'
  report_step-Move true (drained e) i s s' w k h =
      let t : State = record s {
        phases = set s.phases i reported;
        calls = s.calls ++ (i, e) ∷ [];
      } in
      let same : t ≡ s' = cc in
      rw (← same) (record {
        i = i;
        q = drained e;
        p = reported;
        within = w;
        was = k;
        moved = refl;
        fewer = omega arith;
        opens = omega arith;
        counter = omega arith;
        mine = omega (arith, calls_of-mine i e s.calls);
        others = λ j ne. calls_of-other j i e s.calls ne;
      })
  report_step-Move true draining i s s' w k h = cc
  report_step-Move true reported i s s' w k h = cc
  report_step-Move true finished i s s' w k h = cc
  report_step-Move false q i s s' w k h = cc

  finishing-Move :
      (b : Bool) (q : Phase) (i : ℕ) (s : State)
      → i < n
      → s.phases i ≡ q
      → 0 < steps_left q
      → open_of q ≡ 1
      → called b q ≡ called b finished
      → Move b s (record s { phases = set s.phases i finished; waiting = s.waiting - 1 })
  finishing-Move b q i s w k f o c = record {
    i = i;
    q = q;
    p = finished;
    within = w;
    was = k;
    moved = refl;
    fewer = f;
    opens = omega (arith, o);
    counter = omega (arith, o);
    mine = omega (arith, c);
    others = λ j ne. refl;
  }

  end_step-Move :
      (b : Bool) (q : Phase) (i : ℕ) (s s' : State)
      → i < n
      → s.phases i ≡ q
      → end_step n b b q i s ≡ some s'
      → Move b s s'
  end_step-Move true reported i s s' w k h =
      let t : State = record s { phases = set s.phases i finished; waiting = s.waiting - 1 } in
      let same : t ≡ s' = cc in
      rw (← same) (finishing-Move true reported i s w k (omega arith) refl refl)
  end_step-Move true draining i s s' w k h = cc
  end_step-Move true (drained e) i s s' w k h = cc
  end_step-Move true finished i s s' w k h = cc
  end_step-Move false (drained e) i s s' w k h =
      let t : State = record s { phases = set s.phases i finished; waiting = s.waiting - 1 } in
      let same : t ≡ s' = cc in
      rw (← same) (finishing-Move false (drained e) i s w k (omega arith) refl refl)
  end_step-Move false draining i s s' w k h = cc
  end_step-Move false reported i s s' w k h = cc
  end_step-Move false finished i s s' w k h = cc

  pub step-Move : (b : Bool) (e : Event) (s s' : State) → step n b e s ≡ some s' → Move b s s'
  unfolding step
  step-Move b (returns i e) s s' h = elim (Bool-cases (ltb i n)) [
    | inr k ↦ absurd (cc (h, k))
    | inl k ↦ return_step-Move b (s.phases i) i e s s' (ltb→lt i n k) refl (rw k at h)
  ]
  step-Move b (reports i) s s' h = elim (Bool-cases (ltb i n)) [
    | inr k ↦ absurd (cc (h, k))
    | inl k ↦ report_step-Move b (s.phases i) i s s' (ltb→lt i n k) refl (rw k at h)
  ]
  step-Move b (ends i) s s' h = elim (Bool-cases (ltb i n)) [
    | inr k ↦ absurd (cc (h, k))
    | inl k ↦ end_step-Move b (s.phases i) i s s' (ltb→lt i n k) refl (rw k at h)
  ]
