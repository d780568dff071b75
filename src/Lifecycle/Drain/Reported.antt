-- ===== src/Lifecycle/Drain/Reported.antt =====
-- What holds when Drain of lifecycle/drain.go returns.
use packages_go.Prelude.{
  ℕ, zero, suc, ◌<◌, ◌≡◌, ◌≢◌, refl, sym, ◌∙◌, ap, inl, inr, Bool, true, false, ◌==◌, List, [], ◌∷◌,
  Option, none, some, if◌then◌else◌, Bool-cases, ==_iff, arith,
}
use packages_go.Lifecycle.Drain.{
  Phase, draining, drained, reported, finished, Event, State, set, start, and_then, step, run,
}
use packages_go.Lifecycle.Drain.Moves.{
  open_of, called, calls_of, total, set_same, set_other, total-set, called_draining, Move,
  step-Move,
}

-- The number of targets whose Done is still to come, and of the calls of report for each target.
record Inv (n : ℕ) (b : Bool) (s : State) : Type 0 where
  open_now : total open_of n s.phases ≡ s.waiting
  counted : (i : ℕ) → i < n → calls_of i s.calls ≡ called b (s.phases i)

Move-Inv : (n : ℕ) (b : Bool) (s s' : State) → Inv n b s → Move n b s s' → Inv n b s'
Move-Inv n b s s' v m =
    let now : s.phases m.i ≡ m.q = m.was in
    let there : s'.phases m.i ≡ m.p = ap (λ f. f m.i) m.moved ∙ set_same s.phases m.i m.p in
    let sum = total-set open_of n s.phases m.i m.p m.within in
    let was_open : open_of (s.phases m.i) ≡ open_of m.q = ap open_of now in
    let was_called : called b (s.phases m.i) ≡ called b m.q = ap (called b) now in
    let is_called : called b (s'.phases m.i) ≡ called b m.p = ap (called b) there in
    let new_sum : total open_of n s'.phases ≡ total open_of n (set s.phases m.i m.p) =
      ap (total open_of n) m.moved in
    record {
      open_now = omega (arith, sum, was_open, new_sum, v.open_now, m.counter, m.opens);
      counted = λ k h. elim (Bool-cases (k == m.i)) [
        | inl e ↦
            let same : k ≡ m.i = (==_iff k m.i).0 e in
            rw same (omega (arith, m.mine, is_called, was_called, v.counted m.i m.within))
        | inr e ↦
            let ne : k ≢ m.i = λ q. absurd (cc (e, (==_iff k m.i).1 q)) in
            let still : s'.phases k ≡ s.phases k =
              ap (λ f. f k) m.moved ∙ set_other s.phases m.i k m.p ne in
            m.others k ne ∙ v.counted k h ∙ ap (called b) (sym still)
      ];
    }

start-Inv : (n : ℕ) (b : Bool) → Inv n b (start n)
start-Inv n b = record { open_now = all_open n; counted = λ i h. sym (called_draining b) }
  where
    all_open : (k : ℕ) → total open_of k (λ i. draining) ≡ k
    all_open zero = refl
    all_open (suc k) = omega (arith, all_open k)

and_then-some :
    (o : Option State) (next : State → Option State) (s : State)
    → and_then o next ≡ some s
    → (t : State) × (o ≡ some t) × (next t ≡ some s)
and_then-some none next s h = cc
and_then-some (some t) next s h = (t, refl, h)

run-Inv :
    (n : ℕ) (b : Bool) (es : List Event) (s s' : State)
    → Inv n b s
    → run n b es s ≡ some s'
    → Inv n b s'
unfolding run
run-Inv n b [] s s' v h = let same : s ≡ s' = cc in rw (← same) v
run-Inv n b (e ∷ es) s s' v h =
    let (t, k, rest) = and_then-some (step n b e s) (λ t. run n b es t) s' h in
    run-Inv n b es t s' (Move-Inv n b s t v (step-Move n b e s t k)) rest

finished_of : (p : Phase) → open_of p ≡ 0 → p ≡ finished
finished_of draining h = absurd (omega (arith, h))
finished_of (drained e) h = absurd (omega (arith, h))
finished_of reported h = absurd (omega (arith, h))
finished_of finished h = refl

none_open : (n : ℕ) (f : ℕ → Phase) (i : ℕ) → total open_of n f ≡ 0 → i < n → open_of (f i) ≡ 0
none_open zero f i h w = absurd (omega (arith, w))
none_open (suc n) f i h w = elim (Bool-cases (i == n)) [
  | inl e ↦ let same : i ≡ n = (==_iff i n).0 e in rw same (omega (arith, h))
  | inr e ↦
      let ne : i ≢ n = λ q. absurd (cc (e, (==_iff i n).1 q)) in
      none_open n f i (omega (arith, h)) (omega (arith, w, ne))
]

called_finished : (b : Bool) → called b finished ≡ (if b then 1 else 0)
called_finished true = refl
called_finished false = refl

-- Once the counter is zero, when Drain returns, whatever the interleaving was, every target's Shutdown
-- has returned and its goroutine has called Done; and report, if there is one, has been called exactly
-- once for each target.
pub run-reported :
    (n : ℕ) (has_report : Bool) (es : List Event) (s : State)
    → run n has_report es (start n) ≡ some s
    → s.waiting ≡ 0
    → (i : ℕ) → i < n
    → (s.phases i ≡ finished) × (calls_of i s.calls ≡ (if has_report then 1 else 0))
run-reported n has_report es s h z i w =
    let v = run-Inv n has_report es (start n) s (start-Inv n has_report) h in
    let done = finished_of (s.phases i) (none_open n s.phases i (v.open_now ∙ z) w) in
    (done, v.counted i w ∙ ap (called has_report) done ∙ called_finished has_report)
