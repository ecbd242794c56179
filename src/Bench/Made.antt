-- ===== src/Bench/Made.antt =====
-- The summaries of src/bench_stats.rs are always made.
use simulation_taps_tt.Base.{
  ℕ, ◌≤◌, ◌≡◌, refl, some, Any, List, [], ◌∷◌, inl, inr, Bool-cases, Option-cases, Every, Every-map,
  length, leb, arith,
}
use simulation_taps_tt.Base.Outcome.{ok}
use simulation_taps_tt.Bench.Assoc.{find}
use simulation_taps_tt.Bench.Stats.{
  Key, same_key, same_scenario, Summarizer, Floats, OperationSummary, sort_keys, minimum, maximum,
  mean_of, std_dev_of, summary_of, summaries_of, summaries,
}
use simulation_taps_tt.Bench.Collection.{values_for}
use simulation_taps_tt.Bench.Consistency.{HasEntries}
use simulation_taps_tt.Bench.Order.{sort_keys-Every}

pub find_of_values :
    (s : Summarizer) (key : Key) {v : ℕ} {later : List ℕ}
    → values_for key s ≡ v ∷ later
    → find same_key key s.samples ≡ some (v ∷ later)
find_of_values s key e = elim (Option-cases (find same_key key s.samples)) [
  | inl absent ↦ absurd (ground (arith, absent, e))
  | inr (values, present) ↦ ground (arith, present, e)
]

pub minimum-some :
    (v : ℕ) (later : List ℕ)
    → (m : ℕ) × (minimum (v ∷ later) ≡ some m)
      × Every (λ w. m ≤ w) (v ∷ later)
      × Any (λ w. w ≡ m) (v ∷ later)
minimum-some v [] = (v, refl, (omega arith, tt), inl refl)
minimum-some v (w ∷ later) =
    let (m, e, h, there) = minimum-some w later in
    elim (Bool-cases (leb v m)) [
      | inl le ↦
          let below : v ≤ m = ground (arith, le) in
          (
            v,
            rw (e, le),
            (
              omega arith,
              Every-map (λ x. m ≤ x) (λ x. v ≤ x) (w ∷ later) (λ x l. omega (arith, below, l)) h,
            ),
            inl refl,
          )
      | inr gt ↦ let above : m ≤ v = ground (arith, gt) in (m, rw (e, gt), (above, h), inr there)
    ]

pub maximum-some :
    (v : ℕ) (later : List ℕ)
    → (m : ℕ) × (maximum (v ∷ later) ≡ some m)
      × Every (λ w. w ≤ m) (v ∷ later)
      × Any (λ w. w ≡ m) (v ∷ later)
maximum-some v [] = (v, refl, (omega arith, tt), inl refl)
maximum-some v (w ∷ later) =
    let (m, e, h, there) = maximum-some w later in
    elim (Bool-cases (leb m v)) [
      | inl le ↦
          let below : m ≤ v = ground (arith, le) in
          (
            v,
            rw (e, le),
            (
              omega arith,
              Every-map (λ x. x ≤ m) (λ x. x ≤ v) (w ∷ later) (λ x l. omega (arith, below, l)) h,
            ),
            inl refl,
          )
      | inr gt ↦ let above : v ≤ m = ground (arith, gt) in (m, rw (e, gt), (above, h), inr there)
    ]

module _ (f : Floats) where
  abbrev pub summary_from : Key → ℕ → List ℕ → ℕ → ℕ → OperationSummary f
  summary_from key runs values least greatest = record {
    n = key.n;
    n3 = key.n3;
    runs = runs;
    role = key.role;
    operation = key.operation;
    samples = length values;
    mean = mean_of f values;
    std_dev = std_dev_of f values;
    min = least;
    max = greatest;
  }

  module _ {E : Type 0} (s : Summarizer) where
    pub summary_of_lem :
        (key : Key) (v : ℕ) (later : List ℕ) (runs least greatest : ℕ)
        → values_for key s ≡ v ∷ later
        → find same_scenario (key.n, key.n3) s.runs ≡ some runs
        → minimum (v ∷ later) ≡ some least
        → maximum (v ∷ later) ≡ some greatest
        → summary_of f {E = E} s key ≡ ok (summary_from key runs (v ∷ later) least greatest)
    unfolding summary_of
    summary_of_lem key v later runs least greatest e er el eg =
        rw (find_of_values s key e, er, el, eg) refl

    summaries_of_made :
        (keys : List Key)
        → Every (HasEntries s) keys
        → (outs : List (OperationSummary f)) × (summaries_of f {E = E} s keys ≡ ok outs)
    unfolding summaries_of
    summaries_of_made [] h = ([], refl)
    summaries_of_made (key ∷ keys) (((v, later, e), (runs, er)), h) =
        let (least, el, _, _) = minimum-some v later in
        let (greatest, eg, _, _) = maximum-some v later in
        let (outs, eo) = summaries_of_made keys h in
        (
          summary_from key runs (v ∷ later) least greatest ∷ outs,
          rw (summary_of_lem key v later runs least greatest e er el eg, eo) refl,
        )

    -- From consistent measurements the summaries are always made.
    pub summaries_of_consistent :
        Every (HasEntries s) s.order
        → (outs : List (OperationSummary f)) × (summaries f {E = E} s ≡ ok outs)
    unfolding summaries
    summaries_of_consistent consistent =
        summaries_of_made (sort_keys s.order) (sort_keys-Every (HasEntries s) s.order consistent)
