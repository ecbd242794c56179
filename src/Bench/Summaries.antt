-- ===== src/Bench/Summaries.antt =====
-- The summaries never fail, and describe the measurements on file.
use mathlib.Core.List.{foldl}
use simulation_taps_tt.Base.{
  ℕ, ◌≤◌, ◌-◌, ◌≡◌, ◌↔◌, refl, sym, ap, ◌∙◌, subst, map, ltb, Any, if◌then◌else◌, List, [], ◌∷◌,
  inl, inr, Every, length,
}
use simulation_taps_tt.Base.Outcome.{ok}
use simulation_taps_tt.Bench.Stats.{
  Key, Summarizer, new_summarizer, Floats, OperationSummary, sort_keys, sum_floats, mean_of,
  std_dev_of, summary_of, summaries_of, summaries,
}
use simulation_taps_tt.Bench.Consistency.{
  HasEntries, new_summarizer-IsConsistent, add_runs, add_runs-IsConsistent,
}
use simulation_taps_tt.Bench.Measurements.{
  Series, measurements, number_of_runs, values_for_suite, runs_of_suite,
}
use simulation_taps_tt.Bench.Index.{add_runs-IsIndexed, new_summarizer-IsIndexed}
use simulation_taps_tt.Bench.Order.{
  IsSorted, IsDistinct, sort_keys-IsSorted, sort_keys-IsDistinct, sort_keys-Every, sort_keys-Any,
}
use simulation_taps_tt.Bench.Made.{
  find_of_values, minimum-some, maximum-some, summary_from, summary_of_lem,
}

module _ (f : Floats) where
  -- The numbers added up from the left.
  abbrev pub total_of : List f.Float → f.Float
  total_of = foldl f.add f.zero_float

  abbrev pub average : List ℕ → f.Float
  average values = f.div (total_of (map f.of_nat values)) (f.of_nat (length values))

  -- The sample standard deviation, zero for one sample.
  abbrev pub deviation : List ℕ → f.Float
  deviation values =
      if ltb 1 (length values)
      then f.sqrt (
          f.div (total_of (map (λ v. f.square (f.sub (f.of_nat v) (average values))) values))
            (f.of_nat (length values - 1)))
      else f.zero_float

  sum_floats_lem :
      (total : f.Float) (vs : List f.Float) → sum_floats f total vs ≡ foldl f.add total vs
  sum_floats_lem total [] = refl
  sum_floats_lem total (v ∷ later) = sum_floats_lem (f.add total v) later

  mean_of-average : (values : List ℕ) → mean_of f values ≡ average values
  unfolding mean_of
  mean_of-average values =
      ap (λ t. f.div t (f.of_nat (length values)))
        (sum_floats_lem f.zero_float (map f.of_nat values))

  std_dev_of-deviation : (values : List ℕ) → std_dev_of f values ≡ deviation values
  unfolding std_dev_of
  std_dev_of-deviation values = rw (mean_of-average values) (
      rw
        (sum_floats_lem f.zero_float
          (map (λ v. f.square (f.sub (f.of_nat v) (average values))) values))
        refl)

  -- A summary is that of a key: it names it, counts the runs of its scenario and its measurements,
  -- and has their mean, deviation, least and greatest.
  pub record IsSummary (suite : Series) (key : Key) (out : OperationSummary f) : Type 0 where
    pub same_n : out.n ≡ key.n
    pub same_n3 : out.n3 ≡ key.n3
    pub same_role : out.role ≡ key.role
    pub same_operation : out.operation ≡ key.operation
    pub counts_runs : out.runs ≡ number_of_runs suite key.n key.n3
    pub counts_samples : out.samples ≡ length (measurements suite key)
    pub averages : out.mean ≡ average (measurements suite key)
    pub deviates : out.std_dev ≡ deviation (measurements suite key)
    pub above_min : Every (λ v. out.min ≤ v) (measurements suite key)
    pub attains_min : Any (λ v. v ≡ out.min) (measurements suite key)
    pub below_max : Every (λ v. v ≤ out.max) (measurements suite key)
    pub attains_max : Any (λ v. v ≡ out.max) (measurements suite key)

  -- One summary for each key, in the same order.
  abbrev pub AreSummaries : Series → List Key → List (OperationSummary f) → Type 0
  AreSummaries suite [] [] = Unit
  AreSummaries suite [] (out ∷ outs) = ⊥
  AreSummaries suite (key ∷ keys) [] = ⊥
  AreSummaries suite (key ∷ keys) (out ∷ outs) =
      IsSummary suite key out × AreSummaries suite keys outs

  abbrev after : Series → Summarizer
  after suite = add_runs suite new_summarizer

  module _ {E : Type 0} (suite : Series) where
    summary_of-IsSummary :
        (key : Key)
        → HasEntries (after suite) key
        → (out : OperationSummary f) × (summary_of f {E = E} (after suite) key ≡ ok out)
          × IsSummary suite key out
    summary_of-IsSummary key ((v, later, e), (runs, er)) =
        let (least, el, below, least_there) = minimum-some v later in
        let (greatest, eg, above, greatest_there) = maximum-some v later in
        let measured : v ∷ later ≡ measurements suite key = sym e ∙ values_for_suite key suite in
        (
          summary_from f key runs (v ∷ later) least greatest,
          summary_of_lem f (after suite) key v later runs least greatest e er el eg,
          record {
            same_n = refl;
            same_n3 = refl;
            same_role = refl;
            same_operation = refl;
            counts_runs = runs_of_suite key.n key.n3 runs suite er;
            counts_samples = ap length measured;
            averages = mean_of-average (v ∷ later) ∙ ap average measured;
            deviates = std_dev_of-deviation (v ∷ later) ∙ ap deviation measured;
            above_min = subst (Every (λ w. least ≤ w)) measured below;
            attains_min = subst (Any (λ w. w ≡ least)) measured least_there;
            below_max = subst (Every (λ w. w ≤ greatest)) measured above;
            attains_max = subst (Any (λ w. w ≡ greatest)) measured greatest_there;
          },
        )

    summaries_of-AreSummaries :
        (keys : List Key)
        → Every (HasEntries (after suite)) keys
        → (outs : List (OperationSummary f)) × (summaries_of f {E = E} (after suite) keys ≡ ok outs)
          × AreSummaries suite keys outs
    unfolding summaries_of
    summaries_of-AreSummaries [] h = ([], refl, tt)
    summaries_of-AreSummaries (key ∷ keys) (entries, h) =
        let (out, e, q) = summary_of-IsSummary key entries in
        let (outs, eo, qs) = summaries_of-AreSummaries keys h in (out ∷ outs, rw (e, eo), (q, qs))

Every-at :
    (P : Key → Type 0) (key : Key) (keys : List Key)
    → Every P keys
    → Any (λ k. k ≡ key) keys
    → P key
Every-at P key [] h there = absurd there
Every-at P key (k ∷ later) h (inl e) = subst P e h.0
Every-at P key (k ∷ later) h (inr there) = Every-at P key later h.1 there

-- The keys that are on file are those that have a measurement.
on_file_iff :
    (suite : Series) (key : Key)
    → Any (λ k. k ≡ key) (sort_keys (add_runs suite new_summarizer).order)
      ↔ ((v : ℕ) × (later : List ℕ) × (measurements suite key ≡ v ∷ later))
on_file_iff suite key =
    let s = add_runs suite new_summarizer in
    let consistent = add_runs-IsConsistent suite new_summarizer new_summarizer-IsConsistent in
    let indexed = add_runs-IsIndexed suite new_summarizer new_summarizer-IsIndexed in
    (
      λ there.
          let ((v, later, e), _) =
            Every-at (HasEntries s) key (sort_keys s.order)
              (sort_keys-Every (HasEntries s) s.order consistent) there in
          (v, later, sym (values_for_suite key suite) ∙ e),
      λ (v, later, e).
          sort_keys-Any (λ k. k ≡ key) s.order
            (indexed.0 key (v ∷ later) (find_of_values s key (values_for_suite key suite ∙ e))),
    )

-- Whatever runs are added to a new summarizer, `summaries` does not panic. Its summaries belong, one
-- to one and in order, to the scenarios, roles and operations that have a measurement in the suite,
-- each of which occurs once, sorted by `n`, then by `n3`, and then with signers before the Combiner
-- and the Combiner before tracers. A summary names these, gives the number of the scenario's runs,
-- and the number, the mean, the sample deviation, the minimum and the maximum of what the actors of
-- the role measured for the operation in all runs of the scenario.
pub summaries_total :
    (f : Floats) (E : Type 0) (suite : Series)
    → (keys : List Key) × (outs : List (OperationSummary f)) × (summaries f {E = E}
          (add_runs suite new_summarizer)
        ≡ ok outs)
      × IsSorted keys
      × IsDistinct keys
      × ((key : Key)
          → Any (λ k. k ≡ key) keys
            ↔ ((v : ℕ) × (later : List ℕ) × (measurements suite key ≡ v ∷ later)))
      × AreSummaries f suite keys outs
unfolding summaries
summaries_total f E suite =
    let s = add_runs suite new_summarizer in
    let consistent = add_runs-IsConsistent suite new_summarizer new_summarizer-IsConsistent in
    let indexed = add_runs-IsIndexed suite new_summarizer new_summarizer-IsIndexed in
    let (outs, e, q) =
      summaries_of-AreSummaries f {E = E} suite (sort_keys s.order)
        (sort_keys-Every (HasEntries s) s.order consistent) in
    (
      sort_keys s.order,
      outs,
      e,
      sort_keys-IsSorted s.order,
      sort_keys-IsDistinct s.order indexed.2,
      on_file_iff suite,
      q,
    )
