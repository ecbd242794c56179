-- ===== src/Bench/Consistency.antt =====
-- Every key that was seen has a measurement, and its scenario a run.
use simulation_taps_tt.Base.{
  ℕ, ◌+◌, ◌≡◌, refl, sym, ap, ◌∙◌, subst, none, some, List, [], ◌∷◌, ◌++◌, inl, inr, Bool-cases,
  Option-cases, Every, Every-map, Every-snoc, if◌then◌else◌, arith,
}
use simulation_taps_tt.Bench.Assoc.{find, put, find-put}
use simulation_taps_tt.Bench.Lines.{BenchRecord}
use simulation_taps_tt.Bench.Stats.{
  Key, same_key, same_scenario, Summarizer, new_summarizer, push, key_of, add_records, add_run,
}
use simulation_taps_tt.Bench.Collection.{
  values_for, values_for-push, same_key_refl, same_scenario_sound, same_scenario_refl,
}

abbrev pub HasRun : Summarizer → ℕ → ℕ → Type 0
HasRun s n n3 = (k : ℕ) × (find same_scenario (n, n3) s.runs ≡ some k)

abbrev pub HasEntries : Summarizer → Key → Type 0
HasEntries s key =
    ((v : ℕ) × (later : List ℕ) × (values_for key s ≡ v ∷ later)) × HasRun s key.n key.n3

-- Every key in the order has a measurement, and its scenario has a run.
abbrev pub IsConsistent : Summarizer → Type 0
IsConsistent s = Every (HasEntries s) s.order

pub push_runs : (k : Key) (m : ℕ) (s : Summarizer) → (push k m s).runs ≡ s.runs
unfolding push
push_runs k m s = elim (Option-cases (find same_key k s.samples)) [
  | inl absent ↦ ground (arith, absent)
  | inr (v, present) ↦ ground (arith, present)
]

push-HasRun :
    (k : Key) (m : ℕ) (s : Summarizer) (n n3 : ℕ) → HasRun s n n3 → HasRun (push k m s) n n3
push-HasRun k m s n n3 (r, e) = (r, ap (λ t. find same_scenario (n, n3) t) (push_runs k m s) ∙ e)

push-HasEntries :
    (k : Key) (m : ℕ) (s : Summarizer) (key : Key) → HasEntries s key → HasEntries (push k m s) key
push-HasEntries k m s key ((v, later, e), run) = (
  (
    v,
    later ++ (if same_key key k then m ∷ [] else []),
    values_for-push key k m s ∙ ap (λ t. t ++ (if same_key key k then m ∷ [] else [])) e,
  ),
  push-HasRun k m s key.n key.n3 run,
)

snoc_cases : (xs : List ℕ) (m : ℕ) → (v : ℕ) × (later : List ℕ) × (xs ++ (m ∷ []) ≡ v ∷ later)
snoc_cases [] m = (m, [], refl)
snoc_cases (x ∷ xs) m = (x, xs ++ (m ∷ []), refl)

pushed-HasEntries :
    (k : Key) (m : ℕ) (s : Summarizer) → HasRun s k.n k.n3 → HasEntries (push k m s) k
pushed-HasEntries k m s run =
    let (v, later, e) = snoc_cases (values_for k s) m in
    let added : values_for k (push k m s) ≡ values_for k s ++ (m ∷ []) =
      ground (arith, values_for-push k k m s, same_key_refl k) in
    ((v, later, added ∙ e), push-HasRun k m s k.n k.n3 run)

pub push_order_absent :
    (k : Key) (m : ℕ) (s : Summarizer)
    → find same_key k s.samples ≡ none
    → (push k m s).order ≡ s.order ++ (k ∷ [])
unfolding push
push_order_absent k m s absent = ground (arith, absent)

pub push_order_present :
    (k : Key) (m : ℕ) (s : Summarizer) {v : List ℕ}
    → find same_key k s.samples ≡ some v
    → (push k m s).order ≡ s.order
unfolding push
push_order_present k m s present = ground (arith, present)

push-IsConsistent :
    (k : Key) (m : ℕ) (s : Summarizer)
    → IsConsistent s
    → HasRun s k.n k.n3
    → IsConsistent (push k m s)
push-IsConsistent k m s h run =
    let kept = Every-map _ (HasEntries (push k m s)) s.order (push-HasEntries k m s) h in
    elim (Option-cases (find same_key k s.samples)) [
      | inl absent ↦
          subst (Every (HasEntries (push k m s))) (sym (push_order_absent k m s absent))
            (Every-snoc _ s.order k kept (pushed-HasEntries k m s run))
      | inr (v, present) ↦
          subst (Every (HasEntries (push k m s))) (sym (push_order_present k m s present)) kept
    ]

add_records-IsConsistent :
    (n n3 : ℕ) (records : List BenchRecord) (s : Summarizer)
    → IsConsistent s
    → HasRun s n n3
    → IsConsistent (add_records n n3 records s)
unfolding add_records
add_records-IsConsistent n n3 [] s h run = h
add_records-IsConsistent n n3 (r ∷ later) s h run =
    add_records-IsConsistent n n3 later (push (key_of n n3 r) r.micros s)
      (push-IsConsistent (key_of n n3 r) r.micros s h run)
      (push-HasRun (key_of n n3 r) r.micros s n n3 run)

pub add_run-IsConsistent :
    (n n3 : ℕ) (records : List BenchRecord) (s : Summarizer)
    → IsConsistent s
    → IsConsistent (add_run n n3 records s)
unfolding add_run
add_run-IsConsistent n n3 records s h =
    add_records-IsConsistent n n3 records
      (record s { runs = put same_scenario (n, n3) (before + 1) s.runs })
      (Every-map (HasEntries s)
        (HasEntries (record s { runs = put same_scenario (n, n3) (before + 1) s.runs })) s.order
        (λ key e. (e.0, counted key.n key.n3 e.1)) h)
      (before + 1, own)
  where
    before : ℕ
    before = elim (find same_scenario (n, n3) s.runs) [ none ↦ 0 | some k ↦ k ]

    after :
        (p : ℕ × ℕ)
        → find same_scenario p (put same_scenario (n, n3) (before + 1) s.runs)
          ≡ (if same_scenario p (n, n3) then some (before + 1) else find same_scenario p s.runs)
    after p =
        find-put same_scenario same_scenario_sound same_scenario_refl p (n, n3) (before + 1) s.runs

    own :
        find same_scenario (n, n3) (put same_scenario (n, n3) (before + 1) s.runs)
        ≡ some (before + 1)
    own = ground (arith, after (n, n3), same_scenario_refl (n, n3))

    counted :
        (i j : ℕ)
        → HasRun s i j
        → (k : ℕ) × (find same_scenario (i, j) (put same_scenario (n, n3) (before + 1) s.runs)
            ≡ some k)
    counted i j (k, e) = elim (Bool-cases (same_scenario (i, j) (n, n3))) [
      | inl same ↦ (before + 1, ground (arith, after (i, j), same))
      | inr other ↦ (k, ground (arith, after (i, j), other, e))
    ]

pub new_summarizer-IsConsistent : IsConsistent new_summarizer
unfolding new_summarizer
new_summarizer-IsConsistent = tt

-- The runs of a suite, one after the other.
abbrev pub add_runs : List ((ℕ × ℕ) × List BenchRecord) → Summarizer → Summarizer
add_runs [] s = s
add_runs (((n, n3), records) ∷ later) s = add_runs later (add_run n n3 records s)

pub add_runs-IsConsistent :
    (suite : List ((ℕ × ℕ) × List BenchRecord)) (s : Summarizer)
    → IsConsistent s
    → IsConsistent (add_runs suite s)
add_runs-IsConsistent [] s h = h
add_runs-IsConsistent (((n, n3), records) ∷ later) s h =
    add_runs-IsConsistent later (add_run n n3 records s) (add_run-IsConsistent n n3 records s h)
