-- ===== src/Bench/Stats.antt =====
-- The summaries of src/bench_stats.rs.
use simulation_taps_tt.Base.{
  ℕ, ◌+◌, ◌-◌, ◌&&◌, ◌||◌, Bool, Option, none, some, List, [], ◌∷◌, ◌++◌, map, length, eq_bytes,
  ltb, leb, ◌==◌, if◌then◌else◌,
}
use simulation_taps_tt.Base.Outcome.{Outcome, ok, expect, ◌>>=◌}
use simulation_taps_tt.Base.Numerals.{Text}
use simulation_taps_tt.Bench.Assoc.{Assoc, find, put}
use simulation_taps_tt.Bench.Lines.{Actor, combiner, signer, tracer, BenchRecord}

-- `bench_stats::Role`, in the order that it derives.
pub data Role : Type 0 where
  role_signer role_combiner role_tracer : Role

-- `Role::of`
unfoldable pub role_of : Actor → Role
role_of combiner = role_combiner
role_of (signer _) = role_signer
role_of (tracer _) = role_tracer

-- The place of a role in the order.
abbrev pub rank : Role → ℕ
rank role_signer = 0
rank role_combiner = 1
rank role_tracer = 2

pub record Key : Type 0 where
  pub n : ℕ
  pub n3 : ℕ
  pub role : Role
  pub operation : Text

unfoldable pub same_key : Key → Key → Bool
same_key j k =
    ((j.n == k.n) && (j.n3 == k.n3))
    && ((rank j.role == rank k.role) && eq_bytes j.operation k.operation)

unfoldable pub same_scenario : ℕ × ℕ → ℕ × ℕ → Bool
same_scenario p q = (p.0 == q.0) && (p.1 == q.1)

pub record Summarizer : Type 0 where
  pub order : List Key
  pub samples : Assoc same_key (List ℕ)
  pub runs : Assoc same_scenario ℕ

-- `Summarizer::new`
unfoldable pub new_summarizer : Summarizer
new_summarizer = record { order = []; samples = []; runs = [] }

-- `entry(key).or_insert_with(…).push(micros)`
unfoldable pub push : Key → ℕ → Summarizer → Summarizer
push key micros s = elim (find same_key key s.samples) [
  | none ↦ record s {
    order = s.order ++ (key ∷ []);
    samples = put same_key key (micros ∷ []) s.samples;
  }
  | some values ↦ record s { samples = put same_key key (values ++ (micros ∷ [])) s.samples }
]

-- The key of a record.
abbrev pub key_of : ℕ → ℕ → BenchRecord → Key
key_of n n3 r = record { n = n; n3 = n3; role = role_of r.actor; operation = r.phase }

unfoldable pub add_records : ℕ → ℕ → List BenchRecord → Summarizer → Summarizer
unfolding push
add_records n n3 [] s = s
add_records n n3 (r ∷ later) s = add_records n n3 later (push (key_of n n3 r) r.micros s)

unfoldable pub add_run : ℕ → ℕ → List BenchRecord → Summarizer → Summarizer
unfolding add_records
add_run n n3 records s =
    let before : ℕ = elim (find same_scenario (n, n3) s.runs) [ none ↦ 0 | some k ↦ k ] in
    add_records n n3 records (record s { runs = put same_scenario (n, n3) (before + 1) s.runs })

-- `f64`
pub record Floats : Type 1 where
  pub Float : Type 0
  pub zero_float : Float
  pub of_nat : ℕ → Float
  pub add : Float → Float → Float
  pub sub : Float → Float → Float
  pub div : Float → Float → Float
  pub square : Float → Float
  pub sqrt : Float → Float

pub record OperationSummary (f : Floats) : Type 0 where
  pub n : ℕ
  pub n3 : ℕ
  pub runs : ℕ
  pub role : Role
  pub operation : Text
  pub samples : ℕ
  pub mean : f.Float
  pub std_dev : f.Float
  pub min : ℕ
  pub max : ℕ

-- The stable sort by scenario and role: a key goes in front of the first
-- that is not less.
abbrev pub leq_key : Key → Key → Bool
leq_key j k =
    ltb j.n k.n
    || ((j.n == k.n) && (ltb j.n3 k.n3 || ((j.n3 == k.n3) && leb (rank j.role) (rank k.role))))

unfoldable pub place : Key → List Key → List Key
place key [] = key ∷ []
place key (k ∷ later) =
    let rest = place key later in if leq_key key k then key ∷ k ∷ later else k ∷ rest

unfoldable pub sort_keys : List Key → List Key
unfolding place
sort_keys [] = []
sort_keys (key ∷ later) = place key (sort_keys later)

abbrev pub minimum : List ℕ → Option ℕ
minimum [] = none
minimum (v ∷ later) = elim (minimum later) [
  | none ↦ some v
  | some m ↦ (if leb v m then some v else some m)
]

abbrev pub maximum : List ℕ → Option ℕ
maximum [] = none
maximum (v ∷ later) = elim (maximum later) [
  | none ↦ some v
  | some m ↦ (if leb m v then some v else some m)
]

module _ (f : Floats) where
  abbrev pub sum_floats : f.Float → List f.Float → f.Float
  sum_floats total [] = total
  sum_floats total (v ∷ later) = sum_floats (f.add total v) later

  unfoldable pub mean_of : List ℕ → f.Float
  mean_of values = f.div (sum_floats f.zero_float (map f.of_nat values)) (f.of_nat (length values))

  unfoldable pub std_dev_of : List ℕ → f.Float
  unfolding mean_of
  std_dev_of values =
      if ltb 1 (length values)
      then f.sqrt (
          f.div
            (sum_floats f.zero_float
              (map (λ v. f.square (f.sub (f.of_nat v) (mean_of values))) values))
            (f.of_nat (length values - 1)))
      else f.zero_float

  -- A key that is missing in an index expression panics.
  unfoldable pub summary_of : {E : Type 0} → Summarizer → Key → Outcome E (OperationSummary f)
  unfolding std_dev_of
  summary_of s key = do
    values ← expect "no entry found for key" (find same_key key s.samples)
    runs ← expect "no entry found for key" (find same_scenario (key.n, key.n3) s.runs)
    least ← expect "non-empty" (minimum values)
    greatest ← expect "non-empty" (maximum values)
    ok (record {
      n = key.n;
      n3 = key.n3;
      runs = runs;
      role = key.role;
      operation = key.operation;
      samples = length values;
      mean = mean_of values;
      std_dev = std_dev_of values;
      min = least;
      max = greatest;
    })

  unfoldable pub summaries_of :
      {E : Type 0} → Summarizer → List Key → Outcome E (List (OperationSummary f))
  unfolding summary_of
  summaries_of s [] = ok []
  summaries_of s (key ∷ later) = do
    summary ← summary_of s key
    rest ← summaries_of s later
    ok (summary ∷ rest)

  unfoldable pub summaries : {E : Type 0} → Summarizer → Outcome E (List (OperationSummary f))
  unfolding summaries_of sort_keys
  summaries s = summaries_of s (sort_keys s.order)
