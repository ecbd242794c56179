-- ===== src/Bench/Files.antt =====
-- The files that src/bin/benchmark.rs writes. A file is its text; opening and writing succeed.
use Prim.Native.Char.{code}
use simulation_taps_tt.Base.{ℕ, List, [], ◌∷◌, ◌++◌, String}
use simulation_taps_tt.Base.Outcome.{Outcome, ok, ◌>>=◌}
use simulation_taps_tt.Base.Numerals.{Text, to_string}
use simulation_taps_tt.Bench.Lines.{Actor, combiner, signer, tracer, BenchRecord}
use simulation_taps_tt.Bench.Stats.{
  Role, role_signer, role_combiner, role_tracer, Summarizer, Floats, OperationSummary, summaries,
}

-- The code points of a text.
abbrev pub codes : String → Text
codes String.[] = []
codes (String.◌∷◌ c s) = code c ∷ codes s

-- `writeln!`
abbrev pub write_line : Text → Text → Text
write_line file line = file ++ (line ++ (10 ∷ []))

-- `{},{},…`
abbrev pub comma_separated : List Text → Text
comma_separated [] = []
comma_separated (field ∷ []) = field
comma_separated (field ∷ next ∷ later) = field ++ (44 ∷ comma_separated (next ∷ later))

-- `create_csv`: the file is truncated, and starts with its header.
unfoldable pub create_csv : String → Text
create_csv header = write_line [] (codes header)

pub record RawFiles : Type 0 where
  pub signers : Text
  pub combiner : Text
  pub tracers : Text

-- The three raw files as `main` creates them.
unfoldable pub create_raw : RawFiles
unfolding create_csv
create_raw = record {
  signers = create_csv "N,N3,Run,Signer_ID,Phase,Time_Microseconds";
  combiner = create_csv "N,N3,Run,Phase,Time_Microseconds";
  tracers = create_csv "N,N3,Run,Tracer_ID,Phase,Time_Microseconds";
}

-- A row without and with the id of an actor.
abbrev pub plain_row : ℕ → ℕ → ℕ → BenchRecord → Text
plain_row n n3 run r =
    comma_separated (to_string n ∷ to_string n3 ∷ to_string run ∷ r.phase ∷ to_string r.micros ∷ [])

abbrev pub actor_row : ℕ → ℕ → ℕ → ℕ → BenchRecord → Text
actor_row n n3 run id r =
    comma_separated (
      to_string n ∷ to_string n3 ∷ to_string run ∷ to_string id ∷ r.phase ∷ to_string r.micros ∷ [])

-- `match r.actor`
unfoldable pub write_record : ℕ → ℕ → ℕ → Actor → BenchRecord → RawFiles → RawFiles
write_record n n3 run combiner r files = record files {
  combiner = write_line files.combiner (plain_row n n3 run r);
}
write_record n n3 run (signer i) r files = record files {
  signers = write_line files.signers (actor_row n n3 run i r);
}
write_record n n3 run (tracer k) r files = record files {
  tracers = write_line files.tracers (actor_row n n3 run k r);
}

unfoldable pub write_raw : ℕ → ℕ → ℕ → List BenchRecord → RawFiles → RawFiles
unfolding write_record
write_raw n n3 run [] files = files
write_raw n n3 run (r ∷ later) files =
    write_raw n n3 run later (write_record n n3 run r.actor r files)

-- `Role::name`
unfoldable pub role_name : Role → Text
role_name role_signer = codes "signer"
role_name role_combiner = codes "combiner"
role_name role_tracer = codes "tracer"

-- `fixed2` is the format `{:.2}`.
module _ (f : Floats) (fixed2 : f.Float → Text) where
  unfoldable pub summary_row : OperationSummary f → Text
  unfolding role_name
  summary_row row = comma_separated (
      to_string row.n
      ∷ to_string row.n3
      ∷ to_string row.runs
      ∷ role_name row.role
      ∷ row.operation
      ∷ to_string row.samples
      ∷ fixed2 row.mean
      ∷ fixed2 row.std_dev
      ∷ to_string row.min
      ∷ to_string row.max
      ∷ [])

  unfoldable pub write_rows : List (OperationSummary f) → Text → Text
  unfolding summary_row
  write_rows [] file = file
  write_rows (row ∷ later) file = write_rows later (write_line file (summary_row row))

  -- `write_summary`: the whole content of the file.
  unfoldable pub write_summary : {E : Type 0} → Summarizer → Outcome E Text
  unfolding write_rows create_csv
  write_summary s = do
    rows ← summaries f s
    let header =
        create_csv
          "N,N3,Runs,Role,Operation,Samples,Mean_Microseconds,Std_Dev_Microseconds,Min_Microseconds,Max_Microseconds"
    ok (write_rows rows header)
