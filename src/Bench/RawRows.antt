-- ===== src/Bench/RawRows.antt =====
-- The rows of the raw files of src/bin/benchmark.rs.
use mathlib.Core.List.{append_assoc, append-nil}
use simulation_taps_tt.Base.{ℕ, ◌≡◌, refl, sym, ap, ◌∙◌, List, [], ◌∷◌, ◌++◌}
use simulation_taps_tt.Base.Numerals.{Text}
use simulation_taps_tt.Bench.Lines.{Actor, combiner, signer, tracer, BenchRecord}
use simulation_taps_tt.Bench.Files.{RawFiles, plain_row, actor_row, write_record, write_raw}

abbrev pub joined : {A : Type 0} → (A → Text) → List A → Text
joined line [] = []
joined line (a ∷ later) = line a ++ joined line later

-- The line of a record in each of the three files, if it belongs there.
abbrev pub signer_line : ℕ → ℕ → ℕ → BenchRecord → Text
signer_line n n3 run r = elim r.actor [
  | signer i ↦ actor_row n n3 run i r ++ (10 ∷ [])
  | combiner ↦ []
  | tracer _ ↦ []
]

abbrev pub combiner_line : ℕ → ℕ → ℕ → BenchRecord → Text
combiner_line n n3 run r = elim r.actor [
  | combiner ↦ plain_row n n3 run r ++ (10 ∷ [])
  | signer _ ↦ []
  | tracer _ ↦ []
]

abbrev pub tracer_line : ℕ → ℕ → ℕ → BenchRecord → Text
tracer_line n n3 run r = elim r.actor [
  | tracer k ↦ actor_row n n3 run k r ++ (10 ∷ [])
  | combiner ↦ []
  | signer _ ↦ []
]

-- Text is added at the end of each file.
abbrev pub extended : Text → Text → Text → RawFiles → RawFiles
extended s c t files = record {
  signers = files.signers ++ s;
  combiner = files.combiner ++ c;
  tracers = files.tracers ++ t;
}

pub extended_none : (files : RawFiles) → extended [] [] [] files ≡ files
extended_none files =
    cc (append-nil files.signers, append-nil files.combiner, append-nil files.tracers)

pub extended_twice :
    (s c t s' c' t' : Text) (files : RawFiles)
    → extended s' c' t' (extended s c t files) ≡ extended (s ++ s') (c ++ c') (t ++ t') files
extended_twice s c t s' c' t' files = cc (
  append_assoc files.signers s s',
  append_assoc files.combiner c c',
  append_assoc files.tracers t t',
)

write_record_extends :
    (n n3 run : ℕ) (r : BenchRecord) (actor : Actor) (files : RawFiles)
    → r.actor ≡ actor
    → write_record n n3 run actor r files
      ≡ extended (signer_line n n3 run r) (combiner_line n n3 run r) (tracer_line n n3 run r) files
unfolding write_record
write_record_extends n n3 run r combiner files e =
    rw e (cc (append-nil files.signers, append-nil files.tracers))
write_record_extends n n3 run r (signer i) files e =
    rw e (cc (append-nil files.combiner, append-nil files.tracers))
write_record_extends n n3 run r (tracer k) files e =
    rw e (cc (append-nil files.signers, append-nil files.combiner))

pub write_raw-extended :
    (n n3 run : ℕ) (records : List BenchRecord) (files : RawFiles)
    → write_raw n n3 run records files
      ≡ extended
          (joined (signer_line n n3 run) records)
          (joined (combiner_line n n3 run) records)
          (joined (tracer_line n n3 run) records)
          files
unfolding write_raw
write_raw-extended n n3 run [] files = sym (extended_none files)
write_raw-extended n n3 run (r ∷ later) files =
    write_raw-extended n n3 run later (write_record n n3 run r.actor r files)
    ∙ ap (extended _ _ _) (write_record_extends n n3 run r r.actor files refl)
    ∙ extended_twice _ _ _ _ _ _ files
