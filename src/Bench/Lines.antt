-- ===== src/Bench/Lines.antt =====
-- The lines of an actor's output, of src/bench_stats.rs.
use simulation_taps_tt.Base.{
  ℕ, ◌&&◌, ◌||◌, Bool, not, Option, none, some, List, [], ◌∷◌, eq_bytes, leb, ◌==◌, if◌then◌else◌,
}
use simulation_taps_tt.Base.Numerals.{Text, parse}

pub data Actor : Type 0 where
  combiner : Actor
  signer tracer : ℕ → Actor

pub record BenchRecord : Type 0 where
  pub actor : Actor
  pub phase : Text
  pub micros : ℕ

-- The `White_Space` of Unicode.
abbrev pub is_white : ℕ → Bool
is_white p =
    (leb 9 p && leb p 13)
    || (p == 32)
    || (p == 133)
    || (p == 160)
    || (p == 5760)
    || (leb 8192 p && leb p 8202)
    || (p == 8232)
    || (p == 8233)
    || (p == 8239)
    || (p == 8287)
    || (p == 12288)

abbrev pub trim_start : Text → Text
trim_start [] = []
trim_start (p ∷ text) = let rest = trim_start text in if is_white p then rest else p ∷ text

abbrev pub trim_end : Text → Text
trim_end [] = []
trim_end (p ∷ text) = elim (trim_end text) [
  | [] ↦ (if is_white p then [] else p ∷ [])
  | q ∷ rest ↦ p ∷ q ∷ rest
]

-- `trim`
abbrev pub trim : Text → Text
trim text = trim_end (trim_start text)

-- The text before the first comma, and the text behind it if there is one.
abbrev pub split_comma : Text → Text × Option Text
split_comma [] = ([], none)
split_comma (p ∷ text) =
    let (before, behind) = split_comma text in
    if p == 44 then ([], some text) else (p ∷ before, behind)

-- `BENCH`
abbrev pub bench : Text
bench = 66 ∷ 69 ∷ 78 ∷ 67 ∷ 72 ∷ []

-- `splitn(3, ',')`: the third part is all that is left.
unfoldable pub parse_bench_line : Text → Option (Text × ℕ)
parse_bench_line line =
    let (first, behind) = split_comma (trim line) in
    if not (eq_bytes first bench) then none else elim behind [
      | none ↦ none
      | some text ↦
          let (phase, last) = split_comma text in
          elim last [
            | none ↦ none
            | some number ↦ elim (parse 128 (trim number)) [
              | none ↦ none
              | some micros ↦ some (phase, micros)
            ]
          ]
    ]

-- `lines`: the text up to the next line feed, without a carriage return before it.
abbrev pub strip_return : Text → Text
strip_return [] = []
strip_return (p ∷ []) = if p == 13 then [] else p ∷ []
strip_return (p ∷ q ∷ text) = p ∷ strip_return (q ∷ text)

-- The pieces between the line feeds; the last one is dropped if it is empty.
abbrev pub pieces : Text → Text × List Text
pieces [] = ([], [])
pieces (p ∷ text) =
    let (current, later) = pieces text in
    if p == 10 then ([], current ∷ later) else (p ∷ current, later)

abbrev pub strip_lines : List Text → List Text
strip_lines [] = []
strip_lines ([] ∷ []) = []
strip_lines ((p ∷ text) ∷ []) = (p ∷ text) ∷ []
strip_lines (line ∷ next ∷ later) = strip_return line ∷ strip_lines (next ∷ later)

abbrev pub lines : Text → List Text
lines text = let (current, later) = pieces text in strip_lines (current ∷ later)

abbrev pub records_of : Actor → List Text → List BenchRecord
records_of actor [] = []
records_of actor (line ∷ later) =
    let rest = records_of actor later in
    elim (parse_bench_line line) [
      | none ↦ rest
      | some p ↦ record { actor = actor; phase = p.0; micros = p.1 } ∷ rest
    ]

unfoldable pub collect_records : Actor → Text → List BenchRecord
collect_records actor stdout = records_of actor (lines stdout)
