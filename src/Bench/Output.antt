-- ===== src/Bench/Output.antt =====
-- The lines that the actors print are read back, of src/bench_stats.rs.
use simulation_taps_tt.Base.{
  ℕ, zero, suc, ◌+◌, ◌%◌, ◌/◌, ◌<◌, ◌≤◌, ◌^◌, ◌≡◌, refl, sym, ap, subst, ◌∙◌, false, none, some,
  List, [], ◌∷◌, ◌++◌, inl, inr, Bool-cases, Every, Every-map, Every-snoc, ltb, ◌==◌, arith,
}
use simulation_taps_tt.Base.Numerals.{Text, decimal, to_string}
use simulation_taps_tt.Bench.Lines.{
  Actor, BenchRecord, is_white, trim_start, trim_end, trim, split_comma, bench, parse_bench_line,
  strip_return, pieces, strip_lines, lines, records_of, collect_records,
}
use simulation_taps_tt.Base.Numerals.{parse-to_string, decimal_first}

abbrev pub IsDigit : ℕ → Type 0
IsDigit d = (48 ≤ d) × (d ≤ 57)

decimal-IsDigit : (fuel n : ℕ) → Every IsDigit (decimal fuel n)
unfolding decimal
decimal-IsDigit zero n = tt
decimal-IsDigit (suc fuel) n = elim (Bool-cases (ltb n 10)) [
  | inl small ↦
      let le : n < 10 = ground (arith, small) in rw small ((omega arith, omega (arith, le)), tt)
  | inr large ↦
      let last : IsDigit (48 + n % 10) = (omega arith, omega arith) in
      rw large (
        Every-snoc IsDigit (decimal fuel (n / 10)) (48 + n % 10) (decimal-IsDigit fuel (n / 10))
          last)
]

is_white_digit : (d : ℕ) → IsDigit d → is_white d ≡ false
is_white_digit d (low, high) = ground (arith, low, high)

trim_start_digits : (text : Text) → Every IsDigit text → trim_start text ≡ text
trim_start_digits [] h = refl
trim_start_digits (d ∷ text) h = ground (arith, is_white_digit d h.0)

trim_end_digits : (text : Text) → Every IsDigit text → trim_end text ≡ text
trim_end_digits [] h = refl
trim_end_digits (d ∷ []) h = ground (arith, is_white_digit d h.0)
trim_end_digits (d ∷ e ∷ text) h = rw (trim_end_digits (e ∷ text) h.1)

trim_end_append :
    (xs : Text) (y : ℕ) (ys : Text)
    → trim_end (y ∷ ys) ≡ y ∷ ys
    → trim_end (xs ++ (y ∷ ys)) ≡ xs ++ (y ∷ ys)
trim_end_append [] y ys h = h
trim_end_append (x ∷ []) y ys h = rw h
trim_end_append (x ∷ z ∷ xs) y ys h = rw (trim_end_append (z ∷ xs) y ys h)

split_comma_append :
    (before text : Text)
    → Every (λ p. (p == 44) ≡ false) before
    → split_comma (before ++ (44 ∷ text)) ≡ (before, some text)
split_comma_append [] text h = refl
split_comma_append (p ∷ before) text h = rw (h.0, split_comma_append before text h.1)

-- The line that an actor prints for a phase.
abbrev pub bench_line : Text → ℕ → Text
bench_line phase micros = bench ++ (44 ∷ (phase ++ (44 ∷ to_string micros)))

trim_number : (micros : ℕ) → trim (to_string micros) ≡ to_string micros
unfolding to_string
trim_number micros =
    let digits = decimal-IsDigit (suc micros) micros in
    ap trim_end (trim_start_digits _ digits) ∙ trim_end_digits _ digits

trim-bench_line :
    (phase : Text) (micros : ℕ) → trim (bench_line phase micros) ≡ bench_line phase micros
unfolding to_string
trim-bench_line phase micros =
    let (d, text, e, _) = decimal_first (suc micros) micros (omega arith) in
    let digits : trim_end (d ∷ text) ≡ d ∷ text =
      trim_end_digits (d ∷ text) (subst (Every IsDigit) e (decimal-IsDigit (suc micros) micros)) in
    let comma : trim_end (44 ∷ d ∷ text) ≡ 44 ∷ d ∷ text =
      trim_end_append (44 ∷ []) d text digits in
    let whole = trim_end_append (bench ++ (44 ∷ phase)) 44 (d ∷ text) comma in
    subst
      (λ t. trim_end (bench ++ (44 ∷ (phase ++ (44 ∷ t)))) ≡ bench ++ (44 ∷ (phase ++ (44 ∷ t))))
      (sym e) whole

parse_bench_line-bench_line :
    (phase : Text) (micros : ℕ)
    → Every (λ p. (p == 44) ≡ false) phase
    → micros < 2 ^ 128
    → parse_bench_line (bench_line phase micros) ≡ some (phase, micros)
unfolding parse_bench_line
parse_bench_line-bench_line phase micros plain fits =
    rw
      (
        trim-bench_line phase micros,
        split_comma_append phase (to_string micros) plain,
        trim_number micros,
        parse-to_string 128 micros fits,
      )
      (ap (λ q. some (q.0, micros)) (split_comma_append phase (to_string micros) plain))

-- What an actor prints: the line of a measurement, or any other line.
pub data Printed : Type 0 where
  measurement : Text → ℕ → Printed
  other : Text → Printed

abbrev pub line_of : Printed → Text
line_of (measurement phase micros) = bench_line phase micros
line_of (other line) = line

abbrev pub output_of : List Printed → Text
output_of [] = []
output_of (p ∷ later) = line_of p ++ (10 ∷ output_of later)

-- No line feed inside a line.
abbrev pub IsLine : Text → Type 0
IsLine = Every (λ p. (p == 10) ≡ false)

abbrev pub IsPrintable : Printed → Type 0
IsPrintable (measurement phase micros) =
    (Every (λ p. (p == 44) ≡ false) phase × IsLine phase) × (micros < 2 ^ 128)
IsPrintable (other line) =
    (IsLine line × (strip_return line ≡ line)) × (parse_bench_line line ≡ none)

abbrev pub measurements_of : Actor → List Printed → List BenchRecord
measurements_of actor [] = []
measurements_of actor (measurement phase micros ∷ later) =
    record { actor = actor; phase = phase; micros = micros } ∷ measurements_of actor later
measurements_of actor (other line ∷ later) = measurements_of actor later

pieces_append :
    (xs text : Text)
    → IsLine xs
    → pieces (xs ++ (10 ∷ text)) ≡ (xs, (pieces text).0 ∷ (pieces text).1)
pieces_append [] text h = refl
pieces_append (x ∷ xs) text h = rw (h.0, pieces_append xs text h.1)

lines_append :
    (xs text : Text)
    → IsLine xs
    → strip_return xs ≡ xs
    → lines (xs ++ (10 ∷ text)) ≡ xs ∷ lines text
lines_append xs text h kept =
    ap (λ q. strip_lines (q.0 ∷ q.1)) (pieces_append xs text h) ∙ ap (λ t. t ∷ lines text) kept

strip_return_digits : (text : Text) → Every IsDigit text → strip_return text ≡ text
strip_return_digits [] h = refl
strip_return_digits (d ∷ []) (h, _) = ground (arith, h.0)
strip_return_digits (d ∷ e ∷ text) h = ap (λ t. d ∷ t) (strip_return_digits (e ∷ text) h.1)

strip_return_append :
    (xs : Text) (y : ℕ) (ys : Text)
    → strip_return (y ∷ ys) ≡ y ∷ ys
    → strip_return (xs ++ (y ∷ ys)) ≡ xs ++ (y ∷ ys)
strip_return_append [] y ys h = h
strip_return_append (x ∷ []) y ys h = ap (λ t. x ∷ t) h
strip_return_append (x ∷ z ∷ xs) y ys h = ap (λ t. x ∷ t) (strip_return_append (z ∷ xs) y ys h)

strip_return-bench_line :
    (phase : Text) (micros : ℕ) → strip_return (bench_line phase micros) ≡ bench_line phase micros
unfolding to_string
strip_return-bench_line phase micros =
    let (d, text, e, _) = decimal_first (suc micros) micros (omega arith) in
    let digits : strip_return (d ∷ text) ≡ d ∷ text =
      strip_return_digits (d ∷ text)
        (subst (Every IsDigit) e (decimal-IsDigit (suc micros) micros)) in
    let whole =
      strip_return_append (bench ++ (44 ∷ phase)) 44 (d ∷ text) (ap (λ t. 44 ∷ t) digits) in
    subst
      (λ t.
        strip_return (bench ++ (44 ∷ (phase ++ (44 ∷ t)))) ≡ bench ++ (44 ∷ (phase ++ (44 ∷ t))))
      (sym e) whole

digit-IsLine : (d : ℕ) → IsDigit d → (d == 10) ≡ false
digit-IsLine d (low, high) = ground (arith, low)

Every-append :
    {A : Type 0} (P : A → Type 0) (xs ys : List A) → Every P xs → Every P ys → Every P (xs ++ ys)
Every-append P [] ys h k = k
Every-append P (x ∷ xs) ys h k = (h.0, Every-append P xs ys h.1 k)

bench_line-IsLine : (phase : Text) (micros : ℕ) → IsLine phase → IsLine (bench_line phase micros)
unfolding to_string
bench_line-IsLine phase micros h =
    let digits =
      Every-map IsDigit (λ p. (p == 10) ≡ false) (decimal (suc micros) micros) digit-IsLine
        (decimal-IsDigit (suc micros) micros) in
    (
      refl,
      (
        refl,
        (
          refl,
          (refl, (refl, (refl, Every-append (λ p. (p == 10) ≡ false) phase _ h (refl, digits)))),
        ),
      ),
    )

-- From the output of an actor, `collect_records` reads every measurement that was printed, in order,
-- and nothing else. Phases have no comma and no line feed, numbers fit into 128 bits, and the other
-- lines are not of the form of a measurement and do not end with a carriage return.
pub collect_records_complete :
    (actor : Actor) (items : List Printed)
    → Every IsPrintable items
    → collect_records actor (output_of items) ≡ measurements_of actor items
unfolding collect_records
collect_records_complete actor [] h = refl
collect_records_complete actor (measurement phase micros ∷ later) ((plain, fits), h) =
    ap (records_of actor) (
      lines_append (bench_line phase micros) (output_of later)
        (bench_line-IsLine phase micros plain.1) (strip_return-bench_line phase micros))
    ∙ rw (parse_bench_line-bench_line phase micros plain.0 fits, records_of)
        (ap (λ t. record { actor = actor; phase = phase; micros = micros } ∷ t)
          (collect_records_complete actor later h))
collect_records_complete actor (other line ∷ later) ((plain, unread), h) =
    ap (records_of actor) (lines_append line (output_of later) plain.0 plain.1)
    ∙ rw (unread, records_of) (collect_records_complete actor later h)
