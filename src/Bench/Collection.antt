-- ===== src/Bench/Collection.antt =====
-- Every measurement of a run is collected, under its own key.
use mathlib.Core.List.{append_assoc, append-nil}
use simulation_taps_tt.Base.{
  ℕ, ◌≡◌, refl, sym, ap, ◌∙◌, Bool, true, false, none, some, List, [], ◌∷◌, ◌++◌, inl, inr,
  Bool-cases, Option-cases, Bytes, eq_bytes, eq_bytes→eq, if◌then◌else◌, arith,
}
use simulation_taps_tt.Bench.Assoc.{find, put, find-put}
use simulation_taps_tt.Bench.Lines.{BenchRecord}
use simulation_taps_tt.Bench.Stats.{
  Role, role_signer, role_combiner, role_tracer, rank, Key, same_key, same_scenario, Summarizer,
  add_records, add_run, push, key_of,
}

rank-injective : (a b : Role) → rank a ≡ rank b → a ≡ b
rank-injective role_signer role_signer h = refl
rank-injective role_combiner role_combiner h = refl
rank-injective role_tracer role_tracer h = refl
rank-injective role_signer role_combiner h = absurd (omega (arith, h))
rank-injective role_signer role_tracer h = absurd (omega (arith, h))
rank-injective role_combiner role_signer h = absurd (omega (arith, h))
rank-injective role_combiner role_tracer h = absurd (omega (arith, h))
rank-injective role_tracer role_signer h = absurd (omega (arith, h))
rank-injective role_tracer role_combiner h = absurd (omega (arith, h))

pub same_key_sound : (j k : Key) → same_key j k ≡ true → j ≡ k
unfolding same_key
same_key_sound j k h =
    let en : j.n ≡ k.n = ground (arith, h) in
    let em : j.n3 ≡ k.n3 = ground (arith, h) in
    let er : j.role ≡ k.role = rank-injective j.role k.role (ground (arith, h)) in
    let eo : j.operation ≡ k.operation = eq_bytes→eq j.operation k.operation (ground (arith, h)) in
    cc (en, em, er, eo)

eq_bytes_refl : (xs : Bytes) → eq_bytes xs xs ≡ true
eq_bytes_refl [] = refl
eq_bytes_refl (x ∷ xs) = ground (arith, eq_bytes_refl xs)

pub same_key_refl : (k : Key) → same_key k k ≡ true
unfolding same_key
same_key_refl k = ground (arith, eq_bytes_refl k.operation)

pub same_scenario_sound : (p q : ℕ × ℕ) → same_scenario p q ≡ true → p ≡ q
unfolding same_scenario
same_scenario_sound p q h =
    let e0 : p.0 ≡ q.0 = ground (arith, h) in let e1 : p.1 ≡ q.1 = ground (arith, h) in cc (e0, e1)

pub same_scenario_refl : (p : ℕ × ℕ) → same_scenario p p ≡ true
unfolding same_scenario
same_scenario_refl p = ground arith

-- The measurements on file for a key.
abbrev pub values_for : Key → Summarizer → List ℕ
values_for key s = elim (find same_key key s.samples) [ none ↦ [] | some values ↦ values ]

-- The measurements for a key among the records of a run, in order.
abbrev pub measured : Key → ℕ → ℕ → List BenchRecord → List ℕ
measured key n n3 [] = []
measured key n n3 (r ∷ later) =
    let rest = measured key n n3 later in
    if same_key key (key_of n n3 r) then r.micros ∷ rest else rest

pub values_for-push :
    (key k : Key) (m : ℕ) (s : Summarizer)
    → values_for key (push k m s) ≡ values_for key s ++ (if same_key key k then m ∷ [] else [])
unfolding push
values_for-push key k m s =
    let put_it : (v : List ℕ)
        → find same_key key (put same_key k v s.samples)
          ≡ (if same_key key k then some v else find same_key key s.samples) =
      λ v. find-put same_key same_key_sound same_key_refl key k v s.samples in
    elim (Bool-cases (same_key key k)) [
      | inl same ↦
          let e : find same_key key s.samples ≡ find same_key k s.samples =
            ap (λ t. find same_key t s.samples) (same_key_sound key k same) in
          elim (Option-cases (find same_key k s.samples)) [
            | inl absent ↦ ground (arith, same, e, absent, put_it (m ∷ []))
            | inr (v, present) ↦ ground (arith, same, e, present, put_it (v ++ (m ∷ [])))
          ]
      | inr other ↦ elim (Option-cases (find same_key k s.samples)) [
        | inl absent ↦ ground (arith, other, absent, put_it (m ∷ []), append-nil (values_for key s))
        | inr (v, present) ↦
            ground (arith, other, present, put_it (v ++ (m ∷ [])), append-nil (values_for key s))
      ]
    ]

values_for-add_records :
    (key : Key) (n n3 : ℕ) (records : List BenchRecord) (s : Summarizer)
    → values_for key (add_records n n3 records s) ≡ values_for key s ++ measured key n n3 records
unfolding add_records
values_for-add_records key n n3 [] s = sym (append-nil (values_for key s))
values_for-add_records key n n3 (r ∷ later) s =
    let pushed = push (key_of n n3 r) r.micros s in
    values_for-add_records key n n3 later pushed
    ∙ ap (λ t. t ++ measured key n n3 later) (values_for-push key (key_of n n3 r) r.micros s)
    ∙ append_assoc (values_for key s) _ (measured key n n3 later)
    ∙ ap (λ t. values_for key s ++ t) (first_of (same_key key (key_of n n3 r)))
  where
    first_of :
        (same : Bool)
        → (if same then r.micros ∷ [] else []) ++ measured key n n3 later
          ≡ (if same then r.micros ∷ measured key n n3 later else measured key n n3 later)
    first_of true = refl
    first_of false = refl

-- After a run is added, the measurements on file for a key are those from before, followed by those
-- of the run's records that have this scenario, role and operation, in order: none is lost, and none
-- is filed under another key.
pub add_run-values_for :
    (key : Key) (n n3 : ℕ) (records : List BenchRecord) (s : Summarizer)
    → values_for key (add_run n n3 records s) ≡ values_for key s ++ measured key n n3 records
unfolding add_run
add_run-values_for key n n3 records s = values_for-add_records key n n3 records _
