-- ===== src/Bench/Index.antt =====
-- The keys that a summarizer has seen: each once, and all that have a measurement.
use simulation_taps_tt.Base.{
  ℕ, ◌≡◌, ◌≢◌, ◌⊎◌, sym, subst, some, List, [], ◌∷◌, ◌++◌, inl, inr, Bool-cases, Option-cases,
  Every, Every-map, Every-snoc, Any, if◌then◌else◌, arith,
}
use simulation_taps_tt.Bench.Assoc.{find, put, find-put}
use simulation_taps_tt.Bench.Lines.{BenchRecord}
use simulation_taps_tt.Bench.Stats.{
  Key, key_of, same_key, Summarizer, new_summarizer, push, add_records, add_run,
}
use simulation_taps_tt.Bench.Collection.{same_key_sound, same_key_refl}
use simulation_taps_tt.Bench.Consistency.{add_runs, push_order_absent, push_order_present}
use simulation_taps_tt.Bench.Order.{IsDistinct}

Any-append_left : (P : Key → Type 0) (xs ys : List Key) → Any P xs → Any P (xs ++ ys)
Any-append_left P [] ys h = absurd h
Any-append_left P (x ∷ xs) ys (inl p) = inl p
Any-append_left P (x ∷ xs) ys (inr h) = inr (Any-append_left P xs ys h)

Any-snoc : (P : Key → Type 0) (xs : List Key) (x : Key) → P x → Any P (xs ++ (x ∷ []))
Any-snoc P [] x p = inl p
Any-snoc P (y ∷ xs) x p = inr (Any-snoc P xs x p)

IsDistinct-snoc :
    (xs : List Key) (x : Key) → IsDistinct xs → Every (λ k. k ≢ x) xs → IsDistinct (xs ++ (x ∷ []))
IsDistinct-snoc [] x d h = (tt, tt)
IsDistinct-snoc (y ∷ xs) x d h =
    (Every-snoc (λ j. y ≢ j) xs x d.0 h.0, IsDistinct-snoc xs x d.1 h.1)

-- The order lists the keys of the table, each once.
abbrev pub IsIndexed : Summarizer → Type 0
IsIndexed s =
    ((key : Key) (values : List ℕ)
      → find same_key key s.samples ≡ some values
      → Any (λ k. k ≡ key) s.order)
    × Every (λ key. (values : List ℕ) × (find same_key key s.samples ≡ some values)) s.order
    × IsDistinct s.order

push_samples :
    (k : Key) (m : ℕ) (s : Summarizer)
    → (values : List ℕ) × ((push k m s).samples ≡ put same_key k values s.samples)
unfolding push
push_samples k m s = elim (Option-cases (find same_key k s.samples)) [
  | inl absent ↦ (m ∷ [], ground (arith, absent))
  | inr (values, present) ↦ (values ++ (m ∷ []), ground (arith, present))
]

push-IsIndexed : (k : Key) (m : ℕ) (s : Summarizer) → IsIndexed s → IsIndexed (push k m s)
push-IsIndexed k m s (listed, entered, distinct) =
    let (added, stored) = push_samples k m s in
    elim (Option-cases (find same_key k s.samples)) [
      | inl absent ↦
          let e = push_order_absent k m s absent in
          rw (e, stored)
            (
              λ key values h. elim (cases key added values h) [
                | inl same ↦ Any-snoc (λ j. j ≡ key) s.order k (sym same)
                | inr (values', h') ↦
                    Any-append_left (λ j. j ≡ key) s.order (k ∷ []) (listed key values' h')
              ],
              Every-snoc _ s.order k (Every-map _ _ s.order (still added) entered) (own added),
              IsDistinct-snoc s.order k distinct (
                  Every-map _ (λ j. j ≢ k) s.order
                    (λ j (q : (values : List ℕ) × (find same_key j s.samples ≡ some values)) same.
                      absurd (cc (q.1, absent, same)))
                    entered),
            )
      | inr (present_values, present) ↦
          let e = push_order_present k m s present in
          rw (e, stored)
            (
              λ key values h. elim (cases key added values h) [
                | inl same ↦ listed key present_values (
                    subst (λ j. find same_key j s.samples ≡ some present_values) (sym same) present)
                | inr (values', h') ↦ listed key values' h'
              ],
              Every-map _ _ s.order (still added) entered,
              distinct,
            )
    ]
  where
    after :
        (key : Key) (added : List ℕ)
        → find same_key key (put same_key k added s.samples)
          ≡ (if same_key key k then some added else find same_key key s.samples)
    after key added = find-put same_key same_key_sound same_key_refl key k added s.samples

    cases :
        (key : Key) (added values : List ℕ)
        → find same_key key (put same_key k added s.samples) ≡ some values
        → (key ≡ k) ⊎ ((values' : List ℕ) × (find same_key key s.samples ≡ some values'))
    cases key added values h = elim (Bool-cases (same_key key k)) [
      | inl same ↦ inl (same_key_sound key k same)
      | inr other ↦ inr (values, ground (arith, after key added, other, h))
    ]

    still :
        (added : List ℕ) (key : Key)
        → (values : List ℕ) × (find same_key key s.samples ≡ some values)
        → (values : List ℕ) × (find same_key key (put same_key k added s.samples) ≡ some values)
    still added key (values, h) = elim (Bool-cases (same_key key k)) [
      | inl same ↦ (added, ground (arith, after key added, same))
      | inr other ↦ (values, ground (arith, after key added, other, h))
    ]

    own :
        (added : List ℕ)
        → (values : List ℕ) × (find same_key k (put same_key k added s.samples) ≡ some values)
    own added = (added, ground (arith, after k added, same_key_refl k))

add_records-IsIndexed :
    (n n3 : ℕ) (records : List BenchRecord) (s : Summarizer)
    → IsIndexed s
    → IsIndexed (add_records n n3 records s)
unfolding add_records
add_records-IsIndexed n n3 [] s h = h
add_records-IsIndexed n n3 (r ∷ later) s h =
    add_records-IsIndexed n n3 later (push (key_of n n3 r) r.micros s)
      (push-IsIndexed (key_of n n3 r) r.micros s h)

add_run-IsIndexed :
    (n n3 : ℕ) (records : List BenchRecord) (s : Summarizer)
    → IsIndexed s
    → IsIndexed (add_run n n3 records s)
unfolding add_run
add_run-IsIndexed n n3 records s h = add_records-IsIndexed n n3 records _ h

pub add_runs-IsIndexed :
    (suite : List ((ℕ × ℕ) × List BenchRecord)) (s : Summarizer)
    → IsIndexed s
    → IsIndexed (add_runs suite s)
add_runs-IsIndexed [] s h = h
add_runs-IsIndexed (((n, n3), records) ∷ later) s h =
    add_runs-IsIndexed later (add_run n n3 records s) (add_run-IsIndexed n n3 records s h)

pub new_summarizer-IsIndexed : IsIndexed new_summarizer
unfolding new_summarizer
new_summarizer-IsIndexed = (λ key values h. absurd (cc (h)), tt, tt)
