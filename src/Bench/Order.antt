-- ===== src/Bench/Order.antt =====
-- The sort of the summaries.
use simulation_taps_tt.Base.{
  ◌≡◌, ◌≢◌, ◌<◌, ◌≤◌, ◌⊎◌, sym, ltb, Any, true, false, List, [], ◌∷◌, inl, inr, Bool-cases, Every,
  Every-map, arith,
}
use simulation_taps_tt.Bench.Stats.{
  Role, role_signer, role_combiner, role_tracer, rank, Key, leq_key, place, sort_keys,
}

leq_key_total : (j k : Key) → leq_key j k ≡ false → leq_key k j ≡ true
leq_key_total j k h = ground (arith, h)

leq_key_trans : (i j k : Key) → leq_key i j ≡ true → leq_key j k ≡ true → leq_key i k ≡ true
leq_key_trans i j k h h' = ground (arith, h, h')

-- Every key is followed by keys that are not less.
abbrev IsPlaced : List Key → Type 0
IsPlaced [] = Unit
IsPlaced (k ∷ later) = Every (λ j. leq_key k j ≡ true) later × IsPlaced later

-- Signers come before the Combiner, and the Combiner before the tracers.
abbrev pub NotAfter : Role → Role → Type 0
NotAfter role_signer _ = Unit
NotAfter role_combiner role_signer = ⊥
NotAfter role_combiner role_combiner = Unit
NotAfter role_combiner role_tracer = Unit
NotAfter role_tracer role_signer = ⊥
NotAfter role_tracer role_combiner = ⊥
NotAfter role_tracer role_tracer = Unit

-- The first key has fewer signers; or as many, and fewer tracers; or as many of both, and a role
-- that does not come after.
abbrev pub InOrder : Key → Key → Type 0
InOrder j k =
    (j.n < k.n) ⊎ ((j.n ≡ k.n) × ((j.n3 < k.n3) ⊎ ((j.n3 ≡ k.n3) × NotAfter j.role k.role)))

-- Every key is in order with all that follow it.
abbrev pub IsSorted : List Key → Type 0
IsSorted [] = Unit
IsSorted (k ∷ later) = Every (λ j. InOrder k j) later × IsSorted later

-- No key occurs twice.
abbrev pub IsDistinct : List Key → Type 0
IsDistinct [] = Unit
IsDistinct (k ∷ later) = Every (λ j. k ≢ j) later × IsDistinct later

NotAfter-of_rank : (a b : Role) → rank a ≤ rank b → NotAfter a b
NotAfter-of_rank role_signer b h = tt
NotAfter-of_rank role_combiner role_signer h = absurd (omega (arith, h))
NotAfter-of_rank role_combiner role_combiner h = tt
NotAfter-of_rank role_combiner role_tracer h = tt
NotAfter-of_rank role_tracer role_signer h = absurd (omega (arith, h))
NotAfter-of_rank role_tracer role_combiner h = absurd (omega (arith, h))
NotAfter-of_rank role_tracer role_tracer h = tt

leq_key-InOrder : (j k : Key) → leq_key j k ≡ true → InOrder j k
leq_key-InOrder j k h = elim (Bool-cases (ltb j.n k.n)) [
  | inl less ↦ inl (ground (arith, less))
  | inr not_less ↦
      let same : j.n ≡ k.n = ground (arith, h, not_less) in
      elim (Bool-cases (ltb j.n3 k.n3)) [
        | inl less ↦ inr (same, inl (ground (arith, less)))
        | inr not_less3 ↦
            let same3 : j.n3 ≡ k.n3 = ground (arith, h, not_less, not_less3) in
            inr (
              same,
              inr (same3, NotAfter-of_rank j.role k.role (ground (arith, h, not_less, not_less3))),
            )
      ]
]

IsPlaced-IsSorted : (keys : List Key) → IsPlaced keys → IsSorted keys
IsPlaced-IsSorted [] h = tt
IsPlaced-IsSorted (k ∷ later) h =
    (Every-map _ (InOrder k) later (λ j e. leq_key-InOrder k j e) h.0, IsPlaced-IsSorted later h.1)

place-Every :
    (P : Key → Type 0) (key : Key) (keys : List Key)
    → P key
    → Every P keys
    → Every P (place key keys)
unfolding place
place-Every P key [] p h = (p, tt)
place-Every P key (k ∷ later) p h = elim (Bool-cases (leq_key key k)) [
  | inl first ↦ rw first (p, h)
  | inr behind ↦ rw behind (h.0, place-Every P key later p h.1)
]

place-IsPlaced : (key : Key) (keys : List Key) → IsPlaced keys → IsPlaced (place key keys)
unfolding place
place-IsPlaced key [] h = (tt, tt)
place-IsPlaced key (k ∷ later) h = elim (Bool-cases (leq_key key k)) [
  | inl first ↦ rw first (
    (
      first,
      Every-map _ (λ j. leq_key key j ≡ true) later (λ j e. leq_key_trans key k j first e) h.0,
    ),
    h,
  )
  | inr behind ↦ rw behind (
    place-Every (λ j. leq_key k j ≡ true) key later (leq_key_total key k behind) h.0,
    place-IsPlaced key later h.1,
  )
]

sort_keys-IsPlaced : (keys : List Key) → IsPlaced (sort_keys keys)
unfolding sort_keys
sort_keys-IsPlaced [] = tt
sort_keys-IsPlaced (key ∷ later) = place-IsPlaced key (sort_keys later) (sort_keys-IsPlaced later)

pub sort_keys-IsSorted : (keys : List Key) → IsSorted (sort_keys keys)
sort_keys-IsSorted keys = IsPlaced-IsSorted (sort_keys keys) (sort_keys-IsPlaced keys)

pub sort_keys-Every : (P : Key → Type 0) (keys : List Key) → Every P keys → Every P (sort_keys keys)
unfolding sort_keys
sort_keys-Every P [] h = tt
sort_keys-Every P (key ∷ later) h =
    place-Every P key (sort_keys later) h.0 (sort_keys-Every P later h.1)

place-Any :
    (P : Key → Type 0) (key : Key) (keys : List Key) → P key ⊎ Any P keys → Any P (place key keys)
unfolding place
place-Any P key [] h = h
place-Any P key (k ∷ later) h = elim (Bool-cases (leq_key key k)) [
  | inl first ↦ rw first h
  | inr behind ↦ rw behind (elim h [
    | inl p ↦ inr (place-Any P key later (inl p))
    | inr (inl p) ↦ inl p
    | inr (inr p) ↦ inr (place-Any P key later (inr p))
  ])
]

pub sort_keys-Any : (P : Key → Type 0) (keys : List Key) → Any P keys → Any P (sort_keys keys)
unfolding sort_keys
sort_keys-Any P [] h = h
sort_keys-Any P (key ∷ later) (inl p) = place-Any P key (sort_keys later) (inl p)
sort_keys-Any P (key ∷ later) (inr h) =
    place-Any P key (sort_keys later) (inr (sort_keys-Any P later h))

place-IsDistinct :
    (key : Key) (keys : List Key)
    → Every (λ j. key ≢ j) keys
    → IsDistinct keys
    → IsDistinct (place key keys)
unfolding place
place-IsDistinct key [] other d = (tt, tt)
place-IsDistinct key (k ∷ later) other d = elim (Bool-cases (leq_key key k)) [
  | inl first ↦ rw first (other, d)
  | inr behind ↦ rw behind (
    place-Every (λ j. k ≢ j) key later (λ e. other.0 (sym e)) d.0,
    place-IsDistinct key later other.1 d.1,
  )
]

pub sort_keys-IsDistinct : (keys : List Key) → IsDistinct keys → IsDistinct (sort_keys keys)
unfolding sort_keys
sort_keys-IsDistinct [] d = tt
sort_keys-IsDistinct (key ∷ later) d =
    place-IsDistinct key (sort_keys later) (sort_keys-Every (λ j. key ≢ j) later d.0)
      (sort_keys-IsDistinct later d.1)
