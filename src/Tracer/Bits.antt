-- ===== src/Tracer/Bits.antt =====
-- The bits that a tracer decodes, and the quorum that it reads from them.
use simulation_taps_tt.Base.{
  ℕ, Bool, zero, suc, ◌+◌, ◌≤◌, ◌<◌, ◌≡◌, refl, ap, true, false, some, List, [], ◌∷◌, subst, ◌↔◌,
  inl, inr, length, get_elem?, Every, Any, ◌==◌, if◌then◌else◌, arith,
}
use simulation_taps_tt.Base.Outcome.{ok, >>=-eq-ok}
use simulation_taps_tt.Dkg.{Dkg}
use simulation_taps_tt.Tracer.Tracing.{decode_bits, positions}

-- Every member is less than all that follow it.
abbrev pub IsAscending : List ℕ → Type 0
IsAscending [] = Unit
IsAscending (k ∷ later) = Every (λ j. k < j) later × IsAscending later

Any-at : (P : ℕ → Type 0) (j : ℕ) (xs : List ℕ) → Every P xs → Any (λ k. k ≡ j) xs → P j
Any-at P j [] h h' = absurd h'
Any-at P j (k ∷ later) h (inl e) = subst P e h.0
Any-at P j (k ∷ later) h (inr h') = Any-at P j later h.1 h'

-- Two ascending lists with the same members are the same.
IsAscending-unique :
    (xs ys : List ℕ)
    → IsAscending xs
    → IsAscending ys
    → ((j : ℕ) → Any (λ k. k ≡ j) xs ↔ Any (λ k. k ≡ j) ys)
    → xs ≡ ys
IsAscending-unique [] [] a b same = refl
IsAscending-unique [] (y ∷ ys) a b same = absurd ((same y).1 (inl refl))
IsAscending-unique (x ∷ xs) [] a b same = absurd ((same x).0 (inl refl))
IsAscending-unique (x ∷ xs) (y ∷ ys) a b same =
    cc (heads, IsAscending-unique xs ys a.1 b.1 (λ j. (forth j, back j)))
  where
    heads : x ≡ y
    heads = elim ((same x).0 (inl refl)) [
      | inl e ↦ omega (arith, e)
      | inr above ↦ elim ((same y).1 (inl refl)) [
        | inl e ↦ e
        | inr above' ↦
            absurd (
              omega
                (arith, Any-at (λ k. y < k) x ys b.0 above, Any-at (λ k. x < k) y xs a.0 above'))
      ]
    ]

    forth : (j : ℕ) → Any (λ k. k ≡ j) xs → Any (λ k. k ≡ j) ys
    forth j h = elim ((same j).0 (inr h)) [
      | inl e ↦ absurd (omega (arith, e, heads, Any-at (λ k. x < k) j xs a.0 h))
      | inr h' ↦ h'
    ]

    back : (j : ℕ) → Any (λ k. k ≡ j) ys → Any (λ k. k ≡ j) xs
    back j h = elim ((same j).1 (inr h)) [
      | inl e ↦ absurd (omega (arith, e, heads, Any-at (λ k. y < k) j ys b.0 h))
      | inr h' ↦ h'
    ]

module _ (x : Dkg) where
  -- Counted from `i` on, each decrypted value has a bit, which is decoded with its own number.
  abbrev DecodesFrom : ℕ → List x.Gt → List ℕ → Type 0
  DecodesFrom i gs bits =
      (length gs ≡ length bits)
      × ((j : ℕ) (g : x.Gt)
          → get_elem? gs j ≡ some g
          → (b : ℕ) × (get_elem? bits j ≡ some b) × (x.decode_bit g (i + j) ≡ ok b))

  abbrev pub Decodes : List x.Gt → List ℕ → Type 0
  Decodes gs bits =
      (length gs ≡ length bits)
      × ((j : ℕ) (g : x.Gt)
          → get_elem? gs j ≡ some g
          → (b : ℕ) × (get_elem? bits j ≡ some b) × (x.decode_bit g j ≡ ok b))

  decode_bits-DecodesFrom :
      (i : ℕ) (gs : List x.Gt) (bits : List ℕ)
      → decode_bits x i gs ≡ ok bits
      → DecodesFrom i gs bits
  unfolding decode_bits
  decode_bits-DecodesFrom i [] [] e = (refl, λ j g h. absurd (cc (h)))
  decode_bits-DecodesFrom i [] (b ∷ bits) e = absurd (cc (e))
  decode_bits-DecodesFrom i (g ∷ gs) bits e =
      let (b, eb, e1) = >>=-eq-ok (x.decode_bit g i) _ e in
      let (rest, er, e2) = >>=-eq-ok (decode_bits x (suc i) gs) _ e1 in
      let (same, each) = decode_bits-DecodesFrom (suc i) gs rest er in
      let e3 : b ∷ rest ≡ bits = cc (e2) in
      subst (DecodesFrom i (g ∷ gs)) e3 (ap suc same, at b rest eb each)
    where
      at :
          (b : ℕ) (rest : List ℕ)
          → x.decode_bit g i ≡ ok b
          → ((j : ℕ) (g' : x.Gt)
              → get_elem? gs j ≡ some g'
              → (b' : ℕ) × (get_elem? rest j ≡ some b') × (x.decode_bit g' (suc i + j) ≡ ok b'))
          → (j : ℕ) (g' : x.Gt) → get_elem? (g ∷ gs) j ≡ some g'
          → (b' : ℕ) × (get_elem? (b ∷ rest) j ≡ some b') × (x.decode_bit g' (i + j) ≡ ok b')
      at b rest eb each zero g' h =
          let same : g ≡ g' = cc (h) in
          (
            b,
            refl,
            subst (λ k. x.decode_bit g' k ≡ ok b) (omega arith)
                (subst (λ t. x.decode_bit t i ≡ ok b) same eb),
          )
      at b rest eb each (suc j) g' h =
          let (b', eb', d) = each j g' h in
          (b', eb', subst (λ k. x.decode_bit g' k ≡ ok b') (omega arith) d)

  pub decode_bits-Decodes :
      (gs : List x.Gt) (bits : List ℕ) → decode_bits x 0 gs ≡ ok bits → Decodes gs bits
  decode_bits-Decodes gs bits e =
      let (same, each) = decode_bits-DecodesFrom 0 gs bits e in
      (
        same,
        λ j g h.
            let (b, eb, d) = each j g h in
            (b, eb, subst (λ k. x.decode_bit g k ≡ ok b) (omega arith) d),
      )

  positions_below : (i k : ℕ) (bits : List ℕ) → Any (λ j. j ≡ k) (positions x i bits) → i ≤ k
  unfolding positions
  positions_below i k [] h = absurd h
  positions_below i k (b ∷ bits) h = at (positions_below (suc i) k bits) (b == 1) h
    where
      at :
          (Any (λ j. j ≡ k) (positions x (suc i) bits) → suc i ≤ k)
          → (one : Bool)
          → Any
              (λ j. j ≡ k)
              (if one then i ∷ positions x (suc i) bits else positions x (suc i) bits)
          → i ≤ k
      at below true (inl e) = omega (arith, e)
      at below true (inr later) = omega (arith, below later)
      at below false later = omega (arith, below later)

  -- Counted from `i` on, the positions that `positions` lists are those of the bits that are 1.
  pub positions_iff :
      (i j : ℕ) (bits : List ℕ)
      → Any (λ k. k ≡ i + j) (positions x i bits) ↔ (get_elem? bits j ≡ some 1)
  unfolding positions
  positions_iff i j [] = (λ h. absurd h, λ e. absurd (cc e))
  positions_iff i zero (b ∷ bits) = at (b == 1) refl
    where
      at :
          (one : Bool)
          → (b == 1) ≡ one
          → Any
              (λ k. k ≡ i + 0)
              (if one then i ∷ positions x (suc i) bits else positions x (suc i) bits)
            ↔ (some b ≡ some 1)
      at true e = (λ _. ground (arith, e), λ _. inl (omega arith))
      at false e = (
        λ h. absurd (omega (arith, positions_below (suc i) (i + 0) bits h)),
        λ e'. absurd (ground (arith, e, e')),
      )
  positions_iff i (suc j) (b ∷ bits) =
      at
        (subst (λ m. Any (λ k. k ≡ m) (positions x (suc i) bits) ↔ (get_elem? bits j ≡ some 1))
          (omega arith) (positions_iff (suc i) j bits))
        (b == 1)
    where
      at :
          (Any (λ k. k ≡ i + suc j) (positions x (suc i) bits) ↔ (get_elem? bits j ≡ some 1))
          → (one : Bool)
          → Any
              (λ k. k ≡ i + suc j)
              (if one then i ∷ positions x (suc i) bits else positions x (suc i) bits)
            ↔ (get_elem? bits j ≡ some 1)
      at later true = (
        λ h. elim h [ inl e ↦ absurd (omega (arith, e)) | inr h' ↦ later.0 h' ],
        λ e. inr (later.1 e),
      )
      at later false = later

  positions-Every :
      (P : ℕ → Type 0) (i : ℕ) (bits : List ℕ)
      → ((k : ℕ) → i ≤ k → P k)
      → Every P (positions x i bits)
  unfolding positions
  positions-Every P i [] h = tt
  positions-Every P i (b ∷ bits) h =
      at (b == 1) (positions-Every P (suc i) bits (λ k l. h k (omega (arith, l))))
    where
      at :
          (one : Bool)
          → Every P (positions x (suc i) bits)
          → Every P (if one then i ∷ positions x (suc i) bits else positions x (suc i) bits)
      at true h' = (h i (omega arith), h')
      at false h' = h'

  pub positions-IsAscending : (i : ℕ) (bits : List ℕ) → IsAscending (positions x i bits)
  unfolding positions
  positions-IsAscending i [] = tt
  positions-IsAscending i (b ∷ bits) = at (b == 1) (positions-IsAscending (suc i) bits)
    where
      at :
          (one : Bool)
          → IsAscending (positions x (suc i) bits)
          → IsAscending (if one then i ∷ positions x (suc i) bits else positions x (suc i) bits)
      at true h = (positions-Every (λ k. i < k) (suc i) bits (λ k l. omega (arith, l)), h)
      at false h = h

  pub positions_from_zero :
      (j : ℕ) (bits : List ℕ) → Any (λ k. k ≡ j) (positions x 0 bits) ↔ (get_elem? bits j ≡ some 1)
  positions_from_zero j bits =
      subst (λ m. Any (λ k. k ≡ m) (positions x 0 bits) ↔ (get_elem? bits j ≡ some 1)) (omega arith)
        (positions_iff 0 j bits)

  pub quorum_of :
      (quorum bits : List ℕ)
      → IsAscending quorum
      → ((j : ℕ) → Any (λ k. k ≡ j) quorum ↔ (get_elem? bits j ≡ some 1))
      → quorum ≡ positions x 0 bits
  quorum_of quorum bits a same =
      IsAscending-unique quorum (positions x 0 bits) a (positions-IsAscending 0 bits) λ j.
        let (there, back) = positions_from_zero j bits in
        (λ h. back ((same j).0 h), λ h. (same j).1 (there h))

  decode_bits_from :
      (i : ℕ) (gs : List x.Gt) (bits : List ℕ)
      → DecodesFrom i gs bits
      → decode_bits x i gs ≡ ok bits
  unfolding decode_bits
  decode_bits_from i [] [] d = refl
  decode_bits_from i [] (b ∷ bits) d = absurd (omega (arith, d.0))
  decode_bits_from i (g ∷ gs) [] d = absurd (omega (arith, d.0))
  decode_bits_from i (g ∷ gs) (b ∷ bits) (same, each) =
      let (b', eb, d) = each 0 g refl in
      let d' : x.decode_bit g i ≡ ok b =
        subst (λ t. x.decode_bit g i ≡ ok t) (cc (eb))
          (subst (λ k. x.decode_bit g k ≡ ok b') (omega arith) d) in
      rw (d', decode_bits_from (suc i) gs bits (omega (arith, same), shifted)) refl
    where
      shifted :
          (j : ℕ) (g' : x.Gt)
          → get_elem? gs j ≡ some g'
          → (b' : ℕ) × (get_elem? bits j ≡ some b') × (x.decode_bit g' (suc i + j) ≡ ok b')
      shifted j g' h =
          let (b', eb, d) = each (suc j) g' h in
          (b', eb, subst (λ k. x.decode_bit g' k ≡ ok b') (omega arith) d)

  pub decode_bits_of :
      (gs : List x.Gt) (bits : List ℕ) → Decodes gs bits → decode_bits x 0 gs ≡ ok bits
  decode_bits_of gs bits (same, each) = decode_bits_from 0 gs bits (
    same,
    λ j g h.
        let (b, eb, d) = each j g h in
        (b, eb, subst (λ k. x.decode_bit g k ≡ ok b) (omega arith) d),
  )
