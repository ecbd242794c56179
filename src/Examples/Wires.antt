-- ===== src/Examples/Wires.antt =====
-- Codecs that read back what they write, for the payloads over the natural numbers.
use mathlib.Core.List.{append_assoc, append-nil}
use simulation_taps_tt.Base.{
  ℕ, zero, suc, ◌≡◌, refl, ◌∙◌, ap, Option, none, some, List, [], ◌∷◌, ◌++◌, Bytes, length, arith,
}
use simulation_taps_tt.Crypto.{Codec, IsFaithful}

-- What is written in front of other bytes is read back, and those bytes are left.
pub record Wire (A : Type 0) : Type 0 where
  pub write : A → Bytes
  pub read : Bytes → Option (A × Bytes)
  pub read-write : (a : A) (rest : Bytes) → read (write a ++ rest) ≡ some (a, rest)

abbrev number_read : Bytes → Option (ℕ × Bytes)
number_read [] = none
number_read (n ∷ rest) = some (n, rest)

abbrev pub number : Wire ℕ
number = record { write = λ n. n ∷ []; read = number_read; read-write = λ n rest. refl }

module _ {A B : Type 0} where
  abbrev pub both_read : Wire A → Wire B → Bytes → Option ((A × B) × Bytes)
  both_read v w bytes = elim (v.read bytes) [
    | none ↦ none
    | some p ↦ elim (w.read p.1) [ none ↦ none | some q ↦ some ((p.0, q.0), q.1) ]
  ]

  pub both_read-write :
      (v : Wire A) (w : Wire B) (a : A) (b : B) (rest : Bytes)
      → both_read v w ((v.write a ++ w.write b) ++ rest) ≡ some ((a, b), rest)
  both_read-write v w a b rest = ground (
    arith,
    append_assoc (v.write a) (w.write b) rest,
    v.read-write a (w.write b ++ rest),
    w.read-write b rest,
  )

  abbrev pub both : Wire A → Wire B → Wire (A × B)
  both v w = record {
    write = λ p. v.write p.0 ++ w.write p.1;
    read = both_read v w;
    read-write = λ p rest. both_read-write v w p.0 p.1 rest;
  }

  abbrev pub via_read : (A → B) → Wire A → Bytes → Option (B × Bytes)
  via_read f v bytes = elim (v.read bytes) [ none ↦ none | some p ↦ some (f p.0, p.1) ]

  pub via_read-write :
      (f : A → B) (v : Wire A) (a : A) (rest : Bytes)
      → via_read f v (v.write a ++ rest) ≡ some (f a, rest)
  via_read-write f v a rest = ground (arith, v.read-write a rest)

  abbrev pub via : (f : A → B) (g : B → A) → ((b : B) → f (g b) ≡ b) → Wire A → Wire B
  via f g h v = record {
    write = λ b. v.write (g b);
    read = via_read f v;
    read-write = λ b rest. via_read-write f v (g b) rest ∙ ap (λ c. some (c, rest)) (h b);
  }

module _ {A : Type 0} (v : Wire A) where
  abbrev pub write_all : List A → Bytes
  write_all [] = []
  write_all (a ∷ later) = v.write a ++ write_all later

  abbrev pub read_all : ℕ → Bytes → Option (List A × Bytes)
  read_all zero bytes = some ([], bytes)
  read_all (suc n) bytes = elim (v.read bytes) [
    | none ↦ none
    | some p ↦ elim (read_all n p.1) [ none ↦ none | some q ↦ some (p.0 ∷ q.0, q.1) ]
  ]

  pub read_all-write_all :
      (xs : List A) (rest : Bytes) → read_all (length xs) (write_all xs ++ rest) ≡ some (xs, rest)
  read_all-write_all [] rest = refl
  read_all-write_all (a ∷ later) rest = ground (
    arith,
    append_assoc (v.write a) (write_all later) rest,
    v.read-write a (write_all later ++ rest),
    read_all-write_all later rest,
  )

  abbrev many_read : Bytes → Option (List A × Bytes)
  many_read [] = none
  many_read (n ∷ bytes) = read_all n bytes

  abbrev pub many : Wire (List A)
  many = record {
    write = λ xs. length xs ∷ write_all xs;
    read = many_read;
    read-write = read_all-write_all;
  }

  abbrev codec_read : Bytes → Option A
  codec_read bytes = elim (v.read bytes) [ none ↦ none | some p ↦ some p.0 ]

  abbrev pub codec_of : Codec A
  codec_of = record { serialize = λ a. some (v.write a); deserialize = codec_read }

  write-nil : (a : A) → v.write a ++ [] ≡ v.write a
  write-nil a = append-nil (v.write a)

  pub codec_of-IsFaithful : IsFaithful codec_of
  codec_of-IsFaithful a bytes h =
      let e : v.write a ++ [] ≡ bytes = ground (arith, h, write-nil a) in
      ground (arith, v.read-write a [], e)
