-- ===== src/Combiner/GroupKey.antt =====
-- The tracer group key.
use mathlib.Core.List.{foldl}
use simulation_taps_tt.Base.{ℕ, ◌-◌, ◌^◌, Bool, Option, none, some, List, [], ◌∷◌, length, ◌==◌}
use simulation_taps_tt.Base.Map.{Map, values}
use simulation_taps_tt.Base.Outcome.{Outcome, ok, err, ok_or}
use simulation_taps_tt.Base.Action.{Action, reads, modify, ◌>>=◌, ◌>>◌}
use simulation_taps_tt.Crypto.{Error, invalid_message, invalid_public_key}
use simulation_taps_tt.Taps.{Taps}
use simulation_taps_tt.Combiner.State.{Combiner}

module _ (x : Taps) where
  -- `self.n3.unwrap_or(usize::MAX)`
  abbrev pub unwrap_or_max : Option ℕ → ℕ
  unwrap_or_max none = 2 ^ 64 - 1
  unwrap_or_max (some n) = n

  unfoldable pub tracer_public_keys_complete : Combiner x → Bool
  tracer_public_keys_complete s = length s.tracer_pks == unwrap_or_max s.n3

  -- The loop over the values, in ascending order of the ids.
  unfoldable pub product : List x.Gt → x.Gt
  product = foldl x.add x.identity

  abbrev pub not_empty : Map x.Gt → Outcome Error (Unit {0})
  not_empty [] = err invalid_message
  not_empty (_ ∷ _) = ok tt

  unfoldable pub finalize_group_key : Action (Combiner x) Error (Unit {0})
  finalize_group_key = do
    reads (λ s. not_empty s.tracer_pks)
    pk_e ← reads (λ s. ok_or invalid_public_key (x.to_public_key (product (values s.tracer_pks))))
    modify (λ s. record s { pk_e = some pk_e })
    pk_i ← reads (λ s. ok_or invalid_message s.pk_i)
    kp_cs ← reads (λ s. ok_or invalid_message s.taps_kp)
    modify (λ s. record s { pk = some (x.from_public_keys pk_i (x.keypair_public kp_cs) pk_e) })
