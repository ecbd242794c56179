-- ===== src/Network/Retry.antt =====
-- `bind_with_retry` takes the first attempt that succeeds, and gives up after sixty.
use simulation_taps_tt.Base.{
  ℕ, zero, suc, ◌+◌, ◌*◌, ◌<◌, ◌≡◌, refl, ◌⊎◌, inl, inr, Option, none, some, arith, subst,
}
use simulation_taps_tt.Base.Outcome.{ok, err}
use simulation_taps_tt.Network.Defs.{Attempt, bound, refused, bind_loop, bind_with_retry}

module _ {E L : Type 0} (bind : ℕ → Attempt E L) where
  abbrev pub Refuses : ℕ → Type 0
  Refuses i = (e : E) × (bind i ≡ refused e)

  bind_loop_first :
      (i left attempt : ℕ) (last_err : Option E) (listener : L)
      → i < left
      → ((j : ℕ) → j < i → Refuses (attempt + j))
      → bind (attempt + i) ≡ bound listener
      → bind_loop bind left attempt last_err ≡ (ok listener, 2 * i)
  unfolding bind_loop
  bind_loop_first i zero attempt last_err listener h refuses success = absurd (omega arith)
  bind_loop_first zero (suc left) attempt last_err listener h refuses success =
      let now : bind attempt ≡ bound listener =
        subst (λ k. bind k ≡ bound listener) (omega arith) success in
      ground (arith, now)
  bind_loop_first (suc i) (suc left) attempt last_err listener h refuses success =
      let (e, r) = refuses 0 (omega arith) in
      let now : bind attempt ≡ refused e = subst (λ k. bind k ≡ refused e) (omega arith) r in
      let later =
        bind_loop_first i left (suc attempt) (some e) listener (omega arith)
          (λ j hj. subst Refuses (omega arith) (refuses (suc j) (omega arith)))
          (subst (λ k. bind k ≡ bound listener) (omega arith) success) in
      ground (arith, now, later)

  -- If attempt `i` is the first of sixty that succeeds, its listener is returned, after two
  -- seconds of sleep for each attempt before it.
  pub bind_with_retry_first :
      (i : ℕ) (listener : L)
      → i < 60
      → ((j : ℕ) → j < i → Refuses j)
      → bind i ≡ bound listener
      → bind_with_retry bind ≡ (ok listener, 2 * i)
  unfolding bind_with_retry
  bind_with_retry_first i listener h refuses success =
      bind_loop_first i 60 0 none listener h (λ j hj. subst Refuses (omega arith) (refuses j hj))
        (subst (λ k. bind k ≡ bound listener) (omega arith) success)

  bind_loop_exhausted :
      (left attempt : ℕ) (last_err : Option E)
      → ((j : ℕ) → j < suc left → Refuses (attempt + j))
      → (e : E) × (bind (attempt + left) ≡ refused e)
        × (bind_loop bind (suc left) attempt last_err ≡ (err e, 2 * suc left))
  unfolding bind_loop
  bind_loop_exhausted zero attempt last_err refuses =
      let (e, r) = refuses 0 (omega arith) in
      let now : bind attempt ≡ refused e = subst (λ k. bind k ≡ refused e) (omega arith) r in
      (e, r, ground (arith, now))
  bind_loop_exhausted (suc left) attempt last_err refuses =
      let (e, r) = refuses 0 (omega arith) in
      let now : bind attempt ≡ refused e = subst (λ k. bind k ≡ refused e) (omega arith) r in
      let (last, rl, later) =
        bind_loop_exhausted left (suc attempt) (some e)
          (λ j hj. subst Refuses (omega arith) (refuses (suc j) (omega arith))) in
      (last, subst (λ k. bind k ≡ refused last) (omega arith) rl, ground (arith, now, later))

  -- If all sixty attempts are refused, whatever their errors are (an error other than `AddrInUse`
  -- is retried as well), the error of the last one is returned after 120 seconds of sleep: the
  -- `unwrap` of the last error never panics.
  pub bind_with_retry_exhausted :
      ((j : ℕ) → j < 60 → Refuses j)
      → (e : E) × (bind 59 ≡ refused e) × (bind_with_retry bind ≡ (err e, 120))
  unfolding bind_with_retry
  bind_with_retry_exhausted refuses =
      bind_loop_exhausted 59 0 none (λ j hj. subst Refuses (omega arith) (refuses j hj))

Attempt-cases :
    {E L : Type 0} (a : Attempt E L) → ((l : L) × (a ≡ bound l)) ⊎ ((e : E) × (a ≡ refused e))
Attempt-cases (bound l) = inl (l, refl)
Attempt-cases (refused e) = inr (e, refl)

bind_loop_returns :
    {E L : Type 0} (bind : ℕ → Attempt E L) (left attempt : ℕ) (e : Option E)
    → ((l : L) × ((bind_loop bind (suc left) attempt e).0 ≡ ok l))
      ⊎ ((e' : E) × ((bind_loop bind (suc left) attempt e).0 ≡ err e'))
unfolding bind_loop
bind_loop_returns bind zero attempt e = elim (Attempt-cases (bind attempt)) [
  | inl (l, at) ↦ inl (l, ground (arith, at))
  | inr (e', at) ↦ inr (e', ground (arith, at))
]
bind_loop_returns bind (suc left) attempt e = elim (Attempt-cases (bind attempt)) [
  | inl (l, at) ↦ inl (l, ground (arith, at))
  | inr (e', at) ↦ elim (bind_loop_returns bind left (suc attempt) (some e')) [
    | inl (l, later) ↦ inl (l, ground (arith, at, later))
    | inr (e'', later) ↦ inr (e'', ground (arith, at, later))
  ]
]

pub bind_with_retry_returns :
    {E L : Type 0} (bind : ℕ → Attempt E L)
    → ((l : L) × ((bind_with_retry bind).0 ≡ ok l))
      ⊎ ((e' : E) × ((bind_with_retry bind).0 ≡ err e'))
unfolding bind_with_retry
bind_with_retry_returns bind = bind_loop_returns bind 59 0 none
