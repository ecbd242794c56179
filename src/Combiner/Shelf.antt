-- ===== src/Combiner/Shelf.antt =====
-- What the three loops over the streams have in common: a package is opened, and what it has is
-- filed under the id of its sender.
use simulation_taps_tt.Base.{
  ℕ, ◌≡◌, refl, sym, ap, subst, ◌∙◌, ◌⊎◌, inl, inr, Option, some, List, get_elem?,
}
use simulation_taps_tt.Base.Map.{Map, insert}
use simulation_taps_tt.Base.Outcome.{ok}
use simulation_taps_tt.Base.Action.{Action}
use simulation_taps_tt.Crypto.{Codec, SecurePackage, ActorKeys, open_secure}
use simulation_taps_tt.Network.{Message, secure}
use simulation_taps_tt.Taps.{Taps}
use simulation_taps_tt.Combiner.State.{Combiner}
use simulation_taps_tt.Combiner.Intake.{keys_in_roster}
use simulation_taps_tt.Combiner.Node.{NodeError, for_streams}
use simulation_taps_tt.Combiner.Authenticity.{open_from_roster}
use simulation_taps_tt.Combiner.Loops.{all_streams-Keeps}
use simulation_taps_tt.Combiner.Provenance.{
  Round, IsFrom, Sourced, Sourced-trans, insert-Sourced, Filed, filed,
}

-- The handler of one message, with the map that it files in and the roster that it looks keys up in.
pub record Shelf (x : Taps) (A B : Type 0) : Type 0 where
  pub value : A → B
  pub roster : Filed x → Option (List (ActorKeys x.suite))
  pub get : Filed x → Map B
  pub put : Map B → Filed x → Filed x
  pub take : Codec A → ℕ → ℕ → Option (Message x.suite) → Action (Combiner x) NodeError (Unit {0})
  pub get-put : (m : Map B) (f : Filed x) → get (put m f) ≡ m
  pub put-put : (m m' : Map B) (f : Filed x) → put m (put m' f) ≡ put m f
  pub put-get : (f : Filed x) → put (get f) f ≡ f
  pub roster-put : (m : Map B) (f : Filed x) → roster (put m f) ≡ roster f
  pub own-put : (m : Map B) (f : Filed x) → (put m f).own ≡ f.own
  -- Nothing on file changes, or a package opens and its content is filed.
  pub take_cases :
      (codec : Codec A) (now id : ℕ) (m : Option (Message x.suite)) (s : Combiner x)
      → (filed x (take codec now id m s).1 ≡ filed x s)
        ⊎ ((p : SecurePackage x.suite) × (keys : ActorKeys x.suite) × (payload : A) × (m
              ≡ some (secure p))
            × (keys_in_roster x (roster (filed x s)) id ≡ ok keys)
            × (open_secure x.suite codec s.transport_kp keys p now ≡ ok payload)
            × (filed x (take codec now id m s).1
                ≡ put (insert id (value payload) (get (filed x s))) (filed x s)))

module _ (x : Taps) {A B : Type 0} (shelf : Shelf x A B) (round : Round x A) (s0 : Combiner x)
    (er : shelf.roster (filed x s0) ≡ round.roster) (eo : s0.transport_kp ≡ round.own) where
  -- Only this map has changed since `s0`, and each entry that is new is from its sender.
  abbrev At : Filed x → Type 0
  At f =
      (f ≡ shelf.put (shelf.get f) (filed x s0))
      × Sourced x round shelf.value (shelf.get (filed x s0)) (shelf.get f)

  IsFrom-arrived :
      (s : Combiner x) (id socket : ℕ) (p : SecurePackage x.suite) (keys : ActorKeys x.suite)
      (payload : A)
      → At (filed x s)
      → get_elem? round.streams id ≡ some (some socket)
      → round.arrivals socket ≡ some (secure p)
      → keys_in_roster x (shelf.roster (filed x s)) id ≡ ok keys
      → open_secure x.suite round.codec s.transport_kp keys p (round.now id) ≡ ok payload
      → IsFrom x round id payload
  IsFrom-arrived s id socket p keys payload (same, _) connected arrived ek opened =
      let own : s.transport_kp ≡ round.own =
        ap (λ (f : Filed x). f.own) same
        ∙ shelf.own-put (shelf.get (filed x s)) (filed x s0)
        ∙ eo in
      let roster : shelf.roster (filed x s) ≡ round.roster =
        ap shelf.roster same ∙ shelf.roster-put (shelf.get (filed x s)) (filed x s0) ∙ er in
      let known = subst (λ r. keys_in_roster x r id ≡ ok keys) roster ek in
      record {
        socket = socket;
        connected = connected;
        sealed = p;
        arrived = arrived;
        keys = keys;
        known_keys = known;
        opened =
            subst (λ kp. open_secure x.suite round.codec kp keys p (round.now id) ≡ ok payload) own
              opened;
        signed = open_from_roster x round.codec s round.roster id p (round.now id) known opened;
      }

  take-At :
      (id socket : ℕ) (s : Combiner x)
      → get_elem? round.streams id ≡ some (some socket)
      → At (filed x s)
      → At (filed x (shelf.take round.codec (round.now id) id (round.arrivals socket) s).1)
  take-At id socket s connected (same, sourced) =
      elim (shelf.take_cases round.codec (round.now id) id (round.arrivals socket) s) [
        | inl kept ↦ subst At (sym kept) (same, sourced)
        | inr (p, keys, payload, arrived, ek, opened, e) ↦
            let f = filed x s in
            let m = insert id (shelf.value payload) (shelf.get f) in
            let from =
              IsFrom-arrived s id socket p keys payload (same, sourced) connected arrived ek
                opened in
            let got : shelf.get (shelf.put m f) ≡ m = shelf.get-put m f in
            let added : At (shelf.put m f) = (
              ap (shelf.put m) same
                  ∙ shelf.put-put m (shelf.get f) (filed x s0)
                  ∙ ap (λ m'. shelf.put m' (filed x s0)) (sym got),
              subst (Sourced x round shelf.value (shelf.get (filed x s0))) (sym got) (
                  Sourced-trans x round shelf.value (shelf.get (filed x s0)) (shelf.get f) m sourced
                    (insert-Sourced x round shelf.value id payload (shelf.get f) from)),
            ) in
            subst At (sym e) added
      ]

  -- The loop over all the streams, however it ends.
  pub loop-At :
      let f =
        filed x
          (for_streams x
            (λ id socket. shelf.take round.codec (round.now id) id (round.arrivals socket))
            0
            round.streams
            s0).1 in
      (f ≡ shelf.put (shelf.get f) (filed x s0))
      × Sourced x round shelf.value (shelf.get (filed x s0)) (shelf.get f)
  loop-At =
      all_streams-Keeps x (λ s. At (filed x s))
        (λ id socket. shelf.take round.codec (round.now id) id (round.arrivals socket))
        round.streams s0 (λ id socket s connected h. take-At id socket s connected h)
        (sym (shelf.put-get (filed x s0)), λ j. inl refl)
