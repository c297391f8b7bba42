-- ===== src/Server/State/Endings.antt =====
-- Actions that ended well: what their parts returned.
use secrets_manager.Prelude.{ℕ, ◌≡◌, refl, sym, ap, ◌∙◌, Bool, true, false, Option, some, arith}
use secrets_manager.Exec.{
  Outcome, ok, err, panic, map_error, ok_or, Exec, pure, lift, map_err, refuse_if, ◌>>=◌, >>=-eq-ok,
}
use secrets_manager.Server.State.{Tables, World, settled, mark, transaction, on_draws}
use secrets_manager.Server.State.Moves.{tables-mark}

module _ {E A : Type 0} where
  pub lift-eq-ok :
      {S : Type 0} (r : Outcome E A) (w w' : S) {a : A}
      → lift r w ≡ (ok a, w')
      → (r ≡ ok a) × (w ≡ w')
  unfolding lift
  lift-eq-ok r w w' e = (ap (λ p. p.0) e, ap (λ p. p.1) e)

  pub pure-eq-ok :
      {S : Type 0} (a : A) (w w' : S) {b : A} → pure {E = E} a w ≡ (ok b, w') → (a ≡ b) × (w ≡ w')
  unfolding pure
  pure-eq-ok a w w' e = (cc (ap (λ p. p.0) e), ap (λ p. p.1) e)

  pub ok_or-eq-ok : (o : Option A) (e : E) {a : A} → ok_or o e ≡ ok a → o ≡ some a
  ok_or-eq-ok o e h = ground arith

module _ {E F A : Type 0} where
  pub map_error-eq-ok : (f : E → F) (r : Outcome E A) {a : A} → map_error f r ≡ ok a → r ≡ ok a
  map_error-eq-ok f (ok a) h = cc
  map_error-eq-ok f (err e) h = cc
  map_error-eq-ok f panic h = cc

  pub map_err-eq-ok :
      {S : Type 0} (f : E → F) (m : Exec S E A) (s s' : S) {a : A}
      → map_err f m s ≡ (ok a, s')
      → m s ≡ (ok a, s')
  unfolding map_err
  map_err-eq-ok f m s s' h =
      let r = map_error-eq-ok f (m s).0 (ap (λ p. p.0) h) in λ i. (r i, (h i).1)

-- A step of a block that only computes.
module _ {E A B : Type 0} where
  pub lift->>=-eq-ok :
      {S : Type 0} (r : Outcome E A) (f : A → Exec S E B) (w w' : S) {b : B}
      → (lift r >>= f) w ≡ (ok b, w')
      → (a : A) × (r ≡ ok a) × (f a w ≡ (ok b, w'))
  lift->>=-eq-ok r f w w' h =
      let (a, w1, e, k) = >>=-eq-ok (lift r) f w w' h in
      let (same, stay) = lift-eq-ok r w w1 e in (a, same, (λ i. f a (stay i)) ∙ k)

  pub lift->>=-elim :
      {S : Type 0} (r : Outcome E A) (f : A → Exec S E B) (w w' : S) {b : B} {C : Type 0}
      → (lift r >>= f) w ≡ (ok b, w')
      → ((a : A) → r ≡ ok a → f a w ≡ (ok b, w') → C)
      → C
  lift->>=-elim r f w w' h k = let (a, e, rest) = lift->>=-eq-ok r f w w' h in k a e rest

module _ {E B : Type 0} where
  pub refuse_if->>=-eq-ok :
      {S : Type 0} (b : Bool) (e : E) (f : Unit {0} → Exec S E B) (w w' : S) {x : B}
      → (refuse_if b e >>= f) w ≡ (ok x, w')
      → (b ≡ false) × (f tt w ≡ (ok x, w'))
  unfolding ◌>>=◌
  refuse_if->>=-eq-ok true e f w w' h = cc (ap (λ p. p.0) h)
  refuse_if->>=-eq-ok false e f w w' h = (refl, h)

module _ {E A : Type 0} where
  -- Random draws leave the tables and the faults alone.
  pub on_draws-eq-ok :
      (m : Exec ℕ E A) (w w' : World) {a : A}
      → on_draws m w ≡ (ok a, w')
      → (m w.draws ≡ (ok a, w'.draws)) × (w'.tables ≡ w.tables)
  unfolding on_draws
  on_draws-eq-ok m w w' h =
      let e = ap (λ p. p.1.draws) h in
      ((λ i. ((h i).0, (h i).1.draws)), sym (ap (λ p. p.1.tables) h))

  settled-eq-ok :
      (t : Tables) (r : Outcome E A × World) (w' : World) {a : A}
      → settled t r ≡ (ok a, w')
      → r ≡ (ok a, w')
  settled-eq-ok t (ok a, w) w' h = h
  settled-eq-ok t (err e, w) w' h = cc (ap (λ p. p.0) h)
  settled-eq-ok t (panic, w) w' h = cc (ap (λ p. p.0) h)

  -- A transaction that ended well has run its body, from the tables as they were, to the tables
  -- that it leaves.
  pub transaction-eq-ok :
      (e : E) (body : Exec World E A) (w w' : World) {a : A}
      → transaction e body w ≡ (ok a, w')
      → (u v : World) × (u.tables ≡ w.tables) × (body u ≡ (ok a, v)) × (w'.tables ≡ v.tables)
  unfolding transaction
  transaction-eq-ok e body w w' h =
      let whole = settled-eq-ok w.tables _ w' h in
      let (_, u, began, k) = >>=-eq-ok (mark e) _ w w' whole in
      let (b, v, ran, l) = >>=-eq-ok body _ u w' k in
      let (_, z, marked, done) = >>=-eq-ok (mark e) _ v w' l in
      let (same, stay) = pure-eq-ok b z w' done in
      (
        u,
        v,
        sym (ap (λ p. p.1.tables) began) ∙ tables-mark e w,
        ran ∙ (λ i. (ok (same i), v)),
        ap (λ x. x.tables) (sym stay) ∙ (sym (ap (λ p. p.1.tables) marked) ∙ tables-mark e v),
      )

  pub transaction-elim :
      (e : E) (body : Exec World E A) (w w' : World) {a : A} {C : Type 0}
      → transaction e body w ≡ (ok a, w')
      → ((u v : World) → u.tables ≡ w.tables → body u ≡ (ok a, v) → w'.tables ≡ v.tables → C)
      → C
  transaction-elim e body w w' h k =
      let (u, v, began, ran, ended) = transaction-eq-ok e body w w' h in k u v began ran ended
