-- ===== src/Server/State/Triples.antt =====
-- Actions that start from tables of which one thing holds and end well at tables of which another
-- does; if they end otherwise, an invariant holds.
use secrets_manager.Prelude.{
  ℕ, ◌≡◌, refl, sym, subst, Bool, true, false, Option, none, some, if◌then◌else◌,
}
use secrets_manager.Exec.{
  Outcome, ok, err, panic, map_error, Exec, pure, lift, map_err, continue, ◌>>=◌,
}
use secrets_manager.Server.State.{
  Tables, World, sqlite, committed, access, query, execute, on_draws,
}
use secrets_manager.Server.State.Moves.{Preorder, Moves, tables-access}

-- What keeps a thing of the tables.
pub Keeping-Preorder : (P : Tables → Type 0) → Preorder (λ t u. P t → P u)
Keeping-Preorder P = record { same = λ t h. h; then_to = λ f g h. g (f h) }

module _ (I : Tables → Type 0) where
  abbrev pub Ends : {E A : Type 0} → (A → Tables → Type 0) → Outcome E A × World → Type 0
  Ends Q (ok a, w) = Q a w.tables
  Ends Q (err e, w) = I w.tables
  Ends Q (panic, w) = I w.tables

  pub record Triple {E A : Type 0} (P : Tables → Type 0) (m : Exec World E A)
      (Q : A → Tables → Type 0) : Type 0 where
    pub at : (w : World) → P w.tables → Ends Q (m w)

  module _ {E A B : Type 0} where
    continue-Ends :
        (r : Outcome E A × World) (f : A → Exec World E B) (Q : A → Tables → Type 0)
        (R : B → Tables → Type 0)
        → ((a : A) → Triple (Q a) (f a) R)
        → Ends Q r
        → Ends R (continue r.0 f r.1)
    continue-Ends (ok a, w) f Q R k h = (k a).at w h
    continue-Ends (err e, w) f Q R k h = h
    continue-Ends (panic, w) f Q R k h = h

    pub Triple-bind :
        {P : Tables → Type 0} {Q : A → Tables → Type 0} {R : B → Tables → Type 0}
        (m : Exec World E A) (f : A → Exec World E B)
        → Triple P m Q
        → ((a : A) → Triple (Q a) (f a) R)
        → Triple P (m >>= f) R
    unfolding ◌>>=◌
    Triple-bind {Q = Q} {R = R} m f km kf = record {
      at = λ w h. continue-Ends (m w) f Q R kf (km.at w h);
    }

  module _ {E A : Type 0} where
    lift-Ends :
        (r : Outcome E A) (P : Tables → Type 0) (w : World)
        → (P w.tables → I w.tables)
        → P w.tables
        → Ends (λ a t. P t × (r ≡ ok a)) (r, w)
    lift-Ends (ok a) P w i h = (h, refl)
    lift-Ends (err e) P w i h = i h
    lift-Ends panic P w i h = i h

    pub Triple-lift :
        {P : Tables → Type 0} (r : Outcome E A)
        → ((t : Tables) → P t → I t)
        → Triple P (lift r) (λ a t. P t × (r ≡ ok a))
    unfolding lift
    Triple-lift {P = P} r i = record { at = λ w h. lift-Ends r P w (i w.tables) h }

    pub Triple-pure :
        {P : Tables → Type 0} {Q : A → Tables → Type 0} (a : A)
        → ((t : Tables) → P t → Q a t)
        → Triple P (pure {E = E} a) Q
    unfolding pure
    Triple-pure a k = record { at = λ w h. k w.tables h }

    on_draws-Ends :
        (r : Outcome E A × ℕ) (m : Exec ℕ E A) (P : Tables → Type 0) (w : World)
        → m w.draws ≡ r
        → (P w.tables → I w.tables)
        → P w.tables
        → Ends
            (λ a t. P t × (d : ℕ) × (d' : ℕ) × (m d ≡ (ok a, d')))
            (r.0, record w { draws = r.1 })
    on_draws-Ends (ok a, d') m P w e i h = (h, w.draws, d', e)
    on_draws-Ends (err x, d') m P w e i h = i h
    on_draws-Ends (panic, d') m P w e i h = i h

    pub Triple-on_draws :
        {P : Tables → Type 0} (m : Exec ℕ E A)
        → ((t : Tables) → P t → I t)
        → Triple P (on_draws m) (λ a t. P t × (d : ℕ) × (d' : ℕ) × (m d ≡ (ok a, d')))
    unfolding on_draws
    Triple-on_draws {P = P} m i = record {
      at = λ w h. on_draws-Ends (m w.draws) m P w refl (i w.tables) h;
    }

    kept-Ends :
        (r : Outcome E A × World) (P : Tables → Type 0)
        → (P r.1.tables → I r.1.tables)
        → P r.1.tables
        → Ends (λ _ t. P t) r
    kept-Ends (ok a, w) P i h = h
    kept-Ends (err e, w) P i h = i h
    kept-Ends (panic, w) P i h = i h

    pub Triple-Moves :
        {P : Tables → Type 0} (m : Exec World E A)
        → Moves (λ t u. P t → P u) m
        → ((t : Tables) → P t → I t)
        → Triple P m (λ _ t. P t)
    Triple-Moves {P = P} m k i = record { at = λ w h. kept-Ends (m w) P (i _) (k.at w h) }

    forget-Ends : (r : Outcome E A × World) → Ends (λ _ t. I t) r → I r.1.tables
    forget-Ends (ok a, w) h = h
    forget-Ends (err e, w) h = h
    forget-Ends (panic, w) h = h

    pub Moves-Triple : (m : Exec World E A) → Triple I m (λ _ t. I t) → Moves (λ t u. I t → I u) m
    Moves-Triple m k = record { at = λ w h. forget-Ends (m w) (k.at w h) }

    Ends-weaken :
        (r : Outcome E A × World) (Q R : A → Tables → Type 0)
        → ((a : A) (t : Tables) → Q a t → R a t)
        → Ends Q r
        → Ends R r
    Ends-weaken (ok a, w) Q R k h = k a w.tables h
    Ends-weaken (err e, w) Q R k h = h
    Ends-weaken (panic, w) Q R k h = h

    pub Triple-ends :
        {P : Tables → Type 0} {Q R : A → Tables → Type 0} (m : Exec World E A)
        → ((a : A) (t : Tables) → Q a t → R a t)
        → Triple P m Q
        → Triple P m R
    Triple-ends {Q = Q} {R = R} m k km = record { at = λ w h. Ends-weaken (m w) Q R k (km.at w h) }

  module _ {E F A : Type 0} where
    map_err-Ends :
        (f : E → F) (r : Outcome E A × World) (Q : A → Tables → Type 0)
        → Ends Q r
        → Ends Q (map_error f r.0, r.1)
    map_err-Ends f (ok a, w) Q h = h
    map_err-Ends f (err e, w) Q h = h
    map_err-Ends f (panic, w) Q h = h

    pub Triple-map_err :
        {P : Tables → Type 0} {Q : A → Tables → Type 0} (f : E → F) (m : Exec World E A)
        → Triple P m Q
        → Triple P (map_err f m) Q
    unfolding map_err
    Triple-map_err {Q = Q} f m k = record { at = λ w h. map_err-Ends f (m w) Q (k.at w h) }

  module _ {A : Type 0} where
    query-Ends :
        (fault : Bool) (w : World) (select : Tables → A) (P : Tables → Type 0)
        → (P w.tables → I w.tables)
        → P w.tables
        → Ends
            (λ a t. P t × (a ≡ select t))
            (if fault then (err sqlite, w) else (ok (select w.tables), w))
    query-Ends true w select P i h = i h
    query-Ends false w select P i h = (h, refl)

    pub Triple-query :
        {P : Tables → Type 0} (select : Tables → A)
        → ((t : Tables) → P t → I t)
        → Triple P (query select) (λ a t. P t × (a ≡ select t))
    unfolding query
    Triple-query {P = P} select i = record {
      at = λ w h.
          let (fault, w') = access w in
          query-Ends fault w' select P (i w'.tables) (subst P (sym (tables-access w)) h);
    }

    -- A statement establishes `Q`, where it does not fail.
    abbrev pub Writes : (A → Tables → Type 0) → Option (A × Tables) → Type 0
    Writes Q none = Unit
    Writes Q (some (a, t)) = Q a t

    execute-Ends :
        (fault : Bool) (w : World) (r : Option (A × Tables)) (Q : A → Tables → Type 0)
        → I w.tables
        → Writes Q r
        → Ends Q (if fault then (err sqlite, w) else committed w r)
    execute-Ends true w r Q i h = i
    execute-Ends false w none Q i h = i
    execute-Ends false w (some (a, t)) Q i h = h

    pub Triple-execute :
        {P : Tables → Type 0} {Q : A → Tables → Type 0} (write : Tables → Option (A × Tables))
        → ((t : Tables) → P t → I t)
        → ((t : Tables) → P t → Writes Q (write t))
        → Triple P (execute write) Q
    unfolding execute
    Triple-execute {P = P} {Q = Q} write i k = record {
      at = λ w h.
          let (fault, w') = access w in
          let h' = subst P (sym (tables-access w)) h in
          execute-Ends fault w' (write w'.tables) Q (i w'.tables h') (k w'.tables h');
    }
