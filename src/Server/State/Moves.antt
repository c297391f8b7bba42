-- ===== src/Server/State/Moves.antt =====
-- What an action does to the tables, one rule for each way to build an action: along which preorder
-- it moves them (`Moves`), and that it changes them only if it ends well (`Atomic`).
use secrets_manager.Prelude.{
  ℕ, ◌≡◌, refl, sym, subst, if◌then◌else◌, ◌∙◌, Bool, true, false, Option, none, some, arith,
}
use secrets_manager.Exec.{
  Outcome, ok, err, panic, is_ok, Exec, pure, fail, lift, map_err, refuse_if, continue, ◌>>=◌,
}
use secrets_manager.Crates.{Crates}
use secrets_manager.Server.State.{
  Tables, World, sqlite, committed, access, query, execute, mark, settled, transaction, now_utc,
  now_rfc3339, on_draws, expected,
}

pub record Preorder (T : Tables → Tables → Type 0) : Type 0 where
  pub same : (t : Tables) → T t t
  pub then_to : {t u v : Tables} → T t u → T u v → T t v

pub record Moves (T : Tables → Tables → Type 0) {E A : Type 0} (m : Exec World E A) : Type 0 where
  pub at : (w : World) → T w.tables (m w).1.tables

pub tables-access : (w : World) → (access w).1.tables ≡ w.tables
unfolding access
tables-access w = ground arith

tables-query : {A : Type 0} (select : Tables → A) (w : World) → (query select w).1.tables ≡ w.tables
unfolding query access
tables-query select w = ground arith

pub tables-mark : {E : Type 0} (e : E) (w : World) → (mark e w).1.tables ≡ w.tables
unfolding mark access
tables-mark e w = ground arith

-- What a statement may do: nothing where a constraint fails, else a move along `T`.
abbrev pub Written :
    (Tables → Tables → Type 0) → {A : Type 0} → Tables → Option (A × Tables) → Type 0
Written T t none = Unit
Written T t (some (a, t')) = T t t'

module _ {T : Tables → Tables → Type 0} (o : Preorder T) where
  Moves-committed :
      {A : Type 0} (w : World) (r : Option (A × Tables))
      → Written T w.tables r
      → T w.tables (committed w r).1.tables
  Moves-committed w none h = o.same w.tables
  Moves-committed w (some (a, t)) h = h

  Moves-faulty :
      {A : Type 0} (w : World) (fault : Bool) (r : Option (A × Tables))
      → Written T w.tables r
      → T w.tables (if fault then (err sqlite, w) else committed w r).1.tables
  Moves-faulty w true r h = o.same w.tables
  Moves-faulty w false r h = Moves-committed w r h

  pub Moves-execute :
      {A : Type 0} (write : Tables → Option (A × Tables))
      → ((t : Tables) → Written T t (write t))
      → Moves T (execute write)
  unfolding execute
  Moves-execute write h = record {
    at = λ w.
        let (fault, w') = access w in
        subst
          (λ t. T t (if fault then (err sqlite, w') else committed w' (write w'.tables)).1.tables)
          (tables-access w) (Moves-faulty w' fault (write w'.tables) (h w'.tables));
  }

  pub Moves-mark : {E : Type 0} (e : E) → Moves T (mark e)
  Moves-mark e = record { at = λ w. subst (T w.tables) (sym (tables-mark e w)) (o.same w.tables) }

  module _ {E A : Type 0} where
    pub Moves-pure : (a : A) → Moves T (pure {S = World} {E = E} a)
    unfolding pure
    Moves-pure a = record { at = λ w. o.same w.tables }

    pub Moves-fail : (e : E) → Moves T (fail {S = World} {A = A} e)
    unfolding fail
    Moves-fail e = record { at = λ w. o.same w.tables }

    pub Moves-lift : (r : Outcome E A) → Moves T (lift {S = World} r)
    unfolding lift
    Moves-lift r = record { at = λ w. o.same w.tables }

    pub Moves-if :
        (b : Bool) (m n : Exec World E A) → Moves T m → Moves T n → Moves T (if b then m else n)
    Moves-if true m n km kn = km
    Moves-if false m n km kn = kn

    pub Moves-on_draws : (m : Exec ℕ E A) → Moves T (on_draws m)
    unfolding on_draws
    Moves-on_draws m = record { at = λ w. o.same w.tables }

  pub Moves-refuse_if : {E : Type 0} (b : Bool) (e : E) → Moves T (refuse_if {S = World} b e)
  unfolding refuse_if
  Moves-refuse_if true e = record { at = λ w. o.same w.tables }
  Moves-refuse_if false e = record { at = λ w. o.same w.tables }

  pub Moves-now_utc : {E : Type 0} (lib : Crates) → Moves T (now_utc lib {E = E})
  unfolding now_utc
  Moves-now_utc lib = record { at = λ w. o.same w.tables }

  pub Moves-query : {A : Type 0} (select : Tables → A) → Moves T (query select)
  unfolding query access
  Moves-query select = record {
    at = λ w. subst (T w.tables) (sym (tables-query select w)) (o.same w.tables);
  }

module _ {T : Tables → Tables → Type 0} {E A B : Type 0} where
  Moves-continue :
      (o : Preorder T) (r : Outcome E A) (f : A → Exec World E B) (w : World)
      → ((a : A) → Moves T (f a))
      → T w.tables (continue r f w).1.tables
  Moves-continue o (ok a) f w kf = (kf a).at w
  Moves-continue o (err e) f w kf = o.same w.tables
  Moves-continue o panic f w kf = o.same w.tables

  pub Moves-bind :
      (o : Preorder T) (m : Exec World E A) (f : A → Exec World E B)
      → Moves T m
      → ((a : A) → Moves T (f a))
      → Moves T (m >>= f)
  unfolding ◌>>=◌
  Moves-bind o m f km kf = record {
    at = λ w. let (r, w') = m w in o.then_to (km.at w) (Moves-continue o r f w' kf);
  }

module _ {T : Tables → Tables → Type 0} {E A : Type 0} where
  -- A transaction moves the tables as its body does, or not at all.
  Moves-settled :
      (o : Preorder T) (t : Tables) (r : Outcome E A × World)
      → T t r.1.tables
      → T t (settled t r).1.tables
  Moves-settled o t (ok a, w) h = h
  Moves-settled o t (err e, w) h = o.same t
  Moves-settled o t (panic, w) h = o.same t

  pub Moves-transaction :
      (o : Preorder T) (e : E) (body : Exec World E A) → Moves T body → Moves T (transaction e body)
  unfolding transaction
  Moves-transaction o e body k =
      let whole : Moves T (mark e >>= λ _. body >>= λ a. mark e >>= λ _. pure a) =
        Moves-bind o (mark e) _ (Moves-mark o e) λ _.
          Moves-bind o body _ k λ a. Moves-bind o (mark e) _ (Moves-mark o e) λ _. Moves-pure o a in
      record { at = λ w. Moves-settled o w.tables _ (whole.at w) }

module _ {T : Tables → Tables → Type 0} {E F A : Type 0} where
  pub Moves-map_err : (f : E → F) (m : Exec World E A) → Moves T m → Moves T (map_err f m)
  unfolding map_err
  Moves-map_err f m km = record { at = λ w. km.at w }

pub now_rfc3339-Moves :
    {T : Tables → Tables → Type 0} (o : Preorder T) {E : Type 0} (lib : Crates)
    → Moves T (now_rfc3339 lib {E = E})
unfolding now_rfc3339
now_rfc3339-Moves o lib =
    Moves-bind o (now_utc lib) _ (Moves-now_utc o lib)
      (λ now. Moves-lift o (expected lib (lib.format_rfc3339 now)))

pub ruleset moves_rules = (
  Moves-pure, Moves-fail, Moves-lift, Moves-on_draws, Moves-if, Moves-refuse_if, Moves-now_utc,
  Moves-query, Moves-execute, Moves-bind, Moves-map_err, Moves-transaction, now_rfc3339-Moves,
)

-- The tables stay as they are.
abbrev pub Same : Tables → Tables → Type 0
Same t u = u ≡ t

pub Same-Preorder : Preorder Same
Same-Preorder = record { same = λ t. refl; then_to = λ p q. q ∙ p }

pub record Atomic {E A : Type 0} (m : Exec World E A) : Type 0 where
  pub at : (w : World) → is_ok (m w).0 ≡ false → (m w).1.tables ≡ w.tables

module _ {E A : Type 0} where
  Atomic-settled :
      (t : Tables) (r : Outcome E A × World)
      → is_ok (settled t r).0 ≡ false
      → (settled t r).1.tables ≡ t
  Atomic-settled t (ok a, w) h = cc
  Atomic-settled t (err e, w) h = refl
  Atomic-settled t (panic, w) h = refl

  pub Atomic-transaction : (e : E) (body : Exec World E A) → Atomic (transaction e body)
  unfolding transaction
  Atomic-transaction e body = record { at = λ w h. Atomic-settled w.tables _ h }

  pub Atomic-reads : (m : Exec World E A) → Moves Same m → Atomic m
  Atomic-reads m k = record { at = λ w h. k.at w }

module _ {E A B : Type 0} where
  Atomic-continue :
      (r : Outcome E A) (f : A → Exec World E B) (w : World)
      → ((a : A) → Atomic (f a))
      → is_ok (continue r f w).0 ≡ false
      → (continue r f w).1.tables ≡ w.tables
  Atomic-continue (ok a) f w kf h = (kf a).at w h
  Atomic-continue (err e) f w kf h = refl
  Atomic-continue panic f w kf h = refl

  -- After what only reads, all that follows decides.
  pub Atomic-bind :
      (m : Exec World E A) (f : A → Exec World E B)
      → Moves Same m
      → ((a : A) → Atomic (f a))
      → Atomic (m >>= f)
  unfolding ◌>>=◌
  Atomic-bind m f km kf = record {
    at = λ w h. let (r, w') = m w in Atomic-continue r f w' kf h ∙ km.at w;
  }

  Atomic-continue-pure :
      (r : Outcome E A) (g : A → B) (w : World) (t : Tables)
      → (is_ok r ≡ false → w.tables ≡ t)
      → is_ok (continue {S = World} r (λ a. pure (g a)) w).0 ≡ false
      → (continue {S = World} r (λ a. pure (g a)) w).1.tables ≡ t
  unfolding pure
  Atomic-continue-pure (ok a) g w t k h = cc
  Atomic-continue-pure (err e) g w t k h = k refl
  Atomic-continue-pure panic g w t k h = k refl

  -- What only computes its result at the end adds no failure.
  pub Atomic-bind-pure :
      (m : Exec World E A) (g : A → B) → Atomic m → Atomic (m >>= λ a. pure (g a))
  unfolding ◌>>=◌
  Atomic-bind-pure m g km = record {
    at = λ w h. let (r, w') = m w in Atomic-continue-pure r g w' w.tables (km.at w) h;
  }
