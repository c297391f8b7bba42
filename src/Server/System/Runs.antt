-- ===== src/Server/System/Runs.antt =====
-- Actions on the machine that leave the locks and the running server alone.
use secrets_manager.Prelude.{◌≡◌, Bool, true, false, Option, List}
use secrets_manager.Exec.{
  Outcome, ok, err, panic, map_error, Exec, pure, lift, refuse_if, continue, ◌>>=◌,
}
use secrets_manager.Crypto.{MasterKey}
use secrets_manager.Server.State.{World, Tables}
use secrets_manager.Server.State.Triples.{Triple, Ends}
use secrets_manager.Server.Config.{Typed, ConfigError}
use secrets_manager.Server.Lock.{FilePath}
use secrets_manager.Server.Commands.{Machine, CommandError, config, on_world, on_typed}

module _ (I : Tables → Type 0) (h : List FilePath) (s : Option MasterKey) where
  abbrev pub On : (Tables → Type 0) → Machine → Type 0
  On P m = P m.world.tables × (m.held ≡ h) × (m.serving ≡ s)

  abbrev pub EndsOn : {E A : Type 0} → (A → Tables → Type 0) → Outcome E A × Machine → Type 0
  EndsOn Q (ok a, m) = On (Q a) m
  EndsOn Q (err e, m) = On I m
  EndsOn Q (panic, m) = On I m

  pub record Runs {E A : Type 0} (P : Tables → Type 0) (body : Exec Machine E A)
      (Q : A → Tables → Type 0) : Type 0 where
    pub at : (m : Machine) → On P m → EndsOn Q (body m)

  module _ {E A B : Type 0} where
    continue-EndsOn :
        (r : Outcome E A × Machine) (f : A → Exec Machine E B) (Q : A → Tables → Type 0)
        (R : B → Tables → Type 0)
        → ((a : A) → Runs (Q a) (f a) R)
        → EndsOn Q r
        → EndsOn R (continue r.0 f r.1)
    continue-EndsOn (ok a, m) f Q R k e = (k a).at m e
    continue-EndsOn (err x, m) f Q R k e = e
    continue-EndsOn (panic, m) f Q R k e = e

    pub Runs-bind :
        {P : Tables → Type 0} {Q : A → Tables → Type 0} {R : B → Tables → Type 0}
        (body : Exec Machine E A) (f : A → Exec Machine E B)
        → Runs P body Q
        → ((a : A) → Runs (Q a) (f a) R)
        → Runs P (body >>= f) R
    unfolding ◌>>=◌
    Runs-bind {Q = Q} {R = R} body f kb kf = record {
      at = λ m e. continue-EndsOn (body m) f Q R kf (kb.at m e);
    }

  module _ {E A : Type 0} where
    lift-EndsOn :
        (r : Outcome E A) (P : Tables → Type 0) (m : Machine)
        → ((t : Tables) → P t → I t)
        → On P m
        → EndsOn (λ _ t. P t) (r, m)
    lift-EndsOn (ok a) P m i e = e
    lift-EndsOn (err x) P m i (e, held, serving) = (i m.world.tables e, held, serving)
    lift-EndsOn panic P m i (e, held, serving) = (i m.world.tables e, held, serving)

    pub Runs-lift :
        {P : Tables → Type 0} (r : Outcome E A)
        → ((t : Tables) → P t → I t)
        → Runs P (lift r) (λ _ t. P t)
    unfolding lift
    Runs-lift {P = P} r i = record { at = λ m e. lift-EndsOn r P m i e }

    pub Runs-pure : {Q : A → Tables → Type 0} (a : A) → Runs (Q a) (pure {E = E} a) Q
    unfolding pure
    Runs-pure a = record { at = λ m e. e }

  module _ {E A : Type 0} where
    on_world-EndsOn :
        (f : E → CommandError) (r : Outcome E A × World) (m : Machine) (Q : A → Tables → Type 0)
        → Ends I Q r
        → m.held ≡ h
        → m.serving ≡ s
        → EndsOn Q (map_error f r.0, record m { world = r.1 })
    on_world-EndsOn f (ok a, w) m Q e held serving = (e, held, serving)
    on_world-EndsOn f (err x, w) m Q e held serving = (e, held, serving)
    on_world-EndsOn f (panic, w) m Q e held serving = (e, held, serving)

    pub Runs-on_world :
        {P : Tables → Type 0} {Q : A → Tables → Type 0} (f : E → CommandError)
        (body : Exec World E A)
        → Triple I P body Q
        → Runs P (on_world f body) Q
    unfolding on_world
    Runs-on_world {Q = Q} f body k = record {
      at = λ m e. on_world-EndsOn f (body m.world) m Q (k.at m.world e.0) e.1 e.2;
    }

  module _ {A : Type 0} where
    pub Runs-on_typed :
        {P : Tables → Type 0} (body : Exec Typed ConfigError A)
        → ((t : Tables) → P t → I t)
        → Runs P (on_typed body) (λ _ t. P t)
    unfolding on_typed
    Runs-on_typed {P = P} body i = record {
      at = λ m e.
          let (r, typed) = body m.typed in
          lift-EndsOn (map_error config r) P (record m { typed = typed }) i e;
    }

  pub Runs-refuse_if :
      {P : Tables → Type 0} {E : Type 0} (b : Bool) (x : E)
      → ((t : Tables) → P t → I t)
      → Runs P (refuse_if b x) (λ _ t. P t)
  unfolding refuse_if
  Runs-refuse_if true x i = record { at = λ m e. (i m.world.tables e.0, e.1, e.2) }
  Runs-refuse_if false x i = record { at = λ m e. e }
