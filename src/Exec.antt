-- ===== src/Exec.antt =====
-- Code that changes a state and may fail: it returns, returns an error (`Err`, left by `?`), or
-- panics. What was written before an error or a panic stays written, so the state comes back
-- beside each of the three.
use secrets_manager.Prelude.{◌≡◌, refl, ap, Bool, true, false, Option, none, some}

pub data Outcome {ℓ} (E A : Type ℓ) : Type ℓ where
  ok : A → Outcome E A
  err : E → Outcome E A
  panic : Outcome E A

module _ {ℓ} {E A : Type ℓ} where
  -- `Option::ok_or`
  abbrev pub ok_or : Option A → E → Outcome E A
  ok_or none e = err e
  ok_or (some a) e = ok a

  -- `Result::is_ok`
  abbrev pub is_ok : Outcome E A → Bool
  is_ok (ok a) = true
  is_ok (err e) = false
  is_ok panic = false

  -- `Result::ok`
  abbrev pub to_option : Outcome E A → Option A
  to_option (ok a) = some a
  to_option (err e) = none
  to_option panic = none

-- `Result::map_err`
abbrev pub map_error {ℓ} : {E F A : Type ℓ} → (E → F) → Outcome E A → Outcome F A
map_error f (ok a) = ok a
map_error f (err e) = err (f e)
map_error f panic = panic

abbrev pub then_result {ℓ} : {E A B : Type ℓ} → Outcome E A → (A → Outcome E B) → Outcome E B
then_result (ok a) f = f a
then_result (err e) f = err e
then_result panic f = panic

abbrev pub Exec {ℓ} : Type ℓ → Type ℓ → Type ℓ → Type ℓ
Exec S E A = S → Outcome E A × S

module _ {ℓ} {S E A : Type ℓ} where
  unfoldable pub pure : A → Exec S E A
  pure a s = (ok a, s)

  unfoldable pub fail : E → Exec S E A
  fail e s = (err e, s)

  unfoldable pub lift : Outcome E A → Exec S E A
  lift r s = (r, s)

  unfoldable pub gets : (S → A) → Exec S E A
  gets f s = (ok (f s), s)

unfoldable pub map_err {ℓ} : {S E F A : Type ℓ} → (E → F) → Exec S E A → Exec S F A
map_err f m s = let (r, s') = m s in (map_error f r, s')

-- `if test { return Err(e) }`
unfoldable pub refuse_if : {S E : Type 0} → Bool → E → Exec S E (Unit {0})
unfolding pure fail
refuse_if true e = fail e
refuse_if false e = pure tt

module _ {ℓ} {S E A B : Type ℓ} where
  abbrev pub continue : Outcome E A → (A → Exec S E B) → Exec S E B
  continue (ok a) f s = f a s
  continue (err e) f s = (err e, s)
  continue panic f s = (panic, s)

  infixl 5 ◌>>=◌
  -- Opening this opens the simple actions too.
  unfoldable pub ◌>>=◌ : Exec S E A → (A → Exec S E B) → Exec S E B
  unfolding pure fail lift gets map_err refuse_if
  ◌>>=◌ m f s = let (r, s') = m s in continue r f s'

infixl 5 ◌>>◌
abbrev pub ◌>>◌ : {S E B : Type 0} → Exec S E (Unit {0}) → Exec S E B → Exec S E B
m >> k = m >>= λ _. k

-- A block that ends well has gone through each of its steps.
module _ {ℓ} {S E A B : Type ℓ} where
  continue-eq-ok :
      (r : Outcome E A) (f : A → Exec S E B) (s s' : S) {b : B}
      → continue r f s ≡ (ok b, s')
      → (a : A) × (r ≡ ok a) × (f a s ≡ (ok b, s'))
  continue-eq-ok (ok a) f s s' h = (a, refl, h)
  continue-eq-ok (err e) f s s' h = cc (ap (λ p. p.0) h)
  continue-eq-ok panic f s s' h = cc (ap (λ p. p.0) h)

  pub >>=-eq-ok :
      (m : Exec S E A) (f : A → Exec S E B) (s s'' : S) {b : B}
      → (m >>= f) s ≡ (ok b, s'')
      → (a : A) × (s' : S) × (m s ≡ (ok a, s')) × (f a s' ≡ (ok b, s''))
  unfolding ◌>>=◌
  >>=-eq-ok m f s s'' h =
      let (a, e, k) = continue-eq-ok (m s).0 f (m s).1 s'' h in
      (a, (m s).1, (λ i. (e i, (m s).1)), k)

  -- A step that ends well hands its result on.
  pub >>=-of_ok :
      (m : Exec S E A) (f : A → Exec S E B) (s s' : S) {a : A}
      → m s ≡ (ok a, s')
      → (m >>= f) s ≡ f a s'
  unfolding ◌>>=◌
  >>=-of_ok m f s s' e = ap (λ p. continue p.0 f p.1) e

  -- An error ends a block.
  pub >>=-of_err :
      (m : Exec S E A) (f : A → Exec S E B) (s s' : S) {e : E}
      → m s ≡ (err e, s')
      → (m >>= f) s ≡ (err e, s')
  unfolding ◌>>=◌
  >>=-of_err m f s s' e = ap (λ p. continue p.0 f p.1) e

  -- A step that ended well, for a proof that goes through a block step by step.
  pub >>=-elim {κ} :
      (m : Exec S E A) (f : A → Exec S E B) (s s'' : S) {b : B} {C : Type κ}
      → (m >>= f) s ≡ (ok b, s'')
      → ((a : A) (s' : S) → m s ≡ (ok a, s') → f a s' ≡ (ok b, s'') → C)
      → C
  >>=-elim m f s s'' h k = let (a, s', e, r) = >>=-eq-ok m f s s'' h in k a s' e r
