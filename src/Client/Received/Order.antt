-- ===== src/Client/Received/Order.antt =====
-- `secret_map_from_plain` of crates/secrets-client/src/api.rs on maps whose keys are in order.
use secrets_manager.Prelude.{
  ◌≡◌, refl, sym, ap, ◌∙◌, false, Bool-cases, inl, inr, All, [], ◌∷◌, ◌++◌, append_assoc,
  append-nil, Bytes, BTreeMap, btree_insert, bytes_leb, bytes_leb_refl, ◌=ᵇ◌, =ᵇ_iff,
}
use secrets_manager.Exec.{ok}
use secrets_manager.Client.Received.{valid_secret_key, checked_into, secret_map_from_plain}

-- The keys of a `BTreeMap`, each before all that follow.
abbrev pub IsOrdered : BTreeMap Bytes → Type 0
IsOrdered [] = Unit
IsOrdered ((k, v) ∷ m) = All (λ p. bytes_leb p.0 k ≡ false) m × IsOrdered m

abbrev After : Bytes → BTreeMap Bytes → Type 0
After k m = All (λ p. bytes_leb k p.0 ≡ false) m

btree_insert-After :
    (k v : Bytes) (m : BTreeMap Bytes) → After k m → btree_insert k v m ≡ m ++ (k, v) ∷ []
unfolding btree_insert
btree_insert-After k v [] a = refl
btree_insert-After k v ((j, w) ∷ m) (late, a) = elim (Bool-cases (j =ᵇ k)) [
  | inl same ↦
      let e : j ≡ k = (=ᵇ_iff j k).0 same in cc (sym late ∙ (ap (bytes_leb k) e ∙ bytes_leb_refl k))
  | inr other ↦ rw other (rw late (ap (λ r. (j, w) ∷ r) (btree_insert-After k v m a)))
]

After-append :
    (k j v : Bytes) (m : BTreeMap Bytes)
    → After k m
    → bytes_leb k j ≡ false
    → After k (m ++ (j, v) ∷ [])
After-append k j v [] a late = (late, tt)
After-append k j v (p ∷ m) a late = (a.0, After-append k j v m a.1 late)

Afters-append :
    (j v : Bytes) (raw out : BTreeMap Bytes)
    → All (λ q. After q.0 out) raw
    → All (λ q. bytes_leb q.0 j ≡ false) raw
    → All (λ q. After q.0 (out ++ (j, v) ∷ [])) raw
Afters-append j v [] out a late = tt
Afters-append j v (q ∷ raw) out a late =
    (After-append q.0 j v out a.0 late.0, Afters-append j v raw out a.1 late.1)

checked_into-append :
    (raw out m : BTreeMap Bytes)
    → IsOrdered raw
    → All (λ q. After q.0 out) raw
    → checked_into raw out ≡ ok m
    → out ++ raw ≡ m
unfolding checked_into
checked_into-append [] out m ordered a e = append-nil out ∙ cc e
checked_into-append ((k, v) ∷ raw) out m ordered a e = elim (Bool-cases (valid_secret_key k)) [
  | inl valid ↦
      sym (append_assoc out ((k, v) ∷ []) raw)
      ∙ checked_into-append raw (out ++ (k, v) ∷ []) m ordered.1
          (Afters-append k v raw out a.1 ordered.0)
          (ap (checked_into raw) (sym (btree_insert-After k v out a.0)) ∙ (rw valid at e))
  | inr bad ↦ cc (rw bad at e)
]

no_out : (raw : BTreeMap Bytes) → All (λ q. After q.0 []) raw
no_out [] = tt
no_out (q ∷ raw) = (tt, no_out raw)

pub secret_map_from_plain-same :
    (raw m : BTreeMap Bytes) → IsOrdered raw → secret_map_from_plain raw ≡ ok m → raw ≡ m
unfolding secret_map_from_plain
secret_map_from_plain-same raw m ordered e = checked_into-append raw [] m ordered (no_out raw) e
