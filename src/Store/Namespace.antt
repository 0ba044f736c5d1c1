-- ===== src/Store/Namespace.antt =====
-- packages/store/src/index.ts: Namespace, whose prefix is a buffer
use uniqys_kit.Prelude.{
  false, Option, none, some, [], ◌∷◌, ◌++◌, ◌≡◌, refl, ap, ◌∙◌, if◌then◌else◌, arith, ==-refl,
  tests,
}
use uniqys_kit.Types.FixedBytes.{Bytes, equals}
use uniqys_kit.Store.Interface.{Store, StoreLaws}
use uniqys_kit.Store.InMemory.{starts_with}

unfoldable pub full_key : Bytes → Bytes → Bytes
full_key prefix key = prefix ++ key

unfoldable pub clear_prefix : Bytes → Option Bytes → Bytes
unfolding full_key
clear_prefix prefix none = prefix
clear_prefix prefix (some sub) = full_key prefix sub

equals-full_key : (prefix k j : Bytes) → equals (full_key prefix k) (full_key prefix j) ≡ equals k j
unfolding full_key equals
equals-full_key [] k j = refl
equals-full_key (p ∷ prefix) k j = rw (==-refl p) (equals-full_key prefix k j)

-- Keys of two namespaces are different if neither prefix starts with the other.
equals-full_key_other :
    (p q k j : Bytes)
    → starts_with p q ≡ false
    → starts_with q p ≡ false
    → equals (full_key p k) (full_key q j) ≡ false
unfolding full_key equals starts_with
equals-full_key_other [] q k j h i = cc
equals-full_key_other (x ∷ p) [] k j h i = cc
equals-full_key_other (x ∷ p) (y ∷ q) k j h i =
    grind (arith, tests, equals-full_key_other p q k j, ==-refl x)

module _ {State Value : Type 0} (base : Store State Value) where
  unfoldable pub namespace : Bytes → Store State Value
  unfolding full_key clear_prefix
  namespace prefix = record {
    get = λ key s. base.get (full_key prefix key) s;
    set = λ key value s. base.set (full_key prefix key) value s;
    delete = λ key s. base.delete (full_key prefix key) s;
    clear = λ sub s. base.clear (some (clear_prefix prefix sub)) s;
  }

  -- A namespace of a store that keeps the laws keeps them too.
  pub namespace-StoreLaws :
      (prefix : Bytes) → StoreLaws State Value base → StoreLaws State Value (namespace prefix)
  unfolding namespace
  namespace-StoreLaws prefix laws = record {
    get-set = λ k j v s.
        laws.get-set (full_key prefix k) (full_key prefix j) v s
        ∙ ap (λ b. if b then some v else base.get (full_key prefix j) s)
            (equals-full_key prefix k j);
    get-delete = λ k j s.
        laws.get-delete (full_key prefix k) (full_key prefix j) s
        ∙ ap (λ b. if b then none else base.get (full_key prefix j) s) (equals-full_key prefix k j);
  }

  -- Of two namespaces of a store that keeps the laws, where neither prefix starts with the other,
  -- one reads the same before and after a value is set or deleted in the other.
  pub get-other_namespace :
      (p q k j : Bytes) (v : Value) (s : State)
      → StoreLaws State Value base
      → starts_with p q ≡ false
      → starts_with q p ≡ false
      → ((namespace q).get j ((namespace p).set k v s) ≡ (namespace q).get j s)
        × ((namespace q).get j ((namespace p).delete k s) ≡ (namespace q).get j s)
  unfolding namespace
  get-other_namespace p q k j v s laws h i =
      let differ = equals-full_key_other p q k j h i in
      (
        laws.get-set (full_key p k) (full_key q j) v s
            ∙ ap (λ b. if b then some v else base.get (full_key q j) s) differ,
        laws.get-delete (full_key p k) (full_key q j) s
            ∙ ap (λ b. if b then none else base.get (full_key q j) s) differ,
      )
