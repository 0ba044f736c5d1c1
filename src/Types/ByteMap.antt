-- ===== src/Types/ByteMap.antt =====
-- A JavaScript Map whose keys are the hex strings of buffers: the entries in the order of insertion.
-- A buffer stands for its string, since two buffers have the same hex string if they are equal.
use uniqys_kit.Prelude.{
  Bool, true, false, Option, none, some, List, [], ◌∷◌, if◌then◌else◌, ◌≡◌, refl, arith,
}
use uniqys_kit.Types.FixedBytes.{Bytes, equals, equals_refl, equals→eq}

abbrev pub ByteMap {ℓ} : Type ℓ → Type ℓ
ByteMap V = List (Bytes × V)

module _ {ℓ} {V : Type ℓ} where
  unfoldable pub get : Bytes → ByteMap V → Option V
  get k [] = none
  get k ((j, v) ∷ m) = if equals j k then some v else get k m

  unfoldable pub has : Bytes → ByteMap V → Bool
  has k [] = false
  has k ((j, v) ∷ m) = if equals j k then true else has k m

  -- A key that is there keeps its place.
  unfoldable pub set : Bytes → V → ByteMap V → ByteMap V
  set k v [] = (k, v) ∷ []
  set k v ((j, w) ∷ m) = if equals j k then (j, v) ∷ m else (j, w) ∷ set k v m

  unfoldable pub delete : Bytes → ByteMap V → ByteMap V
  delete k [] = []
  delete k ((j, v) ∷ m) = let rest = delete k m in if equals j k then rest else (j, v) ∷ rest

  unfoldable pub values : ByteMap V → List V
  values [] = []
  values ((j, v) ∷ m) = v ∷ values m

  pub has-get :
      (k : Bytes) (m : ByteMap V) → has k m ≡ elim (get k m) [ none ↦ false | some v ↦ true ]
  unfolding has get
  has-get k [] = refl
  has-get k ((j, v) ∷ m) = ground (arith, has-get k m)

  pub get-set :
      (k j : Bytes) (v : V) (m : ByteMap V)
      → get j (set k v m) ≡ (if equals k j then some v else get j m)
  unfolding get set
  get-set k j v [] = refl
  get-set k j v ((i, w) ∷ m) = ground (
    arith,
    get-set k j v m,
    equals→eq i k,
    equals→eq i j,
    equals→eq k j,
    equals_refl i,
    equals_refl j,
  )

  pub get-delete :
      (k j : Bytes) (m : ByteMap V) → get j (delete k m) ≡ (if equals k j then none else get j m)
  unfolding get delete
  get-delete k j [] = ground arith
  get-delete k j ((i, w) ∷ m) = ground (
    arith,
    get-delete k j m,
    equals→eq i k,
    equals→eq i j,
    equals→eq k j,
    equals_refl i,
    equals_refl j,
  )
