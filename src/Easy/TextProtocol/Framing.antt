-- ===== src/Easy/TextProtocol/Framing.antt =====
-- packages/easy-framework/src/memcached-compatible-server/protocol.ts: where a line ends, in bytes that
-- come in parts.
use uniqys_kit.Prelude.{
  ℕ, zero, suc, ap, ◌+◌, ◌==◌, ◌≤◌, ◌≡◌, refl, Bool, true, false, ◌&&◌, Option, none, some, [], ◌∷◌,
  ◌++◌, if◌then◌else◌, length, drop, arith, Bool-cases, inl, inr, Option-cases,
}
use uniqys_kit.Types.FixedBytes.{Bytes}
use uniqys_kit.Easy.TextLines.{find_crlf, prefixed, is_lf}

-- Is CR the last byte?
unfoldable pub ends_in_cr : Bytes → Bool
ends_in_cr [] = false
ends_in_cr (x ∷ []) = x == 13
ends_in_cr (x ∷ y ∷ xs) = ends_in_cr (y ∷ xs)

-- What is found in bytes is found in longer ones.
abbrev pub extended : Bytes → Option (Bytes × Bytes) → Option (Bytes × Bytes)
extended more none = none
extended more (some (line, rest)) = some (line, rest ++ more)

-- A line that ends after these bytes.
abbrev pub continued : Bytes → Option (Bytes × Bytes) → Option (Bytes × Bytes)
continued before none = none
continued before (some (line, rest)) = some (before ++ line, rest)

pub ends_in_cr-drop : (n : ℕ) (xs : Bytes) → ends_in_cr xs ≡ false → ends_in_cr (drop n xs) ≡ false
unfolding ends_in_cr
ends_in_cr-drop zero xs e = e
ends_in_cr-drop (suc n) [] e = refl
ends_in_cr-drop (suc zero) (x ∷ []) e = refl
ends_in_cr-drop (suc (suc n)) (x ∷ []) e = refl
ends_in_cr-drop (suc n) (x ∷ y ∷ xs) e = ends_in_cr-drop n (y ∷ xs) e

-- The search at one byte, and at two.
pub find_crlf-single : (x : ℕ) → find_crlf (x ∷ []) ≡ none
unfolding find_crlf prefixed is_lf
find_crlf-single x = ground arith

pub find_crlf-cons :
    (x y : ℕ) (xs : Bytes)
    → find_crlf (x ∷ y ∷ xs)
      ≡ (if x == 13 && y == 10 then some ([], xs) else prefixed x (find_crlf (y ∷ xs)))
unfolding find_crlf is_lf
find_crlf-cons x y xs = refl

prefixed-some :
    (x : ℕ) (found : Option (Bytes × Bytes)) (line rest : Bytes)
    → prefixed x found ≡ some (line, rest)
    → (before : Bytes) × (found ≡ some (before, rest)) × (line ≡ x ∷ before)
unfolding prefixed
prefixed-some x none line rest e = cc
prefixed-some x (some (before, after)) line rest e = ground arith

pub prefixed-none :
    (x : ℕ) (found : Option (Bytes × Bytes)) → prefixed x found ≡ none → found ≡ none
unfolding prefixed
prefixed-none x none e = refl
prefixed-none x (some found) e = cc

prefixed-continued :
    (x : ℕ) (xs : Bytes) (found : Option (Bytes × Bytes))
    → prefixed x (continued xs found) ≡ continued (x ∷ xs) found
unfolding prefixed
prefixed-continued x xs none = refl
prefixed-continued x xs (some found) = refl

-- A line ends at once, or further on.
data Ends (x y : ℕ) (xs line rest : Bytes) : Type 0 where
  here : (x == 13 && y == 10) ≡ true → line ≡ [] → rest ≡ xs → Ends x y xs line rest
  later :
      (before : Bytes)
      → (x == 13 && y == 10) ≡ false
      → find_crlf (y ∷ xs) ≡ some (before, rest)
      → line ≡ x ∷ before
      → Ends x y xs line rest

find_crlf-ends :
    (x y : ℕ) (xs line rest : Bytes)
    → find_crlf (x ∷ y ∷ xs) ≡ some (line, rest)
    → Ends x y xs line rest
find_crlf-ends x y xs line rest e = elim (Bool-cases (x == 13 && y == 10)) [
  | inl ends ↦ (let same = rw (find_crlf-cons x y xs, ends) at e in here ends (cc same) (cc same))
  | inr other ↦
      (let found = rw (find_crlf-cons x y xs, other) at e in
        let (before, there, line_of) = prefixed-some x (find_crlf (y ∷ xs)) line rest found in
        later before other there line_of)
]

pub length-find_crlf :
    (xs line rest : Bytes) → find_crlf xs ≡ some (line, rest) → length rest + 2 ≤ length xs
length-find_crlf [] line rest e = unfold find_crlf in cc
length-find_crlf (x ∷ []) line rest e = cc (find_crlf-single x)
length-find_crlf (x ∷ y ∷ xs) line rest e = elim (find_crlf-ends x y xs line rest e) [
  | here ends empty same ↦ omega (arith, ap length same)
  | later before other found line_of ↦ omega (arith, length-find_crlf (y ∷ xs) before rest found)
]

pub find_crlf-some :
    (xs more line rest : Bytes)
    → find_crlf xs ≡ some (line, rest)
    → find_crlf (xs ++ more) ≡ some (line, rest ++ more)
unfolding prefixed
find_crlf-some [] more line rest e = unfold find_crlf in cc
find_crlf-some (x ∷ []) more line rest e = cc (find_crlf-single x)
find_crlf-some (x ∷ y ∷ xs) more line rest e = elim (find_crlf-ends x y xs line rest e) [
  | here ends empty same ↦ rw (find_crlf-cons x y (xs ++ more), ends, empty, same) refl
  | later before other found line_of ↦
      rw
        (
          find_crlf-cons x y (xs ++ more),
          other,
          find_crlf-some (y ∷ xs) more before rest found,
          line_of,
        )
        refl
]

pub find_crlf-none :
    (xs more : Bytes)
    → find_crlf xs ≡ none
    → ends_in_cr xs ≡ false
    → find_crlf (xs ++ more) ≡ continued xs (find_crlf more)
find_crlf-none [] more e open_end = elim (Option-cases (find_crlf more)) [
  | inl nothing ↦ rw nothing refl
  | inr (found, there) ↦ rw there refl
]
find_crlf-none (x ∷ []) [] e open_end = rw (find_crlf-single x) (unfold find_crlf in refl)
find_crlf-none (x ∷ []) (z ∷ more) e open_end =
    let other : (x == 13 && z == 10) ≡ false = unfold ends_in_cr in ground arith in
    rw (find_crlf-cons x z more, other)
      (elim (Option-cases (find_crlf (z ∷ more))) [
        | inl nothing ↦ rw nothing (unfold prefixed in refl)
        | inr (found, there) ↦ rw there (unfold prefixed in refl)
      ])
find_crlf-none (x ∷ y ∷ xs) more e open_end = elim (Bool-cases (x == 13 && y == 10)) [
  | inl ends ↦ (let same = rw (find_crlf-cons x y xs, ends) at e in cc same)
  | inr other ↦
      (let nothing =
          prefixed-none x (find_crlf (y ∷ xs)) (rw (find_crlf-cons x y xs, other) at e) in
        rw
          (
            find_crlf-cons x y (xs ++ more),
            other,
            find_crlf-none (y ∷ xs) more nothing (unfold ends_in_cr in open_end),
          )
          (prefixed-continued x (y ∷ xs) (find_crlf more)))
]

pub ends_in_cr-rest :
    (xs line rest : Bytes)
    → find_crlf xs ≡ some (line, rest)
    → ends_in_cr xs ≡ false
    → ends_in_cr rest ≡ false
ends_in_cr-rest [] line rest e open_end = unfold find_crlf in cc
ends_in_cr-rest (x ∷ []) line rest e open_end = cc (find_crlf-single x)
ends_in_cr-rest (x ∷ y ∷ xs) line rest e open_end = elim (find_crlf-ends x y xs line rest e) [
  | here ends empty same ↦ rw same (ends_in_cr-drop 2 (x ∷ y ∷ xs) open_end)
  | later before other found line_of ↦
      ends_in_cr-rest (y ∷ xs) before rest found (ends_in_cr-drop 1 (x ∷ y ∷ xs) open_end)
]
