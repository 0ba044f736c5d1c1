-- ===== src/Easy/Parameters.antt =====
-- packages/easy-framework/src/memcached-compatible-server/parameter-fetcher.ts. A string is the list of
-- its codes, and parseInt(text, 10) is a function that gives `none` for NaN.
use Prim.Native.Char.{code}
use Prim.Native.String.{String}
use uniqys_kit.Prelude.{
  ℕ, ◌-◌, ◌^◌, Bool, true, false, Option, none, some, List, [], ◌∷◌, if◌then◌else◌, ltb, leb,
  length, get_elem?,
}
use uniqys_kit.Prelude.Int.{ℤ, pos, negsuc}
use uniqys_kit.Types.FixedBytes.{equals}

abbrev pub Text : Type 0
Text = List ℕ

abbrev pub codes : String → Text
codes String.[] = []
codes (String.◌∷◌ c s) = code c ∷ codes s

-- The messages of ClientError.
pub data ClientError : Type 0 where
  too_many_parameters : ClientError
  missing_parameter : ClientError
  missing_keys : ClientError
  bad_number_format : Text → ClientError
  bad_key_format : Text → ClientError
  bad_flags_format : ℤ → ClientError
  bad_noreply_format : Text → ClientError

pub data Fetched (Value : Type 0) : Type 0 where
  got : Value → Fetched Value
  bad : ClientError → Fetched Value

infixl 5 ◌>>=◌
abbrev pub ◌>>=◌ : {A B : Type 0} → Fetched A → (A → Fetched B) → Fetched B
got value >>= next = next value
bad error >>= next = bad error

-- `params[i]`, which may be undefined
unfoldable pub def : Option Text → Fetched Text
def none = bad missing_parameter
def (some raw) = got raw

unfoldable pub no_reply : Option Text → Fetched Bool
no_reply none = got false
no_reply (some raw) =
    if equals raw (codes "noreply") then got true else bad (bad_noreply_format raw)

unfoldable pub key : Option Text → Fetched Text
unfolding def
key raw = do k ← def raw; if ltb 250 (length k) then bad (bad_key_format k) else got k

unfoldable pub keys : List Text → Fetched (List Text)
unfolding key
keys [] = got []
keys (param ∷ params) = do k ← key (some param); ks ← keys params; got (k ∷ ks)

-- The check of Checker.get: there are no more parameters than checkers.
unfoldable pub at_most : {A : Type 0} → ℕ → List Text → Fetched A → Fetched A
at_most n params rest = if ltb n (length params) then bad too_many_parameters else rest

unfoldable pub flags_in_range : ℤ → Fetched ℕ
flags_in_range (negsuc n) = bad (bad_flags_format (negsuc n))
flags_in_range (pos n) = if leb n (2 ^ 32 - 1) then got n else bad (bad_flags_format (pos n))

pub record Storage : Type 0 where
  pub key : Text
  pub flags : ℕ
  pub bytes : ℤ
  pub no_reply : Bool

module _ (parse_int : Text → Option ℤ) where
  unfoldable pub number_of : Text → Option ℤ → Fetched ℤ
  number_of str none = bad (bad_number_format str)
  number_of str (some num) = got num

  unfoldable pub number : Option Text → Fetched ℤ
  unfolding def number_of
  number raw = do str ← def raw; number_of str (parse_int str)

  unfoldable pub flags : Option Text → Fetched ℕ
  unfolding number flags_in_range
  flags raw = do n ← number raw; flags_in_range n

  -- The third parameter, the time of expiry, is checked and not used.
  unfoldable pub storage : List Text → Fetched Storage
  unfolding at_most key flags number no_reply
  storage params = at_most 5 params (do
    k ← key (get_elem? params 0)
    f ← flags (get_elem? params 1)
    expiry ← number (get_elem? params 2)
    bytes ← number (get_elem? params 3)
    quiet ← no_reply (get_elem? params 4)
    got (record { key = k; flags = f; bytes = bytes; no_reply = quiet }))

  unfoldable pub cas : List Text → Fetched (Storage × ℤ)
  unfolding at_most key flags number no_reply
  cas params = at_most 6 params (do
    k ← key (get_elem? params 0)
    f ← flags (get_elem? params 1)
    expiry ← number (get_elem? params 2)
    bytes ← number (get_elem? params 3)
    unique ← number (get_elem? params 4)
    quiet ← no_reply (get_elem? params 5)
    got (record { key = k; flags = f; bytes = bytes; no_reply = quiet }, unique))

  unfoldable pub incr_decr : List Text → Fetched (Text × ℤ × Bool)
  unfolding at_most key number no_reply
  incr_decr params = at_most 3 params (do
    k ← key (get_elem? params 0)
    value ← number (get_elem? params 1)
    quiet ← no_reply (get_elem? params 2)
    got (k, value, quiet))

  unfoldable pub verb : List Text → Fetched (ℤ × Bool)
  unfolding at_most number no_reply
  verb params = at_most 2 params (do
    level ← number (get_elem? params 0)
    quiet ← no_reply (get_elem? params 1)
    got (level, quiet))

  unfoldable pub flush : List Text → Fetched (ℤ × Bool)
  unfolding number no_reply
  flush [] = got (pos 0, false)
  flush (param ∷ params) = if equals param (codes "noreply") then got (pos 0, true) else (do
    delay ← number (some param)
    quiet ← no_reply (get_elem? params 0)
    got (delay, quiet))

unfoldable pub none_of : List Text → Fetched (Unit {0})
unfolding at_most
none_of params = at_most 0 params (got tt)

unfoldable pub get : List Text → Fetched (List Text)
unfolding keys
get [] = bad missing_keys
get (param ∷ params) = keys (param ∷ params)

unfoldable pub del : List Text → Fetched (Text × Bool)
unfolding at_most key no_reply
del params =
    at_most 2 params
      (do k ← key (get_elem? params 0); quiet ← no_reply (get_elem? params 1); got (k, quiet))
