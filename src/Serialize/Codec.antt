-- ===== src/Serialize/Codec.antt =====
-- packages/serialize/src/index.ts: the functions serialize and deserialize, and what it means that
-- a serializer and a deserializer fit.
pub mod Numbers
pub mod Signed
pub mod Collections
use uniqys_kit.Prelude.{
  ℕ, ◌+◌, ◌-◌, ◌≤◌, ◌<◌, ◌≡◌, refl, sym, ap, ◌∙◌, List, [], ◌++◌, append-nil, append_assoc, arith,
  Result, ok, ◌>>=◌, length, take, drop, take-append, drop-append, drop-drop,
}
use uniqys_kit.Serialize.Buffer.{
  BufferWriter, BufferReader, new_writer, contents, new_reader, remaining, consume, append,
}
use uniqys_kit.Serialize.Buffer.Bytes.{Holds, Holds-new, contents-Holds, append-Holds}
use uniqys_kit.Serialize.Integers.{Serializer, Deserializer}

module _ {ℓ} {A : Type ℓ} where
  unfoldable pub serialize : Serializer A → A → Result (List ℕ)
  serialize serializer value = do w ← serializer value new_writer; ok (contents w)

  unfoldable pub deserialize : Deserializer A → List ℕ → Result A
  deserialize deserializer bytes = do (value, r) ← deserializer (new_reader bytes); ok value

-- The write succeeds and adds exactly `bytes` to whatever the writer holds.
abbrev pub Writes : (BufferWriter → Result BufferWriter) → List ℕ → Type 0
Writes write bytes =
    (w : BufferWriter) (c : List ℕ)
    → Holds w c
    → (w' : BufferWriter) × (write w ≡ ok w') × Holds w' (c ++ bytes)

-- The deserializer reads the value off `bytes` and leaves what follows.
abbrev pub Reads {ℓ} : {A : Type ℓ} → Deserializer A → A → List ℕ → Type ℓ
Reads {A} d value bytes =
    (r : BufferReader) (rest : List ℕ)
    → remaining r ≡ bytes ++ rest
    → (r' : BufferReader) × (d r ≡ ok (value, r')) × (remaining r' ≡ rest)

-- What `write` adds is what `read` takes the value off.
pub record Part {ℓ} {A : Type ℓ} (write : BufferWriter → Result BufferWriter)
    (read : Deserializer A) (value : A) : Type ℓ where
  pub bytes : List ℕ
  pub writes : Writes write bytes
  pub reads : Reads read value bytes

abbrev pub Fits {ℓ} : {A : Type ℓ} → Serializer A → Deserializer A → A → Type ℓ
Fits s d value = Part (s value) d value

pub Writes-append : (bytes : List ℕ) → Writes (λ w. ok (append bytes w)) bytes
Writes-append bytes w c h = (append bytes w, refl, append-Holds bytes h)

pub Writes-nothing : Writes (λ w. ok w) []
Writes-nothing w c h = (w, refl, rw append-nil h)

pub Writes-bind :
    (f g : BufferWriter → Result BufferWriter) (xs ys : List ℕ)
    → Writes f xs
    → Writes g ys
    → Writes (λ w. f w >>= g) (xs ++ ys)
Writes-bind f g xs ys wf wg w c h =
    let (w', e, h') = wf w c h in
    let (w'', e', h'') = wg w' (c ++ xs) h' in (w'', rw e e', rw (← append_assoc c xs ys) h'')

-- The slice that `consume` takes, and what it leaves.
pub consume_lem :
    (r : BufferReader) (bytes rest : List ℕ)
    → remaining r ≡ bytes ++ rest
    → ((consume (length bytes) r).0 ≡ bytes) × (remaining (consume (length bytes) r).1 ≡ rest)
unfolding consume remaining
consume_lem r bytes rest e = (
  rw e (take-append bytes rest),
  sym (drop-drop r.start (length bytes) r.store) ∙ rw e (drop-append bytes rest),
)

module _ {ℓ κ} {A : Type ℓ} {B : Type κ} where
  pub Reads-bind :
      (d : Deserializer A) (k : A → Deserializer B) (a : A) (b : B) (xs ys : List ℕ)
      → Reads d a xs
      → Reads (k a) b ys
      → Reads (λ r. d r >>= λ (x, r'). k x r') b (xs ++ ys)
  Reads-bind d k a b xs ys rd rk r rest e =
      let (r', e₁, left) = rd r (ys ++ rest) (e ∙ append_assoc xs ys rest) in
      let (r'', e₂, left') = rk r' rest left in (r'', rw e₁ e₂, left')

pub Reads-ok {ℓ} : {A : Type ℓ} (a : A) → Reads (λ r. ok (a, r)) a []
Reads-ok a r rest e = (r, refl, e)

-- Rules for the serializers of records: a field and then the rest, and the last field.
module _ {ℓ κ} {A : Type ℓ} {B : Type κ} where
  pub Part-then :
      (s : Serializer A) (d : Deserializer A) (k : A → Deserializer B) {a : A}
      {write : BufferWriter → Result BufferWriter} {b : B}
      → Fits s d a
      → Part write (k a) b
      → Part (λ w. s a w >>= write) (λ r. d r >>= λ (x, r'). k x r') b
  Part-then s d k {a} {write} {b} field rest = record {
    bytes = field.bytes ++ rest.bytes;
    writes = Writes-bind (s a) write field.bytes rest.bytes field.writes rest.writes;
    reads = Reads-bind d k a b field.bytes rest.bytes field.reads rest.reads;
  }

  pub bytes-Part :
      (s : Serializer A) (d : Deserializer A) (k : A → Deserializer B) {a : A}
      {write : BufferWriter → Result BufferWriter} {b : B} (field : Fits s d a)
      (rest : Part write (k a) b)
      → (Part-then s d k field rest).bytes ≡ field.bytes ++ rest.bytes
  unfolding Part-then
  bytes-Part s d k field rest = refl

  -- A label alone, which decides the value.
  pub Part-end :
      (s : Serializer A) (d : Deserializer A) (k : A → Deserializer B) {a : A} {b : B}
      → Fits s d a
      → k a ≡ (λ r. ok (b, r))
      → Part (s a) (λ r. d r >>= λ (x, r'). k x r') b
  Part-end s d k {a} {b} field e = record {
    bytes = field.bytes;
    writes = field.writes;
    reads =
        rw append-nil at (
          Reads-bind d k a b field.bytes [] field.reads
            (λ r rest left. (r, ap (λ f. f r) e, left)));
  }

  pub Part-last :
      (s : Serializer A) (d : Deserializer A) (f : A → B) {a : A}
      → Fits s d a
      → Part (s a) (λ r. d r >>= λ (x, r'). ok (f x, r')) (f a)
  Part-last s d f {a} field = record {
    bytes = field.bytes;
    writes = field.writes;
    reads =
        rw append-nil at
          (Reads-bind d (λ x r. ok (f x, r)) a (f a) field.bytes [] field.reads (Reads-ok (f a)));
  }

module _ {ℓ κ} {A : Type ℓ} {B : Type κ} where
  pub bytes-Part_last :
      (s : Serializer A) (d : Deserializer A) (f : A → B) {a : A} (field : Fits s d a)
      → (Part-last s d f field).bytes ≡ field.bytes
  unfolding Part-last
  bytes-Part_last s d f field = refl

module _ {ℓ} {A : Type ℓ} where
  -- A serializer and a deserializer that fit give the value back from its bytes.
  pub deserialize-serialize :
      (s : Serializer A) (d : Deserializer A) (value : A)
      → Fits s d value
      → (serialize s value >>= deserialize d) ≡ ok value
  unfolding serialize deserialize new_reader remaining
  deserialize-serialize s d value fits =
      let (w, e, h) = fits.writes new_writer [] Holds-new in
      let (r, e', left) = fits.reads (new_reader fits.bytes) [] (sym (append-nil fits.bytes)) in
      rw (e, contents-Holds h, e')

  -- The bytes that a fitting value is written as.
  pub serialize-bytes :
      (s : Serializer A) (d : Deserializer A) (value : A) (fits : Fits s d value)
      → serialize s value ≡ ok fits.bytes
  unfolding serialize
  serialize-bytes s d value fits =
      let (w, e, h) = fits.writes new_writer [] Holds-new in rw (e, contents-Holds h)

  pub serialize-Writes :
      (s : Serializer A) (value : A) (bytes : List ℕ)
      → Writes (s value) bytes
      → serialize s value ≡ ok bytes
  unfolding serialize
  serialize-Writes s value bytes writes =
      let (w, e, h) = writes new_writer [] Holds-new in rw (e, contents-Holds h)

  -- Of two values that fit, the one with the same bytes is the same.
  pub Fits-injective :
      (s : Serializer A) (d : Deserializer A) (a b : A)
      → Fits s d a
      → Fits s d b
      → serialize s a ≡ serialize s b
      → a ≡ b
  Fits-injective s d a b fa fb e = ok-injective (
      sym (deserialize-serialize s d a fa)
      ∙ ap (λ t. t >>= deserialize d) e
      ∙ deserialize-serialize s d b fb)
    where
      ok-injective : {x y : A} → ok x ≡ ok y → x ≡ y
      ok-injective h = cc
