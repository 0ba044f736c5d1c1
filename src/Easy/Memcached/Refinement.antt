-- ===== src/Easy/Memcached/Refinement.antt =====
-- packages/easy-framework/src/memcached-implementation.ts: the operations against a cache that holds
-- an item, or none, under each key.
use uniqys_kit.Prelude.{
  ◌+◌, ◌≡◌, refl, sym, ap, ◌∙◌, Bool, true, false, Option, none, some, if◌then◌else◌, ◌==◌, Result,
  ok, ◌>>=◌, >>=-eq-ok, ok-injective, arith,
}
use uniqys_kit.Prelude.Int.{ℤ}
use uniqys_kit.Serialize.Codec
use uniqys_kit.Types.FixedBytes.{Bytes, equals, equals_refl}
use uniqys_kit.Store.Interface.{Store, StoreLaws}
use uniqys_kit.Easy.Item.{
  Item, ItemInRange, item_deserializer, stored_item, item_bytes, stored-deserialize,
}
use uniqys_kit.Easy.Memcached.{
  EasyMemcached, read_write, Response, stored, not_stored, exists, not_found, deleted, number,
  Platform, set, add, replace, append, prepend, cas, delete, incr, decr, read_item, write_item,
  decode_item, get_and_act, count_with, add_act, replace_act, append_act, prepend_act, cas_act,
  delete_act, count_act, check_writable, is_writable, cas_of,
}
use uniqys_kit.Easy.Counts.{incr_count, decr_count}
use uniqys_kit.Easy.Memcached.Limits.{incr_count-change_by, decr_count-change_by}
use uniqys_kit.Easy.Memcached.Commands.{
  Command, set_to, add_to, replace_with, append_to, prepend_to, check_and_set, remove, increment,
  decrement, run, counted, unique_of, next,
}

some-injective {ℓ} : {Value : Type ℓ} {a b : Value} → some a ≡ some b → a ≡ b
some-injective h = cc

module _ {State Text : Type 0} (store : Store State Bytes) (platform : Platform Text)
    (use_cas : Bool) where
  abbrev pub remembered : Option Item → Option Item
  remembered none = none
  remembered (some i) = some (stored_item use_cas i)

  abbrev pub AllInRange : Option Item → Type 0
  AllInRange none = Unit
  AllInRange (some i) = ItemInRange i

  -- The store has the item under the key, and is as it was elsewhere.
  pub record Changed (key : Bytes) (o : Option Item) (s s' : EasyMemcached State) : Type 0 where
    pub mode : s'.mode ≡ s.mode
    pub item : read_item store platform use_cas key s' ≡ ok (remembered o)
    pub others :
        (j : Bytes)
        → (if equals key j then none else store.get j s'.store)
          ≡ (if equals key j then none else store.get j s.store)

  abbrev pub Outcome :
      Bytes
      → Response × Option Item
      → EasyMemcached State
      → Result (Response × EasyMemcached State)
      → Type 0
  Outcome key (response, o) s result =
      (s' : EasyMemcached State) × (result ≡ ok (response, s')) × Changed key o s s'

  module _ (laws : StoreLaws State Bytes store) where
    untouched :
        (o v w : Option Bytes) (b : Bool)
        → w ≡ (if b then o else v)
        → (if b then none else w) ≡ (if b then none else v)
    untouched o v w true e = refl
    untouched o v w false e = e

    write-Outcome :
        (response : Response) (key : Bytes) (i : Item) (s : EasyMemcached State)
        → ItemInRange i
        → Outcome key (response, some i) s (write_item store platform use_cas response key i s)
    unfolding write_item read_item decode_item
    write-Outcome response key i s h =
        let (bytes, writes, reads) = item_bytes use_cas i h in
        (
          record s { store = store.set key bytes s.store },
          rw writes refl,
          record {
            mode = refl;
            item = rw (laws.get-set key key bytes s.store, equals_refl key, reads) refl;
            others = λ j. untouched _ _ _ (equals key j) (laws.get-set key j bytes s.store);
          },
        )

    delete-Outcome :
        (response : Response) (key : Bytes) (s : EasyMemcached State)
        → Outcome key
            (response, none)
            s
            (ok (response, record s { store = store.delete key s.store }))
    unfolding read_item decode_item
    delete-Outcome response key s = (
      record s { store = store.delete key s.store },
      refl,
      record {
        mode = refl;
        item = rw (laws.get-delete key key s.store, equals_refl key) refl;
        others = λ j. untouched _ _ _ (equals key j) (laws.get-delete key j s.store);
      },
    )

    remembered-decode :
        (entry : Option Bytes) (o : Option Item)
        → decode_item store platform use_cas entry ≡ ok o
        → remembered o ≡ o
    unfolding decode_item item_deserializer Codec.deserialize
    remembered-decode none none h = refl
    remembered-decode none (some i) h = cc
    remembered-decode (some bytes) none h = ground arith
    remembered-decode (some bytes) (some i) h =
        let (j, e, f) = >>=-eq-ok (Codec.deserialize (item_deserializer use_cas) bytes) _ h in
        ap some (stored-deserialize use_cas bytes i (e ∙ ap ok (some-injective (ok-injective f))))

    kept-Outcome :
        (response : Response) (key : Bytes) (o : Option Item) (s : EasyMemcached State)
        → read_item store platform use_cas key s ≡ ok o
        → Outcome key (response, o) s (ok (response, s))
    unfolding read_item
    kept-Outcome response key o s h = (
      s,
      refl,
      record {
        mode = refl;
        item = h ∙ ap ok (sym (remembered-decode (store.get key s.store) o h));
        others = λ j. refl;
      },
    )

    if-Outcome :
        (b : Bool) (key : Bytes) (x y : Response × Option Item) (s : EasyMemcached State)
        (r q : Result (Response × EasyMemcached State))
        → (b ≡ true → Outcome key x s r)
        → (b ≡ false → Outcome key y s q)
        → Outcome key (if b then x else y) s (if b then r else q)
    if-Outcome true key x y s r q f g = f refl
    if-Outcome false key x y s r q f g = g refl

    writable :
        (s : EasyMemcached State)
        → s.mode ≡ read_write
        → check_writable store platform use_cas s ≡ ok tt
    unfolding check_writable is_writable
    writable s m = rw m refl

    -- The number that set reads.
    read_cas :
        (b : Bool) (entry : Result (Option Item)) (o : Option Item)
        → entry ≡ ok o
        → (if b then (entry >>= λ item. ok (cas_of store platform use_cas item)) else ok 0)
          ≡ ok (if b then unique_of o else 0)
    unfolding cas_of
    read_cas true entry none h = rw h refl
    read_cas true entry (some i) h = rw h refl
    read_cas false entry o h = refl

    act-Outcome :
        (text : Text)
        (action : Bytes
          → Option Item
          → EasyMemcached State
          → Result (Response × EasyMemcached State))
        (o : Option Item) (x : Response × Option Item) (s : EasyMemcached State)
        → s.mode ≡ read_write
        → read_item store platform use_cas (platform.utf8 text) s ≡ ok o
        → Outcome (platform.utf8 text) x s (action (platform.utf8 text) o s)
        → Outcome (platform.utf8 text) x s (get_and_act store platform use_cas text action s)
    unfolding get_and_act
    act-Outcome text action o x s m h (s', e, changed) = (s', rw (writable s m, h) e, changed)

    count-Outcome :
        (text : Text) (i : Item) (s : EasyMemcached State) (count count' : Option ℤ)
        → count ≡ count'
        → AllInRange (counted store platform use_cas count' i).1
        → Outcome (platform.utf8 text) (counted store platform use_cas count' i) s (
            write_item store platform use_cas
              (number count)
              (platform.utf8 text)
              (record {
                flags = i.flags;
                cas_uniq = i.cas_uniq + 1;
                data_bytes = platform.print_int count;
              })
              s)
    count-Outcome text i s count count' same fits =
        rw same (write-Outcome (number count') (platform.utf8 text) _ s fits)

    -- With a store that keeps the laws, in the mode for writing, and with an entry that can be read
    -- under the key, each command replies and leaves the key as the cache does, provided that what
    -- it writes fits the format; other keys are untouched. A count grows to the largest safe
    -- integer at most and shrinks to 0 at least, by any integer.
    pub run-next :
        (text : Text) (command : Command) (o : Option Item) (s : EasyMemcached State)
        → s.mode ≡ read_write
        → read_item store platform use_cas (platform.utf8 text) s ≡ ok o
        → AllInRange (next store platform use_cas command o).1
        → Outcome
            (platform.utf8 text)
            (next store platform use_cas command o)
            s
            (run store platform use_cas text command s)
    unfolding set add replace append prepend cas delete incr decr count_with get_and_act
        check_writable is_writable
    run-next text (set_to flags bytes) o s m h fits =
        let (s', e, changed) = write-Outcome stored (platform.utf8 text) _ s fits in
        (s', rw (writable s m, read_cas use_cas _ o h) e, changed)
    run-next text (add_to flags bytes) none s m h fits =
        act-Outcome text (add_act store platform use_cas flags bytes) none _ s m h
          (write-Outcome stored (platform.utf8 text) _ s fits)
    run-next text (add_to flags bytes) (some i) s m h fits =
        act-Outcome text (add_act store platform use_cas flags bytes) (some i) _ s m h
          (kept-Outcome not_stored (platform.utf8 text) (some i) s h)
    run-next text (replace_with flags bytes) none s m h fits =
        act-Outcome text (replace_act store platform use_cas flags bytes) none _ s m h
          (kept-Outcome not_stored (platform.utf8 text) none s h)
    run-next text (replace_with flags bytes) (some i) s m h fits =
        act-Outcome text (replace_act store platform use_cas flags bytes) (some i) _ s m h
          (write-Outcome stored (platform.utf8 text) _ s fits)
    run-next text (append_to bytes) none s m h fits =
        act-Outcome text (append_act store platform use_cas bytes) none _ s m h
          (kept-Outcome not_stored (platform.utf8 text) none s h)
    run-next text (append_to bytes) (some i) s m h fits =
        act-Outcome text (append_act store platform use_cas bytes) (some i) _ s m h
          (write-Outcome stored (platform.utf8 text) _ s fits)
    run-next text (prepend_to bytes) none s m h fits =
        act-Outcome text (prepend_act store platform use_cas bytes) none _ s m h
          (kept-Outcome not_stored (platform.utf8 text) none s h)
    run-next text (prepend_to bytes) (some i) s m h fits =
        act-Outcome text (prepend_act store platform use_cas bytes) (some i) _ s m h
          (write-Outcome stored (platform.utf8 text) _ s fits)
    run-next text (check_and_set flags unique bytes) none s m h fits =
        act-Outcome text (cas_act store platform use_cas flags unique bytes) none _ s m h
          (kept-Outcome not_found (platform.utf8 text) none s h)
    run-next text (check_and_set flags unique bytes) (some i) s m h fits =
        act-Outcome text (cas_act store platform use_cas flags unique bytes) (some i) _ s m h (
          if-Outcome (i.cas_uniq == unique) (platform.utf8 text) _ _ s _ _
            (λ e. write-Outcome stored (platform.utf8 text) _ s (rw e at fits))
            (λ e. kept-Outcome exists (platform.utf8 text) (some i) s h))
    run-next text remove none s m h fits =
        act-Outcome text (delete_act store platform use_cas) none _ s m h
          (kept-Outcome not_found (platform.utf8 text) none s h)
    run-next text remove (some i) s m h fits =
        act-Outcome text (delete_act store platform use_cas) (some i) _ s m h
          (delete-Outcome deleted (platform.utf8 text) s)
    run-next text (increment value) none s m h fits =
        act-Outcome text (count_act store platform use_cas (incr_count value)) none _ s m h
          (kept-Outcome not_found (platform.utf8 text) none s h)
    run-next text (increment value) (some i) s m h fits =
        act-Outcome text (count_act store platform use_cas (incr_count value)) (some i) _ s m h
          (count-Outcome text i s _ _ (incr_count-change_by value _) fits)
    run-next text (decrement value) none s m h fits =
        act-Outcome text (count_act store platform use_cas (decr_count value)) none _ s m h
          (kept-Outcome not_found (platform.utf8 text) none s h)
    run-next text (decrement value) (some i) s m h fits =
        act-Outcome text (count_act store platform use_cas (decr_count value)) (some i) _ s m h
          (count-Outcome text i s _ _ (decr_count-change_by value _) fits)
