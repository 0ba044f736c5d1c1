-- ===== src/Serialize/Buffer/Bytes.antt =====
-- packages/serialize/src/index.ts: what BufferWriter holds, as a plain list of bytes. `Holds w c`:
-- the bytes in use are `c`, and all that is allocated behind them is zero.
use uniqys_kit.Prelude.{
  ℕ, zero, suc, ◌+◌, ◌*◌, ◌-◌, ◌≤◌, ◌≡◌, refl, sym, ap, ◌∙◌, List, [], ◌++◌, append_assoc, arith,
  inl, inr, ltb, Bool-cases, ltb→lt, length, drop, length-append, length-replicate, take-append,
  drop-append, take_all, drop-drop, replicate-append,
}
use uniqys_kit.Serialize.Buffer.{
  BufferWriter, alloc, copy, new_writer, contents, grow, resize, append, ensure, write_through,
}

pub record Holds (w : BufferWriter) (c : List ℕ) : Type 0 where
  pub free : ℕ
  pub stored : w.store ≡ c ++ alloc free
  pub counted : w.written ≡ length c
  pub nonempty : 1 ≤ length c + free

-- A copy overwrites exactly as many bytes as it brings.
copy_lem :
    (c mid rest bytes : List ℕ)
    → length mid ≡ length bytes
    → copy bytes (length c) (c ++ (mid ++ rest)) ≡ c ++ (bytes ++ rest)
unfolding copy
copy_lem c mid rest bytes same =
    let fits : length bytes ≤ length (c ++ (mid ++ rest)) - length c =
      omega (arith, length-append c (mid ++ rest), length-append mid rest) in
    let behind : drop (length c + length bytes) (c ++ (mid ++ rest)) ≡ rest =
      sym (drop-drop (length c) (length bytes) (c ++ (mid ++ rest)))
      ∙ rw (drop-append c (mid ++ rest), ← same) (drop-append mid rest) in
    rw (take-append c (mid ++ rest), take_all _ bytes fits, behind)

length-alloc : (n : ℕ) → length (alloc n) ≡ n
length-alloc n = length-replicate n 0

-- Doubling from a positive size reaches what is needed within that many rounds.
grow-le : (fuel need next : ℕ) → 1 ≤ next → need ≤ next + fuel → need ≤ grow fuel need next
unfolding grow
grow-le zero need next pos h = omega arith
grow-le (suc fuel) need next pos h = elim (Bool-cases (ltb next need)) [
  | inl more ↦ rw (more, grow) (grow-le fuel need (next * 2) (omega arith) (omega arith))
  | inr done ↦ rw (done, grow) (ground arith)
]

pub Holds-new : Holds new_writer []
unfolding new_writer
Holds-new = record { free = 64; stored = refl; counted = refl; nonempty = omega arith }

pub contents-Holds : {w : BufferWriter} {c : List ℕ} → Holds w c → contents w ≡ c
unfolding contents
contents-Holds {w} {c} h = rw (h.stored, h.counted) (take-append c (alloc h.free))

-- Copying to the front of a larger zeroed block keeps the bytes and leaves zeros behind them.
copy-alloc : (s : List ℕ) (n : ℕ) → copy s 0 (alloc (length s + n)) ≡ s ++ alloc n
copy-alloc s n =
    rw (← replicate-append {A = ℕ} (length s) n 0)
      (copy_lem [] (alloc (length s)) (alloc n) s (length-alloc (length s)))

length-store : {w : BufferWriter} {c : List ℕ} (h : Holds w c) → length w.store ≡ length c + h.free
length-store {w} {c} h =
    ap length h.stored
    ∙ length-append c (alloc h.free)
    ∙ ap (λ k. length c + k) (length-alloc h.free)

-- A move to a store with room for `extra` more bytes.
moved :
    {w : BufferWriter} {c : List ℕ} (extra : ℕ)
    → Holds w c
    → Holds (record w { store = copy w.store 0 (alloc (length w.store + extra)) }) c
moved {w} {c} extra h = record {
  free = h.free + extra;
  stored =
      copy-alloc w.store extra
      ∙ ap (λ s. s ++ alloc extra) h.stored
      ∙ append_assoc c (alloc h.free) (alloc extra)
      ∙ ap (λ s. c ++ s) (replicate-append h.free extra 0);
  counted = h.counted;
  nonempty = omega (arith, h.nonempty);
}

-- After `resize` there is room for what is needed, and nothing in use has changed.
resize-Holds :
    {w : BufferWriter} {c : List ℕ} (need : ℕ)
    → Holds w c
    → (h' : Holds (resize need w) c) × (need ≤ length c + h'.free)
unfolding resize moved
resize-Holds {w} {c} need h = elim (Bool-cases (ltb (length w.store) need)) [
  | inl more ↦
      let size = length-store h in
      let next = grow need need (length w.store) in
      let enough : need ≤ next =
        grow-le need need (length w.store) (omega (arith, h.nonempty)) (omega arith) in
      let split : next ≡ length w.store + (next - length w.store) =
        omega (arith, ltb→lt _ _ more) in
      rw (more, split) (moved (next - length w.store) h, omega (arith, ltb→lt _ _ more))
  | inr enough ↦ rw enough (h, ground (arith, length-store h))
]

-- The zeros behind the bytes in use are split off and overwritten.
overwrite_free :
    {w : BufferWriter} {c : List ℕ} (h : Holds w c) (bytes : List ℕ)
    → length bytes ≤ h.free
    → copy bytes w.written w.store ≡ c ++ (bytes ++ alloc (h.free - length bytes))
overwrite_free {w} {c} h bytes fits =
    let rest = h.free - length bytes in
    let split : h.free ≡ length bytes + rest = omega (arith, fits) in
    let zeros : alloc h.free ≡ alloc (length bytes) ++ alloc rest =
      ap alloc split ∙ sym (replicate-append (length bytes) rest 0) in
    rw (h.counted, h.stored, zeros)
      (copy_lem c (alloc (length bytes)) (alloc rest) bytes (length-alloc (length bytes)))

-- append adds its bytes behind those in use, whether or not the store has to grow, and leaves zeros
-- behind them.
pub append-Holds :
    {w : BufferWriter} {c : List ℕ} (bytes : List ℕ)
    → Holds w c
    → Holds (append bytes w) (c ++ bytes)
unfolding append
append-Holds {w} {c} bytes h =
    let (h', room) = resize-Holds (w.written + length bytes) h in
    let fits : length bytes ≤ h'.free = omega (arith, h.counted, room) in
    record {
      free = h'.free - length bytes;
      stored = overwrite_free h' bytes fits ∙ sym (append_assoc c bytes _);
      counted = omega (arith, h'.counted, length-append c bytes);
      nonempty = omega (arith, h'.nonempty, length-append c bytes);
    }

-- `ensure n` hands out the `n` zeros that it adds at the end.
pub ensure-Holds :
    {w : BufferWriter} {c : List ℕ} (n : ℕ)
    → Holds w c
    → ((ensure n w).0 ≡ length c) × Holds (ensure n w).1 (c ++ alloc n)
unfolding ensure
ensure-Holds {w} {c} n h =
    let (h', room) = resize-Holds (w.written + n) h in
    let fits : n ≤ h'.free = omega (arith, h.counted, room) in
    let split : h'.free ≡ n + (h'.free - n) = omega (arith, fits) in
    let size : length (c ++ alloc n) ≡ length c + n =
      length-append c (alloc n) ∙ ap (λ k. length c + k) (length-alloc n) in
    (
      h'.counted,
      record {
        free = h'.free - n;
        stored =
            h'.stored
            ∙ ap (λ k. c ++ alloc k) split
            ∙ ap (λ s. c ++ s) (sym (replicate-append n (h'.free - n) 0))
            ∙ sym (append_assoc c (alloc n) (alloc (h'.free - n)));
        counted = omega (arith, h'.counted, size);
        nonempty = omega (arith, h'.nonempty, size);
      },
    )

-- A write through the slice changes the bytes that it covers and no others.
pub write_through-Holds :
    {w : BufferWriter} (c before old bytes behind : List ℕ)
    → length old ≡ length bytes
    → Holds w (c ++ (before ++ (old ++ behind)))
    → Holds (write_through (length c) (length before) bytes w) (c ++ (before ++ (bytes ++ behind)))
unfolding write_through
write_through-Holds {w} c before old bytes behind same h =
    let zeros = alloc h.free in
    let size : length (c ++ (before ++ (bytes ++ behind)))
        ≡ length (c ++ (before ++ (old ++ behind))) =
      simp length-append (omega (arith, same)) in
    let target : copy bytes (length c + length before) w.store
        ≡ (c ++ (before ++ (bytes ++ behind))) ++ zeros =
      rw (h.stored, ← length-append c before)
        (simp append_assoc
          (simp append_assoc at (copy_lem (c ++ before) old (behind ++ zeros) bytes same))) in
    record {
      free = h.free;
      stored = target;
      counted = h.counted ∙ sym size;
      nonempty = omega (arith, h.nonempty, size);
    }
