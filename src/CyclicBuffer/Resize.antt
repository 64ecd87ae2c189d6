-- ===== src/CyclicBuffer/Resize.antt =====
-- `resize` of src/main/cpp/cyclicbuffer.cpp, whose loop wraps at the number of elements.
use logging_log4cxx.Prelude.{
  ℕ, zero, suc, ◌+◌, ◌-◌, ◌≤◌, ◌<◌, ◌≡◌, ◌≢◌, refl, ◌∙◌, ◌⊎◌, inl, inr, List, [], ◌∷◌, ◌++◌, some,
  ltb, ◌==◌, if◌then◌else◌, returned, undefined, pos, arith, length, take, replicate, set,
  get_elem?, length-take, length-append, length-replicate, min, false,
}
use logging_log4cxx.CyclicBuffer.{CyclicBuffer, add, advance, resize, move_out}
use logging_log4cxx.CyclicBuffer.Refinement.{
  Holds, Slots, slot, slot_zero, get_elem?-append_left, Slots-popped,
}

slot_start : (i n : ℕ) → i < n → slot (0 + i) n ≡ i
slot_start i n h = ground arith

take-min : {A : Type 0} (m n : ℕ) (xs : List A) → m ≡ min n (length xs) → take m xs ≡ take n xs
take-min zero zero xs e = refl
take-min zero (suc n) [] e = refl
take-min zero (suc n) (x ∷ xs) e = absurd (omega arith)
take-min (suc m) zero xs e = absurd (omega arith)
take-min (suc m) (suc n) [] e = refl
take-min (suc m) (suc n) (x ∷ xs) e = rw (take-min m n xs (omega arith))

count_min : (n m : ℕ) → (if ltb n m then n else m) ≡ min n m
count_min n m = ground arith

module _ {A : Type 0} (null : A) where
  move_out-take :
      (n size first : ℕ) (ea xs : List A)
      → first < size
      → length xs ≤ size
      → n ≤ length xs
      → Slots ea first size xs
      → move_out null n size first ea ≡ returned (take n xs)
  unfolding move_out
  move_out-take zero size first ea xs f r l s = refl
  move_out-take (suc n) size first ea [] f r l s = absurd (omega arith)
  move_out-take (suc n) size first ea (x ∷ xs) f r l s =
      let front : get_elem? ea first ≡ some x = rw (← slot_zero first size f) (s 0 (omega arith)) in
      rw (
        front,
        move_out,
        move_out-take n size (advance first size) (set ea first null) xs (ground arith)
            (omega arith) (omega arith) (Slots-popped null ea first size x xs f r s),
      )

  abbrev pub resized : ℕ → List A → CyclicBuffer A
  resized n xs = record {
    ea = take n xs ++ replicate (n - length (take n xs)) null;
    first = 0;
    num_elems = length (take n xs);
    max_size = n;
    last = if length (take n xs) == n then 0 else length (take n xs);
  }

  resized-Holds : (n : ℕ) (xs : List A) → 0 < n → Holds (resized n xs) (take n xs)
  resized-Holds n xs p = record {
    size = omega (
      arith,
      length-append (take n xs) (replicate (n - length (take n xs)) null),
      length-replicate (n - length (take n xs)) null,
      length-take n xs,
    );
    start = p;
    count = refl;
    room = omega (arith, length-take n xs);
    end = ground (arith, length-take n xs);
    slots = λ i h.
        rw (slot_start i n (omega (arith, length-take n xs)))
          (get_elem?-append_left (take n xs) (replicate (n - length (take n xs)) null) i h);
  }

  Slots-unwrapped :
      (b : CyclicBuffer A) (xs : List A)
      → Holds b xs
      → (length xs ≡ b.max_size) ⊎ (b.first ≡ 0)
      → Slots b.ea b.first b.num_elems xs
  Slots-unwrapped b xs h (inl full) =
      let e : b.num_elems ≡ b.max_size = h.count ∙ full in λ i p. rw e (h.slots i p)
  Slots-unwrapped b xs h (inr zeroed) = λ i p.
      let e : slot (b.first + i) b.num_elems ≡ slot (b.first + i) b.max_size =
        ground (arith, h.count, h.room) in
      rw e (h.slots i p)

  moved_all :
      (b : CyclicBuffer A) (xs : List A) (n : ℕ)
      → Holds b xs
      → (length xs ≡ b.max_size) ⊎ (b.first ≡ 0)
      → move_out null (if ltb n b.num_elems then n else b.num_elems) b.num_elems b.first b.ea
        ≡ returned (take n xs)
  moved_all b [] n h c =
      let e : (if ltb n b.num_elems then n else b.num_elems) ≡ 0 = ground (arith, h.count) in
      rw (e, ← take-min {A = A} 0 n [] (omega arith)) (unfold move_out in refl)
  moved_all b (x ∷ xs) n h c =
      let count = (if ltb n b.num_elems then n else b.num_elems) in
      let e : count ≡ min n (length (x ∷ xs)) = ground (arith, h.count) in
      rw (← take-min count n (x ∷ xs) e) (
        move_out-take count b.num_elems b.first b.ea (x ∷ xs) (first_in_range c)
          (omega (arith, h.count)) (ground (arith, h.count)) (Slots-unwrapped b (x ∷ xs) h c))
    where
      first_in_range : (length (x ∷ xs) ≡ b.max_size) ⊎ (b.first ≡ 0) → b.first < b.num_elems
      first_in_range d = omega (arith, h.count, h.start)

  -- `resize` to another size than the number of elements, from a buffer that is full or starts at
  -- slot 0, keeps the oldest elements that fit, in order, in a well-formed buffer of the new size.
  pub resize-take :
      (b : CyclicBuffer A) (xs : List A) (n : ℕ)
      → Holds b xs
      → (length xs ≡ b.max_size) ⊎ (b.first ≡ 0)
      → 0 < n
      → n ≢ length xs
      → (resize null (pos n) b ≡ returned (resized n xs)) × Holds (resized n xs) (take n xs)
  unfolding resize
  resize-take b xs n h c p q =
      let other : (n == b.num_elems) ≡ false = ground (arith, h.count) in
      let count = (if ltb n b.num_elems then n else b.num_elems) in
      let e : count ≡ length (take n xs) = ground (arith, h.count, length-take n xs) in
      (rw (other, moved_all b xs n h c, resize, e) refl, resized-Holds n xs p)

  -- A buffer resized to 0 slots takes no event: `add` then writes past the end of the vector.
  pub add-resize_zero :
      (b : CyclicBuffer A) (xs : List A) (x : A) (e : A)
      → Holds b (x ∷ xs)
      → (c : CyclicBuffer A) × (resize null (pos 0) b ≡ returned c) × (add e c ≡ undefined)
  unfolding resize add move_out
  add-resize_zero b xs x e h = (resized 0 (x ∷ xs), ground (arith, h.count), refl)
