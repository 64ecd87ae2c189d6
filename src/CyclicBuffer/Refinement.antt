-- ===== src/CyclicBuffer/Refinement.antt =====
-- The ring of src/main/cpp/cyclicbuffer.cpp against a list of at most `max_size` events, oldest first.
use native.Mathlib.Numerals.{add-one}
use native.Mathlib.Nat.{mod-eq_of_lt, mod-eq-sub-mod}
use logging_log4cxx.Prelude.{
  ℕ, zero, suc, ◌+◌, ◌-◌, ◌%◌, ◌≤◌, ◌<◌, ◌≡◌, ◌≢◌, refl, sym, ◌∙◌, inl, inr, List, [], ◌∷◌, ◌++◌,
  some, dec_lt, returned, pos, ltb, if◌then◌else◌, length, get_elem?, set, drop, length-set,
  get_elem?-set_self, get_elem?-set_ne, length-append, lt→ltb, Bool-cases, true, false, arith,
  length-replicate,
}
use logging_log4cxx.CyclicBuffer.{CyclicBuffer, advance, add, get, get_at, new}

-- The slot of the `i`th oldest element.
abbrev pub slot : ℕ → ℕ → ℕ
slot k size = if ltb k size then k else k - size

pub slot_mod : (k size : ℕ) → k < size + size → k % size ≡ slot k size
slot_mod k size h = grind (arith, mod-eq_of_lt, mod-eq-sub-mod)

-- The slots from `first` on hold `xs`.
abbrev pub Slots : {A : Type 0} → List A → ℕ → ℕ → List A → Type 0
Slots ea first size xs =
    (i : ℕ) → i < length xs → get_elem? ea (slot (first + i) size) ≡ get_elem? xs i

-- The buffer is a ring of `max_size` slots that holds the list `xs`, oldest first.
pub record Holds {A : Type 0} (b : CyclicBuffer A) (xs : List A) : Type 0 where
  pub size : length b.ea ≡ b.max_size
  pub start : b.first < b.max_size
  pub count : b.num_elems ≡ length xs
  pub room : length xs ≤ b.max_size
  pub end : b.last ≡ slot (b.first + length xs) b.max_size
  pub slots : Slots b.ea b.first b.max_size xs

slot-advance :
    (k i size : ℕ)
    → k < size
    → i + 1 < size
    → slot (advance k size + i) size ≡ slot (k + (i + 1)) size
slot-advance k i size h hi = ground arith

slot-advance_full : (k i size : ℕ) → k < size → i + 1 ≡ size → slot (advance k size + i) size ≡ k
slot-advance_full k i size h hi = ground arith

slot_apart : (k i j size : ℕ) → k < size → i < j → j < size → slot (k + j) size ≢ slot (k + i) size
slot_apart k i j size h hi hj = ground arith

pub slot_zero : (k size : ℕ) → k < size → slot (k + 0) size ≡ k
slot_zero k size h = ground arith

module _ {A : Type 0} where
  pub get_elem?-append_left :
      (xs ys : List A) (i : ℕ) → i < length xs → get_elem? (xs ++ ys) i ≡ get_elem? xs i
  get_elem?-append_left [] ys i h = elim h [ ]
  get_elem?-append_left (x ∷ xs) ys zero h = refl
  get_elem?-append_left (x ∷ xs) ys (suc i) h = get_elem?-append_left xs ys i (omega arith)

  get_elem?-append_end : (xs : List A) (e : A) → get_elem? (xs ++ e ∷ []) (length xs) ≡ some e
  get_elem?-append_end [] e = refl
  get_elem?-append_end (x ∷ xs) e = get_elem?-append_end xs e

  -- `add` on the list: at the end, and the oldest goes if the buffer is full.
  abbrev pub pushed : ℕ → List A → A → List A
  pushed size xs e = if ltb (length xs) size then xs ++ e ∷ [] else drop 1 (xs ++ e ∷ [])

  Slots-append :
      (ea : List A) (first size : ℕ) (xs : List A) (e : A)
      → first < size
      → length ea ≡ size
      → length xs < size
      → Slots ea first size xs
      → Slots (set ea (slot (first + length xs) size) e) first size (xs ++ e ∷ [])
  Slots-append ea first size xs e f l r s i h = elim (dec_lt i (length xs)) [
    | yes p ↦
        get_elem?-set_ne ea (slot (first + length xs) size) (slot (first + i) size) e
          (slot_apart first i (length xs) size f p r)
        ∙ s i p
        ∙ sym (get_elem?-append_left xs (e ∷ []) i p)
    | no p ↦
        let same : i ≡ length xs = omega (arith, length-append xs (e ∷ [])) in
        rw same (
          get_elem?-set_self ea (slot (first + length xs) size) e (ground arith)
          ∙ sym (get_elem?-append_end xs e))
  ]

  pub Slots-tail :
      (ea : List A) (first size : ℕ) (x : A) (xs : List A)
      → first < size
      → suc (length xs) ≤ size
      → Slots ea first size (x ∷ xs)
      → Slots ea (advance first size) size xs
  Slots-tail ea first size x xs f r s i h =
      rw (slot-advance first i size f (omega arith)) (rw add-one (s (suc i) (omega arith)))

  abbrev grown : CyclicBuffer A → A → CyclicBuffer A
  grown b e = record b {
    ea = set b.ea b.last e;
    last = advance b.last b.max_size;
    num_elems = b.num_elems + 1;
  }

  abbrev rotated : CyclicBuffer A → A → CyclicBuffer A
  rotated b e = record b {
    ea = set b.ea b.last e;
    last = advance b.last b.max_size;
    first = advance b.first b.max_size;
  }

  push_room-Holds :
      (b : CyclicBuffer A) (xs : List A) (e : A)
      → Holds b xs
      → length xs < b.max_size
      → Holds (grown b e) (xs ++ e ∷ [])
  push_room-Holds b xs e h r = record {
    size = omega (arith, length-set b.ea b.last e, h.size);
    start = h.start;
    count = omega (arith, length-append xs (e ∷ []), h.count);
    room = omega (arith, length-append xs (e ∷ []));
    end = ground (arith, length-append xs (e ∷ []), h.end, h.start);
    slots = rw h.end (Slots-append b.ea b.first b.max_size xs e h.start h.size r h.slots);
  }

  push_full-Holds :
      (b : CyclicBuffer A) (x : A) (xs : List A) (e : A)
      → Holds b (x ∷ xs)
      → suc (length xs) ≡ b.max_size
      → Holds (rotated b e) (xs ++ e ∷ [])
  push_full-Holds b x xs e h r = record {
    size = omega (arith, length-set b.ea b.last e, h.size);
    start = ground (arith, h.start);
    count = omega (arith, length-append xs (e ∷ []), h.count);
    room = omega (arith, length-append xs (e ∷ []));
    end = ground (arith, length-append xs (e ∷ []), h.end, h.start);
    slots =
        let place : b.last ≡ slot (advance b.first b.max_size + length xs) b.max_size =
          ground (arith, h.end, h.start) in
        rw place (
          Slots-append b.ea (advance b.first b.max_size) b.max_size xs e (ground (arith, h.start))
            h.size (omega arith) (Slots-tail b.ea b.first b.max_size x xs h.start h.room h.slots));
  }

  last_in_range : (b : CyclicBuffer A) (xs : List A) → Holds b xs → ltb b.last (length b.ea) ≡ true
  last_in_range b xs h = ground (arith, h.end, h.start, h.size, h.room)

  pub add-Holds :
      (b : CyclicBuffer A) (xs : List A) (e : A)
      → Holds b xs
      → (c : CyclicBuffer A) × (add e b ≡ returned c)
        × (c.max_size ≡ b.max_size)
        × Holds c (pushed b.max_size xs e)
  unfolding add
  add-Holds b [] e h =
      let r : ltb b.num_elems b.max_size ≡ true = ground (arith, h.count, h.start) in
      (
        grown b e,
        rw (last_in_range b [] h, r),
        refl,
        rw (lt→ltb 0 b.max_size (omega (arith, h.start)))
            (push_room-Holds b [] e h (omega (arith, h.start))),
      )
  add-Holds b (x ∷ xs) e h = elim (Bool-cases (ltb (length (x ∷ xs)) b.max_size)) [
    | inl r ↦
        let room : ltb b.num_elems b.max_size ≡ true = ground (arith, h.count) in
        (
          grown b e,
          rw (last_in_range b (x ∷ xs) h, room),
          refl,
          rw r (push_room-Holds b (x ∷ xs) e h (ground arith)),
        )
    | inr r ↦
        let full : ltb b.num_elems b.max_size ≡ false = ground (arith, h.count) in
        (
          rotated b e,
          rw (last_in_range b (x ∷ xs) h, full),
          refl,
          rw r (push_full-Holds b x xs e h (ground (arith, h.room))),
        )
  ]

module _ {A : Type 0} (null : A) where
  abbrev pub nth : List A → ℕ → A
  nth [] i = null
  nth (x ∷ xs) zero = x
  nth (x ∷ xs) (suc i) = nth xs i

  abbrev pub oldest : List A → A × List A
  oldest [] = (null, [])
  oldest (x ∷ xs) = (x, xs)

  get_elem?-nth : (xs : List A) (i : ℕ) → i < length xs → get_elem? xs i ≡ some (nth xs i)
  get_elem?-nth [] i h = elim h [ ]
  get_elem?-nth (x ∷ xs) zero h = refl
  get_elem?-nth (x ∷ xs) (suc i) h = get_elem?-nth xs i (omega arith)

  nth_past : (xs : List A) (i : ℕ) → length xs ≤ i → nth xs i ≡ null
  nth_past [] i h = refl
  nth_past (x ∷ xs) zero h = absurd (omega arith)
  nth_past (x ∷ xs) (suc i) h = nth_past xs i (omega arith)

  pub new-Holds :
      (n : ℕ)
      → (b : CyclicBuffer A) × (new null (pos (suc n)) ≡ returned b)
        × (b.max_size ≡ suc n)
        × Holds b []
  unfolding new
  new-Holds n = (
    _,
    refl,
    refl,
    record {
      size = length-replicate (suc n) null;
      start = omega arith;
      count = refl;
      room = omega arith;
      end = ground arith;
      slots = λ i h. absurd (omega arith);
    },
  )

  pub get_at-nth :
      (b : CyclicBuffer A) (xs : List A) (i : ℕ)
      → Holds b xs
      → get_at null (pos i) b ≡ returned (nth xs i)
  unfolding get_at
  get_at-nth b xs i h = elim (Bool-cases (ltb i b.num_elems)) [
    | inl r ↦
        let p : i < length xs = ground (arith, h.count) in
        rw (
          r,
          slot_mod (b.first + i) b.max_size (omega (arith, h.start, h.room)),
          h.slots i p,
          get_elem?-nth xs i p,
        )
    | inr r ↦ rw (r, nth_past xs i (ground (arith, h.count)))
  ]

  abbrev popped : CyclicBuffer A → CyclicBuffer A
  popped b = record b {
    num_elems = b.num_elems - 1;
    ea = set b.ea b.first null;
    first = advance b.first b.max_size;
  }

  pub Slots-popped :
      (ea : List A) (first size : ℕ) (x : A) (xs : List A)
      → first < size
      → suc (length xs) ≤ size
      → Slots ea first size (x ∷ xs)
      → Slots (set ea first null) (advance first size) size xs
  Slots-popped ea first size x xs f r s i p =
      get_elem?-set_ne ea first (slot (advance first size + i) size) null (ground arith)
      ∙ Slots-tail ea first size x xs f r s i p

  pop-Holds : (b : CyclicBuffer A) (x : A) (xs : List A) → Holds b (x ∷ xs) → Holds (popped b) xs
  pop-Holds b x xs h = record {
    size = omega (arith, length-set b.ea b.first null, h.size);
    start = ground (arith, h.start);
    count = omega (arith, h.count);
    room = omega (arith, h.room);
    end = ground (arith, h.end, h.start, h.room);
    slots = Slots-popped b.ea b.first b.max_size x xs h.start h.room h.slots;
  }

  pub get-oldest :
      (b : CyclicBuffer A) (xs : List A)
      → Holds b xs
      → (c : CyclicBuffer A) × (get null b ≡ returned ((oldest xs).0, c))
        × (c.max_size ≡ b.max_size)
        × Holds c (oldest xs).1
  unfolding get
  get-oldest b [] h = (b, ground (arith, h.count), refl, h)
  get-oldest b (x ∷ xs) h =
      let front : get_elem? b.ea b.first ≡ some x =
        rw (← slot_zero b.first b.max_size h.start) (h.slots 0 (omega arith)) in
      (
        popped b,
        rw (lt→ltb 0 b.num_elems (omega (arith, h.count)), front) refl,
        refl,
        pop-Holds b x xs h,
      )
