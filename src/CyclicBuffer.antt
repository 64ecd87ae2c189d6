-- ===== src/CyclicBuffer.antt =====
-- src/main/cpp/cyclicbuffer.cpp: the bounded buffer of events of the SMTP appender. An element is an
-- event pointer; `null` is the null pointer. A subscript past the end of `ea` is undefined.
pub mod Refinement
pub mod History
pub mod Resize
use logging_log4cxx.Prelude.{
  ℕ, zero, suc, ◌+◌, ◌-◌, ◌%◌, ◌++◌, List, [], ◌∷◌, Option, none, some, Outcome, returned, thrown,
  undefined, illegal_argument, length_error, ℤ, pos, negsuc, ltb, ◌==◌, if◌then◌else◌, length,
  get_elem?, set, replicate,
}

pub record CyclicBuffer (A : Type 0) : Type 0 where
  pub ea : List A
  pub first : ℕ
  pub last : ℕ
  pub num_elems : ℕ
  pub max_size : ℕ

-- `if (++k == size) k = 0;`
abbrev pub advance : ℕ → ℕ → ℕ
advance k size = if k + 1 == size then 0 else k + 1

abbrev subscript {ℓ} : {A : Type ℓ} → Option A → Outcome A
subscript none = undefined
subscript (some a) = returned a

pub add : {A : Type 0} → A → CyclicBuffer A → Outcome (CyclicBuffer A)
add event b =
    if ltb b.last (length b.ea)
    then returned (record b {
      ea = set b.ea b.last event;
      last = advance b.last b.max_size;
      num_elems = if ltb b.num_elems b.max_size then b.num_elems + 1 else b.num_elems;
      first = if ltb b.num_elems b.max_size then b.first else advance b.first b.max_size;
    })
    else undefined

module _ {A : Type 0} (null : A) where
  -- The vector is made before the size is tested, and refuses a negative size by itself.
  pub new : ℤ → Outcome (CyclicBuffer A)
  new (negsuc n) = thrown length_error
  new (pos zero) = thrown illegal_argument
  new (pos (suc n)) =
      returned (record {
        ea = replicate (suc n) null;
        first = 0;
        last = 0;
        num_elems = 0;
        max_size = suc n;
      })

  -- `get(int i)`
  pub get_at : ℤ → CyclicBuffer A → Outcome A
  get_at (negsuc i) b = returned null
  get_at (pos i) b =
      if ltb i b.num_elems
      then subscript (get_elem? b.ea ((b.first + i) % b.max_size))
      else returned null

  take_first : CyclicBuffer A → Option A → Outcome (A × CyclicBuffer A)
  take_first b none = undefined
  take_first b (some r) = returned (
    r,
    record b {
      num_elems = b.num_elems - 1;
      ea = set b.ea b.first null;
      first = advance b.first b.max_size;
    },
  )

  -- `get()`
  pub get : CyclicBuffer A → Outcome (A × CyclicBuffer A)
  unfolding take_first
  get b = if ltb 0 b.num_elems then take_first b (get_elem? b.ea b.first) else returned (null, b)

  -- The loop of `resize`: what it moves to the front of `temp`. It wraps `first` at `num_elems`.
  pub move_out : ℕ → ℕ → ℕ → List A → Outcome (List A)
  move_out zero num_elems first ea = returned []
  move_out (suc n) num_elems first ea =
      let rest = move_out n num_elems (advance first num_elems) (set ea first null) in
      elim (get_elem? ea first) [
        | none ↦ undefined
        | some e ↦ elim rest [
          | returned moved ↦ returned (e ∷ moved)
          | thrown x ↦ thrown x
          | undefined ↦ undefined
        ]
      ]

  pub resize : ℤ → CyclicBuffer A → Outcome (CyclicBuffer A)
  resize (negsuc n) b = thrown illegal_argument
  resize (pos n) b =
      if n == b.num_elems
      then returned b
      else let count = (if ltb n b.num_elems then n else b.num_elems) in
        elim (move_out count b.num_elems b.first b.ea) [
          | returned moved ↦ returned (record {
            ea = moved ++ replicate (n - count) null;
            first = 0;
            num_elems = count;
            max_size = n;
            last = if count == n then 0 else count;
          })
          | thrown x ↦ thrown x
          | undefined ↦ undefined
        ]

unfoldable pub get_max_size : {A : Type 0} → CyclicBuffer A → ℕ
get_max_size b = b.max_size
