-- ===== src/CachedDateFormat.antt =====
-- src/main/cpp/cacheddateformat.cpp: the date format that keeps the last text of another format and
-- rewrites its milliseconds. A time is a number of microseconds, not before 1970; `none` is the
-- smallest time, which no request is for.
pub mod Field
pub mod Regular
pub mod Requests
pub mod Micros
use logging_log4cxx.Prelude.{
  ℕ, zero, suc, ◌+◌, ◌-◌, ◌*◌, ◌/◌, ◌%◌, ◌^◌, Bool, true, false, not, ◌&&◌, ◌||◌, Option, none,
  some, List, [], ◌∷◌, ◌++◌, Outcome, returned, thrown, undefined, ◌>>=◌, illegal_argument,
  out_of_range, ℤ, pos, negsuc, leb, ltb, ◌==◌, if◌then◌else◌, Text, codes, text_eq, length, take,
  drop, set, get_elem?, replicate, split_at,
}

-- `millisecondStart`: a position, or one of the two constants.
pub data Start : Type 0 where
  at : ℕ → Start
  no_milliseconds unrecognized_milliseconds : Start

pub record CachedDateFormat : Type 0 where
  pub formatter : ℕ → Text
  pub millisecond_start : Start
  pub slot_begin : Option ℕ
  pub cache : Text
  pub expiration : ℕ
  pub previous_time : Option ℕ

-- The constructor; `none` is a null pointer.
unfoldable pub new : Option (ℕ → Text) → ℤ → Outcome CachedDateFormat
new none e = thrown illegal_argument
new (some f) (negsuc n) = thrown illegal_argument
new (some f) (pos e) = returned (record {
  formatter = f;
  millisecond_start = at 0;
  slot_begin = none;
  cache = replicate 50 0x20;
  expiration = e;
  previous_time = none;
})

abbrev pub digits : Text
digits = codes "0123456789" ++ (0 ∷ [])

-- `buf[offset] = digits[...]`; a write or a read out of bounds is undefined.
abbrev pub put_digit : Text → ℕ → Option ℕ → Outcome Text
put_digit buf offset none = undefined
put_digit buf offset (some d) =
    if ltb offset (length buf) then returned (set buf offset d) else undefined

unfoldable pub millisecond_format : ℕ → Text → ℕ → Outcome Text
millisecond_format millis buf offset = do
  b1 ← put_digit buf offset (get_elem? digits (millis / 100))
  b2 ← put_digit b1 (offset + 1) (get_elem? digits (millis / 10 % 10))
  put_digit b2 (offset + 2) (get_elem? digits (millis % 10))

-- `compare` throws where an offset is past the end.
unfoldable pub region_matches : Text → ℕ → Text → ℕ → ℕ → Outcome Bool
region_matches target toffset other ooffset len =
    if ltb (length target) toffset || ltb (length other) ooffset
    then thrown out_of_range
    else returned (text_eq (take len (drop toffset target)) (take len (drop ooffset other)))

-- The first second boundary that is not behind the time.
unfoldable pub slot_of : ℕ → ℕ
slot_of time = let slot = time / 1000000 * 1000000 in if ltb time slot then slot - 1000000 else slot

-- The loop: the first position where the texts differ, and the second text's character there.
unfoldable pub first_difference : Text → Text → Option (ℕ × ℕ)
first_difference [] plus_magic = none
first_difference (x ∷ formatted) [] = none
first_difference (x ∷ formatted) (y ∷ plus_magic) =
    let rest = first_difference formatted plus_magic in
    if x == y then elim rest [ none ↦ none | some (i, c) ↦ some (i + 1, c) ] else some (0, y)

-- `find(c)` on an unsigned 64-bit size, where `npos` is the largest.
abbrev pub position : ℕ → Text → ℕ
position c s = elim (split_at c s) [ none ↦ 2 ^ 64 - 1 | some (before, after) ↦ length before ]

-- `int(i - overlapping)`, as the unsigned offset that it is converted to.
abbrev pub offset_back : ℕ → ℕ → ℕ
offset_back i overlapping =
    if leb overlapping i then i - overlapping else (2 ^ 64 + i - overlapping) % 2 ^ 64

-- `&&` of conditions that can throw.
infixr 4 ◌and_then◌
abbrev pub ◌and_then◌ : Outcome Bool → Outcome Bool → Outcome Bool
returned true and_then b = b
returned false and_then b = returned false
thrown e and_then b = thrown e
undefined and_then b = undefined

-- The last condition: at most one group of digits changes.
unfoldable pub same_behind : Text → Text → Text → ℕ → Outcome Bool
same_behind formatted plus_magic plus_zero q =
    if length formatted == q
    then returned true
    else if ltb (length plus_zero) q || ltb (length plus_magic) q
    then thrown out_of_range
    else returned (text_eq (drop q plus_zero) (drop q plus_magic))

-- Whether the digits stand at the offset `p` in all three texts, with the same text behind them.
unfoldable pub recognized : Text → Text → Text → Text → Text → ℕ → Outcome Bool
recognized magic_string formatted_millis formatted plus_magic plus_zero p =
    returned (length plus_zero == length formatted)
    and_then region_matches magic_string 0 plus_magic p 3
    and_then region_matches formatted_millis 0 formatted p 3
    and_then region_matches (codes "000") 0 plus_zero p 3
    and_then same_behind formatted plus_magic plus_zero (p + 3)

-- The body of the loop at the first difference.
unfoldable pub examine : ℕ → Text → Text → Text → Text → ℕ × ℕ → Outcome Start
examine millis magic_string formatted plus_magic plus_zero (i, c) = do
  formatted_millis ← millisecond_format millis (codes "ABC") 0
  let p = offset_back i (position c magic_string)
  found ← recognized magic_string formatted_millis formatted plus_magic plus_zero p
  returned (if found then at p else unrecognized_milliseconds)

-- The magic number, in microseconds, and its milliseconds.
unfoldable pub magic_for : ℕ → ℕ × Text
magic_for millis = if millis == 654 then (987000, codes "987") else (654000, codes "654")

-- The comparison of the lengths, and the loop.
unfoldable pub search : ℕ → Text → Text → Text → Text → Outcome Start
search millis magic_string formatted plus_magic plus_zero =
    if not (length plus_magic == length formatted)
    then returned unrecognized_milliseconds
    else elim (first_difference formatted plus_magic) [
      | none ↦ returned no_milliseconds
      | some d ↦ examine millis magic_string formatted plus_magic plus_zero d
    ]

unfoldable pub find_millisecond_start : ℕ → Text → (ℕ → Text) → Outcome Start
find_millisecond_start time formatted formatter =
    let slot = slot_of time in
    let millis = (time - slot) / 1000 in
    let magic = magic_for millis in
    search millis magic.1 formatted (formatter (slot + magic.0)) (formatter slot)

abbrev pub is_recognized : Start → Bool
is_recognized (at k) = true
is_recognized no_milliseconds = true
is_recognized unrecognized_milliseconds = false

-- The begin of the slot, where the cache serves the time.
unfoldable pub serving_slot : Start → Option ℕ → ℕ → ℕ → Option ℕ
serving_slot start none expiration now = none
serving_slot start (some s) expiration now =
    if is_recognized start && ltb now (s + expiration) && leb s now && ltb now (s + 1000000)
    then some s
    else none

-- `if (millisecondStart >= 0)` of the cached branch.
unfoldable pub updated : Start → ℕ → Text → Outcome Text
updated (at k) millis cache = millisecond_format millis cache k
updated no_milliseconds millis cache = returned cache
updated unrecognized_milliseconds millis cache = returned cache

-- `if (millisecondStart >= 0)` of the other branch.
unfoldable pub reevaluated : Start → Outcome Start → Outcome Start
reevaluated (at k) again = again
reevaluated no_milliseconds again = returned no_milliseconds
reevaluated unrecognized_milliseconds again = returned unrecognized_milliseconds

-- The call of the underlying format: the buffer, and the format with its new cache.
unfoldable pub refreshed : Text → ℕ → CachedDateFormat → Outcome (Text × CachedDateFormat)
refreshed buf now c = do
  let cache = c.formatter now
  start ← reevaluated c.millisecond_start (find_millisecond_start now cache c.formatter)
  returned (
    buf ++ cache,
    record c {
      cache = cache;
      previous_time = some now;
      slot_begin = some (slot_of now);
      millisecond_start = start;
    },
  )

-- The cached branch, in the slot that begins at `s`.
unfoldable pub rewritten : Text → ℕ → ℕ → CachedDateFormat → Outcome (Text × CachedDateFormat)
rewritten buf now s c = do
  cache ← updated c.millisecond_start ((now - s) / 1000) c.cache
  returned (buf ++ cache, record c { cache = cache; previous_time = some now })

abbrev pub same_time : ℕ → Option ℕ → Bool
same_time now none = false
same_time now (some t) = now == t

unfoldable pub format : Text → ℕ → CachedDateFormat → Outcome (Text × CachedDateFormat)
format buf now c =
    if same_time now c.previous_time
    then returned (buf ++ c.cache, c)
    else elim (serving_slot c.millisecond_start c.slot_begin c.expiration now) [
      | none ↦ refreshed buf now c
      | some s ↦ rewritten buf now s c
    ]

-- `zoned` is the wrapped format in the new time zone.
unfoldable pub set_time_zone : (ℕ → Text) → CachedDateFormat → CachedDateFormat
set_time_zone zoned c = record c { formatter = zoned; previous_time = none; slot_begin = none }

-- Whether the text has no `S`, or exactly three in a row.
unfoldable pub get_maximum_cache_validity : Text → ℕ
get_maximum_cache_validity pattern = elim (split_at b'S' pattern) [
  | none ↦ 1000000
  | some (before, after) ↦
      let first = length before in
      let len = length pattern in
      if leb (first + 3) len
        && text_eq (take 3 (drop first pattern)) (codes "SSS")
        && (len == first + 3
            || elim (split_at b'S' (drop (first + 3) pattern)) [ none ↦ true | some _ ↦ false ])
      then 1000000
      else 1000
]
