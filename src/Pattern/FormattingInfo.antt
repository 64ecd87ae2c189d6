-- ===== src/Pattern/FormattingInfo.antt =====
-- src/main/cpp/formattinginfo.cpp: the width of a converted field. Lengths are not negative, and stay
-- below 2 ^ 31.
use native.Mathlib.Nat.{zero-add, suc-add}
use logging_log4cxx.Prelude.{
  ℕ, ◌+◌, ◌-◌, ◌≤◌, ◌≡◌, refl, Bool, true, false, [], ◌∷◌, ◌++◌, ltb, if◌then◌else◌, Text, length,
  take, drop, replicate, arith, length-append, length-replicate, length-drop, append_assoc,
  append-nil, take-length_append, drop-length_append, Bool-cases, inl, inr,
}

pub record FormattingInfo : Type 0 where
  pub left_align : Bool
  pub min_length : ℕ
  pub max_length : ℕ

-- INT_MAX of a 32-bit `int`.
abbrev pub int_max : ℕ
int_max = 2147483647

-- `getDefault`
abbrev pub default : FormattingInfo
default = record { left_align = false; min_length = 0; max_length = int_max }

-- `format`: the field is the part of the buffer from `field_start` on.
unfoldable pub format : FormattingInfo → ℕ → Text → Text
format f field_start buffer =
    let raw_length = length buffer - field_start in
    if ltb f.max_length raw_length
    then take field_start buffer ++ drop (field_start + (raw_length - f.max_length)) buffer
    else if ltb raw_length f.min_length
    then (if f.left_align
        then buffer ++ replicate (f.min_length - raw_length) b' '
        else take field_start buffer
          ++ (replicate (f.min_length - raw_length) b' ' ++ drop field_start buffer))
    else buffer

-- The field alone: cut at the left, or padded at the side that is not aligned.
abbrev pub fitted : FormattingInfo → Text → Text
fitted f field =
    if ltb f.max_length (length field)
    then drop (length field - f.max_length) field
    else if f.left_align
    then field ++ replicate (f.min_length - length field) b' '
    else replicate (f.min_length - length field) b' ' ++ field

drop-append :
    (before field : Text) (k : ℕ) → drop (length before + k) (before ++ field) ≡ drop k field
drop-append [] field k = rw zero-add refl
drop-append (c ∷ before) field k = rw suc-add (drop-append before field k)

raw_length : (before field : Text) → length (before ++ field) - length before ≡ length field
raw_length before field = omega (arith, length-append before field)

-- `format` leaves what stands before the field, and fits the field.
pub format-fitted :
    (f : FormattingInfo) (before field : Text)
    → format f (length before) (before ++ field) ≡ before ++ fitted f field
unfolding format
format-fitted f before field = elim (Bool-cases (ltb f.max_length (length field))) [
  | inl cut ↦
      rw
        (
          raw_length before field,
          cut,
          take-length_append before field,
          drop-append before field (length field - f.max_length),
        )
        refl
  | inr fits ↦ elim (Bool-cases (ltb (length field) f.min_length)) [
    | inl short ↦
        rw
          (
            raw_length before field,
            fits,
            short,
            take-length_append before field,
            drop-length_append before field,
          )
          (padded f.left_align)
    | inr long ↦
        rw (raw_length before field, fits, long)
          (let none_missing : f.min_length - length field ≡ 0 = ground arith in
            rw none_missing (unpadded f.left_align))
  ]
]
  where
    fill : Text
    fill = replicate (f.min_length - length field) b' '

    padded :
        (b : Bool)
        → (if b then (before ++ field) ++ fill else before ++ (fill ++ field))
          ≡ before ++ (if b then field ++ fill else fill ++ field)
    padded true = append_assoc before field fill
    padded false = refl

    unpadded : (b : Bool) → before ++ field ≡ before ++ (if b then field ++ [] else [] ++ field)
    unpadded true = rw append-nil refl
    unpadded false = refl

length-fitted :
    (f : FormattingInfo) (field : Text)
    → length (fitted f field) ≡ (
        if ltb f.max_length (length field)
        then f.max_length
        else length field + (f.min_length - length field))
length-fitted f field =
    let fill : Text = replicate (f.min_length - length field) b' ' in
    ground (
      arith,
      length-drop (length field - f.max_length) field,
      length-append field fill,
      length-append fill field,
      length-replicate {A = ℕ} (f.min_length - length field) b' ',
    )

-- For lengths in order, the field comes out with a length between them, what stands before the field
-- is left alone, and a field that has such a length is not changed.
pub format_bounds :
    (f : FormattingInfo) (before field : Text)
    → f.min_length ≤ f.max_length
    → (field' : Text) × (format f (length before) (before ++ field) ≡ before ++ field')
      × (f.min_length ≤ length field')
      × (length field' ≤ f.max_length)
      × (f.min_length ≤ length field → length field ≤ f.max_length → field' ≡ field)
format_bounds f before field h = (
  fitted f field,
  format-fitted f before field,
  ground (arith, length-fitted f field),
  ground (arith, length-fitted f field),
  kept,
)
  where
    kept : f.min_length ≤ length field → length field ≤ f.max_length → fitted f field ≡ field
    kept p q =
        let nothing : f.min_length - length field ≡ 0 = omega arith in
        rw nothing (ground (arith, append-nil field))
