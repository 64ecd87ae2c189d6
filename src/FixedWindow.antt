-- ===== src/FixedWindow.antt =====
-- src/main/cpp/fixedwindowrollingpolicy.cpp: the renaming of old files, for indices that are not
-- negative. The files are those of a state `D`; what `exists`, `deleteFile` and `renameTo` of
-- src/main/cpp/file.cpp do to it is a parameter, and so are the names, `formatFileName`.
pub mod Files
pub mod Purge
pub mod Rollover
use logging_log4cxx.Prelude.{
  ℕ, zero, suc, ◌+◌, ◌-◌, Bool, true, false, not, Outcome, returned, thrown, out_of_range, ◌>>=◌,
  List, [], ◌∷◌, if◌then◌else◌, ltb, Text, codes, text_eq, length, take, drop,
}

pub record FileSystem (D : Type 0) : Type 0 where
  pub exists : Text → D → Bool
  pub delete_file : Text → D → Bool × D
  pub rename_to : Text → Text → D → Bool × D

-- `purge` gives up, or has a list of renames from the lowest index on.
pub data Plan (D : Type 0) : Type 0 where
  abandoned : D → Plan D
  planned : List (Text × Text) → D → Plan D

-- The file of one index, whether it is there, and whether it is the one without the suffix.
pub record Choice (D : Type 0) : Type 0 where
  pub to_rename : Text
  pub found : Bool
  pub is_base : Bool
  pub after : D

-- `name.compare(name.length() - n, n, suffix) == 0`
abbrev pub is_suffix : ℕ → Text → Text → Outcome Bool
is_suffix n suffix name =
    if ltb (length name) n
    then thrown out_of_range
    else returned (text_eq (drop (length name - n) name) suffix)

unfoldable pub suffix_length : Text → Outcome ℕ
unfolding text_eq
suffix_length name = is_suffix 3 (codes ".gz") name >>= λ gz.
    if gz
    then returned 3
    else (is_suffix 4 (codes ".zip") name >>= λ zip. returned (if zip then 4 else 0))

abbrev pub without : ℕ → Text → Text
without n name = take (length name - n) name

module _ {D : Type 0} (fs : FileSystem D) where
  unfoldable pub choose : ℕ → Text → D → Choice D
  choose suffix low d =
      let base : Text = without suffix low in
      if ltb 0 suffix
      then (if fs.exists low d
          then record {
            to_rename = low;
            found = true;
            is_base = false;
            after = if fs.exists base d then (fs.delete_file base d).1 else d;
          }
          else record { to_rename = base; found = fs.exists base d; is_base = true; after = d })
      else record { to_rename = low; found = fs.exists low d; is_base = false; after = d }

  abbrev pub with_rename : Text → Text → Plan D → Plan D
  with_rename from to (abandoned d) = abandoned d
  with_rename from to (planned renames d) = planned ((from, to) ∷ renames) d

  abbrev pub deleted : Bool × D → Plan D
  deleted (ok, d) = if ok then planned [] d else abandoned d

  -- The first loop of `purge` at index `i`, with `left` indices above it; `low` is the name of `i`.
  unfoldable pub plan : (ℕ → Text) → ℕ → ℕ → ℕ → Text → D → Plan D
  unfolding choose
  plan format suffix zero i low d =
      let c : Choice D = choose suffix low d in
      if c.found then deleted (fs.delete_file c.to_rename c.after) else planned [] c.after
  plan format suffix (suc left) i low d =
      let c : Choice D = choose suffix low d in
      let high : Text = format (i + 1) in
      let rest = plan format suffix left (i + 1) high c.after in
      if c.found
      then with_rename c.to_rename (if c.is_base then without suffix high else high) rest
      else planned [] c.after

  -- The renames backwards, up to one that fails.
  unfoldable pub execute : List (Text × Text) → D → Bool × D
  execute [] d = (true, d)
  execute ((from, to) ∷ renames) d =
      let (ok, d') = execute renames d in if ok then fs.rename_to from to d' else (false, d')

  unfoldable pub carried_out : Plan D → Bool × D
  unfolding execute
  carried_out (abandoned d) = (false, d)
  carried_out (planned renames d) = execute renames d

  unfoldable pub purge : (ℕ → Text) → ℕ → ℕ → D → Outcome (Bool × D)
  unfolding plan carried_out suffix_length
  purge format low high d = suffix_length (format low) >>= λ suffix. returned (
      if ltb high low
      then (true, d)
      else carried_out (plan format suffix (high - low) low (format low) d))
