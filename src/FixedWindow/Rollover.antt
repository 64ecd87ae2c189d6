-- ===== src/FixedWindow/Rollover.antt =====
-- The policy of src/main/cpp/fixedwindowrollingpolicy.cpp: its window, and what a rollover asks for.
-- The lowest index is not negative; the directories in between are left out.
use logging_log4cxx.Prelude.{
  ℕ, ◌+◌, ◌-◌, ◌≤◌, ◌≡◌, refl, ap, Bool, true, false, Option, none, some, Outcome, returned, ◌>>=◌,
  [], ◌∷◌, if◌then◌else◌, ltb, Text, codes, ℤ, pos, negsuc, arith,
}
use logging_log4cxx.StringHelper.{ends_with}
use logging_log4cxx.FixedWindow.{FileSystem, suffix_length, without, purge}
use logging_log4cxx.FixedWindow.Files.{Works}
use logging_log4cxx.FixedWindow.Purge.{Shifted, purge-Shifted}

pub record Policy : Type 0 where
  pub min_index : ℕ
  pub max_index : ℤ
  pub explicit_active_file : Bool

unfoldable pub new : Policy
new = record { min_index = 1; max_index = pos 7; explicit_active_file = false }

-- `MAX_WINDOW_SIZE`
abbrev pub max_window_size : ℕ
max_window_size = 12

-- `activateOptions`: the highest index, from the lowest one and the one that was set.
unfoldable pub clamped : ℕ → ℤ → ℕ
clamped low (negsuc n) = low
clamped low (pos n) =
    if ltb n low then low else if ltb max_window_size (n - low) then low + max_window_size else n

unfoldable pub activate_options : Policy → Policy
unfolding clamped
activate_options p = record p { max_index = pos (clamped p.min_index p.max_index) }

pub data Compression : Type 0 where
  gz_compress zip_compress : Text → Text → Compression

pub record RolloverDescription : Type 0 where
  pub active_file_name : Text
  pub append : Bool
  -- the rename of the active file
  pub synchronous : Option (Text × Text)
  pub asynchronous : Option Compression

-- `initialize`
unfoldable pub initialize : (ℕ → Text) → Text → Bool → Policy → RolloverDescription × Policy
initialize format [] append p = (
  record {
    active_file_name = format p.min_index;
    append = append;
    synchronous = none;
    asynchronous = none;
  },
  record p { explicit_active_file = false },
)
initialize format (c ∷ file) append p = (
  record { active_file_name = c ∷ file; append = append; synchronous = none; asynchronous = none },
  record p { explicit_active_file = true },
)

-- The end of `rollover`, for the name of the lowest index that was freed.
unfoldable pub described : Text → Text → Bool → RolloverDescription
unfolding ends_with
described active name append =
    if ends_with name (codes ".gz")
    then record {
      active_file_name = active;
      append = append;
      synchronous = some (active, without 3 name);
      asynchronous = some (gz_compress (without 3 name) name);
    }
    else if ends_with name (codes ".zip")
    then record {
      active_file_name = active;
      append = append;
      synchronous = some (active, without 4 name);
      asynchronous = some (zip_compress (without 4 name) name);
    }
    else record {
      active_file_name = active;
      append = append;
      synchronous = some (active, name);
      asynchronous = none;
    }

abbrev pub purge_start : Policy → ℕ
purge_start p = if p.explicit_active_file then p.min_index else p.min_index + 1

-- `rollover`: a null description is `none`.
unfoldable pub rollover :
    {D : Type 0}
    → FileSystem D
    → (ℕ → Text)
    → Policy
    → Text
    → Bool
    → D
    → Outcome (Option RolloverDescription × D)
unfolding purge described
rollover fs format p active append d = elim p.max_index [
  | negsuc n ↦ returned (none, d)
  | pos high ↦ purge fs format (purge_start p) high d >>= λ (ok, d').
      returned (if ok then some (described active (format (purge_start p)) append) else none, d')
]

-- An activated window has at least one index and at most `max_window_size` more.
pub clamped-bounds :
    (low : ℕ) (n : ℤ) → (low ≤ clamped low n) × (clamped low n ≤ low + max_window_size)
unfolding clamped
clamped-bounds low (negsuc n) = (omega arith, omega arith)
clamped-bounds low (pos n) = (ground arith, ground arith)

-- A name that `purge` finds no suffix on ends with none.
plain_name :
    (name : Text)
    → suffix_length name ≡ returned 0
    → (ends_with name (codes ".gz") ≡ false) × (ends_with name (codes ".zip") ≡ false)
unfolding suffix_length ends_with
plain_name name h = ground arith

described-plain :
    (active name : Text) (append : Bool)
    → suffix_length name ≡ returned 0
    → described active name append ≡ record {
      active_file_name = active;
      append = append;
      synchronous = some (active, name);
      asynchronous = none;
    }
unfolding described
described-plain active name append h = let (gz, zip) = plain_name name h in rw (gz, zip) refl

-- Let every removal and renaming succeed, let different indices have different names, and let the window
-- reach from its lowest index that is not the active file up to `high`, the name of the lowest with four
-- characters or more and no suffix of a compressed file. A rollover moves the old files up by one, which
-- frees the name, and returns a description that renames the active file to it, compresses nothing and
-- goes on with the active file and the `append` that were passed.
pub rollover-Shifted :
    {D : Type 0} (fs : FileSystem D) (content : Text → D → Option Text) (format : ℕ → Text)
    (p : Policy) (active : Text) (append : Bool) (high : ℕ) (d : D)
    → Works fs content
    → ((a b : ℕ) → format a ≡ format b → a ≡ b)
    → suffix_length (format (purge_start p)) ≡ returned 0
    → p.max_index ≡ pos high
    → purge_start p ≤ high
    → (d' : D) × (rollover fs format p active append d
        ≡ returned (
          some (record {
            active_file_name = active;
            append = append;
            synchronous = some (active, format (purge_start p));
            asynchronous = none;
          }),
          d',
        ))
      × Shifted content format (purge_start p) high d d'
unfolding rollover
rollover-Shifted fs content format p active append high d works distinct plain top le =
    let (d', done, s) =
      purge-Shifted fs content format works distinct (purge_start p) high d plain le in
    (
      d',
      rw (rollover, top, done)
          (ap (λ r. returned (some r, d'))
            (described-plain active (format (purge_start p)) append plain)),
      s,
    )
