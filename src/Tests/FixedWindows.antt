-- ===== src/Tests/FixedWindows.antt =====
-- Tests of FixedWindow, over a file system of an association list.
use logging_log4cxx.Prelude.{
  ℕ, zero, suc, ◌∙◌, length, ◌+◌, ◌≡◌, refl, ap, Bool, true, false, Option, none, some, returned,
  List, [], ◌∷◌, if◌then◌else◌, Text, codes, text_eq, thrown, out_of_range, pos, arith,
}
use logging_log4cxx.Prelude.Maps.{find, insert, erase, find-insert, find-erase}
use logging_log4cxx.FixedWindow.{FileSystem, purge, suffix_length}
use logging_log4cxx.FixedWindow.Rollover.{
  Policy, new, initialize, activate_options, described, rollover, rollover-Shifted,
}
use logging_log4cxx.FixedWindow.Files.{is_there, Works}
use logging_log4cxx.FixedWindow.Purge.{Shifted, purge-Shifted}

abbrev Directory : Type 0
Directory = List (Text × Text)

abbrev renamed : Text → Text → Directory → Option Text → Bool × Directory
renamed f g d none = (false, d)
renamed f g d (some text) = (true, insert g text (erase f d))

abbrev in_memory : FileSystem Directory
in_memory = record {
  exists = λ f d. is_there (find f d);
  delete_file = λ f d. (is_there (find f d), erase f d);
  rename_to = λ f g d. renamed f g d (find f d);
}

rename_found :
    (f g : Text) (d : Directory) (o : Option Text)
    → is_there o ≡ true
    → ((renamed f g d o).0 ≡ true)
      × ((x : Text)
          → find x (renamed f g d o).1
            ≡ (if text_eq g x then o else if text_eq f x then none else find x d))
rename_found f g d none e = absurd (cc e)
rename_found f g d (some text) e = (
  refl,
  λ x.
      find-insert x g text (erase f d)
      ∙ ap (λ o. if text_eq g x then some text else o) (find-erase x f d),
)

in_memory-Works : Works in_memory find
in_memory-Works = record {
  existing = λ f d. refl;
  delete_done = λ f d e. e;
  delete_content = λ f d x e. find-erase x f d;
  rename_done = λ f g d e. (rename_found f g d (find f d) e).0;
  rename_content = λ f g d x e. (rename_found f g d (find f d) e).1 x;
}

-- The index stands as so many characters.
abbrev named : ℕ → Text
named zero = codes "log."
named (suc i) = b'1' ∷ named i

length-named : (i : ℕ) → length (named i) ≡ 4 + i
length-named zero = refl
length-named (suc i) = omega (arith, length-named i)

named-distinct : (a b : ℕ) → named a ≡ named b → a ≡ b
named-distinct a b e = omega (arith, length-named a, length-named b, ap length e)

abbrev directory : Directory
directory =
    (named 1, codes "new")
    ∷ (named 2, codes "old")
    ∷ (named 3, codes "oldest")
    ∷ (codes "log", codes "active")
    ∷ []

purge-Shifted_example :
    (d' : Directory) × (purge in_memory named 1 3 directory ≡ returned (true, d'))
    × Shifted find named 1 3 directory d'
unfolding suffix_length text_eq
purge-Shifted_example =
    purge-Shifted in_memory find named in_memory-Works named-distinct 1 3 directory refl
      (omega arith)

three_files :
    purge in_memory named 1 3 directory
    ≡ returned
        (true, (codes "log", codes "active") ∷ (named 3, codes "old") ∷ (named 2, codes "new") ∷ [])
unfolding purge find erase insert
three_files = refl

-- A name of three characters is too short to be compared with ".zip".
short_name : purge in_memory (λ i. codes "f.1") 1 3 [] ≡ thrown out_of_range
unfolding purge
short_name = refl

-- A window from 1 to 3 and a file that was named.
abbrev window : Policy
window = record { min_index = 1; max_index = pos 3; explicit_active_file = true }

rollover-Shifted_example :
    (d' : Directory) × (rollover in_memory named window (codes "log") true directory
      ≡ returned (
        some (record {
          active_file_name = codes "log";
          append = true;
          synchronous = some (codes "log", named 1);
          asynchronous = none;
        }),
        d',
      ))
    × Shifted find named 1 3 directory d'
unfolding suffix_length text_eq
rollover-Shifted_example =
    rollover-Shifted in_memory find named window (codes "log") true 3 directory in_memory-Works
      named-distinct refl refl (omega arith)

described_plain : described (codes "log") (named 1) true ≡ record {
  active_file_name = codes "log";
  append = true;
  synchronous = some (codes "log", named 1);
  asynchronous = none;
}
unfolding described text_eq
described_plain = refl

initialized : (initialize named (codes "log") true new).1.explicit_active_file ≡ true
unfolding initialize
initialized = refl

large_window : (activate_options (record new { max_index = pos 99 })).max_index ≡ pos 13
unfolding activate_options new
large_window = refl
