-- ===== src/FixedWindow/Files.antt =====
-- What src/main/cpp/fixedwindowrollingpolicy.cpp relies on in a file system where every removal and
-- renaming of a file that is there succeeds.
use logging_log4cxx.Prelude.{
  ◌≡◌, Bool, true, false, Option, none, some, if◌then◌else◌, Text, text_eq,
}
use logging_log4cxx.FixedWindow.{FileSystem}

abbrev pub is_there {ℓ} : {A : Type ℓ} → Option A → Bool
is_there none = false
is_there (some a) = true

-- `content` is what a file has; a renamed file replaces the one with the new name.
pub record Works {D : Type 0} (fs : FileSystem D) (content : Text → D → Option Text) : Type 0 where
  pub existing : (f : Text) (d : D) → fs.exists f d ≡ is_there (content f d)
  pub delete_done : (f : Text) (d : D) → fs.exists f d ≡ true → (fs.delete_file f d).0 ≡ true
  pub delete_content :
      (f : Text) (d : D) (x : Text)
      → fs.exists f d ≡ true
      → content x (fs.delete_file f d).1 ≡ (if text_eq f x then none else content x d)
  pub rename_done : (f g : Text) (d : D) → fs.exists f d ≡ true → (fs.rename_to f g d).0 ≡ true
  pub rename_content :
      (f g : Text) (d : D) (x : Text)
      → fs.exists f d ≡ true
      → content x (fs.rename_to f g d).1
        ≡ (if text_eq g x then content f d else if text_eq f x then none else content x d)
