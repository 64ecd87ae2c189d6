-- ===== src/Tests/Structures.antt =====
-- Tests of CyclicBuffer, Properties and StringHelper.
use logging_log4cxx.Prelude.{
  ℕ, zero, suc, ◌≡◌, ◌≤◌, refl, true, List, [], ◌∷◌, some, returned, pos, Text, codes, text_eq,
  arith,
}
use logging_log4cxx.CyclicBuffer.{CyclicBuffer, new, get_max_size}
use logging_log4cxx.CyclicBuffer.Refinement.{Holds, Slots}
use logging_log4cxx.CyclicBuffer.History.{Call, adds, takes, reads, start, run_list, start-run_list}
use logging_log4cxx.Properties.{PropertyMap, put, get-put}
use logging_log4cxx.Properties.Parser.{Parser, initial, get_from, measure, run, loop, parse, load}
use logging_log4cxx.Properties.Termination.{run-finished}
use logging_log4cxx.Properties.RoundTrip.{print, put_all, parse-print}
use logging_log4cxx.StringHelper.{ends_with, format}
use logging_log4cxx.StringHelper.Trim.{IsBare, more}

abbrev calls : List (Call ℕ)
calls = adds 1 ∷ adds 2 ∷ adds 3 ∷ reads (pos 0) ∷ takes ∷ takes ∷ takes ∷ []

-- The third event pushes out the first of a buffer of two.
run_calls : run_list 0 2 calls [] ≡ 2 ∷ 2 ∷ 3 ∷ 0 ∷ []
unfolding run_list
run_calls = refl

start-run_list_example : start 0 (new 0 (pos 2)) calls ≡ returned (run_list 0 2 calls [])
start-run_list_example = start-run_list 0 1 calls

abbrev ring : CyclicBuffer ℕ
ring = record { ea = 3 ∷ 2 ∷ []; first = 1; last = 1; num_elems = 2; max_size = 2 }

ring-Slots : Slots {A = ℕ} (3 ∷ 2 ∷ []) 1 2 (2 ∷ 3 ∷ [])
ring-Slots zero h = refl
ring-Slots (suc zero) h = refl
ring-Slots (suc (suc i)) h = absurd (omega arith)

ring-Holds : Holds ring (2 ∷ 3 ∷ [])
ring-Holds = record {
  size = refl;
  start = omega arith;
  count = refl;
  room = omega arith;
  end = refl;
  slots = ring-Slots;
}

ring-get_max_size : get_max_size ring ≡ 2
unfolding get_max_size
ring-get_max_size = refl

abbrev pairs : List (Text × Text)
pairs = (codes "a b", codes "x=1") ∷ (codes "#c", codes "") ∷ []

print-pairs : print pairs ≡ codes "a\\ b=x\\=1\n\\#c=\n"
print-pairs = refl

parse-print_example : parse (print pairs) [] ≡ put_all pairs []
parse-print_example = parse-print pairs []

load_comment : load (codes "# c\nk = v") [] ≡ (codes "k", codes "v") ∷ []
unfolding load logging_log4cxx.Properties.Parser.step_in put text_eq
load_comment = refl

abbrev started : Parser
started = get_from (codes "k=v") (initial [])

run-finished_example :
    ((run (started)).finished ≡ true)
    × ((n : ℕ) → measure (started) ≤ n → loop n (started) ≡ run (started))
run-finished_example = run-finished (started)

abbrev bare-word : IsBare (codes "a b")
bare-word = more 97 98 (32 ∷ []) (omega arith) (omega arith)

ends_with_suffix : ends_with (codes "log4j") (codes "4j") ≡ true
unfolding ends_with text_eq
ends_with_suffix = refl

format_two : format (codes "{1}-{0}") (codes "a" ∷ codes "b" ∷ []) ≡ some (codes "b-a")
unfolding format
format_two = refl
