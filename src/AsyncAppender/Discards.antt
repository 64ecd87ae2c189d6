-- ===== src/AsyncAppender/Discards.antt =====
-- Summaries of discarded events: `DiscardSummary` and the discard map of
-- src/main/cpp/asyncappender.cpp.
use logging_log4cxx.Prelude.{
  ◌+◌, ◌%◌, ◌^◌, ◌<◌, ◌≤◌, ◌≡◌, refl, sym, ap, ◌∙◌, subst, inl, inr, true, false, Bool-cases,
  Option-cases, Option, none, some, List, [], ◌∷◌, ◌++◌, append-nil, append_assoc, if◌then◌else◌,
  ltb_ℤ, length, length-append, Text, text_eq, text_eq_iff, arith,
}
use logging_log4cxx.Prelude.Maps.{find, find-insert}
use logging_log4cxx.AsyncAppender.{
  LoggingEvent, DiscardSummary, DiscardMap, summarize, add, discard,
}

-- Events that are discarded one after the other.
unfoldable pub discard_all : List LoggingEvent → DiscardMap → DiscardMap
unfolding discard
discard_all [] m = m
discard_all (e ∷ es) m = discard_all es (discard e m)

-- The events of one logger.
abbrev pub of_logger : Text → List LoggingEvent → List LoggingEvent
of_logger name [] = []
of_logger name (e ∷ es) =
    if text_eq e.logger_name name then e ∷ of_logger name es else of_logger name es

abbrev pub AllBelow : LoggingEvent → List LoggingEvent → Type 0
AllBelow m [] = Unit {0}
AllBelow m (e ∷ es) = (ltb_ℤ e.level.level m.level.level ≡ true) × AllBelow m es

abbrev pub NoneAbove : LoggingEvent → List LoggingEvent → Type 0
NoneAbove m [] = Unit {0}
NoneAbove m (e ∷ es) = (ltb_ℤ m.level.level e.level.level ≡ false) × NoneAbove m es

-- What a summary says of the events of one logger: their number, and the first of the highest level.
abbrev pub Summarizes : List LoggingEvent → Option DiscardSummary → Type 0
Summarizes es none = es ≡ []
Summarizes es (some s) =
    (s.count ≡ length es)
    × ((before : List LoggingEvent) × (after : List LoggingEvent) × (es
          ≡ before ++ s.max_event ∷ after)
        × AllBelow s.max_event before
        × NoneAbove s.max_event after)

NoneAbove-append :
    (m e : LoggingEvent) (es : List LoggingEvent)
    → NoneAbove m es
    → ltb_ℤ m.level.level e.level.level ≡ false
    → NoneAbove m (es ++ e ∷ [])
NoneAbove-append m e [] h last = (last, tt)
NoneAbove-append m e (f ∷ es) (h, hs) last = (h, NoneAbove-append m e es hs last)

AllBelow-append :
    (m : LoggingEvent) (es fs : List LoggingEvent)
    → AllBelow m es
    → AllBelow m fs
    → AllBelow m (es ++ fs)
AllBelow-append m [] fs h h' = h'
AllBelow-append m (e ∷ es) fs (h, hs) h' = (h, AllBelow-append m es fs hs h')

-- A new highest event is above all that were not above the old one.
below_new :
    (old new : LoggingEvent) (es : List LoggingEvent)
    → ltb_ℤ old.level.level new.level.level ≡ true
    → NoneAbove old es
    → AllBelow new es
below_new old new [] above h = tt
below_new old new (e ∷ es) above (h, hs) = (ground arith, below_new old new es above hs)

still_below :
    (old new : LoggingEvent) (es : List LoggingEvent)
    → ltb_ℤ old.level.level new.level.level ≡ true
    → AllBelow old es
    → AllBelow new es
still_below old new [] above h = tt
still_below old new (e ∷ es) above (h, hs) = (ground arith, still_below old new es above hs)

Summarizes-add :
    (es : List LoggingEvent) (s : DiscardSummary) (e : LoggingEvent)
    → length (es ++ e ∷ []) < 2 ^ 31
    → Summarizes es (some s)
    → Summarizes (es ++ e ∷ []) (some (add e s))
unfolding add
Summarizes-add es s e few (count, (before, after, split, below, above)) =
    let total : (s.count + 1) % 2 ^ 32 ≡ length (es ++ e ∷ []) =
      omega (arith, length-append es (e ∷ [])) in
    elim (Bool-cases (ltb_ℤ s.max_event.level.level e.level.level)) [
      | inl higher ↦ rw higher (
        total,
        (
          es,
          [],
          refl,
          subst (AllBelow e) (sym split) (
              AllBelow-append e before (s.max_event ∷ after)
                (still_below s.max_event e before higher below)
                (higher, below_new s.max_event e after higher above)),
          tt,
        ),
      )
      | inr lower ↦ rw lower (
        total,
        (
          before,
          after ++ e ∷ [],
          ap (λ l. l ++ e ∷ []) split ∙ append_assoc before (s.max_event ∷ after) (e ∷ []),
          below,
          NoneAbove-append s.max_event e after above lower,
        ),
      )
    ]

of_logger-append :
    (name : Text) (es fs : List LoggingEvent)
    → of_logger name (es ++ fs) ≡ of_logger name es ++ of_logger name fs
of_logger-append name [] fs = refl
of_logger-append name (e ∷ es) fs = elim (Bool-cases (text_eq e.logger_name name)) [
  | inl f ↦ rw f (ap (e ∷◌) (of_logger-append name es fs))
  | inr f ↦ rw f (of_logger-append name es fs)
]

added : LoggingEvent → Option DiscardSummary → DiscardSummary
added e none = summarize e
added e (some s) = add e s

find-discard :
    (name : Text) (e : LoggingEvent) (m : DiscardMap)
    → find name (discard e m)
      ≡ (if text_eq e.logger_name name then some (added e (find e.logger_name m)) else find name m)
unfolding discard added
find-discard name e m = elim (Option-cases (find e.logger_name m)) [
  | inl f ↦ rw (discard, f) (find-insert name e.logger_name (summarize e) m)
  | inr (s, f) ↦ rw (discard, f) (find-insert name e.logger_name (add e s) m)
]

Summarizes-added :
    (es : List LoggingEvent) (o : Option DiscardSummary) (e : LoggingEvent)
    → length (es ++ e ∷ []) < 2 ^ 31
    → Summarizes es o
    → Summarizes (es ++ e ∷ []) (some (added e o))
unfolding added
Summarizes-added es none e few h =
    subst (λ l. Summarizes (l ++ e ∷ []) (some (summarize e))) (sym h)
      (refl, ([], [], refl, tt, tt))
Summarizes-added es (some s) e few h = Summarizes-add es s e few h

length-of_logger : (name : Text) (es : List LoggingEvent) → length (of_logger name es) ≤ length es
length-of_logger name [] = omega arith
length-of_logger name (e ∷ es) = elim (Bool-cases (text_eq e.logger_name name)) [
  | inl f ↦ rw f (omega (arith, length-of_logger name es))
  | inr f ↦ rw f (omega (arith, length-of_logger name es))
]

discard-Summarizes :
    (seen : List LoggingEvent) (m : DiscardMap) (e : LoggingEvent) (name : Text)
    → length (seen ++ e ∷ []) < 2 ^ 31
    → ((n : Text) → Summarizes (of_logger n seen) (find n m))
    → Summarizes (of_logger name (seen ++ e ∷ [])) (find name (discard e m))
discard-Summarizes seen m e name few h =
    subst (λ l. Summarizes l (find name (discard e m))) (sym (of_logger-append name seen (e ∷ [])))
      (subst (Summarizes (of_logger name seen ++ of_logger name (e ∷ [])))
        (sym (find-discard name e m))
        (elim (Bool-cases (text_eq e.logger_name name)) [
          | inl same ↦ rw same (
              subst
                (λ n.
                  Summarizes (of_logger n seen ++ e ∷ []) (some (added e (find e.logger_name m))))
                ((text_eq_iff e.logger_name name).0 same)
                (Summarizes-added (of_logger e.logger_name seen) (find e.logger_name m) e
                  (omega (
                    arith,
                    few,
                    length-append seen (e ∷ []),
                    length-append (of_logger e.logger_name seen) (e ∷ []),
                    length-of_logger e.logger_name seen,
                  ))
                  (h e.logger_name)))
          | inr other ↦ rw other (
              subst (λ l. Summarizes l (find name m)) (sym (append-nil (of_logger name seen)))
                (h name))
        ]))

discard_all-Summarizes :
    (es seen : List LoggingEvent) (m : DiscardMap) (name : Text)
    → length (seen ++ es) < 2 ^ 31
    → ((n : Text) → Summarizes (of_logger n seen) (find n m))
    → Summarizes (of_logger name (seen ++ es)) (find name (discard_all es m))
unfolding discard_all
discard_all-Summarizes [] seen m name few h =
    subst (λ l. Summarizes (of_logger name l) (find name m)) (sym (append-nil seen)) (h name)
discard_all-Summarizes (e ∷ es) seen m name few h =
    subst (λ l. Summarizes (of_logger name l) (find name (discard_all es (discard e m))))
      (append_assoc seen (e ∷ []) es)
      (discard_all-Summarizes es (seen ++ e ∷ []) (discard e m) name
        (omega (arith, few, ap length (append_assoc seen (e ∷ []) es)))
        (λ n.
          discard-Summarizes seen m e n
            (omega (arith, few, length-append seen (e ∷ es), length-append seen (e ∷ []))) h))

-- After fewer than 2 ^ 31 events are discarded, the map has for each logger with one of them a summary whose count
-- is the number of its events and whose event is the first of its events of the highest level, and
-- nothing for the other loggers.
pub discard_all-summaries :
    (es : List LoggingEvent) (name : Text)
    → length es < 2 ^ 31
    → Summarizes (of_logger name es) (find name (discard_all es []))
unfolding find
discard_all-summaries es name few = discard_all-Summarizes es [] [] name few (λ n. refl)
