-- ===== src/Lib.antt =====
-- logging-log4cxx: models of the parts of Apache log4cxx that compute, and theorems about them.
--
-- The program. A logger (src/main/cpp/logger.cpp) tests the level of an event, and passes the
-- event to its appenders (src/main/cpp/appenderattachableimpl.cpp) and those of its ancestors.
-- An appender (src/main/cpp/appenderskeleton.cpp) drops the event by its threshold and its chain
-- of filters (src/main/cpp/filter.cpp and the filter classes), and else writes it through a
-- layout. A layout is made from a conversion pattern, which src/main/cpp/patternparser.cpp takes
-- apart into converters and formats (src/main/cpp/formattinginfo.cpp). The configuration comes
-- as a properties file (src/main/cpp/properties.cpp), whose values
-- src/main/cpp/optionconverter.cpp reads, with help from src/main/cpp/stringhelper.cpp and
-- src/main/cpp/level.cpp. The SMTP appender keeps its last events in
-- src/main/cpp/cyclicbuffer.cpp, and src/main/cpp/asyncappender.cpp buffers events for a thread of
-- its own. Loggers are made and linked to their parents by src/main/cpp/hierarchy.cpp, and texts
-- are read and written as UTF-8 and UTF-16 by src/main/cpp/transcoder.cpp. The converter of the
-- date keeps its last text in src/main/cpp/cacheddateformat.cpp. Each logger keeps the number of the
-- level that it has or inherits (src/main/include/log4cxx/logger.h), which setLevel renews through
-- the hierarchy. An event carries the contexts of its thread (src/main/cpp/ndc.cpp) and its place
-- in the source (src/main/cpp/locationinfo.cpp); src/main/cpp/jsonlayout.cpp writes it as JSON,
-- the XML layouts escape with src/main/cpp/transform.cpp, and src/main/cpp/syslogappender.cpp
-- splits a long text into packets.
--
-- The files. Paths are from the root of the repository.
--   Prelude           names that every module shares: tests, lists, int as an integer, texts, maps,
--                     outcomes
--   CyclicBuffer      cyclicbuffer.cpp: new, add, get_at (`get(int)`), get, resize, get_max_size;
--                     Refinement (the ring as a list), History (sequences of calls), Resize
--   StringHelper      stringhelper.cpp: equals_ignore_case, trim, starts_with, ends_with, format; Trim
--   Level             level.cpp: the levels, to_level, to_level_ls, the comparisons; Names
--   Properties        properties.cpp: get and put; Parser (the state machine, one function for each
--                     state), Termination, RoundTrip
--   OptionConverter   optionconverter.cpp: the conversions and subst_vars; Values, SubstVars
--   Pattern           FormattingInfo (formattinginfo.cpp) and Parser (patternparser.cpp, one function
--                     for each state); Rounds, Literals, Specifiers, Printed, Rules
--   Filter            filter.cpp: addresses and next pointers; Chains (a chain as a list), Classes (the
--                     filters that look at one event), AndFilter (andfilter.cpp)
--   Appender          appenderskeleton.cpp: the state, the filters, do_append; Filters, Cycle
--   Hierarchy         hierarchy.cpp: get_logger with update_parents and update_children; Names, Nearest,
--                     Children, Link, Created, Tree, Requests (sequences of requests)
--   Transcoder        transcoder.cpp: encode_utf8, decode, decode_utf8, the UTF-16 coders; Utf8, Utf16,
--                     Termination
--   AppenderAttachable appenderattachableimpl.cpp: the list of appenders of a logger; History
--   Logger            logger.cpp: effective levels, tests of a level, call_appenders; Ancestors
--   Thresholds        logger.cpp, hierarchy.cpp, rootlogger.cpp and src/main/include/log4cxx/logger.h: the
--                     levels that loggers keep; Renewal (which of them are renewed), Changes (one call of
--                     setLevel), Settings (sequences of calls)
--   AsyncAppender     asyncappender.cpp: its state and the changes of it; System (the threads as a step
--                     relation), Owners, Ring, Moves, Invariant, Progress, Closed, Discards
--   NameAbbreviator   nameabbreviator.cpp: abbreviate (patterns), keep_last (precision) and
--                     get_abbreviator; Elements, Patterns, Precision, Reading
--   FixedWindow       fixedwindowrollingpolicy.cpp: purge; Files (what it relies on), Purge,
--                     Rollover (the policy and its window)
--   CachedDateFormat  cacheddateformat.cpp: format, find_millisecond_start, set_time_zone,
--                     get_maximum_cache_validity; Field (the digits), Regular (formats that it serves),
--                     Requests (against the format without the cache), Micros
--   Ndc               ndc.cpp, threadspecificdata.cpp: the contexts of the threads; Messages (calls, and
--                     lists of messages), Annotated, Calls
--   JsonLayout        jsonlayout.cpp: set_option and format; Lexer (a reader of JSON tokens), Quoted
--                     (strings), Members (the object of an event), Writes, Format
--   SyslogAppender    syslogappender.cpp: the packets of a message; Packets
--   Transform         transform.cpp: append_escaping_tags, append_escaping_cdata; Entities, Cdata
--   LocationInfo      locationinfo.cpp: get_method_name, get_class_name; Signatures
--   Tests             runs at concrete inputs
--
-- Conventions. A text is the list of its code units. A C++ `int` that may be negative is an
-- integer over the native numbers; sizes and indices are natural numbers. A call that may throw
-- or have undefined behaviour gives an Outcome. An object behind a shared pointer is an address
-- where its identity matters, and a value where the object is never changed.
--
-- Fuel. The loop of the properties parser has three rounds for each character; the loop of the
-- pattern parser one for each character; the loop of `substVars` one for each character of its
-- text, and a separate fuel for the depth of the recursion, which the code does not bound. The
-- loop of `decodeUTF8` takes one round for each byte, the loop of a name pattern one for each
-- element, and those of its reading and of the CDATA escape one for each character. The loop
-- that splits a message for syslog takes one round for each character. The loops over filters
-- and ancestors take one round for each. Where fuel runs out the result says so.
--
-- Not modelled. Locks: every operation is one step, but for the asynchronous appender, whose
-- threads are interleaved at each access to an atomic variable, save that taking an event, ending
-- the taking and the test for room read two counts in one step. Memory pools. Number parsing by
-- the C library, system properties, class loading, the operations on files and the virtual calls
-- of filters are parameters. Layouts but the JSON layout, rolling files but for the fixed window
-- of old files, dates but for their cache (for times from 1970 on), the character sets of the
-- locale, the removal of loggers, configurators, and all input and output have no model.
pub mod Prelude
pub mod CyclicBuffer
pub mod StringHelper
pub mod Level
pub mod Properties
pub mod OptionConverter
pub mod Pattern
pub mod Filter
pub mod Appender
pub mod AppenderAttachable
pub mod Logger
pub mod Hierarchy
pub mod Thresholds
pub mod LocationInfo
pub mod JsonLayout
pub mod SyslogAppender
pub mod Ndc
pub mod Transform
pub mod FixedWindow
pub mod NameAbbreviator
pub mod AsyncAppender
pub mod CachedDateFormat
pub mod Transcoder
mod Tests
