-- ===== src/Pattern.antt =====
-- The pattern layout: src/main/cpp/formattinginfo.cpp, src/main/cpp/patternparser.cpp and
-- src/main/cpp/literalpatternconverter.cpp.
pub mod FormattingInfo
pub mod Parser
