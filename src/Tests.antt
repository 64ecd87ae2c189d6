-- ===== src/Tests.antt =====
-- Concrete runs of the modelled code, and the theorems at concrete inputs.
mod Structures
mod Options
mod Patterns
mod Filters
mod Hierarchies
mod Transcoders
mod AsyncAppenders
mod NameAbbreviators
mod FixedWindows
mod Loggers
mod Transforms
mod CachedDateFormats
mod Thresholds
mod Locations
mod Layouts
mod Ndcs
