-- ===== src/Examples.antt =====
-- Tests, and runs of the theorems on concrete inputs.
mod Parsing
mod Logging
mod Timing
mod Numbering
mod Parsed
mod Drawing
mod Formatting
mod Sending
mod Sorting
mod Flattening
mod Rectangles
mod Texts
