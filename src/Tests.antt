-- ===== src/Tests.antt =====
-- The theorems at concrete inputs.
mod Watching
mod Reading
mod Keeping
mod Storing
mod Requests
mod Pricing
mod Serving
mod Running
mod Whole
