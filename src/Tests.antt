-- ===== src/Tests.antt =====
-- Runs of the theorems at concrete inputs.
mod Numbers
mod Server
mod Api
mod Panels
mod Locks
mod Requests
mod Overlap
mod Widgets
mod Scripts
mod Filters
mod Analysis
mod Answers
mod Board
mod Figures
mod Metrics
