-- ===== src/Lint/Tests.antt =====
-- Runs of the checker's parts on concrete inputs.
mod Headers
mod States
mod Reports
mod Lines
mod Stacks
mod Checks
mod Files
mod Texts
