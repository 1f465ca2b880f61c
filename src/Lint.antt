-- ===== src/Lint.antt =====
-- build_support/cpplint.py, the style checker.
mod Categories
pub mod Report
pub mod Patterns
pub mod IncludeState
pub mod State
pub mod Nolint
pub mod Emit
pub mod FunctionState
pub mod Expression
pub mod Comments
pub mod RawStrings
pub mod Cleansed
pub mod Lines
pub mod Settings
pub mod Files
pub mod Nesting
pub mod HeaderGuard
pub mod Config
pub mod Required
pub mod TextInside
pub mod Includes
pub mod Checks
pub mod Language
mod Tests
