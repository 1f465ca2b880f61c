-- ===== src/Tools.antt =====
-- build_support/run_clang_tidy.py, run_clang_tidy_extra.py and run_clang_format.py, the drivers of the
-- clang tools.
pub mod ClangFormat
pub mod ClangTidy
mod Tests
