-- ===== src/Lint/Report.antt =====
-- What a check hands to `error(filename, linenum, category, confidence, message)` in cpplint.py. A
-- check is a function that returns its reports in the order of the calls.
use netproject_c.Prelude.{ℕ, List, [], ◌∷◌, Text, text, String, Bool, if◌then◌else◌}

pub record Report : Type 0 where
  pub linenum : ℕ
  pub category : Text
  pub confidence : ℕ
  pub message : Text

abbrev pub report : ℕ → String → ℕ → Text → Report
report linenum category confidence message = record {
  linenum = linenum;
  category = text category;
  confidence = confidence;
  message = message;
}

-- `if b: error(...)`
abbrev pub when : Bool → Report → List Report
when b r = if b then r ∷ [] else []

-- What a check does that also reads NOLINT comments on its way: a report, or a call of
-- `ParseNolintSuppressions` with a line and its number.
pub data Action : Type 0 where
  tell : Report → Action
  nolint : Text → ℕ → Action

abbrev pub tell_all : List Report → List Action
tell_all [] = []
tell_all (r ∷ rs) = tell r ∷ tell_all rs
