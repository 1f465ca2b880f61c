-- ===== src/Lint/Required/Permuted.antt =====
-- The sorting by lines changes only the order of the reports.
use mathlib.Core.List.{Permᴰ}
use mathlib.Core.List.Permᴰ
use netproject_c.Prelude.{Bool, false, List, [], ◌∷◌, same, ◌||◌, if◌then◌else◌}
use netproject_c.Lint.Report.{Report}
use netproject_c.Lint.IncludeState.{Include}
use netproject_c.Lint.Settings.{Settings}
use netproject_c.Lint.Required.{Need, missing_report, bare_header}

-- Of the headers that are needed, those that are neither included by the file nor by its own header.
abbrev pub is_included : List Include → Need → Bool
is_included [] n = false
is_included ((path, linenum) ∷ dict) n = same (bare_header n.header) path || is_included dict n

pub wanted : List Include → List Need → List Report
wanted dict [] = []
wanted dict (n ∷ ns) =
    let rest = wanted dict ns in if is_included dict n then rest else missing_report n ∷ rest
