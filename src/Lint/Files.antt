-- ===== src/Lint/Files.antt =====
-- cpplint.py, `FileInfo`: the parts of a file's path below the root of its repository. Each round of the
-- loops goes up to the parent directory, so the length of the path is fuel enough; the one loop of the
-- source that does not end at the root, that for `.svn`, is left there if `/.svn` exists.
use netproject_c.Prelude.{
  ℕ, zero, suc, ◌+◌, Bool, not, ◌||◌, Option, none, some, ◌++◌, Text, text, if◌then◌else◌, same,
  replace, dirname, split_path, split_extension, join_path, relative_path, common_prefix, length,
  drop, is_empty,
}
use netproject_c.Lint.Settings.{Settings, is_source_extension}

unfoldable pub full_name : Settings → Text → Text
unfolding replace
full_name settings filename = replace (text "\\") (text "/") (settings.absolute_path filename)

-- The path below the directory that the user has named, if that is above the file.
below_repository : ℕ → Settings → Text → Text → Text → Option Text
unfolding same dirname relative_path replace
below_repository zero settings fullname repo root_dir = none
below_repository (suc fuel) settings fullname repo root_dir =
    let above = below_repository fuel settings fullname repo (dirname root_dir) in
    if not (settings.exists root_dir)
    then none
    else if same root_dir repo
    then some (replace (text "\\") (text "/") (relative_path fullname root_dir))
    else if same (dirname root_dir) root_dir
    then none
    else above

svn_root : ℕ → Settings → Text → Text → Text
unfolding dirname join_path
svn_root zero settings root_dir one_up_dir = root_dir
svn_root (suc fuel) settings root_dir one_up_dir =
    let above = svn_root fuel settings (dirname root_dir) (dirname one_up_dir) in
    if settings.exists (join_path one_up_dir (text ".svn")) then above else root_dir

is_checkout : Settings → Text → Bool
unfolding join_path
is_checkout settings dir =
    settings.exists (join_path dir (text ".git"))
    || settings.exists (join_path dir (text ".hg"))
    || settings.exists (join_path dir (text ".svn"))

-- The topmost directory that is a checkout.
checkout_root : ℕ → Settings → Text → Text → Text
unfolding dirname is_checkout same
checkout_root zero settings root_dir current_dir = root_dir
checkout_root (suc fuel) settings root_dir current_dir =
    let above =
      checkout_root fuel settings
        (if is_checkout settings current_dir then current_dir else root_dir)
        (dirname current_dir) in
    if same current_dir (dirname current_dir) then root_dir else above

below : Text → Text → Text → Text
unfolding common_prefix
below fullname root_dir project_dir =
    drop (length (common_prefix root_dir project_dir) + 1) fullname

from_checkout : Settings → Text → Text → Text
unfolding checkout_root is_checkout below
from_checkout settings fullname project_dir =
    let root_dir = checkout_root (length fullname) settings project_dir project_dir in
    if is_checkout settings root_dir then below fullname root_dir project_dir else fullname

from_version_control : Settings → Text → Text → Text
unfolding from_checkout svn_root below join_path dirname
from_version_control settings fullname project_dir =
    if settings.exists (join_path project_dir (text ".svn"))
    then below fullname (svn_root (length fullname) settings project_dir (dirname project_dir))
        project_dir
    else from_checkout settings fullname project_dir

abbrev or_else : Option Text → Text → Text
or_else none t = t
or_else (some s) t = s

unfoldable pub repository_name : Settings → Text → Text
unfolding full_name below_repository from_version_control dirname
repository_name settings filename =
    let fullname = full_name settings filename in
    let project_dir = dirname fullname in
    let named =
      if is_empty settings.repository
      then none
      else below_repository (length fullname + 1) settings fullname
          (full_name settings settings.repository) project_dir in
    if settings.exists fullname
    then or_else named (from_version_control settings fullname project_dir)
    else fullname

-- `Split`: the directory, the base name and the extension
unfoldable pub split_file : Settings → Text → Text × Text × Text
unfolding repository_name split_path split_extension
split_file settings filename =
    let (project, rest) = split_path (repository_name settings filename) in
    let (base, extension) = split_extension rest in (project, base, extension)

unfoldable pub base_name : Settings → Text → Text
unfolding split_file
base_name settings filename = (split_file settings filename).1

unfoldable pub extension : Settings → Text → Text
unfolding split_file
extension settings filename = (split_file settings filename).2

unfoldable pub no_extension : Settings → Text → Text
unfolding split_file
no_extension settings filename =
    let (project, base, ext) = split_file settings filename in project ++ text "/" ++ base

pub is_source : Settings → Text → Bool
unfolding extension is_source_extension
is_source settings filename = is_source_extension settings (drop 1 (extension settings filename))
