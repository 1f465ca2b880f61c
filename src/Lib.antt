-- ===== src/Lib.antt =====
-- The build tools of netproject-c, as functions on values. Python's objects are records that the
-- methods take and return; an exception, a failed assertion or the number -1 is a result of its own.
--
-- build_support/cpplint.py is the style checker. A file is read as a list of lines; the lines are
-- cleansed of comments, raw strings and string contents, and each line then goes through the nesting
-- state and the checks, which report through `Error`. In Lint:
--   Categories   the tables of categories and default filters
--   Nolint       ParseNolintSuppressions, ProcessGlobalSuppresions, IsErrorSuppressedByNolint
--   Patterns     Match, Search, ReplaceAll
--   Settings, Files   the global settings, the extensions, GetLineWidth and FileInfo
--   Config       ProcessConfigOverrides
--   IncludeState _IncludeState: the headers of a file and the order of their sections
--   Includes     _ClassifyInclude, CheckIncludeLine and CheckHeaderFileIncluded, its clients
--   Required     CheckForIncludeWhatYouUse, with its tables and FilesBelongToSameModule
--   HeaderGuard  GetHeaderGuardCPPVariable and CheckForHeaderGuard
--   State        _CppLintState: settings, filters and error counts
--   FunctionState _FunctionState
--   Emit         _ShouldPrintError and Error; Event is what ProcessFileData and its checks do to the
--                suppressions and the counts, as a list, in any order
--   Comments, RawStrings, Cleansed, Lines   from IsCppString to CleansedLines
--   TextInside   _GetTextInside
--   Expression   FindEndOfExpressionInLine, CloseExpression and their mirror images
--   Nesting      _BlockInfo and its classes, _PreprocessorInfo, NestingState
--   Language     CheckLanguage (Casts, Globals) and CheckForNonConstReference (References)
--   Checks       checks of a file and of single lines; Style is CheckStyle, which calls most others
-- A check is a function that returns the reports which the source hands to `error`, in their order;
-- where it calls ParseNolintSuppressions on its way, it returns a list of both kinds of calls, an
-- Action, and Emit takes those with the resets of the suppressions around them. A check
-- of a line looks at a CleansedLines and a line number, and where it needs them at the stack of blocks,
-- the include state and the settings.
--
-- build_support/run_clang_tidy.py, run_clang_tidy_extra.py and run_clang_format.py run the clang
-- tools on many files. In Tools:
--   ClangFormat  check and the main part of run_clang_format.py
--   ClangTidy    the skipped paths, the command lines (Invocation), the way up to the compilation
--                database (Database), the loop that fills the queue (Queue), the threads (Pool)
-- A step of the pool is one thread's or main's next move: put, get, the skipping of a file, a run of
-- clang-tidy noted, task_done, or an exception that ends the thread. The count of unfinished tasks is
-- that of queue.Queue. Files, processes, os.path, fnmatch, difflib and tempfile are parameters there.
--
-- What the checker asks of the world stands in two records: Settings has os.path.exists,
-- os.path.abspath and what unicodedata says of a character, and Outside in Config has the lines of a
-- configuration file, `re` on a pattern of such a file, and `int`. The opening of a header is an
-- argument of Required.
--
-- Prelude has Python's strings as lists of code points, with the methods that the tools call, and
-- the functions of os.path on POSIX that work on texts alone (Paths); white space, letters and
-- digits are those of ASCII. Regex is a backtracking matcher of the notation that the tools use, for
-- `re`: patterns stand in the
-- development as they stand in the source, and one with re.I is sought in the lower-case text.
--
-- Loops over lines and characters are structural. Loops that rescan a line have as fuel the length
-- of what they consume, one character at least in each round: CleansedLines.collapse_loop, the
-- namespace and token loops of Nesting, and in_template, which gets the number of all characters and
-- lines, and the loop of CheckCheck over a condition. The loops that go up to the parent directory
-- (FileInfo, PathSplitToList, ProcessConfigOverrides) have as fuel the length of the path, which
-- each round makes shorter. The loop of RemoveMultiLineComments gets one round more than there are
-- lines. The search for the database and the filling of the queue can fail to end, so their fuel is
-- an argument.
--
-- Not modelled: the C sources (utils, include, Http, IO, NonBlock, TCP, UDP, Concurrent); cpplint's
-- CheckForNamespaceIndentation, whose test compares blocks by identity (the functions it calls are
-- in Checks/Namespaces), ProcessLine, ProcessFileData and ProcessFile, the output as XML, the
-- parsing of arguments, the debugging output and the progress messages. The width of a line is that
-- of Python 3 from 3.3 on. In Config a pattern that does not compile and a line length below 0 are
-- left out.
pub mod Prelude
pub mod Regex
pub mod Lint
pub mod Tools
