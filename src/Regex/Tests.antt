-- ===== src/Regex/Tests.antt =====
-- Runs of the matcher whose results Python gives too.
use netproject_c.Prelude.{ℕ, Option, none, some, [], ◌≡◌, refl, Text, text}
use netproject_c.Regex.{match_re, search_re, sub_re, group_of, Found}
use netproject_c.Regex.Syntax.{compile}

abbrev groups_of : Option Found → ℕ → Option Text
groups_of none n = none
groups_of (some m) n = group_of m n

t1 :
    groups_of
      (search_re
        (compile (text "\\bNOLINT(NEXTLINE)?\\b(\\([^)]+\\))?"))
        (text "x; // NOLINT(a/b) c"))
      2
    ≡ some (text "(a/b)")
unfolding search_re compile group_of
t1 = refl

t2 :
    groups_of
      (match_re
        (compile (text "^(.*?)\\b(?:R|u8R|uR|UR|LR)\"([^\\s\\\\()]*)\\((.*)$"))
        (text "a = R\"xy(foo)xy\""))
      2
    ≡ some (text "xy")
unfolding match_re compile group_of
t2 = refl

t3 :
    sub_re (compile (text "/\\*(?:[^*]|\\*(?!/))*\\*/")) [] (text "a/* b **/c /*d*/e") ≡ text "ac e"
unfolding sub_re compile
t3 = refl

t4 :
    groups_of (match_re (compile (text "^\\s*#\\s*(if|ifdef|ifndef)\\b")) (text " # ifdef X")) 1
    ≡ some (text "ifdef")
unfolding match_re compile group_of
t4 = refl
