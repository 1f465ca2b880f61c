-- ===== src/Lint/Config/Climb.antt =====
-- The loop that looks for CPPLINT.cfg in one directory after the other ends.
use netproject_c.Prelude.{
  ℕ, zero, suc, ◌<◌, true, Text, length, is_empty, split_path, length-split_path, join_path, text,
  ◌≡◌, refl, ap, arith, Bool-cases, inl, inr,
}
use mathlib.Core.Path.{fun_ext}
use netproject_c.Lint.Config.{Outside, Progress, Reading, look_in, search_configs}

-- At the root the rounds that follow do not count.
look_in-root :
    (outside : Outside) (filename base_name cfg_file : Text) (f g : Progress → Reading)
    (p : Progress)
    → is_empty base_name ≡ true
    → look_in outside filename base_name cfg_file f p
      ≡ look_in outside filename base_name cfg_file g p
unfolding look_in
look_in-root outside filename base_name cfg_file f g p h = rw h refl

-- The search through the directories above a path gives the same with any number of rounds that is
-- greater than the length of the path, such as the one that `ProcessConfigOverrides` is given.
pub search_configs-enough :
    (outside : Outside) (filename path : Text) (m n : ℕ) (p : Progress)
    → length path < m
    → length path < n
    → search_configs m outside filename path p ≡ search_configs n outside filename path p
unfolding search_configs
search_configs-enough outside filename path zero n p h k = absurd (omega (arith, h))
search_configs-enough outside filename path (suc m) zero p h k = absurd (omega (arith, k))
search_configs-enough outside filename path (suc m) (suc n) p h k =
    let (above, base_name) = split_path path in
    let cfg_file = join_path above (text "CPPLINT.cfg") in
    elim (Bool-cases (is_empty base_name)) [
      | inl root ↦
          look_in-root outside filename base_name cfg_file (search_configs m outside filename above)
            (search_configs n outside filename above) p root
      | inr inner ↦
          (let shorter = length-split_path path inner in
            ap (λ onward. look_in outside filename base_name cfg_file onward p)
              (fun_ext (λ q.
                search_configs-enough outside filename above m n q (omega (arith, h, shorter))
                  (omega (arith, k, shorter)))))
    ]
