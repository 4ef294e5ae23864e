-- ===== src/Messages.antt =====
-- The mark on the messages that the program writes itself (src/lanes/messages.ts). The prefix comes
-- from the environment.
pub mod Laws
use openronin.Common.{
  ℕ, Bool, true, false, ◌&&◌, ◌||◌, not, List, [], ◌∷◌, ◌++◌, ◌==◌, leb, Text, codes, if◌then◌else◌,
}

-- what `trimStart` removes
abbrev pub is_space : ℕ → Bool
is_space c =
    (leb 9 c && leb c 13)
    || (c == 32
        || (c == 160
            || (c == 5760
                || ((leb 8192 c && leb c 8202)
                    || (c == 8232
                        || (c == 8233
                            || (c == 8239 || (c == 8287 || (c == 12288 || c == 65279)))))))))

unfoldable pub trim_start : Text → Text
trim_start [] = []
trim_start (c ∷ cs) = let rest = trim_start cs in if is_space c then rest else c ∷ cs

unfoldable pub starts_with : Text → Text → Bool
starts_with text [] = true
starts_with [] (p ∷ ps) = false
starts_with (c ∷ cs) (p ∷ ps) = c == p && starts_with cs ps

unfoldable pub includes : Text → Text → Bool
includes [] part = starts_with [] part
includes (c ∷ cs) part = starts_with (c ∷ cs) part || includes cs part

abbrev pub marker : Text
marker = codes "<!-- openronin:bot -->"

module _ (bot_prefix : Text) where
  unfoldable pub is_bot_message : Text → Bool
  is_bot_message text = starts_with (trim_start text) bot_prefix || includes text marker

  unfoldable pub with_prefix : Text → Text
  with_prefix text = if starts_with text bot_prefix then text else bot_prefix ++ 32 ∷ text
