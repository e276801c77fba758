-- ===== src/Tui/ConfigEdit/Diff.antt =====
-- `config_diff` of ferro-wg-tui-core/src/config_edit.rs. The code pairs lines by position; it
-- computes no longest common subsequence, and keeps every unchanged line.
use ferro_wg.Prelude.{
  Bool, List, [], ◌∷◌, map, ◌≡◌, refl, ap, arith, Text, ◌==◌, text_eq, text_beq_iff, if◌then◌else◌,
  all, true, false, ◌↔◌,
}
use ferro_wg.Text.Split.{lines}

pub data DiffLine : Type 0 where
  removed : Text → DiffLine
  added : Text → DiffLine
  context : Text → DiffLine

-- The three loops: both texts have a line left, then only the old, then only the new.
unfoldable pub diff_from : List Text → List Text → List DiffLine
diff_from [] news = map added news
diff_from (x ∷ olds) [] = map removed (x ∷ olds)
diff_from (x ∷ olds) (y ∷ news) =
    let rest = diff_from olds news in
    if x == y then context x ∷ rest else removed x ∷ added y ∷ rest

unfoldable pub config_diff : Text → Text → List DiffLine
config_diff old new = diff_from (lines old) (lines new)

-- The lines that a reader of the diff takes for the old text.
abbrev pub old_side : List DiffLine → List Text
old_side [] = []
old_side (removed s ∷ d) = s ∷ old_side d
old_side (added s ∷ d) = old_side d
old_side (context s ∷ d) = s ∷ old_side d

abbrev pub new_side : List DiffLine → List Text
new_side [] = []
new_side (removed s ∷ d) = new_side d
new_side (added s ∷ d) = s ∷ new_side d
new_side (context s ∷ d) = s ∷ new_side d

abbrev pub is_context : DiffLine → Bool
is_context (removed s) = false
is_context (added s) = false
is_context (context s) = true

old_side-added : (news : List Text) → old_side (map added news) ≡ []
old_side-added [] = refl
old_side-added (y ∷ news) = old_side-added news

new_side-added : (news : List Text) → new_side (map added news) ≡ news
new_side-added [] = refl
new_side-added (y ∷ news) = ap (◌∷◌ y) (new_side-added news)

old_side-removed : (olds : List Text) → old_side (map removed olds) ≡ olds
old_side-removed [] = refl
old_side-removed (x ∷ olds) = ap (◌∷◌ x) (old_side-removed olds)

new_side-removed : (olds : List Text) → new_side (map removed olds) ≡ []
new_side-removed [] = refl
new_side-removed (x ∷ olds) = new_side-removed olds

diff_from-sides :
    (olds news : List Text)
    → (old_side (diff_from olds news) ≡ olds) × (new_side (diff_from olds news) ≡ news)
unfolding diff_from
diff_from-sides [] news = (old_side-added news, new_side-added news)
diff_from-sides (x ∷ olds) [] = (old_side-removed (x ∷ olds), new_side-removed (x ∷ olds))
diff_from-sides (x ∷ olds) (y ∷ news) = ground (arith, diff_from-sides olds news, text_beq_iff x y)

diff_from_unchanged :
    (olds news : List Text) → all is_context (diff_from olds news) ≡ true → olds ≡ news
unfolding diff_from
diff_from_unchanged [] [] h = refl
diff_from_unchanged [] (y ∷ news) h = cc
diff_from_unchanged (x ∷ olds) [] h = cc
diff_from_unchanged (x ∷ olds) (y ∷ news) h =
    ground (arith, diff_from_unchanged olds news, text_beq_iff x y)

diff_from_self : (olds : List Text) → all is_context (diff_from olds olds) ≡ true
unfolding diff_from
diff_from_self [] = refl
diff_from_self (x ∷ olds) = ground (arith, diff_from_self olds, text_beq_iff x x)

-- A diff loses nothing: its removed and unchanged lines are the old text's lines, its added and
-- unchanged lines the new text's, in order. It has only unchanged lines exactly when the two texts
-- have the same lines.
pub config_diff-sides :
    (old new : Text)
    → (old_side (config_diff old new) ≡ lines old)
      × (new_side (config_diff old new) ≡ lines new)
      × ((all is_context (config_diff old new) ≡ true) ↔ (lines old ≡ lines new))
unfolding config_diff
config_diff-sides old new = (
  (diff_from-sides (lines old) (lines new)).0,
  (diff_from-sides (lines old) (lines new)).1,
  (diff_from_unchanged (lines old) (lines new), λ e. rw e (diff_from_self (lines new))),
)
