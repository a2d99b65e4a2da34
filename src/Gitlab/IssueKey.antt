-- ===== src/Gitlab/IssueKey.antt =====
-- internal/gitlab/issuekey.go, with the matching of `(?i)\b<project key>-(\d+)\b` that it asks of
-- package regexp. The cache of compiled patterns does not change what is matched.
pub mod Keys
pub mod Found
use glsync.Base.{
  is_digit, ℕ, zero, suc, ◌-◌, Text, text, List, [], ◌∷◌, ◌++◌, map, Bool, true, false, not, ◌&&◌,
  ◌||◌, Option, none, some, eqb, leb, length, contains, ◌≡◌, refl, ◌==◌, if◌then◌else◌,
}
use glsync.Json.{fold}

-- `\b` is a boundary between ASCII word characters and others.
unfoldable pub is_word : ℕ → Bool
unfolding is_digit
is_word c = is_digit c || (leb b'a' c && leb c b'z') || (leb b'A' c && leb c b'Z') || eqb c b'_'

unfoldable pub starts_word : Text → Bool
unfolding is_word
starts_word [] = false
starts_word (c ∷ s) = is_word c

abbrev pub differ : Bool → Bool → Bool
differ true b = not b
differ false b = b

-- The part of a text that matches a literal under `(?i)`, and the rest.
unfoldable pub match_fold : Text → Text → Option (Text × Text)
match_fold [] s = some ([], s)
match_fold (p ∷ ps) [] = none
match_fold (p ∷ ps) (c ∷ s) = elim (match_fold ps s) [
  | none ↦ none
  | some (m, rest) ↦ if eqb (fold p) (fold c) then some (c ∷ m, rest) else none
]

unfoldable pub digits_of : Text → Text
digits_of [] = []
digits_of (c ∷ s) = let rest = digits_of s in if is_digit c then c ∷ rest else []

unfoldable pub after_digits : Text → Text
after_digits [] = []
after_digits (c ∷ s) = let rest = after_digits s in if is_digit c then rest else c ∷ s

-- `-(\d+)\b`: with fewer digits no boundary follows, so that only the longest run can match.
match_number : Text → Option Text
match_number [] = none
match_number (c ∷ s) =
    let ds = digits_of s in
    if eqb c b'-' && not (ds == []) && not (starts_word (after_digits s))
    then some (c ∷ ds)
    else none

-- The match that begins at the front of the text, but for the boundary before it.
unfoldable pub match_key : Text → Text → Option Text
unfolding match_fold match_number
match_key project_key s = elim (match_fold project_key s) [
  | none ↦ none
  | some (m, rest) ↦ elim (match_number rest) [ none ↦ none | some n ↦ some (m ++ n) ]
]

abbrev guard : Bool → Option Text → Option Text
guard true m = m
guard false m = none

-- `FindAllString(text, -1)`: `skip` characters belong to the last match, and `prev` tells whether the
-- character before is a word character.
unfoldable pub find_all : Text → Bool → ℕ → Text → List Text
unfolding match_key
find_all project_key prev skip [] = []
find_all project_key prev (suc skip) (c ∷ s) = find_all project_key (is_word c) skip s
find_all project_key prev zero (c ∷ s) =
    elim (guard (differ prev (is_word c)) (match_key project_key (c ∷ s))) [
      | none ↦ find_all project_key (is_word c) zero s
      | some m ↦ m ∷ find_all project_key (is_word c) (length m - 1) s
    ]

-- `unicode.ToUpper` on what a match can hold: ASCII, the long s, and what is left as it is.
unfoldable pub to_upper : ℕ → ℕ
to_upper c = if leb b'a' c && leb c b'z' then c - 32 else if eqb c 0x17f then b'S' else c

-- The loop that keeps the first of equal keys; `seen` holds the keys of `result`.
unfoldable pub dedupe : List Text → List Text → List Text
unfolding contains
dedupe seen [] = []
dedupe seen (k ∷ ks) =
    let fresh = k ∷ dedupe (k ∷ seen) ks in
    let old = dedupe seen ks in if contains k seen then old else fresh

unfoldable pub issue_keys : Text → Text → List Text
unfolding dedupe find_all to_upper
issue_keys project_key s = dedupe [] (map (map to_upper) (find_all project_key false zero s))

abbrev or_next : List Text → List Text → List Text
or_next [] next = next
or_next (k ∷ ks) next = k ∷ ks

unfoldable pub issue_keys_from_branch_and_title : Text → Text → Text → List Text
issue_keys_from_branch_and_title project_key branch title =
    or_next (issue_keys project_key branch) (issue_keys project_key title)

-- `strings.Join(commitMessages, " ")`
unfoldable pub join : List Text → Text
join [] = []
join (m ∷ []) = m
join (m ∷ n ∷ ms) = m ++ (b' ' ∷ join (n ∷ ms))

from_commits : Text → List Text → List Text
unfolding join
from_commits project_key [] = []
from_commits project_key (m ∷ ms) = issue_keys project_key (join (m ∷ ms))

unfoldable pub issue_keys_from_event : Text → Text → Text → List Text → List Text
unfolding from_commits issue_keys
issue_keys_from_event project_key branch title messages =
    or_next (issue_keys project_key branch)
      (or_next (issue_keys project_key title) (from_commits project_key messages))
