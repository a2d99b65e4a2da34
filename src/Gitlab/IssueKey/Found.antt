-- ===== src/Gitlab/IssueKey/Found.antt =====
-- The keys of a text and of an event against the occurrences of the pattern of
-- internal/gitlab/issuekey.go.
use glsync.Base.{
  is_digit, ℕ, zero, Text, List, [], ◌∷◌, ◌++◌, map, Bool, true, false, some, contains, ◌≡◌, ◌≢◌,
  ◌↔◌, refl, ap, sym, ◌∙◌, ==_iff, arith, IsUnique, All, All-mono, All-map, Bool-cases, inl, inr,
}
use glsync.Json.{fold}
use glsync.Gitlab.IssueKey.{
  is_word, starts_word, differ, match_fold, digits_of, after_digits, match_number, match_key,
  find_all, to_upper, dedupe, issue_keys, or_next, join, from_commits, issue_keys_from_event,
}
use glsync.Gitlab.IssueKey.Keys.{
  IsKey, IsFound, last_word, find_all-IsMatch, dedupe-IsUnique, append_assoc,
}

match_fold-append :
    (p m rest : Text) → map fold m ≡ map fold p → match_fold p (m ++ rest) ≡ some (m, rest)
unfolding match_fold
match_fold-append [] [] rest h = refl
match_fold-append [] (d ∷ m) rest h = cc
match_fold-append (c ∷ p) [] rest h = cc
match_fold-append (c ∷ p) (d ∷ m) rest h = ground (arith, match_fold-append p m rest)

digits_of-append :
    (ds after : Text)
    → All (λ c. is_digit c ≡ true) ds
    → starts_word after ≡ false
    → (digits_of (ds ++ after) ≡ ds) × (after_digits (ds ++ after) ≡ after)
unfolding digits_of after_digits starts_word is_word
digits_of-append [] [] h e = (refl, refl)
digits_of-append [] (c ∷ s) h e = ground arith
digits_of-append (d ∷ ds) after (h, hs) e = ground (arith, digits_of-append ds after hs e)

match_number-append :
    (ds after : Text)
    → ds ≢ []
    → All (λ c. is_digit c ≡ true) ds
    → starts_word after ≡ false
    → match_number (b'-' ∷ (ds ++ after)) ≡ some (b'-' ∷ ds)
unfolding match_number
match_number-append ds after some_digit h e =
    let (same, rest) = digits_of-append ds after h e in ground (arith, ==_iff ds [])

match_key-append :
    (project_key m after : Text)
    → IsKey project_key m
    → starts_word after ≡ false
    → match_key project_key (m ++ after) ≡ some m
unfolding match_key
match_key-append project_key m after k e =
    let split : m ++ after ≡ k.prefix ++ (b'-' ∷ (k.number ++ after)) =
      ap (λ t. t ++ after) k.parts ∙ append_assoc k.prefix (b'-' ∷ k.number) after in
    let fold_eq = match_fold-append project_key k.prefix (b'-' ∷ (k.number ++ after)) k.folded in
    let number_eq = match_number-append k.number after k.some_digit k.digits e in
    rw split (ground (arith, fold_eq, number_eq, sym k.parts))

dedupe-All {κ} : (P : Text → Type κ) (seen ks : List Text) → All P ks → All P (dedupe seen ks)
unfolding dedupe
dedupe-All P seen [] h = tt
dedupe-All P seen (k ∷ ks) (p, h) = elim (Bool-cases (contains k seen)) [
  | inl old ↦ rw old (dedupe-All P seen ks h)
  | inr new ↦ rw new (p, dedupe-All P (k ∷ seen) ks h)
]

dash_append : (p n after : Text) → (p ++ (b'-' ∷ n)) ++ after ≢ []
dash_append [] n after = λ e. cc
dash_append (c ∷ p) n after = λ e. cc

IsKey-append : {project_key m : Text} → IsKey project_key m → (after : Text) → m ++ after ≢ []
IsKey-append k after = rw k.parts (dash_append k.prefix k.number after)

find_all_hit :
    (project_key : Text) (prev : Bool) (s : Text) {m : Text}
    → s ≢ []
    → differ prev (starts_word s) ≡ true
    → match_key project_key s ≡ some m
    → find_all project_key prev zero s ≢ []
unfolding find_all starts_word
find_all_hit project_key prev [] some_char boundary h = λ e. some_char refl
find_all_hit project_key prev (c ∷ s) some_char boundary h = ground arith

find_all_next :
    (project_key : Text) (prev : Bool) (c : ℕ) (s : Text)
    → find_all project_key (is_word c) zero s ≢ []
    → find_all project_key prev zero (c ∷ s) ≢ []
unfolding find_all
find_all_next project_key prev c s h = ground arith

find_all_finds :
    (project_key : Text) (prev : Bool) (before m after : Text)
    → IsKey project_key m
    → differ (last_word prev before) (starts_word (m ++ after)) ≡ true
    → starts_word after ≡ false
    → find_all project_key prev zero (before ++ (m ++ after)) ≢ []
find_all_finds project_key prev [] m after k boundary ends =
    find_all_hit project_key prev (m ++ after) (IsKey-append k after) boundary
      (match_key-append project_key m after k ends)
find_all_finds project_key prev (c ∷ before) m after k boundary ends =
    find_all_next project_key prev c _
      (find_all_finds project_key (is_word c) before m after k boundary ends)

-- The text of a key, as the program writes it, that stands somewhere in `s`.
pub record IsFoundKey (project_key s k : Text) : Type 0 where
  pub written : Text
  pub upper : k ≡ map to_upper written
  pub matches : IsKey project_key written
  pub found : IsFound false s written

none_of {κ} : {P : Text → Type κ} (ks : List Text) → All P ks → ((k : Text) → ¬ P k) → ks ≡ []
none_of [] h nothing = refl
none_of (k ∷ ks) (p, h) nothing = absurd (nothing k p)

dedupe-nil : (ms : List Text) → dedupe [] (map (map to_upper) ms) ≡ [] → ms ≡ []
unfolding dedupe contains
dedupe-nil [] h = refl
dedupe-nil (m ∷ ms) h = cc

-- A list of different keys: all have the property, and there are some if any text has it.
abbrev pub IsKeysOf : (Text → Type 0) → List Text → Type 0
IsKeysOf P ks = IsUnique ks × All P ks × ((ks ≡ []) ↔ ((k : Text) → ¬ P k))

abbrev pub IsNowhere : (Text → Type 0) → Type 0
IsNowhere P = (k : Text) → ¬ P k

-- The keys of the first of three texts that has any.
pub data IsFirst (P Q R : Text → Type 0) (ks : List Text) : Type 0 where
  in_first : ks ≢ [] → IsKeysOf P ks → IsFirst P Q R ks
  in_second : IsNowhere P → ks ≢ [] → IsKeysOf Q ks → IsFirst P Q R ks
  in_third : IsNowhere P → IsNowhere Q → IsKeysOf R ks → IsFirst P Q R ks

or_next-IsFirst :
    {P Q R : Text → Type 0} (xs ys zs : List Text)
    → IsKeysOf P xs
    → IsKeysOf Q ys
    → IsKeysOf R zs
    → IsFirst P Q R (or_next xs (or_next ys zs))
or_next-IsFirst (x ∷ xs) ys zs p q r = in_first (λ e. cc) p
or_next-IsFirst [] (y ∷ ys) zs (_, _, (no_p, _)) q r = in_second (no_p refl) (λ e. cc) q
or_next-IsFirst [] [] zs (_, _, (no_p, _)) (_, _, (no_q, _)) r = in_third (no_p refl) (no_q refl) r

module _ (project_key : Text) where
  keys_found : (s : Text) → All (IsFoundKey project_key s) (issue_keys project_key s)
  unfolding issue_keys
  keys_found s = dedupe-All _ [] _ (
      All-map _ (map to_upper) _ (
        All-mono (λ m (k, f). record { written = m; upper = refl; matches = k; found = f }) _
          (find_all-IsMatch project_key false zero s)))

  no_keys_found :
      (s : Text) → issue_keys project_key s ≡ [] → (k : Text) → ¬ IsFoundKey project_key s k
  unfolding issue_keys
  no_keys_found s h k f =
      find_all_finds project_key false f.found.before f.written f.found.after f.matches
        f.found.boundary_before f.found.boundary_after (rw (sym f.found.parts) (dedupe-nil _ h))

  -- The keys of a text are different from each other, and each is, in upper case, an occurrence in the
  -- text of the project key in any letter case, a dash and a number, with a word boundary on both
  -- sides. There are none only if nothing of this form occurs.
  pub issue_keys-IsKeysOf :
      (s : Text) → IsKeysOf (IsFoundKey project_key s) (issue_keys project_key s)
  unfolding issue_keys
  issue_keys-IsKeysOf s =
      (dedupe-IsUnique [] _, keys_found s, (no_keys_found s, none_of _ (keys_found s)))

  from_commits-join :
      (ms : List Text) → from_commits project_key ms ≡ issue_keys project_key (join ms)
  unfolding from_commits issue_keys join find_all dedupe
  from_commits-join [] = refl
  from_commits-join (m ∷ ms) = refl

  -- The keys of an event are those of its source branch, if any occurs there; otherwise those of the
  -- title, if any occurs there; otherwise those of the commit messages joined by spaces. They are
  -- different from each other, and there are none only if none occurs in any of the three.
  pub issue_keys_from_event-IsFirst :
      (branch title : Text) (messages : List Text)
      → IsFirst
          (IsFoundKey project_key branch)
          (IsFoundKey project_key title)
          (IsFoundKey project_key (join messages))
          (issue_keys_from_event project_key branch title messages)
  unfolding issue_keys_from_event
  issue_keys_from_event-IsFirst branch title messages =
      or_next-IsFirst _ _ _ (issue_keys-IsKeysOf branch) (issue_keys-IsKeysOf title)
        (rw (from_commits-join messages) (issue_keys-IsKeysOf (join messages)))
