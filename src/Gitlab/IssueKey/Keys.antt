-- ===== src/Gitlab/IssueKey/Keys.antt =====
-- Occurrences of the pattern of internal/gitlab/issuekey.go, and what `find_all` and `dedupe` return.
use glsync.Base.{
  is_digit, ℕ, zero, suc, ◌-◌, Text, List, [], ◌∷◌, ◌++◌, map, Bool, true, false, not, ◌&&◌, Option,
  some, length, contains, ◌≡◌, ◌≢◌, refl, ap, sym, ◌∙◌, ==_iff, arith, IsUnique, All, All-mono,
  Bool-cases, Option-cases, inl, inr,
}
use glsync.Json.{fold}
use glsync.Gitlab.IssueKey.{
  is_word, starts_word, differ, match_fold, digits_of, after_digits, match_number, match_key, guard,
  find_all, dedupe,
}

pub contains-dedupe :
    (k : Text) (seen ks : List Text)
    → contains k (dedupe seen ks) ≡ (contains k ks && not (contains k seen))
unfolding dedupe contains
contains-dedupe k seen [] = refl
contains-dedupe k seen (j ∷ ks) =
    ground (arith, ==_iff k j, contains-dedupe k (j ∷ seen) ks, contains-dedupe k seen ks)

pub dedupe-IsUnique : (seen ks : List Text) → IsUnique (dedupe seen ks)
unfolding dedupe contains
dedupe-IsUnique seen [] = tt
dedupe-IsUnique seen (j ∷ ks) = elim (Bool-cases (contains j seen)) [
  | inl old ↦ rw old (dedupe-IsUnique seen ks)
  | inr new ↦
      rw new
        (ground (arith, contains-dedupe j (j ∷ seen) ks, ==_iff j j), dedupe-IsUnique (j ∷ seen) ks)
]

-- A text that `<project key>-\d+` matches, letters of either case.
pub record IsKey (project_key m : Text) : Type 0 where
  pub prefix : Text
  pub number : Text
  pub parts : m ≡ prefix ++ (b'-' ∷ number)
  pub folded : map fold prefix ≡ map fold project_key
  pub digits : All (λ c. is_digit c ≡ true) number
  pub some_digit : number ≢ []

abbrev pub last_word : Bool → Text → Bool
last_word prev [] = prev
last_word prev (c ∷ s) = last_word (is_word c) s

-- An occurrence of `m` in a text with a word boundary before and after it; `prev` tells whether a
-- word character stands before the text.
pub record IsFound (prev : Bool) (s m : Text) : Type 0 where
  pub before : Text
  pub after : Text
  pub parts : s ≡ before ++ (m ++ after)
  pub boundary_before : differ (last_word prev before) (starts_word (m ++ after)) ≡ true
  pub boundary_after : starts_word after ≡ false

match_fold_lem :
    (p s : Text) {m rest : Text}
    → match_fold p s ≡ some (m, rest)
    → (s ≡ m ++ rest) × (map fold m ≡ map fold p)
unfolding match_fold
match_fold_lem [] s h = ground arith
match_fold_lem (c ∷ p) [] h = cc
match_fold_lem (c ∷ p) (d ∷ s) {m} {rest} h = elim (Option-cases (match_fold p s)) [
  | inl e ↦ cc
  | inr ((m', r'), e) ↦ let (same, folded) = match_fold_lem p s e in ground (arith)
]

digits_of-after_digits : (s : Text) → digits_of s ++ after_digits s ≡ s
unfolding digits_of after_digits
digits_of-after_digits [] = refl
digits_of-after_digits (c ∷ s) = elim (Bool-cases (is_digit c)) [
  | inl e ↦ rw e (ap (λ t. c ∷ t) (digits_of-after_digits s))
  | inr e ↦ rw e refl
]

digits_of-digits : (s : Text) → All (λ c. is_digit c ≡ true) (digits_of s)
unfolding digits_of
digits_of-digits [] = tt
digits_of-digits (c ∷ s) = elim (Bool-cases (is_digit c)) [
  | inl e ↦ rw e (e, digits_of-digits s)
  | inr e ↦ rw e tt
]

match_number_lem :
    (s : Text) {n : Text}
    → match_number s ≡ some n
    → (ds : Text) × (after : Text) × (s ≡ n ++ after)
      × (n ≡ b'-' ∷ ds)
      × (ds ≢ [])
      × All (λ c. is_digit c ≡ true) ds
      × (starts_word after ≡ false)
unfolding match_number
match_number_lem [] h = cc
match_number_lem (c ∷ s) h = (
  digits_of s,
  after_digits s,
  ground (arith, digits_of-after_digits s),
  ground arith,
  ground (arith, ==_iff (digits_of s) []),
  digits_of-digits s,
  ground arith,
)

pub append_assoc : (a b c : Text) → (a ++ b) ++ c ≡ a ++ (b ++ c)
append_assoc [] b c = refl
append_assoc (x ∷ a) b c = ap (λ t. x ∷ t) (append_assoc a b c)

match_key_lem :
    (project_key s : Text) {m : Text}
    → match_key project_key s ≡ some m
    → (after : Text) × (s ≡ m ++ after) × (starts_word after ≡ false) × IsKey project_key m
unfolding match_key
match_key_lem project_key s {m} h = elim (Option-cases (match_fold project_key s)) [
  | inl e ↦ cc
  | inr ((p, rest), e) ↦ elim (Option-cases (match_number rest)) [
    | inl f ↦ ground arith
    | inr (n, f) ↦
        let (whole, folded) = match_fold_lem project_key s e in
        let (ds, after, tail, dash, some_digit, digits, ends) = match_number_lem rest f in
        let joined : m ≡ p ++ n = ground arith in
        (
          after,
          whole
              ∙ ap (λ t. p ++ t) tail
              ∙ sym (append_assoc p n after)
              ∙ ap (λ t. t ++ after) (sym joined),
          ends,
          record {
            prefix = p;
            number = ds;
            parts = joined ∙ ap (λ t. p ++ t) dash;
            folded = folded;
            digits = digits;
            some_digit = some_digit;
          },
        )
  ]
]

later : (prev : Bool) (c : ℕ) (s m : Text) → IsFound (is_word c) s m → IsFound prev (c ∷ s) m
later prev c s m f = record {
  before = c ∷ f.before;
  after = f.after;
  parts = ap (λ t. c ∷ t) f.parts;
  boundary_before = f.boundary_before;
  boundary_after = f.boundary_after;
}

abbrev pub IsMatch : Text → Bool → Text → Text → Type 0
IsMatch project_key prev s m = IsKey project_key m × IsFound prev s m

guard_lem : (b : Bool) (o : Option Text) {m : Text} → guard b o ≡ some m → (b ≡ true) × (o ≡ some m)
guard_lem true o h = (refl, h)
guard_lem false o h = cc

pub find_all-IsMatch :
    (project_key : Text) (prev : Bool) (skip : ℕ) (s : Text)
    → All (IsMatch project_key prev s) (find_all project_key prev skip s)
unfolding find_all starts_word is_word
find_all-IsMatch project_key prev skip [] = tt
find_all-IsMatch project_key prev (suc skip) (c ∷ s) =
    All-mono (λ m (k, f). (k, later prev c s m f)) _
      (find_all-IsMatch project_key (is_word c) skip s)
find_all-IsMatch project_key prev zero (c ∷ s) =
    elim (Option-cases (guard (differ prev (is_word c)) (match_key project_key (c ∷ s)))) [
      | inl e ↦
          rw (e, All, find_all)
            (All-mono (λ m (k, f). (k, later prev c s m f)) _
              (find_all-IsMatch project_key (is_word c) zero s))
      | inr (m, e) ↦
          let (boundary, found) =
            guard_lem (differ prev (is_word c)) (match_key project_key (c ∷ s)) e in
          let (after, parts, ends, key) = match_key_lem project_key (c ∷ s) found in
          rw (e, All, find_all)
            (
              (
                key,
                record {
                  before = [];
                  after = after;
                  parts = parts;
                  boundary_before = rw (sym parts) boundary;
                  boundary_after = ends;
                },
              ),
              All-mono (λ m (k, f). (k, later prev c s m f)) _
                  (find_all-IsMatch project_key (is_word c) (length m - 1) s),
            )
    ]
