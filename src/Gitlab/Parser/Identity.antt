-- ===== src/Gitlab/Parser/Identity.antt =====
-- The idempotency keys of internal/gitlab/parser.go, and the events that they stand for.
use glsync.Base.{
  ℕ, suc, ℤ, pos, negsuc, Text, [], ◌∷◌, ◌++◌, ◌≡◌, ◌≢◌, refl, sym, ap, arith, All, All-mono,
  print_int, decimal, digits_value, IsDigits, decimal-IsDigits, digits_value-decimal, digit-ne,
}
use glsync.Gitlab.Parser.{push_key, mr_key, emoji_key}

-- What a key is made of, for each kind of event.
pub data Source : Type 0 where
  push_source : (project_id : ℤ) (branch before : Text) → Source
  mr_source : (project_id iid : ℤ) (action : Text) → Source
  emoji_source : (project_id : ℤ) (name : Text) (id : ℤ) → Source

abbrev pub key : Source → Text
key (push_source p branch before) = push_key p branch before
key (mr_source p iid action) = mr_key p iid action
key (emoji_source p name id) = emoji_key p name id

-- No colon, as in the name of a branch or of an emoji.
abbrev pub IsPlain : Text → Type 0
IsPlain = All (λ c. c ≢ b':')

abbrev pub IsPlainSource : Source → Type 0
IsPlainSource (push_source p branch before) = IsPlain branch
IsPlainSource (mr_source p iid action) = Unit
IsPlainSource (emoji_source p name id) = IsPlain name

-- Two texts that are the same up to the first colon, and after it.
cut :
    (a b s t : Text) → IsPlain a → IsPlain b → a ++ (b':' ∷ s) ≡ b ++ (b':' ∷ t) → (a ≡ b) × (s ≡ t)
cut [] [] s t pa pb h = (refl, cc)
cut [] (d ∷ b) s t pa (pd, pb) h = absurd (pd (cc))
cut (c ∷ a) [] s t (pc, pa) pb h = absurd (pc (cc))
cut (c ∷ a) (d ∷ b) s t (pc, pa) (pd, pb) h =
    let (same, rest) = cut a b s t pa pb (cc) in (cc, rest)

decimal-IsPlain : (n : ℕ) → IsPlain (decimal n)
decimal-IsPlain n = All-mono (λ c e. (digit-ne c e).2) (decimal n) (decimal-IsDigits n)

print_int-IsPlain : (i : ℤ) → IsPlain (print_int i)
unfolding print_int
print_int-IsPlain (pos n) = decimal-IsPlain n
print_int-IsPlain (negsuc n) = (λ e. omega (arith, e), decimal-IsPlain (suc n))

decimal-injective : (n m : ℕ) → decimal n ≡ decimal m → n ≡ m
decimal-injective n m h = cc (digits_value-decimal n, digits_value-decimal m, ap (digits_value 0) h)

-- The first character of a decimal is a digit.
minus-ne-decimal : (s t : Text) → IsDigits t → b'-' ∷ s ≢ t
minus-ne-decimal s [] h = λ e. cc
minus-ne-decimal s (c ∷ t) (h, hs) = λ e. (digit-ne c h).0 (cc)

print_int-injective : (i j : ℤ) → print_int i ≡ print_int j → i ≡ j
unfolding print_int
print_int-injective (pos n) (pos m) h = ap pos (decimal-injective n m h)
print_int-injective (pos n) (negsuc m) h =
    absurd (minus-ne-decimal _ (decimal n) (decimal-IsDigits n) (sym h))
print_int-injective (negsuc n) (pos m) h =
    absurd (minus-ne-decimal _ (decimal m) (decimal-IsDigits m) h)
print_int-injective (negsuc n) (negsuc m) h =
    let same : suc n ≡ suc m = decimal-injective (suc n) (suc m) (cc) in
    ap negsuc (omega (arith, same))

-- A number, a colon and the rest are read off again.
cut_int :
    (i j : ℤ) (s t : Text)
    → print_int i ++ (b':' ∷ s) ≡ print_int j ++ (b':' ∷ t)
    → (i ≡ j) × (s ≡ t)
cut_int i j s t h =
    let (same, rest) =
      cut (print_int i) (print_int j) s t (print_int-IsPlain i) (print_int-IsPlain j) h in
    (print_int-injective i j same, rest)

heads-ne : {c d : ℕ} {s t : Text} → c ≢ d → c ∷ s ≢ d ∷ t
heads-ne apart h = apart (cc)

-- Two events have the same idempotency key only if they are of the same kind, with the same project
-- and the same branch and "before", merge request and action, or emoji name and award, where no branch
-- and no emoji name has a colon.
pub key-injective : (s t : Source) → IsPlainSource s → IsPlainSource t → key s ≡ key t → s ≡ t
unfolding push_key mr_key emoji_key
key-injective (push_source p b x) (push_source q c y) hb hc h =
    let (same, rest) = cut_int p q (b ++ (b':' ∷ x)) (c ++ (b':' ∷ y)) (cc) in
    let (branch, before) = cut b c x y hb hc rest in cc
key-injective (mr_source p i a) (mr_source q j b) _ _ h =
    let (same, rest) = cut_int p q (print_int i ++ (b':' ∷ a)) (print_int j ++ (b':' ∷ b)) (cc) in
    let (iid, action) = cut_int i j a b rest in cc
key-injective (emoji_source p n i) (emoji_source q m j) hn hm h =
    let (same, rest) = cut_int p q (n ++ (b':' ∷ print_int i)) (m ++ (b':' ∷ print_int j)) (cc) in
    let (name, id) = cut n m (print_int i) (print_int j) hn hm rest in
    let award = print_int-injective i j id in cc
key-injective (push_source p b x) (mr_source q j a) _ _ h =
    absurd (heads-ne (λ e. omega (arith, e)) h)
key-injective (push_source p b x) (emoji_source q n j) _ _ h =
    absurd (heads-ne (λ e. omega (arith, e)) h)
key-injective (mr_source p i a) (push_source q c y) _ _ h =
    absurd (heads-ne (λ e. omega (arith, e)) h)
key-injective (mr_source p i a) (emoji_source q n j) _ _ h =
    absurd (heads-ne (λ e. omega (arith, e)) h)
key-injective (emoji_source p n i) (push_source q c y) _ _ h =
    absurd (heads-ne (λ e. omega (arith, e)) h)
key-injective (emoji_source p n i) (mr_source q j a) _ _ h =
    absurd (heads-ne (λ e. omega (arith, e)) h)
