-- ===== src/Json.antt =====
-- encoding/json as the program uses it: documents, and the rules by which `Unmarshal` fills a field.
-- The scanner that reads a document from bytes is not modelled: a payload is malformed or a document.
use glsync.Base.{
  List, Float64, ℕ, ℤ, pos, negsuc, ltb, ◌^◌, Text, [], ◌∷◌, Bool, true, false, ◌&&◌, leb, eqb, ◌+◌,
  if◌then◌else◌,
}

mutual
  -- `int` is a number with no fraction, `real` any other.
  pub data Json : Type 0 where
    null : Json
    bool : Bool → Json
    int : ℤ → Json
    real : Float64 → Json
    str : Text → Json
    arr : Items → Json
    obj : Fields → Json

  pub data Items : Type 0 where
    nil : Items
    cons : Json → Items → Items

  pub data Fields : Type 0 where
    end : Fields
    field : Text → Json → Fields → Fields

pub data Payload : Type 0 where
  malformed : Payload
  document : Json → Payload

-- `Unmarshal` reports a syntax error, or a value that does not fit the field's Go type.
pub data JsonError : Type 0 where
  syntax mismatch : JsonError

pub data Decoded {ℓ} (A : Type ℓ) : Type ℓ where
  ok : A → Decoded A
  err : JsonError → Decoded A

infixl 5 ◌>>=◌
abbrev pub ◌>>=◌ {ℓ κ} : {A : Type ℓ} {B : Type κ} → Decoded A → (A → Decoded B) → Decoded B
ok a >>= f = f a
err e >>= f = err e

-- The simple fold of one code point, onto lower case: ASCII, with the long s and the Kelvin sign,
-- which are the two other code points that fold onto ASCII letters.
unfoldable pub fold : ℕ → ℕ
fold c =
    if leb b'A' c && leb c b'Z'
    then c + 32
    else if eqb c 0x17f
    then b's'
    else if eqb c 0x212a
    then b'k'
    else c

-- `strings.EqualFold`, by which a key of a document finds its field
unfoldable pub equal_fold : Text → Text → Bool
unfolding fold
equal_fold [] [] = true
equal_fold [] (d ∷ t) = false
equal_fold (c ∷ s) [] = false
equal_fold (c ∷ s) (d ∷ t) = eqb (fold c) (fold d) && equal_fold s t

-- A null leaves the field as it is.
unfoldable pub to_string : Text → Json → Decoded Text
to_string old null = ok old
to_string old (str s) = ok s
to_string old _ = err mismatch

abbrev fits_int64 : ℤ → Bool
fits_int64 (pos n) = ltb n (2 ^ 63)
fits_int64 (negsuc n) = ltb n (2 ^ 63)

-- A number that an `int` of 64 bits cannot hold is an UnmarshalTypeError.
unfoldable pub to_int : ℤ → Json → Decoded ℤ
to_int old null = ok old
to_int old (int i) = if fits_int64 i then ok i else err mismatch
to_int old _ = err mismatch

unfoldable pub to_bool : Bool → Json → Decoded Bool
to_bool old null = ok old
to_bool old (bool b) = ok b
to_bool old _ = err mismatch

-- A struct is filled by a pass over the document's fields in order: `set` stores one of them.
unfoldable pub fill {ℓ} : {S : Type ℓ} → (S → Text → Json → Decoded S) → S → Fields → Decoded S
fill set s end = ok s
fill set s (field k v fs) = elim (set s k v) [ ok s' ↦ fill set s' fs | err e ↦ err e ]

unfoldable pub to_struct {ℓ} : {S : Type ℓ} → (S → Text → Json → Decoded S) → S → Json → Decoded S
unfolding fill
to_struct set s null = ok s
to_struct set s (obj fs) = fill set s fs
to_struct set s _ = err mismatch

unfoldable pub unmarshal {ℓ} :
    {S : Type ℓ} → (S → Text → Json → Decoded S) → S → Payload → Decoded S
unfolding to_struct
unmarshal set zero_value malformed = err syntax
unmarshal set zero_value (document v) = to_struct set zero_value v

slice_of {ℓ} : {A : Type ℓ} → (Json → Decoded A) → Items → Decoded (List A)
slice_of read nil = ok []
slice_of read (cons v vs) = elim (read v) [
  | err e ↦ err e
  | ok x ↦ elim (slice_of read vs) [ ok xs ↦ ok (x ∷ xs) | err e ↦ err e ]
]

-- A null makes a slice nil.
unfoldable pub to_slice {ℓ} : {A : Type ℓ} → (Json → Decoded A) → Json → Decoded (List A)
unfolding slice_of
to_slice read null = ok []
to_slice read (arr vs) = slice_of read vs
to_slice read _ = err mismatch
