-- ===== src/Golang/Json.antt =====
-- encoding/json: values, the interface between text and values, and how a value is stored into a
-- field of a struct. A json.RawMessage is the value that it spells.
use incus_spire_attestor.Prelude.{
  ℕ, ◌+◌, ◌-◌, ◌*◌, ◌^◌, ◌≡◌, Bool, true, false, ◌&&◌, Option, none, some, List, [], ◌∷◌, Bytes,
  leb, ◌==◌, if◌then◌else◌, same, is_empty, all,
}
use incus_spire_attestor.Golang.Utf8.{valid}
use incus_spire_attestor.Errors.{Result, ok, err, json, wrong_type}

-- A number is its literal; a string is what its literal stands for; members keep their order.
mutual
  pub data Json : Type 0 where
    null : Json
    bool : Bool → Json
    number : Bytes → Json
    string : Bytes → Json
    array : Items → Json
    object : Members → Json

  pub data Items : Type 0 where
    nil : Items
    cons : Json → Items → Items

  pub data Members : Type 0 where
    end : Members
    member : Bytes → Json → Members → Members

abbrev pub items : Items → List Json
items nil = []
items (cons v vs) = v ∷ items vs

-- Text to values and back: `parse` reads one value and the white space round it, and `print` is the
-- compact text of Marshal.
pub record Codec : Type 0 where
  pub print : Json → Bytes
  pub parse : Bytes → Result Json

-- How encoding/json folds a name: ASCII letters in upper case; U+017F and U+212A, whose simple
-- folds are S and K, are the only other characters that meet an ASCII letter.
unfoldable pub fold_name : Bytes → Bytes
fold_name [] = []
fold_name (c ∷ []) = (if leb b'a' c && leb c b'z' then c - 32 else c) ∷ []
fold_name (c ∷ d ∷ []) = elim (c == 0xC5 && d == 0xBF) [
  | true ↦ b'S' ∷ []
  | false ↦ (if leb b'a' c && leb c b'z' then c - 32 else c) ∷ fold_name (d ∷ [])
]
fold_name (c ∷ d ∷ e ∷ s) = elim (c == 0xC5 && d == 0xBF) [
  | true ↦ b'S' ∷ fold_name (e ∷ s)
  | false ↦ elim (c == 0xE2 && d == 0x84 && e == 0xAA) [
    | true ↦ b'K' ∷ fold_name s
    | false ↦ (if leb b'a' c && leb c b'z' then c - 32 else c) ∷ fold_name (d ∷ e ∷ s)
  ]
]

-- Whether a member is stored into the field of this name.
unfoldable pub is_field : Bytes → Bytes → Bool
is_field name key = same (fold_name name) (fold_name key)

-- A literal without fraction and exponent, as strconv.ParseInt reads it into an int of 64 bits;
-- the sign is the flag. Leading zeros are excluded by the grammar of JSON.
pub record GoInt : Type 0 where
  pub negative : Bool
  pub magnitude : ℕ

decimal : ℕ → Bytes → Option ℕ
decimal n [] = some n
decimal n (c ∷ s) =
    let rest = decimal (n * 10 + (c - b'0')) s in if leb b'0' c && leb c b'9' then rest else none

in_range : Bool → Option ℕ → Option GoInt
in_range sign none = none
in_range sign (some n) =
    if leb n (if sign then 2 ^ 63 else 2 ^ 63 - 1)
    then some (record { negative = sign; magnitude = n })
    else none

unfoldable pub parse_int : Bytes → Option GoInt
unfolding decimal in_range
parse_int [] = none
parse_int (c ∷ s) =
    if c == b'-' then in_range true (decimal 0 s) else in_range false (decimal 0 (c ∷ s))

int_or : Option GoInt → Result (Option GoInt)
int_or none = err (json wrong_type)
int_or (some n) = ok (some n)

-- Into a field of type *int; `null` leaves nil.
unfoldable pub store_int : Json → Result (Option GoInt)
unfolding int_or
store_int null = ok none
store_int (number literal) = int_or (parse_int literal)
store_int _ = err (json wrong_type)

-- Into a field of type *string.
unfoldable pub store_string_pointer : Json → Result (Option Bytes)
store_string_pointer null = ok none
store_string_pointer (string s) = ok (some s)
store_string_pointer _ = err (json wrong_type)

-- Into a field of type string, which holds `old`; `null` changes nothing.
unfoldable pub store_string : Bytes → Json → Result Bytes
store_string old null = ok old
store_string old (string s) = ok s
store_string old _ = err (json wrong_type)

-- Into a []json.RawMessage.
unfoldable pub store_list : Json → Result (List Json)
store_list null = ok []
store_list (array vs) = ok (items vs)
store_list _ = err (json wrong_type)

-- Into a struct: each member in turn goes to `store`, which finds the field; `null` changes nothing.
unfoldable pub store_members {ℓ} :
    {S : Type ℓ} → (Bytes → Json → S → Result S) → S → Members → Result S
store_members store s end = ok s
store_members store s (member key v ms) = elim (store key v s) [
  | ok s' ↦ store_members store s' ms
  | err e ↦ err e
]

unfoldable pub store_struct {ℓ} : {S : Type ℓ} → (Bytes → Json → S → Result S) → S → Json → Result S
store_struct store s null = ok s
store_struct store s (object ms) = store_members store s ms
store_struct store s _ = err (json wrong_type)

-- A literal of a natural number, with no leading zero.
unfoldable pub is_natural_literal : Bytes → Bool
is_natural_literal [] = false
is_natural_literal (c ∷ s) =
    if c == b'0'
    then is_empty s
    else (leb b'1' c && leb c b'9') && all (λ d. leb b'0' d && leb d b'9') s

-- Whether Marshal writes this value without replacing anything: strings and names are valid UTF-8.
unfoldable mutual
  pub is_printable : Json → Bool
  is_printable null = true
  is_printable (bool _) = true
  is_printable (number literal) = is_natural_literal literal
  is_printable (string s) = valid s
  is_printable (array vs) = is_printable_array vs
  is_printable (object ms) = is_printable_object ms

  pub is_printable_array : Items → Bool
  is_printable_array nil = true
  is_printable_array (cons v vs) = is_printable v && is_printable_array vs

  pub is_printable_object : Members → Bool
  is_printable_object end = true
  is_printable_object (member key v ms) = valid key && (is_printable v && is_printable_object ms)

-- What the wire format relies on of encoding/json: Marshal writes UTF-8, and what it writes is read
-- back as the same value.
pub record CodecLaws (codec : Codec) : Type 0 where
  pub parse-print : (v : Json) → is_printable v ≡ true → codec.parse (codec.print v) ≡ ok v
  pub valid-print : (v : Json) → valid (codec.print v) ≡ true
