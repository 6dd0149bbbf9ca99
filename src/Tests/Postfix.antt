-- ===== src/Tests/Postfix.antt =====
-- A codec with the laws that encoding/json is assumed to have, for the tests: values in postfix notation,
-- read by a stack machine.
use incus_spire_attestor.Prelude.{
  ℕ, zero, suc, ◌+◌, ◌-◌, ◌*◌, ◌/◌, ◌%◌, ◌<◌, ◌≡◌, refl, ap, ◌∙◌, true, false, List, [], ◌∷◌, map,
  arith, Bytes, All,
}
use incus_spire_attestor.Errors.{Result, ok, err, json, syntax}
use incus_spire_attestor.Golang.Json.{
  Json, null, bool, number, string, array, object, Items, nil, cons, Members, end, member, Codec,
  CodecLaws,
}
use incus_spire_attestor.Golang.Utf8.{valid-ascii}

pub data Token : Type 0 where
  push_null push_true push_false push_text push_byte add_sixteen add_one : Token
  to_number to_string push_items add_item to_array push_members add_member to_object : Token

pub data Slot : Type 0 where
  value : Json → Slot
  text : Bytes → Slot
  its : Items → Slot
  fields : Members → Slot

abbrev step : Token → List Slot → List Slot
step push_null st = value null ∷ st
step push_true st = value (bool true) ∷ st
step push_false st = value (bool false) ∷ st
step push_text st = text [] ∷ st
step push_byte (text s ∷ st) = text (0 ∷ s) ∷ st
step add_sixteen (text (b ∷ s) ∷ st) = text ((b + 16) ∷ s) ∷ st
step add_one (text (b ∷ s) ∷ st) = text ((b + 1) ∷ s) ∷ st
step to_number (text s ∷ st) = value (number s) ∷ st
step to_string (text s ∷ st) = value (string s) ∷ st
step push_items st = its nil ∷ st
step add_item (value v ∷ its vs ∷ st) = its (cons v vs) ∷ st
step to_array (its vs ∷ st) = value (array vs) ∷ st
step push_members st = fields end ∷ st
step add_member (text k ∷ value v ∷ fields ms ∷ st) = fields (member k v ms) ∷ st
step to_object (fields ms ∷ st) = value (object ms) ∷ st
step _ st = st

unfoldable run : List Token → List Slot → List Slot
run [] st = st
run (t ∷ ts) st = run ts (step t st)

unfoldable repeat : ℕ → Token → List Token → List Token
repeat zero t k = k
repeat (suc n) t k = t ∷ repeat n t k

unfoldable write_text : Bytes → List Token → List Token
write_text [] k = push_text ∷ k
write_text (b ∷ s) k =
    write_text s (push_byte ∷ repeat (b / 16) add_sixteen (repeat (b % 16) add_one k))

unfoldable mutual
  write : Json → List Token → List Token
  write null k = push_null ∷ k
  write (bool true) k = push_true ∷ k
  write (bool false) k = push_false ∷ k
  write (number s) k = write_text s (to_number ∷ k)
  write (string s) k = write_text s (to_string ∷ k)
  write (array vs) k = write_items vs (to_array ∷ k)
  write (object ms) k = write_members ms (to_object ∷ k)

  write_items : Items → List Token → List Token
  write_items nil k = push_items ∷ k
  write_items (cons v vs) k = write_items vs (write v (add_item ∷ k))

  write_members : Members → List Token → List Token
  write_members end k = push_members ∷ k
  write_members (member key v ms) k = write_members ms (write v (write_text key (add_member ∷ k)))

run-sixteens :
    (n b : ℕ) (s : Bytes) (k : List Token) (st : List Slot)
    → run (repeat n add_sixteen k) (text (b ∷ s) ∷ st) ≡ run k (text ((b + 16 * n) ∷ s) ∷ st)
unfolding run repeat
run-sixteens zero b s k st = ap (λ c. run k (text (c ∷ s) ∷ st)) (omega arith)
run-sixteens (suc n) b s k st =
    run-sixteens n (b + 16) s k st ∙ ap (λ c. run k (text (c ∷ s) ∷ st)) (omega arith)

run-ones :
    (n b : ℕ) (s : Bytes) (k : List Token) (st : List Slot)
    → run (repeat n add_one k) (text (b ∷ s) ∷ st) ≡ run k (text ((b + n) ∷ s) ∷ st)
unfolding run repeat
run-ones zero b s k st = ap (λ c. run k (text (c ∷ s) ∷ st)) (omega arith)
run-ones (suc n) b s k st =
    run-ones n (b + 1) s k st ∙ ap (λ c. run k (text (c ∷ s) ∷ st)) (omega arith)

run-write_text :
    (s : Bytes) (k : List Token) (st : List Slot) → run (write_text s k) st ≡ run k (text s ∷ st)
unfolding run write_text
run-write_text [] k st = refl
run-write_text (b ∷ s) k st =
    run-write_text s _ st
    ∙ run-sixteens (b / 16) 0 s _ st
    ∙ run-ones (b % 16) (0 + 16 * (b / 16)) s k st
    ∙ ap (λ c. run k (text (c ∷ s) ∷ st)) (omega arith)

mutual
  unfolding run write write_items write_members

  run-write :
      (v : Json) (k : List Token) (st : List Slot) → run (write v k) st ≡ run k (value v ∷ st)
  run-write null k st = refl
  run-write (bool true) k st = refl
  run-write (bool false) k st = refl
  run-write (number s) k st = run-write_text s _ st
  run-write (string s) k st = run-write_text s _ st
  run-write (array vs) k st = run-write_items vs _ st
  run-write (object ms) k st = run-write_members ms _ st

  run-write_items :
      (vs : Items) (k : List Token) (st : List Slot)
      → run (write_items vs k) st ≡ run k (its vs ∷ st)
  run-write_items nil k st = refl
  run-write_items (cons v vs) k st = run-write_items vs _ st ∙ run-write v _ (its vs ∷ st)

  run-write_members :
      (ms : Members) (k : List Token) (st : List Slot)
      → run (write_members ms k) st ≡ run k (fields ms ∷ st)
  run-write_members end k st = refl
  run-write_members (member key v ms) k st =
      run-write_members ms _ st
      ∙ run-write v _ (fields ms ∷ st)
      ∙ run-write_text key _ (value v ∷ fields ms ∷ st)

abbrev code : Token → ℕ
code push_null = b'a'
code push_true = b'b'
code push_false = b'c'
code push_text = b'd'
code push_byte = b'e'
code add_sixteen = b'f'
code add_one = b'g'
code to_number = b'h'
code to_string = b'i'
code push_items = b'j'
code add_item = b'k'
code to_array = b'l'
code push_members = b'm'
code add_member = b'n'
code to_object = b'o'

select : ℕ → List Token → Token
select n [] = push_null
select zero (t ∷ ts) = t
select (suc n) (t ∷ ts) = select n ts

abbrev tokens : List Token
tokens =
    push_null ∷ push_true ∷ push_false ∷ push_text ∷ push_byte ∷ add_sixteen ∷ add_one ∷ to_number
    ∷ to_string ∷ push_items ∷ add_item ∷ to_array ∷ push_members ∷ add_member ∷ to_object ∷ []

abbrev token : ℕ → Token
token c = select (c - b'a') tokens

token-code : (t : Token) → token (code t) ≡ t
unfolding select
token-code push_null = refl
token-code push_true = refl
token-code push_false = refl
token-code push_text = refl
token-code push_byte = refl
token-code add_sixteen = refl
token-code add_one = refl
token-code to_number = refl
token-code to_string = refl
token-code push_items = refl
token-code add_item = refl
token-code to_array = refl
token-code push_members = refl
token-code add_member = refl
token-code to_object = refl

code-ascii : (t : Token) → code t < 0x80
code-ascii push_null = omega arith
code-ascii push_true = omega arith
code-ascii push_false = omega arith
code-ascii push_text = omega arith
code-ascii push_byte = omega arith
code-ascii add_sixteen = omega arith
code-ascii add_one = omega arith
code-ascii to_number = omega arith
code-ascii to_string = omega arith
code-ascii push_items = omega arith
code-ascii add_item = omega arith
code-ascii to_array = omega arith
code-ascii push_members = omega arith
code-ascii add_member = omega arith
code-ascii to_object = omega arith

map-token-code : (ts : List Token) → map token (map code ts) ≡ ts
map-token-code [] = refl
map-token-code (t ∷ ts) = simp (token-code t, map-token-code ts)

map-code-ascii : (ts : List Token) → All (λ c. c < 0x80) (map code ts)
map-code-ascii [] = tt
map-code-ascii (t ∷ ts) = (code-ascii t, map-code-ascii ts)

only : List Slot → Result Json
only (value v ∷ []) = ok v
only _ = err (json syntax)

unfoldable pub postfix : Codec
unfolding run only write write_items write_members repeat write_text select
postfix = record { print = λ v. map code (write v []); parse = λ s. only (run (map token s) []) }

pub postfix-CodecLaws : CodecLaws postfix
unfolding run only postfix
postfix-CodecLaws = record {
  parse-print = λ v h. rw (map-token-code (write v []), run-write v [] []) refl;
  valid-print = λ v. valid-ascii _ (map-code-ascii (write v []));
}
