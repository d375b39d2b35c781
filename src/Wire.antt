-- ===== src/Wire.antt =====
-- The JSON-like values that go over the wire, and how the readers take them apart. Python raises
-- KeyError for a missing key, which is `no_key`. A value of another type than the reader expects is
-- `no_key` here as well, where Python would carry it on.
use neural_pubsub_experiment.Prelude.{
  ℕ, ◌≡◌, refl, String, Option, none, some, List, [], ◌∷◌, ◌==◌, if◌then◌else◌, arith, Dict, Error,
  Result, ok, raised, ◌>>=◌,
}

mutual
  pub data Entries : Type 0 where
    entry : String → Value → Entries → Entries
    no_entries : Entries

  pub data Elements : Type 0 where
    element : Value → Elements → Elements
    no_elements : Elements

  pub data Value : Type 0 where
    text : String → Value
    number : ℕ → Value
    mapping : Entries → Value
    sequence : Elements → Value
    nothing : Value

unfoldable pub entry_of : String → Entries → Option Value
entry_of key no_entries = none
entry_of key (entry k v fs) = if k == key then some v else entry_of key fs

-- value.get(key)
unfoldable pub get : String → Value → Option Value
get key (mapping fs) = entry_of key fs
get key _ = none

abbrev pub as_text : Option Value → Result String
as_text (some (text s)) = ok s
as_text _ = raised Error.no_key

abbrev pub as_num : Option Value → Result ℕ
as_num (some (number n)) = ok n
as_num _ = raised Error.no_key

-- value[key]
abbrev pub has_key : Option Value → Result Value
has_key (some v) = ok v
has_key none = raised Error.no_key

-- n.get(key, 0.0)
abbrev pub num_or_zero : Option Value → Result ℕ
num_or_zero none = ok 0
num_or_zero v = as_num v

module _ {A : Type 0} where
  -- [encode(x) for x in xs]
  unfoldable pub items : (A → Value) → List A → Elements
  items encode [] = no_elements
  items encode (x ∷ xs) = element (encode x) (items encode xs)

  -- [decode(v) for v in vs]
  unfoldable pub decode_items : (Value → Result A) → Elements → Result (List A)
  decode_items decode no_elements = ok []
  decode_items decode (element v vs) = do x ← decode v; xs ← decode_items decode vs; ok (x ∷ xs)

  -- snap.get(key, []), decoded
  abbrev pub decode_list : (Value → Result A) → Option Value → Result (List A)
  decode_list decode none = ok []
  decode_list decode (some (sequence vs)) = decode_items decode vs
  decode_list decode (some _) = raised Error.no_key

  pub decode_items-items :
      (encode : A → Value) (decode : Value → Result A)
      → ((x : A) → decode (encode x) ≡ ok x)
      → (xs : List A) → decode_items decode (items encode xs) ≡ ok xs
  unfolding decode_items items
  decode_items-items encode decode h [] = refl
  decode_items-items encode decode h (x ∷ xs) =
      ground (arith, h x, decode_items-items encode decode h xs)

-- A dictionary of numbers is written as an object.
unfoldable pub entries_of : Dict ℕ → Entries
entries_of [] = no_entries
entries_of ((k, n) ∷ d) = entry k (number n) (entries_of d)

unfoldable pub dict_of : Entries → Result (Dict ℕ)
dict_of no_entries = ok []
dict_of (entry k v fs) = do n ← as_num (some v); d ← dict_of fs; ok ((k, n) ∷ d)

pub dict_of-entries_of : (d : Dict ℕ) → dict_of (entries_of d) ≡ ok d
unfolding dict_of entries_of
dict_of-entries_of [] = refl
dict_of-entries_of ((k, n) ∷ d) = ground (arith, dict_of-entries_of d)
