-- ===== src/Tests/Codec.antt =====
-- A text format and a byte format that can be read back, for runs of src/utils/credentials.py.
use mathlib.Core.List.{reverse-reverse, append-nil}
use property_management_lead.Common.{
  ℕ, zero, suc, ◌≡◌, refl, ap, Bool, true, false, some, List, [], ◌∷◌, ◌++◌, map, drop, Text, arith,
  strip, strip_left,
}
use property_management_lead.Credentials.{Byte, Store, Codec}
use property_management_lead.Credentials.Obfuscation.{IsCodec}
use property_management_lead.Credentials.Fallback.{IsStoreCodec}

-- A code point as that many bits.
abbrev bits_of : ℕ → Byte
bits_of zero = []
bits_of (suc n) = true ∷ bits_of n

abbrev count : Byte → ℕ
count [] = 0
count (b ∷ bs) = suc (count bs)

abbrev counts : List Byte → Text
counts = map count

counts_back : (text : Text) → counts (map bits_of text) ≡ text
counts_back [] = refl
counts_back (c ∷ text) = simp (count_back c, counts_back text)
  where
    count_back : (n : ℕ) → count (bits_of n) ≡ n
    count_back zero = refl
    count_back (suc n) = ap suc (count_back n)

-- A byte as 2 and its bits.
abbrev digit : Bool → ℕ
digit true = 1
digit false = 0

abbrev put_bits : Byte → Text → Text
put_bits [] rest = rest
put_bits (b ∷ bs) rest = digit b ∷ put_bits bs rest

abbrev put_bytes : List Byte → Text
put_bytes [] = []
put_bytes (b ∷ bs) = 2 ∷ put_bits b (put_bytes bs)

abbrev put_digit : ℕ → Byte × List Byte → Byte × List Byte
put_digit zero (now, done) = (false ∷ now, done)
put_digit (suc zero) (now, done) = (true ∷ now, done)
put_digit (suc (suc c)) (now, done) = ([], now ∷ done)

abbrev read_bytes : Text → Byte × List Byte
read_bytes [] = ([], [])
read_bytes (c ∷ s) = put_digit c (read_bytes s)

read_bits :
    (b : Byte) (s : Text) → read_bytes (put_bits b s) ≡ (b ++ (read_bytes s).0, (read_bytes s).1)
read_bits [] s = refl
read_bits (true ∷ b) s = simp (read_bits b s)
read_bits (false ∷ b) s = simp (read_bits b s)

read_bytes_back : (bs : List Byte) → read_bytes (put_bytes bs) ≡ ([], bs)
read_bytes_back [] = refl
read_bytes_back (b ∷ bs) = simp (read_bits b (put_bytes bs), read_bytes_back bs, append-nil)

-- An entry of a store as 0, its key, 1 and its value; a code point is two higher.
abbrev put_text : Text → Text → Text
put_text [] rest = rest
put_text (c ∷ s) rest = suc (suc c) ∷ put_text s rest

abbrev put_store : Store → Text
put_store [] = []
put_store ((key, value) ∷ store) = 0 ∷ put_text key (1 ∷ put_text value (put_store store))

abbrev put_mark : ℕ → Text × (Text × Store) → Text × (Text × Store)
put_mark zero (now, (last, store)) = ([], ([], (now, last) ∷ store))
put_mark (suc zero) (now, (last, store)) = ([], (now, store))
put_mark (suc (suc c)) (now, (last, store)) = (c ∷ now, (last, store))

abbrev read_store : Text → Text × (Text × Store)
read_store [] = ([], ([], []))
read_store (c ∷ s) = put_mark c (read_store s)

read_text : (t s : Text) → read_store (put_text t s) ≡ (t ++ (read_store s).0, (read_store s).1)
read_text [] s = refl
read_text (c ∷ t) s = simp (read_text t s)

read_store_back : (store : Store) → read_store (put_store store) ≡ ([], ([], store))
read_store_back [] = refl
read_store_back ((key, value) ∷ store) = simp (
  read_text key (1 ∷ put_text value (put_store store)),
  read_text value (put_store store),
  read_store_back store,
  append-nil,
)

abbrev pub codec : Codec
codec = record {
  machine_key = (true ∷ false ∷ []) ∷ (false ∷ []) ∷ [];
  utf8 = map bits_of;
  from_utf8 = λ bs. some (counts bs);
  b64encode = put_bytes;
  b64decode = λ s. some ((read_bytes s).1);
  dumps = λ store. 1 ∷ put_store store;
  loads = λ s. some ((read_store (drop 1 s)).1.1);
  is_space = λ c. false;
}

strip_left-keep : (s : Text) → strip_left (λ c. false) s ≡ s
unfolding strip_left
strip_left-keep [] = refl
strip_left-keep (c ∷ s) = refl

strip-keep : (s : Text) → strip (λ c. false) s ≡ s
unfolding strip
strip-keep s = simp (strip_left-keep, reverse-reverse)

pub codec-IsCodec : IsCodec codec
codec-IsCodec = record {
  base64 = λ raw. simp (read_bytes_back raw);
  utf8 = λ text. simp (counts_back text);
}

pub codec-IsStoreCodec : IsStoreCodec codec
codec-IsStoreCodec = record {
  codes_back = codec-IsCodec;
  json = λ store. simp (read_store_back store);
  json_filled = λ store. refl;
  utf8_filled = λ text filled e. ground (arith, filled, e);
  base64_filled = λ b raw. refl;
  base64_trimmed = λ raw. strip-keep (put_bytes raw);
}
