-- ===== src/Credentials/Obfuscation.antt =====
-- The obfuscation of src/utils/credentials.py can be undone with the same machine key.
use property_management_lead.Common.{
  ℕ, ◌+◌, ◌≡◌, refl, ap, true, false, some, List, [], ◌∷◌, Text, arith, Option-cases, inl, inr,
}
use property_management_lead.Credentials.{
  Byte, xor, xor_byte, mask, masked_with, masked, Codec, obfuscate, deobfuscate,
}

xor_byte-involutive : (a b : Byte) → xor_byte (xor_byte a b) b ≡ a
unfolding xor_byte xor
xor_byte-involutive [] b = refl
xor_byte-involutive (x ∷ a) [] = refl
xor_byte-involutive (true ∷ a) (true ∷ b) = ap (λ (r : Byte). true ∷ r) (xor_byte-involutive a b)
xor_byte-involutive (true ∷ a) (false ∷ b) = ap (λ (r : Byte). true ∷ r) (xor_byte-involutive a b)
xor_byte-involutive (false ∷ a) (true ∷ b) = ap (λ (r : Byte). false ∷ r) (xor_byte-involutive a b)
xor_byte-involutive (false ∷ a) (false ∷ b) = ap (λ (r : Byte). false ∷ r) (xor_byte-involutive a b)

mask-involutive : (key : List Byte) (i : ℕ) (bs : List Byte) → mask key i (mask key i bs) ≡ bs
unfolding mask
mask-involutive key i [] = refl
mask-involutive key i (b ∷ bs) = simp (xor_byte-involutive, mask-involutive key (i + 1) bs)

-- What base64 and UTF-8 promise: what they wrote is read back.
pub record IsCodec (codec : Codec) : Type 0 where
  pub base64 : (raw : List Byte) → codec.b64decode (codec.b64encode raw) ≡ some raw
  pub utf8 : (text : Text) → codec.from_utf8 (codec.utf8 text) ≡ some text

masked_with-involutive :
    (key raw : List Byte) {hidden : List Byte}
    → masked_with key raw ≡ some hidden
    → masked_with key hidden ≡ some raw
unfolding masked_with
masked_with-involutive [] [] h = ground arith
masked_with-involutive [] (b ∷ bs) h = absurd (ground arith)
masked_with-involutive (k ∷ key) raw h = ground (arith, mask-involutive (k ∷ key) 0 raw)

-- Where base64 and UTF-8 read back what they wrote, a text that can be obfuscated is read back.
pub deobfuscate-obfuscate :
    (codec : Codec)
    → IsCodec codec
    → (text : Text) {contents : Text} → obfuscate codec text ≡ some contents
    → deobfuscate codec contents ≡ some text
unfolding obfuscate deobfuscate
deobfuscate-obfuscate codec laws text {contents} h =
    elim (Option-cases (masked codec (codec.utf8 text))) [
      | inl e ↦ absurd (ground arith)
      | inr (raw, e) ↦ ground (
        arith,
        laws.base64 raw,
        laws.utf8 text,
        masked_with-involutive codec.machine_key (codec.utf8 text) e,
      )
    ]
