-- ===== src/Examples/Hashes.antt =====
-- Hashes of passwords over a small library, whose bytes are written as the digits 0 and 1.
use unify_em.Base.{
  String, ◌≡◌, refl, Bool, true, false, Option, none, some, List, [], ◌∷◌, nat_eq, if◌then◌else◌,
  ok,
}
use Prim.Native.Char.{code}
use unify_em.Base.Text.{has_code}
use unify_em.Db.Hash.{HashLibrary, generate_hash, verify_hash}
use unify_em.Db.Hash.Verified.{verify-generate_hash}

abbrev bits_text : List Bool → String
bits_text [] = String.[]
bits_text (true ∷ bs) = String.◌∷◌ "1" (bits_text bs)
bits_text (false ∷ bs) = String.◌∷◌ "0" (bits_text bs)

abbrev bit_before : Bool → Option (List Bool) → Option (List Bool)
bit_before b none = none
bit_before b (some bs) = some (b ∷ bs)

abbrev bits_of : String → Option (List Bool)
bits_of String.[] = some []
bits_of (String.◌∷◌ c s) = bit_before (nat_eq (code c) b'1') (bits_of s)

bits_of-text : (bs : List Bool) → bits_of (bits_text bs) ≡ some bs
bits_of-text [] = refl
bits_of-text (true ∷ bs) = rw (bits_of-text bs) refl
bits_of-text (false ∷ bs) = rw (bits_of-text bs) refl

no_dollar_in : (bs : List Bool) → has_code b'$' (bits_text bs) ≡ false
no_dollar_in [] = refl
no_dollar_in (true ∷ bs) = no_dollar_in bs
no_dollar_in (false ∷ bs) = no_dollar_in bs

abbrev same_bits : List Bool → List Bool → Bool
same_bits [] [] = true
same_bits [] (b ∷ bs) = false
same_bits (a ∷ xs) [] = false
same_bits (true ∷ xs) (b ∷ bs) = if b then same_bits xs bs else false
same_bits (false ∷ xs) (b ∷ bs) = if b then false else same_bits xs bs

same_bits_refl : (bs : List Bool) → same_bits bs bs ≡ true
same_bits_refl [] = refl
same_bits_refl (true ∷ bs) = same_bits_refl bs
same_bits_refl (false ∷ bs) = same_bits_refl bs

abbrev bits : HashLibrary
bits = record {
  Bytes = List Bool;
  encode = bits_text;
  decode = bits_of;
  key = λ pass salt. some (true ∷ salt);
  same_bytes = same_bits;
  decode-encode = bits_of-text;
  no_dollar = no_dollar_in;
  same_refl = same_bits_refl;
}

verify-generate_hash_example : verify_hash bits "pw" "01$101" ≡ ok true
unfolding generate_hash
verify-generate_hash_example =
    verify-generate_hash bits (some (false ∷ true ∷ [])) "pw" "01$101" refl
