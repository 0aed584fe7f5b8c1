-- ===== src/Noise/Tests.antt =====
-- A run of the counter over an AEAD that only adds a tag.
use httppooler.Base.{
  ℕ, List, refl, zero, suc, Bool, true, false, ◌-◌, ◌<◌, ◌≤◌, ◌≡◌, ◌⊎◌, ap, ◌∙◌, arith, some, [],
  ◌∷◌, ◌++◌, length, take, length-append, take-append,
}
use httppooler.Base.Bytes.{Bytes}
use httppooler.Base.Result.{err}
use httppooler.Noise.Suite.{Suite, IsSuite}
use httppooler.Noise.Symmetric.{Tried, CipherState}
use httppooler.Noise.Handshake.{Config, Attempt, split_keys}
use httppooler.Noise.Handshake.Agreement.{Agreed, IsUsable, handshake_agrees}
use httppooler.Noise.Handshake.Turns.{Call, call, calls, keys_after_both}
use httppooler.Noise.Cipher.{
  Aead, IsAead, CipherError, seal, Sealed, seal_lem, max_plaintext_size, nonce_reserved,
}

abbrev tag : Bytes
tag = 0 ∷ 0 ∷ 0 ∷ 0 ∷ 0 ∷ 0 ∷ 0 ∷ 0 ∷ 0 ∷ 0 ∷ 0 ∷ 0 ∷ 0 ∷ 0 ∷ 0 ∷ 0 ∷ []

abbrev pub plain : Aead
plain = record { seal = λ n p ad. p ++ tag; open_sealed = λ n c ad. some (take (length c - 16) c) }

untagged : (p : Bytes) → take (length (p ++ tag) - 16) (p ++ tag) ≡ p
untagged p =
    let here : length (p ++ tag) - 16 ≡ length p = omega (arith, length-append p tag) in
    ap (λ k. take k (p ++ tag)) here ∙ take-append p tag

pub plain-IsAead : IsAead plain
plain-IsAead = record {
  longer = λ n p ad. length-append p tag;
  opens = λ n p ad. ap some (untagged p);
}

abbrev two : Bytes
two = 1 ∷ 2 ∷ []

seal_lem_example :
    (Sealed plain [] two 9 × (length two ≤ max_plaintext_size))
    ⊎ ((e : CipherError) × (seal plain [] [] two 9 ≡ (err e, 9))
        × ((9 ≡ nonce_reserved) ⊎ (max_plaintext_size < length two)))
seal_lem_example = seal_lem plain [] two 9 plain-IsAead (omega arith)

abbrev pub zeros : ℕ → Bytes
zeros zero = []
zeros (suc n) = 0 ∷ zeros n

pub length-zeros : (n : ℕ) → length (zeros n) ≡ n
length-zeros zero = refl
length-zeros (suc n) = omega (arith, length-zeros n)

-- Primitives that give away everything, and still keep the promises.
abbrev pub toy : Suite
toy = record {
  sha256 = λ b. b;
  extract = λ ikm salt. some ikm;
  expand = λ key size. some (zeros size);
  new_aead = λ key. some plain;
  new_private = λ key. some key;
  new_public = λ key. some key;
  public = λ p. zeros 32;
  ecdh = λ p q. some [];
}

pub toy-IsSuite : IsSuite toy
toy-IsSuite = record {
  extracts = λ ikm salt. (ikm, refl);
  expands = λ key size h. (zeros size, refl, length-zeros size);
  keyed = λ key h. (plain, refl, plain-IsAead);
  privates = λ key h. (key, refl);
  sizes = λ p. length-zeros 32;
  publics = λ p. refl;
  agrees = λ p q. ([], refl, refl);
}

abbrev side : Bool → Config
side initiator = record {
  initiator = initiator;
  psk = zeros 32;
  prologue = 72 ∷ [];
  random = zeros 32;
}

side-IsUsable : (t : Bool) → IsUsable (side t)
side-IsUsable t = record { psk = length-zeros 32; random = omega (arith, length-zeros 32) }

handshake_agrees_example : Agreed toy (side true) (side false) [] two
handshake_agrees_example =
    handshake_agrees toy (side true) (side false) [] two toy-IsSuite (side-IsUsable true)
      (side-IsUsable false) refl refl refl refl (omega arith) (omega arith)

abbrev met : Agreed toy (side true) (side false) [] []
met =
    handshake_agrees toy (side true) (side false) [] [] toy-IsSuite (side-IsUsable true)
      (side-IsUsable false) refl refl refl refl (omega arith) (omega arith)

abbrev script : List Call
script = Call.writes [] ∷ Call.reads met.answer ∷ []

script_keys : (split_keys toy (calls toy script ([], met.init0)).1).0 ≡ Tried.got (met.a, met.b)
unfolding calls call
script_keys =
    rw (met.asks, met.learns) (ap (λ (r : Attempt (CipherState × CipherState)). r.0) met.ours)

keys_after_both_example : (calls toy script ([], met.init0)).0 ≡ true ∷ false ∷ []
keys_after_both_example =
    keys_after_both toy (side true) met.init0 script (met.a, met.b) met.starts.0 script_keys
