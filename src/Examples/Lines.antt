-- ===== src/Examples/Lines.antt =====
-- Sentences and the lines that carry them.
use pgais.Base.{
  ℕ, ◌≤◌, ◌≡◌, Bool, true, false, not, ◌&&◌, ◌==◌, ltb, All, inl, inr, refl, arith, List, [], ◌∷◌,
  ◌++◌, none, some, codes,
}
use pgais.Error.{ok}
use pgais.Bitfield.Storage.{IsByte}
use pgais.Payload.{is_empty}
use pgais.Sentence.Parts.{Avoids}
use pgais.Sentence.{Sentence, is_valid_talker, matches_talker, parse}
use pgais.Sentence.Valid.{IsSentence}
use pgais.Sentence.Print.{IsPlain, print, parse-print}

-- Part `k` of three under number 4.
abbrev pub third : ℕ → List ℕ → Sentence
third k payload = record {
  talker = codes "AI";
  sentence_type = codes "VDM";
  part_count = 3;
  part_index = k;
  seq_id = some 4;
  channel = b'A';
  payload = payload;
  fill_bits = 0;
}

abbrev pub whole : Sentence
whole = record {
  talker = codes "AI";
  sentence_type = codes "VDM";
  part_count = 1;
  part_index = 1;
  seq_id = none;
  channel = b'B';
  payload = codes ":CaDo80rE=j0";
  fill_bits = 0;
}

valid_talker : is_valid_talker (codes "AI") ≡ true
unfolding is_valid_talker matches_talker
valid_talker = refl

pub third-IsSentence : (k : ℕ) (payload : List ℕ) → 1 ≤ k → k ≤ 3 → IsSentence (third k payload)
third-IsSentence k payload low high = record {
  talker_valid = valid_talker;
  type_valid = inl refl;
  count_low = omega arith;
  count_high = omega arith;
  index_low = low;
  index_high = high;
  seq_id_fits = inr (4, refl, omega arith);
  has_payload = inl (omega arith);
  fill_bits_high = omega arith;
}

whole-IsSentence : IsSentence whole
unfolding is_empty
whole-IsSentence = record {
  talker_valid = valid_talker;
  type_valid = inl refl;
  count_low = omega arith;
  count_high = omega arith;
  index_low = omega arith;
  index_high = omega arith;
  seq_id_fits = inl (refl, refl);
  has_payload = inr refl;
  fill_bits_high = omega arith;
}

-- Bytes, none of which is a comma, by a test that is run.
unfoldable pub plain : List ℕ → Bool
plain [] = true
plain (c ∷ cs) = (ltb c 256 && not (c == b',')) && plain cs

pub plain-bytes : (cs : List ℕ) → plain cs ≡ true → All IsByte cs × Avoids b',' cs
unfolding plain
plain-bytes [] h = (tt, tt)
plain-bytes (c ∷ cs) h =
    let rest : All IsByte cs × Avoids b',' cs = plain-bytes cs (ground arith) in
    ((ground arith, rest.0), (ground arith, rest.1))

plain-IsPlain :
    (s : Sentence)
    → (s.channel == b',') ≡ false
    → s.channel ≤ 255
    → plain s.payload ≡ true
    → IsPlain s
plain-IsPlain s h k p =
    let (bytes, commas) = plain-bytes s.payload p in
    record {
      channel_byte = omega arith;
      channel_plain = h;
      payload_bytes = bytes;
      payload_plain = commas;
    }

abbrev pub line_of : Sentence → List ℕ
line_of s = print s ++ b'\r' ∷ b'\n' ∷ []

pub third-parsed :
    (k : ℕ) (payload : List ℕ)
    → 1 ≤ k
    → k ≤ 3
    → plain payload ≡ true
    → parse (line_of (third k payload)) ≡ ok (third k payload)
third-parsed k payload low high p =
    parse-print (third k payload) (b'\r' ∷ b'\n' ∷ []) (third-IsSentence k payload low high)
      (plain-IsPlain (third k payload) refl (omega arith) p) (refl, (refl, tt))

pub whole-parsed : parse (line_of whole) ≡ ok whole
unfolding plain
whole-parsed =
    parse-print whole (b'\r' ∷ b'\n' ∷ []) whole-IsSentence
      (plain-IsPlain whole refl (omega arith) refl) (refl, (refl, tt))

-- A test for bytes, to be run.
unfoldable pub all_bytes : List ℕ → Bool
all_bytes [] = true
all_bytes (c ∷ cs) = ltb c 256 && all_bytes cs

pub all_bytes-IsByte : (cs : List ℕ) → all_bytes cs ≡ true → All IsByte cs
unfolding all_bytes
all_bytes-IsByte [] h = tt
all_bytes-IsByte (c ∷ cs) h =
    let rest : all_bytes cs ≡ true → All IsByte cs = all_bytes-IsByte cs in
    (ground arith, rest (ground arith))
