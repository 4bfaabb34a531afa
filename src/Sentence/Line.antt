-- ===== src/Sentence/Line.antt =====
-- What `Sentence::parse` makes of a line whose body and checksum are known.
use pgais.Base.{
  ℕ, ap, not, ◌&&◌, ◌⊎◌, true, inl, inr, suc, ◌+◌, ◌-◌, ◌≤◌, ◌≡◌, ◌≢◌, ◌∙◌, codes, refl, arith,
  List, [], ◌∷◌, ◌++◌, append_assoc, false, ◌||◌, ◌==◌, none, some, All, length, length-append, ltb,
  le→ltb, drop, take-append,
}
use pgais.Error.{fail_with, sentence_checksum_bad}
use pgais.Payload.{is_empty}
use pgais.Bitfield.Storage.{IsByte}
use pgais.Sentence.{
  split_fields, parse_fields, check_sum, parse_at, parse, rfind, chomp, compute_checksum,
  parse_hex8, value_or_zero, xor_from,
}
use pgais.Sentence.Checksum.{is_inner, IsHex, compute_checksum-IsHex}
use pgais.Sentence.Parts.{
  IsLineEnd, IsLineEnd-Avoids, Avoids, rfind-Avoids, chomp-Avoids, chomp-append, rfind-append,
}

-- The checksum of the body is accepted, and every other number is refused.
pub check_sum-body_of :
    (body : List ℕ)
    → All IsByte body
    → (d : List ℕ)
    → check_sum body d (some (xor_from 0 body)) ≡ parse_fields (split_fields body b',')
unfolding check_sum value_or_zero
check_sum-body_of body h d = let hex = compute_checksum-IsHex body h in ground arith

pub check_sum-other :
    (body : List ℕ) (n : ℕ) (d : List ℕ)
    → All IsByte body
    → n ≢ xor_from 0 body
    → check_sum body d (some n)
      ≡ fail_with sentence_checksum_bad
          (codes "expected " ++ compute_checksum body ++ codes " got " ++ d)
unfolding check_sum value_or_zero
check_sum-other body n d h ne = let hex = compute_checksum-IsHex body h in ground arith

drop-next : (xs ys : List ℕ) (y : ℕ) → drop (suc (length xs)) (xs ++ y ∷ ys) ≡ ys
drop-next [] ys y = refl
drop-next (x ∷ xs) ys y = drop-next xs ys y

pub parse_at-line :
    (mark : ℕ) (body : List ℕ) (c d : ℕ) (rest : List ℕ)
    → parse_at (mark ∷ body ++ b'*' ∷ c ∷ d ∷ rest) (some (suc (length body)))
      ≡ check_sum body (c ∷ d ∷ []) (parse_hex8 (c ∷ d ∷ []))
unfolding parse_at
parse_at-line mark body c d rest =
    let size = length-append body (b'*' ∷ c ∷ d ∷ rest) in
    let enough : ltb (length (mark ∷ body ++ b'*' ∷ c ∷ d ∷ rest)) (suc (length body) + 3) ≡ false =
      le→ltb (length (mark ∷ body ++ b'*' ∷ c ∷ d ∷ rest)) (suc (length body) + 3)
        (omega (arith, size)) in
    let one : suc (length body) + 1 ≡ suc (suc (length body)) = omega arith in
    let none_off : suc (length body) - 1 ≡ length body = omega arith in
    rw
      (
        enough,
        one,
        none_off,
        drop-next body (c ∷ d ∷ rest) b'*',
        take-append body (b'*' ∷ c ∷ d ∷ rest),
      )
      refl

-- The character that a line starts with.
abbrev pub IsMark : ℕ → Type 0
IsMark c = (c ≡ b'!') ⊎ (c ≡ b'$')

pub IsMark-accepted : (c : ℕ) → IsMark c → (not (c == b'!') && not (c == b'$')) ≡ false
IsMark-accepted c (inl e) = rw e refl
IsMark-accepted c (inr e) = rw e refl

-- A line whose checksum field has two digits is checked against their value; whatever follows them is
-- passed over.
pub parse-digits :
    (mark n : ℕ) (body : List ℕ) (c d : ℕ) (rest : List ℕ)
    → IsMark mark
    → is_inner c ≡ true
    → is_inner d ≡ true
    → parse_hex8 (c ∷ d ∷ []) ≡ some n
    → 10 ≤ length body
    → Avoids b'*' rest
    → parse (mark ∷ body ++ b'*' ∷ c ∷ d ∷ rest) ≡ check_sum body (c ∷ d ∷ []) (some n)
unfolding parse is_empty
parse-digits mark n body c d rest marked inner_c inner_d value long k =
    let line = mark ∷ body ++ b'*' ∷ c ∷ d ∷ chomp rest in
    let front = mark ∷ body ++ b'*' ∷ c ∷ [] in
    let no_end : (d == b'\r' || d == b'\n') ≡ false = ground arith in
    let no_star : rfind (c ∷ d ∷ chomp rest) b'*' ≡ none =
      rfind-Avoids (c ∷ d ∷ chomp rest) b'*'
        (ground arith, (ground arith, chomp-Avoids rest b'*' k)) in
    let chomped : chomp (mark ∷ body ++ b'*' ∷ c ∷ d ∷ rest) ≡ line =
      rw (append_assoc body, append_assoc body) at (chomp-append front d rest no_end) in
    let size : length line ≡ suc (length body + suc (suc (suc (length (chomp rest))))) =
      ap suc (length-append body (b'*' ∷ c ∷ d ∷ chomp rest)) in
    let star : rfind line b'*' ≡ some (suc (length body)) =
      rfind-append (mark ∷ body) (c ∷ d ∷ chomp rest) b'*' no_star in
    let long_line : ltb (length line) 14 ≡ false = le→ltb (length line) 14 (omega (arith, size)) in
    rw
      (
        chomped,
        long_line,
        IsMark-accepted mark marked,
        star,
        parse_at-line mark body c d (chomp rest),
        value,
      )
      refl

pub parse-checked :
    (n : ℕ) (body text ending : List ℕ)
    → IsHex n text
    → 10 ≤ length body
    → All IsLineEnd ending
    → parse (b'!' ∷ body ++ b'*' ∷ text ++ ending) ≡ check_sum body text (some n)
parse-checked n body text ending hex long k =
    let value : parse_hex8 (hex.first ∷ hex.second ∷ []) ≡ some n = rw hex.digits at hex.value in
    rw (hex.digits, append_assoc body)
      (parse-digits b'!' n body hex.first hex.second ending (inl refl) hex.first_inner
        hex.second_inner value long (IsLineEnd-Avoids ending k))

-- The line of a body, its checksum and line ends is parsed as the fields of the body.
pub parse-line :
    (body ending : List ℕ)
    → All IsByte body
    → 10 ≤ length body
    → All IsLineEnd ending
    → parse (b'!' ∷ body ++ b'*' ∷ compute_checksum body ++ ending)
      ≡ parse_fields (split_fields body b',')
parse-line body ending h long k =
    let hex = compute_checksum-IsHex body h in
    parse-checked (xor_from 0 body) body (compute_checksum body) ending hex long k
    ∙ check_sum-body_of body h (compute_checksum body)
