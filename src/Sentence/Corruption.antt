-- ===== src/Sentence/Corruption.antt =====
-- A line in which one character of the body was changed.
use pgais.Base.{
  ℕ, ◌+◌, ◌^◌, ◌<◌, ◌≤◌, ◌≡◌, ◌≢◌, refl, sym, ◌∙◌, arith, List, [], ◌∷◌, ◌++◌, codes, All,
  All-append, length, length-append, bit_xor,
}
use pgais.Bits.{xor-lt, xor_cancel_left, xor_cancel_right}
use pgais.Error.{fail_with, sentence_checksum_bad}
use pgais.Bitfield.Storage.{IsByte}
use pgais.Sentence.{parse, xor_from, compute_checksum}
use pgais.Sentence.Checksum.{xor_from-lt, compute_checksum-IsHex}
use pgais.Sentence.Line.{parse-checked, check_sum-other}
use pgais.Sentence.Parts.{IsLineEnd}

xor_from-append :
    (x : ℕ) (front back : List ℕ) → xor_from x (front ++ back) ≡ xor_from (xor_from x front) back
unfolding xor_from
xor_from-append x [] back = refl
xor_from-append x (c ∷ front) back = xor_from-append (bit_xor x c) front back

-- Two values that differ are kept apart by the characters behind.
xor_from_cancel :
    (x y : ℕ) (text : List ℕ)
    → x < 2 ^ 8
    → y < 2 ^ 8
    → All IsByte text
    → xor_from x text ≡ xor_from y text
    → x ≡ y
unfolding xor_from
xor_from_cancel x y [] h k bytes e = e
xor_from_cancel x y (c ∷ text) h k bytes e = xor_cancel_right 8 x y c h k (
    xor_from_cancel (bit_xor x c) (bit_xor y c) text (xor-lt 8 x c h bytes.0)
      (xor-lt 8 y c k bytes.0) bytes.1 e)

xor_from-changed :
    (front back : List ℕ) (c d : ℕ)
    → All IsByte front
    → All IsByte back
    → IsByte c
    → IsByte d
    → c ≢ d
    → xor_from 0 (front ++ c ∷ back) ≢ xor_from 0 (front ++ d ∷ back)
unfolding xor_from
xor_from-changed front back c d f b hc hd ne e =
    let x = xor_from 0 front in
    let low = xor_from-lt 0 front (omega arith) f in
    let same =
      xor_from_cancel (bit_xor x c) (bit_xor x d) back (xor-lt 8 x c low hc) (xor-lt 8 x d low hd) b
        (sym (xor_from-append 0 front (c ∷ back)) ∙ e ∙ xor_from-append 0 front (d ∷ back)) in
    ne (xor_cancel_left 8 x c d hc hd same)

-- When one byte of the body of a sentence is replaced by another byte, `parse` refuses the line with
-- `SentenceChecksumBad`, which names the checksum that the changed body has and the one that came with
-- it. The body is the text between `!` and the last `*`, of ten bytes at least, and any line ends may
-- follow.
pub parse-changed :
    (front back ending : List ℕ) (c d : ℕ)
    → All IsByte front
    → All IsByte back
    → IsByte c
    → IsByte d
    → c ≢ d
    → 9 ≤ length front + length back
    → All IsLineEnd ending
    → parse (b'!' ∷ (front ++ d ∷ back) ++ b'*' ∷ compute_checksum (front ++ c ∷ back) ++ ending)
      ≡ fail_with sentence_checksum_bad (
          codes "expected "
          ++ compute_checksum (front ++ d ∷ back)
          ++ codes " got "
          ++ compute_checksum (front ++ c ∷ back))
parse-changed front back ending c d f b hc hd ne long k =
    let sent = front ++ c ∷ back in
    let came = front ++ d ∷ back in
    let sent_bytes = All-append IsByte front (c ∷ back) f (hc, b) in
    let came_bytes = All-append IsByte front (d ∷ back) f (hd, b) in
    let hex = compute_checksum-IsHex sent sent_bytes in
    parse-checked (xor_from 0 sent) came (compute_checksum sent) ending hex
      (omega (arith, length-append front (d ∷ back))) k
    ∙ check_sum-other came (xor_from 0 sent) (compute_checksum sent) came_bytes
        (xor_from-changed front back c d f b hc hd ne)
