-- ===== src/Examples/Parsing.antt =====
-- A line that is parsed, and one that is refused.
use pgais.Base.{◌↔◌, ◌≡◌, All, refl, codes}
use pgais.Error.{ok, err, sentence_checksum_bad}
use pgais.Bitfield.Storage.{IsByte}
use pgais.Sentence.{parse, compute_checksum, xor_from, hex8}
use pgais.Sentence.Parts.{join}
use pgais.Sentence.Print.{print}
use pgais.Sentence.Grammar.{IsLine}
use pgais.Sentence.Accepted.{parse-grammar}
use pgais.Sentence.Refused.{Refused}
use pgais.Sentence.Outcomes.{parse-Refused}
use pgais.Examples.Lines.{whole, all_bytes, all_bytes-IsByte, line_of}

whole-bytes : All IsByte (line_of whole)
unfolding all_bytes print compute_checksum hex8 xor_from join
whole-bytes = all_bytes-IsByte (line_of whole) refl

parse-grammar_example : (parse (line_of whole) ≡ ok whole) ↔ IsLine (line_of whole) whole
parse-grammar_example = parse-grammar (line_of whole) whole whole-bytes

-- The checksum of this line is not that of its body.
parse-Refused_example :
    (parse (codes "!AIVDM,1,1,,A,15,0*00")
      ≡ err (record { code = sentence_checksum_bad; detail = codes "expected 22 got 00" }))
    ↔ Refused
        (codes "!AIVDM,1,1,,A,15,0*00")
        (record { code = sentence_checksum_bad; detail = codes "expected 22 got 00" })
unfolding all_bytes
parse-Refused_example =
    parse-Refused (codes "!AIVDM,1,1,,A,15,0*00")
      (record { code = sentence_checksum_bad; detail = codes "expected 22 got 00" })
      (all_bytes-IsByte (codes "!AIVDM,1,1,,A,15,0*00") refl)
