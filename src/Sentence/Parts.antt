-- ===== src/Sentence/Parts.antt =====
-- The parts of `Sentence::parse`: line ends, the delimiters, and the numbers.
use pgais.Base.{
  ℕ, ◌+◌, ◌<◌, ◌≡◌, refl, sym, arith, List, [], ◌∷◌, ◌++◌, ap, ◌∙◌, Option-cases, append-nil,
  append_assoc, true, false, ◌||◌, ◌==◌, none, some, All, length, ==_self, Bool-cases, inl, inr,
}
use pgais.Sentence.{chomp, keep_line, rfind, split_from, split_fields, parse_uint8, parse_digits}

abbrev pub IsLineEnd : ℕ → Type 0
IsLineEnd c = (c == b'\r' || c == b'\n') ≡ true

-- A text without the delimiter.
abbrev pub Avoids : ℕ → List ℕ → Type 0
Avoids delim s = All (λ c. (c == delim) ≡ false) s

-- Line ends are not a given other character.
pub IsLineEnd-Avoids : (ending : List ℕ) → All IsLineEnd ending → Avoids b'*' ending
IsLineEnd-Avoids [] h = tt
IsLineEnd-Avoids (c ∷ ending) h = let first = h.0 in (ground arith, IsLineEnd-Avoids ending h.1)

keep_line_ne : (d : ℕ) (ds : List ℕ) → (d == b'\r' || d == b'\n') ≡ false → keep_line d ds ≡ d ∷ ds
unfolding keep_line
keep_line_ne d [] k = rw k refl
keep_line_ne d (e ∷ ds) k = refl

-- `chomp` leaves a text alone up to a character that is not a line end.
pub chomp-append :
    (front : List ℕ) (d : ℕ) (rest : List ℕ)
    → (d == b'\r' || d == b'\n') ≡ false
    → chomp (front ++ d ∷ rest) ≡ front ++ d ∷ chomp rest
unfolding chomp keep_line
chomp-append [] d rest k = keep_line_ne d (chomp rest) k
chomp-append (c ∷ []) d rest k = rw (chomp-append [] d rest k) refl
chomp-append (c ∷ c' ∷ front) d rest k = rw (chomp-append (c' ∷ front) d rest k) refl

keep_line-split :
    (c : ℕ) (ds ending : List ℕ)
    → All IsLineEnd ending
    → (ending' : List ℕ) × (c ∷ ds ++ ending ≡ keep_line c ds ++ ending') × All IsLineEnd ending'
unfolding keep_line
keep_line-split c (d ∷ ds) ending h = (ending, refl, h)
keep_line-split c [] ending h = elim (Bool-cases (c == b'\r' || c == b'\n')) [
  | inl e ↦ (c ∷ ending, rw e refl, (e, h))
  | inr e ↦ (ending, rw e refl, h)
]

-- What `chomp` takes off are line ends.
pub chomp-split : (s : List ℕ) → (ending : List ℕ) × (s ≡ chomp s ++ ending) × All IsLineEnd ending
unfolding chomp
chomp-split [] = ([], refl, tt)
chomp-split (c ∷ s) =
    let (ending, e, h) = chomp-split s in
    let (ending', e', h') = keep_line-split c (chomp s) ending h in
    (ending', ap (λ (t : List ℕ). c ∷ t) e ∙ e', h')

keep_line-Avoids :
    (c : ℕ) (ds : List ℕ) (delim : ℕ)
    → (c == delim) ≡ false
    → Avoids delim ds
    → Avoids delim (keep_line c ds)
unfolding keep_line
keep_line-Avoids c [] delim k l = elim (Bool-cases (c == b'\r' || c == b'\n')) [
  | inl e ↦ rw e tt
  | inr e ↦ rw e (k, tt)
]
keep_line-Avoids c (d ∷ ds) delim k l = (k, l)

-- `chomp` brings no character in.
pub chomp-Avoids : (s : List ℕ) (delim : ℕ) → Avoids delim s → Avoids delim (chomp s)
unfolding chomp
chomp-Avoids [] delim h = tt
chomp-Avoids (c ∷ s) delim h = keep_line-Avoids c (chomp s) delim h.0 (chomp-Avoids s delim h.1)

-- The last delimiter of a text.
pub rfind-append :
    (front back : List ℕ) (c : ℕ)
    → rfind back c ≡ none
    → rfind (front ++ c ∷ back) c ≡ some (length front)
unfolding rfind
rfind-append [] back c h = ground arith
rfind-append (x ∷ front) back c h = rw (rfind-append front back c h) refl

-- No delimiter is found in a text that has none.
pub rfind-Avoids : (s : List ℕ) (c : ℕ) → Avoids c s → rfind s c ≡ none
unfolding rfind
rfind-Avoids [] c h = refl
rfind-Avoids (d ∷ s) c h = let first = h.0 in rw (rfind-Avoids s c h.1) (ground arith)

pub rfind_none : (s : List ℕ) (c : ℕ) → rfind s c ≡ none → Avoids c s
unfolding rfind
rfind_none [] c e = tt
rfind_none (x ∷ s) c e =
    let later : rfind s c ≡ none = ground arith in (ground arith, rfind_none s c later)

-- A text is split at the delimiter that is found.
pub rfind-split :
    (s : List ℕ) (c i : ℕ)
    → rfind s c ≡ some i
    → (front back : List ℕ) × (s ≡ front ++ c ∷ back) × (length front ≡ i) × Avoids c back
unfolding rfind
rfind-split [] c i e = absurd cc
rfind-split (x ∷ s) c i e = elim (Option-cases (rfind s c)) [
  | inr (k, found) ↦
      let (front, back, split, size, avoids) = rfind-split s c k found in
      (x ∷ front, back, ap (λ (t : List ℕ). x ∷ t) split, ground arith, avoids)
  | inl nothing ↦
      let same : x ≡ c = ground arith in ([], s, rw same refl, ground arith, rfind_none s c nothing)
]

-- The text that fields and their delimiter make.
unfoldable pub join : List (List ℕ) → ℕ → List ℕ
join [] delim = []
join (f ∷ []) delim = f
join (f ∷ g ∷ fs) delim = f ++ delim ∷ join (g ∷ fs) delim

split_from-append :
    (field str rest : List ℕ) (delim : ℕ)
    → Avoids delim str
    → split_from field (str ++ rest) delim ≡ split_from (field ++ str) rest delim
unfolding split_from
split_from-append field [] rest delim h = rw append-nil refl
split_from-append field (c ∷ str) rest delim h =
    rw (h.0, split_from-append (field ++ c ∷ []) str rest delim h.1, append_assoc field) refl

-- Fields that do not have the delimiter in them are what `split_fields` makes of them and it.
pub split_fields-join :
    (f : List ℕ) (fs : List (List ℕ)) (delim : ℕ)
    → All (Avoids delim) (f ∷ fs)
    → split_fields (join (f ∷ fs) delim) delim ≡ f ∷ fs
unfolding split_fields join split_from
split_fields-join f [] delim h = rw append-nil at (split_from-append [] f [] delim h.0)
split_fields-join f (g ∷ fs) delim h =
    rw
      (
        split_from-append [] f (delim ∷ join (g ∷ fs) delim) delim h.0,
        ==_self delim,
        split_fields-join g fs delim h.1,
      )
      refl

join-split_next :
    (f field str : List ℕ) (delim : ℕ)
    → join (f ∷ split_from field str delim) delim
      ≡ f ++ delim ∷ join (split_from field str delim) delim
unfolding join split_from
join-split_next f field [] delim = refl
join-split_next f field (c ∷ str) delim = elim (Bool-cases (c == delim)) [
  | inl e ↦ rw e refl
  | inr e ↦ rw e (join-split_next f (field ++ c ∷ []) str delim)
]

join-split_from :
    (field str : List ℕ) (delim : ℕ) → join (split_from field str delim) delim ≡ field ++ str
unfolding split_from join
join-split_from field [] delim = sym (append-nil field)
join-split_from field (c ∷ str) delim = elim (Bool-cases (c == delim)) [
  | inl e ↦
      let same : c ≡ delim = ground arith in
      rw (e, join-split_next field [] str delim, join-split_from [] str delim, same) refl
  | inr e ↦ rw (e, join-split_from (field ++ c ∷ []) str delim, append_assoc field) refl
]

-- What `split_fields` makes of a text, joined, is the text again.
pub join-split_fields : (str : List ℕ) (delim : ℕ) → join (split_fields str delim) delim ≡ str
unfolding split_fields
join-split_fields str delim = join-split_from [] str delim

-- A digit is read as its number.
pub parse_uint8-digit : (n : ℕ) → n < 10 → parse_uint8 ((b'0' + n) ∷ []) ≡ some n
unfolding parse_uint8 parse_digits
parse_uint8-digit n h = ground arith
