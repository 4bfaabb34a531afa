-- ===== src/Registry/Refinement.antt =====
-- `MessageRegistry` in use keeps what a map from types to decoders promises.
use pgais.Base.{
  ℕ, zero, suc, replicate, Bool-cases, length-set, ◌≡◌, refl, ap, ap₂, ◌∙◌, arith, List, [], ◌∷◌,
  ◌++◌, Bool, true, false, ◌&&◌, ◌||◌, ◌==◌, ltb, if◌then◌else◌, Option, none, some, get_or, codes,
  inl, inr,
}
use mathlib.Core.Path.{fun_ext}
use pgais.Error.{
  Result, ◌>>=◌, fail_with, to_string, payload_too_short, message_type_unknown,
  message_type_unsupported,
}
use pgais.Bitfield.Reader.{bit_length}
use pgais.Payload.{decode_payload}
use pgais.Message.{message_type_name, message_type_from_id}
use pgais.Registry.{
  Message, Decoder, Registry, new_registry, in_range, is_some, register_decoder, has_decoder, clear,
  decode, register_all_decoders,
}
use pgais.Registry.Dispatch.{
  IsRegistry, length-clear, get_or-clear, get_or-register_decoder, registered,
  register_all_decoders_lem,
}
use pgais.Registry.Outcomes.{type_bits, decode-cases}

pub data Operation : Type 0 where
  add : ℕ → Option Decoder → Operation
  add_all : Operation
  remove_all : Operation
  ask : ℕ → Operation
  read : List ℕ → ℕ → Operation

pub data Answer : Type 0 where
  done : Answer
  yes_no : Bool → Answer
  message : Result Message → Answer

-- The calls of the source.
unfoldable pub perform : Operation → Registry → Registry × Answer
perform (add type_id fn) ds = (register_decoder type_id fn ds, done)
perform add_all ds = (register_all_decoders ds, done)
perform remove_all ds = (clear ds, done)
perform (ask type_id) ds = (ds, yes_no (has_decoder type_id ds))
perform (read payload fill_bits) ds = (ds, message (decode ds payload fill_bits))

unfoldable pub perform_all : List Operation → Registry → List Answer
perform_all [] ds = []
perform_all (op ∷ ops) ds = let (ds', answer) = perform op ds in answer ∷ perform_all ops ds'

-- The abstract registry.
abbrev pub Decoders : Type 0
Decoders = ℕ → Option Decoder

-- What the decoder for the number in a buffer's first six bits returns.
abbrev pub decode_by : Decoders → List ℕ → Result Message
decode_by f buf =
    if type_bits buf == 0 || ltb 27 (type_bits buf)
    then fail_with message_type_unknown (codes "type_id=" ++ to_string (type_bits buf))
    else elim (f (type_bits buf)) [
      | none ↦
          fail_with message_type_unsupported
            (message_type_name (message_type_from_id (type_bits buf)))
      | some decoder ↦ decoder buf
    ]

unfoldable pub decode_with : Decoders → List ℕ → ℕ → Result Message
decode_with f payload fill_bits = do
  buf ← decode_payload payload fill_bits
  if ltb (bit_length buf) 6
      then fail_with payload_too_short (codes "cannot read message type field")
      else decode_by f buf

unfoldable pub promise : Operation → Decoders → Decoders × Answer
promise (add type_id fn) f = (λ j. if in_range type_id && j == type_id then fn else f j, done)
promise add_all f = (λ j. get_or (registered f) j none, done)
promise remove_all f = (λ j. none, done)
promise (ask type_id) f = (f, yes_no (in_range type_id && is_some (f type_id)))
promise (read payload fill_bits) f = (f, message (decode_with f payload fill_bits))

unfoldable pub promise_all : List Operation → Decoders → List Answer
promise_all [] f = []
promise_all (op ∷ ops) f = let (f', answer) = promise op f in answer ∷ promise_all ops f'

-- The array has an entry for each type, and the entries are the decoders.
record Agrees (ds : Registry) (f : Decoders) : Type 0 where
  pub size : IsRegistry ds
  pub entries : (j : ℕ) → get_or ds j none ≡ f j

decode-decode_with :
    (ds : Registry) (payload : List ℕ) (fill_bits : ℕ)
    → decode ds payload fill_bits ≡ decode_with (λ j. get_or ds j none) payload fill_bits
unfolding decode_with
decode-decode_with ds payload fill_bits = elim (decode-cases ds payload fill_bits) [
  | inl (e, p, d) ↦ d ∙ rw p refl
  | inr (buf, p, inl (k, d)) ↦
      let few : ltb (bit_length buf) 6 ≡ true = ground arith in d ∙ rw (p, few) refl
  | inr (buf, p, inr (k, d)) ↦
      let enough : ltb (bit_length buf) 6 ≡ false = ground arith in d ∙ rw (p, enough) refl
]

length-register_decoder :
    (ds : Registry) (i : ℕ) (fn : Option Decoder)
    → IsRegistry ds
    → IsRegistry (register_decoder i fn ds)
unfolding register_decoder
length-register_decoder ds i fn h = elim (Bool-cases (in_range i)) [
  | inl e ↦ rw e (length-set ds i fn ∙ h)
  | inr e ↦ rw e h
]

has_decoder-entry :
    (i : ℕ) (ds : Registry) → has_decoder i ds ≡ (in_range i && is_some (get_or ds i none))
unfolding has_decoder
has_decoder-entry i ds = elim (Bool-cases (in_range i)) [ inl e ↦ rw e refl | inr e ↦ rw e refl ]

-- Both registries after an operation, and that the answers are the same.
perform-Agrees :
    (op : Operation) (ds : Registry) (f : Decoders)
    → Agrees ds f
    → Agrees (perform op ds).0 (promise op f).0 × ((perform op ds).1 ≡ (promise op f).1)
unfolding perform promise
perform-Agrees (add type_id fn) ds f a = (
  record {
    size = length-register_decoder ds type_id fn a.size;
    entries = λ j. get_or-register_decoder ds type_id j fn a.size ∙ rw (a.entries j) refl;
  },
  refl,
)
perform-Agrees add_all ds f a =
    let installed : register_all_decoders ds ≡ registered f =
      (register_all_decoders_lem ds a.size).0 ∙ ap registered (fun_ext a.entries) in
    (record { size = rw installed refl; entries = λ j. rw installed refl }, refl)
perform-Agrees remove_all ds f a =
    (record { size = length-clear ds ∙ a.size; entries = λ j. get_or-clear ds j }, refl)
perform-Agrees (ask type_id) ds f a = (
  a,
  ap yes_no (
      has_decoder-entry type_id ds
      ∙ ap (λ (o : Option Decoder). in_range type_id && is_some o) (a.entries type_id)),
)
perform-Agrees (read payload fill_bits) ds f a = (
  a,
  ap message (
      decode-decode_with ds payload fill_bits
      ∙ ap (λ (g : Decoders). decode_with g payload fill_bits) (fun_ext a.entries)),
)

perform_all-agrees :
    (ops : List Operation) (ds : Registry) (f : Decoders)
    → Agrees ds f
    → perform_all ops ds ≡ promise_all ops f
unfolding perform_all promise_all
perform_all-agrees [] ds f a = refl
perform_all-agrees (op ∷ ops) ds f a =
    let (next, same) = perform-Agrees op ds f a in
    ap₂ ◌∷◌ same (perform_all-agrees ops (perform op ds).0 (promise op f).0 next)

get_or_nothing : (n j : ℕ) → ◌≡◌ {A = Option Decoder} (get_or (replicate n none) j none) none
get_or_nothing zero j = refl
get_or_nothing (suc n) zero = refl
get_or_nothing (suc n) (suc j) = get_or_nothing n j

new_registry-Agrees : Agrees new_registry (λ j. none)
unfolding new_registry
new_registry-Agrees = record { size = refl; entries = λ j. get_or_nothing 28 j }

-- From a new registry on, whatever calls of `register_decoder`, `register_all_decoders`, `clear`,
-- `has_decoder` and `decode` come in any order: each query answers as a map from types to decoders
-- promises. A registration, of a decoder or of `nullptr`, sets its type if that is in 1 to 27,
-- `register_all_decoders` sets the twelve types that have a class, `clear` removes every decoder;
-- `has_decoder` asks the map, and `decode` hands the unpacked payload to the decoder that the map has
-- for the number in its first six bits.
pub perform_all-promise_all :
    (ops : List Operation) → perform_all ops new_registry ≡ promise_all ops (λ j. none)
perform_all-promise_all ops = perform_all-agrees ops new_registry (λ j. none) new_registry-Agrees
