-- ===== src/Scenarios/Stun.antt =====
-- internal/traversal/stun/message.go: cases of the theorems.
use anti_nat.Common.{
  ℕ, ◌≡◌, refl, false, [], ◌∷◌, ◌++◌, arith, length, length-take, length-append, replicate, take,
}
use anti_nat.Net.Addr.{v4, v6, is_4in6}
use anti_nat.Traversal.Stun.{Bytes, Message, ok, count, count_type, section_length}
use anti_nat.Traversal.Stun.Wire.{
  parse_message, marshal, done, fingerprint_misplaced, header_wire, attributes_wire, attribute_wire,
}
use anti_nat.Traversal.Stun.Wire.Total.{Returns, parse_message-Returns}
use anti_nat.Traversal.Stun.Wire.RoundTrip.{IsEncodable, parse-marshal}
use anti_nat.Traversal.Stun.Address.{AddrPort, add_xor_mapped_address, xor_mapped_address}
use anti_nat.Traversal.Stun.Address.RoundTrip.{xor_mapped_v4}
use anti_nat.Traversal.Stun.Integrity.Signed.{IsSignable}
use anti_nat.Traversal.Stun.Integrity.Trip.{SignedTrip, signed_message_verifies}

abbrev txid : Bytes
txid = 1 ∷ 2 ∷ 3 ∷ 4 ∷ 5 ∷ 6 ∷ 7 ∷ 8 ∷ 9 ∷ 10 ∷ 11 ∷ 12 ∷ []

-- A binding request with a SOFTWARE attribute of three bytes.
abbrev request : Message
request = record {
  type = 1;
  transaction_id = txid;
  attributes = record { type = 0x8022; value = 97 ∷ 98 ∷ 99 ∷ [] } ∷ [];
  raw = [];
}

abbrev request_wire : Bytes
request_wire =
    0 ∷ 1 ∷ 0 ∷ 8 ∷ 33 ∷ 18 ∷ 164 ∷ 66 ∷ 1 ∷ 2 ∷ 3 ∷ 4 ∷ 5 ∷ 6 ∷ 7 ∷ 8 ∷ 9 ∷ 10 ∷ 11 ∷ 12 ∷ 128 ∷ 34
    ∷ 0 ∷ 3 ∷ 97 ∷ 98 ∷ 99 ∷ 0 ∷ []

request_marshals : marshal request ≡ done request_wire
unfolding marshal header_wire attributes_wire attribute_wire section_length
request_marshals = refl

request-IsEncodable : IsEncodable request
unfolding fingerprint_misplaced count_type
request-IsEncodable = record {
  typed = omega arith;
  id_length = refl;
  attributes_typed = omega arith;
  fingerprint_last = refl;
}

parse-marshal_example : parse_message request_wire ≡ done (record request { raw = request_wire })
parse-marshal_example = parse-marshal request request_wire request-IsEncodable request_marshals

-- An attribute whose value runs past the section.
parse_message-Returns_example : Returns (parse_message (take 26 request_wire))
parse_message-Returns_example = parse_message-Returns (take 26 request_wire)

Lacks : ℕ → Type 0
Lacks t = count request t ≡ 0

Lacks-xor : Lacks 0x0020
unfolding Lacks count count_type
Lacks-xor = refl

Lacks-alternate : Lacks 0x0023
unfolding Lacks count count_type
Lacks-alternate = refl

Lacks-error : Lacks 0x0009
unfolding Lacks count count_type
Lacks-error = refl

Lacks-unknown : Lacks 0x000A
unfolding Lacks count count_type
Lacks-unknown = refl

abbrev mapped : AddrPort
mapped = record { addr = v4 192 0 2 1; port = 32853 }

xor_mapped_v4_example :
    (m : Message) × (add_xor_mapped_address request mapped ≡ ok m)
    × (xor_mapped_address m ≡ ok mapped)
unfolding Lacks
xor_mapped_v4_example = xor_mapped_v4 request 192 0 2 1 32853 (omega arith) (omega arith) Lacks-xor

abbrev ip6 : Bytes
ip6 = 32 ∷ 1 ∷ 13 ∷ 184 ∷ replicate 11 0 ++ 1 ∷ []

ip6_is_plain : is_4in6 (v6 ip6 "") ≡ false
unfolding is_4in6
ip6_is_plain = refl

-- Stand-ins that depend on their inputs: 20 bytes of key and text, and the number of bytes.
abbrev toy_hmac : Bytes → Bytes → Bytes
toy_hmac key text = take 20 (key ++ (text ++ replicate 20 0))

length-toy_hmac : (key text : Bytes) → length (toy_hmac key text) ≡ 20
length-toy_hmac key text = omega (
  arith,
  length-take 20 (key ++ (text ++ replicate 20 0)),
  length-append key (text ++ replicate 20 0),
  length-append text (replicate 20 0),
)

request-IsSignable : IsSignable request
unfolding count count_type section_length
request-IsSignable = record {
  typed = omega arith;
  id_length = refl;
  attributes_typed = omega arith;
  unsigned = refl;
  unmarked = refl;
  fits = omega arith;
}

signed_message_verifies_example : SignedTrip toy_hmac length (1 ∷ 2 ∷ []) request
signed_message_verifies_example =
    signed_message_verifies toy_hmac length (1 ∷ 2 ∷ []) request length-toy_hmac request-IsSignable
