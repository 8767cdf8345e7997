-- ===== src/Config/Address.antt =====
-- `isIPv4` and `isIPv4Mask` of internal/config/validate.go, with what they use of Go's net package:
-- `net.ParseIP` (the parser of net/netip; a zone is refused), `IP.To4` and `IPMask.Size`.
pub mod Dotted
pub mod Fuel
use autodeploy_web.Base.{
  ℕ, zero, suc, ◌+◌, ◌-◌, ◌*◌, ◌/◌, ◌%◌, Bool, true, false, List, [], ◌∷◌, ◌++◌, Option, none, some,
  Text, ◌==◌, ltb, leb, if◌then◌else◌, ◌&&◌, ◌||◌, not, is_empty, take, drop, any,
}
use autodeploy_web.Config.Patterns.{is_digit}

-- `parseIPv4Fields`: whether a field begins here, the value of the octet, its digits, the octets
-- behind, and the bytes that are left.
unfoldable pub fields_loop : Bool → ℕ → ℕ → ℕ → List ℕ → Text → Option (List ℕ)
unfolding is_digit
fields_loop at_start val dig_len pos fields [] =
    if ltb pos 3 then none else some (fields ++ val ∷ [])
fields_loop at_start val dig_len pos fields (c ∷ s) =
    let v = val * 10 + (c - b'0') in
    let in_octet = fields_loop false v (dig_len + 1) pos fields s in
    let next_octet = fields_loop true 0 0 (pos + 1) (fields ++ val ∷ []) s in
    if is_digit c
    then (if dig_len == 1 && val == 0 then none else if ltb 255 v then none else in_octet)
    else if c == b'.'
    then (if at_start || is_empty s then none else if pos == 3 then none else next_octet)
    else none

unfoldable pub ipv4_fields : Text → Option (List ℕ)
unfolding fields_loop
ipv4_fields s = fields_loop true 0 0 0 [] s

hex_value : ℕ → Option ℕ
hex_value c =
    if leb b'0' c && leb c b'9'
    then some (c - b'0')
    else if leb b'a' c && leb c b'f'
    then some (c - b'a' + 10)
    else if leb b'A' c && leb c b'F'
    then some (c - b'A' + 10)
    else none

-- The digits of one hexadecimal field: its value, how many there were, and the rest.
hex_field : ℕ → ℕ → Text → Option (ℕ × ℕ × Text)
unfolding hex_value
hex_field acc off [] = some (acc, off, [])
hex_field acc off (c ∷ s) = elim (hex_value c) [
  | none ↦ some (acc, off, c ∷ s)
  | some d ↦
      if ltb 3 off
      then none
      else if ltb 65535 (acc * 16 + d)
      then none
      else hex_field (acc * 16 + d) (off + 1) s
]

record V6 : Type 0 where
  bytes : List ℕ
  count : ℕ
  ellipsis : Option ℕ
  rest : Text

abbrev starts_with_byte : ℕ → Text → Bool
starts_with_byte b [] = false
starts_with_byte b (c ∷ _) = c == b

-- After a 16-bit field, with `s` the text behind it; the flag tells whether the loop goes on.
after_field : V6 → Option (Bool × V6)
after_field v = elim v.rest [
  | [] ↦ some (false, v)
  | c ∷ s ↦
      if not (c == b':') || is_empty s
      then none
      else if starts_with_byte b':' s
      then elim v.ellipsis [
        | some _ ↦ none
        | none ↦
            let w = record v { ellipsis = some v.count; rest = drop 1 s } in
            some (not (is_empty (drop 1 s)), w)
      ]
      else some (true, record v { rest = s })
]

embedded : V6 → Option V6
embedded v =
    if elim v.ellipsis [ none ↦ not (v.count == 12) | some _ ↦ false ]
    then none
    else if ltb 16 (v.count + 4)
    then none
    else elim (ipv4_fields v.rest) [
      | none ↦ none
      | some f ↦ some (record v { bytes = v.bytes ++ f; count = v.count + 4; rest = [] })
    ]

-- `for i < 16`: a round adds two or four bytes, so eight rounds are enough.
v6_loop : ℕ → V6 → Option V6
unfolding hex_field after_field embedded
v6_loop zero v = some v
v6_loop (suc fuel) v = if not (ltb v.count 16) then some v else elim (hex_field 0 0 v.rest) [
  | none ↦ none
  | some (acc, off, s) ↦
      if off == 0
      then none
      else if starts_with_byte b'.' s
      then embedded v
      else elim (after_field (record v {
        bytes = v.bytes ++ acc / 256 ∷ acc % 256 ∷ [];
        count = v.count + 2;
        rest = s;
      })) [ none ↦ none | some (more, w) ↦ elim more [ true ↦ v6_loop fuel w | false ↦ some w ] ]
]

zeros : ℕ → List ℕ
zeros zero = []
zeros (suc n) = 0 ∷ zeros n

finish_v6 : V6 → Option (List ℕ)
unfolding zeros
finish_v6 v =
    if not (is_empty v.rest)
    then none
    else if ltb v.count 16
    then elim v.ellipsis [
      | none ↦ none
      | some e ↦ some (take e v.bytes ++ zeros (16 - v.count) ++ drop e v.bytes)
    ]
    else elim v.ellipsis [ none ↦ some v.bytes | some _ ↦ none ]

start_v6 : Text → V6
start_v6 (c ∷ d ∷ s) =
    if c == b':' && d == b':'
    then record { bytes = []; count = 0; ellipsis = some 0; rest = s }
    else record { bytes = []; count = 0; ellipsis = none; rest = c ∷ d ∷ s }
start_v6 s = record { bytes = []; count = 0; ellipsis = none; rest = s }

-- `parseIPv6`; `net.ParseIP` refuses every address with a zone.
unfoldable pub parse_ipv6 : Text → Option (List ℕ)
unfolding v6_loop finish_v6 start_v6
parse_ipv6 s =
    if any (λ c. c == b'%') s
    then none
    else let v = start_v6 s in
      if is_empty v.rest && not (is_empty s)
      then some (zeros 16)
      else elim (v6_loop 8 v) [ none ↦ none | some w ↦ finish_v6 w ]

-- An IPv4 address in its 16-byte form.
abbrev pub mapped : List ℕ → List ℕ
mapped f = 0 ∷ 0 ∷ 0 ∷ 0 ∷ 0 ∷ 0 ∷ 0 ∷ 0 ∷ 0 ∷ 0 ∷ 255 ∷ 255 ∷ f

-- `netip.ParseAddr` goes by the first byte that tells the kinds apart.
unfoldable pub parse_by : Text → Text → Option (List ℕ)
parse_by s [] = none
parse_by s (c ∷ t) =
    let rest = parse_by s t in
    if c == b'.'
    then elim (ipv4_fields s) [ none ↦ none | some f ↦ some (mapped f) ]
    else if c == b':'
    then parse_ipv6 s
    else if c == b'%'
    then none
    else rest

unfoldable pub parse_ip : Text → Option (List ℕ)
unfolding parse_by
parse_ip s = parse_by s s

-- `To4`: the last four bytes of a mapped address.
unfoldable pub to4 : List ℕ → Option (List ℕ)
to4 ip =
    if not (any (λ b. not (b == 0)) (take 10 ip)) && text_is_ff (drop 10 ip)
    then some (drop 12 ip)
    else none
  where
    text_is_ff : List ℕ → Bool
    text_is_ff (a ∷ b ∷ _) = a == 255 && b == 255
    text_is_ff _ = false

unfoldable pub is_ipv4 : Text → Bool
is_ipv4 s = elim (parse_ip s) [
  | none ↦ false
  | some ip ↦ elim (to4 ip) [ none ↦ false | some _ ↦ true ]
]

-- `for v&0x80 != 0 { n++; v <<= 1 }` on a byte.
unfoldable pub lead_ones : ℕ → ℕ → ℕ → ℕ × ℕ
lead_ones zero v n = (n, v)
lead_ones (suc fuel) v n =
    let rest = lead_ones fuel (v * 2 % 256) (n + 1) in if leb 128 v then rest else (n, v)

-- `simpleMaskLength`; `none` is its -1.
unfoldable pub mask_length : ℕ → List ℕ → Option ℕ
unfolding lead_ones
mask_length n [] = some n
mask_length n (v ∷ m) =
    let rest = mask_length (n + 8) m in
    if v == 255
    then rest
    else let (ones, left) = lead_ones 8 v 0 in
      if left == 0 && not (any (λ b. not (b == 0)) m) then some (n + ones) else none

unfoldable pub is_ipv4_mask : Text → Bool
is_ipv4_mask s = elim (parse_ip s) [
  | none ↦ false
  | some ip ↦ elim (to4 ip) [
    | none ↦ false
    | some m ↦ elim (mask_length 0 m) [ none ↦ false | some ones ↦ ltb 0 ones && leb ones 32 ]
  ]
]
