-- ===== src/Prelude/Text.antt =====
-- Go strings: their bytes, the tests of package strings that the program uses, and digests as
-- `validSHA256` (internal/ledger/ledger.go) and `validHash` (internal/promotion/ledger.go) see them.
use Prim.Native.Nat.{ℕ, zero, suc, ◌+◌, ◌*◌, ◌/◌, ◌%◌}
use Prim.Native.Char.{code}
use Prim.Native.String.{String}
use mathlib.Core.Bool.{Bool, true, false, ◌&&◌, ◌||◌}
use mathlib.Core.Option.{Option, none, some}
use mathlib.Core.List.{List, [], ◌∷◌, ◌++◌, reverse}
use agent_memory_system.Prelude.Tests.{ltb, leb, nat_eq, ◌==◌, if◌then◌else◌}
use agent_memory_system.Prelude.Lists.{length, all}

-- The code points of a string, `[]rune(s)`.
unfoldable pub runes : String → List ℕ
runes String.[] = []
runes (String.◌∷◌ c s) = code c ∷ runes s

-- The UTF-8 encoding of a code point.
unfoldable pub encode_rune : ℕ → List ℕ
encode_rune c =
    if ltb c 0x80
    then c ∷ []
    else if ltb c 0x800
    then (0xc0 + c / 64) ∷ (0x80 + c % 64) ∷ []
    else if ltb c 0x10000
    then (0xe0 + c / 4096) ∷ (0x80 + c / 64 % 64) ∷ (0x80 + c % 64) ∷ []
    else (0xf0 + c / 262144) ∷ (0x80 + c / 4096 % 64) ∷ (0x80 + c / 64 % 64) ∷ (0x80 + c % 64) ∷ []

unfoldable pub encode_runes : List ℕ → List ℕ
unfolding encode_rune
encode_runes [] = []
encode_runes (c ∷ cs) = encode_rune c ++ encode_runes cs

-- `[]byte(s)`.
unfoldable pub bytes : String → List ℕ
unfolding runes encode_runes
bytes s = encode_runes (runes s)

-- `len(s)`.
unfoldable pub len : String → ℕ
unfolding bytes
len s = length (bytes s)

-- `unicode.IsSpace`, which `strings.TrimSpace` and `bytes.TrimSpace` use.
unfoldable pub is_space : ℕ → Bool
is_space c =
    c == 9
    || c == 10
    || c == 11
    || c == 12
    || c == 13
    || c == 32
    || c == 0x85
    || c == 0xa0
    || c == 0x1680
    || (leb 0x2000 c && leb c 0x200a)
    || c == 0x2028
    || c == 0x2029
    || c == 0x202f
    || c == 0x205f
    || c == 0x3000

unfoldable pub trim_left : List ℕ → List ℕ
unfolding is_space
trim_left [] = []
trim_left (c ∷ cs) = let rest = trim_left cs in if is_space c then rest else c ∷ cs

-- `strings.TrimSpace`, over code points.
unfoldable pub trim_space : List ℕ → List ℕ
unfolding trim_left
trim_space cs = reverse (trim_left (reverse (trim_left cs)))

-- A sequence of two or of three bytes that encodes a white-space rune.
unfoldable pub is_space_2 : ℕ → ℕ → Bool
unfolding is_space
is_space_2 c d =
    leb 0xc2 c && leb c 0xdf && leb 0x80 d && leb d 0xbf && is_space ((c % 32) * 64 + d % 64)

unfoldable pub is_space_3 : ℕ → ℕ → ℕ → Bool
unfolding is_space
is_space_3 c d e =
    leb 0xe1 c
    && leb c 0xef
    && leb 0x80 d
    && leb d 0xbf
    && leb 0x80 e
    && leb e 0xbf
    && is_space ((c % 16) * 4096 + (d % 64) * 64 + e % 64)

unfoldable pub is_space_1 : ℕ → Bool
unfolding is_space
is_space_1 c = leb c 0x7f && is_space c

-- The size of the white-space rune that the bytes start with, as `utf8.DecodeRune` reads it, or 0.
-- None takes four bytes, and one that starts with 0xe0 is below U+1000.
unfoldable pub first_space : List ℕ → ℕ
unfolding is_space_1 is_space_2 is_space_3
first_space [] = 0
first_space (c ∷ []) = if is_space_1 c then 1 else 0
first_space (c ∷ d ∷ []) = if is_space_1 c then 1 else if is_space_2 c d then 2 else 0
first_space (c ∷ d ∷ e ∷ cs) =
    if is_space_1 c then 1 else if is_space_2 c d then 2 else if is_space_3 c d e then 3 else 0

-- The same of the rune at the end, as `utf8.DecodeLastRune` reads it, the bytes reversed.
unfoldable pub last_space : List ℕ → ℕ
unfolding is_space_1 is_space_2 is_space_3
last_space [] = 0
last_space (c ∷ []) = if is_space_1 c then 1 else 0
last_space (c ∷ d ∷ []) = if is_space_1 c then 1 else if is_space_2 d c then 2 else 0
last_space (c ∷ d ∷ e ∷ cs) =
    if is_space_1 c then 1 else if is_space_2 d c then 2 else if is_space_3 e d c then 3 else 0

-- The loop over the runes, with the bytes of a white-space rune that are left to skip.
unfoldable pub skip_spaces : (List ℕ → ℕ) → ℕ → List ℕ → List ℕ
skip_spaces size n [] = []
skip_spaces size (suc n) (c ∷ cs) = skip_spaces size n cs
skip_spaces size zero (c ∷ cs) = elim (size (c ∷ cs)) [
  | zero ↦ c ∷ cs
  | suc n ↦ skip_spaces size n cs
]

-- `bytes.TrimSpace`.
unfoldable pub trim_bytes : List ℕ → List ℕ
unfolding first_space last_space skip_spaces
trim_bytes cs = reverse (skip_spaces last_space 0 (reverse (skip_spaces first_space 0 cs)))

unfoldable pub runes_eq : List ℕ → List ℕ → Bool
runes_eq [] [] = true
runes_eq (c ∷ cs) (d ∷ ds) = c == d && runes_eq cs ds
runes_eq _ _ = false

-- `strings.TrimSpace(s) == ""`.
unfoldable pub is_blank : String → Bool
unfolding is_space runes all
is_blank s = all is_space (runes s)

-- `s == strings.TrimSpace(s)`.
unfoldable pub is_trimmed : String → Bool
unfolding runes trim_space runes_eq
is_trimmed s = runes_eq (trim_space (runes s)) (runes s)

-- What `strings.TrimPrefix` leaves if `strings.HasPrefix` holds.
unfoldable pub after_prefix : List ℕ → List ℕ → Option (List ℕ)
after_prefix [] cs = some cs
after_prefix (p ∷ ps) [] = none
after_prefix (p ∷ ps) (c ∷ cs) = if p == c then after_prefix ps cs else none

unfoldable pub has_prefix : String → String → Bool
unfolding runes after_prefix
has_prefix s p = elim (after_prefix (runes p) (runes s)) [ none ↦ false | some _ ↦ true ]

-- A digit that hex.DecodeString accepts and strings.ToLower keeps.
unfoldable pub is_lower_hex : ℕ → Bool
is_lower_hex c = (leb b'0' c && leb c b'9') || (leb b'a' c && leb c b'f')

unfoldable pub is_digest : List ℕ → Bool
unfolding is_lower_hex all
is_digest cs = length cs == 64 && all is_lower_hex cs

-- 64 lowercase hexadecimal digits.
unfoldable pub valid_sha256 : String → Bool
unfolding runes is_digest
valid_sha256 s = is_digest (runes s)

-- The prefix, and a digest after it.
unfoldable pub valid_prefixed_hash : String → String → Bool
unfolding runes after_prefix is_digest
valid_prefixed_hash s p = elim (after_prefix (runes p) (runes s)) [
  | none ↦ false
  | some rest ↦ is_digest rest
]

-- What may follow a lead byte: the number of bytes, and the range of the first of them.
unfoldable pub lead_byte : ℕ → Option (ℕ × ℕ × ℕ)
lead_byte b =
    if ltb b 0x80
    then some (0, 0, 0)
    else if leb 0xc2 b && leb b 0xdf
    then some (1, 0x80, 0xbf)
    else if b == 0xe0
    then some (2, 0xa0, 0xbf)
    else if b == 0xed
    then some (2, 0x80, 0x9f)
    else if leb 0xe1 b && leb b 0xef
    then some (2, 0x80, 0xbf)
    else if b == 0xf0
    then some (3, 0x90, 0xbf)
    else if leb 0xf1 b && leb b 0xf3
    then some (3, 0x80, 0xbf)
    else if b == 0xf4
    then some (3, 0x80, 0x8f)
    else none

-- `utf8.Valid` behind a character of which `pending` bytes are missing.
unfoldable pub valid_from : ℕ → ℕ → ℕ → List ℕ → Bool
unfolding lead_byte
valid_from pending low high [] = pending == 0
valid_from zero low high (b ∷ bs) = elim (lead_byte b) [
  | none ↦ false
  | some (n, l, h) ↦ valid_from n l h bs
]
valid_from (suc pending) low high (b ∷ bs) =
    leb low b && leb b high && valid_from pending 0x80 0xbf bs

-- `utf8.ValidString`.
unfoldable pub valid_utf8 : List ℕ → Bool
unfolding valid_from
valid_utf8 = valid_from 0 0 0
