-- ===== src/Wire/Layout.antt =====
-- PROTOCOL.md, layer 3: the bytes of each message and the ranges of its fields, written down apart
-- from the code that encodes and decodes them.
use httppooler.Base.{ℕ, ◌<◌, ◌≤◌, ◌^◌, ◌≡◌, true, List, [], ◌∷◌, ◌++◌, length, All}
use httppooler.Base.Bytes.{Bytes, AreBytes, to_le}
use httppooler.Base.Utf8.{valid_utf8}
use httppooler.Wire.Message.{Header, ProviderInfo, Message, kind}

abbrev pub str8_layout : Bytes → Bytes
str8_layout s = to_le 1 (length s) ++ s

abbrev pub str16_layout : Bytes → Bytes
str16_layout s = to_le 2 (length s) ++ s

abbrev pub header_layout : Header → Bytes
header_layout h = str8_layout h.name ++ str16_layout h.value

abbrev pub provider_layout : ProviderInfo → Bytes
provider_layout p = str8_layout p.service ++ (to_le 2 p.max_concurrent ++ to_le 2 p.priority)

abbrev pub each_layout : {A : Type 0} → (A → Bytes) → List A → Bytes
each_layout f [] = []
each_layout f (x ∷ xs) = f x ++ each_layout f xs

abbrev pub headers_layout : List Header → Bytes
headers_layout hs = to_le 2 (length hs) ++ each_layout header_layout hs

-- What follows the kind byte.
abbrev pub fields_layout : Message → Bytes
fields_layout (Message.hello name ps) =
    str8_layout name ++ (to_le 1 (length ps) ++ each_layout provider_layout ps)
fields_layout Message.ping = []
fields_layout Message.pong = []
fields_layout (Message.request id service method target hs) =
    to_le 8 id
    ++ (str8_layout service ++ (str8_layout method ++ (str16_layout target ++ headers_layout hs)))
fields_layout (Message.response id s hs) = to_le 8 id ++ (to_le 2 s ++ headers_layout hs)
fields_layout (Message.body id bytes) = to_le 8 id ++ (to_le 4 (length bytes) ++ bytes)
fields_layout (Message.end id trailers) = to_le 8 id ++ headers_layout trailers
fields_layout (Message.cancel id) = to_le 8 id
fields_layout (Message.fail id reason) = to_le 8 id ++ str16_layout reason

abbrev pub layout : Message → Bytes
layout m = kind m ∷ fields_layout m

-- The ranges that PROTOCOL.md states.
abbrev pub IsStr8 : Bytes → Type 0
IsStr8 s = length s ≤ 255

abbrev pub IsStr16 : Bytes → Type 0
IsStr16 s = length s ≤ 65535

abbrev pub IsName8 : Bytes → Type 0
IsName8 s = (valid_utf8 s ≡ true) × IsStr8 s

abbrev pub IsText16 : Bytes → Type 0
IsText16 s = (valid_utf8 s ≡ true) × IsStr16 s

abbrev pub IsHeader : Header → Type 0
IsHeader h = IsStr8 h.name × IsStr16 h.value

abbrev pub AreHeaders : List Header → Type 0
AreHeaders hs = (length hs ≤ 65535) × All IsHeader hs

abbrev pub IsProvider : ProviderInfo → Type 0
IsProvider p = IsName8 p.service × (1 ≤ p.max_concurrent)

abbrev pub IsChunk : Bytes → Type 0
IsChunk p = (1 ≤ length p) × (length p ≤ 4294967295)

abbrev pub IsStatus : ℕ → Type 0
IsStatus s = (100 ≤ s) × (s ≤ 599)

abbrev pub IsValid : Message → Type 0
IsValid (Message.hello name ps) = IsName8 name × ((length ps ≤ 255) × All IsProvider ps)
IsValid Message.ping = Unit
IsValid Message.pong = Unit
IsValid (Message.request id service method target hs) =
    (1 ≤ id) × (IsName8 service × (IsStr8 method × (IsStr16 target × AreHeaders hs)))
IsValid (Message.response id s hs) = (1 ≤ id) × (IsStatus s × AreHeaders hs)
IsValid (Message.body id bytes) = (1 ≤ id) × IsChunk bytes
IsValid (Message.end id trailers) = (1 ≤ id) × AreHeaders trailers
IsValid (Message.cancel id) = 1 ≤ id
IsValid (Message.fail id reason) = (1 ≤ id) × IsText16 reason

-- The values that the Go types of the fields hold: uint64, uint16 and strings of bytes.
abbrev pub HeaderFits : Header → Type 0
HeaderFits h = AreBytes h.name × AreBytes h.value

abbrev pub ProviderFits : ProviderInfo → Type 0
ProviderFits p = AreBytes p.service × ((p.max_concurrent < 65536) × (p.priority < 65536))

abbrev pub Fits : Message → Type 0
Fits (Message.hello name ps) = AreBytes name × All ProviderFits ps
Fits Message.ping = Unit
Fits Message.pong = Unit
Fits (Message.request id service method target hs) =
    (id < 2 ^ 64) × (AreBytes service × (AreBytes method × (AreBytes target × All HeaderFits hs)))
Fits (Message.response id s hs) = (id < 2 ^ 64) × ((s < 65536) × All HeaderFits hs)
Fits (Message.body id bytes) = (id < 2 ^ 64) × AreBytes bytes
Fits (Message.end id trailers) = (id < 2 ^ 64) × All HeaderFits trailers
Fits (Message.cancel id) = id < 2 ^ 64
Fits (Message.fail id reason) = (id < 2 ^ 64) × AreBytes reason
