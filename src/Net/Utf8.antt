-- ===== src/Net/Utf8.antt =====
-- unicode/utf8: `Valid`, which the WebSocket parser calls on text, as an automaton over the bytes.
use live_chat_room.Prelude.{
  ℕ, ◌-◌, Bool, false, ◌&&◌, Option, none, some, List, [], ◌∷◌, if◌then◌else◌, ltb, leb, ◌==◌,
}

-- The continuation bytes still to come, and the range of the next one.
pub record Expected : Type 0 where
  pub count : ℕ
  pub low : ℕ
  pub high : ℕ

abbrev pub expect : ℕ → ℕ → ℕ → Option Expected
expect count low high = some (record { count = count; low = low; high = high })

-- What the first byte of a character announces.
unfoldable pub first_byte : ℕ → Option Expected
first_byte b =
    if ltb b 0x80
    then expect 0 0 0
    else if ltb b 0xC2
    then none
    else if ltb b 0xE0
    then expect 1 0x80 0xBF
    else if b == 0xE0
    then expect 2 0xA0 0xBF
    else if b == 0xED
    then expect 2 0x80 0x9F
    else if ltb b 0xF0
    then expect 2 0x80 0xBF
    else if b == 0xF0
    then expect 3 0x90 0xBF
    else if ltb b 0xF4
    then expect 3 0x80 0xBF
    else if b == 0xF4
    then expect 3 0x80 0x8F
    else none

unfoldable pub read_byte : Expected → ℕ → Option Expected
unfolding first_byte
read_byte e b =
    if e.count == 0
    then first_byte b
    else if leb e.low b && leb b e.high
    then expect (e.count - 1) 0x80 0xBF
    else none

unfoldable pub utf8_from : Option Expected → List ℕ → Bool
unfolding read_byte
utf8_from none bs = false
utf8_from (some e) [] = e.count == 0
utf8_from (some e) (b ∷ bs) = utf8_from (read_byte e b) bs

-- `utf8.Valid`
unfoldable pub utf8_valid : List ℕ → Bool
unfolding utf8_from
utf8_valid bs = utf8_from (expect 0 0 0) bs
