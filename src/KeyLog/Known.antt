-- ===== src/KeyLog/Known.antt =====
-- The table of the keys that have a name: src/guaclog/keydef.c.
use guacenc.Base.{ℕ, Bool, true, false, Option, none, some, List, [], ◌∷◌}
use guacenc.Base.Int.{ℤ, pos}

-- `guaclog_keydef`: the value is none for NULL.
pub record Keydef : Type 0 where
  pub keysym : ℤ
  pub name : List ℕ
  pub value : Option (List ℕ)
  pub modifier : Bool

-- A key that types nothing, a key that types a text, and a modifier.
abbrev plain : ℕ → List ℕ → Keydef
plain keysym name = record { keysym = pos keysym; name = name; value = none; modifier = false }

abbrev typing : ℕ → List ℕ → List ℕ → Keydef
typing keysym name value = record {
  keysym = pos keysym;
  name = name;
  value = some value;
  modifier = false;
}

abbrev holding : ℕ → List ℕ → Option (List ℕ) → Keydef
holding keysym name value = record {
  keysym = pos keysym;
  name = name;
  value = value;
  modifier = true;
}

-- `known_keys`
abbrev pub known_keys : List Keydef
known_keys =
    holding 0xFE03 (b'A' ∷ b'l' ∷ b't' ∷ b'G' ∷ b'r' ∷ []) (some [])
    ∷ plain 0xFF08 (b'B' ∷ b'a' ∷ b'c' ∷ b'k' ∷ b's' ∷ b'p' ∷ b'a' ∷ b'c' ∷ b'e' ∷ [])
    ∷ plain 0xFF09 (b'T' ∷ b'a' ∷ b'b' ∷ [])
    ∷ plain 0xFF0B (b'C' ∷ b'l' ∷ b'e' ∷ b'a' ∷ b'r' ∷ [])
    ∷ typing 0xFF0D (b'R' ∷ b'e' ∷ b't' ∷ b'u' ∷ b'r' ∷ b'n' ∷ []) (0x0A ∷ [])
    ∷ plain 0xFF13 (b'P' ∷ b'a' ∷ b'u' ∷ b's' ∷ b'e' ∷ [])
    ∷ plain 0xFF14 (b'S' ∷ b'c' ∷ b'r' ∷ b'o' ∷ b'l' ∷ b'l' ∷ [])
    ∷ plain 0xFF15 (b'S' ∷ b'y' ∷ b's' ∷ b'R' ∷ b'e' ∷ b'q' ∷ [])
    ∷ plain 0xFF1B (b'E' ∷ b's' ∷ b'c' ∷ b'a' ∷ b'p' ∷ b'e' ∷ [])
    ∷ plain 0xFF50 (b'H' ∷ b'o' ∷ b'm' ∷ b'e' ∷ [])
    ∷ plain 0xFF51 (b'L' ∷ b'e' ∷ b'f' ∷ b't' ∷ [])
    ∷ plain 0xFF52 (b'U' ∷ b'p' ∷ [])
    ∷ plain 0xFF53 (b'R' ∷ b'i' ∷ b'g' ∷ b'h' ∷ b't' ∷ [])
    ∷ plain 0xFF54 (b'D' ∷ b'o' ∷ b'w' ∷ b'n' ∷ [])
    ∷ plain 0xFF55 (b'P' ∷ b'a' ∷ b'g' ∷ b'e' ∷ b' ' ∷ b'U' ∷ b'p' ∷ [])
    ∷ plain 0xFF56 (b'P' ∷ b'a' ∷ b'g' ∷ b'e' ∷ b' ' ∷ b'D' ∷ b'o' ∷ b'w' ∷ b'n' ∷ [])
    ∷ plain 0xFF57 (b'E' ∷ b'n' ∷ b'd' ∷ [])
    ∷ plain 0xFF63 (b'I' ∷ b'n' ∷ b's' ∷ b'e' ∷ b'r' ∷ b't' ∷ [])
    ∷ plain 0xFF65 (b'U' ∷ b'n' ∷ b'd' ∷ b'o' ∷ [])
    ∷ plain 0xFF6A (b'H' ∷ b'e' ∷ b'l' ∷ b'p' ∷ [])
    ∷ plain 0xFF7F (b'N' ∷ b'u' ∷ b'm' ∷ [])
    ∷ typing 0xFF80 (b'S' ∷ b'p' ∷ b'a' ∷ b'c' ∷ b'e' ∷ []) (b' ' ∷ [])
    ∷ typing 0xFF8D (b'E' ∷ b'n' ∷ b't' ∷ b'e' ∷ b'r' ∷ []) (0x0A ∷ [])
    ∷ plain 0xFF95 (b'H' ∷ b'o' ∷ b'm' ∷ b'e' ∷ [])
    ∷ plain 0xFF96 (b'L' ∷ b'e' ∷ b'f' ∷ b't' ∷ [])
    ∷ plain 0xFF97 (b'U' ∷ b'p' ∷ [])
    ∷ plain 0xFF98 (b'R' ∷ b'i' ∷ b'g' ∷ b'h' ∷ b't' ∷ [])
    ∷ plain 0xFF99 (b'D' ∷ b'o' ∷ b'w' ∷ b'n' ∷ [])
    ∷ plain 0xFF9A (b'P' ∷ b'a' ∷ b'g' ∷ b'e' ∷ b' ' ∷ b'U' ∷ b'p' ∷ [])
    ∷ plain 0xFF9B (b'P' ∷ b'a' ∷ b'g' ∷ b'e' ∷ b' ' ∷ b'D' ∷ b'o' ∷ b'w' ∷ b'n' ∷ [])
    ∷ plain 0xFF9C (b'E' ∷ b'n' ∷ b'd' ∷ [])
    ∷ plain 0xFF9E (b'I' ∷ b'n' ∷ b's' ∷ b'e' ∷ b'r' ∷ b't' ∷ [])
    ∷ typing 0xFFAA (b'*' ∷ []) (b'*' ∷ [])
    ∷ typing 0xFFAB (b'+' ∷ []) (b'+' ∷ [])
    ∷ typing 0xFFAD (b'-' ∷ []) (b'-' ∷ [])
    ∷ typing 0xFFAE (b'.' ∷ []) (b'.' ∷ [])
    ∷ typing 0xFFAF (b'/' ∷ []) (b'/' ∷ [])
    ∷ typing 0xFFB0 (b'0' ∷ []) (b'0' ∷ [])
    ∷ typing 0xFFB1 (b'1' ∷ []) (b'1' ∷ [])
    ∷ typing 0xFFB2 (b'2' ∷ []) (b'2' ∷ [])
    ∷ typing 0xFFB3 (b'3' ∷ []) (b'3' ∷ [])
    ∷ typing 0xFFB4 (b'4' ∷ []) (b'4' ∷ [])
    ∷ typing 0xFFB5 (b'5' ∷ []) (b'5' ∷ [])
    ∷ typing 0xFFB6 (b'6' ∷ []) (b'6' ∷ [])
    ∷ typing 0xFFB7 (b'7' ∷ []) (b'7' ∷ [])
    ∷ typing 0xFFB8 (b'8' ∷ []) (b'8' ∷ [])
    ∷ typing 0xFFB9 (b'9' ∷ []) (b'9' ∷ [])
    ∷ plain 0xFFBE (b'F' ∷ b'1' ∷ [])
    ∷ plain 0xFFBF (b'F' ∷ b'2' ∷ [])
    ∷ plain 0xFFC0 (b'F' ∷ b'3' ∷ [])
    ∷ plain 0xFFC1 (b'F' ∷ b'4' ∷ [])
    ∷ plain 0xFFC2 (b'F' ∷ b'5' ∷ [])
    ∷ plain 0xFFC3 (b'F' ∷ b'6' ∷ [])
    ∷ plain 0xFFC4 (b'F' ∷ b'7' ∷ [])
    ∷ plain 0xFFC5 (b'F' ∷ b'8' ∷ [])
    ∷ plain 0xFFC6 (b'F' ∷ b'9' ∷ [])
    ∷ plain 0xFFC7 (b'F' ∷ b'1' ∷ b'0' ∷ [])
    ∷ plain 0xFFC8 (b'F' ∷ b'1' ∷ b'1' ∷ [])
    ∷ plain 0xFFC9 (b'F' ∷ b'1' ∷ b'2' ∷ [])
    ∷ plain 0xFFCA (b'F' ∷ b'1' ∷ b'3' ∷ [])
    ∷ plain 0xFFCB (b'F' ∷ b'1' ∷ b'4' ∷ [])
    ∷ plain 0xFFCC (b'F' ∷ b'1' ∷ b'5' ∷ [])
    ∷ plain 0xFFCD (b'F' ∷ b'1' ∷ b'6' ∷ [])
    ∷ plain 0xFFCE (b'F' ∷ b'1' ∷ b'7' ∷ [])
    ∷ plain 0xFFCF (b'F' ∷ b'1' ∷ b'8' ∷ [])
    ∷ plain 0xFFD0 (b'F' ∷ b'1' ∷ b'9' ∷ [])
    ∷ plain 0xFFD1 (b'F' ∷ b'2' ∷ b'0' ∷ [])
    ∷ plain 0xFFD2 (b'F' ∷ b'2' ∷ b'1' ∷ [])
    ∷ plain 0xFFD3 (b'F' ∷ b'2' ∷ b'2' ∷ [])
    ∷ plain 0xFFD4 (b'F' ∷ b'2' ∷ b'3' ∷ [])
    ∷ plain 0xFFD5 (b'F' ∷ b'2' ∷ b'4' ∷ [])
    ∷ holding 0xFFE1 (b'S' ∷ b'h' ∷ b'i' ∷ b'f' ∷ b't' ∷ []) (some [])
    ∷ holding 0xFFE2 (b'S' ∷ b'h' ∷ b'i' ∷ b'f' ∷ b't' ∷ []) (some [])
    ∷ holding 0xFFE3 (b'C' ∷ b't' ∷ b'r' ∷ b'l' ∷ []) none
    ∷ holding 0xFFE4 (b'C' ∷ b't' ∷ b'r' ∷ b'l' ∷ []) none
    ∷ plain 0xFFE5 (b'C' ∷ b'a' ∷ b'p' ∷ b's' ∷ [])
    ∷ holding 0xFFE7 (b'M' ∷ b'e' ∷ b't' ∷ b'a' ∷ []) none
    ∷ holding 0xFFE8 (b'M' ∷ b'e' ∷ b't' ∷ b'a' ∷ []) none
    ∷ holding 0xFFE9 (b'A' ∷ b'l' ∷ b't' ∷ []) none
    ∷ holding 0xFFEA (b'A' ∷ b'l' ∷ b't' ∷ []) none
    ∷ holding 0xFFEB (b'S' ∷ b'u' ∷ b'p' ∷ b'e' ∷ b'r' ∷ []) none
    ∷ holding 0xFFEC (b'S' ∷ b'u' ∷ b'p' ∷ b'e' ∷ b'r' ∷ []) none
    ∷ holding 0xFFED (b'H' ∷ b'y' ∷ b'p' ∷ b'e' ∷ b'r' ∷ []) none
    ∷ holding 0xFFEE (b'H' ∷ b'y' ∷ b'p' ∷ b'e' ∷ b'r' ∷ []) none
    ∷ plain 0xFFFF (b'D' ∷ b'e' ∷ b'l' ∷ b'e' ∷ b't' ∷ b'e' ∷ [])
    ∷ []
