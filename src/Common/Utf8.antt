-- ===== src/Common/Utf8.antt =====
-- `std::str::from_utf8`: the code points of a valid UTF-8 text.
use Prim.Native.Nat.{ℕ, ◌+◌, ◌-◌, ◌*◌}
use mathlib.Core.Bool.{◌&&◌}
use mathlib.Core.Option.{Option, none, some}
use mathlib.Core.List.{List, [], ◌∷◌, ◌++◌}
use agentmesh_private.Common.Tests.{ltb, leb, ◌==◌, if◌then◌else◌}
use agentmesh_private.Common.Texts.{Text}

-- What a leading byte asks for: continuation bytes, the range of the first, the bits so far.
pub record Pending : Type 0 where
  pub need : ℕ
  pub low : ℕ
  pub high : ℕ
  pub bits : ℕ

abbrev pub settled : Pending
settled = record { need = 0; low = 0x80; high = 0xbf; bits = 0 }

abbrev pending : ℕ → ℕ → ℕ → ℕ → Option Pending
pending n l h b = some (record { need = n; low = l; high = h; bits = b })

lead : ℕ → Option Pending
lead b =
    if ltb b 0xc2
    then none
    else if ltb b 0xe0
    then pending 1 0x80 0xbf (b - 0xc0)
    else if b == 0xe0
    then pending 2 0xa0 0xbf 0
    else if b == 0xed
    then pending 2 0x80 0x9f 13
    else if ltb b 0xf0
    then pending 2 0x80 0xbf (b - 0xe0)
    else if b == 0xf0
    then pending 3 0x90 0xbf 0
    else if ltb b 0xf4
    then pending 3 0x80 0xbf (b - 0xf0)
    else if b == 0xf4
    then pending 3 0x80 0x8f 4
    else none

-- One byte of a UTF-8 text: what is pending after it, and a code point if it ends one.
unfoldable pub utf8_byte : Pending → ℕ → Option (Pending × List ℕ)
unfolding lead
utf8_byte p b =
    if p.need == 0
    then (if ltb b 0x80
        then some (settled, b ∷ [])
        else elim (lead b) [ none ↦ none | some q ↦ some (q, []) ])
    else if leb p.low b && leb b p.high
    then (let acc = p.bits * 64 + (b - 0x80) in
        if p.need == 1
        then some (settled, acc ∷ [])
        else some (record { need = p.need - 1; low = 0x80; high = 0xbf; bits = acc }, []))
    else none

unfoldable pub utf8_from : Pending → Text → Option (List ℕ)
unfolding utf8_byte
utf8_from p [] = if p.need == 0 then some [] else none
utf8_from p (b ∷ s) = elim (utf8_byte p b) [
  | none ↦ none
  | some (q, out) ↦ elim (utf8_from q s) [ none ↦ none | some rest ↦ some (out ++ rest) ]
]

-- `std::str::from_utf8`.
unfoldable pub from_utf8 : Text → Option (List ℕ)
unfolding utf8_from
from_utf8 s = utf8_from settled s
