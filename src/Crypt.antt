-- ===== src/Crypt.antt =====
-- crypt.py: the XOR obfuscation of protocols 05 and 06.
pub mod Keystream
mod Tests
use Prim.Native.Nat.{bit_xor}
use growatt_datalogger.Base.{
  List, [], contains, drop, if◌then◌else◌, leb, length, suc, take, zero, ℕ, ◌++◌, ◌+◌, ◌/◌, ◌∷◌,
}
use growatt_datalogger.Python.{Bytes}

-- b"Growatt"
abbrev pub key : Bytes
key = 71 ∷ 114 ∷ 111 ∷ 119 ∷ 97 ∷ 116 ∷ 116 ∷ []

abbrev pub header_length : ℕ
header_length = 8

abbrev pub obfuscated_protocols : List ℕ
obfuscated_protocols = 5 ∷ 6 ∷ []

abbrev pub supported_protocols : List ℕ
supported_protocols = 2 ∷ 5 ∷ 6 ∷ []

-- `bytes * n`
unfoldable pub repeated : ℕ → Bytes → Bytes
repeated zero bs = []
repeated (suc n) bs = bs ++ repeated n bs

-- `bytes(a ^ b for a, b in zip(body, keystream, strict=True))`; the keystream is as long as the
-- body (`Crypt.Keystream.length-keystream`), so that the strict zip does not raise
unfoldable pub xor_zip : Bytes → Bytes → Bytes
xor_zip [] keystream = []
xor_zip (a ∷ body) [] = []
xor_zip (a ∷ body) (b ∷ keystream) = bit_xor a b ∷ xor_zip body keystream

-- The key repeated `-(-n // 7)` times, which is n / 7 rounded up, then truncated.
unfoldable pub keystream : ℕ → Bytes
keystream n = take n (repeated ((n + 6) / 7) key)

unfoldable pub xor_payload : Bytes → Bytes
xor_payload frame =
    if leb (length frame) header_length
    then frame
    else take header_length frame
      ++ xor_zip (drop header_length frame) (keystream (length (drop header_length frame)))

unfoldable pub deobfuscate : Bytes → ℕ → Bytes
deobfuscate frame protocol =
    if contains obfuscated_protocols protocol then xor_payload frame else frame

unfoldable pub obfuscate : Bytes → ℕ → Bytes
obfuscate frame protocol = deobfuscate frame protocol
