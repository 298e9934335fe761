-- ===== src/Crypt/Tests.antt =====
-- Runs and instances of the obfuscation.
use Prim.Native.Nat.{bit_xor}
use growatt_datalogger.Base.{[], get_elem?, refl, some, ◌+◌, ◌∷◌, ◌≡◌}
use growatt_datalogger.Crypt.{deobfuscate, keystream, obfuscate, repeated, xor_payload, xor_zip}
use growatt_datalogger.Crypt.Keystream.{deobfuscate-obfuscate, xor_payload-get_elem?}
use growatt_datalogger.Python.{Bytes}

abbrev frame : Bytes
frame = 0 ∷ 1 ∷ 0 ∷ 6 ∷ 0 ∷ 4 ∷ 1 ∷ 4 ∷ 0 ∷ 114 ∷ []

obfuscated : xor_payload frame ≡ 0 ∷ 1 ∷ 0 ∷ 6 ∷ 0 ∷ 4 ∷ 1 ∷ 4 ∷ 71 ∷ 0 ∷ []
unfolding xor_payload xor_zip keystream repeated
obfuscated = refl

deobfuscate-obfuscate_example : deobfuscate (obfuscate frame 6) 6 ≡ frame
deobfuscate-obfuscate_example = deobfuscate-obfuscate frame 6

xor_payload-get_elem?_example : get_elem? (xor_payload frame) (8 + 1) ≡ some (bit_xor 114 114)
xor_payload-get_elem?_example = xor_payload-get_elem? frame 1 114 114 refl refl
