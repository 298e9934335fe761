-- ===== src/Crypt/Keystream.antt =====
-- The keystream is the key read modulo its length, and mixing it in twice changes nothing.
use Prim.Native.Nat.{bit_xor}
use growatt_datalogger.Base.{
  Bool-cases, [], ap, append-nil, ap₂, arith, contains, drop, drop-append, get_elem?,
  get_elem?-append_right, get_elem?-lt, get_elem?_ext, gt→leb, inl, inr, leb, leb→gt, length,
  length-append, length-drop, length-take, le→leb, refl, some, suc, sym, take, take-append,
  take-append-drop, zero, ℕ, ◌%◌, ◌*◌, ◌++◌, ◌+◌, ◌/◌, ◌<◌, ◌∙◌, ◌∷◌, ◌≡◌, ◌≤◌,
}
use growatt_datalogger.Base.Bits.{bit_xor_cancel}
use growatt_datalogger.Crypt.{
  deobfuscate, header_length, key, keystream, obfuscate, obfuscated_protocols, repeated,
  xor_payload, xor_zip,
}
use growatt_datalogger.Python.{Bytes}

pub xor_zip-get_elem? :
    (body stream : Bytes) (i a k : ℕ)
    → get_elem? body i ≡ some a
    → get_elem? stream i ≡ some k
    → get_elem? (xor_zip body stream) i ≡ some (bit_xor a k)
unfolding xor_zip
xor_zip-get_elem? (a ∷ body) (k ∷ stream) zero x y p q = cc
xor_zip-get_elem? (a ∷ body) (k ∷ stream) (suc i) x y p q = xor_zip-get_elem? body stream i x y p q
xor_zip-get_elem? [] stream i x y p q = cc
xor_zip-get_elem? (a ∷ body) [] i x y p q = cc

pub get_elem?-take : (n i : ℕ) (bs : Bytes) → i < n → get_elem? (take n bs) i ≡ get_elem? bs i
get_elem?-take zero i bs h = elim h [ ]
get_elem?-take (suc n) i [] h = refl
get_elem?-take (suc n) zero (b ∷ bs) h = refl
get_elem?-take (suc n) (suc i) (b ∷ bs) h = get_elem?-take n i bs (omega arith)

length-repeated : (n : ℕ) → length (repeated n key) ≡ 7 * n
unfolding repeated
length-repeated zero = refl
length-repeated (suc n) = omega (arith, length-append key (repeated n key), length-repeated n)

pub length-keystream : (n : ℕ) → length (keystream n) ≡ n
unfolding keystream
length-keystream n =
    omega (arith, length-take n (repeated ((n + 6) / 7) key), length-repeated ((n + 6) / 7))

-- Byte `i` of the repeated key is byte `i % 7` of the key.
get_elem?-repeated : (n i : ℕ) → i < 7 * n → get_elem? (repeated n key) i ≡ get_elem? key (i % 7)
unfolding repeated
get_elem?-repeated zero i h = absurd (omega arith)
get_elem?-repeated (suc n) zero h = refl
get_elem?-repeated (suc n) (suc zero) h = refl
get_elem?-repeated (suc n) (suc (suc zero)) h = refl
get_elem?-repeated (suc n) (suc (suc (suc zero))) h = refl
get_elem?-repeated (suc n) (suc (suc (suc (suc zero)))) h = refl
get_elem?-repeated (suc n) (suc (suc (suc (suc (suc zero))))) h = refl
get_elem?-repeated (suc n) (suc (suc (suc (suc (suc (suc zero)))))) h = refl
get_elem?-repeated (suc n) (suc (suc (suc (suc (suc (suc (suc i))))))) h =
    get_elem?-repeated n i (omega arith) ∙ ap (get_elem? key) (omega arith)

pub keystream-get_elem? : (n i : ℕ) → i < n → get_elem? (keystream n) i ≡ get_elem? key (i % 7)
unfolding keystream
keystream-get_elem? n i h =
    get_elem?-take n i _ h ∙ get_elem?-repeated ((n + 6) / 7) i (omega arith)

pub length-xor_zip :
    (body stream : Bytes) → length body ≡ length stream → length (xor_zip body stream) ≡ length body
unfolding xor_zip
length-xor_zip [] stream e = refl
length-xor_zip (a ∷ body) [] e = absurd (omega arith)
length-xor_zip (a ∷ body) (k ∷ stream) e = ap suc (length-xor_zip body stream (omega arith))

xor_zip_twice :
    (body stream : Bytes)
    → length body ≡ length stream
    → xor_zip (xor_zip body stream) stream ≡ body
unfolding xor_zip
xor_zip_twice [] stream e = refl
xor_zip_twice (a ∷ body) [] e = absurd (omega arith)
xor_zip_twice (a ∷ body) (k ∷ stream) e =
    ap₂ ◌∷◌ (bit_xor_cancel a k) (xor_zip_twice body stream (omega arith))

-- The obfuscation of a frame that is header and body.
pub xor_payload-append :
    (header body : Bytes)
    → length header ≡ header_length
    → xor_payload (header ++ body) ≡ header ++ xor_zip body (keystream (length body))
unfolding xor_payload
xor_payload-append header [] e =
    rw (append-nil, le→leb (length header) 8 (omega arith))
      (sym (unfold xor_zip in append-nil header))
xor_payload-append header (a ∷ body) e =
    rw
      (
        gt→leb (length (header ++ a ∷ body)) 8 (omega (arith, length-append header (a ∷ body))),
        take-append header (a ∷ body) 8 (omega arith),
        drop-append header (a ∷ body) 8 (omega arith),
      )
      refl

pub length-xor_payload : (frame : Bytes) → length (xor_payload frame) ≡ length frame
unfolding xor_payload
length-xor_payload frame = elim (Bool-cases (leb (length frame) 8)) [
  | inl small ↦ rw small
  | inr big ↦
      let body : Bytes = drop 8 frame in
      rw big (
        omega (
          arith,
          length-append (take 8 frame) (xor_zip body (keystream (length body))),
          length-take 8 frame,
          length-drop 8 frame,
          length-xor_zip body (keystream (length body)) (sym (length-keystream (length body))),
          leb→gt _ _ big,
        ))
]

-- Obfuscation is its own inverse.
pub xor_payload_twice : (frame : Bytes) → xor_payload (xor_payload frame) ≡ frame
xor_payload_twice frame = elim (Bool-cases (leb (length frame) 8)) [
  | inl small ↦ let e : xor_payload frame ≡ frame = unfold xor_payload in rw small in rw (e, e)
  | inr big ↦
      let header : Bytes = take 8 frame in
      let body : Bytes = drop 8 frame in
      let n : length header ≡ 8 = omega (arith, length-take 8 frame, leb→gt _ _ big) in
      let stream : Bytes = keystream (length body) in
      let same : length body ≡ length stream = sym (length-keystream (length body)) in
      let once : xor_payload frame ≡ header ++ xor_zip body stream =
        ap xor_payload (sym (take-append-drop 8 frame)) ∙ xor_payload-append header body n in
      let again : xor_payload (header ++ xor_zip body stream) ≡ header ++ body =
        xor_payload-append header (xor_zip body stream) n
        ∙ ap (λ (t : ℕ). header ++ xor_zip (xor_zip body stream) (keystream t))
            (length-xor_zip body stream same)
        ∙ ap (λ (t : Bytes). header ++ t) (xor_zip_twice body stream same) in
      ap xor_payload once ∙ again ∙ take-append-drop 8 frame
]

-- Obfuscating any bytes for any protocol version and undoing it gives the bytes back.
pub deobfuscate-obfuscate :
    (frame : Bytes) (protocol : ℕ) → deobfuscate (obfuscate frame protocol) protocol ≡ frame
unfolding obfuscate deobfuscate
deobfuscate-obfuscate frame protocol = elim (Bool-cases (contains obfuscated_protocols protocol)) [
  | inl yes_ ↦ rw (yes_, xor_payload_twice frame)
  | inr no_ ↦ rw no_
]

take-xor_zip :
    (n : ℕ) (body stream : Bytes)
    → take n (xor_zip body stream) ≡ xor_zip (take n body) (take n stream)
unfolding xor_zip
take-xor_zip zero body stream = refl
take-xor_zip (suc n) [] stream = refl
take-xor_zip (suc n) (a ∷ body) [] = refl
take-xor_zip (suc n) (a ∷ body) (k ∷ stream) =
    ap (λ (t : Bytes). bit_xor a k ∷ t) (take-xor_zip n body stream)

-- A shorter keystream is the beginning of a longer one.
take-keystream : (n m : ℕ) → n ≤ m → take n (keystream m) ≡ keystream n
take-keystream n m h =
    let size = length-take n (keystream m) in
    get_elem?_ext (take n (keystream m)) (keystream n)
      (omega (arith, length-keystream m, length-keystream n))
      (λ i p.
        let q : i < n = omega (arith, length-keystream m) in
        get_elem?-take n i (keystream m) q
        ∙ keystream-get_elem? m i (omega arith)
        ∙ sym (keystream-get_elem? n i q))

-- The two bytes of a checksum behind an obfuscated body do not disturb what is read before them.
pub take-xor_zip-append :
    (body crc : Bytes)
    → take (length body) (
        xor_zip
          (xor_zip body (keystream (length body)) ++ crc)
          (keystream (length body + length crc)))
      ≡ body
take-xor_zip-append body crc =
    let n : ℕ = length body in
    let once : Bytes = xor_zip body (keystream n) in
    let same : length body ≡ length (keystream n) = sym (length-keystream n) in
    take-xor_zip n (once ++ crc) (keystream (n + length crc))
    ∙ ap₂ xor_zip (take-append once crc n (sym (length-xor_zip body (keystream n) same)))
        (take-keystream n (n + length crc) (omega arith))
    ∙ xor_zip_twice body (keystream n) same

-- The header goes over the wire in clear.
pub take-xor_payload :
    (frame : Bytes) → take header_length (xor_payload frame) ≡ take header_length frame
unfolding xor_payload
take-xor_payload frame = elim (Bool-cases (leb (length frame) 8)) [
  | inl small ↦ rw small
  | inr big ↦
      rw big (take-append (take 8 frame) _ 8 (omega (arith, length-take 8 frame, leb→gt _ _ big)))
]

-- Obfuscation mixes byte `i` of the body, counted behind the header of eight bytes, with byte `i
-- % 7` of the key, for every body that reaches that far.
pub xor_payload-get_elem? :
    (frame : Bytes) (i a k : ℕ)
    → get_elem? frame (header_length + i) ≡ some a
    → get_elem? key (i % 7) ≡ some k
    → get_elem? (xor_payload frame) (header_length + i) ≡ some (bit_xor a k)
xor_payload-get_elem? frame i a k p q =
    let header : Bytes = take 8 frame in
    let body : Bytes = drop 8 frame in
    let big = get_elem?-lt frame (8 + i) a p in
    let n : length header ≡ 8 = omega (arith, length-take 8 frame) in
    let at : get_elem? body i ≡ some a =
      sym (get_elem?-append_right header body i (8 + i) (omega arith))
      ∙ ap (λ (t : Bytes). get_elem? t (8 + i)) (take-append-drop 8 frame)
      ∙ p in
    let in_body : i < length body = get_elem?-lt body i a at in
    ap (λ (t : Bytes). get_elem? (xor_payload t) (8 + i)) (sym (take-append-drop 8 frame))
    ∙ ap (λ (t : Bytes). get_elem? t (8 + i)) (xor_payload-append header body n)
    ∙ get_elem?-append_right header (xor_zip body (keystream (length body))) i (8 + i) (omega arith)
    ∙ xor_zip-get_elem? body (keystream (length body)) i a k at
        (keystream-get_elem? (length body) i in_body ∙ q)
